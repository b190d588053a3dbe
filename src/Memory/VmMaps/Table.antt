-- ===== src/Memory/VmMaps/Table.antt =====
-- The invariant of the table of kern/memory/vm_maps.c: no two mappings in use share an address.
use astral_os.Common.{
  ℕ, zero, suc, ◌+◌, ◌^◌, ◌≤◌, ◌<◌, ◌≡◌, ◌⊎◌, inl, inr, refl, true, false, not, ◌&&◌, Option, none,
  some, List, [], ◌∷◌, arith, map, ◌==◌, Bool-cases, set, get_elem?,
}
use astral_os.Memory.VmMaps.{
  VmMapEntry, entry, is_free, freed, find_slot_from, check_range_overlap, consed, set_flags,
}

-- Neither holds an address of the other, or one of them is not in use.
abbrev pub Apart : VmMapEntry → VmMapEntry → Type 0
Apart e k =
    (is_free e ≡ false)
    → (is_free k ≡ false)
    → (e.virtual_address + e.size ≤ k.virtual_address)
      ⊎ (k.virtual_address + k.size ≤ e.virtual_address)

abbrev pub Clear : VmMapEntry → List VmMapEntry → Type 0
Clear e [] = Unit
Clear e (k ∷ ks) = Apart e k × Clear e ks

-- A mapping in use ends within 64 bits.
abbrev pub Fits : VmMapEntry → Type 0
Fits e = is_free e ≡ false → e.virtual_address + e.size < 2 ^ 64

-- The mappings in use end within 64 bits and share no address.
abbrev pub IsDisjoint : List VmMapEntry → Type 0
IsDisjoint [] = Unit
IsDisjoint (e ∷ es) = Fits e × Clear e es × IsDisjoint es

abbrev pub AllFit : List VmMapEntry → Type 0
AllFit [] = Unit
AllFit (e ∷ es) = Fits e × AllFit es

pub IsDisjoint-AllFit : (es : List VmMapEntry) → IsDisjoint es → AllFit es
IsDisjoint-AllFit [] d = tt
IsDisjoint-AllFit (e ∷ es) (f, c, d) = (f, IsDisjoint-AllFit es d)

pub Apart-sym : (e k : VmMapEntry) → Apart e k → Apart k e
Apart-sym e k a used used' = elim (a used' used) [ inl below ↦ inr below | inr above ↦ inl above ]

-- Where the overlap test fails, a new mapping is apart from all others.
pub check_range_overlap-Clear :
    (es : List VmMapEntry) (va pa size prot : ℕ)
    → va + size < 2 ^ 64
    → AllFit es
    → check_range_overlap es va size ≡ false
    → Clear (entry va pa size prot) es
unfolding check_range_overlap
check_range_overlap-Clear [] va pa size prot small fit e = tt
check_range_overlap-Clear (k ∷ ks) va pa size prot small (f, fs) e = (
  λ used used'. let room = f used' in ground arith,
  check_range_overlap-Clear ks va pa size prot small fs (ground arith),
)

-- The slot found is free and in the table.
pub find_slot_from-free :
    (i : ℕ) (es : List VmMapEntry) (j : ℕ)
    → find_slot_from i es ≡ some j
    → (k : ℕ) × (e : VmMapEntry) × (j ≡ i + k) × (get_elem? es k ≡ some e) × (is_free e ≡ true)
unfolding find_slot_from
find_slot_from-free i [] j h = absurd (ground arith)
find_slot_from-free i (e ∷ es) j h = elim (Bool-cases (is_free e)) [
  | inl free ↦ (0, e, ground arith, refl, free)
  | inr used ↦
      let (k, e', at, get, free) = find_slot_from-free (suc i) es j (ground arith) in
      (suc k, e', omega arith, get, free)
]

Clear-set :
    (e new : VmMapEntry) (ks : List VmMapEntry) (i : ℕ)
    → Apart e new
    → Clear e ks
    → Clear e (set ks i new)
Clear-set e new [] i a c = tt
Clear-set e new (k ∷ ks) zero a c = (a, c.1)
Clear-set e new (k ∷ ks) (suc i) a c = (c.0, Clear-set e new ks i a c.1)

-- A new mapping that fits and is apart from all others may take any slot.
pub IsDisjoint-set :
    (new : VmMapEntry) (es : List VmMapEntry) (i : ℕ)
    → Fits new
    → Clear new es
    → IsDisjoint es
    → IsDisjoint (set es i new)
IsDisjoint-set new [] i f c d = tt
IsDisjoint-set new (e ∷ es) zero f c d = (f, c.1, d.2)
IsDisjoint-set new (e ∷ es) (suc i) f c d =
    (d.0, Clear-set e new es i (Apart-sym new e c.0) d.1, IsDisjoint-set new es i f c.1 d.2)

-- The same range with other flags.
abbrev pub reflag : VmMapEntry → ℕ → VmMapEntry
reflag e prot = record e { protection_flags = prot }

abbrev pub IsDisjointOption : Option (List VmMapEntry) → Type 0
IsDisjointOption none = Unit
IsDisjointOption (some es) = IsDisjoint es

Clear-reflag :
    (e : VmMapEntry) (prot : ℕ) (ks : List VmMapEntry)
    → is_free e ≡ false
    → Clear e ks
    → Clear (reflag e prot) ks
Clear-reflag e prot [] used c = tt
Clear-reflag e prot (k ∷ ks) used c = (λ _ used'. c.0 used used', Clear-reflag e prot ks used c.1)

abbrev ClearOption : VmMapEntry → Option (List VmMapEntry) → Type 0
ClearOption e none = Unit
ClearOption e (some es) = Clear e es

ClearOption-consed :
    (e k : VmMapEntry) (o : Option (List VmMapEntry))
    → Apart e k
    → ClearOption e o
    → ClearOption e (consed k o)
ClearOption-consed e k none a c = tt
ClearOption-consed e k (some ks) a c = (a, c)

set_flags-Clear :
    (e : VmMapEntry) (ks : List VmMapEntry) (va prot : ℕ)
    → Clear e ks
    → ClearOption e (set_flags ks va prot)
unfolding set_flags
set_flags-Clear e [] va prot c = tt
set_flags-Clear e (k ∷ ks) va prot c =
    elim (Bool-cases (k.virtual_address == va && not (is_free k))) [
      | inl hit ↦ rw hit (λ used used'. c.0 used (ground arith), c.1)
      | inr miss ↦ rw miss (ClearOption-consed e k _ c.0 (set_flags-Clear e ks va prot c.1))
    ]

IsDisjointOption-consed :
    (e : VmMapEntry) (o : Option (List VmMapEntry))
    → Fits e
    → ClearOption e o
    → IsDisjointOption o
    → IsDisjointOption (consed e o)
IsDisjointOption-consed e none f c d = tt
IsDisjointOption-consed e (some es) f c d = (f, c, d)

-- New flags for the mapping at an address keep the ranges disjoint.
pub set_flags-IsDisjoint :
    (es : List VmMapEntry) (va prot : ℕ) → IsDisjoint es → IsDisjointOption (set_flags es va prot)
unfolding set_flags
set_flags-IsDisjoint [] va prot d = tt
set_flags-IsDisjoint (e ∷ es) va prot (f, c, d) =
    elim (Bool-cases (e.virtual_address == va && not (is_free e))) [
      | inl hit ↦
          let used : is_free e ≡ false = ground arith in
          rw hit ((λ _. f used), Clear-reflag e prot es used c, d)
      | inr miss ↦ rw miss (
          IsDisjointOption-consed e _ f (set_flags-Clear e es va prot c)
            (set_flags-IsDisjoint es va prot d))
    ]

Clear-freed : (e : VmMapEntry) (es : List VmMapEntry) → Clear (freed e) (map freed es)
Clear-freed e [] = tt
Clear-freed e (k ∷ ks) = (λ used used'. cc, Clear-freed e ks)

pub map-freed-IsDisjoint : (es : List VmMapEntry) → IsDisjoint (map freed es)
map-freed-IsDisjoint [] = tt
map-freed-IsDisjoint (e ∷ es) = (λ used. cc, Clear-freed e es, map-freed-IsDisjoint es)
