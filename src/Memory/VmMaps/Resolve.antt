-- ===== src/Memory/VmMaps/Resolve.antt =====
-- The address space that the table of kern/memory/vm_maps.c stands for: which physical address and
-- flags each virtual address has, and what the operations change of it.
use astral_os.Common.{
  ℕ, zero, suc, ◌+◌, ◌-◌, ◌^◌, ◌<◌, ◌≡◌, ◌≢◌, ◌⊎◌, inl, inr, refl, subst, Bool, true, false, not,
  ◌&&◌, Option, none, some, List, [], ◌∷◌, arith, if◌then◌else◌, ltb, leb, ◌==◌, Bool-cases, ==_ne,
  set, get_elem?, Status, ok, error,
}
use astral_os.Memory.VmMaps.{
  VmMapEntry, Vm, entry, is_free, vm_prot_free, find_free_vm_map_entry_slot, check_range_overlap,
  consed, set_flags, changed, vm_map_add_entry, vm_map, vm_protect, vm_unmap,
}
use astral_os.Memory.VmMaps.Table.{
  Apart, Apart-sym, Clear, IsDisjoint, IsDisjoint-AllFit, check_range_overlap-Clear,
  find_slot_from-free, reflag,
}

pub record Mapped : Type 0 where
  pub physical : ℕ
  pub flags : ℕ

-- The addresses of a mapping in use.
abbrev pub covers : VmMapEntry → ℕ → Bool
covers e a = not (is_free e) && (leb e.virtual_address a && ltb a (e.virtual_address + e.size))

abbrev pub mapped : VmMapEntry → ℕ → Mapped
mapped e a = record {
  physical = e.physical_address + (a - e.virtual_address);
  flags = e.protection_flags;
}

unfoldable pub resolve : List VmMapEntry → ℕ → Option Mapped
resolve [] a = none
resolve (e ∷ es) a = if covers e a then some (mapped e a) else resolve es a

Apart-covers : (e k : VmMapEntry) (a : ℕ) → Apart e k → covers e a ≡ true → covers k a ≡ false
Apart-covers e k a apart c = elim (Bool-cases (is_free k)) [
  | inl free ↦ ground arith
  | inr used ↦ let sides = apart (ground arith) used in ground arith
]

resolve-Clear :
    (e : VmMapEntry) (es : List VmMapEntry) (a : ℕ)
    → Clear e es
    → covers e a ≡ true
    → resolve es a ≡ none
unfolding resolve
resolve-Clear e [] a c h = refl
resolve-Clear e (k ∷ ks) a c h = rw (Apart-covers e k a c.0 h) (resolve-Clear e ks a c.1 h)

-- A mapping put in a free slot, apart from all others, adds its own addresses.
resolve-set :
    (new old : VmMapEntry) (es : List VmMapEntry) (i a : ℕ)
    → get_elem? es i ≡ some old
    → is_free old ≡ true
    → Clear new es
    → resolve (set es i new) a ≡ (if covers new a then some (mapped new a) else resolve es a)
unfolding resolve
resolve-set new old [] i a at free c = absurd (ground arith)
resolve-set new old (e ∷ es) zero a at free c =
    let gone : covers e a ≡ false = ground arith in rw gone refl
resolve-set new old (e ∷ es) (suc i) a at free c = elim (Bool-cases (covers e a)) [
  | inl hit ↦ rw (hit, Apart-covers e new a (Apart-sym new e c.0) hit) refl
  | inr miss ↦ rw miss (resolve-set new old es i a at free c.1)
]

-- On a table whose mappings in use are disjoint, `vm_map` of a range that ends below 2^64 and meets none of them, with
-- a slot free and flags other than `VM_PROT_FREE`, maps the addresses of the range one to one from `pa` on, and changes no other.
pub vm_map-resolve :
    (vm : Vm) (va pa size prot i : ℕ)
    → IsDisjoint vm.vm_map_entries
    → va + size < 2 ^ 64
    → prot ≢ vm_prot_free
    → check_range_overlap vm.vm_map_entries va size ≡ false
    → find_free_vm_map_entry_slot vm.vm_map_entries ≡ some i
    → (a : ℕ)
    → resolve (vm_map vm va pa size prot).1.vm_map_entries a ≡ (
        if leb va a && ltb a (va + size)
        then some (record { physical = pa + (a - va); flags = prot })
        else resolve vm.vm_map_entries a)
unfolding vm_map vm_map_add_entry find_free_vm_map_entry_slot
vm_map-resolve vm va pa size prot i d small use_flags room slot a =
    let es : List VmMapEntry = vm.vm_map_entries in
    let (k, old, at, get, free) = find_slot_from-free 0 es i slot in
    let clear = check_range_overlap-Clear es va pa size prot small (IsDisjoint-AllFit es d) room in
    let here : i ≡ k = omega arith in
    rw
      (
        room,
        slot,
        here,
        resolve-set (entry va pa size prot) old es k a get free clear,
        ==_ne prot vm_prot_free use_flags,
      )
      refl

abbrev Has : VmMapEntry → List VmMapEntry → Type 0
Has e [] = ⊥
Has e (k ∷ ks) = (k ≡ e) ⊎ Has e ks

Clear-Has : (e k : VmMapEntry) (ks : List VmMapEntry) → Clear e ks → Has k ks → Apart e k
Clear-Has e k [] c h = absurd h
Clear-Has e k (l ∷ ls) c (inl same) = subst (Apart e) same c.0
Clear-Has e k (l ∷ ls) c (inr h) = Clear-Has e k ls c.1 h

-- No mapping in use starts at `va`.
abbrev pub NoneAt : ℕ → List VmMapEntry → Type 0
NoneAt va [] = Unit
NoneAt va (e ∷ es) = (is_free e ≡ false → e.virtual_address ≢ va) × NoneAt va es

-- The addresses of one mapping `e` of the table, in use and starting at `va`, get other flags, or
-- none at all where the flags say that it is free. All other addresses stay as they are.
pub record Reflagged (es : List VmMapEntry) (va prot : ℕ) (es' : List VmMapEntry) : Type 0 where
  pub e : VmMapEntry
  pub has : Has e es
  pub used : is_free e ≡ false
  pub start : e.virtual_address ≡ va
  pub same :
      (a : ℕ)
      → resolve es' a ≡ (
          if covers e a
          then (if prot == vm_prot_free then none else some (mapped (reflag e prot) a))
          else resolve es a)

abbrev pub ReflaggedOption : List VmMapEntry → (va prot : ℕ) → Option (List VmMapEntry) → Type 0
ReflaggedOption es va prot none = NoneAt va es
ReflaggedOption es va prot (some es') = Reflagged es va prot es'

Reflagged-here :
    (e : VmMapEntry) (es : List VmMapEntry) (va prot : ℕ)
    → Clear e es
    → is_free e ≡ false
    → e.virtual_address ≡ va
    → Reflagged (e ∷ es) va prot (reflag e prot ∷ es)
unfolding resolve
Reflagged-here e es va prot c used at = record {
  e = e;
  has = inl refl;
  used = used;
  start = at;
  same = λ a. ground (arith, resolve-Clear e es a c);
}

Reflagged-cons :
    (k : VmMapEntry) (es es' : List VmMapEntry) (va prot : ℕ)
    → Clear k es
    → Reflagged es va prot es'
    → Reflagged (k ∷ es) va prot (k ∷ es')
unfolding resolve
Reflagged-cons k es es' va prot c r = record {
  e = r.e;
  has = inr r.has;
  used = r.used;
  start = r.start;
  same = λ a. elim (Bool-cases (covers k a)) [
    | inl hit ↦ rw (hit, Apart-covers k r.e a (Clear-Has k r.e es c r.has) hit) refl
    | inr miss ↦ rw miss (r.same a)
  ];
}

ReflaggedOption-consed :
    (k : VmMapEntry) (es : List VmMapEntry) (va prot : ℕ) (o : Option (List VmMapEntry))
    → (k.virtual_address == va && not (is_free k)) ≡ false
    → Clear k es
    → ReflaggedOption es va prot o
    → ReflaggedOption (k ∷ es) va prot (consed k o)
ReflaggedOption-consed k es va prot none miss c r = (λ used. ground arith, r)
ReflaggedOption-consed k es va prot (some es') miss c r = Reflagged-cons k es es' va prot c r

set_flags-Reflagged :
    (es : List VmMapEntry) (va prot : ℕ)
    → IsDisjoint es
    → ReflaggedOption es va prot (set_flags es va prot)
unfolding set_flags
set_flags-Reflagged [] va prot d = tt
set_flags-Reflagged (e ∷ es) va prot (f, c, d) =
    elim (Bool-cases (e.virtual_address == va && not (is_free e))) [
      | inl hit ↦ rw hit (Reflagged-here e es va prot c (ground arith) (ground arith))
      | inr miss ↦
          rw miss (ReflaggedOption-consed e es va prot _ miss c (set_flags-Reflagged es va prot d))
    ]

-- The call fails and changes nothing where no mapping in use starts at `va`, and else gives other
-- flags to the addresses of one that does, and flushes.
abbrev pub Changed : Vm → (va prot : ℕ) → Status × Vm → Type 0
Changed vm va prot (error, vm') = (vm' ≡ vm) × NoneAt va vm.vm_map_entries
Changed vm va prot (ok, vm') =
    Reflagged vm.vm_map_entries va prot vm'.vm_map_entries × (vm'.tlb_flushes ≡ vm.tlb_flushes + 1)

Changed-option :
    (vm : Vm) (va prot : ℕ) (o : Option (List VmMapEntry))
    → ReflaggedOption vm.vm_map_entries va prot o
    → Changed vm va prot (changed vm o)
Changed-option vm va prot none r = (refl, r)
Changed-option vm va prot (some es) r = (r, refl)

-- `vm_protect` with mappings that share no address: it fails and changes nothing where no mapping in
-- use starts at `va`; else one that does gets the new flags at all its addresses (they become
-- unmapped where the flags are `VM_PROT_FREE`), no other address changes, and the TLB is flushed.
pub vm_protect-Changed :
    (vm : Vm) (va size prot : ℕ)
    → IsDisjoint vm.vm_map_entries
    → Changed vm va prot (vm_protect vm va size prot)
unfolding vm_protect
vm_protect-Changed vm va size prot d =
    Changed-option vm va prot _ (set_flags-Reflagged vm.vm_map_entries va prot d)

-- `vm_unmap` with mappings that share no address: it fails and changes nothing where no mapping in
-- use starts at `va`; else the addresses of one that does become unmapped, whatever the size asked
-- for, no other address changes, and the TLB is flushed.
pub vm_unmap-Changed :
    (vm : Vm) (va size : ℕ)
    → IsDisjoint vm.vm_map_entries
    → Changed vm va vm_prot_free (vm_unmap vm va size)
unfolding vm_unmap
vm_unmap-Changed vm va size d =
    Changed-option vm va vm_prot_free _ (set_flags-Reflagged vm.vm_map_entries va vm_prot_free d)
