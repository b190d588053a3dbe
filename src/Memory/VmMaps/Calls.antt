-- ===== src/Memory/VmMaps/Calls.antt =====
-- Any sequence of calls of kern/memory/vm_maps.c keeps its table well formed.
use astral_os.Common.{
  ℕ, suc, ◌+◌, ◌^◌, ◌<◌, ◌≡◌, inl, inr, refl, ◌∙◌, subst, not, ◌&&◌, Option, none, some, List, [],
  ◌∷◌, arith, ◌==◌, Bool-cases, Option-cases, length, length-set, length-map, get_elem?-lt,
}
use astral_os.Memory.VmMaps.{
  VmMapEntry, Vm, entry, is_free, freed, vm_prot_free, max_vm_map_entries, find_slot_from,
  find_free_vm_map_entry_slot, check_range_overlap, consed, set_flags, changed, vm_init,
  vm_map_add_entry, vm_map, vm_protect, vm_unmap, vm_map_allocate, vm_map_deallocate,
}
use astral_os.Memory.VmMaps.Table.{
  IsDisjoint, IsDisjoint-AllFit, IsDisjointOption, check_range_overlap-Clear, find_slot_from-free,
  IsDisjoint-set, set_flags-IsDisjoint, map-freed-IsDisjoint,
}

-- The calls of the file, with their arguments.
pub data Call : Type 0 where
  maps : (va pa size prot : ℕ) → Call
  unmaps : (va size : ℕ) → Call
  protects : (va size prot : ℕ) → Call
  allocates : (size prot : ℕ) → Call
  deallocates : (va : ℕ) → Call

unfoldable pub step : Vm → Call → Vm
step vm (maps va pa size prot) = (vm_map vm va pa size prot).1
step vm (unmaps va size) = (vm_unmap vm va size).1
step vm (protects va size prot) = (vm_protect vm va size prot).1
step vm (allocates size prot) = (vm_map_allocate vm size prot).1
step vm (deallocates va) = (vm_map_deallocate vm va).1

unfoldable pub run : Vm → List Call → Vm
run vm [] = vm
run vm (c ∷ cs) = run (step vm c) cs

-- The range asked for does not go round the end of the 64-bit address space.
abbrev pub InRange : Call → Type 0
InRange (maps va pa size prot) = va + size < 2 ^ 64
InRange (allocates size prot) = size < 2 ^ 63
InRange _ = Unit

abbrev pub AllInRange : List Call → Type 0
AllInRange [] = Unit
AllInRange (c ∷ cs) = InRange c × AllInRange cs

-- The table has its 64 entries, and no two mappings in use share an address.
pub record IsValid (vm : Vm) : Type 0 where
  pub full : length vm.vm_map_entries ≡ max_vm_map_entries
  pub disjoint : IsDisjoint vm.vm_map_entries

vm_map_add_entry-IsValid :
    (vm : Vm) (va pa size prot : ℕ)
    → va + size < 2 ^ 64
    → IsValid vm
    → IsValid (vm_map_add_entry vm va pa size prot)
unfolding vm_map_add_entry
vm_map_add_entry-IsValid vm va pa size prot small v =
    elim (Bool-cases (check_range_overlap vm.vm_map_entries va size)) [
      | inl meets ↦ rw meets v
      | inr room ↦ elim (Option-cases (find_free_vm_map_entry_slot vm.vm_map_entries)) [
        | inl full ↦ rw (room, full) v
        | inr (i, slot) ↦
            let es : List VmMapEntry = vm.vm_map_entries in
            let new : VmMapEntry = entry va pa size prot in
            let clear =
              check_range_overlap-Clear es va pa size prot small (IsDisjoint-AllFit es v.disjoint)
                room in
            rw (room, slot)
              (record {
                full = length-set es i new ∙ v.full;
                disjoint = IsDisjoint-set new es i (λ used. small) clear v.disjoint;
              })
      ]
    ]

length-consed :
    (e : VmMapEntry) (o : Option (List VmMapEntry)) (es : List VmMapEntry) (n : ℕ)
    → ((ks : List VmMapEntry) → o ≡ some ks → length ks ≡ n)
    → consed e o ≡ some es
    → length es ≡ suc n
length-consed e none es n h eq = absurd (ground arith)
length-consed e (some ks) es n h eq = ground (arith, h ks refl)

set_flags-length :
    (es : List VmMapEntry) (va prot : ℕ) (es' : List VmMapEntry)
    → set_flags es va prot ≡ some es'
    → length es' ≡ length es
unfolding set_flags
set_flags-length [] va prot es' h = absurd (ground arith)
set_flags-length (e ∷ es) va prot es' h =
    elim (Bool-cases (e.virtual_address == va && not (is_free e))) [
      | inl hit ↦ ground arith
      | inr miss ↦
          length-consed e (set_flags es va prot) es' (length es)
            (λ ks. set_flags-length es va prot ks) (rw miss at h)
    ]

changed-IsValid :
    (vm : Vm) (va prot : ℕ)
    → IsValid vm
    → IsValid (changed vm (set_flags vm.vm_map_entries va prot)).1
changed-IsValid vm va prot v = elim (Option-cases (set_flags vm.vm_map_entries va prot)) [
  | inl missing ↦ rw missing v
  | inr (es, found) ↦ rw found (record {
    full = set_flags-length vm.vm_map_entries va prot es found ∙ v.full;
    disjoint =
        subst IsDisjointOption found (set_flags-IsDisjoint vm.vm_map_entries va prot v.disjoint);
  })
]

vm_map_allocate-IsValid :
    (vm : Vm) (size prot : ℕ)
    → size < 2 ^ 63
    → IsValid vm
    → IsValid (vm_map_allocate vm size prot).1
unfolding vm_map_allocate find_free_vm_map_entry_slot
vm_map_allocate-IsValid vm size prot small v =
    elim (Option-cases (find_slot_from 0 vm.vm_map_entries)) [
      | inl full ↦ rw (full, vm_map_allocate) v
      | inr (i, slot) ↦
          let (k, e, at, get, free) = find_slot_from-free 0 vm.vm_map_entries i slot in
          let bound = get_elem?-lt vm.vm_map_entries k e get in
          rw (slot, vm_map_allocate)
            (vm_map_add_entry-IsValid vm _ _ size prot (omega (arith, v.full)) v)
    ]

step-IsValid : (vm : Vm) (c : Call) → InRange c → IsValid vm → IsValid (step vm c)
unfolding step vm_map vm_unmap vm_protect vm_map_deallocate
step-IsValid vm (maps va pa size prot) r v =
    let w = vm_map_add_entry-IsValid vm va pa size prot r v in
    record { full = w.full; disjoint = w.disjoint }
step-IsValid vm (unmaps va size) r v = changed-IsValid vm va vm_prot_free v
step-IsValid vm (protects va size prot) r v = changed-IsValid vm va prot v
step-IsValid vm (allocates size prot) r v = vm_map_allocate-IsValid vm size prot r v
step-IsValid vm (deallocates va) r v = changed-IsValid vm va vm_prot_free v

run-IsValid : (vm : Vm) (cs : List Call) → AllInRange cs → IsValid vm → IsValid (run vm cs)
unfolding run
run-IsValid vm [] r v = v
run-IsValid vm (c ∷ cs) r v = run-IsValid (step vm c) cs r.1 (step-IsValid vm c r.0 v)

-- After `vm_init`, whatever the 64 entries held before, and then any sequence of calls in which the
-- ranges that `vm_map` is given end below 2^64 and the sizes that `vm_map_allocate` is given are below 2^63, the table has its 64 entries, each mapping in use
-- ends within 64 bits, and no two of them share an address.
pub run-vm_init-IsValid :
    (vm : Vm) (cs : List Call)
    → length vm.vm_map_entries ≡ max_vm_map_entries
    → AllInRange cs
    → IsValid (run (vm_init vm) cs)
unfolding vm_init
run-vm_init-IsValid vm cs full r = run-IsValid _ cs r (
    vm_map_add_entry-IsValid _ 0 0 0x40000000 _ (omega arith) (record {
      full = length-map vm.vm_map_entries freed ∙ full;
      disjoint = map-freed-IsDisjoint vm.vm_map_entries;
    }))
