-- ===== src/Memory/VmMaps/Limits.antt =====
-- Where kern/memory/vm_maps.c reports more than it has done, and ranges that its overlap test misses.
use astral_os.Common.{
  ℕ, zero, suc, ◌+◌, ◌*◌, ◌^◌, ◌<◌, ◌≡◌, ◌≢◌, refl, true, false, none, some, List, [], ◌∷◌, arith,
  map, if◌then◌else◌, ltb, add64, set, length, get_elem?, get_elem?-lt, ==_ne,
}
use astral_os.Memory.VmMaps.{
  VmMapEntry, Vm, entry, is_free, freed, vm_prot_free, max_vm_map_entries, initial_mapping_base,
  alloc_align, find_slot_from, find_free_vm_map_entry_slot, check_range_overlap, vm_init,
  vm_map_add_entry, vm_map_allocate,
}
use astral_os.Memory.VmMaps.Resolve.{resolve}

-- The overlap test passes every range that ends at the very end of the 64-bit address space,
-- whatever the table holds: its end has wrapped to 0.
pub check_range_overlap_wraps :
    (es : List VmMapEntry) (va size : ℕ)
    → va + size ≡ 2 ^ 64
    → check_range_overlap es va size ≡ false
unfolding check_range_overlap
check_range_overlap_wraps [] va size top = refl
check_range_overlap_wraps (e ∷ es) va size top =
    let wrap : add64 va size ≡ 0 = omega arith in
    rw wrap (ground (arith, check_range_overlap_wraps es va size top))

resolve-freed : (es : List VmMapEntry) (a : ℕ) → resolve (map freed es) a ≡ none
unfolding resolve
resolve-freed [] a = refl
resolve-freed (e ∷ es) a = resolve-freed es a

check_range_overlap-freed :
    (es : List VmMapEntry) (va size : ℕ) → check_range_overlap (map freed es) va size ≡ false
unfolding check_range_overlap
check_range_overlap-freed [] va size = refl
check_range_overlap-freed (e ∷ es) va size = check_range_overlap-freed es va size

vm_init_entries :
    (es : List VmMapEntry) (flushes a : ℕ)
    → 0 < length es
    → resolve (vm_init (record { vm_map_entries = es; tlb_flushes = flushes })).vm_map_entries a
      ≡ (if ltb a 0x40000000 then some (record { physical = a; flags = 0x0f }) else none)
unfolding vm_init vm_map_add_entry find_free_vm_map_entry_slot find_slot_from resolve
vm_init_entries [] flushes a h = absurd (omega arith)
vm_init_entries (e ∷ es) flushes a h =
    rw (check_range_overlap-freed (e ∷ es) 0 0x40000000, resolve-freed es a) (ground arith)

-- `vm_init` leaves the first gigabyte mapped one to one with all four flags, so both writable and
-- executable, and nothing else, whatever the entries held before, if there are any.
pub vm_init-resolve :
    (vm : Vm) (a : ℕ)
    → 0 < length vm.vm_map_entries
    → resolve (vm_init vm).vm_map_entries a
      ≡ (if ltb a 0x40000000 then some (record { physical = a; flags = 0x0f }) else none)
vm_init-resolve vm a some_entry = vm_init_entries vm.vm_map_entries vm.tlb_flushes a some_entry

find_slot_from-next :
    (j m : ℕ) (es : List VmMapEntry) (k : ℕ) (new next : VmMapEntry)
    → find_slot_from j es ≡ some m
    → m ≡ j + k
    → is_free new ≡ false
    → get_elem? es (suc k) ≡ some next
    → is_free next ≡ true
    → find_slot_from j (set es k new) ≡ some (suc m)
unfolding find_slot_from
find_slot_from-next j m [] k new next slot at used get free = absurd (ground arith)
find_slot_from-next j m (e ∷ []) zero new next slot at used get free = absurd (ground arith)
find_slot_from-next j m (e ∷ f ∷ es) zero new next slot at used get free = rw used (ground arith)
find_slot_from-next j m (e ∷ es) (suc k) new next slot at used get free =
    let busy : is_free e ≡ false = ground arith in
    rw busy
      (find_slot_from-next (suc j) m es k new next (rw busy at slot) (omega arith) used get free)

next-slot :
    (es : List VmMapEntry) (i : ℕ) (new next : VmMapEntry)
    → find_free_vm_map_entry_slot es ≡ some i
    → is_free new ≡ false
    → get_elem? es (suc i) ≡ some next
    → is_free next ≡ true
    → find_free_vm_map_entry_slot (set es i new) ≡ some (suc i)
unfolding find_free_vm_map_entry_slot
next-slot es i new next slot used get free =
    find_slot_from-next 0 i es i new next slot (omega arith) used get free

overlap-set :
    (es : List VmMapEntry) (i : ℕ) (new : VmMapEntry) (va size : ℕ)
    → i < length es
    → is_free new ≡ false
    → ltb va (add64 new.virtual_address new.size) ≡ true
    → ltb new.virtual_address (add64 va size) ≡ true
    → check_range_overlap (set es i new) va size ≡ true
unfolding check_range_overlap
overlap-set [] i new va size lt used a b = absurd (omega arith)
overlap-set (e ∷ es) zero new va size lt used a b = rw (used, a, b) refl
overlap-set (e ∷ es) (suc i) new va size lt used a b =
    ground (arith, overlap-set es i new va size (omega arith) used a b)

module _ (vm : Vm) (i size prot : ℕ)
    (slot : find_free_vm_map_entry_slot vm.vm_map_entries ≡ some i) where
  abbrev base : ℕ
  base = initial_mapping_base + i * alloc_align

  allocate-added :
      check_range_overlap vm.vm_map_entries base size ≡ false
      → vm_map_allocate vm size prot ≡ (
        base,
        record {
          vm_map_entries = set vm.vm_map_entries i (entry base base size prot);
          tlb_flushes = vm.tlb_flushes + 1;
        },
      )
  unfolding vm_map_allocate vm_map_add_entry
  allocate-added room = rw (slot, vm_map_allocate, room, slot) refl

  allocate-refused :
      check_range_overlap vm.vm_map_entries base size ≡ true
      → vm_map_allocate vm size prot ≡ (base, vm)
  unfolding vm_map_allocate vm_map_add_entry
  allocate-refused meets = rw (slot, vm_map_allocate, meets) refl

-- `vm_map_allocate` of more than a megabyte and less than 2^63 bytes, with a range of the free slot
-- that meets no mapping and with flags other than those of a free slot, then again for a size
-- above 0 and below 2^63, while the next slot is free too: the second call returns the address of the
-- next slot, which lies in the first mapping's range, and the table is as the first call left it.
pub vm_map_allocate_overlaps :
    (vm : Vm) (i size prot size' prot' : ℕ) (next : VmMapEntry)
    → check_range_overlap vm.vm_map_entries (initial_mapping_base + i * alloc_align) size ≡ false
    → find_free_vm_map_entry_slot vm.vm_map_entries ≡ some i
    → get_elem? vm.vm_map_entries (suc i) ≡ some next
    → is_free next ≡ true
    → i < max_vm_map_entries
    → prot ≢ vm_prot_free
    → alloc_align < size
    → size < 2 ^ 63
    → 0 < size'
    → size' < 2 ^ 63
    → let first = vm_map_allocate vm size prot in
      (vm_map_allocate first.1 size' prot' ≡ (initial_mapping_base + suc i * alloc_align, first.1))
      × (first.0 < initial_mapping_base + suc i * alloc_align)
      × (initial_mapping_base + suc i * alloc_align < first.0 + size)
vm_map_allocate_overlaps vm i size prot size' prot' next room slot get free few used big small pos
      small' =
    let es : List VmMapEntry = vm.vm_map_entries in
    let va : ℕ = initial_mapping_base + i * alloc_align in
    let new : VmMapEntry = entry va va size prot in
    let bound = get_elem?-lt es (suc i) next get in
    let next_slot = next-slot es i new next slot (==_ne prot vm_prot_free used) get free in
    let meets =
      overlap-set es i new (initial_mapping_base + suc i * alloc_align) size' (omega arith)
        (==_ne prot vm_prot_free used) (ground arith) (ground arith) in
    rw (allocate-added vm i size prot slot room)
      (allocate-refused _ (suc i) size' prot' next_slot meets, omega arith, omega arith)
