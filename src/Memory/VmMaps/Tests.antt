-- ===== src/Memory/VmMaps/Tests.antt =====
-- Runs of kern/memory/vm_maps.c, and its theorems at a small table.
use astral_os.Common.{
  ◌+◌, ◌-◌, ◌<◌, ◌≡◌, refl, ◌&&◌, some, [], ◌∷◌, arith, ltb, leb, if◌then◌else◌, replicate, ok,
  error,
}
use astral_os.Memory.VmMaps.{
  VmMapEntry, Vm, entry, vm_prot_free, find_slot_from, find_free_vm_map_entry_slot,
  check_range_overlap, set_flags, vm_init, vm_map, vm_unmap, vm_map_allocate,
}
use astral_os.Memory.VmMaps.Table.{IsDisjoint}
use astral_os.Memory.VmMaps.Resolve.{resolve, vm_map-resolve}
use astral_os.Memory.VmMaps.Calls.{maps, allocates, deallocates, run, IsValid, run-vm_init-IsValid}
use astral_os.Memory.VmMaps.Limits.{vm_map_allocate_overlaps}

abbrev unused : VmMapEntry
unused = entry 0 0 0 vm_prot_free

-- A mapping of one page, and two free slots.
abbrev small : Vm
small = record {
  vm_map_entries = entry 0x1000 0x8000 0x1000 3 ∷ unused ∷ unused ∷ [];
  tlb_flushes = 0;
}

abbrev zeros : Vm
zeros = record { vm_map_entries = replicate 64 (entry 0 0 0 0); tlb_flushes = 0 }

small-IsDisjoint : IsDisjoint small.vm_map_entries
small-IsDisjoint = ground arith

vm_map-resolve_example : resolve (vm_map small 0x4000 0x9000 0x2000 1).1.vm_map_entries 0x5000 ≡ (
    if leb 0x4000 0x5000 && ltb 0x5000 0x6000
    then some (record { physical = 0x9000 + (0x5000 - 0x4000); flags = 1 })
    else resolve small.vm_map_entries 0x5000)
unfolding check_range_overlap find_free_vm_map_entry_slot find_slot_from
vm_map-resolve_example =
    vm_map-resolve small 0x4000 0x9000 0x2000 1 1 small-IsDisjoint (omega arith) (omega arith) refl
      refl 0x5000

vm_unmap_run :
    (vm_unmap small 0x1000 16 ≡ (
      ok,
      record small {
        vm_map_entries = entry 0x1000 0x8000 0x1000 vm_prot_free ∷ unused ∷ unused ∷ [];
        tlb_flushes = 1;
      },
    ))
    × (vm_unmap small 0x2000 16 ≡ (error, small))
unfolding vm_unmap set_flags
vm_unmap_run = (refl, refl)

run-vm_init-IsValid_example : IsValid (
    run
      (vm_init zeros)
      (allocates 0x1000 3 ∷ maps 0x8000_0000 0 0x1000 1 ∷ deallocates 0x4010_0000 ∷ []))
run-vm_init-IsValid_example = run-vm_init-IsValid zeros _ refl (omega arith)

vm_map_allocate_overlaps_example :
    let first = vm_map_allocate small 0x20_0000 3 in
    (vm_map_allocate first.1 0x1000 3 ≡ (0x4020_0000, first.1))
    × (first.0 < 0x4020_0000)
    × (0x4020_0000 < first.0 + 0x20_0000)
unfolding check_range_overlap find_free_vm_map_entry_slot find_slot_from
vm_map_allocate_overlaps_example =
    vm_map_allocate_overlaps small 1 0x20_0000 3 0x1000 3 unused refl refl refl refl (omega arith)
      (omega arith) (omega arith) (omega arith) (omega arith) (omega arith)
