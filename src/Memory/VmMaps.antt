-- ===== src/Memory/VmMaps.antt =====
-- kern/memory/vm_maps.c: the table of 64 mappings and its operations. The page tables and the
-- system registers stand in other parts of that file. What the functions print is left out.
pub mod Table
pub mod Resolve
pub mod Calls
pub mod Limits
mod Tests
use astral_os.Common.{
  ℕ, zero, suc, ◌+◌, ◌*◌, Bool, true, false, not, ◌&&◌, ◌||◌, Option, none, some, List, [], ◌∷◌,
  map, if◌then◌else◌, ltb, ◌==◌, add64, Status, ok, error, set,
}

pub record VmMapEntry : Type 0 where
  pub virtual_address : ℕ
  pub physical_address : ℕ
  pub size : ℕ
  pub protection_flags : ℕ

-- `vm_map_entries`, and the number of times that `tlb_invalidate` has run.
pub record Vm : Type 0 where
  pub vm_map_entries : List VmMapEntry
  pub tlb_flushes : ℕ

abbrev pub vm_prot_read : ℕ
vm_prot_read = 0x01

abbrev pub vm_prot_write : ℕ
vm_prot_write = 0x02

abbrev pub vm_prot_exec : ℕ
vm_prot_exec = 0x04

abbrev pub vm_prot_kernel : ℕ
vm_prot_kernel = 0x08

abbrev pub vm_prot_free : ℕ
vm_prot_free = 0x10

abbrev pub max_vm_map_entries : ℕ
max_vm_map_entries = 64

abbrev pub alloc_align : ℕ
alloc_align = 0x100000

abbrev pub initial_mapping_base : ℕ
initial_mapping_base = 0x40000000

abbrev pub tlb_invalidate : Vm → Vm
tlb_invalidate vm = record vm { tlb_flushes = vm.tlb_flushes + 1 }

abbrev pub is_free : VmMapEntry → Bool
is_free e = e.protection_flags == vm_prot_free

-- The loop of `find_free_vm_map_entry_slot` from the index `i` on; `none` stands for -1.
pub find_slot_from : ℕ → List VmMapEntry → Option ℕ
find_slot_from i [] = none
find_slot_from i (e ∷ es) = if is_free e then some i else find_slot_from (suc i) es

pub find_free_vm_map_entry_slot : List VmMapEntry → Option ℕ
unfolding find_slot_from
find_free_vm_map_entry_slot es = find_slot_from 0 es

pub check_range_overlap : List VmMapEntry → ℕ → ℕ → Bool
check_range_overlap [] va size = false
check_range_overlap (e ∷ es) va size =
    if not (is_free e)
      && (ltb va (add64 e.virtual_address e.size) && ltb e.virtual_address (add64 va size))
    then true
    else check_range_overlap es va size

abbrev pub entry : (va pa size prot : ℕ) → VmMapEntry
entry va pa size prot = record {
  virtual_address = va;
  physical_address = pa;
  size = size;
  protection_flags = prot;
}

pub vm_map_add_entry : Vm → (va pa size prot : ℕ) → Vm
vm_map_add_entry vm va pa size prot =
    if check_range_overlap vm.vm_map_entries va size
    then vm
    else elim (find_free_vm_map_entry_slot vm.vm_map_entries) [
      | none ↦ vm
      | some index ↦
          tlb_invalidate
            (record vm { vm_map_entries = set vm.vm_map_entries index (entry va pa size prot) })
    ]

abbrev pub freed : VmMapEntry → VmMapEntry
freed e = record e { protection_flags = vm_prot_free }

-- The flags of the kernel's mapping are the four bits, read | write | exec | kernel.
pub vm_init : Vm → Vm
vm_init vm =
    vm_map_add_entry (record vm { vm_map_entries = map freed vm.vm_map_entries }) 0 0 0x40000000
      (vm_prot_read + vm_prot_write + vm_prot_exec + vm_prot_kernel)

pub vm_map : Vm → (va pa size prot : ℕ) → Status × Vm
vm_map vm va pa size prot = (ok, tlb_invalidate (vm_map_add_entry vm va pa size prot))

abbrev pub consed : VmMapEntry → Option (List VmMapEntry) → Option (List VmMapEntry)
consed e none = none
consed e (some es) = some (e ∷ es)

-- The loop of `vm_unmap` and `vm_protect`: gives new flags to the first mapping at `va`.
pub set_flags : List VmMapEntry → (va prot : ℕ) → Option (List VmMapEntry)
set_flags [] va prot = none
set_flags (e ∷ es) va prot =
    if e.virtual_address == va && not (is_free e)
    then some (record e { protection_flags = prot } ∷ es)
    else consed e (set_flags es va prot)

abbrev changed : Vm → Option (List VmMapEntry) → Status × Vm
changed vm none = (error, vm)
changed vm (some es) = (ok, tlb_invalidate (record vm { vm_map_entries = es }))

pub vm_unmap : Vm → (va size : ℕ) → Status × Vm
vm_unmap vm va size = changed vm (set_flags vm.vm_map_entries va vm_prot_free)

pub vm_protect : Vm → (va size prot : ℕ) → Status × Vm
vm_protect vm va size prot = changed vm (set_flags vm.vm_map_entries va prot)

pub vm_map_allocate : Vm → (size prot : ℕ) → ℕ × Vm
vm_map_allocate vm size prot = elim (find_free_vm_map_entry_slot vm.vm_map_entries) [
  | none ↦ (0, vm)
  | some index ↦
      let va : ℕ = initial_mapping_base + index * alloc_align in
      (va, vm_map_add_entry vm va va size prot)
]

pub vm_map_deallocate : Vm → ℕ → Status × Vm
unfolding vm_unmap
vm_map_deallocate vm va = vm_unmap vm va 0
