-- ===== src/Memory/PageTables/Tests.antt =====
-- The theorems on the tables of kern/memory/vm_maps.c at the start, when the heap is not set up yet.
use astral_os.Common.{ℕ, ◌<◌, ◌≡◌, ◌^◌, ◌%◌, ◌/◌, inl, inr, refl, arith, some, false, true}
use astral_os.Memory.Kmalloc.{Heap, kmalloc, alloc_loop, take_block}
use astral_os.Memory.PageTables.{
  Layout, Machine, cpu_enable_mmu, vm_create_task_pagetable, tcr_value, mair_value,
}
use astral_os.Memory.PageTables.Walk.{walk, normal}
use astral_os.Memory.PageTables.Maps.{boot_map}
use astral_os.Memory.PageTables.Boot.{framed, built, cpu_enable_mmu-walk}
use astral_os.Memory.PageTables.Tasks.{vm_create_task_pagetable-walk}

abbrev pub layout : Layout
layout = record { kernel_l1_page_table = 0x40000; kernel_l2_page_table = 0x41000 }

-- The static variables of the heap are 0 before `kmalloc_init`.
abbrev pub no_heap : Heap
no_heap = record {
  heap_start_ptr = 0;
  total_heap_size = 0;
  mem = λ a. record { size = 0; next = 0; free = false };
}

abbrev pub reset : Machine
reset = record {
  words = λ a. a;
  heap = no_heap;
  mair_el1 = 0;
  tcr_el1 = 0;
  ttbr0_el1 = 0;
  sctlr_el1 = 0;
}

-- The page for the framebuffer's table is then the null pointer.
pub kmalloc_at_reset : kmalloc no_heap 0x1000 ≡ some (0, no_heap)
unfolding kmalloc alloc_loop
kmalloc_at_reset = refl

cpu_enable_mmu-walk_example :
    (m' : Machine) × (cpu_enable_mmu layout reset ≡ some m')
    × ((va : ℕ) → va < 2 ^ 48 → walk m' va ≡ boot_map va)
cpu_enable_mmu-walk_example =
    cpu_enable_mmu-walk layout reset 0 no_heap (refl, omega arith) (refl, omega arith)
      (refl, omega arith) (inl (omega arith)) (inr (omega arith)) (inr (omega arith))
      kmalloc_at_reset

-- A heap of 64 KB whose first payload is at 2^31.
abbrev heap : Heap
heap = record {
  heap_start_ptr = 0x7FFFFFE8;
  total_heap_size = 0x10000;
  mem = λ a. record { size = 0xFFE8; next = 0; free = true };
}

abbrev heap_after : Heap
heap_after = record heap { mem = take_block heap.mem 0x7FFFFFE8 0x1000 }

kmalloc_page : kmalloc heap 0x1000 ≡ some (0x80000000, heap_after)
unfolding kmalloc alloc_loop
kmalloc_page = refl

-- The machine with the tables and the registers of `cpu_enable_mmu`, and that heap.
abbrev booted : Machine
booted = record reset {
  words =
      (framed layout reset 0 no_heap (inl (omega arith)) (inr (omega arith))
        (inr (omega arith))).after;
  heap = heap;
  mair_el1 = mair_value;
  tcr_el1 = tcr_value;
  ttbr0_el1 = 0x40000;
  sctlr_el1 = 1;
}

vm_create_task_pagetable-walk_example :
    (m' : Machine) × (vm_create_task_pagetable layout booted ≡ some (0x80000000, m'))
    × ((va : ℕ)
        → va < 2 ^ 48
        → (walk (record m' { ttbr0_el1 = 0x80000000 }) va
            ≡ walk (record m' { ttbr0_el1 = 0x40000 }) va)
          × (walk (record m' { ttbr0_el1 = 0x40000 }) va
              ≡ walk (record booted { ttbr0_el1 = 0x40000 }) va)
          × (walk (record booted { ttbr0_el1 = 0x40000 }) va ≡ boot_map va))
vm_create_task_pagetable-walk_example =
    vm_create_task_pagetable-walk layout booted 0 0x80000000 heap_after
      (built layout reset 0 no_heap (inl (omega arith)) (inr (omega arith)) (inr (omega arith)))
      (inl (omega arith)) (inl (omega arith)) (inl (omega arith)) (λ e. absurd (omega arith))
      (refl, refl, refl) (refl, omega arith) (refl, omega arith) (refl, omega arith)
      (refl, omega arith) kmalloc_page

-- The fields of the translation control register: 48 bits of address, and physical addresses of 32 bits.
tcr_fields : (tcr_value % 64 ≡ 16) × (tcr_value / 2 ^ 32 % 8 ≡ 0)
tcr_fields = (refl, refl)

-- Where the framebuffer at 2^30 goes.
framebuffer_lost : boot_map 0x40000000 ≡ normal 0
framebuffer_lost = refl
