-- ===== src/Memory/PageTables/Tasks.antt =====
-- `vm_create_task_pagetable` of kern/memory/vm_maps.c: a task gets the translation of the kernel.
use astral_os.Common.{ℕ, ◌%◌, ◌^◌, ◌<◌, ◌≡◌, ◌≢◌, refl, sym, ap, ◌∙◌, arith, some, ==_ne}
use astral_os.Memory.Kmalloc.{Heap, kmalloc}
use astral_os.Memory.PageTables.{
  Layout, Machine, page_size, tcr_value, mair_value, word_at, clear_table, copy_table,
  fill_task_table, then_fill, vm_create_task_pagetable,
}
use astral_os.Memory.PageTables.Blocks.{clear_table-out, copy_table-out, copy_table-in}
use astral_os.Memory.PageTables.Walk.{walk, walk-level0}
use astral_os.Memory.PageTables.Maps.{Apart, Apart-Outside, Tables, boot_map, level0-Tables}

module _ (layout : Layout) (m : Machine) (table task : ℕ) (heap : Heap)
    (tables : Tables m.words layout.kernel_l1_page_table layout.kernel_l2_page_table table)
    (apart1 : Apart layout.kernel_l1_page_table task)
    (apart2 : Apart layout.kernel_l2_page_table task) (apart3 : Apart table task) where
  abbrev kernel : ℕ
  kernel = layout.kernel_l1_page_table

  abbrev copied : ℕ → ℕ
  copied = copy_table (clear_table m.words task) kernel task 0 512

  kept :
      (other j : ℕ)
      → Apart other task
      → j < 512
      → copied (word_at other j) ≡ m.words (word_at other j)
  kept other j away lt =
      let out = Apart-Outside other task j away lt in
      copy_table-out (clear_table m.words task) kernel task 0 512 (word_at other j) out
      ∙ clear_table-out m.words task (word_at other j) out

  same : (j : ℕ) → j < 512 → copied (word_at task j) ≡ m.words (word_at kernel j)
  same j lt =
      copy_table-in (clear_table m.words task) kernel task 0 512 j apart1 (omega arith)
        (omega arith) (omega arith)
      ∙ clear_table-out m.words task (word_at kernel j) (Apart-Outside kernel task j apart1 lt)

  -- The tables from a first table with the entries of the kernel's.
  from_table :
      (l1 : ℕ)
      → ((j : ℕ) → j < 512 → copied (word_at l1 j) ≡ m.words (word_at kernel j))
      → Tables copied l1 layout.kernel_l2_page_table table
  from_table l1 at = record {
    first = at 0 (omega arith) ∙ tables.first;
    second = at 1 (omega arith) ∙ tables.second;
    rest = λ j low high. at j high ∙ tables.rest j low high;
    blocks = λ j high. kept layout.kernel_l2_page_table j apart2 high ∙ tables.blocks j high;
    framebuffer = λ j high. kept table j apart3 (omega arith) ∙ tables.framebuffer j high;
    unmapped = λ j low high. kept table j apart3 high ∙ tables.unmapped j low high;
  }

  -- With the registers and the tables that `cpu_enable_mmu` leaves, and with a page from `kmalloc` that starts at a multiple
  -- of the page size and does not meet them, all pages below 2^32: `vm_create_task_pagetable` returns that page, and once
  -- `ttbr0_el1` is set to it each address below 2^48 is translated as the kernel's table translates it, which is as
  -- before.
  pub vm_create_task_pagetable-walk :
      task ≢ 0
      → (m.sctlr_el1 % 2 ≡ 1) × (m.tcr_el1 ≡ tcr_value) × (m.mair_el1 ≡ mair_value)
      → (kernel % page_size ≡ 0) × (kernel < 2 ^ 32)
      → (layout.kernel_l2_page_table % page_size ≡ 0) × (layout.kernel_l2_page_table < 2 ^ 32)
      → (table % page_size ≡ 0) × (table < 2 ^ 32)
      → (task % page_size ≡ 0) × (task < 2 ^ 32)
      → kmalloc m.heap page_size ≡ some (task, heap)
      → (m' : Machine) × (vm_create_task_pagetable layout m ≡ some (task, m'))
        × ((va : ℕ)
            → va < 2 ^ 48
            → (walk (record m' { ttbr0_el1 = task }) va
                ≡ walk (record m' { ttbr0_el1 = kernel }) va)
              × (walk (record m' { ttbr0_el1 = kernel }) va
                  ≡ walk (record m { ttbr0_el1 = kernel }) va)
              × (walk (record m { ttbr0_el1 = kernel }) va ≡ boot_map va))
  unfolding vm_create_task_pagetable
  vm_create_task_pagetable-walk real (on, tcr, mair) first page page' fourth got =
      let l2 = layout.kernel_l2_page_table in
      let filled : fill_task_table layout m (task, heap)
          ≡ (task, record m { heap = heap; words = copied }) =
        rw (==_ne task 0 real) refl in
      let after : Machine = record m { heap = heap; words = copied } in
      let by_task = λ (va : ℕ) (small : va < 2 ^ 48).
        walk-level0 (record after { ttbr0_el1 = task }) task va on tcr mair refl fourth.0 fourth.1
          small
        ∙ level0-Tables copied task l2 table va (from_table task same) page page' small in
      let by_kernel = λ (va : ℕ) (small : va < 2 ^ 48).
        walk-level0 (record after { ttbr0_el1 = kernel }) kernel va on tcr mair refl first.0 first.1
          small
        ∙ level0-Tables copied kernel l2 table va
            (from_table kernel (λ j lt. kept kernel j apart1 lt)) page page' small in
      let before = λ (va : ℕ) (small : va < 2 ^ 48).
        walk-level0 (record m { ttbr0_el1 = kernel }) kernel va on tcr mair refl first.0 first.1
          small
        ∙ level0-Tables m.words kernel l2 table va tables page page' small in
      (
        after,
        ap (then_fill layout m) got ∙ ap some filled,
        λ va small. (
          by_task va small ∙ sym (by_kernel va small),
          by_kernel va small ∙ sym (before va small),
          before va small,
        ),
      )
