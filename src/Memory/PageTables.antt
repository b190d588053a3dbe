-- ===== src/Memory/PageTables.antt =====
-- kern/memory/vm_maps.c: the translation tables, `cpu_enable_mmu` and `vm_create_task_pagetable`. Memory
-- is a function from the address of a 64-bit word to the word; the headers of the heap are the cells of
-- its own model. The order of the last register writes and the barriers are not kept.
pub mod Blocks
pub mod Walk
pub mod Maps
pub mod Boot
pub mod Tasks
pub mod Tests
use Prim.Native.Nat.{bit_or}
use astral_os.Common.{
  ℕ, zero, suc, ◌+◌, ◌-◌, ◌*◌, ◌/◌, ◌%◌, ◌^◌, Option, none, some, if◌then◌else◌, ltb, ◌==◌, store,
  within,
}
use astral_os.Memory.Kmalloc.{Heap, kmalloc}

-- The two tables that the linker places.
pub record Layout : Type 0 where
  pub kernel_l1_page_table : ℕ
  pub kernel_l2_page_table : ℕ

-- The memory and the heap, and the system registers that the code sets.
pub record Machine : Type 0 where
  pub words : ℕ → ℕ
  pub heap : Heap
  pub mair_el1 : ℕ
  pub tcr_el1 : ℕ
  pub ttbr0_el1 : ℕ
  pub sctlr_el1 : ℕ

abbrev pub page_size : ℕ
page_size = 0x1000

abbrev pub block_size : ℕ
block_size = 0x200000

abbrev pub framebuffer_base : ℕ
framebuffer_base = 0x40000000

abbrev pub framebuffer_size : ℕ
framebuffer_size = 0x1000000

-- `MAIR_VALUE` and `TCR_VALUE`.
abbrev pub mair_value : ℕ
mair_value = bit_or (bit_or 0 (0x44 * 2 ^ 8)) (0xFF * 2 ^ 16)

abbrev pub tcr_value : ℕ
tcr_value =
    let flags = bit_or (bit_or (64 - 48) (0x1 * 2 ^ 8)) (0x1 * 2 ^ 10) in
    bit_or (bit_or (bit_or flags (0x3 * 2 ^ 12)) 0) (0x5 * 2 ^ 16)

-- `PTE_TABLE | PTE_VALID` on the address of a table.
abbrev pub table_entry : ℕ → ℕ
table_entry table = bit_or (bit_or table 2) 1

-- The attributes of normal memory, and of the framebuffer.
abbrev pub normal_attributes : ℕ
normal_attributes =
    bit_or (bit_or (bit_or (bit_or (bit_or 1 0) (2 ^ 10)) (3 * 2 ^ 8)) 0) (2 * 2 ^ 2)

abbrev pub framebuffer_attributes : ℕ
framebuffer_attributes =
    let attributes = bit_or (bit_or (bit_or (bit_or 1 0) (2 ^ 10)) (3 * 2 ^ 8)) 0 in
    bit_or (bit_or (bit_or attributes (2 ^ 53)) (2 ^ 54)) 0

-- The word `i` of a table.
abbrev pub word_at : (table i : ℕ) → ℕ
word_at table i = table + 8 * i

-- `memset(table, 0, PAGE_SIZE)`
abbrev pub clear_table : (ℕ → ℕ) → (table : ℕ) → ℕ → ℕ
clear_table words table a = if within table page_size a then 0 else words a

-- The loop over the `n` blocks from `i` on of the first gigabyte.
unfoldable pub map_blocks : (ℕ → ℕ) → (table i n : ℕ) → ℕ → ℕ
map_blocks words table i zero = words
map_blocks words table i (suc n) =
    map_blocks (store words (word_at table i) (bit_or (i * block_size) normal_attributes)) table
      (i + 1) n

-- The loop over the blocks of the framebuffer, on fuel.
unfoldable pub map_framebuffer : (fuel : ℕ) → (ℕ → ℕ) → (table current_pa : ℕ) → Option (ℕ → ℕ)
map_framebuffer zero words table current_pa =
    if ltb current_pa (framebuffer_base + framebuffer_size) then none else some words
map_framebuffer (suc fuel) words table current_pa =
    let l2_idx = current_pa / 2 ^ 21 % 512 in
    let mapped = store words (word_at table l2_idx) (bit_or current_pa framebuffer_attributes) in
    let rest = map_framebuffer fuel mapped table (current_pa + block_size) in
    if ltb current_pa (framebuffer_base + framebuffer_size) then rest else some words

-- The table behind the entry of level 1 for the framebuffer: a new one if that entry is not valid.
abbrev pub framebuffer_l1_index : ℕ
framebuffer_l1_index = framebuffer_base / 2 ^ 30 % 512

abbrev pub add_table : Layout → Machine → ℕ × Heap → Machine
add_table layout m (table, heap) = record m {
  words =
      store (clear_table m.words table) (word_at layout.kernel_l1_page_table framebuffer_l1_index)
        (table_entry table);
  heap = heap;
}

unfoldable pub ensure_table : Layout → Machine → Option Machine
ensure_table layout m =
    if m.words (word_at layout.kernel_l1_page_table framebuffer_l1_index) % 2 == 1
    then some m
    else elim (kmalloc m.heap page_size) [ none ↦ none | some got ↦ some (add_table layout m got) ]

-- The end of `cpu_enable_mmu`.
abbrev pub start_mmu : Layout → Machine → Machine
start_mmu layout m = record m {
  mair_el1 = mair_value;
  tcr_el1 = tcr_value;
  ttbr0_el1 = layout.kernel_l1_page_table;
  sctlr_el1 = bit_or m.sctlr_el1 1;
}

abbrev pub with_words : Layout → Machine → Option (ℕ → ℕ) → Option Machine
with_words layout m none = none
with_words layout m (some words) = some (start_mmu layout (record m { words = words }))

-- The blocks of the framebuffer, with eight rounds of fuel: it has eight blocks.
abbrev pub finish_tables : Layout → Machine → Option Machine
finish_tables layout m =
    let entry = m.words (word_at layout.kernel_l1_page_table framebuffer_l1_index) in
    with_words layout m (map_framebuffer 8 m.words (entry / 2 ^ 12 * 2 ^ 12) framebuffer_base)

-- The tables for the first gigabyte.
abbrev pub first_gigabyte : Layout → Machine → Machine
first_gigabyte layout m =
    let l1 = layout.kernel_l1_page_table in
    let l2 = layout.kernel_l2_page_table in
    let cleared = clear_table (clear_table m.words l1) l2 in
    record m { words = map_blocks (store cleared (word_at l1 0) (table_entry l2)) l2 0 512 }

abbrev pub then_finish : Layout → Option Machine → Option Machine
then_finish layout none = none
then_finish layout (some m) = finish_tables layout m

-- `none` when a loop is not done when its fuel is.
unfoldable pub cpu_enable_mmu : Layout → Machine → Option Machine
cpu_enable_mmu layout m = then_finish layout (ensure_table layout (first_gigabyte layout m))

-- The loop over the `n` words from `i` on, from the kernel's table.
unfoldable pub copy_table : (ℕ → ℕ) → (from to i n : ℕ) → ℕ → ℕ
copy_table words from to i zero = words
copy_table words from to i (suc n) =
    copy_table (store words (word_at to i) (words (word_at from i))) from to (i + 1) n

abbrev pub fill_task_table : Layout → Machine → ℕ × Heap → ℕ × Machine
fill_task_table layout m (table, heap) =
    let m' = record m { heap = heap } in
    if table == 0 then (0, m') else (
      table,
      record m' {
        words = copy_table (clear_table m.words table) layout.kernel_l1_page_table table 0 512;
      },
    )

abbrev pub then_fill : Layout → Machine → Option (ℕ × Heap) → Option (ℕ × Machine)
then_fill layout m none = none
then_fill layout m (some got) = some (fill_task_table layout m got)

unfoldable pub vm_create_task_pagetable : Layout → Machine → Option (ℕ × Machine)
vm_create_task_pagetable layout m = then_fill layout m (kmalloc m.heap page_size)
