-- ===== src/Memory/PageTables/Boot.antt =====
-- `cpu_enable_mmu` of kern/memory/vm_maps.c: the translation that is in force when it returns.
use astral_os.Common.{ℕ, ◌%◌, ◌^◌, ◌≤◌, ◌<◌, ◌≡◌, ◌≢◌, inr, refl, ap, ◌∙◌, arith, some, store}
use astral_os.Memory.Kmalloc.{Heap, kmalloc}
use astral_os.Memory.PageTables.{
  Layout, Machine, page_size, word_at, clear_table, table_entry, first_gigabyte, add_table,
  ensure_table, finish_tables, map_framebuffer, start_mmu, with_words, then_finish, cpu_enable_mmu,
  framebuffer_base,
}
use astral_os.Memory.PageTables.Blocks.{
  block_entry, store-ne, store_self, clear_table-out, clear_table-in, map_blocks-out, map_blocks-in,
  Outside, Framed, map_framebuffer-Framed,
}
use astral_os.Memory.PageTables.Walk.{
  walk, walk-level0, bit_or-odd, next_table, next_table-table_entry,
}
use astral_os.Memory.PageTables.Maps.{Apart, Apart-Outside, Tables, boot_map, level0-Tables}

-- The tables for the first gigabyte.
module _ (layout : Layout) (m : Machine)
    (apart : Apart layout.kernel_l1_page_table layout.kernel_l2_page_table) where
  abbrev l1 : ℕ
  l1 = layout.kernel_l1_page_table

  abbrev l2 : ℕ
  l2 = layout.kernel_l2_page_table

  abbrev cleared : ℕ → ℕ
  cleared = clear_table (clear_table m.words l1) l2

  abbrev linked : ℕ → ℕ
  linked = store cleared (word_at l1 0) (table_entry l2)

  gigabyte-first : (first_gigabyte layout m).words (word_at l1 0) ≡ table_entry l2
  gigabyte-first =
      map_blocks-out linked l2 0 512 (word_at l1 0) (Apart-Outside l1 l2 0 apart (omega arith))
      ∙ store_self cleared (word_at l1 0) (table_entry l2)

  gigabyte-rest : (j : ℕ) → 1 ≤ j → j < 512 → (first_gigabyte layout m).words (word_at l1 j) ≡ 0
  gigabyte-rest j low high =
      let out = Apart-Outside l1 l2 j apart high in
      map_blocks-out linked l2 0 512 (word_at l1 j) out
      ∙ store-ne cleared (word_at l1 0) (table_entry l2) (word_at l1 j) (λ e. absurd (omega arith))
      ∙ clear_table-out (clear_table m.words l1) l2 (word_at l1 j) out
      ∙ clear_table-in m.words l1 j high

  gigabyte-blocks :
      (j : ℕ) → j < 512 → (first_gigabyte layout m).words (word_at l2 j) ≡ block_entry j
  gigabyte-blocks j high = map_blocks-in linked l2 0 512 j (omega arith) (omega arith)

-- The words after a table at `table` was added for the framebuffer, and filled.
module _ (layout : Layout) (m : Machine) (table : ℕ) (heap : Heap)
    (apart : Apart layout.kernel_l1_page_table layout.kernel_l2_page_table)
    (apart1 : Apart layout.kernel_l1_page_table table)
    (apart2 : Apart layout.kernel_l2_page_table table) where
  abbrev pub base : Machine
  base = first_gigabyte layout m

  abbrev pub grown : Machine
  grown = add_table layout base (table, heap)

  abbrev pub framed :
      Framed grown.words table 0 (map_framebuffer 8 grown.words table framebuffer_base)
  framed = map_framebuffer-Framed 8 0 grown.words table refl

  -- A word of another table is not changed, but for the entry that was added.
  kept :
      (other j : ℕ)
      → Apart other table
      → j < 512
      → word_at other j ≢ word_at (l1 layout m apart) 1
      → framed.after (word_at other j) ≡ base.words (word_at other j)
  kept other j away lt ne =
      let out = Apart-Outside other table j away lt in
      framed.outside (word_at other j) (ground arith)
      ∙ store-ne (clear_table base.words table) (word_at (l1 layout m apart) 1) (table_entry table)
          (word_at other j) ne
      ∙ clear_table-out base.words table (word_at other j) out

  new_word : (j : ℕ) → 8 ≤ j → j < 512 → framed.after (word_at table j) ≡ 0
  new_word j low high =
      framed.outside (word_at table j) (inr (omega arith))
      ∙ store-ne (clear_table base.words table) (word_at (l1 layout m apart) 1) (table_entry table)
          (word_at table j) (λ e. absurd (ground arith))
      ∙ clear_table-in base.words table j high

  pub built : Tables framed.after layout.kernel_l1_page_table layout.kernel_l2_page_table table
  built = record {
    first =
        kept layout.kernel_l1_page_table 0 apart1 (omega arith) (λ e. absurd (omega arith))
        ∙ gigabyte-first layout m apart;
    second =
        framed.outside (word_at layout.kernel_l1_page_table 1) (ground arith)
        ∙ store_self (clear_table base.words table) (word_at layout.kernel_l1_page_table 1)
            (table_entry table);
    rest = λ j low high.
        kept layout.kernel_l1_page_table j apart1 high (λ e. absurd (omega arith))
        ∙ gigabyte-rest layout m apart j (omega arith) high;
    blocks = λ j high.
        kept layout.kernel_l2_page_table j apart2 high (λ e. absurd (ground arith))
        ∙ gigabyte-blocks layout m apart j high;
    framebuffer = λ j high. framed.inside j (omega arith) high;
    unmapped = new_word;
  }

  ensured : kmalloc m.heap page_size ≡ some (table, heap) → ensure_table layout base ≡ some grown
  unfolding ensure_table
  ensured got = rw (gigabyte-rest layout m apart 1 (omega arith) (omega arith), got) refl

  finished :
      table % page_size ≡ 0
      → finish_tables layout grown ≡ some (start_mmu layout (record grown { words = framed.after }))
  finished page =
      let entry =
        store_self (clear_table base.words table) (word_at layout.kernel_l1_page_table 1)
          (table_entry table) in
      let at : next_table (table_entry table) ≡ table = next_table-table_entry table page in
      let ran =
        ap (λ t. map_framebuffer 8 grown.words t framebuffer_base) (ap next_table entry ∙ at)
        ∙ framed.ran in
      ap (with_words layout grown) ran

-- With both tables of the kernel and the page that `kmalloc` returns at the starts of pages below 2^32 that do not meet,
-- `cpu_enable_mmu` returns, and its registers and tables translate each address below 2^48 as follows: below 2^39 to its
-- remainder modulo 2^30, as cached memory that can be executed; in the 8 GB from 2^39 on to 2^30 and that remainder, as
-- device memory that is never executed; elsewhere not at all. So the first gigabyte is translated to itself, and the
-- framebuffer at 2^30 is not.
pub cpu_enable_mmu-walk :
    (layout : Layout) (m : Machine) (table : ℕ) (heap : Heap)
    → (layout.kernel_l1_page_table % page_size ≡ 0) × (layout.kernel_l1_page_table < 2 ^ 32)
    → (layout.kernel_l2_page_table % page_size ≡ 0) × (layout.kernel_l2_page_table < 2 ^ 32)
    → (table % page_size ≡ 0) × (table < 2 ^ 32)
    → Apart layout.kernel_l1_page_table layout.kernel_l2_page_table
    → Apart layout.kernel_l1_page_table table
    → Apart layout.kernel_l2_page_table table
    → kmalloc m.heap page_size ≡ some (table, heap)
    → (m' : Machine) × (cpu_enable_mmu layout m ≡ some m')
      × ((va : ℕ) → va < 2 ^ 48 → walk m' va ≡ boot_map va)
unfolding cpu_enable_mmu
cpu_enable_mmu-walk layout m table heap first page page' apart apart1 apart2 got =
    let words = (framed layout m table heap apart apart1 apart2).after in
    let grown = grown layout m table heap apart apart1 apart2 in
    let l1 : ℕ = layout.kernel_l1_page_table in
    let done : Machine = start_mmu layout (record grown { words = words }) in
    (
      done,
      ap (then_finish layout) (ensured layout m table heap apart apart1 apart2 got)
          ∙ finished layout m table heap apart apart1 apart2 page'.0,
      λ va small.
          walk-level0 done l1 va (bit_or-odd m.sctlr_el1) refl refl refl first.0 first.1 small
          ∙ level0-Tables words l1 layout.kernel_l2_page_table table va
              (built layout m table heap apart apart1 apart2) page page' small,
    )

-- With both tables of the kernel and the page that `kmalloc` returns at the starts of pages that do not meet,
-- `cpu_enable_mmu` returns, and changes no word outside of the three pages.
pub cpu_enable_mmu-Outside :
    (layout : Layout) (m : Machine) (table : ℕ) (heap : Heap)
    → table % page_size ≡ 0
    → Apart layout.kernel_l1_page_table layout.kernel_l2_page_table
    → Apart layout.kernel_l1_page_table table
    → Apart layout.kernel_l2_page_table table
    → kmalloc m.heap page_size ≡ some (table, heap)
    → (m' : Machine) × (cpu_enable_mmu layout m ≡ some m')
      × ((a : ℕ)
          → Outside layout.kernel_l1_page_table 0 512 a
          → Outside layout.kernel_l2_page_table 0 512 a
          → Outside table 0 512 a
          → m'.words a ≡ m.words a)
unfolding cpu_enable_mmu
cpu_enable_mmu-Outside layout m table heap page' apart apart1 apart2 got =
    let framed = framed layout m table heap apart apart1 apart2 in
    let grown = grown layout m table heap apart apart1 apart2 in
    let base = first_gigabyte layout m in
    let l1 = layout.kernel_l1_page_table in
    let l2 = layout.kernel_l2_page_table in
    (
      start_mmu layout (record grown { words = framed.after }),
      ap (then_finish layout) (ensured layout m table heap apart apart1 apart2 got)
          ∙ finished layout m table heap apart apart1 apart2 page',
      λ a out1 out2 out3.
          framed.outside a (ground arith)
          ∙ store-ne (clear_table base.words table) (word_at l1 1) (table_entry table) a
              (λ e. absurd (ground arith))
          ∙ clear_table-out base.words table a out3
          ∙ map_blocks-out (linked layout m apart) l2 0 512 a out2
          ∙ store-ne (cleared layout m apart) (word_at l1 0) (table_entry l2) a
              (λ e. absurd (ground arith))
          ∙ clear_table-out (clear_table m.words l1) l2 a out2
          ∙ clear_table-out m.words l1 a out1,
    )
