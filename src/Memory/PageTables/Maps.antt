-- ===== src/Memory/PageTables/Maps.antt =====
-- The tables that `cpu_enable_mmu` of kern/memory/vm_maps.c builds, and the translation that they describe.
use astral_os.Common.{
  ℕ, ◌+◌, ◌/◌, ◌%◌, ◌^◌, ◌≤◌, ◌<◌, ◌≡◌, ◌⊎◌, inl, inr, ap, ◌∙◌, arith, Bool-cases, Option, none,
  if◌then◌else◌, ltb,
}
use astral_os.Memory.PageTables.{page_size, word_at, table_entry, mair_value}
use astral_os.Memory.PageTables.Blocks.{block_entry, framebuffer_entry, Outside}
use astral_os.Memory.PageTables.Walk.{
  Translation, level0, normal, device, level0-next, level0-none, level1-none, level1-block_entry,
  level1-framebuffer_entry,
}

-- Two tables of a page each that do not meet.
abbrev pub Apart : ℕ → ℕ → Type 0
Apart a b = (a + page_size ≤ b) ⊎ (b + page_size ≤ a)

pub Apart-Outside : (a b i : ℕ) → Apart a b → i < 512 → Outside b 0 512 (word_at a i)
Apart-Outside a b i (inl h) lt = inl (omega arith)
Apart-Outside a b i (inr h) lt = inr (omega arith)

-- The tables that the code builds: of level 1, of the first gigabyte, and of the framebuffer.
pub record Tables (words : ℕ → ℕ) (l1 l2 table : ℕ) : Type 0 where
  pub first : words (word_at l1 0) ≡ table_entry l2
  pub second : words (word_at l1 1) ≡ table_entry table
  pub rest : (j : ℕ) → 2 ≤ j → j < 512 → words (word_at l1 j) ≡ 0
  pub blocks : (j : ℕ) → j < 512 → words (word_at l2 j) ≡ block_entry j
  pub framebuffer : (j : ℕ) → j < 8 → words (word_at table j) ≡ framebuffer_entry j
  pub unmapped : (j : ℕ) → 8 ≤ j → j < 512 → words (word_at table j) ≡ 0

-- What an address below 2^48 is translated to: the table of level 1 is taken for one of level 0, and the blocks of 2 MB for
-- blocks of a gigabyte.
abbrev pub boot_map : ℕ → Option Translation
boot_map va =
    if ltb va (2 ^ 39)
    then normal (va % 2 ^ 30)
    else if ltb va (2 ^ 39 + 2 ^ 33)
    then device (2 ^ 30 + va % 2 ^ 30)
    else none

pub level0-Tables :
    (words : ℕ → ℕ) (l1 l2 table va : ℕ)
    → Tables words l1 l2 table
    → (l2 % 2 ^ 12 ≡ 0) × (l2 < 2 ^ 32)
    → (table % 2 ^ 12 ≡ 0) × (table < 2 ^ 32)
    → va < 2 ^ 48
    → level0 words mair_value (2 ^ 32) l1 va ≡ boot_map va
level0-Tables words l1 l2 table va t page page' small = elim (Bool-cases (ltb va (2 ^ 39))) [
  | inl low ↦
      let index : va / 2 ^ 39 % 512 ≡ 0 = ground arith in
      let first = ap (λ i. words (word_at l1 i)) index ∙ t.first in
      let j : ℕ = va / 2 ^ 30 % 512 in
      rw low (
        level0-next words mair_value l1 va l2 first page.0 page.1
        ∙ level1-block_entry words l2 va j (t.blocks j (omega arith)) (omega arith))
  | inr high ↦ elim (Bool-cases (ltb va (2 ^ 39 + 2 ^ 33))) [
    | inl inside ↦
        let index : va / 2 ^ 39 % 512 ≡ 1 = ground arith in
        let second = ap (λ i. words (word_at l1 i)) index ∙ t.second in
        let j : ℕ = va / 2 ^ 30 % 512 in
        rw (high, inside)
          (level0-next words mair_value l1 va table second page'.0 page'.1
            ∙ level1-framebuffer_entry words table va j (t.framebuffer j (ground arith))
                (ground arith))
    | inr above ↦ elim (Bool-cases (ltb va (2 ^ 40))) [
      | inl near ↦
          let index : va / 2 ^ 39 % 512 ≡ 1 = ground arith in
          let second = ap (λ i. words (word_at l1 i)) index ∙ t.second in
          rw (high, above)
            (level0-next words mair_value l1 va table second page'.0 page'.1
              ∙ level1-none words mair_value table va
                  (t.unmapped (va / 2 ^ 30 % 512) (ground arith) (ground arith)))
      | inr far ↦
          rw (high, above)
            (level0-none words mair_value l1 va
              (t.rest (va / 2 ^ 39 % 512) (ground arith) (ground arith)))
    ]
  ]
]
