-- ===== src/Memory/PageTables/Walk.antt =====
-- The translation that the registers and tables of kern/memory/vm_maps.c describe, as the Arm architecture defines it for
-- the 4 KB granule and addresses below 2^48. The first table is a whole page here: sizes of 48 bits (level 0) and of 39
-- bits (level 1) are described, the others are not. Permissions but those to execute are left out, and so are the limits
-- that an entry of a table can put on those below it.
use Prim.Native.Nat.{bit_or}
use astral_os.Common.{
  ℕ, ◌+◌, ◌*◌, ◌/◌, ◌%◌, ◌^◌, ◌<◌, ◌≡◌, inl, inr, refl, ap, ◌∙◌, arith, Option, none, some,
  if◌then◌else◌, ◌==◌, ◌&&◌, ltb, true, [], ◌∷◌, get_or, Bool-cases, ==_iff,
}
use astral_os.Common.Bits.{bit_or-parts, bit_or-zero}
use astral_os.Memory.PageTables.{
  Machine, word_at, block_size, normal_attributes, framebuffer_attributes, framebuffer_base,
  table_entry, mair_value, tcr_value,
}
use astral_os.Memory.PageTables.Blocks.{block_entry, framebuffer_entry}

-- What an address is translated to: the physical address, the attributes of the memory, and the two bits
-- that forbid execution.
pub record Translation : Type 0 where
  pub pa : ℕ
  pub attributes : ℕ
  pub never_executed : ℕ

-- The address in the bits 47 to `low` of an entry.
abbrev pub output : (low entry : ℕ) → ℕ
output low entry = entry / 2 ^ low * 2 ^ low % 2 ^ 48

-- A block or a page that was accessed, with its attributes from the register.
unfoldable pub leaf : (mair limit low entry va : ℕ) → Option Translation
leaf mair limit low entry va =
    let pa = output low entry + va % 2 ^ low in
    if (entry / 2 ^ 10 % 2 == 1) && ltb pa limit
    then some (record {
      pa = pa;
      attributes = mair / 2 ^ (8 * (entry / 2 ^ 2 % 8)) % 256;
      never_executed = entry / 2 ^ 53 % 4;
    })
    else none

-- The tables of the four levels. The low bits of an entry are 1 for a block, and 3 for a table or, at level 3, a page.
unfoldable pub level3 : (words : ℕ → ℕ) → (mair limit table va : ℕ) → Option Translation
level3 words mair limit table va =
    let entry = words (word_at table (va / 2 ^ 12 % 512)) in
    if entry % 4 == 3 then leaf mair limit 12 entry va else none

unfoldable pub level2 : (words : ℕ → ℕ) → (mair limit table va : ℕ) → Option Translation
level2 words mair limit table va =
    let entry = words (word_at table (va / 2 ^ 21 % 512)) in
    if entry % 4 == 1
    then leaf mair limit 21 entry va
    else if (entry % 4 == 3) && ltb (output 12 entry) limit
    then level3 words mair limit (output 12 entry) va
    else none

unfoldable pub level1 : (words : ℕ → ℕ) → (mair limit table va : ℕ) → Option Translation
level1 words mair limit table va =
    let entry = words (word_at table (va / 2 ^ 30 % 512)) in
    if entry % 4 == 1
    then leaf mair limit 30 entry va
    else if (entry % 4 == 3) && ltb (output 12 entry) limit
    then level2 words mair limit (output 12 entry) va
    else none

unfoldable pub level0 : (words : ℕ → ℕ) → (mair limit table va : ℕ) → Option Translation
level0 words mair limit table va =
    let entry = words (word_at table (va / 2 ^ 39 % 512)) in
    if (entry % 4 == 3) && ltb (output 12 entry) limit
    then level1 words mair limit (output 12 entry) va
    else none

-- The bound of physical addresses, by the bits 34 to 32 of `tcr_el1`.
abbrev pub physical_limit : (tcr : ℕ) → ℕ
physical_limit tcr =
    get_or (2 ^ 32 ∷ 2 ^ 36 ∷ 2 ^ 40 ∷ 2 ^ 42 ∷ 2 ^ 44 ∷ 2 ^ 48 ∷ []) (tcr / 2 ^ 32 % 8) (2 ^ 48)

-- The translation by `ttbr0_el1`: on if the bit 0 of `sctlr_el1` is set, by tables if the bit 7 of `tcr_el1` is not, for
-- the 4 KB granule if its bits 15 and 14 are 0, and for 64 less its bits 5 to 0 bits of address.
unfoldable pub walk : Machine → (va : ℕ) → Option Translation
walk m va =
    let tcr = m.tcr_el1 in
    let limit = physical_limit tcr in
    let table = output 12 m.ttbr0_el1 in
    let in_use = (tcr / 2 ^ 7 % 2 == 0) && (tcr / 2 ^ 14 % 4 == 0) && ltb table limit in
    if m.sctlr_el1 % 2 == 0
    then some (record { pa = va; attributes = 0; never_executed = 0 })
    else if in_use && (tcr % 64 == 16) && ltb va (2 ^ 48)
    then level0 m.words m.mair_el1 limit table va
    else if in_use && (tcr % 64 == 25) && ltb va (2 ^ 39)
    then level1 m.words m.mair_el1 limit table va
    else none

-- Normal memory that is cached, and device memory that is never executed.
abbrev pub normal : (pa : ℕ) → Option Translation
normal pa = some (record { pa = pa; attributes = 0xFF; never_executed = 0 })

abbrev pub device : (pa : ℕ) → Option Translation
device pa = some (record { pa = pa; attributes = 0; never_executed = 3 })

-- The address of the table that an entry names for the code.
abbrev pub next_table : ℕ → ℕ
next_table entry = entry / 2 ^ 12 * 2 ^ 12

block_entry-sum : (j : ℕ) → block_entry j ≡ j * 2 ^ 21 + normal_attributes
block_entry-sum j =
    let same : j * block_size ≡ j * 2 ^ 21 + 0 = omega arith in
    ap (λ x. bit_or x normal_attributes) same
    ∙ bit_or-parts 21 j 0 0 normal_attributes (omega arith) (omega arith)
    ∙ ap (λ x. x * 2 ^ 21 + normal_attributes) (bit_or-zero j)

table_entry-sum : (t : ℕ) → table_entry (t * 2 ^ 12) ≡ t * 2 ^ 12 + 3
table_entry-sum t =
    let pad : t * 2 ^ 12 ≡ t * 2 ^ 12 + 0 = omega arith in
    ap (λ x. bit_or (bit_or x 2) 1) pad
    ∙ ap (λ x. bit_or x 1) (bit_or-parts 12 t 0 0 2 (omega arith) (omega arith))
    ∙ bit_or-parts 12 (bit_or t 0) 0 2 1 (omega arith) (omega arith)
    ∙ ap (λ x. x * 2 ^ 12 + 3) (bit_or-zero (bit_or t 0) ∙ bit_or-zero t)

framebuffer_entry-sum :
    (j : ℕ) → j < 8 → framebuffer_entry j ≡ 3 * 2 ^ 53 + (512 + j) * 2 ^ 21 + 0x701
framebuffer_entry-sum j h =
    let pa = framebuffer_base + j * block_size in
    let same : pa ≡ 0 * 2 ^ 53 + pa = omega arith in
    let blocks : pa ≡ (512 + j) * 2 ^ 21 + 0 = omega arith in
    let low =
      ap (λ x. bit_or x 0x701) blocks
      ∙ bit_or-parts 21 (512 + j) 0 0 0x701 (omega arith) (omega arith)
      ∙ ap (λ x. x * 2 ^ 21 + 0x701) (bit_or-zero (512 + j)) in
    ap (λ x. bit_or x framebuffer_attributes) same
    ∙ bit_or-parts 53 0 3 pa 0x701 (omega arith) (omega arith)
    ∙ omega (arith, low)

-- An entry for a table at the start of a page names that table.
pub next_table-table_entry :
    (table : ℕ) → table % 2 ^ 12 ≡ 0 → next_table (table_entry table) ≡ table
next_table-table_entry table h =
    let page : table ≡ table / 2 ^ 12 * 2 ^ 12 = omega arith in
    let sum = ap table_entry page ∙ table_entry-sum (table / 2 ^ 12) in omega (arith, sum)

-- A step of the walk through an entry for a table.
pub level0-next :
    (words : ℕ → ℕ) (mair table va next : ℕ)
    → words (word_at table (va / 2 ^ 39 % 512)) ≡ table_entry next
    → next % 2 ^ 12 ≡ 0
    → next < 2 ^ 32
    → level0 words mair (2 ^ 32) table va ≡ level1 words mair (2 ^ 32) next va
unfolding level0
level0-next words mair table va next at page low =
    let whole : next ≡ next / 2 ^ 12 * 2 ^ 12 = omega arith in
    let sum = ap table_entry whole ∙ table_entry-sum (next / 2 ^ 12) in
    let kind : (table_entry next % 4 == 3) ≡ true = ground (arith, sum) in
    let out : output 12 (table_entry next) ≡ next = omega (arith, sum) in
    let inside : ltb next (2 ^ 32) ≡ true = ground arith in rw (at, kind, out, inside) refl

pub level0-none :
    (words : ℕ → ℕ) (mair table va : ℕ)
    → words (word_at table (va / 2 ^ 39 % 512)) ≡ 0
    → level0 words mair (2 ^ 32) table va ≡ none
unfolding level0
level0-none words mair table va at = rw at refl

pub level1-none :
    (words : ℕ → ℕ) (mair table va : ℕ)
    → words (word_at table (va / 2 ^ 30 % 512)) ≡ 0
    → level1 words mair (2 ^ 32) table va ≡ none
unfolding level1
level1-none words mair table va at = rw at refl

-- A block that says where an address goes.
level1-block :
    (words : ℕ → ℕ) (mair table va entry pa index never_executed : ℕ)
    → words (word_at table (va / 2 ^ 30 % 512)) ≡ entry
    → entry % 4 ≡ 1
    → entry / 2 ^ 10 % 2 ≡ 1
    → output 30 entry + va % 2 ^ 30 ≡ pa
    → pa < 2 ^ 32
    → entry / 2 ^ 2 % 8 ≡ index
    → entry / 2 ^ 53 % 4 ≡ never_executed
    → level1 words mair (2 ^ 32) table va
      ≡ some (record {
        pa = pa;
        attributes = mair / 2 ^ (8 * index) % 256;
        never_executed = never_executed;
      })
unfolding level1 leaf
level1-block words mair table va entry pa index never_executed at block accessed to low type never =
    let inside : ltb pa (2 ^ 32) ≡ true = ground arith in
    rw (at, block, accessed, to, inside, type, never) refl

pub level1-block_entry :
    (words : ℕ → ℕ) (table va j : ℕ)
    → words (word_at table (va / 2 ^ 30 % 512)) ≡ block_entry j
    → j < 512
    → level1 words mair_value (2 ^ 32) table va ≡ normal (va % 2 ^ 30)
level1-block_entry words table va j at lt =
    let sum = block_entry-sum j in
    level1-block words mair_value table va (block_entry j) (va % 2 ^ 30) 2 0 at (omega (arith, sum))
      (omega (arith, sum)) (omega (arith, sum)) (omega arith) (omega (arith, sum))
      (omega (arith, sum))

pub level1-framebuffer_entry :
    (words : ℕ → ℕ) (table va j : ℕ)
    → words (word_at table (va / 2 ^ 30 % 512)) ≡ framebuffer_entry j
    → j < 8
    → level1 words mair_value (2 ^ 32) table va ≡ device (2 ^ 30 + va % 2 ^ 30)
level1-framebuffer_entry words table va j at lt =
    let sum = framebuffer_entry-sum j lt in
    level1-block words mair_value table va (framebuffer_entry j) (2 ^ 30 + va % 2 ^ 30) 0 3 at
      (omega (arith, sum)) (omega (arith, sum)) (omega (arith, sum)) (omega arith)
      (omega (arith, sum)) (omega (arith, sum))

-- With the registers that `cpu_enable_mmu` sets, the walk starts at level 0.
pub walk-level0 :
    (m : Machine) (table va : ℕ)
    → m.sctlr_el1 % 2 ≡ 1
    → m.tcr_el1 ≡ tcr_value
    → m.mair_el1 ≡ mair_value
    → m.ttbr0_el1 ≡ table
    → table % 2 ^ 12 ≡ 0
    → table < 2 ^ 32
    → va < 2 ^ 48
    → walk m va ≡ level0 m.words mair_value (2 ^ 32) table va
unfolding walk
walk-level0 m table va on tcr mair ttbr page low small =
    let out : output 12 table ≡ table = omega arith in
    let inside : ltb table (2 ^ 32) ≡ true = ground arith in
    let in_range : ltb va (2 ^ 48) ≡ true = ground arith in
    rw (on, tcr, mair, ttbr, out, inside, in_range) refl

-- Setting the bit 0 sets it.
pub bit_or-odd : (s : ℕ) → bit_or s 1 % 2 ≡ 1
bit_or-odd s =
    let whole : s ≡ s / 2 * 2 ^ 1 + s % 2 = omega arith in
    let sum =
      ap (λ x. bit_or x 1) whole ∙ bit_or-parts 1 (s / 2) 0 (s % 2) 1 (omega arith) (omega arith) in
    elim (Bool-cases (s % 2 == 0)) [
      | inl even ↦
          let e : s % 2 ≡ 0 = (==_iff (s % 2) 0).0 even in
          omega (arith, sum, ap (λ x. bit_or x 1) e)
      | inr odd ↦ let e : s % 2 ≡ 1 = ground arith in omega (arith, sum, ap (λ x. bit_or x 1) e)
    ]
