-- ===== src/Memory/PageTables/Blocks.antt =====
-- The loops of `cpu_enable_mmu` and `vm_create_task_pagetable` in kern/memory/vm_maps.c: the words that
-- they write.
use Prim.Native.Nat.{bit_or}
use astral_os.Common.{
  ℕ, zero, suc, ◌+◌, ◌*◌, ◌/◌, ◌%◌, ◌^◌, ◌≤◌, ◌<◌, ◌≡◌, ◌≢◌, ◌⊎◌, inl, inr, refl, subst, ◌∙◌, arith,
  true, false, Bool-cases, Option, some, ltb, leb, ◌==◌, ==_ne, ==_refl, ==_iff, store,
}
use astral_os.Memory.PageTables.{
  word_at, clear_table, page_size, block_size, normal_attributes, framebuffer_attributes,
  framebuffer_base, framebuffer_size, map_blocks, map_framebuffer, copy_table,
}

-- The entry of the block `j` of the first gigabyte, and of the block `j` of the framebuffer.
abbrev pub block_entry : ℕ → ℕ
block_entry j = bit_or (j * block_size) normal_attributes

abbrev pub framebuffer_entry : ℕ → ℕ
framebuffer_entry j = bit_or (framebuffer_base + j * block_size) framebuffer_attributes

-- An address that is not one of the words `i` to `end` of a table.
abbrev pub Outside : (table i end a : ℕ) → Type 0
Outside table i end a = (a < word_at table i) ⊎ (word_at table end ≤ a)

pub store-ne : (words : ℕ → ℕ) (a v b : ℕ) → b ≢ a → store words a v b ≡ words b
store-ne words a v b ne = rw (==_ne b a ne)

pub store_self : (words : ℕ → ℕ) (a v : ℕ) → store words a v a ≡ v
store_self words a v = rw (==_refl a)

pub clear_table-out :
    (words : ℕ → ℕ) (table a : ℕ) → Outside table 0 512 a → clear_table words table a ≡ words a
clear_table-out words table a (inl low) = let l : leb table a ≡ false = ground arith in rw l
clear_table-out words table a (inr high) =
    let l : leb table a ≡ true = ground arith in
    let h : ltb a (table + page_size) ≡ false = ground arith in rw (l, h)

pub clear_table-in :
    (words : ℕ → ℕ) (table j : ℕ) → j < 512 → clear_table words table (word_at table j) ≡ 0
clear_table-in words table j lt =
    let l : leb table (word_at table j) ≡ true = ground arith in
    let h : ltb (word_at table j) (table + page_size) ≡ true = ground arith in rw (l, h)

pub map_blocks-out :
    (words : ℕ → ℕ) (table i n a : ℕ)
    → Outside table i (i + n) a
    → map_blocks words table i n a ≡ words a
unfolding map_blocks
map_blocks-out words table i zero a out = refl
map_blocks-out words table i (suc n) a out =
    let out' : Outside table (i + 1) (i + 1 + n) a = ground arith in
    let ne : a ≢ word_at table i = λ e. absurd (ground arith) in
    map_blocks-out (store words (word_at table i) (block_entry i)) table (i + 1) n a out'
    ∙ store-ne words (word_at table i) (block_entry i) a ne

pub map_blocks-in :
    (words : ℕ → ℕ) (table i n j : ℕ)
    → i ≤ j
    → j < i + n
    → map_blocks words table i n (word_at table j) ≡ block_entry j
unfolding map_blocks
map_blocks-in words table i zero j low high = absurd (omega arith)
map_blocks-in words table i (suc n) j low high =
    let words' = store words (word_at table i) (block_entry i) in
    elim (Bool-cases (i == j)) [
      | inl here ↦
          subst (λ k. map_blocks words' table (i + 1) n (word_at table k) ≡ block_entry k)
            ((==_iff i j).0 here)
            (map_blocks-out words' table (i + 1) n (word_at table i) (inl (omega arith))
              ∙ store_self words (word_at table i) (block_entry i))
      | inr other ↦ map_blocks-in words' table (i + 1) n j (ground arith) (omega arith)
    ]

-- What the loop over the framebuffer does from its block `k` on.
pub record Framed (words : ℕ → ℕ) (table k : ℕ) (r : Option (ℕ → ℕ)) : Type 0 where
  pub after : ℕ → ℕ
  pub ran : r ≡ some after
  pub inside : (j : ℕ) → k ≤ j → j < 8 → after (word_at table j) ≡ framebuffer_entry j
  pub outside : (a : ℕ) → Outside table k 8 a → after a ≡ words a

-- One round of the loop.
map_framebuffer-suc :
    (n k : ℕ) (words : ℕ → ℕ) (table : ℕ)
    → k < 8
    → map_framebuffer (suc n) words table (framebuffer_base + k * block_size)
      ≡ map_framebuffer n
          (store words (word_at table k) (framebuffer_entry k))
          table
          (framebuffer_base + (k + 1) * block_size)
unfolding map_framebuffer
map_framebuffer-suc n k words table h =
    let pa = framebuffer_base + k * block_size in
    let more : ltb pa (framebuffer_base + framebuffer_size) ≡ true = ground arith in
    let index : pa / 2 ^ 21 % 512 ≡ k = omega arith in
    let next : pa + block_size ≡ framebuffer_base + (k + 1) * block_size = omega arith in
    rw (more, index, next) refl

pub map_framebuffer-Framed :
    (n k : ℕ) (words : ℕ → ℕ) (table : ℕ)
    → k + n ≡ 8
    → Framed words table k (map_framebuffer n words table (framebuffer_base + k * block_size))
unfolding map_framebuffer
map_framebuffer-Framed zero k words table h =
    let done : ltb (framebuffer_base + k * block_size) (framebuffer_base + framebuffer_size)
        ≡ false =
      ground arith in
    record {
      after = words;
      ran = rw done refl;
      inside = λ j low high. absurd (omega arith);
      outside = λ a out. refl;
    }
map_framebuffer-Framed (suc n) k words table h =
    let words' = store words (word_at table k) (framebuffer_entry k) in
    let rest = map_framebuffer-Framed n (k + 1) words' table (omega arith) in
    record {
      after = rest.after;
      ran = map_framebuffer-suc n k words table (omega arith) ∙ rest.ran;
      inside = λ j low high. elim (Bool-cases (k == j)) [
        | inl here ↦
            subst (λ x. rest.after (word_at table x) ≡ framebuffer_entry x) ((==_iff k j).0 here)
              (rest.outside (word_at table k) (inl (omega arith))
                ∙ store_self words (word_at table k) (framebuffer_entry k))
        | inr other ↦ rest.inside j (ground arith) high
      ];
      outside = λ a out.
          let out' : Outside table (k + 1) 8 a = ground arith in
          let ne : a ≢ word_at table k = λ e. absurd (ground arith) in
          rest.outside a out' ∙ store-ne words (word_at table k) (framebuffer_entry k) a ne;
    }

pub copy_table-out :
    (words : ℕ → ℕ) (from to i n a : ℕ)
    → Outside to i (i + n) a
    → copy_table words from to i n a ≡ words a
unfolding copy_table
copy_table-out words from to i zero a out = refl
copy_table-out words from to i (suc n) a out =
    let out' : Outside to (i + 1) (i + 1 + n) a = ground arith in
    let ne : a ≢ word_at to i = λ e. absurd (ground arith) in
    let v = words (word_at from i) in
    copy_table-out (store words (word_at to i) v) from to (i + 1) n a out'
    ∙ store-ne words (word_at to i) v a ne

-- The copy has the words of the other table, if the two do not meet.
pub copy_table-in :
    (words : ℕ → ℕ) (from to i n j : ℕ)
    → (from + page_size ≤ to) ⊎ (to + page_size ≤ from)
    → i + n ≤ 512
    → i ≤ j
    → j < i + n
    → copy_table words from to i n (word_at to j) ≡ words (word_at from j)
unfolding copy_table
copy_table-in words from to i zero j apart size low high = absurd (omega arith)
copy_table-in words from to i (suc n) j apart size low high =
    let v = words (word_at from i) in
    let words' = store words (word_at to i) v in
    elim (Bool-cases (i == j)) [
      | inl here ↦
          subst (λ k. copy_table words' from to (i + 1) n (word_at to k) ≡ words (word_at from k))
            ((==_iff i j).0 here)
            (copy_table-out words' from to (i + 1) n (word_at to i) (inl (omega arith))
              ∙ store_self words (word_at to i) v)
      | inr other ↦
          copy_table-in words' from to (i + 1) n j apart (omega arith) (ground arith) (omega arith)
          ∙ store-ne words (word_at to i) v (word_at from j) (λ e. absurd (ground arith))
    ]
