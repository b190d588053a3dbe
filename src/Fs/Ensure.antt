-- ===== src/Fs/Ensure.antt =====
-- `fs_write` of kern/fs/fs.c: a position of the file gets a block.
use astral_os.Common.{
  ℕ, suc, ◌-◌, ◌<◌, ◌≡◌, ◌≢◌, ◌⊎◌, inl, inr, refl, sym, ap, subst, ◌∙◌, arith, true, false,
  Bool-cases, none, some, Option-cases, ◌==◌, ==_ne, ==_iff, add32, Bytes, copy-outside, put32,
  little_endian,
}
use astral_os.Fs.Store.{Env, Fs, direct_block, direct_block_offset, inode_block_num}
use astral_os.Fs.Content.{IsReliable, cell, cell-other}
use astral_os.Fs.Data.{Written, ensure_block}
use astral_os.Fs.Bitmap.{test_bit, set_bit, first_clear, take_block, allocate_block}
use astral_os.Fs.Alloc.{set_bit_self, set_bit_ne, first_found}
use astral_os.Fs.Superblock.{get32-put32, get32-put32_ne}
use astral_os.Fs.Open.{IsOpen, rewritten, rewritten-own, rewritten-other, write_inode-rewritten}

-- The other blocks of an inode when one is set.
direct_block-put :
    (inode : Bytes) (i j v : ℕ)
    → i ≢ j
    → direct_block (put32 inode (direct_block_offset i) v) j ≡ direct_block inode j
direct_block-put inode i j v ne =
    get32-put32_ne inode (direct_block_offset i) (direct_block_offset j) v (ground arith)

set_bit-keeps :
    (bitmap : Bytes) (i j : ℕ)
    → test_bit bitmap i ≡ false
    → test_bit bitmap j ≡ true
    → test_bit (set_bit bitmap i) j ≡ true
set_bit-keeps bitmap i j clear used =
    let ne : i ≢ j = λ same. absurd (ground (arith, ap (test_bit bitmap) same)) in
    set_bit_ne bitmap i clear j ne ∙ used

-- What the step keeps: the place of the inode on the device, the rest of the inode, its blocks, and what blocks hold
-- that are neither the table's nor the bitmap's.
pub record Keeps {e : Env} (w w' : Written e) (inode_id : ℕ) : Type 0 where
  pub heap : w'.state.heap ≡ w.state.heap
  pub table : inode_block_num w'.state inode_id ≡ inode_block_num w.state inode_id
  pub total : w'.state.current_superblock.total_blocks ≡ w.state.current_superblock.total_blocks
  pub bitmap :
      w'.state.current_superblock.block_bitmap_block ≡ w.state.current_superblock.block_bitmap_block
  pub header : (i : ℕ) → i < 40 → w'.inode i ≡ w.inode i
  pub blocks :
      (k : ℕ)
      → k < 10
      → direct_block w.inode k ≢ 0
      → direct_block w'.inode k ≡ direct_block w.inode k

module _ {e : Env} (reliable : IsReliable e) (w : Written e) (inode_id i : ℕ)
    (ok : IsOpen w inode_id) (lt : i < 10) where
  -- The block `k + 1` for a position that has none.
  module _ (k : ℕ) (missing : direct_block w.inode i ≡ 0)
      (found : first_clear w.state.block_bitmap 0 w.state.current_superblock.total_blocks
        ≡ some k) where
    abbrev pub inode' : Bytes
    inode' = put32 w.inode (direct_block_offset i) (add32 k 1)

    abbrev pub marked : Fs e
    marked = (take_block w.state k).1

    abbrev taken : Written e
    taken = record { state = rewritten marked inode_id inode'; inode = inode' }

    lt_total : k < w.state.current_superblock.total_blocks
    lt_total =
        (first_found w.state.block_bitmap w.state.current_superblock.total_blocks (some k) found).1

    clear : test_bit w.state.block_bitmap k ≡ false
    clear =
        (first_found w.state.block_bitmap w.state.current_superblock.total_blocks (some k) found).2

    pub num : add32 k 1 ≡ suc k
    num = omega (arith, lt_total, ok.total)

    pub allocate_block-taken : allocate_block w.state ≡ (add32 k 1, marked)
    unfolding allocate_block
    allocate_block-taken = rw (found, allocate_block) refl

    ensure_block-taken : ensure_block w inode_id i ≡ (add32 k 1, taken)
    ensure_block-taken =
        let some_block : (suc k == 0) ≡ false = ==_ne (suc k) 0 (λ e. absurd (omega arith)) in
        rw (missing, allocate_block-taken, num, some_block)
          (ap
            (λ t.
              (suc k, record { state = t; inode = put32 w.inode (direct_block_offset i) (suc k) }))
            (write_inode-rewritten reliable marked inode_id ok.valid
              (put32 w.inode (direct_block_offset i) (suc k))))

    pub marked-cell :
        (block j : ℕ)
        → w.state.current_superblock.block_bitmap_block ≢ block
        → cell marked block j ≡ cell w.state block j
    marked-cell block j ne =
        cell-other reliable (record w.state { block_bitmap = set_bit w.state.block_bitmap k })
          w.state.current_superblock.block_bitmap_block (set_bit w.state.block_bitmap k) block ne j

    taken-cell :
        (block j : ℕ)
        → w.state.current_superblock.block_bitmap_block ≢ block
        → inode_block_num w.state inode_id ≢ block
        → cell taken.state block j ≡ cell w.state block j
    taken-cell block j not_bitmap not_table =
        rewritten-other reliable marked inode_id ok.valid inode' block j not_table
        ∙ marked-cell block j not_bitmap

    kept :
        (j : ℕ)
        → test_bit w.state.block_bitmap j ≡ true
        → test_bit (set_bit w.state.block_bitmap k) j ≡ true
    kept j used = set_bit-keeps w.state.block_bitmap k j clear used

    pub own : direct_block inode' i ≡ suc k
    own = get32-put32 w.inode (direct_block_offset i) (add32 k 1) (omega arith) ∙ num

    -- No block in use has the new number.
    pub new :
        (block : ℕ) → block ≢ 0 → test_bit w.state.block_bitmap (block - 1) ≡ true → suc k ≢ block
    new block real used same =
        absurd (ground (arith, clear, ap (λ x. test_bit w.state.block_bitmap (x - 1)) same, used))

    -- A statement on each block of the inode afterwards.
    pub each :
        (P : ℕ → ℕ → Type 0)
        → P i (suc k)
        → ((j : ℕ) → i ≢ j → j < 10 → P j (direct_block w.inode j))
        → (j : ℕ) → j < 10
        → P j (direct_block inode' j)
    each P here others j lt' = elim (Bool-cases (i == j)) [
      | inl same ↦
          let e : i ≡ j = (==_iff i j).0 same in
          subst (λ x. P x (direct_block inode' x)) e (subst (P i) (sym own) here)
      | inr differs ↦
          let ne : i ≢ j = λ e. absurd (ground arith) in
          subst (P j) (sym (direct_block-put w.inode i j (add32 k 1) ne)) (others j ne lt')
    ]

    taken-Keeps : Keeps w taken inode_id
    taken-Keeps = record {
      heap = refl;
      table = refl;
      total = refl;
      bitmap = refl;
      header = λ j h.
          copy-outside w.inode (direct_block_offset i) (little_endian (add32 k 1)) 0 4 j
            (inl (omega arith));
      blocks = λ j h real.
          direct_block-put w.inode i j (add32 k 1)
            (λ same. real (ap (direct_block w.inode) (sym same) ∙ missing));
    }

    taken-IsOpen : IsOpen taken inode_id
    taken-IsOpen = record {
      valid = ok.valid;
      total = ok.total;
      table = ok.table;
      table_used = kept (inode_block_num w.state inode_id - 1) ok.table_used;
      bitmap = ok.bitmap;
      bitmap_used = kept (w.state.current_superblock.block_bitmap_block - 1) ok.bitmap_used;
      apart = ok.apart;
      used =
          each (λ j b. b ≢ 0 → test_bit (set_bit w.state.block_bitmap k) (b - 1) ≡ true)
            (λ _.
              ap (test_bit (set_bit w.state.block_bitmap k)) (omega arith)
              ∙ set_bit_self w.state.block_bitmap k clear)
            (λ j ne h real. kept (direct_block w.inode j - 1) (ok.used j h real));
      not_table =
          each (λ j b. b ≢ inode_block_num w.state inode_id)
            (new (inode_block_num w.state inode_id) ok.table ok.table_used)
            (λ j ne h. ok.not_table j h);
      not_bitmap =
          each (λ j b. b ≢ w.state.current_superblock.block_bitmap_block)
            (new w.state.current_superblock.block_bitmap_block ok.bitmap ok.bitmap_used)
            (λ j ne h. ok.not_bitmap j h);
      distinct = λ j j' h h' ne.
          each (λ x b. x ≢ j' → b ≢ 0 → b ≢ direct_block inode' j')
            (λ ne' real.
              each (λ y b. i ≢ y → suc k ≢ b) (λ z. absurd (z refl))
                (λ y ny hy z. elim (Bool-cases (direct_block w.inode y == 0)) [
                  | inl none_there ↦ λ same. absurd (ground arith)
                  | inr some_there ↦
                      let real' : direct_block w.inode y ≢ 0 = λ q. absurd (ground arith) in
                      new (direct_block w.inode y) real' (ok.used y hy real')
                ])
                j' h' ne')
            (λ x nx hx nx' real.
              each (λ y b. x ≢ y → direct_block w.inode x ≢ b)
                (λ _ same. new (direct_block w.inode x) real (ok.used x hx real) (sym same))
                (λ y ny hy z. ok.distinct x y hx hy z real) j' h' nx')
            j h ne;
      stored = rewritten-own reliable marked inode_id ok.valid inode';
    }

  -- The state keeps the blocks that are neither the table's nor the bitmap's.
  abbrev pub Frames : Written e → Type 0
  Frames w' =
      (block j : ℕ)
      → w.state.current_superblock.block_bitmap_block ≢ block
      → inode_block_num w.state inode_id ≢ block
      → cell w'.state block j ≡ cell w.state block j

  -- Either every block is in use, or the position has a block afterwards.
  pub ensure_block-IsOpen :
      ((direct_block w.inode i ≡ 0)
        × (first_clear w.state.block_bitmap 0 w.state.current_superblock.total_blocks ≡ none)
        × (ensure_block w inode_id i ≡ (0, w)))
      ⊎ ((w' : Written e) × (ensure_block w inode_id i ≡ (direct_block w'.inode i, w'))
          × IsOpen w' inode_id
          × Keeps w w' inode_id
          × (direct_block w'.inode i ≢ 0)
          × Frames w')
  unfolding allocate_block
  ensure_block-IsOpen = elim (Bool-cases (direct_block w.inode i == 0)) [
    | inr there ↦ inr (
      w,
      rw there refl,
      ok,
      record {
        heap = refl;
        table = refl;
        total = refl;
        bitmap = refl;
        header = λ j h. refl;
        blocks = λ j h real. refl;
      },
      (λ z. absurd (ground arith)),
      (λ block j a b. refl),
    )
    | inl missing ↦
        let e0 : direct_block w.inode i ≡ 0 = (==_iff (direct_block w.inode i) 0).0 missing in
        elim (Option-cases
          (first_clear w.state.block_bitmap 0 w.state.current_superblock.total_blocks)) [
            | inl full ↦ inl (
              e0,
              full,
              (let left : allocate_block w.state ≡ (0, w.state) = rw (full, allocate_block) refl in
                  rw (missing, left) refl),
            )
            | inr (k, found) ↦ inr (
              taken k e0 found,
              ensure_block-taken k e0 found
                  ∙ ap (λ b. (b, taken k e0 found)) (num k e0 found ∙ sym (own k e0 found)),
              taken-IsOpen k e0 found,
              taken-Keeps k e0 found,
              (λ z. absurd (ground (arith, own k e0 found))),
              taken-cell k e0 found,
            )
          ]
  ]
