-- ===== src/Fs/Grown.antt =====
-- `fs_write` of kern/fs/fs.c: the inode at the end, with the size of a file that has grown.
use astral_os.Memory.Kmalloc.{Heap}
use astral_os.Common.{
  ℕ, ◌+◌, ◌*◌, ◌/◌, ◌%◌, ◌^◌, ◌≤◌, ◌<◌, ◌≡◌, ◌≢◌, ◌⊎◌, inl, inr, refl, arith, Bool-cases,
  if◌then◌else◌, ltb, add64, Bytes, copy-within, copy-outside, get16, get64, put64, little_endian,
}
use astral_os.Fs.Store.{
  Env, Fs, direct_block, direct_block_offset, inode_block_num, inode_start, inode_size, type_offset,
  size_offset,
}
use astral_os.Fs.Content.{IsReliable, cell}
use astral_os.Fs.Data.{Written, grow}
use astral_os.Fs.Open.{IsOpen, rewritten, rewritten-own, rewritten-other, write_inode-rewritten}

-- The same bytes of an inode have the same fields.
abbrev pub Same : (a b : Bytes) → Type 0
Same a b = (i : ℕ) → i < inode_size → a i ≡ b i

pub Same-direct_block :
    (a b : Bytes) (k : ℕ) → Same a b → k < 10 → direct_block a k ≡ direct_block b k
Same-direct_block a b k same h =
    let p = direct_block_offset k in
    rw
      (
        same p (omega arith),
        same (p + 1) (omega arith),
        same (p + 2) (omega arith),
        same (p + 3) (omega arith),
      )
      refl

pub Same-type : (a b : Bytes) → Same a b → get16 a type_offset ≡ get16 b type_offset
Same-type a b same = rw (same 4 (omega arith), same 5 (omega arith)) refl

pub Same-size : (a b : Bytes) → Same a b → get64 a size_offset ≡ get64 b size_offset
Same-size a b same =
    rw
      (
        same 16 (omega arith),
        same 17 (omega arith),
        same 18 (omega arith),
        same 19 (omega arith),
        same 20 (omega arith),
        same 21 (omega arith),
        same 22 (omega arith),
        same 23 (omega arith),
      )
      refl

-- The size once it is set.
pub put_size : (m : Bytes) (v : ℕ) → v < 2 ^ 32 → get64 (put64 m size_offset v) size_offset ≡ v
put_size m v small =
    let at =
      λ (i : ℕ) (low : 16 ≤ i) (high : i < 24). copy-within m 16 (little_endian v) 0 8 i low high in
    let digits : v / 256 ^ 0 % 256
          + 256 * (v / 256 ^ 1 % 256)
          + 65536 * (v / 256 ^ 2 % 256)
          + 16777216 * (v / 256 ^ 3 % 256)
          + 2 ^ 32
            * (v / 256 ^ 4 % 256
                + 256 * (v / 256 ^ 5 % 256)
                + 65536 * (v / 256 ^ 6 % 256)
                + 16777216 * (v / 256 ^ 7 % 256))
        ≡ v =
      omega arith in
    rw
      (
        at 16 (omega arith) (omega arith),
        at 17 (omega arith) (omega arith),
        at 18 (omega arith) (omega arith),
        at 19 (omega arith) (omega arith),
        at 20 (omega arith) (omega arith),
        at 21 (omega arith) (omega arith),
        at 22 (omega arith) (omega arith),
        at 23 (omega arith) (omega arith),
      )
      digits

-- The state with another device and heap, where the inode has the same blocks.
pub IsOpen-moved :
    {e : Env} (w : Written e) (inode_id : ℕ) (d : e.Device) (h : Heap) (inode : Bytes)
    → IsOpen w inode_id
    → ((k : ℕ) → k < 10 → direct_block inode k ≡ direct_block w.inode k)
    → ((i : ℕ)
        → i < inode_size
        → cell {e = e}
            (record w.state { device = d })
            (inode_block_num w.state inode_id)
            (inode_start inode_id + i)
          ≡ inode i)
    → IsOpen {e = e}
        (record { state = record w.state { device = d; heap = h }; inode = inode })
        inode_id
IsOpen-moved w inode_id d h inode o same stored = record {
  valid = o.valid;
  total = o.total;
  table = o.table;
  table_used = o.table_used;
  bitmap = o.bitmap;
  bitmap_used = o.bitmap_used;
  apart = o.apart;
  used = λ k lt. rw (same k lt) (o.used k lt);
  not_table = λ k lt. rw (same k lt) (o.not_table k lt);
  not_bitmap = λ k lt. rw (same k lt) (o.not_bitmap k lt);
  distinct = λ j k lt lt' ne. rw (same j lt, same k lt') (o.distinct j k lt lt' ne);
  stored = stored;
}

-- The inode at the end, with the size of a file that has grown.
pub final_inode : Bytes → (end : ℕ) → Bytes
final_inode inode end =
    if ltb (get64 inode size_offset) end then put64 inode size_offset end else inode

module _ (inode : Bytes) (end : ℕ) (small : end ≤ 40960) where
  pub final_inode-size : end ≤ get64 (final_inode inode end) size_offset
  unfolding final_inode
  final_inode-size = elim (Bool-cases (ltb (get64 inode size_offset) end)) [
    | inl grown ↦ rw grown (omega (arith, put_size inode end (omega arith)))
    | inr enough ↦ rw enough (ground arith)
  ]

  pub final_inode-other : (i : ℕ) → (i < 16) ⊎ (24 ≤ i) → final_inode inode end i ≡ inode i
  unfolding final_inode
  final_inode-other i out = elim (Bool-cases (ltb (get64 inode size_offset) end)) [
    | inl grown ↦ rw grown (copy-outside inode 16 (little_endian end) 0 8 i out)
    | inr enough ↦ rw enough refl
  ]

  pub final_inode-direct_block :
      (k : ℕ) → direct_block (final_inode inode end) k ≡ direct_block inode k
  final_inode-direct_block k =
      let p = direct_block_offset k in
      rw
        (
          final_inode-other p (inr (omega arith)),
          final_inode-other (p + 1) (inr (omega arith)),
          final_inode-other (p + 2) (inr (omega arith)),
          final_inode-other (p + 3) (inr (omega arith)),
        )
        refl

module _ {e : Env} (reliable : IsReliable e) (w : Written e) (inode_id offset n : ℕ)
    (is_open : IsOpen w inode_id) (small : offset + n ≤ 40960) where
  -- The device at the end of `fs_write`.
  pub ended : Fs e
  ended =
      if ltb (get64 w.inode size_offset) (offset + n)
      then rewritten w.state inode_id (put64 w.inode size_offset (offset + n))
      else w.state

  pub grow-ended : grow w inode_id offset n ≡ ended
  unfolding ended
  grow-ended =
      let sum : add64 offset n ≡ offset + n = omega arith in
      elim (Bool-cases (ltb (get64 w.inode size_offset) (offset + n))) [
        | inl grown ↦
            rw (sum, grown)
              (write_inode-rewritten reliable w.state inode_id is_open.valid
                (put64 w.inode size_offset (offset + n)))
        | inr enough ↦ rw (sum, enough) refl
      ]

  pub ended-state : ended ≡ record w.state { device = ended.device }
  unfolding ended
  ended-state = elim (Bool-cases (ltb (get64 w.inode size_offset) (offset + n))) [
    | inl grown ↦ rw grown refl
    | inr enough ↦ rw enough refl
  ]

  pub ended-inode :
      (i : ℕ)
      → i < inode_size
      → cell ended (inode_block_num w.state inode_id) (inode_start inode_id + i)
        ≡ final_inode w.inode (offset + n) i
  unfolding ended final_inode
  ended-inode i lt = elim (Bool-cases (ltb (get64 w.inode size_offset) (offset + n))) [
    | inl grown ↦ rw grown (
        rewritten-own reliable w.state inode_id is_open.valid
          (put64 w.inode size_offset (offset + n)) i lt)
    | inr enough ↦ rw enough (is_open.stored i lt)
  ]

  pub ended-other :
      (block i : ℕ)
      → inode_block_num w.state inode_id ≢ block
      → cell ended block i ≡ cell w.state block i
  unfolding ended
  ended-other block i ne = elim (Bool-cases (ltb (get64 w.inode size_offset) (offset + n))) [
    | inl grown ↦ rw grown (
        rewritten-other reliable w.state inode_id is_open.valid
          (put64 w.inode size_offset (offset + n)) block i ne)
    | inr enough ↦ rw enough refl
  ]
