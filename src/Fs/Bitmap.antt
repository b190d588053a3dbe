-- ===== src/Fs/Bitmap.antt =====
-- kern/fs/fs.c: the bitmaps that say which inodes and which blocks are in use.
use astral_os.Common.{
  ℕ, zero, suc, ◌+◌, ◌-◌, ◌/◌, ◌%◌, ◌^◌, Bool, ◌||◌, Option, none, some, if◌then◌else◌, ltb, ◌==◌,
  add32, sub32, Bytes,
}
use astral_os.Fs.Store.{Env, Fs, write_block, is_no_inode}

-- `(bitmap[i / 8] >> (i % 8)) & 1`
abbrev pub test_bit : Bytes → ℕ → Bool
test_bit bitmap i = bitmap (i / 8) / 2 ^ (i % 8) % 2 == 1

-- `bitmap[i / 8] |= 1 << (i % 8)`: a bit that is set already stays.
abbrev pub set_bit : Bytes → ℕ → Bytes
set_bit bitmap i j =
    if j == i / 8
    then (if test_bit bitmap i then bitmap j else bitmap j + 2 ^ (i % 8))
    else bitmap j

-- `bitmap[i / 8] &= ~(1 << (i % 8))`
abbrev pub clear_bit : Bytes → ℕ → Bytes
clear_bit bitmap i j =
    if j == i / 8
    then (if test_bit bitmap i then bitmap j - 2 ^ (i % 8) else bitmap j)
    else bitmap j

-- The loop of the two allocators: the first of the `n` bits from `i` on that is not set.
unfoldable pub first_clear : Bytes → (i n : ℕ) → Option ℕ
first_clear bitmap i zero = none
first_clear bitmap i (suc n) =
    let rest = first_clear bitmap (i + 1) n in if test_bit bitmap i then rest else some i

module _ {e : Env} where
  -- The body of `allocate_inode` when it finds a bit that is not set.
  abbrev pub take_inode : Fs e → ℕ → ℕ × Fs e
  take_inode s i =
      let sb = s.current_superblock in
      let s' = record s {
        inode_bitmap = set_bit s.inode_bitmap i;
        current_superblock = record sb { free_inodes = sub32 sb.free_inodes 1 };
      } in
      (add32 i 1, (write_block s' sb.inode_bitmap_block s'.inode_bitmap).1)

  unfoldable pub allocate_inode : Fs e → ℕ × Fs e
  allocate_inode s = elim (first_clear s.inode_bitmap 0 s.current_superblock.total_inodes) [
    | none ↦ (0, s)
    | some i ↦ take_inode s i
  ]

  unfoldable pub free_inode : Fs e → (inode_id : ℕ) → Fs e
  free_inode s inode_id =
      let sb = s.current_superblock in
      let s' = record s {
        inode_bitmap = clear_bit s.inode_bitmap (inode_id - 1);
        current_superblock = record sb { free_inodes = add32 sb.free_inodes 1 };
      } in
      if is_no_inode s inode_id then s else (write_block s' sb.inode_bitmap_block s'.inode_bitmap).1

  abbrev pub take_block : Fs e → ℕ → ℕ × Fs e
  take_block s i =
      let sb = s.current_superblock in
      let s' = record s {
        block_bitmap = set_bit s.block_bitmap i;
        current_superblock = record sb { free_blocks = sub32 sb.free_blocks 1 };
      } in
      (add32 i 1, (write_block s' sb.block_bitmap_block s'.block_bitmap).1)

  unfoldable pub allocate_block : Fs e → ℕ × Fs e
  allocate_block s = elim (first_clear s.block_bitmap 0 s.current_superblock.total_blocks) [
    | none ↦ (0, s)
    | some i ↦ take_block s i
  ]

  unfoldable pub free_block : Fs e → (block_num : ℕ) → Fs e
  free_block s block_num =
      let sb = s.current_superblock in
      let s' = record s {
        block_bitmap = clear_bit s.block_bitmap (block_num - 1);
        current_superblock = record sb { free_blocks = add32 sb.free_blocks 1 };
      } in
      if (block_num == 0) || ltb sb.total_blocks block_num
      then s
      else (write_block s' sb.block_bitmap_block s'.block_bitmap).1
