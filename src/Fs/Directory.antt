-- ===== src/Fs/Directory.antt =====
-- kern/fs/fs.c: a directory that is in order, and the search in it.
use Prim.Native.Nat.{bit_and}
use astral_os.Fs.Allocation.{allocate, release, HasRoom}
use astral_os.Memory.Kmalloc.{Heap}
use astral_os.Common.{
  ℕ, zero, suc, ◌+◌, ◌-◌, ◌^◌, ◌≤◌, ◌<◌, ◌≡◌, ◌≢◌, refl, ap, ◌∙◌, arith, true, false, Option, none,
  some, if◌then◌else◌, List, length, ltb, ◌==◌, Bytes, get16,
}
use astral_os.Fs.Store.{
  Env, Fs, Inode, direct_block, kfree, is_no_inode, inode_block_num, inode_size, inode_type_dir,
  type_offset,
}
use astral_os.Fs.Bitmap.{test_bit}
use astral_os.Fs.Dir.{entry_inode, entries_per_block, find_entry, lookup_blocks, fs_lookup}
use astral_os.Fs.Content.{IsReliable}
use astral_os.Fs.Open.{IsOpen, loaded, open_inode-loaded}
use astral_os.Fs.Grown.{IsOpen-moved}

-- The directory is in the table and in use, is of the type of directories, and its inode and blocks are in order; none of
-- its blocks is in the table of inodes, or holds the bitmap of inodes.
pub record IsDir {e : Env} (s : Fs e) (inode_id : ℕ) : Type 0 where
  pub is_open : IsOpen {e = e} (record { state = s; inode = loaded s inode_id }) inode_id
  pub type : (bit_and (get16 (loaded s inode_id) type_offset) inode_type_dir == 0) ≡ false
  pub in_use : test_bit s.inode_bitmap (inode_id - 1) ≡ true
  pub total : s.current_superblock.total_inodes < 2 ^ 32
  pub no_table :
      (id k : ℕ)
      → 0 < id
      → id ≤ s.current_superblock.total_inodes
      → k < 10
      → direct_block (loaded s inode_id) k ≢ inode_block_num s id
  pub no_bitmap :
      (k : ℕ)
      → k < 10
      → direct_block (loaded s inode_id) k ≢ s.current_superblock.inode_bitmap_block
  pub bitmap_apart : s.current_superblock.inode_bitmap_block ≢ inode_block_num s inode_id

-- A directory stays one when the heap changes.
pub IsDir-heap :
    {e : Env} (s : Fs e) (parent_id : ℕ) (h : Heap)
    → IsDir s parent_id
    → IsDir {e = e} (record s { heap = h }) parent_id
IsDir-heap s parent_id h is_dir = record {
  is_open =
      IsOpen-moved (record { state = s; inode = loaded s parent_id }) parent_id s.device h
        (loaded s parent_id) is_dir.is_open (λ k lt. refl) is_dir.is_open.stored;
  type = is_dir.type;
  in_use = is_dir.in_use;
  total = is_dir.total;
  no_table = is_dir.no_table;
  no_bitmap = is_dir.no_bitmap;
  bitmap_apart = is_dir.bitmap_apart;
}

-- The heap has no part in a search.
pub lookup_blocks-heap :
    {e : Env} (s : Fs e) (heap : Heap) (parent : Bytes) (name : List ℕ) (buffer : Bytes) (i n : ℕ)
    → lookup_blocks {e = e} (record s { heap = heap }) parent name buffer i n
      ≡ lookup_blocks s parent name buffer i n
unfolding lookup_blocks
lookup_blocks-heap s heap parent name buffer i zero = refl
lookup_blocks-heap {e} s heap parent name buffer i (suc n) =
    let block = (e.block_device_read s.device (direct_block parent i) buffer).1 in
    let round = λ (skipped rest : ℕ).
      if direct_block parent i == 0
      then skipped
      else elim (find_entry block name 0 entries_per_block) [
        | none ↦ rest
        | some j ↦ entry_inode block j
      ] in
    ap (λ r. round r (lookup_blocks {e = e} (record s { heap = heap }) parent name block (i + 1) n))
      (lookup_blocks-heap s heap parent name buffer (i + 1) n)
    ∙ ap (round (lookup_blocks s parent name buffer (i + 1) n))
        (lookup_blocks-heap s heap parent name block (i + 1) n)

-- `fs_lookup` in an open directory.
module _ {e : Env} (reliable : IsReliable e) (s : Fs e) (parent_id : ℕ) (name : List ℕ)
    (short : length name ≤ 28) (served : HasRoom s.heap) (valid : is_no_inode s parent_id ≡ false)
    (type : (bit_and (get16 (loaded s parent_id) type_offset) inode_type_dir == 0) ≡ false) where
  abbrev searched : Fs e
  searched = record s {
    heap = release (allocate s.heap inode_size).1 (allocate s.heap inode_size).0;
  }

  pub fs_lookup-loaded :
      fs_lookup s parent_id name
      ≡ (lookup_blocks s (loaded s parent_id) name e.fresh 0 10, searched)
  unfolding fs_lookup
  fs_lookup-loaded =
      let opened = open_inode-loaded reliable s parent_id valid inode_type_dir served type in
      let room : ltb 28 (length name) ≡ false = ground arith in
      let after = λ (o : Option Inode × Fs e). (elim o.0 as (λ _. ℕ × Fs e) [
        | none ↦ (0, o.1)
        | some parent ↦ (lookup_blocks o.1 parent.bytes name e.fresh 0 10, kfree o.1 parent.address)
      ]) in
      rw room (
        ap after opened
        ∙ ap (λ (n : ℕ). (n, searched))
            (lookup_blocks-heap s (allocate s.heap inode_size).1 (loaded s parent_id) name e.fresh 0
              10))
