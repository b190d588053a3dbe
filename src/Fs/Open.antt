-- ===== src/Fs/Open.antt =====
-- kern/fs/fs.c: an inode in memory and its copy on the device, on a device that does not fail.
use Prim.Native.Nat.{bit_and}
use astral_os.Fs.Allocation.{allocate, HasRoom}
use astral_os.Common.{
  ℕ, ◌+◌, ◌-◌, ◌^◌, ◌<◌, ◌≡◌, ◌≢◌, refl, ap, ◌∙◌, arith, true, false, Option, some, ◌==◌, ==_ne,
  Bytes, copy, copy-within, get16,
}
use astral_os.Fs.Store.{
  Env, Fs, Inode, direct_block, write_block, get_inode, write_inode, open_inode, is_no_inode,
  inode_block_num, inode_start, inode_size, type_offset,
}
use astral_os.Fs.Content.{IsReliable, cell, cell-own, cell-other}
use astral_os.Fs.Data.{Written}
use astral_os.Fs.Bitmap.{test_bit}

module _ {e : Env} where
  -- The bytes of the inode that `get_inode` allocates.
  abbrev pub loaded : Fs e → (inode_id : ℕ) → Bytes
  loaded s inode_id =
      copy e.fresh 0 (cell s (inode_block_num s inode_id)) (inode_start inode_id) inode_size

  pub loaded-cell :
      (s : Fs e) (inode_id i : ℕ)
      → i < inode_size
      → loaded s inode_id i ≡ cell s (inode_block_num s inode_id) (inode_start inode_id + i)
  loaded-cell s inode_id i lt =
      copy-within e.fresh 0 (cell s (inode_block_num s inode_id)) (inode_start inode_id) inode_size
        i (omega arith) (omega arith)
      ∙ ap (λ k. cell s (inode_block_num s inode_id) (inode_start inode_id + k)) (omega arith)

  -- The state after a `write_inode`.
  abbrev pub rewritten : Fs e → (inode_id : ℕ) → (inode : Bytes) → Fs e
  rewritten s inode_id inode =
      (write_block s (inode_block_num s inode_id)
        (copy (cell s (inode_block_num s inode_id)) (inode_start inode_id) inode 0 inode_size)).1

module _ {e : Env} (reliable : IsReliable e) (s : Fs e) (inode_id : ℕ)
    (valid : is_no_inode s inode_id ≡ false) where
  abbrev got : Option Inode × Fs e
  got = (
    some (record { address = (allocate s.heap inode_size).0; bytes = loaded s inode_id }),
    record s { heap = (allocate s.heap inode_size).1 },
  )

  pub get_inode-loaded : HasRoom s.heap → get_inode s inode_id ≡ got
  unfolding get_inode
  get_inode-loaded served =
      let delivered = reliable.reads s.device (inode_block_num s inode_id) e.fresh in
      let room = ==_ne (allocate s.heap inode_size).0 0 served in rw (valid, delivered, room) refl

  -- An inode of the wanted type is opened, with memory for it.
  pub open_inode-loaded :
      (type : ℕ)
      → HasRoom s.heap
      → (bit_and (get16 (loaded s inode_id) type_offset) type == 0) ≡ false
      → open_inode s inode_id type ≡ got
  unfolding open_inode
  open_inode-loaded type served is_type =
      rw (get_inode-loaded served, is_type, open_inode)
        (ap (λ t. (got.0, t.1)) (get_inode-loaded served))

  -- `write_inode` writes the block of the inode.
  pub write_inode-rewritten :
      (inode : Bytes) → (write_inode s inode_id inode).1 ≡ rewritten s inode_id inode
  unfolding write_inode
  write_inode-rewritten inode =
      let delivered = reliable.reads s.device (inode_block_num s inode_id) e.fresh in
      rw (valid, delivered) refl

  pub rewritten-own :
      (inode : Bytes) (i : ℕ)
      → i < inode_size
      → cell (rewritten s inode_id inode) (inode_block_num s inode_id) (inode_start inode_id + i)
        ≡ inode i
  rewritten-own inode i lt =
      let num = inode_block_num s inode_id in
      let start = inode_start inode_id in
      let bytes = copy (cell s num) start inode 0 inode_size in
      let index : 0 + (start + i - start) ≡ i = omega arith in
      cell-own reliable s num bytes (start + i) (omega arith)
      ∙ copy-within (cell s num) start inode 0 inode_size (start + i) (omega arith) (omega arith)
      ∙ ap inode index

  pub rewritten-other :
      (inode : Bytes) (block i : ℕ)
      → inode_block_num s inode_id ≢ block
      → cell (rewritten s inode_id inode) block i ≡ cell s block i
  rewritten-other inode block i ne = cell-other reliable s (inode_block_num s inode_id) _ block ne i

-- An open inode and the state: the inode is in the table, and its copy on the device is the one in memory; its
-- blocks are in use and different, and neither is the block of the inode nor that of the bitmap, which are in
-- use too.
pub record IsOpen {e : Env} (w : Written e) (inode_id : ℕ) : Type 0 where
  pub valid : is_no_inode w.state inode_id ≡ false
  pub total : w.state.current_superblock.total_blocks < 2 ^ 32
  pub table : inode_block_num w.state inode_id ≢ 0
  pub table_used : test_bit w.state.block_bitmap (inode_block_num w.state inode_id - 1) ≡ true
  pub bitmap : w.state.current_superblock.block_bitmap_block ≢ 0
  pub bitmap_used :
      test_bit w.state.block_bitmap (w.state.current_superblock.block_bitmap_block - 1) ≡ true
  pub apart : w.state.current_superblock.block_bitmap_block ≢ inode_block_num w.state inode_id
  pub used :
      (k : ℕ)
      → k < 10
      → direct_block w.inode k ≢ 0
      → test_bit w.state.block_bitmap (direct_block w.inode k - 1) ≡ true
  pub not_table : (k : ℕ) → k < 10 → direct_block w.inode k ≢ inode_block_num w.state inode_id
  pub not_bitmap :
      (k : ℕ) → k < 10 → direct_block w.inode k ≢ w.state.current_superblock.block_bitmap_block
  pub distinct :
      (j k : ℕ)
      → j < 10
      → k < 10
      → j ≢ k
      → direct_block w.inode j ≢ 0
      → direct_block w.inode j ≢ direct_block w.inode k
  pub stored :
      (i : ℕ)
      → i < inode_size
      → cell w.state (inode_block_num w.state inode_id) (inode_start inode_id + i) ≡ w.inode i
