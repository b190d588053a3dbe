-- ===== src/Fs/Store.antt =====
-- kern/fs/fs.c: the state of the file system, the access to blocks, and the inode table.
use Prim.Native.Nat.{bit_and}
use astral_os.Fs.Allocation.{allocate, release}
use astral_os.Memory.Kmalloc.{Heap}
use astral_os.Common.{
  ℕ, Bool, ◌+◌, ◌-◌, ◌*◌, ◌/◌, ◌%◌, Option, none, some, Status, ok, error, ◌||◌, if◌then◌else◌, ltb,
  ◌==◌, add32, Bytes, copy, get16, get32,
}

-- What the file system meets outside the kernel: the block device (the status of a read and what the
-- buffer holds after it, the status of a write and the device after it), and the contents of memory
-- that was not written yet.
pub record Env : Type 1 where
  pub Device : Type 0
  pub block_device_read : Device → ℕ → Bytes → Status × Bytes
  pub block_device_write : Device → ℕ → Bytes → Status × Device
  pub fresh : Bytes

pub record Superblock : Type 0 where
  pub magic : ℕ
  pub block_size : ℕ
  pub total_blocks : ℕ
  pub free_blocks : ℕ
  pub total_inodes : ℕ
  pub free_inodes : ℕ
  pub root_inode : ℕ
  pub inode_bitmap_block : ℕ
  pub block_bitmap_block : ℕ
  pub inode_table_start_block : ℕ
  pub data_start_block : ℕ

-- An `inode_t*` that is not null: its address, and the bytes there.
pub record Inode : Type 0 where
  pub address : ℕ
  pub bytes : Bytes

abbrev pub fs_block_size : ℕ
fs_block_size = 4096

abbrev pub inode_size : ℕ
inode_size = 88

-- `FS_BLOCK_SIZE / sizeof(inode_t)`
abbrev pub inodes_per_block : ℕ
inodes_per_block = 46

abbrev pub inode_type_file : ℕ
inode_type_file = 32768

abbrev pub inode_type_dir : ℕ
inode_type_dir = 16384

-- The offsets of the fields of `inode_t`.
abbrev pub type_offset : ℕ
type_offset = 4

abbrev pub permissions_offset : ℕ
permissions_offset = 6

abbrev pub size_offset : ℕ
size_offset = 16

abbrev pub direct_block_offset : ℕ → ℕ
direct_block_offset i = 40 + 4 * i

-- `inode->direct_blocks[i]`
abbrev pub direct_block : Bytes → ℕ → ℕ
direct_block inode i = get32 inode (direct_block_offset i)

-- Where the inode starts in its block.
abbrev pub inode_start : ℕ → ℕ
inode_start inode_id = inode_size * ((inode_id - 1) % inodes_per_block)

module _ (e : Env) where
  -- The static variables of the file, the device and the heap. The bitmaps are what the two pointers
  -- point to.
  pub record Fs : Type 0 where
    pub device : e.Device
    pub heap : Heap
    pub current_superblock : Superblock
    pub inode_bitmap : Bytes
    pub block_bitmap : Bytes

module _ {e : Env} where
  abbrev pub read_block : Fs e → (block_num : ℕ) → (buffer : Bytes) → Status × Bytes
  read_block s block_num buffer = e.block_device_read s.device block_num buffer

  abbrev pub write_block : Fs e → (block_num : ℕ) → (buffer : Bytes) → Status × Fs e
  write_block s block_num buffer =
      let done = e.block_device_write s.device block_num buffer in
      (done.0, record s { device = done.1 })

  abbrev pub kmalloc : Fs e → ℕ → ℕ × Fs e
  kmalloc s size = let got = allocate s.heap size in (got.0, record s { heap = got.1 })

  abbrev pub kfree : Fs e → ℕ → Fs e
  kfree s ptr = record s { heap = release s.heap ptr }

  -- `inode_id == 0 || inode_id > total_inodes`
  abbrev pub is_no_inode : Fs e → ℕ → Bool
  is_no_inode s inode_id = (inode_id == 0) || ltb s.current_superblock.total_inodes inode_id

  abbrev pub inode_block_num : Fs e → ℕ → ℕ
  inode_block_num s inode_id =
      add32 s.current_superblock.inode_table_start_block ((inode_id - 1) / inodes_per_block)

  -- The end of `get_inode`: the copy of the inode from the block into new memory.
  abbrev pub copy_inode : Fs e → Bytes → ℕ → Option Inode × Fs e
  copy_inode s block inode_id =
      let got = kmalloc s inode_size in
      if got.0 == 0 then (none, got.1) else (
        some (record {
          address = got.0;
          bytes = copy e.fresh 0 block (inode_start inode_id) inode_size;
        }),
        got.1,
      )

  unfoldable pub get_inode : Fs e → (inode_id : ℕ) → Option Inode × Fs e
  get_inode s inode_id =
      let block = read_block s (inode_block_num s inode_id) e.fresh in
      if is_no_inode s inode_id
      then (none, s)
      else elim block.0 [ error ↦ (none, s) | ok ↦ copy_inode s block.1 inode_id ]

  unfoldable pub write_inode : Fs e → (inode_id : ℕ) → (inode : Bytes) → Status × Fs e
  write_inode s inode_id inode =
      let block_num = inode_block_num s inode_id in
      let block = read_block s block_num e.fresh in
      if is_no_inode s inode_id then (error, s) else elim block.0 [
        | error ↦ (error, s)
        | ok ↦ write_block s block_num (copy block.1 (inode_start inode_id) inode 0 inode_size)
      ]

  -- The test that follows each `get_inode` of an operation, with the bit that the type must have: the
  -- inode, or a null pointer and the inode freed.
  unfoldable pub open_inode : Fs e → (inode_id type : ℕ) → Option Inode × Fs e
  open_inode s inode_id type =
      let got = get_inode s inode_id in
      elim got.0 [
        | none ↦ (none, kfree got.1 0)
        | some inode ↦
            if bit_and (get16 inode.bytes type_offset) type == 0
            then (none, kfree got.1 inode.address)
            else (some inode, got.1)
      ]
