-- ===== src/Fs/Format.antt =====
-- kern/fs/fs.c, `fs_init`: the file system is read from the device, or laid out anew on it.
use astral_os.Common.{
  ℕ, zero, suc, ◌+◌, ◌-◌, ◌*◌, ◌/◌, ok, error, if◌then◌else◌, ◌==◌, add32, sub32, u32, Bytes, zeros,
  fill, get32, put16, put32,
}
use astral_os.Fs.Store.{
  Env, Fs, Superblock, read_block, write_block, kmalloc, write_inode, fs_block_size, inode_size,
  inode_type_dir, type_offset, permissions_offset,
}
use astral_os.Fs.Bitmap.{set_bit, allocate_inode}

-- `FS_MAGIC`, 0xDEADBEEF
abbrev pub fs_magic : ℕ
fs_magic = 3735928559

-- `memcpy(superblock_buffer, &current_superblock, sizeof(superblock_t))`
abbrev pub put_superblock : Bytes → Superblock → Bytes
put_superblock m sb =
    let m = put32 m 0 sb.magic in
    let m = put32 m 4 sb.block_size in
    let m = put32 m 8 sb.total_blocks in
    let m = put32 m 12 sb.free_blocks in
    let m = put32 m 16 sb.total_inodes in
    let m = put32 m 20 sb.free_inodes in
    let m = put32 m 24 sb.root_inode in
    let m = put32 m 28 sb.inode_bitmap_block in
    let m = put32 m 32 sb.block_bitmap_block in
    let m = put32 m 36 sb.inode_table_start_block in put32 m 40 sb.data_start_block

-- `memcpy(&current_superblock, superblock_buffer, sizeof(superblock_t))`
abbrev pub get_superblock : Bytes → Superblock
get_superblock m = record {
  magic = get32 m 0;
  block_size = get32 m 4;
  total_blocks = get32 m 8;
  free_blocks = get32 m 12;
  total_inodes = get32 m 16;
  free_inodes = get32 m 20;
  root_inode = get32 m 24;
  inode_bitmap_block = get32 m 28;
  block_bitmap_block = get32 m 32;
  inode_table_start_block = get32 m 36;
  data_start_block = get32 m 40;
}

-- The blocks that a bitmap of `bits` takes, in `uint32_t`.
abbrev pub bitmap_blocks : ℕ → ℕ
bitmap_blocks bits = u32 (bits / 8 + fs_block_size - 1) / fs_block_size

-- The blocks that a table of `count` inodes takes: `sizeof` makes it a 64-bit sum.
abbrev pub inode_table_blocks : ℕ → ℕ
inode_table_blocks count = u32 ((count * inode_size + fs_block_size - 1) / fs_block_size)

-- The superblock of a new file system, before any block or inode is taken.
pub initial_superblock : Superblock
initial_superblock =
    let total_blocks : ℕ = 1024 in
    let total_inodes : ℕ = 128 in
    let inode_bitmap_block : ℕ = 1 in
    let block_bitmap_block = add32 inode_bitmap_block (bitmap_blocks total_inodes) in
    let inode_table_start_block = add32 block_bitmap_block (bitmap_blocks total_blocks) in
    let data_start_block = add32 inode_table_start_block (inode_table_blocks total_inodes) in
    record {
      magic = fs_magic;
      block_size = fs_block_size;
      total_blocks = total_blocks;
      free_blocks = sub32 total_blocks data_start_block;
      total_inodes = total_inodes;
      free_inodes = total_inodes;
      root_inode = 0;
      inode_bitmap_block = inode_bitmap_block;
      block_bitmap_block = block_bitmap_block;
      inode_table_start_block = inode_table_start_block;
      data_start_block = data_start_block;
    }

-- The root directory's inode, as `fs_init` writes it.
abbrev pub root_inode_bytes : ℕ → Bytes
root_inode_bytes id =
    put16 (put16 (put32 zeros 0 id) type_offset inode_type_dir) permissions_offset 493

module _ {e : Env} where
  -- The loop that marks the `n` blocks from `i` on as used.
  unfoldable pub reserve : Fs e → (i n : ℕ) → Fs e
  reserve s i zero = s
  reserve s i (suc n) =
      let sb = s.current_superblock in
      let s' = record s {
        block_bitmap = set_bit s.block_bitmap i;
        current_superblock = record sb { free_blocks = sub32 sb.free_blocks 1 };
      } in
      reserve s' (i + 1) n

  -- A new file system, when block 0 cannot be read into `superblock_buffer`.
  unfoldable pub format : Fs e → (superblock_buffer : Bytes) → Fs e
  format s superblock_buffer =
      let sb = initial_superblock in
      let buffer = put_superblock superblock_buffer sb in
      let s = (write_block (record s { current_superblock = sb }) 0 buffer).1 in
      let s = (kmalloc s (bitmap_blocks sb.total_inodes * fs_block_size)).1 in
      let s = (kmalloc s (bitmap_blocks sb.total_blocks * fs_block_size)).1 in
      let s = record s {
        inode_bitmap = fill e.fresh 0 0 (bitmap_blocks sb.total_inodes * fs_block_size);
        block_bitmap = fill e.fresh 0 0 (bitmap_blocks sb.total_blocks * fs_block_size);
      } in
      let s = reserve s 0 (sb.data_start_block + 1) in
      let s = (write_block s sb.inode_bitmap_block s.inode_bitmap).1 in
      let s = (write_block s sb.block_bitmap_block s.block_bitmap).1 in
      let root = allocate_inode s in
      let s = (write_inode root.1 root.0 (root_inode_bytes root.0)).1 in
      let s = record s {
        current_superblock = record s.current_superblock { root_inode = root.0 };
      } in
      (write_block s 0 (put_superblock buffer s.current_superblock)).1

  -- The file system that block 0 describes. Without the magic number only the superblock is set.
  unfoldable pub load : Fs e → (superblock_buffer : Bytes) → Fs e
  load s superblock_buffer =
      let sb = get_superblock superblock_buffer in
      let s = record s { current_superblock = sb } in
      let s' = (kmalloc s (bitmap_blocks sb.total_inodes * fs_block_size)).1 in
      let s' = (kmalloc s' (bitmap_blocks sb.total_blocks * fs_block_size)).1 in
      if sb.magic == fs_magic
      then (record s' {
        inode_bitmap = (read_block s' sb.inode_bitmap_block e.fresh).1;
        block_bitmap = (read_block s' sb.block_bitmap_block e.fresh).1;
      })
      else s

  unfoldable pub fs_init : Fs e → Fs e
  fs_init s =
      let block = read_block s 0 e.fresh in
      elim block.0 [ error ↦ format s block.1 | ok ↦ load s block.1 ]
