-- ===== src/Fs/Tests.antt =====
-- The theorems of kern/fs/fs.c at a small file system.
use astral_os.Common.{
  [], ℕ, suc, ◌≡◌, ◌∙◌, refl, sym, ap, arith, Status, false, ok, some, if◌then◌else◌, ◌==◌, ==_ne,
  ==_refl, Bytes, zeros,
}
use astral_os.Memory.Kmalloc.Grants.{boot}
use astral_os.Fs.Allocation.{IsInUse, HasRoom, allocate, release}
use astral_os.Memory.Kmalloc.{
  BlockHeader, Heap, kmalloc_init, kmalloc, kfree, alloc_loop, free_loop, take_block, split_block,
  merge_next,
}
use astral_os.Fs.Store.{Env, Fs, Superblock, Inode, get_inode, write_inode}
use astral_os.Fs.Format.{fs_magic}
use astral_os.Fs.Bitmap.{first_clear, free_inode, allocate_inode}
use astral_os.Fs.Inodes.{IsDisk, Gets, get_inode-write_inode}
use astral_os.Fs.Frames.{get_inode-write_inode_ne}
use astral_os.Fs.Free.{free_inode-allocate_inode}

-- A disk in memory.
abbrev pub ram : Env
ram = record {
  Device = ℕ → Bytes;
  block_device_read = λ d block buffer. (ok, d block);
  block_device_write = λ d block buffer. (ok, λ b. if b == block then buffer else d b);
  fresh = zeros;
}

pub ram-IsDisk : IsDisk ram
ram-IsDisk = record {
  own = λ d d' block bytes buffer e. (
    refl,
    λ i lt.
        ap (λ r. r.1 block i) (sym e) ∙ ap (λ t. (if t then bytes else d block) i) (==_refl block),
  );
  other = λ d d' block block' bytes buffer e ne.
      ap (λ (r : Status × (ℕ → Bytes)). (ok, r.1 block')) (sym e)
      ∙ ap (λ t. (ok, if t then bytes else d block')) (==_ne block' block (λ z. ne (sym z)));
}

abbrev small_superblock : Superblock
small_superblock = record {
  magic = fs_magic;
  block_size = 4096;
  total_blocks = 16;
  free_blocks = 10;
  total_inodes = 8;
  free_inodes = 8;
  root_inode = 1;
  inode_bitmap_block = 1;
  block_bitmap_block = 2;
  inode_table_start_block = 3;
  data_start_block = 4;
}

-- A heap of 64 KB at 2^31.
abbrev blocks : ℕ → BlockHeader
blocks a = record { size = 0; next = 0; free = false }

abbrev pub heap : Heap
heap = kmalloc_init blocks 0x80000000 0x10000

abbrev pub empty : Fs ram
empty = record {
  device = λ b. zeros;
  heap = heap;
  current_superblock = small_superblock;
  inode_bitmap = zeros;
  block_bitmap = zeros;
}

abbrev pub ones : Bytes
ones i = 1

pub served : (h : Heap) (p : ℕ) → (allocate h 88).0 ≡ suc p → HasRoom h
served h p is e = absurd (omega (arith, is, e))

pub heap-IsInUse : IsInUse heap
heap-IsInUse = record {
  start = 0x80000000;
  len = 0x10000;
  live = [];
  some_start = omega arith;
  aligned = refl;
  big = omega arith;
  top = omega arith;
  reach = boot blocks;
}

pub heap-HasRoom : HasRoom heap
unfolding allocate kmalloc alloc_loop kmalloc_init
heap-HasRoom = served heap 0x80000017 refl

pub once-HasRoom : HasRoom (allocate heap 88).1
unfolding allocate kmalloc alloc_loop kmalloc_init take_block split_block
once-HasRoom = served (allocate heap 88).1 0x80000087 refl

pub freed-HasRoom : HasRoom (release (allocate heap 88).1 (allocate heap 88).0)
unfolding allocate release kmalloc kfree alloc_loop free_loop kmalloc_init take_block split_block
    merge_next
freed-HasRoom = served (release (allocate heap 88).1 (allocate heap 88).0) 0x80000017 refl

get_inode-write_inode_example : Gets (write_inode empty 2 ones).1 2 (λ i b. b ≡ ones i)
unfolding write_inode
get_inode-write_inode_example = get_inode-write_inode ram-IsDisk empty 2 ones refl heap-HasRoom

get_inode-write_inode_ne_example :
    (n : Inode) × ((get_inode empty 3).0 ≡ some n)
    × Gets (write_inode empty 2 ones).1 3 (λ i b. b ≡ n.bytes i)
unfolding write_inode
get_inode-write_inode_ne_example =
    get_inode-write_inode_ne ram-IsDisk empty 2 ones 3 (λ e. absurd (omega arith)) (omega arith)
      (omega arith) refl refl refl heap-HasRoom

free_inode-allocate_inode_example :
    (free_inode (allocate_inode empty).1 (allocate_inode empty).0).inode_bitmap 0 ≡ 0
unfolding allocate_inode first_clear
free_inode-allocate_inode_example =
    free_inode-allocate_inode empty (omega arith) (λ e. absurd (omega arith)) 0
