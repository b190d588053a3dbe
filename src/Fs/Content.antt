-- ===== src/Fs/Content.antt =====
-- kern/fs/fs.c: the bytes of a file, as its blocks on the device hold them.
use astral_os.Common.{ℕ, ◌/◌, ◌%◌, ◌<◌, ◌≡◌, ◌≢◌, ap, Status, ok, Bytes}
use astral_os.Fs.Store.{Env, Fs, direct_block, fs_block_size, write_block}
use astral_os.Fs.Inodes.{IsDisk}

-- A device without failures: each block of 4096 bytes is delivered whole, and each write succeeds. The
-- UFS driver always returns 0, and its controller transfers such blocks; the eMMC driver transfers 512 bytes.
pub record IsReliable (e : Env) : Type 0 where
  pub disk : IsDisk e
  pub reads :
      (d : e.Device) (block : ℕ) (buffer : Bytes) → (e.block_device_read d block buffer).0 ≡ ok
  pub whole :
      (d : e.Device) (block : ℕ) (buffer buffer' : Bytes) (i : ℕ)
      → i < fs_block_size
      → (e.block_device_read d block buffer).1 i ≡ (e.block_device_read d block buffer').1 i
  pub writes :
      (d : e.Device) (block : ℕ) (bytes : Bytes) → (e.block_device_write d block bytes).0 ≡ ok

module _ {e : Env} where
  -- A byte of a block, and a byte of a file.
  abbrev pub cell : Fs e → (block : ℕ) → Bytes
  cell s block i = (e.block_device_read s.device block e.fresh).1 i

  abbrev pub content : Fs e → (inode : Bytes) → Bytes
  content s inode p = cell s (direct_block inode (p / fs_block_size)) (p % fs_block_size)

module _ {e : Env} (reliable : IsReliable e) (s : Fs e) (block : ℕ) (bytes : Bytes) where
  abbrev wrote : Fs e
  wrote = (write_block s block bytes).1

  stored : e.block_device_write s.device block bytes ≡ (ok, wrote.device)
  stored = ap (λ (t : Status). (t, wrote.device)) (reliable.writes s.device block bytes)

  pub cell-own : (i : ℕ) → i < fs_block_size → cell wrote block i ≡ bytes i
  cell-own i lt = (reliable.disk.own s.device wrote.device block bytes e.fresh stored).1 i lt

  pub cell-other : (block' : ℕ) → block ≢ block' → (i : ℕ) → cell wrote block' i ≡ cell s block' i
  cell-other block' ne i =
      ap (λ r. r.1 i)
        (reliable.disk.other s.device wrote.device block block' bytes e.fresh stored ne)
