-- ===== src/Fs/Inodes.antt =====
-- The inode table of kern/fs/fs.c: what `get_inode` finds after `write_inode`.
use astral_os.Fs.Allocation.{allocate}
use astral_os.Common.{
  ℕ, ◌+◌, ◌-◌, ◌<◌, ◌≡◌, ◌≢◌, refl, sym, ◌∙◌, arith, subst, Bool, true, false, Status, ok, error,
  some, if◌then◌else◌, ==_ne, Bytes, copy, copy-within, ap,
}
use astral_os.Fs.Store.{
  Env, Fs, Inode, write_block, get_inode, write_inode, is_no_inode, inode_block_num, inode_start,
  inode_size, fs_block_size,
}

-- What the file system relies on: a block that was written is read back, and the others keep what they
-- hold.
pub record IsDisk (e : Env) : Type 0 where
  pub own :
      (d d' : e.Device) (block : ℕ) (bytes buffer : Bytes)
      → e.block_device_write d block bytes ≡ (ok, d')
      → ((e.block_device_read d' block buffer).0 ≡ ok)
        × ((i : ℕ) → i < fs_block_size → (e.block_device_read d' block buffer).1 i ≡ bytes i)
  pub other :
      (d d' : e.Device) (block block' : ℕ) (bytes buffer : Bytes)
      → e.block_device_write d block bytes ≡ (ok, d')
      → block ≢ block'
      → e.block_device_read d' block' buffer ≡ e.block_device_read d block' buffer

module _ {S : Type 0} (s : S) where
  -- The shape of `write_inode`.
  abbrev guard : Bool → Status × Bytes → (Bytes → Status × S) → Status × S
  guard t r k = if t then (error, s) else elim r.0 [ error ↦ (error, s) | ok ↦ k r.1 ]

  guard-ok :
      (t : Bool) (r : Status × Bytes) (k : Bytes → Status × S)
      → (guard t r k).0 ≡ ok
      → (t ≡ false) × (guard t r k ≡ k r.1)
  guard-ok true r k h = absurd (ground arith)
  guard-ok false (error, b) k h = absurd (ground arith)
  guard-ok false (ok, b) k h = (refl, refl)

module _ {e : Env} (s : Fs e) (inode_id : ℕ) (inode : Bytes) where
  -- The block that `write_inode` writes.
  abbrev pub new_block : Bytes
  new_block =
      copy (e.block_device_read s.device (inode_block_num s inode_id) e.fresh).1
        (inode_start inode_id) inode 0 inode_size

  pub wrote :
      (write_inode s inode_id inode).0 ≡ ok
      → (is_no_inode s inode_id ≡ false)
        × (write_inode s inode_id inode ≡ write_block s (inode_block_num s inode_id) new_block)
  unfolding write_inode
  wrote h =
      let block_num = inode_block_num s inode_id in
      guard-ok s (is_no_inode s inode_id) (e.block_device_read s.device block_num e.fresh)
        (λ b. write_block s block_num (copy b (inode_start inode_id) inode 0 inode_size)) h

  -- The state after a `write_inode` that succeeds.
  abbrev pub after : Fs e
  after = (write_block s (inode_block_num s inode_id) new_block).1

-- `get_inode` on a device that delivers the block, with memory for the inode.
pub get_inode-bytes :
    {e : Env} (s : Fs e) (inode_id : ℕ)
    → is_no_inode s inode_id ≡ false
    → (e.block_device_read s.device (inode_block_num s inode_id) e.fresh).0 ≡ ok
    → (allocate s.heap inode_size).0 ≢ 0
    → (n : Inode) × ((get_inode s inode_id).0 ≡ some n)
      × ((i : ℕ)
          → i < inode_size
          → n.bytes i
            ≡ (e.block_device_read s.device (inode_block_num s inode_id) e.fresh).1
                (inode_start inode_id + i))
unfolding get_inode
get_inode-bytes {e} s inode_id valid delivered room =
    let test = ==_ne (allocate s.heap inode_size).0 0 room in
    let n : Inode = record {
      address = (allocate s.heap inode_size).0;
      bytes =
          copy e.fresh 0 (e.block_device_read s.device (inode_block_num s inode_id) e.fresh).1
            (inode_start inode_id) inode_size;
    } in
    (
      n,
      rw (valid, delivered, test) refl,
      λ i lt.
          copy-within e.fresh 0
            (e.block_device_read s.device (inode_block_num s inode_id) e.fresh).1
            (inode_start inode_id) inode_size i (omega arith) (omega arith)
          ∙ ap
              (λ k.
                (e.block_device_read s.device (inode_block_num s inode_id) e.fresh).1
                  (inode_start inode_id + k))
              (omega arith),
    )

-- The inode at an index, with memory for it.
abbrev pub Gets : {e : Env} → Fs e → ℕ → (ℕ → ℕ → Type 0) → Type 0
Gets s inode_id P =
    (n : Inode) × ((get_inode s inode_id).0 ≡ some n) × ((i : ℕ) → i < inode_size → P i (n.bytes i))

module _ {e : Env} (disk : IsDisk e) (s : Fs e) (inode_id : ℕ) (inode : Bytes) where
  pub stored :
      (write_inode s inode_id inode).0 ≡ ok
      → e.block_device_write s.device (inode_block_num s inode_id) (new_block s inode_id inode)
        ≡ (ok, (after s inode_id inode).device)
  stored h =
      let d = (after s inode_id inode).device in
      let eq = (wrote s inode_id inode h).1 in ap (λ t. (t, d)) (sym (ap (λ r. r.0) eq) ∙ h)

  reads_back :
      (write_inode s inode_id inode).0 ≡ ok
      → (allocate s.heap inode_size).0 ≢ 0
      → Gets (after s inode_id inode) inode_id (λ i b. b ≡ inode i)
  reads_back h room =
      let block_num = inode_block_num s inode_id in
      let start = inode_start inode_id in
      let old = (e.block_device_read s.device block_num e.fresh).1 in
      let s' = after s inode_id inode in
      let kept =
        disk.own s.device s'.device block_num (new_block s inode_id inode) e.fresh (stored h) in
      let got = get_inode-bytes s' inode_id (wrote s inode_id inode h).0 kept.0 room in
      (
        got.0,
        got.1,
        λ i lt.
            let move : start + i - start ≡ i = omega arith in
            got.2 i lt
            ∙ kept.1 (start + i) (omega arith)
            ∙ copy-within old start inode 0 inode_size (start + i) (omega arith) (omega arith)
            ∙ ap inode (omega arith),
      )

  -- On a disk that keeps what is written, and with memory for the inode, `get_inode` after a `write_inode`
  -- that succeeds returns the bytes that were written.
  pub get_inode-write_inode :
      (write_inode s inode_id inode).0 ≡ ok
      → (allocate s.heap inode_size).0 ≢ 0
      → Gets (write_inode s inode_id inode).1 inode_id (λ i b. b ≡ inode i)
  get_inode-write_inode h room =
      subst (λ r. Gets r.1 inode_id (λ i b. b ≡ inode i)) (sym (wrote s inode_id inode h).1)
        (reads_back h room)
