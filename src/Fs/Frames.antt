-- ===== src/Fs/Frames.antt =====
-- The inode table of kern/fs/fs.c: a `write_inode` leaves the other inodes as they are.
use astral_os.Fs.Allocation.{allocate}
use astral_os.Common.{
  ℕ, ◌+◌, ◌-◌, ◌/◌, ◌%◌, ◌^◌, ◌≤◌, ◌<◌, ◌≡◌, ◌≢◌, ◌⊎◌, inl, inr, sym, ◌∙◌, subst, ap, arith, false,
  Bool-cases, ok, some, ◌==◌, ==_iff, Bytes, copy-outside, add32, ltb,
}
use astral_os.Fs.Store.{
  Env, Fs, Inode, get_inode, write_inode, is_no_inode, inode_block_num, inode_start, inode_size,
  fs_block_size, inodes_per_block,
}
use astral_os.Fs.Inodes.{IsDisk, Gets, get_inode-bytes, after, new_block, stored, wrote}

-- Two inodes in the same block do not overlap there.
pub apart :
    (start a b i : ℕ)
    → a < 2 ^ 32
    → b < 2 ^ 32
    → a ≢ b
    → 1 ≤ a
    → 1 ≤ b
    → add32 start ((a - 1) / inodes_per_block) ≡ add32 start ((b - 1) / inodes_per_block)
    → i < inode_size
    → (inode_start b + i < inode_start a) ⊎ (inode_start a + inode_size ≤ inode_start b + i)
apart start a b i p q ne pa pb same lt =
    let quotient : (a - 1) / inodes_per_block ≡ (b - 1) / inodes_per_block = omega arith in
    let remainder : (a - 1) % inodes_per_block ≢ (b - 1) % inodes_per_block =
      λ e. ne (omega arith) in
    elim (Bool-cases (ltb ((b - 1) % inodes_per_block) ((a - 1) % inodes_per_block))) [
      | inl less ↦ inl (ground arith)
      | inr more ↦ inr (ground arith)
    ]

module _ {e : Env} (disk : IsDisk e) (s : Fs e) (inode_id : ℕ) (inode : Bytes) where
  -- A byte of the device that is outside the inode.
  byte_after :
      (write_inode s inode_id inode).0 ≡ ok
      → (block i : ℕ) → (e.block_device_read s.device block e.fresh).0 ≡ ok
      → i < fs_block_size
      → (inode_block_num s inode_id ≡ block
          → (i < inode_start inode_id) ⊎ (inode_start inode_id + inode_size ≤ i))
      → ((e.block_device_read (after s inode_id inode).device block e.fresh).0 ≡ ok)
        × ((e.block_device_read (after s inode_id inode).device block e.fresh).1 i
            ≡ (e.block_device_read s.device block e.fresh).1 i)
  byte_after h block i delivered lt outside =
      let num = inode_block_num s inode_id in
      let d' = (after s inode_id inode).device in
      let fresh = new_block s inode_id inode in
      elim (Bool-cases (num == block)) [
        | inl same ↦
            let eq : num ≡ block = (==_iff num block).0 same in
            let kept = disk.own s.device d' num fresh e.fresh (stored disk s inode_id inode h) in
            let old =
              copy-outside (e.block_device_read s.device num e.fresh).1 (inode_start inode_id) inode
                0 inode_size i (outside eq) in
            subst
              (λ b.
                ((e.block_device_read d' b e.fresh).0 ≡ ok)
                × ((e.block_device_read d' b e.fresh).1 i
                    ≡ (e.block_device_read s.device b e.fresh).1 i))
              eq (kept.0, kept.1 i lt ∙ old)
        | inr other ↦
            let read =
              disk.other s.device d' num block fresh e.fresh (stored disk s inode_id inode h)
                (λ z. absurd (ground arith)) in
            (ap (λ r. r.0) read ∙ delivered, ap (λ r. r.1 i) read)
      ]

  module _ (other_id : ℕ) (ne : inode_id ≢ other_id) (small : inode_id < 2 ^ 32)
      (small' : other_id < 2 ^ 32) where
    -- On a disk that keeps what is written, and with memory for the inode, a `write_inode` that succeeds
    -- does not change the bytes that `get_inode` returns for another inode in the table.
    pub get_inode-write_inode_ne :
        (write_inode s inode_id inode).0 ≡ ok
        → is_no_inode s other_id ≡ false
        → (e.block_device_read s.device (inode_block_num s other_id) e.fresh).0 ≡ ok
        → (allocate s.heap inode_size).0 ≢ 0
        → (n : Inode) × ((get_inode s other_id).0 ≡ some n)
          × Gets (write_inode s inode_id inode).1 other_id (λ i b. b ≡ n.bytes i)
    get_inode-write_inode_ne h valid delivered room =
        let before = get_inode-bytes s other_id valid delivered room in
        let s' = after s inode_id inode in
        let done = wrote s inode_id inode h in
        let num = inode_block_num s other_id in
        let positive : 1 ≤ inode_id = ground (arith, done.0) in
        let positive' : 1 ≤ other_id = ground (arith, valid) in
        let byte = λ (i : ℕ) (lt : i < inode_size).
          byte_after h num (inode_start other_id + i) delivered (omega arith) λ same.
            apart s.current_superblock.inode_table_start_block inode_id other_id i small small' ne
              positive positive' same lt in
        let got = get_inode-bytes s' other_id valid (byte 0 (omega arith)).0 room in
        (
          before.0,
          before.1,
          subst (λ r. Gets r.1 other_id (λ i b. b ≡ before.0.bytes i)) (sym done.1)
              (got.0, got.1, λ i lt. got.2 i lt ∙ (byte i lt).1 ∙ sym (before.2 i lt)),
        )
