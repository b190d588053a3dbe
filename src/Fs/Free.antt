-- ===== src/Fs/Free.antt =====
-- kern/fs/fs.c: freeing what was just allocated.
use astral_os.Common.{
  ℕ, suc, ◌+◌, ◌-◌, ◌/◌, ◌%◌, ◌^◌, ◌<◌, ◌≡◌, ◌≢◌, inl, inr, refl, sym, subst, arith, true, false,
  Bool-cases, Option-cases, some, ltb, ◌==◌, ==_ne, Bytes, add32,
}
use astral_os.Fs.Store.{Env, Fs}
use astral_os.Fs.Bitmap.{
  test_bit, set_bit, clear_bit, first_clear, take_inode, allocate_inode, free_inode,
}
use astral_os.Fs.Alloc.{set_bit_self, Finds, first_found}

clear_bit-set_bit :
    (bitmap : Bytes) (k j : ℕ)
    → test_bit bitmap k ≡ false
    → clear_bit (set_bit bitmap k) k j ≡ bitmap j
clear_bit-set_bit bitmap k j clear =
    let was_set : test_bit (set_bit bitmap k) k ≡ true = set_bit_self bitmap k clear in
    elim (Bool-cases (j == k / 8)) [
      | inl here ↦
          let undo : bitmap j + 2 ^ (k % 8) - 2 ^ (k % 8) ≡ bitmap j = omega arith in
          rw (here, was_set, clear) undo
      | inr other ↦ rw other refl
    ]

module _ {e : Env} (s : Fs e) where
  freed_bitmap :
      (k j : ℕ)
      → s.current_superblock.total_inodes < 2 ^ 32
      → Finds s.inode_bitmap 0 s.current_superblock.total_inodes (some k)
      → (free_inode (take_inode s k).1 (take_inode s k).0).inode_bitmap j ≡ s.inode_bitmap j
  unfolding free_inode
  freed_bitmap k j small (_, lt, clear, _) =
      let total = s.current_superblock.total_inodes in
      let id : add32 k 1 ≡ suc k = omega arith in
      let real : (suc k == 0) ≡ false = ==_ne (suc k) 0 (λ e. absurd (omega arith)) in
      let known : ltb total (suc k) ≡ false = ground arith in
      let index : suc k - 1 ≡ k = omega arith in
      rw (id, real, known, index) (clear_bit-set_bit s.inode_bitmap k j clear)

  -- Freeing the inode that `allocate_inode` returned, if it returned one, gives the bitmap back as it was,
  -- when the count of inodes is a `uint32_t`.
  pub free_inode-allocate_inode :
      s.current_superblock.total_inodes < 2 ^ 32
      → (allocate_inode s).0 ≢ 0
      → (j : ℕ)
      → (free_inode (allocate_inode s).1 (allocate_inode s).0).inode_bitmap j ≡ s.inode_bitmap j
  unfolding allocate_inode
  free_inode-allocate_inode small got j =
      let total = s.current_superblock.total_inodes in
      elim (Option-cases (first_clear s.inode_bitmap 0 total)) [
        | inl none_left ↦
            let nothing : (allocate_inode s).0 ≡ 0 = rw (none_left, allocate_inode) refl in
            absurd (got nothing)
        | inr (k, found) ↦
            let taken : allocate_inode s ≡ take_inode s k = rw (found, allocate_inode) refl in
            subst (λ r. (free_inode r.1 r.0).inode_bitmap j ≡ s.inode_bitmap j) (sym taken)
              (freed_bitmap k j small (first_found s.inode_bitmap total (some k) found))
      ]
