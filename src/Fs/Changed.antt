-- ===== src/Fs/Changed.antt =====
-- The end of `fs_create` and of `fs_delete` in kern/fs/fs.c: a block of the directory and its inode are written.
use astral_os.Common.{
  ℕ, ◌+◌, ◌≤◌, ◌<◌, ◌≡◌, ◌≢◌, inl, inr, refl, sym, ap, ◌∙◌, arith, false, List, length, Bytes,
  copy-outside, little_endian, get16, put64,
}
use astral_os.Fs.Store.{
  Env, Fs, direct_block, direct_block_offset, write_block, is_no_inode, inode_block_num,
  write_inode, type_offset, size_offset,
}
use astral_os.Fs.Dir.{find_entry}
use astral_os.Fs.Content.{IsReliable, cell, cell-own, cell-other}
use astral_os.Fs.Open.{
  loaded, loaded-cell, rewritten, rewritten-own, rewritten-other, write_inode-rewritten,
}
use astral_os.Fs.Grown.{Same, Same-direct_block, Same-type}
use astral_os.Fs.Entries.{find_entry-Agree}
use astral_os.Fs.Lookup.{Absent}

-- The size is apart from the type and the blocks.
sized-direct_block :
    (m : Bytes) (v k : ℕ) → direct_block (put64 m size_offset v) k ≡ direct_block m k
sized-direct_block m v k =
    let p = direct_block_offset k in
    let at = λ (i : ℕ) (low : 24 ≤ i). copy-outside m 16 (little_endian v) 0 8 i (inr low) in
    rw
      (
        at p (omega arith),
        at (p + 1) (omega arith),
        at (p + 2) (omega arith),
        at (p + 3) (omega arith),
      )
      refl

sized-type : (m : Bytes) (v : ℕ) → get16 (put64 m size_offset v) type_offset ≡ get16 m type_offset
sized-type m v =
    rw
      (
        copy-outside m 16 (little_endian v) 0 8 4 (inl (omega arith)),
        copy-outside m 16 (little_endian v) 0 8 5 (inl (omega arith)),
      )
      refl

module _ {e : Env} (reliable : IsReliable e) (s : Fs e) (parent_id : ℕ) (parent bytes : Bytes)
    (t size : ℕ) (valid : is_no_inode s parent_id ≡ false) (lt : t < 10)
    (not_table : (k : ℕ) → k < 10 → direct_block parent k ≢ inode_block_num s parent_id)
    (distinct : (k : ℕ) → k < 10 → k ≢ t → direct_block parent t ≢ direct_block parent k) where
  abbrev pub wrote : Fs e
  wrote = (write_block s (direct_block parent t) bytes).1

  abbrev inode : Bytes
  inode = put64 parent size_offset size

  abbrev pub last : Fs e
  last = rewritten wrote parent_id inode

  pub written : (write_inode wrote parent_id inode).1 ≡ last
  written = write_inode-rewritten reliable wrote parent_id valid inode

  last-cell :
      (k : ℕ)
      → k < 10
      → (j : ℕ) → cell last (direct_block parent k) j ≡ cell wrote (direct_block parent k) j
  last-cell k h j =
      rewritten-other reliable wrote parent_id valid inode (direct_block parent k) j
        (λ z. not_table k h (sym z))

  pub last-other :
      (k : ℕ)
      → k < 10
      → k ≢ t
      → (j : ℕ) → cell last (direct_block parent k) j ≡ cell s (direct_block parent k) j
  last-other k h ne j =
      last-cell k h j
      ∙ cell-other reliable s (direct_block parent t) bytes (direct_block parent k)
          (distinct k h ne) j

  pub last-bytes : (j : ℕ) → 0 ≤ j → j < 4096 → cell last (direct_block parent t) j ≡ bytes j
  last-bytes j low h = last-cell t lt j ∙ cell-own reliable s (direct_block parent t) bytes j h

  last-loaded : Same (loaded last parent_id) inode
  last-loaded i h =
      loaded-cell last parent_id i h ∙ rewritten-own reliable wrote parent_id valid inode i h

  pub last-direct_block :
      (k : ℕ) → k < 10 → direct_block (loaded last parent_id) k ≡ direct_block parent k
  last-direct_block k h =
      Same-direct_block (loaded last parent_id) inode k last-loaded h
      ∙ sized-direct_block parent size k

  pub last-type : get16 (loaded last parent_id) type_offset ≡ get16 parent type_offset
  last-type = Same-type (loaded last parent_id) inode last-loaded ∙ sized-type parent size

  -- A block that did not have the name, and is not the one that was written, does not have it.
  pub last-Absent :
      (name : List ℕ) (short : length name ≤ 28) (k : ℕ)
      → k < 10
      → k ≢ t
      → Absent reliable s parent name short k
      → Absent reliable last (loaded last parent_id) name short k
  last-Absent name short k h ne (inl missing) = inl (last-direct_block k h ∙ missing)
  last-Absent name short k h ne (inr free) = inr (
      ap (λ b. find_entry (cell last b) name 0 113) (last-direct_block k h)
      ∙ find_entry-Agree (cell last (direct_block parent k)) (cell s (direct_block parent k)) name 0
          113 short (omega arith) (λ j l h'. last-other k h ne j)
      ∙ free)
