-- ===== src/Fs/Lookup.antt =====
-- kern/fs/fs.c: what `fs_lookup` returns, by what the blocks of the directory hold.
use astral_os.Common.{
  ℕ, zero, suc, ◌+◌, ◌≤◌, ◌<◌, ◌≡◌, ◌≢◌, ◌⊎◌, inl, inr, refl, sym, ap, subst, ◌∙◌, arith,
  Bool-cases, none, some, Option-cases, List, length, ◌==◌, ==_ne, ==_iff, Bytes,
}
use astral_os.Fs.Store.{Env, Fs, direct_block, read_block}
use astral_os.Fs.Dir.{entry_inode, find_entry, lookup_blocks}
use astral_os.Fs.Content.{IsReliable, cell}
use astral_os.Fs.Entries.{find_entry-Agree, find_entry-real, find_entry-lt, entry_inode-Agree}

module _ {e : Env} (reliable : IsReliable e) (s : Fs e) (parent : Bytes) (name : List ℕ)
    (short : length name ≤ 28) where
  -- The name is not in the block `k` of the directory.
  abbrev pub Absent : ℕ → Type 0
  Absent k =
      (direct_block parent k ≡ 0) ⊎ (find_entry (cell s (direct_block parent k)) name 0 113 ≡ none)

  -- A block that is read into any buffer has what the cells have.
  found-same :
      (block : ℕ) (buffer : Bytes)
      → find_entry (read_block s block buffer).1 name 0 113 ≡ find_entry (cell s block) name 0 113
  found-same block buffer =
      find_entry-Agree (read_block s block buffer).1 (cell s block) name 0 113 short (omega arith)
        (λ i low high. reliable.whole s.device block buffer e.fresh i high)

  -- The name is found at the first block that has it.
  pub lookup_blocks-found :
      (n i : ℕ) (buffer : Bytes) (t u : ℕ)
      → i ≤ t
      → t < i + n
      → ((k : ℕ) → i ≤ k → k < t → Absent k)
      → direct_block parent t ≢ 0
      → find_entry (cell s (direct_block parent t)) name 0 113 ≡ some u
      → lookup_blocks s parent name buffer i n ≡ entry_inode (cell s (direct_block parent t)) u
  unfolding lookup_blocks
  lookup_blocks-found zero i buffer t u low high before there found = absurd (omega arith)
  lookup_blocks-found (suc n) i buffer t u low high before there found =
      let block = (read_block s (direct_block parent i) buffer).1 in
      elim (Bool-cases (i == t)) [
        | inl here ↦
            let at : i ≡ t = (==_iff i t).0 here in
            let number = direct_block parent i in
            let real = ==_ne number 0 (λ z. there (ap (direct_block parent) (sym at) ∙ z)) in
            let found' =
              ap (λ k. find_entry (cell s (direct_block parent k)) name 0 113) at ∙ found in
            let got = found-same number buffer ∙ found' in
            rw (real, got)
              (entry_inode-Agree (read_block s number buffer).1 (cell s number) u (λ j l h.
                  reliable.whole s.device number buffer e.fresh j
                    (omega (arith, find_entry-lt (cell s number) name 0 113 u found')))
                ∙ ap (λ k. entry_inode (cell s (direct_block parent k)) u) at)
        | inr later ↦
            let next = λ (b : Bytes).
              lookup_blocks-found n (i + 1) b t u (ground arith) (omega arith)
                (λ k l h. before k (omega arith) h) there found in
            elim (before i (omega arith) (ground arith)) [
              | inl missing ↦ rw missing (next buffer)
              | inr absent ↦
                  let got = found-same (direct_block parent i) buffer ∙ absent in
                  elim (Bool-cases (direct_block parent i == 0)) [
                    | inl missing ↦ rw missing (next buffer)
                    | inr some_block ↦ rw (some_block, got) (next block)
                  ]
            ]
      ]

  -- A name that no block has is not found,
  pub lookup_blocks-none :
      (n i : ℕ) (buffer : Bytes)
      → ((k : ℕ) → i ≤ k → k < i + n → Absent k)
      → lookup_blocks s parent name buffer i n ≡ 0
  unfolding lookup_blocks
  lookup_blocks-none zero i buffer all = refl
  lookup_blocks-none (suc n) i buffer all =
      let block = (read_block s (direct_block parent i) buffer).1 in
      let next = λ (b : Bytes).
        lookup_blocks-none n (i + 1) b (λ k l h. all k (omega arith) (omega arith)) in
      elim (Bool-cases (direct_block parent i == 0)) [
        | inl missing ↦ rw missing (next buffer)
        | inr some_block ↦ elim (all i (omega arith) (omega arith)) [
          | inl missing ↦ rw missing (next buffer)
          | inr absent ↦
              let got = found-same (direct_block parent i) buffer ∙ absent in
              rw (some_block, got) (next block)
        ]
      ]

  -- and a name that is not found is in no block.
  pub lookup_blocks-Absent :
      (n i : ℕ) (buffer : Bytes)
      → lookup_blocks s parent name buffer i n ≡ 0
      → (k : ℕ) → i ≤ k
      → k < i + n
      → Absent k
  unfolding lookup_blocks
  lookup_blocks-Absent zero i buffer h k low high = absurd (omega arith)
  lookup_blocks-Absent (suc n) i buffer h k low high =
      let number = direct_block parent i in
      let block = (read_block s number buffer).1 in
      let next : (b : Bytes) → lookup_blocks s parent name b (i + 1) n ≡ 0 → Absent i → Absent k =
        λ b rest here. elim (Bool-cases (i == k)) [
          | inl at ↦ subst Absent ((==_iff i k).0 at) here
          | inr later ↦ lookup_blocks-Absent n (i + 1) b rest k (ground arith) (omega arith)
        ] in
      elim (Bool-cases (number == 0)) [
        | inl missing ↦ next buffer (rw missing at h) (inl ((==_iff number 0).0 missing))
        | inr some_block ↦ elim (Option-cases (find_entry block name 0 113)) [
          | inl absent ↦
              next block (rw (some_block, absent) at h)
                (inr (sym (found-same number buffer) ∙ absent))
          | inr (j, found) ↦
              absurd (find_entry-real block name 0 113 j found (rw (some_block, found) at h))
        ]
      ]
