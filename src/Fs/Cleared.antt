-- ===== src/Fs/Cleared.antt =====
-- The entries of a block of a directory of kern/fs/fs.c: the search after `fs_delete` cleared an entry.
use astral_os.Common.{
  ℕ, zero, suc, ◌+◌, ◌*◌, ◌≤◌, ◌<◌, ◌≡◌, inl, inr, refl, sym, subst, ◌∙◌, arith, true, false,
  Bool-cases, none, some, List, length, ◌==◌, ==_iff, Bytes, zeros, copy, copy-within, copy-outside,
}
use astral_os.Fs.Dir.{dir_entry_size, entry_inode, is_entry, find_entry}
use astral_os.Fs.Entries.{is_entry-Agree}

-- What is found is an entry of the name.
pub find_entry-is_entry :
    (b : Bytes) (name : List ℕ) (j n u : ℕ)
    → find_entry b name j n ≡ some u
    → is_entry b name u ≡ true
unfolding find_entry
find_entry-is_entry b name j zero u h = absurd (ground arith)
find_entry-is_entry b name j (suc n) u h = elim (Bool-cases (is_entry b name j)) [
  | inl here ↦ (let e : j ≡ u = ground arith in subst (λ k. is_entry b name k ≡ true) e here)
  | inr next ↦ (let rest = find_entry-is_entry b name (j + 1) n u in rest (ground arith))
]

pub find_entry-none :
    (b : Bytes) (name : List ℕ) (j n : ℕ)
    → ((k : ℕ) → j ≤ k → k < j + n → is_entry b name k ≡ false)
    → find_entry b name j n ≡ none
unfolding find_entry
find_entry-none b name j zero no_entry = refl
find_entry-none b name j (suc n) no_entry =
    rw
      (
        no_entry j (omega arith) (omega arith),
        find_entry-none b name (j + 1) n (λ k low high. no_entry k (omega arith) (omega arith)),
      )
      refl

-- The block without its entry `u`.
abbrev pub cleared : Bytes → ℕ → Bytes
cleared block u = copy block (dir_entry_size * u) zeros 0 dir_entry_size

cleared-inode : (block : Bytes) (u : ℕ) → entry_inode (cleared block u) u ≡ 0
cleared-inode block u =
    let at = λ (i : ℕ) (low : 36 * u ≤ i) (high : i < 36 * u + 36).
      copy-within block (36 * u) zeros 0 36 i low high in
    rw
      (
        at (36 * u) (omega arith) (omega arith),
        at (36 * u + 1) (omega arith) (omega arith),
        at (36 * u + 2) (omega arith) (omega arith),
        at (36 * u + 3) (omega arith) (omega arith),
      )
      refl

-- When the block has no other entry of the name, it has none afterwards.
pub find_entry-cleared :
    (block : Bytes) (name : List ℕ) (u : ℕ)
    → length name ≤ 28
    → ((k : ℕ) → k < 113 → is_entry block name k ≡ true → k ≡ u)
    → find_entry (cleared block u) name 0 113 ≡ none
find_entry-cleared block name u short once =
    find_entry-none (cleared block u) name 0 113 (λ k low high. elim (Bool-cases (k == u)) [
      | inl here ↦
          let e : u ≡ k = sym ((==_iff k u).0 here) in
          subst (λ x. is_entry (cleared block u) name x ≡ false) e (rw (cleared-inode block u) refl)
      | inr other ↦
          let same =
            is_entry-Agree (cleared block u) block name k short
              (λ i l h. copy-outside block (36 * u) zeros 0 36 i (ground arith)) in
          elim (Bool-cases (is_entry block name k)) [
            | inl found ↦ absurd (ground (arith, once k high found))
            | inr absent ↦ same ∙ absent
          ]
    ])
