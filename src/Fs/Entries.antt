-- ===== src/Fs/Entries.antt =====
-- The entries of a block of a directory of kern/fs/fs.c: what the search for a name depends on, and what it finds after an
-- entry was written.
use astral_os.Common.{
  ℕ, zero, suc, ◌+◌, ◌*◌, ◌^◌, ◌≤◌, ◌<◌, ◌≡◌, ◌≢◌, inl, inr, refl, sym, ap, subst, ◌∙◌, arith, true,
  false, Bool-cases, none, some, List, [], ◌∷◌, length, get_or, ◌==◌, ==_ne, ==_iff, Bytes, copy,
  copy-within, copy-outside, put32,
}
use astral_os.Strings.{strncpy}
use astral_os.Strings.Copied.{
  Agree, strcmp-Agree, strncpy-in, strncpy-out, Ends, store-ne, store_self,
}
use astral_os.Strings.Terminated.{
  IsString, IsName, IsName-IsString, string-IsString, get_or-end, strcmp_lem,
}
use astral_os.Fs.Superblock.{get32-put32}
use astral_os.Fs.Dir.{
  dir_entry_size, string, entry_inode, is_entry, find_entry, find_unused, new_entry,
}

pub entry_inode-Agree :
    (a b : Bytes) (j : ℕ) → Agree a b (36 * j) (36 * j + 36) → entry_inode a j ≡ entry_inode b j
entry_inode-Agree a b j same =
    rw
      (
        same (36 * j) (omega arith) (omega arith),
        same (36 * j + 1) (omega arith) (omega arith),
        same (36 * j + 2) (omega arith) (omega arith),
        same (36 * j + 3) (omega arith) (omega arith),
      )
      refl

pub is_entry-Agree :
    (a b : Bytes) (name : List ℕ) (j : ℕ)
    → length name ≤ 28
    → Agree a b (36 * j) (36 * j + 36)
    → is_entry a name j ≡ is_entry b name j
is_entry-Agree a b name j short same =
    rw
      (
        entry_inode-Agree a b j same,
        strcmp-Agree (suc (length name)) a b (36 * j + 4) (string name) 0
            (λ i low high. same i (omega arith) (omega arith)),
      )
      refl

pub find_entry-Agree :
    (a b : Bytes) (name : List ℕ) (j n : ℕ)
    → length name ≤ 28
    → j + n ≤ 113
    → Agree a b 0 4096
    → find_entry a name j n ≡ find_entry b name j n
unfolding find_entry
find_entry-Agree a b name j zero short fits same = refl
find_entry-Agree a b name j (suc n) short fits same =
    rw
      (
        is_entry-Agree a b name j short (λ i low high. same i (omega arith) (omega arith)),
        find_entry-Agree a b name (j + 1) n short (omega arith) same,
      )
      refl

pub find_unused-Agree :
    (a b : Bytes) (j n : ℕ) → j + n ≤ 113 → Agree a b 0 4096 → find_unused a j n ≡ find_unused b j n
unfolding find_unused
find_unused-Agree a b j zero fits same = refl
find_unused-Agree a b j (suc n) fits same =
    rw
      (
        entry_inode-Agree a b j (λ i low high. same i (omega arith) (omega arith)),
        find_unused-Agree a b (j + 1) n (omega arith) same,
      )
      refl

pub find_unused-lt : (b : Bytes) (j n u : ℕ) → find_unused b j n ≡ some u → u < j + n
unfolding find_unused
find_unused-lt b j zero u h = absurd (ground arith)
find_unused-lt b j (suc n) u h = elim (Bool-cases (entry_inode b j == 0)) [
  | inl here ↦ ground arith
  | inr next ↦ (let rest = find_unused-lt b (j + 1) n u in ground (arith, rest))
]

pub is_entry-real :
    (b : Bytes) (name : List ℕ) (j : ℕ) → is_entry b name j ≡ true → entry_inode b j ≢ 0
is_entry-real b name j h z =
    let zero_there : (entry_inode b j == 0) ≡ true = (==_iff (entry_inode b j) 0).1 z in
    absurd (ground arith)

-- An entry that is found has an inode.
pub find_entry-real :
    (b : Bytes) (name : List ℕ) (j n u : ℕ) → find_entry b name j n ≡ some u → entry_inode b u ≢ 0
unfolding find_entry
find_entry-real b name j zero u h = absurd (ground arith)
find_entry-real b name j (suc n) u h = elim (Bool-cases (is_entry b name j)) [
  | inl here ↦
      (let e : j ≡ u = ground arith in
        subst (λ k. entry_inode b k ≢ 0) e (is_entry-real b name j here))
  | inr next ↦ (let rest = find_entry-real b name (j + 1) n u in rest (ground arith))
]

-- The search after the entry `u` was changed to one that has the name.
pub find_entry-changed :
    (a b : Bytes) (name : List ℕ) (j n u : ℕ)
    → length name ≤ 28
    → j ≤ u
    → u < j + n
    → find_entry b name j n ≡ none
    → is_entry a name u ≡ true
    → ((k : ℕ) → k ≢ u → Agree a b (36 * k) (36 * k + 36))
    → find_entry a name j n ≡ some u
unfolding find_entry
find_entry-changed a b name j zero u short low high absent found same = absurd (omega arith)
find_entry-changed a b name j (suc n) u short low high absent found same =
    elim (Bool-cases (j == u)) [
      | inl here ↦ (let e : j ≡ u = (==_iff j u).0 here in rw (e, found) refl)
      | inr other ↦
          let ne : j ≢ u = λ e. absurd (ground arith) in
          elim (Bool-cases (is_entry b name j)) [
            | inl before ↦ absurd (ground arith)
            | inr before ↦
                let next : is_entry a name j ≡ false =
                  is_entry-Agree a b name j short (same j ne) ∙ before in
                rw next (
                  find_entry-changed a b name (j + 1) n u short (omega arith) (omega arith)
                    (ground arith) found same)
          ]
    ]

get_or-beyond : (xs : List ℕ) (i : ℕ) → length xs ≤ i → get_or xs i 0 ≡ 0
get_or-beyond [] i le = refl
get_or-beyond (x ∷ xs) zero le = absurd (omega arith)
get_or-beyond (x ∷ xs) (suc i) le = get_or-beyond xs i (omega arith)

IsName-get_or : (xs : List ℕ) (i : ℕ) → IsName xs → get_or xs i 0 ≡ 0 → length xs ≤ i
IsName-get_or [] i ok z = omega arith
IsName-get_or (x ∷ xs) zero (ne, ok) z = absurd (ne z)
IsName-get_or (x ∷ xs) (suc i) (ne, ok) z = omega (arith, IsName-get_or xs i ok z)

string-Ends : (name : List ℕ) → IsName name → Ends (string name)
string-Ends name ok i j le z = get_or-beyond name j (omega (arith, IsName-get_or name i ok z))

-- The entry that `fs_create` makes, at the place `u` of a block.
module _ (fresh block : Bytes) (inode_id : ℕ) (name : List ℕ) (u : ℕ) (small : inode_id < 2 ^ 32)
    (ok : IsName name) (short : length name ≤ 28) where
  abbrev entry : Bytes
  entry = new_entry fresh inode_id name

  abbrev pub placed : Bytes
  placed = copy block (dir_entry_size * u) entry 0 dir_entry_size

  placed-at : (i : ℕ) → i < 36 → placed (36 * u + i) ≡ entry i
  placed-at i lt =
      copy-within block (36 * u) entry 0 36 (36 * u + i) (omega arith) (omega arith)
      ∙ ap entry (omega arith)

  number : (i : ℕ) → i < 4 → entry i ≡ put32 fresh 0 inode_id i
  number i lt =
      store-ne (strncpy (put32 fresh 0 inode_id) 4 (string name) 0 28) 32 0 i
        (λ e. absurd (omega arith))
      ∙ strncpy-out (put32 fresh 0 inode_id) 4 (string name) 0 28 i (inl (omega arith))

  character : (i : ℕ) → i ≤ 28 → entry (4 + i) ≡ string name i
  character i le = elim (Bool-cases (i == 28)) [
    | inl last ↦
        let e : i ≡ 28 = (==_iff i 28).0 last in
        let copied = strncpy (put32 fresh 0 inode_id) 4 (string name) 0 28 in
        rw e (store_self copied 32 0 ∙ sym (get_or-beyond name 28 short))
    | inr before ↦
        let copied = strncpy (put32 fresh 0 inode_id) 4 (string name) 0 28 in
        store-ne copied 32 0 (4 + i) (λ e. absurd (ground arith))
        ∙ strncpy-in (put32 fresh 0 inode_id) 4 (string name) 0 28 i (string-Ends name ok)
            (ground arith)
        ∙ ap (string name) (omega arith)
  ]

  pub placed-inode : entry_inode placed u ≡ inode_id
  placed-inode =
      let start : 36 * u ≡ 36 * u + 0 = omega arith in
      rw
        (
          ap placed start ∙ placed-at 0 (omega arith) ∙ number 0 (omega arith),
          placed-at 1 (omega arith) ∙ number 1 (omega arith),
          placed-at 2 (omega arith) ∙ number 2 (omega arith),
          placed-at 3 (omega arith) ∙ number 3 (omega arith),
        )
        (get32-put32 fresh 0 inode_id small)

  placed-string : IsString placed (36 * u + 4) name
  placed-string =
      IsName-IsString placed (36 * u + 4) name ok
        (λ i lt.
          ap placed (omega arith) ∙ placed-at (4 + i) (omega arith) ∙ character i (omega arith))
        (ap placed (omega arith)
          ∙ placed-at (4 + length name) (omega arith)
          ∙ character (length name) short
          ∙ get_or-end name)

  pub placed-is_entry : inode_id ≢ 0 → is_entry placed name u ≡ true
  placed-is_entry real =
      let told =
        strcmp_lem (suc (length name)) placed (36 * u + 4) (string name) 0 name name placed-string
          (string-IsString name ok) (omega arith) in
      let same : (told.0.0 == told.0.1) ≡ true = (==_iff told.0.0 told.0.1).1 (told.2.1 refl) in
      let some_inode : (entry_inode placed u == 0) ≡ false =
        rw placed-inode (==_ne inode_id 0 real) in
      rw (some_inode, told.1, same) refl

  pub placed-Agree : (k : ℕ) → k ≢ u → Agree placed block (36 * k) (36 * k + 36)
  placed-Agree k ne i low high = copy-outside block (36 * u) entry 0 36 i (ground arith)

pub find_entry-lt :
    (b : Bytes) (name : List ℕ) (j n u : ℕ) → find_entry b name j n ≡ some u → u < j + n
unfolding find_entry
find_entry-lt b name j zero u h = absurd (ground arith)
find_entry-lt b name j (suc n) u h = elim (Bool-cases (is_entry b name j)) [
  | inl here ↦ ground arith
  | inr next ↦ (let rest = find_entry-lt b name (j + 1) n u in ground (arith, rest))
]

entry_inode-zeros :
    (b : Bytes) (j : ℕ) → j < 113 → ((i : ℕ) → i < 4096 → b i ≡ 0) → entry_inode b j ≡ 0
entry_inode-zeros b j lt cleared =
    rw
      (
        cleared (36 * j) (omega arith),
        cleared (36 * j + 1) (omega arith),
        cleared (36 * j + 2) (omega arith),
        cleared (36 * j + 3) (omega arith),
      )
      refl

-- A block of zeros has no entry.
pub find_entry-zeros :
    (b : Bytes) (name : List ℕ) (j n : ℕ)
    → j + n ≤ 113
    → ((i : ℕ) → i < 4096 → b i ≡ 0)
    → find_entry b name j n ≡ none
unfolding find_entry
find_entry-zeros b name j zero fits cleared = refl
find_entry-zeros b name j (suc n) fits cleared =
    let free = entry_inode-zeros b j (omega arith) cleared in
    rw (free, find_entry-zeros b name (j + 1) n (omega arith) cleared) refl

pub find_unused-zeros : (b : Bytes) → ((i : ℕ) → i < 4096 → b i ≡ 0) → find_unused b 0 113 ≡ some 0
unfolding find_unused
find_unused-zeros b cleared = rw (entry_inode-zeros b 0 (omega arith) cleared) refl
