-- ===== src/Fs/DirTests.antt =====
-- Making a file in an empty directory of kern/fs/fs.c, and looking it up.
use astral_os.Common.{
  inl, inr, ◌-◌, ◌*◌, zero, suc, ap, subst, error, true, ℕ, ◌+◌, ◌<◌, ◌≤◌, ◌≡◌, ◌≢◌, ◌⊎◌, refl, sym,
  ◌∙◌, arith, false, ◌&&◌, List, [], ◌∷◌, if◌then◌else◌, ◌==◌, ==_ne,
}
use astral_os.Fs.Store.{Fs, direct_block, direct_block_offset}
use astral_os.Fs.Bitmap.{test_bit}
use astral_os.Fs.Dir.{is_entry, fs_delete, fs_lookup}
use astral_os.Fs.Open.{loaded, loaded-cell}
use astral_os.Fs.Directory.{IsDir}
use astral_os.Fs.Content.{cell}
use astral_os.Fs.Entries.{is_entry-real}
use astral_os.Fs.Removed.{Once}
use astral_os.Fs.Deleted.{fs_lookup-fs_delete}
use astral_os.Fs.Tests.{heap-IsInUse, ram, empty, heap-HasRoom}
use astral_os.Fs.FileTests.{ram-IsReliable}

-- The inode 2 is that of an empty directory, and the first four numbers of blocks are in use.
abbrev one_dir : Fs ram
one_dir = record empty {
  device = λ b i. if b == 3 && (i == 93) then 64 else 0;
  inode_bitmap = λ i. if i == 0 then 3 else 0;
  block_bitmap = λ i. if i == 0 then 15 else 0;
}

-- "a"
abbrev a : List ℕ
a = b'a' ∷ []

-- The directory with its block 5, in which the first entry is that of the inode 3 under the name "a".
abbrev one_entry : Fs ram
one_entry = record one_dir {
  device = λ b i.
      if b == 3 && (i == 93)
      then 64
      else if b == 3 && (i == 128)
      then 5
      else if b == 5 && (i == 0)
      then 3
      else if b == 5 && (i == 4)
      then b'a'
      else 0;
  block_bitmap = λ i. if i == 0 then 31 else 0;
}

last_byte : (i : ℕ) → 41 ≤ i → i < 88 → loaded one_entry 2 i ≡ 0
last_byte i low high =
    let other : (88 + i == 93) ≡ false = ==_ne (88 + i) 93 (λ e. absurd (omega arith)) in
    let other' : (88 + i == 128) ≡ false = ==_ne (88 + i) 128 (λ e. absurd (omega arith)) in
    loaded-cell one_entry 2 i high ∙ rw (other, other') refl

one_block :
    (k : ℕ)
    → k < 10
    → ((k ≡ 0) × (direct_block (loaded one_entry 2) k ≡ 5))
      ⊎ (direct_block (loaded one_entry 2) k ≡ 0)
one_block zero lt = inl (refl, refl)
one_block (suc k) lt =
    let p = direct_block_offset (suc k) in
    inr (
      omega (
        arith,
        last_byte p (omega arith) (omega arith),
        last_byte (p + 1) (omega arith) (omega arith),
        last_byte (p + 2) (omega arith) (omega arith),
        last_byte (p + 3) (omega arith) (omega arith),
      ))

number :
    (k : ℕ)
    → k < 10
    → (direct_block (loaded one_entry 2) k ≡ 5) ⊎ (direct_block (loaded one_entry 2) k ≡ 0)
number k lt = elim (one_block k lt) [
  | inl (first, five) ↦ inl five
  | inr none_there ↦ inr none_there
]

first_block : (k : ℕ) → k < 10 → direct_block (loaded one_entry 2) k ≢ 0 → k ≡ 0
first_block k lt real = elim (one_block k lt) [
  | inl (first, five) ↦ first
  | inr none_there ↦ absurd (real none_there)
]

one_entry-IsDir : IsDir one_entry 2
one_entry-IsDir = record {
  is_open = record {
    valid = refl;
    total = omega arith;
    table = λ e. absurd (omega arith);
    table_used = refl;
    bitmap = λ e. absurd (omega arith);
    bitmap_used = refl;
    apart = λ e. absurd (omega arith);
    used = λ k lt real. elim (number k lt) [
      | inl five ↦ ap (λ b. test_bit one_entry.block_bitmap (b - 1)) five
      | inr none_there ↦ absurd (real none_there)
    ];
    not_table = λ k lt e. absurd (ground (arith, number k lt, e));
    not_bitmap = λ k lt e. absurd (ground (arith, number k lt, e));
    distinct = λ j k lt lt' ne real e. absurd (
        ground (arith, first_block j lt real, number k lt', first_block k lt' (λ z. real (e ∙ z))));
    stored = λ i lt. sym (loaded-cell one_entry 2 i lt);
  };
  type = refl;
  in_use = refl;
  total = omega arith;
  no_table = λ id k pos le lt e. absurd (ground (arith, number k lt, e));
  no_bitmap = λ k lt e. absurd (ground (arith, number k lt, e));
  bitmap_apart = λ e. absurd (omega arith);
}

no_entry_byte : (i : ℕ) → i ≢ 0 → i ≢ 4 → cell one_entry 5 i ≡ 0
no_entry_byte i ne ne' = rw (==_ne i 0 ne, ==_ne i 4 ne') refl

only_entry : (j : ℕ) → is_entry (cell one_entry 5) a j ≡ true → j ≡ 0
only_entry zero is = refl
only_entry (suc j) is =
    let at = λ (i : ℕ) (low : 36 ≤ i).
      no_entry_byte i (λ e. absurd (omega arith)) (λ e. absurd (omega arith)) in
    let p = 36 * suc j in
    absurd (
      is_entry-real (cell one_entry 5) a (suc j) is (
        omega (
          arith,
          at p (omega arith),
          at (p + 1) (omega arith),
          at (p + 2) (omega arith),
          at (p + 3) (omega arith),
        )))

first_entry :
    (k j : ℕ)
    → k < 10
    → direct_block (loaded one_entry 2) k ≢ 0
    → is_entry (cell one_entry (direct_block (loaded one_entry 2) k)) a j ≡ true
    → j ≡ 0
first_entry k j lt real is = elim (number k lt) [
  | inl five ↦ only_entry j (subst (λ b. is_entry (cell one_entry b) a j ≡ true) five is)
  | inr none_there ↦ absurd (real none_there)
]

one_entry-Once : Once one_entry (loaded one_entry 2) a
one_entry-Once k k' j j' lt lt' h h' real real' is is' = (
  first_block k lt real ∙ sym (first_block k' lt' real'),
  first_entry k j lt real is ∙ sym (first_entry k' j' lt' real' is'),
)

fs_lookup-fs_delete_example :
    ((fs_lookup (fs_delete one_entry 2 a).1 2 a).0 ≡ 0)
    × ((fs_lookup one_entry 2 a).0 ≡ 0 → (fs_delete one_entry 2 a).0 ≡ error)
fs_lookup-fs_delete_example =
    fs_lookup-fs_delete ram-IsReliable one_entry 2 a heap-IsInUse heap-HasRoom one_entry-IsDir
      (omega arith) one_entry-Once
