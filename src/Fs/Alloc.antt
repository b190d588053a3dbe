-- ===== src/Fs/Alloc.antt =====
-- The allocators of kern/fs/fs.c: which inodes and blocks are in use before and after a call.
use astral_os.Common.{
  ℕ, zero, suc, ◌+◌, ◌/◌, ◌%◌, ◌^◌, ◌≤◌, ◌<◌, ◌≡◌, ◌≢◌, ◌⊎◌, inl, inr, refl, subst, arith, Bool,
  true, false, Bool-cases, Option, none, some, Option-cases, ◌==◌, ==_iff, ==_refl, Bytes, add32,
}
use astral_os.Fs.Store.{Env, Fs}
use astral_os.Fs.Bits.{add_bit_self, add_bit_ne}
use astral_os.Fs.Bitmap.{test_bit, set_bit, first_clear, allocate_inode, allocate_block}

-- What `first_clear` finds among the bits from `i` on below `end`.
abbrev pub Finds : Bytes → (i end : ℕ) → Option ℕ → Type 0
Finds bitmap i end none = (j : ℕ) → i ≤ j → j < end → test_bit bitmap j ≡ true
Finds bitmap i end (some k) =
    (i ≤ k)
    × (k < end)
    × (test_bit bitmap k ≡ false)
    × ((j : ℕ) → i ≤ j → j < k → test_bit bitmap j ≡ true)

Finds-set :
    (bitmap : Bytes) (i end : ℕ) (o : Option ℕ)
    → test_bit bitmap i ≡ true
    → Finds bitmap (i + 1) end o
    → Finds bitmap i end o
Finds-set bitmap i end none h all = λ j low high. elim (Bool-cases (i == j)) [
  | inl e ↦ subst (λ x. test_bit bitmap x ≡ true) ((==_iff i j).0 e) h
  | inr e ↦ all j (ground arith) high
]
Finds-set bitmap i end (some k) h (low, high, free, all) = (
  omega arith,
  high,
  free,
  λ j a b. elim (Bool-cases (i == j)) [
    | inl e ↦ subst (λ x. test_bit bitmap x ≡ true) ((==_iff i j).0 e) h
    | inr e ↦ all j (ground arith) b
  ],
)

first_clear-Finds : (bitmap : Bytes) (i n : ℕ) → Finds bitmap i (i + n) (first_clear bitmap i n)
unfolding first_clear
first_clear-Finds bitmap i zero = λ j low high. absurd (omega arith)
first_clear-Finds bitmap i (suc n) =
    let rest : Finds bitmap (i + 1) (i + suc n) (first_clear bitmap (i + 1) n) =
      subst (λ x. Finds bitmap (i + 1) x (first_clear bitmap (i + 1) n)) (omega arith)
        (first_clear-Finds bitmap (i + 1) n) in
    elim (Bool-cases (test_bit bitmap i)) [
      | inl h ↦ rw h (Finds-set bitmap i (i + suc n) (first_clear bitmap (i + 1) n) h rest)
      | inr h ↦ rw h (omega arith, omega arith, h, λ j a b. absurd (omega arith))
    ]

module _ (bitmap : Bytes) (i : ℕ) (clear : test_bit bitmap i ≡ false) where
  bit : bitmap (i / 8) / 2 ^ (i % 8) % 2 ≡ 0
  bit = ground arith

  pub set_bit_self : test_bit (set_bit bitmap i) i ≡ true
  set_bit_self = rw (==_refl (i / 8), clear, add_bit_self (i % 8) (bitmap (i / 8)) bit)

  pub set_bit_ne : (j : ℕ) → i ≢ j → test_bit (set_bit bitmap i) j ≡ test_bit bitmap j
  set_bit_ne j ne = elim (Bool-cases (j / 8 == i / 8)) [
    | inl same ↦
        let e : j / 8 ≡ i / 8 = (==_iff _ _).0 same in
        let ne' : i % 8 ≢ j % 8 = λ z. ne (omega arith) in
        rw (e, ==_refl (i / 8), clear, add_bit_ne (i % 8) (j % 8) (bitmap (i / 8)) ne' bit)
    | inr other ↦ rw other
  ]

-- What an allocator does with what is in use, as a test on the numbers from 0 on: it returns 0 when
-- all of the `total` are in use, and otherwise one more than a number that was not in use, which is in
-- use afterwards, as the others were.
abbrev pub Takes : (used used' : ℕ → Bool) → (total id : ℕ) → Type 0
Takes used used' total id =
    ((id ≡ 0) × ((j : ℕ) → j < total → used j ≡ true) × ((j : ℕ) → used' j ≡ used j))
    ⊎ ((k : ℕ) × (id ≡ suc k)
        × (k < total)
        × (used k ≡ false)
        × (used' k ≡ true)
        × ((j : ℕ) → k ≢ j → used' j ≡ used j))

pub first_found :
    (bitmap : Bytes) (n : ℕ) (o : Option ℕ) → first_clear bitmap 0 n ≡ o → Finds bitmap 0 n o
first_found bitmap n o eq =
    let e : 0 + n ≡ n = omega arith in
    subst (Finds bitmap 0 n) eq
      (subst (λ x. Finds bitmap 0 x (first_clear bitmap 0 n)) e (first_clear-Finds bitmap 0 n))

set_bit-Takes :
    (bitmap : Bytes) (total k : ℕ)
    → total < 2 ^ 32
    → Finds bitmap 0 total (some k)
    → Takes (test_bit bitmap) (test_bit (set_bit bitmap k)) total (add32 k 1)
set_bit-Takes bitmap total k small (_, lt, clear, _) =
    inr (k, omega arith, lt, clear, set_bit_self bitmap k clear, set_bit_ne bitmap k clear)

module _ {e : Env} (s : Fs e) where
  -- `allocate_inode` returns 0 when every inode of the table is in use, and otherwise marks one that was
  -- not in use and returns its id, when the count of inodes is a `uint32_t`. It changes no other.
  pub allocate_inode-Takes :
      s.current_superblock.total_inodes < 2 ^ 32
      → Takes
          (test_bit s.inode_bitmap)
          (test_bit (allocate_inode s).1.inode_bitmap)
          s.current_superblock.total_inodes
          (allocate_inode s).0
  unfolding allocate_inode
  allocate_inode-Takes small =
      let total = s.current_superblock.total_inodes in
      elim (Option-cases (first_clear s.inode_bitmap 0 total)) [
        | inl none_left ↦
            let all = first_found s.inode_bitmap total none none_left in
            rw (none_left, allocate_inode) (inl (refl, (λ j lt. all j (omega arith) lt), λ j. refl))
        | inr (k, found) ↦
            rw (found, allocate_inode)
              (set_bit-Takes s.inode_bitmap total k small
                (first_found s.inode_bitmap total (some k) found))
      ]

  -- `allocate_block` returns 0 when every block is in use, and otherwise marks one that was not in use and
  -- returns one more than its number, when the count of blocks is a `uint32_t`. It changes no other.
  pub allocate_block-Takes :
      s.current_superblock.total_blocks < 2 ^ 32
      → Takes
          (test_bit s.block_bitmap)
          (test_bit (allocate_block s).1.block_bitmap)
          s.current_superblock.total_blocks
          (allocate_block s).0
  unfolding allocate_block
  allocate_block-Takes small =
      let total = s.current_superblock.total_blocks in
      elim (Option-cases (first_clear s.block_bitmap 0 total)) [
        | inl none_left ↦
            let all = first_found s.block_bitmap total none none_left in
            rw (none_left, allocate_block) (inl (refl, (λ j lt. all j (omega arith) lt), λ j. refl))
        | inr (k, found) ↦
            rw (found, allocate_block)
              (set_bit-Takes s.block_bitmap total k small
                (first_found s.block_bitmap total (some k) found))
      ]
