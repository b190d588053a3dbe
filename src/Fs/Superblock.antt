-- ===== src/Fs/Superblock.antt =====
-- The superblock of kern/fs/fs.c on its block, and `fs_init` on a device that holds one.
use astral_os.Common.{
  ℕ, ◌+◌, ◌-◌, ◌*◌, ◌/◌, ◌%◌, ◌^◌, ◌≤◌, ◌<◌, ◌≡◌, ◌⊎◌, inl, refl, ◌∙◌, arith, Bytes, copy-within,
  copy-outside, little_endian, zero, suc, List, [], ◌∷◌, length, get_or, get32, put32,
}
use astral_os.Fs.Store.{Superblock}
use astral_os.Fs.Format.{put_superblock, get_superblock}

pub get32-put32 : (m : Bytes) (p v : ℕ) → v < 2 ^ 32 → get32 (put32 m p v) p ≡ v
get32-put32 m p v lt =
    let b0 = copy-within m p (little_endian v) 0 4 p (omega arith) (omega arith) in
    let b1 = copy-within m p (little_endian v) 0 4 (p + 1) (omega arith) (omega arith) in
    let b2 = copy-within m p (little_endian v) 0 4 (p + 2) (omega arith) (omega arith) in
    let b3 = copy-within m p (little_endian v) 0 4 (p + 3) (omega arith) (omega arith) in
    let e0 : 0 + (p - p) ≡ 0 = omega arith in
    let e1 : 0 + (p + 1 - p) ≡ 1 = omega arith in
    let e2 : 0 + (p + 2 - p) ≡ 2 = omega arith in
    let e3 : 0 + (p + 3 - p) ≡ 3 = omega arith in
    let digits : v / 256 ^ 0 % 256
          + 256 * (v / 256 ^ 1 % 256)
          + 65536 * (v / 256 ^ 2 % 256)
          + 16777216 * (v / 256 ^ 3 % 256)
        ≡ v =
      omega arith in
    rw (b0, b1, b2, b3, e0, e1, e2, e3) digits

-- A field before or after it is not changed.
pub get32-put32_ne :
    (m : Bytes) (p q v : ℕ) → (q + 4 ≤ p) ⊎ (p + 4 ≤ q) → get32 (put32 m p v) q ≡ get32 m q
get32-put32_ne m p q v out =
    let b0 = copy-outside m p (little_endian v) 0 4 q (ground arith) in
    let b1 = copy-outside m p (little_endian v) 0 4 (q + 1) (ground arith) in
    let b2 = copy-outside m p (little_endian v) 0 4 (q + 2) (ground arith) in
    let b3 = copy-outside m p (little_endian v) 0 4 (q + 3) (ground arith) in
    rw (b0, b1, b2, b3) refl

-- Consecutive 32-bit fields from `p` on.
abbrev put_fields : Bytes → ℕ → List ℕ → Bytes
put_fields m p [] = m
put_fields m p (v ∷ vs) = put_fields (put32 m p v) (p + 4) vs

get32-before :
    (vs : List ℕ) (m : Bytes) (p q : ℕ) → q + 4 ≤ p → get32 (put_fields m p vs) q ≡ get32 m q
get32-before [] m p q h = refl
get32-before (v ∷ vs) m p q h =
    get32-before vs (put32 m p v) (p + 4) q (omega arith) ∙ get32-put32_ne m p q v (inl h)

abbrev AllSmall : List ℕ → Type 0
AllSmall [] = Unit
AllSmall (v ∷ vs) = (v < 2 ^ 32) × AllSmall vs

-- Each field of a row of them is read back.
get32-put_fields :
    (vs : List ℕ) (m : Bytes) (p i : ℕ)
    → AllSmall vs
    → i < length vs
    → get32 (put_fields m p vs) (p + 4 * i) ≡ get_or vs i 0
get32-put_fields [] m p i small h = absurd (omega arith)
get32-put_fields (v ∷ vs) m p zero (lt, small) h =
    let here : p + 4 * 0 ≡ p = omega arith in
    rw here (get32-before vs (put32 m p v) (p + 4) p (omega arith) ∙ get32-put32 m p v lt)
get32-put_fields (v ∷ vs) m p (suc i) (lt, small) h =
    let move : p + 4 * suc i ≡ p + 4 + 4 * i = omega arith in
    rw move (get32-put_fields vs (put32 m p v) (p + 4) i small (omega arith))

-- The fields of the superblock in the order of `superblock_t`.
abbrev pub fields : Superblock → List ℕ
fields sb =
    sb.magic ∷ sb.block_size ∷ sb.total_blocks ∷ sb.free_blocks ∷ sb.total_inodes ∷ sb.free_inodes
    ∷ sb.root_inode ∷ sb.inode_bitmap_block ∷ sb.block_bitmap_block ∷ sb.inode_table_start_block
    ∷ sb.data_start_block ∷ []

-- A superblock whose fields are 32-bit numbers is the same after it was copied to a buffer and back.
pub get_superblock-put_superblock :
    (m : Bytes) (sb : Superblock) → AllSmall (fields sb) → get_superblock (put_superblock m sb) ≡ sb
get_superblock-put_superblock m sb small =
    let at = λ (i : ℕ) (h : i < 11). get32-put_fields (fields sb) m 0 i small h in
    rw
      (
        at 0 (omega arith),
        at 1 (omega arith),
        at 2 (omega arith),
        at 3 (omega arith),
        at 4 (omega arith),
        at 5 (omega arith),
        at 6 (omega arith),
        at 7 (omega arith),
        at 8 (omega arith),
        at 9 (omega arith),
        at 10 (omega arith),
      )
      refl
