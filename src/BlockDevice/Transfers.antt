-- ===== src/BlockDevice/Transfers.antt =====
-- What the drivers of kern/drivers/block/block_device.c transfer.
use astral_os.Common.{
  ℕ, zero, suc, ◌+◌, ◌*◌, ◌^◌, ◌≡◌, refl, ap, ◌∙◌, arith, false, List, [], ◌∷◌, ◌++◌, ok,
  if◌then◌else◌, ◌==◌, ==_ne, u32,
}
use astral_os.BlockDevice.{
  Access, writes_word, writes_byte, clears, reads_word, waits_clear, waits_set, loads, stores,
  type_emmc, ufs_trl_base, ufs_send_command, words, blocks, words_per_block, emmc_read_blocks,
  emmc_send_command, block_device_read,
}

-- The words of the buffer that a list of accesses fills, in order.
abbrev pub loaded : List Access → List ℕ
loaded [] = []
loaded (loads i ∷ rest) = i ∷ loaded rest
loaded (_ ∷ rest) = loaded rest

-- The `n` numbers from `i` on.
abbrev pub count_up : (i n : ℕ) → List ℕ
count_up i zero = []
count_up i (suc n) = i ∷ count_up (i + 1) n

loaded-append : (xs ys : List Access) → loaded (xs ++ ys) ≡ loaded xs ++ loaded ys
loaded-append [] ys = refl
loaded-append (loads i ∷ xs) ys = ap (λ l. i ∷ l) (loaded-append xs ys)
loaded-append (writes_word a v ∷ xs) ys = loaded-append xs ys
loaded-append (writes_byte a v ∷ xs) ys = loaded-append xs ys
loaded-append (clears a n ∷ xs) ys = loaded-append xs ys
loaded-append (reads_word a ∷ xs) ys = loaded-append xs ys
loaded-append (waits_clear a m ∷ xs) ys = loaded-append xs ys
loaded-append (waits_set a m ∷ xs) ys = loaded-append xs ys
loaded-append (stores i ∷ xs) ys = loaded-append xs ys

count_up-append : (i n m : ℕ) → count_up i n ++ count_up (i + n) m ≡ count_up i (n + m)
count_up-append i zero m =
    let e : i + 0 ≡ i = omega arith in let e' : 0 + m ≡ m = omega arith in rw (e, e') refl
count_up-append i (suc n) m =
    let e : i + suc n ≡ i + 1 + n = omega arith in
    let e' : suc n + m ≡ suc (n + m) = omega arith in
    rw (e, e') (ap (λ l. i ∷ l) (count_up-append (i + 1) n m))

loaded-words : (i j n : ℕ) → loaded (words loads i j n) ≡ count_up (i * words_per_block + j) n
unfolding words
loaded-words i j zero = refl
loaded-words i j (suc n) =
    let e : i * words_per_block + (j + 1) ≡ i * words_per_block + j + 1 = omega arith in
    ap (λ l. (i * words_per_block + j) ∷ l) (loaded-words i (j + 1) n ∙ ap (λ k. count_up k n) e)

loaded-blocks :
    (ready i n : ℕ)
    → loaded (blocks loads ready i n) ≡ count_up (i * words_per_block) (n * words_per_block)
unfolding blocks
loaded-blocks ready i zero = refl
loaded-blocks ready i (suc n) =
    let w = words_per_block in
    let start : i * w + 0 ≡ i * w = omega arith in
    let next : (i + 1) * w ≡ i * w + w = omega arith in
    let size : w + n * w ≡ suc n * w = omega arith in
    loaded-append (words loads i 0 w) (blocks loads ready (i + 1) n)
    ∙ ap (λ l. l ++ loaded (blocks loads ready (i + 1) n))
        (loaded-words i 0 w ∙ ap (λ k. count_up k w) start)
    ∙ ap (λ l. count_up (i * w) w ++ l)
        (loaded-blocks ready (i + 1) n ∙ ap (λ k. count_up k (n * w)) next)
    ∙ count_up-append (i * w) w (n * w)
    ∙ ap (λ k. count_up (i * w) k) size

append_nil : (xs : List ℕ) → xs ++ [] ≡ xs
append_nil [] = refl
append_nil (x ∷ xs) = ap (λ l. x ∷ l) (append_nil xs)

-- A read through the eMMC driver succeeds and fills the 128 words of the buffer for each block of 512
-- bytes, each word once and in order, whatever the address.
pub block_device_read-loaded :
    (lba num_blocks buffer : ℕ)
    → ((block_device_read type_emmc lba num_blocks buffer).0 ≡ ok)
      × (loaded (block_device_read type_emmc lba num_blocks buffer).1
          ≡ count_up 0 (num_blocks * words_per_block))
unfolding block_device_read emmc_read_blocks
block_device_read-loaded lba zero buffer = (refl, refl)
block_device_read-loaded lba (suc n) buffer =
    let test : (suc n == 0) ≡ false = ==_ne (suc n) 0 (λ e. absurd (omega arith)) in
    let data_blocks = blocks loads (2 ^ 11) 0 (suc n) in
    let parts =
      loaded-append data_blocks (emmc_send_command 0x0C 0 0)
      ∙ append_nil (loaded data_blocks)
      ∙ loaded-blocks (2 ^ 11) 0 (suc n) in
    rw test (refl, parts)

-- The byte that was written last at an address.
abbrev pub last_byte : List Access → (address before : ℕ) → ℕ
last_byte [] a before = before
last_byte (writes_byte b v ∷ rest) a before = last_byte rest a (if b == a then v else before)
last_byte (_ ∷ rest) a before = last_byte rest a before

-- The number in the four bytes of the command from the third on, the highest first.
abbrev pub command_lba : List Access → ℕ
command_lba xs =
    let byte = λ (k : ℕ). last_byte xs (ufs_trl_base + 16 + k) 0 in
    byte 2 * 2 ^ 24 + byte 3 * 2 ^ 16 + byte 4 * 2 ^ 8 + byte 5

-- The command that the UFS driver builds for a read or a write holds the 32 low bits of the 64-bit block
-- address.
pub ufs_send_command-lba :
    (lba num_blocks buffer data_direction : ℕ)
    → command_lba (ufs_send_command lba num_blocks buffer data_direction).1 ≡ u32 lba
unfolding ufs_send_command
ufs_send_command-lba lba num_blocks buffer data_direction = omega arith
