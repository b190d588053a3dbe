-- ===== src/Fs/Ends.antt =====
-- Termination of the loops of `fs_read` and `fs_write` in kern/fs/fs.c.
use astral_os.Common.{
  ℕ, suc, ◌+◌, ◌-◌, ◌/◌, ◌%◌, ◌^◌, ◌≤◌, ◌<◌, ◌≡◌, ◌⊎◌, inl, inr, arith, Bool-cases, Option, ltb,
  add64,
}
use astral_os.Fs.Store.{Fs, fs_block_size}
use astral_os.Fs.Data.{Run, finished, rounds, block_idx, block_offset, bytes_to_copy}

-- The next block of a file is reached at the end of one: without a wrap, since an index below 10 is not
-- that of the last block that a `uint64_t` can reach.
next_index :
    (x : ℕ)
    → x % 2 ^ 64 / 4096 % 2 ^ 32 < 10
    → (x + (4096 - x % 2 ^ 64 % 4096)) % 2 ^ 64 / 4096 % 2 ^ 32 ≡ x % 2 ^ 64 / 4096 % 2 ^ 32 + 1
next_index x h = omega arith

-- Whether the loop ends with the fuel, `done` bytes of `count` on.
abbrev pub Enough : (fuel offset count done : ℕ) → Type 0
Enough fuel offset count done =
    (1 ≤ fuel) × (count ≤ done ⊎ 11 ≤ fuel + block_idx (add64 offset done))

pub Enough-round :
    (fuel offset count done : ℕ)
    → Enough (suc fuel) offset count done
    → done < count
    → block_idx (add64 offset done) < 10
    → Enough fuel offset count (done + bytes_to_copy (add64 offset done) (count - done))
Enough-round fuel offset count done (_, inl over) lt low = absurd (omega arith)
Enough-round fuel offset count done (_, inr many) lt low =
    let p = add64 offset done in
    elim (Bool-cases (ltb (count - done) (fs_block_size - block_offset p))) [
      | inl few ↦ rw few (omega arith, inl (omega arith))
      | inr full ↦
          let next = next_index (offset + done) low in
          rw full (omega arith, inr (omega (arith, next)))
    ]

-- A run that did not use up its fuel.
pub Enough-rounds : (offset count : ℕ) → Enough rounds offset count 0
Enough-rounds offset count = (omega arith, inr (omega arith))

module _ {S : Type 0} where
  abbrev pub Ended : Run S → Type 0
  Ended r = (result : Option ℕ) × (after : S) × (r ≡ finished result after)
