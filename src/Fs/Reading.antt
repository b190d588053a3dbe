-- ===== src/Fs/Reading.antt =====
-- `fs_read` of kern/fs/fs.c: the bytes that its loop copies.
use astral_os.Common.{
  ℕ, zero, suc, ◌+◌, ◌-◌, ◌/◌, ◌%◌, ◌≤◌, ◌<◌, ◌≡◌, ◌≢◌, ◌⊎◌, inl, inr, refl, sym, ap, subst, ◌∙◌,
  arith, false, Bool-cases, some, ltb, leb, ◌==◌, ==_ne, add64, Bytes, copy, copy-within,
  copy-outside,
}
use astral_os.Fs.Store.{Env, Fs, direct_block, read_block}
use astral_os.Fs.Data.{Run, finished, block_idx, block_offset, bytes_to_copy, read_loop}
use astral_os.Fs.Content.{IsReliable, cell, content}
use astral_os.Fs.Ends.{Enough, Enough-round}

-- The bytes of a round lie in one block.
abbrev pub Round : (offset count done n : ℕ) → Type 0
Round offset count done n = (0 < n) × (done + n ≤ count) × ((offset + done) % 4096 + n ≤ 4096)

pub bytes_to_copy-Round :
    (offset count done : ℕ)
    → offset + count ≤ 40960
    → done < count
    → Round offset count done (bytes_to_copy (add64 offset done) (count - done))
bytes_to_copy-Round offset count done h lt = ground arith

module _ {e : Env} (reliable : IsReliable e) (s : Fs e) (inode : Bytes) (offset count : ℕ)
    (small : offset + count ≤ 40960)
    (mapped : (p : ℕ) → offset ≤ p → p < offset + count → direct_block inode (p / 4096) ≢ 0) where
  -- The bytes of the file from `done` on are in the buffer.
  abbrev pub Reads : (done : ℕ) → (buffer : Bytes) → Run Bytes → Type 0
  Reads done buffer r =
      (after : Bytes) × (r ≡ finished (some count) after)
      × ((i : ℕ) → done ≤ i → i < count → after i ≡ content s inode (offset + i))
      × ((i : ℕ) → (i < done) ⊎ (count ≤ i) → after i ≡ buffer i)

  pub read_loop-Reads :
      (fuel done : ℕ) (block buffer : Bytes)
      → Enough fuel offset count done
      → done ≤ count
      → Reads done buffer (read_loop fuel s inode offset count done block buffer)
  unfolding read_loop
  read_loop-Reads zero done block buffer (pos, _) le = absurd (omega arith)
  read_loop-Reads (suc fuel) done block buffer enough le =
      let position : add64 offset done ≡ offset + done = omega arith in
      elim (Bool-cases (leb count done)) [
        | inl over ↦
            let whole : done ≡ count = ground arith in
            rw over (
              buffer,
              ap (λ n. finished (some n) buffer) whole,
              (λ i low high. absurd (omega arith)),
              (λ i out. refl),
            )
        | inr more ↦
            let lt : done < count = ground arith in
            let index : block_idx (add64 offset done) ≡ (offset + done) / 4096 = omega arith in
            let below : leb 10 (block_idx (add64 offset done)) ≡ false = ground arith in
            let num = direct_block inode (block_idx (add64 offset done)) in
            let there : (num == 0) ≡ false = ==_ne num 0 (
              subst (λ k. direct_block inode k ≢ 0) (sym index)
                (mapped (offset + done) (omega arith) (omega arith))) in
            let delivered = reliable.reads s.device num block in
            let n = bytes_to_copy (add64 offset done) (count - done) in
            let (some_bytes, fits, in_block) = bytes_to_copy-Round offset count done small lt in
            let read = (read_block s num block).1 in
            let start = block_offset (add64 offset done) in
            let copied = copy buffer done read start n in
            let (after, ran, new, old) =
              read_loop-Reads fuel (done + n) read copied
                (Enough-round fuel offset count done enough lt (ground arith)) fits in
            let here = λ (i : ℕ) (low : done ≤ i) (high : i < done + n).
              let file_block : block_idx (add64 offset done) ≡ (offset + i) / 4096 =
                omega (arith, index, in_block) in
              let cell_index : start + (i - done) ≡ (offset + i) % 4096 = omega (arith, in_block) in
              copy-within buffer done read start n i low high
              ∙ reliable.whole s.device num block e.fresh (start + (i - done)) (omega arith)
              ∙ ap (λ k. cell s (direct_block inode (block_idx (add64 offset done))) k) cell_index
              ∙ ap (λ k. cell s (direct_block inode k) ((offset + i) % 4096)) file_block in
            rw (more, below, there, delivered)
              (
                after,
                ran,
                (λ i low high. elim (Bool-cases (ltb i (done + n))) [
                  | inl this ↦
                      let below_end : i < done + n = ground arith in
                      old i (inl below_end) ∙ here i low below_end
                  | inr later ↦ new i (ground arith) high
                ]),
                (λ i out.
                    old i (elim out [ inl low ↦ inl (omega arith) | inr high ↦ inr high ])
                    ∙ copy-outside buffer done read start n i
                        (elim out [ inl low ↦ inl low | inr high ↦ inr (omega arith) ])),
              )
      ]
