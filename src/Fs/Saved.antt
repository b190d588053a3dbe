-- ===== src/Fs/Saved.antt =====
-- `fs_write` of kern/fs/fs.c: the loop writes the bytes of its buffer to the file.
use astral_os.Common.{
  ℕ, zero, suc, ◌+◌, ◌-◌, ◌/◌, ◌%◌, ◌≤◌, ◌<◌, ◌≡◌, ◌≢◌, ◌⊎◌, inl, inr, refl, sym, ap, subst, ◌∙◌,
  arith, true, false, Bool-cases, ok, error, none, some, if◌then◌else◌, ltb, leb, ◌==◌, ==_ne,
  ==_iff, add64, Bytes, copy, copy-within, copy-outside,
}
use astral_os.Fs.Store.{Env, direct_block, read_block, write_block}
use astral_os.Fs.Content.{IsReliable, cell, content}
use astral_os.Fs.Data.{
  Run, finished, Written, block_idx, block_offset, bytes_to_copy, ensure_block, write_loop,
}
use astral_os.Fs.Ends.{Enough, Enough-round}
use astral_os.Fs.Reading.{Round, bytes_to_copy-Round}
use astral_os.Fs.Open.{IsOpen}
use astral_os.Fs.Ensure.{Keeps, Frames, ensure_block-IsOpen}
use astral_os.Fs.Writing.{
  Keeps-trans, put, put-IsOpen, put-Keeps, put-own, put-other, Writes, Writes-over,
}

-- One round, and what the rounds after it do.
module _ {e : Env} (reliable : IsReliable e) (w w' : Written e) (inode_id offset count done n i : ℕ)
    (buffer block : Bytes) (was_open : IsOpen w inode_id) (is_open : IsOpen w' inode_id)
    (kept : Keeps w w' inode_id) (there : direct_block w'.inode i ≢ 0)
    (index : i ≡ (offset + done) / 4096) (lt : i < 10) (round : Round offset count done n) where
  abbrev start : ℕ
  start = block_offset (add64 offset done)

  starts : start ≡ (offset + done) % 4096
  starts = omega (arith, index)

  abbrev changed : Bytes
  changed =
      copy (e.block_device_read w'.state.device (direct_block w'.inode i) block).1 start buffer done
        n

  abbrev next : Written e
  next = put reliable w' inode_id i is_open lt there changed

  in_round :
      (j : ℕ) → done ≤ j → j < done + n → content next.state next.inode (offset + j) ≡ buffer j
  in_round j low high =
      let (some_bytes, fits, in_block) = round in
      let same : (offset + j) / 4096 ≡ i = omega (arith, index) in
      put-own reliable w' inode_id i is_open lt there changed (offset + j) same
      ∙ copy-within (e.block_device_read w'.state.device (direct_block w'.inode i) block).1 start
          buffer done n ((offset + j) % 4096) (omega (arith, starts)) (omega (arith, starts))
      ∙ ap buffer (omega (arith, starts))

  -- A byte that the round does not write.
  out_of_round :
      Frames reliable w inode_id i was_open lt w'
      → (p : ℕ) → p < 40960
      → direct_block w.inode (p / 4096) ≢ 0
      → (p < offset + done) ⊎ (offset + (done + n) ≤ p)
      → content next.state next.inode p ≡ content w.state w.inode p
  out_of_round frame p small real out =
      let (some_bytes, fits, in_block) = round in
      let q = p / 4096 in
      let below : q < 10 = omega arith in
      let same_block = kept.blocks q below real in
      let framed =
        ap (λ b. cell w'.state b (p % 4096)) same_block
        ∙ frame (direct_block w.inode q) (p % 4096) (λ z. was_open.not_bitmap q below (sym z))
            (λ z. was_open.not_table q below (sym z)) in
      elim (Bool-cases (q == i)) [
        | inr other ↦
            put-other reliable w' inode_id i is_open lt there changed p below
              (λ z. absurd (ground arith))
            ∙ framed
        | inl here ↦
            let at : q ≡ i = (==_iff q i).0 here in
            let outside : (p % 4096 < start) ⊎ (start + n ≤ p % 4096) = elim out [
              | inl before ↦ inl (omega (arith, index, at, starts))
              | inr behind ↦ inr (omega (arith, index, at, starts))
            ] in
            put-own reliable w' inode_id i is_open lt there changed p at
            ∙ copy-outside (e.block_device_read w'.state.device (direct_block w'.inode i) block).1
                start buffer done n (p % 4096) outside
            ∙ reliable.whole w'.state.device (direct_block w'.inode i) block e.fresh (p % 4096)
                (omega arith)
            ∙ ap (λ k. cell w'.state (direct_block w'.inode k) (p % 4096)) (sym at)
            ∙ framed
      ]

  Writes-round :
      (r r' : Run (Written e))
      → Frames reliable w inode_id i was_open lt w'
      → r' ≡ r
      → Writes next inode_id offset count (done + n) buffer r
      → Writes w inode_id offset count done buffer r'
  Writes-round r r' frame same rest =
      let (some_bytes, fits, in_block) = round in
      let keeps =
        Keeps-trans w next rest.after inode_id
          (Keeps-trans w w' next inode_id kept
            (put-Keeps reliable w' inode_id i is_open lt there changed))
          rest.keeps in
      record {
        after = rest.after;
        written = rest.written;
        ran = same ∙ rest.ran;
        from = omega (arith, rest.from);
        to = rest.to;
        all = rest.all;
        is_open = rest.is_open;
        keeps = keeps;
        mapped = λ p low high. elim (Bool-cases (ltb p (offset + (done + n)))) [
          | inr later ↦ rest.mapped p (ground arith) high
          | inl now ↦
              let at : p / 4096 ≡ i = ground (arith, index) in
              subst (λ k. direct_block rest.after.inode k ≢ 0) (sym at)
                (λ z. there (sym (rest.keeps.blocks i lt there) ∙ z))
        ];
        new = λ j low high. elim (Bool-cases (ltb j (done + n))) [
          | inr later ↦ rest.new j (ground arith) high
          | inl now ↦
              let now' : j < done + n = ground arith in
              let at : (offset + j) / 4096 ≡ i = omega (arith, index) in
              rest.old (offset + j) (omega arith)
                (subst (λ k. direct_block w'.inode k ≢ 0) (sym at) there) (inl (omega arith))
              ∙ in_round j low now'
        ];
        old = λ p small real out.
            let still : direct_block w'.inode (p / 4096) ≢ 0 =
              λ z. real (sym (kept.blocks (p / 4096) (omega arith) real) ∙ z) in
            rest.old p small still
              (elim out [ inl before ↦ inl (omega arith) | inr behind ↦ inr behind ])
            ∙ out_of_round frame p small real (elim out [
              | inl before ↦ inl before
              | inr behind ↦ inr (omega (arith, rest.from))
            ]);
      }

-- A round from the block that `ensure_block` gives.
module _ {e : Env} (fuel inode_id offset count done : ℕ) (block buffer : Bytes) where
  abbrev with_block : ℕ × Written e → Run (Written e)
  with_block ensured =
      let position = add64 offset done in
      let read = read_block ensured.1.state ensured.0 block in
      let n = bytes_to_copy position (count - done) in
      let changed = copy read.1 (block_offset position) buffer done n in
      let stored = record ensured.1 { state = (write_block ensured.1.state ensured.0 changed).1 } in
      let rest = write_loop fuel stored inode_id offset count (done + n) changed buffer in
      if ensured.0 == 0
      then finished (some done) ensured.1
      else elim read.0 [ error ↦ finished none ensured.1 | ok ↦ rest ]

  write_loop-with_block :
      (w : Written e)
      → leb count done ≡ false
      → leb 10 (block_idx (add64 offset done)) ≡ false
      → write_loop (suc fuel) w inode_id offset count done block buffer
        ≡ with_block (ensure_block w inode_id (block_idx (add64 offset done)))
  unfolding write_loop
  write_loop-with_block w more below = rw (more, below) refl

write_loop-over :
    {e : Env} (fuel : ℕ) (w : Written e) (inode_id offset count done : ℕ) (block buffer : Bytes)
    → leb count done ≡ true
    → write_loop (suc fuel) w inode_id offset count done block buffer ≡ finished (some done) w
unfolding write_loop
write_loop-over fuel w inode_id offset count done block buffer over = rw over refl

-- How a round with a block goes on.
module _ {e : Env} (reliable : IsReliable e) (fuel : ℕ) (w w' : Written e)
    (inode_id offset count done : ℕ) (block buffer : Bytes) where
  abbrev index : ℕ
  index = block_idx (add64 offset done)

  with_block-some :
      (there : direct_block w'.inode index ≢ 0) (is_open : IsOpen w' inode_id) (lt : index < 10)
      → with_block fuel inode_id offset count done block buffer (direct_block w'.inode index, w')
        ≡ write_loop fuel
            (put reliable w' inode_id index is_open lt there (
              copy
                (read_block w'.state (direct_block w'.inode index) block).1
                (block_offset (add64 offset done))
                buffer
                done
                (bytes_to_copy (add64 offset done) (count - done))))
            inode_id
            offset
            count
            (done + bytes_to_copy (add64 offset done) (count - done))
            (copy
              (read_block w'.state (direct_block w'.inode index) block).1
              (block_offset (add64 offset done))
              buffer
              done
              (bytes_to_copy (add64 offset done) (count - done)))
            buffer
  with_block-some there is_open lt =
      let some_block = ==_ne (direct_block w'.inode index) 0 there in
      let delivered = reliable.reads w'.state.device (direct_block w'.inode index) block in
      rw (some_block, delivered) refl

pub write_loop-Writes :
    {e : Env} (reliable : IsReliable e) (fuel : ℕ) (w : Written e) (inode_id offset count done : ℕ)
    (block buffer : Bytes)
    → IsOpen w inode_id
    → offset + count ≤ 40960
    → Enough fuel offset count done
    → done ≤ count
    → Writes w inode_id offset count done buffer
        (write_loop fuel w inode_id offset count done block buffer)
write_loop-Writes reliable zero w inode_id offset count done block buffer is_open small (pos, _)
      le =
    absurd (omega arith)
write_loop-Writes reliable (suc fuel) w inode_id offset count done block buffer is_open small enough
      le =
    elim (Bool-cases (leb count done)) [
      | inl over ↦
          subst (Writes w inode_id offset count done buffer)
            (sym (write_loop-over fuel w inode_id offset count done block buffer over))
            (Writes-over w inode_id offset count done buffer is_open le (inl (ground arith)))
      | inr more ↦
          let lt : done < count = ground arith in
          let i = block_idx (add64 offset done) in
          let at : i ≡ (offset + done) / 4096 = omega arith in
          let low : i < 10 = omega arith in
          let below : leb 10 i ≡ false = ground arith in
          let step =
            write_loop-with_block fuel inode_id offset count done block buffer w more below in
          elim (ensure_block-IsOpen reliable w inode_id i is_open low) [
            | inl (missing, full, ensured) ↦
                subst (Writes w inode_id offset count done buffer)
                  (sym
                    (step ∙ ap (with_block fuel inode_id offset count done block buffer) ensured))
                  (Writes-over w inode_id offset count done buffer is_open le (inr full))
            | inr (w', ensured, open', kept, there, frame) ↦
                let round = bytes_to_copy-Round offset count done small lt in
                let n = bytes_to_copy (add64 offset done) (count - done) in
                let changed =
                  copy (read_block w'.state (direct_block w'.inode i) block).1
                    (block_offset (add64 offset done)) buffer done n in
                let next = put reliable w' inode_id i open' low there changed in
                Writes-round reliable w w' inode_id offset count done n i buffer block is_open open'
                  kept there at low round
                  (write_loop fuel next inode_id offset count (done + n) changed buffer) _ frame
                  (step
                    ∙ ap (with_block fuel inode_id offset count done block buffer) ensured
                    ∙ with_block-some reliable fuel w w' inode_id offset count done block buffer
                        there open' low)
                  (write_loop-Writes reliable fuel next inode_id offset count (done + n) changed
                    buffer (put-IsOpen reliable w' inode_id i open' low there changed) small
                    (Enough-round fuel offset count done enough lt low) round.1)
          ]
    ]
