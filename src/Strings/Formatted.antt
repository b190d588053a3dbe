-- ===== src/Strings/Formatted.antt =====
-- `vsnprintf` of kern/lib/lib.c: what it leaves of the text in the buffer.
use astral_os.Common.{
  ℕ, ◌+◌, ◌-◌, ◌^◌, ◌≤◌, ◌<◌, ◌≡◌, ◌≢◌, ◌⊎◌, inl, inr, refl, sym, ap, subst, ◌∙◌, arith, Bool-cases,
  Option, some, List, [], length, get_or, ltb, ==_ne, ==_refl, Bytes, store,
}
use astral_os.Strings.Format.{Arg, Output, finish, vsnprintf}
use astral_os.Strings.Room.{Holds}
use astral_os.Strings.Expanded.{Expands}
use astral_os.Strings.Loop.{format_loop-Runs}

-- What `vsnprintf` leaves: it returns, at most the size; the buffer holds the text up to the size, and a
-- terminator behind it, or in its last place; nothing outside the buffer is changed.
pub record Formats (m : Bytes) (str size : ℕ) (ys : List ℕ) (r : Option (Bytes × ℕ)) : Type 0 where
  pub after : Bytes
  pub written : ℕ
  pub ran : r ≡ some (after, written)
  pub within : written ≤ size
  pub whole : written < size - 1 → written ≡ length ys
  pub content : (i : ℕ) → i < size - 1 → i < length ys → after (str + i) ≡ get_or ys i 0
  pub ended : length ys < size - 1 → after (str + length ys) ≡ 0
  pub cut : 0 < size → size - 1 ≤ length ys → after (str + size - 1) ≡ 0
  pub outside : (a : ℕ) → (a < str) ⊎ (str + size ≤ a) → after a ≡ m a

-- The text that fits is all there, whatever was written last.
Holds-content :
    {m : Bytes} {str size : ℕ} {ys : List ℕ} {o : Output}
    → Holds m str size ys o
    → (i : ℕ) → i < size - 1
    → i < length ys
    → o.bytes (str + i) ≡ get_or ys i 0
Holds-content {o = o} h i lt lt' = elim (Bool-cases (ltb i o.written)) [
  | inl there ↦ h.content i lt (ground arith)
  | inr missing ↦ absurd (ground (arith, h.whole))
]

terminated-Formats :
    (m : Bytes) (str size : ℕ) (ys : List ℕ) (o : Output) (k : ℕ)
    → Holds m str size ys o
    → k < size
    → k ≤ length ys
    → (k < size - 1 → k ≡ length ys)
    → Formats m str size ys (some (store o.bytes (str + k) 0, o.written))
terminated-Formats m str size ys o k h room few all =
    let stored : (a : ℕ) → a ≢ str + k → store o.bytes (str + k) 0 a ≡ o.bytes a =
      λ a ne. rw (==_ne a (str + k) ne) refl in
    let zeroed : store o.bytes (str + k) 0 (str + k) ≡ 0 = rw (==_refl (str + k)) refl in
    record {
      after = store o.bytes (str + k) 0;
      written = o.written;
      ran = refl;
      within = h.within;
      whole = λ lt. omega (arith, h.short, h.whole lt);
      content = λ i lt lt'.
          stored (str + i) (λ e. elim (Bool-cases (ltb k (size - 1))) [
            | inl l ↦ absurd (ground (arith, all))
            | inr l ↦ absurd (ground arith)
          ])
          ∙ Holds-content h i lt lt';
      ended = λ lt.
          let here : str + length ys ≡ str + k = omega (arith, all (omega arith)) in
          ap (store o.bytes (str + k) 0) here ∙ zeroed;
      cut = λ pos long.
          let last : k ≡ size - 1 = elim (Bool-cases (ltb k (size - 1))) [
            | inl l ↦ absurd (ground (arith, all))
            | inr l ↦ ground arith
          ] in
          let here : str + size - 1 ≡ str + k = omega (arith, last) in
          ap (store o.bytes (str + k) 0) here ∙ zeroed;
      outside = λ a out.
          stored a
            (λ e. elim out [ inl low ↦ absurd (omega arith) | inr high ↦ absurd (omega arith) ])
          ∙ h.outside a out;
    }

pub finish-Formats :
    (m : Bytes) (str size : ℕ) (ys : List ℕ) (o : Output)
    → Holds m str size ys o
    → Formats m str size ys (finish str size (some o))
finish-Formats m str size ys o h = elim (Bool-cases (ltb o.written size)) [
  | inl room ↦
      let at : o.str_ptr ≡ str + o.written = h.place in
      let in_room : o.written < size = ground arith in
      rw (room, at)
        (terminated-Formats m str size ys o o.written h in_room h.short
          (λ lt. omega (arith, h.short, h.whole lt)))
  | inr full ↦
      let e : o.written ≡ size = ground (arith, h.within) in
      elim (Bool-cases (ltb 0 size)) [
        | inl some_room ↦
            let last : str + size - 1 ≡ str + (size - 1) = ground arith in
            rw (full, some_room, last)
              (terminated-Formats m str size ys o (size - 1) h (ground arith)
                (omega (arith, h.short)) (λ lt. absurd (omega arith)))
        | inr no_room ↦
            let nothing : size ≡ 0 = ground arith in
            rw (full, no_room)
              (record {
                after = o.bytes;
                written = o.written;
                ran = refl;
                within = h.within;
                whole = λ lt. absurd (omega arith);
                content = λ i lt lt'. absurd (omega arith);
                ended = λ lt. absurd (omega arith);
                cut = λ pos long. absurd (omega arith);
                outside = h.outside;
              })
      ]
]

-- Into a buffer below 2^63 bytes, `vsnprintf` of a format and arguments that stand for a text returns, and leaves of
-- the text what fits beside a terminator; it writes nothing outside the buffer.
pub vsnprintf-Formats :
    (m : Bytes) (str size : ℕ) (num_buf : Bytes) (format : List ℕ) (args : List Arg) (ys : List ℕ)
    → size < 2 ^ 63
    → Expands format args ys
    → Formats m str size ys (vsnprintf m str size num_buf format args)
unfolding vsnprintf
vsnprintf-Formats m str size num_buf format args ys small e =
    let start : Output = record { bytes = m; str_ptr = str; written = 0 } in
    let run = format_loop-Runs m str size small num_buf format args ys [] start e (record {
      place = omega arith;
      within = omega arith;
      short = omega arith;
      whole = λ lt. omega arith;
      content = λ i lt lt'. absurd (omega arith);
      outside = λ a out. refl;
    }) in
    subst (λ r. Formats m str size ys (finish str size r)) (sym run.ran)
      (finish-Formats m str size ys run.after run.holds)
