-- ===== src/Strings/Expanded.antt =====
-- `vsnprintf` of kern/lib/lib.c: the text that a format stands for, and the steps of the loop over the format.
use astral_os.Common.{
  ℕ, zero, suc, ◌+◌, ◌-◌, ◌/◌, ◌%◌, ◌^◌, ◌≤◌, ◌<◌, ◌≡◌, ◌≢◌, ◌⊎◌, inl, inr, refl, ap, ◌∙◌, arith,
  Bool, true, false, Bool-cases, Option, some, List, [], ◌∷◌, ◌++◌, length, length-append, get_or,
  if◌then◌else◌, ltb, ◌==◌, ==_ne, Bytes,
}
use astral_os.Strings.Itoa.{itoa_rounds}
use astral_os.Strings.Digits.{digit, numeral}
use astral_os.Strings.Terminated.{IsString, IsName}
use astral_os.Strings.Printed.{itoa_text}
use astral_os.Strings.Format.{Arg, text, int, word, character, Output, put, directive, format_loop}
use astral_os.Strings.Room.{Holds}

-- The text of a `uint64_t` under `%x`.
abbrev pub word_text : ℕ → List ℕ
word_text v = if ltb v (2 ^ 63) then itoa_text false v 16 else itoa_text true (2 ^ 64 - v) 16

-- The text that a format and its arguments stand for.
pub data Expands : List ℕ → List Arg → List ℕ → Type 0 where
  done : {args : List Arg} → Expands [] args []
  plain :
      {format : List ℕ} {args : List Arg} {ys : List ℕ} (c : ℕ)
      → c ≢ b'%'
      → Expands format args ys
      → Expands (c ∷ format) args (c ∷ ys)
  text_of :
      {format : List ℕ} {args : List Arg} {ys : List ℕ} (xs : List ℕ)
      → IsName xs
      → length xs < 2 ^ 63
      → Expands format args ys
      → Expands (b'%' ∷ b's' ∷ format) (text xs ∷ args) (xs ++ ys)
  decimal :
      {format : List ℕ} {args : List Arg} {ys : List ℕ} (letter : ℕ) (is_minus : Bool)
      (magnitude : ℕ)
      → (letter ≡ b'd') ⊎ (letter ≡ b'i')
      → magnitude ≤ 2 ^ 31
      → Expands format args ys
      → Expands
          (b'%' ∷ letter ∷ format)
          (int is_minus magnitude ∷ args)
          (itoa_text is_minus magnitude 10 ++ ys)
  hexadecimal :
      {format : List ℕ} {args : List Arg} {ys : List ℕ} (letter v : ℕ)
      → (letter ≡ b'x') ⊎ (letter ≡ b'p')
      → v < 2 ^ 64
      → Expands format args ys
      → Expands (b'%' ∷ letter ∷ format) (word v ∷ args) (word_text v ++ ys)
  one :
      {format : List ℕ} {args : List Arg} {ys : List ℕ} (c : ℕ)
      → Expands format args ys
      → Expands (b'%' ∷ b'c' ∷ format) (character c ∷ args) (c ∷ ys)
  percent :
      {format : List ℕ} {args : List Arg} {ys : List ℕ}
      → Expands format args ys
      → Expands (b'%' ∷ b'%' ∷ format) args (b'%' ∷ ys)

-- A piece of text from a terminated string in a buffer.
pub IsString-content :
    (m : Bytes) (p : ℕ) (xs : List ℕ)
    → IsString m p xs
    → (i : ℕ) → i < length xs
    → m (p + i) ≡ get_or xs i 0
IsString-content m p [] str i lt = absurd (omega arith)
IsString-content m p (x ∷ xs) (e, ne, str) zero lt = ap m (omega arith) ∙ e
IsString-content m p (x ∷ xs) (e, ne, str) (suc i) lt =
    ap m (omega arith) ∙ IsString-content m (p + 1) xs str i (omega arith)

numeral-few : (is_minus : Bool) (base fuel num : ℕ) → length (numeral is_minus base fuel num) ≤ fuel
unfolding numeral
numeral-few is_minus base zero num = omega arith
numeral-few is_minus base (suc fuel) num =
    let rest = numeral is_minus base fuel (num / base) in
    let few = numeral-few is_minus base fuel (num / base) in
    elim (Bool-cases (num == 0)) [
      | inl nothing ↦ rw nothing (omega arith)
      | inr more ↦
          rw more (omega (arith, length-append rest (digit is_minus (num % base) ∷ []), few))
    ]

pub itoa_text-short :
    (is_minus : Bool) (magnitude base : ℕ) → length (itoa_text is_minus magnitude base) < 32
itoa_text-short true magnitude base =
    let a = numeral-few false base itoa_rounds magnitude in
    let b = numeral-few true base itoa_rounds magnitude in ground arith
itoa_text-short false magnitude base =
    let a = numeral-few false base itoa_rounds magnitude in ground arith

-- What a run of a part of the code leaves.
pub record Runs (m : Bytes) (str size : ℕ) (xs : List ℕ) (r : Option Output) : Type 0 where
  pub after : Output
  pub ran : r ≡ some after
  pub holds : Holds m str size xs after

module _ (size : ℕ) (num_buf : Bytes) where
  pub full_step :
      (format : List ℕ) (args : List Arg) (o : Output)
      → ltb o.written size ≡ false
      → format_loop size num_buf format args o ≡ some o
  unfolding format_loop
  full_step [] args o full = refl
  full_step (c ∷ []) args o full = rw full refl
  full_step (c ∷ d ∷ format) args o full = rw full refl

  pub empty_step : (args : List Arg) (o : Output) → format_loop size num_buf [] args o ≡ some o
  unfolding format_loop
  empty_step args o = refl

  pub plain_step :
      (c : ℕ) (format : List ℕ) (args : List Arg) (o : Output)
      → c ≢ b'%'
      → ltb o.written size ≡ true
      → format_loop size num_buf (c ∷ format) args o
        ≡ format_loop size num_buf format args (put o c)
  unfolding format_loop
  plain_step c [] args o ne room = rw (room, ==_ne c b'%' ne) refl
  plain_step c (d ∷ format) args o ne room = rw (room, ==_ne c b'%' ne) refl

  pub directive_step :
      (d : ℕ) (format : List ℕ) (args args' : List Arg) (o o' : Output)
      → ltb o.written size ≡ true
      → directive size num_buf d args o ≡ some (o', args')
      → format_loop size num_buf (b'%' ∷ d ∷ format) args o
        ≡ format_loop size num_buf format args' o'
  unfolding format_loop
  directive_step d format args args' o o' room made = rw (room, made) refl
