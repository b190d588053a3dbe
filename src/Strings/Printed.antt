-- ===== src/Strings/Printed.antt =====
-- `itoa` of kern/lib/lib.c: the string that it leaves in its buffer.
use astral_os.Common.{
  ℕ, zero, suc, ◌+◌, ◌-◌, ◌/◌, ◌%◌, ◌^◌, ◌≤◌, ◌<◌, ◌≡◌, ◌≢◌, inl, inr, refl, ap, ◌∙◌, arith, Bool,
  true, false, ◌&&◌, Bool-cases, Option, some, List, [], ◌∷◌, length, length-append, get_or,
  if◌then◌else◌, ◌==◌, ==_ne, ==_refl, Bytes, store,
}
use astral_os.Strings.Terminated.{IsString, IsName, IsName-IsString, IsName-append}
use astral_os.Strings.Itoa.{digits_loop, reverse_loop, finish_itoa, itoa_rounds, itoa}
use astral_os.Strings.Digits.{
  digit, digit_char-digit, numeral, digits_loop-Digits, reverse_loop-out, reverse_loop-in,
}

-- What `itoa` writes: the character `0` for 0; in base 10 the digits of the magnitude, behind a minus sign for a
-- negative number; in another base the digits, each of them the character that lies `d` below `0` for a negative
-- number's digit `d`.
abbrev pub itoa_text : (is_minus : Bool) → (magnitude base : ℕ) → List ℕ
itoa_text is_minus magnitude base =
    let is_negative = is_minus && (base == 10) in
    let digits = numeral (if is_negative then false else is_minus) base itoa_rounds magnitude in
    if magnitude == 0 then b'0' ∷ [] else if is_negative then b'-' ∷ digits else digits

digit-nonzero : (is_minus : Bool) (d : ℕ) → d < 16 → digit is_minus d ≢ 0
digit-nonzero true d h e = absurd (omega arith)
digit-nonzero false d h e = absurd (ground (arith, digit_char-digit false d h ∙ e))

pub numeral-IsName :
    (is_minus : Bool) (base fuel num : ℕ)
    → 0 < base
    → base ≤ 16
    → IsName (numeral is_minus base fuel num)
unfolding numeral
numeral-IsName is_minus base zero num pos small = tt
numeral-IsName is_minus base (suc fuel) num pos small = elim (Bool-cases (num == 0)) [
  | inl nothing ↦ rw nothing tt
  | inr more ↦ rw more (
      IsName-append (numeral is_minus base fuel (num / base)) (digit is_minus (num % base) ∷ [])
        (numeral-IsName is_minus base fuel (num / base) pos small)
        (digit-nonzero is_minus (num % base) (omega arith), tt))
]

-- What `finish_itoa` makes of the digits.
plain :
    (m after : Bytes) (xs : List ℕ) (count : ℕ)
    → count ≡ length xs
    → 0 < count
    → IsName xs
    → ((i : ℕ) → i < count → after i ≡ get_or xs (count - 1 - i) 0)
    → IsString (reverse_loop count (store after count 0) 0 (count - 1)) 0 xs
plain m after xs count size pos name digits =
    let ended = store after count 0 in
    IsName-IsString (reverse_loop count ended 0 (count - 1)) 0 xs name
      (λ i lt.
        let turned =
          reverse_loop-in count ended 0 (count - 1) i (omega arith) (omega arith) (omega arith) in
        let mirror : 0 + (count - 1) - i ≡ count - 1 - i = omega arith in
        let inside : (count - 1 - i == count) ≡ false =
          ==_ne (count - 1 - i) count (λ e. absurd (omega arith)) in
        let back : count - 1 - (count - 1 - i) ≡ i = omega arith in
        ap (reverse_loop count ended 0 (count - 1)) (omega arith)
        ∙ turned
        ∙ rw (mirror, inside) (digits (count - 1 - i) (omega arith))
        ∙ ap (λ k. get_or xs k 0) back)
      (let here : 0 + length xs ≡ count = omega arith in
        rw here (
          reverse_loop-out count ended 0 (count - 1) count (inr (omega arith))
          ∙ rw (==_refl count)))

signed :
    (m after : Bytes) (xs : List ℕ) (count : ℕ)
    → count ≡ length xs
    → IsName xs
    → ((i : ℕ) → i < count → after i ≡ get_or xs (count - 1 - i) 0)
    → IsString
        (reverse_loop count (store (store after count b'-') (count + 1) 0) 0 count)
        0
        (b'-' ∷ xs)
signed m after xs count size name digits =
    let ended = store (store after count b'-') (count + 1) 0 in
    let sign : (count == count + 1) ≡ false = ==_ne count (count + 1) (λ e. absurd (omega arith)) in
    let at_sign : ended count ≡ b'-' = rw (sign, ==_refl count) in
    IsName-IsString (reverse_loop count ended 0 count) 0 (b'-' ∷ xs)
      ((λ e. absurd (omega arith)), name)
      (λ i lt.
        ap (reverse_loop count ended 0 count) (omega arith)
        ∙ reverse_loop-in count ended 0 count i (omega arith) (omega arith) (omega arith)
        ∙ elim i as (λ i. i < suc (length xs) → ended (0 + count - i) ≡ get_or (b'-' ∷ xs) i 0) [
          | zero ↦ λ _. let whole : 0 + count - 0 ≡ count = omega arith in ap ended whole ∙ at_sign
          | suc i ↦ λ lt'.
              let mirror : 0 + count - suc i ≡ count - 1 - i = omega arith in
              let a : (count - 1 - i == count + 1) ≡ false =
                ==_ne (count - 1 - i) (count + 1) (λ e. absurd (omega arith)) in
              let b : (count - 1 - i == count) ≡ false =
                ==_ne (count - 1 - i) count (λ e. absurd (omega arith)) in
              let back : count - 1 - (count - 1 - i) ≡ i = omega arith in
              rw (mirror, a, b) (digits (count - 1 - i) (omega arith))
              ∙ ap (λ k. get_or xs k 0) back
        ]
            lt)
      (let here : 0 + suc (length xs) ≡ count + 1 = omega arith in
        rw here (
          reverse_loop-out count ended 0 count (count + 1) (inr (omega arith))
          ∙ rw (==_refl (count + 1))))

-- What `itoa` returns is the text of the number.
abbrev pub Prints : Option Bytes → List ℕ → Type 0
Prints r xs = (after : Bytes) × (r ≡ some after) × IsString after 0 xs

pub numeral-some :
    (is_minus : Bool) (base num : ℕ)
    → (num == 0) ≡ false
    → 0 < length (numeral is_minus base itoa_rounds num)
unfolding numeral
numeral-some is_minus base num more =
    let xs = numeral is_minus base 19 (num / base) in
    rw more (omega (arith, length-append xs (digit is_minus (num % base) ∷ [])))

pub itoa_lem :
    (is_minus : Bool) (magnitude : ℕ) (str : Bytes) (base : ℕ)
    → 0 < base
    → base ≤ 16
    → magnitude < base ^ itoa_rounds
    → Prints (itoa is_minus magnitude str base) (itoa_text is_minus magnitude base)
unfolding itoa
itoa_lem is_minus magnitude str base pos small fits = elim (Bool-cases (magnitude == 0)) [
  | inl nothing ↦ rw nothing (_, refl, (refl, (λ e. absurd (omega arith)), refl))
  | inr more ↦ elim (Bool-cases (is_minus && (base == 10))) [
    | inl negative ↦
        let d = digits_loop-Digits itoa_rounds false base str 0 magnitude small fits in
        let xs = numeral false base itoa_rounds magnitude in
        let name = numeral-IsName false base itoa_rounds magnitude pos small in
        let ran : digits_loop itoa_rounds false base str 0 magnitude ≡ some (d.after, d.count) =
          d.ran ∙ ap (λ p. some (d.after, p)) (omega arith) in
        rw (more, negative)
          (
            _,
            ap (finish_itoa true) ran,
            signed str d.after xs d.count d.size name
                (λ i lt. ap d.after (omega arith) ∙ d.digits i lt),
          )
    | inr positive ↦
        let d = digits_loop-Digits itoa_rounds is_minus base str 0 magnitude small fits in
        let xs = numeral is_minus base itoa_rounds magnitude in
        let name = numeral-IsName is_minus base itoa_rounds magnitude pos small in
        let ran : digits_loop itoa_rounds is_minus base str 0 magnitude ≡ some (d.after, d.count) =
          d.ran ∙ ap (λ p. some (d.after, p)) (omega arith) in
        let some_digit = numeral-some is_minus base magnitude more in
        rw (more, positive)
          (
            _,
            ap (finish_itoa false) ran,
            plain str d.after xs d.count d.size (omega (arith, d.size)) name
                (λ i lt. ap d.after (omega arith) ∙ d.digits i lt),
          )
  ]
]
