-- ===== src/Strings/Digits.antt =====
-- `itoa` of kern/lib/lib.c: the digits that it writes, their order, and how many there are.
use native.Mathlib.Nat.{pow-zero, pow-suc, div-lt_iff_lt-mul}
use astral_os.Common.{
  true, false, ℕ, zero, suc, ◌+◌, ◌-◌, ◌*◌, ◌/◌, ◌%◌, ◌^◌, ◌≤◌, ◌<◌, ◌≡◌, ◌⊎◌, inl, inr, refl, sym,
  ap, subst, ◌∙◌, arith, Bool, false, Bool-cases, Option, some, if◌then◌else◌, List, [], ◌∷◌, ◌++◌,
  length, length-append, get_or, get_or-append_left, get_or-append_right, ltb, ◌==◌, ==_ne, ==_refl,
  ==_iff, Bytes, store,
}
use astral_os.Strings.Itoa.{digit_char, digits_loop, reverse_loop}

-- The characters of the digits, and the digit `d` of a number: of a negative one, the character that
-- lies `d` below `0`.
abbrev pub digit_characters : List ℕ
digit_characters =
    b'0' ∷ b'1' ∷ b'2' ∷ b'3' ∷ b'4' ∷ b'5' ∷ b'6' ∷ b'7' ∷ b'8' ∷ b'9' ∷ b'a' ∷ b'b' ∷ b'c' ∷ b'd'
    ∷ b'e' ∷ b'f' ∷ []

abbrev pub digit : (is_minus : Bool) → ℕ → ℕ
digit is_minus d = if is_minus then 48 - d else get_or digit_characters d 0

-- The characters from the digit `k` on are those of `digit_char`.
abbrev Shown : List ℕ → (k : ℕ) → Type 0
Shown [] k = Unit
Shown (x ∷ xs) k = (digit_char false k ≡ x) × Shown xs (suc k)

Shown-get_or :
    (xs : List ℕ) (k d : ℕ) → Shown xs k → d < length xs → digit_char false (k + d) ≡ get_or xs d 0
Shown-get_or [] k d shown lt = absurd (omega arith)
Shown-get_or (x ∷ xs) k zero (here, later) lt =
    let first : k + 0 ≡ k = omega arith in ap (digit_char false) first ∙ here
Shown-get_or (x ∷ xs) k (suc d) (here, later) lt =
    let next : k + suc d ≡ suc k + d = omega arith in
    ap (digit_char false) next ∙ Shown-get_or xs (suc k) d later (omega arith)

digit_characters-Shown : Shown digit_characters 0
digit_characters-Shown = (
  refl,
  (
    refl,
    (
      refl,
      (
        refl,
        (
          refl,
          (
            refl,
            (refl, (refl, (refl, (refl, (refl, (refl, (refl, (refl, (refl, (refl, tt)))))))))),
          ),
        ),
      ),
    ),
  ),
)

pub digit_char-digit : (is_minus : Bool) (d : ℕ) → d < 16 → digit_char is_minus d ≡ digit is_minus d
digit_char-digit true d h = refl
digit_char-digit false d h =
    let same : 0 + d ≡ d = omega arith in
    ap (digit_char false) (sym same)
    ∙ Shown-get_or digit_characters 0 d digit_characters-Shown (omega arith)

-- The digits of a number, the highest first.
unfoldable pub numeral : (is_minus : Bool) → (base fuel num : ℕ) → List ℕ
numeral is_minus base zero num = []
numeral is_minus base (suc fuel) num =
    let rest = numeral is_minus base fuel (num / base) in
    if num == 0 then [] else rest ++ (digit is_minus (num % base) ∷ [])

-- What the loop over the digits leaves: as many digits as the number has, the lowest first.
pub record Digits (is_minus : Bool) (base : ℕ) (m : Bytes) (ptr num fuel : ℕ)
    (r : Option (Bytes × ℕ)) : Type 0 where
  pub after : Bytes
  pub count : ℕ
  pub ran : r ≡ some (after, ptr + count)
  pub few : count ≤ fuel
  pub size : count ≡ length (numeral is_minus base fuel num)
  pub digits :
      (i : ℕ)
      → i < count
      → after (ptr + i) ≡ get_or (numeral is_minus base fuel num) (count - 1 - i) 0
  pub before : (a : ℕ) → a < ptr → after a ≡ m a

pub numeral-zero :
    (is_minus : Bool) (base fuel num : ℕ) → num ≡ 0 → numeral is_minus base fuel num ≡ []
unfolding numeral
numeral-zero is_minus base zero num nothing = refl
numeral-zero is_minus base (suc fuel) num nothing = rw nothing refl

-- Without a digit left nothing is written.
Digits-none :
    (fuel : ℕ) (is_minus : Bool) (base : ℕ) (m : Bytes) (ptr num : ℕ)
    → num ≡ 0
    → digits_loop fuel is_minus base m ptr num ≡ some (m, ptr)
    → Digits is_minus base m ptr num fuel (digits_loop fuel is_minus base m ptr num)
Digits-none fuel is_minus base m ptr num nothing ran = record {
  after = m;
  count = 0;
  ran = ran ∙ ap (λ p. some (m, p)) (omega arith);
  few = omega arith;
  size = sym (ap length (numeral-zero is_minus base fuel num nothing));
  digits = λ i lt. absurd (omega arith);
  before = λ a lt. refl;
}

-- A digit is written, and then those of the quotient.
Digits-more :
    (fuel : ℕ) (is_minus : Bool) (base : ℕ) (m : Bytes) (ptr num : ℕ) (r r' : Option (Bytes × ℕ))
    → digit_char is_minus (num % base) ≡ digit is_minus (num % base)
    → (num == 0) ≡ false
    → r' ≡ r
    → Digits is_minus base
        (store m ptr (digit_char is_minus (num % base)))
        (ptr + 1)
        (num / base)
        fuel
        r
    → Digits is_minus base m ptr num (suc fuel) r'
unfolding numeral
Digits-more fuel is_minus base m ptr num r r' shown more same rest =
    let c = rest.count in
    let xs = numeral is_minus base fuel (num / base) in
    let d = digit is_minus (num % base) in
    let whole : numeral is_minus base (suc fuel) num ≡ xs ++ (d ∷ []) = rw more refl in
    let long = length-append xs (d ∷ []) in
    record {
      after = rest.after;
      count = suc c;
      ran = same ∙ rest.ran ∙ ap (λ p. some (rest.after, p)) (omega arith);
      few = omega (arith, rest.few);
      size = omega (arith, rest.size, long, ap length whole);
      digits = λ i lt.
          elim i
              as (λ i.
                i < suc c
                → rest.after (ptr + i)
                  ≡ get_or (numeral is_minus base (suc fuel) num) (suc c - 1 - i) 0) [
                    | zero ↦ λ _.
                        let here : ptr + 0 ≡ ptr = omega arith in
                        let last : suc c - 1 - 0 ≡ length xs + 0 = omega (arith, rest.size) in
                        rw (here, whole, last)
                          (rest.before ptr (omega arith)
                            ∙ rw (==_refl ptr) shown
                            ∙ sym (get_or-append_right xs (d ∷ []) 0 0))
                    | suc i ↦ λ lt'.
                        let move : ptr + suc i ≡ ptr + 1 + i = omega arith in
                        let index : suc c - 1 - suc i ≡ c - 1 - i = omega arith in
                        rw (move, whole, index)
                          (rest.digits i (omega arith)
                            ∙ sym (
                                get_or-append_left xs (d ∷ []) (c - 1 - i) 0
                                  (omega (arith, rest.size))))
                  ]
            lt;
      before = λ a lt. rest.before a (omega arith) ∙ rw (==_ne a ptr (λ e. absurd (omega arith)));
    }

pub digits_loop-Digits :
    (fuel : ℕ) (is_minus : Bool) (base : ℕ) (m : Bytes) (ptr num : ℕ)
    → base ≤ 16
    → num < base ^ fuel
    → Digits is_minus base m ptr num fuel (digits_loop fuel is_minus base m ptr num)
unfolding digits_loop
digits_loop-Digits zero is_minus base m ptr num small h =
    let none_left : num ≡ 0 = omega (arith, pow-zero base) in
    Digits-none zero is_minus base m ptr num none_left (rw none_left)
digits_loop-Digits (suc fuel) is_minus base m ptr num small h = elim (Bool-cases (num == 0)) [
  | inl none_left ↦
      Digits-none (suc fuel) is_minus base m ptr num ((==_iff num 0).0 none_left) (rw none_left)
  | inr left ↦
      let bound : num < base ^ fuel * base = subst (λ x. num < x) (pow-suc base fuel) h in
      let real : 0 < base = elim (Bool-cases (base == 0)) [
        | inl no_base ↦
            absurd (omega (arith, ap (λ x. base ^ fuel * x) ((==_iff base 0).0 no_base)))
        | inr some_base ↦ ground arith
      ] in
      let less : num / base < base ^ fuel = (div-lt_iff_lt-mul real).1 bound in
      Digits-more fuel is_minus base m ptr num _ _
        (digit_char-digit is_minus (num % base) (omega arith)) left (rw left refl)
        (digits_loop-Digits fuel is_minus base (store m ptr (digit_char is_minus (num % base)))
          (ptr + 1) (num / base) small less)
]

-- The loop that turns the bytes round.
pub reverse_loop-out :
    (fuel : ℕ) (m : Bytes) (lo hi a : ℕ) → (a < lo) ⊎ (hi < a) → reverse_loop fuel m lo hi a ≡ m a
unfolding reverse_loop
reverse_loop-out zero m lo hi a out = refl
reverse_loop-out (suc fuel) m lo hi a out = elim (Bool-cases (ltb lo hi)) [
  | inl more ↦
      let swapped = store (store m hi (m lo)) lo (m hi) in
      let rest = reverse_loop-out fuel swapped (lo + 1) (hi - 1) a (ground arith) in
      let low : (a == lo) ≡ false = ground arith in
      let high : (a == hi) ≡ false = ground arith in rw more (rest ∙ rw (low, high) refl)
  | inr done ↦ rw done refl
]

pub reverse_loop-in :
    (fuel : ℕ) (m : Bytes) (lo hi i : ℕ)
    → hi ≤ lo + fuel
    → lo ≤ i
    → i ≤ hi
    → reverse_loop fuel m lo hi i ≡ m (lo + hi - i)
unfolding reverse_loop
reverse_loop-in zero m lo hi i h low high = ap m (omega arith)
reverse_loop-in (suc fuel) m lo hi i h low high = elim (Bool-cases (ltb lo hi)) [
  | inr done ↦ rw done (ap m (ground arith))
  | inl more ↦
      let swapped = store (store m hi (m lo)) lo (m hi) in
      rw more (elim (Bool-cases (i == lo)) [
        | inl first ↦
            let e : i ≡ lo = (==_iff i lo).0 first in
            let out = reverse_loop-out fuel swapped (lo + 1) (hi - 1) i (ground arith) in
            out ∙ rw first (ap m (omega arith))
        | inr later ↦ elim (Bool-cases (i == hi)) [
          | inl last ↦
              let e : i ≡ hi = (==_iff i hi).0 last in
              let out = reverse_loop-out fuel swapped (lo + 1) (hi - 1) i (ground arith) in
              out ∙ rw (later, last) (ap m (omega arith))
          | inr inner ↦
              let rest =
                reverse_loop-in fuel swapped (lo + 1) (hi - 1) i (ground arith) (ground arith)
                  (ground arith) in
              let mirror : lo + 1 + (hi - 1) - i ≡ lo + hi - i = ground arith in
              let low' : (lo + hi - i == lo) ≡ false = ground arith in
              let high' : (lo + hi - i == hi) ≡ false = ground arith in
              rest ∙ rw (mirror, low', high') refl
        ]
      ])
]
