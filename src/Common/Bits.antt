-- ===== src/Common/Bits.antt =====
-- `bit_and` and `bit_or` one binary digit at a time.
use Prim.Native.Nat.{
  ℕ, zero, suc, ◌+◌, ◌-◌, ◌*◌, ◌/◌, ◌%◌, ◌≤◌, ◌^◌, ◌<◌, min, max, bit_and, bit_or, digits,
  bit_and-bitwise, bit_or-bitwise,
}
use mathlib.Core.Path.{◌≡◌, refl, ap, ◌∙◌}
use native.Mathlib.Nat.{pow-succ', mul_left_comm}
use native.Mathlib.Omega.{arith}

module _ (z : ℕ → ℕ) (f : ℕ → ℕ → ℕ) where
  -- As much fuel as the first number is enough.
  digits-fuel : (n m a b : ℕ) → a ≤ n → a ≤ m → digits z f n a b ≡ digits z f m a b
  digits-fuel zero zero a b p q = refl
  digits-fuel zero (suc m) zero b p q = refl
  digits-fuel zero (suc m) (suc a) b p q = absurd (omega arith)
  digits-fuel (suc n) zero zero b p q = refl
  digits-fuel (suc n) zero (suc a) b p q = absurd (omega arith)
  digits-fuel (suc n) (suc m) zero b p q = refl
  digits-fuel (suc n) (suc m) (suc a) b p q =
      let half = digits-fuel n m (suc a / 2) (b / 2) (omega arith) (omega arith) in omega arith

  -- The value for a first number that is not 0, in terms of the halves.
  digits-half :
      (a b : ℕ)
      → digits z f (suc a) (suc a) b
        ≡ digits z f (suc a / 2) (suc a / 2) (b / 2) * 2 + f (suc a % 2) (b % 2)
  digits-half a b =
      let half = digits-fuel a (suc a / 2) (suc a / 2) (b / 2) (omega arith) (omega arith) in
      omega arith

zero_and : (b : ℕ) → bit_and 0 b ≡ 0
zero_and b = bit_and-bitwise 0 b

pub bit_and-half : (a b : ℕ) → bit_and a b ≡ bit_and (a / 2) (b / 2) * 2 + min (a % 2) (b % 2)
bit_and-half zero b = omega (arith, zero_and b, zero_and (b / 2))
bit_and-half (suc a) b = omega (
  arith,
  digits-half (λ _. 0) min a b,
  bit_and-bitwise (suc a) b,
  bit_and-bitwise (suc a / 2) (b / 2),
)

and_zero_below : (n a : ℕ) → a ≤ n → bit_and a 0 ≡ 0
and_zero_below zero a p = let none : a ≡ 0 = omega arith in rw none
and_zero_below (suc n) a p = omega (arith, bit_and-half a 0, and_zero_below n (a / 2) (omega arith))

pub bit_and-zero : (a : ℕ) → bit_and a 0 ≡ 0
bit_and-zero a = and_zero_below a a (omega arith)

pub zero_or : (b : ℕ) → bit_or 0 b ≡ b
zero_or b = bit_or-bitwise 0 b

pub bit_or-half : (a b : ℕ) → bit_or a b ≡ bit_or (a / 2) (b / 2) * 2 + max (a % 2) (b % 2)
bit_or-half zero b = omega (arith, zero_or b, zero_or (b / 2))
bit_or-half (suc a) b = omega (
  arith,
  digits-half (λ b. b) max a b,
  bit_or-bitwise (suc a) b,
  bit_or-bitwise (suc a / 2) (b / 2),
)

double : (x k : ℕ) → x * 2 ^ suc k ≡ 2 * (x * 2 ^ k)
double x k = ap (λ p. x * p) (pow-succ' 2 k) ∙ mul_left_comm x 2 (2 ^ k)

-- An operation on each binary digit, of numbers that are written as a part above the digit `k` and a part
-- below it.
module _ (op f : ℕ → ℕ → ℕ) (op-zero : op 0 0 ≡ 0)
    (op-half : (a b : ℕ) → op a b ≡ op (a / 2) (b / 2) * 2 + f (a % 2) (b % 2)) where
  op-parts :
      (k x y c d : ℕ)
      → c < 2 ^ k
      → d < 2 ^ k
      → op (x * 2 ^ k + c) (y * 2 ^ k + d) ≡ op x y * 2 ^ k + op c d
  op-parts zero x y c d p q =
      let none : c ≡ 0 = omega arith in
      let none' : d ≡ 0 = omega arith in
      let same : x * 2 ^ 0 + 0 ≡ x = omega arith in
      let same' : y * 2 ^ 0 + 0 ≡ y = omega arith in
      rw (none, none', same, same') (omega (arith, op-zero))
  op-parts (suc k) x y c d p q =
      let top = double x k in
      let top' = double y k in
      let all = double (op x y) k in
      let two = pow-succ' 2 k in
      let half : (x * 2 ^ suc k + c) / 2 ≡ x * 2 ^ k + c / 2 = omega arith in
      let half' : (y * 2 ^ suc k + d) / 2 ≡ y * 2 ^ k + d / 2 = omega arith in
      let low : (x * 2 ^ suc k + c) % 2 ≡ c % 2 = omega arith in
      let low' : (y * 2 ^ suc k + d) % 2 ≡ d % 2 = omega arith in
      let rest = op-parts k x y (c / 2) (d / 2) (omega arith) (omega arith) in
      let whole = op-half (x * 2 ^ suc k + c) (y * 2 ^ suc k + d) in
      let small = op-half c d in whole ∙ rw (half, half', low, low', rest) (omega arith)

pub bit_or-parts :
    (k x y c d : ℕ)
    → c < 2 ^ k
    → d < 2 ^ k
    → bit_or (x * 2 ^ k + c) (y * 2 ^ k + d) ≡ bit_or x y * 2 ^ k + bit_or c d
bit_or-parts = op-parts bit_or max (zero_or 0) bit_or-half

pub bit_and-parts :
    (k x y c d : ℕ)
    → c < 2 ^ k
    → d < 2 ^ k
    → bit_and (x * 2 ^ k + c) (y * 2 ^ k + d) ≡ bit_and x y * 2 ^ k + bit_and c d
bit_and-parts = op-parts bit_and min (zero_and 0) bit_and-half

pub bit_or-zero : (a : ℕ) → bit_or a 0 ≡ a
bit_or-zero a = or_below a a (omega arith)
  where
    or_below : (n a : ℕ) → a ≤ n → bit_or a 0 ≡ a
    or_below zero a p = let none : a ≡ 0 = omega arith in rw none (zero_or 0)
    or_below (suc n) a p = omega (arith, bit_or-half a 0, or_below n (a / 2) (omega arith))

pub pow-pos : (k : ℕ) → 0 < 2 ^ k
pow-pos zero = omega arith
pow-pos (suc k) = omega (arith, pow-pos k, pow-succ' 2 k)

-- A mask of low digits.
pub and_mask : (n a : ℕ) → a < 2 ^ n → bit_and a (2 ^ n - 1) ≡ a
and_mask zero a h = let none : a ≡ 0 = omega arith in rw none (zero_and 0)
and_mask (suc n) a h =
    let two = pow-succ' 2 n in
    let some_power : 0 < 2 ^ n = pow-pos n in
    let half : (2 ^ suc n - 1) / 2 ≡ 2 ^ n - 1 = omega arith in
    let low : (2 ^ suc n - 1) % 2 ≡ 1 = omega arith in
    bit_and-half a (2 ^ suc n - 1) ∙ rw (half, low, and_mask n (a / 2) (omega arith)) (omega arith)

-- The byte of a number from the digit `k` on.
pub and_byte :
    (k hi byte lo : ℕ)
    → byte < 256
    → lo < 2 ^ k
    → bit_and ((hi * 2 ^ 8 + byte) * 2 ^ k + lo) (255 * 2 ^ k) ≡ byte * 2 ^ k
and_byte k hi byte lo small low =
    let some_power : 0 < 2 ^ k = pow-pos k in
    let shifted : 255 * 2 ^ k ≡ 255 * 2 ^ k + 0 = omega arith in
    let parts = bit_and-parts k (hi * 2 ^ 8 + byte) 255 lo 0 low some_power in
    let inner = bit_and-parts 8 hi 0 byte 255 small (omega arith) in
    let mask = and_mask 8 byte small in
    let one_byte : bit_and (hi * 2 ^ 8 + byte) 255 ≡ byte =
      inner ∙ omega (arith, bit_and-zero hi, mask) in
    ap (bit_and ((hi * 2 ^ 8 + byte) * 2 ^ k + lo)) shifted
    ∙ parts
    ∙ rw (one_byte, bit_and-zero lo) (omega arith)

-- `bit_or` of a number above the digit `k` and one below it.
pub or_low : (k x lo : ℕ) → lo < 2 ^ k → bit_or (x * 2 ^ k) lo ≡ x * 2 ^ k + lo
or_low k x lo low =
    let some_power : 0 < 2 ^ k = pow-pos k in
    let whole : x * 2 ^ k ≡ x * 2 ^ k + 0 = omega arith in
    let none : lo ≡ 0 * 2 ^ k + lo = omega arith in
    ap (λ y. bit_or y lo) whole
    ∙ ap (bit_or (x * 2 ^ k + 0)) none
    ∙ bit_or-parts k x 0 0 lo some_power low
    ∙ rw (bit_or-zero x, zero_or lo) refl
