-- ===== src/Fs/Bits.antt =====
-- One bit of a byte: the arithmetic of the bitmaps of kern/fs/fs.c.
use native.Mathlib.Nat.{div-div-eq-div-mul, pow-succ'}
use astral_os.Common.{ℕ, zero, suc, ◌+◌, ◌/◌, ◌%◌, ◌^◌, ◌≡◌, ◌≢◌, refl, sym, ap, ◌∙◌, arith}

half_pow : (b c : ℕ) → b / 2 ^ suc c ≡ b / 2 / 2 ^ c
half_pow b c = ap (λ x. b / x) (pow-succ' 2 c) ∙ sym (div-div-eq-div-mul b 2 (2 ^ c))

-- Half of the sum.
half_sum : (a b : ℕ) → (b + 2 ^ suc a) / 2 ≡ b / 2 + 2 ^ a
half_sum a b = omega (arith, pow-succ' 2 a)

sum_pow : (a b c : ℕ) → (b + 2 ^ suc a) / 2 ^ suc c ≡ (b / 2 + 2 ^ a) / 2 ^ c
sum_pow a b c = half_pow (b + 2 ^ suc a) c ∙ ap (λ x. x / 2 ^ c) (half_sum a b)

low_bit : (b : ℕ) → b / 2 ^ 0 ≡ b
low_bit b = omega arith

-- Adding the power of a bit that is 0 sets it, and leaves the others.
pub add_bit_self : (a b : ℕ) → b / 2 ^ a % 2 ≡ 0 → (b + 2 ^ a) / 2 ^ a % 2 ≡ 1
add_bit_self zero b h = omega arith
add_bit_self (suc a) b h =
    let half : b / 2 / 2 ^ a % 2 ≡ 0 = ap (λ x. x % 2) (sym (half_pow b a)) ∙ h in
    ap (λ x. x % 2) (sum_pow a b a) ∙ add_bit_self a (b / 2) half

pub add_bit_ne : (a c b : ℕ) → a ≢ c → b / 2 ^ a % 2 ≡ 0 → (b + 2 ^ a) / 2 ^ c % 2 ≡ b / 2 ^ c % 2
add_bit_ne zero zero b ne h = absurd (ne refl)
add_bit_ne zero (suc c) b ne h =
    let same : (b + 1) / 2 ≡ b / 2 = omega arith in
    ap (λ x. x % 2) (half_pow (b + 1) c ∙ ap (λ x. x / 2 ^ c) same ∙ sym (half_pow b c))
add_bit_ne (suc a) zero b ne h = omega (arith, pow-succ' 2 a)
add_bit_ne (suc a) (suc c) b ne h =
    let half : b / 2 / 2 ^ a % 2 ≡ 0 = ap (λ x. x % 2) (sym (half_pow b a)) ∙ h in
    ap (λ x. x % 2) (sum_pow a b c)
    ∙ add_bit_ne a c (b / 2) (λ e. ne (ap suc e)) half
    ∙ ap (λ x. x % 2) (sym (half_pow b c))
