-- ===== src/Dtb/Swap.antt =====
-- `bswap32` and `bswap64` of kern/boot/dtb.c: the bytes of a number in the other order.
use Prim.Native.Nat.{bit_and, bit_or}
use astral_os.Common.{
  ℕ, ◌+◌, ◌*◌, ◌/◌, ◌^◌, ◌<◌, ◌≡◌, refl, sym, ap, subst, ◌∙◌, arith, u32, u64, Bytes, get32, get64,
}
use native.Mathlib.Nat.{mul_left_comm}
use astral_os.Common.Bits.{and_byte, or_low, pow-pos}
use astral_os.Dtb.{bswap32, bswap64}

-- The number whose bytes are those at `p`, the highest first.
abbrev pub big_endian32 : Bytes → ℕ → ℕ
big_endian32 m p = m p * 2 ^ 24 + m (p + 1) * 2 ^ 16 + m (p + 2) * 2 ^ 8 + m (p + 3)

abbrev pub big_endian64 : Bytes → ℕ → ℕ
big_endian64 m p = big_endian32 m p * 2 ^ 32 + big_endian32 m (p + 4)

-- A byte that a mask keeps, and a byte put below those there are.
kept :
    (k hi byte lo v : ℕ)
    → byte < 256
    → lo < 2 ^ k
    → v ≡ (hi * 2 ^ 8 + byte) * 2 ^ k + lo
    → bit_and v (255 * 2 ^ k) ≡ byte * 2 ^ k
kept k hi byte lo v small low e =
    ap (λ x. bit_and x (255 * 2 ^ k)) e ∙ and_byte k hi byte lo small low

-- The byte is put below those there are, from the digit `k'` on.
placed :
    (k k' x byte y z : ℕ)
    → byte < 256
    → 2 ^ k' ≡ 2 ^ 8 * 2 ^ k
    → y ≡ x * 2 ^ k'
    → z ≡ byte * 2 ^ k
    → bit_or y z ≡ (x * 2 ^ 8 + byte) * 2 ^ k
placed k k' x byte y z small wide e e' =
    let some_power = pow-pos k in
    let below : byte * 2 ^ k < 2 ^ k' = subst (λ w. byte * 2 ^ k < w) (sym wide) (grind arith) in
    let shifted : x * 2 ^ k' ≡ 2 ^ 8 * (x * 2 ^ k) =
      ap (λ w. x * w) wide ∙ mul_left_comm x (2 ^ 8) (2 ^ k) in
    rw (e, e') (or_low k' x (byte * 2 ^ k) below ∙ omega (arith, shifted))

bytes32 :
    (a b c d : ℕ)
    → a < 256
    → b < 256
    → c < 256
    → d < 256
    → bswap32 (a + 256 * b + 65536 * c + 16777216 * d) ≡ a * 2 ^ 24 + b * 2 ^ 16 + c * 2 ^ 8 + d
unfolding bswap32
bytes32 a b c d p q r s =
    let v = a + 256 * b + 65536 * c + 16777216 * d in
    let a' = kept 24 0 a 0 (u32 (v * 2 ^ 24)) p (omega arith) (omega arith) in
    let b' =
      placed 16 24 a b _ _ q refl a'
        (kept 16 c b (a * 2 ^ 8) (u32 (v * 2 ^ 8)) q (omega arith) (omega arith)) in
    let c' =
      placed 8 16 (a * 2 ^ 8 + b) c _ _ r refl b'
        (kept 8 d c b (v / 2 ^ 8) r (omega arith) (omega arith)) in
    placed 0 8 ((a * 2 ^ 8 + b) * 2 ^ 8 + c) d _ _ s refl c'
      (kept 0 0 d 0 (v / 2 ^ 24) s (omega arith) (omega arith))
    ∙ omega arith

bytes64 :
    (a b c d e f g h : ℕ)
    → a < 256
    → b < 256
    → c < 256
    → d < 256
    → e < 256
    → f < 256
    → g < 256
    → h < 256
    → bswap64
        (a + 256 * b + 65536 * c + 16777216 * d + 2 ^ 32 * (e + 256 * f + 65536 * g + 16777216 * h))
      ≡ (a * 2 ^ 24 + b * 2 ^ 16 + c * 2 ^ 8 + d) * 2 ^ 32
        + (e * 2 ^ 24 + f * 2 ^ 16 + g * 2 ^ 8 + h)
unfolding bswap64
bytes64 a b c d e f g h pa pb pc pd pe pf pg ph =
    let v =
      a + 256 * b + 65536 * c + 16777216 * d + 2 ^ 32 * (e + 256 * f + 65536 * g + 16777216 * h) in
    let ab = a * 2 ^ 8 + b in
    let abc = ab * 2 ^ 8 + c in
    let abcd = abc * 2 ^ 8 + d in
    let abcde = abcd * 2 ^ 8 + e in
    let abcdef = abcde * 2 ^ 8 + f in
    let a' = kept 56 0 a 0 (u64 (v * 2 ^ 56)) pa (omega arith) (omega arith) in
    let b' =
      placed 48 56 a b _ _ pb refl a'
        (kept 48 c b (a * 2 ^ 40) (u64 (v * 2 ^ 40)) pb (omega arith) (omega arith)) in
    let c' = placed 40 48 ab c _ _ pc refl b' (
      kept 40 (d + 2 ^ 8 * e) c ((a + 2 ^ 8 * b) * 2 ^ 24) (u64 (v * 2 ^ 24)) pc (omega arith)
        (omega arith)) in
    let d' = placed 32 40 abc d _ _ pd refl c' (
      kept 32 (e + 2 ^ 8 * f + 2 ^ 16 * g) d ((a + 2 ^ 8 * b + 2 ^ 16 * c) * 2 ^ 8)
        (u64 (v * 2 ^ 8)) pd (omega arith) (omega arith)) in
    let e' = placed 24 32 abcd e _ _ pe refl d' (
      kept 24 (f + 2 ^ 8 * g + 2 ^ 16 * h) e (b + 2 ^ 8 * c + 2 ^ 16 * d) (v / 2 ^ 8) pe
        (omega arith) (omega arith)) in
    let f' =
      placed 16 24 abcde f _ _ pf refl e'
        (kept 16 (g + 2 ^ 8 * h) f (d + 2 ^ 8 * e) (v / 2 ^ 24) pf (omega arith) (omega arith)) in
    let g' =
      placed 8 16 abcdef g _ _ pg refl f'
        (kept 8 h g f (v / 2 ^ 40) pg (omega arith) (omega arith)) in
    placed 0 8 (abcdef * 2 ^ 8 + g) h _ _ ph refl g'
      (kept 0 0 h 0 (v / 2 ^ 56) ph (omega arith) (omega arith))
    ∙ omega arith

-- Each cell of memory is a byte.
abbrev pub IsBytes : Bytes → Type 0
IsBytes m = (a : ℕ) → m a < 256

-- Where each cell of memory is a byte, what `bswap32` makes of the word read at an address, and `bswap64` of the double
-- word, is the number whose bytes stand there with the highest first.
pub bswap-big_endian :
    (m : Bytes) (p : ℕ)
    → IsBytes m
    → (bswap32 (get32 m p) ≡ big_endian32 m p) × (bswap64 (get64 m p) ≡ big_endian64 m p)
bswap-big_endian m p bytes = (
  bytes32 (m p) (m (p + 1)) (m (p + 2)) (m (p + 3)) (bytes p) (bytes (p + 1)) (bytes (p + 2))
      (bytes (p + 3)),
  bytes64 (m p) (m (p + 1)) (m (p + 2)) (m (p + 3)) (m (p + 4)) (m (p + 4 + 1)) (m (p + 4 + 2))
      (m (p + 4 + 3)) (bytes p) (bytes (p + 1)) (bytes (p + 2)) (bytes (p + 3)) (bytes (p + 4))
      (bytes (p + 4 + 1)) (bytes (p + 4 + 2)) (bytes (p + 4 + 3)),
)
