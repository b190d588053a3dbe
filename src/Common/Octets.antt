-- ===== src/Common/Octets.antt =====
-- Memory as a function from offsets to bytes, with the effect of `memcpy` and `memset` on it in closed
-- form, and the little-endian integers that the fields of a C structure hold.
use Prim.Native.Nat.{ℕ, ◌+◌, ◌-◌, ◌*◌, ◌/◌, ◌%◌, ◌^◌, ◌≤◌, ◌<◌}
use mathlib.Core.Path.{◌≡◌}
use mathlib.Core.Logic.{◌⊎◌, inl, inr}
use mathlib.Core.Bool.{Bool, true, false, ◌&&◌}
use native.Mathlib.Omega.{arith}
use astral_os.Common.Tests.{ltb, leb, ◌==◌, if◌then◌else◌}

abbrev pub Bytes : Type 0
Bytes = ℕ → ℕ

abbrev pub zeros : Bytes
zeros i = 0

abbrev pub store : Bytes → ℕ → ℕ → Bytes
store m p v i = if i == p then v else m i

-- Whether the offset `i` is one of the `n` from `p` on.
abbrev pub within : ℕ → ℕ → ℕ → Bool
within p n i = leb p i && ltb i (p + n)

-- The `n` bytes of `src` from `s` on, put into `dest` from `d` on.
abbrev pub copy : (dest : Bytes) (d : ℕ) (src : Bytes) (s n : ℕ) → Bytes
copy dest d src s n i = if within d n i then src (s + (i - d)) else dest i

abbrev pub fill : (dest : Bytes) (d c n : ℕ) → Bytes
fill dest d c n i = if within d n i then c else dest i

-- The bytes of a number, the lowest first.
abbrev pub little_endian : ℕ → Bytes
little_endian v i = v / 256 ^ i % 256

abbrev pub get16 : Bytes → ℕ → ℕ
get16 m p = m p + 256 * m (p + 1)

abbrev pub get32 : Bytes → ℕ → ℕ
get32 m p = m p + 256 * m (p + 1) + 65536 * m (p + 2) + 16777216 * m (p + 3)

abbrev pub get64 : Bytes → ℕ → ℕ
get64 m p = get32 m p + 2 ^ 32 * get32 m (p + 4)

abbrev pub put16 : Bytes → ℕ → ℕ → Bytes
put16 m p v = copy m p (little_endian v) 0 2

abbrev pub put32 : Bytes → ℕ → ℕ → Bytes
put32 m p v = copy m p (little_endian v) 0 4

abbrev pub put64 : Bytes → ℕ → ℕ → Bytes
put64 m p v = copy m p (little_endian v) 0 8

module _ (dest : Bytes) (d : ℕ) (src : Bytes) (s n i : ℕ) where
  pub copy-within : d ≤ i → i < d + n → copy dest d src s n i ≡ src (s + (i - d))
  copy-within low high =
      let l : leb d i ≡ true = ground arith in
      let h : ltb i (d + n) ≡ true = ground arith in rw (l, h)

  pub copy-outside : (i < d) ⊎ (d + n ≤ i) → copy dest d src s n i ≡ dest i
  copy-outside (inl low) = let l : leb d i ≡ false = ground arith in rw l
  copy-outside (inr high) =
      let l : leb d i ≡ true = ground arith in
      let h : ltb i (d + n) ≡ false = ground arith in rw (l, h)
