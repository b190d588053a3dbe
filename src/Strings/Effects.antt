-- ===== src/Strings/Effects.antt =====
-- What the routines of kern/lib/lib.c that write leave at each offset.
use astral_os.Common.{
  ℕ, zero, suc, ◌+◌, ◌-◌, ◌≡◌, refl, ◌∙◌, inl, inr, ◌%◌, arith, true, false, ltb, leb, ◌==◌, Bytes,
  store, copy, fill, Bool-cases,
}
use astral_os.Strings.{memset, memcpy}

-- `memset` leaves the low byte of its character at the `n` offsets from `s` on, and everything else as
-- it was.
pub memset-fill : (m : Bytes) (s c n i : ℕ) → memset m s c n i ≡ fill m s (c % 256) n i
unfolding memset
memset-fill m s c zero i = ground arith
memset-fill m s c (suc n) i = memset-fill (store m s (c % 256)) (s + 1) c n i ∙ step
  where
    step : fill (store m s (c % 256)) (s + 1) (c % 256) n i ≡ fill m s (c % 256) (suc n) i
    step = ground arith

-- `memcpy` between two objects leaves the `n` bytes from `src` on at the offsets from `dest` on, and
-- everything else as it was.
pub memcpy-copy :
    (m : Bytes) (dest : ℕ) (source : Bytes) (src n i : ℕ)
    → memcpy m dest source src n i ≡ copy m dest source src n i
unfolding memcpy
memcpy-copy m dest source src zero i = ground arith
memcpy-copy m dest source src (suc n) i =
    let rest = memcpy-copy (store m dest (source src)) (dest + 1) source (src + 1) n i in
    rest ∙ elim (Bool-cases (ltb dest i)) [
      | inl after ↦
          let l : leb dest i ≡ true = ground arith in
          let l' : leb (dest + 1) i ≡ true = ground arith in
          let end : ltb i (dest + 1 + n) ≡ ltb i (dest + suc n) = ground arith in
          let other : (i == dest) ≡ false = ground arith in
          let from : src + 1 + (i - (dest + 1)) ≡ src + (i - dest) = ground arith in
          rw (l, l', end, other, from) refl
      | inr before ↦
          let l' : leb (dest + 1) i ≡ false = ground arith in
          elim (Bool-cases (i == dest)) [
            | inl here ↦
                let e : i ≡ dest = ground arith in
                let l : leb dest i ≡ true = ground arith in
                let h : ltb i (dest + suc n) ≡ true = ground arith in
                let from : src + (i - dest) ≡ src = ground arith in rw (here, l, l', h, from) refl
            | inr below ↦ let l : leb dest i ≡ false = ground arith in rw (below, l, l') refl
          ]
    ]
