-- ===== src/Strings/Copied.antt =====
-- kern/lib/lib.c: what `strncpy` leaves, and the bytes that `strcmp` looks at.
use astral_os.Common.{
  ℕ, zero, suc, ◌+◌, ◌-◌, ◌≤◌, ◌<◌, ◌≡◌, ◌≢◌, ◌⊎◌, inl, inr, refl, sym, ap, ◌∙◌, arith, Bool-cases,
  ◌==◌, ==_ne, ==_iff, ==_refl, Bytes, store,
}
use astral_os.Strings.{strcmp, strncpy, pad}

-- Bytes that are the same from `p` up to `q`.
abbrev pub Agree : Bytes → Bytes → (p q : ℕ) → Type 0
Agree a b p q = (i : ℕ) → p ≤ i → i < q → a i ≡ b i

-- `strcmp` on fuel looks at no more bytes than it has fuel.
pub strcmp-Agree :
    (fuel : ℕ) (a b : Bytes) (s : ℕ) (m : Bytes) (t : ℕ)
    → Agree a b s (s + fuel)
    → strcmp fuel a s m t ≡ strcmp fuel b s m t
unfolding strcmp
strcmp-Agree zero a b s m t same = refl
strcmp-Agree (suc fuel) a b s m t same =
    rw
      (
        same s (omega arith) (omega arith),
        strcmp-Agree fuel a b (s + 1) m (t + 1) (λ i low high. same i (omega arith) (omega arith)),
      )
      refl

pub store-ne : (m : Bytes) (p v q : ℕ) → q ≢ p → store m p v q ≡ m q
store-ne m p v q ne = rw (==_ne q p ne) refl

pub store_self : (m : Bytes) (p v : ℕ) → store m p v p ≡ v
store_self m p v = rw (==_refl p) refl

pad-out : (m : Bytes) (dest n p : ℕ) → (p < dest) ⊎ (dest + n ≤ p) → pad m dest n p ≡ m p
unfolding pad
pad-out m dest zero p out = refl
pad-out m dest (suc n) p out =
    pad-out (store m dest 0) (dest + 1) n p (ground arith)
    ∙ store-ne m dest 0 p (λ e. absurd (ground arith))

pad-in : (m : Bytes) (dest n p : ℕ) → dest ≤ p → p < dest + n → pad m dest n p ≡ 0
unfolding pad
pad-in m dest zero p low high = absurd (omega arith)
pad-in m dest (suc n) p low high = elim (Bool-cases (p == dest)) [
  | inl here ↦
      (let e : p ≡ dest = (==_iff p dest).0 here in
        pad-out (store m dest 0) (dest + 1) n p (inl (omega arith))
        ∙ ap (store m dest 0) e
        ∙ store_self m dest 0)
  | inr further ↦ pad-in (store m dest 0) (dest + 1) n p (ground arith) (omega arith)
]

-- `strncpy` changes `n` bytes.
pub strncpy-out :
    (m : Bytes) (dest : ℕ) (source : Bytes) (src n p : ℕ)
    → (p < dest) ⊎ (dest + n ≤ p)
    → strncpy m dest source src n p ≡ m p
unfolding strncpy
strncpy-out m dest source src zero p out = refl
strncpy-out m dest source src (suc n) p out = elim (Bool-cases (source src == 0)) [
  | inl ended ↦ rw ended (pad-out m dest (suc n) p out)
  | inr more ↦ rw more (
      strncpy-out (store m dest (source src)) (dest + 1) source (src + 1) n p (ground arith)
      ∙ store-ne m dest (source src) p (λ e. absurd (ground arith)))
]

-- Behind a 0 the source has no other character.
abbrev pub Ends : Bytes → Type 0
Ends source = (i j : ℕ) → i ≤ j → source i ≡ 0 → source j ≡ 0

-- From a string that has nothing behind its terminator, `strncpy` copies the `n` bytes.
pub strncpy-in :
    (m : Bytes) (dest : ℕ) (source : Bytes) (src n i : ℕ)
    → Ends source
    → i < n
    → strncpy m dest source src n (dest + i) ≡ source (src + i)
unfolding strncpy
strncpy-in m dest source src zero i ends lt = absurd (omega arith)
strncpy-in m dest source src (suc n) i ends lt = elim (Bool-cases (source src == 0)) [
  | inl ended ↦ rw ended (
      pad-in m dest (suc n) (dest + i) (omega arith) (omega arith)
      ∙ sym (ends src (src + i) (omega arith) ((==_iff (source src) 0).0 ended)))
  | inr more ↦
      let m' = store m dest (source src) in
      rw more (elim (Bool-cases (i == 0)) [
        | inl first ↦
            let here : dest + i ≡ dest = ground arith in
            ap (strncpy m' (dest + 1) source (src + 1) n) here
            ∙ strncpy-out m' (dest + 1) source (src + 1) n dest (inl (omega arith))
            ∙ store_self m dest (source src)
            ∙ ap source (ground arith)
        | inr later ↦
            let further : dest + i ≡ dest + 1 + (i - 1) = ground arith in
            ap (strncpy m' (dest + 1) source (src + 1) n) further
            ∙ strncpy-in m' (dest + 1) source (src + 1) n (i - 1) ends (ground arith)
            ∙ ap source (ground arith)
      ])
]
