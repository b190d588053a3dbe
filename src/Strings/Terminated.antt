-- ===== src/Strings/Terminated.antt =====
-- The string routines of kern/lib/lib.c on terminated strings: enough fuel, and what they compute.
use astral_os.Common.{
  ℕ, zero, suc, ◌+◌, ◌<◌, ◌≡◌, ◌≢◌, ◌↔◌, refl, sym, ap, ◌∙◌, arith, true, false, ◌==◌, ==_iff,
  ==_ne, Option, some, List, [], ◌∷◌, ◌++◌, length, get_or, Bytes, Bool-cases, inl, inr,
}
use astral_os.Strings.{strcmp, strlen, strlen_from, agree}

-- The characters of the string at `p`, up to its terminator.
abbrev pub IsString : Bytes → ℕ → List ℕ → Type 0
IsString m p [] = m p ≡ 0
IsString m p (x ∷ xs) = (m p ≡ x) × (x ≢ 0) × IsString m (p + 1) xs

strlen_from_lem :
    (fuel : ℕ) (m : Bytes) (s len : ℕ) (xs : List ℕ)
    → IsString m s xs
    → length xs < fuel
    → strlen_from fuel m s len ≡ some (len + length xs)
unfolding strlen_from
strlen_from_lem zero m s len xs str h = absurd (omega arith)
strlen_from_lem (suc fuel) m s len [] str h = let e : len + 0 ≡ len = omega arith in rw (str, e)
strlen_from_lem (suc fuel) m s len (x ∷ xs) (e, ne, str) h =
    let rest = strlen_from_lem fuel m (s + 1) (len + 1) xs str (omega arith) in
    let test = ==_ne x 0 ne in
    let move : len + 1 + length xs ≡ len + suc (length xs) = omega arith in rw (e, test, rest, move)

-- On a terminated string, fuel above its length is enough for `strlen`, which counts its characters.
pub strlen_lem :
    (fuel : ℕ) (m : Bytes) (s : ℕ) (xs : List ℕ)
    → IsString m s xs
    → length xs < fuel
    → strlen fuel m s ≡ some (length xs)
unfolding strlen
strlen_lem fuel m s xs str h =
    let e : 0 + length xs ≡ length xs = omega arith in
    strlen_from_lem fuel m s 0 xs str h ∙ ap some e

-- The result of a comparison: the pair of characters is of equal ones exactly when the strings are
-- equal.
abbrev pub Tells : Option (ℕ × ℕ) → List ℕ → List ℕ → Type 0
Tells r xs ys = (p : ℕ × ℕ) × (r ≡ some p) × ((p.0 ≡ p.1) ↔ (xs ≡ ys))

Tells-cons :
    (r : Option (ℕ × ℕ)) (x : ℕ) (xs ys : List ℕ) → Tells r xs ys → Tells r (x ∷ xs) (x ∷ ys)
Tells-cons r x xs ys (p, e, (to, from)) =
    (p, e, ((λ h. ap (λ l. x ∷ l) (to h)), (λ h. from (cc h))))

agree-ne : (a b : ℕ) → a ≢ b → agree a b ≡ false
agree-ne a b h = ground arith

-- On two terminated strings, fuel above the length of the first is enough for `strcmp`, and the two
-- characters whose difference it returns are equal exactly when the strings are.
pub strcmp_lem :
    (fuel : ℕ) (m1 : Bytes) (s1 : ℕ) (m2 : Bytes) (s2 : ℕ) (xs ys : List ℕ)
    → IsString m1 s1 xs
    → IsString m2 s2 ys
    → length xs < fuel
    → Tells (strcmp fuel m1 s1 m2 s2) xs ys
unfolding strcmp
strcmp_lem zero m1 s1 m2 s2 xs ys a b h = absurd (omega arith)
strcmp_lem (suc fuel) m1 s1 m2 s2 [] [] a b h = ((0, 0), rw (a, b), ((λ e. refl), (λ e. refl)))
strcmp_lem (suc fuel) m1 s1 m2 s2 [] (y ∷ ys) a (e, ne, b) h =
    ((0, y), rw (a, e), ((λ z. absurd (ne (sym z))), (λ z. absurd (ground arith))))
strcmp_lem (suc fuel) m1 s1 m2 s2 (x ∷ xs) [] (e, ne, a) b h =
    let test = agree-ne x 0 ne in
    ((x, 0), rw (e, b, test), ((λ z. absurd (ne z)), (λ z. absurd (ground arith))))
strcmp_lem (suc fuel) m1 s1 m2 s2 (x ∷ xs) (y ∷ ys) (e, ne, a) (e', ne', b) h =
    elim (Bool-cases (x == y)) [
      | inl same ↦
          let eq : x ≡ y = (==_iff x y).0 same in
          let rest = strcmp_lem fuel m1 (s1 + 1) m2 (s2 + 1) xs ys a b (omega arith) in
          let test : agree x y ≡ true = ground arith in
          let goal = Tells-cons (strcmp fuel m1 (s1 + 1) m2 (s2 + 1)) x xs ys rest in
          rw (e, e', test, sym eq) goal
      | inr other ↦
          let test : agree x y ≡ false = ground arith in
          ((x, y), rw (e, e', test), ((λ z. absurd (ground arith)), (λ z. absurd (ground arith))))
    ]

-- A name: none of its characters is the terminator.
abbrev pub IsName : List ℕ → Type 0
IsName [] = Unit
IsName (x ∷ xs) = (x ≢ 0) × IsName xs

pub IsName-IsString :
    (m : Bytes) (p : ℕ) (xs : List ℕ)
    → IsName xs
    → ((i : ℕ) → i < length xs → m (p + i) ≡ get_or xs i 0)
    → m (p + length xs) ≡ 0
    → IsString m p xs
IsName-IsString m p [] ok same end = ap m (omega arith) ∙ end
IsName-IsString m p (x ∷ xs) (ne, ok) same end = (
  ap m (omega arith) ∙ same 0 (omega arith),
  ne,
  IsName-IsString m (p + 1) xs ok (λ i lt. ap m (omega arith) ∙ same (suc i) (omega arith))
      (ap m (omega arith) ∙ end),
)

pub get_or-end : (xs : List ℕ) → get_or xs (length xs) 0 ≡ 0
get_or-end [] = refl
get_or-end (x ∷ xs) = get_or-end xs

pub string-IsString : (xs : List ℕ) → IsName xs → IsString (λ i. get_or xs i 0) 0 xs
string-IsString xs ok =
    IsName-IsString (λ i. get_or xs i 0) 0 xs ok (λ i _. ap (λ k. get_or xs k 0) (omega arith))
      (ap (λ k. get_or xs k 0) (omega arith) ∙ get_or-end xs)

pub IsName-append : (xs ys : List ℕ) → IsName xs → IsName ys → IsName (xs ++ ys)
IsName-append [] ys a b = b
IsName-append (x ∷ xs) ys (ne, a) b = (ne, IsName-append xs ys a b)
