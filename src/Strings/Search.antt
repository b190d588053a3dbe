-- ===== src/Strings/Search.antt =====
-- `strchr` and `strncmp` of kern/lib/lib.c on terminated strings.
use astral_os.Common.{
  ℕ, zero, suc, ◌+◌, ◌%◌, ◌<◌, ◌≡◌, ◌≢◌, ◌⊎◌, inl, inr, refl, ap, ◌∙◌, arith, false, Bool-cases,
  Option, none, some, List, [], ◌∷◌, length, ◌==◌, ==_ne, ==_refl, Bytes,
}
use astral_os.Strings.{strchr, strncmp}
use astral_os.Strings.Terminated.{IsString}

-- `strchr` on a terminated string: null, or a pointer into it.
abbrev pub Points : ℕ → Option (Option ℕ) → Type 0
Points p r = (r ≡ some none) ⊎ ((k : ℕ) × (r ≡ some (some (p + k))))

pub strchr-Points :
    (width : ℕ) (m : Bytes) (p c : ℕ) (xs : List ℕ)
    → IsString m p xs
    → length xs < width
    → Points p (strchr width m p c)
unfolding strchr
strchr-Points zero m p c xs str h = absurd (omega arith)
strchr-Points (suc width) m p c [] str h = elim (Bool-cases (m p == c % 256)) [
  | inl here ↦ inr (0, rw here (ap (λ q. some (some q)) (omega arith)))
  | inr not_here ↦ inl (rw (not_here, str) refl)
]
strchr-Points (suc width) m p c (x ∷ xs) (e, ne, str) h =
    let going : (m p == 0) ≡ false = rw e (==_ne x 0 ne) in
    elim (Bool-cases (m p == c % 256)) [
      | inl here ↦ inr (0, rw here (ap (λ q. some (some q)) (omega arith)))
      | inr not_here ↦ elim (strchr-Points width m (p + 1) c xs str (omega arith)) [
        | inl null ↦ inl (rw (not_here, going) null)
        | inr (k, found) ↦
            inr (suc k, rw (not_here, going) (found ∙ ap (λ q. some (some q)) (omega arith)))
      ]
    ]

-- A character that is not the first one is found behind it.
pub strchr-later :
    (width : ℕ) (m : Bytes) (p c x : ℕ) (xs : List ℕ)
    → IsString m p (x ∷ xs)
    → suc (length xs) < width
    → x ≢ c % 256
    → (strchr width m p c ≡ some none) ⊎ ((k : ℕ) × (strchr width m p c ≡ some (some (p + suc k))))
unfolding strchr
strchr-later zero m p c x xs str h ne = absurd (omega arith)
strchr-later (suc width) m p c x xs (e, real, str) h ne =
    let going : (m p == 0) ≡ false = rw e (==_ne x 0 real) in
    let not_here : (m p == c % 256) ≡ false = rw e (==_ne x (c % 256) ne) in
    elim (strchr-Points width m (p + 1) c xs str (omega arith)) [
      | inl null ↦ inl (rw (not_here, going) null)
      | inr (k, found) ↦
          inr (k, rw (not_here, going) (found ∙ ap (λ q. some (some q)) (omega arith)))
    ]

-- No characters are compared.
pub strncmp-none : (m1 : Bytes) (s1 : ℕ) (m2 : Bytes) (s2 : ℕ) → strncmp m1 s1 m2 s2 0 ≡ (0, 0)
unfolding strncmp
strncmp-none m1 s1 m2 s2 = refl

-- The empty string has no character but its terminator.
pub strchr-empty :
    (width : ℕ) (m : Bytes) (p c : ℕ)
    → 0 < width
    → m p ≡ 0
    → 0 ≢ c % 256
    → strchr width m p c ≡ some none
unfolding strchr
strchr-empty zero m p c pos e ne = absurd (omega arith)
strchr-empty (suc width) m p c pos e ne = let test = ==_ne 0 (c % 256) ne in rw (e, test) refl

-- A character at the place where the search starts.
pub strchr-here :
    (width : ℕ) (m : Bytes) (p c : ℕ)
    → 0 < width
    → m p ≡ c % 256
    → strchr width m p c ≡ some (some p)
unfolding strchr
strchr-here zero m p c pos e = absurd (omega arith)
strchr-here (suc width) m p c pos e = rw (e, ==_refl (c % 256)) refl
