-- ===== src/Strings/Tests.antt =====
-- Runs of the string routines of kern/lib/lib.c, and their theorems at small strings.
use astral_os.Common.{◌≡◌, arith, some, none, [], ◌∷◌, ◌++◌, inl, refl, true, get_or, Bytes}
use astral_os.Strings.{strcmp, strncmp, strchr, strncpy, pad}
use astral_os.Strings.Printed.{itoa_text}
use astral_os.Strings.Digits.{numeral}
use astral_os.Strings.Format.{int, text, vsnprintf}
use astral_os.Strings.Expanded.{done, plain, text_of, decimal}
use astral_os.Strings.Formatted.{Formats, vsnprintf-Formats}
use astral_os.Strings.Terminated.{IsString, Tells, strcmp_lem}

-- "ab" and "ac" one after the other, each with its terminator.
abbrev two_strings : Bytes
two_strings i = get_or (97 ∷ 98 ∷ 0 ∷ 97 ∷ 99 ∷ 0 ∷ []) i 7

abbrev first-IsString : IsString two_strings 0 (97 ∷ 98 ∷ [])
first-IsString = (refl, (λ e. absurd (omega arith)), (refl, (λ e. absurd (omega arith)), refl))

abbrev second-IsString : IsString two_strings 3 (97 ∷ 99 ∷ [])
second-IsString = (refl, (λ e. absurd (omega arith)), (refl, (λ e. absurd (omega arith)), refl))

strcmp_lem_example : Tells (strcmp 3 two_strings 0 two_strings 3) (97 ∷ 98 ∷ []) (97 ∷ 99 ∷ [])
strcmp_lem_example =
    strcmp_lem 3 two_strings 0 two_strings 3 (97 ∷ 98 ∷ []) (97 ∷ 99 ∷ []) first-IsString
      second-IsString (omega arith)

strncmp_runs :
    (strncmp two_strings 0 two_strings 3 1 ≡ (0, 0))
    × (strncmp two_strings 0 two_strings 3 5 ≡ (98, 99))
unfolding strncmp
strncmp_runs = (refl, refl)

strchr_runs : (strchr 4 two_strings 0 98 ≡ some (some 1)) × (strchr 4 two_strings 0 120 ≡ some none)
unfolding strchr
strchr_runs = (refl, refl)

strncpy_run : strncpy two_strings 0 two_strings 3 4 3 ≡ 0
unfolding strncpy pad
strncpy_run = refl

itoa_text_run : itoa_text true 305 10 ≡ b'-' ∷ b'3' ∷ b'0' ∷ b'5' ∷ []
unfolding numeral
itoa_text_run = refl

-- "%s=%d" in a buffer of four bytes, which has no room for the whole of "ab=-305".
vsnprintf-Formats_example :
    Formats two_strings 6 4 (97 ∷ 98 ∷ b'=' ∷ (itoa_text true 305 10 ++ [])) (
      vsnprintf two_strings 6 4 two_strings
        (b'%' ∷ b's' ∷ b'=' ∷ b'%' ∷ b'd' ∷ [])
        (text (97 ∷ 98 ∷ []) ∷ int true 305 ∷ []))
vsnprintf-Formats_example =
    vsnprintf-Formats two_strings 6 4 two_strings (b'%' ∷ b's' ∷ b'=' ∷ b'%' ∷ b'd' ∷ [])
      (text (97 ∷ 98 ∷ []) ∷ int true 305 ∷ []) (97 ∷ 98 ∷ b'=' ∷ (itoa_text true 305 10 ++ []))
      (omega arith)
      (text_of (97 ∷ 98 ∷ []) ((λ e. absurd (omega arith)), ((λ e. absurd (omega arith)), tt))
        (omega arith)
        (plain b'=' (λ e. absurd (omega arith))
          (decimal b'd' true 305 (inl refl) (omega arith) done)))
