-- ===== src/Console/Serial.antt =====
-- `kprintf_varg` of kern/debug/kprintf.c before there is a framebuffer: what is sent to the serial line.
use astral_os.Common.{
  ℕ, ◌≡◌, ◌≢◌, refl, sym, ap, ◌∙◌, arith, true, Bool, Bool-cases, inl, inr, not, ◌&&◌, some, List,
  [], ◌∷◌, ◌++◌, take, if◌then◌else◌, ◌==◌, ==_iff, Bytes,
}
use mathlib.Core.List.{append_assoc, append-nil}
use astral_os.Strings.Terminated.{IsName}
use astral_os.Strings.Expanded.{Expands, done, plain}
use astral_os.Console.{Console, kprintf_putc, kprintf_varg}
use astral_os.Console.Printed.{putcs, kprintf_varg-ran}

-- A character on the line: a line feed is followed by a carriage return.
abbrev pub line : ℕ → List ℕ
line x = if x == b'\n' then x ∷ b'\r' ∷ [] else x ∷ []

unfoldable pub serial : List ℕ → List ℕ
serial [] = []
serial (x ∷ xs) = line x ++ serial xs

-- So much has been sent.
abbrev pub sending : Console → List ℕ → Console
sending c xs = record c { sent = xs }

kprintf_putc-serial :
    (c : Console) (x : ℕ) → c.framebuffer ≡ 0 → kprintf_putc c x ≡ sending c (c.sent ++ line x)
unfolding kprintf_putc
kprintf_putc-serial c x off =
    let none_there : (c.framebuffer == 0) ≡ true = (==_iff c.framebuffer 0).1 off in
    elim (Bool-cases (x == b'\n')) [
      | inl feed ↦
          rw (none_there, feed) (ap (sending c) (append_assoc c.sent (x ∷ []) (b'\r' ∷ [])))
      | inr other ↦ rw (none_there, other) refl
    ]

putcs-serial :
    (c : Console) (xs : List ℕ) → c.framebuffer ≡ 0 → putcs c xs ≡ sending c (c.sent ++ serial xs)
unfolding putcs serial
putcs-serial c [] off = ap (sending c) (sym (append-nil c.sent))
putcs-serial c (x ∷ xs) off =
    ap (λ d. putcs d xs) (kprintf_putc-serial c x off)
    ∙ putcs-serial (sending c (c.sent ++ line x)) xs off
    ∙ ap (sending c) (append_assoc c.sent (line x) (serial xs))

-- The test that a text has neither the character 0 nor a percent sign.
unfoldable pub is_plain : List ℕ → Bool
is_plain [] = true
is_plain (x ∷ xs) = not (x == 0) && (not (x == b'%') && is_plain xs)

is_plain-IsName : (xs : List ℕ) → is_plain xs ≡ true → IsName xs × Expands xs [] xs
unfolding is_plain
is_plain-IsName [] h = (tt, done)
is_plain-IsName (x ∷ xs) h =
    let ne : x ≢ 0 = ground arith in
    let other : x ≢ b'%' = ground arith in
    let rest = is_plain-IsName xs (ground arith) in ((ne, rest.0), plain x other rest.1)

-- Without a framebuffer, `kprintf_varg` of a text of fewer than 256 characters that has no percent sign sends it to the
-- serial line.
pub kprintf_varg-serial :
    (c : Console) (buffer num_buf : Bytes) (xs : List ℕ)
    → is_plain xs ≡ true
    → take 255 xs ≡ xs
    → c.framebuffer ≡ 0
    → kprintf_varg c buffer num_buf xs [] ≡ some (sending c (c.sent ++ serial xs))
kprintf_varg-serial c buffer num_buf xs is_text short off =
    let text = is_plain-IsName xs is_text in
    kprintf_varg-ran c buffer num_buf xs [] xs text.1 text.0
    ∙ ap (λ ys. some (putcs c ys)) short
    ∙ ap some (putcs-serial c xs off)
