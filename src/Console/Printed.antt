-- ===== src/Console/Printed.antt =====
-- `kprintf_varg` of kern/debug/kprintf.c: the text of a message, character after character.
use astral_os.Common.{
  ℕ, zero, suc, ◌+◌, ◌≤◌, ◌<◌, ◌≡◌, refl, sym, ap, ◌∙◌, arith, true, false, Bool-cases, inl, inr,
  Option, some, List, [], ◌∷◌, length, length-take, take, get_or, ltb, ◌==◌, ==_ne, Bytes,
}
use astral_os.Strings.Terminated.{IsString, IsName, IsName-IsString}
use astral_os.Strings.Format.{Arg}
use astral_os.Strings.Expanded.{Expands}
use astral_os.Strings.Formatted.{Formats, vsnprintf-Formats}
use astral_os.Console.{Console, kprintf_putc, kprintf_loop, printed, kprintf_varg}
use astral_os.Console.Cursor.{IsConsole, Shows, kprintf_putc-Shows, Shows-IsConsole, Shows-Shows}

-- The characters of a text, one after the other.
unfoldable pub putcs : Console → List ℕ → Console
putcs c [] = c
putcs c (x ∷ xs) = putcs (kprintf_putc c x) xs

putcs-Shows : (c : Console) (xs : List ℕ) → IsConsole c → Shows c (putcs c xs)
unfolding putcs
putcs-Shows c [] is_console =
    (c.cursor_x, c.cursor_y, c.screen, refl, is_console.column, is_console.line, (λ i out. refl))
putcs-Shows c (x ∷ xs) is_console =
    let one = kprintf_putc-Shows c x is_console in
    Shows-Shows c (kprintf_putc c x) (putcs (kprintf_putc c x) xs) one
      (putcs-Shows (kprintf_putc c x) xs (Shows-IsConsole c (kprintf_putc c x) is_console one))

kprintf_loop-putcs :
    (fuel : ℕ) (buffer : Bytes) (i : ℕ) (c : Console) (xs : List ℕ)
    → IsString buffer i xs
    → length xs < fuel
    → kprintf_loop fuel buffer i c ≡ some (putcs c xs)
unfolding kprintf_loop putcs
kprintf_loop-putcs zero buffer i c xs str h = absurd (omega arith)
kprintf_loop-putcs (suc fuel) buffer i c [] str h = rw str refl
kprintf_loop-putcs (suc fuel) buffer i c (x ∷ xs) (e, ne, str) h =
    let going : (x == 0) ≡ false = ==_ne x 0 ne in
    rw (e, going) (kprintf_loop-putcs fuel buffer (i + 1) (kprintf_putc c x) xs str (omega arith))

IsName-take : (n : ℕ) (xs : List ℕ) → IsName xs → IsName (take n xs)
IsName-take zero xs name = tt
IsName-take (suc n) [] name = tt
IsName-take (suc n) (x ∷ xs) (ne, name) = (ne, IsName-take n xs name)

get_or-take : (n i : ℕ) (xs : List ℕ) → i < n → get_or (take n xs) i 0 ≡ get_or xs i 0
get_or-take zero i xs h = absurd (omega arith)
get_or-take (suc n) i [] h = refl
get_or-take (suc n) zero (x ∷ xs) h = refl
get_or-take (suc n) (suc i) (x ∷ xs) h = get_or-take n i xs (omega arith)

under : (a b : ℕ) → ltb a b ≡ true → a < b
under a b h = ground arith

over : (a b : ℕ) → ltb a b ≡ false → b ≤ a
over a b h = ground arith

length-take_short : (n : ℕ) (xs : List ℕ) → length xs < n → 0 + length (take n xs) ≡ 0 + length xs
length-take_short n xs h = omega (arith, length-take n xs)

length-take_long : (n : ℕ) (xs : List ℕ) → n ≤ length xs → 0 + length (take n xs) ≡ n
length-take_long n xs h = omega (arith, length-take n xs)

-- The buffer holds the first 255 characters of the text.
Formats-IsString :
    {m : Bytes} {ys : List ℕ} {r : Option (Bytes × ℕ)}
    → (f : Formats m 0 256 ys r) → IsName ys
    → IsString f.after 0 (take 255 ys)
Formats-IsString {ys = ys} f name =
    let size = length-take 255 ys in
    IsName-IsString f.after 0 (take 255 ys) (IsName-take 255 ys name)
      (λ i lt.
        f.content i (omega (arith, size)) (omega (arith, size))
        ∙ sym (get_or-take 255 i ys (omega (arith, size))))
      (elim (Bool-cases (ltb (length ys) 255)) [
        | inl whole ↦
            let few = under (length ys) 255 whole in
            ap f.after (length-take_short 255 ys few) ∙ f.ended few
        | inr cut ↦
            let many = over (length ys) 255 cut in
            ap f.after (length-take_long 255 ys many) ∙ f.cut (omega arith) many
      ])

-- `kprintf_varg` ends and prints the first 255 characters of the text.
pub kprintf_varg-ran :
    (c : Console) (buffer num_buf : Bytes) (fmt : List ℕ) (args : List Arg) (ys : List ℕ)
    → Expands fmt args ys
    → IsName ys
    → kprintf_varg c buffer num_buf fmt args ≡ some (putcs c (take 255 ys))
unfolding kprintf_varg
kprintf_varg-ran c buffer num_buf fmt args ys e name =
    let f = vsnprintf-Formats buffer 0 256 num_buf fmt args ys (omega arith) e in
    ap (printed c) f.ran
    ∙ kprintf_loop-putcs 256 f.after 0 c (take 255 ys) (Formats-IsString f name)
        (omega (arith, length-take 255 ys))

-- When the format and the arguments stand for a text without the character 0, and the console is a screen with the cursor
-- where a character fits, `kprintf_varg` ends and prints the first 255 characters of the text one after the other; at
-- the end the cursor is where the next character fits, and neither the geometry nor a word behind the screen is changed.
pub kprintf_varg-putcs :
    (c : Console) (buffer num_buf : Bytes) (fmt : List ℕ) (args : List Arg) (ys : List ℕ)
    → Expands fmt args ys
    → IsName ys
    → IsConsole c
    → (kprintf_varg c buffer num_buf fmt args ≡ some (putcs c (take 255 ys)))
      × Shows c (putcs c (take 255 ys))
kprintf_varg-putcs c buffer num_buf fmt args ys e name is_console =
    (kprintf_varg-ran c buffer num_buf fmt args ys e name, putcs-Shows c (take 255 ys) is_console)
