-- ===== src/Console/Cursor.antt =====
-- `kprintf_varg` of kern/debug/kprintf.c: the cursor stays where a character fits, and the screen keeps its bounds.
use native.Mathlib.Nat.{mul-le-mul_left}
use astral_os.Common.{
  ℕ, ◌+◌, ◌-◌, ◌*◌, ◌^◌, ◌≤◌, ◌<◌, ◌≡◌, ◌⊎◌, inl, inr, refl, sym, subst, ◌∙◌, arith, false,
  Bool-cases, ltb, ◌==◌, ==_ne, add32, sub32,
}
use astral_os.Console.{Console, wrap_line, wrap_screen, put_glyph, kprintf_putc}
use astral_os.Console.Draw.{stride, area, IsScreen, Keeps, kprintf_draw_char-Draws}
use astral_os.Console.Scroll.{parts, moved_up, kprintf_scroll-moved_up}

-- The console with another cursor and other words on the screen.
abbrev pub shown : Console → (x y : ℕ) → (screen : ℕ → ℕ) → Console
shown c x y screen = record c { cursor_x = x; cursor_y = y; screen = screen }

-- A character fits at the cursor.
pub record IsConsole (c : Console) : Type 0 where
  pub is_screen : IsScreen c
  pub column : c.cursor_x + 8 ≤ c.fb_width
  pub line : c.cursor_y + 8 ≤ c.fb_height

-- The console is as it was but for the cursor, at which a character fits, and the words of the screen.
abbrev pub Shows : (c c' : Console) → Type 0
Shows c c' =
    (x : ℕ) × (y : ℕ) × (screen : ℕ → ℕ) × (c' ≡ shown c x y screen)
    × (x + 8 ≤ c.fb_width)
    × (y + 8 ≤ c.fb_height)
    × Keeps c c.screen screen

pub shown-IsScreen :
    (c : Console) (x y : ℕ) (screen : ℕ → ℕ) → IsScreen c → IsScreen (shown c x y screen)
shown-IsScreen c x y screen s = record {
  there = s.there;
  wide = s.wide;
  high = s.high;
  line = s.line;
  small = s.small;
  tall = s.tall;
}

narrow : (c : Console) → IsScreen c → c.fb_width < 2 ^ 30
narrow c s = omega (arith, parts c s.high, s.line, s.small)

low : (c : Console) → IsScreen c → c.fb_height < 2 ^ 29
low c s =
    let lines : c.fb_height * 8 ≤ c.fb_height * stride c =
      mul-le-mul_left c.fb_height (omega (arith, s.wide, s.line)) in
    omega (arith, lines, s.small)

module _ (c : Console) (s : IsScreen c) where
  moved_up-Keeps : (m : ℕ → ℕ) (x y : ℕ) (i : ℕ) → area c ≤ i → moved_up (shown c x y m) m i ≡ m i
  moved_up-Keeps m x y i out =
      let whole = parts c s.high in
      let behind : ltb i ((c.fb_height - 8) * stride c) ≡ false = ground arith in
      let behind' : ltb i (area c) ≡ false = ground arith in rw (behind, behind') refl

  wrap_line-fits :
      (x y : ℕ) (m : ℕ → ℕ)
      → x ≤ c.fb_width
      → y ≤ c.fb_height
      → ((x + 8 ≤ c.fb_width) × (8 ≤ y)) ⊎ (y + 8 ≤ c.fb_height)
      → (x' : ℕ) × (y' : ℕ) × (wrap_line (shown c x y m) ≡ shown c x' y' m)
        × (x' + 8 ≤ c.fb_width)
        × (y' ≤ c.fb_height)
        × ((8 ≤ y') ⊎ (y' + 8 ≤ c.fb_height))
  unfolding wrap_line
  wrap_line-fits x y m short tall either =
      let w = narrow c s in
      let h = low c s in
      let next : add32 x 8 ≡ x + 8 = omega arith in
      let below : add32 y 8 ≡ y + 8 = omega arith in
      elim (Bool-cases (ltb c.fb_width (x + 8))) [
        | inr fits ↦ (
          x,
          y,
          rw (next, fits) refl,
          ground arith,
          tall,
          elim either [ inl (_, under) ↦ inl under | inr room ↦ inr room ],
        )
        | inl wraps ↦ (
          0,
          y + 8,
          rw (next, wraps, below) refl,
          omega (arith, s.wide),
          ground arith,
          inl (omega arith),
        )
      ]

  wrap_screen-fits :
      (x y : ℕ) (m : ℕ → ℕ)
      → y ≤ c.fb_height
      → (8 ≤ y) ⊎ (y + 8 ≤ c.fb_height)
      → (y' : ℕ) × (m' : ℕ → ℕ) × (wrap_screen (shown c x y m) ≡ shown c x y' m')
        × (y' + 8 ≤ c.fb_height)
        × Keeps c m m'
  unfolding wrap_screen
  wrap_screen-fits x y m tall either =
      let h = low c s in
      let below : add32 y 8 ≡ y + 8 = omega arith in
      elim (Bool-cases (ltb c.fb_height (y + 8))) [
        | inr fits ↦ (y, m, rw (below, fits) refl, ground arith, (λ i out. refl))
        | inl full ↦
            let (m', moved, words) =
              kprintf_scroll-moved_up (shown c x y m) (shown-IsScreen c x y m s) in
            let under : 8 ≤ y = elim either [ inl u ↦ u | inr room ↦ absurd (ground arith) ] in
            let above : sub32 y 8 ≡ y - 8 = omega arith in
            (
              y - 8,
              m',
              rw (below, full, moved, above) refl,
              ground (arith, s.high),
              (λ i out. words i ∙ moved_up-Keeps m x y i out),
            )
      ]

  put_glyph-fits :
      (ch : ℕ)
      → c.cursor_x + 8 ≤ c.fb_width
      → c.cursor_y + 8 ≤ c.fb_height
      → (x : ℕ) × (y : ℕ) × (m : ℕ → ℕ) × (put_glyph c ch ≡ shown c x y m)
        × (x ≤ c.fb_width)
        × (y ≤ c.fb_height)
        × (((x + 8 ≤ c.fb_width) × (8 ≤ y)) ⊎ (y + 8 ≤ c.fb_height))
        × Keeps c c.screen m
  unfolding put_glyph
  put_glyph-fits ch column line =
      let w = narrow c s in
      let h = low c s in
      let next : add32 c.cursor_x 8 ≡ c.cursor_x + 8 = omega arith in
      let below : add32 c.cursor_y 8 ≡ c.cursor_y + 8 = omega arith in
      elim (Bool-cases (ch == b'\n')) [
        | inl newline ↦ (
          0,
          c.cursor_y + 8,
          c.screen,
          rw (newline, below) refl,
          omega arith,
          line,
          inl (s.wide, omega arith),
          (λ i out. refl),
        )
        | inr glyph ↦
            let (m, drawn, keeps) =
              kprintf_draw_char-Draws c c.cursor_x c.cursor_y ch 0xFFFFFFFF s in
            (
              c.cursor_x + 8,
              c.cursor_y,
              m,
              rw (glyph, drawn, next) refl,
              column,
              omega arith,
              inr line,
              keeps,
            )
      ]

-- On a screen with the cursor where a character fits, printing a character leaves the cursor where the next one
-- fits, and changes neither the geometry nor a word behind the screen.
pub kprintf_putc-Shows : (c : Console) (ch : ℕ) → IsConsole c → Shows c (kprintf_putc c ch)
unfolding kprintf_putc
kprintf_putc-Shows c ch is_console =
    let s = is_console.is_screen in
    let there : (c.framebuffer == 0) ≡ false = ==_ne c.framebuffer 0 s.there in
    let (x, y, m, put, short, tall, either, keeps) =
      put_glyph-fits c s ch is_console.column is_console.line in
    let (x', y', wrapped, column, tall', either') = wrap_line-fits c s x y m short tall either in
    let (y'', m', scrolled, line, keeps') = wrap_screen-fits c s x' y' m tall' either' in
    (
      x',
      y'',
      m',
      rw (there, put, wrapped) scrolled,
      column,
      line,
      (λ i out. keeps' i out ∙ keeps i out),
    )

pub Shows-IsConsole : (c c' : Console) → IsConsole c → Shows c c' → IsConsole c'
Shows-IsConsole c c' is_console (x, y, m, e, column, line, keeps) =
    subst IsConsole (sym e) (record {
      is_screen = shown-IsScreen c x y m is_console.is_screen;
      column = column;
      line = line;
    })

pub Shows-Shows : (c c' c'' : Console) → Shows c c' → Shows c' c'' → Shows c c''
Shows-Shows c c' c'' (x, y, m, e, column, line, keeps) =
    rw e (λ (x', y', m', e', column', line', keeps').
      (x', y', m', e', column', line', (λ i out. keeps' i out ∙ keeps i out)))
