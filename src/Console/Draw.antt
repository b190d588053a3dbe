-- ===== src/Console/Draw.antt =====
-- `kprintf_draw_char` of kern/debug/kprintf.c: where it writes.
use Prim.Native.Nat.{bit_and}
use native.Mathlib.Nat.{mul-le-mul_right, suc-mul}
use astral_os.Common.{
  ℕ, zero, suc, ◌+◌, ◌-◌, ◌*◌, ◌/◌, ◌^◌, ◌≤◌, ◌<◌, ◌≡◌, ◌≢◌, refl, ◌∙◌, arith, false, ◌&&◌, ◌||◌,
  Bool-cases, inl, inr, List, [], get_or, ltb, ◌==◌, ==_ne, u32, add32,
}
use astral_os.Console.{Console, draw_pixel, draw_columns, draw_rows, kprintf_draw_char}
use astral_os.Console.Font.{proggy_clean}

-- The words of a line of the screen, and of all lines.
abbrev pub stride : Console → ℕ
stride c = c.fb_pitch / 4

abbrev pub area : Console → ℕ
area c = c.fb_height * stride c

-- A screen: it has room for a character, a line is no longer than its pitch, and its size is a `uint32_t`.
pub record IsScreen (c : Console) : Type 0 where
  pub there : c.framebuffer ≢ 0
  pub wide : 8 ≤ c.fb_width
  pub high : 8 ≤ c.fb_height
  pub line : c.fb_width ≤ stride c
  pub small : area c * 4 < 2 ^ 32
  pub tall : c.fb_height < 2 ^ 32

-- The words behind the screen are not changed.
abbrev pub Keeps : Console → (ℕ → ℕ) → (ℕ → ℕ) → Type 0
Keeps c before after = (i : ℕ) → area c ≤ i → after i ≡ before i

module _ (c : Console) (is_screen : IsScreen c) (x y color : ℕ) where
  -- A pixel in its line.
  index-area : (px py : ℕ) → px < c.fb_width → py < c.fb_height → py * stride c + px < area c
  index-area px py h v =
      let lines : suc py * stride c ≤ area c = mul-le-mul_right (stride c) v in
      let next : suc py * stride c ≡ py * stride c + stride c = suc-mul py (stride c) in
      omega (arith, lines, next, is_screen.line)

  draw_pixel-Keeps :
      (bits row col : ℕ) (screen : ℕ → ℕ)
      → Keeps c screen (draw_pixel c x y color bits row col screen)
  unfolding draw_pixel
  draw_pixel-Keeps bits row col screen i out =
      let px = add32 x col in
      let py = add32 y row in
      elim (Bool-cases (bit_and bits (0x80 / 2 ^ col) == 0)) [
        | inl clear ↦ rw clear refl
        | inr bit ↦ elim (Bool-cases (ltb px c.fb_width && ltb py c.fb_height)) [
          | inr off ↦ rw (bit, off) refl
          | inl on ↦
              let h : px < c.fb_width = ground arith in
              let v : py < c.fb_height = ground arith in
              let inside = index-area px py h v in
              let index : u32 (py * stride c + px) ≡ py * stride c + px =
                omega (arith, is_screen.small) in
              let other = ==_ne i (py * stride c + px) (λ e. absurd (omega arith)) in
              rw (bit, on, index, other) refl
        ]
      ]

  draw_columns-Keeps :
      (n bits row col : ℕ) (screen : ℕ → ℕ)
      → Keeps c screen (draw_columns n c x y color bits row col screen)
  unfolding draw_columns
  draw_columns-Keeps zero bits row col screen i out = refl
  draw_columns-Keeps (suc n) bits row col screen i out =
      draw_columns-Keeps n bits row (col + 1) (draw_pixel c x y color bits row col screen) i out
      ∙ draw_pixel-Keeps bits row col screen i out

  draw_rows-Keeps :
      (n : ℕ) (glyph : List ℕ) (row : ℕ) (screen : ℕ → ℕ)
      → Keeps c screen (draw_rows n c x y color glyph row screen)
  unfolding draw_rows
  draw_rows-Keeps zero glyph row screen i out = refl
  draw_rows-Keeps (suc n) glyph row screen i out =
      draw_rows-Keeps n glyph (row + 1)
        (draw_columns 8 c x y color (get_or glyph row 0) row 0 screen) i out
      ∙ draw_columns-Keeps 8 (get_or glyph row 0) row 0 screen i out

-- The console is as it was but for the screen, of which nothing behind its end is changed.
abbrev pub Draws : (c c' : Console) → Type 0
Draws c c' = (screen : ℕ → ℕ) × (c' ≡ record c { screen = screen }) × Keeps c c.screen screen

pub kprintf_draw_char-Draws :
    (c : Console) (x y ch color : ℕ) → IsScreen c → Draws c (kprintf_draw_char c x y ch color)
unfolding kprintf_draw_char
kprintf_draw_char-Draws c x y ch color is_screen =
    let there : (c.framebuffer == 0) ≡ false = ==_ne c.framebuffer 0 is_screen.there in
    elim (Bool-cases (ltb ch 32 || ltb 126 ch)) [
      | inl outside ↦ (c.screen, rw (there, outside) refl, (λ i out. refl))
      | inr inside ↦ (
        _,
        rw (there, inside) refl,
        draw_rows-Keeps c is_screen x y color 8 (get_or proggy_clean (ch - 32) []) 0 c.screen,
      )
    ]
