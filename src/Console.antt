-- ===== src/Console.antt =====
-- kern/debug/kprintf.c: the console on the framebuffer, with the glyphs of kern/lib/font_data.c. The screen is the 32-bit
-- words by their index from `kprintf_framebuffer`; what goes to the serial line is the list of its characters.
pub mod Font
pub mod Draw
pub mod Scroll
pub mod Cursor
pub mod Printed
pub mod Serial
mod Tests
use Prim.Native.Nat.{bit_and}
use astral_os.Common.{
  ℕ, zero, suc, ◌+◌, ◌-◌, ◌*◌, ◌/◌, ◌^◌, Bool, true, false, ◌&&◌, ◌||◌, Option, none, some, List,
  [], ◌∷◌, ◌++◌, get_or, if◌then◌else◌, ltb, ◌==◌, u32, add32, sub32, Bytes, store,
}
use astral_os.Strings.Format.{Arg, vsnprintf}
use Font.{proggy_clean}

abbrev pub kprintf_buffer_size : ℕ
kprintf_buffer_size = 256

abbrev pub font_width : ℕ
font_width = 8

abbrev pub font_height : ℕ
font_height = 8

-- The static variables, the words of the screen, and what was sent to the serial line.
pub record Console : Type 0 where
  pub framebuffer : ℕ
  pub fb_width : ℕ
  pub fb_height : ℕ
  pub fb_pitch : ℕ
  pub cursor_x : ℕ
  pub cursor_y : ℕ
  pub screen : ℕ → ℕ
  pub sent : List ℕ

abbrev pub uart_putc : Console → ℕ → Console
uart_putc c x = record c { sent = c.sent ++ (x ∷ []) }

-- The body of the inner loop: a bit of the glyph.
unfoldable pub draw_pixel : Console → (x y color bits row col : ℕ) → (screen : ℕ → ℕ) → ℕ → ℕ
draw_pixel c x y color bits row col screen =
    let px = add32 x col in
    let py = add32 y row in
    if bit_and bits (0x80 / 2 ^ col) == 0
    then screen
    else if ltb px c.fb_width && ltb py c.fb_height
    then store screen (u32 (py * (c.fb_pitch / 4) + px)) color
    else screen

-- The two loops, over so many columns and rows.
unfoldable pub draw_columns :
    (n : ℕ) → Console → (x y color bits row col : ℕ) → (screen : ℕ → ℕ) → ℕ → ℕ
draw_columns zero c x y color bits row col screen = screen
draw_columns (suc n) c x y color bits row col screen =
    draw_columns n c x y color bits row (col + 1) (draw_pixel c x y color bits row col screen)

unfoldable pub draw_rows :
    (n : ℕ) → Console → (x y color : ℕ) → (glyph : List ℕ) → (row : ℕ) → (screen : ℕ → ℕ) → ℕ → ℕ
draw_rows zero c x y color glyph row screen = screen
draw_rows (suc n) c x y color glyph row screen =
    draw_rows n c x y color glyph (row + 1)
      (draw_columns font_width c x y color (get_or glyph row 0) row 0 screen)

unfoldable pub kprintf_draw_char : Console → (x y ch color : ℕ) → Console
kprintf_draw_char c x y ch color =
    if c.framebuffer == 0 then uart_putc c ch else if ltb ch 32 || ltb 126 ch then c else record c {
      screen = draw_rows font_height c x y color (get_or proggy_clean (ch - 32) []) 0 c.screen;
    }

-- `memcpy` and `memset` with zeros on whole words, the lowest first.
unfoldable pub copy_words : (ℕ → ℕ) → (dest src n : ℕ) → ℕ → ℕ
copy_words m dest src zero = m
copy_words m dest src (suc n) = copy_words (store m dest (m src)) (dest + 1) (src + 1) n

unfoldable pub clear_words : (ℕ → ℕ) → (dest n : ℕ) → ℕ → ℕ
clear_words m dest zero = m
clear_words m dest (suc n) = clear_words (store m dest 0) (dest + 1) n

unfoldable pub kprintf_scroll : Console → Console
kprintf_scroll c =
    let scroll_amount = u32 (font_height * (c.fb_pitch / 4)) in
    let kept = u32 (sub32 c.fb_height font_height * (c.fb_pitch / 4)) in
    let moved = copy_words c.screen 0 scroll_amount (u32 (kept * 4) / 4) in
    if c.framebuffer == 0
    then c
    else record c { screen = clear_words moved kept (u32 (scroll_amount * 4) / 4) }

unfoldable pub kprintf_init : Console → (fb width height pitch : ℕ) → Console
kprintf_init c fb width height pitch = record c {
  framebuffer = fb;
  fb_width = width;
  fb_height = height;
  fb_pitch = pitch;
  cursor_x = 0;
  cursor_y = 0;
}

-- The two tests behind a character.
unfoldable pub wrap_line : Console → Console
wrap_line c =
    if ltb c.fb_width (add32 c.cursor_x font_width)
    then record c { cursor_x = 0; cursor_y = add32 c.cursor_y font_height }
    else c

unfoldable pub wrap_screen : Console → Console
wrap_screen c =
    let scrolled = kprintf_scroll c in
    if ltb c.fb_height (add32 c.cursor_y font_height)
    then record scrolled { cursor_y = sub32 scrolled.cursor_y font_height }
    else c

-- A character on the screen: a new line, or a glyph at the cursor.
unfoldable pub put_glyph : Console → (ch : ℕ) → Console
put_glyph c ch =
    let drawn = kprintf_draw_char c c.cursor_x c.cursor_y ch 0xFFFFFFFF in
    if ch == b'\n'
    then record c { cursor_x = 0; cursor_y = add32 c.cursor_y font_height }
    else record drawn { cursor_x = add32 drawn.cursor_x font_width }

-- The body of the loop of `kprintf_varg`.
unfoldable pub kprintf_putc : Console → (ch : ℕ) → Console
kprintf_putc c ch =
    let sent = uart_putc c ch in
    if c.framebuffer == 0
    then (if ch == b'\n' then uart_putc sent b'\r' else sent)
    else wrap_screen (wrap_line (put_glyph c ch))

unfoldable pub kprintf_loop : (fuel : ℕ) → (buffer : Bytes) → (i : ℕ) → Console → Option Console
kprintf_loop zero buffer i c = none
kprintf_loop (suc fuel) buffer i c =
    let rest = kprintf_loop fuel buffer (i + 1) (kprintf_putc c (buffer i)) in
    if buffer i == 0 then some c else rest

-- The buffers are not written yet; the text of the format is in `buffer` from 0 on.
abbrev pub printed : Console → Option (Bytes × ℕ) → Option Console
printed c none = none
printed c (some (buffer, written)) = kprintf_loop kprintf_buffer_size buffer 0 c

unfoldable pub kprintf_varg :
    Console → (buffer num_buf : Bytes) → (fmt : List ℕ) → List Arg → Option Console
kprintf_varg c buffer num_buf fmt args =
    printed c (vsnprintf buffer 0 kprintf_buffer_size num_buf fmt args)
