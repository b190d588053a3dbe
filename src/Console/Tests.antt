-- ===== src/Console/Tests.antt =====
-- The console of kern/debug/kprintf.c on a screen of 20 by 17 pixels.
use astral_os.Common.{
  ℕ, ◌+◌, ◌<◌, ◌≡◌, ◌≢◌, refl, arith, some, List, [], ◌∷◌, ◌++◌, take, length, true, inl, ◌-◌,
}
use astral_os.Strings.Format.{int}
use astral_os.Strings.Printed.{itoa_text}
use astral_os.Strings.Expanded.{done, plain, decimal}
use astral_os.Strings.Terminated.{IsName}
use astral_os.Strings.Digits.{numeral}
use astral_os.Console.{Console, kprintf_init, kprintf_scroll, kprintf_varg}
use astral_os.Console.Font.{proggy_clean}
use astral_os.Console.Draw.{IsScreen}
use astral_os.Console.Scroll.{moved_up, kprintf_scroll-moved_up}
use astral_os.Console.Cursor.{IsConsole, Shows}
use astral_os.Console.Printed.{putcs, kprintf_varg-putcs}

-- A glyph for each character that is drawn.
glyphs : length proggy_clean ≡ 126 + 1 - 32
unfolding proggy_clean
glyphs = refl

abbrev off : Console
off = record {
  framebuffer = 0;
  fb_width = 0;
  fb_height = 0;
  fb_pitch = 0;
  cursor_x = 5;
  cursor_y = 6;
  screen = λ i. i;
  sent = [];
}

abbrev on : Console
on = record off {
  framebuffer = 0x1000;
  fb_width = 20;
  fb_height = 17;
  fb_pitch = 96;
  cursor_x = 8;
  cursor_y = 8;
}

initialised : kprintf_init off 0x1000 20 17 96 ≡ record on { cursor_x = 0; cursor_y = 0 }
unfolding kprintf_init
initialised = refl

on-IsScreen : IsScreen on
on-IsScreen = record {
  there = λ e. absurd (omega arith);
  wide = omega arith;
  high = omega arith;
  line = omega arith;
  small = omega arith;
  tall = omega arith;
}

on-IsConsole : IsConsole on
on-IsConsole = record { is_screen = on-IsScreen; column = omega arith; line = omega arith }

kprintf_scroll-moved_up_example :
    (screen : ℕ → ℕ) × (kprintf_scroll on ≡ record on { screen = screen })
    × ((i : ℕ) → screen i ≡ moved_up on on.screen i)
kprintf_scroll-moved_up_example = kprintf_scroll-moved_up on on-IsScreen

nonzero : (c : ℕ) → 0 < c → c ≢ 0
nonzero c pos e = omega arith

abbrev seven : List ℕ
seven = b'#' ∷ (itoa_text true 7 10 ++ [])

seven-IsName : IsName seven
unfolding numeral
seven-IsName = (nonzero _ (omega arith), (nonzero _ (omega arith), (nonzero _ (omega arith), tt)))

-- "#%d" with -7.
kprintf_varg-putcs_example :
    (kprintf_varg on (λ i. i) (λ i. i) (b'#' ∷ b'%' ∷ b'd' ∷ []) (int true 7 ∷ [])
      ≡ some (putcs on (take 255 seven)))
    × Shows on (putcs on (take 255 seven))
kprintf_varg-putcs_example =
    kprintf_varg-putcs on (λ i. i) (λ i. i) (b'#' ∷ b'%' ∷ b'd' ∷ []) (int true 7 ∷ []) seven
      (plain b'#' (λ e. absurd (omega arith)) (decimal b'd' true 7 (inl refl) (omega arith) done))
      seven-IsName on-IsConsole
