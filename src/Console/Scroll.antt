-- ===== src/Console/Scroll.antt =====
-- `kprintf_scroll` of kern/debug/kprintf.c: the lines move up, and the last eight are cleared.
use native.Mathlib.Nat.{add-mul}
use astral_os.Common.{
  ℕ, zero, suc, ◌+◌, ◌-◌, ◌*◌, ◌/◌, ◌≤◌, ◌<◌, ◌≡◌, refl, sym, ap, ◌∙◌, arith, false, ◌⊎◌, inl, inr,
  Bool-cases, if◌then◌else◌, ltb, ◌==◌, ==_ne, ==_iff, u32, sub32, store,
}
use astral_os.Console.{Console, copy_words, clear_words, kprintf_scroll}
use astral_os.Console.Draw.{stride, area, IsScreen}

copy_words-out :
    (n : ℕ) (m : ℕ → ℕ) (d s i : ℕ) → (i < d) ⊎ (d + n ≤ i) → copy_words m d s n i ≡ m i
unfolding copy_words
copy_words-out zero m d s i out = refl
copy_words-out (suc n) m d s i out =
    let other : (i == d) ≡ false = ground arith in
    copy_words-out n (store m d (m s)) (d + 1) (s + 1) i (ground arith) ∙ rw other refl

copy_words-in :
    (n : ℕ) (m : ℕ → ℕ) (d s i : ℕ)
    → d < s
    → d ≤ i
    → i < d + n
    → copy_words m d s n i ≡ m (s + (i - d))
unfolding copy_words
copy_words-in zero m d s i up low high = absurd (omega arith)
copy_words-in (suc n) m d s i up low high =
    let after = store m d (m s) in
    elim (Bool-cases (i == d)) [
      | inl first ↦
          let e : i ≡ d = (==_iff i d).0 first in
          copy_words-out n after (d + 1) (s + 1) i (inl (omega arith))
          ∙ rw first (ap m (omega arith))
      | inr later ↦
          let move : s + 1 + (i - (d + 1)) ≡ s + (i - d) = ground arith in
          let other : (s + (i - d) == d) ≡ false = ground arith in
          copy_words-in n after (d + 1) (s + 1) i (omega arith) (ground arith) (omega arith)
          ∙ rw (move, other) refl
    ]

clear_words-out : (n : ℕ) (m : ℕ → ℕ) (d i : ℕ) → (i < d) ⊎ (d + n ≤ i) → clear_words m d n i ≡ m i
unfolding clear_words
clear_words-out zero m d i out = refl
clear_words-out (suc n) m d i out =
    let other : (i == d) ≡ false = ground arith in
    clear_words-out n (store m d 0) (d + 1) i (ground arith) ∙ rw other refl

clear_words-in : (n : ℕ) (m : ℕ → ℕ) (d i : ℕ) → d ≤ i → i < d + n → clear_words m d n i ≡ 0
unfolding clear_words
clear_words-in zero m d i low high = absurd (omega arith)
clear_words-in (suc n) m d i low high = elim (Bool-cases (i == d)) [
  | inl first ↦
      let e : i ≡ d = (==_iff i d).0 first in
      clear_words-out n (store m d 0) (d + 1) i (inl (omega arith)) ∙ rw first refl
  | inr later ↦ clear_words-in n (store m d 0) (d + 1) i (ground arith) (omega arith)
]

-- The screen after it has moved up by eight lines.
abbrev pub moved_up : Console → (ℕ → ℕ) → ℕ → ℕ
moved_up c m i =
    if ltb i ((c.fb_height - 8) * stride c)
    then m (8 * stride c + i)
    else if ltb i (area c)
    then 0
    else m i

-- The number of words of all lines but the last eight, and of those.
pub parts : (c : Console) → 8 ≤ c.fb_height → (c.fb_height - 8) * stride c + 8 * stride c ≡ area c
parts c high = sym (add-mul (c.fb_height - 8) 8 (stride c)) ∙ ap (λ h. h * stride c) (omega arith)

scrolled : (c : Console) → ℕ → ℕ
scrolled c =
    clear_words (copy_words c.screen 0 (8 * stride c) ((c.fb_height - 8) * stride c))
      ((c.fb_height - 8) * stride c) (8 * stride c)

kprintf_scroll-scrolled :
    (c : Console) → IsScreen c → kprintf_scroll c ≡ record c { screen = scrolled c }
unfolding kprintf_scroll scrolled
kprintf_scroll-scrolled c is_screen =
    let st = stride c in
    let whole = parts c is_screen.high in
    let small = is_screen.small in
    let there : (c.framebuffer == 0) ≡ false = ==_ne c.framebuffer 0 is_screen.there in
    let amount : u32 (8 * st) ≡ 8 * st = omega arith in
    let lines : sub32 c.fb_height 8 ≡ c.fb_height - 8 =
      omega (arith, is_screen.high, is_screen.tall) in
    let kept : u32 ((c.fb_height - 8) * st) ≡ (c.fb_height - 8) * st = omega arith in
    let moved : u32 ((c.fb_height - 8) * st * 4) / 4 ≡ (c.fb_height - 8) * st = omega arith in
    let cleared : u32 (8 * st * 4) / 4 ≡ 8 * st = omega arith in
    rw (there, amount, lines, kept, moved, cleared) refl

-- On a screen, `kprintf_scroll` moves the lines up by eight, clears the last eight, and changes nothing else.
pub kprintf_scroll-moved_up :
    (c : Console)
    → IsScreen c
    → (screen : ℕ → ℕ) × (kprintf_scroll c ≡ record c { screen = screen })
      × ((i : ℕ) → screen i ≡ moved_up c c.screen i)
unfolding scrolled
kprintf_scroll-moved_up c is_screen =
    let st = stride c in
    let rows = (c.fb_height - 8) * st in
    let whole = parts c is_screen.high in
    let moved = copy_words c.screen 0 (8 * st) rows in
    let some_line : 0 < 8 * st = omega (arith, is_screen.wide, is_screen.line) in
    (
      scrolled c,
      kprintf_scroll-scrolled c is_screen,
      λ i. elim (Bool-cases (ltb i rows)) [
        | inl up ↦
            let at : 8 * st + (i - 0) ≡ 8 * st + i = omega arith in
            rw up (
              clear_words-out (8 * st) moved rows i (inl (ground arith))
              ∙ copy_words-in rows c.screen 0 (8 * st) i some_line (omega arith) (ground arith)
              ∙ ap c.screen at)
        | inr down ↦ elim (Bool-cases (ltb i (area c))) [
          | inl last ↦
              rw (down, last) (clear_words-in (8 * st) moved rows i (ground arith) (ground arith))
          | inr behind ↦
              rw (down, behind)
                (clear_words-out (8 * st) moved rows i (inr (ground arith))
                  ∙ copy_words-out rows c.screen 0 (8 * st) i (inr (ground arith)))
        ]
      ],
    )
