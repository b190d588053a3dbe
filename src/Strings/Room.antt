-- ===== src/Strings/Room.antt =====
-- `vsnprintf` of kern/lib/lib.c: what one piece of text does to the buffer.
use astral_os.Common.{
  ℕ, ◌+◌, ◌-◌, ◌^◌, ◌≤◌, ◌<◌, ◌≡◌, ◌⊎◌, inl, inr, refl, sym, ap, ◌∙◌, arith, Bool-cases, List, [],
  ◌∷◌, ◌++◌, length, length-append, get_or, get_or-append_left, get_or-append_right, ltb, leb,
  ==_ne, ==_refl, add64, sub64, Bytes, copy-within, copy-outside,
}
use astral_os.Strings.{memcpy}
use astral_os.Strings.Effects.{memcpy-copy}
use astral_os.Strings.Format.{Output, put, put_text, put_if_room}

-- The buffer holds the text so far, as far as it has room for it beside a terminator; nothing outside the
-- buffer is changed.
pub record Holds (m : Bytes) (str size : ℕ) (xs : List ℕ) (o : Output) : Type 0 where
  pub place : o.str_ptr ≡ str + o.written
  pub within : o.written ≤ size
  pub short : o.written ≤ length xs
  pub whole : o.written < size - 1 → length xs ≤ o.written
  pub content : (i : ℕ) → i < size - 1 → i < o.written → o.bytes (str + i) ≡ get_or xs i 0
  pub outside : (a : ℕ) → (a < str) ⊎ (str + size ≤ a) → o.bytes a ≡ m a

-- So many characters of `ys` behind the text, all of them unless the buffer has no room left.
record Takes (str size : ℕ) (ys : List ℕ) (o o' : Output) : Type 0 where
  place : o'.str_ptr ≡ str + o'.written
  grows : o.written ≤ o'.written
  within : o'.written ≤ size
  short : o'.written ≤ o.written + length ys
  whole : o'.written < size - 1 → o'.written ≡ o.written + length ys
  kept : (a : ℕ) → (a < str + o.written) ⊎ (str + size ≤ a) → o'.bytes a ≡ o.bytes a
  taken :
      (i : ℕ)
      → o.written + i < size - 1
      → o.written + i < o'.written
      → o'.bytes (str + (o.written + i)) ≡ get_or ys i 0

module _ (m : Bytes) (str size : ℕ) where
  Holds-Takes :
      (xs ys : List ℕ) (o o' : Output)
      → Holds m str size xs o
      → Takes str size ys o o'
      → Holds m str size (xs ++ ys) o'
  Holds-Takes xs ys o o' h t =
      let long = length-append xs ys in
      record {
        place = t.place;
        within = t.within;
        short = omega (arith, long, h.short, t.short);
        whole = λ lt. omega (arith, long, t.whole lt, h.whole (omega (arith, t.grows)));
        content = λ i lt lt'. elim (Bool-cases (ltb i o.written)) [
          | inl old ↦
              let old' : i < o.written = ground arith in
              t.kept (str + i) (inl (omega arith))
              ∙ h.content i lt old'
              ∙ sym (get_or-append_left xs ys i 0 (omega (arith, h.short)))
          | inr new ↦
              let new' : o.written ≤ i = ground arith in
              let k = i - o.written in
              let here : i ≡ o.written + k = omega arith in
              let whole : o.written ≡ length xs = omega (arith, h.short, h.whole (omega arith)) in
              ap (λ j. o'.bytes (str + j)) here
              ∙ t.taken k (omega arith) (omega arith)
              ∙ sym (get_or-append_right xs ys k 0)
              ∙ ap (λ j. get_or (xs ++ ys) j 0) (omega (arith, whole))
        ];
        outside = λ a out.
            t.kept a (elim out [ inl low ↦ inl (omega arith) | inr high ↦ inr high ])
            ∙ h.outside a out;
      }

  pub Holds-cut :
      (xs ys : List ℕ) (o : Output)
      → size ≤ o.written
      → Holds m str size xs o
      → Holds m str size (xs ++ ys) o
  Holds-cut xs ys o full h = Holds-Takes xs ys o o h (record {
    place = h.place;
    grows = omega arith;
    within = h.within;
    short = omega arith;
    whole = λ lt. absurd (omega arith);
    kept = λ a out. refl;
    taken = λ i lt lt'. absurd (omega arith);
  })

module _ (m : Bytes) (str size : ℕ) (small : size < 2 ^ 63) where
  pub Holds-put :
      (xs : List ℕ) (o : Output) (c : ℕ)
      → o.written < size
      → Holds m str size xs o
      → Holds m str size (xs ++ (c ∷ [])) (put o c)
  Holds-put xs o c room h =
      let p = h.place in
      Holds-Takes m str size xs (c ∷ []) o (put o c) h (record {
        place = omega (arith, p);
        grows = omega arith;
        within = omega arith;
        short = omega arith;
        whole = λ lt. omega arith;
        kept = λ a out. rw (
            ==_ne a o.str_ptr (λ e. elim out [
              | inl low ↦ absurd (omega (arith, p, e))
              | inr high ↦ absurd (omega (arith, p, e))
            ]));
        taken = λ i lt lt'.
            let first : i ≡ 0 = omega arith in
            let at : str + (o.written + i) ≡ o.str_ptr = omega (arith, p) in
            rw (at, first, ==_refl o.str_ptr);
      })

  pub Holds-put_if_room :
      (xs : List ℕ) (o : Output) (c : ℕ)
      → o.written < size
      → Holds m str size xs o
      → Holds m str size (xs ++ (c ∷ [])) (put_if_room o size c)
  Holds-put_if_room xs o c room h = elim (Bool-cases (ltb (add64 o.written 1) size)) [
    | inl more ↦ rw more (Holds-put xs o c room h)
    | inr last ↦
        let full : size - 1 ≤ o.written = ground arith in
        rw last (
          Holds-Takes m str size xs (c ∷ []) o o h (record {
            place = h.place;
            grows = omega arith;
            within = h.within;
            short = omega arith;
            whole = λ lt. absurd (omega arith);
            kept = λ a out. refl;
            taken = λ i lt lt'. absurd (omega arith);
          }))
  ]

  -- The copy of a text: so many characters that the buffer has room for.
  copied :
      (ys : List ℕ) (o : Output) (source : Bytes) (n : ℕ)
      → o.str_ptr ≡ str + o.written
      → o.written + n ≤ size
      → n ≤ length ys
      → (o.written + n < size - 1 → n ≡ length ys)
      → ((i : ℕ) → i < length ys → source i ≡ get_or ys i 0)
      → Takes str size ys o (record {
        bytes = memcpy o.bytes o.str_ptr source 0 n;
        str_ptr = o.str_ptr + n;
        written = add64 o.written n;
      })
  copied ys o source n p room few all same =
      let w : add64 o.written n ≡ o.written + n = omega arith in
      record {
        place = omega (arith, p);
        grows = omega arith;
        within = omega arith;
        short = omega arith;
        whole = λ lt. omega (arith, all (omega arith));
        kept = λ a out.
            memcpy-copy o.bytes o.str_ptr source 0 n a
            ∙ copy-outside o.bytes o.str_ptr source 0 n a
                (elim out [ inl low ↦ inl (omega (arith, p)) | inr high ↦ inr (omega (arith, p)) ]);
        taken = λ i lt lt'.
            let at : str + (o.written + i) ≡ o.str_ptr + i = omega (arith, p) in
            let index : 0 + (o.str_ptr + i - o.str_ptr) ≡ i = omega arith in
            ap (memcpy o.bytes o.str_ptr source 0 n) at
            ∙ memcpy-copy o.bytes o.str_ptr source 0 n (o.str_ptr + i)
            ∙ copy-within o.bytes o.str_ptr source 0 n (o.str_ptr + i) (omega arith) (omega arith)
            ∙ ap source index
            ∙ same i (omega arith);
      }

  pub Holds-put_text :
      (xs ys : List ℕ) (o : Output) (source : Bytes) (len : ℕ)
      → o.written < size
      → len ≡ length ys
      → len < 2 ^ 63
      → ((i : ℕ) → i < length ys → source i ≡ get_or ys i 0)
      → Holds m str size xs o
      → Holds m str size (xs ++ ys) (put_text o size source len)
  Holds-put_text xs ys o source len room whole short same h =
      elim (Bool-cases (leb size (add64 o.written len))) [
        | inl cut ↦
            let n : sub64 (sub64 size o.written) 1 ≡ size - o.written - 1 = omega arith in
            let over : size ≤ o.written + len = ground arith in
            rw (cut, n)
              (Holds-Takes m str size xs ys o _ h (
                copied ys o source (size - o.written - 1) h.place (omega arith) (omega arith)
                  (λ lt. absurd (omega arith)) same))
        | inr fits ↦
            let under : o.written + len < size = ground arith in
            rw fits (
              Holds-Takes m str size xs ys o _ h
                (copied ys o source len h.place (omega arith) (omega arith) (λ lt. whole) same))
      ]
