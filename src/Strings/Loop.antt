-- ===== src/Strings/Loop.antt =====
-- `vsnprintf` of kern/lib/lib.c: what the loop over the format leaves in the buffer.
use mathlib.Core.List.{append_assoc, append-nil}
use astral_os.Common.{
  ℕ, suc, ◌-◌, ◌^◌, ◌<◌, ◌≡◌, ◌⊎◌, inl, inr, refl, sym, ap, subst, ◌∙◌, arith, Bool, true, false,
  Bool-cases, Option, some, List, [], ◌∷◌, ◌++◌, length, ltb, Bytes,
}
use astral_os.Strings.{strlen}
use astral_os.Strings.Itoa.{itoa}
use astral_os.Strings.Terminated.{IsName, string-IsString, strlen_lem}
use astral_os.Strings.Printed.{itoa_text, Prints, itoa_lem}
use astral_os.Strings.Format.{
  Arg, text, int, word, character, Output, characters, put, put_text, put_measured, put_number,
  put_if_room, rest_of, itoa_word, directive, format_loop,
}
use astral_os.Strings.Room.{Holds, Holds-cut, Holds-put, Holds-put_if_room, Holds-put_text}
use astral_os.Strings.Expanded.{
  Expands, done, plain, text_of, decimal, hexadecimal, one, percent, word_text, IsString-content,
  itoa_text-short, Runs, full_step, empty_step, plain_step, directive_step,
}

module _ (m : Bytes) (str size : ℕ) (small : size < 2 ^ 63) (num_buf : Bytes) where
  -- A number is put behind the text.
  put_number-Runs :
      (xs ys : List ℕ) (o : Output) (printed : Option Bytes)
      → o.written < size
      → length ys < 32
      → Prints printed ys
      → Holds m str size xs o
      → Runs m str size (xs ++ ys) (put_number o size printed)
  put_number-Runs xs ys o printed room short (after, e, string) h = record {
    after = put_text o size after (length ys);
    ran =
        ap (put_number o size) e
        ∙ ap (put_measured o size after) (strlen_lem 32 after 0 ys string short);
    holds =
        Holds-put_text m str size small xs ys o after (length ys) room refl (omega arith)
          (λ i lt. ap after (omega arith) ∙ IsString-content after 0 ys string i lt) h;
  }

  put_string-Runs :
      (xs ys : List ℕ) (o : Output)
      → o.written < size
      → IsName ys
      → length ys < 2 ^ 63
      → Holds m str size xs o
      → Runs m str size
          (xs ++ ys)
          (put_measured o size (characters ys) (strlen (suc (length ys)) (characters ys) 0))
  put_string-Runs xs ys o room name short h = record {
    after = put_text o size (characters ys) (length ys);
    ran =
        ap (put_measured o size (characters ys)) (
          strlen_lem (suc (length ys)) (characters ys) 0 ys (string-IsString ys name)
            (omega arith));
    holds =
        Holds-put_text m str size small xs ys o (characters ys) (length ys) room refl short
          (λ i lt. refl) h;
  }

  itoa_word-Prints : (v : ℕ) → v < 2 ^ 64 → Prints (itoa_word num_buf v) (word_text v)
  itoa_word-Prints v fits = elim (Bool-cases (ltb v (2 ^ 63))) [
    | inl low ↦ rw low (itoa_lem false v num_buf 16 (omega arith) (omega arith) (omega arith))
    | inr high ↦
        rw high (itoa_lem true (2 ^ 64 - v) num_buf 16 (omega arith) (omega arith) (omega arith))
  ]

  word_text-short : (v : ℕ) → length (word_text v) < 32
  word_text-short v = elim (Bool-cases (ltb v (2 ^ 63))) [
    | inl low ↦ rw low (itoa_text-short false v 16)
    | inr high ↦ rw high (itoa_text-short true (2 ^ 64 - v) 16)
  ]

  -- A directive, and then the rest of the format.
  after_directive :
      (xs ys zs : List ℕ) (d : ℕ) (format : List ℕ) (args args' : List Arg) (o : Output)
      (r : Option Output)
      → ltb o.written size ≡ true
      → directive size num_buf d args o ≡ rest_of args' r
      → Runs m str size (xs ++ ys) r
      → ((o' : Output)
          → Holds m str size (xs ++ ys) o'
          → Runs m str size ((xs ++ ys) ++ zs) (format_loop size num_buf format args' o'))
      → Runs m str size (xs ++ (ys ++ zs)) (format_loop size num_buf (b'%' ∷ d ∷ format) args o)
  after_directive xs ys zs d format args args' o r room made piece rest =
      let next = rest piece.after piece.holds in
      record {
        after = next.after;
        ran =
            directive_step size num_buf d format args args' o piece.after room
              (made ∙ ap (rest_of args') piece.ran)
            ∙ next.ran;
        holds = subst (λ l. Holds m str size l next.after) (append_assoc xs ys zs) next.holds;
      }

  full-Runs :
      (xs ys : List ℕ) (format : List ℕ) (args : List Arg) (o : Output)
      → ltb o.written size ≡ false
      → Holds m str size xs o
      → Runs m str size (xs ++ ys) (format_loop size num_buf format args o)
  full-Runs xs ys format args o full h = record {
    after = o;
    ran = full_step size num_buf format args o full;
    holds = Holds-cut m str size xs ys o (ground arith) h;
  }

  -- The directives with a letter each.
  decimal_step :
      (letter : ℕ) (is_minus : Bool) (magnitude : ℕ) (args : List Arg) (o : Output)
      → (letter ≡ b'd') ⊎ (letter ≡ b'i')
      → directive size num_buf letter (int is_minus magnitude ∷ args) o
        ≡ rest_of args (put_number o size (itoa is_minus magnitude num_buf 10))
  unfolding directive
  decimal_step letter is_minus magnitude args o (inl e) = rw e refl
  decimal_step letter is_minus magnitude args o (inr e) = rw e refl

  hexadecimal_step :
      (letter v : ℕ) (args : List Arg) (o : Output)
      → (letter ≡ b'x') ⊎ (letter ≡ b'p')
      → directive size num_buf letter (word v ∷ args) o
        ≡ rest_of args (put_number o size (itoa_word num_buf v))
  unfolding directive
  hexadecimal_step letter v args o (inl e) = rw e refl
  hexadecimal_step letter v args o (inr e) = rw e refl

  -- A step is needed as long as the buffer has room alone.
  with_room :
      (xs ys : List ℕ) (format : List ℕ) (args : List Arg) (o : Output)
      → Holds m str size xs o
      → (ltb o.written size ≡ true
          → Runs m str size (xs ++ ys) (format_loop size num_buf format args o))
      → Runs m str size (xs ++ ys) (format_loop size num_buf format args o)
  with_room xs ys format args o h step = elim (Bool-cases (ltb o.written size)) [
    | inr full ↦ full-Runs xs ys format args o full h
    | inl room ↦ step room
  ]

  room-lt : (o : Output) → ltb o.written size ≡ true → o.written < size
  room-lt o room = ground arith

  pub format_loop-Runs :
      (format : List ℕ) (args : List Arg) (zs xs : List ℕ) (o : Output)
      → Expands format args zs
      → Holds m str size xs o
      → Runs m str size (xs ++ zs) (format_loop size num_buf format args o)
  unfolding directive
  format_loop-Runs _ args _ xs o done h = record {
    after = o;
    ran = empty_step size num_buf args o;
    holds = subst (λ l. Holds m str size l o) (sym (append-nil xs)) h;
  }
  format_loop-Runs _ args _ xs o (plain {format = format} {ys = ys} c ne e) h =
      with_room xs (c ∷ ys) (c ∷ format) args o h (λ room.
        let next =
          format_loop-Runs format args ys (xs ++ (c ∷ [])) (put o c) e
            (Holds-put m str size small xs o c (room-lt o room) h) in
        record {
          after = next.after;
          ran = plain_step size num_buf c format args o ne room ∙ next.ran;
          holds =
              subst (λ l. Holds m str size l next.after) (append_assoc xs (c ∷ []) ys) next.holds;
        })
  format_loop-Runs _ _ _ xs o (text_of {format = format} {args = args} {ys = ys} s name short e) h =
      with_room xs (s ++ ys) (b'%' ∷ b's' ∷ format) (text s ∷ args) o h (λ room.
        after_directive xs s ys b's' format (text s ∷ args) args o _ room refl
          (put_string-Runs xs s o (room-lt o room) name short h)
          (λ o' h'. format_loop-Runs format args ys (xs ++ s) o' e h'))
  format_loop-Runs _ _ _ xs o
        (decimal {format = format} {args = args} {ys = ys} letter is_minus magnitude which few e)
        h =
      let s = itoa_text is_minus magnitude 10 in
      with_room xs (s ++ ys) (b'%' ∷ letter ∷ format) (int is_minus magnitude ∷ args) o h (λ room.
        after_directive xs s ys letter format (int is_minus magnitude ∷ args) args o _ room
          (decimal_step letter is_minus magnitude args o which)
          (put_number-Runs xs s o _ (room-lt o room) (itoa_text-short is_minus magnitude 10)
            (itoa_lem is_minus magnitude num_buf 10 (omega arith) (omega arith) (omega arith)) h)
          (λ o' h'. format_loop-Runs format args ys (xs ++ s) o' e h'))
  format_loop-Runs _ _ _ xs o
        (hexadecimal {format = format} {args = args} {ys = ys} letter v which few e) h =
      let s = word_text v in
      with_room xs (s ++ ys) (b'%' ∷ letter ∷ format) (word v ∷ args) o h (λ room.
        after_directive xs s ys letter format (word v ∷ args) args o _ room
          (hexadecimal_step letter v args o which)
          (put_number-Runs xs s o _ (room-lt o room) (word_text-short v) (itoa_word-Prints v few) h)
          (λ o' h'. format_loop-Runs format args ys (xs ++ s) o' e h'))
  format_loop-Runs _ _ _ xs o (one {format = format} {args = args} {ys = ys} c e) h =
      with_room xs (c ∷ ys) (b'%' ∷ b'c' ∷ format) (character c ∷ args) o h (λ room.
        after_directive xs (c ∷ []) ys b'c' format (character c ∷ args) args o
          (some (put_if_room o size c)) room refl
          (record {
            after = put_if_room o size c;
            ran = refl;
            holds = Holds-put_if_room m str size small xs o c (room-lt o room) h;
          })
          (λ o' h'. format_loop-Runs format args ys (xs ++ (c ∷ [])) o' e h'))
  format_loop-Runs _ args _ xs o (percent {format = format} {ys = ys} e) h =
      with_room xs (b'%' ∷ ys) (b'%' ∷ b'%' ∷ format) args o h (λ room.
        after_directive xs (b'%' ∷ []) ys b'%' format args args o (some (put_if_room o size b'%'))
          room refl
          (record {
            after = put_if_room o size b'%';
            ran = refl;
            holds = Holds-put_if_room m str size small xs o b'%' (room-lt o room) h;
          })
          (λ o' h'. format_loop-Runs format args ys (xs ++ (b'%' ∷ [])) o' e h'))
