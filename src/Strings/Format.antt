-- ===== src/Strings/Format.antt =====
-- kern/lib/lib.c, `vsnprintf`. The format is the list of its characters up to the terminator, and `va_list` the
-- list of what is left to read. A result of `none` stands for what C leaves undefined: an argument that is
-- missing or of another type, or a format whose last character is `%`, after which the code reads on
-- behind the terminator.
use astral_os.Common.{
  ℕ, suc, ◌+◌, ◌-◌, ◌^◌, Bool, true, false, Option, none, some, List, [], ◌∷◌, length, get_or,
  if◌then◌else◌, ltb, leb, ◌==◌, add64, sub64, Bytes, store,
}
use astral_os.Strings.{memcpy, strlen}
use astral_os.Strings.Itoa.{itoa}

-- An argument: a string, an `int` by its sign and its magnitude, a `uint64_t`, or a character.
pub data Arg : Type 0 where
  text : List ℕ → Arg
  int : (is_minus : Bool) → (magnitude : ℕ) → Arg
  word : ℕ → Arg
  character : ℕ → Arg

-- The buffer, `str_ptr` and `written`.
pub record Output : Type 0 where
  pub bytes : Bytes
  pub str_ptr : ℕ
  pub written : ℕ

-- The characters of a string, with the terminator behind them.
abbrev pub characters : List ℕ → Bytes
characters xs i = get_or xs i 0

-- `*str_ptr++ = c; written++`
abbrev pub put : Output → ℕ → Output
put o c = record {
  bytes = store o.bytes o.str_ptr c;
  str_ptr = o.str_ptr + 1;
  written = add64 o.written 1;
}

-- The copy of so many bytes that the buffer has room for, and a terminator.
abbrev pub put_text : Output → (size : ℕ) → (source : Bytes) → (len : ℕ) → Output
put_text o size source len =
    let n = if leb size (add64 o.written len) then sub64 (sub64 size o.written) 1 else len in
    record {
      bytes = memcpy o.bytes o.str_ptr source 0 n;
      str_ptr = o.str_ptr + n;
      written = add64 o.written n;
    }

abbrev pub put_measured : Output → (size : ℕ) → (source : Bytes) → Option ℕ → Option Output
put_measured o size source none = none
put_measured o size source (some len) = some (put_text o size source len)

-- A string in a buffer of 32 bytes.
abbrev pub put_number : Output → (size : ℕ) → Option Bytes → Option Output
put_number o size none = none
put_number o size (some num_buf) = put_measured o size num_buf (strlen 32 num_buf 0)

abbrev pub put_if_room : Output → (size c : ℕ) → Output
put_if_room o size c = if ltb (add64 o.written 1) size then put o c else o

abbrev pub rest_of : List Arg → Option Output → Option (Output × List Arg)
rest_of args none = none
rest_of args (some o) = some (o, args)

-- `val` as a `long long`: a number from 2^63 on is negative.
abbrev pub itoa_word : Bytes → ℕ → Option Bytes
itoa_word num_buf v =
    if ltb v (2 ^ 63) then itoa false v num_buf 16 else itoa true (2 ^ 64 - v) num_buf 16

-- The branches on the character after `%`: the buffer, and the arguments that are left. The memory of
-- `num_buf` is not written yet.
abbrev pub put_string : (size : ℕ) → List Arg → Output → Option (Output × List Arg)
put_string size (text xs ∷ args) o =
    rest_of args (put_measured o size (characters xs) (strlen (suc (length xs)) (characters xs) 0))
put_string size _ o = none

abbrev pub put_int : (size : ℕ) → (num_buf : Bytes) → List Arg → Output → Option (Output × List Arg)
put_int size num_buf (int is_minus magnitude ∷ args) o =
    rest_of args (put_number o size (itoa is_minus magnitude num_buf 10))
put_int size num_buf _ o = none

abbrev pub put_word :
    (size : ℕ) → (num_buf : Bytes) → List Arg → Output → Option (Output × List Arg)
put_word size num_buf (word v ∷ args) o = rest_of args (put_number o size (itoa_word num_buf v))
put_word size num_buf _ o = none

abbrev pub put_character : (size : ℕ) → List Arg → Output → Option (Output × List Arg)
put_character size (character c ∷ args) o = some (put_if_room o size c, args)
put_character size _ o = none

unfoldable pub directive :
    (size : ℕ) → (num_buf : Bytes) → (letter : ℕ) → List Arg → Output → Option (Output × List Arg)
directive size num_buf letter args o =
    if letter == b's'
    then put_string size args o
    else if (letter == b'd')
    then put_int size num_buf args o
    else if (letter == b'i')
    then put_int size num_buf args o
    else if (letter == b'x')
    then put_word size num_buf args o
    else if (letter == b'p')
    then put_word size num_buf args o
    else if letter == b'c'
    then put_character size args o
    else if letter == b'%'
    then some (put_if_room o size b'%', args)
    else some (o, args)

-- The loop over the format.
unfoldable pub format_loop :
    (size : ℕ) → (num_buf : Bytes) → List ℕ → List Arg → Output → Option Output
format_loop size num_buf [] args o = some o
format_loop size num_buf (c ∷ []) args o =
    if ltb o.written size then (if c == b'%' then none else some (put o c)) else some o
format_loop size num_buf (c ∷ d ∷ format) args o =
    let after : Option Output = elim (directive size num_buf d args o) [
      | none ↦ none
      | some (o', args') ↦ format_loop size num_buf format args' o'
    ] in
    let plain = format_loop size num_buf (d ∷ format) args (put o c) in
    if ltb o.written size then (if c == b'%' then after else plain) else some o

-- The terminator behind the text, or in the last place of the buffer.
abbrev pub finish : (str size : ℕ) → Option Output → Option (Bytes × ℕ)
finish str size none = none
finish str size (some o) =
    if ltb o.written size
    then some (store o.bytes o.str_ptr 0, o.written)
    else if ltb 0 size
    then some (store o.bytes (str + size - 1) 0, o.written)
    else some (o.bytes, o.written)

unfoldable pub vsnprintf :
    Bytes → (str size : ℕ) → (num_buf : Bytes) → (format : List ℕ) → List Arg → Option (Bytes × ℕ)
vsnprintf m str size num_buf format args =
    finish str size
      (format_loop size num_buf format args (record { bytes = m; str_ptr = str; written = 0 }))
