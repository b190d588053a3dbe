-- ===== src/Strings/Itoa.antt =====
-- kern/lib/lib.c, `itoa`: a number in a given base. The buffer is a memory object from offset 0 on. A
-- `long long` is given by its sign and its magnitude, as `%` and `/` of C treat it.
use astral_os.Common.{
  ℕ, zero, suc, ◌+◌, ◌-◌, ◌/◌, ◌%◌, Bool, true, false, ◌&&◌, Option, none, some, if◌then◌else◌, ltb,
  ◌==◌, Bytes, store,
}

-- The digit `num % base` of a number, as the character that the code makes of it: a negative number has
-- negative digits, which no branch of the code expects outside base 10.
abbrev pub digit_char : (is_minus : Bool) → ℕ → ℕ
digit_char is_minus d = if is_minus then b'0' - d else if ltb 9 d then d - 10 + b'a' else b'0' + d

-- `while (num != 0)`, on fuel: the buffer and `ptr` after it.
unfoldable pub digits_loop :
    (fuel : ℕ) → (is_minus : Bool) → (base : ℕ) → Bytes → (ptr num : ℕ) → Option (Bytes × ℕ)
digits_loop zero is_minus base m ptr num = if num == 0 then some (m, ptr) else none
digits_loop (suc fuel) is_minus base m ptr num =
    let rest =
      digits_loop fuel is_minus base (store m ptr (digit_char is_minus (num % base))) (ptr + 1)
        (num / base) in
    if num == 0 then some (m, ptr) else rest

-- `while (ptr1 < ptr)`: the bytes from `ptr1` to `ptr` are turned round.
unfoldable pub reverse_loop : (fuel : ℕ) → Bytes → (ptr1 ptr : ℕ) → Bytes
reverse_loop zero m ptr1 ptr = m
reverse_loop (suc fuel) m ptr1 ptr =
    let swapped = store (store m ptr (m ptr1)) ptr1 (m ptr) in
    let rest = reverse_loop fuel swapped (ptr1 + 1) (ptr - 1) in if ltb ptr1 ptr then rest else m

-- The sign, the terminator, and the loop that turns the digits round.
abbrev pub finish_itoa : (is_negative : Bool) → Option (Bytes × ℕ) → Option Bytes
finish_itoa is_negative none = none
finish_itoa true (some (m, ptr)) =
    some (reverse_loop ptr (store (store m ptr b'-') (ptr + 1) 0) 0 ptr)
finish_itoa false (some (m, ptr)) = some (reverse_loop ptr (store m ptr 0) 0 (ptr - 1))

-- A 64-bit number has at most 20 digits in base 10, and 16 in base 16.
abbrev pub itoa_rounds : ℕ
itoa_rounds = 20

-- In base 10 the sign is taken off first, and the digits are those of the magnitude.
unfoldable pub itoa :
    (is_minus : Bool) → (magnitude : ℕ) → (str : Bytes) → (base : ℕ) → Option Bytes
itoa is_minus magnitude str base =
    let is_negative = is_minus && (base == 10) in
    let signed_digits = if is_negative then false else is_minus in
    if magnitude == 0
    then some (store (store str 0 b'0') 1 0)
    else finish_itoa is_negative (digits_loop itoa_rounds signed_digits base str 0 magnitude)
