-- ===== src/Strings.antt =====
-- kern/lib/lib.c: the memory and string routines. A memory object is a function from offsets to bytes,
-- and a pointer is an offset into its object. A loop that a terminator ends runs on fuel, and is
-- `none` when the fuel is used up. The `int` of a comparison is the difference of two characters, and
-- is the pair of them here.
pub mod Effects
pub mod Terminated
pub mod Copied
pub mod Search
pub mod Itoa
pub mod Digits
pub mod Printed
pub mod Format
pub mod Room
pub mod Expanded
pub mod Loop
pub mod Formatted
mod Tests
use astral_os.Common.{
  ℕ, zero, suc, ◌+◌, ◌%◌, Option, none, some, Bool, true, false, not, ◌&&◌, if◌then◌else◌, ◌==◌,
  Bytes, store,
}

pub memset : (m : Bytes) (s c n : ℕ) → Bytes
memset m s c zero = m
memset m s c (suc n) = memset (store m s (c % 256)) (s + 1) c n

pub memcpy : (m : Bytes) (dest : ℕ) (source : Bytes) (src n : ℕ) → Bytes
memcpy m dest source src zero = m
memcpy m dest source src (suc n) = memcpy (store m dest (source src)) (dest + 1) source (src + 1) n

-- Whether the loops of the comparisons go on: `*s1 && (*s1 == *s2)`.
abbrev pub agree : ℕ → ℕ → Bool
agree a b = not (a == 0) && (a == b)

pub strcmp : (fuel : ℕ) (m1 : Bytes) (s1 : ℕ) (m2 : Bytes) (s2 : ℕ) → Option (ℕ × ℕ)
strcmp zero m1 s1 m2 s2 = none
strcmp (suc fuel) m1 s1 m2 s2 =
    let rest = strcmp fuel m1 (s1 + 1) m2 (s2 + 1) in
    if agree (m1 s1) (m2 s2) then rest else some (m1 s1, m2 s2)

pub strncmp : (m1 : Bytes) (s1 : ℕ) (m2 : Bytes) (s2 n : ℕ) → ℕ × ℕ
strncmp m1 s1 m2 s2 zero = (0, 0)
strncmp m1 s1 m2 s2 (suc n) =
    let rest = strncmp m1 (s1 + 1) m2 (s2 + 1) n in
    if agree (m1 s1) (m2 s2) then rest else (m1 s1, m2 s2)

-- `n` zero bytes: the second loop of `strncpy`.
pub pad : (m : Bytes) (dest n : ℕ) → Bytes
pad m dest zero = m
pad m dest (suc n) = pad (store m dest 0) (dest + 1) n

pub strncpy : (m : Bytes) (dest : ℕ) (source : Bytes) (src n : ℕ) → Bytes
unfolding pad
strncpy m dest source src zero = m
strncpy m dest source src (suc n) =
    let rest = strncpy (store m dest (source src)) (dest + 1) source (src + 1) n in
    if source src == 0 then pad m dest (suc n) else rest

-- The result is null (`some none`) or a pointer.
pub strchr : (fuel : ℕ) (m : Bytes) (s c : ℕ) → Option (Option ℕ)
strchr zero m s c = none
strchr (suc fuel) m s c =
    let rest = strchr fuel m (s + 1) c in
    if m s == c % 256 then some (some s) else if m s == 0 then some none else rest

pub strlen_from : (fuel : ℕ) (m : Bytes) (s len : ℕ) → Option ℕ
strlen_from zero m s len = none
strlen_from (suc fuel) m s len =
    let rest = strlen_from fuel m (s + 1) (len + 1) in if m s == 0 then some len else rest

pub strlen : (fuel : ℕ) (m : Bytes) (s : ℕ) → Option ℕ
unfolding strlen_from
strlen fuel m s = strlen_from fuel m s 0
