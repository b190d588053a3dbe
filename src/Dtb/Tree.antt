-- ===== src/Dtb/Tree.antt =====
-- kern/boot/dtb.c: a device tree as the tokens of its structure block, and how they lie in memory.
use astral_os.Common.{
  ℕ, zero, suc, ◌+◌, ◌≤◌, ◌<◌, ◌≡◌, ◌≢◌, inl, inr, ap, ◌∙◌, arith, false, Bool-cases, some, List,
  [], ◌∷◌, length, ◌==◌, ==_ne, Bytes, get32,
}
use astral_os.Strings.Terminated.{IsString}
use astral_os.Dtb.{
  bswap32, fdt_begin_node, fdt_end_node, fdt_prop, fdt_end, align_up4, count_slashes,
}

pub data Token : Type 0 where
  begins : (name : List ℕ) → Token
  ends : Token
  prop : (nameoff len : ℕ) → Token
  nop : Token

-- The big-endian word at an address.
abbrev pub word_at : Bytes → ℕ → ℕ
word_at m p = bswap32 (get32 m p)

-- The tokens lie one after the other from `p` on, with the end of the block behind them.
abbrev pub Laid : Bytes → ℕ → List Token → Type 0
Laid m p [] = word_at m p ≡ fdt_end
Laid m p (begins name ∷ ts) =
    (word_at m p ≡ fdt_begin_node)
    × IsString m (p + 4) name
    × Laid m (align_up4 (p + 4 + (length name + 1))) ts
Laid m p (ends ∷ ts) = (word_at m p ≡ fdt_end_node) × Laid m (p + 4) ts
Laid m p (prop nameoff len ∷ ts) =
    (word_at m p ≡ fdt_prop)
    × (word_at m (p + 4) ≡ len)
    × (word_at m (p + 4 + 4) ≡ nameoff)
    × Laid m (align_up4 (p + 4 + 8 + len)) ts
Laid m p (nop ∷ ts) = (word_at m p ≡ 4) × Laid m (p + 4) ts

-- What may stand inside so many open nodes: no node is opened when the root is closed, and the names of the
-- nodes below it are not empty up to `@`.
pub data Inside (width : ℕ) : ℕ → List Token → Type 0 where
  over : {d : ℕ} → Inside width d []
  opens :
      {d : ℕ} {ts : List Token} (x : ℕ) (xs : List ℕ)
      → x ≢ b'@'
      → suc (length xs) < width
      → Inside width (suc (suc d)) ts
      → Inside width (suc d) (begins (x ∷ xs) ∷ ts)
  closes : {d : ℕ} {ts : List Token} → Inside width d ts → Inside width (suc d) (ends ∷ ts)
  has :
      {d : ℕ} {ts : List Token} (nameoff len : ℕ)
      → Inside width d ts
      → Inside width d (prop nameoff len ∷ ts)
  skips : {d : ℕ} {ts : List Token} → Inside width d ts → Inside width d (nop ∷ ts)

-- The slashes of a path are counted, and are no more than its characters.
pub count_slashes-some :
    (width : ℕ) (path : Bytes) (i count : ℕ) (xs : List ℕ)
    → IsString path i xs
    → length xs < width
    → (n : ℕ) × (count_slashes width path i count ≡ some (count + n)) × (n ≤ length xs)
unfolding count_slashes
count_slashes-some zero path i count xs str h = absurd (omega arith)
count_slashes-some (suc width) path i count [] str h =
    (0, rw str (ap some (omega arith)), omega arith)
count_slashes-some (suc width) path i count (x ∷ xs) (e, ne, str) h =
    let going : (x == 0) ≡ false = ==_ne x 0 ne in
    elim (Bool-cases (x == b'/')) [
      | inl slash ↦
          let (n, counted, few) =
            count_slashes-some width path (i + 1) (count + 1) xs str (omega arith) in
          (suc n, rw (e, going, slash) (counted ∙ ap some (omega arith)), omega arith)
      | inr other ↦
          let (n, counted, few) =
            count_slashes-some width path (i + 1) count xs str (omega arith) in
          (n, rw (e, going, other) counted, omega arith)
    ]
