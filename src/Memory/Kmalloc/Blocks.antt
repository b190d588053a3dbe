-- ===== src/Memory/Kmalloc/Blocks.antt =====
-- What kern/memory/kmalloc.c promises, over the sequence of blocks that tile the heap: first fit,
-- and one pass that joins neighbouring free blocks.
use astral_os.Common.{
  ℕ, ◌+◌, ◌-◌, Bool, true, false, ◌&&◌, Option, none, some, List, [], ◌∷◌, if◌then◌else◌, ltb, leb,
  ◌==◌, ◌⊎◌, ◌≡◌, ◌≤◌, inl, inr, arith,
}
use astral_os.Memory.Kmalloc.{header_size}

pub record Block : Type 0 where
  pub size : ℕ
  pub free : Bool

abbrev pub block : ℕ → Bool → Block
block n f = record { size = n; free = f }

-- Takes the first block: what `size` leaves over becomes a free block if a header fits.
abbrev pub split : ℕ → Block → List Block → List Block
split size b bs =
    if ltb (size + header_size) b.size
    then block size false ∷ block (b.size - size - header_size) true ∷ bs
    else block b.size false ∷ bs

abbrev pub found : Block → Option (ℕ × List Block) → Option (ℕ × List Block)
found b none = none
found b (some (a, bs)) = some (a, b ∷ bs)

-- First fit among the blocks that lie one after another from the address `s` on.
unfoldable pub alloc : ℕ → ℕ → List Block → Option (ℕ × List Block)
alloc size s [] = none
alloc size s (b ∷ bs) =
    if b.free && leb size b.size
    then some (s + header_size, split size b bs)
    else found b (alloc size (s + header_size + b.size) bs)

-- Marks the block whose payload starts at `ptr`.
unfoldable pub release : ℕ → ℕ → List Block → List Block
release ptr s [] = []
release ptr s (b ∷ bs) =
    if ptr == s + header_size
    then block b.size true ∷ bs
    else b ∷ release ptr (s + header_size + b.size) bs

-- One pass: a free block takes in the free block behind it, and the pass goes on behind both.
unfoldable pub coalesce : List Block → List Block
coalesce [] = []
coalesce (b ∷ []) = b ∷ []
coalesce (b ∷ c ∷ bs) = elim (b.free && c.free) [
  | true ↦ block (b.size + header_size + c.size) true ∷ coalesce bs
  | false ↦ b ∷ coalesce (c ∷ bs)
]

-- `ptr` is the payload address of a block of size `n` and status `f`, among the blocks from `s` on.
abbrev pub Holds : ℕ → List Block → (ptr n : ℕ) → Bool → Type 0
Holds s [] ptr n f = ⊥
Holds s (b ∷ bs) ptr n f =
    ((ptr ≡ s + header_size) × (b.size ≡ n) × (b.free ≡ f))
    ⊎ Holds (s + header_size + b.size) bs ptr n f

pub Holds-le :
    (s : ℕ) (bs : List Block) (ptr n : ℕ) (f : Bool) → Holds s bs ptr n f → s + header_size ≤ ptr
Holds-le s [] ptr n f h = absurd h
Holds-le s (b ∷ bs) ptr n f (inl (at, size, status)) = omega arith
Holds-le s (b ∷ bs) ptr n f (inr h) =
    omega (arith, Holds-le (s + header_size + b.size) bs ptr n f h)
