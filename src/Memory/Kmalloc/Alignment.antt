-- ===== src/Memory/Kmalloc/Alignment.antt =====
-- The blocks of the heap of kern/memory/kmalloc.c start at multiples of 8.
use astral_os.Common.{
  ℕ, ◌+◌, ◌%◌, ◌≤◌, ◌≡◌, inl, inr, Bool, ◌&&◌, Option, none, some, List, [], ◌∷◌, arith, ◌==◌, ltb,
  leb, Bool-cases,
}
use astral_os.Memory.Kmalloc.{header_size}
use astral_os.Memory.Kmalloc.Blocks.{Block, split, found, alloc, release, coalesce, Holds}

-- Every block starts at a multiple of 8.
abbrev pub Aligned : ℕ → List Block → Type 0
Aligned s [] = Unit
Aligned s (b ∷ bs) = (s % 8 ≡ 0) × Aligned (s + header_size + b.size) bs

pub Holds-Aligned :
    (s : ℕ) (bs : List Block) (x n : ℕ) (f : Bool) → Aligned s bs → Holds s bs x n f → x % 8 ≡ 0
Holds-Aligned s [] x n f al h = absurd h
Holds-Aligned s (b ∷ bs) x n f al (inl (at, size, used)) = omega arith
Holds-Aligned s (b ∷ bs) x n f al (inr h) = Holds-Aligned (s + header_size + b.size) bs x n f al.1 h

Aligned-at : {s t : ℕ} (bs : List Block) → s ≡ t → Aligned s bs → Aligned t bs
Aligned-at bs e h = rw (← e) h

abbrev pub AlignedOutcome : ℕ → Option (ℕ × List Block) → Type 0
AlignedOutcome s none = Unit
AlignedOutcome s (some (a, cs)) = Aligned s cs

Aligned-found :
    (s : ℕ) (b : Block) (o : Option (ℕ × List Block))
    → s % 8 ≡ 0
    → AlignedOutcome (s + header_size + b.size) o
    → AlignedOutcome s (found b o)
Aligned-found s b none here h = tt
Aligned-found s b (some (a, cs)) here h = (here, h)

Aligned-split :
    (size s : ℕ) (b : Block) (bs : List Block)
    → size % 8 ≡ 0
    → size ≤ b.size
    → Aligned s (b ∷ bs)
    → Aligned s (split size b bs)
Aligned-split size s b bs m fit h = elim (Bool-cases (ltb (size + header_size) b.size)) [
  | inl more ↦ rw more (h.0, (omega arith, Aligned-at bs (ground arith) h.1))
  | inr whole ↦ rw whole h
]

pub alloc-Aligned :
    (size s : ℕ) (bs : List Block)
    → size % 8 ≡ 0
    → Aligned s bs
    → AlignedOutcome s (alloc size s bs)
unfolding alloc
alloc-Aligned size s [] m h = tt
alloc-Aligned size s (b ∷ bs) m h = elim (Bool-cases (b.free && leb size b.size)) [
  | inl hit ↦ rw hit (Aligned-split size s b bs m (ground arith) h)
  | inr miss ↦
      rw miss (Aligned-found s b _ h.0 (alloc-Aligned size (s + header_size + b.size) bs m h.1))
]

pub release-Aligned : (ptr s : ℕ) (bs : List Block) → Aligned s bs → Aligned s (release ptr s bs)
unfolding release
release-Aligned ptr s [] h = tt
release-Aligned ptr s (b ∷ bs) h = elim (Bool-cases (ptr == s + header_size)) [
  | inl hit ↦ rw hit h
  | inr miss ↦ rw miss (h.0, release-Aligned ptr (s + header_size + b.size) bs h.1)
]

pub coalesce-Aligned : (s : ℕ) (bs : List Block) → Aligned s bs → Aligned s (coalesce bs)
unfolding coalesce
coalesce-Aligned s [] h = tt
coalesce-Aligned s (b ∷ []) h = h
coalesce-Aligned s (b ∷ c ∷ bs) h = elim (Bool-cases (b.free && c.free)) [
  | inl free ↦
      rw (free, coalesce)
        (h.0, Aligned-at (coalesce bs) (omega arith) (coalesce-Aligned _ bs h.1.1))
  | inr busy ↦ rw (busy, coalesce) (h.0, coalesce-Aligned (s + header_size + b.size) (c ∷ bs) h.1)
]
