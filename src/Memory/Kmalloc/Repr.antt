-- ===== src/Memory/Kmalloc/Repr.antt =====
-- How a sequence of blocks lies in memory (kern/memory/kmalloc.c): each header right behind the
-- block before it, the last block ending at the end of the heap.
use astral_os.Common.{
  ℕ, ◌+◌, ◌^◌, ◌≤◌, ◌<◌, ◌≡◌, refl, ap, inl, inr, Bool, List, [], ◌∷◌, arith, length, ==_ne,
}
use astral_os.Memory.Kmalloc.{BlockHeader, Memory, Heap, write, header_size, rounds}
use astral_os.Memory.Kmalloc.Blocks.{Block, block, Holds}

-- The list that starts at the pointer `p` has the blocks `bs`, which fill the addresses from `s`
-- to `e`.
abbrev pub Repr : Memory → ℕ → ℕ → ℕ → List Block → Type 0
Repr mem p s e [] = (p ≡ 0) × (s ≡ e)
Repr mem p s e (b ∷ bs) =
    (p ≡ s)
    × (0 < s)
    × ((mem s).size ≡ b.size)
    × ((mem s).free ≡ b.free)
    × Repr mem (mem s).next (s + header_size + b.size) e bs

abbrev pub SameBelow : ℕ → Memory → Memory → Type 0
SameBelow s mem mem' = (x : ℕ) → x < s → mem' x ≡ mem x

pub Repr-le : (mem : Memory) (p s e : ℕ) (bs : List Block) → Repr mem p s e bs → s ≤ e
Repr-le mem p s e [] h = omega arith
Repr-le mem p s e (b ∷ bs) h =
    omega (arith, Repr-le mem (mem s).next (s + header_size + b.size) e bs h.4)

-- A write below the blocks is not seen.
pub Repr-write :
    (mem : Memory) (p s e : ℕ) (bs : List Block) (a : ℕ) (v : BlockHeader)
    → a < s
    → Repr mem p s e bs
    → Repr (write mem a v) p s e bs
Repr-write mem p s e [] a v lt h = h
Repr-write mem p s e (b ∷ bs) a v lt h = rw (==_ne s a (omega arith)) (
  h.0,
  h.1,
  h.2,
  h.3,
  Repr-write mem (mem s).next (s + header_size + b.size) e bs a v (omega arith) h.4,
)

-- The heap of the kernel holds the blocks `bs`.
pub record IsHeap (h : Heap) (bs : List Block) : Type 0 where
  pub blocks :
      Repr h.mem h.heap_start_ptr h.heap_start_ptr (h.heap_start_ptr + h.total_heap_size) bs
  pub fits : h.heap_start_ptr + h.total_heap_size < 2 ^ 64

pub Repr-at :
    (mem : Memory) {p p' s s' : ℕ} (e : ℕ) (bs : List Block)
    → p ≡ p'
    → s ≡ s'
    → Repr mem p s e bs
    → Repr mem p' s' e bs
Repr-at mem e bs ep es h = rw (← ep, ← es) h

abbrev pub header : ℕ → ℕ → Bool → BlockHeader
header n next f = record { size = n; next = next; free = f }

-- A header at `s`, and the blocks behind it.
pub Repr-cons :
    (mem : Memory) (s e n next : ℕ) (f : Bool) (bs : List Block)
    → 0 < s
    → mem s ≡ header n next f
    → Repr mem next (s + header_size + n) e bs
    → Repr mem s s e (block n f ∷ bs)
Repr-cons mem s e n next f bs pos at h =
    (refl, pos, ap (λ (v : BlockHeader). v.size) at, ap (λ (v : BlockHeader). v.free) at, rw at h)

-- Every payload lies in the heap.
pub Holds-bound :
    (mem : Memory) (p s e : ℕ) (bs : List Block) (ptr n : ℕ) (f : Bool)
    → Repr mem p s e bs
    → Holds s bs ptr n f
    → ptr + n ≤ e
Holds-bound mem p s e [] ptr n f h a = absurd a
Holds-bound mem p s e (b ∷ bs) ptr n f h (inl (at, size, status)) =
    omega (arith, Repr-le mem (mem s).next (s + header_size + b.size) e bs h.4)
Holds-bound mem p s e (b ∷ bs) ptr n f h (inr a) =
    Holds-bound mem (mem s).next (s + header_size + b.size) e bs ptr n f h.4 a

Repr-length : (mem : Memory) (p s e : ℕ) (bs : List Block) → Repr mem p s e bs → s + length bs ≤ e
Repr-length mem p s e [] h = omega arith
Repr-length mem p s e (b ∷ bs) h =
    omega (arith, Repr-length mem (mem s).next (s + header_size + b.size) e bs h.4)

-- The fuel of the loops is enough.
pub length-lt-rounds : (h : Heap) (bs : List Block) → IsHeap h bs → length bs < rounds h
length-lt-rounds h bs is = omega (
  arith,
  Repr-length h.mem h.heap_start_ptr h.heap_start_ptr (h.heap_start_ptr + h.total_heap_size) bs
      is.blocks,
)
