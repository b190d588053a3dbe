-- ===== src/Memory/Kmalloc/Limits.antt =====
-- Where kern/memory/kmalloc.c stops short of what a caller expects: sizes near 2^64, and free
-- blocks that one call of `kfree` does not join.
use astral_os.Common.{
  ℕ, ◌+◌, ◌-◌, ◌^◌, ◌≤◌, ◌<◌, ◌≡◌, ◌⊎◌, inl, inr, refl, subst, ==_ne, true, false, Option, none,
  some, List, [], ◌∷◌, arith, ==_refl,
}
use astral_os.Memory.Kmalloc.{Heap, header_size, round_up, kmalloc, kfree}
use astral_os.Memory.Kmalloc.Blocks.{Block, block, alloc, release, coalesce, Holds-le}
use astral_os.Memory.Kmalloc.Repr.{IsHeap}
use astral_os.Memory.Kmalloc.Alloc.{Served, kmalloc_refines}
use astral_os.Memory.Kmalloc.Free.{kfree_refines}
use astral_os.Memory.Kmalloc.Safety.{NoRoom, Outcome, alloc-Outcome}

abbrev pub SomeFree : List Block → Type 0
SomeFree [] = ⊥
SomeFree (b ∷ bs) = (b.free ≡ true) ⊎ SomeFree bs

SomeFree-NoRoom : (bs : List Block) → SomeFree bs → NoRoom 0 bs → ⊥
SomeFree-NoRoom [] f n = f
SomeFree-NoRoom (b ∷ bs) (inl free) (n, ns) = absurd (omega (arith, n free))
SomeFree-NoRoom (b ∷ bs) (inr f) (n, ns) = SomeFree-NoRoom bs f ns

Served-pos :
    (h : Heap) (bs : List Block) (o : Option (ℕ × List Block)) (r : Option (ℕ × Heap))
    → SomeFree bs
    → Outcome 0 h.heap_start_ptr bs o
    → Served h o r
    → (p : ℕ) × (h' : Heap) × (r ≡ some (p, h')) × (0 < p)
Served-pos h bs none r f room ran = absurd (SomeFree-NoRoom bs f room)
Served-pos h bs (some (a, cs)) r f fits (h', ran, is, begins, lasts) =
    let (n, fit, held) = fits.taken in
    (a, h', ran, omega (arith, Holds-le h.heap_start_ptr cs a n false held))

-- For each of the seven largest sizes of 64 bits, `kmalloc` returns a pointer that is not null on a
-- heap with any free block, however small: the rounded size has wrapped to 0.
pub kmalloc_wraps :
    (h : Heap) (bs : List Block) (size : ℕ)
    → IsHeap h bs
    → SomeFree bs
    → 2 ^ 64 - 7 ≤ size
    → size < 2 ^ 64
    → (p : ℕ) × (h' : Heap) × (kmalloc h size ≡ some (p, h')) × (0 < p)
kmalloc_wraps h bs size is f big word =
    let wrap : round_up size ≡ 0 = omega arith in
    let ran = kmalloc_refines h bs size is (omega arith) in
    Served-pos h bs (alloc 0 h.heap_start_ptr bs) _ f (alloc-Outcome 0 h.heap_start_ptr bs)
      (subst (λ n. Served h (alloc n h.heap_start_ptr bs) (kmalloc h size)) wrap ran)

abbrev gap : ℕ → ℕ → ℕ → List Block
gap a b c = block (a + header_size + b) true ∷ block c true ∷ []

freed-gap :
    (s a b c : ℕ)
    → coalesce (
        release
          (s + header_size + a + header_size)
          s
          (block a true ∷ block b false ∷ block c true ∷ []))
      ≡ gap a b c
unfolding coalesce release
freed-gap s a b c =
    rw
      (
        ==_ne (s + header_size + a + header_size) (s + header_size) (omega arith),
        ==_refl (s + header_size + a + header_size),
      )
      refl

alloc-gap : (n s a b c : ℕ) → a + header_size + b < n → c < n → alloc n s (gap a b c) ≡ none
unfolding alloc
alloc-gap n s a b c first second = ground arith

-- In a heap of exactly three blocks, the first and the last free, `kfree` of the one in the middle
-- leaves two free blocks side by side, and no other: afterwards each size, other than 0, that
-- is above the sizes of both once it is rounded up to a multiple of 8 at 64 bits, is refused.
pub kfree_leaves_gap :
    (h : Heap) (a b c : ℕ)
    → IsHeap h (block a true ∷ block b false ∷ block c true ∷ [])
    → (h' : Heap) × (kfree h (h.heap_start_ptr + header_size + a + header_size) ≡ some h')
      × IsHeap h' (block (a + header_size + b) true ∷ block c true ∷ [])
      × ((n : ℕ)
          → 0 < n
          → a + header_size + b < round_up n
          → c < round_up n
          → kmalloc h' n ≡ some (0, h'))
kfree_leaves_gap h a b c is =
    let s : ℕ = h.heap_start_ptr in
    let done =
      kfree_refines h _ (s + header_size + a + header_size) b false is
        (inr (inl (refl, refl, refl))) in
    let left : IsHeap done.0 (gap a b c) = subst (IsHeap done.0) (freed-gap s a b c) done.2 in
    (
      done.0,
      done.1,
      left,
      λ n pos first second.
          subst (λ o. Served done.0 o (kmalloc done.0 n))
            (alloc-gap (round_up n) done.0.heap_start_ptr a b c first second)
            (kmalloc_refines done.0 (gap a b c) n left pos),
    )

Served-none :
    (size : ℕ) (h h' : Heap) (bs : List Block) (o : Option (ℕ × List Block)) (r : Option (ℕ × Heap))
    → Outcome size h.heap_start_ptr bs o
    → Served h o r
    → r ≡ some (0, h')
    → NoRoom size bs × (h' ≡ h)
Served-none size h h' bs none r room ran e = (room, ground arith)
Served-none size h h' bs (some (a, cs)) r fits (h'', ran, is, begins, lasts) e =
    let (n, fit, held) = fits.taken in
    let past = Holds-le h.heap_start_ptr cs a n false held in absurd (ground arith)

-- For a size that is not 0, `kmalloc` returns the null pointer only where every free block is smaller
-- than the rounded size, and the heap is then as it was.
pub kmalloc-null :
    (h h' : Heap) (bs : List Block) (size : ℕ)
    → IsHeap h bs
    → 0 < size
    → kmalloc h size ≡ some (0, h')
    → NoRoom (round_up size) bs × (h' ≡ h)
kmalloc-null h h' bs size is pos e =
    Served-none (round_up size) h h' bs _ _ (alloc-Outcome (round_up size) h.heap_start_ptr bs)
      (kmalloc_refines h bs size is pos) e
