-- ===== src/Memory/Kmalloc/Free.antt =====
-- The loop of `kfree` implements one coalescing pass over the blocks of the heap.
use astral_os.Common.{
  ℕ, zero, suc, ◌+◌, ◌-◌, ◌^◌, ◌≤◌, ◌<◌, ◌≡◌, inl, inr, refl, ◌∙◌, subst, Bool, true, false, ◌&&◌,
  Option, some, List, [], ◌∷◌, arith, length, ◌==◌, ==_ne, ==_refl, Bool-cases, add64, sub64,
}
use astral_os.Memory.Kmalloc.{
  Memory, Heap, write, header_size, merge_next, free_loop, kfree, rounds,
}
use astral_os.Memory.Kmalloc.Blocks.{Block, block, coalesce, release, Holds, Holds-le}
use astral_os.Memory.Kmalloc.Repr.{
  IsHeap, length-lt-rounds, Repr, SameBelow, Repr-le, Repr-write, Repr-at, Repr-cons, header,
  Holds-bound,
}

abbrev after : ℕ → Block → ℕ
after s b = s + header_size + b.size

abbrev both : Block → Block → ℕ
both b c = b.size + header_size + c.size

module _ (mem : Memory) (s : ℕ) (b c : Block) where
  joined : Memory
  joined =
      write (write mem s (header (both b c) (after s b) b.free)) s
        (header (both b c) (mem (after s b)).next b.free)

  joined-SameBelow : SameBelow s mem joined
  unfolding joined
  joined-SameBelow x lt = ground arith

module _ (mem : Memory) (s e : ℕ) (b c : Block) (bs : List Block) (h : Repr mem s s e (b ∷ c ∷ bs))
    (top : e < 2 ^ 64) where
  end : after s b + header_size + c.size ≤ e
  end = Repr-le mem (mem (after s b)).next (after s b + header_size + c.size) e bs h.4.4

  merge_next-joined : (b.free && c.free) ≡ true → merge_next mem s ≡ joined mem s b c
  unfolding merge_next joined
  merge_next-joined free =
      let at : add64 (add64 s header_size) b.size ≡ after s b = omega (arith, end) in
      let sum : add64 b.size (add64 header_size c.size) ≡ (both b c) = omega (arith, end) in
      let test : (b.free && true && c.free && true) ≡ true = ground arith in
      rw
        (
          h.4.0,
          h.2,
          h.3,
          h.4.2,
          h.4.3,
          at,
          sum,
          ==_refl (after s b),
          ==_ne (after s b) 0 (omega arith),
          ==_refl s,
          ==_ne (after s b) s (omega arith),
          test,
        )
        refl

  merge_next-same : (b.free && c.free) ≡ false → merge_next mem s ≡ mem
  unfolding merge_next
  merge_next-same busy = rw (h.4.0, h.2, h.3, h.4.2, h.4.3) (ground arith)

  Repr-joined : Repr (joined mem s b c) s s e (block (both b c) b.free ∷ bs)
  unfolding joined
  Repr-joined =
      Repr-cons (joined mem s b c) s e (both b c) (mem (after s b)).next b.free bs h.1
        (ground arith)
        (Repr-at (joined mem s b c) e bs refl (omega arith) (
          Repr-write _ _ _ e bs s (header (both b c) (mem (after s b)).next b.free) (omega arith)
            (Repr-write mem _ _ e bs s (header (both b c) (after s b) b.free) (omega arith) h.4.4)))

merge_next-last : (mem : Memory) (s : ℕ) → (mem s).next ≡ 0 → merge_next mem s ≡ mem
unfolding merge_next
merge_next-last mem s last = rw last (ground arith)

abbrev pub Freed : Memory → (p s e : ℕ) → List Block → Option Memory → Type 0
Freed mem p s e bs r = (mem' : Memory) × (r ≡ some mem') × Repr mem' p s e bs × SameBelow s mem mem'

Freed-cons :
    (mem : Memory) (s e : ℕ) (b : Block) (bs cs : List Block) (r : Option Memory)
    → Repr mem s s e (b ∷ bs)
    → Freed mem (mem s).next (s + header_size + b.size) e cs r
    → Freed mem s s e (b ∷ cs) r
Freed-cons mem s e b bs cs r h (mem', ran, rep, same) =
    (mem', ran, rw (same s (omega arith)) (refl, h.1, h.2, h.3, rep), λ x lt. same x (omega arith))

Freed-trans :
    (mem mem1 : Memory) (p s e : ℕ) (bs : List Block) (r : Option Memory)
    → SameBelow s mem mem1
    → Freed mem1 p s e bs r
    → Freed mem p s e bs r
Freed-trans mem mem1 p s e bs r before (mem', ran, rep, same) =
    (mem', ran, rep, λ x lt. same x lt ∙ before x lt)

pub free_loop-Freed :
    (fuel : ℕ) (mem : Memory) (p s e : ℕ) (bs : List Block)
    → Repr mem p s e bs
    → e < 2 ^ 64
    → length bs < fuel
    → Freed mem p s e (coalesce bs) (free_loop fuel mem p)
unfolding coalesce free_loop
free_loop-Freed zero mem p s e bs h top enough = absurd (omega arith)
free_loop-Freed (suc fuel) mem p s e [] h top enough = (mem, rw h.0 refl, h, λ x lt. refl)
free_loop-Freed (suc fuel) mem p s e (b ∷ []) h top enough =
    let alone : merge_next mem s ≡ mem = merge_next-last mem s h.4.0 in
    rw (h.0, ==_ne s 0 (omega arith), alone)
      (Freed-cons mem s e b [] [] _ (refl, h.1, h.2, h.3, h.4)
        (free_loop-Freed fuel mem (mem s).next _ e [] h.4 top (omega arith)))
free_loop-Freed (suc fuel) mem p s e (b ∷ c ∷ bs) h top enough =
    let here : Repr mem s s e (b ∷ c ∷ bs) = (refl, h.1, h.2, h.3, h.4) in
    rw (h.0, ==_ne s 0 (omega arith))
      (elim (Bool-cases (b.free && c.free)) [
        | inl free ↦
            let rep : Repr (joined mem s b c) s s e (block (both b c) b.free ∷ bs) =
              Repr-joined mem s e b c bs here top in
            let whole : b.free ≡ true = ground arith in
            rw (free, coalesce, merge_next-joined mem s e b c bs here top free)
              (subst
                (λ f.
                  Freed mem s s e (block (both b c) f ∷ coalesce bs)
                    (free_loop fuel (joined mem s b c) (joined mem s b c s).next))
                whole
                (Freed-trans mem (joined mem s b c) s s e (block (both b c) b.free ∷ coalesce bs) _
                  (joined-SameBelow mem s b c)
                  (Freed-cons (joined mem s b c) s e (block (both b c) b.free) bs (coalesce bs) _
                    rep
                    (free_loop-Freed fuel (joined mem s b c) (joined mem s b c s).next _ e bs rep.4
                      top (omega arith)))))
        | inr busy ↦
            rw (busy, coalesce, merge_next-same mem s e b c bs here top busy)
              (Freed-cons mem s e b (c ∷ bs) (coalesce (c ∷ bs)) _ here
                (free_loop-Freed fuel mem (mem s).next _ e (c ∷ bs) h.4 top (omega arith)))
      ])

abbrev mark : Memory → ℕ → Memory
mark mem a = write mem a (record (mem a) { free = true })

-- Setting `free` in the header in front of `ptr` marks that block and no other.
release-Repr :
    (mem : Memory) (p s e : ℕ) (bs : List Block) (ptr x n : ℕ) (f : Bool)
    → ptr ≡ x + header_size
    → Repr mem p s e bs
    → Holds s bs ptr n f
    → Repr (mark mem x) p s e (release ptr s bs)
unfolding release
release-Repr mem p s e [] ptr x n f at h a = absurd a
release-Repr mem p s e (b ∷ bs) ptr x n f at h (inl (here, size, status)) =
    let cell : mark mem s s ≡ header b.size (mem s).next true = ground arith in
    let same : s ≡ x = omega arith in
    let hit : (ptr == s + header_size) ≡ true = ground arith in
    rw (hit, h.0)
      (subst (λ y. Repr (mark mem y) s s e (block b.size true ∷ bs)) same
        (Repr-cons (mark mem s) s e b.size (mem s).next true bs h.1 cell
          (Repr-write mem _ _ e bs s (record (mem s) { free = true }) (omega arith) h.4)))
release-Repr mem p s e (b ∷ bs) ptr x n f at h (inr a) =
    let past = Holds-le (s + header_size + b.size) bs ptr n f a in
    rw (==_ne ptr (s + header_size) (omega arith), ==_ne s x (omega arith))
      (h.0, h.1, h.2, h.3, release-Repr mem (mem s).next _ e bs ptr x n f at h.4 a)

length-release : (ptr s : ℕ) (bs : List Block) → length (release ptr s bs) ≡ length bs
unfolding release
length-release ptr s [] = refl
length-release ptr s (b ∷ bs) = ground (arith, length-release ptr (s + header_size + b.size) bs)

-- What `kfree` returns: a heap of the same extent that holds the blocks `bs`.
abbrev pub Returned : Heap → List Block → Option Heap → Type 0
Returned h bs r =
    (h' : Heap) × (r ≡ some h')
    × IsHeap h' bs
    × (h'.heap_start_ptr ≡ h.heap_start_ptr)
    × (h'.total_heap_size ≡ h.total_heap_size)

-- On a heap that holds the blocks `bs`, `kfree` of the payload address
-- of a block returns: it marks that block as free, and joins the free blocks in one pass.
pub kfree_refines :
    (h : Heap) (bs : List Block) (ptr n : ℕ) (f : Bool)
    → IsHeap h bs
    → Holds h.heap_start_ptr bs ptr n f
    → Returned h (coalesce (release ptr h.heap_start_ptr bs)) (kfree h ptr)
unfolding kfree
kfree_refines h bs ptr n f is a =
    let s : ℕ = h.heap_start_ptr in
    let e : ℕ = s + h.total_heap_size in
    let past = Holds-le s bs ptr n f a in
    let below = Holds-bound h.mem s s e bs ptr n f is.blocks a in
    let at : sub64 ptr header_size ≡ ptr - header_size = omega (arith, is.fits) in
    let (mem', ran, rep, same) =
      free_loop-Freed (rounds h) (mark h.mem (ptr - header_size)) s s e (release ptr s bs)
        (release-Repr h.mem s s e bs ptr (ptr - header_size) n f (omega arith) is.blocks a) is.fits
        (omega (arith, length-release ptr s bs, length-lt-rounds h bs is)) in
    rw (at, ==_ne ptr 0 (omega arith))
      (record h { mem = mem' }, rw ran refl, record { blocks = rep; fits = is.fits }, refl, refl)
