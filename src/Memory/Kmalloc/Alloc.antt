-- ===== src/Memory/Kmalloc/Alloc.antt =====
-- The search loop of `kmalloc` implements first fit on the blocks of the heap.
use astral_os.Common.{
  ℕ, zero, suc, ◌+◌, ◌-◌, ◌^◌, ◌≤◌, ◌<◌, ◌≡◌, inl, inr, refl, sym, subst, true, false, ◌&&◌, Option,
  none, some, List, [], ◌∷◌, arith, length, ==_ne, ==_refl, ltb, leb, Bool-cases, add64, sub64,
  ltb→lt,
}
use astral_os.Memory.Kmalloc.{
  Memory, Heap, write, header_size, split_block, take_block, alloc_loop, kmalloc, round_up, rounds,
}
use astral_os.Memory.Kmalloc.Blocks.{Block, block, split, found, alloc}
use astral_os.Memory.Kmalloc.Repr.{
  IsHeap, length-lt-rounds, Repr, SameBelow, Repr-le, Repr-write, Repr-at, Repr-cons, header,
}

module _ (mem : Memory) (s e size : ℕ) (b : Block) (bs : List Block) (h : Repr mem s s e (b ∷ bs))
    (top : e < 2 ^ 64) where
  abbrev rest : ℕ
  rest = s + header_size + size

  abbrev left : ℕ
  left = b.size - size - header_size

  -- The split as two writes, with no wrap left in its numbers.
  split_block-write :
      size + header_size < b.size
      → split_block mem s size
        ≡ write (write mem rest (header left (mem s).next true)) s (header size rest b.free)
  unfolding split_block
  split_block-write more =
      let end = Repr-le mem (mem s).next (s + header_size + b.size) e bs h.4 in
      let at : add64 (add64 s header_size) size ≡ rest = omega arith in
      let len : sub64 (sub64 (mem s).size size) header_size ≡ left = omega arith in
      rw (at, len, ==_ne s rest (omega arith), h.3) refl

  split_memory : Memory
  split_memory =
      write (write (write mem rest (header left (mem s).next true)) s (header size rest b.free)) s
        (header size rest false)

  end : s + header_size + b.size ≤ e
  end = Repr-le mem (mem s).next (s + header_size + b.size) e bs h.4

  take_block-split : size + header_size < b.size → take_block mem s size ≡ split_memory
  unfolding take_block split_memory
  take_block-split more =
      let fits : ltb (add64 size header_size) (mem s).size ≡ true = ground (arith, end) in
      rw (fits, split_block-write more, ==_refl s) refl

  take_block-whole :
      b.size ≤ size + header_size
      → size ≤ b.size
      → take_block mem s size ≡ write mem s (header b.size (mem s).next false)
  unfolding take_block
  take_block-whole exact fit =
      let full : ltb (add64 size header_size) (mem s).size ≡ false = ground (arith, end) in
      rw (full, h.2) refl

  Repr-split :
      size + header_size < b.size
      → Repr split_memory s s e (block size false ∷ block left true ∷ bs)
  unfolding split_memory
  Repr-split more =
      Repr-cons split_memory s e size rest false (block left true ∷ bs) h.1 (ground arith) (
        Repr-cons split_memory rest e left (mem s).next true bs (omega arith) (ground arith) (
          Repr-at split_memory e bs refl (omega arith) (
            Repr-write _ _ _ e bs s (header size rest false) (omega arith) (
              Repr-write _ _ _ e bs s (header size rest b.free) (omega arith)
                (Repr-write _ _ _ e bs rest (header left (mem s).next true) (omega arith) h.4)))))

  Repr-whole : Repr (write mem s (header b.size (mem s).next false)) s s e (block b.size false ∷ bs)
  Repr-whole =
      Repr-cons _ s e b.size (mem s).next false bs h.1 (ground arith)
        (Repr-write _ _ _ e bs s _ (omega arith) h.4)

  -- Taking a block splits it where what is left over can hold a header.
  take_block-Repr : size ≤ b.size → Repr (take_block mem s size) s s e (split size b bs)
  take_block-Repr fit = elim (Bool-cases (ltb (size + header_size) b.size)) [
    | inl more ↦ rw more (
        subst (λ m. Repr m s s e (block size false ∷ block left true ∷ bs))
          (sym (take_block-split (ltb→lt _ _ more))) (Repr-split (ltb→lt _ _ more)))
    | inr exact ↦ rw exact (
        subst (λ m. Repr m s s e (block b.size false ∷ bs))
          (sym (take_block-whole (ground arith) fit)) Repr-whole)
  ]

  take_block-SameBelow : size ≤ b.size → SameBelow s mem (take_block mem s size)
  unfolding take_block split_block
  take_block-SameBelow fit x lt = ground (arith, end)

-- What the loop returns, read off first fit: no pointer and the same memory, or the payload of the
-- block that first fit takes, and a memory with the blocks that it leaves.
abbrev pub Allocated : Memory → (p s e : ℕ) → Option (ℕ × List Block) → Option (ℕ × Memory) → Type 0
Allocated mem p s e none r = r ≡ some (0, mem)
Allocated mem p s e (some (a, bs)) r =
    (mem' : Memory) × (r ≡ some (a, mem')) × Repr mem' p s e bs × SameBelow s mem mem'

Allocated-found :
    (mem : Memory) (p s e : ℕ) (b : Block) (bs : List Block) (o : Option (ℕ × List Block))
    (r : Option (ℕ × Memory))
    → Repr mem p s e (b ∷ bs)
    → Allocated mem (mem s).next (s + header_size + b.size) e o r
    → Allocated mem p s e (found b o) r
Allocated-found mem p s e b bs none r h a = a
Allocated-found mem p s e b bs (some (q, cs)) r h (mem', ran, rep, same) =
    (mem', ran, rw (same s (omega arith)) (h.0, h.1, h.2, h.3, rep), λ x lt. same x (omega arith))

pub alloc_loop-Allocated :
    (fuel : ℕ) (mem : Memory) (p s e size : ℕ) (bs : List Block)
    → Repr mem p s e bs
    → e < 2 ^ 64
    → length bs < fuel
    → Allocated mem p s e (alloc size s bs) (alloc_loop fuel mem p size)
unfolding alloc alloc_loop
alloc_loop-Allocated zero mem p s e size bs h top enough = absurd (omega arith)
alloc_loop-Allocated (suc fuel) mem p s e size [] h top enough = rw h.0
alloc_loop-Allocated (suc fuel) mem p s e size (b ∷ bs) h top enough =
    let end = Repr-le mem (mem s).next (s + header_size + b.size) e bs h.4 in
    let at : add64 s header_size ≡ s + header_size = omega arith in
    rw (h.0, ==_ne s 0 (omega arith), h.2, h.3)
      (elim (Bool-cases (b.free && leb size b.size)) [
        | inl hit ↦
            let here : Repr mem s s e (b ∷ bs) = (refl, h.1, h.2, h.3, h.4) in
            let fit : size ≤ b.size = ground arith in
            rw (hit, at)
              (
                take_block mem s size,
                refl,
                take_block-Repr mem s e size b bs here top fit,
                take_block-SameBelow mem s e size b bs here top fit,
              )
        | inr miss ↦ rw miss (
            Allocated-found mem s s e b bs (alloc size (s + header_size + b.size) bs) _
              (refl, h.1, h.2, h.3, h.4)
              (alloc_loop-Allocated fuel mem (mem s).next (s + header_size + b.size) e size bs h.4
                top (omega arith)))
      ])

-- What `kmalloc` returns, read off first fit on the blocks of the heap.
abbrev pub Served : Heap → Option (ℕ × List Block) → Option (ℕ × Heap) → Type 0
Served h none r = r ≡ some (0, h)
Served h (some (a, bs)) r =
    (h' : Heap) × (r ≡ some (a, h'))
    × IsHeap h' bs
    × (h'.heap_start_ptr ≡ h.heap_start_ptr)
    × (h'.total_heap_size ≡ h.total_heap_size)

Served-Allocated :
    (h : Heap) (bs : List Block) (o : Option (ℕ × List Block)) (r : Option (ℕ × Memory))
    → IsHeap h bs
    → Allocated h.mem h.heap_start_ptr h.heap_start_ptr (h.heap_start_ptr + h.total_heap_size) o r
    → Served h o (elim r [ none ↦ none | some (p, mem') ↦ some (p, record h { mem = mem' }) ])
Served-Allocated h bs none r is a = rw a
Served-Allocated h bs (some (p, cs)) r is (mem', ran, rep, same) =
    (record h { mem = mem' }, rw ran, record { blocks = rep; fits = is.fits }, refl, refl)

-- On a heap that holds the blocks `bs`, `kmalloc` of a size that is not 0 returns, and it is first
-- fit of the rounded size on `bs`: the null pointer and the same heap where
-- no block fits, and else the payload of the block taken, on a heap of the same extent that holds
-- the blocks that first fit leaves.
pub kmalloc_refines :
    (h : Heap) (bs : List Block) (size : ℕ)
    → IsHeap h bs
    → 0 < size
    → Served h (alloc (round_up size) h.heap_start_ptr bs) (kmalloc h size)
unfolding kmalloc
kmalloc_refines h bs size is pos = rw (==_ne size 0 (omega arith)) (
    Served-Allocated h bs (alloc (round_up size) h.heap_start_ptr bs) _ is (
      alloc_loop-Allocated (rounds h) h.mem h.heap_start_ptr h.heap_start_ptr _ (round_up size) bs
        is.blocks is.fits (length-lt-rounds h bs is)))
