-- ===== src/Memory/Kmalloc/Tests.antt =====
-- Runs of kern/memory/kmalloc.c, and its theorems at concrete heaps.
use astral_os.Common.{
  ℕ, ◌-◌, ◌^◌, ◌<◌, ◌≡◌, inl, inr, refl, true, false, some, List, [], ◌∷◌, arith,
}
use astral_os.Memory.Kmalloc.{
  Memory, Heap, write, round_up, kmalloc_init, kmalloc, kfree, alloc_loop, take_block, split_block,
  free_loop, merge_next,
}
use astral_os.Memory.Kmalloc.Blocks.{Block, block, alloc, release, coalesce}
use astral_os.Memory.Kmalloc.Repr.{IsHeap, header}
use astral_os.Memory.Kmalloc.Alloc.{Served, kmalloc_refines}
use astral_os.Memory.Kmalloc.Free.{Returned, kfree_refines}
use astral_os.Memory.Kmalloc.Grants.{grant, Granted, Reach, boot, served, IsSound}
use astral_os.Memory.Kmalloc.Client.{Reach-IsSound, Reach-returns}
use astral_os.Memory.Kmalloc.Limits.{kmalloc_wraps, kfree_leaves_gap}

abbrev blank : Memory
blank _ = header 0 0 false

abbrev booted : Heap
booted = record {
  heap_start_ptr = 64;
  total_heap_size = 256;
  mem = write blank 64 (header 232 0 true);
}

-- A free block of 16 bytes, one of 8 in use, and a free one for the rest.
abbrev pocked : Heap
pocked = record {
  heap_start_ptr = 64;
  total_heap_size = 256;
  mem =
      write (write (write blank 64 (header 16 104 true)) 104 (header 8 136 false)) 136
        (header 160 0 true);
}

abbrev pocked_blocks : List Block
pocked_blocks = block 16 true ∷ block 8 false ∷ block 160 true ∷ []

booted-IsHeap : IsHeap booted (block 232 true ∷ [])
booted-IsHeap = record {
  blocks = (refl, omega arith, refl, refl, (refl, refl));
  fits = omega arith;
}

pocked-IsHeap : IsHeap pocked pocked_blocks
pocked-IsHeap = record {
  blocks = (
    refl,
    omega arith,
    refl,
    refl,
    (refl, omega arith, refl, refl, (refl, omega arith, refl, refl, (refl, refl))),
  );
  fits = omega arith;
}

booted_lem : kmalloc_init blank 64 256 ≡ booted
unfolding kmalloc_init
booted_lem = refl

two_grants : (h : Heap) × Reach 64 256 h (grant 128 5 ∷ grant 88 16 ∷ [])
unfolding kmalloc_init kmalloc alloc_loop take_block split_block
two_grants = (
  _,
  served 5 128 (served 16 88 (boot blank) (omega arith) refl (omega arith)) (omega arith) refl
      (omega arith),
)

Reach-IsSound_example : IsSound 64 256 (grant 128 5 ∷ grant 88 16 ∷ [])
Reach-IsSound_example =
    Reach-IsSound 64 256 (omega arith) refl (omega arith) (omega arith) two_grants.1

Reach-returns_example :
    ((size : ℕ) → (q : ℕ) × (h' : Heap) × (kmalloc two_grants.0 size ≡ some (q, h')))
    × ((p : ℕ)
        → Granted p (grant 128 5 ∷ grant 88 16 ∷ [])
        → (h' : Heap) × (kfree two_grants.0 p ≡ some h'))
Reach-returns_example =
    Reach-returns 64 256 (omega arith) refl (omega arith) (omega arith) two_grants.1

kmalloc_refines_example : Served pocked (alloc 24 64 pocked_blocks) (kmalloc pocked 20)
kmalloc_refines_example = kmalloc_refines pocked pocked_blocks 20 pocked-IsHeap (omega arith)

kfree_refines_example : Returned pocked (coalesce (release 128 64 pocked_blocks)) (kfree pocked 128)
kfree_refines_example =
    kfree_refines pocked pocked_blocks 128 8 false pocked-IsHeap (inr (inl (refl, refl, refl)))

-- The loop joins the block freed with the one in front of it, and stops short of the one behind.
kfree_lem :
    (h : Heap) × (kfree pocked 128 ≡ some h)
    × (h.mem 64 ≡ header 48 136 true)
    × (h.mem 136 ≡ header 160 0 true)
unfolding kfree free_loop merge_next
kfree_lem = (_, refl, refl, refl)

kfree_leaves_gap_example :
    (h' : Heap) × (kfree pocked 128 ≡ some h')
    × IsHeap h' (block 48 true ∷ block 160 true ∷ [])
    × ((n : ℕ) → 0 < n → 48 < round_up n → 160 < round_up n → kmalloc h' n ≡ some (0, h'))
kfree_leaves_gap_example = kfree_leaves_gap pocked 16 8 160 pocked-IsHeap

kmalloc_wraps_example :
    (p : ℕ) × (h' : Heap) × (kmalloc pocked (2 ^ 64 - 1) ≡ some (p, h')) × (0 < p)
kmalloc_wraps_example =
    kmalloc_wraps pocked pocked_blocks (2 ^ 64 - 1) pocked-IsHeap (inl refl) (omega arith)
      (omega arith)

kmalloc_refused : kmalloc pocked 168 ≡ some (0, pocked)
unfolding kmalloc alloc_loop
kmalloc_refused = refl
