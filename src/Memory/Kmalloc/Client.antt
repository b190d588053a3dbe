-- ===== src/Memory/Kmalloc/Client.antt =====
-- The kernel's calls of kern/memory/kmalloc.c: which payloads are handed out after any sequence of
-- `kmalloc` and `kfree`, where only what was handed out and not yet freed is freed.
use astral_os.Common.{
  ℕ, zero, suc, ◌+◌, ◌-◌, ◌%◌, ◌^◌, ◌≤◌, ◌<◌, ◌≡◌, ◌⊎◌, inl, inr, refl, sym, subst, true, false,
  Option, none, some, List, [], ◌∷◌, arith,
}
use astral_os.Memory.Kmalloc.{Memory, Heap, header_size, kmalloc_init, kmalloc, kfree}
use astral_os.Memory.Kmalloc.Blocks.{Block, block, Holds, Holds-le}
use astral_os.Memory.Kmalloc.Repr.{IsHeap, Repr-cons, Holds-bound}
use astral_os.Memory.Kmalloc.Alloc.{Served, kmalloc_refines}
use astral_os.Memory.Kmalloc.Free.{kfree_refines}
use astral_os.Memory.Kmalloc.Safety.{Holds-apart}
use astral_os.Memory.Kmalloc.Alignment.{Aligned, Holds-Aligned}
use astral_os.Memory.Kmalloc.Grants.{
  Grant, Granted, Reach, boot, served, refused, freed, Apart, IsSound, Fresh, Backed, Inv,
}
use astral_os.Memory.Kmalloc.Steps.{kmalloc-zero, Inv-served, Inv-refused, Inv-freed}

Served-returns :
    (h : Heap) (o : Option (ℕ × List Block)) (r : Option (ℕ × Heap))
    → Served h o r
    → (q : ℕ) × (h' : Heap) × (r ≡ some (q, h'))
Served-returns h none r ran = (0, h, ran)
Served-returns h (some (a, cs)) r (h', ran, is, begins, lasts) = (a, h', ran)

kmalloc_returns :
    {start len : ℕ} {h : Heap} {live : List Grant}
    → Inv start len h live
    → (size : ℕ) → (q : ℕ) × (h' : Heap) × (kmalloc h size ≡ some (q, h'))
kmalloc_returns {h} inv zero = (0, h, kmalloc-zero h)
kmalloc_returns {h} inv (suc n) =
    Served-returns h _ _ (kmalloc_refines h inv.bs (suc n) inv.heap (omega arith))

Granted-Holds :
    (p s : ℕ) (bs : List Block) (gs : List Grant)
    → Granted p gs
    → Backed s bs gs
    → (n : ℕ) × Holds s bs p n false
Granted-Holds p s bs [] g b = absurd g
Granted-Holds p s bs (g ∷ gs) (inl e) ((n, fit, at), fresh, b) =
    (n, subst (λ q. Holds s bs q n false) e at)
Granted-Holds p s bs (g ∷ gs) (inr k) (first, fresh, b) = Granted-Holds p s bs gs k b

Apart-Backed :
    (s : ℕ) (bs : List Block) (g : Grant) (n : ℕ) (gs : List Grant)
    → g.size ≤ n
    → Holds s bs g.ptr n false
    → Fresh g.ptr gs
    → Backed s bs gs
    → Apart g gs
Apart-Backed s bs g n [] fit at ne b = tt
Apart-Backed s bs g n (k ∷ ks) fit at (ne, nes) ((m, fit', at'), fresh, b) = (
  gap (Holds-apart s bs g.ptr n k.ptr m false false at at' (λ e. ne (sym e))),
  Apart-Backed s bs g n ks fit at nes b,
)
  where
    gap :
        (g.ptr + n + header_size ≤ k.ptr) ⊎ (k.ptr + m + header_size ≤ g.ptr)
        → (g.ptr + g.size ≤ k.ptr) ⊎ (k.ptr + k.size ≤ g.ptr)
    gap (inl below) = inl (omega arith)
    gap (inr above) = inr (omega arith)

IsSound-Backed :
    (h : Heap) (bs : List Block) (gs : List Grant)
    → IsHeap h bs
    → Aligned h.heap_start_ptr bs
    → Backed h.heap_start_ptr bs gs
    → IsSound h.heap_start_ptr h.total_heap_size gs
IsSound-Backed h bs [] is al b = tt
IsSound-Backed h bs (g ∷ gs) is al ((n, fit, at), fresh, b) =
    let s : ℕ = h.heap_start_ptr in
    let past = Holds-le s bs g.ptr n false at in
    let bound = Holds-bound h.mem s s (s + h.total_heap_size) bs g.ptr n false is.blocks at in
    (
      omega arith,
      omega arith,
      Holds-Aligned s bs g.ptr n false al at,
      Apart-Backed s bs g n gs fit at fresh b,
      IsSound-Backed h bs gs is al b,
    )

module _ (start len : ℕ) (pos : 0 < start) (mult : start % 8 ≡ 0) (room : header_size ≤ len)
    (top : start + len < 2 ^ 64) where
  Inv-boot : (mem : Memory) → Inv start len (kmalloc_init mem start len) []
  unfolding kmalloc_init
  Inv-boot mem = record {
    bs = block (len - header_size) true ∷ [];
    heap = record {
      blocks =
          Repr-cons (kmalloc_init mem start len).mem start (start + len) (len - header_size) 0 true
            [] pos (ground arith) (refl, omega arith);
      fits = top;
    };
    start_same = refl;
    size_same = refl;
    aligned = (mult, tt);
    backed = tt;
  }

  Reach-Inv : {h : Heap} {live : List Grant} → Reach start len h live → Inv start len h live
  Reach-Inv (boot mem) = Inv-boot mem
  Reach-Inv (served size p r small e ne) = Inv-served (Reach-Inv r) size p _ small e ne
  Reach-Inv (refused size r e) = Inv-refused (Reach-Inv r) size _ e
  Reach-Inv (freed p r g e) =
      let inv = Reach-Inv r in
      let (n, held) = Granted-Holds p _ inv.bs _ g inv.backed in Inv-freed inv p n _ held e

  -- For a heap whose start is a multiple of 8 other than 0, that has 24 bytes or more and ends below
  -- 2^64: after any sequence of `kmalloc` and `kfree` calls from `kmalloc_init` on, where only held
  -- payloads are freed and no size that is served is within 7 of 2^64, the payloads held lie in the
  -- heap, at multiples of 8, and the bytes asked for are disjoint.
  pub Reach-IsSound :
      {h : Heap} {live : List Grant} → Reach start len h live → IsSound start len live
  Reach-IsSound {h} {live} r =
      let inv = Reach-Inv r in
      subst (λ t. IsSound t len live) inv.start_same
        (subst (λ n. IsSound h.heap_start_ptr n live) inv.size_same
          (IsSound-Backed h inv.bs live inv.heap inv.aligned inv.backed))

  pub Reach-kmalloc :
      {h : Heap} {live : List Grant}
      → Reach start len h live
      → (size : ℕ) → (q : ℕ) × (h' : Heap) × (kmalloc h size ≡ some (q, h'))
  Reach-kmalloc r size = kmalloc_returns (Reach-Inv r) size

  -- For a heap whose start is a multiple of 8 other than 0, that has 24 bytes or more and ends below
  -- 2^64: in every state that `kmalloc_init` and then calls lead to, where only held payloads were
  -- freed and no size served was within 7 of 2^64, `kmalloc` returns for each size, and `kfree` for
  -- each payload held.
  pub Reach-returns :
      {h : Heap} {live : List Grant}
      → Reach start len h live
      → ((size : ℕ) → (q : ℕ) × (h' : Heap) × (kmalloc h size ≡ some (q, h')))
        × ((p : ℕ) → Granted p live → (h' : Heap) × (kfree h p ≡ some h'))
  Reach-returns {h} r =
      let inv = Reach-Inv r in
      (
        kmalloc_returns inv,
        λ p g.
            let (n, held) = Granted-Holds p h.heap_start_ptr inv.bs _ g inv.backed in
            let done = kfree_refines h inv.bs p n false inv.heap held in (done.0, done.1),
      )
