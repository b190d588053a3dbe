-- ===== src/Memory/Kmalloc/Steps.antt =====
-- The calls of kern/memory/kmalloc.c one by one: each keeps the blocks behind the payloads.
use astral_os.Common.{
  ℕ, zero, suc, ◌+◌, ◌^◌, ◌<◌, ◌≡◌, ◌≢◌, refl, sym, ◌∙◌, subst, false, Option, none, some, List,
  ◌∷◌, arith,
}
use astral_os.Memory.Kmalloc.{Heap, round_up, kmalloc, kfree}
use astral_os.Memory.Kmalloc.Blocks.{Block, release, coalesce, Holds, Holds-le}
use astral_os.Memory.Kmalloc.Alloc.{Served, kmalloc_refines}
use astral_os.Memory.Kmalloc.Free.{kfree_refines}
use astral_os.Memory.Kmalloc.Safety.{Outcome, alloc-Outcome}
use astral_os.Memory.Kmalloc.Alignment.{
  Aligned, AlignedOutcome, alloc-Aligned, release-Aligned, coalesce-Aligned,
}
use astral_os.Memory.Kmalloc.Grants.{
  Grant, grant, ungrant, Backed, Inv, Backed-alloc, Backed-ungrant,
}

pub kmalloc-zero : (h : Heap) → kmalloc h 0 ≡ some (0, h)
unfolding kmalloc
kmalloc-zero h = refl

module _ {start len : ℕ} {h : Heap} {live : List Grant} (inv : Inv start len h live) where
  open inv use {bs, heap, start_same, size_same, aligned, backed}

  pub Inv-taken :
      (size : ℕ) (o : Option (ℕ × List Block)) (r : Option (ℕ × Heap)) (p : ℕ) (h' : Heap)
      → size + 7 < 2 ^ 64
      → Outcome (round_up size) h.heap_start_ptr bs o
      → AlignedOutcome h.heap_start_ptr o
      → Served h o r
      → r ≡ some (p, h')
      → p ≢ 0
      → Inv start len h' (grant p size ∷ live)
  Inv-taken size none r p h' small fits al ran e ne = absurd (ne (ground arith))
  Inv-taken size (some (a, cs)) r p h' small fits al (h'', ran, is, begins, lasts) e ne =
      let same : h'' ≡ h' = ground arith in
      let at : a ≡ p = ground arith in
      let (n, fit, held) = fits.taken in
      let (fresh, kept) = Backed-alloc (round_up size) _ bs a cs live fits backed in
      subst (λ k. Inv start len k (grant p size ∷ live)) same
        (subst (λ q. Inv start len h'' (grant q size ∷ live)) at
          (record {
            bs = cs;
            heap = is;
            start_same = begins ∙ start_same;
            size_same = lasts ∙ size_same;
            aligned = subst (λ t. Aligned t cs) (sym begins) al;
            backed =
                subst (λ t. Backed t cs (grant a size ∷ live)) (sym begins)
                  ((n, omega arith, held), fresh, kept);
          }))

  pub Inv-served :
      (size p : ℕ) (h' : Heap)
      → size + 7 < 2 ^ 64
      → kmalloc h size ≡ some (p, h')
      → p ≢ 0
      → Inv start len h' (grant p size ∷ live)
  Inv-served zero p h' small e ne = absurd (ne (ground (arith, kmalloc-zero h)))
  Inv-served (suc n) p h' small e ne =
      Inv-taken (suc n) _ _ p h' small (alloc-Outcome (round_up (suc n)) _ bs)
        (alloc-Aligned (round_up (suc n)) _ bs (omega arith) aligned)
        (kmalloc_refines h bs (suc n) heap (omega arith)) e ne

  pub Inv-same : {h' : Heap} → h ≡ h' → Inv start len h' live
  Inv-same same = subst (λ k. Inv start len k live) same inv

  pub Inv-null :
      (size : ℕ) (o : Option (ℕ × List Block)) (r : Option (ℕ × Heap)) (h' : Heap)
      → Outcome size h.heap_start_ptr bs o
      → Served h o r
      → r ≡ some (0, h')
      → Inv start len h' live
  Inv-null size none r h' fits ran e = Inv-same (ground arith)
  Inv-null size (some (a, cs)) r h' fits (h'', ran, is, begins, lasts) e =
      let (n, fit, held) = fits.taken in
      let past = Holds-le h.heap_start_ptr cs a n false held in absurd (ground arith)

  pub Inv-refused : (size : ℕ) (h' : Heap) → kmalloc h size ≡ some (0, h') → Inv start len h' live
  Inv-refused zero h' e = Inv-same (ground (arith, kmalloc-zero h))
  Inv-refused (suc n) h' e =
      Inv-null (round_up (suc n)) _ _ h' (alloc-Outcome (round_up (suc n)) _ bs)
        (kmalloc_refines h bs (suc n) heap (omega arith)) e

  pub Inv-freed :
      (p n : ℕ) (h' : Heap)
      → Holds h.heap_start_ptr bs p n false
      → kfree h p ≡ some h'
      → Inv start len h' (ungrant p live)
  Inv-freed p n h' held e =
      let (h'', ran, is, begins, lasts) = kfree_refines h bs p n false heap held in
      let same : h'' ≡ h' = ground arith in
      let s : ℕ = h.heap_start_ptr in
      let cs : List Block = coalesce (release p s bs) in
      subst (λ k. Inv start len k (ungrant p live)) same
        (record {
          bs = cs;
          heap = is;
          start_same = begins ∙ start_same;
          size_same = lasts ∙ size_same;
          aligned =
              subst (λ t. Aligned t cs) (sym begins)
                (coalesce-Aligned s (release p s bs) (release-Aligned p s bs aligned));
          backed =
              subst (λ t. Backed t cs (ungrant p live)) (sym begins)
                (Backed-ungrant p s bs live backed);
        })
