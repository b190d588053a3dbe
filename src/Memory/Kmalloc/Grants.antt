-- ===== src/Memory/Kmalloc/Grants.antt =====
-- The payloads that the kernel holds after calls of kern/memory/kmalloc.c, and how the list of blocks
-- backs them.
use astral_os.Common.{
  ℕ, ◌+◌, ◌%◌, ◌^◌, ◌≤◌, ◌<◌, ◌≡◌, ◌≢◌, ◌⊎◌, inl, inr, subst, false, some, List, [], ◌∷◌, arith,
  ◌==◌, if◌then◌else◌, Bool-cases,
}
use astral_os.Memory.Kmalloc.{Memory, Heap, kmalloc_init, kmalloc, kfree}
use astral_os.Memory.Kmalloc.Blocks.{Block, release, coalesce, Holds}
use astral_os.Memory.Kmalloc.Repr.{IsHeap}
use astral_os.Memory.Kmalloc.Safety.{Fits, Holds-release, Holds-coalesce}
use astral_os.Memory.Kmalloc.Alignment.{Aligned}

-- A payload that a caller holds, with the size it asked for.
pub record Grant : Type 0 where
  pub ptr : ℕ
  pub size : ℕ

abbrev pub grant : ℕ → ℕ → Grant
grant p n = record { ptr = p; size = n }

abbrev pub Granted : ℕ → List Grant → Type 0
Granted p [] = ⊥
Granted p (g ∷ gs) = (g.ptr ≡ p) ⊎ Granted p gs

unfoldable pub ungrant : ℕ → List Grant → List Grant
ungrant p [] = []
ungrant p (g ∷ gs) = if g.ptr == p then gs else g ∷ ungrant p gs

pub data Reach (start len : ℕ) : Heap → List Grant → Type 0 where
  boot : (mem : Memory) → Reach start len (kmalloc_init mem start len) []
  served :
      {h h' : Heap} {live : List Grant} (size p : ℕ)
      → Reach start len h live
      → size + 7 < 2 ^ 64
      → kmalloc h size ≡ some (p, h')
      → p ≢ 0
      → Reach start len h' (grant p size ∷ live)
  refused :
      {h h' : Heap} {live : List Grant} (size : ℕ)
      → Reach start len h live
      → kmalloc h size ≡ some (0, h')
      → Reach start len h' live
  freed :
      {h h' : Heap} {live : List Grant} (p : ℕ)
      → Reach start len h live
      → Granted p live
      → kfree h p ≡ some h'
      → Reach start len h' (ungrant p live)

-- The bytes of two grants do not meet.
abbrev pub Apart : Grant → List Grant → Type 0
Apart g [] = Unit
Apart g (k ∷ ks) = ((g.ptr + g.size ≤ k.ptr) ⊎ (k.ptr + k.size ≤ g.ptr)) × Apart g ks

-- Each grant lies in the heap from `start` on, at a multiple of 8, and apart from the others.
abbrev pub IsSound : (start len : ℕ) → List Grant → Type 0
IsSound start len [] = Unit
IsSound start len (g ∷ gs) =
    (start < g.ptr)
    × (g.ptr + g.size ≤ start + len)
    × (g.ptr % 8 ≡ 0)
    × Apart g gs
    × IsSound start len gs

abbrev pub Fresh : ℕ → List Grant → Type 0
Fresh p [] = Unit
Fresh p (g ∷ gs) = (g.ptr ≢ p) × Fresh p gs

-- Each grant is the start of a block in use that is large enough, and no two grants are the same.
abbrev pub Backed : ℕ → List Block → List Grant → Type 0
Backed s bs [] = Unit
Backed s bs (g ∷ gs) =
    ((n : ℕ) × (g.size ≤ n) × Holds s bs g.ptr n false) × Fresh g.ptr gs × Backed s bs gs

pub record Inv (start len : ℕ) (h : Heap) (live : List Grant) : Type 0 where
  pub bs : List Block
  pub heap : IsHeap h bs
  pub start_same : h.heap_start_ptr ≡ start
  pub size_same : h.total_heap_size ≡ len
  pub aligned : Aligned h.heap_start_ptr bs
  pub backed : Backed h.heap_start_ptr bs live

pub Backed-alloc :
    (size s : ℕ) (bs : List Block) (a : ℕ) (cs : List Block) (gs : List Grant)
    → Fits size s bs a cs
    → Backed s bs gs
    → Fresh a gs × Backed s cs gs
Backed-alloc size s bs a cs [] fits b = (tt, tt)
Backed-alloc size s bs a cs (g ∷ gs) fits ((n, fit, at), fresh, b) =
    let (ne, at') = fits.kept g.ptr n at in
    let (fr, b') = Backed-alloc size s bs a cs gs fits b in ((ne, fr), ((n, fit, at'), fresh, b'))

pub Backed-free :
    (p s : ℕ) (bs : List Block) (gs : List Grant)
    → Fresh p gs
    → Backed s bs gs
    → Backed s (coalesce (release p s bs)) gs
Backed-free p s bs [] ne b = tt
Backed-free p s bs (g ∷ gs) (ne, nes) ((n, fit, at), fresh, b) = (
  (n, fit, Holds-coalesce s (release p s bs) g.ptr n (Holds-release p s bs g.ptr n ne at)),
  fresh,
  Backed-free p s bs gs nes b,
)

pub Fresh-ungrant : (p q : ℕ) (gs : List Grant) → Fresh q gs → Fresh q (ungrant p gs)
unfolding ungrant
Fresh-ungrant p q [] f = tt
Fresh-ungrant p q (g ∷ gs) f = elim (Bool-cases (g.ptr == p)) [
  | inl hit ↦ rw hit f.1
  | inr miss ↦ rw miss (f.0, Fresh-ungrant p q gs f.1)
]

pub Backed-ungrant :
    (p s : ℕ) (bs : List Block) (gs : List Grant)
    → Backed s bs gs
    → Backed s (coalesce (release p s bs)) (ungrant p gs)
unfolding ungrant
Backed-ungrant p s bs [] b = tt
Backed-ungrant p s bs (g ∷ gs) ((n, fit, at), fresh, b) = elim (Bool-cases (g.ptr == p)) [
  | inl hit ↦ rw hit (Backed-free p s bs gs (subst (λ q. Fresh q gs) (ground arith) fresh) b)
  | inr miss ↦
      let ne : g.ptr ≢ p = λ e. ground arith in
      rw miss (
        (n, fit, Holds-coalesce s (release p s bs) g.ptr n (Holds-release p s bs g.ptr n ne at)),
        Fresh-ungrant p g.ptr gs fresh,
        Backed-ungrant p s bs gs b,
      )
]
