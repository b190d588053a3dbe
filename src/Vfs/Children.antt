-- ===== src/Vfs/Children.antt =====
-- kern/fs/vfs.c: the children of a directory as a list, what a new node does to it, and what a lookup
-- finds in it.
use astral_os.Common.{
  ℕ, zero, suc, ◌<◌, ◌≡◌, ◌≢◌, refl, sym, subst, arith, false, some, List, [], ◌∷◌, ◌++◌, length,
  ◌==◌, ==_ne,
}
use astral_os.Vfs.{VfsNode, Vfs, vfs_node_dir, is_no_dir, last_sibling}

-- The nodes from `cur` on, each the sibling of the one before it, up to null.
abbrev pub Siblings : (ℕ → VfsNode) → (cur : ℕ) → List ℕ → Type 0
Siblings nodes cur [] = cur ≡ 0
Siblings nodes cur (x ∷ xs) = (cur ≡ x) × (x ≢ 0) × Siblings nodes (nodes x).sibling xs

abbrev pub NotIn : ℕ → List ℕ → Type 0
NotIn a [] = Unit
NotIn a (x ∷ xs) = (a ≢ x) × NotIn a xs

abbrev pub Distinct : List ℕ → Type 0
Distinct [] = Unit
Distinct (x ∷ xs) = NotIn x xs × Distinct xs

abbrev pub last : ℕ → List ℕ → ℕ
last x [] = x
last x (y ∷ ys) = last y ys

pub NotIn-last : (a x : ℕ) (xs : List ℕ) → NotIn a (x ∷ xs) → a ≢ last x xs
NotIn-last a x [] (ne, _) = ne
NotIn-last a x (y ∷ ys) (_, rest) = NotIn-last a y ys rest

pub last_sibling_lem :
    (fuel : ℕ) (s : Vfs) (cur x : ℕ) (xs : List ℕ)
    → Siblings s.nodes cur (x ∷ xs)
    → length xs < fuel
    → last_sibling fuel s cur ≡ some (last x xs)
unfolding last_sibling
last_sibling_lem zero s cur x xs chain h = absurd (omega arith)
last_sibling_lem (suc fuel) s cur x [] (e, _, end) h = rw (e, end)
last_sibling_lem (suc fuel) s cur x (y ∷ ys) (e, ne, (e', ne', chain)) h =
    let test : ((s.nodes x).sibling == 0) ≡ false = rw e' (==_ne y 0 ne') in
    rw (e, test, e') (last_sibling_lem fuel s y y ys (refl, ne', chain) (omega arith))

-- A node linked after the last one is at the end of the list.
pub Siblings-snoc :
    (nodes nodes' : ℕ → VfsNode) (new cur x : ℕ) (xs : List ℕ)
    → Siblings nodes cur (x ∷ xs)
    → Distinct (x ∷ xs)
    → NotIn new (x ∷ xs)
    → ((b : ℕ) → b ≢ last x xs → b ≢ new → (nodes' b).sibling ≡ (nodes b).sibling)
    → (nodes' (last x xs)).sibling ≡ new
    → (nodes' new).sibling ≡ 0
    → new ≢ 0
    → Siblings nodes' cur ((x ∷ xs) ++ (new ∷ []))
Siblings-snoc nodes nodes' new cur x [] (e, ne, _) distinct out same tip end real =
    (e, ne, (tip, real, end))
Siblings-snoc nodes nodes' new cur x (y ∷ ys) (e, ne, chain) (apart, distinct) (out, outs) same tip
      end real =
    let kept = same x (NotIn-last x y ys apart) (λ z. out (sym z)) in
    (
      e,
      ne,
      subst (λ c. Siblings nodes' c ((y ∷ ys) ++ (new ∷ []))) (sym kept)
          (Siblings-snoc nodes nodes' new (nodes x).sibling y ys chain distinct outs same tip end
            real),
    )

-- The children of a directory in the tree.
pub record IsDirectory (s : Vfs) (parent : ℕ) (xs : List ℕ) : Type 0 where
  pub real : parent ≢ 0
  pub directory : (s.nodes parent).type ≡ vfs_node_dir
  pub children : Siblings s.nodes (s.nodes parent).child xs
  pub distinct : Distinct xs
  pub outside : NotIn parent xs

pub IsDirectory-test :
    (s : Vfs) (parent : ℕ) (xs : List ℕ) → IsDirectory s parent xs → is_no_dir s parent ≡ false
IsDirectory-test s parent xs d = rw (==_ne parent 0 d.real, d.directory)

pub Siblings-same :
    (nodes nodes' : ℕ → VfsNode) (cur : ℕ) (xs : List ℕ) (new : ℕ)
    → NotIn new xs
    → ((b : ℕ) → b ≢ new → (nodes' b).sibling ≡ (nodes b).sibling)
    → Siblings nodes cur xs
    → Siblings nodes' cur xs
Siblings-same nodes nodes' cur [] new out same chain = chain
Siblings-same nodes nodes' cur (x ∷ xs) new (ne, out) same (e, real, chain) = (
  e,
  real,
  subst (λ c. Siblings nodes' c xs) (sym (same x (λ z. ne (sym z))))
      (Siblings-same nodes nodes' (nodes x).sibling xs new out same chain),
)
