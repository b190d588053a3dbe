-- ===== src/Vfs/Lookup.antt =====
-- kern/fs/vfs.c: creating a node, and looking names up before and after.
use astral_os.Common.{
  ℕ, zero, suc, ◌<◌, ◌≡◌, inl, inr, refl, arith, Bool-cases, some, List, [], ◌∷◌, length,
  if◌then◌else◌, ==_ne,
}
use astral_os.Vfs.{VfsNode, Vfs, same_name, lookup_from, vfs_lookup}
use astral_os.Vfs.Children.{Siblings, IsDirectory, IsDirectory-test}

-- The first of the nodes that has the name, 0 if none has.
abbrev pub named : (ℕ → VfsNode) → List ℕ → List ℕ → ℕ
named nodes name [] = 0
named nodes name (x ∷ xs) =
    let rest = named nodes name xs in if same_name (nodes x).name name then x else rest

lookup_from_lem :
    (fuel : ℕ) (s : Vfs) (cur : ℕ) (name xs : List ℕ)
    → Siblings s.nodes cur xs
    → length xs < fuel
    → lookup_from fuel s cur name ≡ some (named s.nodes name xs)
unfolding lookup_from
lookup_from_lem zero s cur name xs chain h = absurd (omega arith)
lookup_from_lem (suc fuel) s cur name [] e h = rw e refl
lookup_from_lem (suc fuel) s cur name (x ∷ xs) (e, ne, chain) h =
    let rest = lookup_from_lem fuel s (s.nodes x).sibling name xs chain (omega arith) in
    let test = ==_ne x 0 ne in
    elim (Bool-cases (same_name (s.nodes x).name name)) [
      | inl same ↦ rw (e, test, same) refl
      | inr other ↦ rw (e, test, other) rest
    ]

pub vfs_lookup_lem :
    (fuel : ℕ) (s : Vfs) (parent : ℕ) (name xs : List ℕ)
    → IsDirectory s parent xs
    → length xs < fuel
    → vfs_lookup fuel s parent name ≡ some (named s.nodes name xs)
unfolding vfs_lookup
vfs_lookup_lem fuel s parent name xs d h =
    rw (IsDirectory-test s parent xs d)
      (lookup_from_lem fuel s (s.nodes parent).child name xs d.children h)
