-- ===== src/Vfs/Found.antt =====
-- kern/fs/vfs.c: looking a name up after a node was created.
use astral_os.Common.{
  ℕ, suc, ◌<◌, ◌≡◌, ◌≢◌, ◌↔◌, inl, inr, refl, sym, ◌∙◌, ap, arith, true, false, Bool-cases, Option,
  none, some, List, [], ◌∷◌, ◌++◌, length, length-append, get_or, if◌then◌else◌, ◌==◌, ==_iff,
  ==_ne,
}
use astral_os.Strings.Terminated.{IsName, string-IsString, strcmp_lem}
use astral_os.Vfs.{Vfs, vfs_node_file, create_node, vfs_create_file, same_name, vfs_lookup}
use astral_os.Vfs.Children.{Siblings, NotIn, IsDirectory}
use astral_os.Vfs.Create.{create_node-Created}
use astral_os.Vfs.Lookup.{named, vfs_lookup_lem}

-- The comparison of `vfs_lookup` tells two names apart exactly when they differ.
pub same_name_iff : (a b : List ℕ) → IsName a → IsName b → (same_name a b ≡ true) ↔ (a ≡ b)
same_name_iff a b p q =
    let (r, e, (to, from)) =
      strcmp_lem (suc (length a)) (λ i. get_or a i 0) 0 (λ i. get_or b i 0) 0 a b
        (string-IsString a p) (string-IsString b q) (omega arith) in
    let test : same_name a b ≡ (r.0 == r.1) =
      ap (λ (o : Option (ℕ × ℕ)). elim o [ none ↦ false | some q ↦ q.0 == q.1 ]) e in
    ((λ h. to ((==_iff r.0 r.1).0 (sym test ∙ h))), (λ h. test ∙ (==_iff r.0 r.1).1 (from h)))

module _ (s s' : Vfs) (new : ℕ) (name b : List ℕ) (own : (s'.nodes new).name ≡ name)
    (names : (a : ℕ) → a ≢ new → (s'.nodes a).name ≡ (s.nodes a).name) where
  -- What a lookup of `b` finds after the node was added to the end, from what it found before.
  abbrev pub found_after : ℕ → ℕ
  found_after before = if before == 0 then (if same_name name b then new else 0) else before

  named-snoc :
      (cur : ℕ) (xs : List ℕ)
      → Siblings s.nodes cur xs
      → NotIn new xs
      → named s'.nodes b (xs ++ (new ∷ [])) ≡ found_after (named s.nodes b xs)
  named-snoc cur [] chain out = rw own refl
  named-snoc cur (x ∷ xs) (e, ne, chain) (ne', out) =
      let kept = names x (λ z. ne' (sym z)) in
      elim (Bool-cases (same_name (s.nodes x).name b)) [
        | inl same ↦ rw (kept, same, ==_ne x 0 ne) refl
        | inr other ↦ rw (kept, other) (named-snoc (s.nodes x).sibling xs chain out)
      ]

-- A call that returns the node `new`, which is now the last child of the directory. A lookup there finds
-- what it found before, and the new node under its name if it found nothing.
abbrev pub Adds :
    (fuel : ℕ) → Vfs → (parent : ℕ) → List ℕ → (new : ℕ) → List ℕ → Option (ℕ × Vfs) → Type 0
Adds fuel s parent xs new name r =
    (s' : Vfs) × (r ≡ some (new, s'))
    × IsDirectory s' parent (xs ++ (new ∷ []))
    × ((b : List ℕ)
        → vfs_lookup fuel s' parent b
          ≡ some (
              if named s.nodes b xs == 0
              then (if same_name name b then new else 0)
              else named s.nodes b xs))

module _ (fuel : ℕ) (s : Vfs) (parent : ℕ) (xs : List ℕ) (new : ℕ) (name : List ℕ)
    (d : IsDirectory s parent xs) (real : new ≢ 0) (apart : new ≢ parent) (out : NotIn new xs)
    (enough : suc (length xs) < fuel) where
  added :
      (type fs_data : ℕ)
      → Adds fuel s parent xs new name (create_node fuel s new parent name type fs_data)
  added type fs_data =
      let (s', e, c) =
        create_node-Created s parent new name type fs_data real apart fuel xs d out (omega arith) in
      let size = length-append xs (new ∷ []) in
      (
        s',
        e,
        c.directory,
        λ b.
            vfs_lookup_lem fuel s' parent b (xs ++ (new ∷ [])) c.directory (omega arith)
            ∙ ap some (
                named-snoc s s' new name b c.own_name c.names (s.nodes parent).child xs d.children
                  out),
      )

  -- With memory for the node that is not in use in the directory, and fuel for its children,
  -- `vfs_create_file` in a directory returns the new node as its last child; a lookup there then finds what
  -- it found before, and the new node under its name if it found nothing.
  pub vfs_create_file-Adds :
      (fs_data : ℕ)
      → Adds fuel s parent xs new name (vfs_create_file fuel s new parent name fs_data)
  unfolding vfs_create_file
  vfs_create_file-Adds fs_data = added vfs_node_file fs_data
