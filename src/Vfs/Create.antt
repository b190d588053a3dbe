-- ===== src/Vfs/Create.antt =====
-- kern/fs/vfs.c: what creating a node does to the tree.
use astral_os.Common.{
  ℕ, ◌≤◌, ◌≡◌, ◌≢◌, inl, inr, refl, sym, ◌∙◌, subst, ap, arith, Bool-cases, some, List, [], ◌∷◌,
  ◌++◌, length, ◌==◌, ==_iff, ==_ne, ==_refl,
}
use astral_os.Vfs.{VfsNode, Vfs, set_node, create_node}
use astral_os.Vfs.Children.{
  Siblings, NotIn, Distinct, last, NotIn-last, last_sibling_lem, Siblings-snoc, Siblings-same,
  IsDirectory, IsDirectory-test,
}

NotIn-snoc : (a b : ℕ) (xs : List ℕ) → NotIn a xs → a ≢ b → NotIn a (xs ++ (b ∷ []))
NotIn-snoc a b [] out ne = (ne, tt)
NotIn-snoc a b (x ∷ xs) (ne', out) ne = (ne', NotIn-snoc a b xs out ne)

Distinct-snoc : (b : ℕ) (xs : List ℕ) → Distinct xs → NotIn b xs → Distinct (xs ++ (b ∷ []))
Distinct-snoc b [] d out = (tt, tt)
Distinct-snoc b (x ∷ xs) (apart, d) (ne, out) =
    (NotIn-snoc x b xs apart (λ z. ne (sym z)), Distinct-snoc b xs d out)

-- A state in which a new node is the last child of the directory, and every other name is as before.
pub record Created (s s' : Vfs) (parent : ℕ) (xs : List ℕ) (new : ℕ) (name : List ℕ) : Type 0 where
  pub directory : IsDirectory s' parent (xs ++ (new ∷ []))
  pub own_name : (s'.nodes new).name ≡ name
  pub names : (b : ℕ) → b ≢ new → (s'.nodes b).name ≡ (s.nodes b).name
  pub types : (b : ℕ) → b ≢ new → (s'.nodes b).type ≡ (s.nodes b).type

module _ (s : Vfs) (parent new : ℕ) (name : List ℕ) (type fs_data : ℕ) (real : new ≢ 0)
    (apart : new ≢ parent) where
  abbrev node : VfsNode
  node = record {
    name = name;
    type = type;
    parent = parent;
    child = 0;
    sibling = 0;
    fs_data = fs_data;
  }

  -- The state with the node filled in.
  abbrev filled : Vfs
  filled = set_node s new node

  set_field :
      {A : Type 0} (f : VfsNode → A) (t : Vfs) (a : ℕ) {n : VfsNode}
      → f n ≡ f (t.nodes a)
      → (b : ℕ) → f ((set_node t a n).nodes b) ≡ f (t.nodes b)
  set_field f t a same b = elim (Bool-cases (b == a)) [
    | inl here ↦ rw here (same ∙ ap (λ x. f (t.nodes x)) (sym ((==_iff b a).0 here)))
    | inr other ↦ rw other refl
  ]

  node_self : (t : Vfs) (a : ℕ) (n : VfsNode) → (set_node t a n).nodes a ≡ n
  node_self t a n = rw (==_refl a)

  node_ne : (t : Vfs) (a b : ℕ) (n : VfsNode) → b ≢ a → (set_node t a n).nodes b ≡ t.nodes b
  node_ne t a b n ne = rw (==_ne b a ne)

  at_parent : filled.nodes parent ≡ s.nodes parent
  at_parent = node_ne s new parent node (λ z. apart (sym z))

  -- The state with the node linked as the first child.
  abbrev first_child : Vfs
  first_child = set_node filled parent (record (filled.nodes parent) { child = new })

  first_parent : first_child.nodes parent ≡ record (filled.nodes parent) { child = new }
  first_parent = node_self filled parent (record (filled.nodes parent) { child = new })

  first_other : (b : ℕ) → b ≢ parent → first_child.nodes b ≡ filled.nodes b
  first_other b ne = node_ne filled parent b (record (filled.nodes parent) { child = new }) ne

  first_new : first_child.nodes new ≡ node
  first_new = first_other new apart ∙ node_self s new node

  first_child-Created : IsDirectory s parent [] → Created s first_child parent [] new name
  first_child-Created d = record {
    directory = record {
      real = d.real;
      directory = ap (λ n. n.type) first_parent ∙ ap (λ n. n.type) at_parent ∙ d.directory;
      children = (ap (λ n. n.child) first_parent, real, ap (λ n. n.sibling) first_new);
      distinct = (tt, tt);
      outside = ((λ z. apart (sym z)), tt);
    };
    own_name = ap (λ n. n.name) first_new;
    names = λ b ne.
        set_field (λ n. n.name) filled parent refl b ∙ ap (λ n. n.name) (node_ne s new b node ne);
    types = λ b ne.
        set_field (λ n. n.type) filled parent refl b ∙ ap (λ n. n.type) (node_ne s new b node ne);
  }

  -- The state with the node linked after the node `l`.
  abbrev last_child : ℕ → Vfs
  last_child l = set_node filled l (record (filled.nodes l) { sibling = new })

  last_child-Created :
      (x : ℕ) (xs : List ℕ)
      → IsDirectory s parent (x ∷ xs)
      → NotIn new (x ∷ xs)
      → Created s (last_child (last x xs)) parent (x ∷ xs) new name
  last_child-Created x xs d out =
      let l = last x xs in
      let s' = last_child l in
      let changed = record (filled.nodes l) { sibling = new } in
      let not_last : new ≢ l = NotIn-last new x xs out in
      let own : s'.nodes new ≡ node =
        node_ne filled l new changed not_last ∙ node_self s new node in
      let child : (s'.nodes parent).child ≡ (s.nodes parent).child =
        set_field (λ n. n.child) filled l refl parent ∙ ap (λ n. n.child) at_parent in
      let chain =
        Siblings-snoc s.nodes s'.nodes new (s.nodes parent).child x xs d.children d.distinct out
          (λ b ne ne'.
            ap (λ n. n.sibling) (node_ne filled l b changed ne ∙ node_ne s new b node ne'))
          (ap (λ n. n.sibling) (node_self filled l changed)) (ap (λ n. n.sibling) own) real in
      record {
        directory = record {
          real = d.real;
          directory =
              set_field (λ n. n.type) filled l refl parent
              ∙ ap (λ n. n.type) at_parent
              ∙ d.directory;
          children = subst (λ c. Siblings s'.nodes c ((x ∷ xs) ++ (new ∷ []))) (sym child) chain;
          distinct = Distinct-snoc new (x ∷ xs) d.distinct out;
          outside = NotIn-snoc parent new (x ∷ xs) d.outside (λ z. apart (sym z));
        };
        own_name = ap (λ n. n.name) own;
        names = λ b ne.
            set_field (λ n. n.name) filled l refl b ∙ ap (λ n. n.name) (node_ne s new b node ne);
        types = λ b ne.
            set_field (λ n. n.type) filled l refl b ∙ ap (λ n. n.type) (node_ne s new b node ne);
      }

  -- With fuel for the children that there are, a node that is created in a directory becomes its last
  -- child, and the names and types of the other nodes stay.
  pub create_node-Created :
      (fuel : ℕ) (xs : List ℕ)
      → IsDirectory s parent xs
      → NotIn new xs
      → length xs ≤ fuel
      → (s' : Vfs) × (create_node fuel s new parent name type fs_data ≡ some (new, s'))
        × Created s s' parent xs new name
  unfolding create_node
  create_node-Created fuel [] d out h =
      let test = IsDirectory-test s parent [] d in
      let empty : (filled.nodes parent).child ≡ 0 = ap (λ n. n.child) at_parent ∙ d.children in
      (first_child, rw (test, ==_ne new 0 real, empty) refl, first_child-Created d)
  create_node-Created fuel (x ∷ xs) d out h =
      let test = IsDirectory-test s parent (x ∷ xs) d in
      let kept =
        Siblings-same s.nodes filled.nodes (s.nodes parent).child (x ∷ xs) new out
          (λ b ne. ap (λ n. n.sibling) (node_ne s new b node ne)) d.children in
      let child : (filled.nodes parent).child ≡ x = ap (λ n. n.child) at_parent ∙ d.children.0 in
      let some_child = ==_ne x 0 d.children.1 in
      let found = last_sibling_lem fuel filled x x xs (refl, kept.1, kept.2) (omega arith) in
      (
        last_child (last x xs),
        rw (test, ==_ne new 0 real, child, some_child, found) refl,
        last_child-Created x xs d out,
      )
