-- ===== src/Dtb/Hidden.antt =====
-- `dtb_get_property` of kern/boot/dtb.c: which nodes it looks at.
use astral_os.Common.{
  ℕ, zero, suc, ◌+◌, ◌-◌, ◌^◌, ◌≤◌, ◌<◌, ◌≡◌, ◌≢◌, inl, inr, refl, sym, ap, ◌∙◌, arith, false,
  Bool-cases, Option, none, some, List, [], ◌∷◌, length, ◌==◌, ==_ne, ==_iff, Bytes, add32,
}
use astral_os.Strings.Terminated.{IsString, strlen_lem, string-IsString}
use astral_os.Strings.Search.{strchr-Points, strncmp-none, strchr-empty, strchr-here}
use astral_os.Dtb.{
  fdt_begin_node, align_up4, Dtb, goes_on, off_dt_struct, name_length, match_node, begin_node, turn,
  property_loop, count_slashes, dtb_get_property, literal, fb_node_path,
}
use astral_os.Dtb.Tree.{Token, begins, Laid, Inside, count_slashes-some}
use astral_os.Dtb.Passed.{unfound, loop-goes_on, property_loop-null}

-- A tree in memory behind its header: the root has no name.
pub record IsTree (m : Bytes) (width : ℕ) (s : Dtb) (ts : List Token) : Type 0 where
  pub base : s.base_address ≢ 0
  pub strings : s.dt_strings_ptr ≢ 0
  pub laid : Laid m (s.base_address + off_dt_struct m s.base_address) (begins [] ∷ ts)
  pub inside : Inside width 1 ts

module _ (m : Bytes) (width : ℕ) (path : Bytes) (strings : ℕ) (prop_name : Bytes) (x : ℕ)
    (xs : List ℕ) where
  -- The slash at the start of the path matches the root when the path has no other slash.
  turn-root_matched :
      (p : ℕ)
      → m p ≡ 0
      → IsString path 0 (b'/' ∷ x ∷ xs)
      → suc (length xs) < width
      → (s : Option ℕ) × (turn m width path strings 0 prop_name fdt_begin_node
            (unfound p 0 0 (some 0))
          ≡ some (goes_on (unfound (align_up4 (p + (0 + 1))) 1 1 s)))
  unfolding turn begin_node match_node
  turn-root_matched p empty (slash, real, str) short =
      let len = strlen_lem width m p [] empty (omega arith) in
      let no_unit = strchr-empty width m p b'@' (omega arith) empty (λ e. absurd (omega arith)) in
      let measured : name_length m width path p none ≡ some 0 = len in
      let going : (path 1 == 0) ≡ false = ==_ne (path 1) 0 (λ e. str.1 (sym str.0 ∙ e)) in
      let none_compared = strncmp-none m p path 0 in
      elim (strchr-Points width path 1 b'/' (x ∷ xs) str short) [
        | inl null ↦ (none, rw (len, no_unit, measured, none_compared, null, going) refl)
        | inr (k, found) ↦
            (some (1 + k), rw (len, no_unit, measured, none_compared, found, going) refl)
      ]

  turn-root_passed :
      (p target : ℕ)
      → m p ≡ 0
      → 0 < width
      → 0 < target
      → target + 1 < 2 ^ 32
      → turn m width path strings target prop_name fdt_begin_node (unfound p 0 0 (some 0))
        ≡ some (goes_on (unfound (align_up4 (p + (0 + 1))) 1 0 (some 0)))
  unfolding turn begin_node
  turn-root_passed p target empty pos deep fits =
      let len = strlen_lem width m p [] empty pos in
      let level : add32 target 1 ≡ target + 1 = omega arith in
      let test : (1 == target + 1) ≡ false = ==_ne 1 (target + 1) (λ e. absurd (omega arith)) in
      rw (len, level, test) refl

  root-null :
      (ts : List Token) (fuel p target : ℕ)
      → Inside width 1 ts
      → Laid m p (begins [] ∷ ts)
      → IsString path 0 (b'/' ∷ x ∷ xs)
      → suc (length xs) < width
      → length ts + 2 < 2 ^ 32
      → target + 1 < 2 ^ 32
      → suc (length ts) < fuel
      → property_loop m width path fuel strings target prop_name (unfound p 0 0 (some 0))
        ≡ some none
  root-null ts zero p target inside laid str short small fits enough = absurd (omega arith)
  root-null ts (suc fuel) p target inside (tag, empty, laid) str short small fits enough =
      elim (Bool-cases (target == 0)) [
        | inl top ↦
            let e : target ≡ 0 = (==_iff target 0).0 top in
            let (s, turned) = turn-root_matched (p + 4) empty str short in
            rw e (
              loop-goes_on m width path strings 0 prop_name fuel (unfound p 0 0 (some 0)) _ 1 tag
                (λ z. absurd (omega arith)) turned
              ∙ property_loop-null m width path strings 0 prop_name ts fuel _ 1 1 s inside laid
                  (inl refl) (omega arith) (omega arith) (omega arith))
        | inr deep ↦
            let turned = turn-root_passed (p + 4) target empty (omega arith) (ground arith) fits in
            loop-goes_on m width path strings target prop_name fuel (unfound p 0 0 (some 0)) _ 1 tag
              (λ z. absurd (omega arith)) turned
            ∙ property_loop-null m width path strings target prop_name ts fuel _ 1 0 (some 0) inside
                laid (inr (refl, refl)) (omega arith) fits (omega arith)
      ]

-- In a tree in memory of fewer than 2^31 tokens, whose root has the empty name and whose other nodes have names that are
-- not empty and do not begin with `@`, and with fuel above its tokens and a bound of at most 2^31 above the lengths of the
-- strings, `dtb_get_property` of a path that begins with a slash and does not end there returns null, whatever nodes and
-- properties the tree has.
pub dtb_get_property-null :
    (fuel width : ℕ) (m : Bytes) (s : Dtb) (ts : List Token) (path prop_name : Bytes) (x : ℕ)
    (xs : List ℕ)
    → IsTree m width s ts
    → IsString path 0 (b'/' ∷ x ∷ xs)
    → suc (suc (length xs)) < width
    → width ≤ 2 ^ 31
    → length ts < 2 ^ 31
    → suc (length ts) < fuel
    → dtb_get_property fuel width m s path prop_name ≡ some none
unfolding dtb_get_property
dtb_get_property-null fuel width m s ts path prop_name x xs tree str short wide small enough =
    let (slash, real, rest) = str in
    let at = strchr-here width path 0 b'/' (omega arith) slash in
    let (n, counted, few) = count_slashes-some width path 0 0 (b'/' ∷ x ∷ xs) str short in
    let counted' : count_slashes width path 0 0 ≡ some n = counted ∙ ap some (omega arith) in
    let searched =
      root-null m width path s.dt_strings_ptr prop_name x xs ts fuel
        (s.base_address + off_dt_struct m s.base_address) (n - 1) tree.inside tree.laid str
        (omega arith) (omega arith) (omega arith) enough in
    let b = ==_ne s.base_address 0 tree.base in
    let t = ==_ne s.dt_strings_ptr 0 tree.strings in rw (b, t, at, counted', slash) searched

nonzero : (c : ℕ) → 0 < c → c ≢ 0
nonzero c pos e = omega arith

pub fb_node_path-IsString : IsString (literal fb_node_path) 0 fb_node_path
fb_node_path-IsString = string-IsString fb_node_path (
  nonzero _ (omega arith),
  (
    nonzero _ (omega arith),
    (
      nonzero _ (omega arith),
      (
        nonzero _ (omega arith),
        (nonzero _ (omega arith), (nonzero _ (omega arith), (nonzero _ (omega arith), tt))),
      ),
    ),
  ),
)
