-- ===== src/Dtb/Root.antt =====
-- `dtb_get_property` of kern/boot/dtb.c with the path "/".
use astral_os.Common.{
  ℕ, zero, suc, ◌+◌, ◌-◌, ◌<◌, ◌≡◌, ◌≢◌, refl, ap, ◌∙◌, arith, true, false, Option, none, some,
  List, [], ◌∷◌, length, ==_ne, ==_iff, Bytes,
}
use astral_os.Strings.Terminated.{IsString, strlen_lem, strcmp_lem}
use astral_os.Strings.Search.{strncmp-none, strchr-empty, strchr-here}
use astral_os.Dtb.{
  fdt_begin_node, fdt_prop, align_up4, same, Dtb, Search, goes_on, returns_value, off_dt_struct,
  name_length, match_node, begin_node, property, turn, property_loop, count_slashes,
  dtb_get_property,
}
use astral_os.Dtb.Tree.{word_at, count_slashes-some}
use astral_os.Dtb.Passed.{unfound, loop-goes_on, loop-returns_value}

-- A property at `p` with a name and a length.
pub record IsProperty (m : Bytes) (strings p : ℕ) (name : List ℕ) (len : ℕ) : Type 0 where
  pub nameoff : ℕ
  pub tag : word_at m p ≡ fdt_prop
  pub size : word_at m (p + 4) ≡ len
  pub offset : word_at m (p + 4 + 4) ≡ nameoff
  pub string : IsString m (strings + nameoff) name

-- From the first address to the second there are so many properties, none of them with the name `key`.
pub data Others (m : Bytes) (width strings : ℕ) (key : List ℕ) : (p q count : ℕ) → Type 0 where
  nil : {p : ℕ} → Others m width strings key p p 0
  other :
      {p q count : ℕ} (name : List ℕ) (len : ℕ)
      → IsProperty m strings p name len
      → length name < width
      → name ≢ key
      → Others m width strings key (align_up4 (p + 4 + 8 + len)) q count
      → Others m width strings key p q (suc count)

-- The search in the node.
abbrev inside_node : (p d c : ℕ) → Option ℕ → Search
inside_node p d c s = record {
  struct_ptr = p;
  depth = d;
  node_found = true;
  current_node_path = c;
  next_slash = s;
}

module _ (m : Bytes) (width : ℕ) (path : Bytes) (strings target : ℕ) (prop_name : Bytes)
    (key : List ℕ) (named : IsString prop_name 0 key) where
  turn-other :
      (p d c len : ℕ) (s : Option ℕ) (name : List ℕ)
      → IsProperty m strings p name len
      → length name < width
      → name ≢ key
      → turn m width path strings target prop_name fdt_prop (inside_node (p + 4) d c s)
        ≡ some (goes_on (inside_node (align_up4 (p + 4 + 8 + len)) d c s))
  unfolding turn property
  turn-other p d c len s name prop short ne =
      let (pair, compared, (equal, _)) =
        strcmp_lem width m (strings + prop.nameoff) prop_name 0 name key prop.string named short in
      let differ : same pair ≡ false = ==_ne pair.0 pair.1 (λ e. ne (equal e)) in
      let l = prop.size in let o = prop.offset in rw (o, l, compared, differ) refl

  turn-wanted :
      (p d c len : ℕ) (s : Option ℕ)
      → IsProperty m strings p key len
      → length key < width
      → turn m width path strings target prop_name fdt_prop (inside_node (p + 4) d c s)
        ≡ some (returns_value (p + 4 + 8) len)
  unfolding turn property
  turn-wanted p d c len s prop short =
      let (pair, compared, (_, equal)) =
        strcmp_lem width m (strings + prop.nameoff) prop_name 0 key key prop.string named short in
      let agree : same pair ≡ true = (==_iff pair.0 pair.1).1 (equal refl) in
      let l = prop.size in let o = prop.offset in rw (o, l, compared, agree) refl

  property_loop-found :
      (fuel p q count d c len : ℕ) (s : Option ℕ)
      → Others m width strings key p q count
      → IsProperty m strings q key len
      → length key < width
      → count < fuel
      → property_loop m width path fuel strings target prop_name (inside_node p d c s)
        ≡ some (some (q + 4 + 8, len))
  property_loop-found zero p q count d c len s others wanted short enough = absurd (omega arith)
  property_loop-found (suc fuel) p _ _ d c len s nil wanted short enough =
      loop-returns_value m width path strings target prop_name fuel (inside_node p d c s) 3 _ _
        wanted.tag (λ e. absurd (omega arith)) (turn-wanted p d c len s wanted short)
  property_loop-found (suc fuel) p q _ d c len s
        (other {count = count} name size prop small ne others) wanted short enough =
      loop-goes_on m width path strings target prop_name fuel (inside_node p d c s) _ 3 prop.tag
        (λ e. absurd (omega arith)) (turn-other p d c size s name prop small ne)
      ∙ property_loop-found fuel _ q count d c len s others wanted short (omega arith)

-- The root matches the path "/".
turn-root :
    (m : Bytes) (width : ℕ) (path : Bytes) (strings : ℕ) (prop_name : Bytes) (p : ℕ)
    → m p ≡ 0
    → path 1 ≡ 0
    → 0 < width
    → turn m width path strings 0 prop_name fdt_begin_node (unfound p 0 0 (some 0))
      ≡ some (goes_on (inside_node (align_up4 (p + (0 + 1))) 1 1 none))
unfolding turn begin_node match_node
turn-root m width path strings prop_name p empty over pos =
    let len = strlen_lem width m p [] empty pos in
    let no_unit = strchr-empty width m p b'@' pos empty (λ e. absurd (omega arith)) in
    let no_slash = strchr-empty width path 1 b'/' pos over (λ e. absurd (omega arith)) in
    let measured : name_length m width path p none ≡ some 0 = len in
    let none_compared = strncmp-none m p path 0 in
    rw (len, no_unit, measured, none_compared, no_slash, over) refl

-- `dtb_get_property` of the path "/" returns the value and the length of the first property of the root with the name
-- asked for: behind the root, whose name is empty, come properties with other names and then the one that is wanted. Fuel
-- above their number and a bound above the lengths of the strings are enough.
pub dtb_get_property-root :
    (fuel width : ℕ) (m : Bytes) (s : Dtb) (path prop_name : Bytes) (key : List ℕ) (q count len : ℕ)
    → s.base_address ≢ 0
    → s.dt_strings_ptr ≢ 0
    → IsString path 0 (b'/' ∷ [])
    → IsString prop_name 0 key
    → word_at m (s.base_address + off_dt_struct m s.base_address) ≡ fdt_begin_node
    → m (s.base_address + off_dt_struct m s.base_address + 4) ≡ 0
    → Others m width s.dt_strings_ptr key
        (align_up4 (s.base_address + off_dt_struct m s.base_address + 4 + (0 + 1)))
        q
        count
    → IsProperty m s.dt_strings_ptr q key len
    → length key < width
    → 1 < width
    → suc count < fuel
    → dtb_get_property fuel width m s path prop_name ≡ some (some (q + 4 + 8, len))
unfolding dtb_get_property
dtb_get_property-root zero width m s path prop_name key q count len base strings root named tag
      empty others wanted short wide enough =
    absurd (omega arith)
dtb_get_property-root (suc fuel) width m s path prop_name key q count len base strings
      (slash, real, over) named tag empty others wanted short wide enough =
    let p = s.base_address + off_dt_struct m s.base_address in
    let at = strchr-here width path 0 b'/' (omega arith) slash in
    let (n, counted, few) =
      count_slashes-some width path 0 0 (b'/' ∷ []) (slash, real, over) wide in
    let b = ==_ne s.base_address 0 base in
    let t = ==_ne s.dt_strings_ptr 0 strings in
    let counted' : count_slashes width path 0 0 ≡ some n = counted ∙ ap some (omega arith) in
    let top : n - 1 ≡ 0 = omega arith in
    rw (b, t, at, counted', slash, top)
      (loop-goes_on m width path s.dt_strings_ptr 0 prop_name fuel (unfound p 0 0 (some 0)) _ 1 tag
          (λ e. absurd (omega arith))
          (turn-root m width path s.dt_strings_ptr prop_name (p + 4) empty over (omega arith))
        ∙ property_loop-found m width path s.dt_strings_ptr 0 prop_name key named fuel _ q count 1 1
            len none others wanted short (omega arith))
