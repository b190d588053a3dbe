-- ===== src/Dtb/Passed.antt =====
-- `dtb_get_property` of kern/boot/dtb.c: the turns of its loop, and the nodes below the root, which it passes by.
use astral_os.Common.{
  ℕ, zero, suc, ◌+◌, ◌-◌, ◌^◌, ◌<◌, ◌≡◌, ◌≢◌, ◌⊎◌, inl, inr, refl, ◌∙◌, arith, false, Bool-cases,
  Option, none, some, List, ◌∷◌, length, ◌==◌, ==_ne, Bytes, add32, sub32,
}
use astral_os.Strings.Terminated.{IsString, strlen_lem}
use astral_os.Strings.Search.{strchr-later, strncmp-none}
use astral_os.Dtb.{
  fdt_begin_node, fdt_end, align_up4, Search, returns_value, goes_on, match_node, begin_node,
  end_node, property, turn, property_loop,
}
use astral_os.Dtb.Tree.{Token, word_at, Laid, Inside, over, opens, closes, has, skips}

-- The search while the node is not found.
abbrev pub unfound : (p d c : ℕ) → Option ℕ → Search
unfound p d c s = record {
  struct_ptr = p;
  depth = d;
  node_found = false;
  current_node_path = c;
  next_slash = s;
}

module _ (m : Bytes) (width : ℕ) (path : Bytes) (strings target : ℕ) (prop_name : Bytes) where
  -- One turn of the loop, by what the turn does.
  pub loop-goes_on :
      (fuel : ℕ) (w w' : Search) (tag : ℕ)
      → word_at m w.struct_ptr ≡ tag
      → tag ≢ fdt_end
      → turn m width path strings target prop_name tag (record w { struct_ptr = w.struct_ptr + 4 })
        ≡ some (goes_on w')
      → property_loop m width path (suc fuel) strings target prop_name w
        ≡ property_loop m width path fuel strings target prop_name w'
  unfolding property_loop
  loop-goes_on fuel w w' tag here ne turned =
      let test = ==_ne tag fdt_end ne in rw (here, test, turned) refl

  pub loop-returns_value :
      (fuel : ℕ) (w : Search) (tag value len : ℕ)
      → word_at m w.struct_ptr ≡ tag
      → tag ≢ fdt_end
      → turn m width path strings target prop_name tag (record w { struct_ptr = w.struct_ptr + 4 })
        ≡ some (returns_value value len)
      → property_loop m width path (suc fuel) strings target prop_name w ≡ some (some (value, len))
  unfolding property_loop
  loop-returns_value fuel w tag value len here ne turned =
      let test = ==_ne tag fdt_end ne in rw (here, test, turned) refl

  pub loop-end :
      (fuel : ℕ) (w : Search)
      → word_at m w.struct_ptr ≡ fdt_end
      → property_loop m width path (suc fuel) strings target prop_name w ≡ some none
  unfolding property_loop
  loop-end fuel w here = rw here refl

  -- The search is over: the path asks for a node at the top, or no part of it was found.
  abbrev Blind : ℕ → Option ℕ → Type 0
  Blind c s = (target ≡ 0) ⊎ ((c ≡ 0) × (s ≡ some 0))

  -- Nothing of the path matches the name of a node that is not the root.
  match_node-Blind :
      (p d node_name x : ℕ) (xs : List ℕ)
      → IsString m node_name (x ∷ xs)
      → suc (length xs) < width
      → x ≢ b'@'
      → match_node m width path (unfound p d 0 (some 0)) node_name ≡ some (unfound p d 0 (some 0))
  unfolding match_node
  match_node-Blind p d node_name x xs str short ne =
      let none_compared = strncmp-none m node_name path 0 in
      elim (strchr-later width m node_name b'@' x xs str short ne) [
        | inl null ↦
            let size : (0 == suc (length xs)) ≡ false =
              ==_ne 0 (suc (length xs)) (λ e. absurd (omega arith)) in
            rw (null, strlen_lem width m node_name (x ∷ xs) str short, none_compared, size) refl
        | inr (k, found) ↦
            let size : (0 == node_name + suc k - node_name) ≡ false =
              ==_ne 0 (node_name + suc k - node_name) (λ e. absurd (omega arith)) in
            rw (found, none_compared, size) refl
      ]

  -- A node below the root is passed by.
  turn-begin :
      (p d c x : ℕ) (s : Option ℕ) (xs : List ℕ)
      → IsString m p (x ∷ xs)
      → suc (length xs) < width
      → x ≢ b'@'
      → Blind c s
      → d + 2 < 2 ^ 32
      → target + 1 < 2 ^ 32
      → turn m width path strings target prop_name fdt_begin_node (unfound p (suc d) c s)
        ≡ some (goes_on (unfound (align_up4 (p + (suc (length xs) + 1))) (suc (suc d)) c s))
  unfolding turn begin_node
  turn-begin p d c x s xs str short ne blind small fits =
      let len = strlen_lem width m p (x ∷ xs) str short in
      let deeper : add32 (suc d) 1 ≡ suc (suc d) = omega arith in
      let level : add32 target 1 ≡ target + 1 = omega arith in
      elim blind [
        | inl top ↦
            let test : (suc (suc d) == 1) ≡ false =
              ==_ne (suc (suc d)) 1 (λ e. absurd (omega arith)) in
            rw (len, deeper, top, test) refl
        | inr (start, slash) ↦ elim (Bool-cases (suc (suc d) == target + 1)) [
          | inl at ↦
              let matched =
                match_node-Blind (align_up4 (p + (suc (length xs) + 1))) (suc (suc d)) p x xs str
                  short ne in
              rw (len, deeper, level, at, start, slash, matched) refl
          | inr off ↦ rw (len, deeper, level, off) refl
        ]
      ]

  pub property_loop-null :
      (ts : List Token) (fuel p d c : ℕ) (s : Option ℕ)
      → Inside width d ts
      → Laid m p ts
      → Blind c s
      → d + length ts + 1 < 2 ^ 32
      → target + 1 < 2 ^ 32
      → length ts < fuel
      → property_loop m width path fuel strings target prop_name (unfound p d c s) ≡ some none
  unfolding turn end_node property
  property_loop-null ts zero p d c s inside laid blind small fits enough = absurd (omega arith)
  property_loop-null _ (suc fuel) p d c s over laid blind small fits enough =
      loop-end fuel (unfound p d c s) laid
  property_loop-null _ (suc fuel) p _ c s (opens {d = d} {ts = ts} x xs ne short inside)
        (tag, str, laid) blind small fits enough =
      loop-goes_on fuel (unfound p (suc d) c s) _ 1 tag (λ e. absurd (omega arith))
        (turn-begin (p + 4) d c x s xs str short ne blind (omega arith) fits)
      ∙ property_loop-null ts fuel _ (suc (suc d)) c s inside laid blind (omega arith) fits
          (omega arith)
  property_loop-null _ (suc fuel) p _ c s (closes {d = d} {ts = ts} inside) (tag, laid) blind small
        fits enough =
      let up : sub32 (suc d) 1 ≡ d = omega arith in
      loop-goes_on fuel (unfound p (suc d) c s) (unfound (p + 4) d c s) 2 tag
        (λ e. absurd (omega arith)) (rw up refl)
      ∙ property_loop-null ts fuel (p + 4) d c s inside laid blind (omega arith) fits (omega arith)
  property_loop-null _ (suc fuel) p d c s (has {ts = ts} nameoff len inside) (tag, size, off, laid)
        blind small fits enough =
      loop-goes_on fuel (unfound p d c s) (unfound (align_up4 (p + 4 + 8 + len)) d c s) 3 tag
        (λ e. absurd (omega arith)) (rw size refl)
      ∙ property_loop-null ts fuel _ d c s inside laid blind (omega arith) fits (omega arith)
  property_loop-null _ (suc fuel) p d c s (skips {ts = ts} inside) (tag, laid) blind small fits
        enough =
      loop-goes_on fuel (unfound p d c s) (unfound (p + 4) d c s) 4 tag (λ e. absurd (omega arith))
        refl
      ∙ property_loop-null ts fuel (p + 4) d c s inside laid blind (omega arith) fits (omega arith)
