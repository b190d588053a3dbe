-- ===== src/Dtb.antt =====
-- kern/boot/dtb.c: the parser of the device tree. The blob is bytes at addresses; a path or the name of a property is
-- a string in an object of its own, and a pointer into it is an offset. An `int` is held modulo 2^32. A loop that a
-- terminator of the blob ends runs on fuel and is `none` when the fuel is used up; the null pointer is `none` inside.
pub mod Swap
pub mod Tree
pub mod Passed
pub mod Hidden
pub mod Root
pub mod Tests
use astral_os.Common.{
  ℕ, zero, suc, ◌+◌, ◌-◌, ◌*◌, ◌/◌, ◌^◌, Bool, true, false, not, ◌&&◌, ◌||◌, Option, none, some,
  ◌>>=◌, List, [], ◌∷◌, get_or, if◌then◌else◌, ltb, leb, ◌==◌, u32, u64, add32, sub32, Bytes, get32,
  get64,
}
use Prim.Native.Nat.{bit_and, bit_or}
use astral_os.Strings.{strchr, strlen, strcmp, strncmp}

abbrev pub fdt_magic : ℕ
fdt_magic = 0xd00dfeed

abbrev pub fdt_begin_node : ℕ
fdt_begin_node = 1

abbrev pub fdt_end_node : ℕ
fdt_end_node = 2

abbrev pub fdt_prop : ℕ
fdt_prop = 3

abbrev pub fdt_end : ℕ
fdt_end = 9

unfoldable pub bswap32 : ℕ → ℕ
bswap32 val =
    bit_or
      (bit_or
        (bit_or (bit_and (u32 (val * 2 ^ 24)) 0xFF000000) (bit_and (u32 (val * 2 ^ 8)) 0x00FF0000))
        (bit_and (val / 2 ^ 8) 0x0000FF00))
      (bit_and (val / 2 ^ 24) 0x000000FF)

unfoldable pub bswap64 : ℕ → ℕ
bswap64 val =
    let a =
      bit_or (bit_and (u64 (val * 2 ^ 56)) 0xFF00000000000000)
        (bit_and (u64 (val * 2 ^ 40)) 0x00FF000000000000) in
    let b = bit_or a (bit_and (u64 (val * 2 ^ 24)) 0x0000FF0000000000) in
    let c = bit_or b (bit_and (u64 (val * 2 ^ 8)) 0x000000FF00000000) in
    let d = bit_or c (bit_and (val / 2 ^ 8) 0x00000000FF000000) in
    let e = bit_or d (bit_and (val / 2 ^ 24) 0x0000000000FF0000) in
    let f = bit_or e (bit_and (val / 2 ^ 40) 0x000000000000FF00) in
    bit_or f (bit_and (val / 2 ^ 56) 0x00000000000000FF)

-- `_dtb_base_address` and `_dt_strings_ptr`.
pub record Dtb : Type 0 where
  pub base_address : ℕ
  pub dt_strings_ptr : ℕ

-- The fields of the header at their offsets.
abbrev pub header_magic : Bytes → ℕ → ℕ
header_magic m base = bswap32 (get32 m base)

abbrev pub off_dt_struct : Bytes → ℕ → ℕ
off_dt_struct m base = bswap32 (get32 m (base + 8))

abbrev pub off_dt_strings : Bytes → ℕ → ℕ
off_dt_strings m base = bswap32 (get32 m (base + 12))

unfoldable pub dtb_init : Bytes → Dtb → (dtb_addr : ℕ) → Dtb
dtb_init m s dtb_addr =
    if header_magic m dtb_addr == fdt_magic
    then record { base_address = dtb_addr; dt_strings_ptr = dtb_addr + off_dt_strings m dtb_addr }
    else record s { base_address = 0 }

-- `ALIGN_UP(p, 4)`.
abbrev pub align_up4 : ℕ → ℕ
align_up4 p = (p + 3) / 4 * 4

abbrev pub same : ℕ × ℕ → Bool
same p = p.0 == p.1

-- The variables of the loop of `dtb_get_property`.
pub record Search : Type 0 where
  pub struct_ptr : ℕ
  pub depth : ℕ
  pub node_found : Bool
  pub current_node_path : ℕ
  pub next_slash : Option ℕ

-- What one turn of the loop does: it returns null, or a property's value and its length, or goes on.
pub data Turn : Type 0 where
  returns_null : Turn
  returns_value : (prop_value len : ℕ) → Turn
  goes_on : Search → Turn

module _ (m : Bytes) (width : ℕ) (path : Bytes) where
  -- `name_end`, and the length of the name up to it.
  abbrev pub name_length : (node_name : ℕ) → (name_end : Option ℕ) → Option ℕ
  name_length node_name none = strlen width m node_name
  name_length node_name (some name_end) = some (name_end - node_name)

  -- The comparison of a name with a segment that a slash ends.
  abbrev pub match_segment : Search → (node_name name_len slash : ℕ) → Option Search
  match_segment w node_name name_len slash =
      let n = slash - w.current_node_path in
      if same (strncmp m node_name path w.current_node_path n) && (n == name_len)
      then strchr width path (slash + 1) b'/' >>= (λ next. some (record w {
        current_node_path = slash + 1;
        next_slash = next;
        node_found = w.node_found || (path (slash + 1) == 0);
      }))
      else some w

  -- Whether the name up to `@` is the rest of the path.
  abbrev pub is_unit : Search → (node_name name_len : ℕ) → (name_end : Option ℕ) → Option Bool
  is_unit w node_name name_len none = some false
  is_unit w node_name name_len (some name_end) =
      if same (strncmp m node_name path w.current_node_path name_len)
      then strlen width path w.current_node_path >>= (λ len. some (len == name_len))
      else some false

  -- The comparison of a name with the last segment.
  abbrev pub match_last : Search → (node_name name_len : ℕ) → (name_end : Option ℕ) → Option Search
  match_last w node_name name_len name_end =
      strcmp width m node_name path w.current_node_path >>= (λ whole.
        if same whole
        then some (record w { node_found = true })
        else is_unit w node_name name_len name_end
          >>= (λ unit. some (record w { node_found = w.node_found || unit })))

  unfoldable pub match_node : Search → (node_name : ℕ) → Option Search
  match_node w node_name = strchr width m node_name b'@' >>= (λ name_end.
      name_length node_name name_end >>= (λ name_len. elim w.next_slash [
        | some slash ↦ match_segment w node_name name_len slash
        | none ↦ match_last w node_name name_len name_end
      ]))

  -- The branches on the tag; `struct_ptr` is behind it.
  unfoldable pub begin_node : (target_depth : ℕ) → Search → Option Turn
  begin_node target_depth w = strlen width m w.struct_ptr >>= (λ len.
      let w' = record w {
        struct_ptr = align_up4 (w.struct_ptr + (len + 1));
        depth = add32 w.depth 1;
      } in
      if not w.node_found && (w'.depth == add32 target_depth 1)
      then match_node w' w.struct_ptr >>= (λ matched. some (goes_on matched))
      else some (goes_on w'))

  unfoldable pub end_node : Search → Option Turn
  end_node w =
      if w.node_found
      then some returns_null
      else some (goes_on (record w { depth = sub32 w.depth 1 }))

  unfoldable pub property : (dt_strings_ptr : ℕ) → (prop_name : Bytes) → Search → Option Turn
  property dt_strings_ptr prop_name w =
      let len_prop = bswap32 (get32 m w.struct_ptr) in
      let nameoff_prop = bswap32 (get32 m (w.struct_ptr + 4)) in
      let prop_value = w.struct_ptr + 8 in
      let next = goes_on (record w { struct_ptr = align_up4 (prop_value + len_prop) }) in
      if w.node_found
      then strcmp width m (dt_strings_ptr + nameoff_prop) prop_name 0 >>= (λ compared.
        if same compared then some (returns_value prop_value len_prop) else some next)
      else some next

  unfoldable pub turn :
      (dt_strings_ptr target_depth : ℕ) → (prop_name : Bytes) → (tag : ℕ) → Search → Option Turn
  turn dt_strings_ptr target_depth prop_name tag w =
      if tag == fdt_begin_node
      then begin_node target_depth w
      else if tag == fdt_end_node
      then end_node w
      else if tag == fdt_prop
      then property dt_strings_ptr prop_name w
      else some (goes_on w)

  unfoldable pub property_loop :
      (fuel dt_strings_ptr target_depth : ℕ)
      → (prop_name : Bytes) → Search
      → Option (Option (ℕ × ℕ))
  property_loop zero dt_strings_ptr target_depth prop_name w = none
  property_loop (suc fuel) dt_strings_ptr target_depth prop_name w =
      let tag = bswap32 (get32 m w.struct_ptr) in
      let turned : Option (Option (ℕ × ℕ)) =
        elim (turn dt_strings_ptr target_depth prop_name tag
          (record w { struct_ptr = w.struct_ptr + 4 })) [
            | none ↦ none
            | some returns_null ↦ some none
            | some (returns_value prop_value len) ↦ some (some (prop_value, len))
            | some (goes_on w') ↦ property_loop fuel dt_strings_ptr target_depth prop_name w'
          ] in
      if tag == fdt_end then some none else turned

-- The loop over the path: how many slashes it has.
unfoldable pub count_slashes : (fuel : ℕ) → (path : Bytes) → (i target_depth : ℕ) → Option ℕ
count_slashes zero path i target_depth = none
count_slashes (suc fuel) path i target_depth =
    let rest =
      count_slashes fuel path (i + 1) (if path i == b'/' then target_depth + 1 else target_depth) in
    if path i == 0 then some target_depth else rest

-- `fuel` bounds the tags, and `width` the length of the strings.
unfoldable pub dtb_get_property :
    (fuel width : ℕ) → (m : Bytes) → Dtb → (node_path prop_name : Bytes) → Option (Option (ℕ × ℕ))
dtb_get_property fuel width m s node_path prop_name =
    let found : Option (Option (ℕ × ℕ)) = strchr width node_path 0 b'/' >>= (λ next_slash.
      count_slashes width node_path 0 0 >>= (λ slashes.
        property_loop m width node_path fuel s.dt_strings_ptr
          (if node_path 0 == b'/' then slashes - 1 else slashes) prop_name
          (record {
            struct_ptr = s.base_address + off_dt_struct m s.base_address;
            depth = 0;
            node_found = false;
            current_node_path = 0;
            next_slash = next_slash;
          }))) in
    if (s.base_address == 0) || (s.dt_strings_ptr == 0) then some none else found

-- A string literal.
abbrev pub literal : List ℕ → Bytes
literal xs i = get_or xs i 0

-- "/chosen", "framebuffer", "/memory" and "reg".
abbrev pub fb_node_path : List ℕ
fb_node_path = b'/' ∷ b'c' ∷ b'h' ∷ b'o' ∷ b's' ∷ b'e' ∷ b'n' ∷ []

abbrev pub fb_prop_name : List ℕ
fb_prop_name = b'f' ∷ b'r' ∷ b'a' ∷ b'm' ∷ b'e' ∷ b'b' ∷ b'u' ∷ b'f' ∷ b'f' ∷ b'e' ∷ b'r' ∷ []

abbrev pub mem_node_path : List ℕ
mem_node_path = b'/' ∷ b'm' ∷ b'e' ∷ b'm' ∷ b'o' ∷ b'r' ∷ b'y' ∷ []

abbrev pub mem_prop_name : List ℕ
mem_prop_name = b'r' ∷ b'e' ∷ b'g' ∷ []

-- The values behind the pointers when the result is 0, and `none` when it is -1.
pub record Framebuffer : Type 0 where
  pub fb_base : ℕ
  pub fb_width : ℕ
  pub fb_height : ℕ
  pub fb_pitch : ℕ

abbrev pub read_framebuffer : Bytes → Option (ℕ × ℕ) → Option Framebuffer
read_framebuffer m none = none
read_framebuffer m (some (prop_val, len)) =
    if leb 16 len
    then some (record {
      fb_base = bswap32 (get32 m prop_val);
      fb_width = bswap32 (get32 m (prop_val + 4));
      fb_height = bswap32 (get32 m (prop_val + 8));
      fb_pitch = bswap32 (get32 m (prop_val + 12));
    })
    else none

unfoldable pub dtb_get_framebuffer_info :
    (fuel width : ℕ) → Bytes → Dtb → Option (Option Framebuffer)
dtb_get_framebuffer_info fuel width m s =
    let found : Option (Option Framebuffer) =
      dtb_get_property fuel width m s (literal fb_node_path) (literal fb_prop_name)
      >>= (λ prop. some (read_framebuffer m prop)) in
    if s.base_address == 0 then some none else found

abbrev pub read_memory : Bytes → Option (ℕ × ℕ) → Option (ℕ × ℕ)
read_memory m none = none
read_memory m (some (prop_val, len)) =
    if leb 16 len then some (bswap64 (get64 m prop_val), bswap64 (get64 m (prop_val + 8))) else none

unfoldable pub dtb_get_memory_info : (fuel width : ℕ) → Bytes → Dtb → Option (Option (ℕ × ℕ))
dtb_get_memory_info fuel width m s =
    let found : Option (Option (ℕ × ℕ)) =
      dtb_get_property fuel width m s (literal mem_node_path) (literal mem_prop_name)
      >>= (λ prop. some (read_memory m prop)) in
    if s.base_address == 0 then some none else found
