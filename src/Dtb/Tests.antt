-- ===== src/Dtb/Tests.antt =====
-- A device tree as kern/boot/dtb.c reads it, and the theorems at this tree: it has the node "/chosen" with the property
-- "framebuffer".
use astral_os.Common.{
  ℕ, ◌-◌, ◌/◌, ◌%◌, ◌^◌, ◌<◌, ◌≡◌, ◌≢◌, refl, arith, some, none, List, [], ◌∷◌, ◌++◌, get_or, Bytes,
  zeros, within, if◌then◌else◌, get32, get64,
}
use astral_os.Strings.Terminated.{IsString}
use astral_os.Dtb.{
  bswap32, bswap64, Dtb, dtb_init, dtb_get_property, literal, fb_node_path, fb_prop_name,
}
use astral_os.Dtb.Swap.{big_endian32, big_endian64, bswap-big_endian}
use astral_os.Dtb.Tree.{Token, begins, ends, prop, over, opens, closes, has}
use astral_os.Dtb.Hidden.{IsTree, dtb_get_property-null}
use astral_os.Dtb.Root.{IsProperty, Others, nil, other, dtb_get_property-root}

abbrev be : ℕ → List ℕ
be v = v / 2 ^ 24 % 256 ∷ v / 2 ^ 16 % 256 ∷ v / 2 ^ 8 % 256 ∷ v % 256 ∷ []

abbrev chosen : List ℕ
chosen = b'c' ∷ b'h' ∷ b'o' ∷ b's' ∷ b'e' ∷ b'n' ∷ []

abbrev reg : List ℕ
reg = b'r' ∷ b'e' ∷ b'g' ∷ []

-- The header up to the offset of the strings, the structure block, and the strings.
abbrev pub blob : List ℕ
blob =
    be 0xd00dfeed
    ++ be 200
    ++ be 16
    ++ be 108
    ++ (be 1 ++ be 0)
    ++ (be 3 ++ be 4 ++ be 0 ++ be 77)
    ++ (be 3 ++ be 4 ++ be 4 ++ be 88)
    ++ (be 1 ++ chosen ++ (0 ∷ 0 ∷ []))
    ++ (be 3 ++ be 16 ++ be 4 ++ be 0x40000000 ++ be 640 ++ be 480 ++ be 2560)
    ++ be 2
    ++ be 2
    ++ be 9
    ++ reg
    ++ (0 ∷ [])
    ++ fb_prop_name

-- The page at 4096 holds the tree, and any other memory is around it.
abbrev pub around : Bytes → Bytes
around rest a = if within 4096 4096 a then get_or blob (a - 4096) 0 else rest a

abbrev memory : Bytes
memory = around zeros

abbrev pub tree : List Token
tree = prop 0 4 ∷ prop 4 4 ∷ begins chosen ∷ prop 4 16 ∷ ends ∷ ends ∷ []

abbrev pub none_before : Dtb
none_before = record { base_address = 0; dt_strings_ptr = 0 }

abbrev pub dtb : Dtb
dtb = record { base_address = 4096; dt_strings_ptr = 4204 }

pub dtb_init_run : (rest : Bytes) → dtb_init (around rest) none_before 4096 ≡ dtb
unfolding dtb_init bswap32
dtb_init_run rest = refl

some_char : (c : ℕ) → 0 < c → c ≢ 0
some_char c pos e = omega arith

pub tree-IsTree : (rest : Bytes) → IsTree (around rest) 32 dtb tree
unfolding bswap32
tree-IsTree rest = record {
  base = some_char 4096 (omega arith);
  strings = some_char 4204 (omega arith);
  laid = (
    refl,
    refl,
    (
      refl,
      refl,
      refl,
      (
        refl,
        refl,
        refl,
        (
          refl,
          (
            refl,
            some_char _ (omega arith),
            (
              refl,
              some_char _ (omega arith),
              (
                refl,
                some_char _ (omega arith),
                (
                  refl,
                  some_char _ (omega arith),
                  (refl, some_char _ (omega arith), (refl, some_char _ (omega arith), refl)),
                ),
              ),
            ),
          ),
          (refl, refl, refl, (refl, (refl, refl))),
        ),
      ),
    ),
  );
  inside = has 0 4 (
      has 4 4 (
        opens b'c' (b'h' ∷ b'o' ∷ b's' ∷ b'e' ∷ b'n' ∷ []) (λ e. absurd (omega arith)) (omega arith)
          (has 4 16 (closes (closes over)))));
}

chosen-IsString : IsString (literal fb_node_path) 0 (b'/' ∷ chosen)
chosen-IsString = (
  refl,
  some_char b'/' (omega arith),
  (
    refl,
    some_char b'c' (omega arith),
    (
      refl,
      some_char b'h' (omega arith),
      (
        refl,
        some_char b'o' (omega arith),
        (
          refl,
          some_char b's' (omega arith),
          (refl, some_char b'e' (omega arith), (refl, some_char b'n' (omega arith), refl)),
        ),
      ),
    ),
  ),
)

dtb_get_property-null_example :
    dtb_get_property 10 32 memory dtb (literal fb_node_path) (literal fb_prop_name) ≡ some none
dtb_get_property-null_example =
    dtb_get_property-null 10 32 memory dtb tree (literal fb_node_path) (literal fb_prop_name) b'c'
      (b'h' ∷ b'o' ∷ b's' ∷ b'e' ∷ b'n' ∷ []) (tree-IsTree zeros) chosen-IsString (omega arith)
      (omega arith) (omega arith) (omega arith)

-- The second property of the root, by the path "/".
key-IsString : IsString (literal reg) 0 reg
key-IsString = (
  refl,
  some_char b'r' (omega arith),
  (refl, some_char b'e' (omega arith), (refl, some_char b'g' (omega arith), refl)),
)

fb-IsString : IsString (literal fb_prop_name) 0 fb_prop_name
fb-IsString = (
  refl,
  some_char b'f' (omega arith),
  (
    refl,
    some_char b'r' (omega arith),
    (
      refl,
      some_char b'a' (omega arith),
      (
        refl,
        some_char b'm' (omega arith),
        (
          refl,
          some_char b'e' (omega arith),
          (
            refl,
            some_char b'b' (omega arith),
            (
              refl,
              some_char b'u' (omega arith),
              (
                refl,
                some_char b'f' (omega arith),
                (
                  refl,
                  some_char b'f' (omega arith),
                  (refl, some_char b'e' (omega arith), (refl, some_char b'r' (omega arith), refl)),
                ),
              ),
            ),
          ),
        ),
      ),
    ),
  ),
)

reg-IsProperty : IsProperty memory 4204 4120 reg 4
unfolding bswap32
reg-IsProperty = record {
  nameoff = 0;
  tag = refl;
  size = refl;
  offset = refl;
  string = (
    refl,
    some_char b'r' (omega arith),
    (refl, some_char b'e' (omega arith), (refl, some_char b'g' (omega arith), refl)),
  );
}

fb-IsProperty : IsProperty memory 4204 4136 fb_prop_name 4
unfolding bswap32
fb-IsProperty = record {
  nameoff = 4;
  tag = refl;
  size = refl;
  offset = refl;
  string = (
    refl,
    some_char b'f' (omega arith),
    (
      refl,
      some_char b'r' (omega arith),
      (
        refl,
        some_char b'a' (omega arith),
        (
          refl,
          some_char b'm' (omega arith),
          (
            refl,
            some_char b'e' (omega arith),
            (
              refl,
              some_char b'b' (omega arith),
              (
                refl,
                some_char b'u' (omega arith),
                (
                  refl,
                  some_char b'f' (omega arith),
                  (
                    refl,
                    some_char b'f' (omega arith),
                    (
                      refl,
                      some_char b'e' (omega arith),
                      (refl, some_char b'r' (omega arith), refl),
                    ),
                  ),
                ),
              ),
            ),
          ),
        ),
      ),
    ),
  );
}

reg-differs : reg ≢ fb_prop_name
reg-differs e = absurd (ground arith)

one_other : Others memory 32 4204 fb_prop_name 4120 4136 1
one_other = other reg 4 reg-IsProperty (omega arith) reg-differs nil

begin_word : bswap32 (get32 memory 4112) ≡ 1
unfolding bswap32
begin_word = refl

dtb_get_property-root_example :
    dtb_get_property 3 32 memory dtb (literal (b'/' ∷ [])) (literal fb_prop_name)
    ≡ some (some (4148, 4))
unfolding bswap32
dtb_get_property-root_example =
    dtb_get_property-root 3 32 memory dtb (literal (b'/' ∷ [])) (literal fb_prop_name) fb_prop_name
      4136 1 4 (some_char 4096 (omega arith)) (some_char 4204 (omega arith))
      (refl, some_char b'/' (omega arith), refl) fb-IsString begin_word refl one_other fb-IsProperty
      (omega arith) (omega arith) (omega arith)

abbrev counting : Bytes
counting a = a % 256

bswap-big_endian_example :
    (bswap32 (get32 counting 3) ≡ big_endian32 counting 3)
    × (bswap64 (get64 counting 3) ≡ big_endian64 counting 3)
bswap-big_endian_example = bswap-big_endian counting 3 (λ a. omega arith)
