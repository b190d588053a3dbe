-- ===== src/Vfs.antt =====
-- kern/fs/vfs.c: the tree of nodes. The nodes are cells of a store, by address, with 0 for null; a
-- name is the list of its characters. The two functions that pass reads and writes on to the file
-- system call it with three arguments where its prototypes have four, so they are not modelled.
pub mod Children
pub mod Create
pub mod Lookup
pub mod Found
mod Tests
use astral_os.Common.{
  ℕ, zero, suc, ◌+◌, Bool, true, false, not, ◌||◌, Status, ok, error, Option, none, some, List, [],
  ◌∷◌, length, if◌then◌else◌, ◌==◌, get_or,
}
use astral_os.Strings.{strcmp}

pub record VfsNode : Type 0 where
  pub name : List ℕ
  pub type : ℕ
  pub parent : ℕ
  pub child : ℕ
  pub sibling : ℕ
  pub fs_data : ℕ

abbrev pub vfs_node_dir : ℕ
vfs_node_dir = 1

abbrev pub vfs_node_file : ℕ
vfs_node_file = 2

abbrev pub node_size : ℕ
node_size = 48

-- The static variable of the file and the nodes in memory.
pub record Vfs : Type 0 where
  pub root : ℕ
  pub nodes : ℕ → VfsNode

abbrev pub set_node : Vfs → ℕ → VfsNode → Vfs
set_node s a n = record s { nodes = λ b. if b == a then n else s.nodes b }

-- The name of the root, "root".
abbrev pub root_name : List ℕ
root_name = 114 ∷ 111 ∷ 111 ∷ 116 ∷ []

-- Each function that allocates takes what `kmalloc` returned.
pub vfs_init : Vfs → (allocated : ℕ) → Status × Vfs
vfs_init s allocated =
    let node : VfsNode = record {
      name = root_name;
      type = vfs_node_dir;
      parent = 0;
      child = 0;
      sibling = 0;
      fs_data = 0;
    } in
    if allocated == 0
    then (error, record s { root = 0 })
    else (ok, set_node (record s { root = allocated }) allocated node)

pub vfs_get_root : Vfs → ℕ
vfs_get_root s = s.root

-- `!parent || parent->type != VFS_NODE_DIR`
abbrev pub is_no_dir : Vfs → ℕ → Bool
is_no_dir s a = (a == 0) || not ((s.nodes a).type == vfs_node_dir)

-- `while (cur->sibling) cur = cur->sibling`, on fuel.
unfoldable pub last_sibling : (fuel : ℕ) → Vfs → ℕ → Option ℕ
last_sibling zero s cur = none
last_sibling (suc fuel) s cur =
    let rest = last_sibling fuel s (s.nodes cur).sibling in
    if (s.nodes cur).sibling == 0 then some cur else rest

-- The node is put at the end of the parent's list of children.
abbrev pub link_last : Vfs → (node cur : ℕ) → Vfs
link_last s node cur = set_node s cur (record (s.nodes cur) { sibling = node })

abbrev pub linked : Vfs → (node : ℕ) → Option ℕ → Option (ℕ × Vfs)
linked s node none = none
linked s node (some cur) = some (node, link_last s node cur)

abbrev pub add_child : (fuel : ℕ) → Vfs → (parent node : ℕ) → Option (ℕ × Vfs)
add_child fuel s parent node =
    if (s.nodes parent).child == 0
    then some (node, set_node s parent (record (s.nodes parent) { child = node }))
    else linked s node (last_sibling fuel s (s.nodes parent).child)

-- What `vfs_create_dir` and `vfs_create_file` share: the null node (0), or a new last child.
unfoldable pub create_node :
    (fuel : ℕ) → Vfs → (allocated parent : ℕ) → List ℕ → (type fs_data : ℕ) → Option (ℕ × Vfs)
unfolding last_sibling
create_node fuel s allocated parent name type fs_data =
    let node : VfsNode = record {
      name = name;
      type = type;
      parent = parent;
      child = 0;
      sibling = 0;
      fs_data = fs_data;
    } in
    if is_no_dir s parent
    then some (0, s)
    else if allocated == 0
    then some (0, s)
    else add_child fuel (set_node s allocated node) parent allocated

pub vfs_create_dir : (fuel : ℕ) → Vfs → (allocated parent : ℕ) → List ℕ → Option (ℕ × Vfs)
unfolding create_node
vfs_create_dir fuel s allocated parent name =
    create_node fuel s allocated parent name vfs_node_dir 0

pub vfs_create_file :
    (fuel : ℕ) → Vfs → (allocated parent : ℕ) → List ℕ → (fs_data : ℕ) → Option (ℕ × Vfs)
unfolding create_node
vfs_create_file fuel s allocated parent name fs_data =
    create_node fuel s allocated parent name vfs_node_file fs_data

-- `strcmp(cur->name, name) == 0`
abbrev pub same_name : List ℕ → List ℕ → Bool
same_name a b = elim (strcmp (suc (length a)) (λ i. get_or a i 0) 0 (λ i. get_or b i 0) 0) [
  | none ↦ false
  | some r ↦ r.0 == r.1
]

-- The loop of `vfs_lookup` from the node `cur` on: a null node (0) if no name is the same.
pub lookup_from : (fuel : ℕ) → Vfs → (cur : ℕ) → List ℕ → Option ℕ
lookup_from zero s cur name = none
lookup_from (suc fuel) s cur name =
    let rest = lookup_from fuel s (s.nodes cur).sibling name in
    if cur == 0 then some 0 else if same_name (s.nodes cur).name name then some cur else rest

pub vfs_lookup : (fuel : ℕ) → Vfs → (node : ℕ) → List ℕ → Option ℕ
unfolding lookup_from
vfs_lookup fuel s node name =
    if is_no_dir s node then some 0 else lookup_from fuel s (s.nodes node).child name

pub vfs_mount : Vfs → (mount_point fs_root : ℕ) → Status × Vfs
vfs_mount s mount_point fs_root =
    if mount_point == 0
    then (error, s)
    else (ok, set_node s mount_point (record (s.nodes mount_point) { fs_data = fs_root }))
