-- ===== src/Vfs/Tests.antt =====
-- Runs of kern/fs/vfs.c, and its theorems at a small tree.
use astral_os.Common.{◌≡◌, refl, arith, [], ◌∷◌, error, if◌then◌else◌, ◌==◌}
use astral_os.Vfs.{
  VfsNode, Vfs, vfs_node_dir, vfs_node_file, root_name, vfs_init, vfs_get_root, vfs_mount,
}
use astral_os.Vfs.Children.{IsDirectory}

abbrev blank : VfsNode
blank = record { name = []; type = 0; parent = 0; child = 0; sibling = 0; fs_data = 0 }

abbrev root_node : VfsNode
root_node = record {
  name = root_name;
  type = vfs_node_dir;
  parent = 0;
  child = 128;
  sibling = 0;
  fs_data = 0;
}

abbrev file_node : VfsNode
file_node = record {
  name = 97 ∷ [];
  type = vfs_node_file;
  parent = 64;
  child = 0;
  sibling = 0;
  fs_data = 5;
}

-- The root at address 64 with one file "a" at address 128.
abbrev tree : Vfs
tree = record {
  root = 64;
  nodes = λ a. if a == 64 then root_node else if a == 128 then file_node else blank;
}

abbrev tree-IsDirectory : IsDirectory tree 64 (128 ∷ [])
tree-IsDirectory = record {
  real = λ e. absurd (omega arith);
  directory = refl;
  children = (refl, (λ e. absurd (omega arith)), refl);
  distinct = (tt, tt);
  outside = ((λ e. absurd (omega arith)), tt);
}

vfs_mount_runs : ((vfs_mount tree 0 7).0 ≡ error) × (((vfs_mount tree 64 7).1.nodes 64).fs_data ≡ 7)
unfolding vfs_mount
vfs_mount_runs = (refl, refl)

vfs_init_runs : ((vfs_init tree 0).0 ≡ error) × (vfs_get_root (vfs_init tree 256).1 ≡ 256)
unfolding vfs_init vfs_get_root
vfs_init_runs = (refl, refl)
