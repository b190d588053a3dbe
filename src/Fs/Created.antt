-- ===== src/Fs/Created.antt =====
-- kern/fs/fs.c: `fs_lookup` after `fs_create`.
use astral_os.Fs.Allocation.{allocate, release}
use astral_os.Common.{ℕ, not, Option, none, some, if◌then◌else◌, List, ◌==◌}
use astral_os.Fs.Store.{Env, Fs, Inode, kfree, inode_size}
use astral_os.Fs.Dir.{lookup_blocks, fs_lookup, create_in}
use astral_os.Fs.Content.{IsReliable}
use astral_os.Fs.Open.{loaded}

module _ {e : Env} (reliable : IsReliable e) (s : Fs e) (parent_id : ℕ) (name : List ℕ)
    (type : ℕ) where
  -- What `fs_create` does with an open directory, by what the search for the name returns.
  abbrev inode : Inode
  inode = record { address = (allocate s.heap inode_size).0; bytes = loaded s parent_id }

  abbrev decide : ℕ × Fs e → ℕ × Fs e
  decide found =
      if not (found.0 == 0)
      then (0, kfree found.1 inode.address)
      else create_in found.1 parent_id inode name type

  abbrev opened : Option Inode × Fs e → ℕ × Fs e
  opened o = elim o.0 [
    | none ↦ (0, o.1)
    | some parent ↦
        let found = fs_lookup o.1 parent_id name in
        if not (found.0 == 0)
        then (0, kfree found.1 parent.address)
        else create_in found.1 parent_id parent name type
  ]

  abbrev once : Fs e
  once = record s { heap = (allocate s.heap inode_size).1 }

  abbrev twice : Fs e
  twice = record once {
    heap = release (allocate once.heap inode_size).1 (allocate once.heap inode_size).0;
  }

  abbrev searched_for : ℕ
  searched_for = lookup_blocks s (loaded s parent_id) name e.fresh 0 10
