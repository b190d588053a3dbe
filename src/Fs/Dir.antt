-- ===== src/Fs/Dir.antt =====
-- kern/fs/fs.c: the operations on directories. A directory holds its entries in its ten direct blocks.
-- A name is a list of characters, which are not 0. A block that a read did not deliver leaves in the
-- buffer what the device left there.
use astral_os.Common.{
  ℕ, zero, suc, ◌+◌, ◌*◌, Bool, false, not, ◌&&◌, Status, ok, error, Option, none, some, List,
  length, get_or, if◌then◌else◌, ltb, ◌==◌, add64, sub64, Bytes, zeros, store, copy, fill, get32,
  get64, put16, put32, put64,
}
use astral_os.Strings.{strcmp, strncpy}
use astral_os.Fs.Store.{
  Env, Fs, Inode, read_block, write_block, kfree, get_inode, write_inode, open_inode, fs_block_size,
  inode_type_dir, type_offset, permissions_offset, size_offset, direct_block, direct_block_offset,
}
use astral_os.Fs.Bitmap.{allocate_inode, free_inode, allocate_block, free_block}

abbrev pub fs_max_filename_len : ℕ
fs_max_filename_len = 28

abbrev pub dir_entry_size : ℕ
dir_entry_size = 36

-- `FS_BLOCK_SIZE / sizeof(dir_entry_t)`
abbrev pub entries_per_block : ℕ
entries_per_block = 113

-- A name as the terminated string that the operations get.
abbrev pub string : List ℕ → Bytes
string name i = get_or name i 0

-- `entry->inode_id` of the entry `j` of a block.
abbrev pub entry_inode : Bytes → ℕ → ℕ
entry_inode block j = get32 block (dir_entry_size * j)

abbrev pub is_zero : Option (ℕ × ℕ) → Bool
is_zero none = false
is_zero (some p) = p.0 == p.1

-- `entry->inode_id != 0 && strcmp(entry->name, name) == 0`. The comparison ends at the terminator of
-- `name` at the latest.
abbrev pub is_entry : Bytes → List ℕ → ℕ → Bool
is_entry block name j =
    not (entry_inode block j == 0)
    && is_zero (strcmp (suc (length name)) block (dir_entry_size * j + 4) (string name) 0)

-- The first of the `n` entries from `j` on that has the name.
unfoldable pub find_entry : Bytes → List ℕ → (j n : ℕ) → Option ℕ
find_entry block name j zero = none
find_entry block name j (suc n) =
    let rest = find_entry block name (j + 1) n in if is_entry block name j then some j else rest

-- The first of the `n` entries from `j` on that is not in use.
unfoldable pub find_unused : Bytes → (j n : ℕ) → Option ℕ
find_unused block j zero = none
find_unused block j (suc n) =
    let rest = find_unused block (j + 1) n in if entry_inode block j == 0 then some j else rest

-- The entry that `fs_create` adds, in memory that was not written yet.
abbrev pub new_entry : Bytes → ℕ → List ℕ → Bytes
new_entry fresh inode_id name =
    store (strncpy (put32 fresh 0 inode_id) 4 (string name) 0 fs_max_filename_len)
      (4 + fs_max_filename_len) 0

-- The inode that `fs_create` writes.
abbrev pub new_inode : ℕ → ℕ → Bytes
new_inode inode_id type =
    put16 (put16 (put32 zeros 0 inode_id) type_offset type) permissions_offset 420

module _ {e : Env} where
  -- The loop of `fs_lookup` over the `n` direct blocks from `i` on: the inode that the entry names.
  unfoldable pub lookup_blocks : Fs e → (parent : Bytes) → List ℕ → Bytes → (i n : ℕ) → ℕ
  lookup_blocks s parent name buffer i zero = 0
  lookup_blocks s parent name buffer i (suc n) =
      let block = (read_block s (direct_block parent i) buffer).1 in
      let skipped = lookup_blocks s parent name buffer (i + 1) n in
      let rest = lookup_blocks s parent name block (i + 1) n in
      if direct_block parent i == 0
      then skipped
      else elim (find_entry block name 0 entries_per_block) [
        | none ↦ rest
        | some j ↦ entry_inode block j
      ]

  unfoldable pub fs_lookup : Fs e → (parent_inode_id : ℕ) → List ℕ → ℕ × Fs e
  fs_lookup s parent_inode_id name =
      let opened = open_inode s parent_inode_id inode_type_dir in
      if ltb fs_max_filename_len (length name) then (0, s) else elim opened.0 [
        | none ↦ (0, opened.1)
        | some parent ↦
            (lookup_blocks opened.1 parent.bytes name e.fresh 0 10, kfree opened.1 parent.address)
      ]

  -- The entry `j` of a block of the directory is overwritten, and its size is set.
  abbrev pub update_dir :
      Fs e
      → (parent_inode_id : ℕ) → (parent : Bytes) → (size i : ℕ) → (block entry : Bytes) → ℕ
      → Fs e
  update_dir s parent_inode_id parent size i block entry j =
      let written =
        (write_block s (direct_block parent i)
          (copy block (dir_entry_size * j) entry 0 dir_entry_size)).1 in
      (write_inode written parent_inode_id (put64 parent size_offset size)).1

  -- The loop of `fs_create` over the `n` direct blocks from `i` on: a missing block is allocated, and the
  -- entry goes to the first place that is not in use.
  unfoldable pub place_entry :
      Fs e → (parent_inode_id : ℕ) → (parent entry buffer : Bytes) → (i n : ℕ) → Fs e
  place_entry s parent_inode_id parent entry buffer i zero = s
  place_entry s parent_inode_id parent entry buffer i (suc n) =
      let missing = direct_block parent i == 0 in
      let got = allocate_block s in
      let s' = if missing then got.1 else s in
      let parent' = if missing then put32 parent (direct_block_offset i) got.0 else parent in
      let block =
        if missing
        then fill buffer 0 0 fs_block_size
        else (read_block s (direct_block parent i) buffer).1 in
      let rest = place_entry s' parent_inode_id parent' entry block (i + 1) n in
      if direct_block parent' i == 0 then s' else elim (find_unused block 0 entries_per_block) [
        | none ↦ rest
        | some j ↦
            update_dir s' parent_inode_id parent' (add64 (get64 parent' size_offset) dir_entry_size)
              i block entry j
      ]

  -- `fs_create` once the parent is open and the name is known to be new.
  abbrev pub create_in : Fs e → (parent_inode_id : ℕ) → Inode → List ℕ → (type : ℕ) → ℕ × Fs e
  create_in s parent_inode_id parent name type =
      let new = allocate_inode s in
      let written = (write_inode new.1 new.0 (new_inode new.0 type)).1 in
      let placed =
        place_entry written parent_inode_id parent.bytes (new_entry e.fresh new.0 name) e.fresh 0
          10 in
      if new.0 == 0 then (0, kfree new.1 parent.address) else (new.0, kfree placed parent.address)

  unfoldable pub fs_create : Fs e → (parent_inode_id : ℕ) → List ℕ → (type : ℕ) → ℕ × Fs e
  fs_create s parent_inode_id name type =
      let opened = open_inode s parent_inode_id inode_type_dir in
      let found = fs_lookup opened.1 parent_inode_id name in
      if ltb fs_max_filename_len (length name) then (0, s) else elim opened.0 [
        | none ↦ (0, opened.1)
        | some parent ↦
            if not (found.0 == 0)
            then (0, kfree found.1 parent.address)
            else create_in found.1 parent_inode_id parent name type
      ]

  -- The loop of `fs_delete` over the `n` direct blocks from `i` on: the inode of the entry that is
  -- cleared, 0 if there is none.
  unfoldable pub remove_entry :
      Fs e
      → (parent_inode_id : ℕ) → (parent : Bytes) → List ℕ
      → (buffer : Bytes) → (i n : ℕ) → ℕ × Fs e
  remove_entry s parent_inode_id parent name buffer i zero = (0, s)
  remove_entry s parent_inode_id parent name buffer i (suc n) =
      let block = (read_block s (direct_block parent i) buffer).1 in
      let skipped = remove_entry s parent_inode_id parent name buffer (i + 1) n in
      let rest = remove_entry s parent_inode_id parent name block (i + 1) n in
      if direct_block parent i == 0
      then skipped
      else elim (find_entry block name 0 entries_per_block) [
        | none ↦ rest
        | some j ↦ (
          entry_inode block j,
          update_dir s parent_inode_id parent (sub64 (get64 parent size_offset) dir_entry_size) i
              block zeros j,
        )
      ]

  -- The loop of `fs_delete` that frees the `n` direct blocks from `i` on.
  unfoldable pub free_blocks : Fs e → (inode : Bytes) → (i n : ℕ) → Fs e
  free_blocks s inode i zero = s
  free_blocks s inode i (suc n) =
      let freed = if direct_block inode i == 0 then s else free_block s (direct_block inode i) in
      free_blocks freed inode (i + 1) n

  -- The end of `fs_delete`, when the entry is gone.
  abbrev pub free_target : Fs e → (target_inode_id : ℕ) → Status × Fs e
  free_target s target_inode_id =
      let got = get_inode s target_inode_id in
      if target_inode_id == 0 then (error, s) else elim got.0 [
        | none ↦ (error, got.1)
        | some target ↦ (
          ok,
          kfree (free_inode (free_blocks got.1 target.bytes 0 10) target_inode_id) target.address,
        )
      ]

  unfoldable pub fs_delete : Fs e → (parent_inode_id : ℕ) → List ℕ → Status × Fs e
  fs_delete s parent_inode_id name =
      let opened = open_inode s parent_inode_id inode_type_dir in
      if ltb fs_max_filename_len (length name) then (error, s) else elim opened.0 [
        | none ↦ (error, opened.1)
        | some parent ↦
            let removed = remove_entry opened.1 parent_inode_id parent.bytes name e.fresh 0 10 in
            free_target (kfree removed.1 parent.address) removed.0
      ]
