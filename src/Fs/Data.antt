-- ===== src/Fs/Data.antt =====
-- kern/fs/fs.c: `fs_read` and `fs_write`. A loop that goes on while bytes are left runs on fuel: `Fs.Ends`
-- shows that eleven rounds are enough. Results are the bytes done, or `none` for -1.
use astral_os.Common.{
  ℕ, zero, suc, ◌+◌, ◌-◌, ◌/◌, ◌%◌, ok, error, Option, none, some, if◌then◌else◌, ltb, leb, ◌==◌,
  add64, sub64, u32, Bytes, copy, get64, put32, put64,
}
use astral_os.Fs.Store.{
  Env, Fs, Inode, read_block, write_block, kfree, write_inode, open_inode, fs_block_size,
  inode_type_file, size_offset, direct_block, direct_block_offset,
}
use astral_os.Fs.Bitmap.{allocate_block}

-- The rounds that the two loops get: one for each direct block, and the one that ends them.
abbrev pub rounds : ℕ
rounds = 11

-- `block_idx`, a `uint32_t`, and `block_offset` of a position in a file.
abbrev pub block_idx : ℕ → ℕ
block_idx position = u32 (position / fs_block_size)

abbrev pub block_offset : ℕ → ℕ
block_offset position = position % fs_block_size

-- The bytes that a round copies: to the end of the block, or as many as are left.
abbrev pub bytes_to_copy : (position left : ℕ) → ℕ
bytes_to_copy position left =
    let to_end = fs_block_size - block_offset position in if ltb left to_end then left else to_end

-- The bytes that `fs_read` is to read: those up to the size of the file.
abbrev pub clamp : (size offset count : ℕ) → ℕ
clamp size offset count = if ltb size (add64 offset count) then sub64 size offset else count

-- How a loop ends: the bytes done (`none` when a block could not be read), and what it changed.
pub data Run (S : Type 0) : Type 0 where
  finished : Option ℕ → S → Run S
  -- The fuel is used up.
  stuck : Run S

module _ {e : Env} where
  -- The loop of `fs_read`.
  unfoldable pub read_loop :
      (fuel : ℕ)
      → Fs e
      → (inode : Bytes) → (offset count bytes_read : ℕ) → (data_block_buffer buffer : Bytes)
      → Run Bytes
  read_loop zero s inode offset count bytes_read data_block_buffer buffer = stuck
  read_loop (suc fuel) s inode offset count bytes_read data_block_buffer buffer =
      let position = add64 offset bytes_read in
      let data_block_num = direct_block inode (block_idx position) in
      let block = read_block s data_block_num data_block_buffer in
      let n = bytes_to_copy position (count - bytes_read) in
      let copied = copy buffer bytes_read block.1 (block_offset position) n in
      let rest = read_loop fuel s inode offset count (bytes_read + n) block.1 copied in
      if leb count bytes_read
      then finished (some bytes_read) buffer
      else if leb 10 (block_idx position)
      then finished (some bytes_read) buffer
      else if data_block_num == 0
      then finished (some bytes_read) buffer
      else elim block.0 [ error ↦ finished none buffer | ok ↦ rest ]

  -- `fs_read` once it has an open inode, or none.
  abbrev pub read_opened :
      Option Inode → Fs e → (offset : ℕ) → (buffer : Bytes) → (count : ℕ) → Run Bytes × Fs e
  read_opened none s offset buffer count = (finished none buffer, s)
  read_opened (some inode) s offset buffer count =
      let count = clamp (get64 inode.bytes size_offset) offset count in
      let done = read_loop rounds s inode.bytes offset count 0 e.fresh buffer in
      (if count == 0 then finished (some 0) buffer else done, kfree s inode.address)

  -- The result of `fs_read` with the buffer, and the state.
  unfoldable pub fs_read :
      Fs e → (inode_id offset : ℕ) → (buffer : Bytes) → (count : ℕ) → Run Bytes × Fs e
  fs_read s inode_id offset buffer count =
      let opened = open_inode s inode_id inode_type_file in
      read_opened opened.0 opened.1 offset buffer count

module _ (e : Env) where
  -- What the loop of `fs_write` changes: the state, and the inode in memory.
  pub record Written : Type 0 where
    pub state : Fs e
    pub inode : Bytes

module _ {e : Env} where
  -- A position of a file without a block gets one: the number of the block, 0 if there is none left.
  abbrev pub ensure_block : Written e → (inode_id i : ℕ) → ℕ × Written e
  ensure_block w inode_id i =
      let got = allocate_block w.state in
      let inode' = put32 w.inode (direct_block_offset i) got.0 in
      if direct_block w.inode i == 0
      then (if got.0 == 0
          then (0, record { state = got.1; inode = w.inode })
          else (got.0, record { state = (write_inode got.1 inode_id inode').1; inode = inode' }))
      else (direct_block w.inode i, w)

  -- The loop of `fs_write`.
  unfoldable pub write_loop :
      (fuel : ℕ)
      → Written e
      → (inode_id offset count bytes_written : ℕ) → (data_block_buffer buffer : Bytes)
      → Run (Written e)
  write_loop zero w inode_id offset count bytes_written data_block_buffer buffer = stuck
  write_loop (suc fuel) w inode_id offset count bytes_written data_block_buffer buffer =
      let position = add64 offset bytes_written in
      let ensured = ensure_block w inode_id (block_idx position) in
      let w' = ensured.1 in
      let block = read_block w'.state ensured.0 data_block_buffer in
      let n = bytes_to_copy position (count - bytes_written) in
      let changed = copy block.1 (block_offset position) buffer bytes_written n in
      let stored = record w' { state = (write_block w'.state ensured.0 changed).1 } in
      let rest = write_loop fuel stored inode_id offset count (bytes_written + n) changed buffer in
      if leb count bytes_written
      then finished (some bytes_written) w
      else if leb 10 (block_idx position)
      then finished (some bytes_written) w
      else if ensured.0 == 0
      then finished (some bytes_written) w'
      else elim block.0 [ error ↦ finished none w' | ok ↦ rest ]

  -- The end of `fs_write`: the size of a file that has grown.
  abbrev pub grow : Written e → (inode_id offset bytes_written : ℕ) → Fs e
  grow w inode_id offset bytes_written =
      let end = add64 offset bytes_written in
      if ltb (get64 w.inode size_offset) end
      then (write_inode w.state inode_id (put64 w.inode size_offset end)).1
      else w.state

  -- A block that cannot be read ends `fs_write` without the new size.
  abbrev pub conclude : Run (Written e) → (inode_id offset address : ℕ) → Run (Fs e)
  conclude stuck inode_id offset address = stuck
  conclude (finished none w) inode_id offset address = finished none (kfree w.state address)
  conclude (finished (some n) w) inode_id offset address =
      finished (some n) (kfree (grow w inode_id offset n) address)

  -- `fs_write` once it has an open inode, or none.
  abbrev pub write_opened :
      Option Inode → Fs e → (inode_id offset : ℕ) → (buffer : Bytes) → (count : ℕ) → Run (Fs e)
  write_opened none s inode_id offset buffer count = finished none s
  write_opened (some inode) s inode_id offset buffer count =
      let w : Written e = record { state = s; inode = inode.bytes } in
      let done = write_loop rounds w inode_id offset count 0 e.fresh buffer in
      conclude done inode_id offset inode.address

  unfoldable pub fs_write :
      Fs e → (inode_id offset : ℕ) → (buffer : Bytes) → (count : ℕ) → Run (Fs e)
  fs_write s inode_id offset buffer count =
      let opened = open_inode s inode_id inode_type_file in
      write_opened opened.0 opened.1 inode_id offset buffer count
