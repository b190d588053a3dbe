-- ===== src/Fs/Placing.antt =====
-- `fs_create` of kern/fs/fs.c: the loop that looks for a place for the entry.
use astral_os.Common.{
  ℕ, zero, suc, ◌+◌, ◌^◌, ◌≤◌, ◌<◌, ◌≡◌, ◌≢◌, ◌⊎◌, inl, inr, refl, sym, ◌∙◌, subst, Bool,
  if◌then◌else◌, arith, true, false, Bool-cases, none, some, Option-cases, List, length, ltb, leb,
  ◌==◌, ==_ne, ==_iff, Bytes, fill, get64, add64, add32, put32, copy-outside, little_endian,
}
use astral_os.Strings.Terminated.{IsName}
use astral_os.Fs.Store.{
  Env, Fs, direct_block, direct_block_offset, read_block, size_offset, inode_block_num,
}
use astral_os.Fs.Bitmap.{first_clear, allocate_block}
use astral_os.Fs.Data.{Written}
use astral_os.Fs.Dir.{new_entry, update_dir, find_entry, find_unused, place_entry}
use astral_os.Fs.Content.{IsReliable, cell}
use astral_os.Fs.Open.{IsOpen}
use astral_os.Fs.Ensure.{inode', marked, allocate_block-taken, marked-cell, own, new, each}
use astral_os.Fs.Superblock.{get32-put32}
use astral_os.Fs.Entries.{
  find_entry-Agree, find_entry-zeros, find_unused-zeros, find_unused-lt, find_unused-Agree,
}
use astral_os.Fs.Lookup.{Absent}
use astral_os.Fs.Updated.{Leads, Leads-type, update_dir-Leads}

module _ {e : Env} (s : Fs e) (parent : Bytes) where
  -- The block `k` of a directory is there and has no place.
  abbrev pub Filled : ℕ → Type 0
  Filled k =
      (direct_block parent k ≢ 0) × (find_unused (cell s (direct_block parent k)) 0 113 ≡ none)

  -- The ten blocks of a directory have no place, or those up to one that is missing, and every block is in use.
  abbrev pub Full : Type 0
  Full =
      (i : ℕ) × (i ≤ 10)
      × ((k : ℕ) → k < i → Filled k)
      × ((i ≡ 10)
          ⊎ ((direct_block parent i ≡ 0)
              × (first_clear s.block_bitmap 0 s.current_superblock.total_blocks ≡ none)))

module _ {e : Env} (reliable : IsReliable e) (s : Fs e) (parent_id : ℕ) (parent : Bytes)
    (name : List ℕ) (inode_id : ℕ) (short : length name ≤ 28) (ok : IsName name)
    (small : inode_id < 2 ^ 32) (real : inode_id ≢ 0)
    (is_open : IsOpen {e = e} (record { state = s; inode = parent }) parent_id)
    (absent : (k : ℕ) → k < 10 → Absent reliable s parent name short k) where
  abbrev entry : Bytes
  entry = new_entry e.fresh inode_id name

  -- The directory can have no other entry and nothing is changed, or the name leads to the inode.
  abbrev pub Placed : Fs e → Type 0
  Placed s' = ((s' ≡ s) × Full s parent) ⊎ Leads s' parent_id parent name inode_id

  -- The block `i` is there, and has a place.
  in_block :
      (i u : ℕ) (buffer : Bytes) (size : ℕ)
      → i < 10
      → u < 113
      → direct_block parent i ≢ 0
      → Leads
          (update_dir s parent_id parent size i
            (read_block s (direct_block parent i) buffer).1
            entry
            u)
          parent_id
          parent
          name
          inode_id
  in_block i u buffer size lt fits there =
      update_dir-Leads reliable s parent_id parent (read_block s (direct_block parent i) buffer).1
        name inode_id i u size short ok small real is_open.valid lt fits there is_open.not_table
        (λ k h ne. is_open.distinct i k lt h (λ z. ne (sym z)) there)
        (λ k h. absent k (omega (arith, lt)))
        (elim (absent i lt) [
          | inl missing ↦ absurd (there missing)
          | inr free ↦
              find_entry-Agree (read_block s (direct_block parent i) buffer).1
                (cell s (direct_block parent i)) name 0 113 short (omega arith)
                (λ j l h. reliable.whole s.device (direct_block parent i) buffer e.fresh j h)
              ∙ free
        ])

  -- The block `i` is allocated, and is empty.
  in_new :
      (i k : ℕ) (block : Bytes) (size : ℕ) (lt : i < 10) (missing : direct_block parent i ≡ 0)
      (found : first_clear s.block_bitmap 0 s.current_superblock.total_blocks ≡ some k)
      → ((j : ℕ) → j < 4096 → block j ≡ 0)
      → Leads
          (update_dir
            (marked reliable _ parent_id i is_open lt k missing found)
            parent_id
            (inode' reliable _ parent_id i is_open lt k missing found)
            size
            i
            block
            entry
            0)
          parent_id
          parent
          name
          inode_id
  in_new i k block size lt missing found cleared =
      let w : Written e = record { state = s; inode = parent } in
      let s' = marked reliable w parent_id i is_open lt k missing found in
      let parent' = inode' reliable w parent_id i is_open lt k missing found in
      let own = own reliable w parent_id i is_open lt k missing found in
      let new = new reliable w parent_id i is_open lt k missing found in
      let out = λ (j : ℕ) (h : j < 40).
        copy-outside parent (direct_block_offset i) (little_endian (add32 k 1)) 0 4 j
          (inl (omega arith)) in
      let each = each reliable w parent_id i is_open lt k missing found in
      Leads-type _ parent_id parent' parent name inode_id
        (rw (out 4 (omega arith), out 5 (omega arith)) refl)
        (update_dir-Leads reliable s' parent_id parent' block name inode_id i 0 size short ok small
          real is_open.valid lt (omega arith) (λ z. absurd (omega (arith, own, z)))
          (each (λ j b. b ≢ inode_block_num s parent_id)
            (new (inode_block_num s parent_id) is_open.table is_open.table_used)
            (λ j ne h. is_open.not_table j h))
          (λ j h ne same.
            each (λ j b. j ≢ i → suc k ≢ b) (λ z. absurd (z refl))
              (λ j ne h _ same. elim (Bool-cases (direct_block parent j == 0)) [
                | inl none_there ↦ absurd (ground arith)
                | inr some_there ↦
                    let there : direct_block parent j ≢ 0 = λ z. absurd (ground arith) in
                    new (direct_block parent j) there (is_open.used j h there) same
              ])
              j h ne (sym own ∙ same))
          (λ j h.
            each (λ j b. j < i → (b ≡ 0) ⊎ (find_entry (cell s' b) name 0 113 ≡ none))
              (λ z. absurd (omega (arith, z)))
              (λ j ne h' _. elim (absent j h') [
                | inl nothing ↦ inl nothing
                | inr free ↦ inr (
                    find_entry-Agree (cell s' (direct_block parent j))
                      (cell s (direct_block parent j)) name 0 113 short (omega arith)
                      (λ x l h''.
                        marked-cell reliable w parent_id i is_open lt k missing found
                          (direct_block parent j) x (λ z. is_open.not_bitmap j h' (sym z)))
                    ∙ free)
              ])
              j (omega (arith, lt)) h)
          (find_entry-zeros block name 0 113 (omega arith) cleared))

  -- A round of the loop, by whether the block is missing, and by what the allocator returns.
  abbrev round : (i : ℕ) → Bytes → Bool → ℕ × Fs e → (Fs e → Bytes → Bytes → Fs e) → Fs e
  round i buffer missing got next =
      let s' = if missing then got.1 else s in
      let parent' = if missing then put32 parent (direct_block_offset i) got.0 else parent in
      let block =
        if missing then fill buffer 0 0 4096 else (read_block s (direct_block parent i) buffer).1 in
      if direct_block parent' i == 0 then s' else elim (find_unused block 0 113) [
        | none ↦ next s' parent' block
        | some j ↦
            update_dir s' parent_id parent' (add64 (get64 parent' size_offset) 36) i block entry j
      ]

  round-there :
      (i : ℕ) (buffer : Bytes) (got : ℕ × Fs e) (next : Fs e → Bytes → Bytes → Fs e)
      → i < 10
      → (direct_block parent i == 0) ≡ false
      → (Filled s parent i → Placed (next s parent (read_block s (direct_block parent i) buffer).1))
      → Placed (round i buffer false got next)
  round-there i buffer got next lt there rest =
      let block = (read_block s (direct_block parent i) buffer).1 in
      elim (Option-cases (find_unused block 0 113)) [
        | inl used ↦
            rw (there, used)
              (rest (
                (λ z. absurd (ground arith)),
                find_unused-Agree (cell s (direct_block parent i)) block 0 113 (omega arith)
                      (λ j l h. reliable.whole s.device (direct_block parent i) e.fresh buffer j h)
                    ∙ used,
              ))
        | inr (u, found) ↦
            rw (there, found)
              (inr (
                in_block i u buffer (add64 (get64 parent size_offset) 36) lt
                  (find_unused-lt block 0 113 u found) (λ z. absurd (ground arith))))
      ]

  round-missing :
      (i : ℕ) (buffer : Bytes) (next : Fs e → Bytes → Bytes → Fs e)
      → i < 10
      → direct_block parent i ≡ 0
      → ((k : ℕ) → k < i → Filled s parent k)
      → Placed (round i buffer true (allocate_block s) next)
  unfolding allocate_block
  round-missing i buffer next lt missing filled =
      let cleared = fill buffer 0 0 4096 in
      let turn = λ (got : ℕ × Fs e). Placed (round i buffer true got next) in
      let zero_there : (j : ℕ) → j < 4096 → cleared j ≡ 0 = λ j h.
        (let low : leb 0 j ≡ true = ground arith in
          let high : ltb j 4096 ≡ true = ground arith in rw (low, high) refl) in
      elim (Option-cases (first_clear s.block_bitmap 0 s.current_superblock.total_blocks)) [
        | inl full ↦
            let none_left : allocate_block s ≡ (0, s) = rw (full, allocate_block) refl in
            let still : (direct_block (put32 parent (direct_block_offset i) 0) i == 0) ≡ true =
              (==_iff _ 0).1 (get32-put32 parent (direct_block_offset i) 0 (omega arith)) in
            subst turn (sym none_left)
              (rw still (inl (refl, (i, omega arith, filled, inr (missing, full)))))
        | inr (k, found) ↦
            let w : Written e = record { state = s; inode = parent } in
            let taken = allocate_block-taken reliable w parent_id i is_open lt k missing found in
            let own = own reliable w parent_id i is_open lt k missing found in
            let there : (direct_block (inode' reliable w parent_id i is_open lt k missing found) i
                  == 0)
                ≡ false =
              ==_ne _ 0 (λ z. absurd (omega (arith, own, z))) in
            let size =
              add64 (get64 (inode' reliable w parent_id i is_open lt k missing found) size_offset)
                36 in
            subst turn (sym taken) (
              rw (there, find_unused-zeros cleared zero_there)
                (inr (in_new i k cleared size lt missing found zero_there)))
      ]

  pub place_entry-Placed :
      (n i : ℕ) (buffer : Bytes)
      → i + n ≡ 10
      → ((k : ℕ) → k < i → Filled s parent k)
      → Placed (place_entry s parent_id parent entry buffer i n)
  unfolding place_entry
  place_entry-Placed zero i buffer fits filled =
      inl (refl, (i, omega arith, filled, inl (omega arith)))
  place_entry-Placed (suc n) i buffer fits filled =
      let next = λ (s' : Fs e) (p b : Bytes). place_entry s' parent_id p entry b (i + 1) n in
      let turn = λ (m : Bool). Placed (round i buffer m (allocate_block s) next) in
      elim (Bool-cases (direct_block parent i == 0)) [
        | inr there ↦ subst turn (sym there) (
            round-there i buffer (allocate_block s) next (omega arith) there (λ here.
              place_entry-Placed n (i + 1) (read_block s (direct_block parent i) buffer).1
                (omega arith)
                (λ k h. elim (Bool-cases (i == k)) [
                  | inl same ↦ subst (Filled s parent) ((==_iff i k).0 same) here
                  | inr other ↦ filled k (ground arith)
                ])))
        | inl missing ↦ subst turn (sym missing) (
            round-missing i buffer next (omega arith) ((==_iff (direct_block parent i) 0).0 missing)
              filled)
      ]
