-- ===== src/Fs/Named.antt =====
-- kern/fs/fs.c: what `fs_create` makes in an open directory.
use Prim.Native.Nat.{bit_and}
use astral_os.Fs.Allocation.{release, HasRoom}
use astral_os.Common.{
  ℕ, suc, ◌+◌, ◌-◌, ◌≤◌, ◌<◌, ◌≡◌, ◌≢◌, ◌⊎◌, inl, inr, refl, sym, ap, subst, ◌∙◌, arith, false,
  Bool-cases, none, some, Option-cases, if◌then◌else◌, List, length, ◌==◌, ==_ne, ==_iff, add32,
  Bytes, copy, copy-outside,
}
use astral_os.Strings.Terminated.{IsName}
use astral_os.Fs.Store.{
  Env, Fs, direct_block, kfree, is_no_inode, inode_block_num, inode_start, inode_type_dir,
  write_inode,
}
use astral_os.Fs.Bitmap.{test_bit, set_bit, first_clear, take_inode, allocate_inode}
use astral_os.Fs.Alloc.{first_found}
use astral_os.Fs.Dir.{new_entry, new_inode, lookup_blocks, fs_lookup, place_entry, create_in}
use astral_os.Fs.Content.{IsReliable, cell, cell-other, cell-own}
use astral_os.Fs.Frames.{apart}
use astral_os.Fs.Open.{IsOpen, loaded, rewritten, rewritten-other, write_inode-rewritten}
use astral_os.Fs.Entries.{find_entry-Agree, find_unused-Agree}
use astral_os.Fs.Lookup.{Absent, lookup_blocks-Absent}
use astral_os.Fs.Updated.{Leads}
use astral_os.Fs.Placing.{Full, place_entry-Placed}
use astral_os.Fs.Directory.{IsDir, lookup_blocks-heap, fs_lookup-loaded}

module _ {e : Env} (reliable : IsReliable e) (s : Fs e) (parent_id : ℕ) (name : List ℕ) (type : ℕ)
    (is_dir : IsDir s parent_id) (short : length name ≤ 28) (ok : IsName name)
    (absent : lookup_blocks s (loaded s parent_id) name e.fresh 0 10 ≡ 0) where
  -- `create_in` by the inode that is allocated, and the state once it is written.
  abbrev create : (address : ℕ) → ℕ × Fs e → Fs e → ℕ × Fs e
  create address new w = if new.0 == 0 then (0, kfree new.1 address) else (
    new.0,
    kfree (place_entry w parent_id (loaded s parent_id) (new_entry e.fresh new.0 name) e.fresh 0 10)
        address,
  )

  allocated :
      (i : ℕ)
      → first_clear s.inode_bitmap 0 s.current_superblock.total_inodes ≡ some i
      → allocate_inode s ≡ take_inode s i
  unfolding allocate_inode
  allocated i found = rw (found, allocate_inode) refl

  module _ (i : ℕ)
      (found : first_clear s.inode_bitmap 0 s.current_superblock.total_inodes ≡ some i) where
    lt_total : i < s.current_superblock.total_inodes
    lt_total = (first_found s.inode_bitmap s.current_superblock.total_inodes (some i) found).1

    clear : test_bit s.inode_bitmap i ≡ false
    clear = (first_found s.inode_bitmap s.current_superblock.total_inodes (some i) found).2

    abbrev parent : Bytes
    parent = loaded s parent_id

    abbrev marked : Fs e
    marked = (take_inode s i).1

    abbrev written : Fs e
    written = rewritten marked (suc i) (new_inode (suc i) type)

    valid : is_no_inode marked (suc i) ≡ false
    valid = ground (arith, lt_total)

    -- The inode is not that of the directory.
    new : suc i ≢ parent_id
    new same =
        absurd
          (ground (arith, ap (λ x. test_bit s.inode_bitmap (x - 1)) same, clear, is_dir.in_use))

    marked-cell :
        (block j : ℕ)
        → s.current_superblock.inode_bitmap_block ≢ block
        → cell marked block j ≡ cell s block j
    marked-cell block j ne =
        cell-other reliable (record s { inode_bitmap = set_bit s.inode_bitmap i })
          s.current_superblock.inode_bitmap_block (set_bit s.inode_bitmap i) block ne j

    -- The blocks of the directory are as before, and so is its inode.
    written-cell :
        (k : ℕ)
        → k < 10
        → (j : ℕ) → cell written (direct_block parent k) j ≡ cell s (direct_block parent k) j
    written-cell k h j =
        rewritten-other reliable marked (suc i) valid (new_inode (suc i) type)
          (direct_block parent k) j
          (λ z. is_dir.no_table (suc i) k (omega arith) (omega (arith, lt_total)) h (sym z))
        ∙ marked-cell (direct_block parent k) j (λ z. is_dir.no_bitmap k h (sym z))

    written-inode :
        (j : ℕ)
        → j < 88
        → cell written (inode_block_num s parent_id) (inode_start parent_id + j)
          ≡ cell s (inode_block_num s parent_id) (inode_start parent_id + j)
    written-inode j h =
        let num = inode_block_num s parent_id in
        let new_num = inode_block_num marked (suc i) in
        let at = inode_start parent_id + j in
        let inode = new_inode (suc i) type in
        elim (Bool-cases (new_num == num)) [
          | inr other ↦
              rewritten-other reliable marked (suc i) valid inode num at
                (λ z. absurd (ground arith))
              ∙ marked-cell num at is_dir.bitmap_apart
          | inl same ↦
              let e : new_num ≡ num = (==_iff new_num num).0 same in
              let outside =
                apart s.current_superblock.inode_table_start_block (suc i) parent_id j
                  (omega (arith, lt_total, is_dir.total))
                  (ground (arith, is_dir.is_open.valid, is_dir.total)) new (omega arith)
                  (ground (arith, is_dir.is_open.valid)) e h in
              ap (λ b. cell written b at) (sym e)
              ∙ cell-own reliable marked new_num
                  (copy (cell marked new_num) (inode_start (suc i)) inode 0 88) at (omega arith)
              ∙ copy-outside (cell marked new_num) (inode_start (suc i)) inode 0 88 at outside
              ∙ ap (λ b. cell marked b at) e
              ∙ marked-cell num at is_dir.bitmap_apart
        ]

    still-IsOpen : IsOpen {e = e} (record { state = written; inode = parent }) parent_id
    still-IsOpen = record {
      valid = is_dir.is_open.valid;
      total = is_dir.is_open.total;
      table = is_dir.is_open.table;
      table_used = is_dir.is_open.table_used;
      bitmap = is_dir.is_open.bitmap;
      bitmap_used = is_dir.is_open.bitmap_used;
      apart = is_dir.is_open.apart;
      used = is_dir.is_open.used;
      not_table = is_dir.is_open.not_table;
      not_bitmap = is_dir.is_open.not_bitmap;
      distinct = is_dir.is_open.distinct;
      stored = λ j h. written-inode j h ∙ is_dir.is_open.stored j h;
    }

    still-Absent : (k : ℕ) → k < 10 → Absent reliable written parent name short k
    still-Absent k h =
        elim (lookup_blocks-Absent reliable s parent name short 10 0 e.fresh absent k (omega arith)
          (omega arith)) [
            | inl missing ↦ inl missing
            | inr free ↦ inr (
                find_entry-Agree (cell written (direct_block parent k))
                  (cell s (direct_block parent k)) name 0 113 short (omega arith)
                  (λ j l h'. written-cell k h j)
                ∙ free)
          ]

    still-Full : Full written parent → Full s parent
    still-Full (n, few, filled, end) = (
      n,
      few,
      (λ k h.
          let lt : k < 10 = omega arith in
          (
            (filled k h).0,
            find_unused-Agree (cell s (direct_block parent k))
                  (cell written (direct_block parent k)) 0 113 (omega arith)
                  (λ j l h'. sym (written-cell k lt j))
                ∙ (filled k h).1,
          )),
      end,
    )

    abbrev placed : Fs e
    placed = place_entry written parent_id parent (new_entry e.fresh (suc i) name) e.fresh 0 10

    placed-Placed : (Full s parent) ⊎ Leads placed parent_id parent name (suc i)
    placed-Placed =
        elim (place_entry-Placed reliable written parent_id parent name (suc i) short ok
          (omega (arith, lt_total, is_dir.total)) (λ z. absurd (omega arith)) still-IsOpen
          still-Absent 10 0 e.fresh refl (λ k h. absurd (omega arith))) [
            | inl (same, full) ↦ inl (still-Full full)
            | inr leads ↦ inr leads
          ]

    -- The name leads to the inode in the state that `fs_create` leaves.
    Leads-fs_lookup :
        (address : ℕ)
        → HasRoom (kfree placed address).heap
        → Leads placed parent_id parent name (suc i)
        → (fs_lookup (kfree placed address) parent_id name).0 ≡ suc i
    Leads-fs_lookup address served leads =
        ap (λ r. r.0)
          (fs_lookup-loaded reliable (kfree placed address) parent_id name short served leads.valid
            (ap (λ t. bit_and t inode_type_dir == 0) leads.type ∙ is_dir.type))
        ∙ lookup_blocks-heap placed (release placed.heap address) (loaded placed parent_id) name
            e.fresh 0 10
        ∙ leads.leads

    create_in-taken :
        (address : ℕ)
        → create_in s parent_id (record { address = address; bytes = parent }) name type
          ≡ (suc i, kfree placed address)
    create_in-taken address =
        let number : add32 i 1 ≡ suc i = omega (arith, lt_total, is_dir.total) in
        let some_inode : (suc i == 0) ≡ false = ==_ne (suc i) 0 (λ z. absurd (omega arith)) in
        ap
          (λ (new : ℕ × Fs e).
            create address new (write_inode new.1 new.0 (new_inode new.0 type)).1)
          (allocated i found ∙ ap (λ (n : ℕ). (n, marked)) number)
        ∙ ap (create address (suc i, marked))
            (write_inode-rewritten reliable marked (suc i) valid (new_inode (suc i) type))
        ∙ rw some_inode refl

  -- What `create_in` does with a name that is not there.
  pub create_in-Named :
      (address : ℕ) (r : ℕ × Fs e)
      → create_in s parent_id (record { address = address; bytes = loaded s parent_id }) name type
        ≡ r
      → HasRoom r.1.heap
      → ((r.0 ≡ 0) × (first_clear s.inode_bitmap 0 s.current_superblock.total_inodes ≡ none))
        ⊎ ((r.0 ≢ 0) × (((fs_lookup r.1 parent_id name).0 ≡ r.0) ⊎ Full s (loaded s parent_id)))
  unfolding allocate_inode
  create_in-Named address r ran served =
      elim (Option-cases (first_clear s.inode_bitmap 0 s.current_superblock.total_inodes)) [
        | inl none_left ↦
            let refused : allocate_inode s ≡ (0, s) = rw (none_left, allocate_inode) refl in
            let ended =
              ap
                (λ (new : ℕ × Fs e).
                  (create address new (write_inode new.1 new.0 (new_inode new.0 type)).1).0)
                refused in
            inl (ap (λ r. r.0) (sym ran) ∙ ended, none_left)
        | inr (i, found) ↦
            let eq = sym (create_in-taken i found address) ∙ ran in
            inr (
              (λ z. absurd (omega (arith, ap (λ r. r.0) eq, z))),
              elim (placed-Placed i found) [
                | inl full ↦ inr full
                | inr leads ↦ inl (
                    subst (λ r. (fs_lookup r.1 parent_id name).0 ≡ r.0) eq
                      (Leads-fs_lookup i found address
                        (subst (λ r. HasRoom r.1.heap) (sym eq) served) leads))
              ],
            )
      ]
