-- ===== src/Fs/Deleted.antt =====
-- kern/fs/fs.c: `fs_lookup` after `fs_delete`.
use Prim.Native.Nat.{bit_and}
use astral_os.Fs.Allocation.{IsInUse, allocate, HasRoom}
use astral_os.Memory.Kmalloc.{Heap}
use astral_os.Common.{
  ℕ, zero, suc, ◌+◌, ◌-◌, ◌≤◌, ◌<◌, ◌≡◌, ◌≢◌, inl, inr, refl, sym, ap, subst, ◌∙◌, arith, true,
  false, Bool-cases, Option-cases, Option, none, some, Status, ok, error, List, length, ltb, ◌||◌,
  ◌==◌, ==_iff, Bytes, get64, sub64, add32,
}
use astral_os.Fs.Store.{
  Env, Fs, Inode, direct_block, read_block, write_block, kfree, get_inode, open_inode, is_no_inode,
  inode_block_num, inode_start, inode_size, inode_type_dir, size_offset,
}
use astral_os.Fs.Bitmap.{clear_bit, free_block, free_inode}
use astral_os.Fs.Dir.{
  find_entry, remove_entry, free_blocks, free_target, lookup_blocks, fs_lookup, fs_delete,
}
use astral_os.Fs.Content.{IsReliable, cell, cell-other}
use astral_os.Fs.Grown.{Same, Same-direct_block, Same-type}
use astral_os.Fs.Open.{loaded, loaded-cell, open_inode-loaded, get_inode-loaded}
use astral_os.Fs.Entries.{find_entry-Agree}
use astral_os.Fs.Lookup.{Absent, lookup_blocks-none}
use astral_os.Fs.Directory.{IsDir, IsDir-heap, lookup_blocks-heap, fs_lookup-loaded}
use astral_os.Fs.Removed.{Once, Gone, update_dir-Gone}

module _ {e : Env} (reliable : IsReliable e) (parent_id : ℕ) (name : List ℕ)
    (short : length name ≤ 28) where
  Gone-heap :
      (s : Fs e) (h : Heap)
      → Gone reliable s parent_id name short
      → Gone reliable (record s { heap = h }) parent_id name short
  Gone-heap s h g = record {
    valid = g.valid;
    type = g.type;
    absent = g.absent;
    apart = g.apart;
    blocks_apart = g.blocks_apart;
  }

  -- A block that is neither the inode's nor one of the directory is written.
  Gone-written :
      (s : Fs e) (d : e.Device) (block : ℕ)
      → ((other i : ℕ)
          → block ≢ other
          → cell {e = e} (record s { device = d }) other i ≡ cell s other i)
      → block ≢ inode_block_num s parent_id
      → ((k : ℕ) → k < 10 → direct_block (loaded s parent_id) k ≢ block)
      → Gone reliable s parent_id name short
      → Gone reliable (record s { device = d }) parent_id name short
  Gone-written s d block kept not_table not_block g =
      let s' : Fs e = record s { device = d } in
      let same : Same (loaded s' parent_id) (loaded s parent_id) = λ i lt.
        loaded-cell s' parent_id i lt
        ∙ kept (inode_block_num s parent_id) (inode_start parent_id + i) not_table
        ∙ sym (loaded-cell s parent_id i lt) in
      let same_block = λ (k : ℕ) (h : k < 10).
        Same-direct_block (loaded s' parent_id) (loaded s parent_id) k same h in
      record {
        valid = g.valid;
        type =
            ap (λ x. bit_and x inode_type_dir == 0)
              (Same-type (loaded s' parent_id) (loaded s parent_id) same)
            ∙ g.type;
        absent = λ k h. elim (g.absent k h) [
          | inl missing ↦ inl (same_block k h ∙ missing)
          | inr free ↦ inr (
              ap (λ b. find_entry (cell s' b) name 0 113) (same_block k h)
              ∙ find_entry-Agree (cell s' (direct_block (loaded s parent_id) k))
                  (cell s (direct_block (loaded s parent_id) k)) name 0 113 short (omega arith)
                  (λ i l h'.
                    kept (direct_block (loaded s parent_id) k) i (λ z. not_block k h (sym z)))
              ∙ free)
        ];
        apart = g.apart;
        blocks_apart = λ k h. (
          (λ z. (g.blocks_apart k h).0 (sym (same_block k h) ∙ z)),
          (λ z. (g.blocks_apart k h).1 (sym (same_block k h) ∙ z)),
        );
      }

  -- The bitmaps are written when a block or an inode is freed.
  Gone-free_block :
      (s : Fs e) (b : ℕ)
      → Gone reliable s parent_id name short
      → Gone reliable (free_block s b) parent_id name short
  unfolding free_block
  Gone-free_block s b g = elim (Bool-cases ((b == 0) || ltb s.current_superblock.total_blocks b)) [
    | inl no_block ↦ rw no_block g
    | inr some_block ↦
        let bitmap = clear_bit s.block_bitmap (b - 1) in
        let s' : Fs e = record s {
          block_bitmap = bitmap;
          current_superblock = record s.current_superblock {
            free_blocks = add32 s.current_superblock.free_blocks 1;
          };
        } in
        let g' : Gone reliable s' parent_id name short = record {
          valid = g.valid;
          type = g.type;
          absent = g.absent;
          apart = g.apart;
          blocks_apart = g.blocks_apart;
        } in
        let block = s.current_superblock.block_bitmap_block in
        rw some_block (
          Gone-written s' (write_block s' block bitmap).1.device block
            (λ other i ne. cell-other reliable s' block bitmap other ne i) g.apart.0
            (λ k h. (g.blocks_apart k h).0) g')
  ]

  Gone-free_inode :
      (s : Fs e) (id : ℕ)
      → Gone reliable s parent_id name short
      → Gone reliable (free_inode s id) parent_id name short
  unfolding free_inode
  Gone-free_inode s id g = elim (Bool-cases (is_no_inode s id)) [
    | inl no_inode ↦ rw no_inode g
    | inr some_inode ↦
        let bitmap = clear_bit s.inode_bitmap (id - 1) in
        let s' : Fs e = record s {
          inode_bitmap = bitmap;
          current_superblock = record s.current_superblock {
            free_inodes = add32 s.current_superblock.free_inodes 1;
          };
        } in
        let g' : Gone reliable s' parent_id name short = record {
          valid = g.valid;
          type = g.type;
          absent = g.absent;
          apart = g.apart;
          blocks_apart = g.blocks_apart;
        } in
        let block = s.current_superblock.inode_bitmap_block in
        rw some_inode (
          Gone-written s' (write_block s' block bitmap).1.device block
            (λ other i ne. cell-other reliable s' block bitmap other ne i) g.apart.1
            (λ k h. (g.blocks_apart k h).1) g')
  ]

  Gone-free_blocks :
      (s : Fs e) (inode : Bytes) (i n : ℕ)
      → Gone reliable s parent_id name short
      → Gone reliable (free_blocks s inode i n) parent_id name short
  unfolding free_blocks
  Gone-free_blocks s inode i zero g = g
  Gone-free_blocks s inode i (suc n) g = elim (Bool-cases (direct_block inode i == 0)) [
    | inl missing ↦ rw missing (Gone-free_blocks s inode (i + 1) n g)
    | inr there ↦ rw there (
        Gone-free_blocks (free_block s (direct_block inode i)) inode (i + 1) n
          (Gone-free_block s (direct_block inode i) g))
  ]

  get_inode-none : (s : Fs e) (id : ℕ) → is_no_inode s id ≡ true → get_inode s id ≡ (none, s)
  unfolding get_inode
  get_inode-none s id no_inode = rw no_inode refl

  get_inode-full :
      (s : Fs e) (id : ℕ)
      → is_no_inode s id ≡ false
      → ((allocate s.heap inode_size).0 == 0) ≡ true
      → get_inode s id ≡ (none, record s { heap = (allocate s.heap inode_size).1 })
  unfolding get_inode
  get_inode-full s id valid full =
      let delivered = reliable.reads s.device (inode_block_num s id) e.fresh in
      rw (valid, delivered, full) refl

  -- The inode that the entry named is freed, if it is one.
  Gone-free_target :
      (s : Fs e) (id : ℕ)
      → Gone reliable s parent_id name short
      → Gone reliable (free_target s id).1 parent_id name short
  Gone-free_target s id g = elim (Bool-cases (id == 0)) [
    | inl nothing ↦ rw nothing g
    | inr something ↦
        let end = λ (got : Option Inode × Fs e).
          (elim got.0 as (λ _. Status × Fs e) [
            | none ↦ (error, got.1)
            | some target ↦
                (ok, kfree (free_inode (free_blocks got.1 target.bytes 0 10) id) target.address)
          ]).1 in
        elim (Bool-cases (is_no_inode s id)) [
          | inl no_inode ↦ rw something (
              subst (λ got. Gone reliable (end got) parent_id name short)
                (sym (get_inode-none s id no_inode)) g)
          | inr some_inode ↦
              let s' : Fs e = record s { heap = (allocate s.heap inode_size).1 } in
              let there = Gone-heap s (allocate s.heap inode_size).1 g in
              let freed =
                Gone-free_inode (free_blocks s' (loaded s id) 0 10) id
                  (Gone-free_blocks s' (loaded s id) 0 10 there) in
              elim (Bool-cases ((allocate s.heap inode_size).0 == 0)) [
                | inl full ↦ rw something (
                    subst (λ got. Gone reliable (end got) parent_id name short)
                      (sym (get_inode-full s id some_inode full)) there)
                | inr served ↦ rw something (
                    subst (λ got. Gone reliable (end got) parent_id name short)
                      (sym (get_inode-loaded reliable s id some_inode (λ z. absurd (ground arith))))
                      (Gone-heap _ _ freed))
              ]
        ]
  ]

  -- Without memory for the inode of the directory, nothing is found.
  fs_lookup-full :
      (s : Fs e)
      → is_no_inode s parent_id ≡ false
      → ((allocate s.heap inode_size).0 == 0) ≡ true
      → (fs_lookup s parent_id name).0 ≡ 0
  unfolding fs_lookup open_inode
  fs_lookup-full s valid full =
      let room : ltb 28 (length name) ≡ false = ground arith in
      rw (room, get_inode-full s parent_id valid full) refl

  -- A name that is in no block is not found.
  Gone-fs_lookup :
      (s : Fs e) → Gone reliable s parent_id name short → (fs_lookup s parent_id name).0 ≡ 0
  Gone-fs_lookup s g = elim (Bool-cases ((allocate s.heap inode_size).0 == 0)) [
    | inl full ↦ fs_lookup-full s g.valid full
    | inr served ↦
        ap (λ r. r.0)
          (fs_lookup-loaded reliable s parent_id name short (λ z. absurd (ground arith)) g.valid
            g.type)
        ∙ lookup_blocks-none reliable s (loaded s parent_id) name short 10 0 e.fresh
            (λ k low high. g.absent k (omega arith))
  ]

module _ {e : Env} (reliable : IsReliable e) (s : Fs e) (parent_id : ℕ) (name : List ℕ)
    (short : length name ≤ 28) (is_dir : IsDir s parent_id)
    (once : Once s (loaded s parent_id) name) where
  abbrev parent : Bytes
  parent = loaded s parent_id

  -- The loop of `fs_delete` clears the entry that a search would find, and the name is gone.
  remove_entry-Gone :
      (n i : ℕ) (buffer : Bytes)
      → i + n ≡ 10
      → ((k : ℕ) → k < i → Absent reliable s parent name short k)
      → Gone reliable (remove_entry s parent_id parent name buffer i n).1 parent_id name short
  unfolding remove_entry
  remove_entry-Gone zero i buffer fits before = record {
    valid = is_dir.is_open.valid;
    type = is_dir.type;
    absent = λ k h. before k (omega arith);
    apart = (is_dir.is_open.apart, is_dir.bitmap_apart);
    blocks_apart = λ k h. (is_dir.is_open.not_bitmap k h, is_dir.no_bitmap k h);
  }
  remove_entry-Gone (suc n) i buffer fits before =
      let number = direct_block parent i in
      let block = (read_block s number buffer).1 in
      let next : (b : Bytes)
          → Absent reliable s parent name short i
          → Gone reliable (remove_entry s parent_id parent name b (i + 1) n).1 parent_id name
              short =
        λ b here. remove_entry-Gone n (i + 1) b (omega arith) (λ k h. elim (Bool-cases (i == k)) [
          | inl same ↦ subst (Absent reliable s parent name short) ((==_iff i k).0 same) here
          | inr other ↦ before k (ground arith)
        ]) in
      let same : find_entry block name 0 113 ≡ find_entry (cell s number) name 0 113 =
        find_entry-Agree block (cell s number) name 0 113 short (omega arith)
          (λ j l h. reliable.whole s.device number buffer e.fresh j h) in
      elim (Bool-cases (number == 0)) [
        | inl missing ↦ rw missing (next buffer (inl ((==_iff number 0).0 missing)))
        | inr there ↦ elim (Option-cases (find_entry block name 0 113)) [
          | inl absent ↦ rw (there, absent) (next block (inr (sym same ∙ absent)))
          | inr (u, found) ↦
              rw (there, found)
                (update_dir-Gone reliable s parent_id parent name short is_dir.is_open is_dir.type
                  is_dir.bitmap_apart is_dir.no_bitmap once i u buffer
                  (sub64 (get64 parent size_offset) 36) (omega arith) (λ z. absurd (ground arith))
                  (sym same ∙ found))
        ]
      ]

  remove_entry-lookup :
      (n i : ℕ) (buffer : Bytes)
      → (remove_entry s parent_id parent name buffer i n).0 ≡ lookup_blocks s parent name buffer i n
  unfolding remove_entry lookup_blocks
  remove_entry-lookup zero i buffer = refl
  remove_entry-lookup (suc n) i buffer =
      let block = (read_block s (direct_block parent i) buffer).1 in
      elim (Bool-cases (direct_block parent i == 0)) [
        | inl missing ↦ rw missing (remove_entry-lookup n (i + 1) buffer)
        | inr there ↦ elim (Option-cases (find_entry block name 0 113)) [
          | inl absent ↦ rw (there, absent) (remove_entry-lookup n (i + 1) block)
          | inr (u, found) ↦ rw (there, found) refl
        ]
      ]

-- On a device without failures, where the heap is in a state that calls lead to and has memory for an inode at the call of `fs_delete`, and for a directory that
-- is in order and has at most one entry of a name of at most 28 characters, `fs_lookup` does not find the name after `fs_delete`, and `fs_delete` returns -1 when `fs_lookup` did
-- not find it before.
pub fs_lookup-fs_delete :
    {e : Env} (reliable : IsReliable e) (s : Fs e) (parent_id : ℕ) (name : List ℕ)
    → IsInUse s.heap
    → HasRoom s.heap
    → IsDir s parent_id
    → length name ≤ 28
    → Once s (loaded s parent_id) name
    → ((fs_lookup (fs_delete s parent_id name).1 parent_id name).0 ≡ 0)
      × ((fs_lookup s parent_id name).0 ≡ 0 → (fs_delete s parent_id name).0 ≡ error)
unfolding fs_delete
fs_lookup-fs_delete {e} reliable s parent_id name in_use served is_dir short once =
    let room : ltb 28 (length name) ≡ false = ground arith in
    let opened =
      open_inode-loaded reliable s parent_id is_dir.is_open.valid inode_type_dir served
        is_dir.type in
    let s' : Fs e = record s { heap = (allocate s.heap inode_size).1 } in
    let is_dir' = IsDir-heap s parent_id (allocate s.heap inode_size).1 is_dir in
    let removed = remove_entry s' parent_id (loaded s parent_id) name e.fresh 0 10 in
    let address = (allocate s.heap inode_size).0 in
    let ended : fs_delete s parent_id name ≡ free_target (kfree removed.1 address) removed.0 =
      rw room (
        ap
          (λ (o : Option Inode × Fs e). elim o.0 as (λ _. Status × Fs e) [
            | none ↦ (error, o.1)
            | some parent ↦
                (let removed = remove_entry o.1 parent_id parent.bytes name e.fresh 0 10 in
                  free_target (kfree removed.1 parent.address) removed.0)
          ])
          opened) in
    let gone =
      remove_entry-Gone reliable s' parent_id name short is_dir' once 10 0 e.fresh refl
        (λ k h. absurd (omega arith)) in
    let found : (fs_lookup s parent_id name).0 ≡ removed.0 =
      ap (λ r. r.0)
        (fs_lookup-loaded reliable s parent_id name short served is_dir.is_open.valid is_dir.type)
      ∙ sym (lookup_blocks-heap s s'.heap (loaded s parent_id) name e.fresh 0 10)
      ∙ sym (remove_entry-lookup reliable s' parent_id name short is_dir' once 10 0 e.fresh) in
    (
      ap (λ r. (fs_lookup r.1 parent_id name).0) ended
          ∙ Gone-fs_lookup reliable parent_id name short
              (free_target (kfree removed.1 address) removed.0).1
              (Gone-free_target reliable parent_id name short (kfree removed.1 address) removed.0
                (Gone-heap reliable parent_id name short removed.1 _ gone)),
      λ nothing.
          (let zero_there : (removed.0 == 0) ≡ true =
              (==_iff removed.0 0).1 (sym found ∙ nothing) in
            ap (λ r. r.0) ended ∙ rw zero_there refl),
    )
