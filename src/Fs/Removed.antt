-- ===== src/Fs/Removed.antt =====
-- `fs_delete` of kern/fs/fs.c: the entry is removed, and the name is in no block of the directory afterwards.
use Prim.Native.Nat.{bit_and}
use astral_os.Common.{
  ℕ, ◌≤◌, ◌<◌, ◌≡◌, ◌≢◌, inl, inr, sym, ap, subst, ◌∙◌, arith, true, false, Bool-cases, some, List,
  length, ◌==◌, ==_iff, Bytes, zeros, get16,
}
use astral_os.Fs.Store.{
  Env, Fs, direct_block, read_block, is_no_inode, inode_block_num, inode_type_dir, type_offset,
}
use astral_os.Fs.Dir.{is_entry, find_entry, update_dir}
use astral_os.Fs.Content.{IsReliable, cell}
use astral_os.Fs.Open.{IsOpen, loaded}
use astral_os.Fs.Entries.{find_entry-Agree, is_entry-Agree, find_entry-lt}
use astral_os.Fs.Cleared.{find_entry-is_entry, find_entry-none, cleared, find_entry-cleared}
use astral_os.Fs.Lookup.{Absent}
use astral_os.Fs.Changed
use astral_os.Fs.Changed.{written, last-direct_block, last-bytes, last-type, last-Absent}

-- No two entries of the directory have the name.
abbrev pub Once : {e : Env} → Fs e → (parent : Bytes) → List ℕ → Type 0
Once s parent name =
    (k k' j j' : ℕ)
    → k < 10
    → k' < 10
    → j < 113
    → j' < 113
    → direct_block parent k ≢ 0
    → direct_block parent k' ≢ 0
    → is_entry (cell s (direct_block parent k)) name j ≡ true
    → is_entry (cell s (direct_block parent k')) name j' ≡ true
    → (k ≡ k') × (j ≡ j')

-- The directory is in the table, is a directory, and has no entry of the name; its inode and its blocks are apart from the
-- bitmaps.
pub record Gone {e : Env} (reliable : IsReliable e) (s : Fs e) (parent_id : ℕ) (name : List ℕ)
    (short : length name ≤ 28) : Type 0 where
  pub valid : is_no_inode s parent_id ≡ false
  pub type : (bit_and (get16 (loaded s parent_id) type_offset) inode_type_dir == 0) ≡ false
  pub absent : (k : ℕ) → k < 10 → Absent reliable s (loaded s parent_id) name short k
  pub apart :
      (s.current_superblock.block_bitmap_block ≢ inode_block_num s parent_id)
      × (s.current_superblock.inode_bitmap_block ≢ inode_block_num s parent_id)
  pub blocks_apart :
      (k : ℕ)
      → k < 10
      → (direct_block (loaded s parent_id) k ≢ s.current_superblock.block_bitmap_block)
        × (direct_block (loaded s parent_id) k ≢ s.current_superblock.inode_bitmap_block)

module _ {e : Env} (reliable : IsReliable e) (s : Fs e) (parent_id : ℕ) (parent : Bytes)
    (name : List ℕ) (short : length name ≤ 28)
    (is_open : IsOpen {e = e} (record { state = s; inode = parent }) parent_id)
    (type : (bit_and (get16 parent type_offset) inode_type_dir == 0) ≡ false)
    (table_apart : s.current_superblock.inode_bitmap_block ≢ inode_block_num s parent_id)
    (blocks_apart : (k : ℕ)
      → k < 10
      → direct_block parent k ≢ s.current_superblock.inode_bitmap_block)
    (once : Once s parent name) where
  -- The entry `u` of the block `t`.
  module _ (t u : ℕ) (buffer : Bytes) (size : ℕ) (lt : t < 10) (there : direct_block parent t ≢ 0)
      (found : find_entry (cell s (direct_block parent t)) name 0 113 ≡ some u) where
    abbrev block : Bytes
    block = (read_block s (direct_block parent t) buffer).1

    fits : u < 113
    fits = omega (arith, find_entry-lt (cell s (direct_block parent t)) name 0 113 u found)

    entry : is_entry (cell s (direct_block parent t)) name u ≡ true
    entry = find_entry-is_entry (cell s (direct_block parent t)) name 0 113 u found

    block-once : (k : ℕ) → k < 113 → is_entry block name k ≡ true → k ≡ u
    block-once k h is =
        (once t t k u lt lt h fits there there
          (is_entry-Agree (cell s (direct_block parent t)) block name k short (λ i l h'.
              reliable.whole s.device (direct_block parent t) e.fresh buffer i (omega arith))
            ∙ is)
          entry).1

    elsewhere : (k : ℕ) → k < 10 → k ≢ t → Absent reliable s parent name short k
    elsewhere k h ne = elim (Bool-cases (direct_block parent k == 0)) [
      | inl missing ↦ inl ((==_iff (direct_block parent k) 0).0 missing)
      | inr other ↦ inr (
          find_entry-none (cell s (direct_block parent k)) name 0 113 (λ j low high.
            elim (Bool-cases (is_entry (cell s (direct_block parent k)) name j)) [
              | inl is ↦
                  absurd
                    (ne (once k t j u h lt high fits (λ z. absurd (ground arith)) there is entry).0)
              | inr is_not ↦ is_not
            ]))
    ]

    distinct : (k : ℕ) → k < 10 → k ≢ t → direct_block parent t ≢ direct_block parent k
    distinct k h ne = is_open.distinct t k lt h (λ z. ne (sym z)) there

    abbrev last : Fs e
    last =
        Changed.last reliable s parent_id parent (cleared block u) t size is_open.valid lt
          is_open.not_table distinct

    same_block : (k : ℕ) → k < 10 → direct_block (loaded last parent_id) k ≡ direct_block parent k
    same_block =
        last-direct_block reliable s parent_id parent (cleared block u) t size is_open.valid lt
          is_open.not_table distinct

    last-Gone : Gone reliable last parent_id name short
    last-Gone = record {
      valid = is_open.valid;
      type =
          ap (λ x. bit_and x inode_type_dir == 0)
            (last-type reliable s parent_id parent (cleared block u) t size is_open.valid lt
              is_open.not_table distinct)
          ∙ type;
      absent = λ k h. elim (Bool-cases (k == t)) [
        | inr other ↦
            let ne : k ≢ t = λ z. absurd (ground arith) in
            last-Absent reliable s parent_id parent (cleared block u) t size is_open.valid lt
              is_open.not_table distinct name short k h ne (elsewhere k h ne)
        | inl here ↦
            let at : t ≡ k = sym ((==_iff k t).0 here) in
            subst (Absent reliable last (loaded last parent_id) name short) at (
              inr (
                ap (λ b. find_entry (cell last b) name 0 113) (same_block t lt)
                ∙ find_entry-Agree (cell last (direct_block parent t)) (cleared block u) name 0 113
                    short (omega arith)
                    (last-bytes reliable s parent_id parent (cleared block u) t size is_open.valid
                      lt is_open.not_table distinct)
                ∙ find_entry-cleared block name u short block-once))
      ];
      apart = (is_open.apart, table_apart);
      blocks_apart = λ k h. (
        (λ z. is_open.not_bitmap k h (sym (same_block k h) ∙ z)),
        (λ z. blocks_apart k h (sym (same_block k h) ∙ z)),
      );
    }

    pub update_dir-Gone :
        Gone reliable (update_dir s parent_id parent size t block zeros u) parent_id name short
    update_dir-Gone =
        subst (λ x. Gone reliable x parent_id name short)
          (sym (
            written reliable s parent_id parent (cleared block u) t size is_open.valid lt
              is_open.not_table distinct))
          last-Gone

    -- The block as it is read has the entry too.
    pub find_entry-read : find_entry block name 0 113 ≡ some u
    find_entry-read =
        find_entry-Agree block (cell s (direct_block parent t)) name 0 113 short (omega arith)
          (λ i l h. reliable.whole s.device (direct_block parent t) buffer e.fresh i h)
        ∙ found
