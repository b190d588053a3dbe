-- ===== src/Fs/Updated.antt =====
-- `fs_create` of kern/fs/fs.c: an entry is written into a block of the directory, and is found there.
use astral_os.Common.{
  ℕ, ◌^◌, ◌≤◌, ◌<◌, ◌≡◌, ◌≢◌, sym, ap, subst, ◌∙◌, arith, false, none, some, List, length, Bytes,
  get16,
}
use astral_os.Strings.Terminated.{IsName}
use astral_os.Fs.Store.{Env, Fs, direct_block, is_no_inode, inode_block_num, type_offset}
use astral_os.Fs.Dir.{entry_inode, find_entry, new_entry, lookup_blocks, update_dir}
use astral_os.Fs.Content.{IsReliable, cell}
use astral_os.Fs.Open.{loaded}
use astral_os.Fs.Entries.{
  placed, placed-inode, placed-is_entry, placed-Agree, find_entry-Agree, find_entry-changed,
  entry_inode-Agree,
}
use astral_os.Fs.Lookup.{Absent, lookup_blocks-found}
use astral_os.Fs.Changed
use astral_os.Fs.Changed.{written, last-direct_block, last-bytes, last-type, last-Absent}

-- The directory is in the table, has the type that it had, and the name leads to the inode.
pub record Leads {e : Env} (s : Fs e) (parent_id : ℕ) (parent : Bytes) (name : List ℕ)
    (inode_id : ℕ) : Type 0 where
  pub valid : is_no_inode s parent_id ≡ false
  pub type : get16 (loaded s parent_id) type_offset ≡ get16 parent type_offset
  pub leads : lookup_blocks s (loaded s parent_id) name e.fresh 0 10 ≡ inode_id

module _ {e : Env} (reliable : IsReliable e) (s : Fs e) (parent_id : ℕ) (parent block : Bytes)
    (name : List ℕ) (inode_id t u size : ℕ) (short : length name ≤ 28) (ok : IsName name)
    (small : inode_id < 2 ^ 32) (real : inode_id ≢ 0) (valid : is_no_inode s parent_id ≡ false)
    (lt : t < 10) (fits : u < 113) (there : direct_block parent t ≢ 0)
    (not_table : (k : ℕ) → k < 10 → direct_block parent k ≢ inode_block_num s parent_id)
    (distinct : (k : ℕ) → k < 10 → k ≢ t → direct_block parent t ≢ direct_block parent k)
    (before : (k : ℕ) → k < t → Absent reliable s parent name short k)
    (absent : find_entry block name 0 113 ≡ none) where
  abbrev number : ℕ
  number = direct_block parent t

  abbrev bytes : Bytes
  bytes = placed e.fresh block inode_id name u small ok short

  abbrev last : Fs e
  last = Changed.last reliable s parent_id parent bytes t size valid lt not_table distinct

  last-number : direct_block (loaded last parent_id) t ≡ number
  last-number =
      last-direct_block reliable s parent_id parent bytes t size valid lt not_table distinct t lt

  last-found : find_entry (cell last (direct_block (loaded last parent_id) t)) name 0 113 ≡ some u
  last-found =
      ap (λ b. find_entry (cell last b) name 0 113) last-number
      ∙ find_entry-Agree (cell last number) bytes name 0 113 short (omega arith)
          (last-bytes reliable s parent_id parent bytes t size valid lt not_table distinct)
      ∙ find_entry-changed bytes block name 0 113 u short (omega arith) (omega (arith, fits)) absent
          (placed-is_entry e.fresh block inode_id name u small ok short real)
          (placed-Agree e.fresh block inode_id name u small ok short)

  last-inode : entry_inode (cell last (direct_block (loaded last parent_id) t)) u ≡ inode_id
  last-inode =
      ap (λ b. entry_inode (cell last b) u) last-number
      ∙ entry_inode-Agree (cell last number) bytes u (λ j l h.
        last-bytes reliable s parent_id parent bytes t size valid lt not_table distinct j
          (omega arith) (omega (arith, fits)))
      ∙ placed-inode e.fresh block inode_id name u small ok short

  updated : update_dir s parent_id parent size t block (new_entry e.fresh inode_id name) u ≡ last
  updated = written reliable s parent_id parent bytes t size valid lt not_table distinct

  -- The entry is written into a block that has no entry of the name, with no such block before it.
  pub update_dir-Leads :
      Leads
        (update_dir s parent_id parent size t block (new_entry e.fresh inode_id name) u)
        parent_id
        parent
        name
        inode_id
  update_dir-Leads =
      subst (λ s'. Leads s' parent_id parent name inode_id) (sym updated)
        (record {
          valid = valid;
          type = last-type reliable s parent_id parent bytes t size valid lt not_table distinct;
          leads =
              lookup_blocks-found reliable last (loaded last parent_id) name short 10 0 e.fresh t u
                (omega arith) (omega (arith, lt))
                (λ k low h.
                  last-Absent reliable s parent_id parent bytes t size valid lt not_table distinct
                    name short k (omega (arith, lt)) (λ z. absurd (omega (arith, z))) (before k h))
                (λ z. there (sym last-number ∙ z)) last-found
              ∙ last-inode;
        })

pub Leads-type :
    {e : Env} (s : Fs e) (parent_id : ℕ) (parent parent' : Bytes) (name : List ℕ) (inode_id : ℕ)
    → get16 parent type_offset ≡ get16 parent' type_offset
    → Leads s parent_id parent name inode_id
    → Leads s parent_id parent' name inode_id
Leads-type s parent_id parent parent' name inode_id same leads = record {
  valid = leads.valid;
  type = leads.type ∙ same;
  leads = leads.leads;
}
