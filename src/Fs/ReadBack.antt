-- ===== src/Fs/ReadBack.antt =====
-- kern/fs/fs.c: `fs_read` returns what `fs_write` wrote.
use Prim.Native.Nat.{bit_and}
use astral_os.Fs.Allocation.{IsInUse, allocate, release, HasRoom}
use astral_os.Common.{
  ℕ, ◌+◌, ◌/◌, ◌%◌, ◌≤◌, ◌<◌, ◌≡◌, ◌≢◌, ◌⊎◌, inl, inr, refl, sym, ap, subst, ◌∙◌, arith, false,
  Bool-cases, none, some, ltb, ◌==◌, ==_iff, add64, Bytes, get16, get64,
}
use astral_os.Fs.Store.{
  Env, Fs, direct_block, kfree, is_no_inode, inode_size, inode_type_file, type_offset, size_offset,
}
use astral_os.Fs.Content.{IsReliable, cell, content}
use astral_os.Fs.Data.{
  Run, finished, rounds, Written, fs_read, write_loop, conclude, write_opened, fs_write,
}
use astral_os.Fs.Bitmap.{first_clear}
use astral_os.Fs.Ends.{Enough-rounds}
use astral_os.Fs.Reading.{Reads, read_loop-Reads}
use astral_os.Fs.Open.{IsOpen, loaded, loaded-cell, open_inode-loaded}
use astral_os.Fs.Writing.{Writes}
use astral_os.Fs.Saved.{write_loop-Writes}
use astral_os.Fs.Grown.{
  Same, Same-direct_block, Same-type, Same-size, IsOpen-moved, final_inode, final_inode-size,
  final_inode-other, final_inode-direct_block, ended, grow-ended, ended-state, ended-inode,
  ended-other,
}

-- The file is in the table, is of the type of files, and its inode and blocks are in order.
pub record IsFile {e : Env} (s : Fs e) (inode_id : ℕ) : Type 0 where
  pub is_open : IsOpen {e = e} (record { state = s; inode = loaded s inode_id }) inode_id
  pub type : (bit_and (get16 (loaded s inode_id) type_offset) inode_type_file == 0) ≡ false

-- `fs_read` of bytes that the file has.
pub fs_read-Reads :
    {e : Env} (reliable : IsReliable e) (s : Fs e) (inode_id offset count : ℕ) (buffer : Bytes)
    (small : offset + count ≤ 40960)
    (mapped : (p : ℕ)
      → offset ≤ p
      → p < offset + count
      → direct_block (loaded s inode_id) (p / 4096) ≢ 0)
    → HasRoom s.heap
    → is_no_inode s inode_id ≡ false
    → (bit_and (get16 (loaded s inode_id) type_offset) inode_type_file == 0) ≡ false
    → offset + count ≤ get64 (loaded s inode_id) size_offset
    → Reads reliable s
        (loaded s inode_id)
        offset
        count
        small
        mapped
        0
        buffer
        (fs_read s inode_id offset buffer count).0
unfolding fs_read
fs_read-Reads {e} reliable s inode_id offset count buffer small mapped served valid type size =
    let opened = open_inode-loaded reliable s inode_id valid inode_type_file served type in
    let s1 : Fs e = record s { heap = (allocate s.heap inode_size).1 } in
    let loop =
      read_loop-Reads reliable s1 (loaded s inode_id) offset count small mapped rounds 0 e.fresh
        buffer (Enough-rounds offset count) (omega arith) in
    let within : ltb (get64 (loaded s inode_id) size_offset) (add64 offset count) ≡ false =
      ground arith in
    elim (Bool-cases (count == 0)) [
      | inl nothing ↦
          let e0 : count ≡ 0 = (==_iff count 0).0 nothing in
          (
            buffer,
            rw (opened, within, nothing) (ap (λ n. finished (some n) buffer) (sym e0)),
            (λ i low high. absurd (omega arith)),
            (λ i out. refl),
          )
      | inr some_bytes ↦ (loop.0, rw (opened, within, some_bytes) loop.1, loop.2, loop.3)
    ]

-- What `fs_write` does: it ends with so many bytes written, all of them unless every block is in use, and the memory
-- of its inode freed; the file is in
-- order, is at least as long as what was written, and holds it; the other bytes that it had are as before.
pub record Saves {e : Env} (s : Fs e) (inode_id offset count : ℕ) (buffer : Bytes) (r : Run (Fs e))
    : Type 0 where
  pub after : Fs e
  pub written : ℕ
  pub ran : r ≡ finished (some written) after
  pub heap : after.heap ≡ release (allocate s.heap inode_size).1 (allocate s.heap inode_size).0
  pub few : written ≤ count
  pub all :
      (written ≡ count)
      ⊎ (first_clear after.block_bitmap 0 after.current_superblock.total_blocks ≡ none)
  pub is_file : IsFile after inode_id
  pub long : offset + written ≤ get64 (loaded after inode_id) size_offset
  pub mapped :
      (p : ℕ)
      → offset ≤ p
      → p < offset + written
      → direct_block (loaded after inode_id) (p / 4096) ≢ 0
  pub new : (i : ℕ) → i < written → content after (loaded after inode_id) (offset + i) ≡ buffer i
  pub old :
      (p : ℕ)
      → p < 40960
      → direct_block (loaded s inode_id) (p / 4096) ≢ 0
      → (p < offset) ⊎ (offset + written ≤ p)
      → content after (loaded after inode_id) p ≡ content s (loaded s inode_id) p

module _ {e : Env} (reliable : IsReliable e) (s : Fs e) (inode_id offset count : ℕ) (buffer : Bytes)
    (in_use : IsInUse s.heap) (served : HasRoom s.heap) (is_file : IsFile s inode_id)
    (small : offset + count ≤ 40960) where
  abbrev opened : Written e
  opened = record {
    state = record s { heap = (allocate s.heap inode_size).1 };
    inode = loaded s inode_id;
  }

  opened-IsOpen : IsOpen opened inode_id
  opened-IsOpen =
      IsOpen-moved (record { state = s; inode = loaded s inode_id }) inode_id s.device
        (allocate s.heap inode_size).1 (loaded s inode_id) is_file.is_open (λ k lt. refl)
        is_file.is_open.stored

  abbrev loop :
      Writes opened inode_id offset count 0 buffer
        (write_loop rounds opened inode_id offset count 0 e.fresh buffer)
  loop =
      write_loop-Writes reliable rounds opened inode_id offset count 0 e.fresh buffer opened-IsOpen
        small (Enough-rounds offset count) (omega arith)

  bound : offset + loop.written ≤ 40960
  bound = omega (arith, loop.to)

  abbrev last : Fs e
  last = ended reliable loop.after inode_id offset loop.written loop.is_open bound

  abbrev end_state : Fs e
  end_state = record loop.after.state {
    device = last.device;
    heap = release loop.after.state.heap (allocate s.heap inode_size).0;
  }

  abbrev end_inode : Bytes
  end_inode = final_inode loop.after.inode (offset + loop.written)

  ran : fs_write s inode_id offset buffer count ≡ finished (some loop.written) end_state
  unfolding fs_write
  ran =
      let address = (allocate s.heap inode_size).0 in
      ap (λ o. write_opened o.0 o.1 inode_id offset buffer count)
        (open_inode-loaded reliable s inode_id is_file.is_open.valid inode_type_file served
          is_file.type)
      ∙ ap (λ r. conclude r inode_id offset address) loop.ran
      ∙ ap (λ t. finished (some loop.written) (kfree t address))
          (grow-ended reliable loop.after inode_id offset loop.written loop.is_open bound
            ∙ ended-state reliable loop.after inode_id offset loop.written loop.is_open bound)

  end_inode-loaded : Same (loaded end_state inode_id) end_inode
  end_inode-loaded i lt =
      loaded-cell end_state inode_id i lt
      ∙ ended-inode reliable loop.after inode_id offset loop.written loop.is_open bound i lt

  end-direct_block :
      (k : ℕ)
      → k < 10
      → direct_block (loaded end_state inode_id) k ≡ direct_block loop.after.inode k
  end-direct_block k lt =
      Same-direct_block _ _ k end_inode-loaded lt
      ∙ final_inode-direct_block loop.after.inode (offset + loop.written) bound k

  end-IsOpen :
      IsOpen {e = e} (record { state = end_state; inode = loaded end_state inode_id }) inode_id
  end-IsOpen =
      IsOpen-moved loop.after inode_id last.device _ (loaded end_state inode_id) loop.is_open
        end-direct_block (λ i lt. sym (loaded-cell end_state inode_id i lt))

  end-type : get16 (loaded end_state inode_id) type_offset ≡ get16 (loaded s inode_id) type_offset
  end-type =
      Same-type _ _ end_inode-loaded
      ∙ rw
          (
            final_inode-other loop.after.inode (offset + loop.written) bound 4 (inl (omega arith)),
            final_inode-other loop.after.inode (offset + loop.written) bound 5 (inl (omega arith)),
            loop.keeps.header 4 (omega arith),
            loop.keeps.header 5 (omega arith),
          )
          refl

  -- The bytes of a block of the file.
  end-content :
      (p : ℕ)
      → p < 40960
      → content end_state (loaded end_state inode_id) p
        ≡ content loop.after.state loop.after.inode p
  end-content p lt =
      ap (λ b. cell end_state b (p % 4096)) (end-direct_block (p / 4096) (omega arith))
      ∙ ended-other reliable loop.after inode_id offset loop.written loop.is_open bound
          (direct_block loop.after.inode (p / 4096)) (p % 4096)
          (λ z. loop.is_open.not_table (p / 4096) (omega arith) (sym z))

  -- On a device without failures, with a heap in a state that calls lead to and memory for the inode, `fs_write` of bytes within the ten blocks of a file that is in order ends
  -- with all of them written unless every block is in use; the file is then in order, holds the bytes that were written
  -- and is long enough for them, and its other bytes are as before.
  pub fs_write-Saves :
      Saves s inode_id offset count buffer (fs_write s inode_id offset buffer count)
  fs_write-Saves = record {
    after = end_state;
    written = loop.written;
    ran = ran;
    heap = ap (λ h. release h (allocate s.heap inode_size).0) loop.keeps.heap;
    few = loop.to;
    all = loop.all;
    is_file = record {
      is_open = end-IsOpen;
      type = ap (λ t. bit_and t inode_type_file == 0) end-type ∙ is_file.type;
    };
    long =
        subst (λ x. offset + loop.written ≤ x) (sym (Same-size _ _ end_inode-loaded))
          (final_inode-size loop.after.inode (offset + loop.written) bound);
    mapped = λ p low high.
        subst (λ b. b ≢ 0) (sym (end-direct_block (p / 4096) (omega (arith, bound))))
          (loop.mapped p (omega arith) high);
    new = λ i lt. end-content (offset + i) (omega (arith, bound)) ∙ loop.new i (omega arith) lt;
    old = λ p lt there out.
        end-content p lt
        ∙ loop.old p lt there (elim out [ inl low ↦ inl (omega arith) | inr high ↦ inr high ]);
  }

-- On a device without failures and with a file that is in order, where the heap is in a state that calls lead to and has memory for the inode, `fs_write`
-- within the ten blocks of the file ends with so many bytes written, all of them unless every block is in use; where the
-- heap that it leaves has memory for an inode too, `fs_read` of as many bytes at the same offset then ends with all of
-- them read, and returns the bytes that were written.
pub fs_read-fs_write :
    {e : Env} (reliable : IsReliable e) (s : Fs e) (inode_id offset count : ℕ)
    (buffer buffer' : Bytes)
    → IsInUse s.heap
    → HasRoom s.heap
    → HasRoom (release (allocate s.heap 88).1 (allocate s.heap 88).0)
    → IsFile s inode_id
    → offset + count ≤ 40960
    → (s' : Fs e) × (written : ℕ) × (after : Bytes) × (fs_write s inode_id offset buffer count
        ≡ finished (some written) s')
      × ((written ≡ count)
          ⊎ (first_clear s'.block_bitmap 0 s'.current_superblock.total_blocks ≡ none))
      × ((fs_read s' inode_id offset buffer' written).0 ≡ finished (some written) after)
      × ((i : ℕ) → i < written → after i ≡ buffer i)
fs_read-fs_write reliable s inode_id offset count buffer buffer' in_use served served' is_file
      small =
    let saved =
      fs_write-Saves reliable s inode_id offset count buffer in_use served is_file small in
    let read =
      fs_read-Reads reliable saved.after inode_id offset saved.written buffer'
        (omega (arith, saved.few)) saved.mapped (subst HasRoom (sym saved.heap) served')
        saved.is_file.is_open.valid saved.is_file.type saved.long in
    (
      saved.after,
      saved.written,
      read.0,
      saved.ran,
      saved.all,
      read.1,
      (λ i lt. read.2 i (omega arith) lt ∙ saved.new i lt),
    )
