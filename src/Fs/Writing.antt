-- ===== src/Fs/Writing.antt =====
-- `fs_write` of kern/fs/fs.c: what its loop does to the bytes of the file.
use astral_os.Common.{
  ℕ, ◌+◌, ◌/◌, ◌%◌, ◌≤◌, ◌<◌, ◌≡◌, ◌≢◌, ◌⊎◌, refl, sym, ap, ◌∙◌, arith, none, some, Bytes,
}
use astral_os.Fs.Store.{Env, direct_block, write_block, inode_block_num, inode_start}
use astral_os.Fs.Content.{IsReliable, cell, content, cell-own, cell-other}
use astral_os.Fs.Data.{Run, finished, Written}
use astral_os.Fs.Bitmap.{first_clear}
use astral_os.Fs.Open.{IsOpen}
use astral_os.Fs.Ensure.{Keeps}

pub Keeps-trans :
    {e : Env} (w w' w'' : Written e) (inode_id : ℕ)
    → Keeps w w' inode_id
    → Keeps w' w'' inode_id
    → Keeps w w'' inode_id
Keeps-trans w w' w'' inode_id a b = record {
  heap = b.heap ∙ a.heap;
  table = b.table ∙ a.table;
  total = b.total ∙ a.total;
  bitmap = b.bitmap ∙ a.bitmap;
  header = λ i h. b.header i h ∙ a.header i h;
  blocks = λ k h real. b.blocks k h (λ z. real (sym (a.blocks k h real) ∙ z)) ∙ a.blocks k h real;
}

-- A write to the block of a position.
module _ {e : Env} (reliable : IsReliable e) (w : Written e) (inode_id i : ℕ)
    (is_open : IsOpen w inode_id) (lt : i < 10) (there : direct_block w.inode i ≢ 0)
    (bytes : Bytes) where
  abbrev pub put : Written e
  put = record { state = (write_block w.state (direct_block w.inode i) bytes).1; inode = w.inode }

  pub put-IsOpen : IsOpen put inode_id
  put-IsOpen = record {
    valid = is_open.valid;
    total = is_open.total;
    table = is_open.table;
    table_used = is_open.table_used;
    bitmap = is_open.bitmap;
    bitmap_used = is_open.bitmap_used;
    apart = is_open.apart;
    used = is_open.used;
    not_table = is_open.not_table;
    not_bitmap = is_open.not_bitmap;
    distinct = is_open.distinct;
    stored = λ j h.
        cell-other reliable w.state (direct_block w.inode i) bytes
          (inode_block_num w.state inode_id) (is_open.not_table i lt) (inode_start inode_id + j)
        ∙ is_open.stored j h;
  }

  pub put-Keeps : Keeps w put inode_id
  put-Keeps = record {
    heap = refl;
    table = refl;
    total = refl;
    bitmap = refl;
    header = λ j h. refl;
    blocks = λ k h real. refl;
  }

  pub put-own : (p : ℕ) → p / 4096 ≡ i → content put.state put.inode p ≡ bytes (p % 4096)
  put-own p e =
      ap (λ k. cell put.state (direct_block w.inode k) (p % 4096)) e
      ∙ cell-own reliable w.state (direct_block w.inode i) bytes (p % 4096) (omega arith)

  pub put-other :
      (p : ℕ)
      → p / 4096 < 10
      → p / 4096 ≢ i
      → content put.state put.inode p ≡ content w.state w.inode p
  put-other p h ne =
      cell-other reliable w.state (direct_block w.inode i) bytes (direct_block w.inode (p / 4096))
        (is_open.distinct i (p / 4096) lt h (λ z. ne (sym z)) there) (p % 4096)

-- What the loop leaves from `done` on: so many bytes written, all of them unless every block is in use.
pub record Writes {e : Env} (w : Written e) (inode_id offset count done : ℕ) (buffer : Bytes)
    (r : Run (Written e)) : Type 0 where
  pub after : Written e
  pub written : ℕ
  pub ran : r ≡ finished (some written) after
  pub from : done ≤ written
  pub to : written ≤ count
  pub all :
      (written ≡ count)
      ⊎ (first_clear after.state.block_bitmap 0 after.state.current_superblock.total_blocks ≡ none)
  pub is_open : IsOpen after inode_id
  pub keeps : Keeps w after inode_id
  pub mapped :
      (p : ℕ) → offset + done ≤ p → p < offset + written → direct_block after.inode (p / 4096) ≢ 0
  pub new :
      (i : ℕ) → done ≤ i → i < written → content after.state after.inode (offset + i) ≡ buffer i
  pub old :
      (p : ℕ)
      → p < 40960
      → direct_block w.inode (p / 4096) ≢ 0
      → (p < offset + done) ⊎ (offset + written ≤ p)
      → content after.state after.inode p ≡ content w.state w.inode p

-- Nothing is written any more.
pub Writes-over :
    {e : Env} (w : Written e) (inode_id offset count done : ℕ) (buffer : Bytes)
    → IsOpen w inode_id
    → done ≤ count
    → (done ≡ count)
      ⊎ (first_clear w.state.block_bitmap 0 w.state.current_superblock.total_blocks ≡ none)
    → Writes w inode_id offset count done buffer (finished (some done) w)
Writes-over w inode_id offset count done buffer is_open le all = record {
  after = w;
  written = done;
  ran = refl;
  from = omega arith;
  to = le;
  all = all;
  is_open = is_open;
  keeps = record {
    heap = refl;
    table = refl;
    total = refl;
    bitmap = refl;
    header = λ j h. refl;
    blocks = λ k h real. refl;
  };
  mapped = λ p low high. absurd (omega arith);
  new = λ i low high. absurd (omega arith);
  old = λ p small real out. refl;
}
