-- ===== src/Fs/FileTests.antt =====
-- Writing to an empty file of kern/fs/fs.c, and reading it back.
use astral_os.Common.{
  ℕ, ◌+◌, ◌<◌, ◌≤◌, ◌≡◌, ◌⊎◌, refl, sym, ◌∙◌, arith, false, ◌&&◌, some, none, if◌then◌else◌, ◌==◌,
  ==_ne, Bytes, zeros,
}
use astral_os.Fs.Store.{Fs, direct_block, direct_block_offset}
use astral_os.Fs.Data.{finished, fs_read, fs_write}
use astral_os.Fs.Bitmap.{first_clear}
use astral_os.Fs.Content.{IsReliable}
use astral_os.Fs.Open.{loaded, loaded-cell}
use astral_os.Fs.ReadBack.{IsFile, Saves, fs_write-Saves, fs_read-fs_write}
use astral_os.Fs.Tests.{heap-IsInUse, ram, ram-IsDisk, empty, ones, heap-HasRoom, freed-HasRoom}

pub ram-IsReliable : IsReliable ram
ram-IsReliable = record {
  disk = ram-IsDisk;
  reads = λ d block buffer. refl;
  whole = λ d block buffer buffer' i lt. refl;
  writes = λ d block bytes. refl;
}

-- The inode 2 is that of an empty file, and the first four numbers of blocks are in use.
abbrev one_file : Fs ram
one_file = record empty {
  device = λ b i. if b == 3 && (i == 93) then 128 else 0;
  block_bitmap = λ i. if i == 0 then 15 else 0;
}

no_byte : (i : ℕ) → 40 ≤ i → i < 88 → loaded one_file 2 i ≡ 0
no_byte i low high =
    let other : (88 + i == 93) ≡ false = ==_ne (88 + i) 93 (λ e. absurd (omega arith)) in
    loaded-cell one_file 2 i high ∙ rw other refl

no_block : (k : ℕ) → k < 10 → direct_block (loaded one_file 2) k ≡ 0
no_block k lt =
    let p = direct_block_offset k in
    omega (
      arith,
      no_byte p (omega arith) (omega arith),
      no_byte (p + 1) (omega arith) (omega arith),
      no_byte (p + 2) (omega arith) (omega arith),
      no_byte (p + 3) (omega arith) (omega arith),
    )

one_file-IsFile : IsFile one_file 2
one_file-IsFile = record {
  is_open = record {
    valid = refl;
    total = omega arith;
    table = λ e. absurd (omega arith);
    table_used = refl;
    bitmap = λ e. absurd (omega arith);
    bitmap_used = refl;
    apart = λ e. absurd (omega arith);
    used = λ k lt real. absurd (real (no_block k lt));
    not_table = λ k lt e. absurd (omega (arith, no_block k lt, e));
    not_bitmap = λ k lt e. absurd (omega (arith, no_block k lt, e));
    distinct = λ j k lt lt' ne real. absurd (real (no_block j lt));
    stored = λ i lt. sym (loaded-cell one_file 2 i lt);
  };
  type = refl;
}

fs_write-Saves_example : Saves one_file 2 100 5000 ones (fs_write one_file 2 100 ones 5000)
fs_write-Saves_example =
    fs_write-Saves ram-IsReliable one_file 2 100 5000 ones heap-IsInUse heap-HasRoom one_file-IsFile
      (omega arith)

fs_read-fs_write_example :
    (s' : Fs ram) × (written : ℕ) × (after : Bytes) × (fs_write one_file 2 100 ones 5000
      ≡ finished (some written) s')
    × ((written ≡ 5000) ⊎ (first_clear s'.block_bitmap 0 s'.current_superblock.total_blocks ≡ none))
    × ((fs_read s' 2 100 zeros written).0 ≡ finished (some written) after)
    × ((i : ℕ) → i < written → after i ≡ ones i)
fs_read-fs_write_example =
    fs_read-fs_write ram-IsReliable one_file 2 100 5000 ones zeros heap-IsInUse heap-HasRoom
      freed-HasRoom one_file-IsFile (omega arith)
