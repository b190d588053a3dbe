-- ===== src/BlockDevice.antt =====
-- kern/drivers/block/block_device.c: the UFS and eMMC drivers and the choice between them. A driver
-- talks to its controller through registers and shared memory, so a call is the list of its accesses in
-- their order. The controller is not modelled: a wait ends when it does.
pub mod Transfers
mod Tests
use Prim.Native.Nat.{bit_or}
use astral_os.Common.{
  ℕ, zero, suc, ◌+◌, ◌*◌, ◌/◌, ◌%◌, ◌^◌, List, [], ◌∷◌, ◌++◌, Status, ok, error, if◌then◌else◌,
  ◌==◌, u32, sub32,
}

pub data Access : Type 0 where
  -- A 32-bit word or a byte is written at an address.
  writes_word writes_byte : (address value : ℕ) → Access
  -- So many bytes at an address are set to 0.
  clears : (address count : ℕ) → Access
  reads_word : (address : ℕ) → Access
  -- The word at an address is read until a bit of the mask is 0, or until one is 1.
  waits_clear waits_set : (address mask : ℕ) → Access
  -- The data register is read into a word of the buffer, or written from it.
  loads stores : (index : ℕ) → Access

pub data BlockDeviceType : Type 0 where
  type_none type_ufs type_emmc : BlockDeviceType

-- The addresses that the UFS driver uses.
abbrev pub ufs_doorbell : ℕ
ufs_doorbell = 0xDEAD0050

abbrev pub ufs_trl_base : ℕ
ufs_trl_base = 0xDEAE0000

abbrev pub ufs_prdt_base : ℕ
ufs_prdt_base = 0xDEAF0000

abbrev pub dd_read : ℕ
dd_read = 1

abbrev pub dd_write : ℕ
dd_write = 2

-- The byte `k` of the command in the descriptor, from its `dword4` on.
abbrev pub cdb : ℕ → ℕ → Access
cdb k value = writes_byte (ufs_trl_base + 16 + k) value

pub ufs_send_command : (lba num_blocks buffer data_direction : ℕ) → Status × List Access
ufs_send_command lba num_blocks buffer data_direction = (
  ok,
  clears ufs_trl_base 32
      ∷ clears ufs_prdt_base 16
      ∷ writes_word ufs_prdt_base (u32 buffer)
      ∷ writes_word (ufs_prdt_base + 4) (u32 (buffer / 2 ^ 32))
      ∷ writes_word (ufs_prdt_base + 8) (sub32 (u32 (num_blocks * 4096)) 1)
      ∷ writes_word ufs_trl_base (bit_or (bit_or 0 (u32 (data_direction * 2 ^ 24))) (2 ^ 16))
      ∷ writes_word (ufs_trl_base + 4) ufs_prdt_base
      ∷ writes_word (ufs_trl_base + 8) 0
      ∷ cdb 0 (if data_direction == dd_read then 0x28 else 0x2A)
      ∷ cdb 2 (lba / 2 ^ 24 % 256)
      ∷ cdb 3 (lba / 2 ^ 16 % 256)
      ∷ cdb 4 (lba / 2 ^ 8 % 256)
      ∷ cdb 5 (lba % 256)
      ∷ cdb 7 (num_blocks / 2 ^ 8 % 256)
      ∷ cdb 8 (num_blocks % 256)
      ∷ writes_word ufs_doorbell 1
      ∷ waits_clear ufs_doorbell 1
      ∷ [],
)

abbrev pub ufs_read_blocks : (lba num_blocks buffer : ℕ) → Status × List Access
ufs_read_blocks lba num_blocks buffer = ufs_send_command lba num_blocks buffer dd_read

abbrev pub ufs_write_blocks : (lba num_blocks buffer : ℕ) → Status × List Access
ufs_write_blocks lba num_blocks buffer = ufs_send_command lba num_blocks buffer dd_write

-- The registers of the eMMC controller.
abbrev pub emmc_argument : ℕ
emmc_argument = 0xBEEF0000

abbrev pub emmc_command : ℕ
emmc_command = 0xBEEF0004

abbrev pub emmc_response : ℕ
emmc_response = 0xBEEF0008

abbrev pub emmc_status : ℕ
emmc_status = 0xBEEF0010

abbrev pub emmc_interrupt_status : ℕ
emmc_interrupt_status = 0xBEEF0014

-- `EMMC_BLOCK_SIZE / sizeof(uint32_t)`
abbrev pub words_per_block : ℕ
words_per_block = 128

abbrev pub emmc_send_command : (cmd arg response_type : ℕ) → List Access
emmc_send_command cmd arg response_type =
    waits_clear emmc_status 1
    ∷ writes_word emmc_argument arg
    ∷ writes_word emmc_command (bit_or cmd response_type)
    ∷ waits_set emmc_interrupt_status 2
    ∷ writes_word emmc_interrupt_status 2
    ∷ reads_word emmc_response
    ∷ []

-- The inner loop: an access for each of the `n` words from `j` on of the block `i`.
unfoldable pub words : (ℕ → Access) → (i j n : ℕ) → List Access
words access i j zero = []
words access i j (suc n) = access (i * words_per_block + j) ∷ words access i (j + 1) n

-- The outer loop: the `n` blocks from `i` on, each when the buffer of the controller is ready.
unfoldable pub blocks : (ℕ → Access) → (ready i n : ℕ) → List Access
blocks access ready i zero = []
blocks access ready i (suc n) =
    waits_set emmc_status ready ∷ words access i 0 words_per_block ++ blocks access ready (i + 1) n

pub emmc_read_blocks : (lba num_blocks : ℕ) → Status × List Access
emmc_read_blocks lba num_blocks = if num_blocks == 0 then (ok, []) else (
  ok,
  emmc_send_command 0x12 lba 0 ++ blocks loads (2 ^ 11) 0 num_blocks ++ emmc_send_command 0x0C 0 0,
)

pub emmc_write_blocks : (lba num_blocks : ℕ) → Status × List Access
emmc_write_blocks lba num_blocks = if num_blocks == 0 then (ok, []) else (
  ok,
  emmc_send_command 0x19 lba 0 ++ blocks stores (2 ^ 12) 0 num_blocks ++ emmc_send_command 0x0C 0 0,
)

-- The type is the static `active_block_device_type`. The eMMC driver takes 32 bits of the address.
pub block_device_read : BlockDeviceType → (lba num_blocks buffer : ℕ) → Status × List Access
block_device_read type_ufs lba num_blocks buffer = ufs_read_blocks lba num_blocks buffer
block_device_read type_emmc lba num_blocks buffer = emmc_read_blocks (u32 lba) num_blocks
block_device_read type_none lba num_blocks buffer = (error, [])

pub block_device_write : BlockDeviceType → (lba num_blocks buffer : ℕ) → Status × List Access
block_device_write type_ufs lba num_blocks buffer = ufs_write_blocks lba num_blocks buffer
block_device_write type_emmc lba num_blocks buffer = emmc_write_blocks (u32 lba) num_blocks
block_device_write type_none lba num_blocks buffer = (error, [])
