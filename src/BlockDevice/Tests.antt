-- ===== src/BlockDevice/Tests.antt =====
-- The theorems of kern/drivers/block/block_device.c at single blocks.
use astral_os.Common.{◌*◌, ◌≡◌, refl, [], ok, error}
use astral_os.BlockDevice.{
  type_none, type_emmc, words_per_block, block_device_read, block_device_write,
}
use astral_os.BlockDevice.Transfers.{loaded, count_up, block_device_read-loaded}

block_device_read-loaded_example :
    ((block_device_read type_emmc 7 2 4096).0 ≡ ok)
    × (loaded (block_device_read type_emmc 7 2 4096).1 ≡ count_up 0 (2 * words_per_block))
block_device_read-loaded_example = block_device_read-loaded 7 2 4096

no_device :
    (block_device_read type_none 7 2 4096 ≡ (error, []))
    × (block_device_write type_none 7 2 4096 ≡ (error, []))
unfolding block_device_read block_device_write
no_device = (refl, refl)
