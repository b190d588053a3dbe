-- ===== src/Fs.antt =====
-- kern/fs/fs.c: the file system. The inode and the directory entries are bytes in memory as in the
-- source, and their fields are read and written at the offsets of `inode_t` and `dir_entry_t`; a data
-- block is a function from offsets to bytes.
pub mod Allocation
pub mod Store
pub mod Bitmap
mod Bits
pub mod Format
pub mod Dir
pub mod Data
pub mod Inodes
pub mod Frames
pub mod Alloc
pub mod Free
pub mod Superblock
pub mod Ends
pub mod Content
mod Entries
mod Lookup
mod Changed
mod Updated
mod Cleared
mod Removed
mod Placing
mod Directory
mod Named
mod Created
mod Deleted
pub mod Reading
pub mod Open
pub mod Ensure
pub mod Writing
pub mod Saved
pub mod Grown
pub mod ReadBack
mod Tests
mod FileTests
mod DirTests
