-- ===== src/HepFs.antt =====
-- kernel/src/hepfs.rs: the filesystem on a disk of 4096-byte blocks, from the bitmaps up to the
-- operations on files and directories.
pub mod Disk
pub mod Bytes
pub mod Slices
pub mod Utf8
pub mod Bitmap
pub mod Bits
pub mod Search
pub mod Claim
pub mod Alloc
pub mod Blocks
pub mod Inode
pub mod Table
pub mod Dir
pub mod Entries
pub mod Frames
pub mod Find
pub mod Slots
pub mod Renamed
pub mod Rename
pub mod File
pub mod Format
pub mod Ops
pub mod Copy
mod Tests
mod Witnesses
