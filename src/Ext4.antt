-- ===== src/Ext4.antt =====
-- fs/ext4/ext4.c: the superblock, group descriptors and inodes on disk. The children: extents,
-- directories, paths, allocation, and whole files. Packed structs are held as their bytes, with
-- their fields at the offsets of the source's declarations.
pub mod Layout
pub mod Blocks
pub mod Extents
pub mod Copy
pub mod Dir
pub mod Path
pub mod Resolve
pub mod Mark
pub mod Bitmap
pub mod Inode
pub mod Alloc
pub mod File
pub mod Listing
pub mod Listed
pub mod Fuel
mod Tests
mod ListTests
