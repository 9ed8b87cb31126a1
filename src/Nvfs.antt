-- ===== src/Nvfs.antt =====
-- kernel/drivers/nvfs.c, the file system. Each public call takes `nvfs_lock` first and drops it at
-- the end, so it is one step here.
pub mod Disk
pub mod Bitmap
pub mod Inode
pub mod Extents
pub mod Directory
pub mod Paths
pub mod Calls
pub mod Mount
mod Tests
