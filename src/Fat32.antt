-- ===== src/Fat32.antt =====
-- fat32: the file system's on-disk structures.
pub mod BlockCache
pub mod BlockCacheManager
pub mod Directory
pub mod Creation
pub mod DirentBytes
pub mod FileContent
pub mod FsInfo
pub mod LongDirEntry
pub mod Manager
pub mod Names
pub mod ShortDirEntry
pub mod Table
pub mod VirtualFile
pub mod Volume
