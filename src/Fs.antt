-- ===== src/Fs.antt =====
-- os/src/fs: the pipe.
pub mod Pipe
pub mod Inode
