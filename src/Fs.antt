-- ===== src/Fs.antt =====
-- The file system (fs/): the in-memory file system, path lookup and open files.
pub mod Node
pub mod Ramfs
pub mod Vfs
pub mod File
pub mod Sample
