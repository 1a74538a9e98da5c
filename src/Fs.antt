-- ===== src/Fs.antt =====
-- src/fs.rs: the overlay filesystem. The children model its tables, its decisions and its operations.
pub mod Types
pub mod Inodes
pub mod Handles
pub mod Io
pub mod View
pub mod Files
pub mod Attrs
pub mod Names
pub mod Session
