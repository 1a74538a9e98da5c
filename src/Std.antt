-- ===== src/Std.antt =====
-- What the program uses of Rust's standard library: UTF-8, texts as bytes, and paths.
pub mod Utf8
pub mod Text
pub mod FilePath
