-- ===== src/Sequitur.antt =====
-- HW1-Compression-Decompression-Utility: the compression utility, by its source files.
pub mod Memory
pub mod Rules
pub mod Digrams
pub mod Algorithm
pub mod Utf
pub mod Compress
pub mod Decompress
pub mod Options
mod Tests
