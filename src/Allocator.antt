-- ===== src/Allocator.antt =====
-- HW3-Dynamic-Memory-Allocator: the allocator, by its source files, then what is proved of it.
pub mod Blocks
pub mod Lists
pub mod Operations
pub mod Sizes
pub mod Growth
pub mod Payload
pub mod Tiling
pub mod Rings
mod Tests
