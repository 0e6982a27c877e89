-- ===== src/Base.antt =====
-- The library under base/.
pub mod SparseInt
pub mod Deadline
pub mod ThreadPool
pub mod Merged
pub mod RunLater
pub mod Strop
pub mod TimeStr
