-- ===== src/Rlog.antt =====
-- The folder rlog.
pub mod Service
pub mod Qps
pub mod Client
