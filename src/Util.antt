-- ===== src/Util.antt =====
-- src/tirtc/_util.py, in the parts that the other modules stand on.
pub mod Retry
pub mod Validate
pub mod Moments
