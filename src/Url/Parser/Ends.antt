-- ===== src/Url/Parser/Ends.antt =====
-- The loop ends, reads no field of a missing base, and keeps ports in their range.
pub mod Scheme
pub mod Authority
pub mod Files
pub mod Paths
