-- ===== src/Proc/Tests.antt =====
-- The readers and the parsers of src/proc.cc at concrete inputs.
pub mod Checks
pub mod Ids
pub mod Files
pub mod Regions
