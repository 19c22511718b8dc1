-- ===== src/Core.antt =====
-- The core file of src/core.h and src/core.cc.
pub mod FileHeader
pub mod Loads
pub mod Elf
pub mod StatusMask
pub mod Output
pub mod Memory
pub mod Notes
pub mod Process
mod Tests
