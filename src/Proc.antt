-- ===== src/Proc.antt =====
-- The /proc files of src/proc.h and src/proc.cc: how they are read, and their parsers.
pub mod Text
pub mod Lines
pub mod Cmdline
pub mod Auxv
pub mod Status
pub mod Maps
pub mod Stat
pub mod Read
pub mod Termination
pub mod Tests
