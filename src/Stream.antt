-- ===== src/Stream.antt =====
-- The block stream of src/lz4.h and src/lz4.cc, which carries every acore file.
pub mod BlockType
pub mod Header
pub mod Block
pub mod Crc
pub mod Codec
pub mod ProcFile
pub mod Writer
pub mod Reader
pub mod Pieces
pub mod FileRecord
pub mod Room
pub mod TailMark
pub mod Transfer
pub mod Tests
