-- ===== src/Stream/BlockType.antt =====
-- `enum BlockType` (src/lz4.h). A block type is its number, since the code checks the range of the
-- numbers that it is given.
use arthur.Base.{ℕ}

abbrev pub stream : ℕ
stream = 0

abbrev pub process : ℕ
process = 1

abbrev pub thread : ℕ
thread = 2

abbrev pub file : ℕ
file = 3

abbrev pub loads : ℕ
loads = 4

abbrev pub elf : ℕ
elf = 5

abbrev pub max : ℕ
max = 6
