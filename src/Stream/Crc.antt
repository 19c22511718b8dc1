-- ===== src/Stream/Crc.antt =====
-- `crc32_update` and `block_checksum` (src/lz4.cc).
pub mod Bitwise
pub mod Register
pub mod Detection
use Prim.Native.Nat.{bit_and, bit_xor}
use arthur.Base.{ℕ, zero, suc, ◌/◌, if◌then◌else◌, ◌==◌, [], ◌∷◌, Bytes}
use arthur.Stream.Header.{BlockHeader, header_bytes}

-- One round of the loop that fills the table.
abbrev pub table_round : ℕ → ℕ
table_round value = bit_xor (value / 2) (if bit_and value 1 == 1 then 0xedb88320 else 0)

unfoldable pub rounds : ℕ → ℕ → ℕ
rounds zero value = value
rounds (suc n) value = rounds n (table_round value)

-- `table[i]`, for an `i` below 256.
unfoldable pub table : ℕ → ℕ
unfolding rounds
table i = rounds 8 i

unfoldable pub crc32_update : ℕ → Bytes → ℕ
crc32_update crc [] = crc
crc32_update crc (b ∷ bs) =
    crc32_update (bit_xor (table (bit_and (bit_xor crc b) 0xff)) (crc / 256)) bs

unfoldable pub block_checksum : BlockHeader → Bytes → ℕ
block_checksum hdr s =
    bit_xor (crc32_update (crc32_update 0xffff_ffff (header_bytes hdr)) s) 0xffff_ffff
