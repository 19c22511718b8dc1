-- ===== src/Stream/Header.antt =====
-- Block types and `BlockHeader` (src/lz4.h), the three bytes before every compressed block.
pub mod RoundTrip
use arthur.Base.{ℕ, ◌+◌, ◌*◌, ◌/◌, ◌%◌, ◌^◌, Bool, ◌&&◌, ◌==◌, Bytes}
use arthur.Base.Words.{le_bytes, le_value}

abbrev pub block_size : ℕ
block_size = 65536

-- The bit fields, each below its width in a header that was read or stored.
pub record BlockHeader : Type 0 where
  pub prev_cont : ℕ
  pub block_type : ℕ
  pub size : ℕ

-- An assignment to a bit field keeps its low bits.
abbrev pub make_header : ℕ → ℕ → ℕ → BlockHeader
make_header cont type size = record {
  prev_cont = cont % 2;
  block_type = type % 16;
  size = size % 2 ^ 19;
}

abbrev pub header_length : ℕ
header_length = 3

-- `BlockHeader::TailMark()`: all the bits of `-1 & 0xF` and `-1 & 0x7FFFF`.
abbrev pub tail_mark : BlockHeader
tail_mark = record { prev_cont = 0; block_type = 15; size = 0x7ffff }

unfoldable pub is_tail_mark : BlockHeader → Bool
is_tail_mark h =
    h.prev_cont == tail_mark.prev_cont
    && (h.block_type == tail_mark.block_type && h.size == tail_mark.size)

-- The packed bit fields in memory: the first field has the lowest bits.
unfoldable pub header_bytes : BlockHeader → Bytes
header_bytes h = le_bytes 3 (h.prev_cont + 2 * h.block_type + 32 * h.size)

unfoldable pub read_header : Bytes → BlockHeader
read_header bs =
    let n = le_value bs in
    record { prev_cont = n % 2; block_type = n / 2 % 16; size = n / 32 % 2 ^ 19 }
