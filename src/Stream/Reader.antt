-- ===== src/Stream/Reader.antt =====
-- `Lz4Stream` in mode LZ4_Decompress (src/lz4.cc).
pub mod Frames
pub mod GetFile
pub mod Files
pub mod Damage
pub mod Answers
pub mod Progress
use arthur.Base.{ℕ, zero, suc, ◌+◌, ◌*◌, ◌-◌, ◌^◌, Bool, true, false, not, ◌&&◌, ◌||◌, arith}
use arthur.Base.{if◌then◌else◌, ltb, leb, ◌==◌, same, Option, none, some, [], ◌∷◌, ◌++◌, min}
use arthur.Base.{Bytes, length, take, drop}
use arthur.Base.Words.{add_size, le_value}
use arthur.Base.Files.{InFile, fread, fseek}
use arthur.Base.Results.{Result, Error, ok, err, and_then}
use arthur.Stream.BlockType
use arthur.Stream.Header.{BlockHeader, block_size, read_header, header_length, is_tail_mark}
use arthur.Stream.Block
use arthur.Stream.Block.{Block}
use arthur.Stream.Crc.{block_checksum}
use arthur.Stream.Codec.{Lz4, compress_bound, ring_offset}
use arthur.Stream.ProcFile.{ProcFile, of_memory, proc_header, max_proc_file_size}
use arthur.Stream.Writer.{int_max}

-- `opened` is `_file && _dec`. `block` is `_blocks[_block_index % 2]` and `spare` the other block.
pub record Reader (Decoder : Type 0) : Type 0 where
  pub opened : Bool
  pub file : InFile
  pub dec : Decoder
  pub decode_offset : ℕ
  pub block : Block
  pub spare : Block
  pub block_index : ℕ
  pub eof_clean : Bool
  pub tail_seen : Bool
  pub checksums : Bool

module _ {Decoder : Type 0} where
  -- What `Open` leaves once `fopen` and the codec succeed, on the decoder `init`.
  abbrev pub open_reader : Decoder → InFile → Reader Decoder
  open_reader init f = record {
    opened = true;
    file = f;
    dec = init;
    decode_offset = 0;
    block = Block.empty;
    spare = Block.empty;
    block_index = 0;
    eof_clean = true;
    tail_seen = false;
    checksums = false;
  }

  -- `fread` on the stream's file.
  abbrev pub after_read : ℕ → Reader Decoder → Reader Decoder
  after_read n r = record r { file = (fread n r.file).1 }

  abbrev pub bytes_read : ℕ → Reader Decoder → Bytes
  bytes_read n r = (fread n r.file).0

  -- A failure that no later call can take for a clean end.
  abbrev pub broken : Reader Decoder → Result BlockHeader × Reader Decoder
  broken r = (err Error.fault, record r { eof_clean = false })

  -- The next block of the ring, cleared.
  abbrev pub next_block : Reader Decoder → Reader Decoder
  next_block r = record r {
    block = Block.clear r.spare;
    spare = r.block;
    block_index = add_size r.block_index 1;
  }

  -- The comparison of checksums, on the block that was decoded.
  unfoldable pub verify_checksum :
      BlockHeader → ℕ → Reader Decoder → Result BlockHeader × Reader Decoder
  verify_checksum hdr stored r =
      if not r.checksums
      then (ok hdr, r)
      else if block_checksum hdr r.block.bytes == stored
      then (ok hdr, r)
      else broken (record r { block = Block.clear r.block })

  -- What `ReadBlock` does with the outcome of the codec; `rc <= 0` is a failure.
  unfoldable pub decoded :
      BlockHeader → ℕ → Option Bytes → Reader Decoder → Result BlockHeader × Reader Decoder
  decoded hdr stored none r = broken r
  decoded hdr stored (some []) r = broken r
  decoded hdr stored (some (b ∷ s)) r = verify_checksum hdr stored (record r {
    decode_offset = r.decode_offset + length (b ∷ s);
    block = record { cur = r.block.cur; bytes = b ∷ s };
  })

  -- A header that is not there is a clean end, unless the read failed or stopped inside it.
  abbrev pub no_header : ℕ → Reader Decoder → Result BlockHeader × Reader Decoder
  no_header got r =
      if (got == 0) && not r.file.failed
      then (err Error.fault, record r { eof_clean = true })
      else broken r

  -- The bytes that were read: a short read is no failure here.
  unfoldable pub read_raw : ℕ → Reader Decoder → Result Bytes × Reader Decoder
  read_raw n r =
      if not r.opened
      then (err Error.ebadf, r)
      else if ltb int_max n
      then (err Error.einval, r)
      else if n == 0
      then (ok [], r)
      else (ok (bytes_read n r), after_read n r)

  -- On a file that can be positioned: `Tell`, `ReadRaw`, `Seek` back.
  unfoldable pub peek : ℕ → Reader Decoder → Result Bytes × Reader Decoder
  peek n r =
      if not r.opened
      then (err Error.ebadf, record r { eof_clean = false })
      else if ltb int_max n
      then (err Error.einval, r)
      else if n == 0
      then (ok [], r)
      else let save = r.file.pos in
        let (got, r₁) = read_raw n r in (got, record r₁ { file = fseek save r₁.file })

  -- On a file that can be positioned.
  unfoldable pub seek : ℕ → Reader Decoder → Result (Unit {0}) × Reader Decoder
  seek n r =
      if not r.opened then (err Error.ebadf, r) else (ok tt, record r { file = fseek n r.file })

  -- `closed` is the answer of `fclose`; the codec is released either way.
  unfoldable pub close : Bool → Reader Decoder → Result (Unit {0}) × Reader Decoder
  close closed r =
      if not r.opened
      then (ok tt, r)
      else if closed
      then (ok tt, record r { opened = false; decode_offset = 0 })
      else (err Error.fault, record r { opened = false; decode_offset = 0 })

  unfoldable pub verify_physical_eof : Reader Decoder → Result (Unit {0}) × Reader Decoder
  verify_physical_eof r =
      if not r.opened || not r.tail_seen
      then (err Error.fault, record r { eof_clean = false })
      else if not r.eof_clean
      then (err Error.eproto, r)
      else let r₁ = after_read 1 r in
        if not (length (bytes_read 1 r) == 0)
        then (err Error.fault, record r₁ { eof_clean = false })
        else if r₁.file.failed || not r₁.file.at_eof
        then (err Error.fault, record r₁ { eof_clean = false })
        else (ok tt, r₁)

  unfoldable pub enable_checksums : Bool → Reader Decoder → Result (Unit {0}) × Reader Decoder
  enable_checksums enabled r =
      if not r.opened
      then (err Error.ebadf, r)
      else if same r.checksums enabled
      then (ok tt, r)
      else if not (r.block_index == 0)
      then (err Error.ebusy, r)
      else (ok tt, record r { checksums = enabled })

module _ {Encoder Decoder : Type 0} (z : Lz4 Encoder Decoder) where
  -- From the compressed bytes on: the ring wraps where less than a block is left.
  unfoldable pub decode :
      BlockHeader → Bytes → ℕ → Reader Decoder → Result BlockHeader × Reader Decoder
  decode hdr c stored r =
      let offset = ring_offset z r.decode_offset in
      let (s, d) = z.decompress r.dec offset c block_size in
      decoded hdr stored s (record r { decode_offset = offset; dec = d })

  -- The stored checksum, 0 where the stream has none.
  unfoldable pub read_checksum :
      BlockHeader → Bytes → Reader Decoder → Result BlockHeader × Reader Decoder
  read_checksum hdr c r =
      if not r.checksums
      then decode hdr c 0 r
      else if length (bytes_read 4 r) == 4
      then decode hdr c (le_value (bytes_read 4 r)) (after_read 4 r)
      else broken (after_read 4 r)

  unfoldable pub read_data : BlockHeader → Reader Decoder → Result BlockHeader × Reader Decoder
  read_data hdr r =
      if is_tail_mark hdr
      then (err Error.fault, record r { eof_clean = true; tail_seen = true })
      else if ltb compress_bound hdr.size
      then broken r
      else if length (bytes_read hdr.size r) == hdr.size
      then read_checksum hdr (bytes_read hdr.size r) (after_read hdr.size r)
      else broken (after_read hdr.size r)

  -- The block that `ReadBlock` points to is `block` of the new stream; a failure is NULL.
  unfoldable pub read_block : Reader Decoder → Result BlockHeader × Reader Decoder
  read_block r =
      if not r.opened
      then (err Error.ebadf, record r { eof_clean = false })
      else if not r.eof_clean
      then (err Error.eproto, r)
      else if r.tail_seen
      then (err Error.fault, r)
      else let r₁ = next_block r in
        let got = bytes_read header_length r₁ in
        let r₂ = after_read header_length r₁ in
        if length got == header_length
        then read_data (read_header got) r₂
        else no_header (length got) r₂
