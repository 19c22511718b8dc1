-- ===== src/Stream/Writer.antt =====
-- `Lz4Stream` in mode LZ4_Compress (src/lz4.cc). Each method takes the stream and returns its result
-- with the new stream.
pub mod Effects
pub mod Blocks
pub mod Calls
pub mod Termination
use arthur.Base.{ℕ, zero, suc, ◌+◌, ◌*◌, ◌-◌, ◌^◌, Bool, true, false, not, ◌&&◌, ◌||◌, arith}
use arthur.Base.{if◌then◌else◌, ltb, leb, ◌==◌, same, Option, none, some, [], ◌∷◌, min}
use arthur.Base.{Bytes, length, take, drop}
use arthur.Base.Words.{add_size, le_bytes}
use arthur.Base.Files.{OutFile, fwrite}
use arthur.Base.Results.{Result, Error, ok, err, and_then}
use arthur.Stream.BlockType
use arthur.Stream.Header.{block_size, make_header, header_bytes, header_length, tail_mark}
use arthur.Stream.Block
use arthur.Stream.Block.{Block}
use arthur.Stream.Crc.{block_checksum}
use arthur.Stream.Codec.{Lz4, compress_bound}
use arthur.Stream.ProcFile.{ProcFile, serialized_size, memory_of, max_proc_file_size}

-- `opened` is `_file && _enc`: `Open` and `Close` set and clear both. `block` is
-- `_blocks[_block_index % 2]` and `spare` the other block of the ring.
pub record Writer (Encoder : Type 0) : Type 0 where
  pub opened : Bool
  pub file : OutFile
  pub enc : Encoder
  pub block : Block
  pub spare : Block
  pub block_index : ℕ
  pub block_type : ℕ
  pub size_real : ℕ
  pub size_file : ℕ
  pub checksums : Bool

abbrev pub int_max : ℕ
int_max = 2 ^ 31 - 1

module _ {Encoder : Type 0} where
  -- What `Open` leaves once `fopen` and the codec succeed, on the file that it opened and
  -- the encoder `init`.
  abbrev pub open_writer : Encoder → OutFile → Writer Encoder
  open_writer init f = record {
    opened = true;
    file = f;
    enc = init;
    block = Block.empty;
    spare = Block.empty;
    block_index = 0;
    block_type = BlockType.process;
    size_real = 0;
    size_file = 0;
    checksums = false;
  }

  -- `fwrite(bs, 1, n, _file) != n` is the failure of `Compress`.
  unfoldable pub put : Bytes → Writer Encoder → Result (Unit {0}) × Writer Encoder
  put bs w =
      let (n, f) = fwrite bs w.file in
      if n == length bs
      then (ok tt, record w { file = f })
      else (err Error.fault, record w { file = f })

  -- The end of `Compress`: the counters, `block.Clear()`, and `_block_index++`.
  unfoldable pub seal : ℕ → Writer Encoder → Result ℕ × Writer Encoder
  seal len w = (
    ok len,
    record w {
      size_real = add_size w.size_real (length w.block.bytes);
      size_file = add_size w.size_file (header_length + len + (if w.checksums then 4 else 0));
      block = w.spare;
      spare = Block.clear w.block;
      block_index = add_size w.block_index 1;
    },
  )

  -- The checksum behind the block, if the stream has them.
  unfoldable pub put_checksum : ℕ → ℕ → ℕ → Writer Encoder → Result (Unit {0}) × Writer Encoder
  put_checksum cont type len w =
      if w.checksums
      then put (le_bytes 4 (block_checksum (make_header cont type len) w.block.bytes)) w
      else (ok tt, w)

  -- What `Compress` does with the outcome of the codec.
  unfoldable pub store : ℕ → ℕ → Option Bytes → Writer Encoder → Result ℕ × Writer Encoder
  store cont type none w = (err Error.fault, w)
  store cont type (some c) w =
      and_then (put (header_bytes (make_header cont type (length c))) w) λ _ w₁.
        and_then (put c w₁)
          λ _ w₂. and_then (put_checksum cont type (length c) w₂) λ _ w₃. seal (length c) w₃

  -- `block.Write(s, n)` on the current block.
  unfoldable pub fill : Bytes → Writer Encoder → Result ℕ × Writer Encoder
  fill s w = let (r, b) = Block.write s w.block in (r, record w { block = b })

  -- `CurrentBlock().Clear()`
  abbrev pub clear_block : Writer Encoder → Writer Encoder
  clear_block w = record w { block = Block.clear w.block }

  -- `rc <= 0` after `Compress` is a failure of `WriteBlock`.
  abbrev pub some_bytes : Result ℕ × Writer Encoder → Result (Unit {0}) × Writer Encoder
  some_bytes (ok zero, w) = (err Error.fault, w)
  some_bytes (ok (suc n), w) = (ok tt, w)
  some_bytes (err e, w) = (err e, w)

  -- A short `fwrite` is no failure here: the number of bytes written is returned.
  unfoldable pub put_raw : Bytes → Writer Encoder → Result ℕ × Writer Encoder
  put_raw s w =
      let (n, f) = fwrite s w.file in
      (ok n, record w { file = f; size_file = add_size w.size_file n })

  unfoldable pub enable_checksums : Bool → Writer Encoder → Result (Unit {0}) × Writer Encoder
  enable_checksums enabled w =
      if not w.opened
      then (err Error.ebadf, w)
      else if same w.checksums enabled
      then (ok tt, w)
      else if not (w.block_index == 0) || not (Block.is_empty w.block)
      then (err Error.ebusy, w)
      else (ok tt, record w { checksums = enabled })

  -- A call that has to write exactly `n` bytes.
  abbrev pub expect : ℕ → Result ℕ × Writer Encoder → Result (Unit {0}) × Writer Encoder
  expect n (ok m, w) = if m == n then (ok tt, w) else (err Error.fault, w)
  expect n (err e, w) = (err e, w)

  -- Where the final `Flush` failed, `Close` goes on and fails. `closed` is the answer of `fclose`.
  abbrev pub closing :
      Bool → Result (Unit {0}) × Writer Encoder → Result (Unit {0}) × Writer Encoder
  closing true (ok _, w) = (ok tt, record w { opened = false })
  closing false (ok _, w) = (err Error.fault, record w { opened = false })
  closing closed (err e, w) = (err Error.fault, record w { opened = false })

module _ {Encoder Decoder : Type 0} (z : Lz4 Encoder Decoder) where
  -- `Compress(block, hdr)` on the current block, with the header's other fields.
  unfoldable pub compress : ℕ → ℕ → Writer Encoder → Result ℕ × Writer Encoder
  compress cont type w =
      if Block.is_empty w.block
      then (ok 0, w)
      else let (c, e) = z.compress w.enc w.block.bytes compress_bound in
        store cont type c (record w { enc = e })

  unfoldable pub flush : Writer Encoder → Result (Unit {0}) × Writer Encoder
  flush w =
      if not w.opened
      then (err Error.ebadf, w)
      else if w.file.failed
      then (err Error.eio, w)
      else if Block.is_empty w.block
      then (ok tt, w)
      else and_then (compress 0 w.block_type w) λ _ w'. (ok tt, w')

  -- The loop of `Write` for data of a block or more; `m` bytes are written and `s` is what is left.
  unfoldable pub write_pieces : ℕ → Bytes → ℕ → Writer Encoder → Result ℕ × Writer Encoder
  write_pieces fuel [] m w = (ok m, w)
  write_pieces zero (b ∷ s) m w = (err Error.out_of_fuel, w)
  write_pieces (suc fuel) (b ∷ s) m w =
      and_then (fill (take block_size (b ∷ s)) (clear_block w))
        λ n w₁. and_then (flush w₁) λ _ w₂. write_pieces fuel (drop n (b ∷ s)) (m + n) w₂

  unfoldable pub write : Bytes → Writer Encoder → Result ℕ × Writer Encoder
  write s w =
      if not w.opened
      then (err Error.ebadf, w)
      else if ltb int_max (length s)
      then (err Error.fault, w)
      else if length s == 0
      then (ok 0, w)
      else if w.file.failed
      then (err Error.eio, w)
      else if leb (length s) (Block.available w.block)
      then fill s w
      else and_then (flush w)
          λ _ w₁. if ltb (length s) block_size then fill s w₁ else write_pieces (length s) s 0 w₁

  -- The loop of `WriteBlock`; `cont` is the header's `prev_cont`, set after the first block.
  unfoldable pub write_blocks : ℕ → Bytes → ℕ → ℕ → ℕ → Writer Encoder → Result ℕ × Writer Encoder
  write_blocks fuel [] type cont m w = (ok m, w)
  write_blocks zero (b ∷ s) type cont m w = (err Error.out_of_fuel, w)
  write_blocks (suc fuel) (b ∷ s) type cont m w =
      and_then (fill (take block_size (b ∷ s)) (clear_block w)) λ n w₁.
        and_then (some_bytes (compress cont type w₁))
          λ _ w₂. write_blocks fuel (drop n (b ∷ s)) type 1 (m + n) w₂

  unfoldable pub write_block : Bytes → ℕ → Writer Encoder → Result ℕ × Writer Encoder
  write_block s type w =
      if leb BlockType.max type
      then (err Error.einval, w)
      else if not w.opened
      then (err Error.ebadf, w)
      else if ltb int_max (length s)
      then (err Error.fault, w)
      else and_then (flush w) λ _ w₁. write_blocks (length s) s type 0 0 w₁

  unfoldable pub write_raw : Bytes → Writer Encoder → Result ℕ × Writer Encoder
  write_raw s w =
      if not w.opened
      then (err Error.ebadf, w)
      else if ltb int_max (length s)
      then (err Error.einval, w)
      else if length s == 0
      then (ok 0, w)
      else if w.file.failed
      then (err Error.eio, w)
      else if Block.is_empty w.block
      then put_raw s w
      else and_then (flush w) λ _ w₁. put_raw s w₁

  unfoldable pub set_block : ℕ → Writer Encoder → Result (Unit {0}) × Writer Encoder
  set_block type w =
      if leb BlockType.max type
      then (err Error.einval, w)
      else if not w.opened
      then (err Error.ebadf, w)
      else if not (type == w.block_type) && not (Block.is_empty w.block)
      then (and_then (flush w) λ _ w₁. (ok tt, record w₁ { block_type = type }))
      else (ok tt, record w { block_type = type })

  -- The limits on `serialized_size` in the order of the code.
  unfoldable pub put_file : ProcFile → Writer Encoder → Result ℕ × Writer Encoder
  put_file pf w =
      if not w.opened
      then (err Error.ebadf, w)
      else if ltb (2 ^ 64 - 1 - 9) pf.f_size
      then (err Error.eoverflow, w)
      else if ltb (2 ^ 32 - 1) (serialized_size pf) || ltb int_max (serialized_size pf)
      then (err Error.eoverflow, w)
      else if ltb max_proc_file_size (serialized_size pf)
      then (err Error.efbig, w)
      else and_then (flush w) λ _ w₁.
        and_then (expect 4 (write_raw (le_bytes 4 (serialized_size pf)) w₁))
          λ _ w₂. write_block (take (serialized_size pf) (memory_of pf)) BlockType.file w₂

  -- `Coredump::WriteTailMark` (src/core.cc)
  unfoldable pub write_tail_mark : Writer Encoder → Result (Unit {0}) × Writer Encoder
  write_tail_mark w = expect 3 (write_raw (header_bytes tail_mark) w)

  -- What `fflush` and `fsync` answer are arguments.
  unfoldable pub sync : Bool → Bool → Writer Encoder → Result (Unit {0}) × Writer Encoder
  sync flushed synced w =
      if not w.opened
      then (err Error.ebadf, w)
      else and_then (flush w)
          λ _ w'. if flushed && synced then (ok tt, w') else (err Error.fault, w')

  unfoldable pub close : Bool → Writer Encoder → Result (Unit {0}) × Writer Encoder
  close closed w = if not w.opened then (ok tt, w) else closing closed (flush w)
