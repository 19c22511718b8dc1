-- ===== src/Stream/Reader/GetFile.antt =====
-- `Lz4Stream::GetFile` (src/lz4.cc).
use arthur.Base.{ℕ, zero, suc, ◌+◌, ◌-◌, false, not}
use arthur.Base.{if◌then◌else◌, ltb, leb, ◌==◌, same, Option, none, some, [], ◌∷◌, ◌++◌}
use arthur.Base.{Bytes, length}
use arthur.Base.Words.{le_value}
use arthur.Base.Results.{Result, Error, ok, err, and_then}
use arthur.Stream.BlockType
use arthur.Stream.Header.{BlockHeader}
use arthur.Stream.Block
use arthur.Stream.Block.{Block}
use arthur.Stream.Codec.{Lz4}
use arthur.Stream.ProcFile.{ProcFile, of_memory, proc_header, max_proc_file_size}
use arthur.Stream.Reader.{Reader, read_raw, read_block}

module _ {Decoder : Type 0} where
  abbrev pub corrupt : {A : Type 0} → Reader Decoder → Result A × Reader Decoder
  corrupt r = (err Error.fault, r)

  -- The bytes that a block gave; nothing, or a failure, ends the loop of `GetFile`.
  abbrev pub copied : Reader Decoder → Result Bytes × Block → Result (Option Bytes) × Reader Decoder
  copied r (ok [], b) = (ok none, record r { block = b })
  copied r (ok (x ∷ s), b) = (ok (some (x ∷ s)), record r { block = b })
  copied r (err e, b) = (ok none, record r { block = b })

  -- The checks of `GetFile` on one block, behind the bytes in `got`, and the copy of its bytes.
  unfoldable pub take_piece :
      ℕ → Bytes → BlockHeader → Reader Decoder → Result (Option Bytes) × Reader Decoder
  take_piece size got hdr r =
      if not (hdr.block_type == BlockType.file)
      then corrupt r
      else if not (same (not (hdr.prev_cont == 0)) (not (length got == 0)))
      then corrupt r
      else if ltb (size - length got) (Block.size r.block)
      then corrupt r
      else copied r (Block.read (Block.size r.block) r.block)

  -- The loop of `GetFile`, with `break` where it hands back what it has. `again` is the next round.
  abbrev pub next_piece :
      (Bytes → Reader Decoder → Result Bytes × Reader Decoder)
      → Bytes
      → Result (Option Bytes) × Reader Decoder
      → Result Bytes × Reader Decoder
  next_piece again got (ok none, r) = (ok got, r)
  next_piece again got (ok (some s), r) = again (got ++ s) r
  next_piece again got (err e, r) = (err e, r)

  abbrev pub piece :
      (Bytes → Reader Decoder → Result Bytes × Reader Decoder)
      → ℕ
      → Bytes
      → Result BlockHeader × Reader Decoder
      → Result Bytes × Reader Decoder
  piece again size got (ok hdr, r) = next_piece again got (take_piece size got hdr r)
  piece again size got (err e, r) = (ok got, r)

  -- The checks of `GetFile` on the bytes of the whole file.
  unfoldable pub check_file : ℕ → Bytes → Reader Decoder → Result ProcFile × Reader Decoder
  check_file size got r =
      let pf = of_memory got in
      if not (length got == size)
      then corrupt r
      else if not (size == proc_header + pf.f_size)
      then corrupt r
      else (ok (record pf { f_size = size - proc_header }), r)

module _ {Encoder Decoder : Type 0} (z : Lz4 Encoder Decoder) where
  unfoldable pub read_pieces : ℕ → ℕ → Bytes → Reader Decoder → Result Bytes × Reader Decoder
  read_pieces zero size got r =
      if leb size (length got) then (ok got, r) else (err Error.out_of_fuel, r)
  read_pieces (suc fuel) size got r =
      if leb size (length got)
      then (ok got, r)
      else piece (read_pieces fuel size) size got (read_block z r)

  unfoldable pub get_sized : ℕ → Reader Decoder → Result ProcFile × Reader Decoder
  get_sized size r =
      if ltb max_proc_file_size size
      then corrupt r
      else if ltb size proc_header
      then corrupt r
      else and_then (read_pieces size size [] r) λ got r'. check_file size got r'

  unfoldable pub get_file : Reader Decoder → Result ProcFile × Reader Decoder
  get_file r =
      if not r.opened
      then (err Error.ebadf, record r { eof_clean = false })
      else and_then (read_raw 4 r)
          λ got r₁. if length got == 4 then get_sized (le_value got) r₁ else corrupt r₁
