-- ===== src/Core/Memory.antt =====
-- `Coredump::WriteLoads` and `Coredump::ReadLoads` (src/core.cc): the memory of the process, into the stream
-- and out of it.
pub mod Source
pub mod Limits
pub mod Image
pub mod Blocks
pub mod Dumped
pub mod Regions
pub mod Restored
pub mod Peeked
pub mod RoundTrip
pub mod Termination
pub mod Tests
use arthur.Base.{
  ℕ, zero, suc, ◌+◌, ◌*◌, ◌-◌, ◌%◌, ◌^◌, Bool, not, ◌||◌, ◌&&◌, if◌then◌else◌, ltb, ◌==◌, min,
}
use arthur.Base.{List, [], ◌∷◌, ◌++◌, Bytes, length, take, drop}
use arthur.Base.Files.{OutFile, fwrite}
use arthur.Base.Words.{add_size}
use arthur.Base.Results.{Result, Error, ok, err, and_then}
use arthur.Stream.BlockType
use arthur.Stream.Header.{block_size, read_header, header_length}
use arthur.Stream.Block
use arthur.Stream.Codec.{Lz4}
use arthur.Stream.Writer.{Writer, write_block, set_block}
use arthur.Stream.Reader.{Reader, read_block, peek}
use arthur.Core.Loads.{MemRegion, ProgramHeader, Loads, expected_load_phdrs, ssize_max}
use arthur.Core.Memory.Source.{Pread, Filled, fill_buffer}

abbrev pub buffer_size : ℕ
buffer_size = 1 * 1024 * 1024

-- The stream, what /proc/<pid>/mem answers, the member `_phdrs`, and `mem_size`.
pub record Dump (Encoder : Type 0) : Type 0 where
  pub out : Writer Encoder
  pub answers : List Pread
  pub phdrs : List ProgramHeader
  pub mem_size : ℕ

module _ {Encoder : Type 0} where
  abbrev pub on_out :
      {A : Type 0} → Result A × Writer Encoder → Dump Encoder → Result A × Dump Encoder
  on_out (res, w) st = (res, record st { out = w })

  -- Behind the loop over the addresses of a region.
  unfoldable pub end_region : ProgramHeader → ℕ → Dump Encoder → Result ℕ × Dump Encoder
  end_region ph size st =
      if not (size == ph.p_filesz)
      then (err Error.fault, st)
      else (ok size, record st { phdrs = st.phdrs ++ (ph ∷ []) })

  -- The checks behind the loop over the regions.
  unfoldable pub check_dump : ℕ → ℕ → Dump Encoder → Result (Unit {0}) × Dump Encoder
  check_dump expected_bytes file_size st =
      if not (file_size == expected_bytes) || st.mem_size == 0
      then (err Error.fault, st)
      else (ok tt, st)

module _ {Encoder Decoder : Type 0} (z : Lz4 Encoder Decoder) where
  -- The buffer, cut into blocks; `size` counts what was written.
  unfoldable pub write_buffer : ℕ → Bytes → ℕ → Writer Encoder → Result ℕ × Writer Encoder
  write_buffer fuel [] size w = (ok size, w)
  write_buffer zero (b ∷ s) size w = (err Error.out_of_fuel, w)
  write_buffer (suc fuel) (b ∷ s) size w =
      and_then (write_block z (take block_size (b ∷ s)) BlockType.loads w)
        λ n w'. write_buffer fuel (drop block_size (b ∷ s)) (add_size size n) w'

  module _ (memory : ℕ → ℕ) where
    abbrev pub dump_filled : Filled → ℕ → Dump Encoder → Result ℕ × Dump Encoder
    dump_filled b size st =
        let st' = record st { answers = b.answers; mem_size = add_size st.mem_size b.got } in
        if b.saw_eof
        then (err Error.fault, st')
        else on_out (write_buffer (length b.data_read) b.data_read size st'.out) st'

    unfoldable pub dump_buffer : ℕ → ℕ → ℕ → Dump Encoder → Result ℕ × Dump Encoder
    dump_buffer addr req size st = dump_filled (fill_buffer memory st.answers addr req) size st

    -- `for (addr = r.start_addr; addr < end_addr; addr += buf.size())`
    unfoldable pub dump_range : ℕ → ℕ → ℕ → ℕ → Dump Encoder → Result ℕ × Dump Encoder
    dump_range zero addr end_addr size st =
        if ltb addr end_addr then (err Error.out_of_fuel, st) else (ok size, st)
    dump_range (suc fuel) addr end_addr size st =
        let rest =
          and_then (dump_buffer addr (min (end_addr - addr) buffer_size) size st)
            λ size' st'. dump_range fuel (add_size addr buffer_size) end_addr size' st' in
        if ltb addr end_addr then rest else (ok size, st)

    -- A region: a round takes at least one byte of it.
    unfoldable pub dump_region : MemRegion → ProgramHeader → Dump Encoder → Result ℕ × Dump Encoder
    dump_region r ph st =
        and_then (dump_range ph.p_filesz r.start_addr (add_size r.start_addr ph.p_filesz) 0 st)
          (end_region ph)

    -- `for (auto &r : maps)`
    unfoldable pub dump_regions :
        List MemRegion → List ProgramHeader → ℕ → Dump Encoder → Result ℕ × Dump Encoder
    dump_regions [] [] file_size st = (ok file_size, st)
    dump_regions [] (ph ∷ phdrs) file_size st = (err Error.fault, st)
    dump_regions (r ∷ maps) [] file_size st = (err Error.fault, st)
    dump_regions (r ∷ maps) (ph ∷ phdrs) file_size st =
        and_then (dump_region r ph st)
          λ size st'. dump_regions maps phdrs (add_size file_size size) st'

    -- `expected_phdrs` and `expected_bytes` were computed, and `opened` is the success of `open`.
    abbrev pub dump_expected :
        Bool
        → List MemRegion
        → Result (Unit {0}) × Loads
        → Dump Encoder
        → Result (Unit {0}) × Dump Encoder
    dump_expected opened maps (err e, loads) st = (err Error.fault, st)
    dump_expected opened maps (ok _, loads) st =
        if length loads.phdrs == 0 || not opened
        then (err Error.fault, st)
        else and_then (on_out (set_block z BlockType.loads st.out) st) λ _ st₁.
          and_then (dump_regions maps loads.phdrs 0 (record st₁ { mem_size = 0 }))
            (check_dump loads.total_bytes)

    unfoldable pub write_loads :
        Bool → List MemRegion → Dump Encoder → Result (Unit {0}) × Dump Encoder
    write_loads opened maps st = dump_expected opened maps (expected_load_phdrs maps) st

-- Whether `Peek` saw the header of a LOADS block.
abbrev pub is_loads : Bytes → Bool
is_loads got = length got == header_length && (read_header got).block_type == BlockType.loads

-- The stream and the core file.
pub record Restore (Decoder : Type 0) : Type 0 where
  pub reader : Reader Decoder
  pub fout : OutFile

module _ {Decoder : Type 0} where
  abbrev pub on_reader :
      {A : Type 0} → Result A × Reader Decoder → Restore Decoder → Result A × Restore Decoder
  on_reader (res, r) st = (res, record st { reader = r })

  -- What of the current block was not read: `rBuf()` and `Size()`.
  abbrev pub unread : Reader Decoder → Bytes
  unread r = drop r.block.cur r.block.bytes

  -- The checks on a block, and its bytes into the core file.
  unfoldable pub put_loads : ℕ → ℕ → Restore Decoder → Result ℕ × Restore Decoder
  put_loads expected_bytes loads_size st =
      let size = Block.size st.reader.block in
      let (len, f) = fwrite (unread st.reader) st.fout in
      let st' = record st { fout = f } in
      if ltb expected_bytes loads_size || ltb (expected_bytes - loads_size) size
      then (err Error.fault, st)
      else if not (len == size)
      then (err Error.fault, st')
      else if ltb (ssize_max - loads_size) size
      then (err Error.fault, st')
      else (ok (loads_size + size), st')

module _ {Encoder Decoder : Type 0} (z : Lz4 Encoder Decoder) where
  -- `for (;;)`
  unfoldable pub read_loads_blocks : ℕ → ℕ → ℕ → Restore Decoder → Result ℕ × Restore Decoder
  read_loads_blocks zero expected_bytes loads_size st = (err Error.out_of_fuel, st)
  read_loads_blocks (suc fuel) expected_bytes loads_size st =
      and_then (on_reader (peek header_length st.reader) st) λ got st₁.
        if not (is_loads got)
        then (ok loads_size, st₁)
        else and_then (on_reader (read_block z st₁.reader) st₁) λ _ st₂.
          and_then (put_loads expected_bytes loads_size st₂)
            λ n st₃. read_loads_blocks fuel expected_bytes n st₃

  -- A block takes at least one byte of the file.
  unfoldable pub read_loads : ℕ → Restore Decoder → Result ℕ × Restore Decoder
  read_loads expected_bytes st =
      read_loads_blocks (length st.reader.file.content + 1) expected_bytes 0 st
