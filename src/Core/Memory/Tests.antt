-- ===== src/Core/Memory/Tests.antt =====
-- The memory of a small process, into a stream and back, over a codec that copies.
use arthur.Base.{
  ℕ, ◌%◌, ◌≡◌, refl, arith, true, false, List, [], ◌∷◌, ◌++◌, Bytes, length, drop, All,
}
use arthur.Base.Words.{IsByte}
use arthur.Base.Results.{ok, Ends}
use arthur.Stream.Writer.{
  open_writer, set_block, write_block, write_blocks, flush, compress, fill, store, put,
  put_checksum, seal,
}
use arthur.Stream.Writer.Calls.{IsWriting}
use arthur.Stream.Reader.{open_reader}
use arthur.Stream.Reader.Files.{Caught}
use arthur.Stream.Tests.Plain.{plain, plain_laws}
use arthur.Core.Loads.{MemRegion, add_phdrs, expected_load_phdrs}
use arthur.Base.Words.{le_bytes}
use arthur.Base.Files.{fwrite}
use arthur.Stream.Block
use arthur.Stream.Header.{header_bytes}
use arthur.Core.Loads.Layout.{laid_out}
use arthur.Core.Memory.Source.{stretch, signalled, refused, fill_buffer, bytes_at, zeros}
use arthur.Core.Memory.{
  Dump, Restore, write_loads, read_loads, dump_regions, dump_region, dump_range, dump_buffer,
  write_buffer, end_region, check_dump,
}
use arthur.Core.Memory.Image.{Refuses}
use arthur.Core.Memory.Limits.{Outcome, read_loads-Outcome}
use arthur.Core.Memory.Regions.{IsDump}
use arthur.Core.Memory.RoundTrip.{IsRegion, read_loads-write_loads}
use arthur.Core.Memory.Termination.{write_loads-Ends}

-- The byte at each address.
abbrev low_bytes : ℕ → ℕ
low_bytes a = a % 256

low_bytes-IsByte : (a : ℕ) → IsByte (low_bytes a)
low_bytes-IsByte a = omega arith

abbrev region : ℕ → ℕ → MemRegion
region from to = record {
  start_addr = from;
  end_addr = to;
  offset = 0;
  dev_major = 0;
  dev_minor = 0;
  inode = 0;
  perms = 6;
  is_private = 1;
  is_shared = 0;
  name = [];
}

abbrev maps : List MemRegion
maps = region 16 19 ∷ region 32 34 ∷ []

maps-IsRegion : All IsRegion maps
maps-IsRegion = ((omega arith, omega arith), ((omega arith, omega arith), tt))

-- The first region is read in two stretches, and the second is refused behind its first byte.
abbrev starting : Dump (Unit {0})
starting = record {
  out = open_writer tt (record { written = []; room = 1000; failed = false });
  answers = stretch 2 ∷ signalled ∷ stretch 9 ∷ stretch 1 ∷ refused ∷ [];
  phdrs = [];
  mem_size = 0;
}

abbrev ended : Dump (Unit {0})
ended = record {
  out =
      record (open_writer tt (record {
        written = 104 ∷ 0 ∷ 0 ∷ 16 ∷ 17 ∷ 18 ∷ 72 ∷ 0 ∷ 0 ∷ 32 ∷ 0 ∷ [];
        room = 989;
        failed = false;
      })) { block_index = 2; block_type = 4; size_real = 5; size_file = 11 };
  answers = [];
  phdrs = laid_out 0 maps;
  mem_size = 4;
}

ran : write_loads plain low_bytes true maps starting ≡ (ok tt, ended)
unfolding write_loads expected_load_phdrs add_phdrs set_block dump_regions dump_region dump_range
    dump_buffer fill_buffer bytes_at zeros write_buffer write_block flush write_blocks compress fill
    store put put_checksum seal Block.write header_bytes le_bytes fwrite end_region check_dump
ran = refl

-- A core file, and a reader at the start of the stream.
abbrev restoring : Restore (Unit {0})
restoring = record {
  reader = open_reader tt (record {
    content = ended.out.file.written;
    pos = 0;
    broken = false;
    at_eof = false;
    failed = false;
  });
  fout = record { written = 7 ∷ []; room = 100; failed = false };
}

restoring-Caught :
    Caught plain_laws starting.out.enc starting.out.checksums
      (drop (length starting.out.file.written) ended.out.file.written ++ [])
      restoring.reader
restoring-Caught = record {
  reading = record { is_open = refl; clean = refl; before_tail = refl };
  next = refl;
  synced = plain_laws.synced_init;
  checksums = refl;
}

starting-IsWriting : IsWriting starting.out
starting-IsWriting = record { is_open = refl; ring = refl; at_start = refl; sound = refl }

read_loads-write_loads_example :
    (s : Bytes) × IsDump (Refuses starting.answers) low_bytes maps (laid_out 0 maps) s
    × (rd' : Restore (Unit {0})) × (read_loads plain 5 restoring ≡ (ok 5, rd'))
    × (rd'.fout.written ≡ (7 ∷ []) ++ s)
    × Caught plain_laws ended.out.enc ended.out.checksums [] rd'.reader
read_loads-write_loads_example =
    read_loads-write_loads plain_laws low_bytes true maps starting ended restoring []
      low_bytes-IsByte maps-IsRegion (omega arith) starting-IsWriting refl ran refl (omega arith)
      restoring-Caught

write_loads-Ends_example : Ends (write_loads plain low_bytes true maps starting)
write_loads-Ends_example = write_loads-Ends plain low_bytes true maps starting maps-IsRegion

read_loads-Outcome_example : Outcome (7 ∷ []) 4 (read_loads plain 4 restoring)
read_loads-Outcome_example = read_loads-Outcome plain 4 restoring (omega arith)
