-- ===== src/Core/Tests.antt =====
-- The file header and the program headers at concrete inputs, over a codec that copies.
use arthur.Base.{◌≡◌, refl, arith, true, false, [], ◌∷◌, ◌++◌}
use arthur.Base.Files.{OutFile}
use arthur.Base.Results.{ok, err, Error}
use arthur.Base.{get_or, ◌^◌, All}
use arthur.Core.Loads.{MemRegion, Loads, load_phdr, expected_load_phdrs}
use arthur.Core.Loads.Layout.{IsRange, expected_load_phdrs_fits, expected_load_phdrs_overflow}
use arthur.Base.Words.{le_bytes}
use arthur.Stream.Writer
use arthur.Stream.Writer.{Writer}
use arthur.Stream.Reader
use arthur.Stream.Reader.{Reader}
use arthur.Stream.Reader.Files.{Caught}
use arthur.Stream.Tests.Plain.{plain, plain_laws}
use arthur.Core.FileHeader.{
  acore_version, arch_aarch64, meta_bytes, write_file_header, verify_file_header,
}
use arthur.Core.FileHeader.RoundTrip.{at_start, header, verify_file_header-write_file_header}

abbrev new_file : OutFile
new_file = record { written = []; room = 100; failed = false }

-- The magic bytes, and version 6 for the architecture 1.
header_value : header arch_aarch64 ≡ 65 ∷ 82 ∷ 84 ∷ 72 ∷ 85 ∷ 82 ∷ 6 ∷ 16 ∷ []
unfolding meta_bytes le_bytes
header_value = refl

verify_file_header-write_file_header_example :
    (w : Writer (Unit {0})) × (r : Reader (Unit {0})) × (write_file_header plain arch_aarch64
        (Writer.open_writer tt new_file)
      ≡ (ok tt, w))
    × (verify_file_header (Reader.open_reader tt (at_start (w.file.written ++ (1 ∷ 2 ∷ [])) false))
        ≡ (ok (record { arch = arch_aarch64; version = acore_version }), r))
    × Caught plain_laws w.enc true (1 ∷ 2 ∷ []) r
    × (w.checksums ≡ true)
verify_file_header-write_file_header_example =
    verify_file_header-write_file_header plain_laws arch_aarch64 new_file (1 ∷ 2 ∷ []) false
      (omega arith) refl refl (omega arith)

abbrev text_region : MemRegion
text_region = record {
  start_addr = 4096;
  end_addr = 12288;
  offset = 0;
  dev_major = 8;
  dev_minor = 1;
  inode = 42;
  perms = 5;
  is_private = 1;
  is_shared = 0;
  name = [];
}

-- A guard region without permissions.
abbrev guard_region : MemRegion
guard_region = record text_region { start_addr = 12288; end_addr = 16384; perms = 0 }

abbrev stack_region : MemRegion
stack_region = record text_region { start_addr = 16384; end_addr = 20480; perms = 6 }

three_ranges : All IsRange (text_region ∷ guard_region ∷ stack_region ∷ [])
three_ranges = (
  record { ordered = omega arith; end_fits = omega arith },
  (
    record { ordered = omega arith; end_fits = omega arith },
    (record { ordered = omega arith; end_fits = omega arith }, tt),
  ),
)

expected_load_phdrs_fits_example :
    (out : Loads) × (expected_load_phdrs (text_region ∷ guard_region ∷ stack_region ∷ [])
      ≡ (ok tt, out))
    × (get_or out.phdrs 2 (load_phdr 0 text_region) ≡ record {
      p_type = 1;
      p_flags = 6;
      p_offset = 8192;
      p_vaddr = 16384;
      p_paddr = 0;
      p_filesz = 4096;
      p_memsz = 4096;
      p_align = 1;
    })
    × (out.total_bytes ≡ 12288)
expected_load_phdrs_fits_example =
    expected_load_phdrs_fits (text_region ∷ guard_region ∷ []) [] stack_region
      (load_phdr 0 text_region) three_ranges (omega arith)

-- Two of these are one byte more than can be stored.
abbrev half_region : MemRegion
half_region = record text_region { start_addr = 0; end_addr = 2 ^ 62 }

expected_load_phdrs_overflow_example :
    (expected_load_phdrs (half_region ∷ half_region ∷ [])).0 ≡ err Error.fault
expected_load_phdrs_overflow_example =
    expected_load_phdrs_overflow (half_region ∷ half_region ∷ []) (omega arith)
