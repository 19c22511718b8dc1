-- ===== src/Core/Elf/Tests.antt =====
-- ELF headers at concrete inputs, over a codec that copies.
use arthur.Base.{◌≡◌, refl, arith, false, [], ◌∷◌, ◌++◌, Bytes}
use arthur.Base.Files.{OutFile}
use arthur.Base.Results.{ok}
use arthur.Stream.Writer
use arthur.Stream.Reader
use arthur.Stream.Tests.Plain.{plain}
use arthur.Proc.Text.{pos}
use arthur.Core.FileHeader.{arch_aarch64}
use arthur.Core.FileHeader.RoundTrip.{at_start}
use arthur.Core.Loads.{ProgramHeader}
use arthur.Core.Elf.{em_aarch64, make_ehdr, ehdr_bytes}
use arthur.Core.Elf.Output.{write_elf_header, write_core_header}
use arthur.Core.Elf.Layout.{extended, placed_bytes, write_core_header-placed_bytes}
use arthur.Core.Elf.Input.{ElfInput, read_elf_header}
use arthur.Base.Results.{Ends}
use arthur.Core.Elf.Termination.{read_elf_header-Ends}
use arthur.Core.Elf.Accepted.{Outcome, IsAccepted, read_elf_header-Outcome}

abbrev text_phdr : ProgramHeader
text_phdr = record {
  p_type = 1;
  p_flags = 5;
  p_offset = 0;
  p_vaddr = 4194304;
  p_paddr = 0;
  p_filesz = 4096;
  p_memsz = 4096;
  p_align = 1;
}

abbrev new_file : OutFile
new_file = record { written = []; room = 1000; failed = false }

write_core_header-placed_bytes_example :
    write_core_header em_aarch64 (pos 200) (text_phdr ∷ []) new_file ≡ (
      ok 120,
      extended new_file (ehdr_bytes (make_ehdr em_aarch64 1) ++ placed_bytes 200 (text_phdr ∷ [])),
    )
write_core_header-placed_bytes_example =
    write_core_header-placed_bytes em_aarch64 200 (text_phdr ∷ []) new_file (omega arith)
      (omega arith, tt) (omega arith)

-- The blocks that the writer makes of the headers.
abbrev elf_blocks : Bytes
elf_blocks =
    (write_elf_header plain em_aarch64 (text_phdr ∷ [])
      (Writer.open_writer tt new_file)).1.file.written

abbrev elf_input : ElfInput (Unit {0})
elf_input = record {
  reader = Reader.open_reader tt (at_start elf_blocks false);
  ehdr = make_ehdr 0 0;
  phdrs = [];
}

read_elf_header-Outcome_example :
    Outcome 5 (IsAccepted arch_aarch64 5) (read_elf_header plain arch_aarch64 5 elf_input)
read_elf_header-Outcome_example = read_elf_header-Outcome plain arch_aarch64 5 elf_input refl

read_elf_header-Ends_example : Ends (read_elf_header plain arch_aarch64 5 elf_input)
read_elf_header-Ends_example = read_elf_header-Ends plain arch_aarch64 5 elf_input (omega arith)
