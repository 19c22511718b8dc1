-- ===== src/Core/Elf/Output.antt =====
-- Both `Coredump::WriteElfHeader` (src/core.cc): into the compressing stream, and into the core file.
use arthur.Base.{ℕ, ◌+◌, ◌^◌, not, if◌then◌else◌, leb, ◌==◌}
use arthur.Base.{List, [], ◌∷◌, Bytes, length}
use arthur.Base.Files.{OutFile, fwrite}
use arthur.Base.Results.{Result, Error, ok, err, and_then}
use arthur.Stream.BlockType
use arthur.Stream.Writer
use arthur.Stream.Writer.{Writer}
use arthur.Stream.Codec.{Lz4}
use arthur.Proc.Text.{ℤ, pos, negsuc}
use arthur.Core.Loads.{ProgramHeader, pt_load}
use arthur.Core.Elf.{make_ehdr, ehdr_bytes, phdr_bytes}

-- PN_XNUM, which no count of program headers may reach
abbrev pub pn_xnum : ℕ
pn_xnum = 0xffff

module _ {Encoder Decoder : Type 0} (z : Lz4 Encoder Decoder) where
  unfoldable pub write_phdrs :
      List ProgramHeader → Writer Encoder → Result (Unit {0}) × Writer Encoder
  write_phdrs [] w = (ok tt, w)
  write_phdrs (phdr ∷ phdrs) w =
      and_then (Writer.write z (phdr_bytes phdr) w) λ _ w'. write_phdrs phdrs w'

  -- `machine` is the one that the program was built for.
  unfoldable pub write_elf_header :
      ℕ → List ProgramHeader → Writer Encoder → Result (Unit {0}) × Writer Encoder
  write_elf_header machine phdrs w =
      if leb pn_xnum (length phdrs)
      then (err Error.fault, w)
      else and_then (Writer.set_block z BlockType.elf w) λ _ w₁.
        and_then (Writer.write z (ehdr_bytes (make_ehdr machine (length phdrs))) w₁)
          λ _ w₂. and_then (write_phdrs phdrs w₂) λ _ w₃. Writer.flush z w₃

-- `fwrite(p, 1, n, fout)` where a short write is a failure.
unfoldable pub write_all : Bytes → OutFile → Result ℕ × OutFile
write_all s f =
    let (len, f') = fwrite s f in
    if not (len == length s) then (err Error.fault, f') else (ok len, f')

-- The offset of stored bytes moves to where they stand in the core file. `offset_load` is the member
-- `_offset_load`, an `off_t`.
unfoldable pub place : ℤ → ProgramHeader → Result ProgramHeader
place (negsuc n) phdr = if phdr.p_type == pt_load then err Error.fault else ok phdr
place (pos offset_load) phdr =
    if phdr.p_type == pt_load
    then (if leb (2 ^ 64) (phdr.p_offset + offset_load)
        then err Error.fault
        else ok (record phdr { p_offset = phdr.p_offset + offset_load }))
    else ok phdr

unfoldable pub place_phdrs : ℤ → List ProgramHeader → ℕ → OutFile → Result ℕ × OutFile
place_phdrs offset_load [] rc f = (ok rc, f)
place_phdrs offset_load (phdr ∷ phdrs) rc f =
    and_then (place offset_load phdr, f)
      λ placed f.
        and_then (write_all (phdr_bytes placed) f)
          λ len f. place_phdrs offset_load phdrs (rc + len) f

-- The bytes written.
unfoldable pub write_core_header : ℕ → ℤ → List ProgramHeader → OutFile → Result ℕ × OutFile
write_core_header machine offset_load phdrs f =
    if leb pn_xnum (length phdrs)
    then (err Error.fault, f)
    else and_then (write_all (ehdr_bytes (make_ehdr machine (length phdrs))) f)
        λ len f'. place_phdrs offset_load phdrs len f'
