-- ===== src/Core/Elf/Input.antt =====
-- `Coredump::ReadElfHeader` (src/core.cc).
use arthur.Base.{ℕ, zero, suc, ◌+◌, Bool, not, ◌&&◌, ◌||◌, if◌then◌else◌, leb, ◌==◌}
use arthur.Base.{List, [], ◌∷◌, ◌++◌, Bytes, length, take}
use arthur.Base.Results.{Result, Error, ok, err, and_then}
use arthur.Stream.BlockType
use arthur.Stream.Header.{BlockHeader, read_header, header_length}
use arthur.Stream.Block
use arthur.Stream.Reader.{Reader, read_block, peek}
use arthur.Stream.Codec.{Lz4}
use arthur.Core.FileHeader.{arch_x64, arch_aarch64, same_bytes}
use arthur.Core.Loads.{ProgramHeader, pt_load}
use arthur.Core.Elf.{
  ElfHeader, elf_magic, em_x86_64, em_aarch64, ehdr_size, phdr_size, ehdr_of, phdr_of,
}

-- The stream, and the members `_ehdr` and `_phdrs`.
pub record ElfInput (Decoder : Type 0) : Type 0 where
  pub reader : Reader Decoder
  pub ehdr : ElfHeader
  pub phdrs : List ProgramHeader

-- The layout of the header that a core file must have.
unfoldable pub is_core_layout : ElfHeader → Bool
is_core_layout e =
    same_bytes (take 7 e.e_ident) elf_magic
    && (e.e_type == 4
        && (e.e_version == 1
            && (e.e_phoff == ehdr_size
                && (e.e_ehsize == ehdr_size
                    && (e.e_phentsize == phdr_size && (e.e_shoff == 0 && e.e_shnum == 0))))))

unfoldable pub is_other_machine : ℕ → ElfHeader → Bool
is_other_machine arch e =
    (arch == arch_x64 && not (e.e_machine == em_x86_64))
    || (arch == arch_aarch64 && not (e.e_machine == em_aarch64))

module _ {Decoder : Type 0} where
  -- A call on the current block, with its object put back.
  abbrev pub on_block :
      {A : Type 0} → Result A × Block.Block → ElfInput Decoder → Result A × ElfInput Decoder
  on_block (res, block) st = (res, record st { reader = record st.reader { block = block } })

  -- A call on the stream.
  abbrev pub on_stream :
      {A : Type 0} → Result A × Reader Decoder → ElfInput Decoder → Result A × ElfInput Decoder
  on_stream (res, r) st = (res, record st { reader = r })

  unfoldable pub push_phdr : ProgramHeader → ElfInput Decoder → Result (Unit {0}) × ElfInput Decoder
  push_phdr phdr st =
      if not (phdr.p_type == pt_load)
      then (err Error.fault, st)
      else (ok tt, record st { phdrs = st.phdrs ++ (phdr ∷ []) })

  -- One round over a block that is not read to its end.
  unfoldable pub read_phdr : ℕ → ElfInput Decoder → Result (Unit {0}) × ElfInput Decoder
  read_phdr max_phdrs st =
      if leb max_phdrs (length st.phdrs)
      then (err Error.fault, st)
      else and_then (on_block (Block.read phdr_size st.reader.block) st)
          λ bs st'. push_phdr (phdr_of bs) st'

  -- `while (block->Size() > 0)`
  unfoldable pub read_phdrs : ℕ → ℕ → ElfInput Decoder → Result (Unit {0}) × ElfInput Decoder
  read_phdrs zero max_phdrs st =
      if Block.size st.reader.block == 0 then (ok tt, st) else (err Error.out_of_fuel, st)
  read_phdrs (suc fuel) max_phdrs st =
      let rest = and_then (read_phdr max_phdrs st) λ _ st'. read_phdrs fuel max_phdrs st' in
      if Block.size st.reader.block == 0 then (ok tt, st) else rest

  -- The checks on the header of the first block, and on `_ehdr`.
  unfoldable pub check_first : BlockHeader → ElfInput Decoder → Result (Unit {0}) × ElfInput Decoder
  check_first hdr st =
      if not (hdr.block_type == BlockType.elf) || not (hdr.prev_cont == 0)
      then (err Error.fault, st)
      else (ok tt, st)

  unfoldable pub take_ehdr : ℕ → Bytes → ElfInput Decoder → Result (Unit {0}) × ElfInput Decoder
  take_ehdr arch bs st =
      let st' = record st { ehdr = ehdr_of bs } in
      if is_other_machine arch (ehdr_of bs) || not (is_core_layout (ehdr_of bs))
      then (err Error.fault, st')
      else (ok tt, st')

module _ {Encoder Decoder : Type 0} (z : Lz4 Encoder Decoder) where
  -- Behind a block: whether an ELF block follows.
  abbrev pub another : Bytes → Bool
  another got = length got == header_length && (read_header got).block_type == BlockType.elf

  -- `while (block)`
  unfoldable pub read_elf_blocks : ℕ → ℕ → ElfInput Decoder → Result (Unit {0}) × ElfInput Decoder
  read_elf_blocks zero max_phdrs st = (err Error.out_of_fuel, st)
  read_elf_blocks (suc fuel) max_phdrs st =
      and_then (read_phdrs (Block.size st.reader.block) max_phdrs st) λ _ st₁.
        and_then (on_stream (peek header_length st₁.reader) st₁) λ got st₂.
          if not (another got)
          then (ok tt, st₂)
          else and_then (on_stream (read_block z st₂.reader) st₂)
              λ _ st₃. read_elf_blocks fuel max_phdrs st₃

  -- A block takes at least one byte of the file.
  unfoldable pub read_elf_header : ℕ → ℕ → ElfInput Decoder → Result (Unit {0}) × ElfInput Decoder
  read_elf_header arch max_phdrs st = and_then (on_stream (read_block z st.reader) st) λ hdr st₁.
      and_then (check_first hdr st₁) λ _ st₂.
        and_then (on_block (Block.read ehdr_size st₂.reader.block) st₂) λ bs st₃.
          and_then (take_ehdr arch bs st₃)
            λ _ st₄. read_elf_blocks (length st.reader.file.content + 1) max_phdrs st₄
