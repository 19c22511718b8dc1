-- ===== src/Core/Elf.antt =====
-- `Elf64_Ehdr` and `Elf64_Phdr` (src/elf.h), and both `WriteElfHeader` and `ReadElfHeader` of `Coredump`
-- (src/core.cc).
pub mod Images
pub mod Output
pub mod Layout
pub mod Input
pub mod Accepted
pub mod Termination
mod Tests
use arthur.Base.{
  ℕ, zero, suc, ◌+◌, ◌*◌, ◌^◌, ◌-◌, Bool, true, false, not, ◌&&◌, ◌||◌, if◌then◌else◌, ltb, leb,
  ◌==◌,
}
use arthur.Base.{Option, none, some, List, [], ◌∷◌, ◌++◌, Bytes, length, take, drop, get_or}
use arthur.Base.Words.{le_bytes, le_value}
use arthur.Base.Files.{OutFile, fwrite}
use arthur.Base.Results.{Result, Error, ok, err, and_then}
use arthur.Stream.BlockType
use arthur.Stream.Header.{BlockHeader, read_header, header_length}
use arthur.Stream.Block
use arthur.Stream.Writer
use arthur.Stream.Writer.{Writer}
use arthur.Stream.Reader
use arthur.Stream.Reader.{Reader, read_block, peek}
use arthur.Stream.Codec.{Lz4}
use arthur.Core.FileHeader.{arch_x64, arch_aarch64, same_bytes}
use arthur.Core.Loads.{ProgramHeader, pt_load}

pub record ElfHeader : Type 0 where
  pub e_ident : Bytes
  pub e_type : ℕ
  pub e_machine : ℕ
  pub e_version : ℕ
  pub e_entry : ℕ
  pub e_phoff : ℕ
  pub e_shoff : ℕ
  pub e_flags : ℕ
  pub e_ehsize : ℕ
  pub e_phentsize : ℕ
  pub e_phnum : ℕ
  pub e_shentsize : ℕ
  pub e_shnum : ℕ
  pub e_shstrndx : ℕ

abbrev pub em_x86_64 : ℕ
em_x86_64 = 62

abbrev pub em_aarch64 : ℕ
em_aarch64 = 183

-- EI_MAG0 to EI_VERSION: the magic bytes, ELFCLASS64, ELFDATA2LSB and EV_CURRENT.
abbrev pub elf_magic : Bytes
elf_magic = 0x7f ∷ b'E' ∷ b'L' ∷ b'F' ∷ 2 ∷ 1 ∷ 1 ∷ []

abbrev pub ehdr_size : ℕ
ehdr_size = 64

abbrev pub phdr_size : ℕ
phdr_size = 56

-- The constructor of `Elf64_Ehdr`, with the two members that the writers set. ELFOSABI_LINUX is 3, and ET_CORE is 4.
abbrev pub make_ehdr : ℕ → ℕ → ElfHeader
make_ehdr machine phnum = record {
  e_ident = elf_magic ++ (3 ∷ 0 ∷ 0 ∷ 0 ∷ 0 ∷ 0 ∷ 0 ∷ 0 ∷ 0 ∷ []);
  e_type = 4;
  e_machine = machine;
  e_version = 1;
  e_entry = 0;
  e_phoff = 64;
  e_shoff = 0;
  e_flags = 0;
  e_ehsize = ehdr_size;
  e_phentsize = phdr_size;
  e_phnum = phnum;
  e_shentsize = 64;
  e_shnum = 0;
  e_shstrndx = 0;
}

-- The objects in memory.
unfoldable pub ehdr_bytes : ElfHeader → Bytes
ehdr_bytes e =
    e.e_ident
    ++ (le_bytes 2 e.e_type
        ++ (le_bytes 2 e.e_machine
            ++ (le_bytes 4 e.e_version
                ++ (le_bytes 8 e.e_entry
                    ++ (le_bytes 8 e.e_phoff
                        ++ (le_bytes 8 e.e_shoff
                            ++ (le_bytes 4 e.e_flags
                                ++ (le_bytes 2 e.e_ehsize
                                    ++ (le_bytes 2 e.e_phentsize
                                        ++ (le_bytes 2 e.e_phnum
                                            ++ (le_bytes 2 e.e_shentsize
                                                ++ (le_bytes 2 e.e_shnum
                                                    ++ le_bytes 2 e.e_shstrndx))))))))))))

unfoldable pub phdr_bytes : ProgramHeader → Bytes
phdr_bytes p =
    le_bytes 4 p.p_type
    ++ (le_bytes 4 p.p_flags
        ++ (le_bytes 8 p.p_offset
            ++ (le_bytes 8 p.p_vaddr
                ++ (le_bytes 8 p.p_paddr
                    ++ (le_bytes 8 p.p_filesz ++ (le_bytes 8 p.p_memsz ++ le_bytes 8 p.p_align))))))

-- The number of so many bytes at a position.
abbrev pub field_at : ℕ → ℕ → Bytes → ℕ
field_at pos n bs = le_value (take n (drop pos bs))

unfoldable pub ehdr_of : Bytes → ElfHeader
ehdr_of bs = record {
  e_ident = take 16 bs;
  e_type = field_at 16 2 bs;
  e_machine = field_at 18 2 bs;
  e_version = field_at 20 4 bs;
  e_entry = field_at 24 8 bs;
  e_phoff = field_at 32 8 bs;
  e_shoff = field_at 40 8 bs;
  e_flags = field_at 48 4 bs;
  e_ehsize = field_at 52 2 bs;
  e_phentsize = field_at 54 2 bs;
  e_phnum = field_at 56 2 bs;
  e_shentsize = field_at 58 2 bs;
  e_shnum = field_at 60 2 bs;
  e_shstrndx = field_at 62 2 bs;
}

unfoldable pub phdr_of : Bytes → ProgramHeader
phdr_of bs = record {
  p_type = field_at 0 4 bs;
  p_flags = field_at 4 4 bs;
  p_offset = field_at 8 8 bs;
  p_vaddr = field_at 16 8 bs;
  p_paddr = field_at 24 8 bs;
  p_filesz = field_at 32 8 bs;
  p_memsz = field_at 40 8 bs;
  p_align = field_at 48 8 bs;
}
