-- ===== src/Core/Elf/Images.antt =====
-- `Elf64_Ehdr` and `Elf64_Phdr` in memory.
use arthur.Base.{ℕ, ◌^◌, ◌≡◌, ◌<◌, refl, length}
use arthur.Base.Words.{le_bytes, le_value, le_value-le_bytes}
use arthur.Core.Loads.{ProgramHeader}
use arthur.Core.Elf.{ehdr_bytes, phdr_bytes, phdr_of, ehdr_of, make_ehdr}

-- Fields within their widths.
pub record IsPhdr (p : ProgramHeader) : Type 0 where
  pub type_fits : p.p_type < 2 ^ 32
  pub flags_fit : p.p_flags < 2 ^ 32
  pub offset_fits : p.p_offset < 2 ^ 64
  pub vaddr_fits : p.p_vaddr < 2 ^ 64
  pub paddr_fits : p.p_paddr < 2 ^ 64
  pub filesz_fits : p.p_filesz < 2 ^ 64
  pub memsz_fits : p.p_memsz < 2 ^ 64
  pub align_fits : p.p_align < 2 ^ 64

-- A program header within its widths is read back from its 56 bytes.
pub phdr_of-phdr_bytes : (p : ProgramHeader) → IsPhdr p → phdr_of (phdr_bytes p) ≡ p
unfolding phdr_of phdr_bytes le_bytes
phdr_of-phdr_bytes p h = λ i. record {
  p_type = le_value-le_bytes 4 p.p_type h.type_fits i;
  p_flags = le_value-le_bytes 4 p.p_flags h.flags_fit i;
  p_offset = le_value-le_bytes 8 p.p_offset h.offset_fits i;
  p_vaddr = le_value-le_bytes 8 p.p_vaddr h.vaddr_fits i;
  p_paddr = le_value-le_bytes 8 p.p_paddr h.paddr_fits i;
  p_filesz = le_value-le_bytes 8 p.p_filesz h.filesz_fits i;
  p_memsz = le_value-le_bytes 8 p.p_memsz h.memsz_fits i;
  p_align = le_value-le_bytes 8 p.p_align h.align_fits i;
}

-- What the writers put into the file header is read back from its 64 bytes.
pub ehdr_of-ehdr_bytes :
    (machine phnum : ℕ)
    → machine < 2 ^ 16
    → phnum < 2 ^ 16
    → ehdr_of (ehdr_bytes (make_ehdr machine phnum)) ≡ make_ehdr machine phnum
unfolding ehdr_of ehdr_bytes le_bytes le_value
ehdr_of-ehdr_bytes machine phnum h k = λ i. record (make_ehdr machine phnum) {
  e_machine = le_value-le_bytes 2 machine h i;
  e_phnum = le_value-le_bytes 2 phnum k i;
}

pub length-phdr_bytes : (p : ProgramHeader) → length (phdr_bytes p) ≡ 56
unfolding phdr_bytes le_bytes
length-phdr_bytes p = refl

pub length-ehdr_bytes : (machine phnum : ℕ) → length (ehdr_bytes (make_ehdr machine phnum)) ≡ 64
unfolding ehdr_bytes le_bytes
length-ehdr_bytes machine phnum = refl
