-- ===== src/Core/Loads.antt =====
-- `MemRegion` (src/proc.h), `Elf64_Phdr` (src/elf.h) and `expected_load_phdrs` (src/core.cc): the
-- PT_LOAD program headers that belong to the memory regions of a process.
pub mod Layout
pub mod Process
use arthur.Base.{
  ℕ, ◌+◌, ◌-◌, ◌%◌, ◌^◌, Bool, if◌then◌else◌, not, ltb, ◌==◌, List, [], ◌∷◌, ◌++◌, Bytes,
}
use arthur.Base.Results.{Result, Error, ok, err}

pub record MemRegion : Type 0 where
  pub start_addr : ℕ
  pub end_addr : ℕ
  pub offset : ℕ
  pub dev_major : ℕ
  pub dev_minor : ℕ
  pub inode : ℕ
  pub perms : ℕ
  pub is_private : ℕ
  pub is_shared : ℕ
  pub name : Bytes

pub record ProgramHeader : Type 0 where
  pub p_type : ℕ
  pub p_flags : ℕ
  pub p_offset : ℕ
  pub p_vaddr : ℕ
  pub p_paddr : ℕ
  pub p_filesz : ℕ
  pub p_memsz : ℕ
  pub p_align : ℕ

abbrev pub pt_load : ℕ
pt_load = 1

abbrev pub ssize_max : ℕ
ssize_max = 2 ^ 63 - 1

-- Subtraction of 64-bit numbers wraps around.
abbrev pub sub_u64 : ℕ → ℕ → ℕ
sub_u64 a b = (a + (2 ^ 64 - b)) % 2 ^ 64

-- `p_memsz` and `p_filesz`: of a region without permissions no bytes are stored.
abbrev pub memory_size : MemRegion → ℕ
memory_size region = sub_u64 region.end_addr region.start_addr

abbrev pub file_size : MemRegion → ℕ
file_size region = if not (region.perms == 0) then memory_size region else 0

abbrev pub load_phdr : ℕ → MemRegion → ProgramHeader
load_phdr total_bytes region = record {
  p_type = pt_load;
  p_flags = region.perms;
  p_offset = total_bytes;
  p_vaddr = region.start_addr;
  p_paddr = 0;
  p_filesz = file_size region;
  p_memsz = memory_size region;
  p_align = 1;
}

-- The two references that the function fills.
pub record Loads : Type 0 where
  pub phdrs : List ProgramHeader
  pub total_bytes : ℕ

unfoldable pub add_phdrs : List MemRegion → Loads → Result (Unit {0}) × Loads
add_phdrs [] out = (ok tt, out)
add_phdrs (region ∷ maps) out =
    if ltb (sub_u64 ssize_max out.total_bytes) (file_size region)
    then (err Error.fault, out)
    else add_phdrs maps (record {
      phdrs = out.phdrs ++ (load_phdr out.total_bytes region ∷ []);
      total_bytes = (out.total_bytes + file_size region) % 2 ^ 64;
    })

unfoldable pub expected_load_phdrs : List MemRegion → Result (Unit {0}) × Loads
expected_load_phdrs maps = add_phdrs maps (record { phdrs = []; total_bytes = 0 })
