-- ===== src/Core/Notes/Tests.antt =====
-- Notes of a small process.
use arthur.Base.{◌≡◌, refl, arith, List, [], ◌∷◌, ◌++◌, Bytes, All, length}
use arthur.Base.Results.{Error, ok, err}
use arthur.Base.Words.{le_bytes}
use arthur.Core.Loads.{MemRegion}
use arthur.Core.Notes.{
  nt_file, core_name, file_entries, fill_file, fill_auxv, allocate, nhdr_bytes, address_bytes,
  jiffies_to_timeval,
}
use arthur.Core.Notes.Reading.{note_of}
use arthur.Core.Notes.Selection.{Selected}
use arthur.Core.Notes.Files.{IsMapping, names_size, fill_file-files_of}
use arthur.Core.Notes.View.{ranges_of, names_of, files_of}
use arthur.Base.{inl, inr, ℕ, ◌+◌, ◌*◌, ◌^◌, ◌<◌, some, take}

abbrev mapped : ℕ → ℕ → Bytes → MemRegion
mapped offset inode name = record {
  start_addr = 0x10000;
  end_addr = 0x12000;
  offset = offset;
  dev_major = 8;
  dev_minor = 1;
  inode = inode;
  perms = 5;
  is_private = 1;
  is_shared = 0;
  name = name;
}

-- A program and a stack.
abbrev maps : List MemRegion
maps = mapped 0x3000 77 (b'/' ∷ b'a' ∷ []) ∷ mapped 0 0 (b's' ∷ []) ∷ []

-- Only the program is mapped from a file.
abbrev mapped_files : List MemRegion
mapped_files = mapped 0x3000 77 (b'/' ∷ b'a' ∷ []) ∷ []

maps-Selected : Selected maps mapped_files
maps-Selected = inl (omega arith, omega arith, ([], refl, inr (inr refl, refl)))

program-IsMapping : All (IsMapping 4096) mapped_files
program-IsMapping = (
  record {
    start_fits = omega arith;
    end_fits = omega arith;
    offset_fits = omega arith;
    aligned = refl;
    no_nul = ((λ q. absurd (omega (arith, q))), ((λ q. absurd (omega (arith, q))), tt));
  },
  tt,
)

small : 16 + 24 * length mapped_files + names_size mapped_files < 2 ^ 32
small = omega arith

fill_file-files_of_example :
    (note : Bytes) × (desc : Bytes) × (fill_file 4096 maps ≡ ok note)
    × (note_of (note ++ (1 ∷ []))
        ≡ record { type = nt_file; name = take 5 core_name; desc = desc; rest = 1 ∷ [] })
    × (files_of desc ≡ record {
      page_size = 4096;
      ranges = ranges_of mapped_files;
      names = names_of mapped_files;
    })
fill_file-files_of_example =
    fill_file-files_of 4096 maps mapped_files (1 ∷ []) refl (omega arith) maps-Selected
      program-IsMapping small

-- An offset that is no multiple of the page size is refused.
unaligned : fill_file 4096 (mapped 5 77 (b'a' ∷ []) ∷ []) ≡ err Error.fault
unfolding fill_file file_entries address_bytes
unaligned = refl

-- A vector of three bytes is padded to four.
padded :
    fill_auxv (some (record { f_size = 3; f_pid = 1; f_type = 1; f_data = 1 ∷ 2 ∷ 3 ∷ [] }))
    ≡ ok (5 ∷ 0 ∷ 0 ∷ 0 ∷ 3 ∷ 0 ∷ 0 ∷ 0 ∷ 6 ∷ 0 ∷ 0 ∷ 0 ∷ (core_name ++ (1 ∷ 2 ∷ 3 ∷ 0 ∷ [])))
unfolding fill_auxv allocate nhdr_bytes le_bytes
padded = refl

ticks : jiffies_to_timeval 100 250 ≡ (2, 500000)
unfolding jiffies_to_timeval
ticks = refl
