-- ===== src/Core/Notes/View.antt =====
-- The descriptor of the mapped files as a debugger reads it.
use arthur.Base.{ℕ, zero, suc, ◌*◌, if◌then◌else◌, ◌==◌}
use arthur.Base.{List, [], ◌∷◌, Bytes, take, drop}
use arthur.Base.Words.{le_value}
use arthur.Core.Loads.{MemRegion}

abbrev pub word : Bytes → ℕ
word s = le_value (take 8 s)

-- Start, end, and the offset in the file in bytes.
pub record Range : Type 0 where
  pub start : ℕ
  pub end : ℕ
  pub offset : ℕ

unfoldable pub read_ranges : ℕ → ℕ → Bytes → List Range
read_ranges page_size zero s = []
read_ranges page_size (suc n) s =
    record { start = word s; end = word (drop 8 s); offset = word (drop 16 s) * page_size }
    ∷ read_ranges page_size n (drop 24 s)

-- The bytes in front of a NUL, and those behind it.
unfoldable pub cut_name : Bytes → Bytes × Bytes
cut_name [] = ([], [])
cut_name (c ∷ s) = let (name, rest) = cut_name s in if c == 0 then ([], s) else (c ∷ name, rest)

unfoldable pub read_names : ℕ → Bytes → List Bytes
read_names zero s = []
read_names (suc n) s = (cut_name s).0 ∷ read_names n (cut_name s).1

pub record FilesView : Type 0 where
  pub page_size : ℕ
  pub ranges : List Range
  pub names : List Bytes

abbrev pub files_at : ℕ → ℕ → Bytes → FilesView
files_at page_size count s = record {
  page_size = page_size;
  ranges = read_ranges page_size count s;
  names = read_names count (drop (24 * count) s);
}

-- The count, the page size, the ranges, and the names.
unfoldable pub files_of : Bytes → FilesView
files_of s = files_at (word (drop 8 s)) (word s) (drop 16 s)

abbrev pub ranges_of : List MemRegion → List Range
ranges_of [] = []
ranges_of (r ∷ maps) =
    record { start = r.start_addr; end = r.end_addr; offset = r.offset } ∷ ranges_of maps

abbrev pub names_of : List MemRegion → List Bytes
names_of [] = []
names_of (r ∷ maps) = r.name ∷ names_of maps
