-- ===== src/Core/Notes/Files.antt =====
-- That a debugger reads the note of the mapped files as it was filled.
use arthur.Base.{
  ℕ, zero, suc, ◌+◌, ◌*◌, ◌/◌, ◌%◌, ◌^◌, ◌≡◌, ◌≢◌, ◌<◌, refl, sym, ap, ◌∙◌, arith, true, false,
  ◌==◌,
}
use arthur.Base.{
  List, [], ◌∷◌, ◌++◌, Bytes, length, take, drop, All, length-append, take-append, drop-append,
  drop-drop, append_assoc, if_false, unless_true,
}
use native.Mathlib.Nat.{div-add-mod', div-le_self}
use arthur.Base.Words.{le_bytes, le_value, length-le_bytes, le_value-le_bytes}
use arthur.Base.Results.{ok}
use arthur.Core.Loads.{MemRegion}
use arthur.Core.Notes.{
  nt_file, with_address, address_bytes, name_bytes, is_page_size, filled_file, fill_file, core_name,
}
use arthur.Core.Notes.Reading.{note_of, image, with_payload-allocate, note_of-image}
use arthur.Core.Notes.Selection.{Selected, file_entries-Selected}
use arthur.Core.Notes.View.{
  word, read_ranges, cut_name, read_names, files_at, files_of, ranges_of, names_of,
}

-- A mapping of pages of a file, whose name holds no NUL.
pub record IsMapping (page_size : ℕ) (r : MemRegion) : Type 0 where
  pub start_fits : r.start_addr < 2 ^ 64
  pub end_fits : r.end_addr < 2 ^ 64
  pub offset_fits : r.offset < 2 ^ 64
  pub aligned : r.offset % page_size ≡ 0
  pub no_nul : All (λ c. c ≢ 0) r.name

-- The size of the descriptor.
abbrev pub names_size : List MemRegion → ℕ
names_size [] = 0
names_size (r ∷ maps) = length r.name + 1 + names_size maps

abbrev range_bytes : ℕ → MemRegion → Bytes → Bytes
range_bytes page_size r rest =
    le_bytes 8 r.start_addr
    ++ (le_bytes 8 r.end_addr ++ (le_bytes 8 (r.offset / page_size) ++ rest))

-- What `address_bytes` gives where all offsets are aligned.
abbrev ranges_bytes : ℕ → List MemRegion → Bytes
ranges_bytes page_size [] = []
ranges_bytes page_size (r ∷ maps) = range_bytes page_size r (ranges_bytes page_size maps)

word_ok : (n : ℕ) (more : Bytes) → n < 2 ^ 64 → word (le_bytes 8 n ++ more) ≡ n
word_ok n more h =
    ap le_value (take-append 8 (le_bytes 8 n) more (sym (length-le_bytes 8 n)))
    ∙ le_value-le_bytes 8 n (omega (arith, h))

behind_word : (n : ℕ) (more : Bytes) → drop 8 (le_bytes 8 n ++ more) ≡ more
behind_word n more = drop-append 8 (le_bytes 8 n) more (sym (length-le_bytes 8 n))

-- Three words in front.
module _ (a b c : ℕ) (more : Bytes) where
  abbrev three : Bytes
  three = le_bytes 8 a ++ (le_bytes 8 b ++ (le_bytes 8 c ++ more))

  second : drop 8 three ≡ le_bytes 8 b ++ (le_bytes 8 c ++ more)
  second = behind_word a _

  third : drop 16 three ≡ le_bytes 8 c ++ more
  third = sym (drop-drop 8 8 three) ∙ ap (drop 8) second ∙ behind_word b _

  behind : drop 24 three ≡ more
  behind = sym (drop-drop 16 8 three) ∙ ap (drop 8) third ∙ behind_word c more

address_bytes_ok :
    (page_size : ℕ) (maps : List MemRegion)
    → All (IsMapping page_size) maps
    → address_bytes page_size maps ≡ ok (ranges_bytes page_size maps)
unfolding address_bytes
address_bytes_ok page_size [] h = refl
address_bytes_ok page_size (r ∷ maps) (v, h) =
    unless_true _ _ (ap (λ n. n == 0) v.aligned)
    ∙ ap (with_address page_size r) (address_bytes_ok page_size maps h)

read_ranges_ok :
    (page_size : ℕ) (maps : List MemRegion) (more : Bytes)
    → 0 < page_size
    → All (IsMapping page_size) maps
    → read_ranges page_size (length maps) (ranges_bytes page_size maps ++ more) ≡ ranges_of maps
unfolding read_ranges
read_ranges_ok page_size [] more h v = refl
read_ranges_ok page_size (r ∷ maps) more h (v, vs) =
    ap (read_ranges page_size (suc (length maps))) (
      append_assoc (le_bytes 8 r.start_addr)
        (le_bytes 8 r.end_addr ++ (le_bytes 8 pages ++ ranges_bytes page_size maps)) more
      ∙ ap (λ t. le_bytes 8 r.start_addr ++ t)
          (append_assoc (le_bytes 8 r.end_addr) (le_bytes 8 pages ++ ranges_bytes page_size maps)
              more
            ∙ ap (λ t. le_bytes 8 r.end_addr ++ t)
                (append_assoc (le_bytes 8 pages) (ranges_bytes page_size maps) more)))
    ∙ λ i.
        record {
          start = word_ok r.start_addr behind_start v.start_fits i;
          end =
              (ap word (second r.start_addr r.end_addr pages rest)
                  ∙ word_ok r.end_addr (le_bytes 8 pages ++ rest) v.end_fits)
                i;
          offset =
              (ap (λ t. word t * page_size) (third r.start_addr r.end_addr pages rest)
                  ∙ ap (λ n. n * page_size) (word_ok pages rest fits)
                  ∙ whole)
                i;
        }
        ∷ (ap (read_ranges page_size (length maps)) (behind r.start_addr r.end_addr pages rest)
              ∙ read_ranges_ok page_size maps more h vs)
            i
  where
    pages : ℕ
    pages = r.offset / page_size

    rest : Bytes
    rest = ranges_bytes page_size maps ++ more

    behind_start : Bytes
    behind_start = le_bytes 8 r.end_addr ++ (le_bytes 8 pages ++ rest)

    whole : pages * page_size ≡ r.offset
    whole = omega (arith, div-add-mod' r.offset page_size, v.aligned)

    fits : pages < 2 ^ 64
    fits = omega (arith, div-le_self r.offset page_size, v.offset_fits)

cut_name_ok :
    (name more : Bytes) → All (λ c. c ≢ 0) name → cut_name (name ++ (0 ∷ more)) ≡ (name, more)
unfolding cut_name
cut_name_ok [] more h = refl
cut_name_ok (c ∷ name) more (h, hs) =
    if_false _ _ (nonzero c h)
    ∙ ap (λ (p : Bytes × Bytes). (c ∷ p.0, p.1)) (cut_name_ok name more hs)
  where
    nonzero : (c : ℕ) → c ≢ 0 → (c == 0) ≡ false
    nonzero c h = ground arith

read_names_ok :
    (page_size : ℕ) (maps : List MemRegion)
    → All (IsMapping page_size) maps
    → read_names (length maps) (name_bytes maps) ≡ names_of maps
unfolding read_names name_bytes
read_names_ok page_size [] h = refl
read_names_ok page_size (r ∷ maps) (v, h) =
    ap (λ (p : Bytes × Bytes). p.0 ∷ read_names (length maps) p.1)
      (cut_name_ok r.name (name_bytes maps) v.no_nul)
    ∙ ap (λ t. r.name ∷ t) (read_names_ok page_size maps h)

length-ranges_bytes :
    (page_size : ℕ) (maps : List MemRegion)
    → length (ranges_bytes page_size maps) ≡ 24 * length maps
length-ranges_bytes page_size [] = refl
length-ranges_bytes page_size (r ∷ maps) =
    let behind = ranges_bytes page_size maps in
    let pages = le_bytes 8 (r.offset / page_size) in
    length-append (le_bytes 8 r.start_addr) (le_bytes 8 r.end_addr ++ (pages ++ behind))
    ∙ omega (
      arith,
      length-append (le_bytes 8 r.end_addr) (pages ++ behind),
      length-append pages behind,
      length-le_bytes 8 r.start_addr,
      length-le_bytes 8 r.end_addr,
      length-le_bytes 8 (r.offset / page_size),
      length-ranges_bytes page_size maps,
    )

length-name_bytes : (maps : List MemRegion) → length (name_bytes maps) ≡ names_size maps
unfolding name_bytes
length-name_bytes [] = refl
length-name_bytes (r ∷ maps) =
    length-append r.name (0 ∷ name_bytes maps) ∙ omega (arith, length-name_bytes maps)

-- The descriptor of the entries.
abbrev descriptor : ℕ → List MemRegion → Bytes
descriptor page_size entries =
    le_bytes 8 (length entries)
    ++ (le_bytes 8 page_size ++ (ranges_bytes page_size entries ++ name_bytes entries))

length-descriptor :
    (page_size : ℕ) (entries : List MemRegion)
    → length (descriptor page_size entries) ≡ 16 + 24 * length entries + names_size entries
length-descriptor page_size entries =
    let tail = ranges_bytes page_size entries ++ name_bytes entries in
    length-append (le_bytes 8 (length entries)) (le_bytes 8 page_size ++ tail)
    ∙ omega (
      arith,
      length-append (le_bytes 8 page_size) tail,
      length-append (ranges_bytes page_size entries) (name_bytes entries),
      length-le_bytes 8 (length entries),
      length-le_bytes 8 page_size,
      length-ranges_bytes page_size entries,
      length-name_bytes entries,
    )

files_of-descriptor :
    (page_size : ℕ) (entries : List MemRegion)
    → 0 < page_size
    → page_size < 2 ^ 64
    → length entries < 2 ^ 64
    → All (IsMapping page_size) entries
    → files_of (descriptor page_size entries)
      ≡ record { page_size = page_size; ranges = ranges_of entries; names = names_of entries }
unfolding files_of
files_of-descriptor page_size entries h fits few v =
    (λ i.
      files_at (page_is i) (word_ok (length entries) (le_bytes 8 page_size ++ tail) few i)
        (tail_is i))
    ∙ λ i. record {
      page_size = page_size;
      ranges = read_ranges_ok page_size entries (name_bytes entries) h v i;
      names =
          (ap (read_names (length entries)) (
                drop-append (24 * length entries) (ranges_bytes page_size entries)
                  (name_bytes entries) (sym (length-ranges_bytes page_size entries)))
              ∙ read_names_ok page_size entries v)
            i;
    }
  where
    s : Bytes
    s = descriptor page_size entries

    tail : Bytes
    tail = ranges_bytes page_size entries ++ name_bytes entries

    behind_count : drop 8 s ≡ le_bytes 8 page_size ++ tail
    behind_count = behind_word (length entries) (le_bytes 8 page_size ++ tail)

    page_is : word (drop 8 s) ≡ page_size
    page_is = ap word behind_count ∙ word_ok page_size tail fits

    tail_is : drop 16 s ≡ tail
    tail_is = sym (drop-drop 8 8 s) ∙ ap (drop 8) behind_count ∙ behind_word page_size tail

-- The note of the mapped files is read as a note of type NT_FILE and name CORE, and its descriptor as the
-- target's page size, and the addresses, the offset in bytes and the name of each region with a name and
-- an inode, in order, and of no other. What follows the note is next. The page size is a power of two of
-- 64 bits, the numbers of these regions have 64 bits, their offsets are multiples of the page size, their names hold no NUL,
-- and the descriptor is smaller than 4 GiB.
pub fill_file-files_of :
    (page_size : ℕ) (maps entries : List MemRegion) (more : Bytes)
    → is_page_size page_size ≡ true
    → page_size < 2 ^ 64
    → Selected maps entries
    → All (IsMapping page_size) entries
    → 16 + 24 * length entries + names_size entries < 2 ^ 32
    → (note : Bytes) × (desc : Bytes) × (fill_file page_size maps ≡ ok note)
      × (note_of (note ++ more)
          ≡ record { type = nt_file; name = take 5 core_name; desc = desc; rest = more })
      × (files_of desc
          ≡ record { page_size = page_size; ranges = ranges_of entries; names = names_of entries })
unfolding fill_file
fill_file-files_of page_size maps entries more valid fits selected v small =
    let desc = descriptor page_size entries in
    let sized = length-descriptor page_size entries in
    (
      image nt_file desc,
      desc,
      unless_true _ _ valid
          ∙ ap (λ t. filled_file page_size t (address_bytes page_size t))
              (file_entries-Selected maps entries selected)
          ∙ ap (filled_file page_size entries) (address_bytes_ok page_size entries v)
          ∙ with_payload-allocate nt_file desc (omega (arith, sized, small)),
      note_of-image nt_file desc more (omega arith) (omega (arith, sized, small)),
      files_of-descriptor page_size entries (positive page_size valid) fits (omega (arith, small))
          v,
    )
  where
    positive : (n : ℕ) → is_page_size n ≡ true → 0 < n
    positive zero h = cc
    positive (suc n) h = omega arith
