-- ===== src/Core/Notes.antt =====
-- The notes of the core file (src/core.cc): `Note::allocate`, `fill_auxv`, `fill_file` and
-- `jiffies_to_timeval`.
pub mod Reading
pub mod Selection
pub mod Files
pub mod View
pub mod Tests
use Prim.Native.Nat.{bit_and}
use arthur.Base.{ℕ, ◌+◌, ◌-◌, ◌*◌, ◌/◌, ◌%◌, ◌^◌, Bool, not, ◌&&◌, ◌||◌, if◌then◌else◌, ltb, ◌==◌}
use arthur.Base.{Option, none, some, List, [], ◌∷◌, ◌++◌, Bytes, length, take, drop, replicate}
use arthur.Base.Words.{le_bytes}
use arthur.Base.Results.{Result, Error, ok, err}
use arthur.Stream.ProcFile.{ProcFile}
use arthur.Core.Loads.{MemRegion}

abbrev pub nt_auxv : ℕ
nt_auxv = 6

abbrev pub nt_file : ℕ
nt_file = 0x4649_4c45

abbrev pub nt_x86_xstate : ℕ
nt_x86_xstate = 0x202

-- Extended states have notes of the name LINUX.
abbrev pub is_linux : ℕ → Bool
is_linux type = type == nt_x86_xstate

-- The size of the name with its NUL, and the eight bytes that hold it.
abbrev pub name_size : Bool → ℕ
name_size linux = if linux then 6 else 5

abbrev pub linux_name : Bytes
linux_name = b'L' ∷ b'I' ∷ b'N' ∷ b'U' ∷ b'X' ∷ 0 ∷ 0 ∷ 0 ∷ []

abbrev pub core_name : Bytes
core_name = b'C' ∷ b'O' ∷ b'R' ∷ b'E' ∷ 0 ∷ 0 ∷ 0 ∷ 0 ∷ []

abbrev pub name_field : Bool → Bytes
name_field linux = if linux then linux_name else core_name

-- `Elf64_Nhdr` in memory
unfoldable pub nhdr_bytes : ℕ → ℕ → ℕ → Bytes
nhdr_bytes namesz descsz type = le_bytes 4 namesz ++ (le_bytes 4 descsz ++ le_bytes 4 type)

abbrev pub prefix_size : ℕ
prefix_size = 20

-- `(raw_size + 3) & ~3`
abbrev pub round_up : ℕ → ℕ
round_up n = (n + 3) / 4 * 4

-- `_data` with an empty payload; its `_size` is the length. `malloc` succeeds.
unfoldable pub allocate : ℕ → ℕ → Result Bytes
allocate type payload_size =
    if ltb (2 ^ 32 - 1) payload_size || ltb (2 ^ 64 - 1 - prefix_size) payload_size
    then err Error.eoverflow
    else if ltb (2 ^ 64 - 1 - 3) (prefix_size + payload_size)
    then err Error.eoverflow
    else ok (
        nhdr_bytes (name_size (is_linux type)) payload_size type
        ++ (name_field (is_linux type)
            ++ replicate (round_up (prefix_size + payload_size) - prefix_size) 0))

-- `memcpy` to the start of the payload
abbrev pub with_payload : Bytes → Result Bytes → Result Bytes
with_payload payload (err e) = err e
with_payload payload (ok note) =
    ok (take prefix_size note ++ (payload ++ drop (prefix_size + length payload) note))

-- `fill_auxv`; none is a missing record.
unfoldable pub fill_auxv : Option ProcFile → Result Bytes
fill_auxv none = err Error.fault
fill_auxv (some auxv) =
    if auxv.f_size == 0
    then err Error.fault
    else with_payload (take auxv.f_size auxv.f_data) (allocate nt_auxv auxv.f_size)

-- The regions that are mapped from a file.
abbrev pub is_file : MemRegion → Bool
is_file r = not (length r.name == 0) && not (r.inode == 0)

unfoldable pub file_entries : List MemRegion → List MemRegion
file_entries [] = []
file_entries (r ∷ maps) =
    let entries = file_entries maps in if is_file r then r ∷ entries else entries

-- The addresses and the offset in pages of each entry.
abbrev pub with_address : ℕ → MemRegion → Result Bytes → Result Bytes
with_address page_size r (err e) = err e
with_address page_size r (ok rest) = ok (
    le_bytes 8 r.start_addr
    ++ (le_bytes 8 r.end_addr ++ (le_bytes 8 (r.offset / page_size) ++ rest)))

unfoldable pub address_bytes : ℕ → List MemRegion → Result Bytes
address_bytes page_size [] = ok []
address_bytes page_size (r ∷ entries) =
    let rest = address_bytes page_size entries in
    if not (r.offset % page_size == 0) then err Error.fault else with_address page_size r rest

unfoldable pub name_bytes : List MemRegion → Bytes
name_bytes [] = []
name_bytes (r ∷ entries) = r.name ++ (0 ∷ name_bytes entries)

abbrev pub is_page_size : ℕ → Bool
is_page_size page_size = not (page_size == 0) && bit_and page_size (page_size - 1) == 0

abbrev pub filled_file : ℕ → List MemRegion → Result Bytes → Result Bytes
filled_file page_size entries (err e) = err e
filled_file page_size entries (ok addresses) =
    let payload =
      le_bytes 8 (length entries) ++ (le_bytes 8 page_size ++ (addresses ++ name_bytes entries)) in
    with_payload payload (allocate nt_file (length payload))

-- `page_size` is that of the target's auxiliary vector, 0 where it is missing.
unfoldable pub fill_file : ℕ → List MemRegion → Result Bytes
fill_file page_size maps =
    if not (is_page_size page_size)
    then err Error.fault
    else filled_file page_size (file_entries maps) (address_bytes page_size (file_entries maps))

-- `clk_tck` is what `sysconf(_SC_CLK_TCK)` gives, if that is positive, and 0 otherwise. Seconds and
-- microseconds.
unfoldable pub jiffies_to_timeval : ℕ → ℕ → ℕ × ℕ
jiffies_to_timeval clk_tck jiffies =
    let ticks = if clk_tck == 0 then 100 else clk_tck in
    (jiffies / ticks, jiffies % ticks * (1000000 / ticks) % 2 ^ 64)
