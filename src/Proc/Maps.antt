-- ===== src/Proc/Maps.antt =====
-- `ProcMaps` (src/proc.h, src/proc.cc): the memory regions of a process.
pub mod Order
pub mod Grammar
pub mod Files
pub mod RoundTrip
use arthur.Base.{
  ℕ, ◌+◌, ◌-◌, ◌^◌, Bool, true, false, not, ◌&&◌, ◌||◌, if◌then◌else◌, ltb, leb, ◌==◌, Option, none,
  some, List, [], ◌∷◌, ◌++◌, Bytes, length, drop, get_or,
}
use arthur.Base.Results.{Result, Error, ok, err, and_then}
use arthur.Stream.ProcFile.{ProcFile}
use arthur.Proc.Text.{is_space, is_blank, drop_while, has_nul}
use arthur.Proc.Text.Scanf.{and_scan, scan_hex, scan_hex32, scan_decimal, scan_char, scan_word}
use arthur.Proc.Lines.{for_lines}
use arthur.Core.Loads.{MemRegion}

-- The fields of a line, and what `%n` stores.
pub record MapsLine : Type 0 where
  pub start_addr : ℕ
  pub end_addr : ℕ
  pub perm : Bytes
  pub offset : ℕ
  pub dev_major : ℕ
  pub dev_minor : ℕ
  pub inode : ℕ
  pub consumed : ℕ

-- `sscanf(line, "%lx-%lx %4s %lx %x:%x %lu %n", ...)` where it returns 7.
unfoldable pub scan_line : Bytes → Option MapsLine
scan_line line = and_scan (scan_hex line) λ start s₁. and_scan (scan_char b'-' s₁) λ _ s₂.
    and_scan (scan_hex s₂) λ end s₃. and_scan (scan_word 4 s₃) λ perm s₄.
      and_scan (scan_hex s₄) λ offset s₅. and_scan (scan_hex32 s₅) λ major s₆.
        and_scan (scan_char b':' s₆) λ _ s₇. and_scan (scan_hex32 s₇) λ minor s₈.
          and_scan (scan_decimal s₈) λ inode s₉. some (record {
            start_addr = start;
            end_addr = end;
            perm = perm;
            offset = offset;
            dev_major = major;
            dev_minor = minor;
            inode = inode;
            consumed = length line - length (drop_while is_space s₉);
          })

-- The vector, and `previous_end`.
pub record Progress : Type 0 where
  pub regions : List MemRegion
  pub previous_end : ℕ

abbrev pub max_regions : ℕ
max_regions = 2 ^ 20

-- A permission is its letter or `-`; the last letter is `p` or `s`.
unfoldable pub is_perm : Bytes → Bool
is_perm perm =
    length perm == 4
    && ((get_or perm 0 0 == b'r' || get_or perm 0 0 == b'-')
        && ((get_or perm 1 0 == b'w' || get_or perm 1 0 == b'-')
            && ((get_or perm 2 0 == b'x' || get_or perm 2 0 == b'-')
                && (get_or perm 3 0 == b'p' || get_or perm 3 0 == b's'))))

-- PF_R, PF_W and PF_X
abbrev pub flag : Bool → ℕ → ℕ
flag b value = if b then value else 0

unfoldable pub name_of : Bytes → ℕ → Bytes
name_of line consumed =
    if ltb 0 consumed && ltb consumed (length line)
    then drop_while is_blank (drop consumed line)
    else []

unfoldable pub region_of : Bytes → MapsLine → MemRegion
region_of line fields = record {
  start_addr = fields.start_addr;
  end_addr = fields.end_addr;
  offset = fields.offset;
  dev_major = fields.dev_major;
  dev_minor = fields.dev_minor;
  inode = fields.inode;
  perms =
      flag (get_or fields.perm 0 0 == b'r') 4
      + flag (get_or fields.perm 1 0 == b'w') 2
      + flag (get_or fields.perm 2 0 == b'x') 1;
  is_private = flag (get_or fields.perm 3 0 == b'p') 1;
  is_shared = flag (not (get_or fields.perm 3 0 == b'p') && get_or fields.perm 3 0 == b's') 1;
  name = name_of line fields.consumed;
}

unfoldable pub add_region : Bytes → Option MapsLine → Progress → Result (Unit {0}) × Progress
add_region line none st = (err Error.fault, st)
add_region line (some fields) st =
    if not (is_perm fields.perm)
      || (leb fields.end_addr fields.start_addr || ltb fields.start_addr st.previous_end)
    then (err Error.fault, st)
    else if leb max_regions (length st.regions)
    then (err Error.fault, record st { previous_end = fields.end_addr })
    else (
      ok tt,
      record {
        regions = st.regions ++ (region_of line fields ∷ []);
        previous_end = fields.end_addr;
      },
    )

unfoldable pub take_line : Bytes → Progress → Result (Unit {0}) × Progress
take_line line st =
    if has_nul line then (err Error.fault, st) else add_region line (scan_line line) st

abbrev pub size_of : Option ProcFile → ℕ
size_of none = 0
size_of (some pf) = pf.f_size

abbrev pub finish : Result (Unit {0}) × Progress → Result ℕ × List MemRegion
finish (ok _, st) = (ok (length st.regions), st.regions)
finish (err e, st) = (err e, st.regions)

-- The result, and the regions that the object holds then.
unfoldable pub parse : Option ProcFile → Result ℕ × List MemRegion
parse pf =
    finish (for_lines (size_of pf + 1) pf take_line 0 (record { regions = []; previous_end = 0 }))
