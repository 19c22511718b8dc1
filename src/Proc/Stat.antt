-- ===== src/Proc/Stat.antt =====
-- `ProcStat` (src/proc.h, src/proc.cc): the status of a process.
pub mod Fields
pub mod Values
pub mod Comm
pub mod Limits
pub mod States
pub mod Success
pub mod Origins
pub mod Ranges
use arthur.Base.{
  ℕ, ◌+◌, ◌*◌, ◌/◌, ◌%◌, ◌^◌, ◌-◌, Bool, true, false, not, ◌&&◌, ◌||◌, if◌then◌else◌, ltb, leb,
  ◌==◌,
}
use arthur.Base.{Option, none, some, List, [], ◌∷◌, ◌++◌, Bytes, length, take}
use arthur.Base.Results.{Result, Error, ok, err, and_then}
use arthur.Stream.ProcFile.{ProcFile}
use arthur.Proc.Text.{has_nul, u64_max, ℤ, pos, negsuc}
use arthur.Proc.Text.Integers.{below}
use arthur.Proc.Lines.{contents}
use arthur.Proc.Stat.Fields.{Record, read_record, text_at}
use arthur.Proc.Stat.Values.{Numbers, parse_numbers, in_ranges}

pub record Stat : Type 0 where
  pub state : ℕ
  pub sname : ℕ
  pub comm : Bytes
  pub pid : ℤ
  pub ppid : ℤ
  pub pgid : ℤ
  pub sid : ℤ
  pub stime : ℕ
  pub utime : ℕ
  pub cstime : ℕ
  pub cutime : ℕ
  pub vsize : ℕ
  pub rss : ℕ
  pub num_threads : ℤ
  pub flags : ℕ
  pub nice : ℤ
  pub pending : ℕ
  pub blocked : ℕ

-- The members that the constructor sets.
abbrev pub fresh : Stat
fresh = record {
  state = 0;
  sname = 0;
  comm = [];
  pid = pos 0;
  ppid = pos 0;
  pgid = pos 0;
  sid = pos 0;
  stime = 0;
  utime = 0;
  cstime = 0;
  cutime = 0;
  vsize = 0;
  rss = 0;
  num_threads = pos 0;
  flags = 0;
  nice = pos 0;
  pending = 0;
  blocked = 0;
}

-- `sizeof(comm)`, less its NUL
abbrev pub max_comm : ℕ
max_comm = 15

-- The `switch (sname)`
unfoldable pub state_of : ℕ → Option ℕ
state_of c =
    if c == b'R'
    then some 0
    else if c == b'S'
    then some 1
    else if c == b'D'
    then some 2
    else if c == b'T'
    then some 3
    else if c == b't'
    then some 4
    else if c == b'X'
    then some 5
    else if c == b'Z'
    then some 6
    else if c == b'P'
    then some 7
    else if c == b'I'
    then some 8
    else if c == b'x'
    then some 5
    else if c == b'K'
    then some 2
    else if c == b'W'
    then some 0
    else none

abbrev pub set_state : ℕ → Stat → Option ℕ → Result (Unit {0}) × Stat
set_state c st none = (err Error.fault, record st { sname = c })
set_state c st (some n) = (ok tt, record st { sname = c; state = n })

-- `fld(2)` is one character, which `sname` takes even where the state is not known.
unfoldable pub take_state : Bytes → Stat → Result (Unit {0}) × Stat
take_state [] st = (err Error.fault, st)
take_state (c ∷ []) st = set_state c st (state_of c)
take_state (c ∷ d ∷ s) st = (err Error.fault, st)

-- The numbers in front of `rss`
unfoldable pub take_numbers : Numbers → Stat → Stat
take_numbers n st = record st {
  pid = n.pid;
  ppid = n.ppid;
  pgid = n.pgid;
  sid = n.sid;
  utime = n.utime;
  stime = n.stime;
  cutime = n.cutime;
  cstime = n.cstime;
  vsize = n.vsize / 1024;
}

-- The value of a `long` as an `unsigned long`
unfoldable pub to_unsigned : ℤ → ℕ
to_unsigned (pos n) = n
to_unsigned (negsuc n) = 2 ^ 64 - (n + 1)

-- Pages to kilobytes, in `unsigned long`. The page size is what `sysconf(_SC_PAGESIZE)` gives, a
-- negative number or the size.
unfoldable pub take_rss : ℤ → Numbers → Stat → Result (Unit {0}) × Stat
take_rss page_size n st =
    if not (below (pos 0) page_size) || ltb (u64_max / to_unsigned page_size) (to_unsigned n.rss)
    then (err Error.fault, st)
    else (
      ok tt,
      record st {
        rss = (to_unsigned n.rss * to_unsigned page_size) % 2 ^ 64 / 1024;
        num_threads = n.num_threads;
        flags = n.flags;
        nice = n.nice;
        pending = n.pending;
        blocked = n.blocked;
      },
    )

unfoldable pub store_numbers : ℤ → Option Numbers → Stat → Result (Unit {0}) × Stat
store_numbers page_size none st = (err Error.fault, st)
store_numbers page_size (some n) st =
    if not (in_ranges n) then (err Error.fault, st) else take_rss page_size n (take_numbers n st)

abbrev pub store_array : ℤ → Option (List (Option Bytes)) → Stat → Result (Unit {0}) × Stat
store_array page_size none st = (err Error.fault, st)
store_array page_size (some array) st =
    and_then (take_state (text_at array 2) st)
      λ _ st. store_numbers page_size (parse_numbers array) st

-- From `memcpy(comm, ...)` on
unfoldable pub store_record : ℤ → Option Record → Stat → Result (Unit {0}) × Stat
store_record page_size none st = (err Error.fault, st)
store_record page_size (some r) st =
    store_array page_size r.array (record st { comm = take max_comm r.comm })

unfoldable pub parse : ℤ → Option ProcFile → Stat → Result (Unit {0}) × Stat
parse page_size none st = (err Error.fault, st)
parse page_size (some pf) st =
    if pf.f_size == 0 || leb 1024 pf.f_size
    then (err Error.fault, st)
    else if has_nul (contents pf)
    then (err Error.fault, st)
    else store_record page_size (read_record (contents pf)) st
