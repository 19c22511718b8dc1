-- ===== src/Proc/Stat/Ranges.antt =====
-- What a status that was accepted satisfies.
use arthur.Base.{ℕ, ◌*◌, ◌/◌, ◌≡◌, ◌≤◌}
use arthur.Base.{take}
use arthur.Base.{Option, none, some, List, [], ◌∷◌, Bytes, length}
use arthur.Stream.ProcFile.{ProcFile}
use arthur.Proc.Text.{u64_max, pos}
use arthur.Proc.Lines.{contents}
use arthur.Proc.Stat.Fields.{Record, read_record, text_at}
use arthur.Proc.Stat.Limits.{IsBetween, IsNice}
use arthur.Proc.Stat.States.{IsRow, task_states}
use arthur.Proc.Stat.Origins.{IsSigned, IsUnsigned}
use arthur.Proc.Stat.Values.{int_max}
use arthur.Proc.Stat.{Stat, max_comm}

-- The comm fits its array, the state is the kernel's ordinal of its letter, the numbers are in their
-- ranges, and a resident size in kilobytes comes from no product that wrapped.
pub record IsStat (page_size : ℕ) (st : Stat) : Type 0 where
  pub comm_fits : length st.comm ≤ max_comm
  pub known_state : IsRow st.sname st.state task_states
  pub pid_range : IsBetween 1 int_max st.pid
  pub ppid_range : IsBetween 0 int_max st.ppid
  pub pgid_range : IsBetween 0 int_max st.pgid
  pub sid_range : IsBetween 0 int_max st.sid
  pub nice_range : IsNice st.nice
  pub threads_range : IsBetween 1 int_max st.num_threads
  pub pages : ℕ
  pub rss_pages : (st.rss ≡ pages * page_size / 1024) × (pages * page_size ≤ u64_max)

-- The comm, the letter and the numbers are those of the record, and the resident size is the one of its
-- pages in kilobytes.
pub record IsRead (page_size : ℕ) (comm : Bytes) (fields : List (Option Bytes)) (st : Stat)
    : Type 0 where
  pub comm_is : st.comm ≡ take max_comm comm
  pub letter_is : text_at fields 2 ≡ st.sname ∷ []
  pub pid_is : IsSigned fields 0 st.pid
  pub ppid_is : IsSigned fields 3 st.ppid
  pub pgid_is : IsSigned fields 4 st.pgid
  pub sid_is : IsSigned fields 5 st.sid
  pub flags_is : IsUnsigned fields 8 st.flags
  pub utime_is : IsUnsigned fields 13 st.utime
  pub stime_is : IsUnsigned fields 14 st.stime
  pub cutime_is : IsUnsigned fields 15 st.cutime
  pub cstime_is : IsUnsigned fields 16 st.cstime
  pub nice_is : IsSigned fields 18 st.nice
  pub num_threads_is : IsSigned fields 19 st.num_threads
  pub vsize_is : (bytes : ℕ) × IsUnsigned fields 22 bytes × (st.vsize ≡ bytes / 1024)
  pub rss_is :
      (pages : ℕ) × IsSigned fields 23 (pos pages)
      × (st.rss ≡ pages * page_size / 1024)
      × (pages * page_size ≤ u64_max)
  pub pending_is : IsUnsigned fields 30 st.pending
  pub blocked_is : IsUnsigned fields 31 st.blocked

-- The record is the one that the file holds.
abbrev pub IsReadFrom : ℕ → Option ProcFile → Stat → Type 0
IsReadFrom page_size none st = ⊥
IsReadFrom page_size (some pf) st =
    (r : Record) × (fields : List (Option Bytes)) × (read_record (contents pf) ≡ some r)
    × (r.array ≡ some fields)
    × IsRead page_size r.comm fields st

-- What the calls in front of the numbers leave.
record HasState (comm : Bytes) (fields : List (Option Bytes)) (st : Stat) : Type 0 where
  comm_fits : length st.comm ≤ max_comm
  comm_is : st.comm ≡ take max_comm comm
  letter_is : text_at fields 2 ≡ st.sname ∷ []
  known_state : IsRow st.sname st.state task_states

module _ (page_size : ℕ) (comm : Bytes) (fields : List (Option Bytes)) where
  abbrev IsDone : Stat → Type 0
  IsDone st = IsStat page_size st × IsRead page_size comm fields st
