-- ===== src/Proc/Status.antt =====
-- `ProcStatus` (src/proc.h, src/proc.cc): the real ids of a task.
pub mod Credentials
use arthur.Base.{
  ℕ, zero, suc, ◌+◌, Bool, true, false, not, ◌&&◌, ◌||◌, if◌then◌else◌, ltb, ◌==◌, Option, none,
  some, List, [], ◌∷◌, Bytes, length, take, drop,
}
use arthur.Base.Results.{Result, Error, ok, err, and_then}
use arthur.Stream.ProcFile.{ProcFile}
use arthur.Proc.Text.{span, drop_while, is_blank, is_decimal, number, u32_max, same_text, has_nul}
use arthur.Proc.Lines.{contents, for_lines}

pub record Status : Type 0 where
  pub uid : ℕ
  pub gid : ℕ

-- The object, and the variables `saw_uid` and `saw_gid` of `Parse`.
pub record Progress : Type 0 where
  pub status : Status
  pub saw_uid : Bool
  pub saw_gid : Bool

abbrev pub uid_field : Bytes
uid_field = b'U' ∷ b'i' ∷ b'd' ∷ b':' ∷ []

abbrev pub gid_field : Bytes
gid_field = b'G' ∷ b'i' ∷ b'd' ∷ b':' ∷ []

abbrev pub push_id : ℕ → Option (List ℕ × Bytes) → Option (List ℕ × Bytes)
push_id id none = none
push_id id (some (ids, rest)) = some (id ∷ ids, rest)

-- The loop over `values`. A number that `strtoull` refuses as out of range is no 32-bit number either.
unfoldable pub read_ids : ℕ → Bytes → Option (List ℕ × Bytes)
read_ids zero p = some ([], p)
read_ids (suc n) p =
    let (blanks, q) = span is_blank p in
    let (digits, rest) = span is_decimal q in
    let ids = read_ids n rest in
    if length blanks == 0 || length digits == 0
    then none
    else if ltb u32_max (number 10 digits)
    then none
    else push_id (number 10 digits) ids

-- The real id, the first of four; behind them a line may hold blanks.
abbrev pub real_of : Option (List ℕ × Bytes) → Option ℕ
real_of none = none
real_of (some ([], rest)) = none
real_of (some (id ∷ ids, rest)) = if length (drop_while is_blank rest) == 0 then some id else none

unfoldable pub real_id : Bytes → Option ℕ
real_id line = real_of (read_ids 4 (drop 4 line))

abbrev pub store_uid : Option ℕ → Progress → Result (Unit {0}) × Progress
store_uid none st = (err Error.fault, record st { saw_uid = true })
store_uid (some id) st =
    (ok tt, record st { status = record st.status { uid = id }; saw_uid = true })

abbrev pub store_gid : Option ℕ → Progress → Result (Unit {0}) × Progress
store_gid none st = (err Error.fault, record st { saw_gid = true })
store_gid (some id) st =
    (ok tt, record st { status = record st.status { gid = id }; saw_gid = true })

-- One line.
unfoldable pub take_line : Bytes → Progress → Result (Unit {0}) × Progress
take_line line st =
    if same_text (take 4 line) uid_field
    then (if st.saw_uid then (err Error.fault, st) else store_uid (real_id line) st)
    else if same_text (take 4 line) gid_field
    then (if st.saw_gid then (err Error.fault, st) else store_gid (real_id line) st)
    else (ok tt, st)

unfoldable pub finish : Result (Unit {0}) × Progress → Result (Unit {0}) × Status
finish (ok _, st) =
    if not st.saw_uid || not st.saw_gid then (err Error.fault, st.status) else (ok tt, st.status)
finish (err e, st) = (err e, st.status)

unfoldable pub parse : Option ProcFile → Status → Result (Unit {0}) × Status
parse none v = (err Error.fault, v)
parse (some pf) v =
    if pf.f_size == 0 || has_nul (contents pf)
    then (err Error.fault, v)
    else finish (
        for_lines (pf.f_size + 1) (some pf) take_line 0
          (record { status = v; saw_uid = false; saw_gid = false }))
