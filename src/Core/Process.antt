-- ===== src/Core/Process.antt =====
-- `ProcessData::ParseAll` (src/core.cc): the parsers of the /proc files, run on the records of an acore
-- file, and the checks that the records belong together.
pub mod Parsed
pub mod Tests
use arthur.Base.{ℕ, zero, suc, ◌-◌, ◌^◌, Bool, true, false, not, ◌&&◌, if◌then◌else◌, ltb, ◌==◌}
use arthur.Base.{Option, none, some, List, [], ◌∷◌, Bytes}
use arthur.Base.Results.{Result, Error, ok, err, and_then}
use arthur.Stream.ProcFile.{ProcFile}
use arthur.Proc.Text.{ℤ, pos, negsuc}
use arthur.Core.Loads.{MemRegion}
use arthur.Proc.Maps
use arthur.Proc.Cmdline
use arthur.Proc.Auxv
use arthur.Proc.Auxv.{Auxv}
use arthur.Proc.Stat
use arthur.Proc.Stat.{Stat}

-- A thread's number, its status record, and the parsed status.
pub record ThreadData : Type 0 where
  pub pid : ℕ
  pub stat : Option ProcFile
  pub d_stat : Option Stat

-- The records, and what was parsed.
pub record ProcessData : Type 0 where
  pub cmdline : Option ProcFile
  pub auxv : Option ProcFile
  pub maps : Option ProcFile
  pub stat : Option ProcFile
  pub d_cmdline : List Bytes
  pub d_maps : List MemRegion
  pub d_auxv : Auxv
  pub d_stat : Option Stat
  pub uid : ℕ
  pub gid : ℕ
  pub credentials_valid : Bool
  pub threads : List ThreadData

-- `new ProcAuxv`
abbrev pub fresh_auxv : Auxv
fresh_auxv = record { uid = 0; gid = 0; euid = 0; egid = 0; page_size = 0 }

-- A process number that was parsed, and one of 32 bits, as a `pid_t`.
abbrev pub same_pid : ℤ → ℕ → Bool
same_pid (pos n) pid = ltb pid (2 ^ 31) && n == pid
same_pid (negsuc n) pid = not (ltb pid (2 ^ 31)) && n == 2 ^ 32 - 1 - pid

-- A parser that must return a positive number.
abbrev pub positive : Result ℕ → ProcessData → Result (Unit {0}) × ProcessData
positive (ok zero) p = (err Error.fault, p)
positive (ok (suc n)) p = (ok tt, p)
positive (err e) p = (err Error.fault, p)

-- A parser that must succeed.
abbrev pub accepted : {A : Type 0} → Result A → ProcessData → Result (Unit {0}) × ProcessData
accepted (ok a) p = (ok tt, p)
accepted (err e) p = (err Error.fault, p)

unfoldable pub parse_maps : ProcessData → Result (Unit {0}) × ProcessData
parse_maps p = let (rc, regions) = Maps.parse p.maps in positive rc (record p { d_maps = regions })

unfoldable pub parse_cmdline : ProcessData → Result (Unit {0}) × ProcessData
parse_cmdline p =
    let (rc, argv) = Cmdline.parse p.cmdline in accepted rc (record p { d_cmdline = argv })

unfoldable pub parse_auxv : ProcessData → Result (Unit {0}) × ProcessData
parse_auxv p = let (rc, v) = Auxv.parse p.auxv fresh_auxv in accepted rc (record p { d_auxv = v })

-- Whether the status of a process was parsed, and is that of its number.
abbrev pub is_status_of : ℕ → Result (Unit {0}) × Stat → Bool
is_status_of pid (err e, st) = false
is_status_of pid (ok _, st) = same_pid st.pid pid

-- `page_size` is what `sysconf(_SC_PAGESIZE)` gives.
unfoldable pub parse_stat : ℤ → Option ProcFile → ProcessData → Result (Unit {0}) × ProcessData
parse_stat page_size none p = (ok tt, p)
parse_stat page_size (some pf) p =
    let q = Stat.parse page_size (some pf) Stat.fresh in
    let p' = record p { d_stat = some q.1 } in
    if not (is_status_of pf.f_pid q) then (err Error.fault, p') else (ok tt, p')

-- Archives of the first versions have no credentials of their own.
unfoldable pub set_credentials : ProcessData → ProcessData
set_credentials p =
    if not p.credentials_valid
    then record p { uid = p.d_auxv.uid; gid = p.d_auxv.gid; credentials_valid = true }
    else p

-- `for (auto& t: _threads)`
unfoldable pub parse_threads : ℤ → List ThreadData → Result (Unit {0}) × List ThreadData
parse_threads page_size [] = (ok tt, [])
parse_threads page_size (t ∷ threads) =
    let q = Stat.parse page_size t.stat Stat.fresh in
    let t' = record t { d_stat = some q.1 } in
    let rest = parse_threads page_size threads in
    if not (is_status_of t.pid q) then (err Error.fault, t' ∷ threads) else (rest.0, t' ∷ rest.1)

abbrev pub on_threads :
    Result (Unit {0}) × List ThreadData → ProcessData → Result (Unit {0}) × ProcessData
on_threads (rc, threads) p = (rc, record p { threads = threads })

unfoldable pub parse_all : ℤ → ProcessData → Result (Unit {0}) × ProcessData
parse_all page_size p = and_then (parse_maps p) λ _ p₁. and_then (parse_cmdline p₁) λ _ p₂.
    and_then (parse_auxv p₂) λ _ p₃.
      and_then (parse_stat page_size p₃.stat p₃)
        λ _ p₄. let p₅ = set_credentials p₄ in on_threads (parse_threads page_size p₅.threads) p₅
