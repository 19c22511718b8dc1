-- ===== src/Proc/Auxv.antt =====
-- `ProcAuxv` (src/proc.h, src/proc.cc).
pub mod Entries
pub mod Ranges
use Prim.Native.Nat.{bit_and}
use arthur.Base.{
  ℕ, zero, suc, ◌-◌, ◌/◌, ◌%◌, ◌||◌, not, ltb, ◌==◌, if◌then◌else◌, Option, none, some, Bytes, take,
  drop,
}
use arthur.Base.Words.{le_value}
use arthur.Base.Results.{Result, Error, ok, err, and_then}
use arthur.Stream.ProcFile.{ProcFile}
use arthur.Proc.Text.{u32_max}
use arthur.Proc.Lines.{contents}

pub record Auxv : Type 0 where
  pub uid : ℕ
  pub gid : ℕ
  pub euid : ℕ
  pub egid : ℕ
  pub page_size : ℕ

-- The entry types that the parser knows, by their numbers in the system's elf.h.
abbrev pub at_null : ℕ
at_null = 0

abbrev pub at_pagesz : ℕ
at_pagesz = 6

abbrev pub at_uid : ℕ
at_uid = 11

abbrev pub at_euid : ℕ
at_euid = 12

abbrev pub at_gid : ℕ
at_gid = 13

abbrev pub at_egid : ℕ
at_egid = 14

-- The `switch` on an entry that is not AT_NULL.
unfoldable pub set_entry : ℕ → ℕ → Auxv → Result (Unit {0}) × Auxv
set_entry type val v =
    if type == at_uid
    then (if ltb u32_max val then (err Error.fault, v) else (ok tt, record v { uid = val }))
    else if type == at_gid
    then (if ltb u32_max val then (err Error.fault, v) else (ok tt, record v { gid = val }))
    else if type == at_euid
    then (if ltb u32_max val then (err Error.fault, v) else (ok tt, record v { euid = val }))
    else if type == at_egid
    then (if ltb u32_max val then (err Error.fault, v) else (ok tt, record v { egid = val }))
    else if type == at_pagesz
    then (if val == 0 || (ltb u32_max val || not (bit_and val (val - 1) == 0))
        then (err Error.fault, v)
        else (ok tt, record v { page_size = val }))
    else (ok tt, v)

-- The loop over the entries that are left, of sixteen bytes each. AT_NULL must be the last.
unfoldable pub read_entries : ℕ → Bytes → Auxv → Result (Unit {0}) × Auxv
read_entries zero s v = (err Error.fault, v)
read_entries (suc left) s v =
    let type = le_value (take 8 s) in
    let val = le_value (take 8 (drop 8 s)) in
    let rest = and_then (set_entry type val v) (λ _ v'. read_entries left (drop 16 s) v') in
    if type == at_null then (if not (left == 0) then (err Error.fault, v) else (ok tt, v)) else rest

unfoldable pub parse : Option ProcFile → Auxv → Result (Unit {0}) × Auxv
parse none v = (err Error.fault, v)
parse (some pf) v =
    if ltb pf.f_size 16 || not (pf.f_size % 16 == 0)
    then (err Error.fault, v)
    else read_entries (pf.f_size / 16) (contents pf)
        (record { uid = 0; gid = 0; euid = 0; egid = 0; page_size = 0 })
