-- ===== src/Core/Process/Parsed.antt =====
-- What `ParseAll` has established where it succeeds.
use arthur.Base.{ℕ, ◌≡◌, true}
use arthur.Base.{Option, none, some, All}
use arthur.Stream.ProcFile.{ProcFile}
use arthur.Proc.Maps
use arthur.Proc.Maps.Order.{IsMap}
use arthur.Proc.Cmdline
use arthur.Proc.Auxv
use arthur.Proc.Auxv.{Auxv}
use arthur.Proc.Auxv.Ranges.{IsAuxv}
use arthur.Proc.Stat
use arthur.Proc.Stat.{Stat}
use arthur.Proc.Stat.Ranges.{IsStat}
use arthur.Core.Process.{ThreadData, ProcessData, same_pid}

-- A status in its ranges, of the process of a number.
abbrev pub IsStatusOf : ℕ → ℕ → Option Stat → Type 0
IsStatusOf page_size pid none = ⊥
IsStatusOf page_size pid (some st) = IsStat page_size st × (same_pid st.pid pid ≡ true)

-- The status of the process, which the first versions lack.
abbrev pub IsProcessStatus : ℕ → Option ProcFile → Option Stat → Type 0
IsProcessStatus page_size none st = Unit {0}
IsProcessStatus page_size (some pf) st = IsStatusOf page_size pf.f_pid st

pub record IsParsed (page_size : ℕ) (p : ProcessData) : Type 0 where
  pub regions : IsMap p.d_maps
  pub vector : IsAuxv p.d_auxv
  pub status : IsProcessStatus page_size p.stat p.d_stat
  pub credentials : p.credentials_valid ≡ true
  pub thread_status : All (λ (t : ThreadData). IsStatusOf page_size t.pid t.d_stat) p.threads

module _ (page_size : ℕ) where
  -- What holds before the threads.
  record IsReady (p : ProcessData) : Type 0 where
    maps_ready : IsMap p.d_maps
    auxv_ready : IsAuxv p.d_auxv
    stat_ready : IsProcessStatus page_size p.stat p.d_stat
    credentials_ready : p.credentials_valid ≡ true
