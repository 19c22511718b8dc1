-- ===== src/Proc/Stat/Success.antt =====
-- What a call on `ProcStat` (src/proc.cc) leaves where it succeeds.
use arthur.Base.{◌≡◌, refl, Bool, true, false, if◌then◌else◌}
use arthur.Base.Results.{Result, Error, ok, err, and_then}
use arthur.Proc.Stat.{Stat}

-- What holds of the object when the call succeeds.
abbrev pub Then : (Stat → Type 0) → Result (Unit {0}) × Stat → Type 0
Then P (ok u, st) = P st
Then P (err e, st) = Unit {0}

module _ (P : Stat → Type 0) where
  pub refused-Then :
      (b : Bool) (e : Error) (st : Stat) (p : Result (Unit {0}) × Stat)
      → (b ≡ false → Then P p)
      → Then P (if b then (err e, st) else p)
  refused-Then true e st p h = tt
  refused-Then false e st p h = h refl

  pub and_then-Then :
      (Q : Stat → Type 0) (p : Result (Unit {0}) × Stat)
      (f : Unit {0} → Stat → Result (Unit {0}) × Stat)
      → Then Q p
      → ((st : Stat) → Q st → Then P (f tt st))
      → Then P (and_then p f)
  and_then-Then Q (ok u, st) f h k = k st h
  and_then-Then Q (err e, st) f h k = tt

pub Then-imp :
    (P Q : Stat → Type 0) (p : Result (Unit {0}) × Stat)
    → Then P p
    → ((st : Stat) → P st → Q st)
    → Then Q p
Then-imp P Q (ok u, st) h f = f st h
Then-imp P Q (err e, st) h f = tt
