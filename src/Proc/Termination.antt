-- ===== src/Proc/Termination.antt =====
-- The parsers of maps and status files end by themselves.
use arthur.Base.{
  leb, ltb, ◌++◌, ℕ, ◌+◌, ◌≤◌, ◌||◌, not, arith, Bool, true, false, if◌then◌else◌, Option, none,
  some, [], ◌∷◌, Bytes, length, length-take,
}
use arthur.Base.Results.{Result, Error, ok, err}
use arthur.Stream.ProcFile.{ProcFile}
use arthur.Proc.Text.{has_nul}
use arthur.Base.Results.{Ends}
use arthur.Proc.Lines.Ends.{left, for_lines-Ends}
use arthur.Proc.Maps
use arthur.Proc.Maps.{MapsLine}
use arthur.Proc.Status
use arthur.Proc.Status.{Status, Progress}

if-Ends :
    {A S : Type 0} (b : Bool) (p q : Result A × S) → Ends p → Ends q → Ends (if b then p else q)
if-Ends true p q h k = h
if-Ends false p q h k = k

fault-Ends : {A S : Type 0} (s : S) → Ends {A = A} (err Error.fault, s)
fault-Ends s = record { enough = λ q. cc }

ok-Ends : {A S : Type 0} (a : A) (s : S) → Ends (ok a, s)
ok-Ends a s = record { enough = λ q. cc }

add_region-Ends :
    (line : Bytes) (o : Option MapsLine) (st : Maps.Progress) → Ends (Maps.add_region line o st)
unfolding Maps.add_region
add_region-Ends line none st = fault-Ends st
add_region-Ends line (some fields) st =
    if-Ends
      (not (Maps.is_perm fields.perm)
        || (leb fields.end_addr fields.start_addr || ltb fields.start_addr st.previous_end))
      _ _ (fault-Ends st)
      (if-Ends (leb Maps.max_regions (length st.regions)) _ _
        (fault-Ends (record st { previous_end = fields.end_addr }))
        (ok-Ends tt (record {
          regions = st.regions ++ (Maps.region_of line fields ∷ []);
          previous_end = fields.end_addr;
        })))

maps_line-Ends : (line : Bytes) (st : Maps.Progress) → Ends (Maps.take_line line st)
unfolding Maps.take_line
maps_line-Ends line st =
    if-Ends (has_nul line) _ _ (fault-Ends st) (add_region-Ends line (Maps.scan_line line) st)

left_bound : (pf : Option ProcFile) → left pf 0 ≤ Maps.size_of pf
left_bound none = omega arith
left_bound (some pf) = omega (arith, length-take pf.f_size pf.f_data)

-- The loop of `ProcMaps::Parse` ends by itself on every file.
pub maps_parse-Ends : (pf : Option ProcFile) → Ends (Maps.parse pf)
unfolding Maps.parse
maps_parse-Ends pf = finished _ (
    for_lines-Ends Maps.take_line maps_line-Ends (Maps.size_of pf + 1) pf 0
      (record { regions = []; previous_end = 0 }) (omega (arith, left_bound pf)))
  where
    finished : (p : Result (Unit {0}) × Maps.Progress) → Ends p → Ends (Maps.finish p)
    finished (ok u, st) h = ok-Ends (length st.regions) st.regions
    finished (err e, st) h = record { enough = λ q. h.enough (cc) }

store_uid-Ends : (o : Option ℕ) (st : Progress) → Ends (Status.store_uid o st)
store_uid-Ends none st = fault-Ends _
store_uid-Ends (some id) st = ok-Ends tt _

store_gid-Ends : (o : Option ℕ) (st : Progress) → Ends (Status.store_gid o st)
store_gid-Ends none st = fault-Ends _
store_gid-Ends (some id) st = ok-Ends tt _

status_line-Ends : (line : Bytes) (st : Progress) → Ends (Status.take_line line st)
unfolding Status.take_line
status_line-Ends line st =
    if-Ends _ _ _ (if-Ends st.saw_uid _ _ (fault-Ends st) (store_uid-Ends (Status.real_id line) st))
      (if-Ends _ _ _
        (if-Ends st.saw_gid _ _ (fault-Ends st) (store_gid-Ends (Status.real_id line) st))
        (ok-Ends tt st))

-- The loop of `ProcStatus::Parse` ends by itself on every file.
pub status_parse-Ends : (pf : Option ProcFile) (v : Status) → Ends (Status.parse pf v)
unfolding Status.parse Status.finish
status_parse-Ends none v = fault-Ends v
status_parse-Ends (some pf) v = if-Ends _ _ _ (fault-Ends v) (
    finished _ (
      for_lines-Ends Status.take_line status_line-Ends (pf.f_size + 1) (some pf) 0
        (record { status = v; saw_uid = false; saw_gid = false })
        (omega (arith, left_bound (some pf)))))
  where
    finished : (p : Result (Unit {0}) × Progress) → Ends p → Ends (Status.finish p)
    finished (ok u, st) h = if-Ends _ _ _ (fault-Ends st.status) (ok-Ends tt st.status)
    finished (err e, st) h = record { enough = λ q. h.enough (cc) }
