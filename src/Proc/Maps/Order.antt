-- ===== src/Proc/Maps/Order.antt =====
-- The order of the regions that a maps file gives.
use arthur.Base.{ℕ, ◌+◌, ◌≡◌, ◌≤◌, ◌<◌, arith, true, false, not, ◌||◌, leb, ltb}
use arthur.Base.{Option, none, some, List, [], ◌∷◌, ◌++◌, Bytes, length, length-append}
use arthur.Base.Results.{Result, Error, ok, err, if-keep, if-keep_known}
use arthur.Stream.ProcFile.{ProcFile}
use arthur.Proc.Text.{has_nul}
use arthur.Proc.Lines.{for_lines}
use arthur.Proc.Lines.Walk.{for_lines-keep}
use arthur.Core.Loads.{MemRegion}
use arthur.Proc.Maps.{
  MapsLine, Progress, max_regions, is_perm, region_of, scan_line, add_region, take_line, size_of,
  finish, parse,
}

-- A region that is not empty, with permissions of three bits, and either private or shared.
pub record IsRegion (r : MemRegion) : Type 0 where
  pub not_empty : r.start_addr < r.end_addr
  pub perms_fit : r.perms < 8
  pub one_kind : r.is_private + r.is_shared ≡ 1

-- Regions from `low` to `high`, in order and without overlap.
abbrev pub IsOrdered : ℕ → List MemRegion → ℕ → Type 0
IsOrdered low [] high = low ≤ high
IsOrdered low (r ∷ rs) high = IsRegion r × (low ≤ r.start_addr) × IsOrdered r.end_addr rs high

IsOrdered-concat :
    (low high : ℕ) (rs : List MemRegion) (r : MemRegion)
    → IsOrdered low rs high
    → IsRegion r
    → high ≤ r.start_addr
    → IsOrdered low (rs ++ (r ∷ [])) r.end_addr
IsOrdered-concat low high [] r h v k = (v, omega arith, omega arith)
IsOrdered-concat low high (q ∷ rs) r (u, below, h) v k =
    (u, below, IsOrdered-concat q.end_addr high rs r h v k)

region_of-IsRegion :
    (line : Bytes) (fields : MapsLine)
    → is_perm fields.perm ≡ true
    → fields.start_addr < fields.end_addr
    → IsRegion (region_of line fields)
unfolding region_of is_perm
region_of-IsRegion line fields h k = ground arith

-- The vector never has more than 2^20 regions, and they end where the last one does.
pub record IsProgress (st : Progress) : Type 0 where
  pub top : ℕ
  pub ordered : IsOrdered 0 st.regions top
  pub reached : top ≤ st.previous_end
  pub bounded : length st.regions ≤ max_regions

module _ (st : Progress) (fields : MapsLine) where
  -- What the guard of a line lets pass.
  accepted :
      (not (is_perm fields.perm)
          || (leb fields.end_addr fields.start_addr || ltb fields.start_addr st.previous_end))
        ≡ false
      → (is_perm fields.perm ≡ true)
        × (fields.start_addr < fields.end_addr)
        × (st.previous_end ≤ fields.start_addr)
  accepted h = ground arith

add_region-IsProgress :
    (line : Bytes) (o : Option MapsLine) (st : Progress)
    → IsProgress st
    → IsProgress (add_region line o st).1
unfolding add_region region_of
add_region-IsProgress line none st v = v
add_region-IsProgress line (some fields) st v =
    if-keep_known IsProgress _ (err Error.fault, st) _ (λ _. v)
      λ passed.
        let (perms, filled, above) = accepted st fields passed in
        if-keep_known IsProgress (leb max_regions (length st.regions)) _ _
          (λ _. record {
            top = v.top;
            ordered = v.ordered;
            reached = omega (arith, v.reached);
            bounded = v.bounded;
          })
          λ room. record {
            top = fields.end_addr;
            ordered =
                IsOrdered-concat 0 v.top st.regions (region_of line fields) v.ordered
                  (region_of-IsRegion line fields perms filled) (omega (arith, v.reached));
            reached = omega arith;
            bounded = omega (
              arith,
              length-append st.regions (region_of line fields ∷ []),
              below (length st.regions) room,
            );
          }
  where
    below : (n : ℕ) → leb max_regions n ≡ false → n < max_regions
    below n h = ground arith

take_line-IsProgress :
    (line : Bytes) (st : Progress) → IsProgress st → IsProgress (take_line line st).1
unfolding take_line
take_line-IsProgress line st v =
    if-keep IsProgress (has_nul line) (err Error.fault, st) _ v
      (add_region-IsProgress line (scan_line line) st v)

-- Regions in the order of their addresses, that do not overlap, and are at most 2^20.
pub record IsMap (regions : List MemRegion) : Type 0 where
  pub top : ℕ
  pub ordered : IsOrdered 0 regions top
  pub bounded : length regions ≤ max_regions

-- Whatever the file holds, and whether or not it is accepted, the regions that `Parse` leaves are in the
-- order of their addresses, do not overlap, and are at most 2^20; each is not empty, has three bits of
-- permissions, and is either private or shared.
pub parse-IsMap : (pf : Option ProcFile) → IsMap (parse pf).1
unfolding parse
parse-IsMap pf = finished (for_lines (size_of pf + 1) pf take_line 0 start) (
    for_lines-keep IsProgress take_line take_line-IsProgress (size_of pf + 1) pf 0 start
      (record { top = 0; ordered = omega arith; reached = omega arith; bounded = omega arith }))
  where
    start : Progress
    start = record { regions = []; previous_end = 0 }

    finished : (p : Result (Unit {0}) × Progress) → IsProgress p.1 → IsMap (finish p).1
    finished (ok u, st) v = record { top = v.top; ordered = v.ordered; bounded = v.bounded }
    finished (err e, st) v = record { top = v.top; ordered = v.ordered; bounded = v.bounded }
