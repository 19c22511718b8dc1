-- ===== src/Core/Loads/Process.antt =====
-- The memory regions that `ProcMaps::Parse` gives, laid out by `expected_load_phdrs`.
use arthur.Base.{
  ℕ, suc, ◌+◌, ◌≡◌, ◌≤◌, ◌<◌, refl, ap, arith, Bool, true, false, not, if◌then◌else◌, ◌==◌,
}
use arthur.Base.{Option, List, [], ◌∷◌, length, All}
use arthur.Base.Results.{ok}
use arthur.Stream.ProcFile.{ProcFile}
use arthur.Core.Loads.{MemRegion, Loads, file_size, memory_size, ssize_max, expected_load_phdrs}
use arthur.Core.Loads.Layout.{captured, laid_out, add_phdrs_fits}
use arthur.Proc.Maps
use arthur.Proc.Maps.Order.{IsOrdered, parse-IsMap}

-- A region that ends in the lower half of the addresses.
abbrev pub EndsLow : MemRegion → Type 0
EndsLow r = r.end_addr ≤ ssize_max

pub size_within :
    (r : MemRegion)
    → r.start_addr < r.end_addr
    → r.end_addr ≤ ssize_max
    → file_size r + r.start_addr ≤ r.end_addr
size_within r h k = go (not (r.perms == 0))
  where
    go : (b : Bool) → (if b then memory_size r else 0) + r.start_addr ≤ r.end_addr
    go true = omega arith
    go false = omega arith

-- Regions in order take no more bytes than the addresses that they span.
captured-IsOrdered :
    (low high : ℕ) (rs : List MemRegion)
    → IsOrdered low rs high
    → All EndsLow rs
    → low ≤ ssize_max
    → captured rs + low ≤ ssize_max
captured-IsOrdered low high [] h k fits = omega (arith, fits)
captured-IsOrdered low high (r ∷ rs) (v, below, h) (k, ks) fits =
    omega (arith, size_within r v.not_empty k, captured-IsOrdered r.end_addr high rs h ks k)

length-laid_out : (total : ℕ) (rs : List MemRegion) → length (laid_out total rs) ≡ length rs
length-laid_out total [] = refl
length-laid_out total (r ∷ rs) = ap suc (length-laid_out (total + file_size r) rs)

-- The regions that `ProcMaps::Parse` leaves, whatever the file, are always laid out, if they end in the
-- lower half of the addresses: there is a program header for each, and the bytes that are stored for
-- them, which are counted without a wrap, come to at most SSIZE_MAX.
pub expected_load_phdrs-parse :
    (pf : Option ProcFile)
    → All EndsLow (Maps.parse pf).1
    → (out : Loads) × (expected_load_phdrs (Maps.parse pf).1 ≡ (ok tt, out))
      × (length out.phdrs ≡ length (Maps.parse pf).1)
      × (out.total_bytes ≡ captured (Maps.parse pf).1)
      × (out.total_bytes ≤ ssize_max)
unfolding expected_load_phdrs
expected_load_phdrs-parse pf h =
    let maps = (Maps.parse pf).1 in
    let v = parse-IsMap pf in
    let bounded = captured-IsOrdered 0 v.top maps v.ordered h (omega arith) in
    (
      record { phdrs = laid_out 0 maps; total_bytes = 0 + captured maps },
      add_phdrs_fits maps (record { phdrs = []; total_bytes = 0 }) (omega (arith, bounded)),
      length-laid_out 0 maps,
      omega arith,
      omega (arith, bounded),
    )
