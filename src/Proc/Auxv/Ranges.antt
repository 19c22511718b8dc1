-- ===== src/Proc/Auxv/Ranges.antt =====
-- What holds of a parsed auxiliary vector, whatever the file.
use Prim.Native.Nat.{bit_and}
use arthur.Base.{
  ℕ, zero, suc, ◌-◌, ◌/◌, ◌%◌, ◌||◌, ltb, ◌≤◌, ◌≡◌, refl, arith, Option, none, some, Bytes, take,
  drop, ◌==◌, not,
}
use arthur.Base.Words.{le_value}
use arthur.Base.Results.{Error, ok, err, and_then-keep, if-keep}
use arthur.Stream.ProcFile.{ProcFile}
use arthur.Proc.Text.{u32_max}
use arthur.Proc.Lines.{contents}
use arthur.Proc.Auxv.{Auxv, at_null, set_entry, read_entries, parse}

-- The ids are 32-bit numbers, and the page size is a power of two of 32 bits, or 0.
pub record IsAuxv (v : Auxv) : Type 0 where
  pub uid_fits : v.uid ≤ u32_max
  pub gid_fits : v.gid ≤ u32_max
  pub euid_fits : v.euid ≤ u32_max
  pub egid_fits : v.egid ≤ u32_max
  pub page_fits : v.page_size ≤ u32_max
  pub page_power : bit_and v.page_size (v.page_size - 1) ≡ 0

set_entry-IsAuxv : (type val : ℕ) (v : Auxv) → IsAuxv v → IsAuxv (set_entry type val v).1
unfolding set_entry
set_entry-IsAuxv type val v h = ground arith

read_entries-IsAuxv :
    (left : ℕ) (s : Bytes) (v : Auxv) → IsAuxv v → IsAuxv (read_entries left s v).1
unfolding read_entries
read_entries-IsAuxv zero s v h = h
read_entries-IsAuxv (suc left) s v h =
    let type = le_value (take 8 s) in
    let val = le_value (take 8 (drop 8 s)) in
    if-keep IsAuxv (type == at_null) _ _
      (if-keep IsAuxv (not (left == 0)) (err Error.fault, v) (ok tt, v) h h)
      (and_then-keep IsAuxv (set_entry type val v) _ (set_entry-IsAuxv type val v h)
        (λ _ v' h'. read_entries-IsAuxv left (drop 16 s) v' h'))

-- Whatever the file holds, and whether or not it is accepted, an object with ids of 32 bits and a page
-- size that is 0 or a power of two is such an object after `Parse`.
pub parse-IsAuxv : (pf : Option ProcFile) (v : Auxv) → IsAuxv v → IsAuxv (parse pf v).1
unfolding parse
parse-IsAuxv none v h = h
parse-IsAuxv (some pf) v h =
    if-keep IsAuxv (ltb pf.f_size 16 || not (pf.f_size % 16 == 0)) (err Error.fault, v) _ h
      (read_entries-IsAuxv (pf.f_size / 16) (contents pf)
        (record { uid = 0; gid = 0; euid = 0; egid = 0; page_size = 0 })
        (record {
          uid_fits = omega arith;
          gid_fits = omega arith;
          euid_fits = omega arith;
          egid_fits = omega arith;
          page_fits = omega arith;
          page_power = refl;
        }))
