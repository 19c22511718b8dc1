-- ===== src/Proc/Maps/RoundTrip.antt =====
-- A maps file of the kernel's lines is parsed into the regions of these lines.
use arthur.Base.{ℕ, suc, ◌+◌, ◌≡◌, ◌≤◌, refl, sym, ap, ◌∙◌, arith}
use arthur.Base.{
  some, List, [], ◌∷◌, ◌++◌, append_assoc, append-nil, Bytes, length, length-append, All,
}
use arthur.Base.Results.{Result, ok, and_then-ok}
use arthur.Stream.ProcFile.{ProcFile}
use arthur.Proc.Text.{number}
use arthur.Proc.Lines.{text_of, fold_lines}
use arthur.Proc.Lines.Walk.{IsLine, IsAt, for_lines-fold_lines, length-le-text_of}
use arthur.Core.Loads.{MemRegion}
use arthur.Proc.Maps.{Progress, max_regions, take_line, finish, parse}
use arthur.Proc.Maps.Grammar.{LineText, IsLineText, line_text}
use arthur.Proc.Maps.Files.{region_text, take_line-line_text, name_shorter}

-- Lines whose regions follow one another, from an address on.
abbrev pub AreLines : ℕ → List LineText → Type 0
AreLines low [] = Unit {0}
AreLines low (t ∷ ts) = IsLineText t × (low ≤ number 16 t.start) × AreLines (number 16 t.end) ts

abbrev pub lines_text : List LineText → List Bytes
lines_text [] = []
lines_text (t ∷ ts) = line_text t ∷ lines_text ts

abbrev pub regions_text : List LineText → List MemRegion
regions_text [] = []
regions_text (t ∷ ts) = region_text t ∷ regions_text ts

abbrev last_end : ℕ → List LineText → ℕ
last_end low [] = low
last_end low (t ∷ ts) = last_end (number 16 t.end) ts

length-lines_text : (ts : List LineText) → length (lines_text ts) ≡ length ts
length-lines_text [] = refl
length-lines_text (t ∷ ts) = ap suc (length-lines_text ts)

length-regions_text : (ts : List LineText) → length (regions_text ts) ≡ length ts
length-regions_text [] = refl
length-regions_text (t ∷ ts) = ap suc (length-regions_text ts)

lines_text-IsLine : (low : ℕ) (ts : List LineText) → AreLines low ts → All IsLine (lines_text ts)
lines_text-IsLine low [] h = tt
lines_text-IsLine low (t ∷ ts) (v, _, h) =
    ((omega (arith, name_shorter t), v.one_line), lines_text-IsLine (number 16 t.end) ts h)

fold_lines-lines_text :
    (ts : List LineText) (regions : List MemRegion) (low : ℕ)
    → AreLines low ts
    → length regions + length ts ≤ max_regions
    → fold_lines take_line (lines_text ts) (record { regions = regions; previous_end = low })
      ≡ (ok tt, record { regions = regions ++ regions_text ts; previous_end = last_end low ts })
unfolding fold_lines
fold_lines-lines_text [] regions low h room = ap kept (sym (append-nil regions))
  where
    kept : List MemRegion → Result (Unit {0}) × Progress
    kept regions = (ok tt, record { regions = regions; previous_end = low })
fold_lines-lines_text (t ∷ ts) regions low (v, k, h) room =
    and_then-ok _
      (take_line-line_text t (record { regions = regions; previous_end = low }) v k (omega arith))
    ∙ fold_lines-lines_text ts (regions ++ (region_text t ∷ [])) (number 16 t.end) h
        (omega (arith, length-append regions (region_text t ∷ [])))
    ∙ ap kept (append_assoc regions (region_text t ∷ []) (regions_text ts))
  where
    kept : List MemRegion → Result (Unit {0}) × Progress
    kept regions =
        (ok tt, record { regions = regions; previous_end = last_end (number 16 t.end) ts })

-- A maps file of lines in the kernel's format, whose regions are in order and do not overlap, is parsed
-- into the regions that the lines describe: the addresses, the permissions, the offset, the device and
-- the inode as numbers, and the name with its spaces. The lines are at most 2^20 and the file is smaller than
-- 2 GiB.
pub parse-lines_text :
    (pf : ProcFile) (ts : List LineText)
    → AreLines 0 ts
    → length ts ≤ max_regions
    → IsAt pf 0 (text_of (lines_text ts))
    → parse (some pf) ≡ (ok (length ts), regions_text ts)
unfolding parse
parse-lines_text pf ts h few at_start =
    ap finish (
      for_lines-fold_lines take_line (lines_text ts) (pf.f_size + 1) pf 0
        (record { regions = []; previous_end = 0 }) (lines_text-IsLine 0 ts h)
        (omega (arith, at_start.ends, length-le-text_of (lines_text ts))) at_start
      ∙ fold_lines-lines_text ts [] 0 h (omega (arith, few)))
    ∙ ap counted (length-regions_text ts)
  where
    counted : ℕ → Result ℕ × List MemRegion
    counted n = (ok n, regions_text ts)
