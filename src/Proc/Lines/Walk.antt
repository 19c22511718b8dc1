-- ===== src/Proc/Lines/Walk.antt =====
-- The line loop of the parsers takes the lines of a text one by one.
use arthur.Base.{
  ℕ, zero, suc, ◌+◌, ◌-◌, ◌^◌, ◌≡◌, ◌≤◌, ◌<◌, refl, sym, ap, ◌∙◌, arith, true, false, if_true,
  if_false, leb, ◌||◌,
}
use arthur.Base.{
  Option, some, List, [], ◌∷◌, ◌++◌, Bytes, length, drop, All, length-append, drop-append,
  drop-drop, append_assoc,
}
use arthur.Base.Results.{Result, ok, err, and_then, and_then-keep}
use arthur.Stream.ProcFile.{ProcFile}
use arthur.Proc.Text.{drop_while}
use arthur.Proc.Text.Scan.{Passes, StopsAt, span-append, drop_while-append}
use arthur.Proc.Lines.{
  is_newline, in_line, contents, split_line, readline, line_round, for_lines, fold_lines, text_of,
}

-- A line that is not empty.
abbrev pub IsLine : Bytes → Type 0
IsLine line = (0 < length line) × Passes in_line line

-- The bytes in front of a text of lines are one of them.
text_of-StopsAt : (lines : List Bytes) → All IsLine lines → StopsAt is_newline (text_of lines)
unfolding is_newline in_line
text_of-StopsAt [] h = tt
text_of-StopsAt ([] ∷ lines) ((h, k), hs) = absurd (omega arith)
text_of-StopsAt ((c ∷ line) ∷ lines) ((h, k), hs) = ground arith

newline_passes : is_newline b'\n' ≡ true
unfolding is_newline
newline_passes = refl

newline_stops : in_line b'\n' ≡ false
unfolding in_line
newline_stops = refl

split_line-text_of :
    (line : Bytes) (lines : List Bytes)
    → Passes in_line line
    → All IsLine lines
    → split_line (line ++ (b'\n' ∷ text_of lines)) ≡ (line, text_of lines)
unfolding split_line
split_line-text_of line lines h hs =
    ap (λ r. (r.0, drop_while is_newline r.1))
      (span-append in_line line (b'\n' ∷ text_of lines) h newline_stops)
    ∙ ap (λ t. (line, t))
        (drop_while-append is_newline (b'\n' ∷ []) (text_of lines) (newline_passes, tt)
          (text_of-StopsAt lines hs))

-- A position in a file of less than 2 GiB, with the text that is still to come.
pub record IsAt (pf : ProcFile) (cur : ℕ) (text : Bytes) : Type 0 where
  pub next : drop cur (contents pf) ≡ text
  pub ends : pf.f_size ≡ cur + length text
  pub small : pf.f_size < 2 ^ 31

IsAt-advance :
    (pf : ProcFile) (cur : ℕ) (line : Bytes) (rest : Bytes)
    → IsAt pf cur (line ++ (b'\n' ∷ rest))
    → IsAt pf (cur + (length line + 1)) rest
IsAt-advance pf cur line rest v = record {
  next =
      sym (drop-drop cur (length line + 1) (contents pf))
      ∙ ap (drop (length line + 1)) (v.next ∙ sym (append_assoc line (b'\n' ∷ []) rest))
      ∙ drop-append (length line + 1) (line ++ (b'\n' ∷ [])) rest
          (sym (length-append line (b'\n' ∷ [])));
  ends = omega (arith, v.ends, length-append line (b'\n' ∷ rest));
  small = v.small;
}

readline-text_of :
    (pf : ProcFile) (cur : ℕ) (line : Bytes) (lines : List Bytes)
    → IsLine line
    → All IsLine lines
    → IsAt pf cur (text_of (line ∷ lines))
    → readline (some pf) cur ≡ (line, cur + (length line + 1))
unfolding readline
readline-text_of pf cur line lines (filled, h) hs v =
    if_false _ _ (
      before_end pf.f_size cur v.small
        (omega (arith, v.ends, length-append line (b'\n' ∷ text_of lines))))
    ∙ ap (λ s. ((split_line s).0, cur + (length s - length (split_line s).1))) v.next
    ∙ ap (λ r. (r.0, cur + (length (text_of (line ∷ lines)) - length r.1)))
        (split_line-text_of line lines h hs)
    ∙ ap (λ n. (line, cur + n)) (omega (arith, length-append line (b'\n' ∷ text_of lines)))
  where
    before_end :
        (size cur : ℕ) → size < 2 ^ 31 → cur < size → (leb (2 ^ 31) size || leb size cur) ≡ false
    before_end size cur h k = ground arith

readline-end : (pf : ProcFile) (cur : ℕ) → IsAt pf cur [] → readline (some pf) cur ≡ ([], cur)
unfolding readline
readline-end pf cur v = if_true _ _ (at_last pf.f_size cur v.ends)
  where
    at_last : (size cur : ℕ) → size ≡ cur + 0 → (leb (2 ^ 31) size || leb size cur) ≡ true
    at_last size cur h = ground arith

-- Each line has at least its newline.
pub length-le-text_of : (lines : List Bytes) → length lines ≤ length (text_of lines)
length-le-text_of [] = omega arith
length-le-text_of (line ∷ lines) =
    omega (arith, length-append line (b'\n' ∷ text_of lines), length-le-text_of lines)

module _ {S : Type 0} (body : Bytes → S → Result (Unit {0}) × S) where
  round_line :
      (again : ℕ → S → Result (Unit {0}) × S) (line : Bytes) (cur : ℕ) (st : S)
      → 0 < length line
      → line_round again body st (line, cur) ≡ and_then (body line st) (λ _ st'. again cur st')
  unfolding line_round
  round_line again [] cur st h = absurd (omega arith)
  round_line again (c ∷ line) cur st h = refl

  and_then-agree :
      (p : Result (Unit {0}) × S) (f g : Unit {0} → S → Result (Unit {0}) × S)
      → ((u : Unit {0}) (st : S) → f u st ≡ g u st)
      → and_then p f ≡ and_then p g
  and_then-agree (ok u, st) f g h = h u st
  and_then-agree (err e, st) f g h = refl

  -- On a text of lines, with a round for each line and one for the end, the loop is the fold.
  pub for_lines-fold_lines :
      (lines : List Bytes) (fuel : ℕ) (pf : ProcFile) (cur : ℕ) (st : S)
      → All IsLine lines
      → length lines < fuel
      → IsAt pf cur (text_of lines)
      → for_lines fuel (some pf) body cur st ≡ fold_lines body lines st
  unfolding for_lines fold_lines line_round
  for_lines-fold_lines lines zero pf cur st h enough v = absurd (omega arith)
  for_lines-fold_lines [] (suc fuel) pf cur st h enough v =
      ap (line_round (for_lines fuel (some pf) body) body st) (readline-end pf cur v)
  for_lines-fold_lines (line ∷ lines) (suc fuel) pf cur st (h, hs) enough v =
      ap (line_round (for_lines fuel (some pf) body) body st)
        (readline-text_of pf cur line lines h hs v)
      ∙ round_line (for_lines fuel (some pf) body) line (cur + (length line + 1)) st h.0
      ∙ and_then-agree (body line st) _ _ (λ u st'.
        for_lines-fold_lines lines fuel pf (cur + (length line + 1)) st' hs (omega arith)
          (IsAt-advance pf cur line (text_of lines) v))

-- What the body keeps of its state, the loop keeps.
pub for_lines-keep :
    {S : Type 0} (P : S → Type 0) (body : Bytes → S → Result (Unit {0}) × S)
    → ((line : Bytes) (st : S) → P st → P (body line st).1)
    → (fuel : ℕ) (pf : Option ProcFile) (cur : ℕ) (st : S) → P st
    → P (for_lines fuel pf body cur st).1
unfolding for_lines line_round
for_lines-keep P body keep zero pf cur st h = h
for_lines-keep {S} P body keep (suc fuel) pf cur st h =
    round (readline pf cur) (λ cur st. for_lines-keep P body keep fuel pf cur st)
  where
    round :
        (r : Bytes × ℕ)
        → ((cur : ℕ) (st : S) → P st → P (for_lines fuel pf body cur st).1)
        → P (line_round (for_lines fuel pf body) body st r).1
    round ([], cur) again = h
    round (c ∷ line, cur) again =
        and_then-keep P (body (c ∷ line) st) _ (keep (c ∷ line) st h) (λ _ st' h'. again cur st' h')
