-- ===== src/Proc/Lines/Ends.antt =====
-- The line loop of the parsers ends by itself.
use arthur.Base.{ℕ, zero, suc, ◌+◌, ◌-◌, ◌≤◌, ◌<◌, ap, arith, Bool, true, false, if◌then◌else◌}
use arthur.Base.{Option, none, some, [], ◌∷◌, Bytes, length, drop, length-append, length-drop}
use arthur.Base.Results.{Ends, and_then-Ends, Result}
use arthur.Stream.ProcFile.{ProcFile}
use arthur.Proc.Text.{span, drop_while}
use arthur.Proc.Text.Scan.{span-split}
use arthur.Proc.Lines.{
  is_newline, in_line, contents, at_end, split_line, readline, line_round, for_lines,
}

length-drop_while : (p : ℕ → Bool) (s : Bytes) → length (drop_while p s) ≤ length s
unfolding drop_while
length-drop_while p [] = omega arith
length-drop_while p (c ∷ s) = ground (arith, length-drop_while p s)

length-split_line : (s : Bytes) → length (split_line s).0 + length (split_line s).1 ≤ length s
unfolding split_line
length-split_line s = omega (
  arith,
  ap length (span-split in_line s),
  length-append (span in_line s).0 (span in_line s).1,
  length-drop_while is_newline (span in_line s).1,
)

-- The bytes behind a position.
abbrev pub left : Option ProcFile → ℕ → ℕ
left none cur = 0
left (some pf) cur = length (contents pf) - cur

readline-progress :
    (pf : Option ProcFile) (cur : ℕ)
    → 0 < length (readline pf cur).0
    → left pf (readline pf cur).1 < left pf cur
unfolding readline
readline-progress none cur h = absurd (omega arith)
readline-progress (some pf) cur h = go (at_end cur pf) h
  where
    s : Bytes
    s = drop cur (contents pf)

    moved : Bool → Bytes × ℕ
    moved b =
        if b then ([], cur) else ((split_line s).0, cur + (length s - length (split_line s).1))

    go : (b : Bool) → 0 < length (moved b).0 → left (some pf) (moved b).1 < left (some pf) cur
    go true h = absurd (omega arith)
    go false h = omega (arith, length-split_line s, length-drop cur (contents pf))

module _ {S : Type 0} (body : Bytes → S → Result (Unit {0}) × S) where
  -- With more rounds than bytes, the loop never lacks a round, if the body never does.
  pub for_lines-Ends :
      ((line : Bytes) (st : S) → Ends (body line st))
      → (fuel : ℕ) (pf : Option ProcFile) (cur : ℕ) (st : S) → left pf cur < fuel
      → Ends (for_lines fuel pf body cur st)
  unfolding for_lines line_round
  for_lines-Ends ends zero pf cur st h = absurd (omega arith)
  for_lines-Ends ends (suc fuel) pf cur st h =
      round (readline pf cur) (readline-progress pf cur)
        (λ cur st k. for_lines-Ends ends fuel pf cur st k)
    where
      round :
          (r : Bytes × ℕ)
          → (0 < length r.0 → left pf r.1 < left pf cur)
          → ((cur : ℕ) (st : S) → left pf cur < fuel → Ends (for_lines fuel pf body cur st))
          → Ends (line_round (for_lines fuel pf body) body st r)
      round ([], cur') less again = record { enough = λ q. cc }
      round (c ∷ line, cur') less again =
          and_then-Ends (body (c ∷ line) st) _ (ends (c ∷ line) st)
            (λ _ st'. again cur' st' (omega (arith, less (omega arith))))
