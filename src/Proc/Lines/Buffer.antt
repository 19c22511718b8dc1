-- ===== src/Proc/Lines/Buffer.antt =====
-- The loops of the `readline` into a buffer (src/proc.cc), against the scan of a line.
use arthur.Base.{
  ℕ, zero, suc, ◌+◌, ◌-◌, ◌%◌, ◌^◌, ◌≡◌, ◌≤◌, ◌<◌, refl, sym, ap, ◌∙◌, arith, Bool-cases, inl, inr,
  true, false, if_true, if_false, leb, ltb, ◌==◌, not,
}
use arthur.Base.{some, [], ◌∷◌, ◌++◌, Bytes, length, take, length-append, take-append, take_all}
use arthur.Proc.Text.{pos, span, drop_while}
use arthur.Proc.Text.Scan.{span-split}
use arthur.Proc.Lines.{
  is_newline, in_line, split_line, find_newline, skip_newlines, to_int, copy_line,
}

find_newline-span : (s : Bytes) → find_newline s ≡ (span in_line s).1
unfolding find_newline span in_line is_newline
find_newline-span [] = refl
find_newline-span (c ∷ s) = elim (Bool-cases (c == b'\n')) [
  | inl e ↦ if_true _ _ e ∙ sym (ap (λ (r : Bytes × Bytes). r.1) (if_false _ _ (ap not e)))
  | inr e ↦
      if_false _ _ e
      ∙ find_newline-span s
      ∙ sym (ap (λ (r : Bytes × Bytes). r.1) (if_true _ _ (ap not e)))
]

skip_newlines-drop_while : (s : Bytes) → skip_newlines s ≡ drop_while is_newline s
unfolding skip_newlines drop_while is_newline
skip_newlines-drop_while [] = refl
skip_newlines-drop_while (c ∷ s) = elim (Bool-cases (c == b'\n')) [
  | inl e ↦ if_false _ _ (ap not e) ∙ skip_newlines-drop_while s ∙ sym (if_true _ _ e)
  | inr e ↦ if_true _ _ (ap not e) ∙ sym (if_false _ _ e)
]

-- An `int` that is not negative is not changed.
to_int_small : (n : ℕ) → n < 2 ^ 31 → to_int n ≡ pos n
unfolding to_int
to_int_small n h = if_true _ _ (below (n % 2 ^ 32) (omega arith)) ∙ ap pos (omega arith)
  where
    below : (low : ℕ) → low < 2 ^ 31 → ltb low (2 ^ 31) ≡ true
    below low h = ground arith

take_fewer : (n : ℕ) (s t : Bytes) → n ≤ length s → take n (s ++ t) ≡ take n s
take_fewer zero s t h = refl
take_fewer (suc n) [] t h = absurd (omega arith)
take_fewer (suc n) (c ∷ s) t h = ap (λ r. c ∷ r) (take_fewer n s t (omega arith))

copy_line-append :
    (n : ℕ) (line rest : Bytes) (next : ℕ)
    → 0 < n
    → copy_line (pos n) (length line) (line ++ rest) next ≡ some (take (n - 1) line, next)
unfolding copy_line
copy_line-append zero line rest next h = absurd (omega arith)
copy_line-append (suc m) line rest next h =
    ap (λ t. some (t, next))
      (elim (Bool-cases (leb (suc m) (length line))) [
        | inl long ↦
            ap (λ len. take len (line ++ rest)) (if_true _ _ long)
            ∙ take_fewer m line rest (at_least (length line) long)
            ∙ ap (λ k. take k line) same
        | inr short ↦
            ap (λ len. take len (line ++ rest)) (if_false _ _ short)
            ∙ take-append (length line) line rest refl
            ∙ sym (take_all (suc m - 1) line (omega (arith, at_most (length line) short)))
      ])
  where
    same : m ≡ suc m - 1
    same = omega arith

    at_least : (len : ℕ) → leb (suc m) len ≡ true → m ≤ len
    at_least len h = ground arith

    at_most : (len : ℕ) → leb (suc m) len ≡ false → len ≤ m
    at_most len h = ground arith

-- What the loops and the copy make of the text at `p`, for a buffer whose size is a positive `int`.
pub copy_line-split_line :
    (n cur : ℕ) (p : Bytes)
    → 0 < n
    → n < 2 ^ 31
    → copy_line
        (to_int n)
        (length p - length (find_newline p))
        p
        (cur + (length p - length (skip_newlines (find_newline p))))
      ≡ some (take (n - 1) (split_line p).0, cur + (length p - length (split_line p).1))
unfolding split_line
copy_line-split_line n cur p h k =
    (λ i.
      copy_line (to_int_small n k i) (length p - length (find_newline-span p i)) p
        (cur + (length p - length (skips i))))
    ∙ ap (λ len. copy_line (pos n) len p next) line_length
    ∙ ap (λ t. copy_line (pos n) (length line) t next) (sym (span-split in_line p))
    ∙ copy_line-append n line rest next h
  where
    line : Bytes
    line = (span in_line p).0

    rest : Bytes
    rest = (span in_line p).1

    next : ℕ
    next = cur + (length p - length (drop_while is_newline rest))

    skips : skip_newlines (find_newline p) ≡ drop_while is_newline rest
    skips = ap skip_newlines (find_newline-span p) ∙ skip_newlines-drop_while rest

    line_length : length p - length rest ≡ length line
    line_length =
        omega (arith, length-append line rest, ap (λ (t : Bytes). length t) (span-split in_line p))
