-- ===== src/Core/StatusMask/Lines.antt =====
-- The mask in a status file of the kernel's lines.
use arthur.Base.{
  ℕ, suc, ◌≡◌, ◌≤◌, ◌<◌, refl, ap, ◌∙◌, arith, Bool, true, false, ◌&&◌, ◌||◌, ◌==◌, if_true,
  if_false, unless_true, ltb, ==_refl,
}
use arthur.Base.{some, List, [], ◌∷◌, ◌++◌, Bytes, length, take-append, drop-append}
use arthur.Proc.Text.{is_blank, is_hex, is_decimal, span, drop_while, same_text, number, u64_max}
use arthur.Proc.Text.Scan.{Passes, StopsAt, span-append, drop_while-append}
use arthur.Proc.Text.Conversions.{IsHexText, hex_prefix-digits}
use arthur.Proc.Lines.{in_line, is_newline}
use arthur.Core.StatusMask.{
  has_prefix, find_line, is_trailing, ends_line, mask_value, read_mask, mask_of, parse_status_mask,
}

-- Lines in front of a text.
abbrev pub lines_before : List Bytes → Bytes → Bytes
lines_before [] text = text
lines_before (line ∷ lines) text = line ++ (b'\n' ∷ lines_before lines text)

-- No line starts with the key.
abbrev pub AreOthers : Bytes → List Bytes → Bytes → Type 0
AreOthers key [] text = Unit {0}
AreOthers key (line ∷ lines) text =
    Passes in_line line
    × (has_prefix key (line ++ (b'\n' ∷ lines_before lines text)) ≡ false)
    × AreOthers key lines text

find_line-inside :
    (key line s : Bytes)
    → Passes in_line line
    → find_line key false (line ++ (b'\n' ∷ s)) ≡ find_line key true s
unfolding find_line in_line is_newline
find_line-inside key [] s h = refl
find_line-inside key (c ∷ line) s (hc, h) =
    ap (λ b. find_line key b (line ++ (b'\n' ∷ s))) (no_newline c hc)
    ∙ find_line-inside key line s h
  where
    no_newline : (c : ℕ) → in_line c ≡ true → (c == b'\n') ≡ false
    no_newline c h = ground arith

find_line-other :
    (key line s : Bytes)
    → Passes in_line line
    → has_prefix key (line ++ (b'\n' ∷ s)) ≡ false
    → find_line key true (line ++ (b'\n' ∷ s)) ≡ find_line key true s
unfolding find_line
find_line-other key [] s h e = if_false _ _ e
find_line-other key (c ∷ line) s h e = if_false _ _ e ∙ find_line-inside key (c ∷ line) s h

find_line-others :
    (key : Bytes) (lines : List Bytes) (text : Bytes)
    → AreOthers key lines text
    → find_line key true (lines_before lines text) ≡ find_line key true text
find_line-others key [] text h = refl
find_line-others key (line ∷ lines) text (h, e, hs) =
    find_line-other key line (lines_before lines text) h e ∙ find_line-others key lines text hs

same_text_refl : (s : Bytes) → same_text s s ≡ true
unfolding same_text
same_text_refl [] = refl
same_text_refl (c ∷ s) = ap (λ b. b && same_text s s) (==_refl c) ∙ same_text_refl s

find_line-here :
    (key rest : Bytes) → 0 < length key → find_line key true (key ++ rest) ≡ some (key ++ rest)
unfolding find_line
find_line-here [] rest h = absurd (omega (arith, h))
find_line-here (c ∷ key) rest h = if_true _ _ (
    ap (λ t. same_text t (c ∷ key)) (take-append (length (c ∷ key)) (c ∷ key) rest refl)
    ∙ same_text_refl (c ∷ key))

blank_stops_hex : (c : ℕ) → is_hex c ≡ true → is_blank c ≡ false
unfolding is_hex is_decimal is_blank
blank_stops_hex c h = ground arith

-- Digits up to a byte that is none, with only blanks in front of the end of the line.
read_mask-digits :
    (digits : Bytes) (c : ℕ) (rest : Bytes)
    → IsHexText digits
    → is_hex c ≡ false
    → (c == b'x' || c == b'X') ≡ false
    → ends_line (drop_while is_trailing (c ∷ rest)) ≡ true
    → read_mask (digits ++ (c ∷ rest)) ≡ some (number 16 digits)
unfolding read_mask mask_value
read_mask-digits [] c rest v stop no_x e = absurd (omega (arith, v.some_digits))
read_mask-digits (d ∷ ds) c rest v stop no_x e =
    unless_true _ _ v.is_digits.0
    ∙ ap (λ (r : Bool × Bytes). mask_value (span is_hex r.1))
        (hex_prefix-digits d ds c rest v.is_digits.1 no_x)
    ∙ ap mask_value (span-append is_hex (d ∷ ds) (c ∷ rest) v.is_digits stop)
    ∙ if_false _ _ (fitting (length ds) (number 16 (d ∷ ds)) v.fits)
    ∙ if_true _ _ e
  where
    fitting : (m n : ℕ) → n ≤ u64_max → (suc m == 0 || ltb u64_max n) ≡ false
    fitting m n h = ground arith

trailing_front :
    (c : ℕ) → is_trailing c ≡ true → (is_hex c ≡ false) × ((c == b'x' || c == b'X') ≡ false)
unfolding is_trailing is_blank is_hex is_decimal
trailing_front c h = ground arith

newline_front : (is_hex b'\n' ≡ false) × (is_trailing b'\n' ≡ false)
unfolding is_trailing is_blank is_hex is_decimal
newline_front = (refl, refl)

read_mask-line :
    (digits trailing rest : Bytes)
    → IsHexText digits
    → Passes is_trailing trailing
    → read_mask (digits ++ (trailing ++ (b'\n' ∷ rest))) ≡ some (number 16 digits)
read_mask-line digits [] rest v h =
    read_mask-digits digits b'\n' rest v newline_front.0 refl
      (ap ends_line (drop_while-append is_trailing [] (b'\n' ∷ rest) tt newline_front.1))
read_mask-line digits (c ∷ trailing) rest v (hc, h) =
    read_mask-digits digits c (trailing ++ (b'\n' ∷ rest)) v (trailing_front c hc).0
      (trailing_front c hc).1
      (ap ends_line
        (drop_while-append is_trailing (c ∷ trailing) (b'\n' ∷ rest) (hc, h) newline_front.1))

-- Behind lines that do not start with the key, a line of the key, blanks, and hexadecimal digits of at most
-- 64 bits, which blanks and a carriage return may follow, gives the mask that the digits stand for, a
-- mask of zero included.
pub parse_status_mask-lines :
    (key : Bytes) (lines : List Bytes) (blanks digits trailing rest : Bytes)
    → 0 < length key
    → AreOthers key lines (key ++ (blanks ++ (digits ++ (trailing ++ (b'\n' ∷ rest)))))
    → Passes is_blank blanks
    → IsHexText digits
    → Passes is_trailing trailing
    → parse_status_mask
        (lines_before lines (key ++ (blanks ++ (digits ++ (trailing ++ (b'\n' ∷ rest))))))
        key
      ≡ some (number 16 digits)
unfolding parse_status_mask
parse_status_mask-lines key lines blanks digits trailing rest h others hb v ht =
    let value = digits ++ (trailing ++ (b'\n' ∷ rest)) in
    ap (mask_of key) (
      find_line-others key lines (key ++ (blanks ++ value)) others
      ∙ find_line-here key (blanks ++ value) h)
    ∙ ap (λ t. read_mask (drop_while is_blank t))
        (drop-append (length key) key (blanks ++ value) refl)
    ∙ ap read_mask
        (drop_while-append is_blank blanks value hb (stops digits v.some_digits v.is_digits))
    ∙ read_mask-line digits trailing rest v ht
  where
    stops :
        (digits : Bytes)
        → 0 < length digits
        → Passes is_hex digits
        → StopsAt is_blank (digits ++ (trailing ++ (b'\n' ∷ rest)))
    stops [] h k = absurd (omega (arith, h))
    stops (d ∷ ds) h (k, ks) = blank_stops_hex d k
