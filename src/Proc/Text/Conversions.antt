-- ===== src/Proc/Text/Conversions.antt =====
-- The conversions of `sscanf` on texts that fit them.
use arthur.Base.{
  ℕ, suc, ◌%◌, ◌^◌, ◌≡◌, ◌≤◌, ◌<◌, refl, ap, ◌∙◌, arith, ◌==◌, ◌&&◌, ◌||◌, Bool, true, false,
  le→ltb, if_false,
}
use arthur.Base.{Option, some, [], ◌∷◌, ◌++◌, Bytes, length}
use arthur.Proc.Text.{is_space, is_decimal, is_hex, span, number, read_sign, u64_max, u32_max}
use arthur.Proc.Text.Scan.{Passes, StopsAt, span-append, drop_while-append}
use arthur.Proc.Text.Scanf.{
  Scan, and_scan, to_u64, hex_prefix, hex_value, scan_hex, scan_hex32, decimal_value, scan_decimal,
  scan_char,
}

pub and_scan-some {ℓ} :
    {A : Type 0} {B : Type ℓ} {o : Scan A} (f : A → Bytes → Option B) {a : A} {s : Bytes}
    → o ≡ some (a, s)
    → and_scan o f ≡ f a s
and_scan-some f e = ap (λ o. and_scan o f) e

-- Digits of a number of 64 bits.
pub record IsHexText (digits : Bytes) : Type 0 where
  pub some_digits : 0 < length digits
  pub is_digits : Passes is_hex digits
  pub fits : number 16 digits ≤ u64_max

pub record IsDecimalText (digits : Bytes) : Type 0 where
  pub some_digits : 0 < length digits
  pub is_digits : Passes is_decimal digits
  pub fits : number 10 digits ≤ u64_max

to_u64_small : (n : ℕ) → n ≤ u64_max → to_u64 false n ≡ n
unfolding to_u64
to_u64_small n h = if_false _ _ (le→ltb u64_max n h)

-- No digit is a space or a sign.
hex_digit_front :
    (c : ℕ)
    → is_hex c ≡ true
    → (is_space c ≡ false)
      × ((c == b'-') ≡ false)
      × ((c == b'+') ≡ false)
      × ((c == b'x' || c == b'X') ≡ false)
unfolding is_hex is_space
hex_digit_front c h = ground arith

decimal_digit_front :
    (c : ℕ)
    → is_decimal c ≡ true
    → (is_space c ≡ false) × ((c == b'-') ≡ false) × ((c == b'+') ≡ false)
unfolding is_decimal is_space
decimal_digit_front c h = ground arith

read_sign_none :
    (c : ℕ) (s : Bytes)
    → (c == b'-') ≡ false
    → (c == b'+') ≡ false
    → read_sign (c ∷ s) ≡ (false, c ∷ s)
unfolding read_sign
read_sign_none c s h k = if_false _ _ h ∙ if_false _ _ k

hex_prefix_none :
    (c d : ℕ) (s : Bytes)
    → (d == b'x' || d == b'X') ≡ false
    → hex_prefix (c ∷ d ∷ s) ≡ (false, c ∷ d ∷ s)
unfolding hex_prefix
hex_prefix_none c d s h = if_false _ _ (ap (λ b. c == b'0' && b) h ∙ never (c == b'0'))
  where
    never : (b : Bool) → (b && false) ≡ false
    never true = refl
    never false = refl

-- Digits have no prefix.
pub hex_prefix-digits :
    (d : ℕ) (ds : Bytes) (c : ℕ) (rest : Bytes)
    → Passes is_hex ds
    → (c == b'x' || c == b'X') ≡ false
    → hex_prefix (d ∷ (ds ++ (c ∷ rest))) ≡ (false, d ∷ (ds ++ (c ∷ rest)))
hex_prefix-digits d [] c rest h no_x = hex_prefix_none d c rest no_x
hex_prefix-digits d (e ∷ ds) c rest (h, hs) no_x =
    hex_prefix_none d e (ds ++ (c ∷ rest)) (hex_digit_front e h).3

suc-ne-zero : (n : ℕ) → (suc n == 0) ≡ false
suc-ne-zero n = ground arith

-- Spaces and digits, up to a byte that cannot belong to the number.
pub scan_hex_ok :
    (spaces digits : Bytes) (c : ℕ) (rest : Bytes)
    → Passes is_space spaces
    → IsHexText digits
    → is_hex c ≡ false
    → (c == b'x' || c == b'X') ≡ false
    → scan_hex (spaces ++ (digits ++ (c ∷ rest))) ≡ some (number 16 digits, c ∷ rest)
unfolding scan_hex
scan_hex_ok spaces [] c rest hs v stop no_x = absurd (omega (arith, v.some_digits))
scan_hex_ok spaces (d ∷ ds) c rest hs v stop no_x =
    let (no_space, minus, plus, _) = hex_digit_front d v.is_digits.0 in
    let text = d ∷ (ds ++ (c ∷ rest)) in
    ap behind_spaces (drop_while-append is_space spaces text hs no_space)
    ∙ ap behind_sign (read_sign_none d (ds ++ (c ∷ rest)) minus plus)
    ∙ ap (λ t. hex_value false t.0 (span is_hex t.1))
        (hex_prefix-digits d ds c rest v.is_digits.1 no_x)
    ∙ ap (hex_value false false) (span-append is_hex (d ∷ ds) (c ∷ rest) v.is_digits stop)
    ∙ if_false _ _ (suc-ne-zero (length ds))
    ∙ ap found (to_u64_small (number 16 (d ∷ ds)) v.fits)
  where
    found : ℕ → Scan ℕ
    found n = some (n, c ∷ rest)

    behind_sign : Bool × Bytes → Scan ℕ
    behind_sign (negative, t) =
        let (prefixed, u) = hex_prefix t in hex_value negative prefixed (span is_hex u)

    behind_spaces : Bytes → Scan ℕ
    behind_spaces s = behind_sign (read_sign s)

pub scan_hex32_ok :
    (spaces digits : Bytes) (c : ℕ) (rest : Bytes)
    → Passes is_space spaces
    → IsHexText digits
    → number 16 digits ≤ u32_max
    → is_hex c ≡ false
    → (c == b'x' || c == b'X') ≡ false
    → scan_hex32 (spaces ++ (digits ++ (c ∷ rest))) ≡ some (number 16 digits, c ∷ rest)
unfolding scan_hex32
scan_hex32_ok spaces digits c rest hs v small stop no_x =
    and_scan-some _ (scan_hex_ok spaces digits c rest hs v stop no_x)
    ∙ ap found (low (number 16 digits) small)
  where
    found : ℕ → Scan ℕ
    found n = some (n, c ∷ rest)

    low : (n : ℕ) → n ≤ u32_max → n % 2 ^ 32 ≡ n
    low n h = omega arith

pub scan_decimal_ok :
    (spaces digits rest : Bytes)
    → Passes is_space spaces
    → IsDecimalText digits
    → StopsAt is_decimal rest
    → scan_decimal (spaces ++ (digits ++ rest)) ≡ some (number 10 digits, rest)
unfolding scan_decimal
scan_decimal_ok spaces [] rest hs v stop = absurd (omega (arith, v.some_digits))
scan_decimal_ok spaces (d ∷ ds) rest hs v stop =
    let (no_space, minus, plus) = decimal_digit_front d v.is_digits.0 in
    ap (λ s. behind_sign (read_sign s))
      (drop_while-append is_space spaces (d ∷ (ds ++ rest)) hs no_space)
    ∙ ap behind_sign (read_sign_none d (ds ++ rest) minus plus)
    ∙ ap (decimal_value false) (span-append is_decimal (d ∷ ds) rest v.is_digits stop)
    ∙ if_false _ _ (suc-ne-zero (length ds))
    ∙ ap found (to_u64_small (number 10 (d ∷ ds)) v.fits)
  where
    found : ℕ → Scan ℕ
    found n = some (n, rest)

    behind_sign : Bool × Bytes → Scan ℕ
    behind_sign (negative, t) = decimal_value negative (span is_decimal t)

pub scan_char_ok : (c : ℕ) (rest : Bytes) → scan_char c (c ∷ rest) ≡ some (tt, rest)
unfolding scan_char
scan_char_ok c rest = ground arith
