-- ===== src/Proc/Text/Scanf.antt =====
-- The conversions of `sscanf` that the parsers use. Each gives its value and the input behind it, or
-- none where it fails.
use arthur.Base.{
  ℕ, zero, suc, ◌-◌, ◌%◌, ◌^◌, Bool, true, false, not, ◌&&◌, ◌||◌, if◌then◌else◌, ltb, ◌==◌,
}
use arthur.Base.{Option, none, some, [], ◌∷◌, Bytes, length}
use arthur.Proc.Text.{is_space, is_decimal, is_hex, span, drop_while, number, read_sign, u64_max}

abbrev pub Scan : Type 0 → Type 0
Scan A = Option (A × Bytes)

-- Goes on behind a conversion that succeeded.
abbrev pub and_scan {ℓ} : {A : Type 0} {B : Type ℓ} → Scan A → (A → Bytes → Option B) → Option B
and_scan none f = none
and_scan (some (a, s)) f = f a s

-- `strtoul` on a sign and digits: a number that is too large becomes ULONG_MAX.
unfoldable pub to_u64 : Bool → ℕ → ℕ
to_u64 negative n = if ltb u64_max n then u64_max else if negative then (2 ^ 64 - n) % 2 ^ 64 else n

-- `0x` in front of hexadecimal digits.
unfoldable pub hex_prefix : Bytes → Bool × Bytes
hex_prefix [] = (false, [])
hex_prefix (c ∷ []) = (false, c ∷ [])
hex_prefix (c ∷ d ∷ s) =
    if c == b'0' && (d == b'x' || d == b'X') then (true, s) else (false, c ∷ d ∷ s)

abbrev pub hex_value : Bool → Bool → Bytes × Bytes → Scan ℕ
hex_value negative prefixed (digits, rest) =
    if not prefixed && length digits == 0
    then none
    else some (to_u64 negative (number 16 digits), rest)

-- `%lx`
unfoldable pub scan_hex : Bytes → Scan ℕ
scan_hex s =
    let (negative, t) = read_sign (drop_while is_space s) in
    let (prefixed, u) = hex_prefix t in hex_value negative prefixed (span is_hex u)

-- `%x` stores the low 32 bits.
unfoldable pub scan_hex32 : Bytes → Scan ℕ
scan_hex32 s = and_scan (scan_hex s) λ n rest. some (n % 2 ^ 32, rest)

abbrev pub decimal_value : Bool → Bytes × Bytes → Scan ℕ
decimal_value negative (digits, rest) =
    if length digits == 0 then none else some (to_u64 negative (number 10 digits), rest)

-- `%lu`
unfoldable pub scan_decimal : Bytes → Scan ℕ
scan_decimal s =
    let (negative, t) = read_sign (drop_while is_space s) in
    decimal_value negative (span is_decimal t)

-- A literal character.
unfoldable pub scan_char : ℕ → Bytes → Scan (Unit {0})
scan_char c [] = none
scan_char c (d ∷ s) = if d == c then some (tt, s) else none

unfoldable pub take_word : ℕ → Bytes → Bytes × Bytes
take_word zero s = ([], s)
take_word (suc n) [] = ([], [])
take_word (suc n) (c ∷ s) =
    let r = take_word n s in if is_space c then ([], c ∷ s) else (c ∷ r.0, r.1)

abbrev pub word_value : Bytes × Bytes → Scan Bytes
word_value ([], rest) = none
word_value (c ∷ word, rest) = some (c ∷ word, rest)

-- `%4s` and the like
unfoldable pub scan_word : ℕ → Bytes → Scan Bytes
scan_word n s = word_value (take_word n (drop_while is_space s))
