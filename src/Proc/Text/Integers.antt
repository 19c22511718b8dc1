-- ===== src/Proc/Text/Integers.antt =====
-- `strtol` and `strtoul` in base 10. They give none where there is no number (`end == text`) or it is
-- out of range (`ERANGE`), and else the number and the text at `end`.
use arthur.Base.{ℕ, ◌+◌, ◌-◌, ◌%◌, ◌^◌, Bool, true, false, if◌then◌else◌, ltb, ◌==◌}
use arthur.Base.{Option, none, some, Bytes, length}
use arthur.Proc.Text.{
  is_space, is_decimal, span, drop_while, number, read_sign, u64_max, i64_max, ℤ, pos, negsuc,
  signed,
}

abbrev pub long_value : Bool → Bytes × Bytes → Option (ℤ × Bytes)
long_value negative (digits, rest) =
    if length digits == 0
    then none
    else if ltb (if negative then i64_max + 1 else i64_max) (number 10 digits)
    then none
    else some (signed negative (number 10 digits), rest)

unfoldable pub strtol : Bytes → Option (ℤ × Bytes)
strtol s =
    let (negative, t) = read_sign (drop_while is_space s) in long_value negative (span is_decimal t)

abbrev pub unsigned_value : Bool → Bytes × Bytes → Option (ℕ × Bytes)
unsigned_value negative (digits, rest) =
    if length digits == 0
    then none
    else if ltb u64_max (number 10 digits)
    then none
    else let n = number 10 digits in some (if negative then (2 ^ 64 - n) % 2 ^ 64 else n, rest)

unfoldable pub strtoul : Bytes → Option (ℕ × Bytes)
strtoul s =
    let (negative, t) = read_sign (drop_while is_space s) in
    unsigned_value negative (span is_decimal t)

-- `a < b` of two `long`s
unfoldable pub below : ℤ → ℤ → Bool
below (pos m) (pos n) = ltb m n
below (pos m) (negsuc n) = false
below (negsuc m) (pos n) = true
below (negsuc m) (negsuc n) = ltb n m
