-- ===== src/Proc/Text.antt =====
-- What the parsers of src/proc.cc use of the C library: characters, `strtol` and its kin.
pub mod Scan
pub mod Scanf
pub mod Conversions
pub mod Integers
use arthur.Base.{
  ℕ, ◌+◌, ◌-◌, ◌*◌, ◌^◌, Bool, true, false, ◌&&◌, ◌||◌, if◌then◌else◌, ltb, leb, ◌==◌,
}
use arthur.Base.{Option, none, some, [], ◌∷◌, Bytes, length}

-- `isspace` in the C locale.
unfoldable pub is_space : ℕ → Bool
is_space c = c == b' ' || (leb 9 c && leb c 13)

unfoldable pub is_blank : ℕ → Bool
is_blank c = c == b' ' || c == b'\t'

unfoldable pub is_decimal : ℕ → Bool
is_decimal c = leb b'0' c && leb c b'9'

unfoldable pub is_hex : ℕ → Bool
unfolding is_decimal
is_hex c = is_decimal c || ((leb b'a' c && leb c b'f') || (leb b'A' c && leb c b'F'))

-- The value of a digit.
unfoldable pub digit_value : ℕ → ℕ
digit_value c = if leb c b'9' then c - b'0' else if leb c b'F' then c - 55 else c - 87

unfoldable pub span : (ℕ → Bool) → Bytes → Bytes × Bytes
span p [] = ([], [])
span p (c ∷ s) = let r = span p s in if p c then (c ∷ r.0, r.1) else ([], c ∷ s)

unfoldable pub drop_while : (ℕ → Bool) → Bytes → Bytes
drop_while p [] = []
drop_while p (c ∷ s) = if p c then drop_while p s else c ∷ s

-- Equality of texts.
unfoldable pub same_text : Bytes → Bytes → Bool
same_text [] [] = true
same_text [] (y ∷ ys) = false
same_text (x ∷ xs) [] = false
same_text (x ∷ xs) (y ∷ ys) = x == y && same_text xs ys

-- `memchr(s, 0, n) != NULL`
unfoldable pub has_nul : Bytes → Bool
has_nul [] = false
has_nul (c ∷ s) = c == 0 || has_nul s

-- The number that digits stand for, behind a number already read.
unfoldable pub number_from : ℕ → ℕ → Bytes → ℕ
number_from base acc [] = acc
number_from base acc (c ∷ s) = number_from base (acc * base + digit_value c) s

abbrev pub number : ℕ → Bytes → ℕ
number base s = number_from base 0 s

-- A sign in front of digits.
unfoldable pub read_sign : Bytes → Bool × Bytes
read_sign [] = (false, [])
read_sign (c ∷ s) =
    if c == b'-' then (true, s) else if c == b'+' then (false, s) else (false, c ∷ s)

abbrev pub u64_max : ℕ
u64_max = 2 ^ 64 - 1

abbrev pub u32_max : ℕ
u32_max = 2 ^ 32 - 1

abbrev pub i64_max : ℕ
i64_max = 2 ^ 63 - 1

-- A `long`: `negsuc n` is -(n + 1).
pub data ℤ : Type 0 where
  pos : ℕ → ℤ
  negsuc : ℕ → ℤ

abbrev pub signed : Bool → ℕ → ℤ
signed negative n = if negative && ltb 0 n then negsuc (n - 1) else pos n
