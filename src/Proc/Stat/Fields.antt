-- ===== src/Proc/Stat/Fields.antt =====
-- How `ProcStat::Parse` (src/proc.cc) cuts the record into its fields.
use arthur.Base.{ℕ, zero, suc, Bool, not, if◌then◌else◌, leb, ◌==◌}
use arthur.Base.{Option, none, some, List, [], ◌∷◌, Bytes, length, take}
use arthur.Proc.Text.{span}
use arthur.Proc.Lines.{in_line}

unfoldable pub not_open : ℕ → Bool
not_open c = not (c == b'(')

abbrev pub or_here : ℕ → Bytes → Option (Bytes × Bytes) → Option (Bytes × Bytes)
or_here c s none = if c == b')' then some ([], s) else none
or_here c s (some (front, behind)) = some (c ∷ front, behind)

-- `strrchr(s, ')')`: what stands in front of the last one and behind it.
unfoldable pub split_close : Bytes → Option (Bytes × Bytes)
split_close [] = none
split_close (c ∷ s) = or_here c s (split_close s)

-- A token goes in front of the others, unless it is empty.
abbrev pub push : Bytes → List Bytes → List Bytes
push [] words = words
push (c ∷ word) words = (c ∷ word) ∷ words

-- The bytes up to the first space, and the tokens behind it.
unfoldable pub words_at : Bytes → Bytes × List Bytes
words_at [] = ([], [])
words_at (c ∷ s) =
    let (word, words) = words_at s in if c == b' ' then ([], push word words) else (c ∷ word, words)

-- The tokens that `strtok_r(s, " ")` and the calls after it give.
unfoldable pub tokens : Bytes → List Bytes
tokens s = let (word, words) = words_at s in push word words

-- `array` holds 64 pointers, the last of which stays null; two of them stand in front of the state.
abbrev pub max_tokens : ℕ
max_tokens = 61

abbrev pub present : List Bytes → List (Option Bytes)
present [] = []
present (t ∷ ts) = some t ∷ present ts

-- `array`, where one token stands in front of the comm. Its second pointer stays null.
abbrev pub fields_of : List Bytes → List Bytes → Option (List (Option Bytes))
fields_of [] words = none
fields_of (pid ∷ []) words = some (some pid ∷ none ∷ present (take max_tokens words))
fields_of (pid ∷ extra ∷ more) words = none

-- `fields > 31`
abbrev pub enough_fields : Option (List (Option Bytes)) → Option (List (Option Bytes))
enough_fields none = none
enough_fields (some array) = if leb (length array) 31 then none else some array

-- The comm, and the array unless that is refused.
pub record Record : Type 0 where
  pub comm : Bytes
  pub array : Option (List (Option Bytes))

-- A newline behind the comm is the last byte.
unfoldable pub ends_record : Bytes → Bool
ends_record s = let (line, rest) = span in_line s in leb (length rest) 1

abbrev pub cut_record : Bytes → Option (Bytes × Bytes) → Option Record
cut_record front none = none
cut_record front (some (comm, behind)) =
    if not (ends_record behind)
    then none
    else some
        (record { comm = comm; array = enough_fields (fields_of (tokens front) (tokens behind)) })

abbrev pub behind_open : Bytes × Bytes → Option Record
behind_open (front, []) = none
behind_open (front, c ∷ s) = cut_record front (split_close s)

unfoldable pub read_record : Bytes → Option Record
read_record s = behind_open (span not_open s)

-- `fld(idx)`
unfoldable pub text_at : List (Option Bytes) → ℕ → Bytes
text_at [] i = b'0' ∷ []
text_at (none ∷ array) zero = b'0' ∷ []
text_at (some t ∷ array) zero = t
text_at (o ∷ array) (suc i) = text_at array i
