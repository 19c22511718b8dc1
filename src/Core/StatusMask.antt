-- ===== src/Core/StatusMask.antt =====
-- `parse_status_mask` (src/core.cc): a signal mask of /proc/<tid>/status.
pub mod Lines
mod Tests
use arthur.Base.{ℕ, Bool, true, false, not, ◌&&◌, ◌||◌, if◌then◌else◌, ltb, ◌==◌}
use arthur.Base.{Option, none, some, [], ◌∷◌, Bytes, length, take, drop}
use arthur.Proc.Text.{is_blank, is_hex, span, drop_while, same_text, number, u64_max}
use arthur.Proc.Text.Scanf.{hex_prefix}

-- `strncmp(line, key, strlen(key)) == 0`
abbrev pub has_prefix : Bytes → Bytes → Bool
has_prefix key line = same_text (take (length key) line) key

-- From the first line that starts with the key on; the flag says that a line starts here.
unfoldable pub find_line : Bytes → Bool → Bytes → Option Bytes
find_line key start [] = none
find_line key start (c ∷ s) =
    let rest = find_line key (c == b'\n') s in
    if start && has_prefix key (c ∷ s) then some (c ∷ s) else rest

unfoldable pub is_trailing : ℕ → Bool
unfolding is_blank
is_trailing c = is_blank c || c == b'\r'

-- `*end == '\0' || *end == '\n'`
abbrev pub ends_line : Bytes → Bool
ends_line [] = true
ends_line (c ∷ s) = c == b'\n'

-- `strtoull(p, &end, 16)` and what stands behind it. A prefix `0x` without digits ends at its `x`.
unfoldable pub mask_value : Bytes × Bytes → Option ℕ
mask_value (digits, rest) =
    if length digits == 0 || ltb u64_max (number 16 digits)
    then none
    else if ends_line (drop_while is_trailing rest)
    then some (number 16 digits)
    else none

abbrev pub starts_hex : Bytes → Bool
starts_hex [] = false
starts_hex (c ∷ s) = is_hex c

unfoldable pub read_mask : Bytes → Option ℕ
read_mask p =
    if not (starts_hex p)
    then none
    else let (prefixed, q) = hex_prefix p in mask_value (span is_hex q)

abbrev pub mask_of : Bytes → Option Bytes → Option ℕ
mask_of key none = none
mask_of key (some line) = read_mask (drop_while is_blank (drop (length key) line))

-- The text up to its NUL. The mask, or none where the function returns false.
unfoldable pub parse_status_mask : Bytes → Bytes → Option ℕ
parse_status_mask text key = mask_of key (find_line key true text)
