-- ===== src/Proc/Lines.antt =====
-- The two `ProcDecoder::readline` (src/proc.cc). A decoder's file is a `ProcFile`, or none where
-- `_pf` is null.
pub mod Buffer
pub mod Walk
pub mod Ends
use arthur.Base.{ℕ, ◌+◌, ◌-◌, ◌^◌, ◌%◌, Bool, true, false, not, ◌||◌, if◌then◌else◌, leb, ltb, ◌==◌}
use arthur.Base.{Option, none, some, [], ◌∷◌, Bytes, length, take, drop}
use arthur.Base.{zero, suc, List, ◌++◌}
use arthur.Base.Results.{Result, Error, ok, err, and_then}
use arthur.Stream.ProcFile.{ProcFile}
use arthur.Proc.Text.{ℤ, pos, negsuc, span, drop_while}

unfoldable pub is_newline : ℕ → Bool
is_newline c = c == b'\n'

unfoldable pub in_line : ℕ → Bool
unfolding is_newline
in_line c = not (is_newline c)

-- `f_data[0 .. f_size)`
abbrev pub contents : ProcFile → Bytes
contents pf = take pf.f_size pf.f_data

-- `cur >= (int)f_size`: a size from 2^31 on is a negative `int`.
abbrev pub at_end : ℕ → ProcFile → Bool
at_end cur pf = leb (2 ^ 31) pf.f_size || leb pf.f_size cur

-- Line and next position, from the bytes at the position. The newlines behind the line are skipped.
unfoldable pub split_line : Bytes → Bytes × Bytes
split_line s = let (line, rest) = span in_line s in (line, drop_while is_newline rest)

-- `readline(cur, out)` and the new `cur`; it returns the length of the line.
unfoldable pub readline : Option ProcFile → ℕ → Bytes × ℕ
readline none cur = ([], cur)
readline (some pf) cur =
    if at_end cur pf
    then ([], cur)
    else let s = drop cur (contents pf) in
      let (line, rest) = split_line s in (line, cur + (length s - length rest))

-- The first loop of `readline(cur, out, n)`: what is at `q` when it has found the newline or the end.
unfoldable pub find_newline : Bytes → Bytes
find_newline [] = []
find_newline (c ∷ s) = let rest = find_newline s in if c == b'\n' then c ∷ s else rest

-- Its second loop: what is at `q` behind the newlines.
unfoldable pub skip_newlines : Bytes → Bytes
skip_newlines [] = []
skip_newlines (c ∷ s) = let rest = skip_newlines s in if not (c == b'\n') then c ∷ s else rest

-- `(int)n`: the low 32 bits, with a sign.
unfoldable pub to_int : ℕ → ℤ
to_int n = let low = n % 2 ^ 32 in if ltb low (2 ^ 31) then pos low else negsuc (2 ^ 32 - 1 - low)

-- The `memcpy` of `len` bytes from `p` on, cut to `(int)n - 1` of them where they are `(int)n` or more.
-- Where that is negative, the copy overruns both buffers, and there is no result.
unfoldable pub copy_line : ℤ → ℕ → Bytes → ℕ → Option (Bytes × ℕ)
copy_line (pos zero) len p next = none
copy_line (pos (suc m)) len p next = some (take (if leb (suc m) len then m else len) p, next)
copy_line (negsuc m) len p next = none

-- `readline(cur, out, n)` into a buffer, and the new `cur`: the bytes in front of the NUL that it writes.
unfoldable pub readline_buffer : Option ProcFile → ℕ → ℕ → Option (Bytes × ℕ)
readline_buffer none cur n = some ([], cur)
readline_buffer (some pf) cur n =
    if n == 0
    then some ([], cur)
    else if at_end cur pf
    then some ([], cur)
    else let p = drop cur (contents pf) in
      let q = find_newline p in
      copy_line (to_int n) (length p - length q) p (cur + (length p - length (skip_newlines q)))

module _ {S : Type 0} where
  -- One round of `while (readline(cur, line)) { ... }`: an empty line ends the loop.
  unfoldable pub line_round :
      (ℕ → S → Result (Unit {0}) × S)
      → (Bytes → S → Result (Unit {0}) × S)
      → S
      → Bytes × ℕ
      → Result (Unit {0}) × S
  line_round again body st ([], cur) = (ok tt, st)
  line_round again body st (c ∷ line, cur) = and_then (body (c ∷ line) st) λ _ st'. again cur st'

  unfoldable pub for_lines :
      ℕ → Option ProcFile → (Bytes → S → Result (Unit {0}) × S) → ℕ → S → Result (Unit {0}) × S
  for_lines zero pf body cur st = (err Error.out_of_fuel, st)
  for_lines (suc fuel) pf body cur st =
      line_round (for_lines fuel pf body) body st (readline pf cur)

  -- The body on each line in turn, up to the first failure.
  unfoldable pub fold_lines :
      (Bytes → S → Result (Unit {0}) × S) → List Bytes → S → Result (Unit {0}) × S
  fold_lines body [] st = (ok tt, st)
  fold_lines body (line ∷ lines) st = and_then (body line st) λ _ st'. fold_lines body lines st'

-- A text of lines that end with a newline.
abbrev pub text_of : List Bytes → Bytes
text_of [] = []
text_of (line ∷ lines) = line ++ (b'\n' ∷ text_of lines)
