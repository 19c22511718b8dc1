-- ===== src/Proc/Tests/Checks.antt =====
-- Tests of texts, and what they show.
use arthur.Base.{
  ltb, ltb→lt, ◌&&◌, and_split, ℕ, ◌≡◌, Bool, true, List, [], ◌∷◌, Bytes, length, All,
}
use arthur.Stream.ProcFile.{ProcFile}
use arthur.Proc.Lines.{in_line}
use arthur.Proc.Lines.Walk.{IsLine}
use arthur.Proc.Text.Scan.{Passes}
use arthur.Proc.Stat.Comm.{not_space, not_close, IsWord}

-- Tests of every byte, and what they show.
abbrev pub every : (ℕ → Bool) → Bytes → Bool
every p [] = true
every p (c ∷ s) = p c && every p s

pub every-Passes : (p : ℕ → Bool) (s : Bytes) → every p s ≡ true → Passes p s
every-Passes p [] h = tt
every-Passes p (c ∷ s) h = let (first, more) = and_split h in (first, every-Passes p s more)

abbrev pub are_lines : List Bytes → Bool
are_lines [] = true
are_lines (line ∷ lines) = (ltb 0 (length line) && every in_line line) && are_lines lines

pub are_lines-IsLine : (lines : List Bytes) → are_lines lines ≡ true → All IsLine lines
are_lines-IsLine [] h = tt
are_lines-IsLine (line ∷ lines) h =
    let (is_line, more) = and_split h in
    let (filled, passes) = and_split is_line in
    ((ltb→lt 0 (length line) filled, every-Passes in_line line passes), are_lines-IsLine lines more)

abbrev pub are_words : List Bytes → Bool
are_words [] = true
are_words (w ∷ words) =
    (ltb 0 (length w) && (every not_space w && every not_close w)) && are_words words

pub are_words-IsWord : (words : List Bytes) → are_words words ≡ true → All IsWord words
are_words-IsWord [] h = tt
are_words-IsWord (w ∷ words) h =
    let (is_word, more) = and_split h in
    let (filled, passes) = and_split is_word in
    let (no_space, no_close) = and_split passes in
    (
      record {
        not_empty = ltb→lt 0 (length w) filled;
        no_space = every-Passes not_space w no_space;
        no_close = every-Passes not_close w no_close;
      },
      are_words-IsWord words more,
    )

abbrev pub file : Bytes → ProcFile
file s = record { f_size = length s; f_pid = 7; f_type = 1; f_data = s }
