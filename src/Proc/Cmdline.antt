-- ===== src/Proc/Cmdline.antt =====
-- `ProcCmdline` (src/proc.h, src/proc.cc).
pub mod Arguments
use arthur.Base.{
  ℕ, zero, suc, ◌*◌, Bool, not, ◌==◌, Option, none, some, List, [], ◌∷◌, ◌++◌, Bytes, length,
}
use arthur.Base.Results.{Result, Error, ok, err}
use arthur.Stream.ProcFile.{ProcFile}
use arthur.Proc.Text.{span}
use arthur.Proc.Lines.{contents}

abbrev pub max_argv : ℕ
max_argv = 16384

-- `while (q < end && *q)`
unfoldable pub in_argument : ℕ → Bool
in_argument c = not (c == 0)

-- A final argument may lack its NUL.
abbrev pub behind_nul : Bytes → Bytes
behind_nul [] = []
behind_nul (c ∷ s) = s

-- The loop, with so many arguments left to the limit: the arguments, and the bytes behind them.
unfoldable pub take_arguments : ℕ → Bytes → List Bytes × Bytes
take_arguments zero s = ([], s)
take_arguments (suc room) [] = ([], [])
take_arguments (suc room) (c ∷ s) =
    let (argument, rest) = span in_argument (c ∷ s) in
    let (arguments, left) = take_arguments room (behind_nul rest) in (argument ∷ arguments, left)

abbrev pub all_taken : List Bytes × Bytes → Result ℕ × List Bytes
all_taken (argv, []) = (ok (length argv), argv)
all_taken (argv, c ∷ s) = (err Error.fault, argv)

-- The result, and `argv`.
unfoldable pub parse : Option ProcFile → Result ℕ × List Bytes
parse none = (ok 0, [])
parse (some pf) = all_taken (take_arguments max_argv (contents pf))
