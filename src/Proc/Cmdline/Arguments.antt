-- ===== src/Proc/Cmdline/Arguments.antt =====
-- The arguments of a command line are the texts between its NULs.
use arthur.Base.{
  ℕ, zero, suc, ◌≡◌, ◌<◌, refl, sym, ap, ◌∙◌, arith, true, false, leb, if◌then◌else◌, if_true,
  if_false, ◌==◌,
}
use arthur.Base.{
  leb→le, ◌-◌, Bool-cases, inl, inr, some, List, [], ◌∷◌, ◌++◌, Bytes, length, take, drop, All,
  take_all, length-drop,
}
use arthur.Base.Results.{Error, ok, err}
use arthur.Stream.ProcFile.{ProcFile}
use arthur.Proc.Text.{span}
use arthur.Proc.Text.Scan.{Passes, span-append}
use arthur.Proc.Lines.{contents}
use arthur.Proc.Cmdline.{in_argument, behind_nul, take_arguments, all_taken, max_argv, parse}

-- Arguments that end with a NUL.
abbrev pub text_of : List Bytes → Bytes
text_of [] = []
text_of (argument ∷ arguments) = argument ++ (0 ∷ text_of arguments)

nul_stops : in_argument 0 ≡ false
unfolding in_argument
nul_stops = refl

-- A text that is not empty gives an argument.
one_argument :
    (room : ℕ) (s argument rest : Bytes)
    → 0 < length s
    → span in_argument s ≡ (argument, rest)
    → take_arguments (suc room) s ≡ (
      argument ∷ (take_arguments room (behind_nul rest)).0,
      (take_arguments room (behind_nul rest)).1,
    )
unfolding take_arguments
one_argument room [] argument rest h e = absurd (omega arith)
one_argument room (c ∷ s) argument rest h e =
    ap
      (λ p.
        (p.0 ∷ (take_arguments room (behind_nul p.1)).0, (take_arguments room (behind_nul p.1)).1))
      e

length-argument : (argument rest : Bytes) → 0 < length (argument ++ (0 ∷ rest))
length-argument [] rest = omega arith
length-argument (c ∷ argument) rest = omega arith

take_arguments-text_of :
    (room : ℕ) (arguments : List Bytes)
    → All (Passes in_argument) arguments
    → take_arguments room (text_of arguments) ≡ (take room arguments, text_of (drop room arguments))
unfolding take_arguments
take_arguments-text_of zero arguments h = refl
take_arguments-text_of (suc room) [] h = refl
take_arguments-text_of (suc room) (argument ∷ arguments) (h, hs) =
    one_argument room (text_of (argument ∷ arguments)) argument (0 ∷ text_of arguments)
      (length-argument argument (text_of arguments))
      (span-append in_argument argument (0 ∷ text_of arguments) h nul_stops)
    ∙ ap (λ p. (argument ∷ p.0, p.1)) (take_arguments-text_of room arguments hs)

some_left : (n : ℕ) → (suc n == 0) ≡ false
some_left n = ground arith

all_taken-left :
    (argv left : List Bytes)
    → all_taken (argv, text_of left)
      ≡ (if length left == 0 then (ok (length argv), argv) else (err Error.fault, argv))
all_taken-left argv [] = refl
all_taken-left argv ([] ∷ left) = sym (if_false _ _ (some_left (length left)))
all_taken-left argv ((c ∷ argument) ∷ left) = sym (if_false _ _ (some_left (length left)))

-- A command line of arguments that end with a NUL is parsed into these arguments, if they are at most
-- 16384; more are refused, and `argv` then holds the first 16384.
pub parse-text_of :
    (pf : ProcFile) (arguments : List Bytes)
    → All (Passes in_argument) arguments
    → contents pf ≡ text_of arguments
    → parse (some pf) ≡ (
        if leb (length arguments) max_argv
        then (ok (length arguments), arguments)
        else (err Error.fault, take max_argv arguments))
unfolding parse
parse-text_of pf arguments h e =
    ap (λ s. all_taken (take_arguments max_argv s)) e
    ∙ ap all_taken (take_arguments-text_of max_argv arguments h)
    ∙ all_taken-left (take max_argv arguments) (drop max_argv arguments)
    ∙ elim (Bool-cases (leb (length arguments) max_argv)) [
      | inl small ↦
          if_true _ _ (
            none_left (length (drop max_argv arguments)) (
              omega
                (arith, length-drop max_argv arguments, leb→le (length arguments) max_argv small)))
          ∙ ap (λ t. (ok (length t), t))
              (take_all max_argv arguments (leb→le (length arguments) max_argv small))
          ∙ sym (if_true _ _ small)
      | inr large ↦
          if_false _ _ (
            too_many (length arguments) (length (drop max_argv arguments))
              (length-drop max_argv arguments) large)
          ∙ sym (if_false _ _ large)
    ]
  where
    none_left : (n : ℕ) → n ≡ 0 → (n == 0) ≡ true
    none_left n h = ground arith

    too_many : (n left : ℕ) → left ≡ n - max_argv → leb n max_argv ≡ false → (left == 0) ≡ false
    too_many n left h k = ground arith
