-- ===== src/Proc/Read/Bounds.antt =====
-- What `ReadPath` and `ReadPid` store, and that they keep to the buffer.
use arthur.Base.{
  ℕ, zero, suc, ◌+◌, ◌-◌, ◌^◌, ◌≡◌, ◌≢◌, ◌≤◌, ◌<◌, refl, sym, ap, ◌∙◌, arith, Bool, true, false,
  Bool-cases, inl, inr, if_true, if_false, if◌then◌else◌, ltb, leb, ◌==◌, ◌||◌, min, le→ltb,
}
use arthur.Base.{
  Option, none, some, List, [], ◌∷◌, ◌++◌, Bytes, length, take, drop, length-append, length-take,
}
use mathlib.Core.Path.{subst}
use arthur.Base.Results.{Result, Error, ok, err}
use arthur.Stream.ProcFile.{ProcFile, proc_header, serialized_size, IsProcFile}
use arthur.Proc.Text.{ℤ, pos, negsuc}
use arthur.Proc.Read.{
  Answer, gives, interrupted, fails, bytes, read, probe, with_data, read_round, read_loop, set_flag,
  room, store_file, read_opened, read_path, path_max, read_format, path_of, name_text, sz_proc_type,
  tag_file, read_pid,
}
use arthur.Proc.Read.Loop.{IsReadable, content_of, read_loop-content_of, suc-ne-zero}

-- A file that opens and is read without a failure is stored as far as the buffer goes, with a byte kept
-- for a NUL, whatever the kernel's stretches and interruptions; the flag, if there is one, is set to
-- whether the contents go on behind that, so a file that fits exactly is not taken for a truncated one.
pub read_path-content_of :
    (open_file : Bytes → Option (List Answer)) (old : ProcFile) (buf_len : ℕ) (path : Bytes)
    (flag : Option Bool) (answers : List Answer)
    → 10 ≤ buf_len
    → open_file path ≡ some answers
    → IsReadable answers
    → read_path open_file (some old) buf_len (some path) flag ≡ (
      ok (record old {
        f_size = length (take (buf_len - 10) (content_of answers));
        f_data = take (buf_len - 10) (content_of answers);
      }),
      set_flag (ltb (buf_len - 10) (length (content_of answers))) flag,
    )
unfolding read_path
read_path-content_of open_file old buf_len path flag answers enough opened readable =
    if_false _ _ (le→ltb buf_len 10 enough)
    ∙ ap (read_opened old buf_len (set_flag false flag)) opened
    ∙ ap (store_file old (set_flag false flag)) (
        read_loop-content_of (room buf_len + length answers + 1) (room buf_len) [] answers readable
          (omega arith))
    ∙ ap (λ n. stored n (content_of answers)) (minus_ten buf_len)
    ∙ ap (λ flag. (ok (object (buf_len - 10)), flag))
        (flags flag (ltb (buf_len - 10) (length (content_of answers))))
  where
    object : ℕ → ProcFile
    object n = record old {
      f_size = length (take n (content_of answers));
      f_data = take n (content_of answers);
    }

    stored : ℕ → Bytes → Result ProcFile × Option Bool
    stored n content =
        store_file old (set_flag false flag) (ok (take n content, ltb n (length content)))

    minus_ten : (n : ℕ) → n - proc_header - 1 ≡ n - 10
    minus_ten n = omega arith

    flags :
        (flag : Option Bool) (b : Bool)
        → (if b then set_flag true (set_flag false flag) else set_flag false flag) ≡ set_flag b flag
    flags none true = refl
    flags none false = refl
    flags (some b) true = refl
    flags (some b) false = refl

-- So many bytes at most, or a failure that is the code's.
abbrev Bounded : ℕ → Result (Bytes × Bool) → Type 0
Bounded n (ok (s, truncated)) = length s ≤ n
Bounded n (err e) = e ≢ Error.out_of_fuel

probe-Bounded :
    (n : ℕ) (s : Bytes) (answers : List Answer)
    → length s ≤ n
    → Bounded n (with_data s (probe answers))
unfolding probe
probe-Bounded n s [] h = h
probe-Bounded n s (gives [] ∷ answers) h = h
probe-Bounded n s (gives (c ∷ t) ∷ answers) h = h
probe-Bounded n s (interrupted ∷ answers) h = probe-Bounded n s answers h
probe-Bounded n s (fails ∷ answers) h = λ q. cc

module _ (n fuel : ℕ) where
  abbrev Rounds : Type 0
  Rounds =
      (left : ℕ) (s : Bytes) (answers : List Answer)
      → length s + left ≤ n
      → left + length answers < fuel
      → Bounded n (read_loop fuel left s answers)

  bytes_round :
      Rounds
      → (left : ℕ) (s got : Bytes) (answers : List Answer) → length s + left ≤ n
      → length got ≤ left
      → left + length answers < suc fuel
      → Bounded n (read_round (read_loop fuel) left s (bytes got, answers))
  unfolding read_round
  bytes_round ih left s [] answers h k m = omega (arith, h)
  bytes_round ih left s (c ∷ t) answers h k m =
      ih (left - length (c ∷ t)) (s ++ (c ∷ t)) answers (omega (arith, length-append s (c ∷ t)))
        (omega arith)

  any_round :
      Rounds
      → (left : ℕ) (s : Bytes) (answers : List Answer) → length s + left ≤ n
      → left + length answers < suc fuel
      → Bounded n (read_round (read_loop fuel) left s (read (min 4096 left) answers))
  unfolding read_round read
  any_round ih left s [] h m = omega (arith, h)
  any_round ih left s (gives t ∷ answers) h m =
      bytes_round ih left s (take (min 4096 left) t) _ h
        (omega (arith, length-take (min 4096 left) t))
        (omega (arith, m, no_longer (leb (length t) (min 4096 left))))
    where
      no_longer :
          (b : Bool)
          → length (if b then answers else gives (drop (min 4096 left) t) ∷ answers)
            ≤ suc (length answers)
      no_longer true = omega arith
      no_longer false = omega arith
  any_round ih left s (interrupted ∷ answers) h m = ih left s answers h (omega (arith, m))
  any_round ih left s (fails ∷ answers) h m = λ q. cc

read_loop-Bounded :
    (n fuel left : ℕ) (s : Bytes) (answers : List Answer)
    → length s + left ≤ n
    → left + length answers < fuel
    → Bounded n (read_loop fuel left s answers)
unfolding read_loop
read_loop-Bounded n zero left s answers h m = absurd (omega (arith, m))
read_loop-Bounded n (suc fuel) zero s answers h m = probe-Bounded n s answers (omega (arith, h))
read_loop-Bounded n (suc fuel) (suc left) s answers h m =
    subst (Bounded n) (sym (if_false _ _ (suc-ne-zero left))) (
      any_round n fuel (λ left s answers h m. read_loop-Bounded n fuel left s answers h m)
        (suc left) s answers h m)

-- An object within the buffer, its contents' NUL included, or a failure that is the code's.
abbrev Stored : ℕ → Result ProcFile × Option Bool → Type 0
Stored buf_len (ok pf, flag) = (length pf.f_data ≡ pf.f_size) × (serialized_size pf + 1 ≤ buf_len)
Stored buf_len (err e, flag) = e ≢ Error.out_of_fuel

store_file-Stored :
    (old : ProcFile) (buf_len : ℕ) (flag : Option Bool) (r : Result (Bytes × Bool))
    → 10 ≤ buf_len
    → Bounded (room buf_len) r
    → Stored buf_len (store_file old flag r)
store_file-Stored old buf_len flag (ok (s, truncated)) enough h = (refl, omega (arith, h))
store_file-Stored old buf_len flag (err e) enough h = h

read_opened-Stored :
    (old : ProcFile) (buf_len : ℕ) (flag : Option Bool) (o : Option (List Answer))
    → 10 ≤ buf_len
    → Stored buf_len (read_opened old buf_len flag o)
read_opened-Stored old buf_len flag none enough = λ q. cc
read_opened-Stored old buf_len flag (some answers) enough =
    store_file-Stored old buf_len flag _ enough (
      read_loop-Bounded (room buf_len) (room buf_len + length answers + 1) (room buf_len) [] answers
        (omega arith) (omega arith))

module _ (open_file : Bytes → Option (List Answer)) where
  read_path-Stored :
      (old : ProcFile) (buf_len : ℕ) (path : Bytes) (flag : Option Bool)
      → Stored buf_len (read_path open_file (some old) buf_len (some path) flag)
  unfolding read_path
  read_path-Stored old buf_len path flag = elim (Bool-cases (ltb buf_len (proc_header + 1))) [
    | inl e ↦ subst (Stored buf_len) (sym (if_true _ _ e)) (λ q. cc)
    | inr e ↦
        subst (Stored buf_len) (sym (if_false _ _ e))
          (read_opened-Stored old buf_len (set_flag false flag) (open_file path) (wide buf_len e))
  ]
    where
      wide : (n : ℕ) → ltb n (proc_header + 1) ≡ false → 10 ≤ n
      wide n e = ground arith

  read_format-Stored :
      (old : ProcFile) (buf_len : ℕ) (path : Bytes) (flag : Option Bool)
      → Stored buf_len (read_format open_file (some old) buf_len path flag)
  unfolding read_format
  read_format-Stored old buf_len path flag = elim (Bool-cases (leb path_max (length path))) [
    | inl e ↦ subst (Stored buf_len) (sym (if_true _ _ e)) (λ q. cc)
    | inr e ↦ subst (Stored buf_len) (sym (if_false _ _ e)) (read_path-Stored old buf_len path flag)
  ]

-- An `int` of 32 bits.
abbrev pub IsInt : ℤ → Type 0
IsInt (pos n) = n < 2 ^ 31
IsInt (negsuc n) = n < 2 ^ 31

-- The outcome of `ReadPid`: an object of the process and the type, whole, within the buffer with a byte
-- to spare; or a failure that is the code's.
abbrev pub IsReading : ℕ → ℤ → ℕ → Result ProcFile × Option Bool → Type 0
IsReading buf_len pid type (ok pf, flag) =
    IsProcFile pf
    × (serialized_size pf + 1 ≤ buf_len)
    × (pid ≡ pos pf.f_pid)
    × (pf.f_type ≡ type)
    × (0 < pf.f_pid)
    × (0 < type)
    × (type < 9)
IsReading buf_len pid type (err e, flag) = e ≢ Error.out_of_fuel

tag_file-IsReading :
    (buf_len pid type : ℕ) (p : Result ProcFile × Option Bool)
    → buf_len < 2 ^ 31
    → (0 < pid) × (pid < 2 ^ 31)
    → (0 < type) × (type < 9)
    → Stored buf_len p
    → IsReading buf_len (pos pid) type (tag_file pid type p)
tag_file-IsReading buf_len pid type (ok pf, flag) fits (p, p') (t, t') (holds, within) = (
  record {
    size_fits = omega (arith, within, fits);
    pid_fits = omega (arith, p');
    type_fits = omega (arith, t');
    holds = holds;
  },
  within,
  refl,
  refl,
  p,
  t,
  t',
)
tag_file-IsReading buf_len pid type (err e, flag) fits p t h = h

-- Whatever opens and whatever the kernel answers, `ReadPid` ends: with an object of this process and
-- type, that holds as many bytes as it says and lies within the buffer with a byte to spare for the
-- NUL, and only for a positive process number and one of the eight types; or with a failure. The
-- process number is any `int`, also a negative one, and the length of the buffer is below 2^31.
pub read_pid-IsReading :
    (open_file : Bytes → Option (List Answer)) (old : ProcFile) (buf_len : ℕ) (pid : ℤ) (type : ℕ)
    (flag : Option Bool)
    → buf_len < 2 ^ 31
    → IsInt pid
    → IsReading buf_len pid type (read_pid open_file (some old) buf_len pid type flag)
unfolding read_pid
read_pid-IsReading open_file old buf_len (negsuc pid) type flag fits small = λ q. cc
read_pid-IsReading open_file old buf_len (pos pid) type flag fits small =
    elim (Bool-cases refused) [
      | inl e ↦ subst (IsReading buf_len (pos pid) type) (sym (if_true _ _ e)) (λ q. cc)
      | inr e ↦ subst (IsReading buf_len (pos pid) type) (sym (if_false _ _ e)) (
          tag_file-IsReading buf_len pid type _ fits (positive e, small) (known e)
            (read_format-Stored open_file old buf_len (path_of pid (name_text (sz_proc_type type)))
              flag))
    ]
  where
    refused : Bool
    refused = ltb buf_len (proc_header + 1) || (pid == 0 || (type == 0 || leb 9 type))

    positive : refused ≡ false → 0 < pid
    positive e = ground arith

    known : refused ≡ false → (0 < type) × (type < 9)
    known e = ground arith
