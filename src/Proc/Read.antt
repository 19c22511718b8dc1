-- ===== src/Proc/Read.antt =====
-- Reading a file of /proc (src/proc.h, src/proc.cc): `szProcType`, `ReadPath`, `Read` and `ReadPid`.
pub mod Loop
pub mod Bounds
use arthur.Base.{
  ℕ, zero, suc, ◌+◌, ◌-◌, ◌/◌, ◌%◌, ◌^◌, Bool, true, false, not, ◌&&◌, ◌||◌, if◌then◌else◌, ltb,
  leb, ◌==◌, min,
}
use arthur.Base.{Option, none, some, List, [], ◌∷◌, ◌++◌, Bytes, length, take, drop}
use arthur.Base.Results.{Result, Error, ok, err, and_then}
use arthur.Stream.ProcFile.{ProcFile, proc_header}
use arthur.Proc.Text.{ℤ, pos, negsuc}

-- What the kernel answers to the reads of an open file, in turn: a stretch of bytes (none at the end of
-- the file), EINTR, or another failure. Behind the last answer is the end of the file.
pub data Answer : Type 0 where
  gives : Bytes → Answer
  interrupted : Answer
  fails : Answer

-- What `read` returns: bytes, EINTR or another failure.
pub data Got : Type 0 where
  bytes : Bytes → Got
  again : Got
  failed : Got

-- `read(fd, p, n)`: what does not fit into `n` bytes is left for the next one.
unfoldable pub read : ℕ → List Answer → Got × List Answer
read n [] = (bytes [], [])
read n (gives s ∷ answers) =
    (bytes (take n s), if leb (length s) n then answers else gives (drop n s) ∷ answers)
read n (interrupted ∷ answers) = (again, answers)
read n (fails ∷ answers) = (failed, answers)

-- The read of one more byte behind a full buffer, as often as it is interrupted: whether there is one.
unfoldable pub probe : List Answer → Result Bool
probe [] = ok false
probe (gives [] ∷ answers) = ok false
probe (gives (c ∷ s) ∷ answers) = ok true
probe (interrupted ∷ answers) = probe answers
probe (fails ∷ answers) = err Error.fault

abbrev with_data : Bytes → Result Bool → Result (Bytes × Bool)
with_data s (ok truncated) = ok (s, truncated)
with_data s (err e) = err e

-- The rest of a round whose `read` returned.
unfoldable pub read_round :
    (ℕ → Bytes → List Answer → Result (Bytes × Bool))
    → ℕ
    → Bytes
    → Got × List Answer
    → Result (Bytes × Bool)
read_round go left s (bytes [], answers) = ok (s, false)
read_round go left s (bytes (c ∷ t), answers) = go (left - length (c ∷ t)) (s ++ (c ∷ t)) answers
read_round go left s (again, answers) = go left s answers
read_round go left s (failed, answers) = err Error.fault

-- `for (;;)`: what was read, and whether the file goes on behind it.
unfoldable pub read_loop : ℕ → ℕ → Bytes → List Answer → Result (Bytes × Bool)
read_loop zero left s answers = err Error.out_of_fuel
read_loop (suc fuel) left s answers =
    if left == 0
    then with_data s (probe answers)
    else read_round (read_loop fuel) left s (read (min 4096 left) answers)

-- `*out_truncated = b`, where the pointer is not null.
abbrev pub set_flag : Bool → Option Bool → Option Bool
set_flag b none = none
set_flag b (some _) = some b

-- The bytes left for the contents: one is reserved for a NUL.
abbrev pub room : ℕ → ℕ
room buf_len = buf_len - proc_header - 1

abbrev pub store_file :
    ProcFile → Option Bool → Result (Bytes × Bool) → Result ProcFile × Option Bool
store_file old flag (ok (s, truncated)) = (
  ok (record old { f_size = length s; f_data = s }),
  if truncated then set_flag true flag else flag,
)
store_file old flag (err e) = (err e, flag)

abbrev pub read_opened :
    ProcFile → ℕ → Option Bool → Option (List Answer) → Result ProcFile × Option Bool
read_opened old buf_len flag none = (err Error.fault, flag)
read_opened old buf_len flag (some answers) =
    store_file old flag (read_loop (room buf_len + length answers + 1) (room buf_len) [] answers)

abbrev pub path_max : ℕ
path_max = 4096

module _ (open_file : Bytes → Option (List Answer)) where
  -- `ReadPath`. `old` is what the buffer held, none where it is null; a negative `buf_len` is treated as
  -- 0 is. The NUL behind the contents is not part of the object's `f_size` bytes.
  unfoldable pub read_path :
      Option ProcFile → ℕ → Option Bytes → Option Bool → Result ProcFile × Option Bool
  read_path none buf_len path flag = (err Error.einval, set_flag false flag)
  read_path (some old) buf_len none flag = (err Error.einval, set_flag false flag)
  read_path (some old) buf_len (some path) flag =
      if ltb buf_len (proc_header + 1)
      then (err Error.einval, set_flag false flag)
      else read_opened old buf_len (set_flag false flag) (open_file path)

  -- `Read`, where `vsnprintf` printed the text.
  unfoldable pub read_format :
      Option ProcFile → ℕ → Bytes → Option Bool → Result ProcFile × Option Bool
  read_format old buf_len path flag =
      if leb path_max (length path)
      then (err Error.enametoolong, flag)
      else read_path old buf_len (some path) flag

-- `szProcType`
unfoldable pub sz_proc_type : ℕ → Option Bytes
sz_proc_type type =
    if type == 1
    then some (b'c' ∷ b'm' ∷ b'd' ∷ b'l' ∷ b'i' ∷ b'n' ∷ b'e' ∷ [])
    else if type == 2
    then some (b's' ∷ b't' ∷ b'a' ∷ b't' ∷ [])
    else if type == 3
    then some (b's' ∷ b't' ∷ b'a' ∷ b't' ∷ b'u' ∷ b's' ∷ [])
    else if type == 4
    then some (b'a' ∷ b'u' ∷ b'x' ∷ b'v' ∷ [])
    else if type == 5
    then some (b'm' ∷ b'a' ∷ b'p' ∷ b's' ∷ [])
    else if type == 6
    then some (b'i' ∷ b'o' ∷ [])
    else if type == 7
    then some (b'e' ∷ b'n' ∷ b'v' ∷ b'i' ∷ b'r' ∷ b'o' ∷ b'n' ∷ [])
    else if type == 8
    then some (b'l' ∷ b'i' ∷ b'm' ∷ b'i' ∷ b't' ∷ b's' ∷ [])
    else none

unfoldable pub digit : ℕ → ℕ
digit n = b'0' + n % 10

-- `%u` of a number that has at most so many digits.
unfoldable pub decimal : ℕ → ℕ → Bytes
decimal zero n = []
decimal (suc digits) n =
    let front = decimal digits (n / 10) in
    if ltb n 10 then digit n ∷ [] else front ++ (digit n ∷ [])

abbrev pub slash : ℕ
slash = b'/'

-- "/proc/%u/%s"
unfoldable pub path_of : ℕ → Bytes → Bytes
path_of pid name = slash ∷ b'p' ∷ b'r' ∷ b'o' ∷ b'c' ∷ slash ∷ (decimal 10 pid ++ (slash ∷ name))

abbrev pub name_text : Option Bytes → Bytes
name_text none = []
name_text (some name) = name

-- `f->f_pid = pid; f->f_type = type;`
abbrev pub tag_file : ℕ → ℕ → Result ProcFile × Option Bool → Result ProcFile × Option Bool
tag_file pid type (ok pf, flag) = (ok (record pf { f_pid = pid; f_type = type }), flag)
tag_file pid type (err e, flag) = (err e, flag)

module _ (open_file : Bytes → Option (List Answer)) where
  -- `ReadPid`
  unfoldable pub read_pid :
      Option ProcFile → ℕ → ℤ → ℕ → Option Bool → Result ProcFile × Option Bool
  read_pid none buf_len pid type flag = (err Error.einval, flag)
  read_pid (some old) buf_len (negsuc pid) type flag = (err Error.einval, flag)
  read_pid (some old) buf_len (pos pid) type flag =
      if ltb buf_len (proc_header + 1) || (pid == 0 || (type == 0 || leb 9 type))
      then (err Error.einval, flag)
      else tag_file pid type (
          read_format open_file (some old) buf_len (path_of pid (name_text (sz_proc_type type)))
            flag)
