-- ===== src/Proc/Tests/Files.antt =====
-- The readers of src/proc.cc and the status record at concrete inputs.
use arthur.Base.{◌≡◌, refl, arith, true, false, none, some, List, [], ◌∷◌, Bytes}
use arthur.Base.Results.{ok}
use arthur.Stream.ProcFile.{ProcFile}
use arthur.Proc.Text.{pos, span}
use arthur.Proc.Lines.{is_newline, in_line}
use arthur.Proc.Stat
use arthur.Proc.Stat.Fields.{Record, read_record, not_open, ends_record}
use arthur.Proc.Stat.Comm.{record_text, read_record-record_text}
use arthur.Proc.Read.{Answer, gives, interrupted, read_path, read_pid}
use arthur.Proc.Read.Bounds.{read_path-content_of, IsReading, read_pid-IsReading}
use arthur.Proc.Tests.Checks.{are_words-IsWord, file}

abbrev pub stat_words : List Bytes
stat_words =
    (b'S' ∷ [])
    ∷ (b'1' ∷ [])
    ∷ (b'7' ∷ [])
    ∷ (b'7' ∷ [])
    ∷ (b'0' ∷ [])
    ∷ (b'-' ∷ b'1' ∷ [])
    ∷ (b'4' ∷ b'1' ∷ b'9' ∷ b'4' ∷ b'5' ∷ b'6' ∷ b'0' ∷ [])
    ∷ (b'5' ∷ [])
    ∷ (b'0' ∷ [])
    ∷ (b'0' ∷ [])
    ∷ (b'0' ∷ [])
    ∷ (b'1' ∷ b'0' ∷ [])
    ∷ (b'2' ∷ b'0' ∷ [])
    ∷ (b'0' ∷ [])
    ∷ (b'0' ∷ [])
    ∷ (b'2' ∷ b'0' ∷ [])
    ∷ (b'0' ∷ [])
    ∷ (b'1' ∷ [])
    ∷ (b'0' ∷ [])
    ∷ (b'9' ∷ b'9' ∷ [])
    ∷ (b'8' ∷ b'1' ∷ b'9' ∷ b'2' ∷ [])
    ∷ (b'3' ∷ [])
    ∷ (b'0' ∷ [])
    ∷ (b'0' ∷ [])
    ∷ (b'0' ∷ [])
    ∷ (b'0' ∷ [])
    ∷ (b'0' ∷ [])
    ∷ (b'0' ∷ [])
    ∷ (b'0' ∷ [])
    ∷ (b'0' ∷ [])
    ∷ []

abbrev pub comm : Bytes
comm = b'a' ∷ b')' ∷ b' ' ∷ b'(' ∷ b'b' ∷ []

read_record-record_text_example :
    (read_record (record_text (b'7' ∷ []) comm stat_words)
      ≡ some (record {
        comm = comm;
        array = some (some (b'7' ∷ []) ∷ none ∷ Stat.Fields.present stat_words);
      }))
unfolding not_open ends_record span in_line is_newline
read_record-record_text_example =
    read_record-record_text (b'7' ∷ []) comm stat_words (are_words-IsWord ((b'7' ∷ []) ∷ []) refl).0
      (refl, tt) (are_words-IsWord stat_words refl) refl (omega arith) (omega arith)

abbrev old_file : ProcFile
old_file = file []

-- The kernel interrupts the first read, and then gives ten bytes in two stretches.
abbrev answers : List Answer
answers = interrupted ∷ gives (1 ∷ 2 ∷ 3 ∷ 4 ∷ 5 ∷ 6 ∷ []) ∷ gives (7 ∷ 8 ∷ 9 ∷ 10 ∷ []) ∷ []

abbrev some_path : Bytes
some_path = b'/' ∷ b'x' ∷ []

-- A buffer for eight bytes is filled, and the rest is told.
read_path-content_of_example :
    read_path (λ path. some answers) (some old_file) 18 (some some_path) (some false) ≡ (
      ok (record {
        f_size = 8;
        f_pid = 7;
        f_type = 1;
        f_data = 1 ∷ 2 ∷ 3 ∷ 4 ∷ 5 ∷ 6 ∷ 7 ∷ 8 ∷ [];
      }),
      some true,
    )
read_path-content_of_example =
    read_path-content_of (λ path. some answers) old_file 18 some_path (some false) answers
      (omega arith) refl (omega arith, (omega arith, tt))

read_pid-IsReading_example :
    IsReading 18 (pos 42) 2 (read_pid (λ path. some answers) (some old_file) 18 (pos 42) 2 none)
read_pid-IsReading_example =
    read_pid-IsReading (λ path. some answers) old_file 18 (pos 42) 2 none (omega arith)
      (omega arith)

abbrev pub stat_file : ProcFile
stat_file = file (record_text (b'7' ∷ []) comm stat_words)

abbrev pub stat_of_7 : Stat.Stat
stat_of_7 = record {
  state = 1;
  sname = b'S';
  comm = comm;
  pid = pos 7;
  ppid = pos 1;
  pgid = pos 7;
  sid = pos 7;
  stime = 20;
  utime = 10;
  cstime = 0;
  cutime = 0;
  vsize = 8;
  rss = 12;
  num_threads = pos 1;
  flags = 4194560;
  nice = pos 0;
  pending = 0;
  blocked = 0;
}
