-- ===== src/Stream/ProcFile.antt =====
-- `ProcFile` (src/proc.h) as the stream stores it: a header of nine packed bytes and the contents.
use arthur.Base.{ℕ, ◌+◌, ◌++◌, Bytes, take, drop, ◌*◌, ◌^◌, ◌<◌, ◌≡◌, length}
use arthur.Base.Words.{le_bytes, le_value}

-- `f_data` holds the bytes behind the header.
pub record ProcFile : Type 0 where
  pub f_size : ℕ
  pub f_pid : ℕ
  pub f_type : ℕ
  pub f_data : Bytes

abbrev pub proc_header : ℕ
proc_header = 9

-- `Size()`, in `size_t`; `f_size` is a `uint32_t`, so the sum cannot wrap.
abbrev pub serialized_size : ProcFile → ℕ
serialized_size pf = proc_header + pf.f_size

abbrev pub max_proc_file_size : ℕ
max_proc_file_size = 64 * 1024 * 1024

-- The object in memory.
unfoldable pub memory_of : ProcFile → Bytes
memory_of pf = le_bytes 4 pf.f_size ++ (le_bytes 4 pf.f_pid ++ (le_bytes 1 pf.f_type ++ pf.f_data))

-- `(ProcFile*)p` on a buffer of bytes.
unfoldable pub of_memory : Bytes → ProcFile
of_memory bs = record {
  f_size = le_value (take 4 bs);
  f_pid = le_value (take 4 (drop 4 bs));
  f_type = le_value (take 1 (drop 8 bs));
  f_data = drop 9 bs;
}

-- What a `ProcFile` object satisfies: its fields fit their widths, and it holds `f_size` bytes.
pub record IsProcFile (pf : ProcFile) : Type 0 where
  pub size_fits : pf.f_size < 2 ^ 32
  pub pid_fits : pf.f_pid < 2 ^ 32
  pub type_fits : pf.f_type < 256
  pub holds : length pf.f_data ≡ pf.f_size
