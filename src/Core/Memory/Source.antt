-- ===== src/Core/Memory/Source.antt =====
-- The memory of a stopped process, and the loop of `pread` in `WriteLoads` (src/core.cc).
use arthur.Base.{ℕ, zero, suc, ◌+◌, ◌-◌, ◌==◌, Bool, true, false, if◌then◌else◌, min}
use arthur.Base.{List, [], ◌∷◌, ◌++◌, Bytes}

-- What the kernel answers to a `pread` of /proc/<pid>/mem: a number of bytes (none at the end of the
-- file), EINTR, or another failure. Behind the last answer is the end of the file.
pub data Pread : Type 0 where
  stretch : ℕ → Pread
  signalled : Pread
  refused : Pread

-- The bytes at addresses from `addr` on; `memory` gives the byte at each address.
unfoldable pub bytes_at : (ℕ → ℕ) → ℕ → ℕ → Bytes
bytes_at memory addr zero = []
bytes_at memory addr (suc n) = memory addr ∷ bytes_at memory (suc addr) n

unfoldable pub zeros : ℕ → Bytes
zeros zero = []
zeros (suc n) = 0 ∷ zeros n

-- The buffer up to `req`, `got`, `saw_eof`, and the answers to come.
pub record Filled : Type 0 where
  pub data_read : Bytes
  pub got : ℕ
  pub saw_eof : Bool
  pub answers : List Pread

abbrev pub zero_filled : ℕ → Bool → List Pread → Filled
zero_filled n saw_eof answers = record {
  data_read = zeros n;
  got = 0;
  saw_eof = saw_eof;
  answers = answers;
}

-- The bytes of one `pread` in front of what the later ones gave.
abbrev pub with_bytes : Bytes → ℕ → Filled → Filled
with_bytes s n rest = record rest { data_read = s ++ rest.data_read; got = n + rest.got }

-- `while (got < req)`; `left` is `req - got`, and `addr` is the address of the next byte.
unfoldable pub fill_buffer : (ℕ → ℕ) → List Pread → ℕ → ℕ → Filled
fill_buffer memory answers addr zero = zero_filled 0 false answers
fill_buffer memory [] addr (suc left) = zero_filled (suc left) true []
fill_buffer memory (stretch n ∷ answers) addr (suc left) =
    let len = min n (suc left) in
    let rest = fill_buffer memory answers (addr + len) (suc left - len) in
    if len == 0
    then zero_filled (suc left) true answers
    else with_bytes (bytes_at memory addr len) len rest
fill_buffer memory (signalled ∷ answers) addr (suc left) =
    fill_buffer memory answers addr (suc left)
fill_buffer memory (refused ∷ answers) addr (suc left) = zero_filled (suc left) false answers
