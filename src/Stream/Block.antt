-- ===== src/Stream/Block.antt =====
-- `class Block` (src/lz4.h), a buffer of at most BLOCK_SIZE bytes with a read cursor.
use arthur.Base.{ℕ, ◌+◌, ◌-◌, Bool, if◌then◌else◌, ltb, ◌==◌, min, [], ◌++◌}
use arthur.Base.{Bytes, length, take, drop}
use arthur.Base.Results.{Result, ok, err, enospc}
use arthur.Stream.Header.{block_size}

-- `bytes` is `_buf[0 .. _length)`, the part of the storage that is in use.
pub record Block : Type 0 where
  pub cur : ℕ
  pub bytes : Bytes

abbrev pub empty : Block
empty = record { cur = 0; bytes = [] }

-- `Length()`, `Size()`, `Available()`
abbrev pub length_of : Block → ℕ
length_of b = length b.bytes

abbrev pub size : Block → ℕ
size b = length b.bytes - b.cur

abbrev pub available : Block → ℕ
available b = block_size - length b.bytes

abbrev pub is_empty : Block → Bool
is_empty b = length b.bytes == 0

abbrev pub is_end : Block → Bool
is_end b = b.cur == length b.bytes

abbrev pub clear : Block → Block
clear b = empty

-- `Write(in, n)`: the number of bytes taken, or -ENOSPC.
unfoldable pub write : Bytes → Block → Result ℕ × Block
write s b =
    if length s == 0
    then (ok 0, b)
    else if ltb (available b) (length s)
    then (err enospc, b)
    else (ok (length s), record b { bytes = b.bytes ++ s })

-- `Read(out, n)`: the bytes copied out.
unfoldable pub read : ℕ → Block → Result Bytes × Block
read n b =
    if n == 0
    then (ok [], b)
    else if ltb (size b) n
    then (err enospc, b)
    else let m = min n (size b) in (ok (take m (drop b.cur b.bytes)), record b { cur = b.cur + m })

-- `Peek(out, n)` leaves the cursor.
unfoldable pub peek : ℕ → Block → Result Bytes
peek n b =
    if n == 0
    then ok []
    else if ltb (size b) n
    then err enospc
    else ok (take n (drop b.cur b.bytes))
