-- ===== src/Base/Files.antt =====
-- The stdio files that the streams read and write.
use Prim.Native.Nat.{ℕ, ◌+◌, ◌-◌, ◌<◌}
use mathlib.Core.Path.{◌≡◌, sym, ap, ◌∙◌}
use mathlib.Core.Bool.{Bool, true, false}
use mathlib.Core.List.{◌++◌}
use native.Mathlib.Omega.{arith}
use arthur.Base.Tests.{leb, if◌then◌else◌, if_true, le→leb}
use arthur.Base.Lists.{Bytes, length, take, drop, take-append, drop-append, drop-drop}

-- A file open for writing. The device takes `room` more bytes, and `failed` is `ferror`.
pub record OutFile : Type 0 where
  pub written : Bytes
  pub room : ℕ
  pub failed : Bool

-- `fwrite(bs, 1, n, file)`: all of the bytes, or those that fit, with the error flag set.
unfoldable pub fwrite : Bytes → OutFile → ℕ × OutFile
fwrite bs f =
    if leb (length bs) f.room
    then (length bs, record f { written = f.written ++ bs; room = f.room - length bs })
    else (f.room, record { written = f.written ++ take f.room bs; room = 0; failed = true })

-- A file open for reading. Behind `content` a read meets the end of the file, or, if the file is
-- `broken`, an input error.
pub record InFile : Type 0 where
  pub content : Bytes
  pub pos : ℕ
  pub broken : Bool
  pub at_eof : Bool
  pub failed : Bool

-- What has not been read.
abbrev pub rest_of : InFile → Bytes
rest_of f = drop f.pos f.content

-- `fread(out, 1, n, file)`: the bytes read; a short read sets `feof` or `ferror`.
unfoldable pub fread : ℕ → InFile → Bytes × InFile
fread n f =
    let got = take n (rest_of f) in
    let f' = record f { pos = f.pos + length got } in
    if leb n (length got)
    then (got, f')
    else if f.broken
    then (got, record f' { failed = true })
    else (got, record f' { at_eof = true })

-- `fseek(file, n, SEEK_SET)` clears the end-of-file flag.
abbrev pub fseek : ℕ → InFile → InFile
fseek n f = record f { pos = n; at_eof = false }

-- A read of what stands next returns it and leaves what follows.
pub fread_front :
    (n : ℕ) (f : InFile) (bs more : Bytes)
    → rest_of f ≡ bs ++ more
    → n ≡ length bs
    → fread n f ≡ (bs, record f { pos = f.pos + n })
unfolding fread
fread_front n f bs more e h =
    rw (e, take-append n bs more h, le→leb n (length bs) (omega arith), ← h)

pub rest_of-advance :
    (n : ℕ) (f : InFile) (bs more : Bytes)
    → rest_of f ≡ bs ++ more
    → n ≡ length bs
    → drop (f.pos + n) f.content ≡ more
rest_of-advance n f bs more e h =
    sym (drop-drop f.pos n f.content) ∙ ap (λ t. drop n t) e ∙ drop-append n bs more h

pub fwrite_all :
    (bs : Bytes) (f : OutFile)
    → leb (length bs) f.room ≡ true
    → fwrite bs f ≡ (length bs, record f { written = f.written ++ bs; room = f.room - length bs })
unfolding fwrite
fwrite_all bs f h = if_true _ _ h

pub fwrite_short :
    (bs : Bytes) (f : OutFile) → leb (length bs) f.room ≡ false → (fwrite bs f).0 < length bs
unfolding fwrite
fwrite_short bs f h = ground arith
