-- ===== src/Core/Memory/Peeked.antt =====
-- The calls of `ReadLoads` on one block: the look at the next header, and the bytes into the core file.
use arthur.Base.{
  ℕ, ◌+◌, ◌-◌, ◌≡◌, ◌≤◌, refl, ap, ◌∙◌, arith, Bool, true, false, ◌||◌, if◌then◌else◌, ltb, leb,
  ◌==◌, if_false, unless_true, le→ltb,
}
use arthur.Base.{◌++◌, Bytes, length, take, le→leb}
use arthur.Base.Files.{OutFile, InFile, fread, fwrite, fwrite_all, fseek, rest_of}
use arthur.Base.Results.{Result, ok}
use arthur.Stream.Header.{header_length}
use arthur.Stream.Reader.{Reader, read_raw, peek}
use arthur.Core.Loads.{ssize_max}
use arthur.Core.Memory.{put_loads}

-- A read that comes to the front of the file, its flags apart.
pub record IsPeek (n : ℕ) (f : InFile) (p : Bytes × InFile) : Type 0 where
  pub bytes : p.0 ≡ take n (rest_of f)
  pub content : p.1.content ≡ f.content

pub fread-IsPeek : (n : ℕ) (f : InFile) → IsPeek n f (fread n f)
unfolding fread
fread-IsPeek n f = go (leb n (length (take n (rest_of f)))) f.broken
  where
    got : Bytes
    got = take n (rest_of f)

    moved : InFile
    moved = record f { pos = f.pos + length got }

    go :
        (whole is_broken : Bool)
        → IsPeek n f (
            if whole
            then (got, moved)
            else if is_broken
            then (got, record moved { failed = true })
            else (got, record moved { at_eof = true }))
    go true is_broken = record { bytes = refl; content = refl }
    go false true = record { bytes = refl; content = refl }
    go false false = record { bytes = refl; content = refl }

-- The core file with the bytes at its end.
abbrev pub lengthened : Bytes → OutFile → OutFile
lengthened s f = record f { written = f.written ++ s; room = f.room - length s }

module _ {Decoder : Type 0} where
  -- The stream behind a peek at the next header.
  abbrev pub peeked : Reader Decoder → Reader Decoder
  peeked r = record r { file = fseek r.file.pos (fread header_length r.file).1 }

  pub peek_ok :
      (r : Reader Decoder)
      → r.opened ≡ true
      → peek header_length r ≡ (ok (take header_length (rest_of r.file)), peeked r)
  unfolding peek read_raw
  peek_ok r v =
      unless_true _ _ v
      ∙ ap back (unless_true _ _ v)
      ∙ ap (λ s. (ok s, peeked r)) (fread-IsPeek header_length r.file).bytes
    where
      back : Result Bytes × Reader Decoder → Result Bytes × Reader Decoder
      back (res, r₁) = (res, record r₁ { file = fseek r.file.pos r₁.file })

  -- The stream with a block of these bytes, none of which was read.
  abbrev pub with_block : Bytes → Reader Decoder → Reader Decoder
  with_block s r = record r { block = record { cur = 0; bytes = s } }

  pub put_loads_ok :
      (expected n : ℕ) (s : Bytes) (r : Reader Decoder) (f : OutFile)
      → n + length s ≤ expected
      → expected ≤ ssize_max
      → length s ≤ f.room
      → put_loads expected n (record { reader = with_block s r; fout = f })
        ≡ (ok (n + length s), record { reader = with_block s r; fout = lengthened s f })
  unfolding put_loads
  put_loads_ok expected n s r f within small room =
      if_false _ _ (fits (length s) within)
      ∙ unless_true _ _ (ap (λ (p : ℕ × OutFile). p.0 == length s - 0) whole ∙ same (length s))
      ∙ if_false _ _ (le→ltb (ssize_max - n) (length s - 0) (omega (arith, within, small)))
      ∙ λ i. (ok (n + minus (length s) i), record { reader = with_block s r; fout = (whole i).1 })
    where
      whole : fwrite s f ≡ (length s, lengthened s f)
      whole = fwrite_all s f (le→leb (length s) f.room room)

      minus : (a : ℕ) → a - 0 ≡ a
      minus a = omega arith

      same : (a : ℕ) → (a == a - 0) ≡ true
      same a = ground arith

      fits : (a : ℕ) → n + a ≤ expected → (ltb expected n || ltb (expected - n) (a - 0)) ≡ false
      fits a h = ground arith
