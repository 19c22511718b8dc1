-- ===== src/Core/Memory/Limits.antt =====
-- `ReadLoads` on any file: that it ends, and what it adds to the core file.
use arthur.Base.{
  ℕ, zero, suc, ◌+◌, ◌-◌, ◌≡◌, ◌≢◌, ◌≤◌, ◌<◌, refl, sym, ap, ◌∙◌, arith, Bool, true, false, not,
  ◌||◌, if◌then◌else◌, ltb, leb, ◌==◌, Bool-cases, inl, inr,
}
use arthur.Base.{[], ◌++◌, Bytes, length, append-nil, append_assoc, length-append, length-drop}
use arthur.Base.Files.{OutFile, fwrite, fwrite_all, fwrite_short}
use arthur.Base.Results.{Result, Error, ok, err, and_then}
use arthur.Stream.Header.{header_length}
use arthur.Stream.Block
use arthur.Stream.Codec.{Lz4}
use arthur.Stream.Reader.{Reader, read_block, peek}
use arthur.Stream.Reader.Progress.{IsReadTo, Progress, read_block-Progress, peek-Progress}
use arthur.Core.Loads.{ssize_max}
use arthur.Core.Memory.{
  Restore, on_reader, is_loads, unread, put_loads, read_loads_blocks, read_loads,
}

-- `Q` of the value and the object where a call succeeded; a failure is the code's.
abbrev Yields : {A S : Type 0} → (A → S → Type 0) → Result A × S → Type 0
Yields Q (ok a, s) = Q a s
Yields Q (err e, s) = e ≢ Error.out_of_fuel

and_then-Yields :
    {A B S : Type 0} (Q : A → S → Type 0) (R : B → S → Type 0) (p : Result A × S)
    (f : A → S → Result B × S)
    → Yields Q p
    → ((a : A) (s : S) → Q a s → Yields R (f a s))
    → Yields R (and_then p f)
and_then-Yields Q R (ok a, s) f h k = k a s h
and_then-Yields Q R (err e, s) f h k = h

if-Yields :
    {A S : Type 0} (Q : A → S → Type 0) (b : Bool) (p q : Result A × S)
    → (b ≡ true → Yields Q p)
    → (b ≡ false → Yields Q q)
    → Yields Q (if b then p else q)
if-Yields Q true p q h k = h refl
if-Yields Q false p q h k = k refl

-- What was added to the core file, within the budget.
abbrev pub Added : Bytes → ℕ → ℕ → OutFile → Type 0
Added start expected n f = (s : Bytes) × (f.written ≡ start ++ s) × (length s ≡ n) × (n ≤ expected)

-- A success adds the bytes that it counts; a failure is the code's.
abbrev pub Outcome : {Decoder : Type 0} → Bytes → ℕ → Result ℕ × Restore Decoder → Type 0
Outcome start expected p = Yields (λ n st. Added start expected n st.fout) p

written_all :
    (bs : Bytes) (f : OutFile)
    → (fwrite bs f).0 ≡ length bs
    → (fwrite bs f).1.written ≡ f.written ++ bs
written_all bs f h = elim (Bool-cases (leb (length bs) f.room)) [
  | inl fits ↦ ap (λ (p : ℕ × OutFile). p.1.written) (fwrite_all bs f fits)
  | inr short ↦ absurd (omega (arith, fwrite_short bs f short, h))
]

module _ {Decoder : Type 0} (content start : Bytes) (expected : ℕ) where
  record IsAt (low n : ℕ) (st : Restore Decoder) : Type 0 where
    read_to : IsReadTo content low st.reader.file
    added : Added start expected n st.fout

  on_reader-Yields :
      {A : Type 0} (low low' n : ℕ) (p : Result A × Reader Decoder) (st : Restore Decoder)
      → IsAt low n st
      → Progress content low' p
      → Yields (λ _ st'. IsAt low' n st') (on_reader p st)
  on_reader-Yields low low' n (ok a, r) st v h = record { read_to = h; added = v.added }
  on_reader-Yields low low' n (err e, r) st v h = h

  put_loads-Yields :
      (low n : ℕ) (st : Restore Decoder)
      → IsAt low n st
      → Yields (λ m st'. IsAt low m st') (put_loads expected n st)
  unfolding put_loads
  put_loads-Yields low n st v =
      if-Yields _ (ltb expected n || ltb (expected - n) size) _ _ (λ _ q. cc)
        λ within.
          if-Yields _ (not ((fwrite (unread st.reader) st.fout).0 == size)) _ _ (λ _ q. cc)
            λ all.
              if-Yields _ (ltb (ssize_max - n) size) _ _ (λ _ q. cc)
                λ _. record { read_to = v.read_to; added = grown v.added within all }
    where
      size : ℕ
      size = Block.size st.reader.block

      bs : Bytes
      bs = unread st.reader

      count : length bs ≡ size
      count = length-drop st.reader.block.cur st.reader.block.bytes

      fits :
          (a b : ℕ)
          → ltb expected a || ltb (expected - a) b ≡ false
          → a ≤ expected
          → a + b ≤ expected
      fits a b h k = ground arith

      equal : (a b : ℕ) → not (a == b) ≡ false → a ≡ b
      equal a b h = ground arith

      grown :
          Added start expected n st.fout
          → (ltb expected n || ltb (expected - n) size ≡ false)
          → (not ((fwrite bs st.fout).0 == size) ≡ false)
          → Added start expected (n + size) (fwrite bs st.fout).1
      grown (s, written, counted, small) within all = (
        s ++ bs,
        written_all bs st.fout (equal _ _ all ∙ sym count)
            ∙ ap (λ t. t ++ bs) written
            ∙ append_assoc start s bs,
        length-append s bs ∙ omega (arith, counted, count),
        fits n size within small,
      )

module _ {Encoder Decoder : Type 0} (z : Lz4 Encoder Decoder) (content start : Bytes)
    (expected : ℕ) where
  read_loads_blocks-Yields :
      (fuel low n : ℕ) (st : Restore Decoder)
      → IsAt content start expected low n st
      → length content < low + fuel
      → Yields (λ m st'. Added start expected m st'.fout) (read_loads_blocks z fuel expected n st)
  unfolding read_loads_blocks
  read_loads_blocks-Yields zero low n st v h =
      absurd (omega (arith, h, v.read_to.above, v.read_to.below))
  read_loads_blocks-Yields (suc fuel) low n st v h =
      and_then-Yields (λ _ st'. IsAt content start expected low n st') _
        (on_reader (peek header_length st.reader) st) _
        (on_reader-Yields content start expected low low n (peek header_length st.reader) st v
          (peek-Progress z content low header_length st.reader v.read_to))
        λ got st₁ v₁.
          if-Yields _ (not (is_loads got)) _ _ (λ _. v₁.added)
            λ _.
              and_then-Yields (λ _ st'. IsAt content start expected (low + 3) n st') _
                (on_reader (read_block z st₁.reader) st₁) _
                (on_reader-Yields content start expected low (low + 3) n (read_block z st₁.reader)
                  st₁ v₁ (read_block-Progress z content low st₁.reader v₁.read_to))
                λ _ st₂ v₂.
                  and_then-Yields (λ m st'. IsAt content start expected (low + 3) m st') _
                    (put_loads expected n st₂) _
                    (put_loads-Yields content start expected (low + 3) n st₂ v₂)
                    λ m st₃ v₃. read_loads_blocks-Yields fuel (low + 3) m st₃ v₃ (omega (arith, h))

-- Whatever the file holds and whatever the codec makes of it, ReadLoads ends by itself; where it
-- succeeds, it has added to the core file as many bytes as it returns, and no more than its budget.
-- The position of the file is within it.
pub read_loads-Outcome :
    {Encoder Decoder : Type 0} (z : Lz4 Encoder Decoder) (expected : ℕ) (st : Restore Decoder)
    → st.reader.file.pos ≤ length st.reader.file.content
    → Outcome st.fout.written expected (read_loads z expected st)
unfolding read_loads
read_loads-Outcome z expected st h =
    read_loads_blocks-Yields z st.reader.file.content st.fout.written expected
      (length st.reader.file.content + 1) 0 0 st
      (record {
        read_to = record { same_content = refl; above = omega arith; below = h };
        added = ([], sym (append-nil st.fout.written), refl, omega arith);
      })
      (omega arith)
