-- ===== src/Stream/Reader/Answers.antt =====
-- What `GetFile` answers, whatever the file holds.
use arthur.Base.{
  ℕ, zero, suc, ◌+◌, ◌-◌, ◌≤◌, ◌<◌, ◌≡◌, refl, sym, ap, ◌∙◌, arith, ◌==◌, leb, ltb, min, ◌⊎◌,
}
use arthur.Base.{
  Bool, true, false, not, same, if_true, if_false, unless_true, Bool-cases, inl, inr, if◌then◌else◌,
  le→leb,
}
use arthur.Base.{
  Option, none, some, [], ◌∷◌, ◌++◌, Bytes, length, drop, length-append, length-take, length-drop,
}
use mathlib.Core.Path.{subst}
use arthur.Base.Results.{Result, Error, ok, err, and_then, and_then-ok}
use arthur.Base.Words.{le_value}
use arthur.Stream.BlockType
use arthur.Stream.Header.{BlockHeader}
use arthur.Stream.Block
use arthur.Stream.Codec.{Lz4}
use arthur.Stream.ProcFile.{ProcFile, of_memory, proc_header, serialized_size, max_proc_file_size}
use arthur.Stream.Reader.{Reader, read_block, read_raw, after_read, bytes_read}
use arthur.Stream.Reader.GetFile.{
  copied, take_piece, next_piece, piece, read_pieces, check_file, get_sized, get_file, corrupt,
}

-- What a round may take: nothing, or some bytes that are still missing.
abbrev IsTaken : ℕ → Bytes → Option Bytes → Type 0
IsTaken size got none = Unit {0}
IsTaken size got (some s) = (0 < length s) × (length got + length s ≤ size)

-- Bytes of the object, no more than it has.
abbrev IsWithin : ℕ → Bytes → Type 0
IsWithin size got = length got ≤ size

-- An object that holds the bytes that it declares, within the limit on its size.
pub record IsBounded (pf : ProcFile) : Type 0 where
  pub holds : length pf.f_data ≡ pf.f_size
  pub small : serialized_size pf ≤ max_proc_file_size

abbrev bytes_of : Result Bytes → Bytes
bytes_of (ok s) = s
bytes_of (err e) = []

length-read : (n : ℕ) (b b' : Block.Block) (s : Bytes) → Block.read n b ≡ (ok s, b') → length s ≤ n
unfolding Block.read
length-read n b b' s h = rw (ap (λ p. bytes_of p.0) h) at (bounded n b)
  where
    bounded : (n : ℕ) (b : Block.Block) → length (bytes_of (Block.read n b).0) ≤ n
    bounded n b = ground (arith, length-take (min n (Block.size b)) (drop b.cur b.bytes))

module _ {Decoder : Type 0} where
  -- A failure, or a value with a property.
  abbrev pub Answers : {A : Type 0} → (A → Type 0) → Result A × Reader Decoder → Type 0
  Answers {A} P p =
      (r' : Reader Decoder) × ((p ≡ (err Error.fault, r')) ⊎ ((a : A) × (p ≡ (ok a, r')) × P a))

  guard :
      {A : Type 0} (P : A → Type 0) (b : Bool) (r : Reader Decoder) (p : Result A × Reader Decoder)
      → (b ≡ false → Answers P p)
      → Answers P (if b then corrupt r else p)
  guard P true r p k = (r, inl refl)
  guard P false r p k = k refl

  then-Answers :
      {A B : Type 0} (P : A → Type 0) (Q : B → Type 0) (p : Result A × Reader Decoder)
      (f : A → Reader Decoder → Result B × Reader Decoder)
      → Answers P p
      → ((a : A) (r : Reader Decoder) → P a → Answers Q (f a r))
      → Answers Q (and_then p f)
  then-Answers P Q p f (r, inl q) k = (r, inl (ap (λ p. and_then p f) q))
  then-Answers P Q p f (r, inr (a, q, h)) k = subst (Answers Q) (sym (and_then-ok f q)) (k a r h)

  copied-Answers :
      (size : ℕ) (got : Bytes) (r : Reader Decoder) (p : Result Bytes × Block.Block)
      → ((s : Bytes) (b : Block.Block) → p ≡ (ok s, b) → length got + length s ≤ size)
      → Answers (IsTaken size got) (copied r p)
  copied-Answers size got r (ok [], b) h = (record r { block = b }, inr (none, refl, tt))
  copied-Answers size got r (ok (x ∷ s), b) h =
      (record r { block = b }, inr (some (x ∷ s), refl, (omega arith, h (x ∷ s) b refl)))
  copied-Answers size got r (err e, b) h = (record r { block = b }, inr (none, refl, tt))

  take_piece-Answers :
      (size : ℕ) (got : Bytes) (hdr : BlockHeader) (r : Reader Decoder)
      → length got ≤ size
      → Answers (IsTaken size got) (take_piece size got hdr r)
  unfolding take_piece
  take_piece-Answers size got hdr r h =
      guard (IsTaken size got) (not (hdr.block_type == BlockType.file)) r _ λ _.
        guard (IsTaken size got) (not (same (not (hdr.prev_cont == 0)) (not (length got == 0)))) r _
          λ _. guard (IsTaken size got) (ltb (size - length got) (Block.size r.block)) r _ λ enough.
            copied-Answers size got r (Block.read (Block.size r.block) r.block) λ s b q.
              fits (length got) size (Block.size r.block) h enough
                (length-read (Block.size r.block) r.block b s q)
    where
      fits : {m : ℕ} (i size n : ℕ) → i ≤ size → ltb (size - i) n ≡ false → m ≤ n → i + m ≤ size
      fits i size n h e k = ground arith

module _ {Encoder Decoder : Type 0} (z : Lz4 Encoder Decoder) where
  -- One round, with what the rounds after it answer.
  piece-Answers :
      (again : Bytes → Reader Decoder → Result Bytes × Reader Decoder) (size : ℕ) (got : Bytes)
      (p : Result BlockHeader × Reader Decoder)
      → length got ≤ size
      → ((s : Bytes) (r : Reader Decoder)
          → 0 < length s
          → length got + length s ≤ size
          → Answers (IsWithin size) (again (got ++ s) r))
      → Answers (IsWithin size) (piece again size got p)
  piece-Answers again size got (err e, r) h k = (r, inr (got, refl, h))
  piece-Answers again size got (ok hdr, r) h k =
      taken (take_piece size got hdr r) (take_piece-Answers size got hdr r h)
    where
      taken :
          (p : Result (Option Bytes) × Reader Decoder)
          → Answers (IsTaken size got) p
          → Answers (IsWithin size) (next_piece again got p)
      taken p (r', inl q) = (r', inl (ap (next_piece again got) q))
      taken p (r', inr (none, q, _)) = (r', inr (got, ap (next_piece again got) q, h))
      taken p (r', inr (some t, q, (filled, fits))) =
          subst (Answers (IsWithin size)) (sym (ap (next_piece again got) q)) (k t r' filled fits)

  -- With a round for each missing byte, the loop of `GetFile` ends by itself.
  read_pieces-Answers :
      (fuel size : ℕ) (got : Bytes) (r : Reader Decoder)
      → length got ≤ size
      → size ≤ length got + fuel
      → Answers (IsWithin size) (read_pieces z fuel size got r)
  unfolding read_pieces
  read_pieces-Answers zero size got r h enough =
      (r, inr (got, if_true _ _ (le→leb size (length got) (omega arith)), h))
  read_pieces-Answers (suc fuel) size got r h enough = elim (Bool-cases (leb size (length got))) [
    | inl full ↦ (r, inr (got, if_true _ _ full, h))
    | inr missing ↦ subst (Answers (IsWithin size)) (sym (if_false _ _ missing)) (
        piece-Answers (read_pieces z fuel size) size got (read_block z r) h λ s r' filled fits.
          read_pieces-Answers fuel size (got ++ s) r' (omega (arith, length-append got s))
            (omega (arith, length-append got s)))
  ]

  check_file-Answers :
      (size : ℕ) (got : Bytes) (r : Reader Decoder)
      → proc_header ≤ size
      → size ≤ max_proc_file_size
      → Answers IsBounded (check_file size got r)
  unfolding check_file of_memory
  check_file-Answers size got r header small =
      guard IsBounded (not (length got == size)) r _ λ whole.
        guard IsBounded (not (size == proc_header + (of_memory got).f_size)) r _ λ _. (
          r,
          inr (
            record (of_memory got) { f_size = size - proc_header },
            refl,
            record {
              holds = omega (arith, length-drop 9 got, same_size (length got) size whole);
              small = omega arith;
            },
          ),
        )
    where
      same_size : (m n : ℕ) → not (m == n) ≡ false → m ≡ n
      same_size m n h = ground arith

  get_sized-Answers : (size : ℕ) (r : Reader Decoder) → Answers IsBounded (get_sized z size r)
  unfolding get_sized
  get_sized-Answers size r = guard IsBounded (ltb max_proc_file_size size) r _ λ small.
      guard IsBounded (ltb size proc_header) r _ λ header.
        then-Answers (IsWithin size) IsBounded (read_pieces z size size [] r) (check_file size)
          (read_pieces-Answers size size [] r (omega arith) (omega arith))
          λ got r' _.
            check_file-Answers size got r' (least size proc_header header)
              (least max_proc_file_size size small)
    where
      least : (m n : ℕ) → ltb m n ≡ false → n ≤ m
      least m n h = ground arith

  -- On an open stream, whatever the file holds and whatever the codec makes of it, `GetFile` ends, and
  -- fails or returns an object that holds just the bytes that it declares, at most 64 MiB with its
  -- header.
  pub get_file-Answers : (r : Reader Decoder) → r.opened ≡ true → Answers IsBounded (get_file z r)
  unfolding get_file read_raw
  get_file-Answers r is_open =
      let got = bytes_read 4 r in
      subst (Answers IsBounded)
        (sym (unless_true _ _ is_open ∙ and_then-ok _ (unless_true _ _ is_open)))
        (if-Answers (length got == 4))
    where
      if-Answers :
          (b : Bool)
          → Answers IsBounded (
              if b
              then get_sized z (le_value (bytes_read 4 r)) (after_read 4 r)
              else corrupt (after_read 4 r))
      if-Answers true = get_sized-Answers (le_value (bytes_read 4 r)) (after_read 4 r)
      if-Answers false = (after_read 4 r, inl refl)
