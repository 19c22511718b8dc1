-- ===== src/Stream/Reader/Files.antt =====
-- `GetFile` on the blocks of a FILE record.
use arthur.Base.{ℕ, zero, suc, ◌+◌, ◌-◌, ◌≤◌, ◌<◌, ◌≡◌, refl, sym, ap, ◌∙◌, arith, ◌==◌, ltb}
use arthur.Base.{
  Bool, true, false, not, if_true, if_false, le→leb, lt→leb, le→ltb, unless_true, same, ◌%◌, min,
}
use arthur.Base.{List, [], ◌∷◌, ◌++◌, some, Bytes, length, take, All, append_assoc, append-nil}
use arthur.Base.{length-append, take_all}
use mathlib.Core.Path.{subst}
use arthur.Base.Results.{ok}
use arthur.Base.Files.{rest_of, rest_of-advance}
use arthur.Stream.BlockType
use arthur.Stream.Header.{make_header}
use arthur.Stream.Block
use arthur.Stream.Codec.{Lz4, Lz4Laws, compress_bound}
use arthur.Stream.Writer.Effects.{frame}
use arthur.Stream.Reader.{Reader, next_block}
use arthur.Stream.Reader.GetFile.{take_piece, copied, piece, next_piece, read_pieces}
use arthur.Stream.Reader.Frames.{holding, IsReading, read_block-frame}
use arthur.Stream.Pieces.{Encoded, IsPiece, joined}

-- The mark of the block that follows `got`.
abbrev pub cont_after : Bytes → ℕ
cont_after [] = 0
cont_after (b ∷ s) = 1

-- All of a block that was not read yet.
read_whole :
    (s : Bytes)
    → 0 < length s
    → Block.read (length s - 0) (record { cur = 0; bytes = s })
      ≡ (ok s, record { cur = length s; bytes = s })
unfolding Block.read
read_whole s h = if_false _ _ (nonzero (length s) h) ∙ if_false _ _ (enough (length s)) ∙ λ i. (
  ok ((ap (λ n. take n s) (count (length s)) ∙ take_all (length s) s (omega arith)) i),
  record { cur = cursor (length s) i; bytes = s },
)
  where
    nonzero : (n : ℕ) → 0 < n → (n - 0 == 0) ≡ false
    nonzero n h = ground arith

    enough : (n : ℕ) → ltb (n - 0) (n - 0) ≡ false
    enough n = ground arith

    count : (n : ℕ) → min (n - 0) (n - 0) ≡ n
    count n = omega arith

    cursor : (n : ℕ) → 0 + min (n - 0) (n - 0) ≡ n
    cursor n = omega arith

marked : (got : Bytes) → same (not (cont_after got % 2 == 0)) (not (length got == 0)) ≡ true
marked [] = refl
marked (b ∷ got) = ground arith

module _ {Decoder : Type 0} where
  -- The stream once the bytes of its block were taken.
  abbrev emptied : Bytes → Reader Decoder → Reader Decoder
  emptied s r = record r { block = record { cur = length s; bytes = s } }

  -- A block of the file, not longer than what is missing, is taken whole.
  take_piece_ok :
      (size len : ℕ) (got s : Bytes) (r : Reader Decoder)
      → 0 < length s
      → length got + length s ≤ size
      → take_piece size got
          (make_header (cont_after got) BlockType.file len)
          (record r { block = record { cur = 0; bytes = s } })
        ≡ (ok (some s), emptied s r)
  unfolding take_piece
  take_piece_ok size len got [] r nonempty fits = absurd (omega arith)
  take_piece_ok size len got (b ∷ s) r nonempty fits =
      unless_true _ _ (marked got)
      ∙ if_false _ _ (le→ltb (size - length got) (length (b ∷ s) - 0) (omega arith))
      ∙ ap (copied (record r { block = record { cur = 0; bytes = b ∷ s } }))
          (read_whole (b ∷ s) nonempty)

cont_after-append : (got s : Bytes) → 0 < length s → 1 ≡ cont_after (got ++ s)
cont_after-append [] [] h = absurd (omega arith)
cont_after-append [] (b ∷ s) h = refl
cont_after-append (g ∷ got) s h = refl

module _ {Encoder Decoder : Type 0} {z : Lz4 Encoder Decoder} (laws : Lz4Laws z) where
  open laws use {Synced, compress_fits, decompress-compress}

  -- The reader behind bytes that an encoder in state `e` ended, with `more` to come.
  pub record Caught (e : Encoder) (checks : Bool) (more : Bytes) (r : Reader Decoder) : Type 0 where
    pub reading : IsReading z r
    pub next : rest_of r.file ≡ more
    pub synced : Synced e r.dec r.decode_offset
    pub checksums : r.checksums ≡ checks

  -- One round of the loop of `GetFile`.
  one_piece :
      (fuel size : ℕ) (got s c rest more : Bytes) (e e₁ : Encoder) (checks : Bool)
      (r : Reader Decoder)
      → IsPiece s
      → length got + length s ≤ size
      → z.compress e s compress_bound ≡ (some c, e₁)
      → Caught e checks (frame checks (cont_after got) BlockType.file c s ++ (rest ++ more)) r
      → (r₂ : Reader Decoder) × (read_pieces z (suc fuel) size got r
          ≡ read_pieces z fuel size (got ++ s) r₂)
        × Caught e₁ checks (rest ++ more) r₂
  unfolding read_pieces
  one_piece fuel size got s c rest more e e₁ checks r v fits q caught =
      let (d, dq, sync) = decompress-compress e r.dec r.decode_offset s caught.synced v.fits q in
      let (_, code_fits) = compress_fits e s compress_bound q in
      let cont = cont_after got in
      let pos : ℕ = r.file.pos + length (frame r.checksums cont BlockType.file c s) in
      let r₁ : Reader Decoder = holding z pos s d (next_block r) in
      let at_frame : rest_of r.file ≡ frame r.checksums cont BlockType.file c s ++ (rest ++ more) =
        caught.next
        ∙ ap (λ b. frame b cont BlockType.file c s ++ (rest ++ more)) (sym caught.checksums) in
      let block =
        read_block-frame z cont BlockType.file c s (rest ++ more) d r caught.reading v.nonempty
          v.bytes code_fits dq at_frame in
      (
        emptied s r₁,
        if_false _ _ (lt→leb size (length got) (omega (arith, v.nonempty)))
            ∙ ap (piece (read_pieces z fuel size) size got) block
            ∙ ap (next_piece (read_pieces z fuel size) got)
                (take_piece_ok size (length c) got s r₁ v.nonempty fits),
        record {
          reading = record {
            is_open = caught.reading.is_open;
            clean = caught.reading.clean;
            before_tail = caught.reading.before_tail;
          };
          next = rest_of-advance _ r.file _ (rest ++ more) at_frame refl;
          synced = sync;
          checksums = caught.checksums;
        },
      )

  Caught-done :
      (e e' : Encoder) (out more : Bytes) (checks : Bool) (r : Reader Decoder)
      → (out ≡ []) × (e ≡ e')
      → Caught e checks (out ++ more) r
      → Caught e' checks more r
  Caught-done e e' out more checks r (none_left, same_state) caught =
      subst (λ t. Caught t checks more r) same_state
        (subst (λ t. Caught e checks (t ++ more) r) none_left caught)

  -- With a round for each piece, the loop of `GetFile` gathers all pieces.
  pub read_pieces_ok :
      (ps : List Bytes) (fuel size : ℕ) (got out more : Bytes) (cont : ℕ) (e e' : Encoder)
      (checks : Bool) (r : Reader Decoder)
      → All IsPiece ps
      → length ps ≤ fuel
      → size ≡ length got + length (joined ps)
      → cont ≡ cont_after got
      → Encoded z checks BlockType.file cont e ps out e'
      → Caught e checks (out ++ more) r
      → (r' : Reader Decoder) × (read_pieces z fuel size got r ≡ (ok (got ++ joined ps), r'))
        × Caught e' checks more r'
  unfolding read_pieces
  read_pieces_ok [] zero size got out more cont e e' checks r v enough total mark enc caught = (
    r,
    if_true _ _ (le→leb size (length got) (omega arith))
        ∙ ap (λ t. (ok t, r)) (sym (append-nil got)),
    Caught-done e e' out more checks r enc caught,
  )
  read_pieces_ok [] (suc fuel) size got out more cont e e' checks r v enough total mark enc caught =
      (
        r,
        if_true _ _ (le→leb size (length got) (omega arith))
            ∙ ap (λ t. (ok t, r)) (sym (append-nil got)),
        Caught-done e e' out more checks r enc caught,
      )
  read_pieces_ok (s ∷ ps) zero size got out more cont e e' checks r v enough total mark enc caught =
      absurd (omega arith)
  read_pieces_ok (s ∷ ps) (suc fuel) size got out more cont e e' checks r (vs, v) enough total mark
        (c, e₁, rest, q, split, enc) caught =
      let whole = length-append s (joined ps) in
      let (r₂, step, caught₂) =
        one_piece fuel size got s c rest more e e₁ checks r vs (omega (arith, whole)) q (
          subst (λ t. Caught e checks t r)
            (ap (λ t. t ++ more) (split ∙ ap (λ k. frame checks k BlockType.file c s ++ rest) mark)
              ∙ append_assoc (frame checks (cont_after got) BlockType.file c s) rest more)
            caught) in
      let (r', run, done) =
        read_pieces_ok ps fuel size (got ++ s) rest more 1 e₁ e' checks r₂ v (omega arith)
          (omega (arith, whole, length-append got s)) (cont_after-append got s vs.nonempty) enc
          caught₂ in
      (r', step ∙ run ∙ ap (λ t. (ok t, r')) (append_assoc got s (joined ps)), done)
