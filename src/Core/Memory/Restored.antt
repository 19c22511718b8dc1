-- ===== src/Core/Memory/Restored.antt =====
-- What `ReadLoads` makes of the blocks that `WriteLoads` wrote.
use arthur.Base.{
  ℕ, zero, suc, ◌+◌, ◌≡◌, ◌≤◌, ◌<◌, refl, sym, ap, ◌∙◌, arith, Bool, true, false, not, ◌&&◌,
  if◌then◌else◌, ◌==◌, unless_true, unless_false,
}
use arthur.Base.{
  List, [], ◌∷◌, ◌++◌, some, Bytes, length, take, drop, All, append-nil, append_assoc,
  length-append, take-append,
}
use mathlib.Core.Path.{subst}
use arthur.Base.Files.{rest_of, rest_of-advance}
use arthur.Base.Results.{Result, ok, and_then}
use arthur.Stream.BlockType
use arthur.Stream.Header.{BlockHeader, header_length, make_header, header_bytes, read_header}
use arthur.Stream.Header.RoundTrip.{
  read_header-header_bytes, make_header-IsHeader, length-header_bytes,
}
use arthur.Stream.Codec.{Lz4, Lz4Laws, compress_bound}
use arthur.Stream.Writer.Effects.{frame, checksum_field}
use arthur.Stream.Reader.{Reader, read_block, next_block}
use arthur.Stream.Reader.Frames.{holding, read_block-frame}
use arthur.Stream.Reader.Files.{Caught}
use arthur.Stream.Pieces.{IsPiece, joined}
use arthur.Core.Loads.{ssize_max}
use arthur.Core.Memory.{Restore, on_reader, is_loads, put_loads, read_loads_blocks}
use arthur.Core.Memory.Blocks.{LoadsBlocks}
use arthur.Core.Memory.Peeked.{lengthened, fread-IsPeek, peeked, peek_ok, with_block, put_loads_ok}

module _ {Encoder Decoder : Type 0} {z : Lz4 Encoder Decoder} (laws : Lz4Laws z) where
  open laws use {Synced, compress_fits, decompress-compress}

  peeked-Caught :
      (e : Encoder) (checks : Bool) (more : Bytes) (r : Reader Decoder)
      → Caught laws e checks more r
      → Caught laws e checks more (peeked r)
  peeked-Caught e checks more r v = record {
    reading = record {
      is_open = v.reading.is_open;
      clean = v.reading.clean;
      before_tail = v.reading.before_tail;
    };
    next = ap (λ c. drop r.file.pos c) (fread-IsPeek header_length r.file).content ∙ v.next;
    synced = v.synced;
    checksums = v.checksums;
  }

  -- The front of a block.
  frame-is_loads :
      (checks : Bool) (c s more : Bytes)
      → is_loads (take header_length (frame checks 0 BlockType.loads c s ++ more)) ≡ true
  unfolding frame
  frame-is_loads checks c s more =
      ap is_loads (
        ap (take 3) (
          append_assoc (header_bytes hdr)
            (c ++ checksum_field checks 0 BlockType.loads (length c) s) more)
        ∙ take-append 3 (header_bytes hdr) _ (sym (length-header_bytes hdr)))
      ∙ ap
          (λ n.
            n == header_length && (read_header (header_bytes hdr)).block_type == BlockType.loads)
          (length-header_bytes hdr)
      ∙ ap (λ (h : BlockHeader). h.block_type == BlockType.loads)
          (read_header-header_bytes hdr (make_header-IsHeader 0 BlockType.loads (length c)))
    where
      hdr : BlockHeader
      hdr = make_header 0 BlockType.loads (length c)

  -- The stream behind a block, all of it still to be read.
  one_block :
      (s c rest more : Bytes) (e e₁ : Encoder) (checks : Bool) (r : Reader Decoder)
      → IsPiece s
      → z.compress e s compress_bound ≡ (some c, e₁)
      → Caught laws e checks (frame checks 0 BlockType.loads c s ++ (rest ++ more)) r
      → (r₂ : Reader Decoder) × (hdr : BlockHeader) × (read_block z r ≡ (ok hdr, with_block s r₂))
        × Caught laws e₁ checks (rest ++ more) (with_block s r₂)
  one_block s c rest more e e₁ checks r v q caught =
      let (d, dq, sync) = decompress-compress e r.dec r.decode_offset s caught.synced v.fits q in
      let (_, code_fits) = compress_fits e s compress_bound q in
      let pos : ℕ = r.file.pos + length (frame r.checksums 0 BlockType.loads c s) in
      let at_frame : rest_of r.file ≡ frame r.checksums 0 BlockType.loads c s ++ (rest ++ more) =
        caught.next
        ∙ ap (λ b. frame b 0 BlockType.loads c s ++ (rest ++ more)) (sym caught.checksums) in
      (
        holding z pos s d (next_block r),
        make_header 0 BlockType.loads (length c),
        read_block-frame z 0 BlockType.loads c s (rest ++ more) d r caught.reading v.nonempty
            v.bytes code_fits dq at_frame,
        record {
          reading = record {
            is_open = caught.reading.is_open;
            clean = caught.reading.clean;
            before_tail = caught.reading.before_tail;
          };
          next = rest_of-advance _ r.file _ (rest ++ more) at_frame refl;
          synced = sync;
          checksums = caught.checksums;
        },
      )

  -- One round of the loop.
  one_round :
      (fuel expected n : ℕ) (s c rest more : Bytes) (e e₁ : Encoder) (checks : Bool)
      (st : Restore Decoder)
      → IsPiece s
      → n + length s ≤ expected
      → expected ≤ ssize_max
      → length s ≤ st.fout.room
      → z.compress e s compress_bound ≡ (some c, e₁)
      → Caught laws e checks (frame checks 0 BlockType.loads c s ++ (rest ++ more)) st.reader
      → (r₂ : Reader Decoder) × (read_loads_blocks z (suc fuel) expected n st
          ≡ read_loads_blocks z fuel expected
              (n + length s)
              (record { reader = r₂; fout = lengthened s st.fout }))
        × Caught laws e₁ checks (rest ++ more) r₂
  unfolding read_loads_blocks
  one_round fuel expected n s c rest more e e₁ checks st v within small room q caught =
      let (r₂, hdr, block, caught₂) =
        one_block s c rest more e e₁ checks (peeked st.reader) v q
          (peeked-Caught e checks _ st.reader caught) in
      (
        with_block s r₂,
        ap (λ p. and_then (on_reader p st) after) (peek_ok st.reader caught.reading.is_open)
            ∙ unless_true _ _ (
                ap (λ t. is_loads (take header_length t)) caught.next
                ∙ frame-is_loads checks c s (rest ++ more))
            ∙ ap (λ p. and_then (on_reader p (record st { reader = peeked st.reader })) store) block
            ∙ ap (λ p. and_then p next) (put_loads_ok expected n s r₂ st.fout within small room),
        caught₂,
      )
    where
      next : ℕ → Restore Decoder → Result ℕ × Restore Decoder
      next m st₃ = read_loads_blocks z fuel expected m st₃

      store : BlockHeader → Restore Decoder → Result ℕ × Restore Decoder
      store _ st₂ = and_then (put_loads expected n st₂) next

      after : Bytes → Restore Decoder → Result ℕ × Restore Decoder
      after got st₁ =
          if not (is_loads got)
          then (ok n, st₁)
          else and_then (on_reader (read_block z st₁.reader) st₁) store

-- What follows the blocks is no header of a LOADS block.
abbrev pub EndsLoads : Bytes → Type 0
EndsLoads more = is_loads (take header_length more) ≡ false

module _ {Encoder Decoder : Type 0} {z : Lz4 Encoder Decoder} (laws : Lz4Laws z) where
  -- With a round for each piece, and one more, the loop adds all pieces to the core file.
  pub read_loads_blocks_ok :
      (ps : List Bytes) (fuel expected n : ℕ) (out more : Bytes) (e e' : Encoder) (checks : Bool)
      (st : Restore Decoder)
      → All IsPiece ps
      → length ps < fuel
      → n + length (joined ps) ≤ expected
      → expected ≤ ssize_max
      → length (joined ps) ≤ st.fout.room
      → LoadsBlocks z checks e ps out e'
      → EndsLoads more
      → Caught laws e checks (out ++ more) st.reader
      → (st' : Restore Decoder) × (read_loads_blocks z fuel expected n st
          ≡ (ok (n + length (joined ps)), st'))
        × (st'.fout.written ≡ st.fout.written ++ joined ps)
        × Caught laws e' checks more st'.reader
  unfolding read_loads_blocks
  read_loads_blocks_ok ps zero expected n out more e e' checks st v enough within small room enc
        last caught =
      absurd (omega (arith, enough))
  read_loads_blocks_ok [] (suc fuel) expected n out more e e' checks st v enough within small room
        enc last caught =
      let caught' : Caught laws e' checks more st.reader =
        subst (λ t. Caught laws t checks more st.reader) enc.1
          (subst (λ t. Caught laws e checks (t ++ more) st.reader) enc.0 caught) in
      (
        record { reader = peeked st.reader; fout = st.fout },
        ap (λ p. and_then (on_reader p st) after) (peek_ok st.reader caught.reading.is_open)
            ∙ unless_false _ _ (ap (λ t. is_loads (take header_length t)) caught'.next ∙ last)
            ∙ ap (λ m. (ok m, record { reader = peeked st.reader; fout = st.fout })) (omega arith),
        sym (append-nil st.fout.written),
        peeked-Caught laws e' checks more st.reader caught',
      )
    where
      after : Bytes → Restore Decoder → Result ℕ × Restore Decoder
      after got st₁ =
          if not (is_loads got)
          then (ok n, st₁)
          else and_then (on_reader (read_block z st₁.reader) st₁) λ _ st₂.
            and_then (put_loads expected n st₂) λ m st₃. read_loads_blocks z fuel expected m st₃
  read_loads_blocks_ok (s ∷ ps) (suc fuel) expected n out more e e' checks st (v, vs) enough within
        small room (c, e₁, rest, q, split, enc) last caught =
      let whole = length-append s (joined ps) in
      let (r₂, step, caught₂) =
        one_round laws fuel expected n s c rest more e e₁ checks st v (omega (arith, whole, within))
          small (omega (arith, whole, room)) q
          (subst (λ t. Caught laws e checks t st.reader)
            (ap (λ t. t ++ more) split
              ∙ append_assoc (frame checks 0 BlockType.loads c s) rest more)
            caught) in
      let (st', run, written, done) =
        read_loads_blocks_ok ps fuel expected (n + length s) rest more e₁ e' checks
          (record { reader = r₂; fout = lengthened s st.fout }) vs (omega (arith, enough))
          (omega (arith, whole, within)) small (omega (arith, whole, room)) enc last caught₂ in
      (
        st',
        step ∙ run ∙ ap (λ m. (ok m, st')) (omega (arith, whole)),
        written ∙ append_assoc st.fout.written s (joined ps),
        done,
      )
