-- ===== src/Stream/Room.antt =====
-- The compressor succeeds while the file has room.
pub mod Records
use arthur.Base.{
  ℕ, zero, suc, ◌+◌, ◌*◌, ◌-◌, ◌^◌, ◌≤◌, ◌<◌, ◌≡◌, refl, sym, ap, ◌∙◌, arith, ◌==◌, leb, ltb,
}
use arthur.Base.{
  Bool, true, false, not, ◌||◌, Bool-cases, inl, inr, if_true, if_false, unless_true, unless_false,
  le→leb, le→ltb, lt→leb, if◌then◌else◌,
}
use arthur.Base.{
  List, [], ◌∷◌, ◌++◌, some, Bytes, length, take, drop, length-append, length-take, length-drop,
  take_all, ==_refl, min,
}
use arthur.Base.Results.{Result, Error, ok, err, and_then, and_then-ok}
use arthur.Base.Words.{le_bytes, length-le_bytes, add_size}
use arthur.Stream.FileRecord.{length-memory_of}
use arthur.Base.Files.{fwrite_all}
use arthur.Stream.BlockType
use arthur.Stream.Header.{block_size, make_header, header_bytes}
use arthur.Stream.Header.RoundTrip.{length-header_bytes}
use arthur.Stream.Block
use arthur.Stream.Crc.{block_checksum}
use arthur.Stream.Codec.{Lz4, Lz4Laws, compress_bound}
use arthur.Stream.ProcFile.{
  ProcFile, IsProcFile, memory_of, serialized_size, proc_header, max_proc_file_size,
}
use arthur.Stream.Writer.{
  Writer, put_checksum, store, seal, compress, flush, some_bytes, clear_block, fill, write_blocks,
  write_block, put_raw, write_raw, put_file, expect, int_max,
}
use arthur.Stream.Writer.Effects.{
  frame, checksum_field, appended, put_succeeds, appended-appended, sealed, put_checksum_on,
  put_checksum_off,
}
use arthur.Stream.Writer.Blocks.{fill-clear_block}
use arthur.Stream.Writer.Calls.{IsWriting, flush_drains}
use arthur.Stream.Pieces.{pieces, drop-length-take}

-- The most that a block takes in the file: its header, its data, and its checksum.
abbrev pub frame_bound : ℕ
frame_bound = compress_bound + 7

length-checksum_field :
    (checks : Bool) (cont type len : ℕ) (s : Bytes)
    → length (checksum_field checks cont type len s) ≤ 4
length-checksum_field true cont type len s =
    omega (arith, length-le_bytes 4 (block_checksum (make_header cont type len) s))
length-checksum_field false cont type len s = omega arith

length-frame :
    (checks : Bool) (cont type : ℕ) (c s : Bytes)
    → length (frame checks cont type c s) ≤ length c + 7
unfolding frame
length-frame checks cont type c s =
    let field = checksum_field checks cont type (length c) s in
    omega (
      arith,
      length-append (header_bytes (make_header cont type (length c))) (c ++ field),
      length-append c field,
      length-header_bytes (make_header cont type (length c)),
      length-checksum_field checks cont type (length c) s,
    )

module _ {Encoder : Type 0} where
  put_checksum_room :
      (cont type len : ℕ) (w : Writer Encoder)
      → 4 ≤ w.file.room
      → put_checksum cont type len w
        ≡ (ok tt, appended (checksum_field w.checksums cont type len w.block.bytes) w)
  put_checksum_room cont type len w room = elim (Bool-cases w.checksums) [
    | inl on ↦
        put_checksum_on cont type len w on
        ∙ put_succeeds _ w (
            le→leb _ _
              (omega (arith, length-checksum_field w.checksums cont type len w.block.bytes)))
    | inr off ↦ put_checksum_off cont type len w off
  ]

  store_room :
      (cont type : ℕ) (c : Bytes) (w : Writer Encoder)
      → length c ≤ compress_bound
      → frame_bound ≤ w.file.room
      → store cont type (some c) w
        ≡ seal (length c) (appended (frame w.checksums cont type c w.block.bytes) w)
  unfolding store frame
  store_room cont type c w fits room =
      let header = header_bytes (make_header cont type (length c)) in
      let three = length-header_bytes (make_header cont type (length c)) in
      and_then-ok _ (put_succeeds header w (le→leb _ _ (omega (arith, three))))
      ∙ and_then-ok _ (put_succeeds c (appended header w) (le→leb _ _ (omega (arith, three))))
      ∙ and_then-ok _ (
          put_checksum_room cont type (length c) (appended c (appended header w))
            (omega (arith, three)))
      ∙ ap (seal (length c))
          (appended-appended c _ (appended header w) ∙ appended-appended header _ w)

module _ {Encoder Decoder : Type 0} {z : Lz4 Encoder Decoder} (laws : Lz4Laws z) where
  -- A call that succeeds with `n`, at the cost of so many blocks in the file.
  pub record Done {A : Type 0} (p : Result A × Writer Encoder) (a : A) (w : Writer Encoder)
      (cost : ℕ) : Type 0 where
    pub after : Writer Encoder
    pub result : p ≡ (ok a, after)
    pub room_left : w.file.room ≤ after.file.room + cost * frame_bound

  -- `Compress` of a block succeeds.
  compress_room :
      (cont type : ℕ) (w : Writer Encoder)
      → 0 < length w.block.bytes
      → length w.block.bytes ≤ block_size
      → frame_bound ≤ w.file.room
      → (n : ℕ) × Done (compress z cont type w) (suc n) w 1
  unfolding compress seal
  compress_room cont type w filled fits room =
      let (c, e, q) = laws.compress_total w.enc w.block.bytes filled fits in
      let (some_code, code_fits) = laws.compress_fits w.enc w.block.bytes compress_bound q in
      (
        length c - 1,
        record {
          after = sealed (length c) (frame w.checksums cont type c w.block.bytes) e w;
          result =
              if_false _ _ (nonempty_test w.block.bytes filled)
              ∙ ap (λ p. store cont type p.0 (record w { enc = p.1 })) q
              ∙ store_room cont type c (record w { enc = e }) code_fits room
              ∙ ap
                  (λ n. (ok n, sealed (length c) (frame w.checksums cont type c w.block.bytes) e w))
                  (positive (length c) some_code);
          room_left = omega (arith, length-frame w.checksums cont type c w.block.bytes);
        },
      )
    where
      nonempty_test : (s : Bytes) → 0 < length s → (length s == 0) ≡ false
      nonempty_test s h = ground arith

      positive : (n : ℕ) → 0 < n → n ≡ suc (n - 1)
      positive n h = omega arith

  -- So does `Flush`.
  pub flush_room :
      (w : Writer Encoder)
      → IsWriting w
      → length w.block.bytes ≤ block_size
      → frame_bound ≤ w.file.room
      → Done (flush z w) tt w 1
  unfolding flush
  flush_room w v fits room = elim (Bool-cases (Block.is_empty w.block)) [
    | inl idle ↦ record {
      after = w;
      result = unless_true _ _ v.is_open ∙ if_false _ _ v.sound ∙ if_true _ _ idle;
      room_left = omega arith;
    }
    | inr filled ↦
        let (n, d) = compress_room 0 w.block_type w (nonempty_of w.block.bytes filled) fits room in
        record {
          after = d.after;
          result =
              unless_true _ _ v.is_open
              ∙ if_false _ _ v.sound
              ∙ if_false _ _ filled
              ∙ and_then-ok _ d.result;
          room_left = d.room_left;
        }
  ]
    where
      nonempty_of : (s : Bytes) → (length s == 0) ≡ false → 0 < length s
      nonempty_of s h = ground arith

  -- The loop of `WriteBlock` with room for each of its pieces.
  pub write_blocks_room :
      (fuel : ℕ) (s : Bytes) (type cont m : ℕ) (w : Writer Encoder)
      → length s ≤ fuel
      → length (pieces fuel s) * frame_bound ≤ w.file.room
      → Done (write_blocks z fuel s type cont m w) (m + length s) w (length (pieces fuel s))
  unfolding write_blocks pieces
  write_blocks_room fuel [] type cont m w enough room = record {
    after = w;
    result = ap (λ n. (ok n, w)) (omega arith);
    room_left = omega arith;
  }
  write_blocks_room zero (b ∷ s) type cont m w enough room = absurd (omega arith)
  write_blocks_room (suc fuel) (b ∷ s) type cont m w enough room =
      let piece = take block_size (b ∷ s) in
      let left = drop (length piece) (b ∷ s) in
      let size = length-take block_size (b ∷ s) in
      let rounds = ap (λ t. length (pieces fuel t)) (drop-length-take block_size (b ∷ s)) in
      let w₁ : Writer Encoder = record w { block = record { cur = 0; bytes = piece } } in
      let (k, d) =
        compress_room cont type w₁ (omega (arith, size)) (omega (arith, size)) (omega arith) in
      let rest =
        write_blocks_room fuel left type 1 (m + length piece) d.after
          (omega (arith, size, length-drop (length piece) (b ∷ s)))
          (omega (arith, rounds, d.room_left)) in
      record {
        after = rest.after;
        result =
            and_then-ok _ (fill-clear_block piece w (omega (arith, size)))
            ∙ and_then-ok _ (ap some_bytes d.result)
            ∙ rest.result
            ∙ ap (λ n. (ok n, rest.after))
                (omega (arith, size, length-drop (length piece) (b ∷ s)));
        room_left = omega (arith, rounds, d.room_left, rest.room_left);
      }

  -- On a well-formed stream, `WriteBlock` succeeds on all data that its guards admit, while the file
  -- has room for a pending block and for each of the data's pieces; it returns the length of the data
  -- and takes no more than that room.
  pub write_block_room :
      (s : Bytes) (type : ℕ) (w : Writer Encoder)
      → IsWriting w
      → length w.block.bytes ≤ block_size
      → type < BlockType.max
      → length s ≤ int_max
      → (1 + length (pieces (length s) s)) * frame_bound ≤ w.file.room
      → Done (write_block z s type w) (length s) w (1 + length (pieces (length s) s))
  unfolding write_block
  write_block_room s type w v fits known small room =
      let flushed = flush_room w v fits (omega arith) in
      let blocks =
        write_blocks_room (length s) s type 0 0 flushed.after (omega arith)
          (omega (arith, flushed.room_left)) in
      record {
        after = blocks.after;
        result =
            if_false _ _ (lt→leb BlockType.max type known)
            ∙ unless_true _ _ v.is_open
            ∙ if_false _ _ (le→ltb int_max (length s) small)
            ∙ and_then-ok _ flushed.result
            ∙ blocks.result
            ∙ ap (λ n. (ok n, blocks.after)) (omega arith);
        room_left = omega (arith, flushed.room_left, blocks.room_left);
      }
