-- ===== src/Stream/Room/Records.antt =====
-- `PutFile` while the file has room.
use arthur.Stream.Room.{frame_bound, flush_room, write_blocks_room, Done}
use arthur.Base.{ℕ, ◌+◌, ◌*◌, ◌-◌, ◌^◌, ◌≤◌, ◌<◌, ◌≡◌, ap, ◌∙◌, arith, ◌==◌, ltb}
use arthur.Base.{false, ◌||◌, if_true, if_false, unless_true, le→leb, le→ltb, lt→leb}
use arthur.Base.{◌++◌, Bytes, length, take_all}
use arthur.Base.Results.{ok, and_then-ok}
use arthur.Base.Words.{le_bytes, length-le_bytes, add_size}
use arthur.Stream.FileRecord.{length-memory_of}
use arthur.Base.Files.{fwrite_all}
use arthur.Stream.BlockType
use arthur.Stream.Header.{block_size}
use arthur.Stream.Block
use arthur.Stream.Codec.{Lz4, Lz4Laws}
use arthur.Stream.ProcFile.{
  ProcFile, IsProcFile, memory_of, serialized_size, proc_header, max_proc_file_size,
}
use arthur.Stream.Writer.{Writer, flush, write_block, put_raw, write_raw, put_file, expect, int_max}
use arthur.Stream.Writer.Calls.{IsWriting, flush_drains}
use arthur.Stream.Pieces.{pieces}

module _ {Encoder : Type 0} where
  -- The stream with the bytes `s` between its blocks.
  abbrev pub with_raw : Bytes → Writer Encoder → Writer Encoder
  with_raw s w = record w {
    file = record w.file { written = w.file.written ++ s; room = w.file.room - length s };
    size_file = add_size w.size_file (length s);
  }

module _ {Encoder Decoder : Type 0} {z : Lz4 Encoder Decoder} (laws : Lz4Laws z) where
  -- A field between blocks.
  pub write_raw_room :
      (s : Bytes) (w : Writer Encoder)
      → IsWriting w
      → w.block ≡ Block.empty
      → 0 < length s
      → length s ≤ int_max
      → length s ≤ w.file.room
      → write_raw z s w ≡ (ok (length s), with_raw s w)
  unfolding write_raw put_raw
  write_raw_room s w v e filled small room =
      unless_true _ _ v.is_open
      ∙ if_false _ _ (le→ltb int_max (length s) small)
      ∙ if_false _ _ (nonzero (length s) filled)
      ∙ if_false _ _ v.sound
      ∙ if_true _ _ (ap Block.is_empty e)
      ∙ ap (λ p. (ok p.0, record w { file = p.1; size_file = add_size w.size_file p.0 }))
          (fwrite_all s w.file (le→leb _ _ room))
    where
      nonzero : (n : ℕ) → 0 < n → (n == 0) ≡ false
      nonzero n h = ground arith

  -- `WriteBlock` where no block is pending.
  write_block_idle :
      (s : Bytes) (type : ℕ) (w : Writer Encoder)
      → IsWriting w
      → w.block ≡ Block.empty
      → type < BlockType.max
      → length s ≤ int_max
      → length (pieces (length s) s) * frame_bound ≤ w.file.room
      → Done laws (write_block z s type w) (length s) w (length (pieces (length s) s))
  unfolding write_block flush
  write_block_idle s type w v e known small room =
      let blocks = write_blocks_room laws (length s) s type 0 0 w (omega arith) room in
      record {
        after = blocks.after;
        result =
            if_false _ _ (lt→leb BlockType.max type known)
            ∙ unless_true _ _ v.is_open
            ∙ if_false _ _ (le→ltb int_max (length s) small)
            ∙ and_then-ok _ (
                unless_true _ _ v.is_open
                ∙ if_false _ _ v.sound
                ∙ if_true _ _ (ap Block.is_empty e))
            ∙ blocks.result
            ∙ ap (λ n. (ok n, blocks.after)) (omega arith);
        room_left = blocks.room_left;
      }

  -- On a well-formed stream, `PutFile` stores a well-formed object of at most 64 MiB while the file has
  -- room for a block of the largest size for the pending block and for each piece of the object, and for
  -- the four bytes of the size. The result is the size that was stored. The LZ4 library must succeed
  -- where its documentation says so.
  pub put_file_room :
      (pf : ProcFile) (w : Writer Encoder)
      → IsProcFile pf
      → serialized_size pf ≤ max_proc_file_size
      → IsWriting w
      → length w.block.bytes ≤ block_size
      → (1 + length (pieces (serialized_size pf) (memory_of pf))) * frame_bound + 4 ≤ w.file.room
      → (w' : Writer Encoder) × (put_file z pf w ≡ (ok (serialized_size pf), w'))
  unfolding put_file
  put_file_room pf w v small open_w fits room =
      let raw = le_bytes 4 (serialized_size pf) in
      let four = length-le_bytes 4 (serialized_size pf) in
      let whole = length-memory_of pf ∙ ap (λ n. proc_header + n) v.holds in
      let flushed = flush_room laws w open_w fits (omega arith) in
      let w₁ = flushed.after in
      let (open₁, idle) = flush_drains z w w₁ open_w flushed.result in
      let rounds = ap (λ n. length (pieces n (memory_of pf))) whole in
      let blocks =
        write_block_idle (memory_of pf) BlockType.file (with_raw raw w₁)
          (record {
            is_open = open₁.is_open;
            ring = open₁.ring;
            at_start = open₁.at_start;
            sound = open₁.sound;
          })
          idle (omega arith) (omega (arith, whole))
          (omega (arith, rounds, four, flushed.room_left)) in
      (
        blocks.after,
        unless_true _ _ open_w.is_open
            ∙ if_false _ _ (le→ltb (2 ^ 64 - 1 - 9) pf.f_size (omega (arith, v.size_fits)))
            ∙ if_false _ _ (in_range (serialized_size pf) small)
            ∙ if_false _ _ (le→ltb max_proc_file_size (serialized_size pf) small)
            ∙ and_then-ok _ flushed.result
            ∙ and_then-ok _ (
                ap (expect 4) (
                  write_raw_room raw w₁ open₁ idle (omega (arith, four)) (omega (arith, four))
                    (omega (arith, four, flushed.room_left)))
                ∙ if_true _ _ (ap (λ n. n == 4) four))
            ∙ ap (λ t. write_block z t BlockType.file (with_raw raw w₁))
                (take_all (serialized_size pf) (memory_of pf) (omega (arith, whole)))
            ∙ blocks.result
            ∙ ap (λ n. (ok n, blocks.after)) whole,
      )
    where
      in_range : (n : ℕ) → n ≤ max_proc_file_size → (ltb (2 ^ 32 - 1) n || ltb int_max n) ≡ false
      in_range n h = ground arith
