-- ===== src/Stream/TailMark.antt =====
-- The end of a stream: the tail mark, and the end of the file behind it.
use arthur.Base.{
  suc, drop-append, ℕ, ◌+◌, ◌≤◌, ◌≡◌, refl, sym, ap, ◌∙◌, arith, ◌==◌, Bool, true, false, not, ◌&&◌,
}
use arthur.Base.{
  if_true, if_false, Bool-cases, inl, inr, ◌||◌, if◌then◌else◌, [], ◌∷◌, ◌++◌, Bytes, length, drop,
}
use arthur.Base.Results.{Result, Error, ok, err}
use arthur.Base.Files.{InFile, fread_front, fread, rest_of, rest_of-advance}
use arthur.Stream.Block
use arthur.Stream.Header.{tail_mark, is_tail_mark, header_bytes, header_length}
use arthur.Stream.Header.RoundTrip.{IsHeader, length-header_bytes}
use arthur.Stream.Codec.{Lz4, Lz4Laws}
use arthur.Stream.Writer.{Writer, write_tail_mark, expect}
use arthur.Stream.Writer.Calls.{IsWriting}
use arthur.Stream.Room.Records.{with_raw, write_raw_room}
use arthur.Stream.Reader.{Reader, next_block, read_block, read_data, verify_physical_eof}
use arthur.Stream.Reader.Frames.{IsReading, read_block_steps, header_step_ok}

fread_end :
    (f : InFile)
    → rest_of f ≡ []
    → fread 1 f ≡ (
      [],
      if f.broken
          then record f { pos = f.pos + 0; failed = true }
          else record f { pos = f.pos + 0; at_eof = true },
    )
unfolding fread
fread_end f e = elim (Bool-cases f.broken) [ inl b ↦ rw (e, b) refl | inr b ↦ rw (e, b) refl ]

-- The test of `VerifyPhysicalEof` on what its read gave.
eof_test : Bytes × InFile → Result (Unit {0})
eof_test (got, f) =
    if not (length got == 0)
    then err Error.fault
    else if f.failed || not f.at_eof
    then err Error.fault
    else ok tt

end_answer :
    (f : InFile)
    → f.failed ≡ false
    → rest_of f ≡ []
    → eof_test (fread 1 f) ≡ (if not f.broken then ok tt else err Error.fault)
unfolding fread eof_test
end_answer f sound e = ap eof_test (fread_end f e) ∙ tested
  where
    tested :
        eof_test (
          [],
          if f.broken
              then record f { pos = f.pos + 0; failed = true }
              else record f { pos = f.pos + 0; at_eof = true },
        )
        ≡ (if not f.broken then ok tt else err Error.fault)
    tested = ground (arith, sound)

module _ {Decoder : Type 0} where
  eof_steps :
      (r : Reader Decoder)
      → r.opened ≡ true
      → r.tail_seen ≡ true
      → r.eof_clean ≡ true
      → (verify_physical_eof r).0 ≡ eof_test (fread 1 r.file)
  unfolding verify_physical_eof eof_test
  eof_steps r is_open seen clean = ground (arith)

  -- Behind the tail mark: nothing may follow, and the end must be the end of the file.
  verify_physical_eof_ok :
      (more : Bytes) (r : Reader Decoder)
      → r.opened ≡ true
      → r.tail_seen ≡ true
      → r.eof_clean ≡ true
      → r.file.failed ≡ false
      → rest_of r.file ≡ more
      → (verify_physical_eof r).0
        ≡ (if length more == 0 && not r.file.broken then ok tt else err Error.fault)
  unfolding verify_physical_eof eof_test
  verify_physical_eof_ok more r is_open seen clean sound next =
      eof_steps r is_open seen clean ∙ ended more r.file sound next
    where
      more_left : (n : ℕ) (b : Bool) → ((suc n == 0) && not b) ≡ false
      more_left n b = ground arith

      ended :
          (more : Bytes) (f : InFile)
          → f.failed ≡ false
          → rest_of f ≡ more
          → eof_test (fread 1 f)
            ≡ (if length more == 0 && not f.broken then ok tt else err Error.fault)
      ended [] f sound e = end_answer f sound e
      ended (b ∷ s) f sound e =
          ap eof_test (fread_front 1 f (b ∷ []) s e refl)
          ∙ sym (if_false _ _ (more_left (length s) f.broken))

module _ {Encoder Decoder : Type 0} {z : Lz4 Encoder Decoder} (laws : Lz4Laws z) where
  tail_mark-IsHeader : IsHeader tail_mark
  tail_mark-IsHeader = record {
    cont_fits = omega arith;
    type_fits = omega arith;
    size_fits = omega arith;
  }

  read_tail :
      (more : Bytes) (r : Reader Decoder)
      → IsReading z r
      → rest_of r.file ≡ header_bytes tail_mark ++ more
      → read_block z r ≡ (
        err Error.fault,
        record (next_block r) {
          file = record r.file { pos = r.file.pos + header_length };
          eof_clean = true;
          tail_seen = true;
        },
      )
  unfolding read_data is_tail_mark
  read_tail more r v at_mark =
      read_block_steps z r v.is_open v.clean v.before_tail
      ∙ header_step_ok z tail_mark more r.file (next_block r) tail_mark-IsHeader at_mark

  write_tail_mark_ok :
      (w : Writer Encoder)
      → IsWriting w
      → w.block ≡ Block.empty
      → 3 ≤ w.file.room
      → write_tail_mark z w ≡ (ok tt, with_raw (header_bytes tail_mark) w)
  unfolding write_tail_mark
  write_tail_mark_ok w v idle room =
      let three = length-header_bytes tail_mark in
      ap (expect 3) (
        write_raw_room laws (header_bytes tail_mark) w v idle (omega (arith, three))
          (omega (arith, three)) (omega (arith, three)))
      ∙ if_true _ _ (ap (λ n. n == 3) three)

  -- With nothing buffered and room for three bytes, `WriteTailMark` succeeds. A reader that is at the
  -- tail mark then gets no block from `ReadBlock` but sees the tail mark, and `VerifyPhysicalEof`
  -- succeeds behind it if and only if nothing follows and the file can be read to its end.
  pub verify_physical_eof-write_tail_mark :
      (w : Writer Encoder) (r : Reader Decoder) (more : Bytes)
      → IsWriting w
      → w.block ≡ Block.empty
      → 3 ≤ w.file.room
      → IsReading z r
      → r.file.failed ≡ false
      → rest_of r.file ≡ drop (length w.file.written) (write_tail_mark z w).1.file.written ++ more
      → ((write_tail_mark z w).0 ≡ ok tt)
        × (r' : Reader Decoder) × (read_block z r ≡ (err Error.fault, r'))
        × (r'.tail_seen ≡ true)
        × ((verify_physical_eof r').0
            ≡ (if length more == 0 && not r.file.broken then ok tt else err Error.fault))
  verify_physical_eof-write_tail_mark w r more v idle room reading sound next =
      let mark = header_bytes tail_mark in
      let written = write_tail_mark_ok w v idle room in
      let at_mark =
        next
        ∙ ap (λ p. drop (length w.file.written) p.1.file.written ++ more) written
        ∙ ap (λ t. t ++ more) (drop-append (length w.file.written) w.file.written mark refl) in
      (
        ap (λ p. p.0) written,
        _,
        read_tail more r reading at_mark,
        refl,
        verify_physical_eof_ok more _ reading.is_open refl refl sound (
            rest_of-advance header_length r.file mark more at_mark
              (sym (length-header_bytes tail_mark))),
      )
