-- ===== src/Stream/Reader/Damage.antt =====
-- `ReadBlock` on a block whose checksum does not match.
use arthur.Base.{ℕ, ◌+◌, ◌≤◌, ◌<◌, ◌≡◌, ◌≢◌, refl, sym, ap, ◌∙◌, arith, ◌==◌, ◌^◌}
use arthur.Base.{true, false, if_false, unless_true}
use arthur.Base.{some, [], ◌∷◌, ◌++◌, Bytes, length, All, All-append, length-append}
use arthur.Base.Words.{IsByte, le_bytes}
use arthur.Base.Files.{rest_of, rest_of-advance}
use arthur.Base.Results.{Result, Error, err}
use arthur.Stream.Header.{BlockHeader, make_header, header_bytes, header_length, block_size}
use arthur.Stream.Header.RoundTrip.{
  make_header-IsHeader, length-header_bytes, is_tail_mark-make_header,
}
use arthur.Stream.Block
use arthur.Stream.Crc.{block_checksum}
use arthur.Stream.Crc.Detection.{block_checksum-IsWord, block_checksum_burst}
use arthur.Stream.Codec.{Lz4, compress_bound, ring_offset}
use arthur.Stream.Reader.{
  Reader, next_block, decode, decoded, verify_checksum, read_checksum, read_block,
}
use arthur.Stream.Reader.Frames.{
  IsReading, read_sum, read_data_steps, data_step_ok, read_block_steps, header_step_ok,
}

module _ {Encoder Decoder : Type 0} (z : Lz4 Encoder Decoder) where
  -- A failure that every later call repeats, and that leaves the stream alone from then on.
  abbrev pub IsRefused : Result BlockHeader × Reader Decoder → Type 0
  IsRefused p =
      (r' : Reader Decoder) × (p ≡ (err Error.fault, r'))
      × (r'.eof_clean ≡ false)
      × (read_block z r' ≡ (err Error.eproto, r'))

  refused :
      (r : Reader Decoder)
      → r.opened ≡ true
      → r.eof_clean ≡ false
      → read_block z r ≡ (err Error.eproto, r)
  unfolding read_block
  refused r is_open dirty = ground arith

  decode_mismatch :
      (hdr : BlockHeader) (c t : Bytes) (stored : ℕ) (d : Decoder) (r : Reader Decoder)
      → r.opened ≡ true
      → r.checksums ≡ true
      → 0 < length t
      → z.decompress r.dec (ring_offset z r.decode_offset) c block_size ≡ (some t, d)
      → block_checksum hdr t ≢ stored
      → IsRefused (decode z hdr c stored r)
  unfolding decode decoded verify_checksum
  decode_mismatch hdr c [] stored d r is_open on nonempty e differ = absurd (omega arith)
  decode_mismatch hdr c (b ∷ t) stored d r is_open on nonempty e differ =
      let r' : Reader Decoder = record r {
        dec = d;
        decode_offset = ring_offset z r.decode_offset + length (b ∷ t);
        block = Block.empty;
        eof_clean = false;
      } in
      (
        r',
        ap
              (λ p.
                decoded hdr stored p.0
                  (record r { decode_offset = ring_offset z r.decode_offset; dec = p.1 }))
              e
            ∙ unless_true _ _ on
            ∙ if_false _ _ (different (block_checksum hdr (b ∷ t)) stored differ),
        refl,
        refused r' is_open refl,
      )
    where
      different : (m n : ℕ) → m ≢ n → (m == n) ≡ false
      different m n h = ground arith

  -- `ReadBlock` on a block with a checksum that the decompressed bytes `t` do not have: it fails, now
  -- and in every later call, and no later call moves the stream.
  pub read_block_mismatch :
      (cont type stored : ℕ) (c t more : Bytes) (d : Decoder) (r : Reader Decoder)
      → IsReading z r
      → r.checksums ≡ true
      → 0 < length t
      → length c ≤ compress_bound
      → z.decompress r.dec (ring_offset z r.decode_offset) c block_size ≡ (some t, d)
      → stored < 2 ^ 32
      → block_checksum (make_header cont type (length c)) t ≢ stored
      → rest_of r.file
        ≡ header_bytes (make_header cont type (length c)) ++ (c ++ (le_bytes 4 stored ++ more))
      → IsRefused (read_block z r)
  unfolding read_checksum
  read_block_mismatch cont type stored c t more d r v on nonempty fits e word differ at_header =
      let (r', p, dirty, again) =
        decode_mismatch hdr c t stored d r₃ v.is_open on nonempty e differ in
      (
        r',
        read_block_steps z r v.is_open v.clean v.before_tail
            ∙ header_step_ok z hdr _ r.file (next_block r)
                (make_header-IsHeader cont type (length c)) at_header
            ∙ read_data_steps z hdr (length c) r₁
                (is_tail_mark-make_header cont type (length c) fits) (omega arith) fits
            ∙ data_step_ok z hdr c _ r₁ at_data
            ∙ unless_true _ _ on
            ∙ read_sum z hdr c more stored r₂ word
                (rest_of-advance (length c) r₁.file c _ at_data refl)
            ∙ p,
        dirty,
        again,
      )
    where
      hdr : BlockHeader
      hdr = make_header cont type (length c)

      r₁ : Reader Decoder
      r₁ = record (next_block r) { file = record r.file { pos = r.file.pos + header_length } }

      at_data : rest_of r₁.file ≡ c ++ (le_bytes 4 stored ++ more)
      at_data =
          rest_of-advance header_length r.file (header_bytes hdr) _ at_header
            (sym (length-header_bytes hdr))

      r₂ : Reader Decoder
      r₂ = record r₁ { file = record r₁.file { pos = r₁.file.pos + length c } }

      r₃ : Reader Decoder
      r₃ = record r₂ { file = record r₂.file { pos = r₂.file.pos + 4 } }

  -- A block with a checksum, whose data decompresses to bytes that differ from those that `Compress`
  -- was given within at most four bytes in a row, is refused: `ReadBlock` fails, now and in every later
  -- call, and no later call moves the stream.
  pub read_block_burst :
      (cont type : ℕ) (c front xs ys back more : Bytes) (d : Decoder) (r : Reader Decoder)
      → IsReading z r
      → r.checksums ≡ true
      → length c ≤ compress_bound
      → All IsByte front × All IsByte xs × All IsByte ys × All IsByte back
      → length xs ≤ 4
      → length xs ≡ length ys
      → xs ≢ ys
      → z.decompress r.dec (ring_offset z r.decode_offset) c block_size
        ≡ (some (front ++ (ys ++ back)), d)
      → rest_of r.file
        ≡ header_bytes (make_header cont type (length c))
          ++ (c
              ++ (le_bytes 4
                    (block_checksum (make_header cont type (length c)) (front ++ (xs ++ back)))
                  ++ more))
      → IsRefused (read_block z r)
  read_block_burst cont type c front xs ys back more d r v on fits (hf, hx, hy, hb) short l differ e
        at_header =
      read_block_mismatch cont type _ c (front ++ (ys ++ back)) more d r v on
        (filled xs ys front back l differ) fits e
        (block_checksum-IsWord hdr (front ++ (xs ++ back))
          (All-append IsByte front _ hf (All-append IsByte xs back hx hb)))
        (λ same. block_checksum_burst hdr front xs ys back hf hx hy hb short l differ (sym same))
        at_header
    where
      hdr : BlockHeader
      hdr = make_header cont type (length c)

      filled :
          (xs ys front back : Bytes)
          → length xs ≡ length ys
          → xs ≢ ys
          → 0 < length (front ++ (ys ++ back))
      filled [] [] front back l h = absurd (h refl)
      filled [] (y ∷ ys) front back l h = absurd (omega arith)
      filled (x ∷ xs) [] front back l h = absurd (omega arith)
      filled (x ∷ xs) (y ∷ ys) front back l h =
          omega (arith, length-append front ((y ∷ ys) ++ back))
