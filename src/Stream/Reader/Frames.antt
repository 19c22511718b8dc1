-- ===== src/Stream/Reader/Frames.antt =====
-- `ReadBlock` on a block that the compressor wrote.
use arthur.Base.{ℕ, le→ltb, ◌==◌, ◌^◌, ◌+◌, ◌≤◌, ◌<◌, ◌≡◌, refl, Bool, true, false, arith}
use arthur.Base.{if◌then◌else◌, some, [], ◌∷◌, ◌++◌, Bytes, length, All}
use arthur.Base.{Bool-cases, inl, inr, append_assoc, length-append, sym, ap, ◌∙◌, ==_refl}
use arthur.Base.{if_true, if_false, unless_true, unless_false}
use arthur.Base.Words.{IsByte, le_bytes, le_value, le_value-le_bytes, length-le_bytes}
use arthur.Base.Files.{InFile, fread, rest_of, fread_front, rest_of-advance}
use arthur.Base.Results.{Result, ok}
use arthur.Stream.Header.{
  BlockHeader, make_header, header_bytes, header_length, read_header, block_size, is_tail_mark,
}
use arthur.Stream.Header.RoundTrip.{
  IsHeader, make_header-IsHeader, length-header_bytes, read_header-header_bytes,
  is_tail_mark-make_header,
}
use arthur.Stream.Crc.{block_checksum}
use arthur.Stream.Crc.Detection.{block_checksum-IsWord}
use arthur.Stream.Codec.{Lz4, compress_bound, ring_offset}
use arthur.Stream.Writer.Effects.{frame, checksum_field}
use arthur.Stream.Reader.{
  Reader, after_read, bytes_read, broken, next_block, verify_checksum, decoded, decode,
  read_checksum, read_data, read_block, no_header,
}

module _ {Encoder Decoder : Type 0} (z : Lz4 Encoder Decoder) where
  -- The stream after the block `s` was decoded from the bytes up to `pos`.
  abbrev pub holding : ℕ → Bytes → Decoder → Reader Decoder → Reader Decoder
  holding pos s d r = record r {
    file = record r.file { pos = pos };
    dec = d;
    decode_offset = ring_offset z r.decode_offset + length s;
    block = record { cur = r.block.cur; bytes = s };
  }

  decode_ok :
      (hdr : BlockHeader) (c s : Bytes) (stored : ℕ) (d : Decoder) (r : Reader Decoder)
      → 0 < length s
      → z.decompress r.dec (ring_offset z r.decode_offset) c block_size ≡ (some s, d)
      → (r.checksums ≡ true → block_checksum hdr s ≡ stored)
      → decode z hdr c stored r ≡ (ok hdr, holding r.file.pos s d r)
  unfolding decode decoded verify_checksum
  decode_ok hdr c [] stored d r nonempty e same_sum = absurd (omega arith)
  decode_ok hdr c (b ∷ s) stored d r nonempty e same_sum = rw e (ground arith)

  -- The four bytes that come next are the stored checksum.
  pub read_sum :
      (hdr : BlockHeader) (c more : Bytes) (sum : ℕ) (r : Reader Decoder)
      → sum < 2 ^ 32
      → rest_of r.file ≡ le_bytes 4 sum ++ more
      → (if length (bytes_read 4 r) == 4
          then decode z hdr c (le_value (bytes_read 4 r)) (after_read 4 r)
          else broken (after_read 4 r))
        ≡ decode z hdr c sum (record r { file = record r.file { pos = r.file.pos + 4 } })
  read_sum hdr c more sum r fits at_sum =
      ap after (fread_front 4 r.file (le_bytes 4 sum) more at_sum (sym (length-le_bytes 4 sum)))
      ∙ if_true _ _ (ap (λ n. n == 4) (length-le_bytes 4 sum))
      ∙ ap (λ n. decode z hdr c n (record r { file = record r.file { pos = r.file.pos + 4 } }))
          (le_value-le_bytes 4 sum fits)
    where
      after : Bytes × InFile → Result BlockHeader × Reader Decoder
      after (got, f) =
          if length got == 4
          then decode z hdr c (le_value got) (record r { file = f })
          else broken (record r { file = f })

  length-checksum_field :
      (checks : Bool) (cont type len : ℕ) (s : Bytes)
      → length (checksum_field checks cont type len s) ≡ (if checks then 4 else 0)
  length-checksum_field true cont type len s = length-le_bytes 4 _
  length-checksum_field false cont type len s = refl

  module _ (cont type : ℕ) (c s more : Bytes) (d : Decoder) (r : Reader Decoder)
      (nonempty : 0 < length s) (bytes : All IsByte s)
      (e : z.decompress r.dec (ring_offset z r.decode_offset) c block_size ≡ (some s, d)) where
    abbrev hdr : BlockHeader
    hdr = make_header cont type (length c)

    abbrev behind_sum : ℕ
    behind_sum = r.file.pos + length (checksum_field r.checksums cont type (length c) s)

    without_checksum :
        r.checksums ≡ false → read_checksum z hdr c r ≡ (ok hdr, holding behind_sum s d r)
    unfolding read_checksum
    without_checksum off =
        unless_false _ _ off
        ∙ decode_ok hdr c s 0 d r nonempty e (λ on. cc)
        ∙ ap (λ p. (ok hdr, holding p s d r))
            (omega (arith, ap length (if_false (le_bytes 4 (block_checksum hdr s)) [] off)))

    with_checksum :
        r.checksums ≡ true
        → rest_of r.file ≡ checksum_field r.checksums cont type (length c) s ++ more
        → read_checksum z hdr c r ≡ (ok hdr, holding behind_sum s d r)
    unfolding read_checksum
    with_checksum on at_sum =
        unless_true _ _ on
        ∙ read_sum hdr c more (block_checksum hdr s) r (block_checksum-IsWord hdr s bytes)
            (at_sum ∙ ap (λ t. t ++ more) field)
        ∙ decode_ok hdr c s (block_checksum hdr s) d _ nonempty e (λ _. refl)
        ∙ ap (λ p. (ok hdr, holding p s d r))
            (omega (arith, ap length field, length-le_bytes 4 (block_checksum hdr s)))
      where
        field :
            checksum_field r.checksums cont type (length c) s ≡ le_bytes 4 (block_checksum hdr s)
        field = if_true (le_bytes 4 (block_checksum hdr s)) [] on

    -- The bytes behind the compressed data are its checksum, if the stream has checksums.
    read_checksum_ok :
        rest_of r.file ≡ checksum_field r.checksums cont type (length c) s ++ more
        → read_checksum z hdr c r ≡ (ok hdr, holding behind_sum s d r)
    read_checksum_ok at_sum = elim (Bool-cases r.checksums) [
      | inl on ↦ with_checksum on at_sum
      | inr off ↦ without_checksum off
    ]

module _ {Encoder Decoder : Type 0} (z : Lz4 Encoder Decoder) where
  pub data_step :
      ℕ → Bytes × InFile → BlockHeader → Reader Decoder → Result BlockHeader × Reader Decoder
  data_step n (got, f) hdr r =
      if length got == n
      then read_checksum z hdr got (record r { file = f })
      else broken (record r { file = f })

  pub read_data_steps :
      (hdr : BlockHeader) (n : ℕ) (r : Reader Decoder)
      → is_tail_mark hdr ≡ false
      → hdr.size ≡ n
      → n ≤ compress_bound
      → read_data z hdr r ≡ data_step n (fread n r.file) hdr r
  unfolding read_data data_step
  read_data_steps hdr n r mark same_size fits =
      if_false _ _ mark
      ∙ if_false _ _ (le→ltb compress_bound hdr.size (omega arith))
      ∙ ap (λ k. data_step k (fread k r.file) hdr r) same_size

  pub data_step_ok :
      (hdr : BlockHeader) (c more : Bytes) (r : Reader Decoder)
      → rest_of r.file ≡ c ++ more
      → data_step (length c) (fread (length c) r.file) hdr r
        ≡ read_checksum z hdr c (record r { file = record r.file { pos = r.file.pos + length c } })
  unfolding data_step
  data_step_ok hdr c more r at_data =
      ap (λ p. data_step (length c) p hdr r) (fread_front (length c) r.file c more at_data refl)
      ∙ if_true _ _ (==_refl (length c))

  pub header_step : Bytes × InFile → Reader Decoder → Result BlockHeader × Reader Decoder
  header_step (got, f) r =
      if length got == header_length
      then read_data z (read_header got) (record r { file = f })
      else no_header (length got) (record r { file = f })

  pub read_block_steps :
      (r : Reader Decoder)
      → r.opened ≡ true
      → r.eof_clean ≡ true
      → r.tail_seen ≡ false
      → read_block z r ≡ header_step (fread header_length r.file) (next_block r)
  unfolding read_block header_step
  read_block_steps r o c t = unless_true _ _ o ∙ unless_true _ _ c ∙ if_false _ _ t

  pub header_step_ok :
      (hdr : BlockHeader) (more : Bytes) (f : InFile) (r : Reader Decoder)
      → IsHeader hdr
      → rest_of f ≡ header_bytes hdr ++ more
      → header_step (fread header_length f) r
        ≡ read_data z hdr (record r { file = record f { pos = f.pos + header_length } })
  unfolding header_step
  header_step_ok hdr more f r valid at_header =
      ap (λ p. header_step p r)
        (fread_front header_length f (header_bytes hdr) more at_header
          (sym (length-header_bytes hdr)))
      ∙ if_true _ _ (ap (λ n. n == header_length) (length-header_bytes hdr))
      ∙ ap (λ h. read_data z h (record r { file = record f { pos = f.pos + header_length } }))
          (read_header-header_bytes hdr valid)

  -- A stream in the middle of its blocks.
  pub record IsReading (r : Reader Decoder) : Type 0 where
    pub is_open : r.opened ≡ true
    pub clean : r.eof_clean ≡ true
    pub before_tail : r.tail_seen ≡ false

  -- `ReadBlock` on a block that `Compress` wrote: its header and its bytes, and what follows is next.
  pub read_block-frame :
      (cont type : ℕ) (c s more : Bytes) (d : Decoder) (r : Reader Decoder)
      → IsReading r
      → 0 < length s
      → All IsByte s
      → length c ≤ compress_bound
      → z.decompress r.dec (ring_offset z r.decode_offset) c block_size ≡ (some s, d)
      → rest_of r.file ≡ frame r.checksums cont type c s ++ more
      → read_block z r ≡ (
        ok (make_header cont type (length c)),
        holding z (r.file.pos + length (frame r.checksums cont type c s)) s d (next_block r),
      )
  unfolding frame
  read_block-frame cont type c s more d r v nonempty bytes fits e at_frame =
      read_block_steps r v.is_open v.clean v.before_tail
      ∙ header_step_ok hdr _ r.file (next_block r) (make_header-IsHeader _ _ _) at_header
      ∙ read_data_steps hdr (length c) r₁ (is_tail_mark-make_header cont type (length c) fits)
          (omega arith) fits
      ∙ data_step_ok hdr c _ r₁ at_data
      ∙ read_checksum_ok z cont type c s more d r₂ nonempty bytes e
          (rest_of-advance (length c) r₁.file c _ at_data refl)
      ∙ ap (λ p. (ok hdr, holding z p s d (next_block r))) total
    where
      hdr : BlockHeader
      hdr = make_header cont type (length c)

      field : Bytes
      field = checksum_field r.checksums cont type (length c) s

      at_header : rest_of r.file ≡ header_bytes hdr ++ (c ++ (field ++ more))
      at_header =
          at_frame
          ∙ append_assoc (header_bytes hdr) (c ++ field) more
          ∙ ap (λ t. header_bytes hdr ++ t) (append_assoc c field more)

      r₁ : Reader Decoder
      r₁ = record (next_block r) { file = record r.file { pos = r.file.pos + header_length } }

      at_data : rest_of r₁.file ≡ c ++ (field ++ more)
      at_data =
          rest_of-advance header_length r.file (header_bytes hdr) _ at_header
            (sym (length-header_bytes hdr))

      r₂ : Reader Decoder
      r₂ = record r₁ { file = record r₁.file { pos = r₁.file.pos + length c } }

      total :
          r.file.pos + header_length + length c + length field
          ≡ r.file.pos + length (header_bytes hdr ++ (c ++ field))
      total = omega (
        arith,
        length-append (header_bytes hdr) (c ++ field),
        length-append c field,
        length-header_bytes hdr,
      )
