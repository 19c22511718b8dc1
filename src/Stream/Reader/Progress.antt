-- ===== src/Stream/Reader/Progress.antt =====
-- How far the calls of the decompressing stream read its file.
use arthur.Base.{
  ℕ, ◌+◌, ◌-◌, ◌≡◌, ◌≢◌, ◌≤◌, refl, sym, ap, ◌∙◌, arith, Bool, true, false, not, ◌==◌, ◌&&◌,
  if◌then◌else◌, leb, ltb, Bool-cases, ◌⊎◌, inl, inr, if_true, if_false,
}
use mathlib.Core.Path.{subst}
use arthur.Base.{Option, none, some, [], ◌∷◌, Bytes, length, take, length-take, length-drop}
use arthur.Base.Files.{fseek, InFile, rest_of, fread}
use arthur.Base.Results.{Result, Error, ok, err}
use arthur.Base.Words.{le_value}
use arthur.Stream.Header.{BlockHeader, header_length, read_header, is_tail_mark}
use arthur.Stream.Codec.{Lz4, compress_bound}
use arthur.Stream.Crc.{block_checksum}
use arthur.Stream.Writer.{int_max}
use arthur.Stream.Reader.{
  Reader, after_read, bytes_read, broken, next_block, verify_checksum, decoded, no_header, read_raw,
  peek, decode, read_checksum, read_data, read_block,
}

-- A file of this content, read to a position from `low` on.
pub record IsReadTo (content : Bytes) (low : ℕ) (f : InFile) : Type 0 where
  pub same_content : f.content ≡ content
  pub above : low ≤ f.pos
  pub below : f.pos ≤ length content

-- The outcome of `fread`, by whether it is short and whether the file is broken.
abbrev outcome : Bytes → InFile → Bool → Bool → Bytes × InFile
outcome got f whole is_broken =
    if whole
    then (got, f)
    else if is_broken
    then (got, record f { failed = true })
    else (got, record f { at_eof = true })

fread_moves :
    (n : ℕ) (f : InFile)
    → ((fread n f).1.content ≡ f.content)
      × ((fread n f).1.pos ≡ f.pos + length (fread n f).0)
      × (length (fread n f).0 ≤ length f.content - f.pos)
unfolding fread
fread_moves n f = go (leb n (length got)) f.broken
  where
    got : Bytes
    got = take n (rest_of f)

    moved : InFile
    moved = record f { pos = f.pos + length got }

    short : length got ≤ length f.content - f.pos
    short = omega (arith, length-take n (rest_of f), length-drop f.pos f.content)

    go :
        (whole is_broken : Bool)
        → ((outcome got moved whole is_broken).1.content ≡ f.content)
          × ((outcome got moved whole is_broken).1.pos
              ≡ f.pos + length (outcome got moved whole is_broken).0)
          × (length (outcome got moved whole is_broken).0 ≤ length f.content - f.pos)
    go true is_broken = (refl, refl, short)
    go false true = (refl, refl, short)
    go false false = (refl, refl, short)

-- A read moves on by the bytes that it returns.
fread-IsReadTo :
    (content : Bytes) (low n : ℕ) (f : InFile)
    → IsReadTo content low f
    → IsReadTo content (low + length (fread n f).0) (fread n f).1
fread-IsReadTo content low n f v =
    let (same, moved, short) = fread_moves n f in
    record {
      same_content = same ∙ v.same_content;
      above = omega (arith, moved, v.above);
      below = omega (arith, moved, v.below, short, ap length v.same_content);
    }

raise :
    (content : Bytes) (low low' : ℕ) (f : InFile)
    → low' ≤ low
    → IsReadTo content low f
    → IsReadTo content low' f
raise content low low' f h v = record {
  same_content = v.same_content;
  above = omega (arith, v.above, h);
  below = v.below;
}

module _ {Decoder : Type 0} (content : Bytes) (low : ℕ) where
  -- Where the call succeeded, the file is read beyond a position; a failure is the code's.
  abbrev pub Progress : {A : Type 0} → Result A × Reader Decoder → Type 0
  Progress (ok a, r) = IsReadTo content low r.file
  Progress (err e, r) = e ≢ Error.out_of_fuel

  if-Progress :
      {A : Type 0} (b : Bool) (p q : Result A × Reader Decoder)
      → Progress p
      → Progress q
      → Progress (if b then p else q)
  if-Progress true p q h k = h
  if-Progress false p q h k = k

  fault_here : (r : Reader Decoder) → Progress {A = BlockHeader} (err Error.fault, r)
  fault_here r = λ q. cc

  no_header-Progress : (n : ℕ) (r : Reader Decoder) → Progress (no_header n r)
  no_header-Progress n r =
      if-Progress (n == 0 && not r.file.failed) (err Error.fault, record r { eof_clean = true })
        (broken r) (fault_here (record r { eof_clean = true }))
        (fault_here (record r { eof_clean = false }))

  verify_checksum-Progress :
      (hdr : BlockHeader) (stored : ℕ) (r : Reader Decoder)
      → IsReadTo content low r.file
      → Progress (verify_checksum hdr stored r)
  unfolding verify_checksum
  verify_checksum-Progress hdr stored r v =
      if-Progress (not r.checksums) (ok hdr, r) _ v
        (if-Progress (block_checksum hdr r.block.bytes == stored) (ok hdr, r) _ v (fault_here r))

  decoded-Progress :
      (hdr : BlockHeader) (stored : ℕ) (o : Option Bytes) (r : Reader Decoder)
      → IsReadTo content low r.file
      → Progress (decoded hdr stored o r)
  unfolding decoded
  decoded-Progress hdr stored none r v = fault_here r
  decoded-Progress hdr stored (some []) r v = fault_here r
  decoded-Progress hdr stored (some (b ∷ s)) r v = verify_checksum-Progress hdr stored _ v

module _ {Encoder Decoder : Type 0} (z : Lz4 Encoder Decoder) (content : Bytes) (low : ℕ) where
  decode-Progress :
      (hdr : BlockHeader) (c : Bytes) (stored : ℕ) (r : Reader Decoder)
      → IsReadTo content low r.file
      → Progress content low (decode z hdr c stored r)
  unfolding decode
  decode-Progress hdr c stored r v = decoded-Progress content low hdr stored _ _ v

  after_read-IsReadTo :
      (n : ℕ) (r : Reader Decoder)
      → IsReadTo content low r.file
      → IsReadTo content low (after_read n r).file
  after_read-IsReadTo n r v =
      raise content (low + length (fread n r.file).0) low (fread n r.file).1 (omega arith)
        (fread-IsReadTo content low n r.file v)

  read_checksum-Progress :
      (hdr : BlockHeader) (c : Bytes) (r : Reader Decoder)
      → IsReadTo content low r.file
      → Progress content low (read_checksum z hdr c r)
  unfolding read_checksum
  read_checksum-Progress hdr c r v =
      if-Progress content low (not r.checksums) _ _ (decode-Progress hdr c 0 r v) (
        if-Progress content low (length (bytes_read 4 r) == 4) _ _
          (decode-Progress hdr c (le_value (bytes_read 4 r)) (after_read 4 r)
            (after_read-IsReadTo 4 r v))
          (fault_here content low (after_read 4 r)))

  read_data-Progress :
      (hdr : BlockHeader) (r : Reader Decoder)
      → IsReadTo content low r.file
      → Progress content low (read_data z hdr r)
  unfolding read_data
  read_data-Progress hdr r v =
      if-Progress content low (is_tail_mark hdr) _ _ (fault_here content low r) (
        if-Progress content low (ltb compress_bound hdr.size) _ _ (fault_here content low r) (
          if-Progress content low (length (bytes_read hdr.size r) == hdr.size) _ _
            (read_checksum-Progress hdr (bytes_read hdr.size r) (after_read hdr.size r)
              (after_read-IsReadTo hdr.size r v))
            (fault_here content low (after_read hdr.size r))))

module _ {Encoder Decoder : Type 0} (z : Lz4 Encoder Decoder) (content : Bytes) where
  -- A block that is read takes at least its header.
  pub read_block-Progress :
      (low : ℕ) (r : Reader Decoder)
      → IsReadTo content low r.file
      → Progress content (low + 3) (read_block z r)
  unfolding read_block
  read_block-Progress low r v =
      if-Progress content (low + 3) (not r.opened) _ _ (λ q. cc)
        (if-Progress content (low + 3) (not r.eof_clean) _ _ (λ q. cc)
          (if-Progress content (low + 3) r.tail_seen _ _ (λ q. cc)
            (header (Bool-cases (length got == header_length)))))
    where
      r₁ : Reader Decoder
      r₁ = next_block r

      got : Bytes
      got = bytes_read header_length r₁

      r₂ : Reader Decoder
      r₂ = after_read header_length r₁

      three : (n : ℕ) → (n == header_length) ≡ true → n ≡ 3
      three n h = ground arith

      header :
          ((length got == header_length) ≡ true) ⊎ ((length got == header_length) ≡ false)
          → Progress content (low + 3) (
              if length got == header_length
              then read_data z (read_header got) r₂
              else no_header (length got) r₂)
      header (inl e) = subst (Progress content (low + 3)) (sym (if_true _ _ e)) (
          read_data-Progress z content (low + 3) (read_header got) r₂ (
            raise content (low + length got) (low + 3) r₂.file (omega (arith, three (length got) e))
              (fread-IsReadTo content low header_length r₁.file v)))
      header (inr e) =
          subst (Progress content (low + 3)) (sym (if_false _ _ e))
            (no_header-Progress content (low + 3) (length got) r₂)

  read_raw-Progress :
      (low n : ℕ) (r : Reader Decoder)
      → IsReadTo content low r.file
      → Progress content low (read_raw n r)
  unfolding read_raw
  read_raw-Progress low n r v =
      if-Progress content low (not r.opened) (err Error.ebadf, r) _ (λ q. cc)
        (if-Progress content low (ltb int_max n) (err Error.einval, r) _ (λ q. cc)
          (if-Progress content low (n == 0) (ok [], r) (ok (bytes_read n r), after_read n r) v
            (after_read-IsReadTo z content low n r v)))

  -- A peek goes back.
  pub peek-Progress :
      (low n : ℕ) (r : Reader Decoder)
      → IsReadTo content low r.file
      → Progress content low (peek n r)
  unfolding peek
  peek-Progress low n r v =
      if-Progress content low (not r.opened) (err Error.ebadf, record r { eof_clean = false }) _
        (λ q. cc)
        (if-Progress content low (ltb int_max n) (err Error.einval, r) _ (λ q. cc)
          (if-Progress content low (n == 0) (ok [], r) _ v
            (back (read_raw n r) (read_raw-Progress low n r v))))
    where
      sought : Result Bytes × Reader Decoder → Result Bytes × Reader Decoder
      sought (res, r₁) = (res, record r₁ { file = fseek r.file.pos r₁.file })

      back :
          (p : Result Bytes × Reader Decoder)
          → Progress content low p
          → Progress content low (sought p)
      back (ok s, r₁) w = record { same_content = w.same_content; above = v.above; below = v.below }
      back (err e, r₁) w = w
