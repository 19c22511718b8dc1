-- ===== src/Stream/Writer/Effects.antt =====
-- What the successful operations of the compressor leave in the file and in the stream.
use arthur.Base.{ℕ, ◌-◌, ◌≡◌, refl, Bool, true, false, arith}
use arthur.Base.{if◌then◌else◌, leb, take, Option, none, some, [], ◌++◌, Bytes, length}
use arthur.Base.{Bool-cases, inl, inr, append_assoc, append-nil, length-append, sym, ap, ◌∙◌}
use arthur.Base.Words.{le_bytes}
use arthur.Base.Files.{fwrite}
use arthur.Base.Results.{Result, Error, ok, err, and_then}
use arthur.Stream.Header.{make_header, header_bytes}
use arthur.Stream.Block
use arthur.Stream.Crc.{block_checksum}
use arthur.Stream.Codec.{Lz4, compress_bound}
use arthur.Stream.Writer.{Writer, put, seal, put_checksum, store, compress}

-- The checksum field of a block.
abbrev pub checksum_field : Bool → ℕ → ℕ → ℕ → Bytes → Bytes
checksum_field checks cont type len s =
    if checks then le_bytes 4 (block_checksum (make_header cont type len) s) else []

-- A block on disk, `c` being the compressed form of `s`.
unfoldable pub frame : Bool → ℕ → ℕ → Bytes → Bytes → Bytes
frame checks cont type c s =
    header_bytes (make_header cont type (length c))
    ++ (c ++ checksum_field checks cont type (length c) s)

module _ {Encoder : Type 0} where
  -- The stream with `bs` behind its file.
  abbrev pub appended : Bytes → Writer Encoder → Writer Encoder
  appended bs w = record w {
    file = record w.file { written = w.file.written ++ bs; room = w.file.room - length bs };
  }

  put_fails :
      (bs : Bytes) (w : Writer Encoder)
      → leb (length bs) w.file.room ≡ false
      → (w' : Writer Encoder) × (put bs w ≡ (err Error.fault, w'))
  unfolding put fwrite
  put_fails bs w e = (
    record w {
      file = record { written = w.file.written ++ take w.file.room bs; room = 0; failed = true };
    },
    ground arith,
  )

  pub put_succeeds :
      (bs : Bytes) (w : Writer Encoder)
      → leb (length bs) w.file.room ≡ true
      → put bs w ≡ (ok tt, appended bs w)
  unfolding put fwrite
  put_succeeds bs w e = ground arith

  -- What follows a write that succeeded goes on from the longer file.
  pub and_then-put {κ} :
      {B : Type κ} (bs : Bytes) (w : Writer Encoder)
      (f : Unit {0} → Writer Encoder → Result B × Writer Encoder) {b : B} {t : Writer Encoder}
      → and_then (put bs w) f ≡ (ok b, t)
      → f tt (appended bs w) ≡ (ok b, t)
  and_then-put bs w f h = elim (Bool-cases (leb (length bs) w.file.room)) [
    | inl e ↦ rw (put_succeeds bs w e) at h
    | inr e ↦ let (w', q) = put_fails bs w e in cc (rw q at h)
  ]

  pub appended-appended :
      (xs ys : Bytes) (w : Writer Encoder) → appended ys (appended xs w) ≡ appended (xs ++ ys) w
  appended-appended xs ys w = ground (arith, append_assoc w.file.written xs ys, length-append xs ys)

  appended_three :
      (xs ys zs : Bytes) (w : Writer Encoder)
      → appended zs (appended ys (appended xs w)) ≡ appended (xs ++ (ys ++ zs)) w
  appended_three xs ys zs w =
      appended-appended ys zs (appended xs w) ∙ appended-appended xs (ys ++ zs) w

  -- The stream behind a block that went to the file as `bs`.
  abbrev pub sealed : ℕ → Bytes → Encoder → Writer Encoder → Writer Encoder
  sealed len bs e w = (seal len (appended bs (record w { enc = e }))).1

  pub put_checksum_on :
      (cont type len : ℕ) (w : Writer Encoder)
      → w.checksums ≡ true
      → put_checksum cont type len w
        ≡ put (checksum_field w.checksums cont type len w.block.bytes) w
  unfolding put_checksum
  put_checksum_on cont type len w e = ground arith

  pub put_checksum_off :
      (cont type len : ℕ) (w : Writer Encoder)
      → w.checksums ≡ false
      → put_checksum cont type len w
        ≡ (ok tt, appended (checksum_field w.checksums cont type len w.block.bytes) w)
  unfolding put_checksum
  put_checksum_off cont type len w e = ground (arith, append-nil w.file.written)

  and_then-put_checksum {κ} :
      {B : Type κ} (cont type len : ℕ) (w : Writer Encoder)
      (f : Unit {0} → Writer Encoder → Result B × Writer Encoder) {b : B} {t : Writer Encoder}
      → and_then (put_checksum cont type len w) f ≡ (ok b, t)
      → f tt (appended (checksum_field w.checksums cont type len w.block.bytes) w) ≡ (ok b, t)
  and_then-put_checksum cont type len w f h = elim (Bool-cases w.checksums) [
    | inl e ↦ and_then-put _ w f (rw (put_checksum_on cont type len w e) at h)
    | inr e ↦ rw (put_checksum_off cont type len w e) at h
  ]

  pub store_ok :
      (cont type : ℕ) (c : Bytes) (w : Writer Encoder) {n : ℕ} {w' : Writer Encoder}
      → store cont type (some c) w ≡ (ok n, w')
      → seal (length c) (appended (frame w.checksums cont type c w.block.bytes) w) ≡ (ok n, w')
  unfolding store frame
  store_ok cont type c w h =
      let h₁ = and_then-put (header_bytes (make_header cont type (length c))) w _ h in
      let h₂ = and_then-put c _ _ h₁ in
      let h₃ = and_then-put_checksum cont type (length c) _ _ h₂ in
      ap (λ v. seal (length c) v) (sym (appended_three _ c _ w)) ∙ h₃

module _ {Encoder Decoder : Type 0} (z : Lz4 Encoder Decoder) where
  -- A successful `Compress` sealed the block: the file has one more frame, and the block is empty.
  pub compress_ok :
      (cont type : ℕ) (w : Writer Encoder) {n : ℕ} {w' : Writer Encoder}
      → Block.is_empty w.block ≡ false
      → compress z cont type w ≡ (ok n, w')
      → (c : Bytes) × (e : Encoder) × (z.compress w.enc w.block.bytes compress_bound ≡ (some c, e))
        × (sealed (length c) (frame w.checksums cont type c w.block.bytes) e w ≡ w')
        × (n ≡ length c)
  unfolding compress store seal
  compress_ok cont type w {n} {w'} filled h =
      go (z.compress w.enc w.block.bytes compress_bound) refl (rw filled at h)
    where
      Stored : Type 0
      Stored =
          (c : Bytes) × (e : Encoder) × (z.compress w.enc w.block.bytes compress_bound
            ≡ (some c, e))
          × (sealed (length c) (frame w.checksums cont type c w.block.bytes) e w ≡ w')
          × (n ≡ length c)

      go :
          (p : Option Bytes × Encoder)
          → z.compress w.enc w.block.bytes compress_bound ≡ p
          → store cont type p.0 (record w { enc = p.1 }) ≡ (ok n, w')
          → Stored
      go (none, e) q k = cc
      go (some c, e) q k =
          let s = store_ok cont type c (record w { enc = e }) k in (c, e, q, ap (λ t. t.1) s, cc s)
