-- ===== src/Core/FileHeader/RoundTrip.antt =====
-- The file header that the dump writes is accepted, and both streams go on with checksums.
use arthur.Base.{ℕ, ◌+◌, ◌*◌, ◌/◌, ◌%◌, ltb, lt→leb, ◌≤◌, ◌<◌, ◌≡◌, refl, sym, ap, ◌∙◌, arith, ◌==◌}
use arthur.Base.{Bool, true, false, not, ◌||◌, same, leb, if_true, if_false, unless_true}
use arthur.Base.{[], ◌++◌, Bytes, length, length-append, append_assoc, drop, drop-append}
use arthur.Base.Results.{ok, and_then-ok}
use arthur.Base.Words.{le_bytes, le_value, length-le_bytes, le_value-le_bytes}
use arthur.Base.Files.{InFile, OutFile, rest_of, rest_of-advance}
use arthur.Stream.Block
use arthur.Stream.Codec.{Lz4, Lz4Laws}
use arthur.Stream.Writer
use arthur.Stream.Writer.{Writer}
use arthur.Stream.Writer.Calls.{IsWriting}
use arthur.Stream.Room.Records.{with_raw, write_raw_room}
use arthur.Stream.Reader
use arthur.Stream.Reader.{Reader, read_raw}
use arthur.Stream.Reader.Files.{Caught}
use arthur.Stream.Transfer.{read_raw_ok}
use arthur.Core.FileHeader.{
  magic, meta_bytes, acore_version, acore_min_version, arch_max, Format, write_file_header,
  set_format, verify_meta, verify_file_header,
}

-- A file before its first read.
abbrev pub at_start : Bytes → Bool → InFile
at_start bs broken = record {
  content = bs;
  pos = 0;
  broken = broken;
  at_eof = false;
  failed = false;
}

-- The header's eight bytes.
abbrev pub header : ℕ → Bytes
header arch = magic ++ meta_bytes acore_version arch

length-meta_bytes : (version arch : ℕ) → length (meta_bytes version arch) ≡ 2
unfolding meta_bytes
length-meta_bytes version arch = length-le_bytes 2 _

length-header : (arch : ℕ) → length (header arch) ≡ 8
length-header arch = omega (
  arith,
  length-append magic (meta_bytes acore_version arch),
  length-meta_bytes acore_version arch,
)

module _ {Encoder Decoder : Type 0} {z : Lz4 Encoder Decoder} (laws : Lz4Laws z) where
  -- `WriteFileHeader` on a stream that wrote nothing yet.
  pub write_file_header_ok :
      (arch : ℕ) (w : Writer Encoder)
      → IsWriting w
      → w.block ≡ Block.empty
      → w.block_index ≡ 0
      → w.checksums ≡ false
      → 8 ≤ w.file.room
      → write_file_header z arch w ≡ (ok tt, record (with_raw (header arch) w) { checksums = true })
  unfolding write_file_header Writer.enable_checksums
  write_file_header_ok arch w v idle first off room =
      let eight = length-header arch in
      and_then-ok _ (
        ap (Writer.expect 8) (
          write_raw_room laws (header arch) w v idle (omega (arith, eight)) (omega (arith, eight))
            (omega (arith, eight)))
        ∙ if_true _ _ (ap (λ n. n == 8) eight))
      ∙ unless_true _ _ v.is_open
      ∙ if_false _ _ (ap (λ b. same b true) off)
      ∙ if_false _ _ (
          ap (λ n. not (n == 0) || not (Block.is_empty w.block)) first
          ∙ ap (λ b. not (Block.is_empty b)) idle)

module _ {Decoder : Type 0} where
  -- Behind a read of `n` bytes.
  abbrev behind : ℕ → Reader Decoder → Reader Decoder
  behind n r = record r { file = record r.file { pos = r.file.pos + n } }

  set_format_ok :
      (fmt : Format) (r : Reader Decoder)
      → leb 4 fmt.version ≡ true
      → r.opened ≡ true
      → r.checksums ≡ false
      → r.block_index ≡ 0
      → set_format fmt r ≡ (ok fmt, record r { checksums = true })
  unfolding set_format Reader.enable_checksums
  set_format_ok fmt r new is_open off first =
      if_true _ _ new
      ∙ and_then-ok _ (
          unless_true _ _ is_open
          ∙ if_false _ _ (ap (λ b. same b true) off)
          ∙ unless_true _ _ (ap (λ n. n == 0) first))

  verify_meta_ok :
      (arch : ℕ) (r : Reader Decoder)
      → arch < arch_max
      → r.opened ≡ true
      → r.checksums ≡ false
      → r.block_index ≡ 0
      → verify_meta (meta_bytes acore_version arch) r
        ≡ (ok (record { arch = arch; version = acore_version }), record r { checksums = true })
  unfolding verify_meta meta_bytes
  verify_meta_ok arch r known is_open off first =
      let n = acore_version + 4096 * arch in
      let value = le_value-le_bytes 2 n (omega arith) in
      let version : le_value (le_bytes 2 n) % 4096 ≡ acore_version = omega (arith, value) in
      let built_for : le_value (le_bytes 2 n) / 4096 ≡ arch = omega (arith, value) in
      if_false _ _ (accepted _ _ (length-le_bytes 2 n) version)
      ∙ if_false _ _ (lt→leb arch_max (le_value (le_bytes 2 n) / 4096) (omega (arith, built_for)))
      ∙ ap (λ f. set_format f r) (λ i. record { arch = built_for i; version = version i })
      ∙ set_format_ok (record { arch = arch; version = acore_version }) r refl is_open off first
    where
      accepted :
          (len version : ℕ)
          → len ≡ 2
          → version ≡ acore_version
          → (not (len == 2) || (ltb version acore_min_version || ltb acore_version version)) ≡ false
      accepted len version e h = ground arith

  -- `VerifyFileHeader` at the header that `WriteFileHeader` writes.
  pub verify_file_header_ok :
      (arch : ℕ) (r : Reader Decoder) (more : Bytes)
      → arch < arch_max
      → r.opened ≡ true
      → r.checksums ≡ false
      → r.block_index ≡ 0
      → rest_of r.file ≡ header arch ++ more
      → verify_file_header r ≡ (
        ok (record { arch = arch; version = acore_version }),
        record (behind 2 (behind 6 r)) { checksums = true },
      )
  unfolding verify_file_header
  verify_file_header_ok arch r more known is_open off first at_header =
      let meta = meta_bytes acore_version arch in
      let two = length-meta_bytes acore_version arch in
      let at_magic = at_header ∙ append_assoc magic meta more in
      and_then-ok _
        (read_raw_ok magic (meta ++ more) 6 r is_open refl (omega arith) (omega arith) at_magic)
      ∙ and_then-ok _ (
          read_raw_ok meta more 2 (behind 6 r) is_open (sym two) (omega arith) (omega arith)
            (rest_of-advance 6 r.file magic _ at_magic refl))
      ∙ verify_meta_ok arch (behind 2 (behind 6 r)) known is_open off first

module _ {Encoder Decoder : Type 0} {z : Lz4 Encoder Decoder} (laws : Lz4Laws z) where
  -- On a new file with room for eight bytes, and for a known architecture, `WriteFileHeader`
  -- succeeds; and `VerifyFileHeader`, on a stream opened on that file with whatever follows, returns the architecture that was written and
  -- the version. Both streams then have checksums, and the reader has caught up with the compressor.
  pub verify_file_header-write_file_header :
      (arch : ℕ) (f : OutFile) (more : Bytes) (broken : Bool)
      → arch < arch_max
      → f.written ≡ []
      → f.failed ≡ false
      → 8 ≤ f.room
      → (w : Writer Encoder) × (r : Reader Decoder) × (write_file_header z arch
            (Writer.open_writer z.enc_init f)
          ≡ (ok tt, w))
        × (verify_file_header
              (Reader.open_reader z.dec_init (at_start (w.file.written ++ more) broken))
            ≡ (ok (record { arch = arch; version = acore_version }), r))
        × Caught laws w.enc true more r
        × (w.checksums ≡ true)
  verify_file_header-write_file_header arch f more broken known new sound room =
      let w₀ = Writer.open_writer z.enc_init f in
      let w₁ : Writer Encoder = record (with_raw (header arch) w₀) { checksums = true } in
      let eight = length-header arch in
      let content = ap (λ t. t ++ header arch) new in
      let r₀ = Reader.open_reader z.dec_init (at_start (w₁.file.written ++ more) broken) in
      let at_header = ap (λ t. t ++ more) content in
      (
        w₁,
        record (behind 2 (behind 6 r₀)) { checksums = true },
        write_file_header_ok laws arch w₀
            (record { is_open = refl; ring = refl; at_start = refl; sound = sound }) refl refl refl
            room,
        verify_file_header_ok arch r₀ more known refl refl refl at_header,
        record {
          reading = record { is_open = refl; clean = refl; before_tail = refl };
          next = ap (drop 8) at_header ∙ drop-append 8 (header arch) more (sym eight);
          synced = laws.synced_init;
          checksums = refl;
        },
        refl,
      )
