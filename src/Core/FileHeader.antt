-- ===== src/Core/FileHeader.antt =====
-- `AcoreHeader` (src/core.h), `Coredump::WriteFileHeader` and `Coredump::VerifyFileHeader`
-- (src/core.cc).
pub mod RoundTrip
use arthur.Base.{
  ℕ, ◌+◌, ◌*◌, ◌/◌, ◌%◌, Bool, true, false, not, ◌&&◌, ◌||◌, if◌then◌else◌, ltb, leb, ◌==◌,
}
use arthur.Base.{[], ◌∷◌, ◌++◌, Bytes, length}
use arthur.Base.Words.{le_bytes, le_value}
use arthur.Base.Results.{Result, Error, ok, err, and_then}
use arthur.Stream.Writer
use arthur.Stream.Writer.{Writer}
use arthur.Stream.Reader
use arthur.Stream.Reader.{Reader, read_raw}
use arthur.Stream.Reader.GetFile.{corrupt}
use arthur.Stream.Codec.{Lz4}

-- `enum ARCHTYPE`
abbrev pub arch_x64 : ℕ
arch_x64 = 0

abbrev pub arch_aarch64 : ℕ
arch_aarch64 = 1

abbrev pub arch_max : ℕ
arch_max = 2

abbrev pub acore_min_version : ℕ
acore_min_version = 1

abbrev pub acore_version : ℕ
acore_version = 6

-- `ARTHUR`
abbrev pub magic : Bytes
magic = 65 ∷ 82 ∷ 84 ∷ 72 ∷ 85 ∷ 82 ∷ []

-- The two fields of `m`, twelve and four bits.
unfoldable pub meta_bytes : ℕ → ℕ → Bytes
meta_bytes version arch = le_bytes 2 (version + 4096 * arch)

-- `memcmp(a, b, n) == 0`
abbrev pub same_bytes : Bytes → Bytes → Bool
same_bytes [] [] = true
same_bytes [] (y ∷ ys) = false
same_bytes (x ∷ xs) [] = false
same_bytes (x ∷ xs) (y ∷ ys) = x == y && same_bytes xs ys

-- What `VerifyFileHeader` stores in the `Coredump`: `_arch` and `_acore_version`.
pub record Format : Type 0 where
  pub arch : ℕ
  pub version : ℕ

module _ {Encoder Decoder : Type 0} (z : Lz4 Encoder Decoder) where
  -- `arch` is the architecture that the program was built for.
  unfoldable pub write_file_header : ℕ → Writer Encoder → Result (Unit {0}) × Writer Encoder
  write_file_header arch w =
      and_then (Writer.expect 8 (Writer.write_raw z (magic ++ meta_bytes acore_version arch) w))
        λ _ w₁. Writer.enable_checksums true w₁

module _ {Decoder : Type 0} where
  -- Streams from version 4 on have block checksums.
  unfoldable pub set_format : Format → Reader Decoder → Result Format × Reader Decoder
  set_format fmt r =
      if leb 4 fmt.version
      then (and_then (Reader.enable_checksums true r) λ _ r₁. (ok fmt, r₁))
      else (ok fmt, r)

  -- The checks on `m`, whose two bytes are `got`.
  unfoldable pub verify_meta : Bytes → Reader Decoder → Result Format × Reader Decoder
  verify_meta got r =
      let version = le_value got % 4096 in
      let arch = le_value got / 4096 in
      if not (length got == 2) || (ltb version acore_min_version || ltb acore_version version)
      then corrupt r
      else if leb arch_max arch
      then corrupt r
      else set_format (record { arch = arch; version = version }) r

  -- A call of `ReadRaw` that fails returns no length, so it fails here too.
  unfoldable pub verify_file_header : Reader Decoder → Result Format × Reader Decoder
  verify_file_header r = and_then (read_raw 6 r) λ got r₁.
      if not (length got == 6) || not (same_bytes got magic)
      then corrupt r₁
      else and_then (read_raw 2 r₁) verify_meta
