-- ===== src/Stream/Codec.antt =====
-- The LZ4 library as the stream uses it, a parameter of the model, and what its documentation
-- promises (include/lz4/lz4.h).
use arthur.Base.{ℕ, ◌+◌, ◌-◌, ◌≤◌, ◌<◌, ◌≡◌, Option, some, ltb, if◌then◌else◌, Bytes, length}
use arthur.Stream.Header.{block_size}

-- `LZ4_COMPRESSBOUND(BLOCK_SIZE)`
abbrev pub compress_bound : ℕ
compress_bound = 65809

-- The states are those of `LZ4_stream_t` and `LZ4_streamDecode_t`, dictionaries included. A call
-- answers `none` where the library returns a number that is not positive.
pub record Lz4 (Encoder Decoder : Type 0) : Type 0 where
  pub enc_init : Encoder
  pub dec_init : Decoder
  -- `LZ4_decoderRingBufferSize(BLOCK_SIZE)`
  pub ring_size : ℕ
  -- `LZ4_compress_fast_continue(enc, src, dst, length, capacity, 1)`
  pub compress : Encoder → Bytes → ℕ → Option Bytes × Encoder
  -- `LZ4_decompress_safe_continue(dec, src, ring + offset, length, capacity)`
  pub decompress : Decoder → ℕ → Bytes → ℕ → Option Bytes × Decoder

-- Where the decoder puts the next block in its ring. An offset never exceeds the ring's size.
abbrev pub ring_offset : {Encoder Decoder : Type 0} → Lz4 Encoder Decoder → ℕ → ℕ
ring_offset z offset = if ltb (z.ring_size - offset) block_size then 0 else offset

-- `Synced e d offset`: the decoder has decoded what the encoder has encoded, in a ring whose next
-- free byte is at `offset`.
pub record Lz4Laws {Encoder Decoder : Type 0} (z : Lz4 Encoder Decoder) : Type 1 where
  pub Synced : Encoder → Decoder → ℕ → Type 0
  pub synced_init : Synced z.enc_init z.dec_init 0
  -- A successful call fits the capacity, and a capacity of `compress_bound` is always enough.
  pub compress_fits :
      (e : Encoder) (s : Bytes) (cap : ℕ) {c : Bytes} {e' : Encoder}
      → z.compress e s cap ≡ (some c, e')
      → (0 < length c) × (length c ≤ cap)
  pub compress_total :
      (e : Encoder) (s : Bytes)
      → 0 < length s
      → length s ≤ block_size
      → (c : Bytes) × (e' : Encoder) × (z.compress e s compress_bound ≡ (some c, e'))
  -- Synchronised streams restore each block, at the ring's next place.
  pub decompress-compress :
      (e : Encoder) (d : Decoder) (offset : ℕ) (s : Bytes) {c : Bytes} {e' : Encoder}
      → Synced e d offset
      → length s ≤ block_size
      → z.compress e s compress_bound ≡ (some c, e')
      → (d' : Decoder) × (z.decompress d (ring_offset z offset) c block_size ≡ (some s, d'))
        × Synced e' d' (ring_offset z offset + length s)
