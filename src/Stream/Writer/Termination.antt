-- ===== src/Stream/Writer/Termination.antt =====
-- The loop of `WriteBlock` ends by itself.
use arthur.Base.{ℕ, zero, suc, ◌+◌, ◌≢◌, ◌≤◌, arith, not, ◌&&◌, ◌==◌, ltb, leb}
use arthur.Base.{Option, none, some, [], ◌∷◌, Bytes, length, take, drop, length-take, length-drop}
use arthur.Base.Files.{fwrite}
use arthur.Base.Results.{Result, Error, ok, err, and_then, Ends, and_then-Ends, if-Ends}
use mathlib.Core.Path.{subst, sym}
use arthur.Stream.BlockType
use arthur.Stream.Block
use arthur.Stream.Header.{block_size, header_bytes, make_header}
use arthur.Stream.Codec.{Lz4}
use arthur.Stream.Writer.{
  Writer, put, seal, put_checksum, store, some_bytes, compress, flush, write_blocks, write_block,
  set_block, int_max,
}
use arthur.Stream.Writer.Blocks.{fill-clear_block}

pub fails : {A S : Type 0} (e : Error) (s : S) → e ≢ Error.out_of_fuel → Ends {A = A} (err e, s)
fails e s h = record { enough = λ q. h cc }

pub succeeds : {A S : Type 0} (a : A) (s : S) → Ends (ok a, s)
succeeds a s = record { enough = λ q. cc }

module _ {Encoder : Type 0} where
  put-Ends : (bs : Bytes) (w : Writer Encoder) → Ends (put bs w)
  unfolding put
  put-Ends bs w =
      if-Ends ((fwrite bs w.file).0 == length bs) _ _ (λ _. succeeds _ _)
        (λ _. fails Error.fault _ (λ q. cc))

  put_checksum-Ends : (cont type len : ℕ) (w : Writer Encoder) → Ends (put_checksum cont type len w)
  unfolding put_checksum
  put_checksum-Ends cont type len w =
      if-Ends w.checksums _ _ (λ _. put-Ends _ w) (λ _. succeeds _ _)

  store-Ends : (cont type : ℕ) (o : Option Bytes) (w : Writer Encoder) → Ends (store cont type o w)
  unfolding store seal
  store-Ends cont type none w = fails Error.fault w (λ q. cc)
  store-Ends cont type (some c) w =
      and_then-Ends (put (header_bytes (make_header cont type (length c))) w) _ (put-Ends _ w)
        λ _ w₁. and_then-Ends (put c w₁) _ (put-Ends c w₁) λ _ w₂.
          and_then-Ends (put_checksum cont type (length c) w₂) _
            (put_checksum-Ends cont type (length c) w₂) λ _ w₃. succeeds _ _

  some_bytes-Ends : (p : Result ℕ × Writer Encoder) → Ends p → Ends (some_bytes p)
  some_bytes-Ends (ok zero, w) h = fails Error.fault w (λ q. cc)
  some_bytes-Ends (ok (suc n), w) h = succeeds _ _
  some_bytes-Ends (err e, w) h = record { enough = λ q. h.enough cc }

module _ {Encoder Decoder : Type 0} (z : Lz4 Encoder Decoder) where
  compress-Ends : (cont type : ℕ) (w : Writer Encoder) → Ends (compress z cont type w)
  unfolding compress
  compress-Ends cont type w =
      if-Ends (Block.is_empty w.block) _ _ (λ _. succeeds _ _) (λ _. store-Ends cont type _ _)

  flush-Ends : (w : Writer Encoder) → Ends (flush z w)
  unfolding flush
  flush-Ends w =
      if-Ends (not w.opened) _ _ (λ _. fails Error.ebadf w (λ q. cc))
        λ _.
          if-Ends w.file.failed _ _ (λ _. fails Error.eio w (λ q. cc))
            λ _.
              if-Ends (Block.is_empty w.block) _ _ (λ _. succeeds _ _)
                λ _.
                  and_then-Ends (compress z 0 w.block_type w) _ (compress-Ends 0 w.block_type w)
                    λ _ w'. succeeds _ _

  write_blocks-Ends :
      (fuel : ℕ) (s : Bytes) (type cont m : ℕ) (w : Writer Encoder)
      → length s ≤ fuel
      → Ends (write_blocks z fuel s type cont m w)
  unfolding write_blocks
  write_blocks-Ends fuel [] type cont m w h = succeeds _ _
  write_blocks-Ends zero (b ∷ s) type cont m w h = absurd (omega (arith, h))
  write_blocks-Ends (suc fuel) (b ∷ s) type cont m w h =
      subst
        (λ p. Ends (
          and_then p λ n w₁.
            and_then (some_bytes (compress z cont type w₁))
              λ _ w₂. write_blocks z fuel (drop n (b ∷ s)) type 1 (m + n) w₂))
        (sym (
          fill-clear_block (take block_size (b ∷ s)) w
            (omega (arith, length-take block_size (b ∷ s)))))
        (and_then-Ends (some_bytes (compress z cont type _)) _
          (some_bytes-Ends _ (compress-Ends cont type _))
          λ _ w₂.
            write_blocks-Ends fuel (drop (length (take block_size (b ∷ s))) (b ∷ s)) type 1 _ w₂ (
              omega (
                arith,
                h,
                length-take block_size (b ∷ s),
                length-drop (length (take block_size (b ∷ s))) (b ∷ s),
              )))

  pub write_block-Ends : (s : Bytes) (type : ℕ) (w : Writer Encoder) → Ends (write_block z s type w)
  unfolding write_block
  write_block-Ends s type w =
      if-Ends (leb BlockType.max type) _ _ (λ _. fails Error.einval w (λ q. cc))
        λ _.
          if-Ends (not w.opened) _ _ (λ _. fails Error.ebadf w (λ q. cc))
            λ _.
              if-Ends (ltb int_max (length s)) _ _ (λ _. fails Error.fault w (λ q. cc))
                λ _.
                  and_then-Ends (flush z w) _ (flush-Ends w)
                    λ _ w₁. write_blocks-Ends (length s) s type 0 0 w₁ (omega arith)

  pub set_block-Ends : (type : ℕ) (w : Writer Encoder) → Ends (set_block z type w)
  unfolding set_block
  set_block-Ends type w =
      if-Ends (leb BlockType.max type) _ _ (λ _. fails Error.einval w (λ q. cc))
        λ _.
          if-Ends (not w.opened) _ _ (λ _. fails Error.ebadf w (λ q. cc))
            λ _.
              if-Ends (not (type == w.block_type) && not (Block.is_empty w.block)) _ _
                (λ _. and_then-Ends (flush z w) _ (flush-Ends w) λ _ w'. succeeds _ _)
                (λ _. succeeds _ _)
