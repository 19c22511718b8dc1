-- ===== src/Stream/Writer/Calls.antt =====
-- What the calls of the compressor add to the file where they succeed.
use arthur.Base.{ℕ, ◌<◌, ◌≡◌, refl, sym, ap, ◌∙◌, arith, ◌==◌, leb, ltb}
use arthur.Base.{true, false, not, Bool-cases, inl, inr, unless_true, if_false, if_true}
use arthur.Base.{[], ◌∷◌, Bytes, length}
use mathlib.Core.Path.{subst}
use arthur.Base.Results.{Error, ok, and_then-eq-ok, past_guard, count_of}
use native.Mathlib.Nat.{zero-add}
use arthur.Base.Files.{fwrite_all, fwrite_short}
use arthur.Stream.BlockType
use arthur.Stream.Block
use arthur.Stream.Codec.{Lz4}
use arthur.Stream.Writer.{Writer, compress, flush, write_block, put_raw, write_raw, int_max}
use arthur.Stream.Writer.Blocks.{Grown, IsRing, Round, compress-Round, Stored, write_blocks_ok}
use arthur.Stream.Pieces.{pieces}

-- The compressor between two calls: one block of the ring is empty.
pub record IsWriting {Encoder : Type 0} (w : Writer Encoder) : Type 0 where
  pub is_open : w.opened ≡ true
  pub ring : IsRing w
  pub at_start : w.block.cur ≡ 0
  pub sound : w.file.failed ≡ false

-- What a raw write leaves: the codec and the ring as they were.
pub record IsRaw {Encoder : Type 0} (s : Bytes) (w w' : Writer Encoder) : Type 0 where
  pub grown : Grown w s w'
  pub ring : IsRing w'
  pub drained : w'.block ≡ Block.empty
  pub same_enc : w'.enc ≡ w.enc

module _ {Encoder : Type 0} where
  put_raw_ok :
      (s : Bytes) (w : Writer Encoder) (n : ℕ) (w' : Writer Encoder)
      → put_raw s w ≡ (ok n, w')
      → n ≡ length s
      → IsRing w
      → w.block ≡ Block.empty
      → IsRaw s w w'
  unfolding put_raw
  put_raw_ok s w n w' h all ring e = elim (Bool-cases (leb (length s) w.file.room)) [
    | inl fits ↦
        subst (λ t. IsRaw s w t) (ap (λ t. t.1) (rw (fwrite_all s w.file fits) at h))
          (record {
            grown = record {
              written = refl;
              failed = refl;
              opened = refl;
              checksums = refl;
              block_type = refl;
            };
            ring = ring;
            drained = e;
            same_enc = refl;
          })
    | inr short ↦ absurd (omega (arith, fwrite_short s w.file short, ap (λ t. count_of t.0) h, all))
  ]

module _ {Encoder Decoder : Type 0} (z : Lz4 Encoder Decoder) where
  -- A stream with nothing buffered is not changed by `Flush`.
  pub flush_idle :
      (w : Writer Encoder) → IsWriting w → w.block ≡ Block.empty → flush z w ≡ (ok tt, w)
  unfolding flush
  flush_idle w v e = ground (arith, v.is_open, v.sound)

  -- `Flush` of a block that holds bytes writes it with the stream's block type.
  pub flush_ok :
      (w : Writer Encoder) {u : Unit {0}} {w' : Writer Encoder}
      → IsWriting w
      → Block.is_empty w.block ≡ false
      → flush z w ≡ (ok u, w')
      → Round z w.block_type 0 w.block.bytes w w'
  unfolding flush
  flush_ok w {u} {w'} v filled h =
      let steps = unless_true _ _ v.is_open ∙ if_false _ _ v.sound ∙ if_false _ _ filled in
      let (n, w₁, p, q) = and_then-eq-ok (compress z 0 w.block_type w) _ (sym steps ∙ h) in
      compress-Round z w.block_type 0 w.block.bytes w.block.cur w (nonempty_of w.block.bytes filled)
        v.ring (p ∙ ap (λ t. (ok n, t)) (ap (λ t. t.1) q))
    where
      nonempty_of : (s : Bytes) → (length s == 0) ≡ false → 0 < length s
      nonempty_of s h = ground arith

  -- `WriteBlock` on a stream with nothing buffered writes the pieces of the data, all of it.
  pub write_block_ok :
      (s : Bytes) (type : ℕ) (w : Writer Encoder) (n : ℕ) (w' : Writer Encoder)
      → IsWriting w
      → w.block ≡ Block.empty
      → write_block z s type w ≡ (ok n, w')
      → (out : Bytes) × Stored z type 0 (pieces (length s) s) w out w' × (n ≡ length s)
  unfolding write_block
  write_block_ok s type w n w' v e h =
      let h₁ = past_guard (leb BlockType.max type) Error.einval w _ h in
      let h₂ = past_guard (not w.opened) Error.ebadf w _ h₁ in
      let h₃ = past_guard (ltb int_max (length s)) Error.fault w _ h₂ in
      let (out, st, count) =
        write_blocks_ok z (length s) s type 0 0 w n w' v.ring e (rw (flush_idle w v e) at h₃) in
      (out, st, count ∙ zero-add (length s))

  -- `WriteRaw` on a stream with nothing buffered puts the bytes themselves into the file.
  pub write_raw_ok :
      (s : Bytes) (w : Writer Encoder) (n : ℕ) (w' : Writer Encoder)
      → IsWriting w
      → w.block ≡ Block.empty
      → (length s == 0) ≡ false
      → write_raw z s w ≡ (ok n, w')
      → n ≡ length s
      → IsRaw s w w'
  unfolding write_raw
  write_raw_ok s w n w' v e filled h all =
      let h₁ = past_guard (not w.opened) Error.ebadf w _ h in
      let h₂ = past_guard (ltb int_max (length s)) Error.einval w _ h₁ in
      put_raw_ok s w n w'
        (sym (if_false _ _ filled ∙ if_false _ _ v.sound ∙ if_true _ _ (ap Block.is_empty e)) ∙ h₂)
        all v.ring e

  Round-IsWriting :
      (type cont : ℕ) (s : Bytes) (w w' : Writer Encoder)
      → IsWriting w
      → Round z type cont s w w'
      → IsWriting w'
  Round-IsWriting type cont s w w' v r = record {
    is_open = r.grown.opened ∙ v.is_open;
    ring = r.ring;
    at_start = ap (λ (b : Block.Block). b.cur) r.drained;
    sound = r.grown.failed ∙ v.sound;
  }

  -- After `Flush` nothing is buffered.
  pub flush_drains :
      (w w₀ : Writer Encoder)
      → IsWriting w
      → flush z w ≡ (ok tt, w₀)
      → IsWriting w₀ × (w₀.block ≡ Block.empty)
  unfolding flush
  flush_drains w w₀ v h = elim (Bool-cases (Block.is_empty w.block)) [
    | inl idle ↦
        let same : w ≡ w₀ =
          ap (λ t. t.1)
            (sym (unless_true _ _ v.is_open ∙ if_false _ _ v.sound ∙ if_true _ _ idle) ∙ h) in
        (
          subst IsWriting same v,
          subst (λ (t : Writer Encoder). t.block ≡ Block.empty) same
              (empty_of w.block v.at_start idle),
        )
    | inr filled ↦
        let r = flush_ok w v filled h in
        (Round-IsWriting w.block_type 0 w.block.bytes w w₀ v r, r.drained)
  ]
    where
      nil_of : (s : Bytes) → (length s == 0) ≡ true → s ≡ []
      nil_of [] e = refl
      nil_of (b ∷ s) e = absurd (ground arith)

      empty_of : (b : Block.Block) → b.cur ≡ 0 → Block.is_empty b ≡ true → b ≡ Block.empty
      empty_of b c e = λ i. record { cur = c i; bytes = nil_of b.bytes e i }
