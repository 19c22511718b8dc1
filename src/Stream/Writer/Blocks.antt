-- ===== src/Stream/Writer/Blocks.antt =====
-- `WriteBlock` and `Flush`, as sequences of encoded pieces.
use arthur.Base.{ℕ, zero, suc, ◌+◌, ◌≤◌, ◌<◌, ◌≡◌, refl, sym, ap, ◌∙◌, arith, ◌==◌}
use arthur.Base.{false}
use arthur.Base.{List, [], ◌∷◌, ◌++◌, some, Bytes, length, take, drop, append_assoc, append-nil}
use arthur.Base.{length-take, length-drop, min}
use mathlib.Core.Path.{subst}
use arthur.Base.Results.{Result, ok, err, and_then, and_then-eq-ok}
use arthur.Stream.Header.{block_size}
use arthur.Stream.Block
use arthur.Stream.Block.{Block}
use arthur.Stream.Codec.{Lz4, compress_bound}
use arthur.Stream.Writer.{Writer, fill, clear_block, compress, seal, some_bytes, write_blocks}
use arthur.Stream.Writer.Effects.{frame, sealed, compress_ok}
use arthur.Stream.Pieces.{pieces, Encoded, drop-length-take}

-- `w'` is `w` after blocks `out` were written, from one encoder state to another.
pub record Grown {Encoder : Type 0} (w : Writer Encoder) (out : Bytes) (w' : Writer Encoder)
    : Type 0 where
  pub written : w'.file.written ≡ w.file.written ++ out
  pub failed : w'.file.failed ≡ w.file.failed
  pub opened : w'.opened ≡ w.opened
  pub checksums : w'.checksums ≡ w.checksums
  pub block_type : w'.block_type ≡ w.block_type

-- The block that is not current is empty.
abbrev pub IsRing : {Encoder : Type 0} → Writer Encoder → Type 0
IsRing w = w.spare ≡ Block.empty

module _ {Encoder : Type 0} where
  pub Grown-refl : (w : Writer Encoder) → Grown w [] w
  Grown-refl w = record {
    written = sym (append-nil w.file.written);
    failed = refl;
    opened = refl;
    checksums = refl;
    block_type = refl;
  }

  pub Grown-trans :
      (w w₁ w₂ : Writer Encoder) (xs ys : Bytes)
      → Grown w xs w₁
      → Grown w₁ ys w₂
      → Grown w (xs ++ ys) w₂
  Grown-trans w w₁ w₂ xs ys g h = record {
    written = h.written ∙ ap (λ t. t ++ ys) g.written ∙ append_assoc w.file.written xs ys;
    failed = h.failed ∙ g.failed;
    opened = h.opened ∙ g.opened;
    checksums = h.checksums ∙ g.checksums;
    block_type = h.block_type ∙ g.block_type;
  }

  -- A piece that fits goes into the cleared block whole.
  pub fill-clear_block :
      (s : Bytes) (w : Writer Encoder)
      → length s ≤ block_size
      → fill s (clear_block w) ≡ (ok (length s), record w { block = record { cur = 0; bytes = s } })
  unfolding fill Block.write
  fill-clear_block [] w h = refl
  fill-clear_block (b ∷ s) w h = ground arith

  sealed-Grown :
      (n : ℕ) (bs : Bytes) (e : Encoder) (b : Block) (w : Writer Encoder)
      → Grown w bs (sealed n bs e (record w { block = b }))
  unfolding seal
  sealed-Grown n bs e b w = record {
    written = refl;
    failed = refl;
    opened = refl;
    checksums = refl;
    block_type = refl;
  }

  some_bytes-eq-ok :
      (p : Result ℕ × Writer Encoder) {u : Unit {0}} {w : Writer Encoder}
      → some_bytes p ≡ (ok u, w)
      → (n : ℕ) × (p ≡ (ok n, w))
  some_bytes-eq-ok (ok zero, w) h = cc
  some_bytes-eq-ok (ok (suc n), w) h = (suc n, ap (λ p. (ok (suc n), p.1)) h)
  some_bytes-eq-ok (err e, w) h = cc

module _ {Encoder Decoder : Type 0} (z : Lz4 Encoder Decoder) where
  -- What a run of blocks leaves.
  pub record Stored (type cont : ℕ) (ps : List Bytes) (w : Writer Encoder) (out : Bytes)
      (w' : Writer Encoder) : Type 0 where
    pub encoded : Encoded z w.checksums type cont w.enc ps out w'.enc
    pub grown : Grown w out w'
    pub ring : IsRing w'
    pub drained : w'.block ≡ Block.empty

  nonempty_test : (s : Bytes) → 0 < length s → (length s == 0) ≡ false
  nonempty_test s h = ground arith

  -- One round: the piece is in the file, and the other block is current.
  pub record Round (type cont : ℕ) (s : Bytes) (w w' : Writer Encoder) : Type 0 where
    pub code : Bytes
    pub compressed : z.compress w.enc s compress_bound ≡ (some code, w'.enc)
    pub grown : Grown w (frame w.checksums cont type code s) w'
    pub ring : IsRing w'
    pub drained : w'.block ≡ Block.empty

  pub compress-Round :
      (type cont : ℕ) (s : Bytes) (cur : ℕ) (w : Writer Encoder) {n : ℕ} {w' : Writer Encoder}
      → 0 < length s
      → IsRing w
      → compress z cont type (record w { block = record { cur = cur; bytes = s } }) ≡ (ok n, w')
      → Round type cont s w w'
  unfolding seal
  compress-Round type cont s cur w nonempty ring h =
      let w₀ : Writer Encoder = record w { block = record { cur = cur; bytes = s } } in
      let (c, e, q, sealed_eq, _) = compress_ok z cont type w₀ (nonempty_test s nonempty) h in
      record {
        code = c;
        compressed = q ∙ ap (λ (t : Writer Encoder). (some c, t.enc)) sealed_eq;
        grown =
            subst (λ t. Grown w (frame w.checksums cont type c s) t) sealed_eq
              (sealed-Grown (length c) (frame w.checksums cont type c s) e w₀.block w);
        ring = subst IsRing sealed_eq refl;
        drained = sym (ap (λ (t : Writer Encoder). t.block) sealed_eq) ∙ ring;
      }

  -- A round of the loop that succeeded, and the rest of the loop from there.
  Round-store :
      (type cont : ℕ) (s : Bytes) (w : Writer Encoder)
      (g : ℕ → Writer Encoder → Result ℕ × Writer Encoder) (n : ℕ) (w' : Writer Encoder)
      → 0 < length s
      → length s ≤ block_size
      → IsRing w
      → and_then
          (fill s (clear_block w))
          (λ k w₁. and_then (some_bytes (compress z cont type w₁)) (λ _ w₂. g k w₂))
        ≡ (ok n, w')
      → (w₂ : Writer Encoder) × Round type cont s w w₂ × (g (length s) w₂ ≡ (ok n, w'))
  Round-store type cont s w g n w' nonempty fits ring h =
      let h₁ = rw (fill-clear_block s w fits) at h in
      let (_, w₂, p₂, h₂) = and_then-eq-ok (some_bytes (compress z cont type _)) _ h₁ in
      let (k, q₂) = some_bytes-eq-ok (compress z cont type _) p₂ in
      (w₂, compress-Round type cont s 0 w nonempty ring q₂, h₂)

  Stored-cons :
      (type cont : ℕ) (s : Bytes) (ps : List Bytes) (w w₂ w' : Writer Encoder) (out : Bytes)
      → (r : Round type cont s w w₂) → Stored type 1 ps w₂ out w'
      → Stored type cont (s ∷ ps) w (frame w.checksums cont type r.code s ++ out) w'
  Stored-cons type cont s ps w w₂ w' out r st = record {
    encoded = (
      r.code,
      w₂.enc,
      out,
      r.compressed,
      refl,
      subst (λ b. Encoded z b type 1 w₂.enc ps out w'.enc) r.grown.checksums st.encoded,
    );
    grown = Grown-trans w w₂ w' _ out r.grown st.grown;
    ring = st.ring;
    drained = st.drained;
  }

  pub write_blocks_ok :
      (fuel : ℕ) (s : Bytes) (type cont m : ℕ) (w : Writer Encoder) (n : ℕ) (w' : Writer Encoder)
      → IsRing w
      → w.block ≡ Block.empty
      → write_blocks z fuel s type cont m w ≡ (ok n, w')
      → (out : Bytes) × Stored type cont (pieces fuel s) w out w' × (n ≡ m + length s)
  unfolding write_blocks pieces
  write_blocks_ok fuel [] type cont m w n w' ring empty h = (
    [],
    subst (λ t. Stored type cont [] w [] t) (ap (λ p. p.1) h)
        (record { encoded = (refl, refl); grown = Grown-refl w; ring = ring; drained = empty }),
    count m n (cc),
  )
    where
      count : (m n : ℕ) → m ≡ n → n ≡ m + 0
      count m n e = omega arith
  write_blocks_ok zero (b ∷ s) type cont m w n w' ring empty h = cc
  write_blocks_ok (suc fuel) (b ∷ s) type cont m w n w' ring empty h =
      go (Round-store type cont piece w _ n w' (omega (arith, size)) (omega (arith, size)) ring h)
        (write_blocks_ok fuel (drop (length piece) (b ∷ s)) type 1 (m + length piece))
    where
      piece : Bytes
      piece = take block_size (b ∷ s)

      size : length piece ≡ min block_size (length (b ∷ s))
      size = length-take block_size (b ∷ s)

      left : Bytes
      left = drop (length piece) (b ∷ s)

      go :
          (w₂ : Writer Encoder) × Round type cont piece w w₂
            × (write_blocks z fuel left type 1 (m + length piece) w₂ ≡ (ok n, w'))
          → ((w₂ : Writer Encoder) (n : ℕ) (w' : Writer Encoder)
              → IsRing w₂
              → w₂.block ≡ Block.empty
              → write_blocks z fuel left type 1 (m + length piece) w₂ ≡ (ok n, w')
              → (out : Bytes) × Stored type 1 (pieces fuel left) w₂ out w'
                × (n ≡ m + length piece + length left))
          → (out : Bytes) × Stored type cont
              (piece ∷ pieces fuel (drop block_size (b ∷ s)))
              w
              out
              w'
            × (n ≡ m + length (b ∷ s))
      go (w₂, r, h₂) ih =
          let (out, st, count) = ih w₂ n w' r.ring r.drained h₂ in
          (
            frame w.checksums cont type r.code piece ++ out,
            subst
                (λ t.
                  Stored type cont (piece ∷ pieces fuel t) w
                    (frame w.checksums cont type r.code piece ++ out) w')
                (drop-length-take block_size (b ∷ s))
                (Stored-cons type cont piece (pieces fuel left) w w₂ w' out r st),
            omega (arith, size, length-drop (length piece) (b ∷ s)),
          )
