-- ===== src/Core/Memory/Blocks.antt =====
-- The blocks that `WriteLoads` makes of its buffer.
use arthur.Base.{ℕ, zero, suc, ◌+◌, ◌^◌, ◌≡◌, ◌≤◌, ◌<◌, refl, sym, ap, ◌∙◌, arith, Bool}
use arthur.Base.{All-append}
use arthur.Base.{
  List, [], ◌∷◌, ◌++◌, some, Bytes, length, take, drop, All, append-nil, append_assoc, length-take,
  length-drop, take-append-drop, take_all,
}
use mathlib.Core.Path.{subst}
use arthur.Base.Words.{IsByte, add_size}
use arthur.Base.Results.{ok, and_then-eq-ok, count_of}
use arthur.Stream.BlockType
use arthur.Stream.Block
use arthur.Stream.Header.{block_size}
use arthur.Stream.Codec.{Lz4, compress_bound}
use arthur.Stream.Writer.{Writer, write_block}
use arthur.Stream.Writer.Effects.{frame}
use arthur.Stream.Writer.Blocks.{Grown, Grown-refl, Grown-trans, Stored}
use arthur.Stream.Writer.Calls.{IsWriting, write_block_ok}
use arthur.Stream.Pieces.{pieces, joined, IsPiece, Encoded, All-take, All-drop}
use arthur.Core.Memory.{write_buffer}

-- `out` is a LOADS block for each piece, none marked as a continuation, by an encoder that goes from `e` to
-- `e'`.
abbrev pub LoadsBlocks :
    {Encoder Decoder : Type 0}
    → Lz4 Encoder Decoder
    → Bool
    → Encoder
    → List Bytes
    → Bytes
    → Encoder
    → Type 0
LoadsBlocks z checks e [] out e' = (out ≡ []) × (e ≡ e')
LoadsBlocks {Encoder} z checks e (s ∷ ss) out e' =
    (c : Bytes) × (e₁ : Encoder) × (rest : Bytes) × (z.compress e s compress_bound ≡ (some c, e₁))
    × (out ≡ frame checks 0 BlockType.loads c s ++ rest)
    × LoadsBlocks z checks e₁ ss rest e'

pub joined-append : (ps qs : List Bytes) → joined (ps ++ qs) ≡ joined ps ++ joined qs
joined-append [] qs = refl
joined-append (p ∷ ps) qs =
    ap (λ t. p ++ t) (joined-append ps qs) ∙ sym (append_assoc p (joined ps) (joined qs))

module _ {Encoder Decoder : Type 0} (z : Lz4 Encoder Decoder) where
  LoadsBlocks-append :
      (checks : Bool) (ps qs : List Bytes) (e e₁ e' : Encoder) (out out' : Bytes)
      → LoadsBlocks z checks e ps out e₁
      → LoadsBlocks z checks e₁ qs out' e'
      → LoadsBlocks z checks e (ps ++ qs) (out ++ out') e'
  LoadsBlocks-append checks [] qs e e₁ e' out out' (none_left, same) k =
      subst (λ t. LoadsBlocks z checks e qs (t ++ out') e') (sym none_left)
        (subst (λ t. LoadsBlocks z checks t qs out' e') (sym same) k)
  LoadsBlocks-append checks (p ∷ ps) qs e e₁ e' out out' (c, e₂, rest, q, split, h) k = (
    c,
    e₂,
    rest ++ out',
    q,
    ap (λ t. t ++ out') split ∙ append_assoc (frame checks 0 BlockType.loads c p) rest out',
    LoadsBlocks-append checks ps qs e₂ e₁ e' rest out' h k,
  )

  -- The stream behind the blocks for `s`, with nothing buffered.
  pub record Written (s : Bytes) (w w' : Writer Encoder) : Type 0 where
    pub pieces_of : List Bytes
    pub blocks : Bytes
    pub whole : joined pieces_of ≡ s
    pub each : All IsPiece pieces_of
    pub encoded : LoadsBlocks z w.checksums w.enc pieces_of blocks w'.enc
    pub grown : Grown w blocks w'
    pub writing : IsWriting w'
    pub drained : w'.block ≡ Block.empty

  pub Written-refl : (w : Writer Encoder) → IsWriting w → w.block ≡ Block.empty → Written [] w w
  Written-refl w v e = record {
    pieces_of = [];
    blocks = [];
    whole = refl;
    each = tt;
    encoded = (refl, refl);
    grown = Grown-refl w;
    writing = v;
    drained = e;
  }

  pub Written-trans :
      (s t : Bytes) (w w₁ w₂ : Writer Encoder)
      → Written s w w₁
      → Written t w₁ w₂
      → Written (s ++ t) w w₂
  Written-trans s t w w₁ w₂ a b = record {
    pieces_of = a.pieces_of ++ b.pieces_of;
    blocks = a.blocks ++ b.blocks;
    whole =
        joined-append a.pieces_of b.pieces_of
        ∙ ap (λ x. x ++ joined b.pieces_of) a.whole
        ∙ ap (λ x. s ++ x) b.whole;
    each = All-append IsPiece a.pieces_of b.pieces_of a.each b.each;
    encoded =
        LoadsBlocks-append w.checksums a.pieces_of b.pieces_of w.enc w₁.enc w₂.enc a.blocks b.blocks
          a.encoded
          (subst (λ k. LoadsBlocks z k w₁.enc b.pieces_of b.blocks w₂.enc) a.grown.checksums
            b.encoded);
    grown = Grown-trans w w₁ w₂ a.blocks b.blocks a.grown b.grown;
    writing = b.writing;
    drained = b.drained;
  }

  nil_of : (s : Bytes) → length s ≡ 0 → s ≡ []
  nil_of [] h = refl
  nil_of (b ∷ s) h = absurd (omega (arith, h))

  pieces-nil : (fuel : ℕ) → pieces fuel [] ≡ []
  unfolding pieces
  pieces-nil fuel = refl

  cut_once : (n fuel : ℕ) (s : Bytes) → length s ≤ n → take n s ∷ pieces fuel (drop n s) ≡ s ∷ []
  cut_once n fuel s h =
      ap (λ t. t ∷ pieces fuel (drop n s)) (take_all n s h)
      ∙ ap (λ t. s ∷ t)
          (ap (pieces fuel) (nil_of (drop n s) (length-drop n s ∙ omega (arith, h)))
            ∙ pieces-nil fuel)

  one_piece_only : (s : Bytes) → IsPiece s → pieces (length s) s ≡ s ∷ []
  unfolding pieces
  one_piece_only [] v = absurd (omega (arith, v.nonempty))
  one_piece_only (b ∷ s) v = cut_once block_size (length s) (b ∷ s) v.fits

  Stored-Written :
      (s out : Bytes) (w w' : Writer Encoder)
      → IsWriting w
      → IsPiece s
      → Stored z BlockType.loads 0 (pieces (length s) s) w out w'
      → Written s w w'
  Stored-Written s out w w' v p st =
      let (c, e₁, rest, q, split, done) =
        subst (λ ps. Encoded z w.checksums BlockType.loads 0 w.enc ps out w'.enc)
          (one_piece_only s p) st.encoded in
      record {
        pieces_of = s ∷ [];
        blocks = out;
        whole = append-nil s;
        each = (p, tt);
        encoded = (c, e₁, rest, q, split, done);
        grown = st.grown;
        writing = record {
          is_open = st.grown.opened ∙ v.is_open;
          ring = st.ring;
          at_start = ap (λ (b : Block.Block). b.cur) st.drained;
          sound = st.grown.failed ∙ v.sound;
        };
        drained = st.drained;
      }

  front-IsPiece : (s : Bytes) → All IsByte s → 0 < length s → IsPiece (take block_size s)
  front-IsPiece s h filled = record {
    nonempty = omega (arith, length-take block_size s);
    fits = omega (arith, length-take block_size s);
    bytes = All-take block_size s h;
  }

  pub write_buffer_ok :
      (fuel : ℕ) (s : Bytes) (size : ℕ) (w : Writer Encoder) (n : ℕ) (w' : Writer Encoder)
      → IsWriting w
      → w.block ≡ Block.empty
      → All IsByte s
      → size + length s < 2 ^ 64
      → write_buffer z fuel s size w ≡ (ok n, w')
      → Written s w w' × (n ≡ size + length s)
  unfolding write_buffer
  write_buffer_ok fuel [] size w n w' v e bytes small h = (
    subst (Written [] w) (ap (λ t. t.1) h) (Written-refl w v e),
    ap (λ t. count_of t.0) (sym h) ∙ omega arith,
  )
  write_buffer_ok zero (b ∷ s) size w n w' v e bytes small h = cc
  write_buffer_ok (suc fuel) (b ∷ s) size w n w' v e bytes small h =
      let (k, w₁, p, q) =
        and_then-eq-ok (write_block z (take block_size (b ∷ s)) BlockType.loads w) _ h in
      let (out, st, count) =
        write_block_ok z (take block_size (b ∷ s)) BlockType.loads w k w₁ v e p in
      let front = length-take block_size (b ∷ s) in
      let back = length-drop block_size (b ∷ s) in
      let sum : add_size size k ≡ size + k = omega (arith, small, count, front) in
      let first =
        Stored-Written (take block_size (b ∷ s)) out w w₁ v
          (front-IsPiece (b ∷ s) bytes (omega arith)) st in
      let (later, total) =
        write_buffer_ok fuel (drop block_size (b ∷ s)) (add_size size k) w₁ n w' first.writing
          first.drained (All-drop block_size (b ∷ s) bytes)
          (omega (arith, small, sum, count, front, back)) q in
      (
        subst (λ t. Written t w w') (take-append-drop block_size (b ∷ s))
            (Written-trans _ _ w w₁ w' first later),
        total ∙ omega (arith, sum, count, front, back),
      )
