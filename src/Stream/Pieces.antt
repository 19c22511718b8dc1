-- ===== src/Stream/Pieces.antt =====
-- How data longer than a block is cut, and what the compressor writes for a sequence of pieces.
use arthur.Base.{ℕ, zero, suc, ◌≤◌, ◌<◌, ◌≡◌, refl, ap, ◌∙◌, arith}
use arthur.Base.{Bool, List, [], ◌∷◌, ◌++◌, some, Bytes, length, take, drop, All}
use arthur.Base.{length-take, length-drop, take-append-drop}
use arthur.Base.Words.{IsByte}
use arthur.Stream.Header.{block_size}
use arthur.Stream.Codec.{Lz4, compress_bound}
use arthur.Stream.Writer.Effects.{frame}

-- The cuts of `Write` and `WriteBlock`.
unfoldable pub pieces : ℕ → Bytes → List Bytes
pieces fuel [] = []
pieces zero (b ∷ s) = []
pieces (suc fuel) (b ∷ s) = take block_size (b ∷ s) ∷ pieces fuel (drop block_size (b ∷ s))

abbrev pub joined : List Bytes → Bytes
joined [] = []
joined (s ∷ ss) = s ++ joined ss

-- A piece fits a block and is not empty.
pub record IsPiece (s : Bytes) : Type 0 where
  pub nonempty : 0 < length s
  pub fits : length s ≤ block_size
  pub bytes : All IsByte s

-- `out` is the sequence of blocks for the pieces, by an encoder that goes from `e` to `e'`; `cont`
-- is the mark of the first, and the others are marked as continuations.
abbrev pub Encoded :
    {Encoder Decoder : Type 0}
    → Lz4 Encoder Decoder
    → Bool
    → ℕ
    → ℕ
    → Encoder
    → List Bytes
    → Bytes
    → Encoder
    → Type 0
Encoded z checks type cont e [] out e' = (out ≡ []) × (e ≡ e')
Encoded {Encoder} z checks type cont e (s ∷ ss) out e' =
    (c : Bytes) × (e₁ : Encoder) × (rest : Bytes) × (z.compress e s compress_bound ≡ (some c, e₁))
    × (out ≡ frame checks cont type c s ++ rest)
    × Encoded z checks type 1 e₁ ss rest e'

pub drop-length-take : (n : ℕ) (s : Bytes) → drop (length (take n s)) s ≡ drop n s
drop-length-take zero s = refl
drop-length-take (suc n) [] = refl
drop-length-take (suc n) (b ∷ s) = drop-length-take n s

pub All-take : (n : ℕ) (s : Bytes) → All IsByte s → All IsByte (take n s)
All-take zero s h = tt
All-take (suc n) [] h = tt
All-take (suc n) (b ∷ s) (hb, hs) = (hb, All-take n s hs)

pub All-drop : (n : ℕ) (s : Bytes) → All IsByte s → All IsByte (drop n s)
All-drop zero s h = h
All-drop (suc n) [] h = tt
All-drop (suc n) (b ∷ s) (hb, hs) = All-drop n s hs

-- With fuel for each byte, the pieces make up the whole.
pub joined-pieces : (fuel : ℕ) (s : Bytes) → length s ≤ fuel → joined (pieces fuel s) ≡ s
unfolding pieces
joined-pieces fuel [] h = refl
joined-pieces zero (b ∷ s) h = absurd (omega arith)
joined-pieces (suc fuel) (b ∷ s) h =
    ap (λ t. take block_size (b ∷ s) ++ t)
      (joined-pieces fuel (drop block_size (b ∷ s)) (omega (arith, length-drop block_size (b ∷ s))))
    ∙ take-append-drop block_size (b ∷ s)

pub pieces-IsPiece : (fuel : ℕ) (s : Bytes) → All IsByte s → All IsPiece (pieces fuel s)
unfolding pieces
pieces-IsPiece fuel [] h = tt
pieces-IsPiece zero (b ∷ s) h = tt
pieces-IsPiece (suc fuel) (b ∷ s) h = (
  record {
    nonempty = omega (arith, length-take block_size (b ∷ s));
    fits = omega (arith, length-take block_size (b ∷ s));
    bytes = All-take block_size (b ∷ s) h;
  },
  pieces-IsPiece fuel (drop block_size (b ∷ s)) (All-drop block_size (b ∷ s) h),
)

pub length-pieces : (fuel : ℕ) (s : Bytes) → length (pieces fuel s) ≤ fuel
unfolding pieces
length-pieces fuel [] = omega arith
length-pieces zero (b ∷ s) = omega arith
length-pieces (suc fuel) (b ∷ s) = omega (arith, length-pieces fuel (drop block_size (b ∷ s)))
