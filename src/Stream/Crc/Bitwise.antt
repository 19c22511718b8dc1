-- ===== src/Stream/Crc/Bitwise.antt =====
-- The table-driven CRC is the bitwise one: eight rounds of the shift register for each byte.
use Prim.Native.Nat.{bit_and, bit_xor}
use arthur.Base.{ℕ, zero, suc, ◌+◌, ◌*◌, ◌/◌, ◌%◌, ◌^◌, ◌<◌, ◌≡◌, refl, sym, ap, ◌∙◌, arith}
use arthur.Base.{if◌then◌else◌, ◌==◌, [], ◌∷◌, Bytes, All}
use arthur.Base.Words.{IsByte}
use arthur.Base.Bits.{
  xor_zero, xor_middle, xor_half, xor_low, xor_byte, and_byte, and_one, xor-shift, zero-bit_xor,
}
use native.Mathlib.Nat.{pow-suc, mul_assoc}
use arthur.Stream.Crc.{table_round, rounds, table, crc32_update}

abbrev pub polynomial : ℕ
polynomial = 0xedb88320

-- The register after the byte `b`, by the definition of the CRC.
unfoldable pub shift_in : ℕ → ℕ → ℕ
shift_in crc b = rounds 8 (bit_xor crc b)

unfoldable pub crc32_bitwise : ℕ → Bytes → ℕ
crc32_bitwise crc [] = crc
crc32_bitwise crc (b ∷ bs) = crc32_bitwise (shift_in crc b) bs

-- What a round feeds back.
abbrev pub feedback : ℕ → ℕ
feedback v = if bit_and v 1 == 1 then polynomial else 0

pub feedback-odd : (v : ℕ) → v % 2 ≡ 1 → feedback v ≡ polynomial
feedback-odd v h = ground (arith, and_one v)

pub feedback-even : (v : ℕ) → v % 2 ≡ 0 → feedback v ≡ 0
feedback-even v h = ground (arith, and_one v)

feedback-xor : (v w : ℕ) → feedback (bit_xor v w) ≡ bit_xor (feedback v) (feedback w)
feedback-xor v w = ground (
  arith,
  and_one v,
  and_one w,
  and_one (bit_xor v w),
  xor_low v w,
  xor_zero polynomial,
  zero-bit_xor polynomial,
)

-- A round, and so any number of rounds, is linear.
table_round-xor : (v w : ℕ) → table_round (bit_xor v w) ≡ bit_xor (table_round v) (table_round w)
table_round-xor v w =
    ap (λ t. bit_xor t (feedback (bit_xor v w))) (xor_half v w)
    ∙ ap (bit_xor (bit_xor (v / 2) (w / 2))) (feedback-xor v w)
    ∙ xor_middle (v / 2) (w / 2) (feedback v) (feedback w)

pub rounds-xor : (n v w : ℕ) → rounds n (bit_xor v w) ≡ bit_xor (rounds n v) (rounds n w)
unfolding rounds
rounds-xor zero v w = refl
rounds-xor (suc n) v w =
    ap (rounds n) (table_round-xor v w) ∙ rounds-xor n (table_round v) (table_round w)

-- Bits above the ones that the rounds consume only move down.
table_round-even : (v : ℕ) → table_round (v * 2) ≡ v
table_round-even v =
    ap (bit_xor (v * 2 / 2)) (feedback-even (v * 2) (omega arith))
    ∙ xor_zero (v * 2 / 2)
    ∙ omega arith

pub rounds-high : (n h : ℕ) → rounds n (h * 2 ^ n) ≡ h
unfolding rounds
rounds-high zero h = omega arith
rounds-high (suc n) h =
    ap (λ t. rounds n (table_round t)) (shifted n h)
    ∙ ap (rounds n) (table_round-even (h * 2 ^ n))
    ∙ rounds-high n h
  where
    shifted : (n h : ℕ) → h * 2 ^ suc n ≡ h * 2 ^ n * 2
    shifted n h = ap (λ t. h * t) (pow-suc 2 n) ∙ sym (mul_assoc h (2 ^ n) 2)

-- The register splits into the byte that leaves it and the rest.
rounds-split : (v : ℕ) → rounds 8 v ≡ bit_xor (rounds 8 (v % 256)) (v / 256)
rounds-split v =
    ap (rounds 8) (sym (xor_byte (v % 256) (v / 256) (omega arith) ∙ whole v))
    ∙ rounds-xor 8 (v % 256) (v / 256 * 256)
    ∙ ap (bit_xor (rounds 8 (v % 256))) (rounds-high 8 (v / 256))
  where
    whole : (v : ℕ) → v % 256 + v / 256 * 256 ≡ v
    whole v = omega arith

table_step :
    (crc b : ℕ)
    → IsByte b
    → bit_xor (table (bit_and (bit_xor crc b) 0xff)) (crc / 256) ≡ shift_in crc b
unfolding table shift_in
table_step crc b h =
    ap (λ t. bit_xor (rounds 8 t) (crc / 256)) (and_byte (bit_xor crc b))
    ∙ ap (bit_xor (rounds 8 (bit_xor crc b % 256))) (sym high)
    ∙ sym (rounds-split (bit_xor crc b))
  where
    high : bit_xor crc b / 256 ≡ crc / 256
    high = xor-shift 8 crc b ∙ ap (bit_xor (crc / 256)) (gone b h) ∙ xor_zero (crc / 256)
      where
        gone : (b : ℕ) → b < 256 → b / 256 ≡ 0
        gone b h = omega arith

-- On bytes, the loop over the table computes the CRC that the polynomial defines.
pub crc32_update-bitwise :
    (crc : ℕ) (bs : Bytes) → All IsByte bs → crc32_update crc bs ≡ crc32_bitwise crc bs
unfolding crc32_update crc32_bitwise
crc32_update-bitwise crc [] h = refl
crc32_update-bitwise crc (b ∷ bs) (hb, hs) =
    ap (λ t. crc32_update t bs) (table_step crc b hb) ∙ crc32_update-bitwise (shift_in crc b) bs hs
