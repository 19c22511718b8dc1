-- ===== src/Base/Words.antt =====
-- Unsigned integers in memory: little endian, as on x86-64 and aarch64.
use Prim.Native.Nat.{ℕ, zero, suc, ◌+◌, ◌*◌, ◌/◌, ◌%◌, ◌^◌, ◌<◌}
use mathlib.Core.Path.{◌≡◌, refl, ap, ap₂}
use mathlib.Core.List.{[], ◌∷◌}
use native.Mathlib.Omega.{arith}
use native.Mathlib.Nat.{pow-suc}
use arthur.Base.Lists.{Bytes, length, All}

abbrev pub IsByte : ℕ → Type 0
IsByte b = b < 256

-- `size_t` and `uint64_t` addition
abbrev pub add_size : ℕ → ℕ → ℕ
add_size a b = (a + b) % 2 ^ 64

-- The `k` bytes of `n`, and the number that bytes make.
unfoldable pub le_bytes : ℕ → ℕ → Bytes
le_bytes zero n = []
le_bytes (suc k) n = (n % 256) ∷ le_bytes k (n / 256)

unfoldable pub le_value : Bytes → ℕ
le_value [] = 0
le_value (b ∷ bs) = b + 256 * le_value bs

pub length-le_bytes : (k n : ℕ) → length (le_bytes k n) ≡ k
unfolding le_bytes
length-le_bytes zero n = refl
length-le_bytes (suc k) n = ap suc (length-le_bytes k (n / 256))

pub le_value-le_bytes : (k n : ℕ) → n < 256 ^ k → le_value (le_bytes k n) ≡ n
unfolding le_bytes le_value
le_value-le_bytes zero n h = omega arith
le_value-le_bytes (suc k) n h =
    omega (arith, pow-suc 256 k, le_value-le_bytes k (n / 256) (omega (arith, pow-suc 256 k)))

pub le_bytes-IsByte : (k n : ℕ) → All IsByte (le_bytes k n)
unfolding le_bytes
le_bytes-IsByte zero n = tt
le_bytes-IsByte (suc k) n = (omega arith, le_bytes-IsByte k (n / 256))

pub le_value_bound : (bs : Bytes) → All IsByte bs → le_value bs < 256 ^ length bs
unfolding le_value
le_value_bound [] h = omega arith
le_value_bound (b ∷ bs) h = omega (arith, pow-suc 256 (length bs), le_value_bound bs h.1, h.0)

-- Two runs of bytes of one length that make the same number are the same.
pub le_value-injective :
    (xs ys : Bytes)
    → All IsByte xs
    → All IsByte ys
    → length xs ≡ length ys
    → le_value xs ≡ le_value ys
    → xs ≡ ys
unfolding le_value
le_value-injective [] [] hx hy l e = refl
le_value-injective [] (y ∷ ys) hx hy l e = absurd (omega arith)
le_value-injective (x ∷ xs) [] hx hy l e = absurd (omega arith)
le_value-injective (x ∷ xs) (y ∷ ys) hx hy l e =
    ap₂ ◌∷◌ (heads x y (le_value xs) (le_value ys) hx.0 hy.0 e) (
      le_value-injective xs ys hx.1 hy.1 (omega arith)
        (tails x y (le_value xs) (le_value ys) hx.0 hy.0 e))
  where
    heads : (x y v w : ℕ) → x < 256 → y < 256 → x + 256 * v ≡ y + 256 * w → x ≡ y
    heads x y v w hx hy e = omega arith

    tails : (x y v w : ℕ) → x < 256 → y < 256 → x + 256 * v ≡ y + 256 * w → v ≡ w
    tails x y v w hx hy e = omega arith
