-- ===== src/Base/Bits.antt =====
-- Laws of `^` and `&` on unsigned integers, from the recursion on binary digits.
use Prim.Native.Nat.{ℕ, zero, suc, ◌+◌, ◌*◌, ◌/◌, ◌%◌, ◌^◌, ◌≤◌, ◌<◌, min}
use Prim.Native.Nat.{bit_and, bit_xor, differ, digits, bitwise, bit_and-bitwise, bit_xor-bitwise}
use mathlib.Core.Path.{◌≡◌, refl, sym, ap, ap₂, ◌∙◌}
use native.Mathlib.Omega.{arith}
use native.Mathlib.Nat.{pow-suc, mul_comm, div-div-eq-div-mul}

module _ (z : ℕ → ℕ) (f : ℕ → ℕ → ℕ) where
  -- Enough fuel is enough.
  fuel_irrelevant : (n m a b : ℕ) → a ≤ n → a ≤ m → digits z f n a b ≡ digits z f m a b
  fuel_irrelevant zero zero a b p q = refl
  fuel_irrelevant zero (suc m) zero b p q = refl
  fuel_irrelevant zero (suc m) (suc a) b p q = absurd (omega arith)
  fuel_irrelevant (suc n) zero zero b p q = refl
  fuel_irrelevant (suc n) zero (suc a) b p q = absurd (omega arith)
  fuel_irrelevant (suc n) (suc m) zero b p q = refl
  fuel_irrelevant (suc n) (suc m) (suc a) b p q =
      rw (fuel_irrelevant n m (suc a / 2) (b / 2) (omega arith) (omega arith))

  step_down :
      (a b : ℕ)
      → bitwise z f (suc a) b ≡ bitwise z f (suc a / 2) (b / 2) * 2 + f (suc a % 2) (b % 2)
  step_down a b =
      omega (arith, fuel_irrelevant a (suc a / 2) (suc a / 2) (b / 2) (omega arith) (omega arith))

differ_digits : (x y : ℕ) → x < 2 → y < 2 → differ x y ≡ (x + y) % 2
differ_digits zero y p q = omega arith
differ_digits (suc zero) zero p q = refl
differ_digits (suc zero) (suc zero) p q = refl
differ_digits (suc zero) (suc (suc y)) p q = absurd (omega arith)
differ_digits (suc (suc x)) y p q = absurd (omega arith)

pub zero-bit_xor : (b : ℕ) → bit_xor 0 b ≡ b
zero-bit_xor b = bit_xor-bitwise 0 b

zero-bit_and : (b : ℕ) → bit_and 0 b ≡ 0
zero-bit_and b = bit_and-bitwise 0 b

-- The lowest digit, and the digits above it.
xor_step : (a b : ℕ) → bit_xor a b ≡ bit_xor (a / 2) (b / 2) * 2 + (a % 2 + b % 2) % 2
xor_step zero b = omega (arith, zero-bit_xor b, zero-bit_xor (b / 2))
xor_step (suc a) b = omega (
  arith,
  bit_xor-bitwise (suc a) b,
  bit_xor-bitwise (suc a / 2) (b / 2),
  step_down (λ y. y) differ a b,
  differ_digits (suc a % 2) (b % 2) (omega arith) (omega arith),
)

and_step : (a b : ℕ) → bit_and a b ≡ bit_and (a / 2) (b / 2) * 2 + min (a % 2) (b % 2)
and_step zero b = omega (arith, zero-bit_and b, zero-bit_and (b / 2))
and_step (suc a) b = omega (
  arith,
  bit_and-bitwise (suc a) b,
  bit_and-bitwise (suc a / 2) (b / 2),
  step_down (λ y. 0) min a b,
)

pub xor_half : (a b : ℕ) → bit_xor a b / 2 ≡ bit_xor (a / 2) (b / 2)
xor_half a b = omega (arith, xor_step a b)

pub xor_low : (a b : ℕ) → bit_xor a b % 2 ≡ (a % 2 + b % 2) % 2
xor_low a b = omega (arith, xor_step a b)

-- The laws by induction on a bound of the arguments.
xor_comm_below : (n a b : ℕ) → a ≤ n → b ≤ n → bit_xor a b ≡ bit_xor b a
xor_comm_below n zero zero p q = refl
xor_comm_below zero (suc a) b p q = absurd (omega arith)
xor_comm_below zero zero (suc b) p q = absurd (omega arith)
xor_comm_below (suc n) a b p q = omega (
  arith,
  xor_step a b,
  xor_step b a,
  xor_comm_below n (a / 2) (b / 2) (omega arith) (omega arith),
)

pub xor_comm : (a b : ℕ) → bit_xor a b ≡ bit_xor b a
xor_comm a b = xor_comm_below (a + b) a b (omega arith) (omega arith)

xor_assoc_below :
    (n a b c : ℕ) → a ≤ n → b ≤ n → c ≤ n → bit_xor (bit_xor a b) c ≡ bit_xor a (bit_xor b c)
xor_assoc_below zero zero zero zero p q r = refl
xor_assoc_below zero (suc a) b c p q r = absurd (omega arith)
xor_assoc_below zero zero (suc b) c p q r = absurd (omega arith)
xor_assoc_below zero zero zero (suc c) p q r = absurd (omega arith)
xor_assoc_below (suc n) a b c p q r = omega (
  arith,
  xor_step (bit_xor a b) c,
  ap (λ (t : ℕ). bit_xor t (c / 2)) (xor_half a b),
  xor_low a b,
  xor_step a (bit_xor b c),
  ap (bit_xor (a / 2)) (xor_half b c),
  xor_low b c,
  xor_assoc_below n (a / 2) (b / 2) (c / 2) (omega arith) (omega arith) (omega arith),
)

pub xor_assoc : (a b c : ℕ) → bit_xor (bit_xor a b) c ≡ bit_xor a (bit_xor b c)
xor_assoc a b c = xor_assoc_below (a + b + c) a b c (omega arith) (omega arith) (omega arith)

xor_self_below : (n a : ℕ) → a ≤ n → bit_xor a a ≡ 0
xor_self_below n zero p = refl
xor_self_below zero (suc a) p = absurd (omega arith)
xor_self_below (suc n) (suc a) p =
    omega (arith, xor_step (suc a) (suc a), xor_self_below n (suc a / 2) (omega arith))

pub xor_self : (a : ℕ) → bit_xor a a ≡ 0
xor_self a = xor_self_below a a (omega arith)

pub xor_zero : (a : ℕ) → bit_xor a 0 ≡ a
xor_zero a = xor_comm a 0 ∙ zero-bit_xor a

-- `x ^ k ^ k` is `x`.
pub xor_cancel : (x k : ℕ) → bit_xor (bit_xor x k) k ≡ x
xor_cancel x k = xor_assoc x k k ∙ ap (bit_xor x) (xor_self k) ∙ xor_zero x

pub xor_cancel_left : (k x y : ℕ) → bit_xor k x ≡ bit_xor k y → x ≡ y
xor_cancel_left k x y e =
    sym (xor_cancel x k) ∙ ap (λ t. bit_xor t k) (xor_comm x k ∙ e ∙ xor_comm k y) ∙ xor_cancel y k

div_one : (a : ℕ) → a / 2 ^ 0 ≡ a
div_one a = omega arith

halve : (k a : ℕ) → a / 2 ^ suc k ≡ a / 2 / 2 ^ k
halve k a =
    ap (λ t. a / t) (pow-suc 2 k ∙ mul_comm (2 ^ k) 2) ∙ sym (div-div-eq-div-mul a 2 (2 ^ k))

-- A shift to the right is taken on both sides.
pub xor-shift : (k a b : ℕ) → bit_xor a b / 2 ^ k ≡ bit_xor (a / 2 ^ k) (b / 2 ^ k)
xor-shift zero a b = omega (arith, ap₂ bit_xor (div_one a) (div_one b))
xor-shift (suc k) a b =
    halve k (bit_xor a b)
    ∙ ap (λ t. t / 2 ^ k) (xor_half a b)
    ∙ xor-shift k (a / 2) (b / 2)
    ∙ ap₂ bit_xor (sym (halve k a)) (sym (halve k b))

pub xor-lt : (k a b : ℕ) → a < 2 ^ k → b < 2 ^ k → bit_xor a b < 2 ^ k
xor-lt zero a b p q = ground (arith, xor_zero 0)
xor-lt (suc k) a b p q = omega (
  arith,
  pow-suc 2 k,
  xor_step a b,
  xor-lt k (a / 2) (b / 2) (omega (arith, pow-suc 2 k)) (omega (arith, pow-suc 2 k)),
)

and_zero_below : (n a : ℕ) → a ≤ n → bit_and a 0 ≡ 0
and_zero_below n zero p = refl
and_zero_below zero (suc a) p = absurd (omega arith)
and_zero_below (suc n) (suc a) p =
    omega (arith, and_step (suc a) 0, and_zero_below n (suc a / 2) (omega arith))

pub and_one : (a : ℕ) → bit_and a 1 ≡ a % 2
and_one a = omega (arith, and_step a 1, and_zero_below (a / 2) (a / 2) (omega arith))

and_nibble : (a : ℕ) → bit_and a 15 ≡ a % 16
and_nibble a =
    omega
      (arith, and_step a 15, and_step (a / 2) 7, and_step (a / 2 / 2) 3, and_one (a / 2 / 2 / 2))

-- `x & 0xff` is the lowest byte.
pub and_byte : (a : ℕ) → bit_and a 0xff ≡ a % 256
and_byte a = omega (
  arith,
  and_step a 255,
  and_step (a / 2) 127,
  and_step (a / 2 / 2) 63,
  and_step (a / 2 / 2 / 2) 31,
  and_nibble (a / 2 / 2 / 2 / 2),
)

pub xor_middle :
    (a b c d : ℕ) → bit_xor (bit_xor a b) (bit_xor c d) ≡ bit_xor (bit_xor a c) (bit_xor b d)
xor_middle a b c d =
    xor_assoc a b (bit_xor c d)
    ∙ ap (bit_xor a)
        (sym (xor_assoc b c d) ∙ ap (λ t. bit_xor t d) (xor_comm b c) ∙ xor_assoc c b d)
    ∙ sym (xor_assoc a c (bit_xor b d))

xor_nibble : (l h : ℕ) → l < 16 → bit_xor l (h * 16) ≡ l + h * 16
xor_nibble l h p = omega (
  arith,
  xor_step l (h * 16),
  xor_step (l / 2) (h * 16 / 2),
  xor_step (l / 2 / 2) (h * 16 / 2 / 2),
  xor_step (l / 2 / 2 / 2) (h * 16 / 2 / 2 / 2),
  last,
)
  where
    last : bit_xor (l / 2 / 2 / 2 / 2) (h * 16 / 2 / 2 / 2 / 2) ≡ h
    last = ap₂ bit_xor (gone l p) (back h) ∙ zero-bit_xor h
      where
        gone : (l : ℕ) → l < 16 → l / 2 / 2 / 2 / 2 ≡ 0
        gone l p = omega arith

        back : (h : ℕ) → h * 16 / 2 / 2 / 2 / 2 ≡ h
        back h = omega arith

-- The exclusive or of bits that do not overlap is a sum.
pub xor_byte : (l h : ℕ) → l < 256 → bit_xor l (h * 256) ≡ l + h * 256
xor_byte l h p = omega (
  arith,
  xor_step l (h * 256),
  xor_step (l / 2) (h * 256 / 2),
  xor_step (l / 2 / 2) (h * 256 / 2 / 2),
  xor_step (l / 2 / 2 / 2) (h * 256 / 2 / 2 / 2),
  ap (bit_xor (l / 2 / 2 / 2 / 2)) (back h),
  xor_nibble (l / 2 / 2 / 2 / 2) h (omega arith),
)
  where
    back : (h : ℕ) → h * 256 / 2 / 2 / 2 / 2 ≡ h * 16
    back h = omega arith
