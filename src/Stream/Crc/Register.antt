-- ===== src/Stream/Crc/Register.antt =====
-- The CRC's shift register loses nothing: different states and short runs stay different.
use Prim.Native.Nat.{bit_xor}
use arthur.Base.{ℕ, zero, suc, ◌+◌, ◌*◌, ◌/◌, ◌%◌, ◌^◌, ◌<◌, ◌≡◌, refl, sym, ap, ◌∙◌, arith}
use arthur.Base.{[], ◌∷◌, ◌++◌, Bytes, All, length, All-append, ◌≤◌}
use mathlib.Core.Path.{subst}
use arthur.Base.Words.{IsByte, le_value, le_value-injective, le_value_bound}
use arthur.Base.Bits.{
  xor_comm, xor_assoc, xor_byte, xor_cancel_left, xor-shift, xor-lt, xor_zero, zero-bit_xor,
}
use arthur.Stream.Crc.{table_round, rounds, crc32_update}
use arthur.Stream.Crc.Bitwise.{
  feedback, feedback-odd, feedback-even, shift_in, crc32_bitwise, crc32_update-bitwise, rounds-high,
  rounds-xor,
}

abbrev pub IsWord : ℕ → Type 0
IsWord v = v < 2 ^ 32

feedback-IsWord : (v : ℕ) → feedback v < 2 ^ 32
feedback-IsWord v = ground arith

pub table_round-IsWord : (v : ℕ) → IsWord v → IsWord (table_round v)
table_round-IsWord v h = xor-lt 32 (v / 2) (feedback v) (omega arith) (feedback-IsWord v)

feedback-top : (v : ℕ) → feedback v / 2 ^ 31 ≡ v % 2
feedback-top v = ground (arith, feedback-odd v, feedback-even v)

-- The bit that leaves the register is the one that the feedback sets on top.
table_round-top : (v : ℕ) → IsWord v → table_round v / 2 ^ 31 ≡ v % 2
table_round-top v h =
    xor-shift 31 (v / 2) (feedback v)
    ∙ ap (λ t. bit_xor t (feedback v / 2 ^ 31)) (gone v h)
    ∙ zero-bit_xor (feedback v / 2 ^ 31)
    ∙ feedback-top v
  where
    gone : (v : ℕ) → v < 2 ^ 32 → v / 2 / 2 ^ 31 ≡ 0
    gone v h = omega arith

feedback_parity : (v w : ℕ) → v % 2 ≡ w % 2 → feedback v ≡ feedback w
feedback_parity v w e =
    ground (arith, feedback-odd v, feedback-even v, feedback-odd w, feedback-even w)

-- No two words have the same next word.
table_round-injective : (v w : ℕ) → IsWord v → IsWord w → table_round v ≡ table_round w → v ≡ w
table_round-injective v w hv hw e = whole v w halves parity
  where
    parity : v % 2 ≡ w % 2
    parity = sym (table_round-top v hv) ∙ ap (λ t. t / 2 ^ 31) e ∙ table_round-top w hw

    halves : v / 2 ≡ w / 2
    halves = xor_cancel_left (feedback v) (v / 2) (w / 2) (
        xor_comm (feedback v) (v / 2)
        ∙ e
        ∙ ap (bit_xor (w / 2)) (sym (feedback_parity v w parity))
        ∙ xor_comm (w / 2) (feedback v))

    whole : (v w : ℕ) → v / 2 ≡ w / 2 → v % 2 ≡ w % 2 → v ≡ w
    whole v w h p = omega arith

rounds-IsWord : (n v : ℕ) → IsWord v → IsWord (rounds n v)
unfolding rounds
rounds-IsWord zero v h = h
rounds-IsWord (suc n) v h = rounds-IsWord n (table_round v) (table_round-IsWord v h)

rounds-injective : (n v w : ℕ) → IsWord v → IsWord w → rounds n v ≡ rounds n w → v ≡ w
unfolding rounds
rounds-injective zero v w hv hw e = e
rounds-injective (suc n) v w hv hw e = table_round-injective v w hv hw (
    rounds-injective n (table_round v) (table_round w) (table_round-IsWord v hv)
      (table_round-IsWord w hw) e)

xor-IsWord : (crc b : ℕ) → IsWord crc → IsByte b → IsWord (bit_xor crc b)
xor-IsWord crc b hc hb = xor-lt 32 crc b hc (omega arith)

shift_in-IsWord : (crc b : ℕ) → IsWord crc → IsByte b → IsWord (shift_in crc b)
unfolding shift_in
shift_in-IsWord crc b hc hb = rounds-IsWord 8 (bit_xor crc b) (xor-IsWord crc b hc hb)

pub bitwise-IsWord :
    (crc : ℕ) (bs : Bytes) → IsWord crc → All IsByte bs → IsWord (crc32_bitwise crc bs)
unfolding crc32_bitwise
bitwise-IsWord crc [] hc h = hc
bitwise-IsWord crc (b ∷ bs) hc (hb, hs) =
    bitwise-IsWord (shift_in crc b) bs (shift_in-IsWord crc b hc hb) hs

shift_in-injective :
    (c d b : ℕ) → IsWord c → IsWord d → IsByte b → shift_in c b ≡ shift_in d b → c ≡ d
unfolding shift_in
shift_in-injective c d b hc hd hb e = xor_cancel_left b c d (
    xor_comm b c
    ∙ rounds-injective 8 (bit_xor c b) (bit_xor d b) (xor-IsWord c b hc hb) (xor-IsWord d b hd hb) e
    ∙ xor_comm d b)

-- Different registers stay different over the same bytes.
pub bitwise-injective :
    (bs : Bytes) (c d : ℕ)
    → IsWord c
    → IsWord d
    → All IsByte bs
    → crc32_bitwise c bs ≡ crc32_bitwise d bs
    → c ≡ d
unfolding crc32_bitwise
bitwise-injective [] c d hc hd h e = e
bitwise-injective (b ∷ bs) c d hc hd (hb, hs) e = shift_in-injective c d b hc hd hb (
    bitwise-injective bs (shift_in c b) (shift_in d b) (shift_in-IsWord c b hc hb)
      (shift_in-IsWord d b hd hb) hs e)

bitwise-append :
    (xs ys : Bytes) (crc : ℕ)
    → crc32_bitwise crc (xs ++ ys) ≡ crc32_bitwise (crc32_bitwise crc xs) ys
unfolding crc32_bitwise
bitwise-append [] ys crc = refl
bitwise-append (x ∷ xs) ys crc = bitwise-append xs ys (shift_in crc x)

rounds-add : (n m k v : ℕ) → m + n ≡ k → rounds n (rounds m v) ≡ rounds k v
unfolding rounds
rounds-add n zero k v e = ap (λ t. rounds t v) (same_count n k e)
  where
    same_count : (n k : ℕ) → zero + n ≡ k → n ≡ k
    same_count n k e = omega arith
rounds-add n (suc m) zero v e = absurd (omega arith)
rounds-add n (suc m) (suc k) v e = rounds-add n m k (table_round v) (omega arith)

-- A run of bytes goes into the register as one number.
bitwise-run :
    (bs : Bytes) (crc : ℕ)
    → All IsByte bs
    → crc32_bitwise crc bs ≡ rounds (8 * length bs) (bit_xor crc (le_value bs))
unfolding crc32_bitwise le_value rounds shift_in
bitwise-run [] crc h = sym (xor_zero crc)
bitwise-run (b ∷ bs) crc (hb, hs) =
    bitwise-run bs (shift_in crc b) hs
    ∙ ap (rounds (8 * length bs)) (join b (le_value bs) crc hb)
    ∙ rounds-add (8 * length bs) 8 (8 * suc (length bs)) _ (omega arith)
  where
    join :
        (b l crc : ℕ) → IsByte b → bit_xor (shift_in crc b) l ≡ rounds 8 (bit_xor crc (b + 256 * l))
    join b l crc hb =
        ap (bit_xor (shift_in crc b)) (sym (rounds-high 8 l))
        ∙ sym (rounds-xor 8 (bit_xor crc b) (l * 256))
        ∙ ap (rounds 8) (xor_assoc crc b (l * 256) ∙ ap (bit_xor crc) (xor_byte b l hb ∙ swap b l))
      where
        swap : (b l : ℕ) → b + l * 256 ≡ b + 256 * l
        swap b l = omega arith

le_value-IsWord : (bs : Bytes) → All IsByte bs → length bs ≤ 4 → IsWord (le_value bs)
le_value-IsWord bs h short = below (length bs) (le_value bs) short (le_value_bound bs h)
  where
    below : (n v : ℕ) → n ≤ 4 → v < 256 ^ n → v < 2 ^ 32
    below zero v p q = omega arith
    below (suc zero) v p q = omega arith
    below (suc (suc zero)) v p q = omega arith
    below (suc (suc (suc zero))) v p q = omega arith
    below (suc (suc (suc (suc zero)))) v p q = omega arith
    below (suc (suc (suc (suc (suc n))))) v p q = absurd (omega arith)

-- Runs of at most four bytes that leave one register are the same.
pub run-injective :
    (xs ys : Bytes) (crc : ℕ)
    → IsWord crc
    → All IsByte xs
    → All IsByte ys
    → length xs ≤ 4
    → length xs ≡ length ys
    → crc32_bitwise crc xs ≡ crc32_bitwise crc ys
    → xs ≡ ys
run-injective xs ys crc hc hx hy short l e = le_value-injective xs ys hx hy l (
    xor_cancel_left crc (le_value xs) (le_value ys) (
      rounds-injective (8 * length xs) _ _ (joined xs hx short)
        (joined ys hy (subst (λ n. n ≤ 4) l short))
        (sym (bitwise-run xs crc hx)
          ∙ e
          ∙ bitwise-run ys crc hy
          ∙ ap (λ n. rounds (8 * n) (bit_xor crc (le_value ys))) (sym l))))
  where
    joined : (bs : Bytes) → All IsByte bs → length bs ≤ 4 → IsWord (bit_xor crc (le_value bs))
    joined bs h short = xor-lt 32 crc (le_value bs) hc (le_value-IsWord bs h short)

-- The CRC tells apart any two messages that differ within four bytes in a row.
pub crc32_update_burst :
    (front xs ys back : Bytes) (crc : ℕ)
    → IsWord crc
    → All IsByte front
    → All IsByte xs
    → All IsByte ys
    → All IsByte back
    → length xs ≤ 4
    → length xs ≡ length ys
    → crc32_update crc (front ++ (xs ++ back)) ≡ crc32_update crc (front ++ (ys ++ back))
    → xs ≡ ys
crc32_update_burst front xs ys back crc hc hf hx hy hb short l e =
    run-injective xs ys (crc32_bitwise crc front) hc' hx hy short l (
      bitwise-injective back _ _ (bitwise-IsWord _ xs hc' hx) (bitwise-IsWord _ ys hc' hy) hb
        (sym (parts xs hx) ∙ e ∙ parts ys hy))
  where
    hc' : IsWord (crc32_bitwise crc front)
    hc' = bitwise-IsWord crc front hc hf

    parts :
        (xs : Bytes)
        → All IsByte xs
        → crc32_update crc (front ++ (xs ++ back))
          ≡ crc32_bitwise (crc32_bitwise (crc32_bitwise crc front) xs) back
    parts xs hx =
        crc32_update-bitwise crc _ (All-append IsByte front _ hf (All-append IsByte xs back hx hb))
        ∙ bitwise-append front (xs ++ back) crc
        ∙ bitwise-append xs back (crc32_bitwise crc front)
