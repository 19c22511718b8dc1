-- ===== src/Proc/Read/Loop.antt =====
-- What the loop of `ReadPath` reads, and that it ends.
use arthur.Base.{
  ℕ, zero, suc, ◌+◌, ◌-◌, ◌≡◌, ◌≤◌, ◌<◌, refl, sym, ap, ◌∙◌, arith, Bool, true, false, Bool-cases,
  inl, inr, if_true, if_false, ltb, leb, ◌==◌, min,
}
use arthur.Base.{
  List, [], ◌∷◌, ◌++◌, append-nil, append_assoc, Bytes, length, take, drop, length-append,
  length-take, length-drop, take_all, take-append-drop, leb→le,
}
use mathlib.Core.Path.{ap₂}
use arthur.Base.Results.{Result, ok}
use arthur.Proc.Read.{
  Answer, gives, interrupted, fails, bytes, read, probe, with_data, read_round, read_loop,
}

-- Answers without a failure, of which only the last is empty.
abbrev pub IsReadable : List Answer → Type 0
IsReadable [] = Unit {0}
IsReadable (gives s ∷ answers) = (0 < length s) × IsReadable answers
IsReadable (interrupted ∷ answers) = IsReadable answers
IsReadable (fails ∷ answers) = 1 ≤ 0

-- The contents of the file, when the answers are given.
abbrev pub content_of : List Answer → Bytes
content_of [] = []
content_of (gives s ∷ answers) = s ++ content_of answers
content_of (interrupted ∷ answers) = content_of answers
content_of (fails ∷ answers) = []

-- Whether any byte is left.
probe-content_of :
    (answers : List Answer)
    → IsReadable answers
    → probe answers ≡ ok (ltb 0 (length (content_of answers)))
unfolding probe
probe-content_of [] h = refl
probe-content_of (gives [] ∷ answers) (h, hs) = absurd (omega (arith, h))
probe-content_of (gives (c ∷ s) ∷ answers) (h, hs) =
    ap ok (positive (length (s ++ content_of answers)))
  where
    positive : (n : ℕ) → true ≡ ltb 0 (suc n)
    positive n = ground arith
probe-content_of (interrupted ∷ answers) h = probe-content_of answers h
probe-content_of (fails ∷ answers) h = absurd (omega (arith, h))

-- What the loop gives behind the bytes `s`, when so much room is left.
abbrev expected : ℕ → Bytes → Bytes → Result (Bytes × Bool)
expected left s content = ok (s ++ take left content, ltb left (length content))

take-append_long :
    (n : ℕ) (xs ys : Bytes) → length xs ≤ n → take n (xs ++ ys) ≡ xs ++ take (n - length xs) ys
take-append_long n [] ys h = ap (λ n. take n ys) (minus_zero n)
  where
    minus_zero : (n : ℕ) → n ≡ n - 0
    minus_zero n = omega arith
take-append_long zero (x ∷ xs) ys h = absurd (omega (arith, h))
take-append_long (suc n) (x ∷ xs) ys h =
    ap (◌∷◌ x)
      (take-append_long n xs ys (omega arith) ∙ ap (λ k. xs ++ take k ys) (suc_minus n (length xs)))
  where
    suc_minus : (n k : ℕ) → n - k ≡ suc n - suc k
    suc_minus n k = omega arith

-- Bytes that were read move from the room to what has been read.
expected-append :
    (left : ℕ) (s got content : Bytes)
    → length got ≤ left
    → expected (left - length got) (s ++ got) content ≡ expected left s (got ++ content)
expected-append left s got content h =
    ap₂ (λ (t : Bytes) (b : Bool). ok (t, b))
      (append_assoc s got (take (left - length got) content)
        ∙ ap (λ t. s ++ t) (sym (take-append_long left got content h)))
      (longer (length got) (length content) h ∙ ap (ltb left) (sym (length-append got content)))
  where
    longer : (k n : ℕ) → k ≤ left → ltb (left - k) n ≡ ltb left (k + n)
    longer k n h = ground arith

pub suc-ne-zero : (n : ℕ) → (suc n == 0) ≡ false
suc-ne-zero n = ground arith

module _ (fuel : ℕ) where
  -- The loop is right from here on, where it has fewer rounds to do.
  abbrev Rounds : Type 0
  Rounds =
      (left : ℕ) (s : Bytes) (answers : List Answer)
      → IsReadable answers
      → left + length answers < fuel
      → read_loop fuel left s answers ≡ expected left s (content_of answers)

  bytes_round :
      Rounds
      → (left : ℕ) (s got : Bytes) (answers : List Answer) → 0 < length got
      → length got ≤ left
      → IsReadable answers
      → left + length answers < suc (fuel)
      → read_round (read_loop fuel) left s (bytes got, answers)
        ≡ expected left s (got ++ content_of answers)
  unfolding read_round
  bytes_round ih left s [] answers h k r m = absurd (omega (arith, h))
  bytes_round ih left s (c ∷ t) answers h k r m =
      ih (left - length (c ∷ t)) (s ++ (c ∷ t)) answers r (omega arith)
      ∙ expected-append left s (c ∷ t) (content_of answers) k

  gives_round :
      Rounds
      → (left : ℕ) (s t : Bytes) (answers : List Answer) → 0 < left
      → 0 < length t
      → IsReadable answers
      → left + suc (length answers) < suc fuel
      → read_round (read_loop fuel) left s (read (min 4096 left) (gives t ∷ answers))
        ≡ expected left s (t ++ content_of answers)
  unfolding read
  gives_round ih left s t answers h k r m = elim (Bool-cases (leb (length t) n)) [
    | inl all_fits ↦
        ap (λ rest. read_round (read_loop fuel) left s (bytes (take n t), rest))
          (if_true _ _ all_fits)
        ∙ bytes_round ih left s (take n t) answers (omega (arith, length-take n t, k, h))
            (omega (arith, length-take n t)) r (omega (arith, m))
        ∙ ap (λ got. expected left s (got ++ content_of answers))
            (take_all n t (leb→le (length t) n all_fits))
    | inr too_long ↦
        ap (λ rest. read_round (read_loop fuel) left s (bytes (take n t), rest))
          (if_false _ _ too_long)
        ∙ bytes_round ih left s (take n t) (gives (drop n t) ∷ answers)
            (omega (arith, length-take n t, k, h)) (omega (arith, length-take n t))
            (left_over (length t) too_long (length (drop n t)) (length-drop n t), r)
            (omega (arith, m))
        ∙ ap (expected left s) (
            sym (append_assoc (take n t) (drop n t) (content_of answers))
            ∙ ap (λ t. t ++ content_of answers) (take-append-drop n t))
  ]
    where
      n : ℕ
      n = min 4096 left

      left_over : (m : ℕ) → leb m n ≡ false → (d : ℕ) → d ≡ m - n → 0 < d
      left_over m e d q = ground arith

-- Where no read fails, the loop reads the contents as far as the room goes, however the kernel cuts them
-- and whenever it interrupts, and tells whether they go on; more rounds than bytes of room and answers
-- are enough.
pub read_loop-content_of :
    (fuel left : ℕ) (s : Bytes) (answers : List Answer)
    → IsReadable answers
    → left + length answers < fuel
    → read_loop fuel left s answers ≡ expected left s (content_of answers)
unfolding read_loop read_round read
read_loop-content_of zero left s answers r m = absurd (omega arith)
read_loop-content_of (suc fuel) zero s answers r m =
    ap (with_data s) (probe-content_of answers r)
    ∙ ap (λ t. ok (t, ltb 0 (length (content_of answers)))) (sym (append-nil s))
read_loop-content_of (suc fuel) (suc left) s [] r m =
    if_false _ _ (suc-ne-zero left)
    ∙ ap₂ (λ (t : Bytes) (b : Bool). ok (t, b)) (sym (append-nil s)) (never_less (suc left))
  where
    never_less : (n : ℕ) → false ≡ ltb n 0
    never_less n = ground arith
read_loop-content_of (suc fuel) (suc left) s (gives t ∷ answers) (h, r) m =
    if_false _ _ (suc-ne-zero left)
    ∙ gives_round fuel (λ left s answers r m. read_loop-content_of fuel left s answers r m)
        (suc left) s t answers (omega arith) h r m
read_loop-content_of (suc fuel) (suc left) s (interrupted ∷ answers) r m =
    if_false _ _ (suc-ne-zero left)
    ∙ read_loop-content_of fuel (suc left) s answers r (omega (arith, m))
read_loop-content_of (suc fuel) (suc left) s (fails ∷ answers) r m = absurd (omega (arith, r))
