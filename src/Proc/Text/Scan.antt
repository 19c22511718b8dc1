-- ===== src/Proc/Text/Scan.antt =====
-- Scanning a text of which the front is known.
use arthur.Base.{ℕ, ◌≡◌, refl, ap, ◌∙◌, arith, Bool, true, false, if_true, if_false}
use arthur.Base.{Bool-cases, inl, inr, [], ◌∷◌, ◌++◌, Bytes, All}
use arthur.Proc.Text.{span, drop_while}

-- Every byte passes the test.
abbrev pub Passes : (ℕ → Bool) → Bytes → Type 0
Passes p s = All (λ c. p c ≡ true) s

-- A text whose first byte, if it has one, fails the test.
abbrev pub StopsAt : (ℕ → Bool) → Bytes → Type 0
StopsAt p [] = Unit {0}
StopsAt p (c ∷ s) = p c ≡ false

pub span-append :
    (p : ℕ → Bool) (xs rest : Bytes)
    → Passes p xs
    → StopsAt p rest
    → span p (xs ++ rest) ≡ (xs, rest)
unfolding span
span-append p [] [] h k = refl
span-append p [] (c ∷ rest) h k = if_false _ _ k
span-append p (x ∷ xs) rest (hx, h) k =
    if_true _ _ hx ∙ ap (λ r. (x ∷ r.0, r.1)) (span-append p xs rest h k)

pub drop_while-append :
    (p : ℕ → Bool) (xs rest : Bytes)
    → Passes p xs
    → StopsAt p rest
    → drop_while p (xs ++ rest) ≡ rest
unfolding drop_while
drop_while-append p [] [] h k = refl
drop_while-append p [] (c ∷ rest) h k = if_false _ _ k
drop_while-append p (x ∷ xs) rest (hx, h) k = if_true _ _ hx ∙ drop_while-append p xs rest h k

abbrev joined : Bytes × Bytes → Bytes
joined (xs, rest) = xs ++ rest

-- The two parts of a scan make up what was scanned, the first passes, and the second stops there.
pub span-split : (p : ℕ → Bool) (s : Bytes) → (span p s).0 ++ (span p s).1 ≡ s
unfolding span
span-split p [] = refl
span-split p (c ∷ s) = elim (Bool-cases (p c)) [
  | inl e ↦ ap joined (if_true _ _ e) ∙ ap (◌∷◌ c) (span-split p s)
  | inr e ↦ ap joined (if_false _ _ e)
]

pub span-Passes : (p : ℕ → Bool) (s : Bytes) → Passes p (span p s).0
unfolding span
span-Passes p [] = tt
span-Passes p (c ∷ s) = ground (arith, span-Passes p s)

pub span-StopsAt : (p : ℕ → Bool) (s : Bytes) → StopsAt p (span p s).1
unfolding span
span-StopsAt p [] = tt
span-StopsAt p (c ∷ s) = ground (arith, span-StopsAt p s)
