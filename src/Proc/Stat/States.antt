-- ===== src/Proc/Stat/States.antt =====
-- The ordinals that the kernel gives to the states of a task (the `switch` of `ProcStat::Parse` in
-- src/proc.cc).
use arthur.Base.{
  ℕ, ◌≡◌, sym, ◌∙◌, Bool-cases, inl, inr, ◌⊎◌, if_true, if_false, if◌then◌else◌, ◌==◌, ==_iff,
}
use arthur.Base.{Option, none, some, List, [], ◌∷◌}
use arthur.Proc.Stat.{state_of}

-- `task_state_array` in its order, and three letters of older kernels.
abbrev pub task_states : List (ℕ × ℕ)
task_states =
    (b'R', 0)
    ∷ (b'S', 1)
    ∷ (b'D', 2)
    ∷ (b'T', 3)
    ∷ (b't', 4)
    ∷ (b'X', 5)
    ∷ (b'Z', 6)
    ∷ (b'P', 7)
    ∷ (b'I', 8)
    ∷ (b'x', 5)
    ∷ (b'K', 2)
    ∷ (b'W', 0)
    ∷ []

-- The letter and the ordinal are a row of the table.
abbrev pub IsRow : ℕ → ℕ → List (ℕ × ℕ) → Type 0
IsRow c n [] = ⊥
IsRow c n ((letter, ordinal) ∷ table) = ((c ≡ letter) × (n ≡ ordinal)) ⊎ IsRow c n table

abbrev first_row : ℕ → List (ℕ × ℕ) → Option ℕ
first_row c [] = none
first_row c ((letter, ordinal) ∷ table) =
    let rest = first_row c table in if c == letter then some ordinal else rest

first_row-IsRow : (c n : ℕ) (table : List (ℕ × ℕ)) → first_row c table ≡ some n → IsRow c n table
first_row-IsRow c n [] h = cc
first_row-IsRow c n ((letter, ordinal) ∷ table) h = elim (Bool-cases (c == letter)) [
  | inl e ↦ inl ((==_iff c letter).0 e, same (sym (if_true _ _ e) ∙ h))
  | inr e ↦ inr (first_row-IsRow c n table (sym (if_false _ _ e) ∙ h))
]
  where
    same : some ordinal ≡ some n → n ≡ ordinal
    same q = cc

pub state_of-IsRow : (c n : ℕ) → state_of c ≡ some n → IsRow c n task_states
unfolding state_of
state_of-IsRow c n h = first_row-IsRow c n task_states h
