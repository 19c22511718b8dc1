-- ===== src/Core/Output/Undisturbed.antt =====
-- What the calls leave at the two names where no other process interferes.
use arthur.Base.{◌≡◌, refl, ap, ◌∙◌}
use arthur.Base.{Option, none, some, List, [], ◌∷◌, All}
use arthur.Base.Results.{Result, ok, err, and_then}
use arthur.Core.Output.Calls.{
  Entry, Turn, World, path_after, turn_of, next_turn, exchange, swap_names, rename_noreplace,
  move_name, link, copy_name, unlink_temp, remove_name,
}

-- The others leave the final path alone.
abbrev pub IsQuiet : Turn → Type 0
IsQuiet t = t.moved ≡ none

pub record IsAt (temp final : Option Entry) (w : World) : Type 0 where
  pub temp_is : w.temp ≡ temp
  pub final_is : w.final ≡ final
  pub quiet : All IsQuiet w.turns

-- What a call leaves that succeeded, and that failed.
abbrev pub Leaves {ℓ} :
    {A : Type ℓ} → (World → Type 0) → (World → Type 0) → Result A × World → Type 0
Leaves P Q (ok a, w) = P w
Leaves P Q (err e, w) = Q w

module _ (t f : Option Entry) where
  pub turn_of-IsAt :
      (turns : List Turn) (w : World)
      → All IsQuiet turns
      → IsAt t f w
      → IsAt t f (turn_of turns w).1
  turn_of-IsAt [] w q h = h
  turn_of-IsAt (u ∷ turns) w (q, qs) h = record {
    temp_is = h.temp_is;
    final_is = ap (λ o. path_after o w.final) q ∙ h.final_is;
    quiet = qs;
  }

  pub next_turn-IsAt : (w : World) → IsAt t f w → IsAt t f (next_turn w).1
  unfolding next_turn
  next_turn-IsAt w h = turn_of-IsAt w.turns w h.quiet h

  -- A call that does one thing behind the turn of the others.
  pub then-Leaves :
      (c : World → Result (Unit {0}) × World) (Q : World → Type 0)
      → ((w : World) → IsAt t f w → Leaves Q (IsAt t f) (c w))
      → (p : Result (Unit {0}) × World) → IsAt t f p.1
      → Leaves Q (IsAt t f) (and_then p λ _ w'. c w')
  then-Leaves c Q k (ok u, w) h = k w h
  then-Leaves c Q k (err e, w) h = h

  pub swap_names-Leaves :
      (a b : Option Entry) (w : World)
      → a ≡ t
      → b ≡ f
      → IsAt t f w
      → Leaves (IsAt f t) (IsAt t f) (swap_names a b w)
  swap_names-Leaves none b w d e h = h
  swap_names-Leaves (some a) none w d e h = h
  swap_names-Leaves (some a) (some b) w d e h = record {
    temp_is = e;
    final_is = d;
    quiet = h.quiet;
  }

  pub move_name-Leaves :
      (a b : Option Entry) (w : World)
      → a ≡ t
      → IsAt t f w
      → Leaves (IsAt none t) (IsAt t f) (move_name a b w)
  move_name-Leaves none b w d h = h
  move_name-Leaves (some a) (some b) w d h = h
  move_name-Leaves (some a) none w d h = record { temp_is = refl; final_is = d; quiet = h.quiet }

  pub copy_name-Leaves :
      (a b : Option Entry) (w : World)
      → a ≡ t
      → IsAt t f w
      → Leaves (IsAt t t) (IsAt t f) (copy_name a b w)
  copy_name-Leaves none b w d h = h
  copy_name-Leaves (some a) (some b) w d h = h
  copy_name-Leaves (some a) none w d h = record {
    temp_is = h.temp_is;
    final_is = d;
    quiet = h.quiet;
  }

  pub remove_name-Leaves :
      (a : Option Entry) (w : World)
      → IsAt t f w
      → Leaves (IsAt none f) (IsAt t f) (remove_name a w)
  remove_name-Leaves none w h = h
  remove_name-Leaves (some a) w h = record {
    temp_is = refl;
    final_is = h.final_is;
    quiet = h.quiet;
  }

  pub exchange-Leaves : (w : World) → IsAt t f w → Leaves (IsAt f t) (IsAt t f) (exchange w)
  unfolding exchange
  exchange-Leaves w h =
      then-Leaves _ _ (λ w' k. swap_names-Leaves w'.temp w'.final w' k.temp_is k.final_is k)
        (next_turn w) (next_turn-IsAt w h)

  pub rename_noreplace-Leaves :
      (w : World) → IsAt t f w → Leaves (IsAt none t) (IsAt t f) (rename_noreplace w)
  unfolding rename_noreplace
  rename_noreplace-Leaves w h =
      then-Leaves _ _ (λ w' k. move_name-Leaves w'.temp w'.final w' k.temp_is k) (next_turn w)
        (next_turn-IsAt w h)

  pub link-Leaves : (w : World) → IsAt t f w → Leaves (IsAt t t) (IsAt t f) (link w)
  unfolding link
  link-Leaves w h =
      then-Leaves _ _ (λ w' k. copy_name-Leaves w'.temp w'.final w' k.temp_is k) (next_turn w)
        (next_turn-IsAt w h)

  pub unlink_temp-Leaves :
      (w : World) → IsAt t f w → Leaves (IsAt none f) (IsAt t f) (unlink_temp w)
  unfolding unlink_temp
  unlink_temp-Leaves w h =
      then-Leaves _ _ (λ w' k. remove_name-Leaves w'.temp w' k) (next_turn w) (next_turn-IsAt w h)
