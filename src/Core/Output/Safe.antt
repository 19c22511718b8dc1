-- ===== src/Core/Output/Safe.antt =====
-- What the calls leave of a world in which only some files may be removed.
use arthur.Base.{ℕ, suc, zero, ◌≡◌, ◌⊎◌, refl, sym, ap, ◌∙◌, true}
use arthur.Base.{Option, none, some, List, [], ◌∷◌, All, All-append}
use arthur.Base.Results.{Result, ok, err, and_then, and_then-keep, if-keep}
use arthur.Core.Output.Calls.{
  Entry, Turn, World, turn_of, next_turn, exchange, swap_names, rename_noreplace, move_name, link,
  copy_name, unlink_temp, remove_name, sync_directory,
}
use arthur.Core.Output.{AtomicOutputState, finish, linked, is_unsupported, renamed}

-- How others move the final path in front of the call of a number.
abbrev pub moved_at : ℕ → List Turn → Option (Option Entry)
moved_at n [] = none
moved_at zero (t ∷ turns) = t.moved
moved_at (suc n) (t ∷ turns) = moved_at n turns

-- The file at the start, or the temporary one.
abbrev pub IsOwn : Entry → AtomicOutputState → Entry → Type 0
IsOwn t state e =
    (e ≡ t)
    ⊎ ((state.replace_existing ≡ true)
        × (e.device ≡ state.initial_device)
        × (e.inode ≡ state.initial_inode))

-- A name that stands for nothing, or for a file that `P` holds of.
abbrev pub Holds : (Entry → Type 0) → Option Entry → Type 0
Holds P none = Unit {0}
Holds P (some e) = P e

-- A turn less is to come.
abbrev pub Later : World → World → Type 0
Later w w' = (n : ℕ) → moved_at n w'.turns ≡ moved_at (suc n) w.turns

pub turn_of-Later : (turns : List Turn) (w : World) → w.turns ≡ turns → Later w (turn_of turns w).1
turn_of-Later [] w e n = ap (moved_at n) e ∙ sym (ap (moved_at (suc n)) e)
turn_of-Later (t ∷ turns) w e n = sym (ap (moved_at (suc n)) e)

pub next_turn-Later : (w : World) → Later w (next_turn w).1
unfolding next_turn
next_turn-Later w = turn_of-Later w.turns w refl

module _ (P : Entry → Type 0) where
  -- What may be removed: the temporary name, and what was removed before.
  pub record IsSafe (w : World) : Type 0 where
    pub temp_own : Holds P w.temp
    pub removed_own : All P w.removed

  -- Whatever stands at the temporary name.
  abbrev pub Removed : World → Type 0
  Removed w = All P w.removed

  pub turn_of-IsSafe : (turns : List Turn) (w : World) → IsSafe w → IsSafe (turn_of turns w).1
  turn_of-IsSafe [] w h = h
  turn_of-IsSafe (t ∷ turns) w h = record { temp_own = h.temp_own; removed_own = h.removed_own }

  pub next_turn-IsSafe : (w : World) → IsSafe w → IsSafe (next_turn w).1
  unfolding next_turn
  next_turn-IsSafe w h = turn_of-IsSafe w.turns w h

  pub turn_of-Removed : (turns : List Turn) (w : World) → Removed w → Removed (turn_of turns w).1
  turn_of-Removed [] w h = h
  turn_of-Removed (t ∷ turns) w h = h

  pub sync_directory-Removed : (w : World) → Removed w → Removed (sync_directory w).1
  unfolding sync_directory next_turn
  sync_directory-Removed w h = turn_of-Removed w.turns w h

  pub remove_name-Removed :
      (o : Option Entry) (w : World) → Holds P o → Removed w → Removed (remove_name o w).1
  remove_name-Removed none w h k = k
  remove_name-Removed (some t) w h k = All-append P w.removed (t ∷ []) k (h, tt)

  pub unlink_temp-Removed : (w : World) → IsSafe w → Removed (unlink_temp w).1
  unfolding unlink_temp
  unlink_temp-Removed w h = go (next_turn w) (next_turn-IsSafe w h)
    where
      go :
          (p : Result (Unit {0}) × World)
          → IsSafe p.1
          → Removed (and_then p λ _ w'. remove_name w'.temp w').1
      go (ok u, w') h = remove_name-Removed w'.temp w' h.temp_own h.removed_own
      go (err e, w') h = h.removed_own

  pub finish-Removed : (p : Result (Unit {0}) × World) → Removed p.1 → Removed (finish p).1
  finish-Removed (ok u, w) h = sync_directory-Removed w h
  finish-Removed (err e, w) h = sync_directory-Removed w h

  pub linked-Removed : (p : Result (Unit {0}) × World) → IsSafe p.1 → Removed (linked p).1
  linked-Removed (ok u, w) h = finish-Removed (unlink_temp w) (unlink_temp-Removed w h)
  linked-Removed (err e, w) h = unlink_temp-Removed w h

  pub move_name-IsSafe : (t f : Option Entry) (w : World) → IsSafe w → IsSafe (move_name t f w).1
  move_name-IsSafe none f w h = h
  move_name-IsSafe (some t) (some f) w h = h
  move_name-IsSafe (some t) none w h = record { temp_own = tt; removed_own = h.removed_own }

  pub copy_name-IsSafe : (t f : Option Entry) (w : World) → IsSafe w → IsSafe (copy_name t f w).1
  copy_name-IsSafe none f w h = h
  copy_name-IsSafe (some t) (some f) w h = h
  copy_name-IsSafe (some t) none w h = record { temp_own = h.temp_own; removed_own = h.removed_own }

  pub rename_noreplace-IsSafe : (w : World) → IsSafe w → IsSafe (rename_noreplace w).1
  unfolding rename_noreplace
  rename_noreplace-IsSafe w h =
      and_then-keep IsSafe (next_turn w) _ (next_turn-IsSafe w h)
        (λ _ w' h'. move_name-IsSafe w'.temp w'.final w' h')

  pub link-IsSafe : (w : World) → IsSafe w → IsSafe (link w).1
  unfolding link
  link-IsSafe w h =
      and_then-keep IsSafe (next_turn w) _ (next_turn-IsSafe w h)
        (λ _ w' h'. copy_name-IsSafe w'.temp w'.final w' h')

  pub renamed-Removed : (p : Result (Unit {0}) × World) → IsSafe p.1 → Removed (renamed p).1
  renamed-Removed (ok u, w) h = sync_directory-Removed w h.removed_own
  renamed-Removed (err e, w) h =
      if-keep Removed (is_unsupported e) _ _ (linked-Removed (link w) (link-IsSafe w h))
        (unlink_temp-Removed w h)

  -- An exchange of names puts a file that may be removed at the final path, or does nothing.
  abbrev pub Exchanged : World → Result (Unit {0}) × World → Type 0
  Exchanged w (ok u, w') = Holds P w'.final × Removed w' × Later w w'
  Exchanged w (err e, w') = IsSafe w'

  pub swap_names-Exchanged :
      (w₀ : World) (t f : Option Entry) (w : World)
      → Later w₀ w
      → Holds P t
      → IsSafe w
      → Exchanged w₀ (swap_names t f w)
  swap_names-Exchanged w₀ none f w l k h = h
  swap_names-Exchanged w₀ (some t) none w l k h = h
  swap_names-Exchanged w₀ (some t) (some f) w l k h = (k, h.removed_own, l)

  pub exchange-Exchanged : (w : World) → IsSafe w → Exchanged w (exchange w)
  unfolding exchange
  exchange-Exchanged w h = go (next_turn w) (next_turn-IsSafe w h) (next_turn-Later w)
    where
      go :
          (p : Result (Unit {0}) × World)
          → IsSafe p.1
          → Later w p.1
          → Exchanged w (and_then p λ _ w'. swap_names w'.temp w'.final w')
      go (ok u, w') v l = swap_names-Exchanged w w'.temp w'.final w' l v.temp_own v
      go (err e, w') v l = v
