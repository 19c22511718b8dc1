-- ===== src/Core/Output/Losses.antt =====
-- Which files a commit removes, while other processes change the final path.
use arthur.Base.{
  ◌≡◌, inl, inr, refl, sym, ap, ◌∙◌, Bool, true, false, not, ◌==◌, and_split, ==_iff, if◌then◌else◌,
}
use mathlib.Core.Path.{subst}
use arthur.Base.{Option, none, some, List, [], ◌∷◌, All}
use arthur.Base.Results.{Result, Error, ok, err, and_then, if-keep_known}
use arthur.Core.Output.Calls.{
  Entry, Turn, World, path_after, turn_of, next_turn, lstat_final, lstat_temp, exchange, swap_names,
  rename_noreplace, unlink_temp,
}
use arthur.Core.Output.{
  AtomicOutputState, is_initial, give_up, roll_back, inspect_error, displaced, exchanged,
  replace_existing, commit_atomic_path, commit_atomic_file,
}
use arthur.Core.Output.Safe.{
  Holds, Later, turn_of-Later, next_turn-Later, IsSafe, Removed, next_turn-IsSafe,
  unlink_temp-Removed, finish-Removed, rename_noreplace-IsSafe, renamed-Removed, Exchanged,
  exchange-Exchanged, moved_at, IsOwn,
}

-- The world behind a call in front of which the others leave the final path alone.
record Passed (w w' : World) : Type 0 where
  same_temp : w'.temp ≡ w.temp
  same_final : w'.final ≡ w.final
  same_removed : w'.removed ≡ w.removed
  later : Later w w'

path_after-none :
    (o : Option (Option Entry)) (final : Option Entry) → o ≡ none → path_after o final ≡ final
path_after-none o final e = ap (λ o. path_after o final) e

turn_of-Passed :
    (turns : List Turn) (w : World)
    → w.turns ≡ turns
    → moved_at 0 turns ≡ none
    → Passed w (turn_of turns w).1
turn_of-Passed [] w e h = record {
  same_temp = refl;
  same_final = refl;
  same_removed = refl;
  later = turn_of-Later [] w e;
}
turn_of-Passed (t ∷ turns) w e h = record {
  same_temp = refl;
  same_final = path_after-none t.moved w.final h;
  same_removed = refl;
  later = turn_of-Later (t ∷ turns) w e;
}

next_turn-Passed : (w : World) → moved_at 0 w.turns ≡ none → Passed w (next_turn w).1
unfolding next_turn
next_turn-Passed w h = turn_of-Passed w.turns w refl h

module _ (P : Entry → Type 0) where
  swap_names-Removed :
      (e : Error) (t f : Option Entry) (w : World)
      → Holds P f
      → Removed P w
      → Removed P (roll_back e (swap_names t f w)).1
  swap_names-Removed e none f w h k = k
  swap_names-Removed e (some t) none w h k = k
  swap_names-Removed e (some t) (some f) w h k =
      unlink_temp-Removed P (record w { temp = some f; final = some t })
        (record { temp_own = h; removed_own = k })

  roll_back-Removed :
      (e : Error) (w : World)
      → Holds P w.final
      → Removed P w
      → moved_at 0 w.turns ≡ none
      → Removed P (roll_back e (exchange w)).1
  unfolding exchange
  roll_back-Removed e w h k q = go (next_turn w) (next_turn-Passed w q)
    where
      go :
          (p : Result (Unit {0}) × World)
          → Passed w p.1
          → Removed P (roll_back e (and_then p λ _ w'. swap_names w'.temp w'.final w')).1
      go (ok u, w') v =
          swap_names-Removed e w'.temp w'.final w' (subst (Holds P) (sym v.same_final) h)
            (subst (All P) (sym v.same_removed) k)
      go (err f, w') v = subst (All P) (sym v.same_removed) k

  unless-Removed :
      (b : Bool) (p q : Result (Unit {0}) × World)
      → Removed P p.1
      → (b ≡ true → Removed P q.1)
      → Removed P (if not b then p else q).1
  unless-Removed true p q h k = k refl
  unless-Removed false p q h k = h

  module _ (state : AtomicOutputState)
      (own : (e : Entry) → is_initial state (ok (some e)) ≡ true → P e) where
    found-Removed :
        (found : Result (Option Entry)) (w : World)
        → (is_initial state found ≡ true → Holds P w.temp)
        → Holds P w.final
        → Removed P w
        → moved_at 0 w.turns ≡ none
        → Removed P (displaced state (found, w)).1
    found-Removed found w c h k q =
        unless-Removed (is_initial state found) _ _
          (roll_back-Removed (inspect_error found) w h k q)
          λ e.
            finish-Removed P (unlink_temp w)
              (unlink_temp-Removed P w (record { temp_own = c e; removed_own = k }))

    initial-Holds : (o : Option Entry) → is_initial state (ok o) ≡ true → Holds P o
    initial-Holds none h = tt
    initial-Holds (some e) h = own e h

    displaced-Removed :
        (w : World)
        → Holds P w.final
        → Removed P w
        → moved_at 0 w.turns ≡ none
        → moved_at 1 w.turns ≡ none
        → Removed P (displaced state (lstat_temp w)).1
    unfolding lstat_temp
    displaced-Removed w h k q₀ q₁ = go (next_turn w) (next_turn-Passed w q₀)
      where
        go :
            (p : Result (Unit {0}) × World)
            → Passed w p.1
            → Removed P (displaced state (and_then p λ _ w'. (ok w'.temp, w'))).1
        go (ok u, w') v =
            found-Removed (ok w'.temp) w' (initial-Holds w'.temp)
              (subst (Holds P) (sym v.same_final) h) (subst (All P) (sym v.same_removed) k)
              (v.later 0 ∙ q₁)
        go (err e, w') v =
            found-Removed (err e) w' (λ e. cc) (subst (Holds P) (sym v.same_final) h)
              (subst (All P) (sym v.same_removed) k) (v.later 0 ∙ q₁)

    exchanged-Removed :
        (w₀ : World) (p : Result (Unit {0}) × World)
        → Exchanged P w₀ p
        → moved_at 1 w₀.turns ≡ none
        → moved_at 2 w₀.turns ≡ none
        → Removed P (exchanged state p).1
    exchanged-Removed w₀ (ok u, w) (h, k, l) q₁ q₂ = displaced-Removed w h k (l 0 ∙ q₁) (l 1 ∙ q₂)
    exchanged-Removed w₀ (err e, w) h q₁ q₂ = unlink_temp-Removed P w h

    replace_existing-Removed :
        (w : World)
        → IsSafe P w
        → moved_at 2 w.turns ≡ none
        → moved_at 3 w.turns ≡ none
        → Removed P (replace_existing state w).1
    unfolding replace_existing lstat_final
    replace_existing-Removed w h q₂ q₃ =
        go (next_turn w) (next_turn-IsSafe P w h) (next_turn-Later w)
      where
        rest :
            (found : Result (Option Entry)) (w' : World)
            → IsSafe P w'
            → Later w w'
            → Removed P
                (if not (is_initial state found)
                  then give_up Error.ebusy w'
                  else exchanged state (exchange w')).1
        rest found w' v l =
            unless-Removed (is_initial state found) _ _ (unlink_temp-Removed P w' v) λ e.
              exchanged-Removed w' (exchange w') (exchange-Exchanged P w' v) (l 1 ∙ q₂) (l 2 ∙ q₃)

        go :
            (p : Result (Unit {0}) × World)
            → IsSafe P p.1
            → Later w p.1
            → let (found, w') = and_then p λ _ w'. (ok w'.final, w') in
              Removed P
                (if not (is_initial state found)
                  then give_up Error.ebusy w'
                  else exchanged state (exchange w')).1
        go (ok u, w') v l = rest (ok w'.final) w' v l
        go (err e, w') v l = rest (err e) w' v l

  commit_atomic_file-Removed :
      (flushed : Bool) (state : AtomicOutputState)
      → (state.replace_existing ≡ true → (e : Entry) → is_initial state (ok (some e)) ≡ true → P e)
      → (w : World) → IsSafe P w
      → moved_at 2 w.turns ≡ none
      → moved_at 3 w.turns ≡ none
      → Removed P (commit_atomic_file flushed state w).1
  unfolding commit_atomic_file commit_atomic_path
  commit_atomic_file-Removed flushed state own w h q₂ q₃ =
      unless-Removed flushed _ _ (unlink_temp-Removed P w h) λ e.
        if-keep_known (Removed P) state.replace_existing _ _
          (λ r. replace_existing-Removed state (own r) w h q₂ q₃)
          (λ r. renamed-Removed P (rename_noreplace w) (rename_noreplace-IsSafe P w h))

-- The temporary file and the one found at the start.
is_initial-IsOwn :
    (t : Entry) (state : AtomicOutputState) (e : Entry)
    → state.replace_existing ≡ true
    → is_initial state (ok (some e)) ≡ true
    → IsOwn t state e
is_initial-IsOwn t state e r h =
    let same = and_split {a = e.device == state.initial_device} (and_split {a = e.regular} h).1 in
    inr (
      r,
      (==_iff e.device state.initial_device).0 same.0,
      (==_iff e.inode state.initial_inode).0 same.1,
    )

-- Whatever the other processes do to the final path, and whatever calls are refused: a commit removes
-- only the temporary file and, where it replaces, the file of the initial device and inode, if no
-- other process changes the final path between the first exchange of names and the second. The turns
-- 2 and 3 stand in front of the inspection of the displaced file and the second exchange; the
-- temporary file is there, and nothing was removed before.
pub commit_atomic_file-IsOwn :
    (flushed : Bool) (state : AtomicOutputState) (w : World) (t : Entry)
    → w.temp ≡ some t
    → w.removed ≡ []
    → moved_at 2 w.turns ≡ none
    → moved_at 3 w.turns ≡ none
    → All (IsOwn t state) (commit_atomic_file flushed state w).1.removed
commit_atomic_file-IsOwn flushed state w t h k =
    commit_atomic_file-Removed (IsOwn t state) flushed state (λ r e. is_initial-IsOwn t state e r) w
      (record {
        temp_own = subst (Holds (IsOwn t state)) (sym h) (inl refl);
        removed_own = subst (All (IsOwn t state)) (sym k) tt;
      })
