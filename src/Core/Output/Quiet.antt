-- ===== src/Core/Output/Quiet.antt =====
-- What a commit leaves at the two names where no other process interferes.
use arthur.Base.{◌≡◌, ◌⊎◌, inl, inr, refl, Bool, true, false, not, if◌then◌else◌}
use arthur.Base.{Option, none, All}
use arthur.Base.Results.{Result, Error, ok, err, and_then-keep}
use arthur.Core.Output.Calls.{
  Entry, World, next_turn, lstat_final, lstat_temp, exchange, rename_noreplace, link, unlink_temp,
  sync_directory,
}
use arthur.Stream.Codec.{Lz4}
use arthur.Stream.Writer.{Writer, sync, close}
use arthur.Core.Output.Streams.{commit_closed, commit_atomic_lz4}
use arthur.Core.Output.{
  AtomicOutputState, is_initial, finish, give_up, roll_back, inspect_error, displaced, exchanged,
  replace_existing, linked, is_unsupported, renamed, commit_atomic_path, commit_atomic_file,
}
use arthur.Core.Output.Undisturbed.{
  IsAt, Leaves, next_turn-IsAt, exchange-Leaves, rename_noreplace-Leaves, link-Leaves,
  unlink_temp-Leaves, IsQuiet,
}

-- How a commit may end: with the temporary file at the final path and the temporary name gone; or,
-- where it failed, with what stood at the final path, or with the temporary file there.
abbrev pub Ends : Option Entry → Option Entry → Result (Unit {0}) × World → Type 0
Ends t f (ok u, w) = (w.temp ≡ none) × (w.final ≡ t)
Ends t f (err e, w) = (w.final ≡ f) ⊎ (w.final ≡ t)

module _ (t f : Option Entry) where
  unless-Ends :
      (b : Bool) (p q : Result (Unit {0}) × World)
      → Ends t f p
      → Ends t f q
      → Ends t f (if not b then p else q)
  unless-Ends true p q h k = k
  unless-Ends false p q h k = h

  final_after :
      (a b : Option Entry) (p : Result (Unit {0}) × World)
      → Leaves (IsAt a b) (IsAt t b) p
      → p.1.final ≡ b
  final_after a b (ok u, w) h = h.final_is
  final_after a b (err e, w) h = h.final_is

  sync_directory-Ends : (w : World) → IsAt none t w → Ends t f (sync_directory w)
  unfolding sync_directory
  sync_directory-Ends w h = go (next_turn w) (next_turn-IsAt none t w h)
    where
      go : (p : Result (Unit {0}) × World) → IsAt none t p.1 → Ends t f p
      go (ok u, w') k = (k.temp_is, k.final_is)
      go (err e, w') k = inr k.final_is

  sync_directory-final :
      (a b : Option Entry) (w : World) → IsAt a b w → (sync_directory w).1.final ≡ b
  unfolding sync_directory
  sync_directory-final a b w h = (next_turn-IsAt a b w h).final_is

  -- Behind a commit of the name.
  finish-Ends :
      (a : Option Entry) (p : Result (Unit {0}) × World)
      → Leaves (IsAt none t) (IsAt a t) p
      → Ends t f (finish p)
  finish-Ends a (ok u, w) h = sync_directory-Ends w h
  finish-Ends a (err e, w) h = inr (sync_directory-final a t w h)

  give_up-Ends : (e : Error) (a : Option Entry) (w : World) → IsAt a f w → Ends t f (give_up e w)
  give_up-Ends e a w h = inl (go (unlink_temp w) (unlink_temp-Leaves a f w h))
    where
      go : (p : Result (Unit {0}) × World) → Leaves (IsAt none f) (IsAt a f) p → p.1.final ≡ f
      go (ok u, w') k = k.final_is
      go (err e, w') k = k.final_is

  roll_back-Ends :
      (e : Error) (p : Result (Unit {0}) × World)
      → Leaves (IsAt t f) (IsAt f t) p
      → Ends t f (roll_back e p)
  roll_back-Ends e (ok u, w) h = give_up-Ends e t w h
  roll_back-Ends e (err g, w) h = inr h.final_is

  displaced-Ends :
      (state : AtomicOutputState) (p : Result (Option Entry) × World)
      → IsAt f t p.1
      → Ends t f (displaced state p)
  displaced-Ends state (found, w) h =
      unless-Ends (is_initial state found) _ _
        (roll_back-Ends (inspect_error found) (exchange w) (exchange-Leaves f t w h))
        (finish-Ends f (unlink_temp w) (unlink_temp-Leaves f t w h))

  lstat_temp-IsAt : (a b : Option Entry) (w : World) → IsAt a b w → IsAt a b (lstat_temp w).1
  unfolding lstat_temp
  lstat_temp-IsAt a b w h =
      and_then-keep (IsAt a b) (next_turn w) _ (next_turn-IsAt a b w h) (λ _ w' k. k)

  lstat_final-IsAt : (a b : Option Entry) (w : World) → IsAt a b w → IsAt a b (lstat_final w).1
  unfolding lstat_final
  lstat_final-IsAt a b w h =
      and_then-keep (IsAt a b) (next_turn w) _ (next_turn-IsAt a b w h) (λ _ w' k. k)

  exchanged-Ends :
      (state : AtomicOutputState) (p : Result (Unit {0}) × World)
      → Leaves (IsAt f t) (IsAt t f) p
      → Ends t f (exchanged state p)
  exchanged-Ends state (ok u, w) h = displaced-Ends state (lstat_temp w) (lstat_temp-IsAt f t w h)
  exchanged-Ends state (err e, w) h = give_up-Ends e t w h

  replace_existing-Ends :
      (state : AtomicOutputState) (w : World) → IsAt t f w → Ends t f (replace_existing state w)
  unfolding replace_existing
  replace_existing-Ends state w h = go (lstat_final w) (lstat_final-IsAt t f w h)
    where
      go :
          (p : Result (Option Entry) × World)
          → IsAt t f p.1
          → let (found, w') = p in
            Ends t f (
              if not (is_initial state found)
              then give_up Error.ebusy w'
              else exchanged state (exchange w'))
      go (found, w') k =
          unless-Ends (is_initial state found) _ _ (give_up-Ends Error.ebusy t w' k)
            (exchanged-Ends state (exchange w') (exchange-Leaves t f w' k))

  linked-Ends :
      (p : Result (Unit {0}) × World) → Leaves (IsAt t t) (IsAt t f) p → Ends t f (linked p)
  linked-Ends (ok u, w) h = finish-Ends t (unlink_temp w) (unlink_temp-Leaves t t w h)
  linked-Ends (err e, w) h = give_up-Ends e t w h

  renamed-Ends :
      (p : Result (Unit {0}) × World) → Leaves (IsAt none t) (IsAt t f) p → Ends t f (renamed p)
  renamed-Ends (ok u, w) h = sync_directory-Ends w h
  renamed-Ends (err e, w) h = pick (is_unsupported e)
    where
      pick : (b : Bool) → Ends t f (if b then linked (link w) else give_up e w)
      pick true = linked-Ends (link w) (link-Leaves t f w h)
      pick false = give_up-Ends e t w h

commit_atomic_path-Ends :
    (state : AtomicOutputState) (w : World)
    → IsAt w.temp w.final w
    → Ends w.temp w.final (commit_atomic_path state w)
unfolding commit_atomic_path
commit_atomic_path-Ends state w start = pick state.replace_existing
  where
    pick :
        (b : Bool)
        → Ends w.temp w.final (if b then replace_existing state w else renamed (rename_noreplace w))
    pick true = replace_existing-Ends w.temp w.final state w start
    pick false =
        renamed-Ends w.temp w.final (rename_noreplace w)
          (rename_noreplace-Leaves w.temp w.final w start)

-- Where no other process interferes, and whatever calls are refused: a commit, of a plain file or of a
-- compressing stream, that succeeds leaves the temporary file at the final path and no temporary name,
-- and one that fails leaves at the final path what stood there, or the temporary file.
pub commit-Ends :
    {Encoder Decoder : Type 0} (z : Lz4 Encoder Decoder) (flushed synced closed : Bool)
    (state : AtomicOutputState) (out : Writer Encoder) (w : World)
    → All IsQuiet w.turns
    → Ends w.temp w.final (commit_atomic_file flushed state w)
      × Ends w.temp w.final (commit_atomic_lz4 z flushed synced closed state out w).0
unfolding commit_atomic_file commit_atomic_lz4
commit-Ends z flushed synced closed state out w q = (
  unless-Ends w.temp w.final flushed _ _ (given Error.fault)
      (commit_atomic_path-Ends state w start),
  streamed (sync z flushed synced out).0 (close z closed (sync z flushed synced out).1).0,
)
  where
    start : IsAt w.temp w.final w
    start = record { temp_is = refl; final_is = refl; quiet = q }

    given : (e : Error) → Ends w.temp w.final (give_up e w)
    given e = give_up-Ends w.temp w.final e w.temp w start

    streamed :
        (sync_rc close_rc : Result (Unit {0}))
        → Ends w.temp w.final (commit_closed sync_rc close_rc state w)
    streamed (err e) close_rc = given Error.fault
    streamed (ok u) (err e) = given Error.fault
    streamed (ok u) (ok v) = commit_atomic_path-Ends state w start
