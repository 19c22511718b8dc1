-- ===== src/Proc/Stat/Comm.antt =====
-- A status record is cut at the parentheses of its comm, whatever the comm contains.
use arthur.Base.{
  ℕ, suc, ◌≡◌, ◌≤◌, ◌<◌, refl, ap, ◌∙◌, arith, Bool, true, false, not, ◌==◌, if_false, unless_true,
  lt→leb,
}
use arthur.Base.{
  Option, none, some, List, [], ◌∷◌, ◌++◌, append-nil, Bytes, length, All, take_all, All-append,
}
use mathlib.Core.Path.{ap₂}
use arthur.Proc.Text.Scan.{Passes, span-append, StopsAt}
use arthur.Proc.Stat.Fields.{
  not_open, or_here, split_close, push, words_at, tokens, max_tokens, present, fields_of,
  enough_fields, Record, ends_record, cut_record, behind_open, read_record,
}

abbrev pub not_space : ℕ → Bool
not_space c = not (c == b' ')

abbrev pub not_close : ℕ → Bool
not_close c = not (c == b')')

-- A field: it is not empty, and has no space and no closing parenthesis.
pub record IsWord (w : Bytes) : Type 0 where
  pub not_empty : 0 < length w
  pub no_space : Passes not_space w
  pub no_close : Passes not_close w

-- Fields with a space in front of each.
abbrev pub spaced : List Bytes → Bytes
spaced [] = []
spaced (w ∷ words) = b' ' ∷ (w ++ spaced words)

words_at-append :
    (w t : Bytes) → Passes not_space w → words_at (w ++ t) ≡ (w ++ (words_at t).0, (words_at t).1)
unfolding words_at
words_at-append [] t h = refl
words_at-append (c ∷ w) t (hc, h) =
    if_false _ _ (unspaced c hc) ∙ ap (λ r. (c ∷ r.0, r.1)) (words_at-append w t h)
  where
    unspaced : (c : ℕ) → not_space c ≡ true → (c == b' ') ≡ false
    unspaced c h = ground arith

push-word : (w : Bytes) (words : List Bytes) → 0 < length w → push w words ≡ w ∷ words
push-word [] words h = absurd (omega (arith, h))
push-word (c ∷ w) words h = refl

words_at-spaced : (words : List Bytes) → All IsWord words → words_at (spaced words) ≡ ([], words)
unfolding words_at
words_at-spaced [] h = refl
words_at-spaced (w ∷ words) (v, h) =
    ap pushed (words_at-append w (spaced words) v.no_space ∙ ap joined (words_at-spaced words h))
    ∙ ap (λ w. ([], push w words)) (append-nil w)
    ∙ ap (λ words. ([], words)) (push-word w words v.not_empty)
  where
    pushed : Bytes × List Bytes → Bytes × List Bytes
    pushed r = ([], push r.0 r.1)

    joined : Bytes × List Bytes → Bytes × List Bytes
    joined r = (w ++ r.0, r.1)

tokens-spaced : (words : List Bytes) → All IsWord words → tokens (spaced words) ≡ words
unfolding tokens
tokens-spaced words h = ap (λ (r : Bytes × List Bytes). push r.0 r.1) (words_at-spaced words h)

tokens-pid : (pid : Bytes) → IsWord pid → tokens (pid ++ (b' ' ∷ [])) ≡ pid ∷ []
unfolding tokens words_at
tokens-pid pid v =
    ap (λ (r : Bytes × List Bytes). push r.0 r.1) (words_at-append pid (b' ' ∷ []) v.no_space)
    ∙ ap (λ w. push w []) (append-nil pid)
    ∙ push-word pid [] v.not_empty

-- A text without a closing parenthesis.
split_close-none : (s : Bytes) → Passes not_close s → split_close s ≡ none
unfolding split_close
split_close-none [] h = refl
split_close-none (c ∷ s) (hc, h) =
    ap (or_here c s) (split_close-none s h) ∙ if_false _ _ (unclosed c hc)
  where
    unclosed : (c : ℕ) → not_close c ≡ true → (c == b')') ≡ false
    unclosed c h = ground arith

-- The last one counts.
split_close-append :
    (comm s : Bytes) → Passes not_close s → split_close (comm ++ (b')' ∷ s)) ≡ some (comm, s)
unfolding split_close
split_close-append [] s h = ap (or_here b')' s) (split_close-none s h)
split_close-append (c ∷ comm) s h =
    ap (or_here c (comm ++ (b')' ∷ s))) (split_close-append comm s h)

spaced-Passes : (words : List Bytes) → All IsWord words → Passes not_close (spaced words)
spaced-Passes [] h = tt
spaced-Passes (w ∷ words) (v, h) =
    (refl, All-append (λ c. not_close c ≡ true) w (spaced words) v.no_close (spaced-Passes words h))

-- `pid (comm) state ppid ...`
abbrev pub record_text : Bytes → Bytes → List Bytes → Bytes
record_text pid comm words = (pid ++ (b' ' ∷ [])) ++ (b'(' ∷ (comm ++ (b')' ∷ spaced words)))

length-present : (words : List Bytes) → length (present words) ≡ length words
length-present [] = refl
length-present (w ∷ words) = ap suc (length-present words)

-- A record of a process number, a comm between parentheses, and 30 to 61 fields is cut into those fields,
-- with its comm whole: the comm may hold spaces, newlines and parentheses of both kinds. The process
-- number and the fields are not empty and hold no space and no closing parenthesis, the process number
-- holds no opening one, and only the last field may hold a newline, at its end.
pub read_record-record_text :
    (pid comm : Bytes) (words : List Bytes)
    → IsWord pid
    → Passes not_open pid
    → All IsWord words
    → ends_record (spaced words) ≡ true
    → 30 ≤ length words
    → length words ≤ 61
    → read_record (record_text pid comm words)
      ≡ some (record { comm = comm; array = some (some pid ∷ none ∷ present words) })
unfolding read_record not_open
read_record-record_text pid comm words p opens h ends enough fits =
    ap behind_open (
      span-append not_open (pid ++ (b' ' ∷ [])) (b'(' ∷ (comm ++ (b')' ∷ spaced words)))
        (All-append (λ c. not_open c ≡ true) pid (b' ' ∷ []) opens front_ok) stops)
    ∙ ap (cut_record (pid ++ (b' ' ∷ [])))
        (split_close-append comm (spaced words) (spaced-Passes words h))
    ∙ unless_true _ _ ends
    ∙ ap found (
        ap₂ fields_of (tokens-pid pid p) (tokens-spaced words h)
        ∙ ap (λ words. some (some pid ∷ none ∷ present words)) (take_all max_tokens words fits))
    ∙ ap with_array (
        if_false _ _
          (lt→leb (suc (suc (length (present words)))) 31 (omega (arith, length-present words))))
  where
    with_array : Option (List (Option Bytes)) → Option Record
    with_array array = some (record { comm = comm; array = array })

    found : Option (List (Option Bytes)) → Option Record
    found array = with_array (enough_fields array)

    front_ok : Passes not_open (b' ' ∷ [])
    front_ok = (refl, tt)

    stops : StopsAt not_open (b'(' ∷ (comm ++ (b')' ∷ spaced words)))
    stops = refl
