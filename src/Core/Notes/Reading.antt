-- ===== src/Core/Notes/Reading.antt =====
-- Notes as a debugger reads them, and that it reads what was filled in.
use arthur.Base.{
  ℕ, zero, suc, ◌+◌, ◌-◌, ◌^◌, ◌≡◌, ◌<◌, refl, sym, ap, ◌∙◌, arith, Bool, true, false, ◌||◌, ltb,
}
use arthur.Base.{
  ◌++◌, Bytes, length, take, drop, replicate, length-append, length-replicate, take-append,
  drop-append, drop-drop, append_assoc, if_false, le→ltb,
}
use arthur.Base.Words.{le_bytes, le_value, length-le_bytes, le_value-le_bytes}
use arthur.Base.Results.{ok}
use arthur.Core.Notes.{
  is_linux, name_size, name_field, nhdr_bytes, prefix_size, round_up, allocate, with_payload,
}

-- A number of the bytes in front, and what follows them.
abbrev word : ℕ → Bytes → ℕ
word n s = le_value (take n s)

-- The layout of a note: three words, the name, and the descriptor, each rounded up to four bytes.
pub record NoteView : Type 0 where
  pub type : ℕ
  pub name : Bytes
  pub desc : Bytes
  pub rest : Bytes

unfoldable pub note_of : Bytes → NoteView
note_of s =
    let namesz = word 4 s in
    let descsz = word 4 (drop 4 s) in
    let body = drop 12 s in
    record {
      type = word 4 (drop 8 s);
      name = take namesz body;
      desc = take descsz (drop (round_up namesz) body);
      rest = drop (round_up descsz) (drop (round_up namesz) body);
    }

-- The note that is filled with a payload.
abbrev pub image : ℕ → Bytes → Bytes
image type payload =
    nhdr_bytes (name_size (is_linux type)) (length payload) type
    ++ (name_field (is_linux type)
        ++ (payload ++ replicate (round_up (length payload) - length payload) 0))

length-nhdr_bytes : (a b c : ℕ) → length (nhdr_bytes a b c) ≡ 12
unfolding nhdr_bytes
length-nhdr_bytes a b c =
    length-append (le_bytes 4 a) (le_bytes 4 b ++ le_bytes 4 c)
    ∙ omega (
      arith,
      length-append (le_bytes 4 b) (le_bytes 4 c),
      length-le_bytes 4 a,
      length-le_bytes 4 b,
      length-le_bytes 4 c,
    )

length-name_field : (linux : Bool) → length (name_field linux) ≡ 8
length-name_field true = refl
length-name_field false = refl

drop-replicate : (n m b : ℕ) → drop n (replicate m b) ≡ replicate (m - n) b
drop-replicate zero m b = ap (λ k. replicate k b) (omega arith)
drop-replicate (suc n) zero b = ap (λ k. replicate k b) (none_left n)
  where
    none_left : (n : ℕ) → 0 ≡ 0 - suc n
    none_left n = omega arith
drop-replicate (suc n) (suc m) b = drop-replicate n m b ∙ ap (λ k. replicate k b) (omega arith)

-- A copy to the payload of zeros behind a prefix.
with_payload-zeros :
    (front payload : Bytes) (n : ℕ)
    → length front ≡ prefix_size
    → with_payload payload (ok (front ++ replicate n 0))
      ≡ ok (front ++ (payload ++ replicate (n - length payload) 0))
with_payload-zeros front payload n h = λ i. ok (kept i ++ (payload ++ left i))
  where
    kept : take prefix_size (front ++ replicate n 0) ≡ front
    kept = take-append prefix_size front (replicate n 0) (sym h)

    left :
        drop (prefix_size + length payload) (front ++ replicate n 0)
        ≡ replicate (n - length payload) 0
    left =
        sym (drop-drop prefix_size (length payload) (front ++ replicate n 0))
        ∙ ap (drop (length payload)) (drop-append prefix_size front (replicate n 0) (sym h))
        ∙ drop-replicate (length payload) n 0

-- What a call of `allocate` and the copy of the payload make.
pub with_payload-allocate :
    (type : ℕ) (payload : Bytes)
    → length payload < 2 ^ 32
    → with_payload payload (allocate type (length payload)) ≡ ok (image type payload)
unfolding allocate
with_payload-allocate type payload h =
    ap (with_payload payload) (
      if_false _ _ (small (length payload) h)
      ∙ if_false _ _ (le→ltb (2 ^ 64 - 1 - 3) (prefix_size + length payload) (omega (arith, h))))
    ∙ ap (λ t. with_payload payload (ok t)) (sym (append_assoc nhdr name zeros_behind))
    ∙ with_payload-zeros (nhdr ++ name) payload
        (round_up (prefix_size + length payload) - prefix_size)
        (length-append nhdr name
          ∙ omega (
            arith,
            length-nhdr_bytes (name_size (is_linux type)) (length payload) type,
            length-name_field (is_linux type),
          ))
    ∙ ap ok (
        append_assoc nhdr name _
        ∙ ap (λ k. nhdr ++ (name ++ (payload ++ replicate k 0))) (omega arith))
  where
    nhdr : Bytes
    nhdr = nhdr_bytes (name_size (is_linux type)) (length payload) type

    name : Bytes
    name = name_field (is_linux type)

    zeros_behind : Bytes
    zeros_behind = replicate (round_up (prefix_size + length payload) - prefix_size) 0

    small : (n : ℕ) → n < 2 ^ 32 → (ltb (2 ^ 32 - 1) n || ltb (2 ^ 64 - 1 - prefix_size) n) ≡ false
    small n h = ground arith

-- The fields of a note from its words and what follows them.
abbrev view : ℕ → ℕ → ℕ → Bytes → NoteView
view namesz descsz type body = record {
  type = type;
  name = take namesz body;
  desc = take descsz (drop (round_up namesz) body);
  rest = drop (round_up descsz) (drop (round_up namesz) body);
}

view-ap :
    {n n' d d' t t' : ℕ} {b b' : Bytes}
    → n ≡ n'
    → d ≡ d'
    → t ≡ t'
    → b ≡ b'
    → view n d t b ≡ view n' d' t' b'
view-ap p q r e = λ i. view (p i) (q i) (r i) (e i)

word_ok : (n : ℕ) (more : Bytes) → n < 256 ^ 4 → word 4 (le_bytes 4 n ++ more) ≡ n
word_ok n more h =
    ap le_value (take-append 4 (le_bytes 4 n) more (sym (length-le_bytes 4 n)))
    ∙ le_value-le_bytes 4 n h

behind_word : (n : ℕ) (more : Bytes) → drop 4 (le_bytes 4 n ++ more) ≡ more
behind_word n more = drop-append 4 (le_bytes 4 n) more (sym (length-le_bytes 4 n))

note_of-words :
    (namesz descsz type : ℕ) (body : Bytes)
    → namesz < 256 ^ 4
    → descsz < 256 ^ 4
    → type < 256 ^ 4
    → note_of (le_bytes 4 namesz ++ (le_bytes 4 descsz ++ (le_bytes 4 type ++ body)))
      ≡ view namesz descsz type body
unfolding note_of
note_of-words namesz descsz type body hn hd ht =
    view-ap (word_ok namesz _ hn) (ap (word 4) one ∙ word_ok descsz _ hd)
      (ap (word 4) two ∙ word_ok type _ ht)
      (sym (drop-drop 8 4 flat) ∙ ap (drop 4) two ∙ behind_word type body)
  where
    flat : Bytes
    flat = le_bytes 4 namesz ++ (le_bytes 4 descsz ++ (le_bytes 4 type ++ body))

    one : drop 4 flat ≡ le_bytes 4 descsz ++ (le_bytes 4 type ++ body)
    one = behind_word namesz _

    two : drop 8 flat ≡ le_bytes 4 type ++ body
    two = sym (drop-drop 4 4 flat) ∙ ap (drop 4) one ∙ behind_word descsz _

-- The name and what follows it.
view-name :
    (linux : Bool) (descsz type : ℕ) (more : Bytes)
    → view (name_size linux) descsz type (name_field linux ++ more) ≡ record {
      type = type;
      name = take (name_size linux) (name_field linux);
      desc = take descsz more;
      rest = drop (round_up descsz) more;
    }
view-name true descsz type more = refl
view-name false descsz type more = refl

name_size_small : (linux : Bool) → name_size linux < 256 ^ 4
name_size_small true = omega arith
name_size_small false = omega arith

-- A filled note is read as a note of its type, the name CORE or LINUX, and its payload; what follows it
-- is next, so that notes can be read one after the other.
pub note_of-image :
    (type : ℕ) (payload more : Bytes)
    → type < 2 ^ 32
    → length payload < 2 ^ 32
    → note_of (image type payload ++ more) ≡ record {
      type = type;
      name = take (name_size (is_linux type)) (name_field (is_linux type));
      desc = payload;
      rest = more;
    }
unfolding nhdr_bytes
note_of-image type payload more ht hp =
    ap note_of (
      append_assoc nhdr (name ++ (payload ++ pad)) more
      ∙ ap (λ t. nhdr ++ t)
          (append_assoc name (payload ++ pad) more
            ∙ ap (λ t. name ++ t) (append_assoc payload pad more))
      ∙ append_assoc (le_bytes 4 (name_size linux)) (le_bytes 4 (length payload) ++ le_bytes 4 type)
          _
      ∙ ap (λ t. le_bytes 4 (name_size linux) ++ t)
          (append_assoc (le_bytes 4 (length payload)) (le_bytes 4 type) _))
    ∙ note_of-words (name_size linux) (length payload) type (name ++ (payload ++ (pad ++ more)))
        (name_size_small linux) (omega (arith, hp)) (omega (arith, ht))
    ∙ view-name linux (length payload) type (payload ++ (pad ++ more))
    ∙ λ i. record {
      type = type;
      name = take (name_size linux) name;
      desc = whole i;
      rest = behind i;
    }
  where
    linux : Bool
    linux = is_linux type

    name : Bytes
    name = name_field linux

    pad : Bytes
    pad = replicate (round_up (length payload) - length payload) 0

    nhdr : Bytes
    nhdr = nhdr_bytes (name_size linux) (length payload) type

    whole : take (length payload) (payload ++ (pad ++ more)) ≡ payload
    whole = take-append (length payload) payload (pad ++ more) refl

    behind : drop (round_up (length payload)) (payload ++ (pad ++ more)) ≡ more
    behind =
        ap (drop (round_up (length payload))) (sym (append_assoc payload pad more))
        ∙ drop-append (round_up (length payload)) (payload ++ pad) more (
            omega (
              arith,
              length-append payload pad,
              length-replicate {A = ℕ} (round_up (length payload) - length payload) 0,
            ))
