-- ===== src/Proc/Status/Credentials.antt =====
-- The ids that a status file holds.
use arthur.Base.{
  ℕ, ◌+◌, ◌≡◌, ◌≤◌, ◌<◌, refl, sym, ap, ◌∙◌, arith, ◌==◌, ◌||◌, Bool, true, false, if◌then◌else◌,
  if_true, if_false, le→ltb, ltb,
}
use arthur.Base.{
  Option, none, some, List, [], ◌∷◌, ◌++◌, Bytes, length, take, drop, All, append-nil,
  length-append, drop-append, take-append,
}
use arthur.Base.Results.{Error, ok, err, and_then-ok}
use arthur.Stream.ProcFile.{ProcFile}
use arthur.Proc.Text.{span, drop_while, is_blank, is_decimal, number, u32_max, same_text, has_nul}
use arthur.Proc.Text.Scan.{Passes, StopsAt, span-append, drop_while-append}
use arthur.Proc.Lines.{contents, fold_lines, text_of}
use arthur.Proc.Lines.Walk.{IsLine, IsAt, for_lines-fold_lines, length-le-text_of}
use arthur.Proc.Status.{
  Status, Progress, uid_field, gid_field, read_ids, push_id, real_of, real_id, store_uid, store_gid,
  take_line, finish, parse,
}

-- An id with the blanks in front of it.
pub record IdText : Type 0 where
  pub blanks : Bytes
  pub digits : Bytes

pub record IsIdText (t : IdText) : Type 0 where
  pub separated : 0 < length t.blanks
  pub is_blanks : Passes is_blank t.blanks
  pub has_digits : 0 < length t.digits
  pub is_digits : Passes is_decimal t.digits
  pub fits : number 10 t.digits ≤ u32_max

abbrev pub ids_text : List IdText → Bytes → Bytes
ids_text [] rest = rest
ids_text (t ∷ ts) rest = t.blanks ++ (t.digits ++ ids_text ts rest)

abbrev pub ids_of : List IdText → List ℕ
ids_of [] = []
ids_of (t ∷ ts) = number 10 t.digits ∷ ids_of ts

digit_stops : (c : ℕ) → is_decimal c ≡ true → is_blank c ≡ false
unfolding is_decimal is_blank
digit_stops c h = ground arith

blank_stops : (c : ℕ) → is_blank c ≡ true → is_decimal c ≡ false
unfolding is_decimal is_blank
blank_stops c h = ground arith

-- Blanks, or nothing, stand behind the ids.
digits-StopsAt :
    (digits rest : Bytes)
    → 0 < length digits
    → Passes is_decimal digits
    → StopsAt is_blank (digits ++ rest)
digits-StopsAt [] rest h k = absurd (omega arith)
digits-StopsAt (c ∷ digits) rest h (k, ks) = digit_stops c k

ids_text-StopsAt :
    (ts : List IdText) (rest : Bytes)
    → All IsIdText ts
    → Passes is_blank rest
    → StopsAt is_decimal (ids_text ts rest)
ids_text-StopsAt [] [] h k = tt
ids_text-StopsAt [] (c ∷ rest) h (k, ks) = blank_stops c k
ids_text-StopsAt (t ∷ ts) rest (h, hs) k =
    front t.blanks (t.digits ++ ids_text ts rest) h.separated h.is_blanks
  where
    front :
        (blanks rest : Bytes)
        → 0 < length blanks
        → Passes is_blank blanks
        → StopsAt is_decimal (blanks ++ rest)
    front [] rest h k = absurd (omega arith)
    front (c ∷ blanks) rest h (k, ks) = blank_stops c k

read_ids-ids_text :
    (ts : List IdText) (rest : Bytes)
    → All IsIdText ts
    → Passes is_blank rest
    → read_ids (length ts) (ids_text ts rest) ≡ some (ids_of ts, rest)
unfolding read_ids
read_ids-ids_text [] rest h k = refl
read_ids-ids_text (t ∷ ts) rest (h, hs) k =
    ap (λ r. checked r.0 (span is_decimal r.1))
      (span-append is_blank t.blanks (t.digits ++ behind) h.is_blanks
        (digits-StopsAt t.digits behind h.has_digits h.is_digits))
    ∙ ap (checked t.blanks)
        (span-append is_decimal t.digits behind h.is_digits (ids_text-StopsAt ts rest hs k))
    ∙ if_false _ _ (both (length t.blanks) (length t.digits) h.separated h.has_digits)
    ∙ if_false _ _ (le→ltb u32_max (number 10 t.digits) h.fits)
    ∙ ap (push_id (number 10 t.digits)) (read_ids-ids_text ts rest hs k)
  where
    behind : Bytes
    behind = ids_text ts rest

    checked : Bytes → Bytes × Bytes → Option (List ℕ × Bytes)
    checked blanks (digits, left) =
        if length blanks == 0 || length digits == 0
        then none
        else if ltb u32_max (number 10 digits)
        then none
        else push_id (number 10 digits) (read_ids (length ts) left)

    both : (m n : ℕ) → 0 < m → 0 < n → (m == 0 || n == 0) ≡ false
    both m n h k = ground arith

-- A line of four ids, behind the name of its field. Blanks may end it.
pub record IsIdLine (field : Bytes) (real : ℕ) (line : Bytes) : Type 0 where
  pub first : IdText
  pub others : List IdText
  pub trailing : Bytes
  pub three : length others ≡ 3
  pub ids : All IsIdText (first ∷ others)
  pub is_blanks : Passes is_blank trailing
  pub real_is : real ≡ number 10 first.digits
  pub is_text : line ≡ field ++ ids_text (first ∷ others) trailing

real_id-IsIdLine :
    (field line : Bytes) (real : ℕ)
    → length field ≡ 4
    → IsIdLine field real line
    → real_id line ≡ some real
unfolding real_id
real_id-IsIdLine field line real four v =
    let text = ids_text (v.first ∷ v.others) v.trailing in
    ap (λ t. real_of (read_ids 4 (drop 4 t))) v.is_text
    ∙ ap (λ t. real_of (read_ids 4 t)) (drop-append 4 field text (sym four))
    ∙ ap (λ n. real_of (read_ids n text)) (omega (arith, v.three))
    ∙ ap real_of (read_ids-ids_text (v.first ∷ v.others) v.trailing v.ids v.is_blanks)
    ∙ if_true _ _ (ended v.trailing v.is_blanks)
    ∙ ap some (sym v.real_is)
  where
    ended :
        (blanks : Bytes)
        → Passes is_blank blanks
        → (length (drop_while is_blank blanks) == 0) ≡ true
    ended blanks k =
        ap (λ t. length (drop_while is_blank t) == 0) (sym (append-nil blanks))
        ∙ ap (λ t. length t == 0) (drop_while-append is_blank blanks [] k tt)

front_of :
    (field line : Bytes) (real : ℕ)
    → length field ≡ 4
    → IsIdLine field real line
    → take 4 line ≡ field
front_of field line real four v = ap (take 4) v.is_text ∙ take-append 4 field _ (sym four)

-- A line of no interest.
abbrev pub IsOther : Bytes → Type 0
IsOther line =
    (same_text (take 4 line) uid_field ≡ false) × (same_text (take 4 line) gid_field ≡ false)

take_line-uid :
    (line : Bytes) (real : ℕ) (st : Progress)
    → IsIdLine uid_field real line
    → st.saw_uid ≡ false
    → take_line line st
      ≡ (ok tt, record st { status = record st.status { uid = real }; saw_uid = true })
unfolding take_line same_text
take_line-uid line real st v new =
    ap
      (λ t.
        if same_text t uid_field
        then (if st.saw_uid then (err Error.fault, st) else store_uid (real_id line) st)
        else if same_text t gid_field
        then (if st.saw_gid then (err Error.fault, st) else store_gid (real_id line) st)
        else (ok tt, st))
      (front_of uid_field line real refl v)
    ∙ if_false _ _ new
    ∙ ap (λ o. store_uid o st) (real_id-IsIdLine uid_field line real refl v)

take_line-gid :
    (line : Bytes) (real : ℕ) (st : Progress)
    → IsIdLine gid_field real line
    → st.saw_gid ≡ false
    → take_line line st
      ≡ (ok tt, record st { status = record st.status { gid = real }; saw_gid = true })
unfolding take_line same_text
take_line-gid line real st v new =
    ap
      (λ t.
        if same_text t uid_field
        then (if st.saw_uid then (err Error.fault, st) else store_uid (real_id line) st)
        else if same_text t gid_field
        then (if st.saw_gid then (err Error.fault, st) else store_gid (real_id line) st)
        else (ok tt, st))
      (front_of gid_field line real refl v)
    ∙ if_false _ _ new
    ∙ ap (λ o. store_gid o st) (real_id-IsIdLine gid_field line real refl v)

take_lines-others :
    (lines rest : List Bytes) (st : Progress)
    → All IsOther lines
    → fold_lines take_line (lines ++ rest) st ≡ fold_lines take_line rest st
unfolding fold_lines take_line
take_lines-others [] rest st h = refl
take_lines-others (line ∷ lines) rest st ((h, k), hs) =
    and_then-ok _ (if_false _ _ h ∙ if_false _ _ k) ∙ take_lines-others lines rest st hs

-- A status file of lines, none of them empty, of which one gives four user ids and a later one four group
-- ids, and no other line starts with the names of these fields, is parsed into the first of each; the
-- ids are decimal numbers of 32 bits. The file is smaller than 2 GiB and holds no NUL.
pub parse-lines :
    (pf : ProcFile) (before between after : List Bytes) (uid_line gid_line : Bytes) (uid gid : ℕ)
    (v : Status)
    → All IsOther before
    → All IsOther between
    → All IsOther after
    → IsIdLine uid_field uid uid_line
    → IsIdLine gid_field gid gid_line
    → All IsLine (before ++ (uid_line ∷ (between ++ (gid_line ∷ after))))
    → IsAt pf 0 (text_of (before ++ (uid_line ∷ (between ++ (gid_line ∷ after)))))
    → has_nul (contents pf) ≡ false
    → parse (some pf) v ≡ (ok tt, record { uid = uid; gid = gid })
unfolding parse fold_lines finish
parse-lines pf before between after uid_line gid_line uid gid v hb hm ha hu hg hl at_start plain =
    let lines = before ++ (uid_line ∷ (between ++ (gid_line ∷ after))) in
    let st₀ : Progress = record { status = v; saw_uid = false; saw_gid = false } in
    let st₁ : Progress = record {
      status = record v { uid = uid };
      saw_uid = true;
      saw_gid = false;
    } in
    let st₂ : Progress = record {
      status = record { uid = uid; gid = gid };
      saw_uid = true;
      saw_gid = true;
    } in
    let enough : length lines ≤ pf.f_size = omega (arith, at_start.ends, length-le-text_of lines) in
    if_false _ _ (
      filled pf.f_size (has_nul (contents pf))
        (omega (arith, enough, length-append before (uid_line ∷ (between ++ (gid_line ∷ after)))))
        plain)
    ∙ ap finish (
        for_lines-fold_lines take_line lines (pf.f_size + 1) pf 0 st₀ hl (omega (arith, enough))
          at_start
        ∙ take_lines-others before (uid_line ∷ (between ++ (gid_line ∷ after))) st₀ hb
        ∙ and_then-ok _ (take_line-uid uid_line uid st₀ hu refl)
        ∙ take_lines-others between (gid_line ∷ after) st₁ hm
        ∙ and_then-ok _ (take_line-gid gid_line gid st₁ hg refl)
        ∙ ap (λ t. fold_lines take_line t st₂) (sym (append-nil after))
        ∙ take_lines-others after [] st₂ ha)
  where
    filled : (n : ℕ) (b : Bool) → 0 < n → b ≡ false → (n == 0 || b) ≡ false
    filled n b h k = ground arith
