-- ===== src/Proc/Auxv/Entries.antt =====
-- The auxiliary vector that a sequence of entries makes up.
use Prim.Native.Nat.{bit_and}
use arthur.Base.{
  ℕ, suc, ◌*◌, ◌-◌, ◌/◌, ◌%◌, ◌^◌, ◌≤◌, ◌<◌, ◌≡◌, ◌≢◌, refl, sym, ap, ◌∙◌, arith, ◌==◌, ltb, ◌||◌,
  not, if◌then◌else◌, if_false, false,
}
use arthur.Base.{
  some, List, [], ◌∷◌, ◌++◌, Bytes, length, take, drop, All, length-append, take-append,
  drop-append, append_assoc, drop-drop, take_all,
}
use arthur.Base.Words.{le_bytes, le_value, length-le_bytes, le_value-le_bytes}
use arthur.Base.Results.{Error, ok, err, and_then, and_then-ok}
use arthur.Stream.ProcFile.{ProcFile}
use arthur.Proc.Text.{u32_max}
use arthur.Proc.Lines.{contents}
use arthur.Proc.Auxv.{
  Auxv, at_null, at_pagesz, at_uid, at_euid, at_gid, at_egid, set_entry, read_entries, parse,
}

pub record Entry : Type 0 where
  pub type : ℕ
  pub val : ℕ

-- An entry in front of AT_NULL, with a value that its type admits.
pub record IsEntry (e : Entry) : Type 0 where
  pub type_fits : e.type < 2 ^ 64
  pub val_fits : e.val < 2 ^ 64
  pub more : e.type ≢ at_null
  pub uid_fits : e.type ≡ at_uid → e.val ≤ u32_max
  pub gid_fits : e.type ≡ at_gid → e.val ≤ u32_max
  pub euid_fits : e.type ≡ at_euid → e.val ≤ u32_max
  pub egid_fits : e.type ≡ at_egid → e.val ≤ u32_max
  pub page_fits :
      e.type ≡ at_pagesz → (0 < e.val) × (e.val ≤ u32_max) × (bit_and e.val (e.val - 1) ≡ 0)

abbrev pub entry_bytes : Entry → Bytes
entry_bytes e = le_bytes 8 e.type ++ le_bytes 8 e.val

-- The entries, and AT_NULL.
abbrev pub vector_of : List Entry → Bytes
vector_of [] = le_bytes 8 at_null ++ le_bytes 8 0
vector_of (e ∷ es) = entry_bytes e ++ vector_of es

-- The value of the last entry of a type.
unfoldable pub last_value : ℕ → ℕ → List Entry → ℕ
last_value type val [] = val
last_value type val (e ∷ es) = last_value type (if e.type == type then e.val else val) es

-- The object after the entries.
abbrev pub with_entries : Auxv → List Entry → Auxv
with_entries v es = record {
  uid = last_value at_uid v.uid es;
  gid = last_value at_gid v.gid es;
  euid = last_value at_euid v.euid es;
  egid = last_value at_egid v.egid es;
  page_size = last_value at_pagesz v.page_size es;
}

-- One entry that is accepted.
abbrev with_entry : Entry → Auxv → Auxv
with_entry e v = record {
  uid = if e.type == at_uid then e.val else v.uid;
  gid = if e.type == at_gid then e.val else v.gid;
  euid = if e.type == at_euid then e.val else v.euid;
  egid = if e.type == at_egid then e.val else v.egid;
  page_size = if e.type == at_pagesz then e.val else v.page_size;
}

set_entry_ok :
    (e : Entry) (v : Auxv) → IsEntry e → set_entry e.type e.val v ≡ (ok tt, with_entry e v)
unfolding set_entry
set_entry_ok e v h = ground (arith, h.uid_fits, h.gid_fits, h.euid_fits, h.egid_fits, h.page_fits)

-- An entry in front of a text.
module _ (e : Entry) (rest : Bytes) where
  abbrev text : Bytes
  text = entry_bytes e ++ rest

  behind_type : drop 8 text ≡ le_bytes 8 e.val ++ rest
  behind_type =
      ap (drop 8) (append_assoc (le_bytes 8 e.type) (le_bytes 8 e.val) rest)
      ∙ drop-append 8 (le_bytes 8 e.type) (le_bytes 8 e.val ++ rest)
          (sym (length-le_bytes 8 e.type))

  behind_entry : drop 16 text ≡ rest
  behind_entry =
      sym (drop-drop 8 8 text)
      ∙ ap (drop 8) behind_type
      ∙ drop-append 8 (le_bytes 8 e.val) rest (sym (length-le_bytes 8 e.val))

  type_of : e.type < 2 ^ 64 → le_value (take 8 text) ≡ e.type
  type_of h =
      ap (λ t. le_value (take 8 t)) (append_assoc (le_bytes 8 e.type) (le_bytes 8 e.val) rest)
      ∙ ap le_value (
          take-append 8 (le_bytes 8 e.type) (le_bytes 8 e.val ++ rest)
            (sym (length-le_bytes 8 e.type)))
      ∙ le_value-le_bytes 8 e.type h

  val_of : e.val < 2 ^ 64 → le_value (take 8 (drop 8 text)) ≡ e.val
  val_of h =
      ap (λ t. le_value (take 8 t)) behind_type
      ∙ ap le_value (take-append 8 (le_bytes 8 e.val) rest (sym (length-le_bytes 8 e.val)))
      ∙ le_value-le_bytes 8 e.val h

-- One round on an entry, with what the rounds after it give.
entry_round :
    (left : ℕ) (e : Entry) (rest : Bytes) (v : Auxv)
    → IsEntry e
    → read_entries (suc left) (entry_bytes e ++ rest) v ≡ read_entries left rest (with_entry e v)
unfolding read_entries
entry_round left e rest v h =
    ap
      (λ (t : ℕ × ℕ).
        if t.0 == at_null
        then (if not (left == 0) then (err Error.fault, v) else (ok tt, v))
        else and_then (set_entry t.0 t.1 v)
            (λ _ v'. read_entries left (drop 16 (entry_bytes e ++ rest)) v'))
      (λ i. (type_of e rest h.type_fits i, val_of e rest h.val_fits i))
    ∙ if_false _ _ (other e.type h.more)
    ∙ and_then-ok _ (set_entry_ok e v h)
    ∙ ap (λ t. read_entries left t (with_entry e v)) (behind_entry e rest)
  where
    other : (t : ℕ) → t ≢ at_null → (t == at_null) ≡ false
    other t h = ground arith

last_round : (v : Auxv) → read_entries 1 (vector_of []) v ≡ (ok tt, v)
unfolding read_entries le_bytes le_value
last_round v = refl

read_entries-vector_of :
    (es : List Entry) (v : Auxv)
    → All IsEntry es
    → read_entries (suc (length es)) (vector_of es) v ≡ (ok tt, with_entries v es)
unfolding last_value
read_entries-vector_of [] v h = last_round v
read_entries-vector_of (e ∷ es) v (h, hs) =
    entry_round (suc (length es)) e (vector_of es) v h
    ∙ read_entries-vector_of es (with_entry e v) hs

length-vector_of : (es : List Entry) → length (vector_of es) ≡ 16 * suc (length es)
length-vector_of [] = omega (
  arith,
  length-append (le_bytes 8 at_null) (le_bytes 8 0),
  length-le_bytes 8 at_null,
  length-le_bytes 8 0,
)
length-vector_of (e ∷ es) = omega (
  arith,
  length-append (entry_bytes e) (vector_of es),
  length-append (le_bytes 8 e.type) (le_bytes 8 e.val),
  length-le_bytes 8 e.type,
  length-le_bytes 8 e.val,
  length-vector_of es,
)

-- An auxiliary vector of acceptable entries that ends with AT_NULL is parsed: each field has the value
-- of the last entry of its type, and 0 where there is none, whatever the object held before.
pub parse-vector_of :
    (pf : ProcFile) (es : List Entry) (v : Auxv)
    → All IsEntry es
    → pf.f_size ≡ length pf.f_data
    → pf.f_data ≡ vector_of es
    → parse (some pf) v
      ≡ (ok tt, with_entries (record { uid = 0; gid = 0; euid = 0; egid = 0; page_size = 0 }) es)
unfolding parse
parse-vector_of pf es v h whole e =
    let size : pf.f_size ≡ 16 * suc (length es) =
      omega (arith, whole, ap length e, length-vector_of es) in
    if_false _ _ (complete pf.f_size (length es) size)
    ∙ ap (λ n. read_entries n (contents pf) zeros) (entries pf.f_size (length es) size)
    ∙ ap (λ t. read_entries (suc (length es)) t zeros)
        (take_all pf.f_size pf.f_data (omega (arith, whole)) ∙ e)
    ∙ read_entries-vector_of es zeros h
  where
    zeros : Auxv
    zeros = record { uid = 0; gid = 0; euid = 0; egid = 0; page_size = 0 }

    complete : (size n : ℕ) → size ≡ 16 * suc n → (ltb size 16 || not (size % 16 == 0)) ≡ false
    complete size n h = ground arith

    entries : (size n : ℕ) → size ≡ 16 * suc n → size / 16 ≡ suc n
    entries size n h = omega arith
