-- ===== src/Proc/Maps/Files.antt =====
-- A maps file of the kernel's lines, and its regions.
use arthur.Base.{
  ℕ, suc, ◌+◌, ◌-◌, ◌≡◌, ◌≤◌, ◌<◌, refl, sym, ap, ◌∙◌, arith, Bool, true, false, not, ◌==◌, ◌&&◌,
  ◌||◌, if◌then◌else◌, if_false, if_true, ltb, leb, lt→leb, ==_refl,
}
use arthur.Base.{[], ◌∷◌, ◌++◌, append_assoc, Bytes, length, drop, length-append, drop-append}
use arthur.Base.Results.{Result, ok}
use arthur.Proc.Text.{is_space, is_blank, drop_while, number}
use arthur.Proc.Text.Scan.{StopsAt, drop_while-append}
use arthur.Core.Loads.{MemRegion}
use arthur.Proc.Maps.{
  Progress, max_regions, is_perm, flag, name_of, region_of, add_region, take_line,
}
use arthur.Proc.Maps.Grammar.{
  LineText, IsLineText, line_text, fields_text, letter, perm_letters, scan_line-line_text,
}

-- A text that ends another.
record IsEnd (s text : Bytes) : Type 0 where
  front : Bytes
  whole : text ≡ front ++ s

IsEnd-append : (xs : Bytes) {s text : Bytes} → IsEnd s text → IsEnd s (xs ++ text)
IsEnd-append xs v = record {
  front = xs ++ v.front;
  whole = ap (λ t. xs ++ t) v.whole ∙ sym (append_assoc xs v.front _);
}

IsEnd-cons : (c : ℕ) {s text : Bytes} → IsEnd s text → IsEnd s (c ∷ text)
IsEnd-cons c v = IsEnd-append (c ∷ []) v

drop-IsEnd : (s text : Bytes) → IsEnd s text → drop (length text - length s) text ≡ s
drop-IsEnd s text v =
    ap (λ t. drop (length text - length s) t) v.whole
    ∙ drop-append (length text - length s) v.front s
        (omega (arith, ap length v.whole, length-append v.front s))

name_ends : (t : LineText) → IsEnd t.name (line_text t)
name_ends t = IsEnd-append t.start (
    IsEnd-cons b'-' (
      IsEnd-append t.end (
        IsEnd-cons b' ' (
          IsEnd-append (perm_letters t) (
            IsEnd-cons b' ' (
              IsEnd-append t.offset (
                IsEnd-cons b' ' (
                  IsEnd-append t.major (
                    IsEnd-cons b':' (
                      IsEnd-append t.minor (
                        IsEnd-cons b' ' (
                          IsEnd-append t.inode
                            (IsEnd-append t.gap (record { front = []; whole = refl }))))))))))))))

shorter-IsEnd :
    (xs : Bytes) (c : ℕ) {s text : Bytes} → IsEnd s text → length s < length (xs ++ (c ∷ text))
shorter-IsEnd xs c {s} {text} v =
    omega (arith, length-append xs (c ∷ text), ap length v.whole, length-append v.front s)

pub name_shorter : (t : LineText) → length t.name < length (line_text t)
name_shorter t = shorter-IsEnd t.start b'-' (
    IsEnd-append t.end (
      IsEnd-cons b' ' (
        IsEnd-append (perm_letters t) (
          IsEnd-cons b' ' (
            IsEnd-append t.offset (
              IsEnd-cons b' ' (
                IsEnd-append t.major (
                  IsEnd-cons b':' (
                    IsEnd-append t.minor (
                      IsEnd-cons b' ' (
                        IsEnd-append t.inode
                          (IsEnd-append t.gap (record { front = []; whole = refl })))))))))))))

no_name : (n : ℕ) → (ltb 0 (n - 0) && ltb (n - 0) n) ≡ false
no_name n = ground arith

has_name : (n m : ℕ) → 0 < m → m < n → (ltb 0 (n - m) && ltb (n - m) n) ≡ true
has_name n m h k = ground arith

-- The region of a line.
abbrev pub region_text : LineText → MemRegion
region_text t = record {
  start_addr = number 16 t.start;
  end_addr = number 16 t.end;
  offset = number 16 t.offset;
  dev_major = number 16 t.major;
  dev_minor = number 16 t.minor;
  inode = number 10 t.inode;
  perms = flag t.readable 4 + flag t.writable 2 + flag t.executable 1;
  is_private = flag t.private 1;
  is_shared = flag (not t.private) 1;
  name = t.name;
}

-- A name starts with no blank.
drop_blanks : (s : Bytes) → StopsAt is_space s → drop_while is_blank s ≡ s
unfolding is_space is_blank
drop_blanks [] h = drop_while-append is_blank [] [] tt tt
drop_blanks (c ∷ s) h = drop_while-append is_blank [] (c ∷ s) tt (no_blank h)
  where
    no_blank : is_space c ≡ false → is_blank c ≡ false
    no_blank h = ground arith

name_of-line_text :
    (t : LineText) → IsLineText t → name_of (line_text t) (fields_text t).consumed ≡ t.name
unfolding name_of
name_of-line_text t v =
    go t.name (drop-IsEnd t.name (line_text t) (name_ends t)) v.is_name (name_shorter t)
  where
    go :
        (name : Bytes)
        → drop (length (line_text t) - length name) (line_text t) ≡ name
        → StopsAt is_space name
        → length name < length (line_text t)
        → name_of (line_text t) (length (line_text t) - length name) ≡ name
    go [] e h w = if_false _ _ (no_name (length (line_text t)))
    go (c ∷ s) e h w =
        if_true _ _ (has_name (length (line_text t)) (suc (length s)) (omega arith) w)
        ∙ ap (drop_while is_blank) e
        ∙ drop_blanks (c ∷ s) h

letter-or_dash : (b : Bool) (c : ℕ) → (letter b c == c || letter b c == b'-') ≡ true
letter-or_dash true c = ground arith
letter-or_dash false c = ground arith

p_or_s :
    (b : Bool) → ((if b then b'p' else b's') == b'p' || (if b then b'p' else b's') == b's') ≡ true
p_or_s true = refl
p_or_s false = refl

perm_letters-ok : (t : LineText) → is_perm (perm_letters t) ≡ true
unfolding is_perm
perm_letters-ok t = rw (
  letter-or_dash t.readable b'r',
  letter-or_dash t.writable b'w',
  letter-or_dash t.executable b'x',
  p_or_s t.private,
)

letter-flag :
    (b : Bool) (value c : ℕ) → (b'-' == c) ≡ false → flag (letter b c == c) value ≡ flag b value
letter-flag true value c h = ap (λ b. flag b value) (==_refl c)
letter-flag false value c h = ap (λ b. flag b value) h

p-flag : (b : Bool) → flag ((if b then b'p' else b's') == b'p') 1 ≡ flag b 1
p-flag true = refl
p-flag false = refl

s-flag :
    (b : Bool)
    → flag (not ((if b then b'p' else b's') == b'p') && (if b then b'p' else b's') == b's') 1
      ≡ flag (not b) 1
s-flag true = refl
s-flag false = refl

region_of-line_text :
    (t : LineText) → IsLineText t → region_of (line_text t) (fields_text t) ≡ region_text t
unfolding region_of
region_of-line_text t v = rw (
  name_of-line_text t v,
  letter-flag t.readable 4 b'r' refl,
  letter-flag t.writable 2 b'w' refl,
  letter-flag t.executable 1 b'x' refl,
  p-flag t.private,
  s-flag t.private,
)

accepted :
    (perms : Bool) (low start end : ℕ)
    → perms ≡ true
    → low ≤ start
    → start < end
    → (not perms || (leb end start || ltb start low)) ≡ false
accepted perms low start end h k m = ground arith

-- A line whose region starts behind the ones before it adds that region.
pub take_line-line_text :
    (t : LineText) (st : Progress)
    → IsLineText t
    → st.previous_end ≤ number 16 t.start
    → length st.regions < max_regions
    → take_line (line_text t) st ≡ (
      ok tt,
      record { regions = st.regions ++ (region_text t ∷ []); previous_end = number 16 t.end },
    )
unfolding take_line add_region
take_line-line_text t st v low room =
    if_false _ _ v.no_nul
    ∙ ap (λ o. add_region (line_text t) o st) (scan_line-line_text t v)
    ∙ if_false _ _ (
        accepted (is_perm (perm_letters t)) st.previous_end (number 16 t.start) (number 16 t.end)
          (perm_letters-ok t) low v.not_empty)
    ∙ if_false _ _ (lt→leb max_regions (length st.regions) room)
    ∙ ap added (region_of-line_text t v)
  where
    added : MemRegion → Result (Unit {0}) × Progress
    added r = (ok tt, record { regions = st.regions ++ (r ∷ []); previous_end = number 16 t.end })
