-- ===== src/Proc/Maps/Grammar.antt =====
-- Lines as the kernel writes them into /proc/<pid>/maps, and how they are scanned.
use arthur.Base.{ℕ, ◌-◌, ◌≡◌, ◌≤◌, ◌<◌, refl, ap, ◌∙◌, Bool, true, false, if◌then◌else◌, if_false}
use arthur.Base.{Option, some, [], ◌∷◌, ◌++◌, Bytes, length}
use arthur.Proc.Text.{is_space, is_decimal, is_hex, number, u32_max, has_nul}
use arthur.Proc.Text.Scan.{Passes, StopsAt, drop_while-append}
use arthur.Proc.Text.Scanf.{take_word, word_value, scan_word}
use arthur.Proc.Text.Conversions.{
  and_scan-some, IsHexText, IsDecimalText, scan_hex_ok, scan_hex32_ok, scan_decimal_ok,
  scan_char_ok,
}
use arthur.Proc.Lines.{in_line}
use arthur.Proc.Maps.{MapsLine, scan_line}

-- The parts of a line: numbers as texts, the permissions, and a gap in front of the name.
pub record LineText : Type 0 where
  pub start : Bytes
  pub end : Bytes
  pub readable : Bool
  pub writable : Bool
  pub executable : Bool
  pub private : Bool
  pub offset : Bytes
  pub major : Bytes
  pub minor : Bytes
  pub inode : Bytes
  pub gap : Bytes
  pub name : Bytes

abbrev pub letter : Bool → ℕ → ℕ
letter b c = if b then c else b'-'

abbrev pub perm_letters : LineText → Bytes
perm_letters t =
    letter t.readable b'r'
    ∷ letter t.writable b'w'
    ∷ letter t.executable b'x'
    ∷ (if t.private then b'p' else b's')
    ∷ []

-- Behind the permissions, and behind the offset.
abbrev device_text : LineText → Bytes
device_text t = b' ' ∷ (t.major ++ (b':' ∷ (t.minor ++ (b' ' ∷ (t.inode ++ (t.gap ++ t.name))))))

abbrev perm_text : LineText → Bytes
perm_text t = b' ' ∷ (perm_letters t ++ (b' ' ∷ (t.offset ++ device_text t)))

abbrev pub line_text : LineText → Bytes
line_text t = t.start ++ (b'-' ∷ (t.end ++ perm_text t))

-- The numbers fit their types, the region is not empty, and the gap stands between the inode and a name, if there is
-- one, that starts with no space. The line has no newline and no NUL.
pub record IsLineText (t : LineText) : Type 0 where
  pub is_start : IsHexText t.start
  pub is_end : IsHexText t.end
  pub not_empty : number 16 t.start < number 16 t.end
  pub is_offset : IsHexText t.offset
  pub is_major : IsHexText t.major
  pub major_fits : number 16 t.major ≤ u32_max
  pub is_minor : IsHexText t.minor
  pub minor_fits : number 16 t.minor ≤ u32_max
  pub is_inode : IsDecimalText t.inode
  pub separated : StopsAt is_decimal (t.gap ++ t.name)
  pub is_gap : Passes is_space t.gap
  pub is_name : StopsAt is_space t.name
  pub one_line : Passes in_line (line_text t)
  pub no_nul : has_nul (line_text t) ≡ false

abbrev pub fields_text : LineText → MapsLine
fields_text t = record {
  start_addr = number 16 t.start;
  end_addr = number 16 t.end;
  perm = perm_letters t;
  offset = number 16 t.offset;
  dev_major = number 16 t.major;
  dev_minor = number 16 t.minor;
  inode = number 10 t.inode;
  consumed = length (line_text t) - length t.name;
}

space-Passes : Passes is_space (b' ' ∷ [])
unfolding is_space
space-Passes = (refl, tt)

-- Four letters up to a space.
scan_word-four :
    (a b c d : ℕ) (rest : Bytes)
    → is_space a ≡ false
    → is_space b ≡ false
    → is_space c ≡ false
    → is_space d ≡ false
    → scan_word 4 (b' ' ∷ a ∷ b ∷ c ∷ d ∷ rest) ≡ some (a ∷ b ∷ c ∷ d ∷ [], rest)
unfolding scan_word take_word
scan_word-four a b c d rest ha hb hc hd =
    ap (λ s. word_value (take_word 4 s))
      (drop_while-append is_space (b' ' ∷ []) (a ∷ b ∷ c ∷ d ∷ rest) space-Passes ha)
    ∙ ap word_value (
        if_false _ _ ha
        ∙ ap (in_front a) (
            if_false _ _ hb
            ∙ ap (in_front b) (if_false _ _ hc ∙ ap (in_front c) (if_false _ _ hd))))
  where
    in_front : ℕ → Bytes × Bytes → Bytes × Bytes
    in_front c r = (c ∷ r.0, r.1)

letter_no_space : (b : Bool) (c : ℕ) → is_space c ≡ false → is_space (letter b c) ≡ false
unfolding is_space
letter_no_space true c h = h
letter_no_space false c h = refl

pub scan_line-line_text :
    (t : LineText) → IsLineText t → scan_line (line_text t) ≡ some (fields_text t)
unfolding scan_line is_space is_hex is_decimal
scan_line-line_text t v =
    and_scan-some _ (scan_hex_ok [] t.start b'-' (t.end ++ perm_text t) tt v.is_start refl refl)
    ∙ and_scan-some _ (scan_char_ok b'-' (t.end ++ perm_text t))
    ∙ and_scan-some _ (scan_hex_ok [] t.end b' ' _ tt v.is_end refl refl)
    ∙ and_scan-some _ (
        scan_word-four _ _ _ _ (b' ' ∷ (t.offset ++ device_text t))
          (letter_no_space t.readable b'r' refl) (letter_no_space t.writable b'w' refl)
          (letter_no_space t.executable b'x' refl) (last_no_space t.private))
    ∙ and_scan-some _ (scan_hex_ok (b' ' ∷ []) t.offset b' ' _ (refl, tt) v.is_offset refl refl)
    ∙ and_scan-some _
        (scan_hex32_ok (b' ' ∷ []) t.major b':' _ (refl, tt) v.is_major v.major_fits refl refl)
    ∙ and_scan-some _ (scan_char_ok b':' _)
    ∙ and_scan-some _ (scan_hex32_ok [] t.minor b' ' _ tt v.is_minor v.minor_fits refl refl)
    ∙ and_scan-some _
        (scan_decimal_ok (b' ' ∷ []) t.inode (t.gap ++ t.name) (refl, tt) v.is_inode v.separated)
    ∙ ap found (drop_while-append is_space t.gap t.name v.is_gap v.is_name)
  where
    last_no_space : (b : Bool) → is_space (if b then b'p' else b's') ≡ false
    last_no_space true = refl
    last_no_space false = refl

    found : Bytes → Option MapsLine
    found name = some (record {
      start_addr = number 16 t.start;
      end_addr = number 16 t.end;
      perm = perm_letters t;
      offset = number 16 t.offset;
      dev_major = number 16 t.major;
      dev_minor = number 16 t.minor;
      inode = number 10 t.inode;
      consumed = length (line_text t) - length name;
    })
