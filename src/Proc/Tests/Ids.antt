-- ===== src/Proc/Tests/Ids.antt =====
-- Lines, command lines, auxiliary vectors and status files (src/proc.cc) at concrete inputs.
use arthur.Base.{◌≡◌, refl, arith, Option, some, List, [], ◌∷◌, ◌++◌, Bytes}
use arthur.Base.Results.{ok}
use arthur.Stream.ProcFile.{ProcFile}
use arthur.Proc.Text.{is_blank, is_decimal, number_from, digit_value, same_text, has_nul}
use arthur.Proc.Lines.{text_of, is_newline, in_line}
use arthur.Proc.Cmdline
use arthur.Proc.Cmdline.{in_argument}
use arthur.Proc.Cmdline.Arguments
use arthur.Proc.Auxv
use arthur.Proc.Auxv.{at_uid, at_pagesz}
use arthur.Proc.Auxv.Entries
use arthur.Proc.Auxv.Entries.{Entry, vector_of}
use arthur.Proc.Auxv.Ranges
use arthur.Proc.Status
use arthur.Proc.Status.{uid_field, gid_field}
use arthur.Proc.Status.Credentials
use arthur.Proc.Status.Credentials.{IdText, IsIdText, IsIdLine, IsOther, ids_text}
use arthur.Proc.Tests.Checks.{are_lines-IsLine, file}

abbrev two_lines : Option ProcFile
two_lines = some (file (b'n' ∷ b'a' ∷ b'm' ∷ b'e' ∷ b'\n' ∷ b'x' ∷ b'\n' ∷ []))

abbrev ls_arguments : List Bytes
ls_arguments = (b'l' ∷ b's' ∷ []) ∷ (b'-' ∷ b'l' ∷ []) ∷ []

parse-text_of_example :
    Cmdline.parse (some (file (Arguments.text_of ls_arguments))) ≡ (ok 2, ls_arguments)
unfolding in_argument
parse-text_of_example =
    Arguments.parse-text_of (file (Arguments.text_of ls_arguments)) ls_arguments
      ((refl, (refl, tt)), ((refl, (refl, tt)), tt)) refl

abbrev entries : List Entry
entries = record { type = at_uid; val = 1000 } ∷ record { type = at_pagesz; val = 4096 } ∷ []

abbrev no_ids : Auxv.Auxv
no_ids = record { uid = 0; gid = 0; euid = 0; egid = 0; page_size = 0 }

parse-vector_of_example :
    Auxv.parse (some (file (vector_of entries))) no_ids
    ≡ (ok tt, record { uid = 1000; gid = 0; euid = 0; egid = 0; page_size = 4096 })
unfolding Entries.last_value
parse-vector_of_example =
    Entries.parse-vector_of (file (vector_of entries)) entries no_ids (is_uid, (is_page, tt)) refl
      refl
  where
    is_uid : Entries.IsEntry (record { type = at_uid; val = 1000 })
    is_uid = record {
      type_fits = omega arith;
      val_fits = omega arith;
      more = λ h. omega (arith, h);
      uid_fits = λ h. omega arith;
      gid_fits = λ h. omega arith;
      euid_fits = λ h. omega arith;
      egid_fits = λ h. omega arith;
      page_fits = λ h. absurd (omega (arith, h));
    }

    is_page : Entries.IsEntry (record { type = at_pagesz; val = 4096 })
    is_page = record {
      type_fits = omega arith;
      val_fits = omega arith;
      more = λ h. omega (arith, h);
      uid_fits = λ h. omega arith;
      gid_fits = λ h. omega arith;
      euid_fits = λ h. omega arith;
      egid_fits = λ h. omega arith;
      page_fits = λ h. (omega arith, omega arith, refl);
    }

parse-IsAuxv_example : Ranges.IsAuxv (Auxv.parse (some (file (vector_of entries))) no_ids).1
parse-IsAuxv_example = Ranges.parse-IsAuxv (some (file (vector_of entries))) no_ids (record {
  uid_fits = omega arith;
  gid_fits = omega arith;
  euid_fits = omega arith;
  egid_fits = omega arith;
  page_fits = omega arith;
  page_power = refl;
})

abbrev unused_status : Status.Status
unused_status = record { uid = 0; gid = 0 }

abbrev id_text : Bytes → IdText
id_text digits = record { blanks = b'\t' ∷ []; digits = digits }

abbrev four_ids : List IdText
four_ids =
    id_text (b'1' ∷ b'2' ∷ [])
    ∷ id_text (b'1' ∷ b'3' ∷ [])
    ∷ id_text (b'1' ∷ b'2' ∷ [])
    ∷ id_text (b'1' ∷ b'3' ∷ [])
    ∷ []

abbrev status_lines : List Bytes
status_lines =
    (b'N' ∷ b'a' ∷ b'm' ∷ b'e' ∷ b':' ∷ b'\t' ∷ b'l' ∷ b's' ∷ [])
    ∷ (uid_field ++ ids_text four_ids [])
    ∷ (gid_field ++ ids_text four_ids [])
    ∷ []

id_line : (field : Bytes) → IsIdLine field 12 (field ++ ids_text four_ids [])
unfolding is_blank is_decimal number_from digit_value
id_line field = record {
  first = id_text (b'1' ∷ b'2' ∷ []);
  others =
      id_text (b'1' ∷ b'3' ∷ []) ∷ id_text (b'1' ∷ b'2' ∷ []) ∷ id_text (b'1' ∷ b'3' ∷ []) ∷ [];
  trailing = [];
  three = refl;
  ids = (is_id, (is_id', (is_id, (is_id', tt))));
  is_blanks = tt;
  real_is = refl;
  is_text = refl;
}
  where
    is_id : IsIdText (id_text (b'1' ∷ b'2' ∷ []))
    is_id = record {
      separated = omega arith;
      is_blanks = (refl, tt);
      has_digits = omega arith;
      is_digits = (refl, (refl, tt));
      fits = omega arith;
    }

    is_id' : IsIdText (id_text (b'1' ∷ b'3' ∷ []))
    is_id' = record {
      separated = omega arith;
      is_blanks = (refl, tt);
      has_digits = omega arith;
      is_digits = (refl, (refl, tt));
      fits = omega arith;
    }

parse-lines_example :
    Status.parse (some (file (text_of status_lines))) unused_status
    ≡ (ok tt, record { uid = 12; gid = 12 })
unfolding same_text has_nul is_newline in_line
parse-lines_example =
    Credentials.parse-lines (file (text_of status_lines))
      ((b'N' ∷ b'a' ∷ b'm' ∷ b'e' ∷ b':' ∷ b'\t' ∷ b'l' ∷ b's' ∷ []) ∷ []) [] []
      (uid_field ++ ids_text four_ids []) (gid_field ++ ids_text four_ids []) 12 12 unused_status
      ((refl, refl), tt) tt tt (id_line uid_field) (id_line gid_field)
      (are_lines-IsLine status_lines refl)
      (record { next = refl; ends = refl; small = omega arith }) refl
