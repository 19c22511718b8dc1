-- ===== src/Proc/Tests/Regions.antt =====
-- Maps files (src/proc.cc) at concrete inputs, and their layout.
use arthur.Base.{
  ◌<◌, ◌≤◌, ℕ, ◌≡◌, refl, arith, true, false, some, List, [], ◌∷◌, Bytes, length, All,
}
use arthur.Base.{sym, ap}
use mathlib.Core.Path.{subst}
use arthur.Base.Results.{Result, ok}
use arthur.Core.Loads.{MemRegion, Loads, ssize_max, expected_load_phdrs}
use arthur.Core.Loads.Layout.{captured}
use arthur.Core.Loads.Process.{EndsLow, expected_load_phdrs-parse}
use arthur.Proc.Text.{is_space, is_decimal, number_from, digit_value, has_nul}
use arthur.Proc.Lines.{text_of, is_newline, in_line}
use arthur.Base.Results.{Ends}
use arthur.Proc.Maps
use arthur.Proc.Maps.Order
use arthur.Proc.Maps.Grammar.{LineText, IsLineText, line_text}
use arthur.Proc.Maps.RoundTrip.{lines_text, regions_text, parse-lines_text}
use arthur.Proc.Text.{is_hex, number, u64_max}
use arthur.Proc.Text.Conversions.{IsHexText}
use arthur.Proc.Termination.{maps_parse-Ends}
use arthur.Proc.Tests.Checks.{every, every-Passes, file}

abbrev pub maps_text : Bytes
maps_text =
    b'4' ∷ b'0' ∷ b'0' ∷ b'0' ∷ b'0' ∷ b'0' ∷ b'-' ∷ b'4' ∷ b'0' ∷ b'1' ∷ b'0' ∷ b'0' ∷ b'0' ∷ b' '
    ∷ b'r' ∷ b'-' ∷ b'x' ∷ b'p' ∷ b' ' ∷ b'0' ∷ b'0' ∷ b'0' ∷ b'0' ∷ b'0' ∷ b'0' ∷ b'0' ∷ b'0'
    ∷ b' ' ∷ b'0' ∷ b'8' ∷ b':' ∷ b'0' ∷ b'1' ∷ b' ' ∷ b'4' ∷ b'2' ∷ b' ' ∷ b'/' ∷ b'b' ∷ b'i'
    ∷ b'n' ∷ b'/' ∷ b'x' ∷ b'\n' ∷ []

parse-IsMap_example : Order.IsMap (Maps.parse (some (file maps_text))).1
parse-IsMap_example = Order.parse-IsMap (some (file maps_text))

maps_parse-Ends_example : Ends (Maps.parse (some (file maps_text)))
maps_parse-Ends_example = maps_parse-Ends (some (file maps_text))

hex_text : (s : Bytes) → 0 < length s → every is_hex s ≡ true → number 16 s ≤ u64_max → IsHexText s
hex_text s h k fits = record { some_digits = h; is_digits = every-Passes is_hex s k; fits = fits }

abbrev code_line : LineText
code_line = record {
  start = (b'4' ∷ b'0' ∷ b'0' ∷ b'0' ∷ b'0' ∷ b'0' ∷ []);
  end = (b'4' ∷ b'0' ∷ b'1' ∷ b'0' ∷ b'0' ∷ b'0' ∷ []);
  readable = true;
  writable = false;
  executable = true;
  private = true;
  offset = (b'0' ∷ b'0' ∷ b'0' ∷ b'0' ∷ b'0' ∷ b'0' ∷ b'0' ∷ b'0' ∷ []);
  major = (b'0' ∷ b'8' ∷ []);
  minor = (b'0' ∷ b'1' ∷ []);
  inode = (b'4' ∷ b'2' ∷ []);
  gap = (b' ' ∷ []);
  name = (b'/' ∷ b'b' ∷ b'i' ∷ b'n' ∷ b'/' ∷ b'x' ∷ b' ' ∷ b'y' ∷ []);
}

code_line-IsLineText : IsLineText code_line
unfolding is_hex is_decimal is_space number_from digit_value in_line is_newline has_nul
code_line-IsLineText = record {
  is_start = hex_text _ (omega arith) refl (omega arith);
  is_end = hex_text _ (omega arith) refl (omega arith);
  not_empty = omega arith;
  is_offset = hex_text _ (omega arith) refl (omega arith);
  is_major = hex_text _ (omega arith) refl (omega arith);
  major_fits = omega arith;
  is_minor = hex_text _ (omega arith) refl (omega arith);
  minor_fits = omega arith;
  is_inode = record {
    some_digits = omega arith;
    is_digits = every-Passes is_decimal code_line.inode refl;
    fits = omega arith;
  };
  separated = refl;
  is_gap = (refl, tt);
  is_name = refl;
  one_line = every-Passes in_line (line_text code_line) refl;
  no_nul = refl;
}

abbrev data_line : LineText
data_line = record {
  start = (b'4' ∷ b'0' ∷ b'1' ∷ b'0' ∷ b'0' ∷ b'0' ∷ []);
  end = (b'4' ∷ b'0' ∷ b'2' ∷ b'0' ∷ b'0' ∷ b'0' ∷ []);
  readable = true;
  writable = true;
  executable = false;
  private = true;
  offset = (b'0' ∷ b'0' ∷ b'0' ∷ b'0' ∷ b'1' ∷ b'0' ∷ b'0' ∷ b'0' ∷ []);
  major = (b'0' ∷ b'0' ∷ []);
  minor = (b'0' ∷ b'0' ∷ []);
  inode = (b'0' ∷ []);
  gap = ([]);
  name = ([]);
}

data_line-IsLineText : IsLineText data_line
unfolding is_hex is_decimal is_space number_from digit_value in_line is_newline has_nul
data_line-IsLineText = record {
  is_start = hex_text _ (omega arith) refl (omega arith);
  is_end = hex_text _ (omega arith) refl (omega arith);
  not_empty = omega arith;
  is_offset = hex_text _ (omega arith) refl (omega arith);
  is_major = hex_text _ (omega arith) refl (omega arith);
  major_fits = omega arith;
  is_minor = hex_text _ (omega arith) refl (omega arith);
  minor_fits = omega arith;
  is_inode = record {
    some_digits = omega arith;
    is_digits = every-Passes is_decimal data_line.inode refl;
    fits = omega arith;
  };
  separated = tt;
  is_gap = tt;
  is_name = tt;
  one_line = every-Passes in_line (line_text data_line) refl;
  no_nul = refl;
}

abbrev maps_lines : List LineText
maps_lines = code_line ∷ data_line ∷ []

parse-lines_text_example :
    Maps.parse (some (file (text_of (lines_text maps_lines)))) ≡ (ok 2, regions_text maps_lines)
unfolding number_from digit_value
parse-lines_text_example =
    parse-lines_text (file (text_of (lines_text maps_lines))) maps_lines
      (code_line-IsLineText, omega arith, (data_line-IsLineText, omega arith, tt)) (omega arith)
      (record { next = refl; ends = refl; small = omega arith })

two_regions :
    Maps.parse (some (file (text_of (lines_text maps_lines)))) ≡ (ok 2, regions_text maps_lines)
two_regions =
    parse-lines_text (file (text_of (lines_text maps_lines))) maps_lines
      (code_line-IsLineText, omega arith, (data_line-IsLineText, omega arith, tt)) (omega arith)
      (record { next = refl; ends = refl; small = omega arith })

regions_low : All EndsLow (regions_text maps_lines)
unfolding number_from digit_value
regions_low = (omega arith, (omega arith, tt))

abbrev regions_of : Result ℕ × List MemRegion → List MemRegion
regions_of (r, regions) = regions

expected_load_phdrs-parse_example :
    (out : Loads) × (expected_load_phdrs
        (Maps.parse (some (file (text_of (lines_text maps_lines))))).1
      ≡ (ok tt, out))
    × (length out.phdrs ≡ length (Maps.parse (some (file (text_of (lines_text maps_lines))))).1)
    × (out.total_bytes ≡ captured (Maps.parse (some (file (text_of (lines_text maps_lines))))).1)
    × (out.total_bytes ≤ ssize_max)
expected_load_phdrs-parse_example =
    expected_load_phdrs-parse (some (file (text_of (lines_text maps_lines))))
      (subst (All EndsLow) (sym (ap regions_of two_regions)) regions_low)
