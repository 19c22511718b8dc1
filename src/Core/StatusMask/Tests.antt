-- ===== src/Core/StatusMask/Tests.antt =====
-- A signal mask at a concrete input.
use arthur.Base.{◌≡◌, refl, arith, some, [], ◌∷◌, ◌++◌, Bytes}
use arthur.Proc.Text.{is_hex, is_decimal, is_blank, same_text, number_from, digit_value}
use arthur.Proc.Lines.{in_line, is_newline}
use arthur.Core.StatusMask.{parse_status_mask}
use arthur.Core.StatusMask.Lines.{lines_before, parse_status_mask-lines}

abbrev key : Bytes
key = b'S' ∷ b'i' ∷ b'g' ∷ b'C' ∷ b'g' ∷ b't' ∷ b':' ∷ []

abbrev name_line : Bytes
name_line = b'N' ∷ b'a' ∷ b'm' ∷ b'e' ∷ b':' ∷ []

-- The mask 0x1f behind the name.
parse_status_mask-lines_example :
    parse_status_mask
      (lines_before (name_line ∷ []) (key ++ (b'\t' ∷ b'1' ∷ b'f' ∷ b'\n' ∷ [])))
      key
    ≡ some 31
unfolding is_hex is_decimal is_blank same_text in_line is_newline number_from digit_value
parse_status_mask-lines_example =
    parse_status_mask-lines key (name_line ∷ []) (b'\t' ∷ []) (b'1' ∷ b'f' ∷ []) [] [] (omega arith)
      ((refl, (refl, (refl, (refl, (refl, tt))))), refl, tt) (refl, tt)
      (record { some_digits = omega arith; is_digits = (refl, (refl, tt)); fits = omega arith }) tt
