-- ===== src/Core/Elf/Layout.antt =====
-- What `Coredump::WriteElfHeader` writes into a core file that has room for it.
use arthur.Base.{
  ℕ, ◌+◌, ◌-◌, ◌*◌, ◌^◌, ◌≡◌, ◌≤◌, ◌<◌, refl, sym, ap, ◌∙◌, arith, not, ◌==◌, if◌then◌else◌,
  Bool-cases, inl, inr, if_true, if_false, unless_true, lt→leb, le→leb, ==_refl,
}
use arthur.Base.{List, [], ◌∷◌, ◌++◌, append_assoc, append-nil, Bytes, length, length-append, All}
use mathlib.Core.Path.{ap₂}
use arthur.Base.Files.{OutFile, fwrite_all}
use arthur.Base.Results.{Result, Error, ok, err, and_then-ok}
use arthur.Proc.Text.{pos}
use arthur.Core.Loads.{ProgramHeader, pt_load}
use arthur.Core.Elf.{make_ehdr, ehdr_bytes, phdr_bytes}
use arthur.Core.Elf.Images.{length-phdr_bytes, length-ehdr_bytes}
use arthur.Core.Elf.Output.{pn_xnum, write_all, place, place_phdrs, write_core_header}

-- A header whose bytes stand at its offset behind the place of the loads.
abbrev pub placed : ℕ → ProgramHeader → ProgramHeader
placed offset_load phdr =
    if phdr.p_type == pt_load then record phdr { p_offset = phdr.p_offset + offset_load } else phdr

abbrev pub placed_bytes : ℕ → List ProgramHeader → Bytes
placed_bytes offset_load [] = []
placed_bytes offset_load (phdr ∷ phdrs) =
    phdr_bytes (placed offset_load phdr) ++ placed_bytes offset_load phdrs

-- An offset that the sum does not carry over 64 bits.
abbrev pub IsPlaceable : ℕ → ProgramHeader → Type 0
IsPlaceable offset_load phdr = phdr.p_offset + offset_load < 2 ^ 64

-- The file with more bytes.
abbrev pub extended : OutFile → Bytes → OutFile
extended f s = record f { written = f.written ++ s; room = f.room - length s }

extended-append : (f : OutFile) (s t : Bytes) → extended (extended f s) t ≡ extended f (s ++ t)
extended-append f s t = λ i. record f { written = append_assoc f.written s t i; room = rooms i }
  where
    rooms : f.room - length s - length t ≡ f.room - length (s ++ t)
    rooms = omega (arith, length-append s t)

place-placed :
    (n : ℕ) (phdr : ProgramHeader) → IsPlaceable n phdr → place (pos n) phdr ≡ ok (placed n phdr)
unfolding place
place-placed n phdr h = elim (Bool-cases (phdr.p_type == pt_load)) [
  | inl e ↦
      if_true _ _ e
      ∙ if_false _ _ (lt→leb (2 ^ 64) (phdr.p_offset + n) h)
      ∙ ap ok (sym (if_true _ _ e))
  | inr e ↦ if_false _ _ e ∙ ap ok (sym (if_false _ _ e))
]

write_all-extended :
    (s : Bytes) (f : OutFile) → length s ≤ f.room → write_all s f ≡ (ok (length s), extended f s)
unfolding write_all
write_all-extended s f h =
    ap checked (fwrite_all s f (le→leb (length s) f.room h)) ∙ unless_true _ _ (==_refl (length s))
  where
    checked : ℕ × OutFile → Result ℕ × OutFile
    checked r = if not (r.0 == length s) then (err Error.fault, r.1) else (ok r.0, r.1)

length-placed_bytes :
    (n : ℕ) (phdrs : List ProgramHeader) → length (placed_bytes n phdrs) ≡ 56 * length phdrs
length-placed_bytes n [] = refl
length-placed_bytes n (phdr ∷ phdrs) = omega (
  arith,
  length-append (phdr_bytes (placed n phdr)) (placed_bytes n phdrs),
  length-phdr_bytes (placed n phdr),
  length-placed_bytes n phdrs,
)

place_phdrs-placed_bytes :
    (n : ℕ) (phdrs : List ProgramHeader) (rc : ℕ) (f : OutFile)
    → All (IsPlaceable n) phdrs
    → 56 * length phdrs ≤ f.room
    → place_phdrs (pos n) phdrs rc f
      ≡ (ok (rc + 56 * length phdrs), extended f (placed_bytes n phdrs))
unfolding place_phdrs
place_phdrs-placed_bytes n [] rc f h room = λ i.
    (ok (same rc i), record f { written = sym (append-nil f.written) i; room = same_room f.room i })
  where
    same : (m : ℕ) → m ≡ m + 56 * 0
    same m = omega arith

    same_room : (m : ℕ) → m ≡ m - 0
    same_room m = omega arith
place_phdrs-placed_bytes n (phdr ∷ phdrs) rc f (h, hs) room =
    let p = placed n phdr in
    let size = length-phdr_bytes p in
    and_then-ok _ (ap (λ r. (r, f)) (place-placed n phdr h))
    ∙ and_then-ok _ (write_all-extended (phdr_bytes p) f (omega (arith, size, room)))
    ∙ place_phdrs-placed_bytes n phdrs (rc + length (phdr_bytes p)) (extended f (phdr_bytes p)) hs
        (omega (arith, size, room))
    ∙ ap₂ (λ (m : ℕ) (f : OutFile). (ok m, f)) (omega (arith, size))
        (extended-append f (phdr_bytes p) (placed_bytes n phdrs))

-- A core file with room for them gets the file header, with the machine and the number of program headers, and then
-- each program header, in order; the offset of stored bytes is moved by the place where they begin, and
-- all else is as it was. The number of bytes is returned. The headers are fewer than PN_XNUM, and no
-- moved offset is too large for 64 bits.
pub write_core_header-placed_bytes :
    (machine n : ℕ) (phdrs : List ProgramHeader) (f : OutFile)
    → length phdrs < pn_xnum
    → All (IsPlaceable n) phdrs
    → 64 + 56 * length phdrs ≤ f.room
    → write_core_header machine (pos n) phdrs f ≡ (
      ok (64 + 56 * length phdrs),
      extended f (ehdr_bytes (make_ehdr machine (length phdrs)) ++ placed_bytes n phdrs),
    )
unfolding write_core_header
write_core_header-placed_bytes machine n phdrs f few h room =
    let header = ehdr_bytes (make_ehdr machine (length phdrs)) in
    let size = length-ehdr_bytes machine (length phdrs) in
    if_false _ _ (lt→leb pn_xnum (length phdrs) few)
    ∙ and_then-ok _ (write_all-extended header f (omega (arith, size, room)))
    ∙ place_phdrs-placed_bytes n phdrs (length header) (extended f header) h
        (omega (arith, size, room))
    ∙ ap₂ (λ (m : ℕ) (f : OutFile). (ok m, f)) (omega (arith, size))
        (extended-append f header (placed_bytes n phdrs))
