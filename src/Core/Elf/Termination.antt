-- ===== src/Core/Elf/Termination.antt =====
-- The loops of `ReadElfHeader` end by themselves.
use arthur.Base.{
  ℕ, zero, suc, ◌+◌, ◌≡◌, ◌≢◌, ◌≤◌, ◌<◌, refl, sym, arith, Bool, true, false, not, ◌==◌, ◌||◌,
  if◌then◌else◌, leb, ltb, min, if_true,
}
use mathlib.Core.Path.{subst}
use arthur.Base.{[], Bytes, length, take, drop}
use arthur.Base.Results.{Result, Error, ok, err, and_then}
use arthur.Stream.Header.{BlockHeader, header_length}
use arthur.Base.Files.{InFile}
use arthur.Stream.BlockType
use arthur.Stream.Block
use arthur.Stream.Reader.{Reader, read_block, peek}
use arthur.Stream.Reader.Progress.{IsReadTo, Progress, read_block-Progress, peek-Progress}
use arthur.Stream.Codec.{Lz4}
use arthur.Base.Results.{Ends}
use arthur.Core.Loads.{ProgramHeader, pt_load}
use arthur.Core.Elf.{ehdr_size, phdr_size, ehdr_of, phdr_of}
use arthur.Core.Elf.Input.{
  ElfInput, is_core_layout, is_other_machine, on_block, on_stream, push_phdr, read_phdr, read_phdrs,
  check_first, take_ehdr, another, read_elf_blocks, read_elf_header,
}

module _ {Decoder : Type 0} where
  -- `Q` where the call succeeded; a failure is the code's.
  abbrev Then : {A : Type 0} → (ElfInput Decoder → Type 0) → Result A × ElfInput Decoder → Type 0
  Then Q (ok a, st) = Q st
  Then Q (err e, st) = e ≢ Error.out_of_fuel

  and_then-Then :
      {A B : Type 0} (Q R : ElfInput Decoder → Type 0) (p : Result A × ElfInput Decoder)
      (f : A → ElfInput Decoder → Result B × ElfInput Decoder)
      → Then Q p
      → ((a : A) (st : ElfInput Decoder) → Q st → Then R (f a st))
      → Then R (and_then p f)
  and_then-Then Q R (ok a, st) f h k = k a st h
  and_then-Then Q R (err e, st) f h k = h

  if-Then :
      {A : Type 0} (Q : ElfInput Decoder → Type 0) (b : Bool) (p q : Result A × ElfInput Decoder)
      → Then Q p
      → (b ≡ false → Then Q q)
      → Then Q (if b then p else q)
  if-Then Q true p q h k = h
  if-Then Q false p q h k = k refl

module _ {Decoder : Type 0} (content : Bytes) (low : ℕ) where
  abbrev IsAtLeast : ElfInput Decoder → Type 0
  IsAtLeast st = IsReadTo content low st.reader.file

  stream-Then :
      {A : Type 0} (p : Result A × Reader Decoder) (st : ElfInput Decoder)
      → Progress content low p
      → Then IsAtLeast (on_stream p st)
  stream-Then (ok a, r) st h = h
  stream-Then (err e, r) st h = h

  -- A smaller block, on the same file.
  record IsSmaller (size : ℕ) (st : ElfInput Decoder) : Type 0 where
    read_to : IsReadTo content low st.reader.file
    smaller : Block.size st.reader.block < size

  block-Then :
      (n : ℕ) (st : ElfInput Decoder)
      → 0 < n
      → IsAtLeast st
      → Then (IsSmaller (Block.size st.reader.block)) (on_block (Block.read n st.reader.block) st)
  unfolding Block.read
  block-Then n st h v =
      go (n == 0) (ltb (Block.size st.reader.block) n) (nonzero n h)
        (λ e. enough (Block.size st.reader.block) n e)
    where
      b : Block.Block
      b = st.reader.block

      outcome : Bool → Bool → Result Bytes × Block.Block
      outcome none_asked short =
          if none_asked then (ok [], b) else if short then (err Error.enospc, b) else (
            ok (take (min n (Block.size b)) (drop b.cur b.bytes)),
            record b { cur = b.cur + min n (Block.size b) },
          )

      nonzero : (n : ℕ) → 0 < n → (n == 0) ≡ false
      nonzero n h = ground arith

      enough : (m n : ℕ) → ltb m n ≡ false → n ≤ m
      enough m n h = ground arith

      go :
          (none_asked short : Bool)
          → none_asked ≡ false
          → (short ≡ false → n ≤ Block.size b)
          → Then (IsSmaller (Block.size b)) (on_block (outcome none_asked short) st)
      go true short e k = cc
      go false true e k = λ q. cc
      go false false e k = record { read_to = v; smaller = omega (arith, k refl, h) }

  push_phdr-Then :
      (size : ℕ) (phdr : ProgramHeader) (st : ElfInput Decoder)
      → IsSmaller size st
      → Then (IsSmaller size) (push_phdr phdr st)
  unfolding push_phdr
  push_phdr-Then size phdr st v =
      if-Then (IsSmaller size) (not (phdr.p_type == pt_load)) (err Error.fault, st) _ (λ q. cc)
        (λ _. record { read_to = v.read_to; smaller = v.smaller })

  read_phdr-Then :
      (max_phdrs : ℕ) (st : ElfInput Decoder)
      → IsAtLeast st
      → Then (IsSmaller (Block.size st.reader.block)) (read_phdr max_phdrs st)
  unfolding read_phdr
  read_phdr-Then max_phdrs st v =
      if-Then (IsSmaller (Block.size st.reader.block)) (leb max_phdrs (length st.phdrs))
        (err Error.fault, st) _ (λ q. cc)
        λ _.
          and_then-Then (IsSmaller (Block.size st.reader.block))
            (IsSmaller (Block.size st.reader.block))
            (on_block (Block.read phdr_size st.reader.block) st) _
            (block-Then phdr_size st (omega arith) v)
            (λ bs st' h. push_phdr-Then (Block.size st.reader.block) (phdr_of bs) st' h)

  read_phdrs-Then :
      (fuel max_phdrs : ℕ) (st : ElfInput Decoder)
      → IsAtLeast st
      → Block.size st.reader.block ≤ fuel
      → Then IsAtLeast (read_phdrs fuel max_phdrs st)
  unfolding read_phdrs
  read_phdrs-Then zero max_phdrs st v h =
      subst (Then IsAtLeast) (sym (if_true _ _ (none_left (Block.size st.reader.block) h))) v
    where
      none_left : (n : ℕ) → n ≤ 0 → (n == 0) ≡ true
      none_left n h = ground arith
  read_phdrs-Then (suc fuel) max_phdrs st v h =
      if-Then IsAtLeast (Block.size st.reader.block == 0) (ok tt, st) _ v
        λ _.
          and_then-Then (IsSmaller (Block.size st.reader.block)) IsAtLeast (read_phdr max_phdrs st)
            _ (read_phdr-Then max_phdrs st v)
            (λ _ st' w. read_phdrs-Then fuel max_phdrs st' w.read_to (omega (arith, h, w.smaller)))

module _ {Encoder Decoder : Type 0} (z : Lz4 Encoder Decoder) (content : Bytes) where
  abbrev Anywhere : ElfInput Decoder → Type 0
  Anywhere st = IsReadTo content 0 st.reader.file

  read_elf_blocks-Then :
      (fuel max_phdrs low : ℕ) (st : ElfInput Decoder)
      → IsReadTo content low st.reader.file
      → length content < low + fuel
      → Then Anywhere (read_elf_blocks z fuel max_phdrs st)
  unfolding read_elf_blocks
  read_elf_blocks-Then zero max_phdrs low st v h = absurd (omega (arith, h, v.above, v.below))
  read_elf_blocks-Then (suc fuel) max_phdrs low st v h =
      and_then-Then (IsAtLeast content low) Anywhere
        (read_phdrs (Block.size st.reader.block) max_phdrs st) _
        (read_phdrs-Then content low (Block.size st.reader.block) max_phdrs st v (omega arith))
        λ _ st₁ v₁.
          and_then-Then (IsAtLeast content low) Anywhere
            (on_stream (peek header_length st₁.reader) st₁) _
            (stream-Then content low (peek header_length st₁.reader) st₁
              (peek-Progress z content low header_length st₁.reader v₁))
            λ got st₂ v₂.
              if-Then Anywhere (not (another z got)) (ok tt, st₂) _ (lower v₂)
                λ _.
                  and_then-Then (IsAtLeast content (low + 3)) Anywhere
                    (on_stream (read_block z st₂.reader) st₂) _
                    (stream-Then content (low + 3) (read_block z st₂.reader) st₂
                      (read_block-Progress z content low st₂.reader v₂))
                    (λ _ st₃ v₃.
                      read_elf_blocks-Then fuel max_phdrs (low + 3) st₃ v₃ (omega (arith, h)))
    where
      lower : {f : InFile} → IsReadTo content low f → IsReadTo content 0 f
      lower v = record { same_content = v.same_content; above = omega arith; below = v.below }

  take_ehdr-Then :
      (arch low : ℕ) (bs : Bytes) (st : ElfInput Decoder)
      → IsAtLeast content low st
      → Then (IsAtLeast content low) (take_ehdr arch bs st)
  unfolding take_ehdr
  take_ehdr-Then arch low bs st v =
      if-Then (IsAtLeast content low)
        (is_other_machine arch (ehdr_of bs) || not (is_core_layout (ehdr_of bs)))
        (err Error.fault, record st { ehdr = ehdr_of bs }) _ (λ q. cc) (λ _. v)

  check_first-Then :
      (low : ℕ) (hdr : BlockHeader) (st : ElfInput Decoder)
      → IsAtLeast content low st
      → Then (IsAtLeast content low) (check_first hdr st)
  unfolding check_first
  check_first-Then low hdr st v =
      if-Then (IsAtLeast content low)
        (not (hdr.block_type == BlockType.elf) || not (hdr.prev_cont == 0)) (err Error.fault, st)
        (ok tt, st) (λ q. cc) (λ _. v)

  read_elf_header-Then :
      (arch max_phdrs : ℕ) (st : ElfInput Decoder)
      → IsReadTo content 0 st.reader.file
      → length content ≤ length st.reader.file.content
      → Then Anywhere (read_elf_header z arch max_phdrs st)
  unfolding read_elf_header
  read_elf_header-Then arch max_phdrs st v h =
      and_then-Then (IsAtLeast content 3) Anywhere (on_stream (read_block z st.reader) st) _
        (stream-Then content 3 (read_block z st.reader) st
          (read_block-Progress z content 0 st.reader v))
        λ hdr st₁ v₁.
          and_then-Then (IsAtLeast content 3) Anywhere (check_first hdr st₁) _
            (check_first-Then 3 hdr st₁ v₁)
            λ _ st₂ v₂.
              and_then-Then (IsSmaller content 3 (Block.size st₂.reader.block)) Anywhere
                (on_block (Block.read ehdr_size st₂.reader.block) st₂) _
                (block-Then content 3 ehdr_size st₂ (omega arith) v₂)
                λ bs st₃ v₃.
                  and_then-Then (IsAtLeast content 3) Anywhere (take_ehdr arch bs st₃) _
                    (take_ehdr-Then arch 3 bs st₃ v₃.read_to)
                    (λ _ st₄ v₄.
                      read_elf_blocks-Then (length st.reader.file.content + 1) max_phdrs 3 st₄ v₄
                        (omega (arith, h)))

-- Whatever the file holds and whatever the codec makes of it, ReadElfHeader ends by itself: as many
-- rounds as the file has bytes, and one more, are enough. The position of the file is within it.
pub read_elf_header-Ends :
    {Encoder Decoder : Type 0} (z : Lz4 Encoder Decoder) (arch max_phdrs : ℕ)
    (st : ElfInput Decoder)
    → st.reader.file.pos ≤ length st.reader.file.content
    → Ends (read_elf_header z arch max_phdrs st)
read_elf_header-Ends {Encoder} {Decoder} z arch max_phdrs st h =
    ended (read_elf_header z arch max_phdrs st) (
      read_elf_header-Then z st.reader.file.content arch max_phdrs st
        (record { same_content = refl; above = omega arith; below = h }) (omega arith))
  where
    ended :
        (p : Result (Unit {0}) × ElfInput Decoder)
        → Then (Anywhere z st.reader.file.content) p
        → Ends p
    ended (ok u, st) w = record { enough = λ q. cc }
    ended (err e, st) w = record { enough = λ q. w cc }
