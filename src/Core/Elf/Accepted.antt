-- ===== src/Core/Elf/Accepted.antt =====
-- What `ReadElfHeader` leaves in `_ehdr` and `_phdrs`, whatever the file.
use arthur.Base.{
  ==_iff, and_split, ◌&&◌, ℕ, zero, suc, ◌+◌, ◌≡◌, ◌≤◌, ◌<◌, refl, sym, arith, Bool, true, false,
  not, ◌==◌, ◌||◌, if◌then◌else◌, leb,
}
use arthur.Base.{[], ◌∷◌, Bytes, take, length, length-append, All, All-append}
use mathlib.Core.Path.{subst}
use arthur.Base.Results.{Result, Error, ok, err, and_then, and_then-keep, if-keep, if-keep_known}
use arthur.Stream.Header.{BlockHeader, header_length}
use arthur.Stream.BlockType
use arthur.Stream.Block
use arthur.Stream.Reader.{Reader, read_block, peek}
use arthur.Stream.Codec.{Lz4}
use arthur.Core.FileHeader.{arch_x64, arch_aarch64, same_bytes}
use arthur.Core.Loads.{ProgramHeader, pt_load}
use arthur.Core.Elf.{ElfHeader, ehdr_size, phdr_size, ehdr_of, phdr_of}
use arthur.Core.Elf.Input.{
  ElfInput, is_core_layout, is_other_machine, on_block, on_stream, push_phdr, read_phdr, read_phdrs,
  check_first, take_ehdr, another, read_elf_blocks, read_elf_header,
}

abbrev pub IsLoad : ProgramHeader → Type 0
IsLoad phdr = phdr.p_type ≡ pt_load

-- Only PT_LOAD headers, and no more than the budget.
pub record IsWithin {Decoder : Type 0} (max_phdrs : ℕ) (st : ElfInput Decoder) : Type 0 where
  pub loads : All IsLoad st.phdrs
  pub bounded : length st.phdrs ≤ max_phdrs

-- The header of a core file that the dump writes: of 64-bit little-endian ELF, of the type of a core
-- file, with program headers of 56 bytes right behind it and no sections, for the machine of the
-- architecture.
pub record IsCoreHeader (arch : ℕ) (e : ElfHeader) : Type 0 where
  pub ident : take 7 e.e_ident ≡ 127 ∷ 69 ∷ 76 ∷ 70 ∷ 2 ∷ 1 ∷ 1 ∷ []
  pub type_is : e.e_type ≡ 4
  pub version_is : e.e_version ≡ 1
  pub phoff_is : e.e_phoff ≡ 64
  pub ehsize_is : e.e_ehsize ≡ 64
  pub phentsize_is : e.e_phentsize ≡ 56
  pub shoff_is : e.e_shoff ≡ 0
  pub shnum_is : e.e_shnum ≡ 0
  pub machine_x64 : arch ≡ arch_x64 → e.e_machine ≡ 62
  pub machine_aarch64 : arch ≡ arch_aarch64 → e.e_machine ≡ 183

same_bytes-eq : (s t : Bytes) → same_bytes s t ≡ true → s ≡ t
same_bytes-eq [] [] h = refl
same_bytes-eq [] (y ∷ t) h = cc
same_bytes-eq (x ∷ s) [] h = cc
same_bytes-eq (x ∷ s) (y ∷ t) h =
    let (first, others) = and_split h in λ i. (==_iff x y).0 first i ∷ same_bytes-eq s t others i

checks-IsCoreHeader :
    (arch : ℕ) (e : ElfHeader)
    → is_core_layout e ≡ true
    → is_other_machine arch e ≡ false
    → IsCoreHeader arch e
unfolding is_core_layout is_other_machine
checks-IsCoreHeader arch e h k =
    let (ident, h₁) = and_split h in
    let (type, h₂) = and_split h₁ in
    let (version, h₃) = and_split h₂ in
    let (phoff, h₄) = and_split h₃ in
    let (ehsize, h₅) = and_split h₄ in
    let (phentsize, h₆) = and_split h₅ in
    let (shoff, shnum) = and_split h₆ in
    record {
      ident = same_bytes-eq _ _ ident;
      type_is = (==_iff _ _).0 type;
      version_is = (==_iff _ _).0 version;
      phoff_is = (==_iff _ _).0 phoff;
      ehsize_is = (==_iff _ _).0 ehsize;
      phentsize_is = (==_iff _ _).0 phentsize;
      shoff_is = (==_iff _ _).0 shoff;
      shnum_is = (==_iff _ _).0 shnum;
      machine_x64 = λ q. on_x64 arch e.e_machine k q;
      machine_aarch64 = λ q. on_aarch64 arch e.e_machine k q;
    }
  where
    other : ℕ → ℕ → Bool
    other arch m = (arch == arch_x64 && not (m == 62)) || (arch == arch_aarch64 && not (m == 183))

    on_x64 : (arch m : ℕ) → other arch m ≡ false → arch ≡ arch_x64 → m ≡ 62
    on_x64 arch m k q = ground arith

    on_aarch64 : (arch m : ℕ) → other arch m ≡ false → arch ≡ arch_aarch64 → m ≡ 183
    on_aarch64 arch m k q = ground arith

-- What is left where the call succeeds.
pub record IsAccepted {Decoder : Type 0} (arch max_phdrs : ℕ) (st : ElfInput Decoder) : Type 0 where
  pub within : IsWithin max_phdrs st
  pub header : IsCoreHeader arch st.ehdr

module _ {Decoder : Type 0} (ehdr : ElfHeader) (max_phdrs : ℕ) where
  -- What the reading of program headers keeps.
  record Keeps (st : ElfInput Decoder) : Type 0 where
    same_ehdr : st.ehdr ≡ ehdr
    within : IsWithin max_phdrs st

  push_phdr-Keeps :
      (phdr : ProgramHeader) (st : ElfInput Decoder)
      → length st.phdrs < max_phdrs
      → Keeps st
      → Keeps (push_phdr phdr st).1
  unfolding push_phdr
  push_phdr-Keeps phdr st room h =
      if-keep_known Keeps (not (phdr.p_type == pt_load)) (err Error.fault, st) _ (λ _. h)
        λ is_load. record {
          same_ehdr = h.same_ehdr;
          within = record {
            loads =
                All-append IsLoad st.phdrs (phdr ∷ []) h.within.loads
                  (load_type phdr.p_type is_load, tt);
            bounded = omega (arith, room, length-append st.phdrs (phdr ∷ []));
          };
        }
    where
      load_type : (n : ℕ) → not (n == pt_load) ≡ false → n ≡ pt_load
      load_type n h = ground arith

  read_phdr-Keeps : (st : ElfInput Decoder) → Keeps st → Keeps (read_phdr max_phdrs st).1
  unfolding read_phdr
  read_phdr-Keeps st h =
      if-keep_known Keeps (leb max_phdrs (length st.phdrs)) (err Error.fault, st) _ (λ _. h)
        λ room. after (Block.read phdr_size st.reader.block) (below (length st.phdrs) room)
    where
      below : (n : ℕ) → leb max_phdrs n ≡ false → n < max_phdrs
      below n h = ground arith

      after :
          (p : Result Bytes × Block.Block)
          → length st.phdrs < max_phdrs
          → Keeps (and_then (on_block p st) λ bs st'. push_phdr (phdr_of bs) st').1
      after (ok bs, block) room = push_phdr-Keeps (phdr_of bs) _ room (record {
        same_ehdr = h.same_ehdr;
        within = record { loads = h.within.loads; bounded = h.within.bounded };
      })
      after (err e, block) room = record {
        same_ehdr = h.same_ehdr;
        within = record { loads = h.within.loads; bounded = h.within.bounded };
      }

  read_phdrs-Keeps :
      (fuel : ℕ) (st : ElfInput Decoder) → Keeps st → Keeps (read_phdrs fuel max_phdrs st).1
  unfolding read_phdrs
  read_phdrs-Keeps zero st h =
      if-keep Keeps (Block.size st.reader.block == 0) (ok tt, st) (err Error.out_of_fuel, st) h h
  read_phdrs-Keeps (suc fuel) st h =
      if-keep Keeps (Block.size st.reader.block == 0) (ok tt, st) _ h
        (and_then-keep Keeps (read_phdr max_phdrs st) _ (read_phdr-Keeps st h)
          (λ _ st' h'. read_phdrs-Keeps fuel st' h'))

  on_stream-Keeps :
      {A : Type 0} (p : Result A × Reader Decoder) (st : ElfInput Decoder)
      → Keeps st
      → Keeps (on_stream p st).1
  on_stream-Keeps (res, r) st h = record {
    same_ehdr = h.same_ehdr;
    within = record { loads = h.within.loads; bounded = h.within.bounded };
  }

  module _ {Encoder : Type 0} (z : Lz4 Encoder Decoder) where
    read_elf_blocks-Keeps :
        (fuel : ℕ) (st : ElfInput Decoder)
        → Keeps st
        → Keeps (read_elf_blocks z fuel max_phdrs st).1
    unfolding read_elf_blocks
    read_elf_blocks-Keeps zero st h = h
    read_elf_blocks-Keeps (suc fuel) st h =
        and_then-keep Keeps (read_phdrs (Block.size st.reader.block) max_phdrs st) _
          (read_phdrs-Keeps (Block.size st.reader.block) st h)
          λ _ st₁ h₁.
            and_then-keep Keeps (on_stream (peek header_length st₁.reader) st₁) _
              (on_stream-Keeps (peek header_length st₁.reader) st₁ h₁)
              λ got st₂ h₂.
                if-keep Keeps (not (another z got)) (ok tt, st₂) _ h₂
                  (and_then-keep Keeps (on_stream (read_block z st₂.reader) st₂) _
                    (on_stream-Keeps (read_block z st₂.reader) st₂ h₂)
                    (λ _ st₃ h₃. read_elf_blocks-Keeps fuel st₃ h₃))

module _ {Decoder : Type 0} (max_phdrs : ℕ) where
  -- `Q` where the call succeeded, and the budget where it failed.
  abbrev pub Outcome :
      {A : Type 0} → (ElfInput Decoder → Type 0) → Result A × ElfInput Decoder → Type 0
  Outcome Q (ok a, st) = Q st
  Outcome Q (err e, st) = IsWithin max_phdrs st

  and_then-Outcome :
      {A B : Type 0} (Q R : ElfInput Decoder → Type 0) (p : Result A × ElfInput Decoder)
      (f : A → ElfInput Decoder → Result B × ElfInput Decoder)
      → Outcome Q p
      → ((a : A) (st : ElfInput Decoder) → Q st → Outcome R (f a st))
      → Outcome R (and_then p f)
  and_then-Outcome Q R (ok a, st) f h k = k a st h
  and_then-Outcome Q R (err e, st) f h k = h

  stream-Outcome :
      {A : Type 0} (p : Result A × Reader Decoder) (st : ElfInput Decoder)
      → IsWithin max_phdrs st
      → Outcome (IsWithin max_phdrs) (on_stream p st)
  stream-Outcome (ok a, r) st h = record { loads = h.loads; bounded = h.bounded }
  stream-Outcome (err e, r) st h = record { loads = h.loads; bounded = h.bounded }

  block-Outcome :
      {A : Type 0} (p : Result A × Block.Block) (st : ElfInput Decoder)
      → IsWithin max_phdrs st
      → Outcome (IsWithin max_phdrs) (on_block p st)
  block-Outcome (ok a, block) st h = record { loads = h.loads; bounded = h.bounded }
  block-Outcome (err e, block) st h = record { loads = h.loads; bounded = h.bounded }

  if-Outcome :
      {A : Type 0} (Q : ElfInput Decoder → Type 0) (b : Bool) (e : Error) (st : ElfInput Decoder)
      (p : Result A × ElfInput Decoder)
      → IsWithin max_phdrs st
      → (b ≡ false → Outcome Q p)
      → Outcome Q (if b then (err e, st) else p)
  if-Outcome Q true e st p h k = h
  if-Outcome Q false e st p h k = k refl

  check_first-Outcome :
      (hdr : BlockHeader) (st : ElfInput Decoder)
      → IsWithin max_phdrs st
      → Outcome (IsWithin max_phdrs) (check_first hdr st)
  unfolding check_first
  check_first-Outcome hdr st h =
      if-Outcome (IsWithin max_phdrs)
        (not (hdr.block_type == BlockType.elf) || not (hdr.prev_cont == 0)) Error.fault st
        (ok tt, st) h (λ _. h)

  take_ehdr-Outcome :
      (arch : ℕ) (bs : Bytes) (st : ElfInput Decoder)
      → IsWithin max_phdrs st
      → Outcome (IsAccepted arch max_phdrs) (take_ehdr arch bs st)
  unfolding take_ehdr
  take_ehdr-Outcome arch bs st h =
      if-Outcome (IsAccepted arch max_phdrs)
        (is_other_machine arch (ehdr_of bs) || not (is_core_layout (ehdr_of bs))) Error.fault
        (record st { ehdr = ehdr_of bs }) _ within
        λ passed.
          let (machine, layout) =
            both (is_other_machine arch (ehdr_of bs)) (is_core_layout (ehdr_of bs)) passed in
          record { within = within; header = checks-IsCoreHeader arch (ehdr_of bs) layout machine }
    where
      within : IsWithin max_phdrs (record st { ehdr = ehdr_of bs })
      within = record { loads = h.loads; bounded = h.bounded }

      both : (a b : Bool) → (a || not b) ≡ false → (a ≡ false) × (b ≡ true)
      both true b h = cc
      both false true h = (refl, refl)
      both false false h = cc

  blocks-Outcome :
      (arch : ℕ) (st : ElfInput Decoder) (p : Result (Unit {0}) × ElfInput Decoder)
      → IsAccepted arch max_phdrs st
      → Keeps st.ehdr max_phdrs p.1
      → Outcome (IsAccepted arch max_phdrs) p
  blocks-Outcome arch st (ok u, st') v h = record {
    within = h.within;
    header = subst (IsCoreHeader arch) (sym h.same_ehdr) v.header;
  }
  blocks-Outcome arch st (err e, st') v h = h.within

-- Whatever the file holds, `ReadElfHeader` collects only PT_LOAD headers, and no more than its budget;
-- where it succeeds, `_ehdr` starts with the magic bytes of 64-bit little-endian ELF of version 1, has
-- the type ET_CORE (4) and the version 1, its program headers of 56 bytes stand behind its own 64 bytes,
-- it has no sections, and on x64 its machine is 62, on AArch64 183. It starts without program headers.
pub read_elf_header-Outcome :
    {Encoder Decoder : Type 0} (z : Lz4 Encoder Decoder) (arch max_phdrs : ℕ)
    (st : ElfInput Decoder)
    → st.phdrs ≡ []
    → Outcome max_phdrs (IsAccepted arch max_phdrs) (read_elf_header z arch max_phdrs st)
unfolding read_elf_header
read_elf_header-Outcome z arch max_phdrs st empty =
    and_then-Outcome max_phdrs (IsWithin max_phdrs) (IsAccepted arch max_phdrs)
      (on_stream (read_block z st.reader) st) _
      (stream-Outcome max_phdrs (read_block z st.reader) st start)
      λ hdr st₁ h₁.
        and_then-Outcome max_phdrs (IsWithin max_phdrs) (IsAccepted arch max_phdrs)
          (check_first hdr st₁) _ (check_first-Outcome max_phdrs hdr st₁ h₁)
          λ _ st₂ h₂.
            and_then-Outcome max_phdrs (IsWithin max_phdrs) (IsAccepted arch max_phdrs)
              (on_block (Block.read ehdr_size st₂.reader.block) st₂) _
              (block-Outcome max_phdrs (Block.read ehdr_size st₂.reader.block) st₂ h₂)
              λ bs st₃ h₃.
                and_then-Outcome max_phdrs (IsAccepted arch max_phdrs) (IsAccepted arch max_phdrs)
                  (take_ehdr arch bs st₃) _ (take_ehdr-Outcome max_phdrs arch bs st₃ h₃)
                  λ _ st₄ h₄.
                    blocks-Outcome max_phdrs arch st₄
                      (read_elf_blocks z (length st.reader.file.content + 1) max_phdrs st₄) h₄
                      (read_elf_blocks-Keeps st₄.ehdr max_phdrs z
                        (length st.reader.file.content + 1) st₄
                        (record { same_ehdr = refl; within = h₄.within }))
  where
    start : IsWithin max_phdrs st
    start = record {
      loads = subst (All IsLoad) (sym empty) tt;
      bounded = subst (λ phdrs. length phdrs ≤ max_phdrs) (sym empty) (omega arith);
    }
