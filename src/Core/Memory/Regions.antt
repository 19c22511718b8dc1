-- ===== src/Core/Memory/Regions.antt =====
-- What `WriteLoads` puts into the stream for all regions, where it succeeds.
use arthur.Base.{
  ℕ, ◌+◌, ◌≡◌, ◌≤◌, refl, sym, ap, ◌∙◌, arith, Bool, true, false, not, ◌||◌, ◌&&◌, ◌==◌,
  unless_true, if_false,
}
use arthur.Base.{List, [], ◌∷◌, ◌++◌, Bytes, length, append-nil}
use mathlib.Core.Path.{subst}
use arthur.Base.Words.{IsByte, add_size}
use arthur.Base.Results.{Result, ok, err, and_then}
use arthur.Stream.BlockType
use arthur.Stream.Block
use arthur.Stream.Codec.{Lz4}
use arthur.Stream.Writer.{Writer, set_block}
use arthur.Stream.Writer.Calls.{IsWriting}
use arthur.Core.Loads.{MemRegion, ProgramHeader, Loads, expected_load_phdrs, ssize_max}
use arthur.Core.Memory.{
  Dump, on_out, end_region, check_dump, dump_range, dump_region, dump_regions, dump_expected,
  write_loads,
}
use arthur.Core.Memory.Image.{Refuses, IsImage}
use arthur.Core.Memory.Blocks.{Written-refl}
use arthur.Base.Results.{After, and_then-After, if-After, After-map}
use arthur.Core.Memory.Dumped.{IsDumping, Step, Step-trans, Step-IsDumping, Added, dump_range-After}

-- Each region's bytes, as many as its program header says.
abbrev pub IsDump : Type 0 → (ℕ → ℕ) → List MemRegion → List ProgramHeader → Bytes → Type 0
IsDump Z memory [] phdrs s = s ≡ []
IsDump Z memory (r ∷ maps) [] s = ⊥
IsDump Z memory (r ∷ maps) (ph ∷ phdrs) s =
    (front : Bytes) × (back : Bytes) × (s ≡ front ++ back)
    × (length front ≡ ph.p_filesz)
    × IsImage Z memory r.start_addr front
    × IsDump Z memory maps phdrs back

-- Regions whose stored bytes end in the lower half of the addresses.
abbrev pub AreLow : List MemRegion → List ProgramHeader → Type 0
AreLow [] phdrs = Unit {0}
AreLow (r ∷ maps) [] = Unit {0}
AreLow (r ∷ maps) (ph ∷ phdrs) = (r.start_addr + ph.p_filesz ≤ ssize_max) × AreLow maps phdrs

module _ {Encoder Decoder : Type 0} (z : Lz4 Encoder Decoder) (Z : Type 0) (memory : ℕ → ℕ)
    (bytes : (a : ℕ) → IsByte (memory a)) where
  abbrev RegionAdded : MemRegion → ProgramHeader → Dump Encoder → Dump Encoder → Type 0
  RegionAdded r ph st st' =
      (s : Bytes) × (length s ≡ ph.p_filesz)
      × IsImage Z memory r.start_addr s
      × Step z Z memory bytes s (ph ∷ []) st st'

  end_region-After :
      (r : MemRegion) (ph : ProgramHeader) (k size : ℕ) (st st₁ : Dump Encoder)
      → Added z Z memory bytes r.start_addr k 0 st size st₁
      → After (λ _ st'. RegionAdded r ph st st') (end_region ph size st₁)
  unfolding end_region
  end_region-After r ph k size st st₁ (s, m, l, n, v) =
      if-After _ (not (size == ph.p_filesz)) _ _ (λ _. tt)
        λ e. (
          s,
          omega (arith, l, n, equal size ph.p_filesz e),
          m,
          record {
            written = v.written;
            headers = ap (λ x. x ++ (ph ∷ [])) (v.headers ∙ append-nil st.phdrs);
            refusals = v.refusals;
          },
        )
    where
      equal : (a b : ℕ) → not (a == b) ≡ false → a ≡ b
      equal a b h = ground arith

  dump_region-After :
      (r : MemRegion) (ph : ProgramHeader) (st : Dump Encoder)
      → IsDumping z Z memory bytes st
      → r.start_addr + ph.p_filesz ≤ ssize_max
      → After (λ _ st'. RegionAdded r ph st st') (dump_region z memory r ph st)
  unfolding dump_region
  dump_region-After r ph st v low =
      subst
        (λ last.
          After (λ _ st'. RegionAdded r ph st st')
            (and_then (dump_range z memory ph.p_filesz r.start_addr last 0 st) (end_region ph)))
        (sym no_wrap)
        (and_then-After _ _
          (dump_range z memory ph.p_filesz r.start_addr (r.start_addr + ph.p_filesz) 0 st)
          (end_region ph)
          (dump_range-After z Z memory bytes ph.p_filesz r.start_addr (r.start_addr + ph.p_filesz) 0
            st v low (omega (arith, low)))
          λ size st₁ a. end_region-After r ph _ size st st₁ a)
    where
      no_wrap : add_size r.start_addr ph.p_filesz ≡ r.start_addr + ph.p_filesz
      no_wrap = omega (arith, low)

  -- The bytes of all regions, and their headers.
  abbrev pub AllAdded : List MemRegion → List ProgramHeader → Dump Encoder → Dump Encoder → Type 0
  AllAdded maps phdrs st st' =
      (s : Bytes) × IsDump Z memory maps phdrs s × Step z Z memory bytes s phdrs st st'

  RegionAdded-trans :
      (r : MemRegion) (ph : ProgramHeader) (maps : List MemRegion) (phdrs : List ProgramHeader)
      (st st₁ st₂ : Dump Encoder)
      → RegionAdded r ph st st₁
      → AllAdded maps phdrs st₁ st₂
      → AllAdded (r ∷ maps) (ph ∷ phdrs) st st₂
  RegionAdded-trans r ph maps phdrs st st₁ st₂ (s, l, m, v) (t, d, w) = (
    s ++ t,
    (s, t, refl, l, m, d),
    Step-trans z Z memory bytes s t (ph ∷ []) phdrs st st₁ st₂ v w,
  )

  dump_regions-After :
      (maps : List MemRegion) (phdrs : List ProgramHeader) (file_size : ℕ) (st : Dump Encoder)
      → IsDumping z Z memory bytes st
      → AreLow maps phdrs
      → After (λ _ st'. AllAdded maps phdrs st st') (dump_regions z memory maps phdrs file_size st)
  unfolding dump_regions
  dump_regions-After [] [] file_size st v low = (
    [],
    refl,
    record {
      written = Written-refl z st.out v.writing v.drained;
      headers = sym (append-nil st.phdrs);
      refusals = v.refusals;
    },
  )
  dump_regions-After [] (ph ∷ phdrs) file_size st v low = tt
  dump_regions-After (r ∷ maps) [] file_size st v low = tt
  dump_regions-After (r ∷ maps) (ph ∷ phdrs) file_size st v (low, lows) =
      and_then-After _ _ (dump_region z memory r ph st) _ (dump_region-After r ph st v low)
        λ size st₁ a.
          After-map _ _ (dump_regions z memory maps phdrs (add_size file_size size) st₁)
            (λ _ st₂ k. RegionAdded-trans r ph maps phdrs st st₁ st₂ a k)
            (dump_regions-After maps phdrs (add_size file_size size) st₁
              (Step-IsDumping z Z memory bytes a.0 (ph ∷ []) st st₁ a.3) lows)

  -- The stream with its block type set.
  abbrev pub typed : Dump Encoder → Dump Encoder
  typed st = record st { out = record st.out { block_type = BlockType.loads }; mem_size = 0 }

  set_block-idle :
      (w : Writer Encoder)
      → IsWriting w
      → w.block ≡ Block.empty
      → set_block z BlockType.loads w ≡ (ok tt, record w { block_type = BlockType.loads })
  unfolding set_block
  set_block-idle w v e =
      unless_true _ _ v.is_open
      ∙ if_false _ _ (idle (BlockType.loads == w.block_type) (ap Block.is_empty e))
    where
      idle : (b : Bool) {c : Bool} → c ≡ true → (not b && not c) ≡ false
      idle true h = refl
      idle false {c = true} h = refl
      idle false {c = false} h = cc

  check_dump-After :
      (Q : Dump Encoder → Type 0) (total n : ℕ) (st : Dump Encoder)
      → Q st
      → After (λ _ st'. Q st') (check_dump total n st)
  unfolding check_dump
  check_dump-After Q total n st q =
      if-After _ (not (n == total) || st.mem_size == 0) _ _ (λ _. tt) (λ _. q)

  dump_expected-After :
      (opened : Bool) (maps : List MemRegion) (loads : Loads) (rc : Result (Unit {0}))
      (st : Dump Encoder)
      → IsDumping z Z memory bytes st
      → AreLow maps loads.phdrs
      → After
          (λ _ st'. AllAdded maps loads.phdrs (typed st) st')
          (dump_expected z memory opened maps (rc, loads) st)
  dump_expected-After opened maps loads (err e) st v low = tt
  dump_expected-After opened maps loads (ok u) st v low =
      if-After _ (length loads.phdrs == 0 || not opened) _ _ (λ _. tt)
        λ _.
          subst
            (λ p.
              After (λ _ st'. AllAdded maps loads.phdrs (typed st) st')
                (and_then (on_out p st) rest))
            (sym (set_block-idle st.out v.writing v.drained))
            (and_then-After _ _ (dump_regions z memory maps loads.phdrs 0 (typed st))
              (check_dump loads.total_bytes)
              (dump_regions-After maps loads.phdrs 0 (typed st) start low)
              λ n st' a. check_dump-After _ loads.total_bytes n st' a)
    where
      start : IsDumping z Z memory bytes (typed st)
      start = record {
        writing = record {
          is_open = v.writing.is_open;
          ring = v.writing.ring;
          at_start = v.writing.at_start;
          sound = v.writing.sound;
        };
        drained = v.drained;
        refusals = v.refusals;
      }

      rest : Unit {0} → Dump Encoder → Result (Unit {0}) × Dump Encoder
      rest _ st₁ =
          and_then (dump_regions z memory maps loads.phdrs 0 (record st₁ { mem_size = 0 }))
            (check_dump loads.total_bytes)

-- The program headers of the regions.
abbrev pub headers_of : List MemRegion → List ProgramHeader
headers_of maps = (expected_load_phdrs maps).1.phdrs

-- Where `WriteLoads` succeeds on a stream with nothing buffered, it has added LOADS blocks for the bytes
-- of all regions, and their headers.
pub write_loads_ok :
    {Encoder Decoder : Type 0} (z : Lz4 Encoder Decoder) (memory : ℕ → ℕ)
    (bytes : (a : ℕ) → IsByte (memory a)) (opened : Bool) (maps : List MemRegion)
    (st st' : Dump Encoder)
    → IsWriting st.out
    → st.out.block ≡ Block.empty
    → AreLow maps (headers_of maps)
    → write_loads z memory opened maps st ≡ (ok tt, st')
    → AllAdded z
        (Refuses st.answers)
        memory
        bytes
        maps
        (headers_of maps)
        (typed z (Refuses st.answers) memory bytes st)
        st'
unfolding write_loads
write_loads_ok z memory bytes opened maps st st' v e low h =
    subst
      (After λ _ st₁.
        AllAdded z (Refuses st.answers) memory bytes maps (headers_of maps)
          (typed z (Refuses st.answers) memory bytes st) st₁)
      h
      (dump_expected-After z (Refuses st.answers) memory bytes opened maps
        (expected_load_phdrs maps).1 (expected_load_phdrs maps).0 st
        (record { writing = v; drained = e; refusals = λ r. r }) low)
