-- ===== src/Core/Loads/Layout.antt =====
-- Where the bytes of each memory region stand among the stored bytes.
use arthur.Base.{
  ℕ, ◌+◌, ◌%◌, ◌^◌, ◌≤◌, ◌<◌, ◌≡◌, sym, ap, ◌∙◌, arith, true, false, ltb, le→ltb, lt→ltb, if_true,
  if_false, zero, suc, refl, ◌-◌, not, ◌==◌, if◌then◌else◌,
}
use arthur.Base.{
  All, List, [], ◌∷◌, ◌++◌, length, append_assoc, append-nil, Bool-cases, inl, inr, leb, leb→le,
  get_or,
}
use arthur.Base.Results.{Result, Error, ok, err}
use arthur.Core.Loads.{
  MemRegion, ProgramHeader, Loads, memory_size, file_size, load_phdr, sub_u64, ssize_max, add_phdrs,
  expected_load_phdrs,
}

-- The bytes that are stored for the regions.
abbrev pub captured : List MemRegion → ℕ
captured [] = 0
captured (region ∷ maps) = file_size region + captured maps

-- A range of addresses of 64 bits.
pub record IsRange (region : MemRegion) : Type 0 where
  pub ordered : region.start_addr ≤ region.end_addr
  pub end_fits : region.end_addr < 2 ^ 64

-- The size of a region of these permissions among the stored bytes: all of it, or nothing where there
-- are no permissions.
abbrev pub stored_size : ℕ → ℕ → ℕ
stored_size zero size = 0
stored_size (suc perms) size = size

abbrev pub stored : MemRegion → ℕ
stored region = stored_size region.perms (region.end_addr - region.start_addr)

abbrev pub total_stored : List MemRegion → ℕ
total_stored [] = 0
total_stored (region ∷ maps) = stored region + total_stored maps

memory_size-IsRange :
    (region : MemRegion) → IsRange region → memory_size region ≡ region.end_addr - region.start_addr
memory_size-IsRange region v = difference region.start_addr region.end_addr v.ordered v.end_fits
  where
    difference : (a b : ℕ) → a ≤ b → b < 2 ^ 64 → sub_u64 b a ≡ b - a
    difference a b h k = omega arith

file_size-IsRange : (region : MemRegion) → IsRange region → file_size region ≡ stored region
file_size-IsRange region v =
    ap (λ n. if not (region.perms == 0) then n else 0) (memory_size-IsRange region v)
    ∙ by_perms region.perms (region.end_addr - region.start_addr)
  where
    some_perms : (perms : ℕ) → not (suc perms == 0) ≡ true
    some_perms perms = ground arith

    by_perms : (perms n : ℕ) → (if not (perms == 0) then n else 0) ≡ stored_size perms n
    by_perms zero n = refl
    by_perms (suc perms) n = if_true _ _ (some_perms perms)

captured-IsRange : (maps : List MemRegion) → All IsRange maps → captured maps ≡ total_stored maps
captured-IsRange [] h = refl
captured-IsRange (region ∷ maps) (v, vs) =
    λ i. file_size-IsRange region v i + captured-IsRange maps vs i

-- The header of each region, at the bytes of those before it.
abbrev pub laid_out : ℕ → List MemRegion → List ProgramHeader
laid_out total [] = []
laid_out total (region ∷ maps) = load_phdr total region ∷ laid_out (total + file_size region) maps

-- The test of one region, and the sum behind it, while the sum is in range.
module _ (total n : ℕ) where
  taken : total + n ≤ ssize_max → ltb (sub_u64 ssize_max total) n ≡ false
  taken h = le→ltb (sub_u64 ssize_max total) n (omega arith)

  refused : total ≤ ssize_max → ssize_max < total + n → ltb (sub_u64 ssize_max total) n ≡ true
  refused h k = lt→ltb (sub_u64 ssize_max total) n (omega arith)

  sum_fits : total + n ≤ ssize_max → (total + n) % 2 ^ 64 ≡ total + n
  sum_fits h = omega arith

pub add_phdrs_fits :
    (maps : List MemRegion) (out : Loads)
    → out.total_bytes + captured maps ≤ ssize_max
    → add_phdrs maps out ≡ (
      ok tt,
      record {
        phdrs = out.phdrs ++ laid_out out.total_bytes maps;
        total_bytes = out.total_bytes + captured maps;
      },
    )
unfolding add_phdrs
add_phdrs_fits [] out h = λ i. (
  ok tt,
  record { phdrs = sym (append-nil out.phdrs) i; total_bytes = none_left out.total_bytes i },
)
  where
    none_left : (n : ℕ) → n ≡ n + 0
    none_left n = omega arith
add_phdrs_fits (region ∷ maps) out h =
    if_false _ _ (taken out.total_bytes n (omega arith))
    ∙ ap (λ t. add_phdrs maps (record { phdrs = phdrs; total_bytes = t }))
        (sum_fits out.total_bytes n (omega arith))
    ∙ add_phdrs_fits maps (record { phdrs = phdrs; total_bytes = out.total_bytes + n })
        (omega arith)
    ∙ λ i. (
      ok tt,
      record {
        phdrs =
            append_assoc out.phdrs (load_phdr out.total_bytes region ∷ [])
              (laid_out (out.total_bytes + n) maps) i;
        total_bytes = regroup out.total_bytes n (captured maps) i;
      },
    )
  where
    n : ℕ
    n = file_size region

    phdrs : List ProgramHeader
    phdrs = out.phdrs ++ (load_phdr out.total_bytes region ∷ [])

    regroup : (a b c : ℕ) → a + b + c ≡ a + (b + c)
    regroup a b c = omega arith

add_phdrs_overflow :
    (maps : List MemRegion) (out : Loads)
    → out.total_bytes ≤ ssize_max
    → ssize_max < out.total_bytes + captured maps
    → (add_phdrs maps out).0 ≡ err Error.fault
unfolding add_phdrs
add_phdrs_overflow [] out h k = absurd (omega arith)
add_phdrs_overflow (region ∷ maps) out h k =
    elim (Bool-cases (leb (out.total_bytes + n) ssize_max)) [
      | inl small ↦
          let fits = leb→le (out.total_bytes + n) ssize_max small in
          ap (λ (p : Result (Unit {0}) × Loads). p.0) (if_false _ _ (taken out.total_bytes n fits))
          ∙ ap (λ t. (add_phdrs maps (record { phdrs = phdrs; total_bytes = t })).0)
              (sum_fits out.total_bytes n fits)
          ∙ add_phdrs_overflow maps (record { phdrs = phdrs; total_bytes = out.total_bytes + n })
              fits (omega arith)
      | inr large ↦
          ap (λ (p : Result (Unit {0}) × Loads). p.0)
            (if_true _ _ (refused out.total_bytes n h (over (out.total_bytes + n) ssize_max large)))
    ]
  where
    n : ℕ
    n = file_size region

    phdrs : List ProgramHeader
    phdrs = out.phdrs ++ (load_phdr out.total_bytes region ∷ [])

    over : (a b : ℕ) → leb a b ≡ false → b < a
    over a b h = ground arith

get_or-laid_out :
    (front back : List MemRegion) (region : MemRegion) (total : ℕ) (d : ProgramHeader)
    → get_or (laid_out total (front ++ (region ∷ back))) (length front) d
      ≡ load_phdr (total + captured front) region
get_or-laid_out [] back region total d = ap (λ t. load_phdr t region) (none_left total)
  where
    none_left : (n : ℕ) → n ≡ n + 0
    none_left n = omega arith
get_or-laid_out (m ∷ front) back region total d =
    get_or-laid_out front back region (total + file_size m) d
    ∙ ap (λ t. load_phdr t region) (regroup total (file_size m) (captured front))
  where
    regroup : (a b c : ℕ) → a + b + c ≡ a + (b + c)
    regroup a b c = omega arith

split-IsRange :
    (front back : List MemRegion)
    → All IsRange (front ++ back)
    → All IsRange front × All IsRange back
split-IsRange [] back h = (tt, h)
split-IsRange (region ∷ front) back (v, vs) =
    let (in_front, behind) = split-IsRange front back vs in ((v, in_front), behind)

-- While the bytes of all regions come to at most SSIZE_MAX, the program headers are built: the header
-- of each region stands at the region's index, is of type PT_LOAD, has the region's permissions, address
-- and size, and points at the sum of the bytes that are stored for the regions before it; the total is
-- the sum for all regions. Of a region without permissions no bytes are stored, of the others all. The
-- regions are ranges of addresses of 64 bits.
pub expected_load_phdrs_fits :
    (front back : List MemRegion) (region : MemRegion) (d : ProgramHeader)
    → All IsRange (front ++ (region ∷ back))
    → total_stored (front ++ (region ∷ back)) ≤ ssize_max
    → (out : Loads) × (expected_load_phdrs (front ++ (region ∷ back)) ≡ (ok tt, out))
      × (get_or out.phdrs (length front) d ≡ record {
        p_type = 1;
        p_flags = region.perms;
        p_offset = total_stored front;
        p_vaddr = region.start_addr;
        p_paddr = 0;
        p_filesz = stored region;
        p_memsz = region.end_addr - region.start_addr;
        p_align = 1;
      })
      × (out.total_bytes ≡ total_stored (front ++ (region ∷ back)))
unfolding expected_load_phdrs
expected_load_phdrs_fits front back region d v h =
    let maps = front ++ (region ∷ back) in
    let sum = captured-IsRange maps v in
    let (v_front, (v_region, _)) = split-IsRange front (region ∷ back) v in
    (
      record { phdrs = laid_out 0 maps; total_bytes = 0 + captured maps },
      add_phdrs_fits maps (record { phdrs = []; total_bytes = 0 }) (omega (arith, sum, h)),
      get_or-laid_out front back region 0 d ∙ ap (λ t. load_phdr t region) (omega arith) ∙ λ i.
          record {
            p_type = 1;
            p_flags = region.perms;
            p_offset = captured-IsRange front v_front i;
            p_vaddr = region.start_addr;
            p_paddr = 0;
            p_filesz = file_size-IsRange region v_region i;
            p_memsz = memory_size-IsRange region v_region i;
            p_align = 1;
          },
      omega (arith, sum),
    )

-- Where the bytes of all regions come to more than SSIZE_MAX, the function fails.
pub expected_load_phdrs_overflow :
    (maps : List MemRegion)
    → ssize_max < captured maps
    → (expected_load_phdrs maps).0 ≡ err Error.fault
unfolding expected_load_phdrs
expected_load_phdrs_overflow maps h =
    add_phdrs_overflow maps (record { phdrs = []; total_bytes = 0 }) (omega arith) (omega arith)
