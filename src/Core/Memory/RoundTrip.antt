-- ===== src/Core/Memory/RoundTrip.antt =====
-- The memory that `WriteLoads` read is what `ReadLoads` puts into the core file.
use arthur.Base.{
  ℕ, ◌+◌, ◌≡◌, ◌≤◌, ◌<◌, refl, sym, ap, ◌∙◌, arith, Bool, false, leb, leb→le, Bool-cases, inl, inr,
}
use arthur.Base.{
  List, [], ◌∷◌, ◌++◌, Bytes, length, drop, All, length-append, length-drop, drop-append,
}
use mathlib.Core.Path.{subst}
use arthur.Base.Words.{IsByte}
use arthur.Base.Results.{Error, ok, err}
use arthur.Stream.BlockType
use arthur.Stream.Block
use arthur.Stream.Header.{header_bytes, make_header}
use arthur.Stream.Header.RoundTrip.{length-header_bytes}
use arthur.Stream.Codec.{Lz4, Lz4Laws}
use arthur.Stream.Writer.Effects.{frame, checksum_field}
use arthur.Stream.Writer.Calls.{IsWriting}
use arthur.Stream.Reader.Files.{Caught}
use arthur.Core.Loads.{MemRegion, file_size, ssize_max, expected_load_phdrs}
use arthur.Core.Loads.Layout.{captured, laid_out, add_phdrs_fits, expected_load_phdrs_overflow}
use arthur.Core.Loads.Process.{EndsLow, size_within}
use arthur.Core.Memory.{Dump, Restore, write_loads, read_loads}
use arthur.Core.Memory.Image.{Refuses}
use arthur.Core.Memory.Blocks.{LoadsBlocks, Written}
use arthur.Core.Memory.Regions.{IsDump, AreLow, headers_of, write_loads_ok}
use arthur.Core.Memory.Restored.{EndsLoads, read_loads_blocks_ok}

-- A region as the kernel lists them, in the lower half of the addresses.
abbrev pub IsRegion : MemRegion → Type 0
IsRegion r = (r.start_addr < r.end_addr) × EndsLow r

headers_laid_out :
    (maps : List MemRegion) → captured maps ≤ ssize_max → headers_of maps ≡ laid_out 0 maps
unfolding expected_load_phdrs
headers_laid_out maps h =
    ap (λ p. p.1.phdrs)
      (add_phdrs_fits maps (record { phdrs = []; total_bytes = 0 }) (omega (arith, h)))

laid_out-AreLow :
    (total : ℕ) (maps : List MemRegion) → All IsRegion maps → AreLow maps (laid_out total maps)
laid_out-AreLow total [] h = tt
laid_out-AreLow total (r ∷ maps) ((v, low), h) =
    (omega (arith, low, size_within r v low), laid_out-AreLow (total + file_size r) maps h)

-- Regions that are laid out are low: there is no wrap in their addresses.
pub headers-AreLow :
    (maps : List MemRegion)
    → All IsRegion maps
    → (u : Unit {0}) → (expected_load_phdrs maps).0 ≡ ok u
    → AreLow maps (headers_of maps)
headers-AreLow maps h u e = elim (Bool-cases (leb (captured maps) ssize_max)) [
  | inl fits ↦
      subst (AreLow maps) (sym (headers_laid_out maps (leb→le (captured maps) ssize_max fits)))
        (laid_out-AreLow 0 maps h)
  | inr over ↦
      absurd
        (refuted (sym e ∙ expected_load_phdrs_overflow maps (above (captured maps) ssize_max over)))
]
  where
    above : (a b : ℕ) → leb a b ≡ false → b < a
    above a b h = ground arith

    refuted : {A : Type 0} {e : Error} {a : A} → ok a ≡ err e → ⊥
    refuted h = cc

length-IsDump :
    (Z : Type 0) (memory : ℕ → ℕ) (total : ℕ) (maps : List MemRegion) (s : Bytes)
    → IsDump Z memory maps (laid_out total maps) s
    → length s ≡ captured maps
length-IsDump Z memory total [] s h = ap length h
length-IsDump Z memory total (r ∷ maps) s (front, back, split, sized, image, h) =
    ap length split
    ∙ length-append front back
    ∙ omega (arith, sized, length-IsDump Z memory (total + file_size r) maps back h)

length-frame : (checks : Bool) (c s : Bytes) → 0 < length (frame checks 0 BlockType.loads c s)
unfolding frame
length-frame checks c s =
    let hdr = make_header 0 BlockType.loads (length c) in
    omega (
      arith,
      length-append (header_bytes hdr) (c ++ checksum_field checks 0 BlockType.loads (length c) s),
      length-header_bytes hdr,
    )

module _ {Encoder Decoder : Type 0} (z : Lz4 Encoder Decoder) where
  length-LoadsBlocks :
      (checks : Bool) (ps : List Bytes) (e e' : Encoder) (out : Bytes)
      → LoadsBlocks z checks e ps out e'
      → length ps ≤ length out
  length-LoadsBlocks checks [] e e' out h = omega arith
  length-LoadsBlocks checks (s ∷ ps) e e' out (c, e₁, rest, q, split, h) = omega (
    arith,
    ap length split,
    length-append (frame checks 0 BlockType.loads c s) rest,
    length-frame checks c s,
    length-LoadsBlocks checks ps e₁ e' rest h,
  )

  added :
      (s : Bytes) (st st' : Dump Encoder)
      (w : Written z s (record st.out { block_type = BlockType.loads }) st'.out)
      → drop (length st.out.file.written) st'.out.file.written ≡ w.blocks
  added s st st' w =
      ap (drop (length st.out.file.written)) w.grown.written
      ∙ drop-append (length st.out.file.written) st.out.file.written w.blocks refl

-- A reader that has caught up with a compressor that has nothing buffered, and is given the blocks that
-- a successful WriteLoads added: ReadLoads, with the budget that the regions have, adds to the core file
-- the bytes of all regions and returns their number. Region by region, these are the bytes of the memory
-- from the region's start on, as many as are stored for it; a byte is zero instead only if the kernel
-- refused to read some of the memory. The regions are not empty and end in the lower half of the
-- addresses, their bytes come to at most SSIZE_MAX, the memory consists of bytes, the core file has
-- room, no LOADS block follows, and the LZ4 library restores what it compressed.
pub read_loads-write_loads :
    {Encoder Decoder : Type 0} {z : Lz4 Encoder Decoder} (laws : Lz4Laws z) (memory : ℕ → ℕ)
    (opened : Bool) (maps : List MemRegion) (st st' : Dump Encoder) (rd : Restore Decoder)
    (more : Bytes)
    → ((a : ℕ) → IsByte (memory a))
    → All IsRegion maps
    → captured maps ≤ ssize_max
    → IsWriting st.out
    → st.out.block ≡ Block.empty
    → write_loads z memory opened maps st ≡ (ok tt, st')
    → EndsLoads more
    → captured maps ≤ rd.fout.room
    → Caught laws st.out.enc st.out.checksums
        (drop (length st.out.file.written) st'.out.file.written ++ more)
        rd.reader
    → (s : Bytes) × IsDump (Refuses st.answers) memory maps (laid_out 0 maps) s
      × (rd' : Restore Decoder) × (read_loads z (captured maps) rd ≡ (ok (captured maps), rd'))
      × (rd'.fout.written ≡ rd.fout.written ++ s)
      × Caught laws st'.out.enc st'.out.checksums more rd'.reader
unfolding read_loads
read_loads-write_loads {z} laws memory opened maps st st' rd more bytes regions fits writing idle
      run last room caught =
    let headers = headers_laid_out maps fits in
    let (s, dump, step) =
      write_loads_ok z memory bytes opened maps st st' writing idle
        (subst (AreLow maps) (sym headers) (laid_out-AreLow 0 maps regions)) run in
    let w = step.written in
    let dump' = subst (λ p. IsDump (Refuses st.answers) memory maps p s) headers dump in
    let sized = ap length w.whole ∙ length-IsDump (Refuses st.answers) memory 0 maps s dump' in
    let here =
      subst (λ t. Caught laws st.out.enc st.out.checksums (t ++ more) rd.reader)
        (added z s st st' w) caught in
    let (rd', result, written, done) =
      read_loads_blocks_ok laws w.pieces_of (length rd.reader.file.content + 1) (captured maps) 0
        w.blocks more st.out.enc st'.out.enc st.out.checksums rd w.each
        (omega (
          arith,
          length-LoadsBlocks z st.out.checksums w.pieces_of st.out.enc st'.out.enc w.blocks
              w.encoded,
          ap length here.next,
          length-append w.blocks more,
          length-drop rd.reader.file.pos rd.reader.file.content,
        ))
        (omega (arith, sized)) fits (omega (arith, sized, room)) w.encoded last here in
    (
      s,
      dump',
      rd',
      result ∙ ap (λ n. (ok n, rd')) (omega (arith, sized)),
      written ∙ ap (λ t. rd.fout.written ++ t) w.whole,
      subst (λ b. Caught laws st'.out.enc b more rd'.reader) (sym w.grown.checksums) done,
    )
