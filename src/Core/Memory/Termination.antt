-- ===== src/Core/Memory/Termination.antt =====
-- The loops of `WriteLoads` end by themselves.
use arthur.Base.{
  refl, ℕ, zero, suc, ◌+◌, ◌-◌, ◌≡◌, ◌≤◌, ◌<◌, arith, Bool, true, not, ◌||◌, ◌==◌, ltb, min,
}
use arthur.Base.{List, [], ◌∷◌, Bytes, length, take, drop, length-drop, All}
use arthur.Base.Words.{add_size}
use arthur.Base.Results.{Result, Error, ok, err, Ends, and_then-Ends, if-Ends}
use arthur.Stream.BlockType
use arthur.Stream.Header.{block_size}
use arthur.Stream.Codec.{Lz4}
use arthur.Stream.Writer.{Writer, write_block, set_block}
use arthur.Stream.Writer.Termination.{fails, succeeds, write_block-Ends, set_block-Ends}
use arthur.Core.Loads.{MemRegion, ProgramHeader, Loads, expected_load_phdrs, ssize_max}
use arthur.Core.Memory.Regions.{AreLow}
use arthur.Core.Memory.RoundTrip.{IsRegion, headers-AreLow}
use arthur.Core.Memory.Source.{Filled, fill_buffer}
use arthur.Core.Memory.{
  buffer_size, Dump, on_out, end_region, check_dump, write_buffer, dump_filled, dump_buffer,
  dump_range, dump_region, dump_regions, dump_expected, write_loads,
}

module _ {Encoder : Type 0} where
  on_out-Ends :
      {A : Type 0} (p : Result A × Writer Encoder) (st : Dump Encoder) → Ends p → Ends (on_out p st)
  on_out-Ends (ok a, w) st h = succeeds _ _
  on_out-Ends (err e, w) st h = record { enough = λ q. h.enough cc }

  end_region-Ends :
      (ph : ProgramHeader) (size : ℕ) (st : Dump Encoder) → Ends (end_region ph size st)
  unfolding end_region
  end_region-Ends ph size st =
      if-Ends (not (size == ph.p_filesz)) _ _ (λ _. fails Error.fault st (λ q. cc))
        (λ _. succeeds _ _)

  check_dump-Ends : (total n : ℕ) (st : Dump Encoder) → Ends (check_dump total n st)
  unfolding check_dump
  check_dump-Ends total n st =
      if-Ends (not (n == total) || st.mem_size == 0) _ _ (λ _. fails Error.fault st (λ q. cc))
        (λ _. succeeds _ _)

module _ {Encoder Decoder : Type 0} (z : Lz4 Encoder Decoder) where
  write_buffer-Ends :
      (fuel : ℕ) (s : Bytes) (size : ℕ) (w : Writer Encoder)
      → length s ≤ fuel
      → Ends (write_buffer z fuel s size w)
  unfolding write_buffer
  write_buffer-Ends fuel [] size w h = succeeds _ _
  write_buffer-Ends zero (b ∷ s) size w h = absurd (omega (arith, h))
  write_buffer-Ends (suc fuel) (b ∷ s) size w h =
      and_then-Ends (write_block z (take block_size (b ∷ s)) BlockType.loads w) _
        (write_block-Ends z (take block_size (b ∷ s)) BlockType.loads w)
        λ n w'.
          write_buffer-Ends fuel (drop block_size (b ∷ s)) (add_size size n) w'
            (omega (arith, h, length-drop block_size (b ∷ s)))

  module _ (memory : ℕ → ℕ) where
    dump_filled-Ends :
        (b : Filled) (size : ℕ) (st : Dump Encoder) → Ends (dump_filled z memory b size st)
    dump_filled-Ends b size st =
        if-Ends b.saw_eof _ _ (λ _. fails Error.fault _ (λ q. cc))
          λ _.
            on_out-Ends (write_buffer z (length b.data_read) b.data_read size st.out)
              (record st { answers = b.answers; mem_size = add_size st.mem_size b.got })
              (write_buffer-Ends (length b.data_read) b.data_read size st.out (omega arith))

    -- A region in the lower half of the addresses, with a round for each of its bytes.
    dump_range-Ends :
        (fuel addr end_addr size : ℕ) (st : Dump Encoder)
        → end_addr ≤ ssize_max
        → end_addr - addr ≤ fuel
        → Ends (dump_range z memory fuel addr end_addr size st)
    unfolding dump_range dump_buffer
    dump_range-Ends zero addr end_addr size st low h =
        if-Ends (ltb addr end_addr) _ _ (λ e. absurd (omega (arith, h, below addr end_addr e)))
          (λ _. succeeds _ _)
      where
        below : (a b : ℕ) → ltb a b ≡ true → a < b
        below a b e = ground arith
    dump_range-Ends (suc fuel) addr end_addr size st low h =
        if-Ends (ltb addr end_addr) _ _
          (λ e.
            and_then-Ends
              (dump_filled z memory
                (fill_buffer memory st.answers addr (min (end_addr - addr) buffer_size)) size st)
              _ (dump_filled-Ends _ size st)
              λ size' st'.
                dump_range-Ends fuel (add_size addr buffer_size) end_addr size' st' low
                  (omega (arith, h, low, below addr end_addr e)))
          (λ _. succeeds _ _)
      where
        below : (a b : ℕ) → ltb a b ≡ true → a < b
        below a b e = ground arith

    dump_region-Ends :
        (r : MemRegion) (ph : ProgramHeader) (st : Dump Encoder)
        → r.start_addr + ph.p_filesz ≤ ssize_max
        → Ends (dump_region z memory r ph st)
    unfolding dump_region
    dump_region-Ends r ph st low =
        and_then-Ends (dump_range z memory ph.p_filesz r.start_addr last 0 st) _
          (dump_range-Ends ph.p_filesz r.start_addr last 0 st (omega (arith, no_wrap, low))
            (omega (arith, no_wrap)))
          λ size st'. end_region-Ends ph size st'
      where
        last : ℕ
        last = add_size r.start_addr ph.p_filesz

        no_wrap : last ≡ r.start_addr + ph.p_filesz
        no_wrap = omega (arith, low)

    dump_regions-Ends :
        (maps : List MemRegion) (phdrs : List ProgramHeader) (file_size : ℕ) (st : Dump Encoder)
        → AreLow maps phdrs
        → Ends (dump_regions z memory maps phdrs file_size st)
    unfolding dump_regions
    dump_regions-Ends [] [] file_size st low = succeeds _ _
    dump_regions-Ends [] (ph ∷ phdrs) file_size st low = fails Error.fault st (λ q. cc)
    dump_regions-Ends (r ∷ maps) [] file_size st low = fails Error.fault st (λ q. cc)
    dump_regions-Ends (r ∷ maps) (ph ∷ phdrs) file_size st (low, lows) =
        and_then-Ends (dump_region z memory r ph st) _ (dump_region-Ends r ph st low)
          λ size st'. dump_regions-Ends maps phdrs (add_size file_size size) st' lows

    dump_expected-Ends :
        (opened : Bool) (maps : List MemRegion) (rc : Result (Unit {0})) (loads : Loads)
        (st : Dump Encoder)
        → ((u : Unit {0}) → rc ≡ ok u → AreLow maps loads.phdrs)
        → Ends (dump_expected z memory opened maps (rc, loads) st)
    dump_expected-Ends opened maps (err e) loads st low = fails Error.fault st (λ q. cc)
    dump_expected-Ends opened maps (ok u) loads st low =
        if-Ends (length loads.phdrs == 0 || not opened) _ _ (λ _. fails Error.fault st (λ q. cc))
          λ _.
            and_then-Ends (on_out (set_block z BlockType.loads st.out) st) _
              (on_out-Ends (set_block z BlockType.loads st.out) st
                (set_block-Ends z BlockType.loads st.out))
              λ _ st₁.
                and_then-Ends
                  (dump_regions z memory maps loads.phdrs 0 (record st₁ { mem_size = 0 })) _
                  (dump_regions-Ends maps loads.phdrs 0 (record st₁ { mem_size = 0 }) (low u refl))
                  λ n st₂. check_dump-Ends loads.total_bytes n st₂

-- Whatever the kernel answers and whatever the stream does, WriteLoads ends by itself on regions that
-- are not empty and end in the lower half of the addresses: a round of its loop for each byte of a
-- region is enough.
pub write_loads-Ends :
    {Encoder Decoder : Type 0} (z : Lz4 Encoder Decoder) (memory : ℕ → ℕ) (opened : Bool)
    (maps : List MemRegion) (st : Dump Encoder)
    → All IsRegion maps
    → Ends (write_loads z memory opened maps st)
unfolding write_loads
write_loads-Ends z memory opened maps st regions =
    dump_expected-Ends z memory opened maps (expected_load_phdrs maps).0
      (expected_load_phdrs maps).1 st (headers-AreLow maps regions)
