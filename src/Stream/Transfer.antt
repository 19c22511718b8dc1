-- ===== src/Stream/Transfer.antt =====
-- A file that `PutFile` stored is the file that `GetFile` returns.
use arthur.Base.{ℕ, ◌+◌, ◌-◌, ◌≤◌, ◌<◌, ◌^◌, ◌≡◌, refl, sym, ap, ◌∙◌, arith, ◌==◌}
use arthur.Base.{true, false, not, if◌then◌else◌, if_true, if_false, unless_true, le→ltb}
use arthur.Base.{[], ◌++◌, Bytes, length, All, append_assoc, ==_refl, drop, drop-append}
use mathlib.Core.Path.{subst}
use arthur.Base.Results.{Result, ok, and_then}
use arthur.Base.Words.{IsByte, le_bytes, le_value, length-le_bytes, le_value-le_bytes}
use arthur.Base.Files.{rest_of, fread_front, rest_of-advance}
use arthur.Stream.Codec.{Lz4, Lz4Laws}
use arthur.Stream.ProcFile.{
  ProcFile, IsProcFile, memory_of, serialized_size, proc_header, max_proc_file_size,
}
use arthur.Stream.FileRecord.{
  IsStoredFile, put_file_ok, length-memory_of, memory_of-IsByte, of_memory-memory_of,
}
use arthur.Stream.Writer.{Writer, flush, put_file, int_max}
use arthur.Stream.Writer.Calls.{IsWriting}
use arthur.Stream.Pieces.{pieces, joined-pieces, pieces-IsPiece, length-pieces}
use arthur.Stream.Reader.{Reader, read_raw}
use arthur.Stream.Reader.GetFile.{check_file, get_sized, get_file, corrupt}
use arthur.Stream.Reader.Files.{Caught, read_pieces_ok}

module _ {Decoder : Type 0} where
  -- What `ReadRaw` hands over when the bytes are there.
  pub read_raw_ok :
      (bs more : Bytes) (n : ℕ) (r : Reader Decoder)
      → r.opened ≡ true
      → n ≡ length bs
      → 0 < n
      → n ≤ int_max
      → rest_of r.file ≡ bs ++ more
      → read_raw n r ≡ (ok bs, record r { file = record r.file { pos = r.file.pos + n } })
  unfolding read_raw
  read_raw_ok bs more n r is_open all nonempty small at_bytes =
      unless_true _ _ is_open
      ∙ if_false _ _ (le→ltb int_max n small)
      ∙ if_false _ _ (nonzero n nonempty)
      ∙ ap (λ p. (ok p.0, record r { file = p.1 })) (fread_front n r.file bs more at_bytes all)
    where
      nonzero : (n : ℕ) → 0 < n → (n == 0) ≡ false
      nonzero n h = ground arith

  -- The final checks of `GetFile` on the memory of the object that was stored.
  check_file_ok :
      (pf : ProcFile) (r : Reader Decoder)
      → IsProcFile pf
      → check_file (serialized_size pf) (memory_of pf) r ≡ (ok pf, r)
  unfolding check_file
  check_file_ok pf r v =
      unless_true _ _ (
        ap (λ n. n == serialized_size pf) (length-memory_of pf ∙ ap (λ n. proc_header + n) v.holds)
        ∙ ==_refl (serialized_size pf))
      ∙ ap
          (λ (p : ProcFile).
            if not (serialized_size pf == proc_header + p.f_size)
            then corrupt r
            else (ok (record p { f_size = serialized_size pf - proc_header }), r))
          (of_memory-memory_of pf v)
      ∙ unless_true _ _ (==_refl (serialized_size pf))
      ∙ λ i. (ok (record pf { f_size = back pf.f_size i }), r)
    where
      back : (n : ℕ) → proc_header + n - proc_header ≡ n
      back n = omega arith

module _ {Encoder Decoder : Type 0} {z : Lz4 Encoder Decoder} (laws : Lz4Laws z) where
  -- The loop and the checks of `GetFile` behind the size of a record that `PutFile` wrote.
  get_sized_ok :
      (pf : ProcFile) (w₀ w' : Writer Encoder) (r : Reader Decoder) (more : Bytes)
      → IsProcFile pf
      → All IsByte pf.f_data
      → (st : IsStoredFile z pf w₀ w') → Caught laws w₀.enc w₀.checksums (st.blocks ++ more) r
      → (r' : Reader Decoder) × (get_sized z (serialized_size pf) r ≡ (ok pf, r'))
        × Caught laws w'.enc w'.checksums more r'
  unfolding get_sized
  get_sized_ok pf w₀ w' r more v bytes st caught =
      let mem = memory_of pf in
      let whole = joined-pieces (length mem) mem (omega arith) in
      let size = length-memory_of pf in
      let at_blocks =
        subst (λ b. Caught laws st.middle.enc b (st.blocks ++ more) r)
          (sym st.sized.grown.checksums)
          (subst (λ e. Caught laws e w₀.checksums (st.blocks ++ more) r) (sym st.sized.same_enc)
            caught) in
      let (r', run, done) =
        read_pieces_ok laws (pieces (length mem) mem) (serialized_size pf) (serialized_size pf) []
          st.blocks more 0 st.middle.enc w'.enc st.middle.checksums r
          (pieces-IsPiece (length mem) mem (memory_of-IsByte pf bytes))
          (omega (arith, length-pieces (length mem) mem, size, v.holds))
          (omega (arith, size, v.holds, ap length whole)) refl st.stored.encoded at_blocks in
      (
        r',
        if_false _ _ (le→ltb max_proc_file_size (serialized_size pf) st.in_range)
            ∙ if_false _ _ (le→ltb (serialized_size pf) proc_header (omega arith))
            ∙ ap (λ p. and_then p (check_file (serialized_size pf)))
                (run ∙ ap (λ t. (ok t, r')) whole)
            ∙ check_file_ok pf r' v,
        subst (λ b. Caught laws w'.enc b more r') (sym st.stored.grown.checksums) done,
      )

  -- `GetFile` at a record that `PutFile` wrote.
  get_file_ok :
      (pf : ProcFile) (w₀ w' : Writer Encoder) (r : Reader Decoder) (more : Bytes)
      → IsProcFile pf
      → All IsByte pf.f_data
      → (st : IsStoredFile z pf w₀ w')
      → Caught laws w₀.enc w₀.checksums (le_bytes 4 (serialized_size pf) ++ (st.blocks ++ more)) r
      → (r' : Reader Decoder) × (get_file z r ≡ (ok pf, r'))
        × Caught laws w'.enc w'.checksums more r'
  unfolding get_file
  get_file_ok pf w₀ w' r more v bytes st caught =
      let raw = le_bytes 4 (serialized_size pf) in
      let four = length-le_bytes 4 (serialized_size pf) in
      let small : serialized_size pf < 256 ^ 4 = omega (arith, st.in_range) in
      let (r', run, done) = get_sized_ok pf w₀ w' r₁ more v bytes st caught₁ in
      (
        r',
        unless_true _ _ caught.reading.is_open
            ∙ ap (λ p. and_then p after)
                (read_raw_ok raw _ 4 r caught.reading.is_open (sym four) (omega arith) (omega arith)
                  caught.next)
            ∙ if_true _ _ (ap (λ n. n == 4) four)
            ∙ ap (λ n. get_sized z n r₁) (le_value-le_bytes 4 (serialized_size pf) small)
            ∙ run,
        done,
      )
    where
      r₁ : Reader Decoder
      r₁ = record r { file = record r.file { pos = r.file.pos + 4 } }

      after : Bytes → Reader Decoder → Result ProcFile × Reader Decoder
      after got r₁ = if length got == 4 then get_sized z (le_value got) r₁ else corrupt r₁

      caught₁ : Caught laws w₀.enc w₀.checksums (st.blocks ++ more) r₁
      caught₁ = record {
        reading = record {
          is_open = caught.reading.is_open;
          clean = caught.reading.clean;
          before_tail = caught.reading.before_tail;
        };
        next =
            rest_of-advance 4 r.file (le_bytes 4 (serialized_size pf)) _ caught.next
              (sym (length-le_bytes 4 (serialized_size pf)));
        synced = caught.synced;
        checksums = caught.checksums;
      }

  -- The bytes that a stored record added to the file.
  added :
      (pf : ProcFile) (w₀ w' : Writer Encoder) (st : IsStoredFile z pf w₀ w')
      → drop (length w₀.file.written) w'.file.written ≡ le_bytes 4 (serialized_size pf) ++ st.blocks
  added pf w₀ w' st =
      ap (drop (length w₀.file.written)) (
        st.stored.grown.written
        ∙ ap (λ t. t ++ st.blocks) st.sized.grown.written
        ∙ append_assoc w₀.file.written (le_bytes 4 (serialized_size pf)) st.blocks)
      ∙ drop-append (length w₀.file.written) w₀.file.written _ refl

  -- A reader that has caught up with the compressor, up to the block that was pending, gets from
  -- `GetFile` the very object that a successful `PutFile` stored, whatever follows it in the file; it
  -- has then caught up with the compressor after the call. The LZ4 library must restore what it
  -- compressed, the object must be well formed and of bytes, and the compressor must be well formed
  -- before.
  pub get_file-put_file :
      (pf : ProcFile) (w w₀ w' : Writer Encoder) (n : ℕ) (r : Reader Decoder) (more : Bytes)
      → IsProcFile pf
      → All IsByte pf.f_data
      → IsWriting w
      → flush z w ≡ (ok tt, w₀)
      → put_file z pf w ≡ (ok n, w')
      → Caught laws w₀.enc w₀.checksums (drop (length w₀.file.written) w'.file.written ++ more) r
      → (r' : Reader Decoder) × (get_file z r ≡ (ok pf, r'))
        × Caught laws w'.enc w'.checksums more r'
  get_file-put_file pf w w₀ w' n r more v bytes open_w flushed stored caught =
      let (st, _) = put_file_ok z pf w w₀ n w' v open_w flushed stored in
      get_file_ok pf w₀ w' r more v bytes st (
        subst (λ t. Caught laws w₀.enc w₀.checksums t r)
          (ap (λ t. t ++ more) (added pf w₀ w' st)
            ∙ append_assoc (le_bytes 4 (serialized_size pf)) st.blocks more)
          caught)
