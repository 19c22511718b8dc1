-- ===== src/Stream/FileRecord.antt =====
-- FILE records: what `PutFile` writes, and `ProcFile` objects as bytes.
use arthur.Base.{ℕ, ◌+◌, ◌-◌, ◌≤◌, ◌<◌, ◌^◌, ◌≡◌, sym, ap, ◌∙◌, arith, ◌==◌, ltb}
use arthur.Base.{false, not, ◌||◌, Bool-cases, inl, inr, ==_iff}
use arthur.Base.{◌++◌, Bytes, length, take, drop, All, All-append}
use arthur.Base.{length-append, take-append, drop-append, take_all, drop-drop}
use arthur.Base.Results.{Result, Error, ok, err, and_then, and_then-eq-ok, past_guard, guard_off}
use arthur.Base.Words.{
  IsByte, le_bytes, le_value, length-le_bytes, le_value-le_bytes, le_bytes-IsByte,
}
use arthur.Stream.BlockType
use arthur.Stream.Block
use arthur.Stream.Codec.{Lz4}
use arthur.Stream.ProcFile.{
  ProcFile, IsProcFile, memory_of, of_memory, serialized_size, proc_header, max_proc_file_size,
}
use arthur.Stream.Writer.{Writer, flush, write_raw, write_block, put_file, expect, int_max}
use arthur.Stream.Writer.Blocks.{Stored}
use arthur.Stream.Writer.Calls.{IsWriting, IsRaw, flush_drains, write_raw_ok, write_block_ok}
use arthur.Stream.Pieces.{pieces}

pub length-memory_of : (pf : ProcFile) → length (memory_of pf) ≡ proc_header + length pf.f_data
unfolding memory_of
length-memory_of pf = omega (
  arith,
  length-append (le_bytes 4 pf.f_size) (le_bytes 4 pf.f_pid ++ (le_bytes 1 pf.f_type ++ pf.f_data)),
  length-append (le_bytes 4 pf.f_pid) (le_bytes 1 pf.f_type ++ pf.f_data),
  length-append (le_bytes 1 pf.f_type) pf.f_data,
  length-le_bytes 4 pf.f_size,
  length-le_bytes 4 pf.f_pid,
  length-le_bytes 1 pf.f_type,
)

pub memory_of-IsByte : (pf : ProcFile) → All IsByte pf.f_data → All IsByte (memory_of pf)
unfolding memory_of
memory_of-IsByte pf h = All-append IsByte (le_bytes 4 pf.f_size) _ (le_bytes-IsByte 4 pf.f_size) (
    All-append IsByte (le_bytes 4 pf.f_pid) _ (le_bytes-IsByte 4 pf.f_pid)
      (All-append IsByte (le_bytes 1 pf.f_type) _ (le_bytes-IsByte 1 pf.f_type) h))

-- Where the fields stand in the memory of an object.
module _ (pf : ProcFile) where
  abbrev tail₈ : Bytes
  tail₈ = le_bytes 1 pf.f_type ++ pf.f_data

  abbrev tail₄ : Bytes
  tail₄ = le_bytes 4 pf.f_pid ++ tail₈

  behind_size : drop 4 (memory_of pf) ≡ tail₄
  unfolding memory_of
  behind_size = drop-append 4 (le_bytes 4 pf.f_size) tail₄ (sym (length-le_bytes 4 pf.f_size))

  behind_pid : drop 8 (memory_of pf) ≡ tail₈
  behind_pid =
      sym (drop-drop 4 4 (memory_of pf))
      ∙ ap (drop 4) behind_size
      ∙ drop-append 4 (le_bytes 4 pf.f_pid) tail₈ (sym (length-le_bytes 4 pf.f_pid))

  behind_type : drop 9 (memory_of pf) ≡ pf.f_data
  behind_type =
      sym (drop-drop 8 1 (memory_of pf))
      ∙ ap (drop 1) behind_pid
      ∙ drop-append 1 (le_bytes 1 pf.f_type) pf.f_data (sym (length-le_bytes 1 pf.f_type))

  size_field : pf.f_size < 2 ^ 32 → le_value (take 4 (memory_of pf)) ≡ pf.f_size
  unfolding memory_of
  size_field h =
      ap le_value (take-append 4 (le_bytes 4 pf.f_size) tail₄ (sym (length-le_bytes 4 pf.f_size)))
      ∙ le_value-le_bytes 4 pf.f_size h

  pid_field : pf.f_pid < 2 ^ 32 → le_value (take 4 (drop 4 (memory_of pf))) ≡ pf.f_pid
  pid_field h =
      ap (λ t. le_value (take 4 t)) behind_size
      ∙ ap le_value (take-append 4 (le_bytes 4 pf.f_pid) tail₈ (sym (length-le_bytes 4 pf.f_pid)))
      ∙ le_value-le_bytes 4 pf.f_pid h

  type_field : pf.f_type < 256 → le_value (take 1 (drop 8 (memory_of pf))) ≡ pf.f_type
  type_field h =
      ap (λ t. le_value (take 1 t)) behind_pid
      ∙ ap le_value
          (take-append 1 (le_bytes 1 pf.f_type) pf.f_data (sym (length-le_bytes 1 pf.f_type)))
      ∙ le_value-le_bytes 1 pf.f_type h

-- An object is read back from its memory.
pub of_memory-memory_of : (pf : ProcFile) → IsProcFile pf → of_memory (memory_of pf) ≡ pf
unfolding of_memory
of_memory-memory_of pf v = λ i. record {
  f_size = size_field pf v.size_fits i;
  f_pid = pid_field pf v.pid_fits i;
  f_type = type_field pf v.type_fits i;
  f_data = behind_type pf i;
}

-- What a successful `PutFile` adds behind the pending block: the size, and the object in blocks.
pub record IsStoredFile {Encoder Decoder : Type 0} (z : Lz4 Encoder Decoder) (pf : ProcFile)
    (w₀ w' : Writer Encoder) : Type 0 where
  pub middle : Writer Encoder
  pub blocks : Bytes
  pub sized : IsRaw (le_bytes 4 (serialized_size pf)) w₀ middle
  pub stored :
      Stored z BlockType.file 0 (pieces (length (memory_of pf)) (memory_of pf)) middle blocks w'
  pub in_range : serialized_size pf ≤ max_proc_file_size

module _ {Encoder Decoder : Type 0} (z : Lz4 Encoder Decoder) where
  expect-eq-ok :
      (n : ℕ) (p : Result ℕ × Writer Encoder) {u : Unit {0}} {w : Writer Encoder}
      → expect n p ≡ (ok u, w)
      → p ≡ (ok n, w)
  expect-eq-ok n (ok m, w) h = elim (Bool-cases (m == n)) [
    | inl e ↦ λ i. (ok ((==_iff m n).0 e i), ap (λ t. t.1) (rw e at h) i)
    | inr e ↦ cc (rw e at h)
  ]
  expect-eq-ok n (err e, w) h = cc

  raw_IsWriting : (s : Bytes) (w w' : Writer Encoder) → IsWriting w → IsRaw s w w' → IsWriting w'
  raw_IsWriting s w w' v r = record {
    is_open = r.grown.opened ∙ v.is_open;
    ring = r.ring;
    at_start = ap (λ (b : Block.Block). b.cur) r.drained;
    sound = r.grown.failed ∙ v.sound;
  }

  record_ok :
      (pf : ProcFile) (w₀ : Writer Encoder) (n : ℕ) (w' : Writer Encoder)
      → IsProcFile pf
      → IsWriting w₀
      → w₀.block ≡ Block.empty
      → serialized_size pf ≤ max_proc_file_size
      → and_then
          (expect 4 (write_raw z (le_bytes 4 (serialized_size pf)) w₀))
          (λ _ w₂. write_block z (take (serialized_size pf) (memory_of pf)) BlockType.file w₂)
        ≡ (ok n, w')
      → IsStoredFile z pf w₀ w' × (n ≡ serialized_size pf)
  record_ok pf w₀ n w' v open_w₀ idle fits h =
      let raw : Bytes = le_bytes 4 (serialized_size pf) in
      let (_, w₂, p, q) = and_then-eq-ok (expect 4 (write_raw z raw w₀)) _ h in
      let four = length-le_bytes 4 (serialized_size pf) in
      let sized =
        write_raw_ok z raw w₀ 4 w₂ open_w₀ idle (ap (λ k. k == 0) four)
          (expect-eq-ok 4 (write_raw z raw w₀) p) (sym four) in
      let (out, st, count) =
        write_block_ok z (memory_of pf) BlockType.file w₂ n w'
          (raw_IsWriting raw w₀ w₂ open_w₀ sized) sized.drained
          (ap (λ t. write_block z t BlockType.file w₂) (sym whole) ∙ q) in
      (
        record { middle = w₂; blocks = out; sized = sized; stored = st; in_range = fits },
        omega (arith, count, length-memory_of pf, v.holds),
      )
    where
      whole : take (serialized_size pf) (memory_of pf) ≡ memory_of pf
      whole =
          take_all (serialized_size pf) (memory_of pf) (omega (arith, length-memory_of pf, v.holds))

  pub put_file_ok :
      (pf : ProcFile) (w w₀ : Writer Encoder) (n : ℕ) (w' : Writer Encoder)
      → IsProcFile pf
      → IsWriting w
      → flush z w ≡ (ok tt, w₀)
      → put_file z pf w ≡ (ok n, w')
      → IsStoredFile z pf w₀ w' × (n ≡ serialized_size pf)
  unfolding put_file
  put_file_ok pf w w₀ n w' v open_w flushed h =
      let h₁ = past_guard (not w.opened) Error.ebadf w _ h in
      let h₂ = past_guard (ltb (2 ^ 64 - 1 - 9) pf.f_size) Error.eoverflow w _ h₁ in
      let h₃ =
        past_guard (ltb (2 ^ 32 - 1) (serialized_size pf) || ltb int_max (serialized_size pf))
          Error.eoverflow w _ h₂ in
      let h₄ = past_guard (ltb max_proc_file_size (serialized_size pf)) Error.efbig w _ h₃ in
      let (open_w₀, idle) = flush_drains z w w₀ open_w flushed in
      record_ok pf w₀ n w' v open_w₀ idle
        (fits (serialized_size pf)
          (guard_off (ltb max_proc_file_size (serialized_size pf)) Error.efbig w _ h₃))
        (rw flushed at h₄)
    where
      fits : (n : ℕ) → ltb max_proc_file_size n ≡ false → n ≤ max_proc_file_size
      fits n h = ground arith
