-- ===== src/Stream/Header/RoundTrip.antt =====
-- Block headers read back as they were written, and are never taken for the tail mark.
use arthur.Base.{ℕ, ◌+◌, ◌*◌, ◌^◌, ◌<◌, ◌≤◌, ◌≡◌, ap, false, arith}
use arthur.Base.{length}
use arthur.Base.Words.{le_value-le_bytes, length-le_bytes}
use arthur.Stream.Header.{BlockHeader, make_header, header_bytes, read_header, is_tail_mark}

-- The fields fit their bits.
pub record IsHeader (h : BlockHeader) : Type 0 where
  pub cont_fits : h.prev_cont < 2
  pub type_fits : h.block_type < 16
  pub size_fits : h.size < 2 ^ 19

pub make_header-IsHeader : (cont type size : ℕ) → IsHeader (make_header cont type size)
make_header-IsHeader cont type size = omega arith

pub length-header_bytes : (h : BlockHeader) → length (header_bytes h) ≡ 3
unfolding header_bytes
length-header_bytes h = length-le_bytes 3 _

-- A header whose fields fit their bits is read back from its three bytes.
pub read_header-header_bytes : (h : BlockHeader) → IsHeader h → read_header (header_bytes h) ≡ h
unfolding read_header header_bytes
read_header-header_bytes h v =
    rw (le_value-le_bytes 3 (h.prev_cont + 2 * h.block_type + 32 * h.size) (omega arith))
      (ground arith)

-- The bytes of two headers agree only if the headers do.
pub header_bytes-injective :
    (h k : BlockHeader) → IsHeader h → IsHeader k → header_bytes h ≡ header_bytes k → h ≡ k
header_bytes-injective h k v u e =
    rw (read_header-header_bytes h v, read_header-header_bytes k u) at (ap read_header e)

-- No header of a compressed block looks like the tail mark.
pub is_tail_mark-make_header :
    (cont type size : ℕ) → size ≤ 65809 → is_tail_mark (make_header cont type size) ≡ false
unfolding is_tail_mark
is_tail_mark-make_header cont type size h = ground arith
