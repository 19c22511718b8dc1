-- ===== src/Stream/Tests/Plain.antt =====
-- A codec that copies, which stands in for LZ4 where the streams are run.
use arthur.Base.{ℕ, ◌≤◌, ◌<◌, ◌≡◌, sym, ap, ◌∙◌, arith, if◌then◌else◌}
use arthur.Base.{leb, ◌&&◌, Option, none, some, Bytes, length}
use mathlib.Core.Path.{subst}
use arthur.Stream.Header.{block_size}
use arthur.Stream.Codec.{Lz4, Lz4Laws, compress_bound}

abbrev pub pack : Bytes → ℕ → Option Bytes
pack s cap = if leb 1 (length s) && leb (length s) cap then some s else none

abbrev run : Bytes → ℕ → Option Bytes × Unit {0}
run s cap = (pack s cap, tt)

abbrev pub plain : Lz4 (Unit {0}) (Unit {0})
plain = record {
  enc_init = tt;
  dec_init = tt;
  ring_size = 131086;
  compress = λ e s cap. run s cap;
  decompress = λ d offset c cap. run c cap;
}

pack_ok : (s : Bytes) (cap : ℕ) → 0 < length s → length s ≤ cap → pack s cap ≡ some s
pack_ok s cap h k = ground arith

unpacked :
    (s : Bytes) (cap : ℕ) {c : Bytes}
    → pack s cap ≡ some c
    → (0 < length s) × (length s ≤ cap) × (s ≡ c)
unpacked s cap h = ground arith

restored :
    (s : Bytes) {c : Bytes} {e' : Unit {0}}
    → length s ≤ block_size
    → run s compress_bound ≡ (some c, e')
    → (d' : Unit {0}) × (run c block_size ≡ (some s, d')) × Unit {0}
restored s {c} small q =
    let (filled, _, same) = unpacked s compress_bound (ap (λ t. t.0) q) in
    let back : pack c block_size ≡ some s =
      ap (λ t. pack t block_size) (sym same) ∙ pack_ok s block_size filled small in
    (tt, ap (λ t. (t, tt)) back, tt)

pub plain_laws : Lz4Laws plain
plain_laws = record {
  Synced = λ e d offset. Unit {0};
  synced_init = tt;
  compress_fits = λ e s cap {c} {e'} q.
      let (filled, small, same) = unpacked s cap (ap (λ t. t.0) q) in
      subst (λ t. (0 < length t) × (length t ≤ cap)) same (filled, small);
  compress_total = λ e s h k. (s, tt, ap (λ t. (t, tt)) (pack_ok s compress_bound h (omega arith)));
  decompress-compress = λ e d offset s sync k q. restored s k q;
}
