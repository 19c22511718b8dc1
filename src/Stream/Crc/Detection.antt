-- ===== src/Stream/Crc/Detection.antt =====
-- Which corruption the checksum of a block cannot miss.
use arthur.Base.{ℕ, ◌^◌, ◌<◌, ◌≡◌, ◌≢◌, sym, ◌∙◌, arith}
use arthur.Base.{◌++◌, Bytes, All, length, ◌≤◌}
use arthur.Base.Words.{IsByte, le_bytes-IsByte}
use arthur.Base.Bits.{xor_comm, xor_cancel_left, xor-lt}
use arthur.Stream.Header.{BlockHeader, header_bytes}
use arthur.Stream.Header.RoundTrip.{IsHeader, header_bytes-injective, length-header_bytes}
use arthur.Stream.Crc.{crc32_update, block_checksum}
use arthur.Stream.Crc.Bitwise.{crc32_bitwise, crc32_update-bitwise}
use arthur.Stream.Crc.Register.{
  IsWord, run-injective, crc32_update_burst, bitwise-IsWord, bitwise-injective,
}

header_bytes-IsByte : (h : BlockHeader) → All IsByte (header_bytes h)
unfolding header_bytes
header_bytes-IsByte h = le_bytes-IsByte 3 _

header_state : BlockHeader → ℕ
header_state h = crc32_update 0xffff_ffff (header_bytes h)

header_state-IsWord : (h : BlockHeader) → IsWord (header_state h)
unfolding header_state
header_state-IsWord h =
    rw (crc32_update-bitwise 0xffff_ffff (header_bytes h) (header_bytes-IsByte h))
      (bitwise-IsWord 0xffff_ffff (header_bytes h) (omega arith) (header_bytes-IsByte h))

checksum_cancel :
    (h k : BlockHeader) (s t : Bytes)
    → block_checksum h s ≡ block_checksum k t
    → crc32_update (header_state h) s ≡ crc32_update (header_state k) t
unfolding block_checksum header_state
checksum_cancel h k s t e =
    xor_cancel_left 0xffff_ffff _ _ (xor_comm 0xffff_ffff _ ∙ e ∙ xor_comm _ 0xffff_ffff)

-- Every checksum fits its four bytes.
pub block_checksum-IsWord :
    (h : BlockHeader) (s : Bytes) → All IsByte s → block_checksum h s < 2 ^ 32
unfolding block_checksum header_state
block_checksum-IsWord h s hs =
    xor-lt 32 _ 0xffff_ffff
      (rw (crc32_update-bitwise _ s hs) (bitwise-IsWord _ s (header_state-IsWord h) hs))
      (omega arith)

-- A payload of bytes that was changed within at most four bytes in a row, with its length kept, has
-- another checksum.
pub block_checksum_burst :
    (h : BlockHeader) (front xs ys back : Bytes)
    → All IsByte front
    → All IsByte xs
    → All IsByte ys
    → All IsByte back
    → length xs ≤ 4
    → length xs ≡ length ys
    → xs ≢ ys
    → block_checksum h (front ++ (xs ++ back)) ≢ block_checksum h (front ++ (ys ++ back))
block_checksum_burst h front xs ys back hf hx hy hb short l differ e = differ (
    crc32_update_burst front xs ys back (header_state h) (header_state-IsWord h) hf hx hy hb short l
      (checksum_cancel h h _ _ e))

-- Under one payload, two headers never have one checksum.
pub block_checksum_header :
    (h k : BlockHeader) (s : Bytes)
    → IsHeader h
    → IsHeader k
    → All IsByte s
    → h ≢ k
    → block_checksum h s ≢ block_checksum k s
unfolding header_state
block_checksum_header h k s vh vk hs differ e = differ (
    header_bytes-injective h k vh vk (
      run-injective (header_bytes h) (header_bytes k) 0xffff_ffff (omega arith)
        (header_bytes-IsByte h) (header_bytes-IsByte k) (omega (arith, length-header_bytes h))
        (length-header_bytes h ∙ sym (length-header_bytes k)) states))
  where
    states : crc32_bitwise 0xffff_ffff (header_bytes h) ≡ crc32_bitwise 0xffff_ffff (header_bytes k)
    states =
        sym (crc32_update-bitwise 0xffff_ffff (header_bytes h) (header_bytes-IsByte h))
        ∙ bitwise-injective s (header_state h) (header_state k) (header_state-IsWord h)
            (header_state-IsWord k) hs
            (sym (crc32_update-bitwise (header_state h) s hs)
              ∙ checksum_cancel h k s s e
              ∙ crc32_update-bitwise (header_state k) s hs)
        ∙ crc32_update-bitwise 0xffff_ffff (header_bytes k) (header_bytes-IsByte k)
