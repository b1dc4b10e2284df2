-- ===== src/Response.antt =====
-- dataplane/include/dns/response.h and dataplane/src/dns/response.cpp: `ResponseBuilder`.
-- The vector is written front to back, so it is a list of its bytes. A `memcpy` that would read
-- past the end of the packet is `fault`.
pub mod Flags
pub mod Stamped
pub mod Header
pub mod Decoded
use Prim.Native.Nat.{bit_and, bit_or}
use dns_security_dataplane.Base.{
  ℕ, ◌+◌, ◌/◌, ◌%◌, ◌^◌, ltb, if◌then◌else◌, Bool, true, false, List, [], ◌∷◌, ◌++◌, Result, ok,
  fault, ◌>>=◌, length, take, drop,
}
use dns_security_dataplane.Wire.{Rcode, rcode_value, rd, dns_header_size}
use dns_security_dataplane.Parser.{ParsedPacket}

-- `memcpy(dst, src + offset, n)`: the bytes that are copied.
abbrev pub copy_bytes : List ℕ → ℕ → ℕ → Result (List ℕ)
copy_bytes src offset n =
    if ltb (length src) (offset + n) then fault else ok (take n (drop offset src))

-- `(uint8_t)(w >> 8), (uint8_t)(w & 0xFF)`.
abbrev pub word_bytes : ℕ → List ℕ → List ℕ
word_bytes w rest = w / 256 % 256 ∷ w % 256 ∷ rest

unfoldable pub error_flags : Rcode → Bool → ℕ
error_flags rcode is_rd =
    let flags = bit_or 0x8180 (bit_and (rcode_value rcode) 0x000F) in
    if is_rd then bit_or flags 0x0100 else flags

unfoldable pub build_error_response : ParsedPacket → Rcode → Result (List ℕ)
build_error_response query rcode = do
  question ← copy_bytes query.raw_packet dns_header_size query.question.wire_bytes_consumed
  ok (
      word_bytes query.header.id (
        word_bytes (error_flags rcode (rd query.header))
          (0x00 ∷ 0x01 ∷ 0x00 ∷ 0x00 ∷ 0x00 ∷ 0x00 ∷ 0x00 ∷ 0x00 ∷ question)))

unfoldable pub sinkhole_flags : Bool → ℕ
sinkhole_flags is_rd = if is_rd then bit_or 0x8580 0x0100 else 0x8580

-- The answer record; `htonl` puts the high byte of the lifetime first. The address is given by its
-- four bytes, in network order.
unfoldable pub sinkhole_answer : ℕ → List ℕ → List ℕ
sinkhole_answer ttl_sec address =
    0xC0
    ∷ 0x0C
    ∷ 0x00
    ∷ 0x01
    ∷ 0x00
    ∷ 0x01
    ∷ ttl_sec / 2 ^ 24 % 256
    ∷ ttl_sec / 2 ^ 16 % 256
    ∷ ttl_sec / 2 ^ 8 % 256
    ∷ ttl_sec % 256
    ∷ 0x00
    ∷ 0x04
    ∷ address

unfoldable pub build_sinkhole_response : ParsedPacket → List ℕ → ℕ → Result (List ℕ)
build_sinkhole_response query address ttl_sec = do
  question ← copy_bytes query.raw_packet dns_header_size query.question.wire_bytes_consumed
  ok (
      word_bytes query.header.id (
        word_bytes (sinkhole_flags (rd query.header)) (
          0x00
          ∷ 0x01
          ∷ 0x00
          ∷ 0x01
          ∷ 0x00
          ∷ 0x00
          ∷ 0x00
          ∷ 0x00
          ∷ (question ++ sinkhole_answer ttl_sec address))))

-- The flag that is returned, and the buffer afterwards.
unfoldable pub translate_txid : List ℕ → ℕ → Bool × List ℕ
translate_txid [] client_txid = (false, [])
translate_txid (a ∷ []) client_txid = (false, a ∷ [])
translate_txid (a ∷ b ∷ rest) client_txid = (true, word_bytes client_txid rest)
