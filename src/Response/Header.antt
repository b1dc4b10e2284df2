-- ===== src/Response/Header.antt =====
-- The headers of the synthesized responses, as a resolver reads them.
use dns_security_dataplane.Base.{
  ℕ, ◌+◌, ◌*◌, ◌/◌, ◌%◌, ◌^◌, ◌<◌, ◌≡◌, refl, ltb, ◌==◌, not, Bool, true, false, List, ◌⊎◌, inl,
  inr, [], All, ◌∷◌, ◌++◌, ok, length, take, drop, arith,
}
use dns_security_dataplane.Wire.{
  Rcode, rcode_value, WireHeader, parse_header, is_response, opcode, rd, tc, rcode,
}
use dns_security_dataplane.Parser.{ParsedPacket, parse}
use dns_security_dataplane.Parser.Laws.{parse-IsAccepted}
use dns_security_dataplane.Response.{
  build_error_response, build_sinkhole_response, sinkhole_answer, copy_bytes, error_flags,
  sinkhole_flags, word_bytes,
}
use dns_security_dataplane.Response.Flags.{error_flags_lem, sinkhole_flags_lem, rcode-lt}

-- The bit 0x0400 of the flags, "authoritative answer".
abbrev pub aa : WireHeader → Bool
aa h = not (h.flags / 2 ^ 10 % 2 == 0)

abbrev pub question_bytes : ParsedPacket → List ℕ
question_bytes query = take query.question.wire_bytes_consumed (drop 12 query.raw_packet)

-- A response of the builder to a query: its header, and what stands behind the header.
pub record Answers (query : ParsedPacket) (code answers : ℕ) (body : List ℕ) (r : List ℕ)
    : Type 0 where
  pub header : WireHeader
  pub parsed : parse_header r ≡ ok header
  pub id : header.id ≡ query.header.id
  pub response : is_response header ≡ true
  pub standard : opcode header ≡ 0
  pub whole : tc header ≡ false
  pub desired : rd header ≡ true
  pub rcode_is : rcode header ≡ code
  pub qdcount : header.qdcount ≡ 1
  pub ancount : header.ancount ≡ answers
  pub nscount : header.nscount ≡ 0
  pub arcount : header.arcount ≡ 0
  pub behind : drop 12 r ≡ body

abbrev pub IsByte : ℕ → Type 0
IsByte b = b < 256

-- A word that was read from bytes has sixteen bits.
parse_header-id-lt :
    (buffer : List ℕ) (h : WireHeader)
    → All IsByte buffer
    → parse_header buffer ≡ ok h
    → h.id < 2 ^ 16
unfolding parse_header
parse_header-id-lt (a ∷ b ∷ rest) h bytes e = ground (arith, bytes.0, bytes.1.0)
parse_header-id-lt (a ∷ []) h bytes e = cc
parse_header-id-lt [] h bytes e = cc

-- The header that both builders write.
header_of : ℕ → ℕ → ℕ → List ℕ → List ℕ
header_of id flags answers body =
    word_bytes id (word_bytes flags (0 ∷ 1 ∷ 0 ∷ answers ∷ 0 ∷ 0 ∷ 0 ∷ 0 ∷ body))

header_of-Answers :
    (query : ParsedPacket) (flags code answers : ℕ) (body : List ℕ)
    → query.header.id < 2 ^ 16
    → (flags ≡ 0x8180 + code) ⊎ (flags ≡ 0x8580 + code)
    → code < 16
    → answers < 256
    → Answers query code answers body (header_of query.header.id flags answers body)
unfolding header_of parse_header
header_of-Answers query flags code answers body small f c n = record {
  header = record {
    id = query.header.id / 256 % 256 * 256 + query.header.id % 256;
    flags = flags / 256 % 256 * 256 + flags % 256;
    qdcount = 0 * 256 + 1;
    ancount = 0 * 256 + answers;
    nscount = 0;
    arcount = 0;
  };
  parsed = refl;
  id = omega arith;
  response = ground arith;
  standard = ground arith;
  whole = ground arith;
  desired = ground arith;
  rcode_is = ground arith;
  qdcount = refl;
  ancount = omega arith;
  nscount = refl;
  arcount = refl;
  behind = refl;
}

copy_question :
    (buffer : List ℕ) {query : ParsedPacket}
    → parse buffer ≡ ok query
    → copy_bytes query.raw_packet 12 query.question.wire_bytes_consumed ≡ ok (question_bytes query)
copy_question buffer {query} e =
    let p = parse-IsAccepted buffer e in
    let fits : ltb (length query.raw_packet) (12 + query.question.wire_bytes_consumed) ≡ false =
      rw p.raw (ground (arith, p.inside)) in
    rw fits

module _ (buffer : List ℕ) {query : ParsedPacket} (bytes : All IsByte buffer)
    (parsed : parse buffer ≡ ok query) where
  id_small : query.header.id < 2 ^ 16
  id_small = parse_header-id-lt buffer query.header bytes (parse-IsAccepted buffer parsed).header

  -- To every packet of bytes that was accepted the builder makes an error response, with no read
  -- outside the packet: the query's ID, QR = 1, OPCODE = 0, TC = 0, RD = 1, the RCODE that was
  -- asked for, one question, no records, and behind the header the bytes of the query's question.
  pub build_error_response_lem :
      (code : Rcode)
      → (r : List ℕ) × (build_error_response query code ≡ ok r)
        × Answers query (rcode_value code) 0 (question_bytes query) r
  unfolding build_error_response header_of
  build_error_response_lem code = (
    header_of query.header.id (error_flags code (rd query.header)) 0 (question_bytes query),
    rw (copy_question buffer parsed),
    header_of-Answers query _ (rcode_value code) 0 (question_bytes query) id_small
        (inl (error_flags_lem code (rd query.header))) (rcode-lt code) (omega arith),
  )

  -- To every packet of bytes that was accepted the builder makes a sinkhole response, with no read
  -- outside the packet: the query's ID, QR = 1, OPCODE = 0, TC = 0, RD = 1, RCODE = 0, one question
  -- and one answer, and behind the header the bytes of the query's question and the answer record.
  pub build_sinkhole_response_lem :
      (address : List ℕ) (ttl_sec : ℕ)
      → (r : List ℕ) × (build_sinkhole_response query address ttl_sec ≡ ok r)
        × Answers query 0 1 (question_bytes query ++ sinkhole_answer ttl_sec address) r
  unfolding build_sinkhole_response header_of
  build_sinkhole_response_lem address ttl_sec = (
    header_of query.header.id (sinkhole_flags (rd query.header)) 1
        (question_bytes query ++ sinkhole_answer ttl_sec address),
    rw (copy_question buffer parsed),
    header_of-Answers query _ 0 1 (question_bytes query ++ sinkhole_answer ttl_sec address) id_small
        (inr (sinkhole_flags_lem (rd query.header))) (omega arith) (omega arith),
  )

  -- An error response to any packet of bytes that was accepted says that recursion was desired and
  -- is not authoritative, though the comment in the code says AA=1 and that it keeps the query's
  -- RD.
  pub error_response_bits :
      (code : Rcode) (r : List ℕ) (h : WireHeader)
      → build_error_response query code ≡ ok r
      → parse_header r ≡ ok h
      → (aa h ≡ false) × (rd h ≡ true) × (h.flags ≡ 0x8180 + rcode_value code)
  unfolding build_error_response parse_header
  error_response_bits code r h e p =
      ground
        (arith, copy_question buffer parsed, error_flags_lem code (rd query.header), rcode-lt code)
