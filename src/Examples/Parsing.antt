-- ===== src/Examples/Parsing.antt =====
-- Packets, names and responses.
use dns_security_dataplane.Base.{
  ℕ, drop, ◌↔◌, ◌+◌, ◌≡◌, ◌≤◌, refl, true, false, List, [], ◌∷◌, ◌++◌, ok, length, All, arith,
}
use dns_security_dataplane.Base.Loop.{loop}
use dns_security_dataplane.Wire.{WireHeader, Rcode, rcode_value, parse_header, rd}
use dns_security_dataplane.Name.{decode_name, round, copy_label, label, tolower, pointer, end_label}
use dns_security_dataplane.Name.Safety.{IsGoodResult, decode_name-IsGoodResult}
use dns_security_dataplane.Name.Encode.{encode_name, join_onto, IsLabel, decode-encode_name}
use dns_security_dataplane.Name.Spelling.{Spells}
use dns_security_dataplane.Name.Complete.{decode_name_iff}
use dns_security_dataplane.Parser.{parse, parse_question}
use dns_security_dataplane.Parser.Laws.{IsParsed, parse-IsParsed}
use dns_security_dataplane.Response.{
  build_error_response, build_sinkhole_response, sinkhole_answer, error_flags,
}
use dns_security_dataplane.Response.Header.{
  Answers, IsByte, question_bytes, aa, build_error_response_lem, build_sinkhole_response_lem,
  error_response_bits,
}
use dns_security_dataplane.Response.Decoded.{IsAnswer, build_sinkhole_response-IsAnswer}
use dns_security_dataplane.Packets.{query_bytes, query, response_bytes, response}

pub parse-query : parse query_bytes ≡ ok query
unfolding parse parse_question parse_header decode_name loop round copy_label label tolower pointer
    end_label
parse-query = refl

pub parse_response : parse response_bytes ≡ ok response
unfolding parse parse_question parse_header decode_name loop round copy_label label tolower pointer
    end_label
parse_response = refl

pub query-IsByte : All IsByte query_bytes
query-IsByte = omega arith

parse-IsParsed_example : IsParsed query_bytes (parse query_bytes)
parse-IsParsed_example = parse-IsParsed query_bytes

decode_name-IsGoodResult_example : IsGoodResult query_bytes 12 (decode_name query_bytes 12)
decode_name-IsGoodResult_example = decode_name-IsGoodResult query_bytes 12

abbrev labels : List (List ℕ)
labels = (119 ∷ 87 ∷ []) ∷ (98 ∷ []) ∷ []

abbrev before : List ℕ
before = 0 ∷ 1 ∷ []

labels-IsLabel : All IsLabel labels
labels-IsLabel = ground arith

labels_short : length (join_onto [] labels) ≤ 253
unfolding join_onto tolower
labels_short = omega arith

decode-encode_name_example :
    decode_name (before ++ (encode_name labels ++ (7 ∷ []))) (length before)
    ≡ ok (join_onto [] labels, length (encode_name labels))
decode-encode_name_example = decode-encode_name before (7 ∷ []) labels labels-IsLabel labels_short

build_error_response_lem_example :
    (r : List ℕ) × (build_error_response query Rcode.nxdomain ≡ ok r)
    × Answers query (rcode_value Rcode.nxdomain) 0 (question_bytes query) r
build_error_response_lem_example =
    build_error_response_lem query_bytes query-IsByte parse-query Rcode.nxdomain

build_sinkhole_response_lem_example :
    (r : List ℕ) × (build_sinkhole_response query (127 ∷ 0 ∷ 0 ∷ 1 ∷ []) 60 ≡ ok r)
    × Answers query 0 1 (question_bytes query ++ sinkhole_answer 60 (127 ∷ 0 ∷ 0 ∷ 1 ∷ [])) r
build_sinkhole_response_lem_example =
    build_sinkhole_response_lem query_bytes query-IsByte parse-query (127 ∷ 0 ∷ 0 ∷ 1 ∷ []) 60

abbrev refusal : List ℕ
refusal =
    0x12 ∷ 0x34 ∷ 0x81 ∷ 0x85 ∷ 0 ∷ 1 ∷ 0 ∷ 0 ∷ 0 ∷ 0 ∷ 0 ∷ 0 ∷ 2 ∷ 119 ∷ 87 ∷ 1 ∷ 98 ∷ 0 ∷ 0 ∷ 1
    ∷ 0 ∷ 1 ∷ []

abbrev refusal_header : WireHeader
refusal_header = record {
  id = 0x1234;
  flags = 0x8185;
  qdcount = 1;
  ancount = 0;
  nscount = 0;
  arcount = 0;
}

build_refusal : build_error_response query Rcode.refused ≡ ok refusal
unfolding build_error_response error_flags
build_refusal = refl

parse_refusal : parse_header refusal ≡ ok refusal_header
unfolding parse_header
parse_refusal = refl

error_response_bits_example :
    (aa refusal_header ≡ false)
    × (rd refusal_header ≡ true)
    × (refusal_header.flags ≡ 0x8180 + rcode_value Rcode.refused)
error_response_bits_example =
    error_response_bits query_bytes query-IsByte parse-query Rcode.refused refusal refusal_header
      build_refusal parse_refusal

-- A label, a pointer back to the start, and there a pointer that goes forwards.
abbrev forward_pointer : List ℕ
forward_pointer = 192 ∷ 6 ∷ 1 ∷ b'a' ∷ 192 ∷ 0 ∷ 1 ∷ b'b' ∷ 0 ∷ []

abbrev forward_name : List ℕ
forward_name = b'a' ∷ b'.' ∷ b'b' ∷ []

forward_pointer_decoded : decode_name forward_pointer 2 ≡ ok (forward_name, 4)
unfolding decode_name loop round copy_label label tolower pointer end_label
forward_pointer_decoded = refl

decode_name_iff_example : (decode_name forward_pointer 2 ≡ ok (forward_name, 4)) ↔ (
    (ls : List (List ℕ)) × Spells forward_pointer 2 false 0 ls 4
    × (forward_name ≡ join_onto [] ls)
    × (length forward_name ≤ 253))
decode_name_iff_example = decode_name_iff forward_pointer 2 forward_name 4

query_labels : drop 12 query_bytes ≡ encode_name labels ++ (0 ∷ 1 ∷ 0 ∷ 1 ∷ [])
unfolding encode_name
query_labels = refl

build_sinkhole_response-IsAnswer_example :
    (r : List ℕ) × (build_sinkhole_response query (127 ∷ 0 ∷ 0 ∷ 1 ∷ []) 60 ≡ ok r)
    × (decode_name r 12 ≡ ok (query.question.qname, length (encode_name labels)))
    × IsAnswer r
        (12 + query.question.wire_bytes_consumed)
        query.question.qname
        60
        (127 ∷ 0 ∷ 0 ∷ 1 ∷ [])
build_sinkhole_response-IsAnswer_example =
    build_sinkhole_response-IsAnswer query_bytes labels (0 ∷ 1 ∷ 0 ∷ 1 ∷ []) (127 ∷ 0 ∷ 0 ∷ 1 ∷ [])
      60 query-IsByte parse-query labels-IsLabel query_labels labels_short (omega arith)
