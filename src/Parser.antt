-- ===== src/Parser.antt =====
-- dataplane/include/dns/parser.h and dataplane/src/dns/parser.cpp: `DnsParser::parse`.
-- `QType` and `QClass` are the 16-bit numbers that the casts of the source make them.
pub mod Laws
use dns_security_dataplane.Base.{
  ℕ, ◌+◌, ◌==◌, ltb, if◌then◌else◌, not, List, Result, ok, err, ◌>>=◌, length, ErrorCode,
}
use dns_security_dataplane.Wire.{
  WireHeader, parse_header, opcode, read_word, dns_header_size, max_edns0_payload_size,
}
use dns_security_dataplane.Name.{decode_name}

pub record ParsedQuestion : Type 0 where
  pub qname : List ℕ
  pub qtype : ℕ
  pub qclass : ℕ
  pub wire_bytes_consumed : ℕ

pub record ParsedPacket : Type 0 where
  pub header : WireHeader
  pub question : ParsedQuestion
  pub raw_packet : List ℕ

-- From `decode_name`'s result on: the type and class behind the name.
unfoldable pub parse_question : List ℕ → WireHeader → List ℕ → ℕ → Result ParsedPacket
parse_question buffer hdr qname qname_bytes =
    if ltb (length buffer) (dns_header_size + qname_bytes + 4)
    then err ErrorCode.malformed_question
    else do
      qtype ← read_word buffer (dns_header_size + qname_bytes)
      qclass ← read_word buffer (dns_header_size + qname_bytes + 2)
      ok (record {
        header = hdr;
        question = record {
          qname = qname;
          qtype = qtype;
          qclass = qclass;
          wire_bytes_consumed = qname_bytes + 4;
        };
        raw_packet = buffer;
      })

unfoldable pub parse : List ℕ → Result ParsedPacket
parse buffer =
    if ltb (length buffer) dns_header_size
    then err ErrorCode.packet_too_short
    else if ltb max_edns0_payload_size (length buffer)
    then err ErrorCode.packet_too_large
    else do
      hdr ← parse_header buffer
      if not (opcode hdr == 0)
          then err ErrorCode.unsupported_opcode
          else if not (hdr.qdcount == 1)
          then err ErrorCode.invalid_qdcount
          else do
            (qname, qname_bytes) ← decode_name buffer dns_header_size
            parse_question buffer hdr qname qname_bytes
