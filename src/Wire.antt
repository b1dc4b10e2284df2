-- ===== src/Wire.antt =====
-- dataplane/include/dns/protocol.h: the limits, the response codes and the wire header.
-- A mask or a shift is written as `/ 2 ^ k` and `%`; `hi << 8 | lo` is `hi * 256 + lo`, which is the
-- same for a byte `lo`.
use dns_security_dataplane.Base.{
  ℕ, ◌+◌, ◌*◌, ◌/◌, ◌%◌, ◌^◌, ◌==◌, Bool, not, List, Result, ok, read, ◌>>=◌,
}

abbrev pub dns_header_size : ℕ
dns_header_size = 12

abbrev pub max_edns0_payload_size : ℕ
max_edns0_payload_size = 4096

abbrev pub max_domain_name_length : ℕ
max_domain_name_length = 253

abbrev pub max_label_length : ℕ
max_label_length = 63

abbrev pub max_compression_depth : ℕ
max_compression_depth = 8

pub data Rcode : Type 0 where
  noerror formerr servfail nxdomain notimp refused yxdomain yxrrset nxrrset notauth notzone : Rcode

abbrev pub rcode_value : Rcode → ℕ
rcode_value Rcode.noerror = 0
rcode_value Rcode.formerr = 1
rcode_value Rcode.servfail = 2
rcode_value Rcode.nxdomain = 3
rcode_value Rcode.notimp = 4
rcode_value Rcode.refused = 5
rcode_value Rcode.yxdomain = 6
rcode_value Rcode.yxrrset = 7
rcode_value Rcode.nxrrset = 8
rcode_value Rcode.notauth = 9
rcode_value Rcode.notzone = 10

pub record WireHeader : Type 0 where
  pub id : ℕ
  pub flags : ℕ
  pub qdcount : ℕ
  pub ancount : ℕ
  pub nscount : ℕ
  pub arcount : ℕ

-- `(uint16_t)buf[i] << 8 | buf[i + 1]`.
abbrev pub read_word : List ℕ → ℕ → Result ℕ
read_word buf i = do hi ← read buf i; lo ← read buf (i + 1); ok (hi * 256 + lo)

-- `WireHeader::parse`: it reads twelve bytes with no check of its own.
unfoldable pub parse_header : List ℕ → Result WireHeader
parse_header buf = do
  id ← read_word buf 0
  flags ← read_word buf 2
  qdcount ← read_word buf 4
  ancount ← read_word buf 6
  nscount ← read_word buf 8
  arcount ← read_word buf 10
  ok (record {
    id = id;
    flags = flags;
    qdcount = qdcount;
    ancount = ancount;
    nscount = nscount;
    arcount = arcount;
  })

abbrev pub is_query : WireHeader → Bool
is_query h = h.flags / 2 ^ 15 % 2 == 0

abbrev pub is_response : WireHeader → Bool
is_response h = not (h.flags / 2 ^ 15 % 2 == 0)

abbrev pub opcode : WireHeader → ℕ
opcode h = h.flags / 2 ^ 11 % 16

abbrev pub tc : WireHeader → Bool
tc h = not (h.flags / 2 ^ 9 % 2 == 0)

abbrev pub rd : WireHeader → Bool
rd h = not (h.flags / 2 ^ 8 % 2 == 0)

abbrev pub rcode : WireHeader → ℕ
rcode h = h.flags % 16
