-- ===== src/Parser/Laws.antt =====
-- What `parse` promises of a packet that it accepts, and of every other.
use dns_security_dataplane.Base.{
  ℕ, ◌+◌, ◌*◌, ◌≤◌, ◌<◌, ◌≡◌, ◌≢◌, refl, ◌==◌, ltb, not, List, ◌∷◌, Result, ok, err, fault, ◌>>=◌,
  length, All, arith, get_elem?, get_elem?_in, some, Bool-cases, inl, inr, false,
}
use dns_security_dataplane.Wire.{WireHeader, parse_header, opcode, read_word}
use dns_security_dataplane.Name.{decode_name}
use dns_security_dataplane.Name.Safety.{IsNormal, IsGoodResult, decode_name-IsGoodResult}
use dns_security_dataplane.Parser.{ParsedPacket, parse, parse_question}

pub parse_header_in :
    (buffer : List ℕ) → 12 ≤ length buffer → (h : WireHeader) × (parse_header buffer ≡ ok h)
unfolding parse_header
parse_header_in (a ∷ b ∷ c ∷ d ∷ e ∷ f ∷ g ∷ i ∷ j ∷ k ∷ l ∷ m ∷ rest) h = (
  record {
    id = a * 256 + b;
    flags = c * 256 + d;
    qdcount = e * 256 + f;
    ancount = g * 256 + i;
    nscount = j * 256 + k;
    arcount = l * 256 + m;
  },
  refl,
)
parse_header_in _ h = absurd (omega arith)

read_word_in :
    (buffer : List ℕ) (i : ℕ) → i + 1 < length buffer → (w : ℕ) × (read_word buffer i ≡ ok w)
read_word_in buffer i h = go (get_elem?_in buffer i (omega arith)) (get_elem?_in buffer (i + 1) h)
  where
    go :
        (a : ℕ) × (get_elem? buffer i ≡ some a)
        → (b : ℕ) × (get_elem? buffer (i + 1) ≡ some b)
        → (w : ℕ) × (read_word buffer i ≡ ok w)
    go (a, ea) (b, eb) = (a * 256 + b, rw (ea, eb))

-- What a packet that was accepted has, in terms of the bytes that it came from.
pub record IsAccepted (buffer : List ℕ) (p : ParsedPacket) : Type 0 where
  pub raw : p.raw_packet ≡ buffer
  pub long : 12 ≤ length buffer
  pub short : length buffer ≤ 4096
  pub header : parse_header buffer ≡ ok p.header
  pub standard : opcode p.header ≡ 0
  pub single : p.header.qdcount ≡ 1
  pub name_bytes : ℕ
  pub name : decode_name buffer 12 ≡ ok (p.question.qname, name_bytes)
  pub consumed : p.question.wire_bytes_consumed ≡ name_bytes + 4
  pub qtype : read_word buffer (12 + name_bytes) ≡ ok p.question.qtype
  pub qclass : read_word buffer (12 + name_bytes + 2) ≡ ok p.question.qclass
  pub normal : All IsNormal p.question.qname
  pub brief : length p.question.qname ≤ 253
  pub inside : 12 + p.question.wire_bytes_consumed ≤ length buffer

abbrev pub IsParsed : List ℕ → Result ParsedPacket → Type 0
IsParsed buffer (ok p) = IsAccepted buffer p
IsParsed buffer (err c) = Unit
IsParsed buffer fault = ⊥

module _ (buffer : List ℕ) (long : 12 ≤ length buffer) (short : length buffer ≤ 4096)
    (hdr : WireHeader) (is_hdr : parse_header buffer ≡ ok hdr) (standard : opcode hdr ≡ 0)
    (single : hdr.qdcount ≡ 1) where
  question-IsParsed :
      (r : Result (List ℕ × ℕ))
      → decode_name buffer 12 ≡ r
      → IsGoodResult buffer 12 r
      → IsParsed buffer (r >>= λ (qname, n). parse_question buffer hdr qname n)
  unfolding parse_question
  question-IsParsed (err c) e g = tt
  question-IsParsed fault e g = g
  question-IsParsed (ok (qname, n)) e g = elim (Bool-cases (ltb (length buffer) (12 + n + 4))) [
    | inl out ↦ rw out tt
    | inr fits ↦
        let behind : 12 + n + 2 + 1 < length buffer = ground arith in
        go behind (read_word_in buffer (12 + n) (omega arith))
          (read_word_in buffer (12 + n + 2) behind) fits
  ]
    where
      go :
          12 + n + 2 + 1 < length buffer
          → (t : ℕ) × (read_word buffer (12 + n) ≡ ok t)
          → (c : ℕ) × (read_word buffer (12 + n + 2) ≡ ok c)
          → ltb (length buffer) (12 + n + 4) ≡ false
          → IsParsed buffer (parse_question buffer hdr qname n)
      go behind (t, et) (c, ec) fits =
          rw (fits, et, ec)
            (record {
              raw = refl;
              long = long;
              short = short;
              header = is_hdr;
              standard = standard;
              single = single;
              name_bytes = n;
              name = e;
              consumed = refl;
              qtype = et;
              qclass = ec;
              normal = g.0;
              brief = g.1;
              inside = omega arith;
            })

header-IsParsed :
    (buffer : List ℕ) (hdr : WireHeader)
    → 12 ≤ length buffer
    → length buffer ≤ 4096
    → parse_header buffer ≡ ok hdr
    → IsParsed buffer (parse buffer)
unfolding parse
header-IsParsed buffer hdr long short e =
    let small : ltb (length buffer) 12 ≡ false = ground arith in
    let large : ltb 4096 (length buffer) ≡ false = ground arith in
    rw (small, large, e)
      (elim (Bool-cases (not (opcode hdr == 0))) [
        | inl bad ↦ rw bad tt
        | inr std ↦ rw std (elim (Bool-cases (not (hdr.qdcount == 1))) [
          | inl bad ↦ rw bad tt
          | inr one ↦ rw one (
              question-IsParsed buffer long short hdr e (ground arith) (ground arith)
                (decode_name buffer 12) refl (decode_name-IsGoodResult buffer 12))
        ])
      ])

-- `parse` reads inside the packet whatever the bytes are. A packet that it accepts is a standard
-- query of 12 to 4096 bytes with one question; the name, the type and the class are those of the
-- question section, which lies inside the packet; and the name is printable, in lower case and at
-- most 253 bytes long.
pub parse-IsParsed : (buffer : List ℕ) → IsParsed buffer (parse buffer)
unfolding parse
parse-IsParsed buffer = elim (Bool-cases (ltb (length buffer) 12)) [
  | inl small ↦ rw small tt
  | inr long ↦ elim (Bool-cases (ltb 4096 (length buffer))) [
    | inl large ↦ rw (long, large) tt
    | inr short ↦
        let (hdr, e) = parse_header_in buffer (ground arith) in
        header-IsParsed buffer hdr (ground arith) (ground arith) e
  ]
]

-- The facts of `IsAccepted` from a successful parse.
pub parse-IsAccepted :
    (buffer : List ℕ) {p : ParsedPacket} → parse buffer ≡ ok p → IsAccepted buffer p
parse-IsAccepted buffer {p} e = rw e at (parse-IsParsed buffer)

pub parse-ne-fault : (buffer : List ℕ) → parse buffer ≢ fault
parse-ne-fault buffer e = rw e at (parse-IsParsed buffer)
