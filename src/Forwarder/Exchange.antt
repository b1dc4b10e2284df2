-- ===== src/Forwarder/Exchange.antt =====
-- A query and the responses to it, one after the other.
use dns_security_dataplane.Base.{
  ℕ, ◌↔◌, ◌≤◌, ◌≡◌, sym, ap, ◌∙◌, inl, inr, Option-cases, true, Bool, List, some, none, length,
  nat_Eq, arith, ok, ◌>>=◌, bytes_eq, bytes_eq_iff, ◌==◌, ==_iff,
}
use dns_security_dataplane.Base.Map.{find, erase}
use dns_security_dataplane.Wire.{WireHeader, parse_header, is_response}
use dns_security_dataplane.Parser.{ParsedPacket, parse}
use dns_security_dataplane.Parser.Laws.{parse-IsAccepted}
use dns_security_dataplane.Forwarder.Pending.{transaction_of}
use dns_security_dataplane.Forwarder.{
  Forwarder, PendingTransaction, Address, Forwarded, check_question, validate_response,
  forward_query, max_pending,
}
use dns_security_dataplane.Forwarder.Pending.{Leaves, IsBounded, forward_query-Leaves}
use dns_security_dataplane.Forwarder.Txid.{AllFresh}
use dns_security_dataplane.Forwarder.Validate.{
  validate_response-IsGenuine, opened, found, unknown, burnt,
}

module _ (f : Forwarder) (buffer : List ℕ) (from_addr : Address) (hdr : WireHeader)
    (header : parse_header buffer ≡ ok hdr) (long : 12 ≤ length buffer)
    (addr : from_addr.sin_addr ≡ f.upstream_addr.sin_addr)
    (port : from_addr.sin_port ≡ f.upstream_addr.sin_port) (response : is_response hdr ≡ true) where
  number_free : find hdr.id (validate_response f buffer from_addr).0.pending_tx ≡ none
  number_free =
      rw (opened f buffer from_addr hdr header long addr port)
        (elim (Option-cases (find hdr.id f.pending_tx)) [
          | inl e ↦ rw (unknown f buffer hdr response e) e
          | inr (tx, e) ↦ burnt f buffer hdr tx response e
        ])

  -- Once a response with the number of `hdr` has come from the configured address and port,
  -- accepted or not, the next response with that number is not accepted, wherever it comes from.
  pub number_spent :
      (buffer' : List ℕ) (from_addr' : Address) (hdr' : WireHeader) {tx : PendingTransaction}
      → parse_header buffer' ≡ ok hdr'
      → hdr'.id ≡ hdr.id
      → ¬ (
          (validate_response (validate_response f buffer from_addr).0 buffer' from_addr').1 ≡ ok tx)
  number_spent buffer' from_addr' hdr' {tx} header' same h =
      let g =
        validate_response-IsGenuine (validate_response f buffer from_addr).0 buffer' from_addr' h in
      let e : hdr' ≡ g.packet.header = cc (header', (parse-IsAccepted buffer' g.parsed).header) in
      let k : g.packet.header.id ≡ hdr.id = sym (ap (λ h. h.id) e) ∙ same in
      some-ne-none (
        sym g.pending
        ∙ (ap (λ i. find i (validate_response f buffer from_addr).0.pending_tx) k ∙ number_free))
    where
      some-ne-none : {t : PendingTransaction} → ¬ (some t ≡ none)
      some-ne-none q = cc

module _ (f : Forwarder) (buffer : List ℕ) (from_addr : Address) (tx : PendingTransaction)
    (p : ParsedPacket) (parsed : parse buffer ≡ ok p) (response : is_response p.header ≡ true)
    (pending : find p.header.id f.pending_tx ≡ some tx)
    (addr : from_addr.sin_addr ≡ f.upstream_addr.sin_addr)
    (port : from_addr.sin_port ≡ f.upstream_addr.sin_port) where
  answered :
      validate_response f buffer from_addr
      ≡ (record f { pending_tx = erase p.header.id f.pending_tx }, check_question tx p)
  answered =
      let a = parse-IsAccepted buffer parsed in
      opened f buffer from_addr p.header a.header (omega (arith, a.long)) addr port
      ∙ (found f buffer p.header tx response pending
          ∙ ap
              (λ r.
                (record f { pending_tx = erase p.header.id f.pending_tx }, r >>= check_question tx))
              parsed)

  -- A well-formed response from the configured address and port, whose number is pending and whose
  -- question is the one that was asked, is accepted, and its transaction is spent.
  pub validate_response-genuine :
      p.question.qname ≡ tx.expected_qname
      → p.question.qtype ≡ tx.expected_qtype
      → validate_response f buffer from_addr
        ≡ (record f { pending_tx = erase p.header.id f.pending_tx }, ok tx)
  unfolding check_question
  validate_response-genuine qname qtype =
      let n : bytes_eq p.question.qname tx.expected_qname ≡ true =
        ground (arith, bytes_eq_iff p.question.qname tx.expected_qname) in
      let t : (p.question.qtype == tx.expected_qtype) ≡ true =
        ground (arith, ==_iff p.question.qtype tx.expected_qtype) in
      simp (answered, n, t)

-- A response is accepted, with its transaction, exactly if it comes from the configured address and
-- port, is a well-formed response, its number is pending for that transaction, and its question has
-- the name and the type that were asked. The class of its question is not compared.
pub validate_response_iff :
    (f : Forwarder) (buffer : List ℕ) (from_addr : Address) (tx : PendingTransaction)
    → ((validate_response f buffer from_addr).1 ≡ ok tx) ↔ (
        (from_addr.sin_addr ≡ f.upstream_addr.sin_addr)
        × (from_addr.sin_port ≡ f.upstream_addr.sin_port)
        × (p : ParsedPacket) × (parse buffer ≡ ok p)
        × (is_response p.header ≡ true)
        × (find p.header.id f.pending_tx ≡ some tx)
        × (p.question.qname ≡ tx.expected_qname)
        × (p.question.qtype ≡ tx.expected_qtype))
validate_response_iff f buffer from_addr tx = (
  λ h.
      let g = validate_response-IsGenuine f buffer from_addr h in
      (g.addr, g.port, g.packet, g.parsed, g.response, g.pending, g.qname, g.qtype),
  λ (addr, port, p, parsed, response, pending, qname, qtype).
      ap (λ r. r.1)
        (validate_response-genuine f buffer from_addr tx p parsed response pending addr port qname
          qtype),
)

module _ (f : Forwarder) (query : ParsedPacket) (client_addr : Address) (now txid : ℕ)
    (out : Forwarded) (buffer : List ℕ) (p : ParsedPacket) (parsed : parse buffer ≡ ok p)
    (response : is_response p.header ≡ true) (id : p.header.id ≡ txid)
    (qname : p.question.qname ≡ query.question.qname)
    (qtype : p.question.qtype ≡ query.question.qtype) where
  abbrev Resolves : Type 0
  Resolves = validate_response out.after buffer f.upstream_addr ≡ (
    record out.after { pending_tx = erase txid out.after.pending_tx },
    ok (transaction_of query client_addr now),
  )

  leaves-Resolves : Leaves f query client_addr now out → out.result ≡ ok txid → Resolves
  leaves-Resolves (_, addr, _, fwd) sent =
      let (_, _, there, _, _) = rw sent at fwd in
      rw⁻¹ id (
        validate_response-genuine out.after buffer f.upstream_addr
          (transaction_of query client_addr now) p parsed response
          (ap (λ i. find i out.after.pending_tx) id ∙ there) (sym (ap (λ a. a.sin_addr) addr))
          (sym (ap (λ a. a.sin_port) addr)) qname qtype)

  -- A query that `forward_query` sent under the number `txid` is answered by a response to it: a
  -- well-formed response from the configured address and port with that number and the question of
  -- the query is accepted, and gives back the client's own number and address. The socket is open,
  -- the table bounded, and 2048 distinct draws other than 0 are at hand.
  pub forward-validate :
      (query_bytes : List ℕ) (draws : List ℕ) (send_ok : Bool)
      → IsBounded f
      → f.is_open ≡ true
      → parse query_bytes ≡ ok query
      → AllFresh draws
      → max_pending ≤ length draws
      → forward_query f query client_addr now draws send_ok ≡ some out
      → out.result ≡ ok txid
      → Resolves
  forward-validate query_bytes draws send_ok b opened asked fresh enough call =
      go (
        forward_query-Leaves f query_bytes client_addr now draws send_ok b opened asked fresh
          enough)
    where
      go :
          (out' : Forwarded) × (forward_query f query client_addr now draws send_ok ≡ some out')
            × Leaves f query client_addr now out'
          → out.result ≡ ok txid
          → Resolves
      go (out', call', l) =
          let same : out' ≡ out = cc (call, call') in leaves-Resolves (rw same at l)
