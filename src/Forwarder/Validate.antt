-- ===== src/Forwarder/Validate.antt =====
-- Which upstream responses are accepted, and what they do to the table.
use dns_security_dataplane.Base.{
  ℕ, ◌≤◌, ◌≡◌, ◌≢◌, refl, sym, ap, ◌∙◌, inl, inr, ◌==◌, ==_iff, ltb, not, Bool, true, false, ◌||◌,
  List, none, some, length, nat_Eq, arith, Bool-cases, Option-cases, Result, ok, err, fault,
  ErrorCode, bytes_eq_iff, ◌>>=◌, >>=-ok-parts,
}
use dns_security_dataplane.Base.Map.{find, erase, length-erase, find-erase_self, erase-IsMap}
use dns_security_dataplane.Wire.{WireHeader, parse_header, is_response}
use dns_security_dataplane.Parser.{ParsedPacket, parse}
use dns_security_dataplane.Parser.Laws.{parse-IsAccepted, parse-ne-fault, parse_header_in}
use dns_security_dataplane.Forwarder.Pending.{IsBounded}
use dns_security_dataplane.Forwarder.{
  Forwarder, PendingTransaction, Address, check_question, match_response, validate_response,
}

-- What an accepted response has.
pub record IsGenuine (f : Forwarder) (buffer : List ℕ) (from_addr : Address)
    (tx : PendingTransaction) : Type 0 where
  pub addr : from_addr.sin_addr ≡ f.upstream_addr.sin_addr
  pub port : from_addr.sin_port ≡ f.upstream_addr.sin_port
  pub packet : ParsedPacket
  pub parsed : parse buffer ≡ ok packet
  pub response : is_response packet.header ≡ true
  pub pending : find packet.header.id f.pending_tx ≡ some tx
  pub qname : packet.question.qname ≡ tx.expected_qname
  pub qtype : packet.question.qtype ≡ tx.expected_qtype
  pub spent :
      (validate_response f buffer from_addr).0
      ≡ record f { pending_tx = erase packet.header.id f.pending_tx }

check_question_ok :
    (tx tx' : PendingTransaction) (p : ParsedPacket)
    → check_question tx p ≡ ok tx'
    → (tx ≡ tx') × (p.question.qname ≡ tx.expected_qname) × (p.question.qtype ≡ tx.expected_qtype)
unfolding check_question
check_question_ok tx tx' p h = ground (arith, bytes_eq_iff p.question.qname tx.expected_qname)

pub err-ne-ok : {A : Type 0} {c : ErrorCode} {a : A} → ¬ (err c ≡ ok a)
err-ne-ok e = cc

module _ (f : Forwarder) (buffer : List ℕ) where
  pub found :
      (hdr : WireHeader) (tx' : PendingTransaction)
      → is_response hdr ≡ true
      → find hdr.id f.pending_tx ≡ some tx'
      → match_response f buffer hdr
        ≡ (record f { pending_tx = erase hdr.id f.pending_tx }, parse buffer >>= check_question tx')
  unfolding match_response
  found hdr tx' r e = simp (r, e)

  refused :
      (hdr : WireHeader)
      → is_response hdr ≡ false
      → match_response f buffer hdr ≡ (f, err ErrorCode.unexpected_response)
  unfolding match_response
  refused hdr r = simp r

  pub unknown :
      (hdr : WireHeader)
      → is_response hdr ≡ true
      → find hdr.id f.pending_tx ≡ none
      → match_response f buffer hdr ≡ (f, err ErrorCode.unexpected_response)
  unfolding match_response
  unknown hdr r e = simp (r, e)

  abbrev Matched : WireHeader → PendingTransaction → Type 0
  Matched hdr tx =
      (is_response hdr ≡ true)
      × (find hdr.id f.pending_tx ≡ some tx)
      × (match_response f buffer hdr).0 ≡ record f { pending_tx = erase hdr.id f.pending_tx }
      × (p : ParsedPacket) × (parse buffer ≡ ok p)
      × (check_question tx p ≡ ok tx)

  pub matched :
      (hdr : WireHeader) {tx : PendingTransaction} (tx' : PendingTransaction)
      → is_response hdr ≡ true
      → find hdr.id f.pending_tx ≡ some tx'
      → (p : ParsedPacket) × (check_question tx' p ≡ ok tx) × (parse buffer ≡ ok p)
      → Matched hdr tx
  matched hdr {tx} tx' r e (p, ec, ep) =
      let (same, _, _) = check_question_ok tx' tx p ec in
      (
        r,
        e ∙ ap some same,
        ap (λ x. x.0) (found hdr tx' r e),
        p,
        ep,
        ap (λ t. check_question t p) (sym same) ∙ ec,
      )

  match_response-Matched :
      (hdr : WireHeader) {tx : PendingTransaction}
      → (match_response f buffer hdr).1 ≡ ok tx
      → Matched hdr tx
  match_response-Matched hdr {tx} h = elim (Bool-cases (is_response hdr)) [
    | inr r ↦ absurd (err-ne-ok (ap (λ x. x.1) (sym (refused hdr r)) ∙ h))
    | inl r ↦ elim (Option-cases (find hdr.id f.pending_tx)) [
      | inl e ↦ absurd (err-ne-ok (ap (λ x. x.1) (sym (unknown hdr r e)) ∙ h))
      | inr (tx', e) ↦ matched hdr tx' r e (
          >>=-ok-parts (check_question tx') _ (parse buffer)
            (ap (λ x. x.1) (sym (found hdr tx' r e)) ∙ h))
    ]
  ]

  -- What a response whose number is pending leaves, accepted or not.
  pub burnt :
      (hdr : WireHeader) (tx' : PendingTransaction)
      → is_response hdr ≡ true
      → find hdr.id f.pending_tx ≡ some tx'
      → find hdr.id (match_response f buffer hdr).0.pending_tx ≡ none
  burnt hdr tx' r e = rw (found hdr tx' r e) (find-erase_self hdr.id f.pending_tx)

module _ (f : Forwarder) (buffer : List ℕ) (from_addr : Address) where
  pub opened :
      (hdr : WireHeader)
      → parse_header buffer ≡ ok hdr
      → 12 ≤ length buffer
      → from_addr.sin_addr ≡ f.upstream_addr.sin_addr
      → from_addr.sin_port ≡ f.upstream_addr.sin_port
      → validate_response f buffer from_addr ≡ match_response f buffer hdr
  unfolding validate_response
  opened hdr e l a p =
      let t : ltb (length buffer) 12 ≡ false = ground arith in
      let ta : (from_addr.sin_addr == f.upstream_addr.sin_addr) ≡ true =
        ground (arith, ==_iff from_addr.sin_addr f.upstream_addr.sin_addr) in
      let tp : (from_addr.sin_port == f.upstream_addr.sin_port) ≡ true =
        ground (arith, ==_iff from_addr.sin_port f.upstream_addr.sin_port) in
      simp (t, ta, tp, e)

  -- Everything that is checked before the header is read.
  gate :
      {tx : PendingTransaction}
      → (validate_response f buffer from_addr).1 ≡ ok tx
      → (12 ≤ length buffer)
        × (from_addr.sin_addr ≡ f.upstream_addr.sin_addr)
        × (from_addr.sin_port ≡ f.upstream_addr.sin_port)
  unfolding validate_response
  gate h = ground arith

  genuine :
      {tx : PendingTransaction}
      → (hdr : WireHeader) × (parse_header buffer ≡ ok hdr)
      → (12 ≤ length buffer)
        × (from_addr.sin_addr ≡ f.upstream_addr.sin_addr)
        × (from_addr.sin_port ≡ f.upstream_addr.sin_port)
      → (validate_response f buffer from_addr).1 ≡ ok tx
      → IsGenuine f buffer from_addr tx
  genuine {tx} (hdr, e) (l, a, p) h =
      accepted (match_response-Matched f buffer hdr (ap (λ x. x.1) (sym o) ∙ h))
    where
      o : validate_response f buffer from_addr ≡ match_response f buffer hdr
      o = opened hdr e l a p

      accepted : Matched f buffer hdr tx → IsGenuine f buffer from_addr tx
      accepted (r, pending, spent, packet, parsed, q) =
          let same : hdr ≡ packet.header = cc (e, (parse-IsAccepted buffer parsed).header) in
          let (_, qname, qtype) = check_question_ok tx tx packet q in
          record {
            addr = a;
            port = p;
            packet = packet;
            parsed = parsed;
            response = rw⁻¹ same r;
            pending = rw⁻¹ same pending;
            qname = qname;
            qtype = qtype;
            spent = rw⁻¹ same (ap (λ x. x.0) o ∙ spent);
          }

  -- A response is accepted only from the configured address and port, as a well-formed response
  -- whose number is pending and whose question has the name and the type that were asked; the
  -- transaction is spent.
  pub validate_response-IsGenuine :
      {tx : PendingTransaction}
      → (validate_response f buffer from_addr).1 ≡ ok tx
      → IsGenuine f buffer from_addr tx
  validate_response-IsGenuine h =
      let (l, a, p) = gate h in genuine (parse_header_in buffer l) (l, a, p) h

module _ (f : Forwarder) (buffer : List ℕ) (b : IsBounded f) where
  abbrev pub Keeps : Forwarder × Result PendingTransaction → Type 0
  Keeps r = IsBounded r.0 × (r.0.is_open ≡ f.is_open) × (r.1 ≢ fault)

  unchanged : (c : ErrorCode) → Keeps (f, err c)
  unchanged c = (b, refl, λ e. cc)

  check_question-ne-fault :
      (tx : PendingTransaction) (p : ParsedPacket) → check_question tx p ≢ fault
  unfolding check_question
  check_question-ne-fault tx p e = ground arith

  checked-ne-fault :
      (tx : PendingTransaction) (r : Result ParsedPacket)
      → parse buffer ≡ r
      → (r >>= check_question tx) ≢ fault
  checked-ne-fault tx (ok p) h = check_question-ne-fault tx p
  checked-ne-fault tx (err c) h = λ e. cc
  checked-ne-fault tx fault h = absurd (parse-ne-fault buffer h)

  match_response-Keeps : (hdr : WireHeader) → Keeps (match_response f buffer hdr)
  match_response-Keeps hdr = elim (Bool-cases (is_response hdr)) [
    | inr r ↦ rw (refused f buffer hdr r) (unchanged ErrorCode.unexpected_response)
    | inl r ↦ elim (Option-cases (find hdr.id f.pending_tx)) [
      | inl e ↦ rw (unknown f buffer hdr r e) (unchanged ErrorCode.unexpected_response)
      | inr (tx, e) ↦ rw (found f buffer hdr tx r e) (
        record {
          once = erase-IsMap hdr.id f.pending_tx b.once;
          bounded = omega (arith, length-erase hdr.id tx f.pending_tx b.once e, b.bounded);
        },
        refl,
        checked-ne-fault tx (parse buffer) refl,
      )
    ]
  ]

  -- A datagram from upstream never enlarges the table, and never makes the code read outside it.
  pub validate_response-Keeps : (from_addr : Address) → Keeps (validate_response f buffer from_addr)
  unfolding validate_response
  validate_response-Keeps from_addr = elim (Bool-cases (ltb (length buffer) 12)) [
    | inl e ↦ simp e (unchanged ErrorCode.packet_too_short)
    | inr e ↦
        from_somewhere e
          (not (from_addr.sin_addr == f.upstream_addr.sin_addr)
            || not (from_addr.sin_port == f.upstream_addr.sin_port))
          refl
  ]
    where
      from_somewhere :
          ltb (length buffer) 12 ≡ false
          → (other : Bool)
          → (not (from_addr.sin_addr == f.upstream_addr.sin_addr)
              || not (from_addr.sin_port == f.upstream_addr.sin_port))
            ≡ other
          → Keeps (validate_response f buffer from_addr)
      from_somewhere e true h = simp (e, h) (unchanged ErrorCode.unexpected_response)
      from_somewhere e false h =
          let (hdr, p) = parse_header_in buffer (ground arith) in
          simp (e, h, p) (match_response-Keeps hdr)
