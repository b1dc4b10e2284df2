-- ===== src/Forwarder/Survival.antt =====
-- What leaves a pending transaction in the table.
use dns_security_dataplane.Base.{
  ℕ, ◌≤◌, ◌≡◌, ◌≢◌, refl, ap, ◌∙◌, inl, inr, ◌==◌, ==_iff, ltb, not, Bool, true, false, ◌||◌,
  if◌then◌else◌, List, Option, none, some, length, nat_Eq, arith, Bool-cases, Option-cases, Result,
  ok, err, fault,
}
use dns_security_dataplane.Base.Map.{find, find-erase_ne, find-retain}
use dns_security_dataplane.Wire.{WireHeader, parse_header, is_response}
use dns_security_dataplane.Parser.{ParsedPacket, parse}
use dns_security_dataplane.Parser.Laws.{parse_header_in}
use dns_security_dataplane.Forwarder.{
  Forwarder, PendingTransaction, Address, Forwarded, is_live, prune, forward_query, match_response,
  validate_response, max_pending,
}
use dns_security_dataplane.Forwarder.Txid.{AllFresh}
use dns_security_dataplane.Forwarder.Pending.{IsBounded, Forwards, forward_query-Leaves}

-- `tx` waits under the number `txid` for a response from `upstream`.
pub record Awaits (upstream : Address) (txid : ℕ) (tx : PendingTransaction) (f : Forwarder)
    : Type 0 where
  pub pending : find txid f.pending_tx ≡ some tx
  pub addr : f.upstream_addr ≡ upstream

-- A datagram that is not a response to this number: its header has another number, or it comes
-- from elsewhere.
abbrev pub IsForeign : Address → ℕ → List ℕ → Address → Type 0
IsForeign upstream txid buffer from_addr =
    (hdr : WireHeader)
    → parse_header buffer ≡ ok hdr
    → from_addr.sin_addr ≡ upstream.sin_addr
    → from_addr.sin_port ≡ upstream.sin_port
    → hdr.id ≢ txid

module _ (upstream : Address) (txid : ℕ) (tx : PendingTransaction) (f : Forwarder)
    (awaits : Awaits upstream txid tx f) where
  pruned :
      (now : ℕ)
      → IsBounded f
      → is_live now txid tx ≡ true
      → find txid (prune now f).pending_tx ≡ some tx
  pruned now b live =
      find-retain (is_live now) txid f.pending_tx b.once
      ∙ kept (find txid f.pending_tx) awaits.pending
    where
      kept :
          (r : Option PendingTransaction)
          → r ≡ some tx
          → (elim r [ none ↦ none | some v ↦ if is_live now txid v then some v else none ])
            ≡ some tx
      kept none e = cc e
      kept (some v) e = let same : v ≡ tx = cc e in rw same (simp live refl)

  forwarded-Awaits :
      (packet : ParsedPacket) (client_addr : Address) (now : ℕ) (out : Forwarded) (r : Result ℕ)
      → IsBounded f
      → is_live now txid tx ≡ true
      → out.after.upstream_addr ≡ f.upstream_addr
      → Forwards (prune now f) packet client_addr now out r
      → Awaits upstream txid tx out.after
  forwarded-Awaits packet client_addr now out (ok t) b live addr (_, free, _, others, _) = record {
    pending = others txid (λ e. taken e) ∙ pruned now b live;
    addr = addr ∙ awaits.addr;
  }
    where
      taken : t ≢ txid
      taken e = cc (e, free, pruned now b live)
  forwarded-Awaits packet client_addr now out (err c) b live addr others = record {
    pending = others txid ∙ pruned now b live;
    addr = addr ∙ awaits.addr;
  }
  forwarded-Awaits packet client_addr now out fault b live addr l = absurd l

  -- Another query leaves it, unless it is older than two seconds.
  pub forward_query-Awaits :
      (buffer : List ℕ) {packet : ParsedPacket} (client_addr : Address) (now : ℕ) (draws : List ℕ)
      (send_ok : Bool) {out : Forwarded}
      → IsBounded f
      → f.is_open ≡ true
      → parse buffer ≡ ok packet
      → AllFresh draws
      → max_pending ≤ length draws
      → is_live now txid tx ≡ true
      → forward_query f packet client_addr now draws send_ok ≡ some out
      → Awaits upstream txid tx out.after
  forward_query-Awaits buffer {packet} client_addr now draws send_ok {out} b opened parsed fresh
        enough live call =
      let (out', call', (_, addr, _, left)) =
        forward_query-Leaves f buffer client_addr now draws send_ok b opened parsed fresh enough in
      let same : out' ≡ out = cc (call', call) in
      rw same at (forwarded-Awaits packet client_addr now out' out'.result b live addr left)

  module _ (buffer : List ℕ) where
    matched-Awaits :
        (hdr : WireHeader) → hdr.id ≢ txid → Awaits upstream txid tx (match_response f buffer hdr).0
    unfolding match_response
    matched-Awaits hdr other = elim (Bool-cases (is_response hdr)) [
      | inr r ↦ simp r awaits
      | inl r ↦ elim (Option-cases (find hdr.id f.pending_tx)) [
        | inl e ↦ simp (r, e) awaits
        | inr (t, e) ↦
            simp (r, e)
              (record {
                pending = find-erase_ne hdr.id txid f.pending_tx other ∙ awaits.pending;
                addr = awaits.addr;
              })
      ]
    ]

    -- A foreign datagram leaves it.
    pub validate_response-Awaits :
        (from_addr : Address)
        → IsForeign upstream txid buffer from_addr
        → Awaits upstream txid tx (validate_response f buffer from_addr).0
    unfolding validate_response
    validate_response-Awaits from_addr foreign = elim (Bool-cases (ltb (length buffer) 12)) [
      | inl e ↦ simp e awaits
      | inr e ↦
          from_somewhere e
            (not (from_addr.sin_addr == f.upstream_addr.sin_addr)
              || not (from_addr.sin_port == f.upstream_addr.sin_port))
            refl
    ]
      where
        from_somewhere :
            ltb (length buffer) 12 ≡ false
            → (other : Bool)
            → (not (from_addr.sin_addr == f.upstream_addr.sin_addr)
                || not (from_addr.sin_port == f.upstream_addr.sin_port))
              ≡ other
            → Awaits upstream txid tx (validate_response f buffer from_addr).0
        from_somewhere e true h = simp (e, h) awaits
        from_somewhere e false h =
            let (hdr, p) = parse_header_in buffer (ground arith) in
            let host : from_addr.sin_addr ≡ f.upstream_addr.sin_addr =
              ground (arith, ==_iff from_addr.sin_addr f.upstream_addr.sin_addr) in
            let port : from_addr.sin_port ≡ f.upstream_addr.sin_port =
              ground (arith, ==_iff from_addr.sin_port f.upstream_addr.sin_port) in
            simp (e, h, p)
              (matched-Awaits hdr (
                foreign hdr p (host ∙ ap (λ a. a.sin_addr) awaits.addr)
                  (port ∙ ap (λ a. a.sin_port) awaits.addr)))
