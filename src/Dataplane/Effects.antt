-- ===== src/Dataplane/Effects.antt =====
-- What an accepted query does to the table of transactions, by the branches of its handler.
use dns_security_dataplane.Base.{
  ℕ, ◌≡◌, ◌≢◌, refl, sym, ap, ◌∙◌, inl, inr, ◌⊎◌, false, Bool-cases, List, [], ◌∷◌, Option, none,
  some, ok, err, fault, Result, bytes_eq, >>=-ok-parts,
}
use dns_security_dataplane.Text.{codes}
use dns_security_dataplane.Name.{is_empty}
use dns_security_dataplane.Wire.{Rcode}
use dns_security_dataplane.Parser.{ParsedPacket, parse}
use dns_security_dataplane.Response.{build_error_response, translate_txid}
use dns_security_dataplane.Policy.{Action, PolicySnapshot, evaluate}
use dns_security_dataplane.Cache.{Cache, CacheEntry, lookup}
use dns_security_dataplane.Forwarder.{
  Address, Forwarder, Forwarded, PendingTransaction, forward_query, validate_response,
}
use dns_security_dataplane.Cache as DnsCache
use dns_security_dataplane.Dataplane.{
  Dataplane, Outside, Handled, silent, reply_with, after_forward, after_lookup, on_allowed,
  on_action, on_miss, on_query, received, on_client, on_resolved, on_validated, on_upstream,
}
use dns_security_dataplane.Dataplane.Queries.{accepted-not-empty}

-- The handler answers at once and leaves the forwarder, or it is `forward_query` that leaves it; if
-- there is no answer, that call returned a number.
abbrev pub Effect : Dataplane → ParsedPacket → Address → Outside → Handled → Type 0
Effect d query client_addr o h =
    ((h.state.forwarder ≡ d.forwarder) × (h.replies ≢ []))
    ⊎ ((out : Forwarded) × (forward_query d.forwarder query client_addr o.forward_now o.draws
            o.send_ok
          ≡ some out)
        × (h.state.forwarder ≡ out.after)
        × (h.replies ≡ [] → (txid : ℕ) × (out.result ≡ ok txid)))

replied :
    (d : Dataplane) (client_addr : Address) (r : Result (List ℕ)) {h : Handled}
    → reply_with d client_addr r ≡ ok h
    → (h.state ≡ d) × (h.replies ≢ [])
replied d client_addr (ok resp) {h} e =
    let same : record { state = d; replies = (resp, client_addr) ∷ [] } ≡ h = cc e in
    (ap (λ x. x.state) (sym same), λ n. cc (ap (λ x. x.replies) same, n))
replied d client_addr (err c) e = cc e
replied d client_addr fault e = cc e

ok-injective : {a b : Handled} → some (ok a) ≡ some (ok b) → a ≡ b
ok-injective e = cc e

module _ (query : ParsedPacket) (client_addr : Address) (o : Outside) where
  forwarded :
      (d : Dataplane) (r : Result ℕ) {h : Handled}
      → after_forward d query client_addr r ≡ ok h
      → (h.state ≡ d) × (h.replies ≡ [] → (txid : ℕ) × (r ≡ ok txid))
  unfolding after_forward
  forwarded d (ok txid) {h} e =
      let same : silent d ≡ h = cc e in (ap (λ x. x.state) (sym same), λ n. (txid, refl))
  forwarded d (err c) e =
      let (s, ne) = replied d client_addr (build_error_response query Rcode.servfail) e in
      (s, λ n. absurd (ne n))
  forwarded d fault e = cc e

  missed :
      (d : Dataplane) (cache : Cache) (r : Option Forwarded) {h : Handled}
      → forward_query d.forwarder query client_addr o.forward_now o.draws o.send_ok ≡ r
      → on_miss (record d { cache = cache }) query client_addr r ≡ some (ok h)
      → Effect d query client_addr o h
  unfolding on_miss
  missed d cache none call e = cc e
  missed d cache (some out) call e =
      let (s, n) =
        forwarded (record { cache = cache; forwarder = out.after }) out.result (some-injective e) in
      inr (out, call, ap (λ x. x.forwarder) s, n)
    where
      some-injective : {a b : Result Handled} → some a ≡ some b → a ≡ b
      some-injective q = cc q

  looked_up :
      (d : Dataplane) (r : Result (Cache × Option CacheEntry)) {h : Handled}
      → after_lookup d query client_addr o r ≡ some (ok h)
      → Effect d query client_addr o h
  unfolding after_lookup
  looked_up d (ok (cache, some entry)) {h} e =
      let same = ok-injective e in
      inl (ap (λ x. x.state.forwarder) (sym same), λ n. cc (ap (λ x. x.replies) same, n))
  looked_up d (ok (cache, none)) e = missed d cache _ refl e
  looked_up d (err c) e = cc e
  looked_up d fault e = cc e

  answered_at_once :
      (d : Dataplane) (r : Result (List ℕ)) {h : Handled}
      → some (reply_with d client_addr r) ≡ some (ok h)
      → Effect d query client_addr o h
  answered_at_once d r {h} e =
      let once : reply_with d client_addr r ≡ ok h = cc e in
      let (s, n) = replied d client_addr r once in inl (ap (λ x. x.forwarder) s, n)

  allowed :
      (d : Dataplane) (current_gen : ℕ) {h : Handled}
      → on_allowed d current_gen query client_addr o ≡ some (ok h)
      → Effect d query client_addr o h
  unfolding on_allowed
  allowed d current_gen e =
      elim (Bool-cases (bytes_eq query.question.qname (codes "sinkhole.test"))) [
        | inl t ↦ answered_at_once d _ (rw t at e)
        | inr f ↦ looked_up d _ (rw f at e)
      ]

  acted :
      (d : Dataplane) (current_gen : ℕ) (a : Action) {h : Handled}
      → on_action d current_gen query client_addr o a ≡ some (ok h)
      → Effect d query client_addr o h
  unfolding on_action
  acted d current_gen Action.block_nxdomain e = answered_at_once d _ e
  acted d current_gen Action.block_refused e = answered_at_once d _ e
  acted d current_gen Action.allow e = allowed d current_gen e
  acted d current_gen Action.block_sinkhole e = allowed d current_gen e

  pub on_client-Effect :
      (d : Dataplane) (snapshot : PolicySnapshot) (current_gen : ℕ) (datagram : List ℕ)
      {h : Handled}
      → parse (received datagram) ≡ ok query
      → on_client d snapshot current_gen datagram client_addr o ≡ some (ok h)
      → Effect d query client_addr o h
  unfolding on_client on_query
  on_client-Effect d snapshot current_gen datagram p e =
      let n : is_empty datagram ≡ false = accepted-not-empty datagram p in
      acted d current_gen (evaluate snapshot query.question.qname).action (rw (n, p, on_query) at e)

-- A datagram that is not accepted changes nothing.
pub on_client-refused :
    (d : Dataplane) (snapshot : PolicySnapshot) (current_gen : ℕ) (datagram : List ℕ)
    (client_addr : Address) (o : Outside) {h : Handled}
    → ((query : ParsedPacket) → parse (received datagram) ≢ ok query)
    → on_client d snapshot current_gen datagram client_addr o ≡ some (ok h)
    → h ≡ silent d
unfolding on_client on_query
on_client-refused d snapshot current_gen datagram client_addr o {h} refused e =
    elim (Bool-cases (is_empty datagram)) [
      | inl t ↦ sym (ok-injective (rw t at e))
      | inr f ↦ not_ok (parse (received datagram)) refused (rw f at e)
    ]
  where
    not_ok :
        (r : Result ParsedPacket)
        → ((query : ParsedPacket) → r ≢ ok query)
        → on_query d snapshot current_gen client_addr o r ≡ some (ok h)
        → h ≡ silent d
    not_ok (ok query) n q = absurd (n query refl)
    not_ok (err c) n q = sym (ok-injective q)
    not_ok fault n q = cc q

module _ (current_gen now : ℕ) (response : List ℕ) where
  resolved_forwarder :
      (d : Dataplane) (matched_tx : PendingTransaction) {h : Handled}
      → on_resolved d current_gen now response matched_tx ≡ ok h
      → h.state.forwarder ≡ d.forwarder
  unfolding on_resolved
  resolved_forwarder d matched_tx {h} e =
      let (cache, last, _) =
        >>=-ok-parts
          (λ (cache : Cache). ok (record {
            state = record d { cache = cache };
            replies =
                ((translate_txid response matched_tx.client_txid).1, matched_tx.client_addr) ∷ [];
          }))
          h
          (DnsCache.insert d.cache matched_tx.expected_qname matched_tx.expected_qtype 1 response 60
            current_gen now)
          e in
      sent cache last
    where
      ok-field : {a b : Handled} → ok a ≡ ok b → a.state.forwarder ≡ b.state.forwarder
      ok-field {a} {b} q = let same : a ≡ b = cc q in ap (λ x. x.state.forwarder) same

      sent :
          (cache : Cache)
          → ok (record {
            state = record d { cache = cache };
            replies =
                ((translate_txid response matched_tx.client_txid).1, matched_tx.client_addr) ∷ [];
          })
            ≡ ok h
          → h.state.forwarder ≡ d.forwarder
      sent cache q = sym (ok-field q)

  validated_forwarder :
      (d : Dataplane) (f : Forwarder) (r : Result PendingTransaction) {h : Handled}
      → on_validated d current_gen now response (f, r) ≡ ok h
      → h.state.forwarder ≡ f
  unfolding on_validated
  validated_forwarder d f (ok tx) e = resolved_forwarder (record d { forwarder = f }) tx e
  validated_forwarder d f (err c) {h} e =
      let same : silent (record d { forwarder = f }) ≡ h = cc e in
      ap (λ x. x.state.forwarder) (sym same)
  validated_forwarder d f fault e = cc e

nothing_read : (f : Forwarder) (from_addr : Address) → (validate_response f [] from_addr).0 ≡ f
unfolding validate_response
nothing_read f from_addr = refl

-- A datagram from upstream does to the forwarder what `validate_response` does.
pub on_upstream-forwarder :
    (d : Dataplane) (current_gen now : ℕ) (datagram : List ℕ) (from_addr : Address) {h : Handled}
    → on_upstream d current_gen now datagram from_addr ≡ ok h
    → h.state.forwarder ≡ (validate_response d.forwarder (received datagram) from_addr).0
unfolding on_upstream
on_upstream-forwarder d current_gen now [] from_addr {h} e =
    let same : silent d ≡ h = cc e in
    ap (λ x. x.state.forwarder) (sym same) ∙ sym (nothing_read d.forwarder from_addr)
on_upstream-forwarder d current_gen now (b ∷ bs) from_addr e =
    validated_forwarder current_gen now (received (b ∷ bs)) d _ _ e
