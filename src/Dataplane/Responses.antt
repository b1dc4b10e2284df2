-- ===== src/Dataplane/Responses.antt =====
-- Events on the forwarder's socket.
use dns_security_dataplane.Base.{
  ℕ, arith, ◌+◌, ◌*◌, ◌≡◌, refl, ap, ◌∙◌, inl, inr, ◌⊎◌, Bool-cases, List, [], ◌∷◌, ok, err, fault,
  Result,
}
use dns_security_dataplane.Name.{is_empty}
use dns_security_dataplane.Parser.Laws.{parse-IsAccepted}
use dns_security_dataplane.Response.Stamped.{with_id, translate_txid-with_id}
use dns_security_dataplane.Cache.Lifetime.{lifetime}
use dns_security_dataplane.Cache.Under.{key_under}
use dns_security_dataplane.Cache.{Cache}
use dns_security_dataplane.Cache.Valid.{IsValid}
use dns_security_dataplane.Cache.Inserts.{Inserts}
use dns_security_dataplane.Cache.Reads.{insert-Inserts}
use dns_security_dataplane.Forwarder.{Forwarder, PendingTransaction, Address, validate_response}
use dns_security_dataplane.Forwarder.Validate.{
  IsGenuine, validate_response-IsGenuine, validate_response-Keeps,
}
use dns_security_dataplane.Dataplane.{
  Dataplane, Handled, silent, on_resolved, on_validated, received, on_upstream,
}
use dns_security_dataplane.Dataplane.Queries.{IsSound}

-- What an event on the forwarder's socket does: it sends nothing and leaves the cache, or it stores
-- a genuine response for the client that asked, and sends it with that client's ID.
abbrev pub Relays : Dataplane → ℕ → ℕ → List ℕ → Address → Handled → Type 0
Relays d current_gen now datagram from_addr h =
    ((h.replies ≡ []) × (h.state.cache ≡ d.cache))
    ⊎ ((tx : PendingTransaction) × IsGenuine d.forwarder (received datagram) from_addr tx
        × (h.replies ≡ (with_id tx.client_txid (received datagram), tx.client_addr) ∷ [])
        × Inserts (key_under tx.expected_qname tx.expected_qtype 1) (received datagram)
            (now + lifetime 60 * 1_000_000_000) current_gen d.cache (ok h.state.cache))

module _ (d : Dataplane) (current_gen now : ℕ) (datagram : List ℕ) (from_addr : Address)
    (s : IsSound d) where
  Upstream : Result Handled → Type 0
  Upstream r =
      (h : Handled) × (r ≡ ok h) × IsSound h.state × Relays d current_gen now datagram from_addr h

  sound :
      (f : Forwarder) (c : Cache)
      → (validate_response d.forwarder (received datagram) from_addr).0 ≡ f
      → IsValid c
      → IsSound (record { cache = c; forwarder = f })
  sound f c e v =
      let (b, o, _) = validate_response-Keeps d.forwarder (received datagram) s.table from_addr in
      rw (← e) (record { cache = v; table = b; opened = o ∙ s.opened })

  resolved :
      (f : Forwarder) (tx : PendingTransaction)
      → (validate_response d.forwarder (received datagram) from_addr).0 ≡ f
      → IsGenuine d.forwarder (received datagram) from_addr tx
      → Upstream (on_resolved (record d { forwarder = f }) current_gen now (received datagram) tx)
  unfolding on_resolved Upstream
  resolved f tx e g =
      let i =
        insert-Inserts d.cache tx.expected_qname tx.expected_qtype 1 (received datagram) 60
          current_gen now s.cache in
      let a = parse-IsAccepted (received datagram) g.parsed in
      let stamped =
        translate_txid-with_id (received datagram) tx.client_txid (omega (arith, a.long)) in
      (
        record {
          state = record { cache = i.after; forwarder = f };
          replies = (with_id tx.client_txid (received datagram), tx.client_addr) ∷ [];
        },
        rw (stamped, i.returns),
        sound f i.after e i.valid,
        inr (tx, g, refl, rw⁻¹ i.returns i),
      )

  validated :
      (f : Forwarder) (r : Result PendingTransaction)
      → validate_response d.forwarder (received datagram) from_addr ≡ (f, r)
      → Upstream (on_validated d current_gen now (received datagram) (f, r))
  unfolding on_validated Upstream
  validated f (ok tx) e =
      resolved f tx (ap (λ x. x.0) e)
        (validate_response-IsGenuine d.forwarder (received datagram) from_addr (ap (λ x. x.1) e))
  validated f (err c) e = (
    silent (record d { forwarder = f }),
    refl,
    sound f d.cache (ap (λ x. x.0) e) s.cache,
    inl (refl, refl),
  )
  validated f fault e =
      let (_, _, n) = validate_response-Keeps d.forwarder (received datagram) s.table from_addr in
      absurd (n (ap (λ x. x.1) e))

  -- Whatever datagram comes in on the forwarder's socket, with a valid cache, an open socket and a
  -- bounded table: the handler returns and keeps all three, and a datagram that is not a genuine
  -- response is neither stored nor sent on. One that is sent on is genuine; it is stored, for 60
  -- seconds and under class IN, and goes to the client that asked, with its ID in the first two bytes
  -- and the rest as it came.
  pub on_upstream-Relays :
      (h : Handled) × (on_upstream d current_gen now datagram from_addr ≡ ok h)
      × IsSound h.state
      × Relays d current_gen now datagram from_addr h
  unfolding on_upstream Upstream
  on_upstream-Relays = elim (Bool-cases (is_empty datagram)) [
    | inl e ↦ rw e (silent d, refl, s, inl (refl, refl))
    | inr e ↦ rw e (
        validated (validate_response d.forwarder (received datagram) from_addr).0
          (validate_response d.forwarder (received datagram) from_addr).1 refl)
  ]
