-- ===== src/Forwarder/Clients.antt =====
-- Whom the pending transactions are for.
use dns_security_dataplane.Base.{
  ℕ, ◌≡◌, refl, sym, ap, ◌∙◌, inl, inr, true, false, Bool, List, Option, none, some, ok, err, fault,
  Result, nat_Eq, Option-cases, if◌then◌else◌, ◌==◌, ltb, not, ◌||◌, Bool-cases, length, arith,
}
use dns_security_dataplane.Base.Map.{find, erase, find-erase, find-retain}
use dns_security_dataplane.Base.Members.{eq_or_ne}
use dns_security_dataplane.Wire.{WireHeader, is_response}
use dns_security_dataplane.Parser.{ParsedPacket}
use dns_security_dataplane.Parser.Laws.{parse_header_in}
use dns_security_dataplane.Forwarder.Pending.{transaction_of}
use dns_security_dataplane.Forwarder.{
  Address, Forwarder, Forwarded, PendingTransaction, is_live, prune, match_response,
  validate_response,
}
use dns_security_dataplane.Forwarder.Pending.{IsBounded, Forwards}

module _ (P : Address → Type 0) where
  -- Each transaction is for an address with `P`.
  abbrev pub Knows : Forwarder → Type 0
  Knows f = (t : ℕ) (tx : PendingTransaction) → find t f.pending_tx ≡ some tx → P tx.client_addr

  pub pruned-Knows : (now : ℕ) (f : Forwarder) → IsBounded f → Knows f → Knows (prune now f)
  pruned-Knows now f b knows t tx h =
      there (find t f.pending_tx) refl (sym (find-retain (is_live now) t f.pending_tx b.once) ∙ h)
    where
      there :
          (r : Option PendingTransaction)
          → find t f.pending_tx ≡ r
          → (elim r [ none ↦ none | some v ↦ if is_live now t v then some v else none ]) ≡ some tx
          → P tx.client_addr
      there none e h = cc h
      there (some v) e h = knows t tx (e ∙ ground arith)

  pub forwarded-Knows :
      (f : Forwarder) (packet : ParsedPacket) (client_addr : Address) (now : ℕ) (out : Forwarded)
      (r : Result ℕ)
      → P client_addr
      → Knows f
      → Forwards f packet client_addr now out r
      → Knows out.after
  forwarded-Knows f packet client_addr now out (ok n) asked knows (_, _, entered, others, _) t tx
        h =
      elim (eq_or_ne n t) [
        | inr ne ↦ knows t tx (sym (others t ne) ∙ h)
        | inl e ↦
            let same : transaction_of packet client_addr now ≡ tx =
              some-injective (sym entered ∙ (ap (λ k. find k out.after.pending_tx) e ∙ h)) in
            rw (← ap (λ x. x.client_addr) same) asked
      ]
    where
      some-injective : {a b : PendingTransaction} → some a ≡ some b → a ≡ b
      some-injective q = cc q
  forwarded-Knows f packet client_addr now out (err c) asked knows others t tx h =
      knows t tx (sym (others t) ∙ h)
  forwarded-Knows f packet client_addr now out fault asked knows l t tx h = absurd l

  module _ (f : Forwarder) (buffer : List ℕ) (knows : Knows f) where
    erased-Knows : (i : ℕ) → Knows (record f { pending_tx = erase i f.pending_tx })
    erased-Knows i t tx h = knows t tx (kept (i == t) (sym (find-erase i t f.pending_tx) ∙ h))
      where
        kept :
            (b : Bool)
            → (if b then none else find t f.pending_tx) ≡ some tx
            → find t f.pending_tx ≡ some tx
        kept true e = cc e
        kept false e = e

    matched-Knows : (hdr : WireHeader) → Knows (match_response f buffer hdr).0
    unfolding match_response
    matched-Knows hdr = elim (Bool-cases (is_response hdr)) [
      | inr r ↦ simp r knows
      | inl r ↦ elim (Option-cases (find hdr.id f.pending_tx)) [
        | inl e ↦ simp (r, e) knows
        | inr (t, e) ↦ simp (r, e) (erased-Knows hdr.id)
      ]
    ]

    pub validated-Knows : (from_addr : Address) → Knows (validate_response f buffer from_addr).0
    unfolding validate_response
    validated-Knows from_addr = elim (Bool-cases (ltb (length buffer) 12)) [
      | inl e ↦ simp e knows
      | inr e ↦
          let (hdr, p) = parse_header_in buffer (ground arith) in
          elim (Bool-cases (
            not (from_addr.sin_addr == f.upstream_addr.sin_addr)
            || not (from_addr.sin_port == f.upstream_addr.sin_port))) [
              | inl n ↦ simp (e, n) knows
              | inr n ↦ simp (e, n, p) (matched-Knows hdr)
            ]
    ]
