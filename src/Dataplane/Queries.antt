-- ===== src/Dataplane/Queries.antt =====
-- Events on the listening socket.
use dns_security_dataplane.Base.{
  ℕ, ◌≤◌, ◌≡◌, ◌≢◌, refl, ◌∙◌, inl, inr, true, false, Bool-cases, List, [], ◌∷◌, Option, none, some,
  length, All-take, arith, ok, err, fault, Result, bytes_eq, All,
}
use dns_security_dataplane.Text.{codes}
use dns_security_dataplane.Name.{is_empty}
use dns_security_dataplane.Wire.{Rcode}
use dns_security_dataplane.Parser.{ParsedPacket, parse}
use dns_security_dataplane.Parser.Laws.{parse-ne-fault, parse-IsAccepted}
use dns_security_dataplane.Response.{build_error_response, translate_txid}
use dns_security_dataplane.Response.Header.{
  Answers, IsByte, question_bytes, build_error_response_lem, build_sinkhole_response_lem,
}
use dns_security_dataplane.Policy.{Action, PolicySnapshot, evaluate}
use dns_security_dataplane.Cache.{Cache, CacheEntry}
use dns_security_dataplane.Cache.Valid.{IsValid}
use dns_security_dataplane.Cache.Methods.{LooksUp}
use dns_security_dataplane.Cache.Reads.{lookup-LooksUp}
use dns_security_dataplane.Forwarder.{Address, max_pending}
use dns_security_dataplane.Forwarder.Txid.{AllFresh}
use dns_security_dataplane.Forwarder.Pending.{IsBounded, forward_query-Leaves}
use dns_security_dataplane.Dataplane.{
  Dataplane, Outside, Handled, silent, reply_with, after_forward, after_lookup, on_allowed,
  on_action, on_miss, on_query, received, on_client,
}

-- What the loop keeps: a valid cache, an open socket upstream, and a bounded table.
pub record IsSound (d : Dataplane) : Type 0 where
  pub cache : IsValid d.cache
  pub table : IsBounded d.forwarder
  pub opened : d.forwarder.is_open ≡ true

-- Enough draws for `generate_unique_txid`.
pub record IsAmple (o : Outside) : Type 0 where
  pub fresh : AllFresh o.draws
  pub enough : max_pending ≤ length o.draws

-- At most one datagram, and that to `addr`.
abbrev pub OnlyTo : Address → List (List ℕ × Address) → Type 0
OnlyTo addr [] = Unit
OnlyTo addr ((resp, to) ∷ []) = to ≡ addr
OnlyTo addr (a ∷ b ∷ rest) = ⊥

-- A handler that returns, with a sound state and with replies to `addr` alone.
abbrev pub Handles : Address → Option (Result Handled) → Type 0
Handles addr r = (h : Handled) × (r ≡ some (ok h)) × IsSound h.state × OnlyTo addr h.replies

pub accepted-not-empty :
    (datagram : List ℕ) {query : ParsedPacket}
    → parse (received datagram) ≡ ok query
    → is_empty datagram ≡ false
accepted-not-empty [] p = absurd (omega (arith, (parse-IsAccepted [] p).long))
accepted-not-empty (b ∷ bs) p = refl

module _ (d : Dataplane) (buffer : List ℕ) {query : ParsedPacket} (client_addr : Address)
    (o : Outside) (bytes : All IsByte buffer) (parsed : parse buffer ≡ ok query)
    (ample : IsAmple o) where
  error_reply :
      (d' : Dataplane) (code : Rcode)
      → IsSound d'
      → Handles client_addr (some (reply_with d' client_addr (build_error_response query code)))
  error_reply d' code s =
      let (r, e, _) = build_error_response_lem buffer bytes parsed code in
      (record { state = d'; replies = (r, client_addr) ∷ [] }, rw e, s, refl)

  after_forward-Handles :
      (d' : Dataplane) (r : Result ℕ)
      → r ≢ fault
      → IsSound d'
      → Handles client_addr (some (after_forward d' query client_addr r))
  unfolding after_forward
  after_forward-Handles d' (ok txid) n s = (silent d', refl, s, tt)
  after_forward-Handles d' (err c) n s = error_reply d' Rcode.servfail s
  after_forward-Handles d' fault n s = absurd (n refl)

  -- Behind a lookup that found nothing.
  miss-Handles :
      (cache : Cache)
      → IsValid cache
      → IsSound d
      → Handles client_addr (after_lookup d query client_addr o (ok (cache, none)))
  unfolding after_lookup on_miss
  miss-Handles cache v s =
      let (out, e, (table, addr, opened, left)) =
        forward_query-Leaves d.forwarder buffer client_addr o.forward_now o.draws o.send_ok s.table
          s.opened parsed ample.fresh ample.enough in
      rw (e, after_lookup, on_miss)
        (after_forward-Handles (record { cache = cache; forwarder = out.after }) out.result
          (λ f. rw f at left) (record { cache = v; table = table; opened = opened ∙ s.opened }))

  after_lookup-Handles :
      (key : List ℕ) (found : Option CacheEntry) {r : Result (Cache × Option CacheEntry)}
      → IsSound d
      → LooksUp d.cache key found r
      → Handles client_addr (after_lookup d query client_addr o r)
  unfolding after_lookup
  after_lookup-Handles key none s l = rw l.returns (miss-Handles l.after l.valid s)
  after_lookup-Handles key (some e) s l = rw l.returns (
    record {
      state = record d { cache = l.after };
      replies = ((translate_txid e.response query.header.id).1, client_addr) ∷ [];
    },
    refl,
    record { cache = l.valid; table = s.table; opened = s.opened },
    refl,
  )

  on_allowed-Handles :
      (current_gen : ℕ)
      → IsSound d
      → Handles client_addr (on_allowed d current_gen query client_addr o)
  unfolding on_allowed
  on_allowed-Handles current_gen s =
      elim (Bool-cases (bytes_eq query.question.qname (codes "sinkhole.test"))) [
        | inl e ↦
            let (r, built, _) =
              build_sinkhole_response_lem buffer bytes parsed (127 ∷ 0 ∷ 0 ∷ 1 ∷ []) 60 in
            (record { state = d; replies = (r, client_addr) ∷ [] }, rw (e, built), s, refl)
        | inr e ↦ rw e (
            after_lookup-Handles _ _ s (
              lookup-LooksUp d.cache query.question.qname query.question.qtype query.question.qclass
                current_gen o.lookup_now s.cache))
      ]

  on_action-Handles :
      (current_gen : ℕ) (a : Action)
      → IsSound d
      → Handles client_addr (on_action d current_gen query client_addr o a)
  unfolding on_action
  on_action-Handles current_gen Action.block_nxdomain s = error_reply d Rcode.nxdomain s
  on_action-Handles current_gen Action.block_refused s = error_reply d Rcode.refused s
  on_action-Handles current_gen Action.allow s = on_allowed-Handles current_gen s
  on_action-Handles current_gen Action.block_sinkhole s = on_allowed-Handles current_gen s

  nxdomain_reply :
      (current_gen : ℕ)
      → (r : List ℕ) × (on_action d current_gen query client_addr o Action.block_nxdomain
          ≡ some (ok (record { state = d; replies = (r, client_addr) ∷ [] })))
        × Answers query 3 0 (question_bytes query) r
  unfolding on_action
  nxdomain_reply current_gen =
      let (r, built, a) = build_error_response_lem buffer bytes parsed Rcode.nxdomain in
      (r, rw built, a)

module _ (d : Dataplane) (snapshot : PolicySnapshot) (current_gen : ℕ) (datagram : List ℕ)
    (client_addr : Address) (o : Outside) (bytes : All IsByte datagram) (ample : IsAmple o) where
  -- Whatever bytes come in, under whatever policy: the handler returns, without a read or write
  -- outside a buffer and without a dangling iterator; the cache stays valid, the socket open and
  -- the table of transactions within 2048; and it sends one datagram at most on the listening
  -- socket, and that to the client. The cache was valid, the socket open and the table bounded
  -- before, the bytes are below 256, and 2048 distinct draws other than 0 are at hand.
  pub on_client-Handles :
      IsSound d → Handles client_addr (on_client d snapshot current_gen datagram client_addr o)
  unfolding on_client on_query
  on_client-Handles s = elim (Bool-cases (is_empty datagram)) [
    | inl e ↦ rw e (silent d, refl, s, tt)
    | inr e ↦ rw e (parsed_or_not (parse (received datagram)) refl)
  ]
    where
      parsed_or_not :
          (r : Result ParsedPacket)
          → parse (received datagram) ≡ r
          → Handles client_addr (on_query d snapshot current_gen client_addr o r)
      parsed_or_not (ok query) p =
          on_action-Handles d (received datagram) client_addr o
            (All-take IsByte 4096 datagram bytes) p ample current_gen
            (evaluate snapshot query.question.qname).action s
      parsed_or_not (err c) p = (silent d, refl, s, tt)
      parsed_or_not fault p = absurd (parse-ne-fault (received datagram) p)

  -- A query that is accepted, for a name that the snapshot blocks, gets NXDOMAIN, with the client's
  -- ID and the question of the query and no record, and that is all: cache and forwarder are left
  -- as they were. The bytes are below 256, and 2048 distinct draws other than 0 are at hand.
  pub on_client-blocked :
      {query : ParsedPacket}
      → parse (received datagram) ≡ ok query
      → (evaluate snapshot query.question.qname).action ≡ Action.block_nxdomain
      → (r : List ℕ) × (on_client d snapshot current_gen datagram client_addr o
          ≡ some (ok (record { state = d; replies = (r, client_addr) ∷ [] })))
        × Answers query 3 0 (question_bytes query) r
  unfolding on_client on_query
  on_client-blocked {query} p e =
      let n : is_empty datagram ≡ false = accepted-not-empty datagram p in
      rw (n, p, on_query, e)
        (nxdomain_reply d (received datagram) client_addr o (All-take IsByte 4096 datagram bytes) p
          ample current_gen)
