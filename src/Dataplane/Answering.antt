-- ===== src/Dataplane/Answering.antt =====
-- A query that waits was sent upstream, and is answered when its response comes.
use dns_security_dataplane.Base.{
  ℕ, ◌++◌, Option, arith, ◌≡◌, ◌≢◌, refl, sym, ap, ◌∙◌, inl, inr, true, List, [], ◌∷◌, none, some,
  ok, All, nat_Eq, drop, false,
}
use dns_security_dataplane.Base.Map.{find, erase}
use dns_security_dataplane.Name.{is_empty}
use dns_security_dataplane.Cache.Reads.{insert-Inserts}
use dns_security_dataplane.Wire.{is_response}
use dns_security_dataplane.Parser.{ParsedPacket, parse}
use dns_security_dataplane.Parser.Laws.{parse-IsAccepted}
use dns_security_dataplane.Response.{word_bytes}
use dns_security_dataplane.Response.Stamped.{with_id, translate_txid-with_id}
use dns_security_dataplane.Response.Header.{IsByte}
use dns_security_dataplane.Policy.{PolicySnapshot}
use dns_security_dataplane.Forwarder.Pending.{transaction_of}
use mathlib.Core.List.{append_assoc, append-nil}
use dns_security_dataplane.Forwarder.{PendingTransaction, Address, Forwarded, forward_query, prune}
use dns_security_dataplane.Forwarder.Pending.{Leaves, forward_query-Leaves}
use dns_security_dataplane.Forwarder.Exchange.{validate_response-genuine}
use dns_security_dataplane.Dataplane.{
  Dataplane, Outside, Handled, received, on_client, on_upstream, on_validated, on_resolved,
}
use dns_security_dataplane.Dataplane.Queries.{
  IsSound, IsAmple, Handles, on_client-Handles, accepted-not-empty,
}
use dns_security_dataplane.Dataplane.Loop.{Poll, ClientEvent, event_loop, on_ready, and_then, after}
use dns_security_dataplane.Dataplane.Effects.{Effect, on_client-Effect}
use dns_security_dataplane.Dataplane.Waiting.{
  IsWaiting, IsSoon, Spares, client_ready-IsWaiting, on_ready-IsWaiting,
}
use dns_security_dataplane.Dataplane.Running.{IsReady}

-- The query was sent upstream under the number `txid`, which is a new one, and waits there.
abbrev pub Sends : Dataplane → ParsedPacket → Address → Outside → Handled → ℕ → Type 0
Sends d query client_addr o h txid =
    (txid ≢ 0)
    × (find txid (prune o.forward_now d.forwarder).pending_tx ≡ none)
    × ((out : Forwarded) × (forward_query d.forwarder query client_addr o.forward_now o.draws
            o.send_ok
          ≡ some out)
        × (out.datagram ≡ some (word_bytes txid (drop 2 query.raw_packet))))
    × IsWaiting d.forwarder.upstream_addr txid (transaction_of query client_addr o.forward_now)
        h.state

module _ (d : Dataplane) (snapshot : PolicySnapshot) (current_gen : ℕ) (datagram : List ℕ)
    (client_addr : Address) (o : Outside) (s : IsSound d) (bytes : All IsByte datagram)
    (ample : IsAmple o) {query : ParsedPacket} (asked : parse (received datagram) ≡ ok query)
    {h : Handled}
    (call : on_client d snapshot current_gen datagram client_addr o ≡ some (ok h)) where
  sends :
      (out : Forwarded) (txid : ℕ)
      → IsSound h.state
      → (forward_query d.forwarder query client_addr o.forward_now o.draws o.send_ok ≡ some out)
      → h.state.forwarder ≡ out.after
      → out.result ≡ ok txid
      → Leaves d.forwarder query client_addr o.forward_now out
      → Sends d query client_addr o h txid
  sends out txid sound sent same r (_, addr, _, left) =
      let (nonzero, free, there, _, datagram) = rw r at left in
      (
        nonzero,
        free,
        (out, sent, datagram),
        (sound, rw same (record { pending = there; addr = addr })),
      )

  -- An accepted query that gets no answer at once has been sent upstream under a new number other
  -- than 0, and waits there. The state was sound, the bytes are below 256, and 2048 distinct draws
  -- other than 0 are at hand.
  pub on_client-IsWaiting : h.replies ≡ [] → (txid : ℕ) × Sends d query client_addr o h txid
  on_client-IsWaiting silent_now =
      go (on_client-Handles d snapshot current_gen datagram client_addr o bytes ample s)
        (on_client-Effect query client_addr o d snapshot current_gen datagram asked call)
        (forward_query-Leaves d.forwarder (received datagram) client_addr o.forward_now o.draws
          o.send_ok s.table s.opened asked ample.fresh ample.enough)
    where
      go :
          Handles client_addr (on_client d snapshot current_gen datagram client_addr o)
          → Effect d query client_addr o h
          → (out : Forwarded) × (forward_query d.forwarder query client_addr o.forward_now o.draws
                o.send_ok
              ≡ some out)
            × Leaves d.forwarder query client_addr o.forward_now out
          → (txid : ℕ) × Sends d query client_addr o h txid
      go handles (inl (_, ne)) leaves = absurd (ne silent_now)
      go (h', call', sound, _) (inr (out, sent, same, result)) (out', sent', left) =
          let (txid, r) = result silent_now in
          let e : h' ≡ h = cc (call, call') in
          let f : out' ≡ out = cc (sent, sent') in
          (txid, sends out txid (rw e at sound) sent same r (rw f at left))

-- A datagram from `upstream` goes to the client at `addr`, under the ID `client_txid`.
abbrev pub Relayed : Address → List ℕ → ℕ → Address → ℕ → ℕ → Dataplane → Type 0
Relayed upstream response client_txid addr current_gen now d =
    (h : Handled) × (on_upstream d current_gen now response upstream ≡ ok h)
    × (h.replies ≡ (with_id client_txid (received response), addr) ∷ [])

module _ (upstream : Address) (txid : ℕ) (query : ParsedPacket) (client_addr : Address)
    (at_time : ℕ) (d : Dataplane)
    (waiting : IsWaiting upstream txid (transaction_of query client_addr at_time) d)
    (response : List ℕ) {p : ParsedPacket} (parsed : parse (received response) ≡ ok p)
    (is_one : is_response p.header ≡ true) (number : p.header.id ≡ txid)
    (qname : p.question.qname ≡ query.question.qname)
    (qtype : p.question.qtype ≡ query.question.qtype) (current_gen now : ℕ) where
  answers :
      (d' : Dataplane)
      → IsWaiting upstream txid (transaction_of query client_addr at_time) d'
      → Relayed upstream response query.header.id client_addr current_gen now d'
  unfolding on_upstream on_validated on_resolved
  answers d' (s, awaits) =
      let i =
        insert-Inserts d'.cache query.question.qname query.question.qtype 1 (received response) 60
          current_gen now s.cache in
      let a = parse-IsAccepted (received response) parsed in
      let stamped =
        translate_txid-with_id (received response) query.header.id (omega (arith, a.long)) in
      let n : is_empty response ≡ false = accepted-not-empty response parsed in
      let genuine =
        validate_response-genuine d'.forwarder (received response) upstream
          (transaction_of query client_addr at_time) p parsed is_one
          (ap (λ t. find t d'.forwarder.pending_tx) number ∙ awaits.pending)
          (sym (ap (λ a. a.sin_addr) awaits.addr)) (sym (ap (λ a. a.sin_port) awaits.addr)) qname
          qtype in
      (
        record {
          state = record {
            cache = i.after;
            forwarder = record d'.forwarder {
              pending_tx = erase p.header.id d'.forwarder.pending_tx;
            };
          };
          replies = (with_id query.header.id (received response), client_addr) ∷ [];
        },
        rw (n, genuine, stamped, i.returns) refl,
        refl,
      )

  abbrev reply : List ℕ × Address
  reply = (with_id query.header.id (received response), client_addr)

  -- The poll that the response comes in, with another query perhaps.
  abbrev last_poll : Option ClientEvent → Poll
  last_poll client = Poll.ready client (
      some (record {
        current_gen = current_gen;
        now = now;
        datagram = response;
        from_addr = upstream;
      }))

  abbrev tx : PendingTransaction
  tx = transaction_of query client_addr at_time

  -- The loop ends with the reply.
  abbrev EndsWith : List Poll → Dataplane → Type 0
  EndsWith polls d' =
      (h : Handled) × (before : List (List ℕ × Address)) × (event_loop polls d' ≡ some (ok h))
      × (h.replies ≡ before ++ reply ∷ [])

  at_last :
      (client : Option ClientEvent) (d' : Dataplane)
      → IsReady (IsSoon upstream txid tx) client
      → IsWaiting upstream txid tx d'
      → EndsWith (last_poll client ∷ []) d'
  unfolding event_loop on_ready and_then after
  at_last client d' r w =
      let (first, called, w') = client_ready-IsWaiting upstream txid tx client d' r w in
      let (h, relayed, sent) = answers first.state w' in
      (
        record { state = h.state; replies = (first.replies ++ h.replies) ++ [] },
        first.replies,
        rw (called, on_ready, and_then, relayed, after) refl,
        append-nil (first.replies ++ h.replies) ∙ ap (λ sent_. first.replies ++ sent_) sent,
      )

  looped :
      (client : Option ClientEvent) (polls : List Poll) (d' : Dataplane)
      → IsReady (IsSoon upstream txid tx) client
      → All (Spares upstream txid tx) polls
      → IsWaiting upstream txid tx d'
      → EndsWith (polls ++ last_poll client ∷ []) d'
  unfolding event_loop and_then after
  looped client [] d' r spares w = at_last client d' r w
  looped client (Poll.interrupted ∷ polls) d' r (_, spares) w = looped client polls d' r spares w
  looped client (Poll.broken ∷ polls) d' r (never, spares) w = absurd never
  looped client (Poll.ready c u ∷ polls) d' r (here, spares) w =
      let (first, called, w') = on_ready-IsWaiting upstream txid tx c u d' here w in
      let (h, before, ran, sent) = looped client polls first.state r spares w' in
      (
        record { state = h.state; replies = first.replies ++ h.replies },
        first.replies ++ before,
        rw (called, and_then, ran, after) refl,
        ap (λ sent_. first.replies ++ sent_) sent
            ∙ sym (append_assoc first.replies before (reply ∷ [])),
      )

  -- A query that waits in a sound state is answered: the loop goes through whatever comes in before,
  -- of queries within 2001 milliseconds and of datagrams that are not a response to it, without an
  -- error of `poll`, and when a well-formed response from upstream with the number and the question
  -- of the query comes in, the loop sends it to the client, with the client's own ID in its first two
  -- bytes and the rest as it came; that is the last datagram that it sends. The bytes of the other
  -- queries are below 256, and 2048 distinct draws other than 0 are at hand for each.
  pub event_loop-Relayed :
      (polls : List Poll) (client : Option ClientEvent)
      → All (Spares upstream txid (transaction_of query client_addr at_time)) polls
      → IsReady (IsSoon upstream txid (transaction_of query client_addr at_time)) client
      → (h : Handled) × (before : List (List ℕ × Address)) × (event_loop
            (polls ++ last_poll client ∷ [])
            d
          ≡ some (ok h))
        × (h.replies ≡ before ++ (with_id query.header.id (received response), client_addr) ∷ [])
  event_loop-Relayed polls client spares r = looped client polls d r spares waiting
