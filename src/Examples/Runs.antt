-- ===== src/Examples/Runs.antt =====
-- Runs of the event loop.
use dns_security_dataplane.Base.{
  ℕ, ◌≡◌, ◌≢◌, refl, List, [], ◌∷◌, ◌++◌, some, none, ok, All, arith, nat_Eq, bytes_eq, bytes_Eq,
}
use dns_security_dataplane.Base.Map.{find}
use dns_security_dataplane.Base.Set.{contains}
use dns_security_dataplane.Wire.{WireHeader, parse_header}
use dns_security_dataplane.Response.Stamped.{with_id}
use dns_security_dataplane.Forwarder.{Address}
use dns_security_dataplane.Policy.{Action, evaluate}
use dns_security_dataplane.Cache.{lookup, lookup_key}
use dns_security_dataplane.Dataplane.{
  Outside, Handled, received, on_client, on_query, on_action, on_allowed, after_lookup, on_miss,
  after_forward,
}
use dns_security_dataplane.Dataplane.Queries.{IsSound, IsAmple}
use dns_security_dataplane.Dataplane.Loop.{ClientEvent, UpstreamEvent, Poll, event_loop}
use dns_security_dataplane.Dataplane.Waiting.{IsFeasible}
use dns_security_dataplane.Dataplane.Answering.{Sends, on_client-IsWaiting, event_loop-Relayed}
use dns_security_dataplane.Dataplane.Asked.{HasAsked, event_loop-HasAsked}
use dns_security_dataplane.Packets.{
  query_bytes, query, response_bytes, client, resolver, blocking, permissive, busy_dataplane,
  idle_dataplane, empty_cache, idle-IsSound, busy-IsSound, outside, outside-IsAmple, counted,
  counted-AllFresh, length-counted,
}
use dns_security_dataplane.Examples.Parsing.{parse-query, parse_response, query-IsByte}
use dns_security_dataplane.Examples.Forwarding.{sent_out, sends, there}

-- A query, and a copy of its own bytes that someone sends from the client's address to the
-- forwarder's socket.
abbrev pub asking : ClientEvent
asking = record {
  snapshot = blocking;
  current_gen = 2;
  datagram = query_bytes;
  client_addr = client;
  outside = outside;
}

abbrev pub spoofed : UpstreamEvent
spoofed = record { current_gen = 2; now = 20; datagram = query_bytes; from_addr = client }

abbrev pub rounds : List Poll
rounds =
    Poll.ready (some asking) (some spoofed) ∷ Poll.interrupted ∷ Poll.ready none (some spoofed) ∷ []

pub feasible : IsFeasible asking
feasible = record { bytes = query-IsByte; ample = outside-IsAmple }

event_loop-HasAsked_example :
    (h : Handled) × (event_loop rounds idle_dataplane ≡ some (ok h))
    × IsSound h.state
    × All (λ reply. HasAsked rounds reply.1) h.replies
event_loop-HasAsked_example =
    event_loop-HasAsked rounds idle_dataplane idle-IsSound refl
      ((feasible, tt), (tt, ((tt, tt), tt)))

foreign :
    (hdr : WireHeader)
    → parse_header query_bytes ≡ ok hdr
    → client.sin_addr ≡ resolver.sin_addr
    → client.sin_port ≡ resolver.sin_port
    → hdr.id ≢ 0x1207
foreign hdr p a b = omega (arith, a)

-- The resolver's datagram, in a poll that another query comes in too.
abbrev resolving : Poll
resolving =
    Poll.ready (some asking)
      (some (record { current_gen = 2; now = 30; datagram = response_bytes; from_addr = resolver }))

event_loop-Relayed_example :
    (h : Handled) × (before : List (List ℕ × Address)) × (event_loop
        (rounds ++ resolving ∷ [])
        busy_dataplane
      ≡ some (ok h))
    × (h.replies ≡ before ++ (with_id 0x1234 (received response_bytes), client) ∷ [])
event_loop-Relayed_example =
    event_loop-Relayed resolver 0x1207 query client 5 busy_dataplane
      (busy-IsSound, record { pending = there; addr = refl }) response_bytes parse_response refl
      refl refl refl 2 30 rounds (some asking)
      (((feasible, omega arith), foreign), (tt, ((tt, foreign), tt))) (feasible, omega arith)

-- Enough draws to reach the number 0x1207 first.
abbrev ample : Outside
ample = record outside { draws = counted 0x1207 }

ample-IsAmple : IsAmple ample
ample-IsAmple = record {
  fresh = counted-AllFresh 0x1207;
  enough = omega (arith, length-counted 0x1207);
}

abbrev sent : Handled
sent = record { state = record { cache = empty_cache; forwarder = sent_out.after }; replies = [] }

allows : (evaluate permissive query.question.qname).action ≡ Action.allow
unfolding evaluate contains bytes_eq
allows = refl

sent_on : on_client idle_dataplane permissive 3 query_bytes client ample ≡ some (ok sent)
unfolding on_client on_query on_action on_allowed after_lookup on_miss after_forward lookup
    lookup_key find bytes_eq
sent_on = rw (parse-query, allows, sends) refl

on_client-IsWaiting_example : (txid : ℕ) × Sends idle_dataplane query client ample sent txid
on_client-IsWaiting_example =
    on_client-IsWaiting idle_dataplane permissive 3 query_bytes client ample idle-IsSound
      query-IsByte ample-IsAmple parse-query sent_on refl
