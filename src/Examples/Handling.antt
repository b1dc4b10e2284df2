-- ===== src/Examples/Handling.antt =====
-- The event loop.
use dns_security_dataplane.Base.{
  ℕ, ◌+◌, ◌*◌, ◌≡◌, ◌≢◌, refl, false, List, [], ◌∷◌, some, ok, arith, bytes_eq,
}
use dns_security_dataplane.Base.Set.{contains}
use dns_security_dataplane.Text.{codes}
use dns_security_dataplane.Policy.{Action, evaluate}
use dns_security_dataplane.Trie.{
  matches, walk, find_child, split_labels_reversed, insert_at, set_child, labels_from,
}
use dns_security_dataplane.Trie
use dns_security_dataplane.Name.{tolower}
use dns_security_dataplane.Trie.Matches.{insert_all}
use dns_security_dataplane.Response.Stamped.{with_id}
use dns_security_dataplane.Response.{translate_txid}
use dns_security_dataplane.Response.Header.{Answers, question_bytes}
use dns_security_dataplane.Cache.Lifetime.{lifetime}
use dns_security_dataplane.Cache.Under.{key_under}
use dns_security_dataplane.Cache.{Cache, insert}
use dns_security_dataplane.Cache.Inserts.{Inserts}
use dns_security_dataplane.Cache.Reads.{insert-Inserts}
use dns_security_dataplane.Dataplane.{
  Handled, on_client, on_upstream, received, on_validated, on_resolved,
}
use dns_security_dataplane.Dataplane.Queries.{
  Handles, IsSound, on_client-Handles, on_client-blocked,
}
use dns_security_dataplane.Dataplane.Responses.{Relays, on_upstream-Relays}
use dns_security_dataplane.Dataplane.Session.{on_upstream-on_client}
use dns_security_dataplane.Packets.{
  query_bytes, query, response_bytes, response, client, resolver, blocking, permissive,
  idle_dataplane, busy_dataplane, empty-IsValid, idle-IsSound, busy-IsSound, outside,
  outside-IsAmple,
}
use dns_security_dataplane.Examples.Parsing.{parse-query, parse_response, query-IsByte}
use dns_security_dataplane.Examples.Forwarding.{accepts, answered}

on_client-Handles_example :
    Handles client (on_client idle_dataplane permissive 3 query_bytes client outside)
on_client-Handles_example =
    on_client-Handles idle_dataplane permissive 3 query_bytes client outside query-IsByte
      outside-IsAmple idle-IsSound

blocks : (evaluate blocking query.question.qname).action ≡ Action.block_nxdomain
unfolding evaluate contains matches split_labels_reversed walk find_child insert_all insert_at
    set_child bytes_eq tolower labels_from Trie.insert
blocks = refl

on_client-blocked_example :
    (r : List ℕ) × (on_client idle_dataplane blocking 2 query_bytes client outside
      ≡ some (ok (record { state = idle_dataplane; replies = (r, client) ∷ [] })))
    × Answers query 3 0 (question_bytes query) r
on_client-blocked_example =
    on_client-blocked idle_dataplane blocking 2 query_bytes client outside query-IsByte
      outside-IsAmple parse-query blocks

on_upstream-Relays_example :
    (h : Handled) × (on_upstream busy_dataplane 3 20 response_bytes resolver ≡ ok h)
    × IsSound h.state
    × Relays busy_dataplane 3 20 response_bytes resolver h
on_upstream-Relays_example =
    on_upstream-Relays busy_dataplane 3 20 response_bytes resolver busy-IsSound

abbrev stored :
    Inserts
      (key_under (codes "ww.b") 1 1)
      (received response_bytes)
      (20 + lifetime 60 * 1_000_000_000)
      3
      busy_dataplane.cache
      (insert busy_dataplane.cache (codes "ww.b") 1 1 (received response_bytes) 60 3 20)
stored =
    insert-Inserts busy_dataplane.cache (codes "ww.b") 1 1 (received response_bytes) 60 3 20
      empty-IsValid

abbrev relayed : Handled
relayed = record {
  state = record { cache = stored.after; forwarder = answered };
  replies = (with_id 0x1234 (received response_bytes), client) ∷ [];
}

relays : on_upstream busy_dataplane 3 20 response_bytes resolver ≡ ok relayed
unfolding on_upstream on_validated on_resolved translate_txid
relays = rw (accepts, stored.returns) refl

answers : relayed.replies ≢ []
answers e = cc

allows : (evaluate permissive query.question.qname).action ≡ Action.allow
unfolding evaluate contains bytes_eq
allows = refl

other_name : bytes_eq query.question.qname (codes "sinkhole.test") ≡ false
unfolding bytes_eq
other_name = refl

on_upstream-on_client_example :
    (cache : Cache) × (on_client relayed.state permissive 3 query_bytes client outside
      ≡ some (
          ok (record {
            state = record relayed.state { cache = cache };
            replies = (with_id 0x1234 (received response_bytes), client) ∷ [];
          })))
on_upstream-on_client_example =
    on_upstream-on_client busy_dataplane busy-IsSound 3 20 response_bytes resolver relayed response
      parse_response relays answers permissive query_bytes query client outside parse-query refl
      refl refl allows other_name (omega arith)
