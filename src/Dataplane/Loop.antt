-- ===== src/Dataplane/Loop.antt =====
-- The event loop of dataplane/src/main.cpp, one `poll` after the other. The list of polls ends where
-- the loop finds that `g_running` is 0.
use dns_security_dataplane.Base.{ℕ, List, [], ◌∷◌, ◌++◌, Option, none, some, Result, ok, err, fault}
use dns_security_dataplane.Policy.{PolicySnapshot}
use dns_security_dataplane.Forwarder.{Address}
use dns_security_dataplane.Dataplane.{Dataplane, Outside, Handled, silent, on_client, on_upstream}

-- A datagram on the listening socket, and what the handler reads besides.
pub record ClientEvent : Type 0 where
  pub snapshot : PolicySnapshot
  pub current_gen : ℕ
  pub datagram : List ℕ
  pub client_addr : Address
  pub outside : Outside

-- A datagram on the forwarder's socket.
pub record UpstreamEvent : Type 0 where
  pub current_gen : ℕ
  pub now : ℕ
  pub datagram : List ℕ
  pub from_addr : Address

-- What `poll` returns: EINTR, another error, or which sockets are readable.
pub data Poll : Type 0 where
  interrupted : Poll
  broken : Poll
  ready : Option ClientEvent → Option UpstreamEvent → Poll

abbrev pub client_ready : Option ClientEvent → Dataplane → Option (Result Handled)
client_ready none d = some (ok (silent d))
client_ready (some e) d = on_client d e.snapshot e.current_gen e.datagram e.client_addr e.outside

abbrev pub upstream_ready : Option UpstreamEvent → Dataplane → Option (Result Handled)
upstream_ready none d = some (ok (silent d))
upstream_ready (some e) d = some (on_upstream d e.current_gen e.now e.datagram e.from_addr)

-- What comes next, on the state that is left; the datagrams are sent in turn.
unfoldable pub after : Handled → Option (Result Handled) → Option (Result Handled)
after h none = none
after h (some (ok h')) = some (ok (record { state = h'.state; replies = h.replies ++ h'.replies }))
after h (some (err c)) = some (err c)
after h (some fault) = some fault

unfoldable pub and_then :
    Option (Result Handled) → (Dataplane → Option (Result Handled)) → Option (Result Handled)
and_then none next = none
and_then (some (ok h)) next = after h (next h.state)
and_then (some (err c)) next = some (err c)
and_then (some fault) next = some fault

-- One round of the loop, behind `poll`: the listening socket comes first.
unfoldable pub on_ready :
    Option ClientEvent → Option UpstreamEvent → Dataplane → Option (Result Handled)
on_ready client upstream d = and_then (client_ready client d) (upstream_ready upstream)

unfoldable pub event_loop : List Poll → Dataplane → Option (Result Handled)
event_loop [] d = some (ok (silent d))
event_loop (Poll.interrupted ∷ polls) d = event_loop polls d
event_loop (Poll.broken ∷ polls) d = some (ok (silent d))
event_loop (Poll.ready client upstream ∷ polls) d =
    and_then (on_ready client upstream d) (event_loop polls)
