-- ===== src/Dataplane/Waiting.antt =====
-- A query that is not answered at once waits for its response, through all that comes in between.
use dns_security_dataplane.Base.{
  ℕ, ◌+◌, ◌<◌, Option, none, arith, ◌≡◌, ◌≢◌, refl, ap, inl, inr, true, List, [], ◌∷◌, some, ok,
  err, fault, Result, All, nat_Eq,
}
use dns_security_dataplane.Parser.{ParsedPacket, parse}
use dns_security_dataplane.Response.Header.{IsByte}
use dns_security_dataplane.Forwarder.{Address, PendingTransaction, is_live}
use dns_security_dataplane.Forwarder.Survival.{
  Awaits, IsForeign, forward_query-Awaits, validate_response-Awaits,
}
use dns_security_dataplane.Dataplane.{Dataplane, Handled, silent, received, on_client}
use dns_security_dataplane.Dataplane.Queries.{IsSound, IsAmple, on_client-Handles}
use dns_security_dataplane.Dataplane.Responses.{on_upstream-Relays}
use dns_security_dataplane.Dataplane.Loop.{
  ClientEvent, UpstreamEvent, Poll, client_ready, upstream_ready, on_ready,
}
use dns_security_dataplane.Dataplane.Effects.{
  Effect, on_client-Effect, on_client-refused, on_upstream-forwarder,
}
use dns_security_dataplane.Dataplane.Running.{Returns, IsReady, on_ready-Returns}

-- What comes in besides: bytes, with enough draws for each query.
pub record IsFeasible (e : ClientEvent) : Type 0 where
  pub bytes : All IsByte e.datagram
  pub ample : IsAmple e.outside

module _ (upstream : Address) (txid : ℕ) (tx : PendingTransaction) where
  abbrev pub IsWaiting : Dataplane → Type 0
  IsWaiting d = IsSound d × Awaits upstream txid tx d.forwarder

  -- Another query, less than 2001 milliseconds after this one.
  abbrev pub IsSoon : ClientEvent → Type 0
  IsSoon e = IsFeasible e × (e.outside.forward_now < tx.timestamp + 2_001_000_000)

  -- A datagram from upstream that is not the response to this query.
  abbrev pub IsOther : UpstreamEvent → Type 0
  IsOther e = IsForeign upstream txid (received e.datagram) e.from_addr

  abbrev Any : List ℕ × Address → Type 0
  Any reply = Unit

  anything_sent : (replies : List (List ℕ × Address)) → All Any replies
  anything_sent [] = tt
  anything_sent (r ∷ replies) = (tt, anything_sent replies)

  client_waits :
      (e : ClientEvent) (d : Dataplane)
      → IsSoon e
      → IsWaiting d
      → Returns IsWaiting Any (client_ready (some e) d)
  client_waits e d (feasible, soon) (s, awaits) =
      let (h, call, sound, _) =
        on_client-Handles d e.snapshot e.current_gen e.datagram e.client_addr e.outside
          feasible.bytes feasible.ample s in
      (h, call, (sound, still (parse (received e.datagram)) refl h call), anything_sent h.replies)
    where
      live : is_live e.outside.forward_now txid tx ≡ true
      live = ground (arith, soon)

      effect :
          (query : ParsedPacket) (h : Handled)
          → parse (received e.datagram) ≡ ok query
          → Effect d query e.client_addr e.outside h
          → Awaits upstream txid tx h.state.forwarder
      effect query h p (inl (same, _)) = rw same awaits
      effect query h p (inr (out, call, same, _)) = rw same (
          forward_query-Awaits upstream txid tx d.forwarder awaits (received e.datagram)
            e.client_addr e.outside.forward_now e.outside.draws e.outside.send_ok s.table s.opened p
            feasible.ample.fresh feasible.ample.enough live call)

      refused :
          (h : Handled)
          → ((query : ParsedPacket) → parse (received e.datagram) ≢ ok query)
          → on_client d e.snapshot e.current_gen e.datagram e.client_addr e.outside ≡ some (ok h)
          → Awaits upstream txid tx h.state.forwarder
      refused h n call =
          rw
            (on_client-refused d e.snapshot e.current_gen e.datagram e.client_addr e.outside n call)
            awaits

      still :
          (r : Result ParsedPacket)
          → parse (received e.datagram) ≡ r
          → (h : Handled)
          → on_client d e.snapshot e.current_gen e.datagram e.client_addr e.outside ≡ some (ok h)
          → Awaits upstream txid tx h.state.forwarder
      still (ok query) p h call = effect query h p (
          on_client-Effect query e.client_addr e.outside d e.snapshot e.current_gen e.datagram p
            call)
      still (err c) p h call = refused h (λ q k. cc (p, k)) call
      still fault p h call = refused h (λ q k. cc (p, k)) call

  upstream_waits :
      (e : UpstreamEvent) (d : Dataplane)
      → IsOther e
      → IsWaiting d
      → Returns IsWaiting Any (upstream_ready (some e) d)
  upstream_waits e d other (s, awaits) =
      let (h, call, sound, _) = on_upstream-Relays d e.current_gen e.now e.datagram e.from_addr s in
      (
        h,
        ap some call,
        (
          sound,
          rw (on_upstream-forwarder d e.current_gen e.now e.datagram e.from_addr call) (
              validate_response-Awaits upstream txid tx d.forwarder awaits (received e.datagram)
                e.from_addr other),
        ),
        anything_sent h.replies,
      )

  -- What the loop may come upon before the response; an error of `poll` would end it.
  abbrev pub Spares : Poll → Type 0
  Spares Poll.interrupted = Unit
  Spares Poll.broken = ⊥
  Spares (Poll.ready client upstream_event) = IsReady IsSoon client × IsReady IsOther upstream_event

  pub client_ready-IsWaiting :
      (client : Option ClientEvent) (d : Dataplane)
      → IsReady IsSoon client
      → IsWaiting d
      → (h : Handled) × (client_ready client d ≡ some (ok h)) × IsWaiting h.state
  client_ready-IsWaiting none d r w = (silent d, refl, w)
  client_ready-IsWaiting (some e) d r w =
      let (h, call, waits, _) = client_waits e d r w in (h, call, waits)

  pub on_ready-IsWaiting :
      (client : Option ClientEvent) (upstream_event : Option UpstreamEvent) (d : Dataplane)
      → Spares (Poll.ready client upstream_event)
      → IsWaiting d
      → (h : Handled) × (on_ready client upstream_event d ≡ some (ok h)) × IsWaiting h.state
  on_ready-IsWaiting client upstream_event d r w =
      let (h, call, waits, _) =
        on_ready-Returns IsWaiting Any IsSoon IsOther client_waits upstream_waits client
          upstream_event d r w in
      (h, call, waits)
