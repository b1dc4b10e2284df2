-- ===== src/Dataplane/Running.antt =====
-- Runs of the event loop: what every event keeps, the loop keeps.
use dns_security_dataplane.Base.{
  ℕ, ◌≡◌, refl, List, [], ◌∷◌, ◌++◌, Option, none, some, ok, Result, All, All-append,
}
use dns_security_dataplane.Forwarder.{Address}
use dns_security_dataplane.Dataplane.{Dataplane, Handled, silent}
use dns_security_dataplane.Dataplane.Loop.{
  ClientEvent, UpstreamEvent, Poll, client_ready, upstream_ready, after, and_then, on_ready,
  event_loop,
}

abbrev pub IsReady : {A : Type 0} → (A → Type 0) → Option A → Type 0
IsReady P none = Unit
IsReady P (some a) = P a

abbrev pub FitsPoll : (ClientEvent → Type 0) → (UpstreamEvent → Type 0) → Poll → Type 0
FitsPoll FitsClient FitsUpstream Poll.interrupted = Unit
FitsPoll FitsClient FitsUpstream Poll.broken = Unit
FitsPoll FitsClient FitsUpstream (Poll.ready client upstream) =
    IsReady FitsClient client × IsReady FitsUpstream upstream

-- `Inv` of the state, and `Sent` of every datagram that goes out.
abbrev pub Returns :
    (Dataplane → Type 0) → (List ℕ × Address → Type 0) → Option (Result Handled) → Type 0
Returns Inv Sent r = (h : Handled) × (r ≡ some (ok h)) × Inv h.state × All Sent h.replies

module _ (Inv : Dataplane → Type 0) (Sent : List ℕ × Address → Type 0)
    (FitsClient : ClientEvent → Type 0) (FitsUpstream : UpstreamEvent → Type 0)
    (client_returns : (e : ClientEvent) (d : Dataplane)
      → FitsClient e
      → Inv d
      → Returns Inv Sent (client_ready (some e) d))
    (upstream_returns : (e : UpstreamEvent) (d : Dataplane)
      → FitsUpstream e
      → Inv d
      → Returns Inv Sent (upstream_ready (some e) d)) where
  and_then-Returns :
      (r : Option (Result Handled)) (next : Dataplane → Option (Result Handled))
      → Returns Inv Sent r
      → ((d : Dataplane) → Inv d → Returns Inv Sent (next d))
      → Returns Inv Sent (and_then r next)
  unfolding and_then after
  and_then-Returns r next (h, e, inv, sent) further =
      let (h', e', inv', sent') = further h.state inv in
      (
        record { state = h'.state; replies = h.replies ++ h'.replies },
        rw (e, and_then, e', after) refl,
        inv',
        All-append Sent h.replies h'.replies sent sent',
      )

  pub on_ready-Returns :
      (client : Option ClientEvent) (upstream : Option UpstreamEvent) (d : Dataplane)
      → FitsPoll FitsClient FitsUpstream (Poll.ready client upstream)
      → Inv d
      → Returns Inv Sent (on_ready client upstream d)
  unfolding on_ready
  on_ready-Returns client upstream d (c, u) inv =
      and_then-Returns (client_ready client d) (upstream_ready upstream) (first client c)
        (λ d' i. second upstream u d' i)
    where
      first :
          (client : Option ClientEvent)
          → IsReady FitsClient client
          → Returns Inv Sent (client_ready client d)
      first none c = (silent d, refl, inv, tt)
      first (some e) c = client_returns e d c inv

      second :
          (upstream : Option UpstreamEvent)
          → IsReady FitsUpstream upstream
          → (d' : Dataplane) → Inv d'
          → Returns Inv Sent (upstream_ready upstream d')
      second none u d' i = (silent d', refl, i, tt)
      second (some e) u d' i = upstream_returns e d' u i

  pub event_loop-Returns :
      (polls : List Poll) (d : Dataplane)
      → All (FitsPoll FitsClient FitsUpstream) polls
      → Inv d
      → Returns Inv Sent (event_loop polls d)
  unfolding event_loop
  event_loop-Returns [] d f inv = (silent d, refl, inv, tt)
  event_loop-Returns (Poll.interrupted ∷ polls) d f inv = event_loop-Returns polls d f.1 inv
  event_loop-Returns (Poll.broken ∷ polls) d f inv = (silent d, refl, inv, tt)
  event_loop-Returns (Poll.ready client upstream ∷ polls) d f inv =
      and_then-Returns (on_ready client upstream d) (event_loop polls)
        (on_ready-Returns client upstream d f.0 inv) (λ d' i. event_loop-Returns polls d' f.1 i)
