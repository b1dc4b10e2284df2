-- ===== src/Dataplane/Asked.antt =====
-- Whole runs of the event loop: they return, and answer only those who asked.
use dns_security_dataplane.Base.{
  ℕ, ◌≡◌, ◌≢◌, refl, sym, ap, ◌∙◌, inl, inr, ◌⊎◌, List, [], ◌∷◌, none, some, ok, err, fault, Result,
  All, nat_Eq,
}
use dns_security_dataplane.Base.Map.{find}
use dns_security_dataplane.Parser.{ParsedPacket, parse}
use dns_security_dataplane.Forwarder.{Address, PendingTransaction, prune}
use dns_security_dataplane.Forwarder.Pending.{forward_query-Leaves}
use dns_security_dataplane.Dataplane.{Dataplane, Handled, received, on_client}
use dns_security_dataplane.Dataplane.Queries.{IsSound, OnlyTo, on_client-Handles}
use dns_security_dataplane.Dataplane.Responses.{Relays, on_upstream-Relays}
use dns_security_dataplane.Dataplane.Loop.{
  ClientEvent, UpstreamEvent, Poll, client_ready, upstream_ready, event_loop,
}
use dns_security_dataplane.Dataplane.Effects.{
  Effect, on_client-Effect, on_client-refused, on_upstream-forwarder,
}
use dns_security_dataplane.Dataplane.Running.{Returns, FitsPoll, event_loop-Returns}
use dns_security_dataplane.Dataplane.Waiting.{IsFeasible}
use dns_security_dataplane.Forwarder.Clients.{Knows, pruned-Knows, forwarded-Knows, validated-Knows}

module _ (P : Address → Type 0) where
  -- A client that counts, and bytes and draws as in Dataplane/Waiting.
  abbrev pub IsAsker : ClientEvent → Type 0
  IsAsker e = IsFeasible e × P e.client_addr

  abbrev pub Whatever : UpstreamEvent → Type 0
  Whatever e = Unit

  abbrev pub IsKnown : Dataplane → Type 0
  IsKnown d = IsSound d × Knows P d.forwarder

  abbrev pub ToAsker : List ℕ × Address → Type 0
  ToAsker reply = P reply.1

  only_to :
      (addr : Address) (replies : List (List ℕ × Address))
      → P addr
      → OnlyTo addr replies
      → All ToAsker replies
  only_to addr [] asked o = tt
  only_to addr ((resp, to) ∷ []) asked o = (rw o asked, tt)
  only_to addr (a ∷ b ∷ rest) asked o = absurd o

  client-IsKnown :
      (e : ClientEvent) (d : Dataplane)
      → IsAsker e
      → IsKnown d
      → Returns IsKnown ToAsker (client_ready (some e) d)
  client-IsKnown e d (feasible, asked) (s, knows) =
      let (h, call, sound, only) =
        on_client-Handles d e.snapshot e.current_gen e.datagram e.client_addr e.outside
          feasible.bytes feasible.ample s in
      (
        h,
        call,
        (sound, still (parse (received e.datagram)) refl h call),
        only_to e.client_addr h.replies asked only,
      )
    where
      effect :
          (query : ParsedPacket) (h : Handled)
          → parse (received e.datagram) ≡ ok query
          → Effect d query e.client_addr e.outside h
          → Knows P h.state.forwarder
      effect query h p (inl (same, _)) = rw same knows
      effect query h p (inr (out, call, same, _)) =
          let (out', call', (_, _, _, left)) =
            forward_query-Leaves d.forwarder (received e.datagram) e.client_addr
              e.outside.forward_now e.outside.draws e.outside.send_ok s.table s.opened p
              feasible.ample.fresh feasible.ample.enough in
          let f : out' ≡ out = cc (call, call') in
          rw (same, ← f)
            (forwarded-Knows P (prune e.outside.forward_now d.forwarder) query e.client_addr
              e.outside.forward_now out' out'.result asked
              (pruned-Knows P e.outside.forward_now d.forwarder s.table knows) left)

      refused :
          (h : Handled)
          → ((query : ParsedPacket) → parse (received e.datagram) ≢ ok query)
          → on_client d e.snapshot e.current_gen e.datagram e.client_addr e.outside ≡ some (ok h)
          → Knows P h.state.forwarder
      refused h n call =
          rw
            (on_client-refused d e.snapshot e.current_gen e.datagram e.client_addr e.outside n call)
            knows

      still :
          (r : Result ParsedPacket)
          → parse (received e.datagram) ≡ r
          → (h : Handled)
          → on_client d e.snapshot e.current_gen e.datagram e.client_addr e.outside ≡ some (ok h)
          → Knows P h.state.forwarder
      still (ok query) p h call = effect query h p (
          on_client-Effect query e.client_addr e.outside d e.snapshot e.current_gen e.datagram p
            call)
      still (err c) p h call = refused h (λ q k. cc (p, k)) call
      still fault p h call = refused h (λ q k. cc (p, k)) call

  upstream-IsKnown :
      (e : UpstreamEvent) (d : Dataplane)
      → Whatever e
      → IsKnown d
      → Returns IsKnown ToAsker (upstream_ready (some e) d)
  upstream-IsKnown e d _ (s, knows) =
      let (h, call, sound, relays) =
        on_upstream-Relays d e.current_gen e.now e.datagram e.from_addr s in
      (
        h,
        ap some call,
        (
          sound,
          rw (on_upstream-forwarder d e.current_gen e.now e.datagram e.from_addr call)
              (validated-Knows P d.forwarder (received e.datagram) knows e.from_addr),
        ),
        to_asker h relays,
      )
    where
      to_asker :
          (h : Handled)
          → Relays d e.current_gen e.now e.datagram e.from_addr h
          → All ToAsker h.replies
      to_asker h (inl (nothing, _)) = rw nothing tt
      to_asker h (inr (tx, g, sent, _)) = rw sent (knows g.packet.header.id tx g.pending, tt)

-- The addresses that datagrams on the listening socket came from.
abbrev pub HasAsked : List Poll → Address → Type 0
HasAsked [] a = ⊥
HasAsked (Poll.interrupted ∷ polls) a = HasAsked polls a
HasAsked (Poll.broken ∷ polls) a = HasAsked polls a
HasAsked (Poll.ready none upstream ∷ polls) a = HasAsked polls a
HasAsked (Poll.ready (some e) upstream ∷ polls) a = (a ≡ e.client_addr) ⊎ HasAsked polls a

abbrev pub AreFeasible : List Poll → Type 0
AreFeasible polls = All (FitsPoll IsFeasible (λ e. Unit)) polls

fits :
    (P : Address → Type 0) (polls : List Poll)
    → AreFeasible polls
    → ((a : Address) → HasAsked polls a → P a)
    → All (FitsPoll (IsAsker P) (Whatever P)) polls
fits P [] f sub = tt
fits P (Poll.interrupted ∷ polls) f sub = (tt, fits P polls f.1 sub)
fits P (Poll.broken ∷ polls) f sub = (tt, fits P polls f.1 sub)
fits P (Poll.ready none upstream ∷ polls) f sub = ((tt, f.0.1), fits P polls f.1 sub)
fits P (Poll.ready (some e) upstream ∷ polls) f sub =
    (((f.0.0, sub e.client_addr (inl refl)), f.0.1), fits P polls f.1 (λ a h. sub a (inr h)))

module _ (polls : List Poll) (d : Dataplane) where
  -- The loop starts with a valid cache, an open socket and no pending transaction, and then takes
  -- in whatever bytes, below 256, under whatever policies, in whatever order; 2048 distinct draws
  -- other than 0 are at hand for each query. It comes to its end without a fault or an error, with a
  -- state that is sound again, and each datagram that it sent on the listening socket went to an
  -- address that a datagram had come from on that socket.
  pub event_loop-HasAsked :
      IsSound d
      → d.forwarder.pending_tx ≡ []
      → AreFeasible polls
      → (h : Handled) × (event_loop polls d ≡ some (ok h))
        × IsSound h.state
        × All (λ reply. HasAsked polls reply.1) h.replies
  unfolding find
  event_loop-HasAsked sound idle feasible =
      let (h, e, (s, _), sent) =
        event_loop-Returns (IsKnown (HasAsked polls)) (ToAsker (HasAsked polls))
          (IsAsker (HasAsked polls)) (Whatever (HasAsked polls)) (client-IsKnown (HasAsked polls))
          (upstream-IsKnown (HasAsked polls)) polls d
          (fits (HasAsked polls) polls feasible (λ a h. h))
          (sound, λ t tx h. none-ne-some (sym (ap (find t) idle) ∙ h)) in
      (h, e, s, sent)
    where
      none-ne-some : {A : Type 0} {tx : PendingTransaction} → none ≡ some tx → A
      none-ne-some q = cc q
