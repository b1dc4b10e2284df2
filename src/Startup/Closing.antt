-- ===== src/Startup/Closing.antt =====
-- However the start goes, no socket is left open, and none is closed that is not.
use dns_security_dataplane.Base.{
  ◌≡◌, refl, Bool, true, false, List, [], ◌∷◌, some, ok, All, ◌&&◌, arith,
}
use dns_security_dataplane.Forwarder.{Address}
use dns_security_dataplane.Cache.Reads.{new_cache-IsValid}
use dns_security_dataplane.Dataplane.{Handled}
use dns_security_dataplane.Dataplane.Queries.{IsSound}
use dns_security_dataplane.Dataplane.Loop.{Poll, event_loop}
use dns_security_dataplane.Dataplane.Asked.{HasAsked, AreFeasible, event_loop-HasAsked}
use dns_security_dataplane.Startup.{
  Socket, Call, Outcomes, Exit, initial, init_forwarder, start_server, stop_server, with_forwarder,
  with_socket, run_main,
}

-- Which sockets are open.
pub record Open : Type 0 where
  pub listening : Bool
  pub upstream : Bool
  pub control : Bool

abbrev pub none_open : Open
none_open = record { listening = false; upstream = false; control = false }

abbrev pub is_open : Open → Socket → Bool
is_open o Socket.listening = o.listening
is_open o Socket.upstream = o.upstream
is_open o Socket.control = o.control

abbrev pub set_open : Bool → Open → Socket → Open
set_open b o Socket.listening = record o { listening = b }
set_open b o Socket.upstream = record o { upstream = b }
set_open b o Socket.control = record o { control = b }

-- A socket is opened while it is not open and closed while it is, and at the end none is open.
abbrev pub IsBalanced : Open → List Call → Type 0
IsBalanced o [] = o ≡ none_open
IsBalanced o (Call.opened s ∷ calls) = (is_open o s ≡ false) × IsBalanced (set_open true o s) calls
IsBalanced o (Call.closed s ∷ calls) = (is_open o s ≡ true) × IsBalanced (set_open false o s) calls
IsBalanced o (Call.bound ∷ calls) = IsBalanced o calls
IsBalanced o (Call.unlinked ∷ calls) = IsBalanced o calls

-- Every call that has to succeed does.
abbrev pub all_succeed : Outcomes → Bool
all_succeed o =
    o.listen_socket && o.listen_bind && o.upstream_socket && o.upstream_getfl && o.upstream_setfl
    && o.upstream_pton && o.ipc_socket && o.ipc_bind && o.ipc_listen

-- How `main` ends: at once because a call failed, or behind a loop that served its clients.
abbrev pub Ends : List Poll → Bool → Exit → Type 0
Ends polls succeed (Exit.failed calls) = (succeed ≡ false) × IsBalanced none_open calls
Ends polls succeed (Exit.finished calls r) =
    (succeed ≡ true)
    × IsBalanced none_open calls
    × ((h : Handled) × (r ≡ some (ok h))
        × IsSound h.state
        × All (λ reply. HasAsked polls reply.1) h.replies)

initial-IsSound : (addr : Address) → IsSound (initial addr)
initial-IsSound addr = record {
  cache = new_cache-IsValid 10_000 (omega arith);
  table = record { once = tt; bounded = omega arith };
  opened = refl;
}

module _ (addr : Address) (polls : List Poll) (feasible : AreFeasible polls) where
  served :
      (h : Handled) × (event_loop polls (initial addr) ≡ some (ok h))
      × IsSound h.state
      × All (λ reply. HasAsked polls reply.1) h.replies
  served = event_loop-HasAsked polls (initial addr) (initial-IsSound addr) refl feasible

  by_outcome :
      (a b c d e f g h i : Bool)
      → Ends polls (a && b && c && d && e && f && g && h && i) (
          run_main addr
            (record {
              listen_socket = a;
              listen_bind = b;
              upstream_socket = c;
              upstream_getfl = d;
              upstream_setfl = e;
              upstream_pton = f;
              ipc_socket = g;
              ipc_bind = h;
              ipc_listen = i;
            })
            polls)
  unfolding run_main with_socket with_forwarder init_forwarder start_server stop_server
  by_outcome false b c d e f g h i = (refl, refl)
  by_outcome true false c d e f g h i = (refl, (refl, (refl, refl)))
  by_outcome true true false d e f g h i = (refl, (refl, (refl, refl)))
  by_outcome true true true false e f g h i = (refl, (refl, (refl, (refl, (refl, refl)))))
  by_outcome true true true true false f g h i = (refl, (refl, (refl, (refl, (refl, refl)))))
  by_outcome true true true true true false g h i = (refl, (refl, (refl, (refl, (refl, refl)))))
  by_outcome true true true true true true false h i = (refl, (refl, (refl, (refl, (refl, refl)))))
  by_outcome true true true true true true true false i =
      (refl, (refl, (refl, (refl, (refl, (refl, (refl, refl)))))))
  by_outcome true true true true true true true true false =
      (refl, (refl, (refl, (refl, (refl, (refl, (refl, refl)))))))
  by_outcome true true true true true true true true true =
      (refl, (refl, (refl, (refl, (refl, (refl, (refl, refl)))))), served)

  -- Whichever system calls fail, `main` ends with each socket closed as often as it was opened,
  -- never closed while it was not open. It ends at once exactly if one of the calls fails;
  -- otherwise the loop runs, on whatever comes in, to its end without a fault, and each datagram
  -- that it sent on the listening socket went to an address that a datagram had come from there.
  -- 2048 distinct draws other than 0 are at hand for each query, and the bytes are below 256.
  pub run_main-Ends : (o : Outcomes) → Ends polls (all_succeed o) (run_main addr o polls)
  run_main-Ends o =
      by_outcome o.listen_socket o.listen_bind o.upstream_socket o.upstream_getfl o.upstream_setfl
        o.upstream_pton o.ipc_socket o.ipc_bind o.ipc_listen
