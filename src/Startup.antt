-- ===== src/Startup.antt =====
-- dataplane/src/main.cpp from the first socket to the last, with `UpstreamForwarder::init` and its
-- destructor, and `IpcServer::start` and `stop`. What the system calls return is an argument, and
-- the calls that open, bind, close or unlink are recorded. The results of `setsockopt`, `shutdown` and
-- `unlink` are not looked at.
pub mod Closing
pub mod Arguments
pub mod Reading
use dns_security_dataplane.Base.{
  ℕ, if◌then◌else◌, not, ◌||◌, Bool, true, false, List, [], ◌∷◌, ◌++◌, Option, Result,
}
use dns_security_dataplane.Cache.{new_cache}
use dns_security_dataplane.Forwarder.{Address}
use dns_security_dataplane.Dataplane.{Dataplane, Handled}
use dns_security_dataplane.Dataplane.Loop.{Poll, event_loop}

pub data Socket : Type 0 where
  listening : Socket
  upstream : Socket
  control : Socket

-- `bound` creates the path of the control socket, and `unlinked` removes it.
pub data Call : Type 0 where
  opened : Socket → Call
  closed : Socket → Call
  bound : Call
  unlinked : Call

-- Which calls succeed.
pub record Outcomes : Type 0 where
  pub listen_socket : Bool
  pub listen_bind : Bool
  pub upstream_socket : Bool
  pub upstream_getfl : Bool
  pub upstream_setfl : Bool
  pub upstream_pton : Bool
  pub ipc_socket : Bool
  pub ipc_bind : Bool
  pub ipc_listen : Bool

-- What `init` returns, whether the object has a socket, and the calls.
pub record Initialised : Type 0 where
  pub success : Bool
  pub is_open : Bool
  pub calls : List Call

abbrev pub given_up : Initialised
given_up = record {
  success = false;
  is_open = false;
  calls = Call.opened Socket.upstream ∷ Call.closed Socket.upstream ∷ [];
}

unfoldable pub init_forwarder : Outcomes → Initialised
init_forwarder o =
    if not o.upstream_socket
    then record { success = false; is_open = false; calls = [] }
    else if not o.upstream_getfl || not o.upstream_setfl
    then given_up
    else if not o.upstream_pton
    then given_up
    else record { success = true; is_open = true; calls = Call.opened Socket.upstream ∷ [] }

-- `~UpstreamForwarder`.
abbrev pub destroy_forwarder : Bool → List Call
destroy_forwarder is_open = if is_open then Call.closed Socket.upstream ∷ [] else []

-- `server_fd_` and `running_`.
pub record IpcServer : Type 0 where
  pub is_open : Bool
  pub running : Bool

pub record IpcStarted : Type 0 where
  pub success : Bool
  pub server : IpcServer
  pub calls : List Call

abbrev pub idle_server : IpcServer
idle_server = record { is_open = false; running = false }

-- `start`; the worker thread comes last.
unfoldable pub start_server : Outcomes → IpcStarted
start_server o =
    if not o.ipc_socket
    then record { success = false; server = idle_server; calls = Call.unlinked ∷ [] }
    else if not o.ipc_bind
    then record {
      success = false;
      server = idle_server;
      calls = Call.unlinked ∷ Call.opened Socket.control ∷ Call.closed Socket.control ∷ [];
    }
    else if not o.ipc_listen
    then record {
      success = false;
      server = idle_server;
      calls =
          Call.unlinked ∷ Call.opened Socket.control ∷ Call.bound ∷ Call.closed Socket.control ∷ [];
    }
    else record {
      success = true;
      server = record { is_open = true; running = true };
      calls = Call.unlinked ∷ Call.opened Socket.control ∷ Call.bound ∷ [];
    }

-- `stop`, which is the destructor too.
unfoldable pub stop_server : IpcServer → IpcServer × List Call
stop_server s =
    if s.running
    then (
      idle_server,
      (if s.is_open then Call.closed Socket.control ∷ [] else []) ++ Call.unlinked ∷ [],
    )
    else (s, [])

-- The end of `main`: an exit code of 1, or 0 behind the loop.
pub data Exit : Type 0 where
  failed : List Call → Exit
  finished : List Call → Option (Result Handled) → Exit

-- The state that the loop starts from.
abbrev pub initial : Address → Dataplane
initial upstream_addr = record {
  cache = new_cache 10_000;
  forwarder = record { is_open = true; upstream_addr = upstream_addr; pending_tx = [] };
}

-- From `ipc_server.start()` on. The destructors run in the order `ipc_server`, `forwarder`.
unfoldable pub with_forwarder : Address → Outcomes → List Poll → List Call → Bool → Exit
with_forwarder upstream_addr o polls before is_open =
    let started = start_server o in
    if not started.success
    then Exit.failed (
        before
        ++ started.calls
        ++ Call.closed Socket.listening ∷ []
        ++ (stop_server started.server).1
        ++ destroy_forwarder is_open)
    else Exit.finished
        (before
          ++ started.calls
          ++ (stop_server started.server).1
          ++ Call.closed Socket.listening ∷ []
          ++ (stop_server (stop_server started.server).0).1
          ++ destroy_forwarder is_open)
        (event_loop polls (initial upstream_addr))

-- From `forwarder.init()` on.
unfoldable pub with_socket : Address → Outcomes → List Poll → Exit
with_socket upstream_addr o polls =
    let i = init_forwarder o in
    if not i.success
    then Exit.failed (
        Call.opened Socket.listening ∷ i.calls
        ++ Call.closed Socket.listening ∷ []
        ++ destroy_forwarder i.is_open)
    else with_forwarder upstream_addr o polls (Call.opened Socket.listening ∷ i.calls) i.is_open

unfoldable pub run_main : Address → Outcomes → List Poll → Exit
run_main upstream_addr o polls =
    if not o.listen_socket
    then Exit.failed []
    else if not o.listen_bind
    then Exit.failed (Call.opened Socket.listening ∷ Call.closed Socket.listening ∷ [])
    else with_socket upstream_addr o polls
