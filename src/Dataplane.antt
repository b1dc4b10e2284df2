-- ===== src/Dataplane.antt =====
-- dataplane/src/main.cpp: the seed policy and the event loop, one datagram at a time.
--
-- The loop's state is the cache and the forwarder. The policy is written by another thread, so the
-- snapshot and the generation that a handler loads are two arguments, which need not belong together.
-- So are the readings of the clock, the draws of the generator and the outcome of `sendto` upstream.
-- What is logged has no model here, nor has the call of the entropy alert, which only logs.
pub mod Boot
pub mod Queries
pub mod Responses
pub mod Session
pub mod Loop
pub mod Effects
pub mod Running
pub mod Waiting
pub mod Answering
pub mod Asked
use dns_security_dataplane.Base.{
  ℕ, if◌then◌else◌, Bool, true, false, List, [], ◌∷◌, Option, none, some, take, Result, ok, err,
  fault, ◌>>=◌, bytes_eq, bytes_Eq,
}
use dns_security_dataplane.Base.Set.{add}
use dns_security_dataplane.Wire.{Rcode, max_edns0_payload_size}
use dns_security_dataplane.Text.{codes}
use dns_security_dataplane.Name.{is_empty}
use dns_security_dataplane.Parser.{ParsedPacket, parse}
use dns_security_dataplane.Response.{build_error_response, build_sinkhole_response, translate_txid}
use dns_security_dataplane.Trie.{empty_trie, insert}
use dns_security_dataplane.Policy.{Action, PolicySnapshot, evaluate}
use dns_security_dataplane.Snapshot.{Manager, new_manager, apply_candidate}
use dns_security_dataplane.Cache.{Cache, CacheEntry, new_cache, lookup}
use dns_security_dataplane.Forwarder.{
  Forwarder, Forwarded, PendingTransaction, Address, forward_query, validate_response,
}
use dns_security_dataplane.Cache as DnsCache

-- The default rules, as `insert` enters them.
abbrev pub seed : PolicySnapshot
seed = record {
  generation = 1;
  version_hash = codes "bootstrap_v1";
  suffix_trie = insert (codes "doubleclick.net") 2 (insert (codes "blocked.test") 1 empty_trie);
  exact_blocks = add (codes "sinkhole.test") [];
  allowlist = add (codes "safe.doubleclick.net") [];
}

-- The policy when the loop begins, and what `apply_candidate` returned.
unfoldable pub boot : Manager × Bool
boot = apply_candidate (some seed) new_manager

pub record Dataplane : Type 0 where
  pub cache : Cache
  pub forwarder : Forwarder

-- What is outside: the two clock readings of a query, the draws, and whether `sendto` succeeds.
pub record Outside : Type 0 where
  pub lookup_now : ℕ
  pub forward_now : ℕ
  pub draws : List ℕ
  pub send_ok : Bool

-- What a handler leaves: its state, and what it sent to whom on the listening socket.
pub record Handled : Type 0 where
  pub state : Dataplane
  pub replies : List (List ℕ × Address)

abbrev pub silent : Dataplane → Handled
silent d = record { state = d; replies = [] }

abbrev pub reply_with : Dataplane → Address → Result (List ℕ) → Result Handled
reply_with d client_addr r =
    r >>= λ resp. ok (record { state = d; replies = (resp, client_addr) ∷ [] })

-- Behind `forward_query`.
unfoldable pub after_forward : Dataplane → ParsedPacket → Address → Result ℕ → Result Handled
after_forward d query client_addr (ok txid) = ok (silent d)
after_forward d query client_addr (err c) =
    reply_with d client_addr (build_error_response query Rcode.servfail)
after_forward d query client_addr fault = fault

-- A miss. `none`: `forward_query` is still drawing.
unfoldable pub on_miss :
    Dataplane → ParsedPacket → Address → Option Forwarded → Option (Result Handled)
on_miss d query client_addr none = none
on_miss d query client_addr (some out) =
    some (after_forward (record d { forwarder = out.after }) query client_addr out.result)

-- Behind `cache.lookup`.
unfoldable pub after_lookup :
    Dataplane
    → ParsedPacket
    → Address
    → Outside
    → Result (Cache × Option CacheEntry)
    → Option (Result Handled)
after_lookup d query client_addr o (ok (cache, some e)) = some (
    ok (record {
      state = record d { cache = cache };
      replies = ((translate_txid e.response query.header.id).1, client_addr) ∷ [];
    }))
after_lookup d query client_addr o (ok (cache, none)) =
    on_miss (record d { cache = cache }) query client_addr
      (forward_query d.forwarder query client_addr o.forward_now o.draws o.send_ok)
after_lookup d query client_addr o (err c) = some (err c)
after_lookup d query client_addr o fault = some fault

-- A name that is not blocked.
unfoldable pub on_allowed :
    Dataplane → ℕ → ParsedPacket → Address → Outside → Option (Result Handled)
on_allowed d current_gen query client_addr o =
    if bytes_eq query.question.qname (codes "sinkhole.test")
    then some (reply_with d client_addr (build_sinkhole_response query (127 ∷ 0 ∷ 0 ∷ 1 ∷ []) 60))
    else after_lookup d query client_addr o (
        lookup d.cache query.question.qname query.question.qtype query.question.qclass current_gen
          o.lookup_now)

-- By the decision's action.
unfoldable pub on_action :
    Dataplane → ℕ → ParsedPacket → Address → Outside → Action → Option (Result Handled)
on_action d current_gen query client_addr o Action.block_nxdomain =
    some (reply_with d client_addr (build_error_response query Rcode.nxdomain))
on_action d current_gen query client_addr o Action.block_refused =
    some (reply_with d client_addr (build_error_response query Rcode.refused))
on_action d current_gen query client_addr o Action.allow =
    on_allowed d current_gen query client_addr o
on_action d current_gen query client_addr o Action.block_sinkhole =
    on_allowed d current_gen query client_addr o

-- Behind `DnsParser::parse`.
unfoldable pub on_query :
    Dataplane
    → PolicySnapshot
    → ℕ
    → Address
    → Outside
    → Result ParsedPacket
    → Option (Result Handled)
on_query d snapshot current_gen client_addr o (ok query) =
    on_action d current_gen query client_addr o (evaluate snapshot query.question.qname).action
on_query d snapshot current_gen client_addr o (err c) = some (ok (silent d))
on_query d snapshot current_gen client_addr o fault = some fault

-- `recvfrom` into `rx_buf`, which cuts a longer datagram off.
abbrev pub received : List ℕ → List ℕ
received datagram = take max_edns0_payload_size datagram

-- An event on the listening socket.
unfoldable pub on_client :
    Dataplane → PolicySnapshot → ℕ → List ℕ → Address → Outside → Option (Result Handled)
on_client d snapshot current_gen datagram client_addr o =
    if is_empty datagram
    then some (ok (silent d))
    else on_query d snapshot current_gen client_addr o (parse (received datagram))

-- A response that was accepted.
unfoldable pub on_resolved : Dataplane → ℕ → ℕ → List ℕ → PendingTransaction → Result Handled
on_resolved d current_gen now response matched_tx = do
  cache ←
      DnsCache.insert d.cache matched_tx.expected_qname matched_tx.expected_qtype 1 response 60
        current_gen now
  ok (record {
    state = record d { cache = cache };
    replies = ((translate_txid response matched_tx.client_txid).1, matched_tx.client_addr) ∷ [];
  })

-- Behind `validate_response`.
unfoldable pub on_validated :
    Dataplane → ℕ → ℕ → List ℕ → Forwarder × Result PendingTransaction → Result Handled
on_validated d current_gen now response (f, ok matched_tx) =
    on_resolved (record d { forwarder = f }) current_gen now response matched_tx
on_validated d current_gen now response (f, err c) = ok (silent (record d { forwarder = f }))
on_validated d current_gen now response (f, fault) = fault

-- An event on the forwarder's socket.
unfoldable pub on_upstream : Dataplane → ℕ → ℕ → List ℕ → Address → Result Handled
on_upstream d current_gen now datagram from_addr =
    if is_empty datagram
    then ok (silent d)
    else on_validated d current_gen now (received datagram)
        (validate_response d.forwarder (received datagram) from_addr)
