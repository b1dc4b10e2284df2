-- ===== src/Forwarder/Pending.antt =====
-- The table of pending transactions: its bound, and what `forward_query` enters.
use dns_security_dataplane.Base.{
  ℕ, ◌≤◌, ◌<◌, ◌≡◌, ◌≢◌, refl, inl, inr, ==_iff, leb, Bool, true, false, List, [], ◌∷◌, none, some,
  length, nat_Eq, arith, Bool-cases, Result, ok, err, fault, ErrorCode, drop,
}
use dns_security_dataplane.Base.Map.{
  find, assign, erase, IsMap, find-assign, find-assign_self, find-assign_ne, find-erase,
  erase-IsMap, assign-IsMap, length-erase, length-assign_new, retain-IsMap, length-retain-le,
}
use dns_security_dataplane.Response.{word_bytes}
use dns_security_dataplane.Parser.{ParsedPacket, parse}
use dns_security_dataplane.Parser.Laws.{parse-IsAccepted}
use dns_security_dataplane.Forwarder.{
  Forwarder, PendingTransaction, Address, Forwarded, failed, is_live, prune, stamp, send_query,
  forward_query, generate_unique_txid, max_pending,
}
use dns_security_dataplane.Forwarder.Txid.{AllFresh, generate_sound, generate_total}

-- What a query enters: the client's own ID and address, what was asked, and when.
abbrev pub transaction_of : ParsedPacket → Address → ℕ → PendingTransaction
transaction_of packet client_addr now = record {
  client_txid = packet.header.id;
  client_addr = client_addr;
  expected_qname = packet.question.qname;
  expected_qtype = packet.question.qtype;
  timestamp = now;
}

-- At most 2048 transactions, each number once.
pub record IsBounded (f : Forwarder) : Type 0 where
  pub once : IsMap f.pending_tx
  pub bounded : length f.pending_tx ≤ max_pending

pub prune-IsBounded : (now : ℕ) (f : Forwarder) → IsBounded f → IsBounded (prune now f)
prune-IsBounded now f b = record {
  once = retain-IsMap (is_live now) f.pending_tx b.once;
  bounded = omega (arith, length-retain-le (is_live now) f.pending_tx, b.bounded);
}

-- What a call of `forward_query` leaves, in terms of the pruned forwarder `f`.
abbrev pub Forwards : Forwarder → ParsedPacket → Address → ℕ → Forwarded → Result ℕ → Type 0
Forwards f packet client_addr now out (ok txid) =
    (txid ≢ 0)
    × (find txid f.pending_tx ≡ none)
    × (find txid out.after.pending_tx ≡ some (transaction_of packet client_addr now))
    × ((t : ℕ) → txid ≢ t → find t out.after.pending_tx ≡ find t f.pending_tx)
    × (out.datagram ≡ some (word_bytes txid (drop 2 packet.raw_packet)))
Forwards f packet client_addr now out (err c) =
    (t : ℕ) → find t out.after.pending_tx ≡ find t f.pending_tx
Forwards f packet client_addr now out fault = ⊥

stamp_ok :
    (txid : ℕ) (raw : List ℕ) → 2 ≤ length raw → stamp txid raw ≡ ok (word_bytes txid (drop 2 raw))
stamp_ok txid [] h = absurd (omega arith)
stamp_ok txid (a ∷ []) h = absurd (omega arith)
stamp_ok txid (a ∷ b ∷ rest) h = refl

module _ (f : Forwarder) (packet : ParsedPacket) (client_addr : Address) (now txid : ℕ)
    (b : IsBounded f) (room : length f.pending_tx < max_pending) (nonzero : txid ≢ 0)
    (free : find txid f.pending_tx ≡ none) (long : 2 ≤ length packet.raw_packet) where
  abbrev tx : PendingTransaction
  tx = transaction_of packet client_addr now

  entered-IsBounded : IsBounded (record f { pending_tx = assign txid tx f.pending_tx })
  entered-IsBounded = record {
    once = assign-IsMap txid tx f.pending_tx b.once;
    bounded = omega (arith, length-assign_new txid tx f.pending_tx free);
  }

  erased-IsBounded : IsBounded (record f { pending_tx = erase txid (assign txid tx f.pending_tx) })
  erased-IsBounded =
      let there = find-assign_self txid tx f.pending_tx in
      let e = entered-IsBounded in
      record {
        once = erase-IsMap txid (assign txid tx f.pending_tx) e.once;
        bounded =
            omega
              (arith, length-erase txid tx (assign txid tx f.pending_tx) e.once there, e.bounded);
      }

  erased_same : (t : ℕ) → find t (erase txid (assign txid tx f.pending_tx)) ≡ find t f.pending_tx
  erased_same t = ground (
    arith,
    find-erase txid t (assign txid tx f.pending_tx),
    find-assign txid t tx f.pending_tx,
    ==_iff txid t,
    free,
  )

  abbrev Sends : Forwarded → Type 0
  Sends out =
      IsBounded out.after
      × (out.after.upstream_addr ≡ f.upstream_addr)
      × (out.after.is_open ≡ f.is_open)
      × Forwards f packet client_addr now out out.result

  send_query-Sends : (send_ok : Bool) → Sends (send_query f packet client_addr now send_ok txid)
  unfolding send_query
  send_query-Sends true =
      rw (stamp_ok txid packet.raw_packet long, send_query)
        (
          entered-IsBounded,
          refl,
          refl,
          (
            nonzero,
            free,
            find-assign_self txid tx f.pending_tx,
            λ t n. find-assign_ne txid t tx f.pending_tx n,
            refl,
          ),
        )
  send_query-Sends false =
      rw (stamp_ok txid packet.raw_packet long, send_query)
        (erased-IsBounded, refl, refl, erased_same)

abbrev pub Leaves : Forwarder → ParsedPacket → Address → ℕ → Forwarded → Type 0
Leaves f packet client_addr now out =
    IsBounded out.after
    × (out.after.upstream_addr ≡ f.upstream_addr)
    × (out.after.is_open ≡ f.is_open)
    × Forwards (prune now f) packet client_addr now out out.result

module _ (f : Forwarder) (buffer : List ℕ) {packet : ParsedPacket} (client_addr : Address) (now : ℕ)
    (draws : List ℕ) (send_ok : Bool) (b : IsBounded f) (opened : f.is_open ≡ true)
    (parsed : parse buffer ≡ ok packet) where
  long : 2 ≤ length packet.raw_packet
  long = let a = parse-IsAccepted buffer parsed in rw a.raw (omega (arith, a.long))

  forward_full :
      max_pending ≤ length (prune now f).pending_tx
      → (out : Forwarded) × (forward_query f packet client_addr now draws send_ok ≡ some out)
        × Leaves f packet client_addr now out
  unfolding forward_query
  forward_full full =
      let test : leb max_pending (length (prune now f).pending_tx) ≡ true = ground arith in
      (
        failed (prune now f) (err ErrorCode.buffer_overflow),
        rw (opened, test),
        (prune-IsBounded now f b, refl, refl, λ t. refl),
      )

  forward_room :
      length (prune now f).pending_tx < max_pending
      → (txid : ℕ) → generate_unique_txid draws (prune now f).pending_tx ≡ some txid
      → (out : Forwarded) × (forward_query f packet client_addr now draws send_ok ≡ some out)
        × Leaves f packet client_addr now out
  unfolding forward_query
  forward_room room txid drawn =
      let test : leb max_pending (length (prune now f).pending_tx) ≡ false = ground arith in
      let (nonzero, free) = generate_sound draws (prune now f).pending_tx drawn in
      (
        send_query (prune now f) packet client_addr now send_ok txid,
        simp (opened, test, drawn),
        send_query-Sends (prune now f) packet client_addr now txid (prune-IsBounded now f b) room
            nonzero free long send_ok,
      )

  -- With an open socket, a bounded table and 2048 distinct draws, none of them 0, `forward_query` of
  -- a packet that was accepted returns. If it returns a number, the number is not 0 and was not in
  -- use, it is now that of this client's transaction, the other transactions are those that were not
  -- older than two seconds, and the datagram is the query with this number in its first two bytes.
  -- If it returns an error, no transaction is entered. The table stays within 2048 in both cases.
  pub forward_query-Leaves :
      AllFresh draws
      → max_pending ≤ length draws
      → (out : Forwarded) × (forward_query f packet client_addr now draws send_ok ≡ some out)
        × Leaves f packet client_addr now out
  forward_query-Leaves fresh enough =
      elim (Bool-cases (leb max_pending (length (prune now f).pending_tx))) [
        | inl full ↦ forward_full (ground arith)
        | inr room ↦
            let r : length (prune now f).pending_tx < max_pending = ground arith in
            let (txid, drawn, _, _) =
              generate_total draws (prune now f).pending_tx fresh (prune-IsBounded now f b).once
                (omega arith) in
            forward_room r txid drawn
      ]
