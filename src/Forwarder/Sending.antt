-- ===== src/Forwarder/Sending.antt =====
-- What `forward_query` does, in terms of the table that it found.
use dns_security_dataplane.Base.{
  ℕ, ◌+◌, ◌≤◌, ◌≡◌, ◌≢◌, refl, sym, ap, ◌∙◌, inl, inr, ltb, Bool-cases, Bool, true, false,
  if◌then◌else◌, List, Option, none, some, length, nat_Eq, arith, Result, ok, err, fault,
}
use dns_security_dataplane.Base.Map.{find, find-retain}
use dns_security_dataplane.Parser.{ParsedPacket, parse}
use dns_security_dataplane.Parser.Laws.{parse-IsAccepted}
use dns_security_dataplane.Response.Stamped.{with_id}
use dns_security_dataplane.Forwarder.{
  Forwarder, PendingTransaction, Address, Forwarded, is_live, prune, forward_query,
}
use dns_security_dataplane.Forwarder.Txid.{AllFresh}
use dns_security_dataplane.Forwarder.Pending.{
  IsBounded, transaction_of, Forwards, forward_query-Leaves,
}

-- A transaction that is less than 2001 milliseconds old.
abbrev pub recent : ℕ → Option PendingTransaction → Option PendingTransaction
recent now none = none
recent now (some tx) = if ltb now (tx.timestamp + 2_001_000_000) then some tx else none

is_live-recent :
    (now txid : ℕ) (tx : PendingTransaction)
    → is_live now txid tx ≡ ltb now (tx.timestamp + 2_001_000_000)
is_live-recent now txid tx = elim (Bool-cases (ltb now (tx.timestamp + 2_001_000_000))) [
  | inl young ↦ let live : is_live now txid tx ≡ true = ground arith in live ∙ sym young
  | inr old ↦ let dead : is_live now txid tx ≡ false = ground arith in dead ∙ sym old
]

find-prune :
    (now t : ℕ) (f : Forwarder)
    → IsBounded f
    → find t (prune now f).pending_tx ≡ recent now (find t f.pending_tx)
find-prune now t f b = find-retain (is_live now) t f.pending_tx b.once ∙ same (find t f.pending_tx)
  where
    same :
        (r : Option PendingTransaction)
        → (elim r [ none ↦ none | some v ↦ if is_live now t v then some v else none ])
          ≡ recent now r
    same none = refl
    same (some tx) = rw (is_live-recent now t tx) refl

abbrev pub Entered : Forwarder → List ℕ → ParsedPacket → Address → ℕ → Forwarded → Result ℕ → Type 0
Entered f buffer packet client_addr now out (ok txid) =
    (txid ≢ 0)
    × (recent now (find txid f.pending_tx) ≡ none)
    × (find txid out.after.pending_tx ≡ some (transaction_of packet client_addr now))
    × ((t : ℕ) → txid ≢ t → find t out.after.pending_tx ≡ recent now (find t f.pending_tx))
    × (out.datagram ≡ some (with_id txid buffer))
Entered f buffer packet client_addr now out (err c) =
    (t : ℕ) → find t out.after.pending_tx ≡ recent now (find t f.pending_tx)
Entered f buffer packet client_addr now out fault = ⊥

module _ (f : Forwarder) (buffer : List ℕ) {packet : ParsedPacket} (client_addr : Address) (now : ℕ)
    (b : IsBounded f) (parsed : parse buffer ≡ ok packet) where
  Forwards-Entered :
      (out : Forwarded) (r : Result ℕ)
      → Forwards (prune now f) packet client_addr now out r
      → Entered f buffer packet client_addr now out r
  Forwards-Entered out (ok txid) (nonzero, free, entered, others, sent) =
      let a = parse-IsAccepted buffer parsed in
      (
        nonzero,
        sym (find-prune now txid f b) ∙ free,
        entered,
        λ t ne. others t ne ∙ find-prune now t f b,
        sent ∙ ap (λ raw. some (with_id txid raw)) a.raw,
      )
  Forwards-Entered out (err c) others = λ t. others t ∙ find-prune now t f b
  Forwards-Entered out fault l = l

  -- With an open socket, a bounded table and 2048 distinct draws, none of them 0, `forward_query` of
  -- a packet that was accepted returns. If it returns a number, the number is not 0 and was that of
  -- no transaction younger than 2001 milliseconds; it is now that of a transaction with the client's
  -- ID and address, the name and type that were asked and the present time; and the datagram is the
  -- packet with this number in its first two bytes. If it returns an error, no transaction is
  -- entered. In both cases the other transactions are those younger than 2001 milliseconds, and the
  -- table stays within 2048.
  pub forward_query-Entered :
      (draws : List ℕ) (send_ok : Bool)
      → f.is_open ≡ true
      → AllFresh draws
      → 2048 ≤ length draws
      → (out : Forwarded) × (forward_query f packet client_addr now draws send_ok ≡ some out)
        × IsBounded out.after
        × (length out.after.pending_tx ≤ 2048)
        × Entered f buffer packet client_addr now out out.result
  forward_query-Entered draws send_ok opened fresh enough =
      let (out, call, (bounded, _, _, left)) =
        forward_query-Leaves f buffer client_addr now draws send_ok b opened parsed fresh enough in
      (out, call, bounded, bounded.bounded, Forwards-Entered out out.result left)
