-- ===== src/Forwarder.antt =====
-- dataplane/include/dns/forwarder.h and dataplane/src/dns/forwarder.cpp: `UpstreamForwarder`.
-- What comes from outside is an argument: `now` of the steady clock in nanoseconds, the numbers
-- that `dis(gen)` draws in turn, and whether `sendto` succeeds. A method that holds the mutex does
-- so around every access to the table, so a call is one step.
pub mod Txid
pub mod Pending
pub mod Sending
pub mod Validate
pub mod Exchange
pub mod Survival
pub mod Clients
use dns_security_dataplane.Base.{
  ℕ, ◌+◌, ◌-◌, ◌/◌, ◌==◌, leb, ltb, if◌then◌else◌, not, Bool, true, false, ◌&&◌, ◌||◌, List, [],
  ◌∷◌, Option, none, some, length, Result, ok, err, fault, ◌>>=◌, ErrorCode, bytes_eq, nat_Eq,
}
use dns_security_dataplane.Base.Map.{find, assign, erase, retain}
use dns_security_dataplane.Wire.{WireHeader, parse_header, is_response, dns_header_size}
use dns_security_dataplane.Parser.{ParsedPacket, ParsedQuestion, parse}
use dns_security_dataplane.Response.{word_bytes}

-- `sockaddr_in`.
pub record Address : Type 0 where
  pub sin_addr : ℕ
  pub sin_port : ℕ

pub record PendingTransaction : Type 0 where
  pub client_txid : ℕ
  pub client_addr : Address
  pub expected_qname : List ℕ
  pub expected_qtype : ℕ
  pub timestamp : ℕ

pub record Forwarder : Type 0 where
  pub is_open : Bool
  pub upstream_addr : Address
  pub pending_tx : List (ℕ × PendingTransaction)

abbrev pub max_pending : ℕ
max_pending = 2048

-- `find(txid) != end()`.
abbrev pub is_pending : List (ℕ × PendingTransaction) → ℕ → Bool
is_pending table txid = elim (find txid table) [ none ↦ false | some tx ↦ true ]

-- The loop of `generate_unique_txid`; `none` if these draws were not enough.
unfoldable pub draw_txid : ℕ → List ℕ → List (ℕ × PendingTransaction) → Option ℕ
draw_txid txid [] table = if txid == 0 || is_pending table txid then none else some txid
draw_txid txid (d ∷ draws) table =
    let again = draw_txid d draws table in
    if txid == 0 || is_pending table txid then again else some txid

abbrev pub generate_unique_txid : List ℕ → List (ℕ × PendingTransaction) → Option ℕ
generate_unique_txid draws table = draw_txid 0 draws table

-- Not older than two seconds, in whole milliseconds.
abbrev pub is_live : ℕ → ℕ → PendingTransaction → Bool
is_live now txid tx = leb ((now - tx.timestamp) / 1_000_000) 2000

abbrev pub prune : ℕ → Forwarder → Forwarder
prune now f = record f { pending_tx = retain (is_live now) f.pending_tx }

abbrev pub new_transaction : ParsedPacket → Address → ℕ → PendingTransaction
new_transaction packet client_addr now = record {
  client_txid = packet.header.id;
  client_addr = client_addr;
  expected_qname = packet.question.qname;
  expected_qtype = packet.question.qtype;
  timestamp = now;
}

-- `forward_buf[0]` and `forward_buf[1]` are written with no check.
abbrev pub stamp : ℕ → List ℕ → Result (List ℕ)
stamp txid [] = fault
stamp txid (a ∷ []) = fault
stamp txid (a ∷ b ∷ rest) = ok (word_bytes txid rest)

-- What a call leaves: the forwarder, the datagram that was handed to `sendto`, and the result.
pub record Forwarded : Type 0 where
  pub after : Forwarder
  pub datagram : Option (List ℕ)
  pub result : Result ℕ

abbrev pub failed : Forwarder → Result ℕ → Forwarded
failed f r = record { after = f; datagram = none; result = r }

-- From the drawn number on.
unfoldable pub send_query : Forwarder → ParsedPacket → Address → ℕ → Bool → ℕ → Forwarded
send_query f packet client_addr now send_ok txid =
    let sent_f = record f {
      pending_tx = assign txid (new_transaction packet client_addr now) f.pending_tx;
    } in
    elim (stamp txid packet.raw_packet) [
      | ok forward_buf ↦
          if send_ok
          then record { after = sent_f; datagram = some forward_buf; result = ok txid }
          else record {
            after = record sent_f { pending_tx = erase txid sent_f.pending_tx };
            datagram = some forward_buf;
            result = err ErrorCode.upstream_error;
          }
      | err c ↦ failed sent_f (err c)
      | fault ↦ failed sent_f fault
    ]

-- `none`: still drawing.
unfoldable pub forward_query :
    Forwarder → ParsedPacket → Address → ℕ → List ℕ → Bool → Option Forwarded
forward_query f packet client_addr now draws send_ok =
    if not f.is_open
    then some (failed f (err ErrorCode.upstream_error))
    else if leb max_pending (length (prune now f).pending_tx)
    then some (failed (prune now f) (err ErrorCode.buffer_overflow))
    else elim (generate_unique_txid draws (prune now f).pending_tx) [
      | none ↦ none
      | some txid ↦ some (send_query (prune now f) packet client_addr now send_ok txid)
    ]

-- The last check: the question of the response against the one that was asked.
unfoldable pub check_question : PendingTransaction → ParsedPacket → Result PendingTransaction
check_question tx p =
    if not (bytes_eq p.question.qname tx.expected_qname)
      || not (p.question.qtype == tx.expected_qtype)
    then err ErrorCode.unexpected_response
    else ok tx

-- From the header on.
unfoldable pub match_response :
    Forwarder → List ℕ → WireHeader → Forwarder × Result PendingTransaction
match_response f response_buffer hdr =
    if not (is_response hdr)
    then (f, err ErrorCode.unexpected_response)
    else elim (find hdr.id f.pending_tx) [
      | none ↦ (f, err ErrorCode.unexpected_response)
      | some tx ↦ (
        record f { pending_tx = erase hdr.id f.pending_tx },
        parse response_buffer >>= check_question tx,
      )
    ]

unfoldable pub validate_response :
    Forwarder → List ℕ → Address → Forwarder × Result PendingTransaction
validate_response f response_buffer from_addr =
    if ltb (length response_buffer) dns_header_size
    then (f, err ErrorCode.packet_too_short)
    else if not (from_addr.sin_addr == f.upstream_addr.sin_addr)
        || not (from_addr.sin_port == f.upstream_addr.sin_port)
    then (f, err ErrorCode.unexpected_response)
    else elim (parse_header response_buffer) [
      | ok hdr ↦ match_response f response_buffer hdr
      | err c ↦ (f, err c)
      | fault ↦ (f, fault)
    ]
