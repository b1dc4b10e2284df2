-- ===== src/Examples/Forwarding.antt =====
-- The forwarder.
use dns_security_dataplane.Base.{
  ℕ, ◌≡◌, ◌≢◌, ◌≤◌, ◌↔◌, length, refl, true, [], ◌∷◌, some, none, ok, arith, nat_Eq, bytes_eq,
}
use dns_security_dataplane.Base.Map.{find, erase, assign, retain}
use dns_security_dataplane.Wire.{parse_header, is_response}
use dns_security_dataplane.Response.{word_bytes}
use dns_security_dataplane.Forwarder.Pending.{IsBounded, transaction_of}
use dns_security_dataplane.Forwarder.{
  Forwarder, Forwarded, validate_response, forward_query, generate_unique_txid, check_question,
  send_query, draw_txid, match_response,
}
use dns_security_dataplane.Forwarder.Txid.{generate_total}
use dns_security_dataplane.Forwarder.Sending.{Entered, forward_query-Entered}
use dns_security_dataplane.Parser.{ParsedPacket, parse}
use dns_security_dataplane.Forwarder.Exchange.{
  validate_response_iff, forward-validate, number_spent,
}
use dns_security_dataplane.Packets.{
  query_bytes, query, response_bytes, response, client, resolver, idle_forwarder, busy_forwarder,
  asked, idle-IsBounded, busy-IsBounded, counted, counted-AllFresh, length-counted,
}
use dns_security_dataplane.Examples.Parsing.{parse-query, parse_response}

parse_response_header : parse_header response_bytes ≡ ok response.header
unfolding parse_header
parse_response_header = refl

pub there : find response.header.id busy_forwarder.pending_tx ≡ some asked
unfolding find
there = refl

abbrev pub answered : Forwarder
answered = record busy_forwarder { pending_tx = erase 0x1207 busy_forwarder.pending_tx }

pub accepts : validate_response busy_forwarder response_bytes resolver ≡ (answered, ok asked)
unfolding validate_response match_response parse_header find check_question bytes_eq
accepts = rw parse_response refl

validate_response_iff_example :
    ((validate_response busy_forwarder response_bytes resolver).1 ≡ ok asked) ↔ (
      (resolver.sin_addr ≡ resolver.sin_addr)
      × (resolver.sin_port ≡ resolver.sin_port)
      × (p : ParsedPacket) × (parse response_bytes ≡ ok p)
      × (is_response p.header ≡ true)
      × (find p.header.id busy_forwarder.pending_tx ≡ some asked)
      × (p.question.qname ≡ asked.expected_qname)
      × (p.question.qtype ≡ asked.expected_qtype))
validate_response_iff_example = validate_response_iff busy_forwarder response_bytes resolver asked

number_spent_example : ¬ (
    (validate_response
      (validate_response busy_forwarder response_bytes resolver).0
      response_bytes
      resolver).1
    ≡ ok asked)
number_spent_example =
    number_spent busy_forwarder response_bytes resolver response.header parse_response_header
      (omega arith) refl refl refl response_bytes resolver response.header parse_response_header
      refl

generate_total_example :
    (r : ℕ) × (generate_unique_txid (counted 2) busy_forwarder.pending_tx ≡ some r)
    × (r ≢ 0)
    × (find r busy_forwarder.pending_tx ≡ none)
generate_total_example =
    generate_total (counted 2) busy_forwarder.pending_tx (counted-AllFresh 2) busy-IsBounded.once
      (length-counted 2)

forward_query-Entered_example :
    (out : Forwarded) × (forward_query busy_forwarder query client 10 (counted 2048) true
      ≡ some out)
    × IsBounded out.after
    × (length out.after.pending_tx ≤ 2048)
    × Entered busy_forwarder query_bytes query client 10 out out.result
forward_query-Entered_example =
    forward_query-Entered busy_forwarder query_bytes client 10 busy-IsBounded parse-query
      (counted 2048) true refl (counted-AllFresh 2048) (length-counted 2048)

abbrev pub sent_out : Forwarded
sent_out = record {
  after = record idle_forwarder { pending_tx = (0x1207, transaction_of query client 10) ∷ [] };
  datagram = some (
      word_bytes 0x1207 (
        0x01 ∷ 0x00 ∷ 0 ∷ 1 ∷ 0 ∷ 0 ∷ 0 ∷ 0 ∷ 0 ∷ 0 ∷ 2 ∷ 119 ∷ 87 ∷ 1 ∷ 98 ∷ 0 ∷ 0 ∷ 1 ∷ 0 ∷ 1
        ∷ []));
  result = ok 0x1207;
}

pub sends : forward_query idle_forwarder query client 10 (counted 0x1207) true ≡ some sent_out
unfolding forward_query send_query draw_txid counted find assign retain
sends = refl

forward-validate_example : validate_response sent_out.after response_bytes resolver ≡ (
  record sent_out.after { pending_tx = erase 0x1207 sent_out.after.pending_tx },
  ok (transaction_of query client 10),
)
forward-validate_example =
    forward-validate idle_forwarder query client 10 0x1207 sent_out response_bytes response
      parse_response refl refl refl refl query_bytes (counted 0x1207) true idle-IsBounded refl
      parse-query (counted-AllFresh 0x1207) (omega (arith, length-counted 0x1207)) sends refl
