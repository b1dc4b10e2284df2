-- ===== src/Response/Decoded.antt =====
-- The sinkhole response, as a resolver decodes it.
use dns_security_dataplane.Base.{
  ℕ, drop_further, length-take, length-drop, take-past, zero, suc, ◌+◌, ◌*◌, ◌^◌, ◌<◌, ◌≤◌, ◌≡◌,
  refl, sym, ap, ◌∙◌, true, false, List, [], ◌∷◌, ◌++◌, length, All, take, drop, drop-append,
  get_elem?, get_elem?_of_drop, drop-suc, length_of_drop, Result, ok, ◌>>=◌, some, arith,
}
use mathlib.Core.List.{append_assoc}
use dns_security_dataplane.Wire.{read_word}
use dns_security_dataplane.Name.{decode_name}
use dns_security_dataplane.Name.Encode.{encode_name, join_onto, IsLabel}
use dns_security_dataplane.Name.Spelling.{jump}
use dns_security_dataplane.Name.Complete.{decode_name_iff}
use dns_security_dataplane.Name.Plain.{encode_name-Spells}
use dns_security_dataplane.Parser.{ParsedPacket, parse}
use dns_security_dataplane.Parser.Laws.{IsAccepted, parse-IsAccepted}
use dns_security_dataplane.Response.{build_sinkhole_response, sinkhole_answer}
use dns_security_dataplane.Response.Header.{IsByte, question_bytes, build_sinkhole_response_lem}

-- A number of four bytes.
abbrev pub read_long : List ℕ → ℕ → Result ℕ
read_long buf i = do hi ← read_word buf i; lo ← read_word buf (i + 2); ok (hi * 65536 + lo)

get_elem?-drop : (xs : List ℕ) (o i : ℕ) → get_elem? xs (o + i) ≡ get_elem? (drop o xs) i
get_elem?-drop xs zero i = let e : zero + i ≡ i = omega arith in rw e refl
get_elem?-drop [] (suc o) i = refl
get_elem?-drop (x ∷ xs) (suc o) i =
    let e : suc o + i ≡ suc (o + i) = omega arith in rw e (get_elem?-drop xs o i)

read_word-drop : (xs : List ℕ) (o i : ℕ) → read_word xs (o + i) ≡ read_word (drop o xs) i
read_word-drop xs o i =
    let e : o + i + 1 ≡ o + (i + 1) = omega arith in
    rw (e, get_elem?-drop xs o i, get_elem?-drop xs o (i + 1)) refl

read_long-drop : (xs : List ℕ) (o i : ℕ) → read_long xs (o + i) ≡ read_long (drop o xs) i
read_long-drop xs o i =
    let e : o + i + 2 ≡ o + (i + 2) = omega arith in
    ap (λ w. do hi ← w; lo ← read_word xs (o + i + 2); ok (hi * 65536 + lo)) (read_word-drop xs o i)
    ∙ ap (λ w. do hi ← read_word (drop o xs) i; lo ← w; ok (hi * 65536 + lo))
        (ap (read_word xs) e ∙ read_word-drop xs o (i + 2))

-- The answer record at an offset.
pub record IsAnswer (r : List ℕ) (o : ℕ) (qname : List ℕ) (ttl_sec : ℕ) (address : List ℕ)
    : Type 0 where
  pub name : decode_name r o ≡ ok (qname, 2)
  pub type_a : read_word r (o + 2) ≡ ok 1
  pub class_in : read_word r (o + 4) ≡ ok 1
  pub ttl : read_long r (o + 6) ≡ ok ttl_sec
  pub rdlength : read_word r (o + 10) ≡ ok 4
  pub rdata : drop (o + 12) r ≡ address

module _ (r : List ℕ) (ls : List (List ℕ)) (labels : All IsLabel ls)
    (short : length (join_onto [] ls) ≤ 253) where
  question_name :
      (rest : List ℕ)
      → drop 12 r ≡ encode_name ls ++ rest
      → decode_name r 12 ≡ ok (join_onto [] ls, length (encode_name ls))
  question_name rest h =
      (decode_name_iff r 12 _ _).1
        (ls, encode_name-Spells r 12 false 0 ls rest labels h, refl, short)

  -- A pointer back to the question.
  pointed_name :
      (o : ℕ) (rest behind : List ℕ)
      → drop 12 r ≡ encode_name ls ++ rest
      → drop o r ≡ 192 ∷ 12 ∷ behind
      → 12 < o
      → decode_name r o ≡ ok (join_onto [] ls, 2)
  pointed_name o rest behind h at_o later =
      let one : o + 1 ≡ suc o = omega arith in
      let second : get_elem? r (o + 1) ≡ some 12 =
        rw one (get_elem?_of_drop r (suc o) (drop-suc r o at_o)) in
      (decode_name_iff r o _ _).1 (
        ls,
        jump o false 0 192 12 ls 0 2 (get_elem?_of_drop r o at_o) (omega arith) second (omega arith)
            (omega (arith, length_of_drop r o at_o)) (λ _. omega arith)
            (encode_name-Spells r 12 true 1 ls rest labels h) refl,
        refl,
        short,
      )

answer_starts :
    (ttl_sec : ℕ) (address : List ℕ)
    → sinkhole_answer ttl_sec address ≡ 192 ∷ 12 ∷ drop 2 (sinkhole_answer ttl_sec address)
unfolding sinkhole_answer
answer_starts ttl_sec address = refl

module _ (r address : List ℕ) (o ttl_sec : ℕ) (four_bytes : ttl_sec < 2 ^ 32)
    (at_o : drop o r ≡ sinkhole_answer ttl_sec address) where
  fields_of_record :
      (qname : List ℕ) → decode_name r o ≡ ok (qname, 2) → IsAnswer r o qname ttl_sec address
  unfolding sinkhole_answer
  fields_of_record qname d = record {
    name = d;
    type_a = read_word-drop r o 2 ∙ rw at_o refl;
    class_in = read_word-drop r o 4 ∙ rw at_o refl;
    ttl = read_long-drop r o 6 ∙ rw at_o (ap ok (omega arith));
    rdlength = read_word-drop r o 10 ∙ rw at_o refl;
    rdata = drop_further o 12 r at_o;
  }

-- A packet that was accepted, whose question has its name without compression.
module _ (buffer : List ℕ) {query : ParsedPacket} (a : IsAccepted buffer query) (ls : List (List ℕ))
    (extra : List ℕ) (labels : All IsLabel ls) (short : length (join_onto [] ls) ≤ 253)
    (plain : drop 12 buffer ≡ encode_name ls ++ extra) where
  name_is : (query.question.qname ≡ join_onto [] ls) × (a.name_bytes ≡ length (encode_name ls))
  name_is =
      let both = sym a.name ∙ question_name buffer ls labels short extra plain in (cc both, cc both)

  wire_is : query.question.wire_bytes_consumed ≡ length (encode_name ls) + 4
  wire_is = a.consumed ∙ ap (λ n. n + 4) name_is.1

  question_is : question_bytes query ≡ encode_name ls ++ take 4 extra
  question_is = rw (a.raw, wire_is, plain) (take-past (encode_name ls) extra 4)

  length-question : length (question_bytes query) ≡ query.question.wire_bytes_consumed
  length-question =
      let whole = length-drop 12 buffer a.long in
      rw a.raw (
        length-take query.question.wire_bytes_consumed (drop 12 buffer)
          (omega (arith, whole, a.inside)))

-- A resolver that decodes a sinkhole response reads what the builder was given: the name of the
-- question, as the query has it, and behind the question a record that bears the same name by way of
-- a pointer, of type A and class IN, with the lifetime and the address. The query is a packet of
-- bytes that was accepted, its name is written without compression, and the lifetime has 32 bits.
pub build_sinkhole_response-IsAnswer :
    (buffer : List ℕ) {query : ParsedPacket} (ls : List (List ℕ)) (extra address : List ℕ)
    (ttl_sec : ℕ)
    → All IsByte buffer
    → parse buffer ≡ ok query
    → All IsLabel ls
    → drop 12 buffer ≡ encode_name ls ++ extra
    → length (join_onto [] ls) ≤ 253
    → ttl_sec < 2 ^ 32
    → (r : List ℕ) × (build_sinkhole_response query address ttl_sec ≡ ok r)
      × (decode_name r 12 ≡ ok (query.question.qname, length (encode_name ls)))
      × IsAnswer r (12 + query.question.wire_bytes_consumed) query.question.qname ttl_sec address
build_sinkhole_response-IsAnswer buffer {query} ls extra address ttl_sec bytes parsed labels plain
      short small =
    let a = parse-IsAccepted buffer parsed in
    let (r, built, is_response) = build_sinkhole_response_lem buffer bytes parsed address ttl_sec in
    let (same, _) = name_is buffer a ls extra labels short plain in
    let question = question_is buffer a ls extra labels short plain in
    let count = length-question buffer a ls extra labels short plain in
    let answer = sinkhole_answer ttl_sec address in
    let text : drop 12 r ≡ encode_name ls ++ (take 4 extra ++ answer) =
      is_response.behind
      ∙ ap (λ q. q ++ answer) question
      ∙ append_assoc (encode_name ls) (take 4 extra) answer in
    let at_answer : drop (12 + query.question.wire_bytes_consumed) r ≡ answer =
      drop_further 12 query.question.wire_bytes_consumed r is_response.behind
      ∙ (ap (λ n. drop n (question_bytes query ++ answer)) (sym count)
          ∙ drop-append (question_bytes query) answer) in
    let wire = wire_is buffer a ls extra labels short plain in
    let pointed =
      pointed_name r ls labels short (12 + query.question.wire_bytes_consumed)
        (take 4 extra ++ answer) (drop 2 answer) text (at_answer ∙ answer_starts ttl_sec address)
        (omega (arith, wire)) in
    (
      r,
      built,
      question_name r ls labels short (take 4 extra ++ answer) text
          ∙ ap (λ n. ok (n, length (encode_name ls))) (sym same),
      fields_of_record r address (12 + query.question.wire_bytes_consumed) ttl_sec small at_answer
          query.question.qname (pointed ∙ ap (λ n. ok (n, 2)) (sym same)),
    )
