-- ===== src/Dataplane/Session.antt =====
-- A response, and the query that it answers from the cache.
use dns_security_dataplane.Base.{
  ℕ, length, ◌≤◌, ◌+◌, ◌*◌, ◌<◌, ◌≡◌, ◌≢◌, refl, sym, ap, ◌∙◌, inl, inr, true, false, List, [], ◌∷◌,
  ◌==◌, ==_iff, some, arith, ok, bytes_eq, bytes_Eq, ltb, ◌&&◌,
}
use dns_security_dataplane.Base.Map.{find}
use dns_security_dataplane.Text.{codes}
use dns_security_dataplane.Name.{is_empty}
use dns_security_dataplane.Parser.{ParsedPacket, parse}
use dns_security_dataplane.Parser.Laws.{parse-IsAccepted}
use dns_security_dataplane.Response.Stamped.{with_id, translate_txid-with_id}
use dns_security_dataplane.Policy.{Action, PolicySnapshot, evaluate}
use dns_security_dataplane.Cache.Lifetime.{lifetime}
use dns_security_dataplane.Cache.Under.{key_under}
use dns_security_dataplane.Cache.{Cache, CacheEntry, lookup}
use dns_security_dataplane.Cache.Reads.{lookup-LooksUp}
use dns_security_dataplane.Forwarder.{Address}
use dns_security_dataplane.Dataplane.{
  Dataplane, Outside, Handled, after_lookup, on_allowed, on_action, on_query, received, on_client,
  on_upstream,
}
use dns_security_dataplane.Dataplane.Queries.{IsSound, accepted-not-empty}
use dns_security_dataplane.Dataplane.Responses.{Relays, on_upstream-Relays}

module _ (d : Dataplane) (qname : List ℕ) (qtype : ℕ) (response : List ℕ) (expires_at : ℕ)
    (gen : ℕ) where
  -- The cache of `d` has the response under class IN.
  abbrev Has : Type 0
  Has =
      (e : CacheEntry) × (find (key_under qname qtype 1) d.cache.table ≡ some e)
      × (e.response ≡ response)
      × (e.expires_at ≡ expires_at)
      × (e.policy_generation ≡ gen)

module _ (d : Dataplane) (s : IsSound d) (gen : ℕ) (o : Outside) (client_addr : Address)
    (query : ParsedPacket) (response : List ℕ) (expires_at : ℕ)
    (has : Has d query.question.qname query.question.qtype response expires_at gen)
    (qclass : query.question.qclass ≡ 1) (soon : o.lookup_now < expires_at)
    (named : bytes_eq query.question.qname (codes "sinkhole.test") ≡ false)
    (long : 2 ≤ length response) where
  hit :
      (cache : Cache) × (on_allowed d gen query client_addr o
        ≡ some (
            ok (record {
              state = record d { cache = cache };
              replies = (with_id query.header.id response, client_addr) ∷ [];
            })))
  unfolding on_allowed after_lookup
  hit =
      let (e, stored, response_is, expires_is, gen_is) = has in
      let l =
        lookup-LooksUp d.cache query.question.qname query.question.qtype 1 gen o.lookup_now
          s.cache in
      let live : (ltb o.lookup_now e.expires_at && e.policy_generation == gen) ≡ true =
        ground (arith, ==_iff e.policy_generation gen) in
      let stamped = translate_txid-with_id response query.header.id long in
      let returned : lookup d.cache query.question.qname query.question.qtype 1 gen o.lookup_now
          ≡ ok (l.after, some e) =
        l.returns ∙ rw (stored, live) refl in
      (l.after, simp (named, qclass, returned, response_is, stamped))

module _ (d : Dataplane) (s : IsSound d) (gen now : ℕ) (datagram : List ℕ) (from_addr : Address)
    (h : Handled) (p : ParsedPacket) (parsed : parse (received datagram) ≡ ok p) where
  abbrev Stores : Handled → Type 0
  Stores h =
      IsSound h.state
      × Has h.state p.question.qname p.question.qtype (received datagram)
          (now + lifetime 60 * 1_000_000_000) gen

  relayed :
      (h' : Handled)
      → h'.replies ≢ []
      → IsSound h'.state
      → Relays d gen now datagram from_addr h'
      → Stores h'
  relayed h' sent sound (inl (none_sent, _)) = absurd (sent none_sent)
  relayed h' sent sound (inr (tx, g, _, i)) =
      let same : g.packet ≡ p = cc (g.parsed, parsed) in
      let qname : tx.expected_qname ≡ p.question.qname =
        sym g.qname ∙ ap (λ x. x.question.qname) same in
      let qtype : tx.expected_qtype ≡ p.question.qtype =
        sym g.qtype ∙ ap (λ x. x.question.qtype) same in
      let cache : h'.state.cache ≡ i.after = cc i.returns in
      let there : find (key_under tx.expected_qname tx.expected_qtype 1) h'.state.cache.table
          ≡ some i.entry =
        ap (λ c. find (key_under tx.expected_qname tx.expected_qtype 1) c.table) cache ∙ i.stored in
      (sound, (i.entry, rw (qname, qtype) at there, i.response_is, i.expires_is, i.generation_is))

  stored : on_upstream d gen now datagram from_addr ≡ ok h → h.replies ≢ [] → Stores h
  stored call sent = go (on_upstream-Relays d gen now datagram from_addr s)
    where
      go :
          (h' : Handled) × (on_upstream d gen now datagram from_addr ≡ ok h')
            × IsSound h'.state
            × Relays d gen now datagram from_addr h'
          → Stores h
      go (h', call', sound, relays) =
          let same : h' ≡ h = cc (call, call') in
          rw same at (relayed h' (rw same sent) sound relays)

  -- Once the handler has sent a response on, a query of the same name and type in class IN,
  -- whatever client it comes from, is answered from the cache with this response under its own ID,
  -- and the forwarder is left as it was. The query comes next, less than 60 seconds later and under
  -- the same generation, and the policy allows the name, which is not `sinkhole.test`; the cache
  -- was valid, the socket open and the table bounded.
  pub on_upstream-on_client :
      on_upstream d gen now datagram from_addr ≡ ok h
      → h.replies ≢ []
      → (snapshot : PolicySnapshot) (asked : List ℕ) (query : ParsedPacket) (client_addr : Address)
        (o : Outside)
      → parse (received asked) ≡ ok query
      → query.question.qname ≡ p.question.qname
      → query.question.qtype ≡ p.question.qtype
      → query.question.qclass ≡ 1
      → (evaluate snapshot query.question.qname).action ≡ Action.allow
      → bytes_eq query.question.qname (codes "sinkhole.test") ≡ false
      → o.lookup_now < now + 60_000_000_000
      → (cache : Cache) × (on_client h.state snapshot gen asked client_addr o
          ≡ some (
              ok (record {
                state = record h.state { cache = cache };
                replies = (with_id query.header.id (received datagram), client_addr) ∷ [];
              })))
  unfolding on_client on_query on_action
  on_upstream-on_client call sent snapshot asked query client_addr o q qname qtype qclass allowed
        named soon =
      let (sound, has) = stored call sent in
      let a = parse-IsAccepted (received datagram) parsed in
      let n : is_empty asked ≡ false = accepted-not-empty asked q in
      rw (n, q, on_query, allowed, on_action)
        (hit h.state sound gen o client_addr query (received datagram) (now + 60_000_000_000)
          (rw (qname, qtype) has) qclass soon named (omega (arith, a.long)))
