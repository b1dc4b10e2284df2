-- ===== src/Cache/Reads.antt =====
-- `DnsCache` as its callers see it.
use dns_security_dataplane.Base.{
  ℕ, ◌+◌, ◌*◌, ◌<◌, ◌≡◌, refl, ◌∙◌, ◌==◌, ltb, if◌then◌else◌, ◌&&◌, List, none, some, ok, bytes_Eq,
  arith,
}
use dns_security_dataplane.Base.Map.{find}
use dns_security_dataplane.Cache.Lifetime.{lifetime, clamp_ttl-lifetime}
use dns_security_dataplane.Cache.Under.{key_under, make_key-key_under}
use dns_security_dataplane.Cache.{Cache, CacheEntry, lookup, insert, new_cache}
use dns_security_dataplane.Cache.Valid.{IsValid}
use dns_security_dataplane.Cache.Methods.{current, LooksUp, lookup_key-LooksUp}
use dns_security_dataplane.Cache.Inserts.{Inserts, insert_key-Inserts}

pub new_cache-IsValid : (n : ℕ) → 0 < n → IsValid (new_cache n)
new_cache-IsValid n h = record {
  positive = h;
  bounded = omega arith;
  once = tt;
  nodes = tt;
  same = refl;
  forth = λ i k e. unfold find in cc;
  back = λ k d e. unfold find in cc;
  fresh = λ i k e. unfold find in cc;
}

-- A lookup in a valid cache returns the stored entry if that has not expired and bears the current
-- generation, and else nothing; it forgets the entry in the second case, keeps every other entry,
-- and leaves the cache valid.
pub lookup-LooksUp :
    (c : Cache) (qname : List ℕ) (qtype qclass generation now : ℕ)
    → IsValid c
    → LooksUp c
        (key_under qname qtype qclass)
        (current (find (key_under qname qtype qclass) c.table) generation now)
        (lookup c qname qtype qclass generation now)
unfolding lookup
lookup-LooksUp c qname qtype qclass generation now v =
    rw (make_key-key_under qname qtype qclass)
      (lookup_key-LooksUp c v (key_under qname qtype qclass) generation now)

-- An insertion into a valid cache stores the response under the question's name, type and class, with
-- its lifetime, clamped to 1 to 86400 seconds, and its generation; it loses no other entry but the
-- least recently used one, and that only for a new question in a full table; and it leaves the cache
-- valid.
pub insert-Inserts :
    (c : Cache) (qname : List ℕ) (qtype qclass : ℕ) (response : List ℕ) (ttl_sec generation now : ℕ)
    → IsValid c
    → Inserts
        (key_under qname qtype qclass)
        response
        (now + lifetime ttl_sec * 1_000_000_000)
        generation
        c
        (insert c qname qtype qclass response ttl_sec generation now)
unfolding insert
insert-Inserts c qname qtype qclass response ttl_sec generation now v =
    rw (make_key-key_under qname qtype qclass, clamp_ttl-lifetime ttl_sec)
      (insert_key-Inserts (key_under qname qtype qclass) response _ generation c v)

-- What a lookup behind an insertion into a valid cache gets: the response, if the lifetime has not
-- run out and the generation is still the one it was stored under, and else nothing.
pub lookup-insert :
    (c : Cache) (qname : List ℕ) (qtype qclass : ℕ) (response : List ℕ)
    (ttl_sec generation generation' now later : ℕ)
    → IsValid c
    → (c' c'' : Cache) × (e : CacheEntry) × (e.response ≡ response)
      × (insert c qname qtype qclass response ttl_sec generation now ≡ ok c')
      × (lookup c' qname qtype qclass generation' later
          ≡ ok (
            c'',
            (if ltb later (now + lifetime ttl_sec * 1_000_000_000) && generation == generation'
                then some e
                else none),
          ))
lookup-insert c qname qtype qclass response ttl_sec generation generation' now later v =
    let i = insert-Inserts c qname qtype qclass response ttl_sec generation now v in
    let l = lookup-LooksUp i.after qname qtype qclass generation' later i.valid in
    (
      i.after,
      l.after,
      i.entry,
      i.response_is,
      i.returns,
      l.returns ∙ rw (i.stored, i.expires_is, i.generation_is) refl,
    )
