-- ===== src/Cache/Answers.antt =====
-- Whole runs of `lookup` and `insert` against the specification of Cache/Lru.
use dns_security_dataplane.Base.{
  ℕ, bytes_Eq, ◌+◌, ◌*◌, ◌<◌, ◌≡◌, refl, ap, ◌∙◌, List, [], ◌∷◌, Option, Result, ok, ◌>>=◌,
}
use dns_security_dataplane.Cache.Lifetime.{lifetime, clamp_ttl-lifetime}
use dns_security_dataplane.Cache.{Cache, make_key, lookup, insert, new_cache}
use dns_security_dataplane.Cache.Valid.{IsValid}
use dns_security_dataplane.Cache.Reads.{new_cache-IsValid}
use dns_security_dataplane.Cache.History.{Stored, Question, Call, look, put, key_of}
use dns_security_dataplane.Cache.Questions.{question_Eq, keyed, look_up-keyed, store-keyed}
use dns_security_dataplane.Cache.Lru.{Held, look_up, store, view}
use dns_security_dataplane.Cache.Refines.{held, payload_of, lookup_key-Reads}
use dns_security_dataplane.Cache.Stores.{insert_key-Writes}

-- The cache behind the calls, and what the lookups among them returned.
unfoldable pub answers : List Call → Cache → Result (Cache × List (Option Stored))
answers [] c = ok (c, [])
answers (look q generation now ∷ calls) c = do
  (c', o) ← lookup c q.qname q.qtype q.qclass generation now
  (c'', os) ← answers calls c'
  ok (c'', payload_of o ∷ os)
answers (put q response ttl_sec generation now ∷ calls) c = do
  c' ← insert c q.qname q.qtype q.qclass response ttl_sec generation now
  answers calls c'

-- The same calls on the specification by keys.
unfoldable by_key : ℕ → List Call → Held → Held × List (Option Stored)
by_key size [] held = (held, [])
by_key size (look q generation now ∷ calls) held =
    let (held', o) = look_up (key_of q) generation now held in
    let (held'', os) = by_key size calls held' in (held'', o ∷ os)
by_key size (put q response ttl_sec generation now ∷ calls) held = by_key size calls (
    store size (key_of q)
      (record {
        response = response;
        expires_at = now + lifetime ttl_sec * 1_000_000_000;
        policy_generation = generation;
      })
      held)

-- The same calls on the specification, with room for `size` entries, by questions.
unfoldable pub ideal :
    ℕ → List Call → List (Question × Stored) → List (Question × Stored) × List (Option Stored)
ideal size [] known = (known, [])
ideal size (look q generation now ∷ calls) known =
    let (known', o) = look_up q generation now known in
    let (known'', os) = ideal size calls known' in (known'', o ∷ os)
ideal size (put q response ttl_sec generation now ∷ calls) known = ideal size calls (
    store size q
      (record {
        response = response;
        expires_at = now + lifetime ttl_sec * 1_000_000_000;
        policy_generation = generation;
      })
      known)

by_key-keyed :
    (size : ℕ) (calls : List Call) (known : List (Question × Stored))
    → by_key size calls (keyed known)
      ≡ (keyed (ideal size calls known).0, (ideal size calls known).1)
unfolding by_key ideal
by_key-keyed size [] known = refl
by_key-keyed size (look q generation now ∷ calls) known =
    let first = look_up-keyed q generation now known in
    let rest = by_key-keyed size calls (look_up q generation now known).0 in rw (first, rest) refl
by_key-keyed size (put q response ttl_sec generation now ∷ calls) known =
    let stored : Stored = record {
      response = response;
      expires_at = now + lifetime ttl_sec * 1_000_000_000;
      policy_generation = generation;
    } in
    rw (store-keyed size q stored known) (by_key-keyed size calls (store size q stored known))

answers-held :
    (size : ℕ) (calls : List Call) (c : Cache)
    → IsValid c
    → c.max_entries ≡ size
    → (c' : Cache) × (answers calls c ≡ ok (c', (by_key size calls (held c)).1))
      × (held c' ≡ (by_key size calls (held c)).0)
unfolding answers by_key lookup insert make_key
answers-held size [] c v room = (c, refl, refl)
answers-held size (look q generation now ∷ calls) c v room =
    let r = lookup_key-Reads c v (key_of q) generation now in
    let (c', ran, left) = answers-held size calls r.after r.valid (r.capacity ∙ room) in
    let after = ap (λ x. x.0) r.refines in
    let answer = ap (λ x. x.1) r.refines in
    (c', rw r.returns (rw ran (rw (after, answer) refl)), rw (← after) left)
answers-held size (put q response ttl_sec generation now ∷ calls) c v room =
    let stored : Stored = record {
      response = response;
      expires_at = now + lifetime ttl_sec * 1_000_000_000;
      policy_generation = generation;
    } in
    let w = insert_key-Writes (key_of q) response stored.expires_at generation c v in
    let (c', ran, left) = answers-held size calls w.after w.valid (w.capacity ∙ room) in
    let after : held w.after ≡ store size (key_of q) stored (held c) =
      w.refines ∙ ap (λ n. store n (key_of q) stored (held c)) room in
    let (is_held, is_answer) : (held c'
          ≡ (by_key size calls (store size (key_of q) stored (held c))).0)
        × (answers calls w.after
            ≡ ok (c', (by_key size calls (store size (key_of q) stored (held c))).1)) =
      rw (← after) (left, ran) in
    let clamped = clamp_ttl-lifetime ttl_sec in (c', rw (clamped, w.returns) is_answer, is_held)

-- A cache that starts empty, with room for one entry at least, is a list of the stored answers, the
-- most recently used first: a read answers with the entry for exactly that name, type and class, if
-- it has not expired and bears the generation, and moves it to the front, and takes out an entry
-- that is stale; a write puts its entry first and, if the question is new and the list full, drops
-- the last. Every sequence of lookups and insertions gives the answers of that list, and what the
-- cache then holds is that list.
pub answers-ideal :
    (calls : List Call) (size : ℕ)
    → 0 < size
    → (c : Cache) × (answers calls (new_cache size) ≡ ok (c, (ideal size calls []).1))
      × (held c ≡ keyed (ideal size calls []).0)
unfolding view keyed
answers-ideal calls size positive =
    let (c, ran, left) =
      answers-held size calls (new_cache size) (new_cache-IsValid size positive) refl in
    let same = by_key-keyed size calls [] in (c, rw same at ran, rw same at left)
