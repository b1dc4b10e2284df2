-- ===== src/Cache/History.antt =====
-- Every answer of the cache goes back to an insertion.
use dns_security_dataplane.Base.{
  ℕ, ◌+◌, ◌*◌, ◌≤◌, ◌<◌, ◌≡◌, refl, ◌∙◌, inl, inr, if◌then◌else◌, List, [], ◌∷◌, Option, none, some,
  Result, ok, ◌>>=◌, bytes_Eq, bytes_eq, bytes_eq_iff, arith, Bool-cases, length,
}
use dns_security_dataplane.Base.Map.{find}
use dns_security_dataplane.Cache.Lifetime.{lifetime}
use dns_security_dataplane.Cache.Under.{key_under}
use dns_security_dataplane.Cache.{Cache, CacheEntry, lookup, insert, new_cache}
use dns_security_dataplane.Cache.Valid.{IsValid}
use dns_security_dataplane.Cache.Methods.{current, LooksUp}
use dns_security_dataplane.Cache.Inserts.{Inserts}
use dns_security_dataplane.Cache.Reads.{lookup-LooksUp, insert-Inserts, new_cache-IsValid}

pub record Question : Type 0 where
  pub qname : List ℕ
  pub qtype : ℕ
  pub qclass : ℕ

abbrev pub key_of : Question → List ℕ
key_of q = key_under q.qname q.qtype q.qclass

pub data Call : Type 0 where
  look : Question → ℕ → ℕ → Call
  put : Question → List ℕ → ℕ → ℕ → ℕ → Call

-- One call after the other, their results dropped.
unfoldable pub run : List Call → Cache → Result Cache
run [] c = ok c
run (look q generation now ∷ calls) c = do
  (c', o) ← lookup c q.qname q.qtype q.qclass generation now
  run calls c'
run (put q response ttl_sec generation now ∷ calls) c = do
  c' ← insert c q.qname q.qtype q.qclass response ttl_sec generation now
  run calls c'

-- What an insertion says of its question.
pub record Stored : Type 0 where
  pub response : List ℕ
  pub expires_at : ℕ
  pub policy_generation : ℕ

abbrev pub payload : CacheEntry → Stored
payload e = record {
  response = e.response;
  expires_at = e.expires_at;
  policy_generation = e.policy_generation;
}

abbrev pub noted : Question → Stored → (List ℕ → Option Stored) → List ℕ → Option Stored
noted q stored h k = if bytes_eq (key_of q) k then some stored else h k

-- The specification: a table that forgets nothing, with the last insertion for each key.
unfoldable pub note : (List ℕ → Option Stored) → List Call → List ℕ → Option Stored
note h [] = h
note h (look q generation now ∷ calls) = note h calls
note h (put q response ttl_sec generation now ∷ calls) =
    note
      (noted q
        (record {
          response = response;
          expires_at = now + lifetime ttl_sec * 1_000_000_000;
          policy_generation = generation;
        })
        h)
      calls

pub record Backed (size : ℕ) (c : Cache) (h : List ℕ → Option Stored) : Type 0 where
  pub valid : IsValid c
  pub capacity : c.max_entries ≡ size
  pub entries : (k : List ℕ) (e : CacheEntry) → find k c.table ≡ some e → h k ≡ some (payload e)

current-some :
    (o : Option CacheEntry) (generation now : ℕ) (e : CacheEntry)
    → current o generation now ≡ some e
    → (o ≡ some e) × (now < e.expires_at) × (e.policy_generation ≡ generation)
current-some none generation now e h = cc
current-some (some d) generation now e h = ground arith

LooksUp-Backed :
    (size : ℕ) (c : Cache) (h : List ℕ → Option Stored) (key : List ℕ) (generation now : ℕ)
    {r : Result (Cache × Option CacheEntry)}
    → Backed size c h
    → (l : LooksUp c key (current (find key c.table) generation now) r) → Backed size l.after h
LooksUp-Backed size c h key generation now b l = record {
  valid = l.valid;
  capacity = l.capacity ∙ b.capacity;
  entries = λ k e f. elim (Bool-cases (bytes_eq key k)) [
    | inl this ↦
        let o : current (find key c.table) generation now ≡ some e =
          ground (arith, l.entries k, f) in
        let same : key ≡ k = (bytes_eq_iff key k).0 this in
        b.entries k e (rw (← same) (current-some (find key c.table) generation now e o).0)
    | inr other ↦ b.entries k e (ground (arith, l.entries k, f))
  ];
}

Inserts-Backed :
    (size : ℕ) (c : Cache) (h : List ℕ → Option Stored) (q : Question) (stored : Stored)
    {r : Result Cache}
    → Backed size c h
    → (i : Inserts (key_of q) stored.response stored.expires_at stored.policy_generation c r)
    → Backed size i.after (noted q stored h)
Inserts-Backed size c h q stored b i = record {
  valid = i.valid;
  capacity = i.capacity ∙ b.capacity;
  entries = λ k e f. elim (Bool-cases (bytes_eq (key_of q) k)) [
    | inl this ↦
        let same : key_of q ≡ k = (bytes_eq_iff (key_of q) k).0 this in
        let found : find k i.after.table ≡ some i.entry = rw (← same) i.stored in
        rw this (ground (arith, found, f, i.response_is, i.expires_is, i.generation_is))
    | inr other ↦ rw other (b.entries k e (ground (arith, i.others k other, f)))
  ];
}

run-Backed :
    (size : ℕ) (calls : List Call) (c : Cache) (h : List ℕ → Option Stored)
    → Backed size c h
    → (c' : Cache) × (run calls c ≡ ok c') × Backed size c' (note h calls)
unfolding run note
run-Backed size [] c h b = (c, refl, b)
run-Backed size (look q generation now ∷ calls) c h b =
    let l = lookup-LooksUp c q.qname q.qtype q.qclass generation now b.valid in
    let (c', e, b') =
      run-Backed size calls l.after h (LooksUp-Backed size c h (key_of q) generation now b l) in
    (c', rw l.returns e, b')
run-Backed size (put q response ttl_sec generation now ∷ calls) c h b =
    let i = insert-Inserts c q.qname q.qtype q.qclass response ttl_sec generation now b.valid in
    let stored : Stored = record {
      response = response;
      expires_at = now + lifetime ttl_sec * 1_000_000_000;
      policy_generation = generation;
    } in
    let (c', e, b') =
      run-Backed size calls i.after (noted q stored h) (Inserts-Backed size c h q stored b i) in
    (c', rw i.returns e, b')

-- From an empty cache with room for one entry at least, any sequence of lookups and insertions runs
-- without a dangling iterator and keeps the cache valid and within its size; and whatever a lookup
-- then returns was stored by the last insertion for exactly that name, type and class, has not
-- expired, and bears the generation that was asked for.
pub run-note :
    (calls : List Call) (size : ℕ)
    → 0 < size
    → (c : Cache) × (run calls (new_cache size) ≡ ok c)
      × IsValid c
      × (length c.table ≤ size)
      × ((q : Question) (generation now : ℕ) (c' : Cache) (e : CacheEntry)
          → lookup c q.qname q.qtype q.qclass generation now ≡ ok (c', some e)
          → (note (λ _. none) calls (key_of q) ≡ some (payload e))
            × (now < e.expires_at)
            × (e.policy_generation ≡ generation))
run-note calls size positive =
    let empty : Backed size (new_cache size) (λ _. none) = record {
      valid = new_cache-IsValid size positive;
      capacity = refl;
      entries = λ k e f. unfold find in cc;
    } in
    let (c, ran, b) = run-Backed size calls (new_cache size) (λ _. none) empty in
    (
      c,
      ran,
      b.valid,
      omega (arith, b.capacity, b.valid.bounded),
      λ q generation now c' e h.
          let l = lookup-LooksUp c q.qname q.qtype q.qclass generation now b.valid in
          let o : current (find (key_of q) c.table) generation now ≡ some e =
            ground (arith, l.returns, h) in
          let (held, fresh, same) = current-some (find (key_of q) c.table) generation now e o in
          (b.entries (key_of q) e held, fresh, same),
    )
