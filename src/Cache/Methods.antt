-- ===== src/Cache/Methods.antt =====
-- What `lookup` and `insert` do to a valid cache.
use dns_security_dataplane.Base.{
  ℕ, ◌≡◌, refl, inl, inr, ◌==◌, ltb, if◌then◌else◌, true, false, ◌&&◌, List, ◌∷◌, Option, none,
  some, Result, ok, nat_Eq, bytes_Eq, bytes_eq, bytes_eq_iff, arith, Bool-cases, Option-cases,
}
use dns_security_dataplane.Base.Map.{find, erase, find-erase}
use dns_security_dataplane.Cache.{Cache, CacheEntry, lookup_key}
use dns_security_dataplane.Cache.Order.{splice_front_ok}
use dns_security_dataplane.Cache.Valid.{
  IsValid, without, without-IsValid, promoted-IsValid, drop_entry_ok,
}

-- The specification of a read: the stored entry, if it has not expired and bears the generation.
abbrev pub current : Option CacheEntry → ℕ → ℕ → Option CacheEntry
current none generation now = none
current (some e) generation now =
    if ltb now e.expires_at && e.policy_generation == generation then some e else none

-- What a lookup leaves and returns.
pub record LooksUp (c : Cache) (key : List ℕ) (o : Option CacheEntry)
    (r : Result (Cache × Option CacheEntry)) : Type 0 where
  pub after : Cache
  pub returns : r ≡ ok (after, o)
  pub valid : IsValid after
  pub capacity : after.max_entries ≡ c.max_entries
  pub entries : (k : List ℕ) → find k after.table ≡ (if bytes_eq key k then o else find k c.table)

module _ (c : Cache) (v : IsValid c) (key : List ℕ) (generation now : ℕ) where
  lookup_miss : find key c.table ≡ none → LooksUp c key none (lookup_key c key generation now)
  unfolding lookup_key
  lookup_miss h = record {
    after = c;
    returns = rw (h, lookup_key);
    valid = v;
    capacity = refl;
    entries = λ k. ground (arith, bytes_eq_iff key k, h);
  }

  lookup_stale :
      (e : CacheEntry)
      → find key c.table ≡ some e
      → (ltb now e.expires_at && e.policy_generation == generation) ≡ false
      → LooksUp c key none (lookup_key c key generation now)
  unfolding lookup_key
  lookup_stale e h s = record {
    after = without c key e.lru_it;
    returns = rw (h, lookup_key) (ground (arith, drop_entry_ok c v key e h));
    valid = without-IsValid c v key e h;
    capacity = refl;
    entries = λ k. find-erase key k c.table;
  }

  lookup_hit :
      (e : CacheEntry)
      → find key c.table ≡ some e
      → (ltb now e.expires_at && e.policy_generation == generation) ≡ true
      → LooksUp c key (some e) (lookup_key c key generation now)
  unfolding lookup_key
  lookup_hit e h s = record {
    after = record c { lru_order = (e.lru_it, key) ∷ erase e.lru_it c.lru_order };
    returns =
        rw (h, lookup_key)
          (ground (arith, splice_front_ok c.lru_order e.lru_it key (v.back key e h)));
    valid = promoted-IsValid c v key e h;
    capacity = refl;
    entries = λ k. ground (arith, bytes_eq_iff key k, h);
  }

  pub lookup_key-LooksUp :
      LooksUp c key (current (find key c.table) generation now) (lookup_key c key generation now)
  lookup_key-LooksUp = elim (Option-cases (find key c.table)) [
    | inl h ↦ rw h (lookup_miss h)
    | inr (e, h) ↦
        rw h (elim (Bool-cases (ltb now e.expires_at && e.policy_generation == generation)) [
          | inl fresh ↦ rw fresh (lookup_hit e h fresh)
          | inr stale ↦ rw stale (lookup_stale e h stale)
        ])
  ]
