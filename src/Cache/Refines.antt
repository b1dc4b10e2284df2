-- ===== src/Cache/Refines.antt =====
-- `lookup` against the specification of Cache/Lru.
use dns_security_dataplane.Base.{
  ℕ, ◌≡◌, ◌≢◌, refl, sym, ap, ◌∙◌, inl, inr, ==_iff, true, false, List, ◌∷◌, Option, none, some, ok,
  nat_Eq, bytes_Eq, bytes_eq, bytes_eq_iff, arith, Bool-cases, Option-cases,
}
use dns_security_dataplane.Base.Map.{
  find, assign, erase, find-erase, find-assign, find-assign_self, erase-IsMap,
}
use dns_security_dataplane.Cache.{Cache, CacheEntry, lookup_key}
use dns_security_dataplane.Cache.Order.{splice_front_ok}
use dns_security_dataplane.Cache.Valid.{
  IsValid, without, drop_entry_ok, without-IsValid, promoted-IsValid,
}
use dns_security_dataplane.Cache.History.{Stored, payload}
use dns_security_dataplane.Cache.Lru.{
  Held, is_current, look_up, stored_at, view, find-view-some, find-view-none, view-erase, view-same,
}

abbrev pub held : Cache → Held
held c = view c.table c.lru_order

abbrev pub payload_of : Option CacheEntry → Option Stored
payload_of none = none
payload_of (some e) = some (payload e)

module _ (c : Cache) (v : IsValid c) (key : List ℕ) where
  pub held-none : find key c.table ≡ none → find key (held c) ≡ none
  held-none h =
      find-view-none c.table c.lru_order key v.nodes
        (λ i f. let (e, g, _) = v.forth i key f in cc (h, g))

  module _ (e : CacheEntry) (there : find key c.table ≡ some e) where
    stored_there : stored_at key c.table ≡ payload e
    stored_there = rw (there, stored_at) refl

    pub held-some : find key (held c) ≡ some (payload e)
    held-some =
        find-view-some c.table c.lru_order e.lru_it key (v.back key e there) ∙ ap some stored_there

    only_node : (i : ℕ) → find i c.lru_order ≡ some key → i ≡ e.lru_it
    only_node i f =
        let (d, g, l) = v.forth i key f in
        let same : d ≡ e = cc (g, there) in sym l ∙ ap (λ x. x.lru_it) same

    only_key : (k : List ℕ) → find e.lru_it c.lru_order ≡ some k → k ≡ key
    only_key k f = cc (f, v.back key e there)

    -- The list without the node.
    pub rest_of : view c.table (erase e.lru_it c.lru_order) ≡ erase key (held c)
    rest_of = view-erase c.table c.lru_order e.lru_it key v.nodes only_node only_key

    -- Its keys are other keys.
    other_key :
        (i : ℕ) (k : List ℕ) → find i (erase e.lru_it c.lru_order) ≡ some k → bytes_eq key k ≡ false
    other_key i k f = elim (Bool-cases (bytes_eq key k)) [
      | inr n ↦ n
      | inl same ↦
          let here : (e.lru_it ≢ i) × (find i c.lru_order ≡ some k) =
            ground (arith, find-erase e.lru_it i c.lru_order, ==_iff e.lru_it i) in
          let k_is : key ≡ k = (bytes_eq_iff key k).0 same in
          absurd (here.0 (sym (only_node i (here.1 ∙ ap some (sym k_is)))))
    ]

    -- The rest shows the same through any table that differs at the key only.
    rest_through :
        (table : List (List ℕ × CacheEntry))
        → ((k : List ℕ) → bytes_eq key k ≡ false → find k table ≡ find k c.table)
        → view table (erase e.lru_it c.lru_order) ≡ erase key (held c)
    rest_through table same =
        view-same c.table table (erase e.lru_it c.lru_order)
          (erase-IsMap e.lru_it c.lru_order v.nodes) (λ i k f. same k (other_key i k f))
        ∙ rest_of

    pub held-without : held (without c key e.lru_it) ≡ erase key (held c)
    held-without =
        rest_through (erase key c.table) (λ k n. ground (arith, find-erase key k c.table))

    held_promoted :
        held (record c { lru_order = (e.lru_it, key) ∷ erase e.lru_it c.lru_order })
        ≡ (key, payload e) ∷ erase key (held c)
    unfolding view
    held_promoted = rw (stored_there, rest_of) refl

    pub held_updated :
        (d : CacheEntry)
        → held (record c {
          table = assign key d c.table;
          lru_order = (e.lru_it, key) ∷ erase e.lru_it c.lru_order;
        })
          ≡ (key, payload d) ∷ erase key (held c)
    unfolding view
    held_updated d =
        let rest =
          rest_through (assign key d c.table)
            (λ k n. ground (arith, find-assign key k d c.table)) in
        let first : stored_at key (assign key d c.table) ≡ payload d =
          rw (find-assign_self key d c.table, stored_at) refl in
        rw (first, rest) refl

  -- A lookup.
  pub record Reads (generation now : ℕ) : Type 0 where
    pub after : Cache
    pub answer : Option CacheEntry
    pub returns : lookup_key c key generation now ≡ ok (after, answer)
    pub valid : IsValid after
    pub capacity : after.max_entries ≡ c.max_entries
    pub refines : (held after, payload_of answer) ≡ look_up key generation now (held c)

  module _ (generation now : ℕ) where
    missed : find key c.table ≡ none → Reads generation now
    unfolding lookup_key look_up
    missed h = record {
      after = c;
      answer = none;
      returns = rw (h, lookup_key);
      valid = v;
      capacity = refl;
      refines = rw (held-none h, look_up) refl;
    }

    stale_entry :
        (e : CacheEntry)
        → find key c.table ≡ some e
        → is_current (payload e) generation now ≡ false
        → Reads generation now
    unfolding lookup_key look_up
    stale_entry e h stale = record {
      after = without c key e.lru_it;
      answer = none;
      returns = rw (h, lookup_key) (ground (arith, drop_entry_ok c v key e h));
      valid = without-IsValid c v key e h;
      capacity = refl;
      refines = rw (held-some e h, look_up) (rw (stale, held-without e h) refl);
    }

    promoted_entry :
        (e : CacheEntry)
        → find key c.table ≡ some e
        → is_current (payload e) generation now ≡ true
        → Reads generation now
    unfolding lookup_key look_up
    promoted_entry e h fresh = record {
      after = record c { lru_order = (e.lru_it, key) ∷ erase e.lru_it c.lru_order };
      answer = some e;
      returns =
          rw (h, lookup_key)
            (ground (arith, splice_front_ok c.lru_order e.lru_it key (v.back key e h)));
      valid = promoted-IsValid c v key e h;
      capacity = refl;
      refines = rw (held-some e h, look_up) (rw (fresh, held_promoted e h) refl);
    }

    pub lookup_key-Reads : Reads generation now
    lookup_key-Reads = elim (Option-cases (find key c.table)) [
      | inl h ↦ missed h
      | inr (e, h) ↦ elim (Bool-cases (is_current (payload e) generation now)) [
        | inl fresh ↦ promoted_entry e h fresh
        | inr stale ↦ stale_entry e h stale
      ]
    ]
