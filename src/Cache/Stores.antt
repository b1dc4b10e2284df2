-- ===== src/Cache/Stores.antt =====
-- `insert` against the specification of Cache/Lru.
use dns_security_dataplane.Base.{
  ℕ, ◌≤◌, ◌<◌, ◌≡◌, refl, sym, ◌∙◌, inl, inr, leb, if◌then◌else◌, true, false, List, ◌∷◌, none,
  some, length, ok, nat_Eq, bytes_Eq, bytes_eq, bytes_eq_iff, arith, Bool-cases, Option-cases,
}
use dns_security_dataplane.Base.Map.{find, assign, erase, find-assign, find-assign_self, find-erase}
use dns_security_dataplane.Cache.{Cache, CacheEntry, insert_key, pop_back, make_room, push_entry}
use dns_security_dataplane.Cache.Order.{splice_front_ok, pop_back-some}
use dns_security_dataplane.Cache.Valid.{
  IsValid, without, without-IsValid, promoted-IsValid, updated-IsValid, length-without,
}
use dns_security_dataplane.Cache.Inserts.{pushed-IsValid}
use dns_security_dataplane.Cache.History.{Stored}
use dns_security_dataplane.Cache.Lru.{
  drop_last, store, stored_at, view, length-view, view-same, view-pop_back,
}
use dns_security_dataplane.Cache.Refines.{
  held, held-none, held-some, rest_of, held-without, held_updated,
}

module _ (key response : List ℕ) (expires_at generation : ℕ) where
  abbrev stored : Stored
  stored = record { response = response; expires_at = expires_at; policy_generation = generation }

  -- An insertion.
  pub record Writes (c : Cache) : Type 0 where
    pub after : Cache
    pub returns : insert_key c key response expires_at generation ≡ ok after
    pub valid : IsValid after
    pub capacity : after.max_entries ≡ c.max_entries
    pub refines : held after ≡ store c.max_entries key stored (held c)

  -- A new key goes in front of what is there.
  module _ (c : Cache) (v : IsValid c) (absent : find key c.table ≡ none) where
    other_key : (i : ℕ) (k : List ℕ) → find i c.lru_order ≡ some k → bytes_eq key k ≡ false
    other_key i k f = elim (Bool-cases (bytes_eq key k)) [
      | inr n ↦ n
      | inl same ↦
          let (e, g, l) = v.forth i k f in
          let k_is : key ≡ k = (bytes_eq_iff key k).0 same in
          let gone : find k c.table ≡ none = rw (← k_is) absent in absurd (cc (g, gone))
    ]

    held-push_entry :
        held (push_entry c key response expires_at generation) ≡ (key, stored) ∷ held c
    unfolding push_entry view
    held-push_entry =
        let d : CacheEntry = record {
          response = response;
          expires_at = expires_at;
          policy_generation = generation;
          lru_it = c.next_node;
        } in
        let first : stored_at key (assign key d c.table) ≡ stored =
          rw (find-assign_self key d c.table, stored_at) refl in
        let rest =
          view-same c.table (assign key d c.table) c.lru_order v.nodes
            (λ i k f. ground (arith, find-assign key k d c.table, other_key i k f)) in
        rw (first, rest) refl

  module _ (c : Cache) (v : IsValid c) where
    length-held : length (held c) ≡ length c.table
    length-held = length-view c.table c.lru_order ∙ sym v.same

    known_key : (e : CacheEntry) → find key c.table ≡ some e → Writes c
    unfolding insert_key store
    known_key e h =
        let e' = record e {
          response = response;
          expires_at = expires_at;
          policy_generation = generation;
        } in
        record {
          after = record c {
            table = assign key e' c.table;
            lru_order = (e.lru_it, key) ∷ erase e.lru_it c.lru_order;
          };
          returns =
              rw (h, insert_key) (rw (splice_front_ok c.lru_order e.lru_it key (v.back key e h)));
          valid = updated-IsValid _ (promoted-IsValid c v key e h) key e h e' refl;
          capacity = refl;
          refines = rw (held-some c v key e h, store) (held_updated c v key e h e');
        }

    -- After the eviction, if there was one.
    after_room :
        (c' : Cache)
        → find key c.table ≡ none
        → make_room c ≡ ok c'
        → (v' : IsValid c') → c'.max_entries ≡ c.max_entries
        → length c'.table < c'.max_entries
        → find key c'.table ≡ none
        → held c' ≡ (if leb c.max_entries (length c.table) then drop_last (held c) else held c)
        → Writes c
    unfolding insert_key store
    after_room c' absent made v' cap room gone kept = record {
      after = push_entry c' key response expires_at generation;
      returns = rw (absent, insert_key) (rw made);
      valid = pushed-IsValid key response expires_at generation c' v' gone room;
      capacity = unfold push_entry in cap;
      refines =
          held-push_entry c' v' gone
          ∙ rw (held-none c v key absent, store) (rw (length-held, kept) (ground (arith)));
    }

    with_room : find key c.table ≡ none → length c.table < c.max_entries → Writes c
    with_room absent room =
        let open_ : leb c.max_entries (length c.table) ≡ false = ground arith in
        after_room c absent (unfold make_room in rw open_) v refl room absent (rw open_ refl)

    with_eviction :
        (it : ℕ) (old : List ℕ)
        → find key c.table ≡ none
        → c.max_entries ≤ length c.table
        → find it c.lru_order ≡ some old
        → pop_back c.lru_order ≡ ok (old, erase it c.lru_order)
        → Writes c
    with_eviction it old absent full at_back popped =
        let (e, there, l) = v.forth it old at_back in
        let shut : leb c.max_entries (length c.table) ≡ true = ground arith in
        let v' : IsValid (without c old it) = rw (← l) (without-IsValid c v old e there) in
        let kept : held (without c old it) ≡ drop_last (held c) =
          rw (← l) (held-without c v old e there ∙ sym (rest_of c v old e there))
          ∙ view-pop_back c.table c.lru_order (erase it c.lru_order) old popped in
        after_room (without c old it) absent (unfold make_room in rw (shut, popped)) v' refl
          (omega (arith, length-without c v old e there, v.bounded))
          (ground (arith, find-erase old key c.table)) (rw shut kept)

    pub insert_key-Writes : Writes c
    insert_key-Writes = elim (Option-cases (find key c.table)) [
      | inr (e, there) ↦ known_key e there
      | inl absent ↦ elim (Bool-cases (leb c.max_entries (length c.table))) [
        | inr room ↦ with_room absent (ground arith)
        | inl full ↦
            let h : c.max_entries ≤ length c.table = ground arith in
            let (it, old, at_back, popped) =
              pop_back-some c.lru_order v.nodes (omega (arith, v.same, v.positive)) in
            with_eviction it old absent h at_back popped
      ]
    ]
