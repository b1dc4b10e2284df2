-- ===== src/Cache/Inserts.antt =====
-- What `insert` does to a valid cache.
use dns_security_dataplane.Base.{
  ℕ, ◌≤◌, ◌<◌, ◌≡◌, refl, inl, inr, ◌==◌, ==_iff, leb, if◌then◌else◌, Bool, true, false, List, ◌∷◌,
  Option, none, some, length, Result, ok, nat_Eq, bytes_Eq, bytes_eq, bytes_eq_iff, arith,
  Bool-cases, Option-cases,
}
use dns_security_dataplane.Base.Map.{
  find, assign, erase, find-erase, find-assign, assign-IsMap, length-assign_new,
}
use dns_security_dataplane.Cache.{Cache, CacheEntry, pop_back, make_room, push_entry, insert_key}
use dns_security_dataplane.Cache.Order.{splice_front_ok, last_key, last_key-pop_back, pop_back-some}
use dns_security_dataplane.Cache.Valid.{
  IsValid, without, without-IsValid, promoted-IsValid, updated-IsValid, length-without,
}

-- The key that an insertion has to evict: the last of the order, if the key is new and the table
-- is full.
unfoldable pub victim : Cache → List ℕ → Option (List ℕ)
victim c key = elim (find key c.table) [
  | some e ↦ none
  | none ↦ if leb c.max_entries (length c.table) then last_key c.lru_order else none
]

abbrev pub is_victim : Option (List ℕ) → List ℕ → Bool
is_victim none k = false
is_victim (some v) k = bytes_eq v k

module _ (key response : List ℕ) (expires_at generation : ℕ) where
  -- The entry that is stored holds what was given; every other key but the victim keeps its entry.
  pub record Inserts (c : Cache) (r : Result Cache) : Type 0 where
    pub after : Cache
    pub returns : r ≡ ok after
    pub valid : IsValid after
    pub capacity : after.max_entries ≡ c.max_entries
    pub entry : CacheEntry
    pub stored : find key after.table ≡ some entry
    pub response_is : entry.response ≡ response
    pub expires_is : entry.expires_at ≡ expires_at
    pub generation_is : entry.policy_generation ≡ generation
    pub others :
        (k : List ℕ)
        → bytes_eq key k ≡ false
        → find k after.table ≡ (if is_victim (victim c key) k then none else find k c.table)

  -- A new key in a table with room.
  module _ (c : Cache) (v : IsValid c) (absent : find key c.table ≡ none)
      (room : length c.table < c.max_entries) where
    abbrev pushed : Cache
    pushed = push_entry c key response expires_at generation

    abbrev new_entry : CacheEntry
    new_entry = record {
      response = response;
      expires_at = expires_at;
      policy_generation = generation;
      lru_it = c.next_node;
    }

    unused : (k : List ℕ) → find c.next_node c.lru_order ≡ some k → ⊥
    unused k h = omega (arith, v.fresh c.next_node k h)

    no_node : find c.next_node c.lru_order ≡ none
    no_node = elim (Option-cases (find c.next_node c.lru_order)) [
      | inl h ↦ h
      | inr (k, h) ↦ absurd (unused k h)
    ]

    pushed_forth :
        (i : ℕ) (k : List ℕ)
        → find i pushed.lru_order ≡ some k
        → (d : CacheEntry) × (find k pushed.table ≡ some d) × (d.lru_it ≡ i)
    unfolding push_entry find
    pushed_forth i k h = elim (Bool-cases (c.next_node == i)) [
      | inl this ↦ (
        new_entry,
        ground (arith, find-assign key k new_entry c.table, bytes_eq_iff key k),
        ground (arith),
      )
      | inr other ↦
          let (d, f, l) = v.forth i k (ground arith) in
          (d, ground (arith, find-assign key k new_entry c.table, bytes_eq_iff key k, f, absent), l)
    ]

    pushed_back :
        (k : List ℕ) (d : CacheEntry)
        → find k pushed.table ≡ some d
        → find d.lru_it pushed.lru_order ≡ some k
    unfolding push_entry find
    pushed_back k d h = elim (Bool-cases (bytes_eq key k)) [
      | inl this ↦ ground (
        arith,
        find-assign key k new_entry c.table,
        bytes_eq_iff key k,
        ==_iff c.next_node c.next_node,
      )
      | inr other ↦
          let here : find k c.table ≡ some d =
            ground (arith, find-assign key k new_entry c.table) in
          ground (
            arith,
            v.back k d here,
            ==_iff c.next_node d.lru_it,
            v.fresh d.lru_it k (v.back k d here),
          )
    ]

    pushed_fresh : (i : ℕ) (k : List ℕ) → find i pushed.lru_order ≡ some k → i < pushed.next_node
    unfolding push_entry find
    pushed_fresh i k h = elim (Bool-cases (c.next_node == i)) [
      | inl this ↦ ground arith
      | inr other ↦ let below = v.fresh i k (ground arith) in omega (arith, below)
    ]

    pub pushed-IsValid : IsValid pushed
    unfolding push_entry
    pushed-IsValid = record {
      positive = v.positive;
      bounded = omega (arith, length-assign_new key new_entry c.table absent);
      once = assign-IsMap key new_entry c.table v.once;
      nodes = (no_node, v.nodes);
      same = omega (arith, length-assign_new key new_entry c.table absent, v.same);
      forth = pushed_forth;
      back = pushed_back;
      fresh = pushed_fresh;
    }

    find-pushed :
        (k : List ℕ)
        → find k pushed.table ≡ (if bytes_eq key k then some new_entry else find k c.table)
    unfolding push_entry
    find-pushed k = find-assign key k new_entry c.table

  module _ (c : Cache) (v : IsValid c) where
    insert_old :
        (e : CacheEntry)
        → find key c.table ≡ some e
        → Inserts c (insert_key c key response expires_at generation)
    unfolding insert_key victim
    insert_old e h =
        let e' = record e {
          response = response;
          expires_at = expires_at;
          policy_generation = generation;
        } in
        record {
          after = record c {
            table = assign key e' c.table;
            lru_order = (e.lru_it, key) ∷ erase e.lru_it c.lru_order;
          };
          returns =
              rw (h, insert_key) (rw (splice_front_ok c.lru_order e.lru_it key (v.back key e h)));
          valid = updated-IsValid _ (promoted-IsValid c v key e h) key e h e' refl;
          capacity = refl;
          entry = e';
          stored = ground (arith, find-assign key key e' c.table, bytes_eq_iff key key);
          response_is = refl;
          expires_is = refl;
          generation_is = refl;
          others = λ k n. rw (h, victim) (ground (arith, find-assign key k e' c.table));
        }

    insert_new :
        (c' : Cache)
        → find key c.table ≡ none
        → make_room c ≡ ok c'
        → (v' : IsValid c') → c'.max_entries ≡ c.max_entries
        → length c'.table < c'.max_entries
        → ((k : List ℕ)
            → find k c'.table ≡ (if is_victim (victim c key) k then none else find k c.table))
        → Inserts c (insert_key c key response expires_at generation)
    unfolding insert_key
    insert_new c' absent made v' cap room rest =
        let gone : find key c'.table ≡ none = ground (arith, rest key) in
        record {
          after = push_entry c' key response expires_at generation;
          returns = rw (absent, insert_key) (rw made);
          valid = pushed-IsValid c' v' gone room;
          capacity = unfold push_entry in cap;
          entry = new_entry c' v' gone room;
          stored = ground (arith, find-pushed c' v' gone room key, bytes_eq_iff key key);
          response_is = refl;
          expires_is = refl;
          generation_is = refl;
          others = λ k n. ground (arith, find-pushed c' v' gone room k, rest k);
        }

    insert_room :
        find key c.table ≡ none
        → length c.table < c.max_entries
        → Inserts c (insert_key c key response expires_at generation)
    insert_room absent room =
        let open_ : leb c.max_entries (length c.table) ≡ false = ground arith in
        insert_new c absent (unfold make_room in rw open_) v refl room
          (λ k. unfold victim in rw (absent, victim) (rw open_))

    evict :
        (it : ℕ) (old : List ℕ)
        → find key c.table ≡ none
        → c.max_entries ≤ length c.table
        → find it c.lru_order ≡ some old
        → pop_back c.lru_order ≡ ok (old, erase it c.lru_order)
        → Inserts c (insert_key c key response expires_at generation)
    evict it old absent full at_back popped =
        let (e, held, l) = v.forth it old at_back in
        let shut : leb c.max_entries (length c.table) ≡ true = ground arith in
        let is_last = last_key-pop_back c.lru_order _ old popped in
        let v' : IsValid (without c old it) = rw (← l) (without-IsValid c v old e held) in
        insert_new (without c old it) absent (unfold make_room in rw (shut, popped)) v' refl
          (omega (arith, length-without c v old e held, v.bounded))
          (λ k.
            unfold victim in rw (absent, victim) (rw (shut, is_last) (find-erase old k c.table)))

    -- An insertion into a valid cache stores the entry, and evicts only the least recently used key.
    pub insert_key-Inserts : Inserts c (insert_key c key response expires_at generation)
    insert_key-Inserts = elim (Option-cases (find key c.table)) [
      | inr (e, held) ↦ insert_old e held
      | inl absent ↦ elim (Bool-cases (leb c.max_entries (length c.table))) [
        | inr room ↦ insert_room absent (ground arith)
        | inl full ↦
            let h : c.max_entries ≤ length c.table = ground arith in
            let (it, old, at_back, popped) =
              pop_back-some c.lru_order v.nodes (omega (arith, v.same, v.positive)) in
            evict it old absent h at_back popped
      ]
    ]
