-- ===== src/Cache/Valid.antt =====
-- The two containers stay linked: every method keeps the invariant, and no iterator dangles.
use dns_security_dataplane.Base.{
  ℕ, ◌+◌, ◌≤◌, ◌<◌, ◌≡◌, sym, ◌∙◌, inl, inr, ◌==◌, List, ◌∷◌, none, some, length, ok, nat_Eq,
  bytes_Eq, bytes_eq, bytes_eq_iff, arith, Bool-cases,
}
use dns_security_dataplane.Base.Map.{
  find, assign, erase, IsMap, find-erase, find-assign, erase-IsMap, assign-IsMap, length-erase,
  length-assign_old,
}
use dns_security_dataplane.Cache.{Cache, CacheEntry, drop_entry}
use dns_security_dataplane.Cache.Order.{erase_node_ok, find-splice, splice-IsMap, length-splice}

pub record IsValid (c : Cache) : Type 0 where
  pub positive : 0 < c.max_entries
  pub bounded : length c.table ≤ c.max_entries
  pub once : IsMap c.table
  pub nodes : IsMap c.lru_order
  pub same : length c.table ≡ length c.lru_order
  pub forth :
      (i : ℕ) (k : List ℕ)
      → find i c.lru_order ≡ some k
      → (e : CacheEntry) × (find k c.table ≡ some e) × (e.lru_it ≡ i)
  pub back :
      (k : List ℕ) (e : CacheEntry) → find k c.table ≡ some e → find e.lru_it c.lru_order ≡ some k
  pub fresh : (i : ℕ) (k : List ℕ) → find i c.lru_order ≡ some k → i < c.next_node

-- The cache without one entry and its node.
abbrev pub without : Cache → List ℕ → ℕ → Cache
without c key it = record c { table = erase key c.table; lru_order = erase it c.lru_order }

module _ (c : Cache) (v : IsValid c) (key : List ℕ) (e : CacheEntry)
    (held : find key c.table ≡ some e) where
  without_forth :
      (i : ℕ) (k : List ℕ)
      → find i (erase e.lru_it c.lru_order) ≡ some k
      → (e' : CacheEntry) × (find k (erase key c.table) ≡ some e') × (e'.lru_it ≡ i)
  without_forth i k h = elim (Bool-cases (e.lru_it == i)) [
    | inl same ↦ absurd (ground (arith, find-erase e.lru_it i c.lru_order))
    | inr other ↦
        let here : find i c.lru_order ≡ some k =
          ground (arith, find-erase e.lru_it i c.lru_order) in
        let (e', f, l) = v.forth i k here in
        (e', ground (arith, find-erase key k c.table, bytes_eq_iff key k, held, f, l), l)
  ]

  without_back :
      (k : List ℕ) (e' : CacheEntry)
      → find k (erase key c.table) ≡ some e'
      → find e'.lru_it (erase e.lru_it c.lru_order) ≡ some k
  without_back k e' h = elim (Bool-cases (bytes_eq key k)) [
    | inl same ↦ absurd (ground (arith, find-erase key k c.table))
    | inr other ↦
        let here : find k c.table ≡ some e' = ground (arith, find-erase key k c.table) in
        ground (
          arith,
          find-erase e.lru_it e'.lru_it c.lru_order,
          v.back k e' here,
          v.back key e held,
          bytes_eq_iff key k,
        )
  ]

  without_fresh :
      (i : ℕ) (k : List ℕ) → find i (erase e.lru_it c.lru_order) ≡ some k → i < c.next_node
  without_fresh i k h = ground (arith, find-erase e.lru_it i c.lru_order, v.fresh i k)

  pub length-without : length (erase key c.table) + 1 ≡ length c.table
  length-without = length-erase key e c.table v.once held

  pub without-IsValid : IsValid (without c key e.lru_it)
  without-IsValid = record {
    positive = v.positive;
    bounded = omega (arith, length-without, v.bounded);
    once = erase-IsMap key c.table v.once;
    nodes = erase-IsMap e.lru_it c.lru_order v.nodes;
    same = omega (
      arith,
      length-without,
      length-erase e.lru_it key c.lru_order v.nodes (v.back key e held),
      v.same,
    );
    forth = without_forth;
    back = without_back;
    fresh = without_fresh;
  }

  abbrev spliced : List (ℕ × List ℕ)
  spliced = (e.lru_it, key) ∷ erase e.lru_it c.lru_order

  moved : (i : ℕ) → find i spliced ≡ find i c.lru_order
  moved = find-splice c.lru_order e.lru_it key (v.back key e held)

  pub promoted-IsValid : IsValid (record c { lru_order = spliced })
  promoted-IsValid = record {
    positive = v.positive;
    bounded = v.bounded;
    once = v.once;
    nodes = splice-IsMap c.lru_order e.lru_it key (v.back key e held) v.nodes;
    same = v.same ∙ sym (length-splice c.lru_order e.lru_it key (v.back key e held) v.nodes);
    forth = λ i k h. v.forth i k (rw (moved i) at h);
    back = λ k e' h. moved e'.lru_it ∙ v.back k e' h;
    fresh = λ i k h. v.fresh i k (rw (moved i) at h);
  }

  pub drop_entry_ok : drop_entry c key e ≡ ok (without c key e.lru_it, none)
  unfolding drop_entry
  drop_entry_ok = rw (erase_node_ok c.lru_order e.lru_it key (v.back key e held))

  -- An entry that keeps its node may change.
  module _ (e' : CacheEntry) (kept : e'.lru_it ≡ e.lru_it) where
    updated_forth :
        (i : ℕ) (k : List ℕ)
        → find i c.lru_order ≡ some k
        → (d : CacheEntry) × (find k (assign key e' c.table) ≡ some d) × (d.lru_it ≡ i)
    updated_forth i k h = elim (Bool-cases (bytes_eq key k)) [
      | inl this ↦
          let (d, f, l) = v.forth i k h in
          (
            e',
            ground (arith, find-assign key k e' c.table),
            ground (arith, bytes_eq_iff key k, f, l, held, kept),
          )
      | inr other ↦
          let (d, f, l) = v.forth i k h in (d, ground (arith, find-assign key k e' c.table, f), l)
    ]

    updated_back :
        (k : List ℕ) (d : CacheEntry)
        → find k (assign key e' c.table) ≡ some d
        → find d.lru_it c.lru_order ≡ some k
    updated_back k d h = elim (Bool-cases (bytes_eq key k)) [
      | inl this ↦
          ground (arith, find-assign key k e' c.table, v.back key e held, bytes_eq_iff key k, kept)
      | inr other ↦ ground (arith, find-assign key k e' c.table, v.back k d)
    ]

    pub updated-IsValid : IsValid (record c { table = assign key e' c.table })
    updated-IsValid = record {
      positive = v.positive;
      bounded = omega (arith, length-assign_old key e' e c.table held, v.bounded);
      once = assign-IsMap key e' c.table v.once;
      nodes = v.nodes;
      same = length-assign_old key e' e c.table held ∙ v.same;
      forth = updated_forth;
      back = updated_back;
      fresh = v.fresh;
    }
