-- ===== src/Cache/Lru.antt =====
-- The cache without its iterators: what it holds, most recently used first.
use dns_security_dataplane.Base.{
  Eq, ℕ, suc, ◌≡◌, ◌≢◌, refl, sym, ap, ◌∙◌, inl, inr, ◌==◌, ==_iff, ltb, leb, if◌then◌else◌, Bool,
  true, ◌&&◌, List, [], ◌∷◌, Option, none, some, length, ok, nat_Eq, bytes_Eq, bytes_eq,
  bytes_eq_iff, arith, Bool-cases, >>=-ok-parts,
}
use dns_security_dataplane.Base.Map.{find, erase, IsMap}
use dns_security_dataplane.Cache.{CacheEntry, pop_back}
use dns_security_dataplane.Cache.History.{Stored, payload}

-- The specification. A cache is a list of keys and what is stored for them.
abbrev pub Held : Type 0
Held = List (List ℕ × Stored)

abbrev pub is_current : Stored → ℕ → ℕ → Bool
is_current s generation now = ltb now s.expires_at && s.policy_generation == generation

unfoldable pub drop_last {ℓ} : {A : Type ℓ} → List A → List A
drop_last [] = []
drop_last (x ∷ []) = []
drop_last (x ∷ y ∷ held) = x ∷ drop_last (y ∷ held)

module _ {K : Type 0} ⦃eq : Eq K⦄ where
  -- A read moves a current entry to the front, and takes out one that is not.
  unfoldable pub look_up : K → ℕ → ℕ → List (K × Stored) → List (K × Stored) × Option Stored
  look_up key generation now held = elim (find key held) [
    | none ↦ (held, none)
    | some s ↦
        if is_current s generation now
        then ((key, s) ∷ erase key held, some s)
        else (erase key held, none)
  ]

  -- A write puts the entry first. It replaces one of the same key; if there is none and the cache is
  -- full, the last one goes.
  unfoldable pub store : ℕ → K → Stored → List (K × Stored) → List (K × Stored)
  store capacity key s held = elim (find key held) [
    | some old ↦ (key, s) ∷ erase key held
    | none ↦ if leb capacity (length held) then (key, s) ∷ drop_last held else (key, s) ∷ held
  ]

-- What `table_` has for a key of the list.
abbrev pub stored_at : List ℕ → List (List ℕ × CacheEntry) → Stored
stored_at key table = elim (find key table) [
  | none ↦ record { response = []; expires_at = 0; policy_generation = 0 }
  | some e ↦ payload e
]

unfoldable pub view : List (List ℕ × CacheEntry) → List (ℕ × List ℕ) → Held
view table [] = []
view table ((i, key) ∷ order) = (key, stored_at key table) ∷ view table order

pub length-view :
    (table : List (List ℕ × CacheEntry)) (order : List (ℕ × List ℕ))
    → length (view table order) ≡ length order
unfolding view
length-view table [] = refl
length-view table ((i, k) ∷ order) = ap suc (length-view table order)

pub find-view-some :
    (table : List (List ℕ × CacheEntry)) (order : List (ℕ × List ℕ)) (i : ℕ) (key : List ℕ)
    → find i order ≡ some key
    → find key (view table order) ≡ some (stored_at key table)
unfolding view find
find-view-some table [] i key h = cc h
find-view-some table ((j, k) ∷ order) i key h = elim (Bool-cases (bytes_eq k key)) [
  | inl same ↦
      let e : k ≡ key = (bytes_eq_iff k key).0 same in
      rw same (ap (λ x. some (stored_at x table)) e)
  | inr other ↦ rw other (find-view-some table order i key (ground (arith, bytes_eq_iff k key)))
]

-- A node of the rest is a node of the list.
find_further :
    (j i : ℕ) (k x : List ℕ) (order : List (ℕ × List ℕ))
    → IsMap ((j, k) ∷ order)
    → find i order ≡ some x
    → find i ((j, k) ∷ order) ≡ some x
unfolding find
find_further j i k x order m h = elim (Bool-cases (j == i)) [
  | inl same ↦
      let e : j ≡ i = (==_iff j i).0 same in
      let gone : find i order ≡ none = rw e at (m.0) in cc (gone, h)
  | inr other ↦ rw other h
]

find_first : (j : ℕ) (k : List ℕ) (order : List (ℕ × List ℕ)) → find j ((j, k) ∷ order) ≡ some k
unfolding find
find_first j k order = ground (arith, ==_iff j j)

pub find-view-none :
    (table : List (List ℕ × CacheEntry)) (order : List (ℕ × List ℕ)) (key : List ℕ)
    → IsMap order
    → ((i : ℕ) → find i order ≢ some key)
    → find key (view table order) ≡ none
unfolding view find
find-view-none table [] key m n = refl
find-view-none table ((j, k) ∷ order) key m n = elim (Bool-cases (bytes_eq k key)) [
  | inl same ↦ absurd (n j (find_first j k order ∙ ap some ((bytes_eq_iff k key).0 same)))
  | inr other ↦
      rw other (find-view-none table order key m.1 (λ i h. n i (find_further j i k key order m h)))
]

-- Without one node, the only one of its key.
pub view-erase :
    (table : List (List ℕ × CacheEntry)) (order : List (ℕ × List ℕ)) (it : ℕ) (key : List ℕ)
    → IsMap order
    → ((i : ℕ) → find i order ≡ some key → i ≡ it)
    → ((k : List ℕ) → find it order ≡ some k → k ≡ key)
    → view table (erase it order) ≡ erase key (view table order)
unfolding view erase
view-erase table [] it key m one here = refl
view-erase table ((j, k) ∷ order) it key m one here =
    let ih =
      view-erase table order it key m.1 (λ i h. one i (find_further j i k key order m h))
        (λ x h. here x (find_further j it k x order m h)) in
    elim (Bool-cases (j == it)) [
      | inl same ↦
          let e : j ≡ it = (==_iff j it).0 same in
          let f : k ≡ key =
            here k (ap (λ x. find x ((j, k) ∷ order)) (sym e) ∙ find_first j k order) in
          let g : bytes_eq k key ≡ true = (bytes_eq_iff k key).1 f in rw (same, g) ih
      | inr other ↦ elim (Bool-cases (bytes_eq k key)) [
        | inl this ↦
            let e : j ≡ it = one j (find_first j k order ∙ ap some ((bytes_eq_iff k key).0 this)) in
            absurd (ground (arith, ==_iff j it))
        | inr that ↦ rw (other, that) (ap (λ held. (k, stored_at k table) ∷ held) ih)
      ]
    ]

-- Only the keys of the list count.
pub view-same :
    (table table' : List (List ℕ × CacheEntry)) (order : List (ℕ × List ℕ))
    → IsMap order
    → ((i : ℕ) (k : List ℕ) → find i order ≡ some k → find k table' ≡ find k table)
    → view table' order ≡ view table order
unfolding view
view-same table table' [] m same = refl
view-same table table' ((j, k) ∷ order) m same =
    let ih =
      view-same table table' order m.1 (λ i x h. same i x (find_further j i k x order m h)) in
    let here : stored_at k table' ≡ stored_at k table =
      ap
        (λ (o : Option CacheEntry). elim o as (λ x. Stored) [
          | none ↦ record { response = []; expires_at = 0; policy_generation = 0 }
          | some e ↦ payload e
        ])
        (same j k (find_first j k order)) in
    rw (here, ih) refl

pub view-pop_back :
    (table : List (List ℕ × CacheEntry)) (order rest : List (ℕ × List ℕ)) (key : List ℕ)
    → pop_back order ≡ ok (key, rest)
    → view table rest ≡ drop_last (view table order)
unfolding view pop_back drop_last
view-pop_back table [] rest key h = cc h
view-pop_back table ((i, k) ∷ []) rest key h = let e : [] ≡ rest = cc h in ap (view table) (sym e)
view-pop_back table ((i, k) ∷ m ∷ order) rest key h =
    let ((old, others), g, e) = >>=-ok-parts _ _ (pop_back (m ∷ order)) h in
    let ih = view-pop_back table (m ∷ order) others old e in
    let r : (i, k) ∷ others ≡ rest = cc g in
    ap (view table) (sym r) ∙ ap (λ held. (k, stored_at k table) ∷ held) ih
