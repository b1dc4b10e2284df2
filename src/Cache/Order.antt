-- ===== src/Cache/Order.antt =====
-- The list of nodes, as a map from node numbers to keys.
use dns_security_dataplane.Base.{
  ℕ, ◌≡◌, ap, ◌∙◌, inl, inr, ◌==◌, ==_iff, List, [], ◌∷◌, Option, none, some, length, ok,
  >>=-ok-parts, nat_Eq, arith, Bool-cases, ◌<◌,
}
use mathlib.Core.Path.{subst}
use dns_security_dataplane.Base.Map.{
  find, erase, IsMap, find-erase, erase-IsMap, length-erase, find-erase_self,
}
use dns_security_dataplane.Cache.{erase_node, splice_front, pop_back}

module _ (order : List (ℕ × List ℕ)) (it : ℕ) (key : List ℕ) (held : find it order ≡ some key) where
  pub erase_node_ok : erase_node it order ≡ ok (erase it order)
  unfolding erase_node
  erase_node_ok = rw (held, erase_node)

  pub splice_front_ok : splice_front it order ≡ ok ((it, key) ∷ erase it order)
  unfolding splice_front
  splice_front_ok = rw (held, splice_front)

  -- A splice only reorders.
  pub find-splice : (i : ℕ) → find i ((it, key) ∷ erase it order) ≡ find i order
  find-splice i = unfold find in ground (arith, ==_iff it i, find-erase it i order, held)

  pub splice-IsMap : IsMap order → IsMap ((it, key) ∷ erase it order)
  splice-IsMap m = (find-erase_self it order, erase-IsMap it order m)

  pub length-splice : IsMap order → length ((it, key) ∷ erase it order) ≡ length order
  length-splice m = omega (arith, length-erase it key order m held)

-- The last node of a list goes.
pub pop_back_ok :
    (i : ℕ) (k : List ℕ) (order : List (ℕ × List ℕ))
    → IsMap ((i, k) ∷ order)
    → (it : ℕ) × (key : List ℕ) × (find it ((i, k) ∷ order) ≡ some key)
      × (pop_back ((i, k) ∷ order) ≡ ok (key, erase it ((i, k) ∷ order)))
unfolding pop_back find erase
pop_back_ok i k [] m = (i, k, ground (arith, ==_iff i i), ground (arith, ==_iff i i))
pop_back_ok i k ((j, l) ∷ order) m = go (pop_back_ok j l order m.1)
  where
    go :
        (it : ℕ) × (key : List ℕ) × (find it ((j, l) ∷ order) ≡ some key)
          × (pop_back ((j, l) ∷ order) ≡ ok (key, erase it ((j, l) ∷ order)))
        → (it : ℕ) × (key : List ℕ) × (find it ((i, k) ∷ (j, l) ∷ order) ≡ some key)
          × (pop_back ((i, k) ∷ (j, l) ∷ order) ≡ ok (key, erase it ((i, k) ∷ (j, l) ∷ order)))
    go (it, key, f, p) = elim (Bool-cases (i == it)) [
      | inl same ↦
          let e : i ≡ it = (==_iff i it).0 same in
          let none_there : find it ((j, l) ∷ order) ≡ none =
            subst (λ (x : ℕ). find x ((j, l) ∷ order) ≡ none) e m.0 in
          absurd (ground (arith, none_there, f))
      | inr other ↦ (it, key, rw other f, rw other (rw p))
    ]

-- The key of the last node.
abbrev pub last_key : List (ℕ × List ℕ) → Option (List ℕ)
last_key [] = none
last_key ((i, k) ∷ []) = some k
last_key (n ∷ m ∷ order) = last_key (m ∷ order)

pub last_key-pop_back :
    (order rest : List (ℕ × List ℕ)) (key : List ℕ)
    → pop_back order ≡ ok (key, rest)
    → last_key order ≡ some key
unfolding pop_back
last_key-pop_back [] rest key h = cc
last_key-pop_back ((i, k) ∷ []) rest key h = ground arith
last_key-pop_back (n ∷ m ∷ order) rest key h =
    let (a, g, e) = >>=-ok-parts _ _ (pop_back (m ∷ order)) h in
    let same : a.0 ≡ key = ground (arith, g) in
    last_key-pop_back (m ∷ order) a.1 a.0 e ∙ ap some same

-- A list that is not empty has a last node, which `pop_back` takes off.
pub pop_back-some :
    (order : List (ℕ × List ℕ))
    → IsMap order
    → 0 < length order
    → (it : ℕ) × (key : List ℕ) × (find it order ≡ some key)
      × (pop_back order ≡ ok (key, erase it order))
pop_back-some [] m h = absurd (omega arith)
pop_back-some ((i, k) ∷ order) m h = pop_back_ok i k order m
