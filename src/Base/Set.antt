-- ===== src/Base/Set.antt =====
-- `std::unordered_set`, as a list that holds each element once.
use dns_security_dataplane.Base.Tests.{Eq, Bool-cases, if◌then◌else◌}
use mathlib.Core.Path.{◌≡◌, refl}
use mathlib.Core.Logic.{inl, inr}
use mathlib.Core.Bool.{Bool, true, false, ◌||◌}
use mathlib.Core.List.{List, [], ◌∷◌}

module _ {ℓ} {A : Type ℓ} ⦃eq : Eq A⦄ where
  -- `find(a) != end()`.
  unfoldable pub contains : A → List A → Bool
  contains a [] = false
  contains a (x ∷ xs) = eq.beq x a || contains a xs

  -- `insert(a)`.
  unfoldable pub add : A → List A → List A
  add a xs = if contains a xs then xs else a ∷ xs

  pub contains-add : (a b : A) (xs : List A) → contains b (add a xs) ≡ (eq.beq a b || contains b xs)
  unfolding add
  contains-add a b xs = elim (Bool-cases (contains a xs)) [
    | inl old ↦ rw old (elim (Bool-cases (eq.beq a b)) [
      | inl same ↦
          let e : a ≡ b = (eq.beq_iff a b).0 same in
          let held : contains b xs ≡ true = rw (← e) old in rw (same, held)
      | inr other ↦ rw other
    ])
    | inr new ↦ rw new (unfold contains in refl)
  ]
