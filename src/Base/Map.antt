-- ===== src/Base/Map.antt =====
-- `std::unordered_map`, as an association list that holds each key once. The order of the entries
-- is never read by the program's results.
use dns_security_dataplane.Base.Tests.{Eq, Bool-cases, if◌then◌else◌}
use dns_security_dataplane.Base.Lists.{length, All}
use Prim.Native.Nat.{◌+◌, ◌≤◌}
use mathlib.Core.Path.{◌≡◌, refl, ◌∙◌}
use mathlib.Core.Logic.{◌≢◌, inl, inr}
use mathlib.Core.Bool.{Bool}
use mathlib.Core.Option.{Option, none, some}
use mathlib.Core.List.{List, [], ◌∷◌}
use native.Mathlib.Omega.{arith}

module _ {ℓ κ} {K : Type ℓ} {V : Type κ} ⦃eq : Eq K⦄ where
  -- `find(k)`.
  unfoldable pub find : K → List (K × V) → Option V
  find k [] = none
  find k ((j, v) ∷ m) = if eq.beq j k then some v else find k m

  -- `m[k] = v`.
  unfoldable pub assign : K → V → List (K × V) → List (K × V)
  assign k v [] = (k, v) ∷ []
  assign k v ((j, w) ∷ m) = if eq.beq j k then (k, v) ∷ m else (j, w) ∷ assign k v m

  -- `erase(k)`.
  unfoldable pub erase : K → List (K × V) → List (K × V)
  erase k [] = []
  erase k ((j, v) ∷ m) = if eq.beq j k then erase k m else (j, v) ∷ erase k m

  pub find-assign :
      (k j : K) (v : V) (m : List (K × V))
      → find j (assign k v m) ≡ (if eq.beq k j then some v else find j m)
  unfolding find assign
  find-assign k j v [] = refl
  find-assign k j v ((i, w) ∷ m) =
      ground (arith, eq.beq_iff k j, eq.beq_iff i k, eq.beq_iff i j, find-assign k j v m)

  pub find-erase :
      (k j : K) (m : List (K × V)) → find j (erase k m) ≡ (if eq.beq k j then none else find j m)
  unfolding find erase
  find-erase k j [] = ground arith
  find-erase k j ((i, w) ∷ m) =
      ground (arith, eq.beq_iff k j, eq.beq_iff i k, eq.beq_iff i j, find-erase k j m)

  pub find-assign_self : (k : K) (v : V) (m : List (K × V)) → find k (assign k v m) ≡ some v
  find-assign_self k v m = ground (arith, find-assign k k v m, eq.beq_iff k k)

  pub find-erase_self : (k : K) (m : List (K × V)) → find k (erase k m) ≡ none
  find-erase_self k m = ground (arith, find-erase k k m, eq.beq_iff k k)

  pub find-assign_ne :
      (k j : K) (v : V) (m : List (K × V)) → k ≢ j → find j (assign k v m) ≡ find j m
  find-assign_ne k j v m h = ground (arith, find-assign k j v m, eq.beq_iff k j)

  pub find-erase_ne : (k j : K) (m : List (K × V)) → k ≢ j → find j (erase k m) ≡ find j m
  find-erase_ne k j m h = ground (arith, find-erase k j m, eq.beq_iff k j)

  -- Each key once.
  abbrev pub IsMap : List (K × V) → Type κ
  IsMap [] = Unit
  IsMap ((k, v) ∷ m) = (find k m ≡ none) × IsMap m

  find-assign-none :
      (k j : K) (v : V) (m : List (K × V)) → find j m ≡ none → k ≢ j → find j (assign k v m) ≡ none
  find-assign-none k j v m h d = find-assign_ne k j v m d ∙ h

  pub assign-IsMap : (k : K) (v : V) (m : List (K × V)) → IsMap m → IsMap (assign k v m)
  unfolding assign find
  assign-IsMap k v [] h = (refl, tt)
  assign-IsMap k v ((j, w) ∷ m) h = elim (Bool-cases (eq.beq j k)) [
    | inl e ↦ rw e (let p : j ≡ k = (eq.beq_iff j k).0 e in rw (← p) h)
    | inr n ↦
        rw n (
          find-assign-none k j v m h.0 (λ p. ground (arith, eq.beq_iff j k)),
          assign-IsMap k v m h.1,
        )
  ]

  erase-none : (k j : K) (m : List (K × V)) → find j m ≡ none → find j (erase k m) ≡ none
  erase-none k j m h = ground (arith, find-erase k j m)

  pub erase-IsMap : (k : K) (m : List (K × V)) → IsMap m → IsMap (erase k m)
  unfolding erase
  erase-IsMap k [] h = tt
  erase-IsMap k ((j, w) ∷ m) h = elim (Bool-cases (eq.beq j k)) [
    | inl e ↦ rw e (erase-IsMap k m h.1)
    | inr n ↦ rw n (erase-none k j m h.0, erase-IsMap k m h.1)
  ]

  pub length-assign_new :
      (k : K) (v : V) (m : List (K × V)) → find k m ≡ none → length (assign k v m) ≡ length m + 1
  unfolding assign find
  length-assign_new k v [] h = omega arith
  length-assign_new k v ((j, w) ∷ m) h = ground (arith, length-assign_new k v m)

  pub length-assign_old :
      (k : K) (v w : V) (m : List (K × V)) → find k m ≡ some w → length (assign k v m) ≡ length m
  unfolding assign find
  length-assign_old k v w [] h = cc
  length-assign_old k v w ((j, u) ∷ m) h = ground (arith, length-assign_old k v w m)

  pub erase_absent : (k : K) (m : List (K × V)) → find k m ≡ none → erase k m ≡ m
  unfolding erase find
  erase_absent k [] h = refl
  erase_absent k ((j, u) ∷ m) h = ground (arith, erase_absent k m)

  pub length-erase :
      (k : K) (v : V) (m : List (K × V))
      → IsMap m
      → find k m ≡ some v
      → length (erase k m) + 1 ≡ length m
  unfolding erase find
  length-erase k v [] h e = cc
  length-erase k v ((j, u) ∷ m) h e = elim (Bool-cases (eq.beq j k)) [
    | inl same ↦
        let p : j ≡ k = (eq.beq_iff j k).0 same in
        let gone : erase k m ≡ m = erase_absent k m (rw (← p) h.0) in rw (same, gone) (omega arith)
    | inr other ↦ rw other (ground (arith, length-erase k v m h.1))
  ]

  -- Keeps the entries that pass a test, as an `erase` in a loop over the iterators does.
  unfoldable pub retain : (K → V → Bool) → List (K × V) → List (K × V)
  retain p [] = []
  retain p ((k, v) ∷ m) = if p k v then (k, v) ∷ retain p m else retain p m

  pub retain-none :
      (p : K → V → Bool) (j : K) (m : List (K × V)) → find j m ≡ none → find j (retain p m) ≡ none
  unfolding retain find
  retain-none p j [] h = refl
  retain-none p j ((k, v) ∷ m) h = ground (arith, retain-none p j m)

  pub retain-IsMap : (p : K → V → Bool) (m : List (K × V)) → IsMap m → IsMap (retain p m)
  unfolding retain
  retain-IsMap p [] h = tt
  retain-IsMap p ((k, v) ∷ m) h = ground (arith, retain-IsMap p m h.1, retain-none p k m)

  pub All-retain {ρ} :
      (P : K × V → Type ρ) (p : K → V → Bool) (m : List (K × V)) → All P m → All P (retain p m)
  unfolding retain
  All-retain P p [] h = tt
  All-retain P p ((k, v) ∷ m) (here, h) = elim (Bool-cases (p k v)) [
    | inl kept ↦ rw kept (here, All-retain P p m h)
    | inr gone ↦ rw gone (All-retain P p m h)
  ]

  -- An entry survives exactly if it passes the test.
  pub find-retain :
      (p : K → V → Bool) (j : K) (m : List (K × V))
      → IsMap m
      → find j (retain p m)
        ≡ (elim (find j m) [ none ↦ none | some v ↦ if p j v then some v else none ])
  unfolding retain find
  find-retain p j [] h = refl
  find-retain p j ((k, v) ∷ m) h = elim (Bool-cases (eq.beq k j)) [
    | inl same ↦
        let q : k ≡ j = (eq.beq_iff k j).0 same in
        let gone : find j (retain p m) ≡ none = retain-none p j m (rw (← q) h.0) in
        ground (arith, gone, q)
    | inr other ↦ ground (arith, find-retain p j m h.1)
  ]

  pub length-retain-le : (p : K → V → Bool) (m : List (K × V)) → length (retain p m) ≤ length m
  unfolding retain
  length-retain-le p [] = omega arith
  length-retain-le p ((k, v) ∷ m) = ground (arith, length-retain-le p m)
