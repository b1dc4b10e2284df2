-- ===== src/Base/Loop.antt =====
-- `while (true)` loops. One round either goes on in a new state, or ends the loop with a result;
-- an error ends it too. The rounds make a measure fall, so the loop needs no fuel.
use mathlib.Core.Path.{◌≡◌, refl}
use mathlib.Core.Logic.{◌⊎◌, inl, inr}
use mathlib.Core.WellFounded.{Acc}
use Prim.Native.Nat.{ℕ, zero, suc, ◌<◌}
use native.Mathlib.Omega.{arith}
use dns_security_dataplane.Base.Results.{Result, ok, err, fault}

module _ {ℓ κ} {S : Type ℓ} {A : Type κ} where
  -- The next state is handed on with the equation that says where it came from.
  on_round : (r : Result (S ⊎ A)) → ((t : S) → r ≡ ok (inl t) → Result A) → Result A
  on_round (ok (inl t)) k = k t refl
  on_round (ok (inr a)) k = ok a
  on_round (err c) k = err c
  on_round fault k = fault

  -- What a round has to leave behind: `P` of the next state, or `Q` of the result.
  abbrev pub Leaves {μ} : (S → Type μ) → (Result A → Type μ) → Result (S ⊎ A) → Type μ
  Leaves P Q (ok (inl t)) = P t
  Leaves P Q (ok (inr a)) = Q (ok a)
  Leaves P Q (err c) = Q (err c)
  Leaves P Q fault = Q fault

  on_round_inv {μ} :
      (P : S → Type μ) (Q : Result A → Type μ) (r : Result (S ⊎ A))
      (k : (t : S) → r ≡ ok (inl t) → Result A)
      → ((t : S) (e : r ≡ ok (inl t)) → P t → Q (k t e))
      → Leaves P Q r
      → Q (on_round r k)
  unfolding on_round
  on_round_inv P Q (ok (inl t)) k go h = go t refl h
  on_round_inv P Q (ok (inr a)) k go h = h
  on_round_inv P Q (err c) k go h = h
  on_round_inv P Q fault k go h = h

module _ {ℓ κ} {S : Type ℓ} {A : Type κ} (round : S → Result (S ⊎ A)) (measure : S → ℕ) where
  abbrev pub Falls : Type (ℓ ⊔ κ)
  Falls = (s t : S) → round s ≡ ok (inl t) → measure t < measure s

  abbrev Before : S → S → Type 0
  Before s t = measure s < measure t

  acc_below : (n : ℕ) (s : S) → measure s < n → Acc Before s
  acc_below zero s h = elim h [ ]
  acc_below (suc n) s h = Acc.intro s (λ t ht. acc_below n t (omega arith))

  module _ (falls : Falls) where
    loop_acc : (s : S) → Acc Before s → Result A
    unfolding on_round
    loop_acc s (Acc.intro _ smaller) =
        on_round (round s) (λ t e. loop_acc t (smaller t (falls s t e)))

    unfoldable pub loop : S → Result A
    unfolding loop_acc acc_below
    loop s = loop_acc s (acc_below (suc (measure s)) s (omega arith))

    module _ {μ} (P : S → Type μ) (Q : Result A → Type μ)
        (keep : (s : S) → P s → Leaves P Q (round s)) where
      loop_acc_inv : (s : S) (w : Acc Before s) → P s → Q (loop_acc s w)
      unfolding loop_acc
      loop_acc_inv s (Acc.intro _ smaller) h =
          on_round_inv P Q (round s) _ (λ t e p. loop_acc_inv t (smaller t (falls s t e)) p)
            (keep s h)

      -- What every round keeps holds of the result.
      pub loop_inv : (s : S) → P s → Q (loop s)
      unfolding loop
      loop_inv s h = loop_acc_inv s (acc_below (suc (measure s)) s (omega arith)) h
