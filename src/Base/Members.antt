-- ===== src/Base/Members.antt =====
-- Which numbers a list has.
use mathlib.Core.Path.{◌≡◌, refl, sym, ◌∙◌}
use mathlib.Core.Logic.{◌≢◌, ◌⊎◌, inl, inr}
use mathlib.Core.Bool.{false}
use mathlib.Core.List.{List, [], ◌∷◌, ◌++◌}
use Prim.Native.Nat.{ℕ, ◌≤◌, ◌<◌}
use native.Mathlib.Omega.{arith}
use dns_security_dataplane.Base.Lists.{length}
use dns_security_dataplane.Base.Tests.{◌==◌, ==_iff, if◌then◌else◌, Bool-cases}

pub eq_or_ne : (i j : ℕ) → (i ≡ j) ⊎ (i ≢ j)
eq_or_ne i j = elim (Bool-cases (i == j)) [
  | inl e ↦ inl ((==_iff i j).0 e)
  | inr n ↦ inr (λ e. ground (arith, ==_iff i j))
]

abbrev pub In : ℕ → List ℕ → Type 0
In x [] = ⊥
In x (y ∷ ys) = (x ≡ y) ⊎ In x ys

pub member_or_not : (x : ℕ) (ys : List ℕ) → In x ys ⊎ (¬ In x ys)
member_or_not x [] = inr (λ h. h)
member_or_not x (y ∷ ys) = elim (eq_or_ne x y) [
  | inl e ↦ inl (inl e)
  | inr ne ↦ elim (member_or_not x ys) [
    | inl i ↦ inl (inr i)
    | inr out ↦ inr (λ h. elim h [ inl e ↦ ne e | inr i ↦ out i ])
  ]
]

pub In-append : (x : ℕ) (xs ys : List ℕ) → In x (xs ++ ys) → In x xs ⊎ In x ys
In-append x [] ys h = inr h
In-append x (y ∷ xs) ys (inl e) = inl (inl e)
In-append x (y ∷ xs) ys (inr h) = elim (In-append x xs ys h) [ inl i ↦ inl (inr i) | inr i ↦ inr i ]

pub In-append_left : (x : ℕ) (xs ys : List ℕ) → In x xs → In x (xs ++ ys)
In-append_left x [] ys h = absurd h
In-append_left x (y ∷ xs) ys (inl e) = inl e
In-append_left x (y ∷ xs) ys (inr h) = inr (In-append_left x xs ys h)

pub In-append_right : (x : ℕ) (xs ys : List ℕ) → In x ys → In x (xs ++ ys)
In-append_right x [] ys h = h
In-append_right x (y ∷ xs) ys h = inr (In-append_right x xs ys h)

abbrev pub Distinct : List ℕ → Type 0
Distinct [] = Unit
Distinct (x ∷ xs) = (¬ In x xs) × Distinct xs

pub append-Distinct :
    (xs ys : List ℕ)
    → Distinct xs
    → Distinct ys
    → ((x : ℕ) → In x xs → ¬ In x ys)
    → Distinct (xs ++ ys)
append-Distinct [] ys a b apart = b
append-Distinct (x ∷ xs) ys a b apart = (
  λ h. elim (In-append x xs ys h) [ inl i ↦ a.0 i | inr i ↦ apart x (inl refl) i ],
  append-Distinct xs ys a.1 b (λ z i. apart z (inr i)),
)

unfoldable pub remove : ℕ → List ℕ → List ℕ
remove x [] = []
remove x (y ∷ ys) = if x == y then remove x ys else y ∷ remove x ys

pub In-remove : (x z : ℕ) (ys : List ℕ) → In z ys → z ≢ x → In z (remove x ys)
unfolding remove
In-remove x z [] h ne = h
In-remove x z (y ∷ ys) h ne = elim (Bool-cases (x == y)) [
  | inl e ↦
      rw e (elim h [
        | inl s ↦ absurd (ne (s ∙ sym ((==_iff x y).0 e)))
        | inr i ↦ In-remove x z ys i ne
      ])
  | inr n ↦ rw n (elim h [ inl s ↦ inl s | inr i ↦ inr (In-remove x z ys i ne) ])
]

pub remove-In : (x z : ℕ) (ys : List ℕ) → In z (remove x ys) → In z ys × (z ≢ x)
unfolding remove
remove-In x z [] h = absurd h
remove-In x z (y ∷ ys) h = elim (Bool-cases (x == y)) [
  | inl e ↦ let (i, ne) = remove-In x z ys (rw e at h) in (inr i, ne)
  | inr n ↦ go n (rw n at h) (remove-In x z ys)
]
  where
    go :
        (x == y) ≡ false
        → (z ≡ y) ⊎ In z (remove x ys)
        → (In z (remove x ys) → In z ys × (z ≢ x))
        → ((z ≡ y) ⊎ In z ys) × (z ≢ x)
    go n (inl s) ih = (inl s, λ e. ground (arith, ==_iff x y))
    go n (inr i) ih = let (j, ne) = ih i in (inr j, ne)

pub length-remove_le : (x : ℕ) (ys : List ℕ) → length (remove x ys) ≤ length ys
unfolding remove
length-remove_le x [] = omega arith
length-remove_le x (y ∷ ys) = ground (arith, length-remove_le x ys)

pub length-remove : (x : ℕ) (ys : List ℕ) → In x ys → length (remove x ys) < length ys
unfolding remove
length-remove x [] h = absurd h
length-remove x (y ∷ ys) (inl e) = ground (arith, length-remove_le x ys, ==_iff x y)
length-remove x (y ∷ ys) (inr i) = ground (arith, length-remove_le x ys, length-remove x ys i)
