-- ===== src/Text.antt =====
-- The program's string literals as byte sequences.
use Prim.Native.Char.{code}
use Prim.Native.String.{String}
use dns_security_dataplane.Base.{
  ℕ, zero, suc, ◌+◌, ◌*◌, ◌/◌, ◌%◌, ◌<◌, ◌≡◌, sym, ap, ◌∙◌, ◌-◌, ◌≢◌, inl, inr, ◌⊎◌, Bool-cases,
  ltb, if◌then◌else◌, List, [], ◌∷◌, All, arith,
}

abbrev pub codes : String → List ℕ
codes String.[] = []
codes (String.◌∷◌ c s) = code c ∷ codes s

-- `std::to_string` of an unsigned number: the digits, most significant first.
unfoldable pub digits_onto : ℕ → ℕ → List ℕ → List ℕ
digits_onto zero n rest = rest
digits_onto (suc fuel) n rest =
    let shorter = digits_onto fuel (n / 10) ((48 + n % 10) ∷ rest) in
    if ltb n 10 then (48 + n) ∷ rest else shorter

-- A number below 10 ^ k has at most k digits; `n + 1` rounds are always enough.
unfoldable pub to_string : ℕ → List ℕ
unfolding digits_onto
to_string n = digits_onto (suc n) n []

value_from : ℕ → List ℕ → ℕ
value_from acc [] = acc
value_from acc (c ∷ cs) = value_from (acc * 10 + (c - 48)) cs

value-digits_onto :
    (fuel n : ℕ) (rest : List ℕ)
    → n < fuel
    → value_from 0 (digits_onto fuel n rest) ≡ value_from n rest
unfolding value_from digits_onto
value-digits_onto zero n rest h = elim h [ ]
value-digits_onto (suc fuel) n rest h = elim (Bool-cases (ltb n 10)) [
  | inl small ↦
      let e : 0 * 10 + (48 + n - 48) ≡ n = omega arith in rw small (ap (λ m. value_from m rest) e)
  | inr large ↦
      let e : n / 10 * 10 + (48 + n % 10 - 48) ≡ n = omega arith in
      rw large (
        value-digits_onto fuel (n / 10) ((48 + n % 10) ∷ rest) (ground arith)
        ∙ ap (λ m. value_from m rest) e)
]

-- Two numbers with the same text are equal.
pub to_string-injective : (m n : ℕ) → to_string m ≡ to_string n → m ≡ n
unfolding to_string value_from
to_string-injective m n h =
    sym (value-digits_onto (suc m) m [] (omega arith))
    ∙ ap (value_from 0) h
    ∙ value-digits_onto (suc n) n [] (omega arith)

digits_onto-All :
    (x fuel n : ℕ) (rest : List ℕ)
    → (x < 48) ⊎ (57 < x)
    → All (λ c. c ≢ x) rest
    → All (λ c. c ≢ x) (digits_onto fuel n rest)
unfolding digits_onto
digits_onto-All x zero n rest h a = a
digits_onto-All x (suc fuel) n rest h a = elim (Bool-cases (ltb n 10)) [
  | inl small ↦ rw small (ground arith)
  | inr large ↦
      rw large (digits_onto-All x fuel (n / 10) ((48 + n % 10) ∷ rest) h (ground arith, a))
]

-- What is not a digit is not in the text of a number.
pub to_string-All : (x n : ℕ) → (x < 48) ⊎ (57 < x) → All (λ c. c ≢ x) (to_string n)
unfolding to_string
to_string-All x n h = digits_onto-All x (suc n) n [] h tt
