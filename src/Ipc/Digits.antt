-- ===== src/Ipc/Digits.antt =====
-- The digits of a number, as `digits_value` and `strtoull` read them.
use dns_security_dataplane.Base.{
  ℕ, zero, suc, ◌+◌, ◌*◌, ◌-◌, ◌/◌, ◌%◌, ◌^◌, ◌<◌, ◌≤◌, ◌≡◌, refl, sym, ap, ◌∙◌, inl, inr, ◌⊎◌,
  ==_iff, leb, ltb, ◌&&◌, Bool-cases, true, false, List, [], ◌∷◌, ◌++◌, arith,
}
use dns_security_dataplane.Text.{digits_onto, to_string}
use dns_security_dataplane.Ipc.{digits_value, strtoull, clamped}

one_digit :
    (acc d : ℕ) (rest : List ℕ)
    → d < 10
    → digits_value acc ((48 + d) ∷ rest) ≡ digits_value (acc * 10 + d) rest
one_digit acc d rest h =
    let is_digit : (leb 48 (48 + d) && leb (48 + d) 57) ≡ true = ground arith in
    let value : acc * 10 + (48 + d - 48) ≡ acc * 10 + d = omega arith in
    rw is_digit (ap (λ n. digits_value n rest) value)

pub digits_value-onto :
    (fuel n : ℕ) (rest : List ℕ)
    → n < fuel
    → digits_value 0 (digits_onto fuel n rest) ≡ digits_value n rest
unfolding digits_onto
digits_value-onto zero n rest h = elim h [ ]
digits_value-onto (suc fuel) n rest h = elim (Bool-cases (ltb n 10)) [
  | inl small ↦
      rw small (one_digit 0 n rest (ground arith) ∙ ap (λ m. digits_value m rest) zero_first)
  | inr large ↦
      let e : n / 10 * 10 + n % 10 ≡ n = omega arith in
      rw large (
        digits_value-onto fuel (n / 10) ((48 + n % 10) ∷ rest) (ground arith)
        ∙ (one_digit (n / 10) (n % 10) rest (omega arith) ∙ ap (λ m. digits_value m rest) e))
]
  where
    zero_first : 0 * 10 + n ≡ n
    zero_first = omega arith

-- The digits of a number come first where they are written: no space and no sign.
pub starts_with_digit :
    (fuel n : ℕ) (rest : List ℕ)
    → n < fuel
    → (c : ℕ) × (cs : List ℕ) × (digits_onto fuel n rest ≡ c ∷ cs) × (48 ≤ c)
unfolding digits_onto
starts_with_digit zero n rest h = elim h [ ]
starts_with_digit (suc fuel) n rest h = elim (Bool-cases (ltb n 10)) [
  | inl small ↦ rw small (48 + n, rest, refl, omega arith)
  | inr large ↦ rw large (starts_with_digit fuel (n / 10) ((48 + n % 10) ∷ rest) (ground arith))
]

digits_onto-append :
    (fuel n : ℕ) (text rest : List ℕ)
    → digits_onto fuel n text ++ rest ≡ digits_onto fuel n (text ++ rest)
unfolding digits_onto
digits_onto-append zero n text rest = refl
digits_onto-append (suc fuel) n text rest = elim (Bool-cases (ltb n 10)) [
  | inl small ↦ rw small refl
  | inr large ↦ rw large (digits_onto-append fuel (n / 10) ((48 + n % 10) ∷ text) rest)
]

strtoull-digit :
    (c : ℕ) (cs : List ℕ) → 48 ≤ c → strtoull (c ∷ cs) ≡ clamped (digits_value 0 (c ∷ cs))
unfolding strtoull
strtoull-digit c cs h = ground (arith, ==_iff c 32, ==_iff c b'-', ==_iff c b'+')

-- A 64-bit number is read back where something else than a digit ends it.
pub strtoull-to_string :
    (n c : ℕ) (rest : List ℕ)
    → n < 2 ^ 64
    → (c < 48) ⊎ (57 < c)
    → strtoull (to_string n ++ c ∷ rest) ≡ n
unfolding to_string
strtoull-to_string n c rest h other =
    let (d, ds, e, is_digit) = starts_with_digit (suc n) n (c ∷ rest) (omega arith) in
    let value : digits_value 0 (d ∷ ds) ≡ digits_value n (c ∷ rest) =
      ap (digits_value 0) (sym e) ∙ digits_value-onto (suc n) n (c ∷ rest) (omega arith) in
    let stop : (leb 48 c && leb c 57) ≡ false = ground arith in
    let at_end : digits_value n (c ∷ rest) ≡ n = rw stop refl in
    let in_range : clamped n ≡ n = ground arith in
    ap strtoull (digits_onto-append (suc n) n [] (c ∷ rest) ∙ e)
    ∙ (strtoull-digit d ds is_digit ∙ (ap clamped (value ∙ at_end) ∙ in_range))
