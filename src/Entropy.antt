-- ===== src/Entropy.antt =====
-- dataplane/include/detection/entropy.h: `EntropyCalculator`. The arithmetic of `double` and
-- `std::log2` are a parameter; the counts and the label are modelled.
use mathlib.Core.List.{Permᴰ}
use mathlib.Core.List.Permᴰ.{nil, cons, swap, trans}
use dns_security_dataplane.Base.{
  ℕ, ◌⊎◌, inl, inr, zero, suc, ◌+◌, ◌≡◌, ◌≢◌, refl, ap, ◌∙◌, ltb, if◌then◌else◌, Bool, true, false,
  List, [], ◌∷◌, ◌++◌, none, some, length, take, All, arith,
}
use dns_security_dataplane.Name.{is_empty}
use dns_security_dataplane.Ipc.{find_char}
use dns_security_dataplane.Ipc.Find.{find_text-append, find_text-none, take-append}

pub record Doubles (D : Type 0) : Type 0 where
  pub of_nat : ℕ → D
  pub sub : D → D → D
  pub mul : D → D → D
  pub div : D → D → D
  pub log2 : D → D
  pub at_least : D → D → Bool

-- `freq[c]++`, where `c` is a byte and `freq` has 256 places.
unfoldable pub increment : ℕ → List ℕ → List ℕ
increment c [] = []
increment zero (n ∷ freq) = (n + 1) ∷ freq
increment (suc c) (n ∷ freq) = n ∷ increment c freq

unfoldable pub tally : List ℕ → List ℕ → List ℕ
tally [] freq = freq
tally (c ∷ str) freq = tally str (increment c freq)

abbrev pub zeros : ℕ → List ℕ
zeros zero = []
zeros (suc n) = 0 ∷ zeros n

module _ {D : Type 0} (doubles : Doubles D) where
  -- The loop over `freq`.
  unfoldable pub add_up : D → List ℕ → D → D
  add_up len [] entropy = entropy
  add_up len (count ∷ freq) entropy =
      let p = doubles.div (doubles.of_nat count) len in
      let next = add_up len freq (doubles.sub entropy (doubles.mul p (doubles.log2 p))) in
      let skipped = add_up len freq entropy in if ltb 0 count then next else skipped

  unfoldable pub calculate : List ℕ → D
  calculate str =
      if is_empty str
      then doubles.of_nat 0
      else add_up (doubles.of_nat (length str)) (tally str (zeros 256)) (doubles.of_nat 0)

  abbrev pub first_label : List ℕ → List ℕ
  first_label domain = elim (find_char b'.' 0 domain) [
    | none ↦ domain
    | some first_dot ↦ take first_dot domain
  ]

  unfoldable pub is_suspicious_entropy : List ℕ → D → Bool
  is_suspicious_entropy domain threshold =
      if ltb (length (first_label domain)) 8
      then false
      else doubles.at_least (calculate (first_label domain)) threshold

increment-increment :
    (a b : ℕ) (freq : List ℕ) → increment a (increment b freq) ≡ increment b (increment a freq)
unfolding increment
increment-increment a b [] = refl
increment-increment zero zero (n ∷ freq) = refl
increment-increment zero (suc b) (n ∷ freq) = refl
increment-increment (suc a) zero (n ∷ freq) = refl
increment-increment (suc a) (suc b) (n ∷ freq) = ap (λ f. n ∷ f) (increment-increment a b freq)

-- The order of the letters does not count.
tally-Perm : {s t : List ℕ} → Permᴰ s t → (freq : List ℕ) → tally s freq ≡ tally t freq
unfolding tally
tally-Perm nil freq = refl
tally-Perm (cons {a} {b} e p) freq = rw e (tally-Perm p (increment b freq))
tally-Perm (swap {a} {b} {l = l} e f) freq =
    rw (← e, ← f) (ap (tally l) (increment-increment b a freq))
tally-Perm (trans p q) freq = tally-Perm p freq ∙ tally-Perm q freq

length-Perm : {s t : List ℕ} → Permᴰ s t → length s ≡ length t
length-Perm nil = refl
length-Perm (cons e p) = ap suc (length-Perm p)
length-Perm (swap e f) = refl
length-Perm (trans p q) = length-Perm p ∙ length-Perm q

empty-length : (s : List ℕ) → is_empty s ≡ (if ltb 0 (length s) then false else true)
empty-length [] = refl
empty-length (c ∷ s) = ground arith

module _ {D : Type 0} (doubles : Doubles D) where
  -- The entropy of a text does not depend on the order of its letters, whatever the arithmetic.
  pub calculate-Perm : {s t : List ℕ} → Permᴰ s t → calculate doubles s ≡ calculate doubles t
  unfolding calculate
  calculate-Perm {s} {t} p =
      rw (empty-length s, empty-length t, length-Perm p, tally-Perm p (zeros 256)) refl

  first_label-append :
      (label rest : List ℕ)
      → All (λ c. c ≢ b'.') label
      → first_label doubles (label ++ b'.' ∷ rest) ≡ label
  first_label-append label rest a =
      let dot : find_char b'.' 0 (label ++ b'.' ∷ rest) ≡ some (length label) =
        find_text-append b'.' label rest 0 a ∙ ap some (omega arith) in
      rw (dot, first_label) (take-append label (b'.' ∷ rest))

  -- `label` stands before the first dot of the name, or is all of a name without a dot.
  abbrev pub IsFirstLabel : List ℕ → List ℕ → Type 0
  IsFirstLabel label name =
      All (λ c. c ≢ b'.') label
      × ((name ≡ label) ⊎ ((rest : List ℕ) × (name ≡ label ++ b'.' ∷ rest)))

  first_label-IsFirstLabel :
      (label name : List ℕ) → IsFirstLabel label name → first_label doubles name ≡ label
  first_label-IsFirstLabel label name (a, inl all) =
      let absent : find_char b'.' 0 label ≡ none = find_text-none b'.' label 0 a in
      rw (all, absent, first_label) all
  first_label-IsFirstLabel label name (a, inr (rest, split)) =
      rw split (first_label-append label rest a)

  -- Whether a name is suspicious depends on nothing but the letters of its first label, in any
  -- order: two names, with a dot or without, whose first labels are the same up to order are judged
  -- alike. It does not depend on how `double` computes.
  pub is_suspicious_entropy-Perm :
      {s t : List ℕ} (name name' : List ℕ) (threshold : D)
      → Permᴰ s t
      → IsFirstLabel s name
      → IsFirstLabel t name'
      → is_suspicious_entropy doubles name threshold ≡ is_suspicious_entropy doubles name' threshold
  unfolding is_suspicious_entropy
  is_suspicious_entropy-Perm {s} {t} name name' threshold p a b =
      rw
        (
          first_label-IsFirstLabel s name a,
          first_label-IsFirstLabel t name' b,
          length-Perm p,
          calculate-Perm p,
        )
        refl
