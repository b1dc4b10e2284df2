-- ===== src/Ipc/Fields.antt =====
-- The loop over the strings of a field.
use dns_security_dataplane.Base.{
  ℕ, zero, suc, ◌+◌, ◌≤◌, ◌≡◌, refl, sym, inl, inr, Bool-cases, Option-cases, leb, true, List, [],
  ◌∷◌, Option, some, none, arith, length, drop,
}
use dns_security_dataplane.Ipc.{
  starts_with, find_text, find_char, before_bracket, next_quote, strings_from,
}

find_text-ge :
    (pattern text : List ℕ) (pos : ℕ) {i : ℕ} → find_text pattern text pos ≡ some i → pos ≤ i
unfolding find_text
find_text-ge pattern [] pos e = cc
find_text-ge pattern (c ∷ cs) pos {i} e = elim (Bool-cases (starts_with pattern (c ∷ cs))) [
  | inl s ↦ ground arith
  | inr n ↦
      let later : pos + 1 ≤ i = find_text-ge pattern cs (pos + 1) (ground arith) in omega arith
]

before_bracket-same :
    (end_bracket : ℕ) (o : Option ℕ) {i : ℕ} → before_bracket end_bracket o ≡ some i → o ≡ some i
before_bracket-same end_bracket none e = cc
before_bracket-same end_bracket (some j) e = ground arith

next_quote-ge :
    (json : List ℕ) (pos end_bracket : ℕ) {i : ℕ}
    → next_quote json pos end_bracket ≡ some i
    → pos ≤ i
next_quote-ge json pos end_bracket e =
    find_text-ge (b'"' ∷ []) (drop pos json) pos
      (before_bracket-same end_bracket (find_char b'"' pos json) e)

done :
    (n : ℕ) (json : List ℕ) (curr end_bracket : ℕ)
    → end_bracket ≤ curr
    → strings_from n json curr end_bracket ≡ []
unfolding strings_from
done zero json curr end_bracket h = refl
done (suc n) json curr end_bracket h =
    let t : leb end_bracket curr ≡ true = ground arith in rw t refl

strings_from-fuel :
    (n k : ℕ) (json : List ℕ) (curr end_bracket : ℕ)
    → end_bracket ≤ curr + n
    → end_bracket ≤ curr + k
    → strings_from n json curr end_bracket ≡ strings_from k json curr end_bracket
unfolding strings_from
strings_from-fuel zero k json curr end_bracket h g =
    sym (done k json curr end_bracket (omega arith))
strings_from-fuel (suc n) zero json curr end_bracket h g =
    done (suc n) json curr end_bracket (omega arith)
strings_from-fuel (suc n) (suc k) json curr end_bracket h g =
    go (next_quote json curr end_bracket) refl (λ c l.
      strings_from-fuel n k json (c + 1) end_bracket (omega (arith, l, h)) (omega (arith, l, g)))
  where
    go :
        (o : Option ℕ)
        → next_quote json curr end_bracket ≡ o
        → ((c : ℕ)
            → curr ≤ c
            → strings_from n json (c + 1) end_bracket ≡ strings_from k json (c + 1) end_bracket)
        → strings_from (suc n) json curr end_bracket ≡ strings_from (suc k) json curr end_bracket
    go none e ih = rw e refl
    go (some i) e ih = elim (Option-cases (next_quote json (i + 1) end_bracket)) [
      | inl d ↦ rw (e, d) refl
      | inr (j, d) ↦
          let a : curr ≤ i = next_quote-ge json curr end_bracket e in
          let b : i + 1 ≤ j = next_quote-ge json (i + 1) end_bracket d in
          rw (e, d, ih j (omega (arith, a, b))) refl
    ]

-- With as much fuel as the request is long, the loop over the strings of a field ends by itself: no
-- further fuel changes its result. The bracket that ends the field is inside the request.
pub strings_from-enough :
    (fuel : ℕ) (json : List ℕ) (curr end_bracket : ℕ)
    → end_bracket ≤ length json
    → length json ≤ fuel
    → strings_from fuel json curr end_bracket ≡ strings_from (length json) json curr end_bracket
strings_from-enough fuel json curr end_bracket h g =
    strings_from-fuel fuel (length json) json curr end_bracket (omega (arith, h, g))
      (omega (arith, h))
