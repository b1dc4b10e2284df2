-- ===== src/Cache/Keys.antt =====
-- Different questions have different keys.
use dns_security_dataplane.Base.{
  ℕ, ◌≡◌, ◌≢◌, refl, sym, ap, ◌∙◌, inr, List, [], ◌∷◌, ◌++◌, All, arith,
}
use mathlib.Core.List.{append_assoc}
use dns_security_dataplane.Text.{to_string, to_string-injective, to_string-All}
use dns_security_dataplane.Cache.{make_key}

no_colon : (ys es : List ℕ) → ¬ All (λ c. c ≢ b':') (ys ++ b':' ∷ es)
no_colon [] es a = a.0 refl
no_colon (y ∷ ys) es a = no_colon ys es a.1

abbrev head_or : List ℕ → ℕ
head_or [] = 0
head_or (x ∷ xs) = x

abbrev tail_of : List ℕ → List ℕ
tail_of [] = []
tail_of (x ∷ xs) = xs

-- The text up to the last colon, and the text behind it.
split_last :
    (xs ys ds es : List ℕ)
    → All (λ c. c ≢ b':') ds
    → All (λ c. c ≢ b':') es
    → xs ++ b':' ∷ ds ≡ ys ++ b':' ∷ es
    → (xs ≡ ys) × (ds ≡ es)
split_last [] [] ds es a b h = (refl, ap tail_of h)
split_last [] (y ∷ ys) ds es a b h =
    let e : ds ≡ ys ++ b':' ∷ es = ap tail_of h in absurd (no_colon ys es (rw e at a))
split_last (x ∷ xs) [] ds es a b h =
    let e : es ≡ xs ++ b':' ∷ ds = sym (ap tail_of h) in absurd (no_colon xs ds (rw e at b))
split_last (x ∷ xs) (y ∷ ys) ds es a b h =
    let (p, q) = split_last xs ys ds es a b (ap tail_of h) in (ground (arith, ap head_or h, p), q)

-- Two questions with one cache key have the same name, type and class, colons in the name included.
pub make_key-injective :
    (qname qname' : List ℕ) (qtype qtype' qclass qclass' : ℕ)
    → make_key qname qtype qclass ≡ make_key qname' qtype' qclass'
    → (qname ≡ qname') × (qtype ≡ qtype') × (qclass ≡ qclass')
unfolding make_key
make_key-injective qname qname' qtype qtype' qclass qclass' h =
    let (front, c) =
      split_last (qname ++ b':' ∷ to_string qtype) (qname' ++ b':' ∷ to_string qtype')
        (to_string qclass) (to_string qclass') (to_string-All b':' qclass (inr (omega arith)))
        (to_string-All b':' qclass' (inr (omega arith)))
        (append_assoc qname _ _ ∙ h ∙ sym (append_assoc qname' _ _)) in
    let (n, t) =
      split_last qname qname' (to_string qtype) (to_string qtype')
        (to_string-All b':' qtype (inr (omega arith)))
        (to_string-All b':' qtype' (inr (omega arith))) front in
    (n, to_string-injective qtype qtype' t, to_string-injective qclass qclass' c)
