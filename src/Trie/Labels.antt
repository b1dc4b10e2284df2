-- ===== src/Trie/Labels.antt =====
-- `split_labels_reversed` against a description of the labels of a name that does not use it.
use mathlib.Core.List.{reverse-append, reverse-reverse, append_assoc, append-nil}
use dns_security_dataplane.Base.{
  ℕ, ◌+◌, ◌==◌, ==_iff, leb, ◌&&◌, if◌then◌else◌, Bool-cases, true, ◌≡◌, ◌≢◌, refl, sym, ap, ◌∙◌,
  ◌⊎◌, inl, inr, ◌↔◌, List, [], ◌∷◌, ◌++◌, reverse,
}
use dns_security_dataplane.Name.{tolower}
use dns_security_dataplane.Trie.{
  matches, empty_trie, trim_front, push_label, labels_from, split_labels_reversed,
}
use dns_security_dataplane.Trie.Matches.{insert_all}
use dns_security_dataplane.Trie.Suffix.{Begins, Blocks, matches_iff}

-- A letter from A to Z (65 to 90) as the one from a to z; any other byte as it is.
abbrev pub lower : ℕ → ℕ
lower c = if leb 65 c && leb c 90 then c + 32 else c

abbrev pub before_first : List ℕ → List (List ℕ) → List (List ℕ)
before_first s [] = []
before_first s (l ∷ ls) = (s ++ l) ∷ ls

-- The texts between the dots, those that are empty included.
unfoldable pub segments : List ℕ → List (List ℕ)
segments [] = [] ∷ []
segments (c ∷ cs) =
    if c == b'.' then [] ∷ segments cs else before_first (lower c ∷ []) (segments cs)

unfoldable pub non_empty : List (List ℕ) → List (List ℕ)
non_empty [] = []
non_empty ([] ∷ ls) = non_empty ls
non_empty ((c ∷ l) ∷ ls) = (c ∷ l) ∷ non_empty ls

-- The labels of a name, from left to right, in lower case.
abbrev pub labels_of : List ℕ → List (List ℕ)
labels_of domain = non_empty (segments domain)

-- The last labels of the domain are all labels of the rule, which has one at least.
abbrev pub EndsWith : List ℕ → List ℕ → Type 0
EndsWith rule domain =
    (labels_of rule ≢ []) × ((front : List (List ℕ)) × (labels_of domain ≡ front ++ labels_of rule))

abbrev pub EndsWithRule : List (List ℕ × ℕ) → List ℕ → Type 0
EndsWithRule [] domain = ⊥
EndsWithRule ((rule, r) ∷ rules) domain = EndsWith rule domain ⊎ EndsWithRule rules domain

push_label-non_empty :
    (l : List ℕ) (ls : List (List ℕ)) → push_label l (non_empty ls) ≡ non_empty (l ∷ ls)
unfolding non_empty
push_label-non_empty [] ls = refl
push_label-non_empty (c ∷ l) ls = refl

before_first-nil : (ls : List (List ℕ)) → before_first [] ls ≡ ls
before_first-nil [] = refl
before_first-nil (l ∷ ls) = refl

before_first-before_first :
    (s t : List ℕ) (ls : List (List ℕ))
    → before_first s (before_first t ls) ≡ before_first (s ++ t) ls
before_first-before_first s t [] = refl
before_first-before_first s t (l ∷ ls) = ap (λ x. x ∷ ls) (sym (append_assoc s t l))

labels_from-segments : (l cs : List ℕ) → labels_from l cs ≡ non_empty (before_first l (segments cs))
unfolding labels_from segments tolower non_empty
labels_from-segments l [] = rw (append-nil l) (push_label-non_empty l [])
labels_from-segments l (c ∷ cs) = elim (Bool-cases (c == b'.')) [
  | inl dot ↦
      rw
        (
          dot,
          labels_from-segments [] cs,
          before_first-nil (segments cs),
          append-nil l,
          push_label-non_empty l (segments cs),
        )
        refl
  | inr other ↦
      rw
        (
          other,
          labels_from-segments (l ++ lower c ∷ []) cs,
          before_first-before_first l (lower c ∷ []) (segments cs),
        )
        refl
]

labels_from-trim_front : (cs : List ℕ) → labels_from [] (trim_front cs) ≡ labels_from [] cs
unfolding labels_from trim_front
labels_from-trim_front [] = refl
labels_from-trim_front (c ∷ cs) = elim (Bool-cases (c == b'.')) [
  | inl dot ↦ rw dot (labels_from-trim_front cs)
  | inr other ↦ let same : trim_front (c ∷ cs) ≡ c ∷ cs = rw other refl in ap (labels_from []) same
]

labels_from-dot : (l cs : List ℕ) → labels_from l (cs ++ b'.' ∷ []) ≡ labels_from l cs
unfolding labels_from
labels_from-dot l [] = refl
labels_from-dot l (c ∷ cs) =
    rw (labels_from-dot [] cs, labels_from-dot (l ++ tolower c ∷ []) cs) refl

labels_from-trim_back :
    (cs : List ℕ) → labels_from [] (reverse (trim_front cs)) ≡ labels_from [] (reverse cs)
unfolding trim_front
labels_from-trim_back [] = refl
labels_from-trim_back (c ∷ cs) = elim (Bool-cases (c == b'.')) [
  | inl dot ↦
      let is_dot : c ≡ b'.' = (==_iff c b'.').0 dot in
      rw dot (
        labels_from-trim_back cs
        ∙ sym (labels_from-dot [] (reverse cs))
        ∙ ap (labels_from [])
            (sym (ap (λ d. reverse (d ∷ cs)) is_dot ∙ reverse-append (b'.' ∷ []) cs)))
  | inr other ↦ rw other refl
]

split_labels_reversed-labels_of :
    (domain : List ℕ) → split_labels_reversed domain ≡ reverse (labels_of domain)
unfolding split_labels_reversed
split_labels_reversed-labels_of domain = ap reverse (
    labels_from-trim_back (reverse (trim_front domain))
    ∙ ap (labels_from []) (reverse-reverse (trim_front domain))
    ∙ labels_from-trim_front domain
    ∙ labels_from-segments [] domain
    ∙ ap non_empty (before_first-nil (segments domain)))

Begins-append :
    (ks ls : List (List ℕ)) → Begins ks ls ↔ ((rest : List (List ℕ)) × (ls ≡ ks ++ rest))
Begins-append [] ls = (λ b. (ls, refl), λ r. tt)
Begins-append (k ∷ ks) [] = (λ b. absurd b, λ (rest, e). cc)
Begins-append (k ∷ ks) (l ∷ ls) = (
  λ (same, b).
      let (rest, e) = (Begins-append ks ls).0 b in
      (rest, ap (λ x. x ∷ ls) (sym same) ∙ ap (λ x. k ∷ x) e),
  λ (rest, e). (cc, (Begins-append ks ls).1 (rest, cc)),
)

-- Read from the end, the labels of the rule come first.
Begins-front :
    (ks ls : List (List ℕ))
    → Begins (reverse ks) (reverse ls) ↔ ((front : List (List ℕ)) × (ls ≡ front ++ ks))
Begins-front ks ls = (
  λ b.
      let (rest, e) = (Begins-append (reverse ks) (reverse ls)).0 b in
      (
        reverse rest,
        sym (reverse-reverse ls)
            ∙ ap reverse e
            ∙ reverse-append (reverse ks) rest
            ∙ ap (λ x. reverse rest ++ x) (reverse-reverse ks),
      ),
  λ (front, e).
      (Begins-append (reverse ks) (reverse ls)).1
        (reverse front, ap reverse e ∙ reverse-append front ks),
)

reverse_not_nil : (ls : List (List ℕ)) → (reverse ls ≢ []) ↔ (ls ≢ [])
reverse_not_nil ls = (λ n e. n (ap reverse e), λ n e. n (sym (reverse-reverse ls) ∙ ap reverse e))

split-EndsWith :
    (rule domain : List ℕ)
    → ((split_labels_reversed rule ≢ [])
        × Begins (split_labels_reversed rule) (split_labels_reversed domain))
      ↔ EndsWith rule domain
split-EndsWith rule domain =
    rw (split_labels_reversed-labels_of rule, split_labels_reversed-labels_of domain)
      (
        λ (n, b). (
          (reverse_not_nil (labels_of rule)).0 n,
          (Begins-front (labels_of rule) (labels_of domain)).0 b,
        ),
        λ (n, e). (
          (reverse_not_nil (labels_of rule)).1 n,
          (Begins-front (labels_of rule) (labels_of domain)).1 e,
        ),
      )

Blocks→EndsWithRule :
    (rules : List (List ℕ × ℕ)) (domain : List ℕ)
    → Blocks rules (split_labels_reversed domain)
    → EndsWithRule rules domain
Blocks→EndsWithRule [] domain b = b
Blocks→EndsWithRule ((rule, r) ∷ rules) domain (inl b) = inl ((split-EndsWith rule domain).0 b)
Blocks→EndsWithRule ((rule, r) ∷ rules) domain (inr b) = inr (Blocks→EndsWithRule rules domain b)

EndsWithRule→Blocks :
    (rules : List (List ℕ × ℕ)) (domain : List ℕ)
    → EndsWithRule rules domain
    → Blocks rules (split_labels_reversed domain)
EndsWithRule→Blocks [] domain e = e
EndsWithRule→Blocks ((rule, r) ∷ rules) domain (inl e) = inl ((split-EndsWith rule domain).1 e)
EndsWithRule→Blocks ((rule, r) ∷ rules) domain (inr e) = inr (EndsWithRule→Blocks rules domain e)

pub Blocks-EndsWithRule :
    (rules : List (List ℕ × ℕ)) (domain : List ℕ)
    → Blocks rules (split_labels_reversed domain) ↔ EndsWithRule rules domain
Blocks-EndsWithRule rules domain =
    (Blocks→EndsWithRule rules domain, EndsWithRule→Blocks rules domain)

-- A domain is blocked exactly if, for some rule that was inserted, the rule has a label and the
-- domain's last labels are the labels of the rule, in lower case; the labels are the texts between
-- the dots that are not empty. So a domain that only ends with the rule's text is not blocked.
pub matches-EndsWithRule :
    (rules : List (List ℕ × ℕ)) (domain : List ℕ) (out : ℕ)
    → ((matches domain out (insert_all rules empty_trie)).0 ≡ true) ↔ EndsWithRule rules domain
matches-EndsWithRule rules domain out = (
  λ h. (Blocks-EndsWithRule rules domain).0 ((matches_iff rules domain out).0 h),
  λ e. (matches_iff rules domain out).1 ((Blocks-EndsWithRule rules domain).1 e),
)
