-- ===== src/Trie/Suffix.antt =====
-- `matches` and label boundaries: which domains a list of rules blocks.
use dns_security_dataplane.Base.{
  ℕ, ◌≡◌, ◌≢◌, refl, ◌⊎◌, inl, inr, ◌↔◌, if◌then◌else◌, true, List, [], ◌∷◌, Option, none, some,
  bytes_eq_iff, arith, Bool-cases,
}
use dns_security_dataplane.Trie.{matches, split_labels_reversed, empty_trie}
use dns_security_dataplane.Trie.Rules.{labels_eq}
use dns_security_dataplane.Trie.Matches.{
  first_rule, find_rule, insert_all, report, or_later, matches-first_rule,
}

-- `ks` stands at the front of `ls`; of reversed labels, at the end of the domain.
abbrev pub Begins : List (List ℕ) → List (List ℕ) → Type 0
Begins [] ls = Unit
Begins (k ∷ ks) [] = ⊥
Begins (k ∷ ks) (l ∷ ls) = (k ≡ l) × Begins ks ls

-- Some rule has labels, and the domain ends with all of them.
abbrev pub Blocks : List (List ℕ × ℕ) → List (List ℕ) → Type 0
Blocks [] ls = ⊥
Blocks ((domain, r) ∷ rules) ls =
    ((split_labels_reversed domain ≢ []) × Begins (split_labels_reversed domain) ls)
    ⊎ Blocks rules ls

labels_eq→eq : (ks ls : List (List ℕ)) → labels_eq ks ls ≡ true → ks ≡ ls
unfolding labels_eq
labels_eq→eq [] [] h = refl
labels_eq→eq [] (l ∷ ls) h = cc
labels_eq→eq (k ∷ ks) [] h = cc
labels_eq→eq (k ∷ ks) (l ∷ ls) h = ground (arith, bytes_eq_iff k l, labels_eq→eq ks ls)

labels_eq_self : (ks : List (List ℕ)) → labels_eq ks ks ≡ true
unfolding labels_eq
labels_eq_self [] = refl
labels_eq_self (k ∷ ks) = ground (arith, bytes_eq_iff k k, labels_eq_self ks)

first_rule-Begins :
    (f : List (List ℕ) → Option ℕ) (ls : List (List ℕ)) (r : ℕ)
    → first_rule f ls ≡ some r
    → (k : List ℕ) × (ks : List (List ℕ)) × Begins (k ∷ ks) ls × (f (k ∷ ks) ≡ some r)
unfolding first_rule
first_rule-Begins f [] r h = cc
first_rule-Begins f (l ∷ ls) r h = go (f (l ∷ [])) refl (first_rule-Begins (λ ks. f (l ∷ ks)) ls)
  where
    go :
        (o : Option ℕ)
        → f (l ∷ []) ≡ o
        → ((q : ℕ)
            → first_rule (λ ks. f (l ∷ ks)) ls ≡ some q
            → (k : List ℕ) × (ks : List (List ℕ)) × Begins (k ∷ ks) ls × (f (l ∷ k ∷ ks) ≡ some q))
        → (k : List ℕ) × (ks : List (List ℕ)) × Begins (k ∷ ks) (l ∷ ls) × (f (k ∷ ks) ≡ some r)
    go (some q) e ih = (l, [], (refl, tt), ground arith)
    go none e ih = let (k, ks, b, g) = ih r (ground arith) in (l, k ∷ ks, (refl, b), g)

Begins-first_rule :
    (f : List (List ℕ) → Option ℕ) (k : List ℕ) (ks ls : List (List ℕ)) (r : ℕ)
    → Begins (k ∷ ks) ls
    → f (k ∷ ks) ≡ some r
    → (q : ℕ) × (first_rule f ls ≡ some q)
unfolding first_rule
Begins-first_rule f k ks [] r b e = absurd b
Begins-first_rule f k [] (l ∷ ls) r b e = (r, rw (← b.0, e))
Begins-first_rule f k (j ∷ ks) (l ∷ ls) r b e =
    go (f (l ∷ [])) refl (Begins-first_rule (λ ks'. f (l ∷ ks')) j ks ls r b.1 (rw (← b.0) e))
  where
    go :
        (o : Option ℕ)
        → f (l ∷ []) ≡ o
        → (q : ℕ) × (first_rule (λ ks'. f (l ∷ ks')) ls ≡ some q)
        → (q : ℕ) × (or_later (f (l ∷ [])) (first_rule (λ ks'. f (l ∷ ks')) ls) ≡ some q)
    go (some q) h ih = (q, rw h)
    go none h (q, ih) = (q, rw (h, ih))

find_rule-Blocks :
    (rules : List (List ℕ × ℕ)) (k : List ℕ) (ks ls : List (List ℕ)) (r : ℕ)
    → find_rule rules (k ∷ ks) ≡ some r
    → Begins (k ∷ ks) ls
    → Blocks rules ls
unfolding find_rule
find_rule-Blocks [] k ks ls q h b = cc
find_rule-Blocks ((d, r) ∷ rules) k ks ls q h b =
    elim (Bool-cases (labels_eq (split_labels_reversed d) (k ∷ ks))) [
      | inl same ↦
          let e : split_labels_reversed d ≡ k ∷ ks = labels_eq→eq _ _ same in inl (λ n. cc, rw e b)
      | inr other ↦ inr (find_rule-Blocks rules k ks ls q (ground arith) b)
    ]

find_rule-some :
    (rules : List (List ℕ × ℕ)) (ls : List (List ℕ))
    → Blocks rules ls
    → (k : List ℕ) × (ks : List (List ℕ)) × (r : ℕ) × (find_rule rules (k ∷ ks) ≡ some r)
      × Begins (k ∷ ks) ls
unfolding find_rule
find_rule-some [] ls b = absurd b
find_rule-some ((d, r) ∷ rules) ls (inl (n, b)) = go (split_labels_reversed d) refl n b
  where
    go :
        (ds : List (List ℕ))
        → split_labels_reversed d ≡ ds
        → split_labels_reversed d ≢ []
        → Begins (split_labels_reversed d) ls
        → (k : List ℕ) × (ks : List (List ℕ)) × (q : ℕ) × (find_rule ((d, r) ∷ rules) (k ∷ ks)
            ≡ some q)
          × Begins (k ∷ ks) ls
    go [] e n b = absurd (n e)
    go (k ∷ ks) e n b = (k, ks, r, rw (e, labels_eq_self (k ∷ ks)), rw e at b)
find_rule-some ((d, r) ∷ rules) ls (inr more) =
    let (k, ks, q, e, b) = find_rule-some rules ls more in
    (k, ks, (if labels_eq (split_labels_reversed d) (k ∷ ks) then r else q), ground (arith, e), b)

-- A domain is blocked exactly if the labels of some rule, as `split_labels_reversed` gives them, are
-- one at least and stand at the front of the domain's. Trie/Labels says what these labels are.
pub matches_iff :
    (rules : List (List ℕ × ℕ)) (domain : List ℕ) (out : ℕ)
    → ((matches domain out (insert_all rules empty_trie)).0 ≡ true)
      ↔ Blocks rules (split_labels_reversed domain)
matches_iff rules domain out = rw (matches-first_rule rules domain out) (blocked, found)
  where
    ls : List (List ℕ)
    ls = split_labels_reversed domain

    from_report : (o : Option ℕ) → (report o out).0 ≡ true → (r : ℕ) × (o ≡ some r)
    from_report none h = cc
    from_report (some r) h = (r, refl)

    blocked : (report (first_rule (find_rule rules) ls) out).0 ≡ true → Blocks rules ls
    blocked h =
        let (r, e) = from_report (first_rule (find_rule rules) ls) h in
        let (k, ks, b, f) = first_rule-Begins (find_rule rules) ls r e in
        find_rule-Blocks rules k ks ls r f b

    found : Blocks rules ls → (report (first_rule (find_rule rules) ls) out).0 ≡ true
    found b =
        let (k, ks, r, f, begins) = find_rule-some rules ls b in
        let (q, e) = Begins-first_rule (find_rule rules) k ks ls r begins f in rw e
