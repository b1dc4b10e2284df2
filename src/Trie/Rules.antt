-- ===== src/Trie/Rules.antt =====
-- The trie as a table from label sequences to rules.
use dns_security_dataplane.Base.{
  ℕ, ◌≡◌, refl, inl, inr, if◌then◌else◌, Bool, true, false, ◌&&◌, List, [], ◌∷◌, Option, none, some,
  bytes_eq, bytes_eq_iff, arith, Option-cases,
}
use dns_security_dataplane.Trie.{
  TrieNode, Children, node, nil, cons, new_node, is_terminal, rule_id, children, find_child,
  set_child, or_new, insert_at,
}

-- The rule that ends at a sequence of labels below a node.
unfoldable pub rule_at : TrieNode → List (List ℕ) → Option ℕ
rule_at n [] = if is_terminal n then some (rule_id n) else none
rule_at n (l ∷ ls) = elim (find_child l (children n)) [ none ↦ none | some next ↦ rule_at next ls ]

unfoldable pub labels_eq : List (List ℕ) → List (List ℕ) → Bool
labels_eq [] [] = true
labels_eq [] (l ∷ ls) = false
labels_eq (k ∷ ks) [] = false
labels_eq (k ∷ ks) (l ∷ ls) = bytes_eq k l && labels_eq ks ls

abbrev pub or_else : Option ℕ → ℕ → Option ℕ
or_else none r = some r
or_else (some q) r = some q

pub find-set_child :
    (l k : List ℕ) (m : TrieNode) (cs : Children)
    → find_child k (set_child l m cs) ≡ (if bytes_eq l k then some m else find_child k cs)
unfolding find_child set_child
find-set_child l k m nil = refl
find-set_child l k m (cons j n cs) =
    ground (arith, bytes_eq_iff l k, bytes_eq_iff j l, bytes_eq_iff j k, find-set_child l k m cs)

rule_at-new : (ks : List (List ℕ)) → rule_at new_node ks ≡ none
unfolding rule_at find_child
rule_at-new [] = refl
rule_at-new (k ∷ ks) = refl

rule_at-or_new :
    (n : TrieNode) (l : List ℕ) (ks : List (List ℕ))
    → rule_at (or_new (find_child l (children n))) ks ≡ rule_at n (l ∷ ks)
unfolding rule_at
rule_at-or_new n l ks = elim (Option-cases (find_child l (children n))) [
  | inl e ↦ rw (e, rule_at) (rule_at-new ks)
  | inr (m, e) ↦ rw (e, rule_at)
]

-- An insertion sets the rule of its own labels, if they had none, and changes no other.
pub rule_at-insert_at :
    (ls : List (List ℕ)) (r : ℕ) (n : TrieNode) (ks : List (List ℕ))
    → rule_at (insert_at ls r n).0 ks
      ≡ (if labels_eq ls ks then or_else (rule_at n ks) r else rule_at n ks)
unfolding rule_at insert_at labels_eq
rule_at-insert_at [] r (node t q cs) [] = ground arith
rule_at-insert_at [] r (node t q cs) (k ∷ ks) = ground arith
rule_at-insert_at (l ∷ ls) r (node t q cs) [] = refl
rule_at-insert_at (l ∷ ls) r (node t q cs) (k ∷ ks) =
    let ih = rule_at-insert_at ls r (or_new (find_child l cs)) ks in
    let sub = rule_at-or_new (node t q cs) l ks in
    ground (
      arith,
      find-set_child l k (insert_at ls r (or_new (find_child l cs))).0 cs,
      bytes_eq_iff l k,
      ih,
      sub,
    )
