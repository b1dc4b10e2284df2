-- ===== src/Trie/Size.antt =====
-- `size()` counts the nodes that end a rule.
use dns_security_dataplane.Base.{
  ℕ, ◌+◌, ◌≡◌, refl, if◌then◌else◌, true, false, List, [], ◌∷◌, bytes_eq, arith, Bool-cases, inl,
  inr,
}
use dns_security_dataplane.Trie.{
  TrieNode, Children, Trie, node, nil, cons, empty_trie, find_child, set_child, or_new, insert_at,
  insert_labels, insert, split_labels_reversed,
}
use dns_security_dataplane.Trie.Matches.{insert_all}

unfoldable mutual
  pub terminals : TrieNode → ℕ
  terminals (node t r cs) = (if t then 1 else 0) + terminals_in cs

  pub terminals_in : Children → ℕ
  terminals_in nil = 0
  terminals_in (cons l n cs) = terminals n + terminals_in cs

terminals-set_child :
    (l : List ℕ) (m : TrieNode) (cs : Children)
    → terminals_in (set_child l m cs) + terminals (or_new (find_child l cs))
      ≡ terminals_in cs + terminals m
unfolding terminals find_child set_child
terminals-set_child l m nil = omega arith
terminals-set_child l m (cons k n cs) = elim (Bool-cases (bytes_eq k l)) [
  | inl same ↦ rw same (omega arith)
  | inr other ↦ rw other (omega (arith, terminals-set_child l m cs))
]

terminals-insert_at :
    (ls : List (List ℕ)) (r : ℕ) (n : TrieNode)
    → terminals (insert_at ls r n).0 ≡ terminals n + (if (insert_at ls r n).1 then 1 else 0)
unfolding terminals insert_at
terminals-insert_at [] r (node true q cs) = omega arith
terminals-insert_at [] r (node false q cs) = omega arith
terminals-insert_at (l ∷ ls) r (node t q cs) = omega (
  arith,
  terminals-set_child l (insert_at ls r (or_new (find_child l cs))).0 cs,
  terminals-insert_at ls r (or_new (find_child l cs)),
)

terminals-insert_labels :
    (ls : List (List ℕ)) (r : ℕ) (trie : Trie)
    → trie.size ≡ terminals trie.root
    → (insert_labels ls r trie).size ≡ terminals (insert_labels ls r trie).root
terminals-insert_labels [] r trie h = h
terminals-insert_labels (l ∷ ls) r trie h = ground (arith, terminals-insert_at (l ∷ ls) r trie.root)

insert_all-size :
    (rules : List (List ℕ × ℕ)) (trie : Trie)
    → trie.size ≡ terminals trie.root
    → (insert_all rules trie).size ≡ terminals (insert_all rules trie).root
unfolding insert_all insert
insert_all-size [] trie h = h
insert_all-size ((d, r) ∷ rules) trie h =
    insert_all-size rules (insert d r trie)
      (terminals-insert_labels (split_labels_reversed d) r trie h)

-- However the rules repeat or share labels, the size is the number of the nodes that end a rule.
pub size-terminals :
    (rules : List (List ℕ × ℕ))
    → (insert_all rules empty_trie).size ≡ terminals (insert_all rules empty_trie).root
size-terminals rules = insert_all-size rules empty_trie (unfold terminals in refl)
