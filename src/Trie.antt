-- ===== src/Trie.antt =====
-- dataplane/include/engine/suffix_trie.h and dataplane/src/engine/suffix_trie.cpp:
-- `DomainSuffixTrie`. A node owns its children, so the pointers form a tree, and a walk that
-- changes the last node is a function that rebuilds the path to it.
pub mod Rules
pub mod Matches
pub mod Suffix
pub mod Labels
pub mod Size
use dns_security_dataplane.Base.{
  ℕ, ◌+◌, ◌==◌, if◌then◌else◌, Bool, true, false, List, [], ◌∷◌, ◌++◌, reverse, Option, none, some,
  bytes_eq,
}
use dns_security_dataplane.Name.{tolower, is_empty}

mutual
  -- `is_terminal`, `rule_id`, `children`.
  pub data TrieNode : Type 0 where
    node : Bool → ℕ → Children → TrieNode

  pub data Children : Type 0 where
    nil : Children
    cons : List ℕ → TrieNode → Children → Children

pub record Trie : Type 0 where
  pub root : TrieNode
  pub size : ℕ

abbrev pub new_node : TrieNode
new_node = node false 0 nil

abbrev pub empty_trie : Trie
empty_trie = record { root = new_node; size = 0 }

abbrev pub is_terminal : TrieNode → Bool
is_terminal (node t r cs) = t

abbrev pub rule_id : TrieNode → ℕ
rule_id (node t r cs) = r

abbrev pub children : TrieNode → Children
children (node t r cs) = cs

unfoldable pub find_child : List ℕ → Children → Option TrieNode
find_child l nil = none
find_child l (cons k n cs) = if bytes_eq k l then some n else find_child l cs

unfoldable pub set_child : List ℕ → TrieNode → Children → Children
set_child l m nil = cons l m nil
set_child l m (cons k n cs) = if bytes_eq k l then cons k m cs else cons k n (set_child l m cs)

-- The two loops that trim dots from the ends.
unfoldable pub trim_front : List ℕ → List ℕ
trim_front [] = []
trim_front (c ∷ cs) = if c == b'.' then trim_front cs else c ∷ cs

abbrev pub trim_back : List ℕ → List ℕ
trim_back domain = reverse (trim_front (reverse domain))

abbrev pub push_label : List ℕ → List (List ℕ) → List (List ℕ)
push_label label labels = if is_empty label then labels else label ∷ labels

-- The loop over the labels; `label` is what was read of the current one.
unfoldable pub labels_from : List ℕ → List ℕ → List (List ℕ)
labels_from label [] = push_label label []
labels_from label (c ∷ cs) =
    let next = push_label label (labels_from [] cs) in
    let longer = labels_from (label ++ tolower c ∷ []) cs in if c == b'.' then next else longer

unfoldable pub split_labels_reversed : List ℕ → List (List ℕ)
unfolding labels_from trim_front
split_labels_reversed domain = reverse (labels_from [] (trim_back (trim_front domain)))

abbrev pub or_new : Option TrieNode → TrieNode
or_new none = new_node
or_new (some n) = n

-- The walk of `insert`: the node as it is afterwards, and whether a rule was added.
unfoldable pub insert_at : List (List ℕ) → ℕ → TrieNode → TrieNode × Bool
insert_at [] rule (node t r cs) = if t then (node t r cs, false) else (node true rule cs, true)
insert_at (l ∷ ls) rule (node t r cs) =
    let (sub, added) = insert_at ls rule (or_new (find_child l cs)) in
    (node t r (set_child l sub cs), added)

abbrev pub insert_labels : List (List ℕ) → ℕ → Trie → Trie
insert_labels [] rule trie = trie
insert_labels (l ∷ ls) rule trie =
    let (root, added) = insert_at (l ∷ ls) rule trie.root in
    record { root = root; size = if added then trie.size + 1 else trie.size }

unfoldable pub insert : List ℕ → ℕ → Trie → Trie
insert domain rule trie = insert_labels (split_labels_reversed domain) rule trie

-- The walk of `matches`; `out` is what `*out_rule_id` holds.
unfoldable pub walk : TrieNode → List (List ℕ) → ℕ → Bool × ℕ
walk curr [] out = (is_terminal curr, out)
walk curr (l ∷ ls) out = elim (find_child l (children curr)) [
  | none ↦ (false, out)
  | some next ↦ elim (is_terminal next) [ true ↦ (true, rule_id next) | false ↦ walk next ls out ]
]

abbrev pub matches_labels : TrieNode → List (List ℕ) → ℕ → Bool × ℕ
matches_labels root [] out = (false, out)
matches_labels root (l ∷ ls) out = walk root (l ∷ ls) out

unfoldable pub matches : List ℕ → ℕ → Trie → Bool × ℕ
matches domain out trie = matches_labels trie.root (split_labels_reversed domain) out
