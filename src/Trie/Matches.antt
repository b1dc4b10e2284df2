-- ===== src/Trie/Matches.antt =====
-- `matches` against the list of the rules that were inserted.
use dns_security_dataplane.Base.{
  ℕ, ◌≡◌, refl, ap, ◌∙◌, inl, inr, if◌then◌else◌, Bool, true, false, List, [], ◌∷◌, Option, none,
  some, arith, Bool-cases,
}
use mathlib.Core.Path.{fun_ext}
use dns_security_dataplane.Trie.{
  TrieNode, Trie, node, new_node, empty_trie, is_terminal, rule_id, children, find_child, insert_at,
  insert_labels, insert, walk, matches, matches_labels, split_labels_reversed,
}
use dns_security_dataplane.Trie.Rules.{rule_at, labels_eq, or_else, rule_at-insert_at}

abbrev pub or_later : Option ℕ → Option ℕ → Option ℕ
or_later (some r) later = some r
or_later none later = later

-- The specification. `f` gives the rule of a sequence of labels; the rule that applies is that of
-- the shortest sequence, of one label at least, that `ls` begins with.
unfoldable pub first_rule : (List (List ℕ) → Option ℕ) → List (List ℕ) → Option ℕ
first_rule f [] = none
first_rule f (l ∷ ls) = or_later (f (l ∷ [])) (first_rule (λ ks. f (l ∷ ks)) ls)

-- The first rule of the list with exactly these labels.
unfoldable pub find_rule : List (List ℕ × ℕ) → List (List ℕ) → Option ℕ
find_rule [] ks = none
find_rule ((domain, r) ∷ rules) ks =
    if labels_eq (split_labels_reversed domain) ks then some r else find_rule rules ks

-- A policy as the program builds it: one `insert` after the other.
unfoldable pub insert_all : List (List ℕ × ℕ) → Trie → Trie
insert_all [] trie = trie
insert_all ((domain, r) ∷ rules) trie = insert_all rules (insert domain r trie)

-- `matches` with what it leaves in `*out_rule_id`.
abbrev pub report : Option ℕ → ℕ → Bool × ℕ
report none out = (false, out)
report (some r) out = (true, r)

first_rule-none :
    (f : List (List ℕ) → Option ℕ) (ls : List (List ℕ))
    → ((ks : List (List ℕ)) → f ks ≡ none)
    → first_rule f ls ≡ none
unfolding first_rule
first_rule-none f [] h = refl
first_rule-none f (l ∷ ls) h =
    rw (h (l ∷ []), first_rule-none (λ ks. f (l ∷ ks)) ls (λ ks. h (l ∷ ks)))

first_rule_cong :
    (f g : List (List ℕ) → Option ℕ) (ls : List (List ℕ))
    → ((l : List ℕ) (ks : List (List ℕ)) → f (l ∷ ks) ≡ g (l ∷ ks))
    → first_rule f ls ≡ first_rule g ls
unfolding first_rule
first_rule_cong f g [] h = refl
first_rule_cong f g (l ∷ ls) h =
    cc (h l [], first_rule_cong (λ ks. f (l ∷ ks)) (λ ks. g (l ∷ ks)) ls (λ k ks. h l (k ∷ ks)))

rule_at_child :
    (n m : TrieNode) (l : List ℕ) (ks : List (List ℕ))
    → find_child l (children n) ≡ some m
    → rule_at n (l ∷ ks) ≡ rule_at m ks
unfolding rule_at
rule_at_child n m l ks e = rw (e, rule_at)

rule_at_no_child :
    (n : TrieNode) (l : List ℕ) (ks : List (List ℕ))
    → find_child l (children n) ≡ none
    → rule_at n (l ∷ ks) ≡ none
unfolding rule_at
rule_at_no_child n l ks e = rw (e, rule_at)

rule_at_here : (n : TrieNode) → rule_at n [] ≡ (if is_terminal n then some (rule_id n) else none)
unfolding rule_at
rule_at_here n = refl

walk_missing :
    (n : TrieNode) (l : List ℕ) (ls : List (List ℕ)) (out : ℕ)
    → find_child l (children n) ≡ none
    → walk n (l ∷ ls) out ≡ (false, out)
unfolding walk
walk_missing n l ls out e = rw (e, walk)

walk_child :
    (n m : TrieNode) (l : List ℕ) (ls : List (List ℕ)) (out : ℕ)
    → find_child l (children n) ≡ some m
    → walk n (l ∷ ls) out ≡ (if is_terminal m then (true, rule_id m) else walk m ls out)
unfolding walk
walk_child n m l ls out e = rw (e, walk) (ground arith)

-- The walk from a node that ends no rule finds the rule that the specification says.
walk-first_rule :
    (n : TrieNode) (ls : List (List ℕ)) (out : ℕ)
    → is_terminal n ≡ false
    → walk n ls out ≡ report (first_rule (rule_at n) ls) out
walk-first_rule n [] out t = unfold walk first_rule in ground arith
walk-first_rule n (l ∷ ls) out t =
    go (find_child l (children n)) refl (λ m t'. walk-first_rule m ls out t')
  where
    step :
        first_rule (rule_at n) (l ∷ ls)
        ≡ or_later (rule_at n (l ∷ [])) (first_rule (λ ks. rule_at n (l ∷ ks)) ls)
    step = unfold first_rule in refl

    go :
        (o : Option TrieNode)
        → find_child l (children n) ≡ o
        → ((m : TrieNode)
            → is_terminal m ≡ false
            → walk m ls out ≡ report (first_rule (rule_at m) ls) out)
        → walk n (l ∷ ls) out ≡ report (first_rule (rule_at n) (l ∷ ls)) out
    go none e ih = rw (
      walk_missing n l ls out e,
      step,
      rule_at_no_child n l [] e,
      first_rule-none (λ ks. rule_at n (l ∷ ks)) ls (λ ks. rule_at_no_child n l ks e),
    )
    go (some m) e ih =
        let below : (λ ks. rule_at n (l ∷ ks)) ≡ rule_at m =
          fun_ext (λ ks. rule_at_child n m l ks e) in
        rw (walk_child n m l ls out e, step, rule_at_child n m l [] e, below, rule_at_here m)
          (elim (Bool-cases (is_terminal m)) [ inl y ↦ rw y | inr f ↦ rw f (ih m f) ])

-- What the trie holds after the insertions.
rule_at-insert_labels :
    (ls : List (List ℕ)) (r : ℕ) (trie : Trie) (k : List ℕ) (ks : List (List ℕ))
    → rule_at (insert_labels ls r trie).root (k ∷ ks) ≡ (
        if labels_eq ls (k ∷ ks)
        then or_else (rule_at trie.root (k ∷ ks)) r
        else rule_at trie.root (k ∷ ks))
rule_at-insert_labels [] r trie k ks = unfold labels_eq in refl
rule_at-insert_labels (l ∷ ls) r trie k ks = rule_at-insert_at (l ∷ ls) r trie.root (k ∷ ks)

insert_at-is_terminal :
    (l : List ℕ) (ls : List (List ℕ)) (r : ℕ) (n : TrieNode)
    → is_terminal (insert_at (l ∷ ls) r n).0 ≡ is_terminal n
unfolding insert_at
insert_at-is_terminal l ls r (node t q cs) = refl

insert_labels-is_terminal :
    (ls : List (List ℕ)) (r : ℕ) (trie : Trie)
    → is_terminal (insert_labels ls r trie).root ≡ is_terminal trie.root
insert_labels-is_terminal [] r trie = refl
insert_labels-is_terminal (l ∷ ls) r trie = insert_at-is_terminal l ls r trie.root

insert_all-is_terminal :
    (rules : List (List ℕ × ℕ)) (trie : Trie)
    → is_terminal (insert_all rules trie).root ≡ is_terminal trie.root
unfolding insert_all insert
insert_all-is_terminal [] trie = refl
insert_all-is_terminal ((d, r) ∷ rules) trie =
    insert_all-is_terminal rules (insert d r trie)
    ∙ insert_labels-is_terminal (split_labels_reversed d) r trie

rule_at-insert_all :
    (rules : List (List ℕ × ℕ)) (trie : Trie) (k : List ℕ) (ks : List (List ℕ))
    → rule_at (insert_all rules trie).root (k ∷ ks)
      ≡ or_later (rule_at trie.root (k ∷ ks)) (find_rule rules (k ∷ ks))
unfolding insert_all insert find_rule
rule_at-insert_all [] trie k ks = ground arith
rule_at-insert_all ((d, r) ∷ rules) trie k ks = ground (
  arith,
  rule_at-insert_all rules (insert d r trie) k ks,
  rule_at-insert_labels (split_labels_reversed d) r trie k ks,
)

no_rule : (k : List ℕ) (ks : List (List ℕ)) → rule_at new_node (k ∷ ks) ≡ none
no_rule k ks = unfold rule_at find_child in refl

table :
    (rules : List (List ℕ × ℕ)) (k : List ℕ) (ks : List (List ℕ))
    → rule_at (insert_all rules empty_trie).root (k ∷ ks) ≡ find_rule rules (k ∷ ks)
table rules k ks = rule_at-insert_all rules empty_trie k ks ∙ rw (no_rule k ks)

matches_labels-first_rule :
    (rules : List (List ℕ × ℕ)) (ls : List (List ℕ)) (out : ℕ)
    → matches_labels (insert_all rules empty_trie).root ls out
      ≡ report (first_rule (find_rule rules) ls) out
matches_labels-first_rule rules [] out = unfold first_rule in refl
matches_labels-first_rule rules (l ∷ ls) out =
    walk-first_rule (insert_all rules empty_trie).root (l ∷ ls) out
      (insert_all-is_terminal rules empty_trie)
    ∙ ap (λ o. report o out)
        (first_rule_cong (rule_at (insert_all rules empty_trie).root) (find_rule rules) (l ∷ ls)
          (table rules))

-- After any insertions `matches` finds, and writes to `*out_rule_id`, the rule with the fewest
-- labels that the domain ends with, and among equals the one inserted first; with no such rule it
-- returns false and leaves `*out_rule_id` alone.
pub matches-first_rule :
    (rules : List (List ℕ × ℕ)) (domain : List ℕ) (out : ℕ)
    → matches domain out (insert_all rules empty_trie)
      ≡ report (first_rule (find_rule rules) (split_labels_reversed domain)) out
unfolding matches
matches-first_rule rules domain out =
    matches_labels-first_rule rules (split_labels_reversed domain) out
