-- ===== src/Examples/Matching.antt =====
-- The Aho-Corasick matcher: the patterns of dataplane/tests/test_stage5.cpp.
use dns_security_dataplane.Base.{ℕ, ◌≡◌, refl, Bool, true, false, List, [], ◌∷◌, Option, none, some}
use dns_security_dataplane.Base.Map.{find, assign}
use dns_security_dataplane.Name.{tolower}
use dns_security_dataplane.Text.{codes}
use dns_security_dataplane.AhoCorasick.{
  AhoCorasick, new_automaton, insert, insert_chars, node_at, update_at, follow, link_child,
  link_children, link_all, link_roots, build, search_from, contains_any,
}
use dns_security_dataplane.AhoCorasick.Automaton.{
  IsAutomaton, with_pattern, new_automaton-IsAutomaton, insert-IsAutomaton, build-IsAutomaton,
}
use dns_security_dataplane.AhoCorasick.Matches.{insert_all, IsMatch, contains_any-IsMatch}

abbrev two_patterns : List (List ℕ × ℕ)
two_patterns = (codes "Evil.com", 1) ∷ (codes "phish.org", 2) ∷ []

-- A pattern and an end of it.
abbrev nested : List (List ℕ × ℕ)
nested = (codes "a.co", 1) ∷ (codes "co", 2) ∷ []

abbrev searched : List (List ℕ × ℕ) → List ℕ → Option (Bool × ℕ)
searched patterns text = elim (build (insert_all patterns new_automaton)) [
  | none ↦ none
  | some ac ↦ contains_any ac text 0
]

search_found : searched two_patterns (codes "bad-evil.com-site") ≡ some (true, 1)
unfolding build insert_all contains_any insert insert_chars node_at update_at follow link_child
    link_children link_all link_roots search_from tolower find assign
search_found = refl

search_absent : searched two_patterns (codes "clean-site.com") ≡ some (false, 0)
unfolding build insert_all contains_any insert insert_chars node_at update_at follow link_child
    link_children link_all link_roots search_from tolower find assign
search_absent = refl

-- The rule of a pattern gives way to that of an end of it.
nested_rule : searched nested (codes "a.co") ≡ some (true, 2)
unfolding build insert_all contains_any insert insert_chars node_at update_at follow link_child
    link_children link_all link_roots search_from tolower find assign
nested_rule = refl

contains_any-IsMatch_example :
    (ac : AhoCorasick) × (build (insert_all two_patterns new_automaton) ≡ some ac)
    × (r : Bool × ℕ) × (contains_any ac (codes "bad-evil.com-site") 0 ≡ some r)
    × IsMatch two_patterns (codes "bad-evil.com-site") 0 r
contains_any-IsMatch_example = contains_any-IsMatch two_patterns (codes "bad-evil.com-site") 0

insert-IsAutomaton_example :
    IsAutomaton (with_pattern (codes "Evil.com") 1 []) (insert (codes "Evil.com") 1 new_automaton)
insert-IsAutomaton_example =
    insert-IsAutomaton (codes "Evil.com") 1 [] new_automaton new_automaton-IsAutomaton

build-IsAutomaton_example :
    (ac : AhoCorasick) × (build (insert (codes "Evil.com") 1 new_automaton) ≡ some ac)
    × IsAutomaton (with_pattern (codes "Evil.com") 1 []) ac
    × (ac.built ≡ true)
build-IsAutomaton_example =
    build-IsAutomaton (with_pattern (codes "Evil.com") 1 [])
      (insert (codes "Evil.com") 1 new_automaton)
      (insert-IsAutomaton (codes "Evil.com") 1 [] new_automaton new_automaton-IsAutomaton)
