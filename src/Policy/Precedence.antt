-- ===== src/Policy/Precedence.antt =====
-- Which names a policy blocks.
use dns_security_dataplane.Base.{
  ℕ, ◌≡◌, refl, ◌⊎◌, inl, inr, ◌↔◌, if◌then◌else◌, true, false, List, [], ◌∷◌, none, some, arith,
  Bool-cases, bytes_Eq,
}
use dns_security_dataplane.Base.Map.{find}
use dns_security_dataplane.Base.Set.{contains}
use dns_security_dataplane.Trie.{empty_trie, matches, split_labels_reversed}
use dns_security_dataplane.Trie.Matches.{insert_all}
use dns_security_dataplane.Trie.Suffix.{Blocks, matches_iff}
use dns_security_dataplane.Policy.{Action, PolicySnapshot, evaluate, evaluate_engine}

evaluate_cases :
    (s : PolicySnapshot) (dom : List ℕ)
    → ((evaluate s dom).action ≡ Action.block_nxdomain) ↔ (
        (contains dom s.allowlist ≡ false)
        × ((contains dom s.exact_blocks ≡ true) ⊎ ((matches dom 0 s.suffix_trie).0 ≡ true)))
unfolding evaluate
evaluate_cases s dom = (λ h. ground arith, λ h. ground arith)

-- A snapshot only allows a name or answers NXDOMAIN, though the action type has two more cases.
pub evaluate_two :
    (s : PolicySnapshot) (dom : List ℕ)
    → ((evaluate s dom).action ≡ Action.allow) ⊎ ((evaluate s dom).action ≡ Action.block_nxdomain)
unfolding evaluate
evaluate_two s dom = ground arith

-- A snapshot whose trie was filled with a list of rules blocks a name exactly if the name is not on
-- the allowlist, and is an exact block or ends with the labels of a rule.
pub evaluate_iff :
    (s : PolicySnapshot) (rules : List (List ℕ × ℕ)) (dom : List ℕ)
    → s.suffix_trie ≡ insert_all rules empty_trie
    → ((evaluate s dom).action ≡ Action.block_nxdomain) ↔ (
        (contains dom s.allowlist ≡ false)
        × ((contains dom s.exact_blocks ≡ true) ⊎ Blocks rules (split_labels_reversed dom)))
evaluate_iff s rules dom e = (to, from)
  where
    trie : ((matches dom 0 s.suffix_trie).0 ≡ true) ↔ Blocks rules (split_labels_reversed dom)
    trie = rw e (matches_iff rules dom 0)

    to :
        (evaluate s dom).action ≡ Action.block_nxdomain
        → (contains dom s.allowlist ≡ false)
          × ((contains dom s.exact_blocks ≡ true) ⊎ Blocks rules (split_labels_reversed dom))
    to h = go ((evaluate_cases s dom).0 h)
      where
        go :
            (contains dom s.allowlist ≡ false)
              × ((contains dom s.exact_blocks ≡ true) ⊎ ((matches dom 0 s.suffix_trie).0 ≡ true))
            → (contains dom s.allowlist ≡ false)
              × ((contains dom s.exact_blocks ≡ true) ⊎ Blocks rules (split_labels_reversed dom))
        go (a, inl x) = (a, inl x)
        go (a, inr m) = (a, inr (trie.0 m))

    from :
        (contains dom s.allowlist ≡ false)
          × ((contains dom s.exact_blocks ≡ true) ⊎ Blocks rules (split_labels_reversed dom))
        → (evaluate s dom).action ≡ Action.block_nxdomain
    from (a, inl x) = (evaluate_cases s dom).1 (a, inl x)
    from (a, inr b) = (evaluate_cases s dom).1 (a, inr (trie.1 b))

-- Exact blocks as the engine keeps them, all of them under NXDOMAIN.
abbrev pub as_blocks : List (List ℕ) → List (List ℕ × Action)
as_blocks [] = []
as_blocks (d ∷ ds) = (d, Action.block_nxdomain) ∷ as_blocks ds

find-as_blocks :
    (dom : List ℕ) (ds : List (List ℕ))
    → find dom (as_blocks ds) ≡ (if contains dom ds then some Action.block_nxdomain else none)
unfolding find contains
find-as_blocks dom [] = refl
find-as_blocks dom (d ∷ ds) = ground (arith, find-as_blocks dom ds)

-- `PolicyEngine` with the allowlist and the rules of a snapshot, and with its exact blocks under
-- NXDOMAIN, decides as the snapshot does.
pub evaluate_engine-evaluate :
    (s : PolicySnapshot) (dom : List ℕ)
    → evaluate_engine
        (record {
          engine_allowlist = s.allowlist;
          engine_blocks = as_blocks s.exact_blocks;
          engine_trie = s.suffix_trie;
        })
        dom
      ≡ evaluate s dom
unfolding evaluate evaluate_engine
evaluate_engine-evaluate s dom =
    rw (find-as_blocks dom s.exact_blocks, evaluate_engine)
      (elim (Bool-cases (contains dom s.exact_blocks)) [ inl h ↦ rw h | inr h ↦ rw h ])
