-- ===== src/AhoCorasick/Build.antt =====
-- What the marks and the failure links are to be.
use dns_security_dataplane.Base.{ℕ, ◌≤◌, ◌≡◌, ◌≢◌, ◌⊎◌, List, [], ◌∷◌, some, length, true, nat_Eq}
use dns_security_dataplane.AhoCorasick.{AcNode, node_at}
use dns_security_dataplane.AhoCorasick.Paths.{walk, best, Ends}
use dns_security_dataplane.AhoCorasick.Follow.{HasTree, Links}

-- The patterns that were inserted, in lower case, with their rules.
abbrev pub HasEntry : List ℕ → ℕ → List (List ℕ × ℕ) → Type 0
HasEntry p r [] = ⊥
HasEntry p r ((q, t) ∷ entries) = ((p ≡ q) × (r ≡ t)) ⊎ HasEntry p r entries

module _ (tr : ℕ → List (ℕ × ℕ)) (entries : List (List ℕ × ℕ)) where
  -- The nodes of patterns are marked, and a marked node has a pattern at the end of its word, under
  -- its rule.
  pub record IsMarked (nodes : List AcNode) : Type 0 where
    pub own :
        (p : List ℕ) (r : ℕ)
        → HasEntry p r entries
        → (p ≢ []) × (n : ℕ) × (walk tr 0 p ≡ some n) × ((node_at nodes n).is_match ≡ true)
    pub sound :
        (w : List ℕ) (n : ℕ)
        → walk tr 0 w ≡ some n
        → (node_at nodes n).is_match ≡ true
        → (p : List ℕ) × HasEntry p (node_at nodes n).rule_id entries × Ends p w

  abbrev pub IsFull : List AcNode → List ℕ → ℕ → Type 0
  IsFull nodes w n =
      (p : List ℕ) (r : ℕ) → HasEntry p r entries → Ends p w → (node_at nodes n).is_match ≡ true

  -- The nodes whose words have at most `k` letters are done.
  pub record IsLinked (k size : ℕ) (nodes : List AcNode) : Type 0 where
    pub has : HasTree tr nodes
    pub count : length nodes ≡ size
    pub marked : IsMarked nodes
    pub links : Links tr nodes k
    pub full : (w : List ℕ) (n : ℕ) → walk tr 0 w ≡ some n → length w ≤ k → IsFull nodes w n

  -- One node is done.
  pub record IsDone (nodes : List AcNode) (c : ℕ) (s : List ℕ) (v : ℕ) : Type 0 where
    pub link : (node_at nodes v).fail_link ≡ best tr s
    pub full : IsFull nodes (c ∷ s) v
