-- ===== src/AhoCorasick/Nodes.antt =====
-- `nodes_` read behind a write.
use dns_security_dataplane.Base.{
  ℕ, zero, suc, ◌<◌, ◌≡◌, ◌≢◌, refl, ap, List, [], ◌∷◌, ◌++◌, length, arith, inl, inr, ◌⊎◌,
}
use dns_security_dataplane.AhoCorasick.{AcNode, blank_node, node_at, update_at}

pub length-update_at :
    (i : ℕ) (f : AcNode → AcNode) (nodes : List AcNode)
    → length (update_at i f nodes) ≡ length nodes
unfolding update_at
length-update_at i f [] = refl
length-update_at zero f (n ∷ nodes) = refl
length-update_at (suc i) f (n ∷ nodes) = ap suc (length-update_at i f nodes)

pub node_at-update_self :
    (i : ℕ) (f : AcNode → AcNode) (nodes : List AcNode)
    → i < length nodes
    → node_at (update_at i f nodes) i ≡ f (node_at nodes i)
unfolding update_at node_at
node_at-update_self i f [] h = absurd (omega arith)
node_at-update_self zero f (n ∷ nodes) h = refl
node_at-update_self (suc i) f (n ∷ nodes) h = node_at-update_self i f nodes (omega arith)

pub node_at-update_ne :
    (i j : ℕ) (f : AcNode → AcNode) (nodes : List AcNode)
    → j ≢ i
    → node_at (update_at i f nodes) j ≡ node_at nodes j
unfolding update_at node_at
node_at-update_ne i j f [] h = refl
node_at-update_ne zero zero f (n ∷ nodes) h = absurd (h refl)
node_at-update_ne zero (suc j) f (n ∷ nodes) h = refl
node_at-update_ne (suc i) zero f (n ∷ nodes) h = refl
node_at-update_ne (suc i) (suc j) f (n ∷ nodes) h =
    node_at-update_ne i j f nodes (λ e. h (ap suc e))

-- A new node is what is read past the end anyway.
pub node_at-push :
    (nodes : List AcNode) (j : ℕ) → node_at (nodes ++ blank_node ∷ []) j ≡ node_at nodes j
unfolding node_at
node_at-push [] zero = refl
node_at-push [] (suc j) = refl
node_at-push (n ∷ nodes) zero = refl
node_at-push (n ∷ nodes) (suc j) = node_at-push nodes j

pub node_at_past :
    (nodes : List AcNode) (j : ℕ) → (j < length nodes) ⊎ (node_at nodes j ≡ blank_node)
unfolding node_at
node_at_past [] j = inr refl
node_at_past (n ∷ nodes) zero = inl (omega arith)
node_at_past (n ∷ nodes) (suc j) = elim (node_at_past nodes j) [
  | inl h ↦ inl (omega (arith, h))
  | inr e ↦ inr e
]

-- One node was written.
pub record Writes (v : ℕ) (node : AcNode) (nodes nodes' : List AcNode) : Type 0 where
  pub written : node_at nodes' v ≡ node
  pub others : (x : ℕ) → x ≢ v → node_at nodes' x ≡ node_at nodes x
  pub count : length nodes' ≡ length nodes

pub update_at-Writes :
    (v : ℕ) (f : AcNode → AcNode) (nodes : List AcNode)
    → v < length nodes
    → Writes v (f (node_at nodes v)) nodes (update_at v f nodes)
update_at-Writes v f nodes h = record {
  written = node_at-update_self v f nodes h;
  others = λ x n. node_at-update_ne v x f nodes n;
  count = length-update_at v f nodes;
}
