-- ===== src/AhoCorasick/Built.antt =====
-- The loop of `build` over the queue: it ends, and all links are those of the longest ends.
use dns_security_dataplane.Base.{
  ℕ, zero, suc, ◌+◌, ◌≤◌, ◌≡◌, refl, ap, ◌∙◌, inl, inr, List, [], ◌∷◌, ◌++◌, some, length, nat_Eq,
  arith,
}
use dns_security_dataplane.Base.Members.{In, remove, length-remove}
use dns_security_dataplane.AhoCorasick.{AcNode, node_at, link_children, link_all, targets}
use dns_security_dataplane.AhoCorasick.Paths.{IsTree, name-walk}
use dns_security_dataplane.AhoCorasick.Children.{link_children-IsLinked}
use dns_security_dataplane.AhoCorasick.Queue.{Waits, Waits-next, tr-AreEdges}
use dns_security_dataplane.AhoCorasick.Fronts.{Fronts, shallow, next-Fronts, depth}

one_more :
    (fuel u : ℕ) (queue : List ℕ) (nodes : List AcNode) {nodes1 : List AcNode}
    → link_children u (node_at nodes u).transitions nodes ≡ some nodes1
    → link_all (suc fuel) (u ∷ queue) nodes
      ≡ link_all fuel (queue ++ targets (node_at nodes u).transitions) nodes1
unfolding link_all
one_more fuel u queue nodes h = rw (h, link_all) refl

no_more : (fuel : ℕ) (nodes : List AcNode) → link_all fuel [] nodes ≡ some nodes
unfolding link_all
no_more zero nodes = refl
no_more (suc fuel) nodes = refl

module _ (tr : ℕ → List (ℕ × ℕ)) (entries : List (List ℕ × ℕ)) {size : ℕ}
    (tree : IsTree tr size) where
  one_round :
      (u : ℕ) (queue : List ℕ) (nodes : List AcNode)
      → Fronts tr entries tree (u ∷ queue) nodes
      → (nodes' : List AcNode) × (link_children u (tr u) nodes ≡ some nodes')
        × Fronts tr entries tree (queue ++ targets (tr u)) nodes'
  one_round u queue nodes fronts =
      let (d, w, walked, _) = fronts.done u (inl refl) in
      let far : (x : ℕ) → In x (u ∷ queue) → length w + 1 ≤ depth tr entries tree x = λ x i.
        (elim i [
          | inl same ↦
              omega (arith, ap length (ap tree.name same ∙ name-walk tr tree (d ∷ w) walked))
          | inr more ↦
              omega (arith, (fronts.order.0 x more).0, ap length (name-walk tr tree (d ∷ w) walked))
        ]) in
      let (nodes', returns, linked, done, keeps) =
        link_children-IsLinked tr entries tree d w u refl walked (tr u) nodes
          (tr-AreEdges tr tree u)
          (shallow tr entries tree (u ∷ queue) nodes (length w + 1) fronts far) in
      (
        nodes',
        returns,
        next-Fronts tr entries tree d w u queue walked nodes nodes' fronts linked done keeps,
      )

  pub link_all-Fronts :
      (fuel : ℕ) (queue todo : List ℕ) (nodes : List AcNode)
      → length todo ≤ fuel
      → Waits tr tree queue todo
      → Fronts tr entries tree queue nodes
      → (nodes' : List AcNode) × (link_all fuel queue nodes ≡ some nodes')
        × Fronts tr entries tree [] nodes'
  link_all-Fronts fuel [] todo nodes enough waits fronts = (nodes, no_more fuel nodes, fronts)
  link_all-Fronts zero (u ∷ queue) todo nodes enough waits fronts =
      absurd (omega (arith, length-remove u todo (waits.within u (inl refl))))
  link_all-Fronts (suc fuel) (u ∷ queue) todo nodes enough waits fronts =
      let (nodes1, returns, fronts1) = one_round u queue nodes fronts in
      let (b, s, walked, _) = fronts.done u (inl refl) in
      let (nodes2, returns2, fronts2) =
        link_all-Fronts fuel (queue ++ targets (tr u)) (remove u todo) nodes1
          (omega (arith, length-remove u todo (waits.within u (inl refl))))
          (Waits-next tr tree (b ∷ s) u queue todo walked waits) fronts1 in
      let edges : (node_at nodes u).transitions ≡ tr u = fronts.linked.has u in
      (
        nodes2,
        one_more fuel u queue nodes (ap (λ es. link_children u es nodes) edges ∙ returns)
            ∙ (ap (λ es. link_all fuel (queue ++ targets es) nodes1) edges ∙ returns2),
        fronts2,
      )
