-- ===== src/AhoCorasick/Children.antt =====
-- The inner loop of `build` as a whole: it does the children of a node, and undoes nothing.
use dns_security_dataplane.Base.{
  ℕ, ◌+◌, ◌≡◌, refl, sym, ap, ◌∙◌, inl, inr, List, [], ◌∷◌, ◌++◌, some, length, nat_Eq, All,
}
use dns_security_dataplane.AhoCorasick.{
  AcNode, update_at, with_fail, inherit, link_child, link_children,
}
use dns_security_dataplane.AhoCorasick.Nodes.{Writes}
use dns_security_dataplane.Base.Members.{eq_or_ne}
use dns_security_dataplane.AhoCorasick.Paths.{edge, walk, best, IsTree, name-walk}
use dns_security_dataplane.AhoCorasick.Build.{IsLinked, IsDone}
use dns_security_dataplane.AhoCorasick.Taken.{inherit-Writes}
use dns_security_dataplane.AhoCorasick.Child.{
  child, link_child-returns, child-inside, link-ne, child-IsDone, child-walk, still-IsLinked,
}

module _ (tr : ℕ → List (ℕ × ℕ)) (entries : List (List ℕ × ℕ)) {size k : ℕ} (tree : IsTree tr size)
    (d : ℕ) (w : List ℕ) (u : ℕ) (depth : length w + 1 ≡ k)
    (walked : walk tr 0 (d ∷ w) ≡ some u) where
  abbrev pub Keeps : List AcNode → List AcNode → Type 0
  Keeps nodes nodes' =
      (b : ℕ) (s : List ℕ) (x : ℕ)
      → walk tr 0 (b ∷ s) ≡ some x
      → IsDone tr entries nodes b s x
      → IsDone tr entries nodes' b s x

  abbrev pub AllDone : List AcNode → List (ℕ × ℕ) → Type 0
  AllDone nodes edges = All (λ (e : ℕ × ℕ). IsDone tr entries nodes d (w ++ e.0 ∷ []) e.1) edges

  abbrev pub Edges : List (ℕ × ℕ) → Type 0
  Edges edges = All (λ (e : ℕ × ℕ). edge tr u e.0 ≡ some e.1) edges

  one_child :
      (c v : ℕ) (nodes : List AcNode)
      → edge tr u c ≡ some v
      → IsLinked tr entries k size nodes
      → (nodes' : List AcNode) × (link_child u c v nodes ≡ some nodes')
        × IsLinked tr entries k size nodes'
        × IsDone tr entries nodes' d (w ++ c ∷ []) v
        × Keeps nodes nodes'
  one_child c v nodes next linked = (
    nodes',
    link_child-returns tr entries tree d w u c v depth walked next nodes linked,
    still-IsLinked tr entries tree d w u c v depth walked next nodes linked nodes' writes,
    done,
    keeps,
  )
    where
      nodes' : List AcNode
      nodes' = inherit v (update_at v (with_fail (best tr (w ++ c ∷ []))) nodes)

      writes :
          Writes v (child tr entries tree d w u c v depth walked next nodes linked) nodes nodes'
      writes =
          inherit-Writes v (best tr (w ++ c ∷ [])) nodes
            (child-inside tr entries tree d w u c v depth walked next nodes linked)
            (link-ne tr entries tree d w u c v depth walked next nodes linked)

      done : IsDone tr entries nodes' d (w ++ c ∷ []) v
      done = child-IsDone tr entries tree d w u c v depth walked next nodes linked nodes' writes

      keeps : Keeps nodes nodes'
      keeps b s x h old = elim (eq_or_ne x v) [
        | inr ne ↦ record {
          link = ap (λ n. n.fail_link) (writes.others x ne) ∙ old.link;
          full = λ p r i end. ap (λ n. n.is_match) (writes.others x ne) ∙ old.full p r i end;
        }
        | inl e ↦
            let same : b ∷ s ≡ d ∷ (w ++ c ∷ []) =
              sym (name-walk tr tree (b ∷ s) h)
              ∙ (ap tree.name e
                  ∙ name-walk tr tree (d ∷ (w ++ c ∷ []))
                      (child-walk tr entries tree d w u c v depth walked next nodes linked)) in
            let first : b ≡ d = cc same in
            let rest : s ≡ w ++ c ∷ [] = cc same in rw (first, rest, e) done
      ]

  pub link_children-IsLinked :
      (edges : List (ℕ × ℕ)) (nodes : List AcNode)
      → Edges edges
      → IsLinked tr entries k size nodes
      → (nodes' : List AcNode) × (link_children u edges nodes ≡ some nodes')
        × IsLinked tr entries k size nodes'
        × AllDone nodes' edges
        × Keeps nodes nodes'
  unfolding link_children
  link_children-IsLinked [] nodes e linked = (nodes, refl, linked, tt, λ b s x h old. old)
  link_children-IsLinked ((c, v) ∷ edges) nodes (next, more) linked =
      let (nodes1, e1, linked1, done1, keeps1) = one_child c v nodes next linked in
      let (nodes2, e2, linked2, done2, keeps2) = link_children-IsLinked edges nodes1 more linked1 in
      (
        nodes2,
        rw (e1, link_children) e2,
        linked2,
        (
          keeps2 d (w ++ c ∷ []) v
              (child-walk tr entries tree d w u c v depth walked next nodes linked) done1,
          done2,
        ),
        λ b s x h old. keeps2 b s x h (keeps1 b s x h old),
      )
