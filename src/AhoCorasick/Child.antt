-- ===== src/AhoCorasick/Child.antt =====
-- The inner loop of `build`: one child of a node.
use dns_security_dataplane.Base.{
  ℕ, ◌+◌, ◌≤◌, ◌<◌, ◌≡◌, ◌≢◌, sym, ap, ◌∙◌, inl, inr, List, [], ◌∷◌, ◌++◌, some, length, true,
  nat_Eq, arith, length-append,
}
use dns_security_dataplane.AhoCorasick.{
  AcNode, node_at, update_at, with_fail, link_to, inherit, link_from, link_child, transition,
  follow, or_root,
}
use dns_security_dataplane.AhoCorasick.Nodes.{Writes}
use dns_security_dataplane.Base.Members.{eq_or_ne}
use dns_security_dataplane.AhoCorasick.Paths.{
  edge, walk, best, IsTree, Ends, name-walk, length-walk, walk-best, Ends-best, best-append,
  best_longest, walk-append, then_edge, Ends-length, Ends-trans,
}
use dns_security_dataplane.AhoCorasick.Follow.{Stops, follow-Stops, transition-edge}
use dns_security_dataplane.AhoCorasick.Build.{HasEntry, IsMarked, IsFull, IsLinked, IsDone}
use dns_security_dataplane.AhoCorasick.Taken.{
  taken, link_to-or_root, some-injective, taken-transitions, taken-fail_link, taken_own,
  taken_inherits, taken_cases,
}

module _ (tr : ℕ → List (ℕ × ℕ)) (entries : List (List ℕ × ℕ)) where
  module _ {size k : ℕ} (tree : IsTree tr size) (d : ℕ) (w : List ℕ) (u c v : ℕ)
      (depth : length w + 1 ≡ k) (walked : walk tr 0 (d ∷ w) ≡ some u) (next : edge tr u c ≡ some v)
      (nodes : List AcNode) (linked : IsLinked tr entries k size nodes) where
    abbrev pub link : ℕ
    link = best tr (w ++ c ∷ [])

    pub child-walk : walk tr 0 (d ∷ (w ++ c ∷ [])) ≡ some v
    child-walk = walk-append tr (d ∷ w) 0 c ∙ (ap (λ o. then_edge tr o c) walked ∙ next)

    pub child-inside : v < length nodes
    child-inside = omega (arith, tree.inside u c v next, linked.count)

    -- A node with a shorter word is another node.
    shallow-ne : (s : List ℕ) (n : ℕ) → walk tr 0 s ≡ some n → length s ≤ k → n ≢ v
    shallow-ne s n h short e =
        let same : s ≡ d ∷ (w ++ c ∷ []) =
          sym (name-walk tr tree s h)
          ∙ (ap tree.name e ∙ name-walk tr tree (d ∷ (w ++ c ∷ [])) child-walk) in
        absurd (omega (arith, ap length same, length-append w (c ∷ []), depth))

    link-walk : walk tr 0 (tree.name link) ≡ some link
    link-walk = walk-best tr tree (w ++ c ∷ [])

    link-short : length (tree.name link) ≤ k
    link-short = omega (
      arith,
      Ends-length _ (w ++ c ∷ []) (Ends-best tr tree (w ++ c ∷ [])),
      length-append w (c ∷ []),
      depth,
    )

    pub link-ne : link ≢ v
    link-ne = shallow-ne (tree.name link) link link-walk link-short

    followed :
        Stops tr tree nodes linked.has
          (tree.name (best tr w))
          c
          (follow (length nodes) nodes (best tr w) c)
    followed =
        let near : length (tree.name (best tr w)) ≤ length w =
          Ends-length _ w (Ends-best tr tree w) in
        follow-Stops tr tree nodes linked.has k (length nodes) (tree.name (best tr w)) (best tr w) c
          linked.links (omega (arith, near, depth))
          (omega
            (arith, near, length-walk tr tree (d ∷ w) walked, tree.grows u c v next, child-inside))
          (walk-best tr tree w)

    steps : or_root (edge tr followed.stop c) ≡ link
    steps = followed.steps ∙ sym (best-append tr tree w c)

    -- The child itself is further down.
    stop-ne : edge tr followed.stop c ≢ some v
    stop-ne e =
        let same : tree.name followed.stop ++ c ∷ [] ≡ d ∷ (w ++ c ∷ []) =
          sym (tree.named followed.stop c v e) ∙ name-walk tr tree (d ∷ (w ++ c ∷ [])) child-walk in
        absurd (
          omega (
            arith,
            ap length same,
            length-append w (c ∷ []),
            length-append (tree.name followed.stop) (c ∷ []),
            ap length (name-walk tr tree followed.word followed.walked),
            followed.shorter,
            Ends-length _ w (Ends-best tr tree w),
          ))

    linked_to : link_to v (transition nodes followed.stop c) ≡ link
    linked_to =
        rw (transition-edge tr tree nodes linked.has followed.stop c)
          (link_to-or_root v (edge tr followed.stop c) stop-ne ∙ steps)

    pub link_child-returns :
        link_child u c v nodes ≡ some (inherit v (update_at v (with_fail link) nodes))
    unfolding link_child
    link_child-returns =
        ap (λ g. link_from c v nodes (follow (length nodes) nodes g c))
          (linked.links d w u walked (omega (arith, depth)))
        ∙ (ap (link_from c v nodes) followed.returns
            ∙ ap (λ l. some (inherit v (update_at v (with_fail l) nodes))) linked_to)

    abbrev pub child : AcNode
    child = taken (node_at nodes link) link (node_at nodes v)

    -- With the child done, all that held before still holds.
    module _ (nodes' : List AcNode) (writes : Writes v child nodes nodes') where
      transitions_same : (n : ℕ) → (node_at nodes' n).transitions ≡ (node_at nodes n).transitions
      transitions_same n = elim (eq_or_ne n v) [
        | inl e ↦
            rw (e, writes.written) (taken-transitions (node_at nodes link) link (node_at nodes v))
        | inr ne ↦ ap (λ x. x.transitions) (writes.others n ne)
      ]

      match_stays : (n : ℕ) → (node_at nodes n).is_match ≡ true → (node_at nodes' n).is_match ≡ true
      match_stays n m = elim (eq_or_ne n v) [
        | inl e ↦
            rw (e, writes.written)
              (taken_own (node_at nodes link) link (node_at nodes v) (rw e at m))
        | inr ne ↦ ap (λ x. x.is_match) (writes.others n ne) ∙ m
      ]

      child-IsFull : IsFull tr entries nodes' (d ∷ (w ++ c ∷ [])) v
      child-IsFull p r e (inl whole) =
          let (_, n, h, m) = linked.marked.own p r e in
          let there : n ≡ v = some-injective (sym h ∙ (ap (walk tr 0) whole ∙ child-walk)) in
          match_stays v (rw there at m)
      child-IsFull p r e (inr end) =
          let (_, n, h, m) = linked.marked.own p r e in
          let full : (node_at nodes link).is_match ≡ true =
            linked.full (tree.name link) link link-walk link-short p r e
              (best_longest tr tree (w ++ c ∷ []) p end h) in
          rw writes.written (taken_inherits (node_at nodes link) link (node_at nodes v) full)

      pub child-IsDone : IsDone tr entries nodes' d (w ++ c ∷ []) v
      child-IsDone = record {
        link = rw writes.written (taken-fail_link (node_at nodes link) link (node_at nodes v));
        full = child-IsFull;
      }

      child_sound :
          (child.is_match ≡ true)
          → (p : List ℕ) × HasEntry p child.rule_id entries × Ends p (d ∷ (w ++ c ∷ []))
      child_sound m = elim (taken_cases (node_at nodes link) link (node_at nodes v) m) [
        | inl (t, r) ↦
            let (p, e, end) = linked.marked.sound (tree.name link) link link-walk t in
            (
              p,
              rw r e,
              inr (
                  Ends-trans p (tree.name link) (w ++ c ∷ []) end
                    (Ends-best tr tree (w ++ c ∷ []))),
            )
        | inr (t, r) ↦
            let (p, e, end) = linked.marked.sound (d ∷ (w ++ c ∷ [])) v child-walk t in
            (p, rw r e, end)
      ]

      still_sound :
          (s : List ℕ) (n : ℕ)
          → walk tr 0 s ≡ some n
          → (node_at nodes' n).is_match ≡ true
          → (p : List ℕ) × HasEntry p (node_at nodes' n).rule_id entries × Ends p s
      still_sound s n h m = elim (eq_or_ne n v) [
        | inr ne ↦
            rw (writes.others n ne) (linked.marked.sound s n h (rw (writes.others n ne) at m))
        | inl e ↦
            let same : s ≡ d ∷ (w ++ c ∷ []) =
              sym (name-walk tr tree s h)
              ∙ (ap tree.name e ∙ name-walk tr tree (d ∷ (w ++ c ∷ [])) child-walk) in
            let there : node_at nodes' n ≡ child = ap (node_at nodes') e ∙ writes.written in
            rw (there, same) (child_sound (ap (λ x. x.is_match) (sym there) ∙ m))
      ]

      still-IsMarked : IsMarked tr entries nodes'
      still-IsMarked = record {
        own = λ p r e. let (ne, n, h, m) = linked.marked.own p r e in (ne, n, h, match_stays n m);
        sound = still_sound;
      }

      pub still-IsLinked : IsLinked tr entries k size nodes'
      still-IsLinked = record {
        has = λ n. transitions_same n ∙ linked.has n;
        count = writes.count ∙ linked.count;
        marked = still-IsMarked;
        links = λ b s n h short.
            ap (λ x. x.fail_link) (writes.others n (shallow-ne (b ∷ s) n h short))
            ∙ linked.links b s n h short;
        full = λ s n h short p r e end. match_stays n (linked.full s n h short p r e end);
      }
