-- ===== src/AhoCorasick/Roots.antt =====
-- `build` from its start: the links of the root's children, and the loop over the queue after them.
use dns_security_dataplane.Base.{
  ℕ, zero, suc, ◌-◌, ◌≤◌, ◌<◌, ◌≡◌, refl, sym, ap, ◌∙◌, inl, inr, ◌⊎◌, List, [], ◌∷◌, ◌++◌, some,
  length, nat_Eq, arith, Option-cases,
}
use dns_security_dataplane.Base.Members.{In}
use dns_security_dataplane.AhoCorasick.{
  AcNode, node_at, update_at, with_fail, link_all, link_roots, targets,
}
use dns_security_dataplane.AhoCorasick.Nodes.{length-update_at}
use dns_security_dataplane.AhoCorasick.Paths.{
  edge, walk, IsTree, name-walk, best_nil, walk-some, walk-none,
}
use dns_security_dataplane.AhoCorasick.Build.{IsLinked, IsDone, IsFull, IsMarked}
use dns_security_dataplane.AhoCorasick.Follow.{HasTree}
use dns_security_dataplane.AhoCorasick.Queue.{
  Waits-start, tr-AreEdges, In-targets, below, length-below,
}
use dns_security_dataplane.AhoCorasick.Fronts.{Fronts, IsSorted, shallow, depth, find-In}
use dns_security_dataplane.AhoCorasick.Built.{link_all-Fronts}

update-same :
    (v x : ℕ) (nodes : List AcNode)
    → with_fail 0 (node_at (update_at v (with_fail 0) nodes) x) ≡ with_fail 0 (node_at nodes x)
unfolding update_at node_at
update-same v x [] = refl
update-same zero zero (n ∷ nodes) = refl
update-same zero (suc x) (n ∷ nodes) = refl
update-same (suc v) zero (n ∷ nodes) = refl
update-same (suc v) (suc x) (n ∷ nodes) = update-same v x nodes

update-zeroed :
    (v : ℕ) (nodes : List AcNode) → (node_at (update_at v (with_fail 0) nodes) v).fail_link ≡ 0
unfolding update_at node_at
update-zeroed v [] = refl
update-zeroed zero (n ∷ nodes) = refl
update-zeroed (suc v) (n ∷ nodes) = update-zeroed v nodes

update-stays :
    (v x : ℕ) (nodes : List AcNode)
    → (node_at nodes x).fail_link ≡ 0
    → (node_at (update_at v (with_fail 0) nodes) x).fail_link ≡ 0
unfolding update_at node_at
update-stays v x [] h = refl
update-stays zero zero (n ∷ nodes) h = refl
update-stays zero (suc x) (n ∷ nodes) h = h
update-stays (suc v) zero (n ∷ nodes) h = h
update-stays (suc v) (suc x) (n ∷ nodes) h = update-stays v x nodes h

link_roots-same :
    (vs : List ℕ) (x : ℕ) (nodes : List AcNode)
    → with_fail 0 (node_at (link_roots vs nodes) x) ≡ with_fail 0 (node_at nodes x)
unfolding link_roots
link_roots-same [] x nodes = refl
link_roots-same (v ∷ vs) x nodes =
    link_roots-same vs x (update_at v (with_fail 0) nodes) ∙ update-same v x nodes

link_roots-stays :
    (vs : List ℕ) (x : ℕ) (nodes : List AcNode)
    → (node_at nodes x).fail_link ≡ 0
    → (node_at (link_roots vs nodes) x).fail_link ≡ 0
unfolding link_roots
link_roots-stays [] x nodes h = h
link_roots-stays (v ∷ vs) x nodes h =
    link_roots-stays vs x (update_at v (with_fail 0) nodes) (update-stays v x nodes h)

link_roots-zeroed :
    (vs : List ℕ) (x : ℕ) (nodes : List AcNode)
    → In x vs
    → (node_at (link_roots vs nodes) x).fail_link ≡ 0
unfolding link_roots
link_roots-zeroed [] x nodes h = absurd h
link_roots-zeroed (v ∷ vs) x nodes (inl e) =
    link_roots-stays vs x (update_at v (with_fail 0) nodes) (rw e (update-zeroed v nodes))
link_roots-zeroed (v ∷ vs) x nodes (inr i) =
    link_roots-zeroed vs x (update_at v (with_fail 0) nodes) i

length-link_roots :
    (vs : List ℕ) (nodes : List AcNode) → length (link_roots vs nodes) ≡ length nodes
unfolding link_roots
length-link_roots [] nodes = refl
length-link_roots (v ∷ vs) nodes =
    length-link_roots vs (update_at v (with_fail 0) nodes) ∙ length-update_at v (with_fail 0) nodes

module _ (tr : ℕ → List (ℕ × ℕ)) (entries : List (List ℕ × ℕ)) {size : ℕ} (tree : IsTree tr size)
    (nodes : List AcNode) (has : HasTree tr nodes) (count : length nodes ≡ size)
    (marked : IsMarked tr entries nodes) where
  abbrev start : List AcNode
  start = link_roots (targets (tr 0)) nodes

  abbrev same : (x : ℕ) → with_fail 0 (node_at start x) ≡ with_fail 0 (node_at nodes x)
  same x = link_roots-same (targets (tr 0)) x nodes

  same_match : (x : ℕ) → (node_at start x).is_match ≡ (node_at nodes x).is_match
  same_match x = ap (λ n. n.is_match) (same x)

  start-IsMarked : IsMarked tr entries start
  start-IsMarked = record {
    own = λ p r e. let (ne, n, h, m) = marked.own p r e in (ne, n, h, same_match n ∙ m);
    sound =
        λ w n h m. rw (ap (λ n. n.rule_id) (same n)) (marked.sound w n h (sym (same_match n) ∙ m));
  }

  root-walk : (b y : ℕ) → edge tr 0 b ≡ some y → walk tr 0 (b ∷ []) ≡ some y
  unfolding walk
  root-walk b y e = walk-some tr 0 b y [] e

  root-IsDone : (b y : ℕ) → edge tr 0 b ≡ some y → IsDone tr entries start b [] y
  root-IsDone b y e = record {
    link = link_roots-zeroed (targets (tr 0)) y nodes (find-In b y (tr 0) e) ∙ sym (best_nil tr);
    full = full;
  }
    where
      full : IsFull tr entries start (b ∷ []) y
      full p r i (inr end) = absurd ((marked.own p r i).0 end)
      full p r i (inl whole) =
          let (_, n, h, m) = marked.own p r i in
          let there : some n ≡ some y = sym h ∙ (ap (walk tr 0) whole ∙ root-walk b y e) in
          let same_node : n ≡ y = cc there in
          same_match y ∙ ap (λ z. (node_at nodes z).is_match) (sym same_node) ∙ m

  start-IsLinked : IsLinked tr entries 0 size start
  start-IsLinked = record {
    has = λ n. ap (λ x. x.transitions) (same n) ∙ has n;
    count = length-link_roots (targets (tr 0)) nodes ∙ count;
    marked = start-IsMarked;
    links = λ c s n h short. absurd (omega arith);
    full = fulls;
  }
    where
      fulls :
          (w : List ℕ) (n : ℕ) → walk tr 0 w ≡ some n → length w ≤ 0 → IsFull tr entries start w n
      fulls [] n h short p r e end = absurd ((marked.own p r e).0 end)
      fulls (c ∷ w) n h short p r e end = absurd (omega arith)

  root_depth : (x : ℕ) → In x (targets (tr 0)) → depth tr entries tree x ≡ 1
  root_depth x i =
      let (c, e, _) = In-targets tr tree 0 x (tr 0) (tr-AreEdges tr tree 0) i in
      ap length (name-walk tr tree (c ∷ []) (root-walk c x e))

  level-IsSorted :
      (queue : List ℕ)
      → ((x : ℕ) → In x queue → depth tr entries tree x ≡ 1)
      → IsSorted tr entries tree queue
  level-IsSorted [] h = tt
  level-IsSorted (u ∷ queue) h = (
    λ x i. (omega (arith, h u (inl refl), h x (inr i)), omega (arith, h u (inl refl), h x (inr i))),
    level-IsSorted queue (λ x i. h x (inr i)),
  )

  start-Fronts : Fronts tr entries tree (targets (tr 0)) start
  start-Fronts = record {
    linked = start-IsLinked;
    done = λ u i.
        let (c, e, _) = In-targets tr tree 0 u (tr 0) (tr-AreEdges tr tree 0) i in
        (c, [], root-walk c u e, root-IsDone c u e);
    order = level-IsSorted (targets (tr 0)) root_depth;
    rest = under;
  }
    where
      under :
          (b : ℕ) (s : List ℕ) (x : ℕ)
          → walk tr 0 (b ∷ s) ≡ some x
          → IsDone tr entries start b s x
            ⊎ ((u : ℕ) × In u (targets (tr 0))
                × (c : ℕ) × (t : List ℕ) × (b ∷ s ≡ tree.name u ++ c ∷ t))
      under b s x h = elim (Option-cases (edge tr 0 b)) [
        | inl e ↦ cc (h, walk-none tr 0 b s e)
        | inr (y, e) ↦ split s y e h
      ]
        where
          split :
              (s : List ℕ) (y : ℕ)
              → edge tr 0 b ≡ some y
              → walk tr 0 (b ∷ s) ≡ some x
              → IsDone tr entries start b s x
                ⊎ ((u : ℕ) × In u (targets (tr 0))
                    × (c : ℕ) × (t : List ℕ) × (b ∷ s ≡ tree.name u ++ c ∷ t))
          split [] y e h =
              let same_node : y ≡ x = cc (root-walk b y e, h) in
              inl (rw (← same_node) (root-IsDone b y e))
          split (c ∷ t) y e h = inr (
            y,
            find-In b y (tr 0) e,
            c,
            t,
            ap (λ z. z ++ c ∷ t) (sym (name-walk tr tree (b ∷ []) (root-walk b y e))),
          )

  pub link_all-IsLinked :
      0 < size
      → (nodes' : List AcNode) × (link_all (length nodes) (targets (tr 0)) start ≡ some nodes')
        × ((k : ℕ) → IsLinked tr entries k size nodes')
  link_all-IsLinked some_node =
      let (nodes', returns, fronts) =
        link_all-Fronts tr entries tree (length nodes) (targets (tr 0)) (below (size - 1)) start
          (omega (arith, length-below (size - 1), count)) (Waits-start tr tree) start-Fronts in
      (nodes', returns, λ k. shallow tr entries tree [] nodes' k fronts (λ u i. absurd i))
