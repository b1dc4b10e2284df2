-- ===== src/AhoCorasick/Grow.antt =====
-- The loop of `insert`: a letter without a transition gets a new node at the end.
use dns_security_dataplane.Base.{
  ℕ, ◌+◌, ◌<◌, ◌≡◌, ◌≢◌, refl, sym, ap, ◌∙◌, inl, inr, ◌⊎◌, List, [], ◌∷◌, ◌++◌, none, some, length,
  nat_Eq, arith, Option-cases, true, false, if◌then◌else◌, ◌==◌, ==_iff, length-append,
}
use dns_security_dataplane.Base.Map.{find, assign, IsMap, assign-IsMap, find-assign}
use dns_security_dataplane.Base.Members.{eq_or_ne}
use dns_security_dataplane.AhoCorasick.{AcNode, blank_node, node_at, add_transition, grow}
use dns_security_dataplane.AhoCorasick.Nodes.{
  node_at-update_self, node_at-update_ne, node_at-push, node_at_past, length-update_at,
}
use dns_security_dataplane.AhoCorasick.Paths.{
  edge, walk, IsTree, walk-some, walk-none, walk-name, walk-append, then_edge,
}
use dns_security_dataplane.AhoCorasick.Follow.{HasTree}

-- What the words of the tree and the marks keep.
pub record Extends (tr tr' : ℕ → List (ℕ × ℕ)) (nodes nodes' : List AcNode) : Type 0 where
  pub onward : (w : List ℕ) (n : ℕ) → walk tr 0 w ≡ some n → walk tr' 0 w ≡ some n
  pub back :
      (w : List ℕ) (n : ℕ)
      → walk tr' 0 w ≡ some n
      → (node_at nodes' n).is_match ≡ true
      → walk tr 0 w ≡ some n
  pub matches : (n : ℕ) → (node_at nodes' n).is_match ≡ (node_at nodes n).is_match
  pub rules : (n : ℕ) → (node_at nodes' n).rule_id ≡ (node_at nodes n).rule_id

module _ (tr : ℕ → List (ℕ × ℕ)) {size : ℕ} (tree : IsTree tr size) (nodes : List AcNode)
    (has : HasTree tr nodes) (count : length nodes ≡ size) (curr c : ℕ) (inside : curr < size)
    (missing : edge tr curr c ≡ none) where
  abbrev pub grown : ℕ → List (ℕ × ℕ)
  grown n = if n == curr then assign c size (tr n) else tr n

  grown_self : grown curr ≡ assign c size (tr curr)
  grown_self = ground (arith, ==_iff curr curr)

  grown_ne : (n : ℕ) → n ≢ curr → grown n ≡ tr n
  grown_ne n ne = ground (arith, ==_iff n curr)

  edge_new : edge grown curr c ≡ some size
  edge_new = ap (find c) grown_self ∙ ground (arith, find-assign c c size (tr curr), ==_iff c c)

  edge_cases :
      (n b m : ℕ)
      → edge grown n b ≡ some m
      → (edge tr n b ≡ some m) ⊎ ((n ≡ curr) × (b ≡ c) × (m ≡ size))
  edge_cases n b m h = elim (eq_or_ne n curr) [
    | inr ne ↦ inl (ap (find b) (sym (grown_ne n ne)) ∙ h)
    | inl e ↦ at_curr e (sym (ap (find b) (ap grown e ∙ grown_self)) ∙ h)
  ]
    where
      at_curr :
          n ≡ curr
          → find b (assign c size (tr curr)) ≡ some m
          → (edge tr n b ≡ some m) ⊎ ((n ≡ curr) × (b ≡ c) × (m ≡ size))
      at_curr e h = elim (eq_or_ne b c) [
        | inl f ↦ inr (e, f, ground (arith, find-assign c b size (tr curr), ==_iff c b))
        | inr ne ↦ inl (rw e (ground (arith, find-assign c b size (tr curr), ==_iff c b)))
      ]

  edge_old : (n b m : ℕ) → edge tr n b ≡ some m → edge grown n b ≡ some m
  edge_old n b m h = elim (eq_or_ne n curr) [
    | inr ne ↦ ap (find b) (grown_ne n ne) ∙ h
    | inl e ↦ at_curr e (rw e at h)
  ]
    where
      at_curr : n ≡ curr → edge tr curr b ≡ some m → edge grown n b ≡ some m
      at_curr e h = elim (eq_or_ne b c) [
        | inl f ↦ cc (h, f, missing)
        | inr ne ↦
            ap (find b) (ap grown e ∙ grown_self)
            ∙ ground (arith, find-assign c b size (tr curr), ==_iff c b)
      ]

  abbrev new_name : ℕ → List ℕ
  new_name m = if m == size then tree.name curr ++ c ∷ [] else tree.name m

  new_name_old : (m : ℕ) → m < size → new_name m ≡ tree.name m
  new_name_old m h = ground (arith, ==_iff m size)

  new_name_size : new_name size ≡ tree.name curr ++ c ∷ []
  new_name_size = ground (arith, ==_iff size size)

  grown-IsMap : (n : ℕ) → IsMap (grown n)
  grown-IsMap n = elim (eq_or_ne n curr) [
    | inl e ↦ rw (e, grown_self) (assign-IsMap c size (tr curr) (tree.once curr))
    | inr ne ↦ rw (grown_ne n ne) (tree.once n)
  ]

  pub grown-IsTree : IsTree grown (size + 1)
  grown-IsTree = record {
    name = new_name;
    root = new_name_old 0 (omega (arith, inside)) ∙ tree.root;
    named = λ n b m h. elim (edge_cases n b m h) [
      | inl e ↦
          let below : m < size = tree.inside n b m e in
          new_name_old m below
          ∙ (tree.named n b m e
              ∙ ap (λ x. x ++ b ∷ [])
                  (sym (new_name_old n (omega (arith, below, tree.grows n b m e)))))
      | inr (e, f, g) ↦
          ap new_name g
          ∙ (new_name_size
              ∙ (ap (λ x. x ++ c ∷ []) (sym (ap new_name e ∙ new_name_old curr inside))
                  ∙ ap (λ x. new_name n ++ x ∷ []) (sym f)))
    ];
    grows = λ n b m h. elim (edge_cases n b m h) [
      | inl e ↦ tree.grows n b m e
      | inr (e, _, f) ↦ omega (arith, e, f)
    ];
    inside = λ n b m h. elim (edge_cases n b m h) [
      | inl e ↦ omega (arith, tree.inside n b m e)
      | inr (_, _, f) ↦ omega (arith, f)
    ];
    once = grown-IsMap;
  }

  walk_old : (w : List ℕ) (n m : ℕ) → walk tr n w ≡ some m → walk grown n w ≡ some m
  unfolding walk
  walk_old [] n m h = h
  walk_old (b ∷ w) n m h = elim (Option-cases (edge tr n b)) [
    | inl e ↦ cc (h, walk-none tr n b w e)
    | inr (k, e) ↦
        walk-some grown n b k w (edge_old n b k e)
        ∙ walk_old w k m (sym (walk-some tr n b k w e) ∙ h)
  ]

  walk_back : (w : List ℕ) (n m : ℕ) → m < size → walk grown n w ≡ some m → walk tr n w ≡ some m
  unfolding walk
  walk_back [] n m below h = h
  walk_back (b ∷ w) n m below h = elim (Option-cases (edge grown n b)) [
    | inl e ↦ cc (h, walk-none grown n b w e)
    | inr (k, e) ↦ onward k e (sym (walk-some grown n b k w e) ∙ h) (walk_back w k m below)
  ]
    where
      onward :
          (k : ℕ)
          → edge grown n b ≡ some k
          → walk grown k w ≡ some m
          → (walk grown k w ≡ some m → walk tr k w ≡ some m)
          → walk tr n (b ∷ w) ≡ some m
      onward k e h ih = elim (edge_cases n b k e) [
        | inl f ↦ walk-some tr n b k w f ∙ ih h
        | inr (_, _, f) ↦ absurd (omega (arith, f, (walk-name grown grown-IsTree w k m h).1))
      ]

  -- The nodes behind the write: as they were, but for the transitions of `curr`.
  grow_self :
      node_at (grow nodes curr c) curr ≡ add_transition c (length nodes) (node_at nodes curr)
  grow_self =
      node_at-update_self curr (add_transition c (length nodes)) (nodes ++ blank_node ∷ [])
        (omega (arith, length-append nodes (blank_node ∷ [])))
      ∙ ap (add_transition c (length nodes)) (node_at-push nodes curr)

  grow_ne : (n : ℕ) → n ≢ curr → node_at (grow nodes curr c) n ≡ node_at nodes n
  grow_ne n ne =
      node_at-update_ne curr n (add_transition c (length nodes)) (nodes ++ blank_node ∷ []) ne
      ∙ node_at-push nodes n

  pub grow-HasTree : HasTree grown (grow nodes curr c)
  grow-HasTree n = elim (eq_or_ne n curr) [
    | inr ne ↦ ap (λ x. x.transitions) (grow_ne n ne) ∙ (has n ∙ sym (grown_ne n ne))
    | inl e ↦
        ap (λ m. (node_at (grow nodes curr c) m).transitions) e
        ∙ (ap (λ x. x.transitions) grow_self
            ∙ (ap (λ k. assign c k (node_at nodes curr).transitions) count
                ∙ (ap (assign c size) (has curr) ∙ sym (ap grown e ∙ grown_self))))
  ]

  pub length-grow : length (grow nodes curr c) ≡ size + 1
  length-grow =
      length-update_at curr (add_transition c (length nodes)) (nodes ++ blank_node ∷ [])
      ∙ (length-append nodes (blank_node ∷ []) ∙ ap (λ k. k + 1) count)

  grow_field :
      {A : Type 0} (f : AcNode → A)
      → ((b t : ℕ) (n : AcNode) → f (add_transition b t n) ≡ f n)
      → (n : ℕ) → f (node_at (grow nodes curr c) n) ≡ f (node_at nodes n)
  grow_field f keeps n = elim (eq_or_ne n curr) [
    | inr ne ↦ ap f (grow_ne n ne)
    | inl e ↦ rw e (ap f grow_self ∙ keeps c (length nodes) (node_at nodes curr))
  ]

  pub grow-Extends : Extends tr grown nodes (grow nodes curr c)
  grow-Extends = record {
    onward = λ w n h. walk_old w 0 n h;
    back = λ w n h m. elim (node_at_past nodes n) [
      | inl below ↦ walk_back w 0 n (omega (arith, below, count)) h
      | inr past ↦
          let unmarked : (node_at nodes n).is_match ≡ false = ap (λ x. x.is_match) past in
          cc (m, grow_field (λ x. x.is_match) (λ b t x. refl) n, unmarked)
    ];
    matches = grow_field (λ x. x.is_match) (λ b t x. refl);
    rules = grow_field (λ x. x.rule_id) (λ b t x. refl);
  }

  pub grown-walk : (w : List ℕ) → walk tr 0 w ≡ some curr → walk grown 0 (w ++ c ∷ []) ≡ some size
  grown-walk w h =
      walk-append grown w 0 c ∙ (ap (λ o. then_edge grown o c) (walk_old w 0 curr h) ∙ edge_new)
