-- ===== src/AhoCorasick/Queue.antt =====
-- The queue of `build` takes in each node once: `todo` has the nodes that were not taken off yet.
use dns_security_dataplane.Base.{
  ℕ, zero, suc, ◌-◌, ◌≤◌, ◌<◌, ◌≡◌, ◌≢◌, refl, sym, ap, ◌∙◌, inl, inr, ◌⊎◌, List, [], ◌∷◌, ◌++◌,
  none, some, length, nat_Eq, length-append, arith, All, ◌==◌, ==_iff, Bool-cases,
}
use dns_security_dataplane.Base.Map.{find, IsMap}
use dns_security_dataplane.AhoCorasick.{targets}
use dns_security_dataplane.Base.Members.{
  eq_or_ne, In, member_or_not, In-append, Distinct, append-Distinct, remove, In-remove, remove-In,
}
use dns_security_dataplane.AhoCorasick.Paths.{edge, walk, IsTree, name-walk}

tail_none :
    (b c y : ℕ) (edges : List (ℕ × ℕ)) → find b ((c, y) ∷ edges) ≡ none → find b edges ≡ none
unfolding find
tail_none b c y edges h = ground arith

snoc-injective : (s t : List ℕ) (c b : ℕ) → s ++ c ∷ [] ≡ t ++ b ∷ [] → (s ≡ t) × (c ≡ b)
snoc-injective [] [] c b e = (refl, cc e)
snoc-injective [] (y ∷ t) c b e = absurd (omega (arith, ap length e, length-append t (b ∷ [])))
snoc-injective (x ∷ s) [] c b e = absurd (omega (arith, ap length e, length-append s (c ∷ [])))
snoc-injective (x ∷ s) (y ∷ t) c b e =
    let (f, g) = snoc-injective s t c b (cc e) in let h : x ≡ y = cc e in (cc (f, h), g)

-- All nodes but the root.
unfoldable pub below : ℕ → List ℕ
below zero = []
below (suc n) = suc n ∷ below n

In-below : (n x : ℕ) → 0 < x → x ≤ n → In x (below n)
unfolding below
In-below zero x p h = absurd (omega arith)
In-below (suc n) x p h = elim (eq_or_ne x (suc n)) [
  | inl e ↦ inl e
  | inr ne ↦ inr (In-below n x p (omega (arith, ne)))
]

below-In : (n x : ℕ) → In x (below n) → 0 < x
unfolding below
below-In zero x h = absurd h
below-In (suc n) x (inl e) = omega (arith, e)
below-In (suc n) x (inr i) = below-In n x i

pub length-below : (n : ℕ) → length (below n) ≡ n
unfolding below
length-below zero = refl
length-below (suc n) = ap suc (length-below n)

module _ (tr : ℕ → List (ℕ × ℕ)) {size : ℕ} (tree : IsTree tr size) where
  -- `queue` is what waits, and `todo` has all nodes that were not taken off the queue.
  pub record Waits (queue todo : List ℕ) : Type 0 where
    pub within : (x : ℕ) → In x queue → In x todo
    pub distinct : Distinct queue
    pub parents :
        (s : List ℕ) (x c v : ℕ)
        → walk tr 0 s ≡ some x
        → edge tr x c ≡ some v
        → In v queue ⊎ (¬ In v todo)
        → ¬ In x todo

  abbrev pub AreEdges : ℕ → List (ℕ × ℕ) → Type 0
  AreEdges u edges = All (λ (e : ℕ × ℕ). edge tr u e.0 ≡ some e.1) edges

  pub In-targets :
      (u v : ℕ) (edges : List (ℕ × ℕ))
      → AreEdges u edges
      → In v (targets edges)
      → (c : ℕ) × (edge tr u c ≡ some v) × (find c edges ≢ none)
  unfolding find
  In-targets u v [] e i = absurd i
  In-targets u v ((c, y) ∷ edges) (e, more) (inl same) =
      (c, e ∙ ap some (sym same), λ n. ground (arith, ==_iff c c))
  In-targets u v ((c, y) ∷ edges) (e, more) (inr i) =
      let (b, f, n) = In-targets u v edges more i in (b, f, λ h. n (tail_none b c y edges h))

  -- A node has one parent, and one letter from there.
  pub one_parent :
      (s t : List ℕ) (x u c b v : ℕ)
      → walk tr 0 s ≡ some x
      → walk tr 0 t ≡ some u
      → edge tr x c ≡ some v
      → edge tr u b ≡ some v
      → (x ≡ u) × (c ≡ b)
  one_parent s t x u c b v hs ht ex eu =
      let words : s ++ c ∷ [] ≡ t ++ b ∷ [] =
        ap (λ y. y ++ c ∷ []) (sym (name-walk tr tree s hs))
        ∙ (sym (tree.named x c v ex)
            ∙ (tree.named u b v eu ∙ ap (λ y. y ++ b ∷ []) (name-walk tr tree t ht))) in
      let (e, f) = snoc-injective s t c b words in (some-eq (sym hs ∙ (ap (walk tr 0) e ∙ ht)), f)
    where
      some-eq : some x ≡ some u → x ≡ u
      some-eq h = cc

  targets-Distinct :
      (t : List ℕ) (u : ℕ) (edges : List (ℕ × ℕ))
      → walk tr 0 t ≡ some u
      → AreEdges u edges
      → IsMap edges
      → Distinct (targets edges)
  targets-Distinct t u [] h e m = tt
  targets-Distinct t u ((c, v) ∷ edges) h (e, more) (new, m) =
      (λ i. twice (In-targets u v edges more i), targets-Distinct t u edges h more m)
    where
      twice : (b : ℕ) × (edge tr u b ≡ some v) × (find b edges ≢ none) → ⊥
      twice (b, f, n) = n (rw (← (one_parent t t u u c b v h h e f).1) new)

  IsMap-AreEdges :
      (u : ℕ) (edges : List (ℕ × ℕ))
      → IsMap edges
      → ((c v : ℕ) → find c edges ≡ some v → edge tr u c ≡ some v)
      → AreEdges u edges
  unfolding find
  IsMap-AreEdges u [] m sub = tt
  IsMap-AreEdges u ((c, v) ∷ edges) (new, m) sub = (
    sub c v (ground (arith, ==_iff c c)),
    IsMap-AreEdges u edges m (λ b x h. sub b x (elim (Bool-cases (c == b)) [
      | inl e ↦
          let q : c ≡ b = (==_iff c b).0 e in
          absurd (none-ne-some (sym new ∙ (ap (λ k. find k edges) q ∙ h)))
      | inr n ↦ ground arith
    ])),
  )
    where
      none-ne-some : {y : ℕ} → ¬ (none ≡ some y)
      none-ne-some q = cc

  pub tr-AreEdges : (u : ℕ) → AreEdges u (tr u)
  tr-AreEdges u = IsMap-AreEdges u (tr u) (tree.once u) (λ c v h. h)

  pub Waits-next :
      (t : List ℕ) (u : ℕ) (queue todo : List ℕ)
      → walk tr 0 t ≡ some u
      → Waits (u ∷ queue) todo
      → Waits (queue ++ targets (tr u)) (remove u todo)
  Waits-next t u queue todo h waits = record {
    within = λ x i. elim (In-append x queue (targets (tr u)) i) [
      | inl old ↦
          In-remove u x todo (waits.within x (inr old)) (λ e. waits.distinct.0 (rw e at old))
      | inr new ↦ child_within x (In-targets u x (tr u) (tr-AreEdges u) new)
    ];
    distinct =
        append-Distinct queue (targets (tr u)) waits.distinct.1
          (targets-Distinct t u (tr u) h (tr-AreEdges u) (tree.once u))
          (λ x old new. apart x old (In-targets u x (tr u) (tr-AreEdges u) new));
    parents = next_parents;
  }
    where
      here : In u todo
      here = waits.within u (inl refl)

      child_within :
          (x : ℕ) → (c : ℕ) × (edge tr u c ≡ some x) × (find c (tr u) ≢ none) → In x (remove u todo)
      child_within x (c, e, _) = elim (member_or_not x todo) [
        | inl i ↦ In-remove u x todo i (λ same. absurd (omega (arith, same, tree.grows u c x e)))
        | inr out ↦ absurd (waits.parents t u c x h e (inr out) here)
      ]

      apart : (x : ℕ) → In x queue → (c : ℕ) × (edge tr u c ≡ some x) × (find c (tr u) ≢ none) → ⊥
      apart x old (c, e, _) = waits.parents t u c x h e (inl (inr old)) here

      next_parents :
          (s : List ℕ) (x c v : ℕ)
          → walk tr 0 s ≡ some x
          → edge tr x c ≡ some v
          → In v (queue ++ targets (tr u)) ⊎ (¬ In v (remove u todo))
          → ¬ In x (remove u todo)
      next_parents s x c v hs e (inl i) j = elim (In-append v queue (targets (tr u)) i) [
        | inl old ↦ waits.parents s x c v hs e (inl (inr old)) (remove-In u x todo j).0
        | inr new ↦
            let (b, f, _) = In-targets u v (tr u) (tr-AreEdges u) new in
            (remove-In u x todo j).1 (one_parent s t x u c b v hs h e f).0
      ]
      next_parents s x c v hs e (inr out) j = elim (eq_or_ne v u) [
        | inl same ↦ waits.parents s x c v hs e (inl (inl same)) (remove-In u x todo j).0
        | inr ne ↦
            waits.parents s x c v hs e (inr (λ i. out (In-remove u v todo i ne)))
              (remove-In u x todo j).0
      ]

  walk_nil : walk tr 0 [] ≡ some 0
  unfolding walk
  walk_nil = refl

  pub Waits-start : Waits (targets (tr 0)) (below (size - 1))
  Waits-start = record {
    within = λ x i. root_child x (In-targets 0 x (tr 0) (tr-AreEdges 0) i);
    distinct = targets-Distinct [] 0 (tr 0) walk_nil (tr-AreEdges 0) (tree.once 0);
    parents = root_parents;
  }
    where
      root_child :
          (x : ℕ)
          → (c : ℕ) × (edge tr 0 c ≡ some x) × (find c (tr 0) ≢ none)
          → In x (below (size - 1))
      root_child x (c, e, _) =
          In-below (size - 1) x (tree.grows 0 c x e) (omega (arith, tree.inside 0 c x e))

      root_parents :
          (s : List ℕ) (x c v : ℕ)
          → walk tr 0 s ≡ some x
          → edge tr x c ≡ some v
          → In v (targets (tr 0)) ⊎ (¬ In v (below (size - 1)))
          → ¬ In x (below (size - 1))
      root_parents s x c v hs e (inl i) j =
          let (b, f, _) = In-targets 0 v (tr 0) (tr-AreEdges 0) i in
          absurd
            (omega (arith, (one_parent s [] x 0 c b v hs walk_nil e f).0, below-In (size - 1) x j))
      root_parents s x c v hs e (inr out) j = out (
          In-below (size - 1) v (omega (arith, tree.grows x c v e))
            (omega (arith, tree.inside x c v e)))
