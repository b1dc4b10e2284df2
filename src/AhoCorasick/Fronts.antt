-- ===== src/AhoCorasick/Fronts.antt =====
-- One round of the loop of `build` over the queue.
use mathlib.Core.List.{append_assoc}
use dns_security_dataplane.Base.{
  ℕ, ◌+◌, ◌≤◌, ◌≡◌, refl, sym, ap, ◌∙◌, inl, inr, ◌⊎◌, List, [], ◌∷◌, ◌++◌, none, some, length,
  nat_Eq, arith, All, length-append, Option-cases, Bool, true, false, ◌==◌, ==_iff, if◌then◌else◌,
}
use dns_security_dataplane.Base.Map.{find}
use dns_security_dataplane.Base.Members.{In, In-append, In-append_left, In-append_right}
use dns_security_dataplane.AhoCorasick.{AcNode, targets}
use dns_security_dataplane.AhoCorasick.Paths.{
  edge, walk, IsTree, name-walk, walk-append, then_edge, walk-split, walk-none,
}
use dns_security_dataplane.AhoCorasick.Build.{IsLinked, IsDone, IsFull}
use dns_security_dataplane.AhoCorasick.Queue.{tr-AreEdges, In-targets}

pub find-In : (c y : ℕ) (edges : List (ℕ × ℕ)) → find c edges ≡ some y → In y (targets edges)
unfolding find
find-In c y [] h = cc
find-In c y ((b, v) ∷ edges) h = go (b == c) refl h (find-In c y edges)
  where
    go :
        (t : Bool)
        → (b == c) ≡ t
        → (if t then some v else find c edges) ≡ some y
        → (find c edges ≡ some y → In y (targets edges))
        → (y ≡ v) ⊎ In y (targets edges)
    go true e g ih = inl (cc g)
    go false e g ih = inr (ih g)

module _ (tr : ℕ → List (ℕ × ℕ)) (entries : List (List ℕ × ℕ)) {size : ℕ}
    (tree : IsTree tr size) where
  abbrev pub depth : ℕ → ℕ
  depth u = length (tree.name u)

  abbrev pub IsSorted : List ℕ → Type 0
  IsSorted [] = Unit
  IsSorted (u ∷ queue) =
      ((x : ℕ) → In x queue → (depth u ≤ depth x) × (depth x ≤ depth u + 1)) × IsSorted queue

  append-IsSorted :
      (n : ℕ) (xs ys : List ℕ)
      → IsSorted xs
      → ((x : ℕ) → In x xs → (n ≤ depth x) × (depth x ≤ n + 1))
      → ((y : ℕ) → In y ys → depth y ≡ n + 1)
      → IsSorted (xs ++ ys)
  append-IsSorted n [] [] s a b = tt
  append-IsSorted n [] (y ∷ ys) s a b = (
    λ z i. (omega (arith, b y (inl refl), b z (inr i)), omega (arith, b y (inl refl), b z (inr i))),
    append-IsSorted n [] ys tt a (λ z i. b z (inr i)),
  )
  append-IsSorted n (x ∷ xs) ys (f, s) a b = (
    λ z i. elim (In-append z xs ys i) [
      | inl l ↦ f z l
      | inr r ↦ (omega (arith, b z r, a x (inl refl)), omega (arith, b z r, a x (inl refl)))
    ],
    append-IsSorted n xs ys s (λ z i. a z (inr i)) b,
  )

  -- Between two rounds: what waits is done, and what is not done is below a node that waits.
  pub record Fronts (queue : List ℕ) (nodes : List AcNode) : Type 0 where
    pub linked : IsLinked tr entries 0 size nodes
    pub done :
        (u : ℕ)
        → In u queue
        → (b : ℕ) × (s : List ℕ) × (walk tr 0 (b ∷ s) ≡ some u) × IsDone tr entries nodes b s u
    pub order : IsSorted queue
    pub rest :
        (b : ℕ) (s : List ℕ) (x : ℕ)
        → walk tr 0 (b ∷ s) ≡ some x
        → IsDone tr entries nodes b s x
          ⊎ ((u : ℕ) × In u queue × (c : ℕ) × (t : List ℕ) × (b ∷ s ≡ tree.name u ++ c ∷ t))

  -- Words that are no longer than those of the queue are done.
  pub shallow :
      (queue : List ℕ) (nodes : List AcNode) (k : ℕ)
      → Fronts queue nodes
      → ((u : ℕ) → In u queue → k ≤ depth u)
      → IsLinked tr entries k size nodes
  shallow queue nodes k fronts far = record {
    has = fronts.linked.has;
    count = fronts.linked.count;
    marked = fronts.linked.marked;
    links = λ c s n h short. (near c s n h (omega (arith, short))).link;
    full = fulls;
  }
    where
      near :
          (c : ℕ) (s : List ℕ) (n : ℕ)
          → walk tr 0 (c ∷ s) ≡ some n
          → length s + 1 ≤ k
          → IsDone tr entries nodes c s n
      near c s n h short = elim (fronts.rest c s n h) [
        | inl d ↦ d
        | inr (u, i, c', t, e) ↦
            absurd
              (omega (arith, short, far u i, ap length e, length-append (tree.name u) (c' ∷ t)))
      ]

      fulls :
          (w : List ℕ) (n : ℕ) → walk tr 0 w ≡ some n → length w ≤ k → IsFull tr entries nodes w n
      fulls [] n h short p r e end = absurd ((fronts.linked.marked.own p r e).0 end)
      fulls (c ∷ s) n h short p r e end = (near c s n h (omega (arith, short))).full p r e end

  done_at :
      (d : ℕ) (w : List ℕ) (u : ℕ) (walked : walk tr 0 (d ∷ w) ≡ some u) (nodes : List AcNode)
      (edges : List (ℕ × ℕ)) (c y : ℕ)
      → All (λ (e : ℕ × ℕ). IsDone tr entries nodes d (w ++ e.0 ∷ []) e.1) edges
      → find c edges ≡ some y
      → IsDone tr entries nodes d (w ++ c ∷ []) y
  unfolding find
  done_at d w u walked nodes [] c y a h = cc
  done_at d w u walked nodes ((b, v) ∷ edges) c y (f, a) h =
      go (b == c) refl h (done_at d w u walked nodes edges c y a)
    where
      go :
          (t : Bool)
          → (b == c) ≡ t
          → (if t then some v else find c edges) ≡ some y
          → (find c edges ≡ some y → IsDone tr entries nodes d (w ++ c ∷ []) y)
          → IsDone tr entries nodes d (w ++ c ∷ []) y
      go true e g ih = let p : b ≡ c = (==_iff b c).0 e in let q : v ≡ y = cc g in rw (← p, ← q) f
      go false e g ih = ih g

  module _ (d : ℕ) (w : List ℕ) (u : ℕ) (queue : List ℕ) (walked : walk tr 0 (d ∷ w) ≡ some u)
      (nodes nodes' : List AcNode) (fronts : Fronts (u ∷ queue) nodes)
      (linked : IsLinked tr entries (length w + 1) size nodes')
      (done : All (λ (e : ℕ × ℕ). IsDone tr entries nodes' d (w ++ e.0 ∷ []) e.1) (tr u))
      (keeps : (b : ℕ) (s : List ℕ) (x : ℕ)
        → walk tr 0 (b ∷ s) ≡ some x
        → IsDone tr entries nodes b s x
        → IsDone tr entries nodes' b s x) where
    pub named : tree.name u ≡ d ∷ w
    named = name-walk tr tree (d ∷ w) walked

    child_at : (c y : ℕ) → edge tr u c ≡ some y → walk tr 0 (d ∷ (w ++ c ∷ [])) ≡ some y
    child_at c y e = walk-append tr (d ∷ w) 0 c ∙ (ap (λ o. then_edge tr o c) walked ∙ e)

    still_done :
        (x : ℕ)
        → In x (queue ++ targets (tr u))
        → (b : ℕ) × (s : List ℕ) × (walk tr 0 (b ∷ s) ≡ some x) × IsDone tr entries nodes' b s x
    still_done x i = elim (In-append x queue (targets (tr u)) i) [
      | inl old ↦ let (b, s, h, f) = fronts.done x (inr old) in (b, s, h, keeps b s x h f)
      | inr new ↦
          let (c, e, _) = In-targets tr tree u x (tr u) (tr-AreEdges tr tree u) new in
          (d, w ++ c ∷ [], child_at c x e, done_at d w u walked nodes' (tr u) c x done e)
    ]

    still-IsSorted : IsSorted (queue ++ targets (tr u))
    still-IsSorted =
        append-IsSorted (depth u) queue (targets (tr u)) fronts.order.1 fronts.order.0 (λ y i.
          let (c, e, _) = In-targets tr tree u y (tr u) (tr-AreEdges tr tree u) i in
          omega (arith, ap length (tree.named u c y e), length-append (tree.name u) (c ∷ [])))

    below_child :
        (b : ℕ) (s : List ℕ) (x c : ℕ) (t : List ℕ)
        → walk tr 0 (b ∷ s) ≡ some x
        → b ∷ s ≡ d ∷ (w ++ c ∷ t)
        → IsDone tr entries nodes' b s x
          ⊎ ((v : ℕ) × In v (queue ++ targets (tr u))
              × (a : ℕ) × (r : List ℕ) × (b ∷ s ≡ tree.name v ++ a ∷ r))
    below_child b s x c t h e = elim (Option-cases (edge tr u c)) [
      | inl none_there ↦ absurd (none-ne-some (sym (walk-none tr u c t none_there) ∙ onward t e))
      | inr (y, f) ↦ behind t y f e
    ]
      where
        none-ne-some : ¬ (none ≡ some x)
        none-ne-some q = cc

        onward : (r : List ℕ) → b ∷ s ≡ d ∷ (w ++ c ∷ r) → walk tr u (c ∷ r) ≡ some x
        onward r e = sym (walk-split tr (d ∷ w) (c ∷ r) 0 u walked) ∙ (ap (walk tr 0) (sym e) ∙ h)

        behind :
            (t : List ℕ) (y : ℕ)
            → edge tr u c ≡ some y
            → b ∷ s ≡ d ∷ (w ++ c ∷ t)
            → IsDone tr entries nodes' b s x
              ⊎ ((v : ℕ) × In v (queue ++ targets (tr u))
                  × (a : ℕ) × (r : List ℕ) × (b ∷ s ≡ tree.name v ++ a ∷ r))
        behind [] y f e =
            let first : b ≡ d = cc e in
            let more : s ≡ w ++ c ∷ [] = cc e in
            let same : y ≡ x = cc (child_at c y f, h, e) in
            inl (rw (first, more, ← same) (done_at d w u walked nodes' (tr u) c y done f))
        behind (a ∷ r) y f e = inr (
          y,
          In-append_right y queue (targets (tr u)) (find-In c y (tr u) f),
          a,
          r,
          e
              ∙ (ap (λ z. d ∷ z) (sym (append_assoc w (c ∷ []) (a ∷ r)))
                  ∙ ap (λ z. z ++ a ∷ r)
                      (sym (name-walk tr tree (d ∷ (w ++ c ∷ [])) (child_at c y f)))),
        )

    pub next-Fronts : Fronts (queue ++ targets (tr u)) nodes'
    next-Fronts = record {
      linked = record {
        has = linked.has;
        count = linked.count;
        marked = linked.marked;
        links = λ c s n h short. linked.links c s n h (omega (arith, short));
        full = λ s n h short. linked.full s n h (omega (arith, short));
      };
      done = still_done;
      order = still-IsSorted;
      rest = λ b s x h. elim (fronts.rest b s x h) [
        | inl f ↦ inl (keeps b s x h f)
        | inr (v, inl same, c, t, e) ↦
            below_child b s x c t h (e ∙ ap (λ z. z ++ c ∷ t) (ap tree.name same ∙ named))
        | inr (v, inr i, c, t, e) ↦ inr (v, In-append_left v queue (targets (tr u)) i, c, t, e)
      ];
    }
