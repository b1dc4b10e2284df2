-- ===== src/AhoCorasick/Search.antt =====
-- The loop of `search`: `curr` is the node of the longest end of what was read, so that a mark on
-- it tells whether a pattern ends there.
use mathlib.Core.List.{append_assoc}
use dns_security_dataplane.Base.{
  ℕ, ◌<◌, ◌≡◌, ◌≢◌, refl, sym, ap, ◌∙◌, inl, inr, List, [], ◌∷◌, ◌++◌, Option, some, length, nat_Eq,
  arith, Option-cases, Bool, Bool-cases, true, false, map, length-append,
}
use dns_security_dataplane.Name.{tolower}
use dns_security_dataplane.AhoCorasick.{AcNode, node_at, transition, follow, or_root, search_from}
use dns_security_dataplane.AhoCorasick.Paths.{
  edge, walk, best, IsTree, Ends, Ends-trans, Ends-best, walk-best, best_longest, best-append,
  walk-some, walk-none, length-walk,
}
use dns_security_dataplane.AhoCorasick.Follow.{Stops, follow-Stops, transition-edge}
use dns_security_dataplane.AhoCorasick.Build.{IsLinked, HasEntry}

search_on :
    (nodes : List AcNode) (curr c : ℕ) (cs : List ℕ) (out : ℕ) {f : ℕ}
    → follow (length nodes) nodes curr (tolower c) ≡ some f
    → (node_at nodes (or_root (transition nodes f (tolower c)))).is_match ≡ false
    → search_from nodes curr (c ∷ cs) out
      ≡ search_from nodes (or_root (transition nodes f (tolower c))) cs out
unfolding search_from
search_on nodes curr c cs out h m = rw (h, search_from) (simp m refl)

search_hit :
    (nodes : List AcNode) (curr c : ℕ) (cs : List ℕ) (out : ℕ) {f : ℕ}
    → follow (length nodes) nodes curr (tolower c) ≡ some f
    → (node_at nodes (or_root (transition nodes f (tolower c)))).is_match ≡ true
    → search_from nodes curr (c ∷ cs) out
      ≡ some (true, (node_at nodes (or_root (transition nodes f (tolower c)))).rule_id)
unfolding search_from
search_hit nodes curr c cs out h m = rw (h, search_from) (simp m refl)

module _ (tr : ℕ → List (ℕ × ℕ)) (entries : List (List ℕ × ℕ)) {size : ℕ} (tree : IsTree tr size)
    (some_node : 0 < size) (nodes : List AcNode)
    (linked : (k : ℕ) → IsLinked tr entries k size nodes) where
  -- Behind `done`, which was read before, the rest `text` is read.
  pub record Reads (done text : List ℕ) (out : ℕ) (o : Option (Bool × ℕ)) : Type 0 where
    pub found : Bool
    pub rule : ℕ
    pub returns : o ≡ some (found, rule)
    pub hit :
        found ≡ true
        → (p : List ℕ) × HasEntry p rule entries
          × (x y : List ℕ) × (text ≡ x ++ y)
          × Ends p (done ++ x)
    pub clean :
        found ≡ false
        → (rule ≡ out)
          × ((p : List ℕ) (r : ℕ) (x y : List ℕ) (c : ℕ)
              → HasEntry p r entries
              → text ≡ x ++ c ∷ y
              → ¬ Ends p (done ++ (x ++ c ∷ [])))

  walk_inside : (w : List ℕ) (n m : ℕ) → n < size → walk tr n w ≡ some m → m < size
  unfolding walk
  walk_inside [] n m h e = ground arith
  walk_inside (c ∷ w) n m h e = elim (Option-cases (edge tr n c)) [
    | inl f ↦ cc (e, walk-none tr n c w f)
    | inr (k, f) ↦ walk_inside w k m (tree.inside n c k f) (sym (walk-some tr n c k w f) ∙ e)
  ]

  -- One letter: the loop over the failure links ends, at the node for the text with that letter.
  one_letter :
      (done : List ℕ) (c : ℕ)
      → (f : ℕ) × (follow (length nodes) nodes (best tr done) c ≡ some f)
        × (or_root (transition nodes f c) ≡ best tr (done ++ c ∷ []))
  one_letter done c =
      let k : ℕ = length (tree.name (best tr done)) in
      let walked : walk tr 0 (tree.name (best tr done)) ≡ some (best tr done) =
        walk-best tr tree done in
      let stops : Stops tr tree nodes (linked k).has (tree.name (best tr done)) c
          (follow (length nodes) nodes (best tr done) c) =
        follow-Stops tr tree nodes (linked k).has k (length nodes) (tree.name (best tr done))
          (best tr done) c (linked k).links (omega arith)
          (omega (
            arith,
            (linked k).count,
            length-walk tr tree (tree.name (best tr done)) walked,
            walk_inside (tree.name (best tr done)) 0 (best tr done) some_node walked,
          ))
          walked in
      (
        stops.stop,
        stops.returns,
        ap or_root (transition-edge tr tree nodes (linked k).has stops.stop c)
            ∙ (stops.steps ∙ sym (best-append tr tree done c)),
      )

  -- A mark tells that a pattern ends here, and no mark that none does.
  marked_end :
      (w : List ℕ)
      → (node_at nodes (best tr w)).is_match ≡ true
      → (p : List ℕ) × HasEntry p (node_at nodes (best tr w)).rule_id entries × Ends p w
  marked_end w m =
      let (p, i, end) =
        (linked 0).marked.sound (tree.name (best tr w)) (best tr w) (walk-best tr tree w) m in
      (p, i, Ends-trans p (tree.name (best tr w)) w end (Ends-best tr tree w))

  unmarked_end :
      (w p : List ℕ) (r : ℕ)
      → (node_at nodes (best tr w)).is_match ≡ false
      → HasEntry p r entries
      → ¬ Ends p w
  unmarked_end w p r m i end =
      let (_, n, h, _) = (linked 0).marked.own p r i in
      let full : (node_at nodes (best tr w)).is_match ≡ true =
        (linked (length (tree.name (best tr w)))).full (tree.name (best tr w)) (best tr w)
          (walk-best tr tree w) (omega arith) p r i (best_longest tr tree w p end h) in
      absurd (true_ne_false (sym full ∙ m))
    where
      true_ne_false : true ≢ false
      true_ne_false e = cc e

  further :
      (done : List ℕ) (c : ℕ) (cs : List ℕ) (out : ℕ) {o o' : Option (Bool × ℕ)}
      → (node_at nodes (best tr (done ++ c ∷ []))).is_match ≡ false
      → o ≡ o'
      → Reads (done ++ c ∷ []) cs out o'
      → Reads done (c ∷ cs) out o
  further done c cs out m e rest = record {
    found = rest.found;
    rule = rest.rule;
    returns = e ∙ rest.returns;
    hit = λ t.
        let (p, i, x, y, h, end) = rest.hit t in
        (p, i, c ∷ x, y, ap (λ z. c ∷ z) h, rw (append_assoc done (c ∷ []) x) at end);
    clean = λ t. ((rest.clean t).0, none_ends (rest.clean t).1);
  }
    where
      none_ends :
          ((p : List ℕ) (r : ℕ) (x y : List ℕ) (b : ℕ)
            → HasEntry p r entries
            → cs ≡ x ++ b ∷ y
            → ¬ Ends p ((done ++ c ∷ []) ++ (x ++ b ∷ [])))
          → (p : List ℕ) (r : ℕ) (x y : List ℕ) (b : ℕ) → HasEntry p r entries
          → c ∷ cs ≡ x ++ b ∷ y
          → ¬ Ends p (done ++ (x ++ b ∷ []))
      none_ends ih p r [] y b i h end =
          let same : c ≡ b = cc h in unmarked_end (done ++ c ∷ []) p r m i (rw same end)
      none_ends ih p r (a ∷ x) y b i h end =
          let same : c ≡ a = cc h in
          ih p r x y b i (cc h) (rw (append_assoc done (c ∷ []) (x ++ b ∷ []), same) end)

  pub search_from-Reads :
      (cs done : List ℕ) (out : ℕ)
      → Reads done (map tolower cs) out (search_from nodes (best tr done) cs out)
  unfolding search_from
  search_from-Reads [] done out = record {
    found = false;
    rule = out;
    returns = refl;
    hit = λ t. cc t;
    clean = λ t.
        (refl, λ p r x y c i h end. absurd (omega (arith, ap length h, length-append x (c ∷ y))));
  }
  search_from-Reads (c ∷ cs) done out =
      let (f, stops, next) = one_letter done (tolower c) in
      elim (Bool-cases (node_at nodes (best tr (done ++ tolower c ∷ []))).is_match) [
        | inr m ↦
            further done (tolower c) (map tolower cs) out m
              (search_on nodes (best tr done) c cs out stops
                  (ap (λ n. (node_at nodes n).is_match) next ∙ m)
                ∙ ap (λ n. search_from nodes n cs out) next)
              (search_from-Reads cs (done ++ tolower c ∷ []) out)
        | inl m ↦
            let (p, i, end) = marked_end (done ++ tolower c ∷ []) m in
            record {
              found = true;
              rule = (node_at nodes (best tr (done ++ tolower c ∷ []))).rule_id;
              returns =
                  search_hit nodes (best tr done) c cs out stops
                    (ap (λ n. (node_at nodes n).is_match) next ∙ m)
                  ∙ ap (λ n. some (true, (node_at nodes n).rule_id)) next;
              hit = λ t. (p, i, tolower c ∷ [], map tolower cs, refl, end);
              clean = λ t. cc t;
            }
      ]
