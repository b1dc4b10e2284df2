-- ===== src/AhoCorasick/Insert.antt =====
-- The loop of `insert` as a whole.
use mathlib.Core.List.{append-nil, append_assoc}
use dns_security_dataplane.Base.{
  ℕ, ◌<◌, ◌≡◌, refl, sym, ap, ◌∙◌, inl, inr, List, [], ◌∷◌, ◌++◌, none, some, length, nat_Eq, arith,
  Option-cases, map,
}
use dns_security_dataplane.Name.{tolower}
use dns_security_dataplane.AhoCorasick.{AcNode, grow, insert_chars, transition}
use dns_security_dataplane.AhoCorasick.Paths.{edge, walk, IsTree, walk-append, then_edge}
use dns_security_dataplane.AhoCorasick.Follow.{HasTree, transition-edge}
use dns_security_dataplane.AhoCorasick.Grow.{
  Extends, grown, grown-IsTree, grow-HasTree, length-grow, grow-Extends, grown-walk,
}

-- What the loop leaves: a tree in which the lower-case letters lead to `curr`.
pub record Inserted (tr : ℕ → List (ℕ × ℕ)) (nodes : List AcNode) (word : List ℕ)
    (r : List AcNode × ℕ) : Type 0 where
  pub arrows : ℕ → List (ℕ × ℕ)
  pub tree : IsTree arrows (length r.0)
  pub has : HasTree arrows r.0
  pub within : r.1 < length r.0
  pub leads : walk arrows 0 word ≡ some r.1
  pub extends : Extends tr arrows nodes r.0

Extends-refl : (tr : ℕ → List (ℕ × ℕ)) (nodes : List AcNode) → Extends tr tr nodes nodes
Extends-refl tr nodes = record {
  onward = λ w n h. h;
  back = λ w n h m. h;
  matches = λ n. refl;
  rules = λ n. refl;
}

Extends-trans :
    {tr tr1 tr2 : ℕ → List (ℕ × ℕ)} {nodes nodes1 nodes2 : List AcNode}
    → Extends tr tr1 nodes nodes1
    → Extends tr1 tr2 nodes1 nodes2
    → Extends tr tr2 nodes nodes2
Extends-trans a b = record {
  onward = λ w n h. b.onward w n (a.onward w n h);
  back = λ w n h m. a.back w n (b.back w n h m) (sym (b.matches n) ∙ m);
  matches = λ n. b.matches n ∙ a.matches n;
  rules = λ n. b.rules n ∙ a.rules n;
}

old_letter :
    (c : ℕ) (cs : List ℕ) (curr target : ℕ) (nodes : List AcNode)
    → transition nodes curr (tolower c) ≡ some target
    → insert_chars (c ∷ cs) curr nodes ≡ insert_chars cs target nodes
unfolding insert_chars
old_letter c cs curr target nodes h = rw (h, insert_chars) refl

new_letter :
    (c : ℕ) (cs : List ℕ) (curr : ℕ) (nodes : List AcNode)
    → transition nodes curr (tolower c) ≡ none
    → insert_chars (c ∷ cs) curr nodes
      ≡ insert_chars cs (length nodes) (grow nodes curr (tolower c))
unfolding insert_chars
new_letter c cs curr nodes h = rw (h, insert_chars) refl

step-walk :
    (tr : ℕ → List (ℕ × ℕ)) (w : List ℕ) (curr c target : ℕ)
    → walk tr 0 w ≡ some curr
    → edge tr curr c ≡ some target
    → walk tr 0 (w ++ c ∷ []) ≡ some target
step-walk tr w curr c target h e = walk-append tr w 0 c ∙ (ap (λ o. then_edge tr o c) h ∙ e)

letter_grown :
    (c : ℕ) (cs : List ℕ) (w : List ℕ) (curr : ℕ) (nodes : List AcNode) (tr : ℕ → List (ℕ × ℕ))
    (tree : IsTree tr (length nodes)) (has : HasTree tr nodes) (within : curr < length nodes)
    (missing : edge tr curr (tolower c) ≡ none) {r : List AcNode × ℕ}
    → Inserted
        (grown tr tree nodes has refl curr (tolower c) within missing)
        (grow nodes curr (tolower c))
        ((w ++ tolower c ∷ []) ++ map tolower cs)
        r
    → Inserted tr nodes (w ++ map tolower (c ∷ cs)) r
letter_grown c cs w curr nodes tr tree has within missing rest = record {
  arrows = rest.arrows;
  tree = rest.tree;
  has = rest.has;
  within = rest.within;
  leads = rw (append_assoc w (tolower c ∷ []) (map tolower cs)) at rest.leads;
  extends =
      Extends-trans (grow-Extends tr tree nodes has refl curr (tolower c) within missing)
        rest.extends;
}

pub insert_chars-Inserted :
    (cs : List ℕ) (w : List ℕ) (curr : ℕ) (nodes : List AcNode) (tr : ℕ → List (ℕ × ℕ))
    → IsTree tr (length nodes)
    → HasTree tr nodes
    → curr < length nodes
    → walk tr 0 w ≡ some curr
    → Inserted tr nodes (w ++ map tolower cs) (insert_chars cs curr nodes)
insert_chars-Inserted [] w curr nodes tr tree has within walked =
    unfold insert_chars in
    record {
      arrows = tr;
      tree = tree;
      has = has;
      within = within;
      leads = rw append-nil walked;
      extends = Extends-refl tr nodes;
    }
insert_chars-Inserted (c ∷ cs) w curr nodes tr tree has within walked =
    elim (Option-cases (transition nodes curr (tolower c))) [
      | inr (target, e) ↦
          let f : edge tr curr (tolower c) ≡ some target =
            sym (transition-edge tr tree nodes has curr (tolower c)) ∙ e in
          let rest =
            insert_chars-Inserted cs (w ++ tolower c ∷ []) target nodes tr tree has
              (tree.inside curr (tolower c) target f)
              (step-walk tr w curr (tolower c) target walked f) in
          rw (old_letter c cs curr target nodes e)
            (rw (append_assoc w (tolower c ∷ []) (map tolower cs)) at rest)
      | inl e ↦
          let f : edge tr curr (tolower c) ≡ none =
            sym (transition-edge tr tree nodes has curr (tolower c)) ∙ e in
          rw (new_letter c cs curr nodes e) (
            letter_grown c cs w curr nodes tr tree has within f (
              insert_chars-Inserted cs (w ++ tolower c ∷ []) (length nodes)
                (grow nodes curr (tolower c))
                (grown tr tree nodes has refl curr (tolower c) within f)
                (rw (length-grow tr tree nodes has refl curr (tolower c) within f)
                  (grown-IsTree tr tree nodes has refl curr (tolower c) within f))
                (grow-HasTree tr tree nodes has refl curr (tolower c) within f)
                (rw (length-grow tr tree nodes has refl curr (tolower c) within f) (omega arith))
                (grown-walk tr tree nodes has refl curr (tolower c) within f w walked)))
    ]
