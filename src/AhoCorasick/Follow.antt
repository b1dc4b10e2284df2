-- ===== src/AhoCorasick/Follow.antt =====
-- The loop over the failure links: with links that stand for the longest ends, it stops within as
-- many rounds as there are nodes, where the step by `c` gives the longest end again.
use dns_security_dataplane.Base.{
  ℕ, zero, suc, ◌≤◌, ◌<◌, ◌≡◌, refl, sym, ap, ◌∙◌, inl, inr, List, [], ◌∷◌, ◌++◌, Option, none,
  some, length, nat_Eq, arith, Option-cases,
}
use dns_security_dataplane.Base.Map.{find}
use dns_security_dataplane.AhoCorasick.{AcNode, node_at, transition, follow, or_root}
use dns_security_dataplane.AhoCorasick.Paths.{
  edge, walk, best, IsTree, walk-append, then_edge, best-some, best-none, length-walk, walk-best,
  Ends-best, best-append, Ends-length, best_nil,
}

abbrev pub HasTree : (ℕ → List (ℕ × ℕ)) → List AcNode → Type 0
HasTree tr nodes = (n : ℕ) → (node_at nodes n).transitions ≡ tr n

-- The links of the nodes whose words have at most `k` letters.
abbrev pub Links : (ℕ → List (ℕ × ℕ)) → List AcNode → ℕ → Type 0
Links tr nodes k =
    (c : ℕ) (s : List ℕ) (n : ℕ)
    → walk tr 0 (c ∷ s) ≡ some n
    → length s < k
    → (node_at nodes n).fail_link ≡ best tr s

module _ (tr : ℕ → List (ℕ × ℕ)) {size : ℕ} (tree : IsTree tr size) (nodes : List AcNode)
    (has : HasTree tr nodes) where
  pub transition-edge : (f c : ℕ) → transition nodes f c ≡ edge tr f c
  transition-edge f c = ap (find c) (has f)

  -- Where the loop stops on the way from the node of `w`.
  pub record Stops (w : List ℕ) (c : ℕ) (r : Option ℕ) : Type 0 where
    pub stop : ℕ
    pub word : List ℕ
    pub returns : r ≡ some stop
    pub walked : walk tr 0 word ≡ some stop
    pub shorter : length word ≤ length w
    pub steps : or_root (edge tr stop c) ≡ best tr (w ++ c ∷ [])

  follow_here : (fuel f c : ℕ) {m : ℕ} → edge tr f c ≡ some m → follow (suc fuel) nodes f c ≡ some f
  unfolding follow
  follow_here fuel f c e = ground (arith, transition-edge f c, e)

  follow_root : (fuel c : ℕ) → follow (suc fuel) nodes 0 c ≡ some 0
  unfolding follow
  follow_root fuel c = refl

  follow_on :
      (fuel f c : ℕ)
      → 0 < f
      → edge tr f c ≡ none
      → follow (suc fuel) nodes f c ≡ follow fuel nodes (node_at nodes f).fail_link c
  unfolding follow
  follow_on fuel f c p e = ground (arith, transition-edge f c, e)

  best-step :
      (w : List ℕ) (c : ℕ) {f m : ℕ}
      → walk tr 0 w ≡ some f
      → edge tr f c ≡ some m
      → best tr (w ++ c ∷ []) ≡ m
  best-step w c h e =
      best-some tr (w ++ c ∷ []) (walk-append tr w 0 c ∙ (ap (λ o. then_edge tr o c) h ∙ e))

  no-step :
      (w : List ℕ) (c : ℕ) {f : ℕ}
      → walk tr 0 w ≡ some f
      → edge tr f c ≡ none
      → walk tr 0 (w ++ c ∷ []) ≡ none
  no-step w c h e = walk-append tr w 0 c ∙ (ap (λ o. then_edge tr o c) h ∙ e)

  root_only : (f : ℕ) → walk tr 0 [] ≡ some f → f ≡ 0
  unfolding walk
  root_only f h = ground arith

  walk_root : walk tr 0 [] ≡ some 0
  unfolding walk
  walk_root = refl

  stops_at_root : (fuel c : ℕ) → Stops [] c (follow (suc fuel) nodes 0 c)
  stops_at_root fuel c = elim (Option-cases (edge tr 0 c)) [
    | inr (m, e) ↦ record {
      stop = 0;
      word = [];
      returns = follow_root fuel c;
      walked = walk_root;
      shorter = omega arith;
      steps = ap or_root e ∙ sym (best-step [] c walk_root e);
    }
    | inl e ↦ record {
      stop = 0;
      word = [];
      returns = follow_root fuel c;
      walked = walk_root;
      shorter = omega arith;
      steps = ap or_root e ∙ sym (best-none tr c [] (no-step [] c walk_root e) ∙ best_nil tr);
    }
  ]

  pub follow-Stops :
      (k fuel : ℕ) (w : List ℕ) (f c : ℕ)
      → Links tr nodes k
      → length w ≤ k
      → length w < fuel
      → walk tr 0 w ≡ some f
      → Stops w c (follow fuel nodes f c)
  follow-Stops k zero w f c links short enough h = elim enough [ ]
  follow-Stops k (suc fuel) [] f c links short enough h = rw (root_only f h) (stops_at_root fuel c)
  follow-Stops k (suc fuel) (d ∷ w) f c links short enough h = elim (Option-cases (edge tr f c)) [
    | inr (m, e) ↦ record {
      stop = f;
      word = d ∷ w;
      returns = follow_here fuel f c e;
      walked = h;
      shorter = omega arith;
      steps = ap or_root e ∙ sym (best-step (d ∷ w) c h e);
    }
    | inl e ↦
        let l : (node_at nodes f).fail_link ≡ best tr w = links d w f h (omega arith) in
        let near : length (tree.name (best tr w)) ≤ length w =
          Ends-length _ w (Ends-best tr tree w) in
        let ih : Stops (tree.name (best tr w)) c (follow fuel nodes (best tr w) c) =
          follow-Stops k fuel (tree.name (best tr w)) (best tr w) c links (omega (arith, near))
            (omega (arith, near)) (walk-best tr tree w) in
        record {
          stop = ih.stop;
          word = ih.word;
          returns =
              follow_on fuel f c (omega (arith, length-walk tr tree (d ∷ w) h)) e
              ∙ (ap (λ g. follow fuel nodes g c) l ∙ ih.returns);
          walked = ih.walked;
          shorter = omega (arith, ih.shorter, near);
          steps =
              ih.steps
              ∙ (sym (best-append tr tree w c)
                  ∙ sym (best-none tr d (w ++ c ∷ []) (no-step (d ∷ w) c h e)));
        }
  ]
