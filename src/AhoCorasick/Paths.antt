-- ===== src/AhoCorasick/Paths.antt =====
-- The tree of the transitions: the words that lead from the root to a node, and for any word the
-- node of its longest end that is such a word. This is what the failure links stand for.
use dns_security_dataplane.Base.{
  ℕ, ◌+◌, ◌≤◌, ◌<◌, ◌≡◌, refl, sym, ap, ◌∙◌, inl, inr, ◌⊎◌, List, [], ◌∷◌, ◌++◌, Option, none, some,
  length, nat_Eq, arith, Option-cases,
}
use mathlib.Core.List.{append-nil, append_assoc}
use dns_security_dataplane.Base.Map.{find, IsMap}

-- `s` stands at the end of `w`.
abbrev pub Ends : List ℕ → List ℕ → Type 0
Ends s [] = s ≡ []
Ends s (c ∷ w) = (s ≡ c ∷ w) ⊎ Ends s w

pub Ends-self : (w : List ℕ) → Ends w w
Ends-self [] = refl
Ends-self (c ∷ w) = inl refl

pub Ends-nil : (w : List ℕ) → Ends [] w
Ends-nil [] = refl
Ends-nil (c ∷ w) = inr (Ends-nil w)

pub Ends-trans : (s t w : List ℕ) → Ends s t → Ends t w → Ends s w
Ends-trans s t [] a b = rw b at a
Ends-trans s t (c ∷ w) a (inl e) = rw e at a
Ends-trans s t (c ∷ w) a (inr b) = inr (Ends-trans s t w a b)

pub Ends-length : (s w : List ℕ) → Ends s w → length s ≤ length w
Ends-length s [] e = rw e (omega arith)
Ends-length s (c ∷ w) (inl e) = rw e (omega arith)
Ends-length s (c ∷ w) (inr e) = omega (arith, Ends-length s w e)

pub Ends-append : (s w : List ℕ) (c : ℕ) → Ends s w → Ends (s ++ c ∷ []) (w ++ c ∷ [])
Ends-append s [] c e = rw e (inl refl)
Ends-append s (d ∷ w) c (inl e) = inl (ap (λ x. x ++ c ∷ []) e)
Ends-append s (d ∷ w) c (inr e) = inr (Ends-append s w c e)

module _ (tr : ℕ → List (ℕ × ℕ)) where
  abbrev pub edge : ℕ → ℕ → Option ℕ
  edge n c = find c (tr n)

  unfoldable pub walk : ℕ → List ℕ → Option ℕ
  walk n [] = some n
  walk n (c ∷ w) = elim (edge n c) [ none ↦ none | some m ↦ walk m w ]

  -- The node of the longest end of a word that is a word of the tree.
  unfoldable pub best : List ℕ → ℕ
  best [] = 0
  best (c ∷ w) = elim (walk 0 (c ∷ w)) [ none ↦ best w | some n ↦ n ]

  -- Each node has one word, the nodes of a word have growing numbers, and all are below `size`.
  pub record IsTree (size : ℕ) : Type 0 where
    pub name : ℕ → List ℕ
    pub root : name 0 ≡ []
    pub named : (n c m : ℕ) → edge n c ≡ some m → name m ≡ name n ++ c ∷ []
    pub grows : (n c m : ℕ) → edge n c ≡ some m → n < m
    pub inside : (n c m : ℕ) → edge n c ≡ some m → m < size
    pub once : (n : ℕ) → IsMap (tr n)

  pub walk-some : (n c m : ℕ) (w : List ℕ) → edge n c ≡ some m → walk n (c ∷ w) ≡ walk m w
  unfolding walk
  walk-some n c m w e = rw (e, walk)

  pub walk-none : (n c : ℕ) (w : List ℕ) → edge n c ≡ none → walk n (c ∷ w) ≡ none
  unfolding walk
  walk-none n c w e = rw (e, walk)

  -- One more step behind a walk.
  abbrev pub then_edge : Option ℕ → ℕ → Option ℕ
  then_edge none c = none
  then_edge (some m) c = edge m c

  pub walk-append : (w : List ℕ) (n c : ℕ) → walk n (w ++ c ∷ []) ≡ then_edge (walk n w) c
  unfolding walk
  walk-append [] n c = elim (Option-cases (edge n c)) [
    | inl e ↦ rw (e, walk)
    | inr (m, e) ↦ rw (e, walk)
  ]
  walk-append (d ∷ w) n c = elim (Option-cases (edge n d)) [
    | inl e ↦ rw (e, walk)
    | inr (m, e) ↦ rw (e, walk) (walk-append w m c)
  ]

  pub walk-split : (w t : List ℕ) (n m : ℕ) → walk n w ≡ some m → walk n (w ++ t) ≡ walk m t
  unfolding walk
  walk-split [] t n m h = let e : n ≡ m = cc h in rw e refl
  walk-split (d ∷ w) t n m h = elim (Option-cases (edge n d)) [
    | inl e ↦ cc (h, walk-none n d w e)
    | inr (k, e) ↦ rw (e, walk) (walk-split w t k m (sym (walk-some n d k w e) ∙ h))
  ]

  pub best-some : (w : List ℕ) {n : ℕ} → walk 0 w ≡ some n → best w ≡ n
  unfolding best
  best-some [] h = unfold walk in ground arith
  best-some (c ∷ w) h = rw (h, best) refl

  pub best-none : (c : ℕ) (w : List ℕ) → walk 0 (c ∷ w) ≡ none → best (c ∷ w) ≡ best w
  unfolding best
  best-none c w h = rw (h, best) refl

  pub best_nil : best [] ≡ 0
  unfolding best
  best_nil = refl

  pub best_is : (w : List ℕ) → (s : List ℕ) × Ends s w × (walk 0 s ≡ some (best w))
  unfolding best walk
  best_is [] = ([], refl, refl)
  best_is (c ∷ w) = go (best_is w) (Option-cases (walk 0 (c ∷ w)))
    where
      go :
          ((s : List ℕ) × Ends s w × (walk 0 s ≡ some (best w)))
          → (walk 0 (c ∷ w) ≡ none) ⊎ ((n : ℕ) × (walk 0 (c ∷ w) ≡ some n))
          → (s : List ℕ) × Ends s (c ∷ w) × (walk 0 s ≡ some (best (c ∷ w)))
      go (s, e, f) (inl h) = (s, inr e, f ∙ ap some (sym (best-none c w h)))
      go ih (inr (n, h)) = (c ∷ w, inl refl, h ∙ ap some (sym (best-some (c ∷ w) h)))

  module _ {size : ℕ} (tree : IsTree size) where
    pub walk-name :
        (w : List ℕ) (n m : ℕ)
        → walk n w ≡ some m
        → (tree.name m ≡ tree.name n ++ w) × (n + length w ≤ m)
    unfolding walk
    walk-name [] n m h =
        let e : n ≡ m = ground arith in (rw append-nil (ap tree.name (sym e)), omega (arith, e))
    walk-name (c ∷ w) n m h = elim (Option-cases (edge n c)) [
      | inl e ↦ cc (h, walk-none n c w e)
      | inr (k, e) ↦ step k e (walk-name w k m (sym (walk-some n c k w e) ∙ h))
    ]
      where
        step :
            (k : ℕ)
            → edge n c ≡ some k
            → (tree.name m ≡ tree.name k ++ w) × (k + length w ≤ m)
            → (tree.name m ≡ tree.name n ++ c ∷ w) × (n + length (c ∷ w) ≤ m)
        step k e (f, l) = (
          f ∙ (ap (λ x. x ++ w) (tree.named n c k e) ∙ append_assoc (tree.name n) (c ∷ []) w),
          omega (arith, l, tree.grows n c k e),
        )

    pub name-walk : (w : List ℕ) {n : ℕ} → walk 0 w ≡ some n → tree.name n ≡ w
    name-walk w {n} h = (walk-name w 0 n h).0 ∙ ap (λ x. x ++ w) tree.root

    pub length-walk : (w : List ℕ) {n : ℕ} → walk 0 w ≡ some n → length w ≤ n
    length-walk w {n} h = omega (arith, (walk-name w 0 n h).1)

    pub walk-best : (w : List ℕ) → walk 0 (tree.name (best w)) ≡ some (best w)
    walk-best w = let (s, e, h) = best_is w in rw (name-walk s h) h

    pub Ends-best : (w : List ℕ) → Ends (tree.name (best w)) w
    Ends-best w = let (s, e, h) = best_is w in rw (name-walk s h) e

    -- No end of the word that is a word of the tree is longer.
    pub best_longest :
        (w s : List ℕ) {m : ℕ} → Ends s w → walk 0 s ≡ some m → Ends s (tree.name (best w))
    best_longest [] s e h = rw e (Ends-nil (tree.name (best [])))
    best_longest (c ∷ w) s {m} e h = elim (Option-cases (walk 0 (c ∷ w))) [
      | inr (n, f) ↦ rw (best-some (c ∷ w) f, name-walk (c ∷ w) f) e
      | inl f ↦ rw (best-none c w f) (shorter f e (λ e'. best_longest w s e' h))
    ]
      where
        shorter :
            walk 0 (c ∷ w) ≡ none
            → (s ≡ c ∷ w) ⊎ Ends s w
            → (Ends s w → Ends s (tree.name (best w)))
            → Ends s (tree.name (best w))
        shorter f (inl same) ih = cc (same, f, h)
        shorter f (inr e') ih = ih e'

    -- What comes before the longest end has no part in the next step.
    pub best-append :
        (w : List ℕ) (c : ℕ) → best (w ++ c ∷ []) ≡ best (tree.name (best w) ++ c ∷ [])
    best-append [] c = ap (λ x. best (x ++ c ∷ [])) (sym (ap tree.name best_nil ∙ tree.root))
    best-append (d ∷ w) c = elim (Option-cases (walk 0 (d ∷ w))) [
      | inr (n, f) ↦ rw (best-some (d ∷ w) f, name-walk (d ∷ w) f) refl
      | inl f ↦ rw (best-none d w f) (
          best-none d (w ++ c ∷ []) (walk-append (d ∷ w) 0 c ∙ ap (λ o. then_edge o c) f)
          ∙ best-append w c)
    ]
