-- ===== src/AhoCorasick/Automaton.antt =====
-- The automaton between calls: what a sequence of `insert` and `build` keeps.
use dns_security_dataplane.Base.{
  ℕ, zero, suc, ◌<◌, ◌≡◌, ◌≢◌, refl, sym, ap, ◌∙◌, inl, inr, List, [], ◌∷◌, some, length, nat_Eq,
  arith, true, false, map,
}
use dns_security_dataplane.Base.Map.{find}
use dns_security_dataplane.Base.Members.{eq_or_ne}
use dns_security_dataplane.Name.{tolower}
use dns_security_dataplane.AhoCorasick.{
  AcNode, AhoCorasick, blank_node, new_automaton, node_at, update_at, insert_chars, mark, insert,
  build, link_all, link_roots, targets,
}
use dns_security_dataplane.AhoCorasick.Nodes.{update_at-Writes, Writes}
use dns_security_dataplane.AhoCorasick.Paths.{walk, IsTree, Ends, Ends-self, name-walk}
use dns_security_dataplane.AhoCorasick.Follow.{HasTree}
use dns_security_dataplane.AhoCorasick.Build.{IsLinked, IsMarked, HasEntry}
use dns_security_dataplane.AhoCorasick.Insert.{Inserted, insert_chars-Inserted}
use dns_security_dataplane.AhoCorasick.Roots.{link_all-IsLinked}

-- The invariant, for the patterns inserted so far in lower case.
pub record IsAutomaton (entries : List (List ℕ × ℕ)) (ac : AhoCorasick) : Type 0 where
  pub arrows : ℕ → List (ℕ × ℕ)
  pub some_node : 0 < length ac.nodes
  pub tree : IsTree arrows (length ac.nodes)
  pub has : HasTree arrows ac.nodes
  pub marked : IsMarked arrows entries ac.nodes
  pub linked : ac.built ≡ true → (k : ℕ) → IsLinked arrows entries k (length ac.nodes) ac.nodes

pub new_automaton-IsAutomaton : IsAutomaton [] new_automaton
unfolding node_at find
new_automaton-IsAutomaton = record {
  arrows = λ n. [];
  some_node = omega arith;
  tree = record {
    name = λ n. [];
    root = refl;
    named = λ n c m h. cc h;
    grows = λ n c m h. cc h;
    inside = λ n c m h. cc h;
    once = λ n. tt;
  };
  has = blank_past;
  marked = record { own = λ p r e. absurd e; sound = λ w n h m. absurd (unmarked n m) };
  linked = λ e. cc e;
}
  where
    blank_past : HasTree (λ n. []) (blank_node ∷ [])
    blank_past zero = refl
    blank_past (suc n) = refl

    unmarked : (n : ℕ) → (node_at (blank_node ∷ []) n).is_match ≢ true
    unmarked zero m = cc m
    unmarked (suc n) m = cc m

abbrev pub IsSame : List AcNode → List AcNode → Type 0
IsSame nodes nodes' = (n : ℕ) → (node_at nodes' n).transitions ≡ (node_at nodes n).transitions

-- The patterns with one more, in lower case; an empty one is left out.
abbrev pub with_pattern : List ℕ → ℕ → List (List ℕ × ℕ) → List (List ℕ × ℕ)
with_pattern [] rule entries = entries
with_pattern (c ∷ cs) rule entries = (map tolower (c ∷ cs), rule) ∷ entries

HasEntry_rule :
    (p : List ℕ) {t r : ℕ} (entries : List (List ℕ × ℕ))
    → t ≡ r
    → HasEntry p t entries
    → HasEntry p r entries
HasEntry_rule p entries e i = rw e at i

mark-IsMarked :
    {entries : List (List ℕ × ℕ)} {nodes : List AcNode} (tr : ℕ → List (ℕ × ℕ)) (w : List ℕ)
    (rule : ℕ) (r : List AcNode × ℕ) (ins : Inserted tr nodes w r)
    → w ≢ []
    → IsMarked tr entries nodes
    → IsMarked ins.arrows ((w, rule) ∷ entries) (update_at r.1 (mark rule) r.0)
mark-IsMarked {entries} {nodes} tr w rule r ins ne marked = record { own = own; sound = sound }
  where
    writes : Writes r.1 (mark rule (node_at r.0 r.1)) r.0 (update_at r.1 (mark rule) r.0)
    writes = update_at-Writes r.1 (mark rule) r.0 ins.within

    own :
        (p : List ℕ) (t : ℕ)
        → HasEntry p t ((w, rule) ∷ entries)
        → (p ≢ [])
          × (n : ℕ) × (walk ins.arrows 0 p ≡ some n)
          × ((node_at (update_at r.1 (mark rule) r.0) n).is_match ≡ true)
    own p t (inl (e, f)) = (
      (λ h. ne (sym e ∙ h)),
      r.1,
      ap (walk ins.arrows 0) e ∙ ins.leads,
      ap (λ n. n.is_match) writes.written,
    )
    own p t (inr i) =
        let (pe, n, h, m) = marked.own p t i in
        (
          pe,
          n,
          ins.extends.onward p n h,
          elim (eq_or_ne n r.1) [
            | inl e ↦
                ap (λ x. (node_at (update_at r.1 (mark rule) r.0) x).is_match) e
                ∙ ap (λ x. x.is_match) writes.written
            | inr d ↦ ap (λ x. x.is_match) (writes.others n d) ∙ (ins.extends.matches n ∙ m)
          ],
        )

    sound :
        (v : List ℕ) (n : ℕ)
        → walk ins.arrows 0 v ≡ some n
        → (node_at (update_at r.1 (mark rule) r.0) n).is_match ≡ true
        → (p : List ℕ) × HasEntry p
            (node_at (update_at r.1 (mark rule) r.0) n).rule_id
            ((w, rule) ∷ entries)
          × Ends p v
    sound v n h m = elim (eq_or_ne n r.1) [
      | inl e ↦
          let same : v ≡ w =
            sym (name-walk ins.arrows ins.tree v h)
            ∙ (ap ins.tree.name e ∙ name-walk ins.arrows ins.tree w ins.leads) in
          (
            w,
            inl (
              refl,
              ap (λ x. (node_at (update_at r.1 (mark rule) r.0) x).rule_id) e
                  ∙ ap (λ x. x.rule_id) writes.written,
            ),
            rw same (Ends-self w),
          )
      | inr d ↦
          let m' : (node_at r.0 n).is_match ≡ true =
            ap (λ x. x.is_match) (sym (writes.others n d)) ∙ m in
          let (p, i, end) =
            marked.sound v n (ins.extends.back v n h m') (sym (ins.extends.matches n) ∙ m') in
          (
            p,
            inr (
                HasEntry_rule p entries
                  (sym (ap (λ x. x.rule_id) (writes.others n d) ∙ ins.extends.rules n)) i),
            end,
          )
    ]

walk_root : (tr : ℕ → List (ℕ × ℕ)) → walk tr 0 [] ≡ some 0
unfolding walk
walk_root tr = refl

-- The loop, then the mark at its end.
marked_word :
    (word : List ℕ) (rule : ℕ) (entries : List (List ℕ × ℕ)) (ac : AhoCorasick)
    (r : List AcNode × ℕ) (ok : IsAutomaton entries ac)
    → word ≢ []
    → Inserted ok.arrows ac.nodes word r
    → IsAutomaton
        ((word, rule) ∷ entries)
        (record { nodes = update_at r.1 (mark rule) r.0; built = false })
marked_word word rule entries ac r ok ne ins = record {
  arrows = ins.arrows;
  some_node = omega (arith, ins.within, writes.count);
  tree = rw writes.count ins.tree;
  has = still_there;
  marked = mark-IsMarked ok.arrows word rule r ins ne ok.marked;
  linked = λ e. cc e;
}
  where
    writes : Writes r.1 (mark rule (node_at r.0 r.1)) r.0 (update_at r.1 (mark rule) r.0)
    writes = update_at-Writes r.1 (mark rule) r.0 ins.within

    still_there : HasTree ins.arrows (update_at r.1 (mark rule) r.0)
    still_there n = elim (eq_or_ne n r.1) [
      | inr d ↦ ap (λ x. x.transitions) (writes.others n d) ∙ ins.has n
      | inl e ↦
          ap (λ x. (node_at (update_at r.1 (mark rule) r.0) x).transitions) e
          ∙ (ap (λ x. x.transitions) writes.written ∙ (ins.has r.1 ∙ ap ins.arrows (sym e)))
    ]

-- `insert` keeps the automaton well formed, and takes in its pattern in lower case, unless it is
-- empty.
pub insert-IsAutomaton :
    (pattern : List ℕ) (rule : ℕ) (entries : List (List ℕ × ℕ)) (ac : AhoCorasick)
    → IsAutomaton entries ac
    → IsAutomaton (with_pattern pattern rule entries) (insert pattern rule ac)
unfolding insert
insert-IsAutomaton [] rule entries ac ok = ok
insert-IsAutomaton (c ∷ cs) rule entries ac ok =
    marked_word (map tolower (c ∷ cs)) rule entries ac (insert_chars (c ∷ cs) 0 ac.nodes) ok
      (λ e. cc e)
      (insert_chars-Inserted (c ∷ cs) [] 0 ac.nodes ok.arrows ok.tree ok.has ok.some_node
        (walk_root ok.arrows))

build_returns :
    (ac : AhoCorasick) {nodes : List AcNode}
    → link_all
        (length ac.nodes)
        (targets (node_at ac.nodes 0).transitions)
        (link_roots (targets (node_at ac.nodes 0).transitions) ac.nodes)
      ≡ some nodes
    → build ac ≡ some (record { nodes = nodes; built = true })
unfolding build
build_returns ac h = rw (h, build) refl

-- `build` ends on every well-formed automaton: its loops take no more rounds than there are nodes.
-- What it leaves is well formed for the same patterns, and built.
pub build-IsAutomaton :
    (entries : List (List ℕ × ℕ)) (ac : AhoCorasick)
    → IsAutomaton entries ac
    → (ac' : AhoCorasick) × (build ac ≡ some ac') × IsAutomaton entries ac' × (ac'.built ≡ true)
build-IsAutomaton entries ac ok =
    let (nodes, returns, linked) =
      link_all-IsLinked ok.arrows entries ok.tree ac.nodes ok.has refl ok.marked ok.some_node in
    (
      record { nodes = nodes; built = true },
      build_returns ac (
          ap (λ es. link_all (length ac.nodes) (targets es) (link_roots (targets es) ac.nodes))
            (ok.has 0)
          ∙ returns),
      record {
        arrows = ok.arrows;
        some_node = omega (arith, ok.some_node, (linked 0).count);
        tree = rw (linked 0).count ok.tree;
        has = (linked 0).has;
        marked = (linked 0).marked;
        linked = λ e k. rw (linked k).count (linked k);
      },
      refl,
    )
