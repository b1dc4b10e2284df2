-- ===== src/AhoCorasick/Taken.antt =====
-- What a node takes over from its failure link in `build`.
use dns_security_dataplane.Base.{
  ℕ, ◌<◌, ◌≡◌, ◌≢◌, refl, ap, ◌∙◌, inl, inr, ◌⊎◌, List, Option, none, some, length, if◌then◌else◌,
  true, nat_Eq, arith, Bool-cases, ==_iff,
}
use dns_security_dataplane.AhoCorasick.{
  AcNode, node_at, update_at, with_fail, mark, link_to, inherit, or_root,
}
use dns_security_dataplane.AhoCorasick.Nodes.{Writes, update_at-Writes}
use dns_security_dataplane.Base.Members.{eq_or_ne}

-- `v` with its link, and with what it inherits from `from`.
abbrev pub taken : AcNode → ℕ → AcNode → AcNode
taken from link n = if from.is_match then mark from.rule_id (with_fail link n) else with_fail link n

pub link_to-or_root : (v : ℕ) (o : Option ℕ) → o ≢ some v → link_to v o ≡ or_root o
link_to-or_root v none n = refl
link_to-or_root v (some m) n = elim (eq_or_ne m v) [
  | inl e ↦ absurd (n (ap some e))
  | inr ne ↦ ground (arith, ==_iff m v)
]

pub some-injective : {m n : ℕ} → some m ≡ some n → m ≡ n
some-injective e = cc

pub taken-transitions :
    (from : AcNode) (link : ℕ) (n : AcNode) → (taken from link n).transitions ≡ n.transitions
taken-transitions from link n = ground arith

pub taken-fail_link : (from : AcNode) (link : ℕ) (n : AcNode) → (taken from link n).fail_link ≡ link
taken-fail_link from link n = ground arith

pub taken_own :
    (from : AcNode) (link : ℕ) (n : AcNode)
    → n.is_match ≡ true
    → (taken from link n).is_match ≡ true
taken_own from link n h = ground arith

pub taken_inherits :
    (from : AcNode) (link : ℕ) (n : AcNode)
    → from.is_match ≡ true
    → (taken from link n).is_match ≡ true
taken_inherits from link n h = ground arith

-- A mark on the child is inherited with its rule, or is its own.
pub taken_cases :
    (from : AcNode) (link : ℕ) (n : AcNode)
    → (taken from link n).is_match ≡ true
    → ((from.is_match ≡ true) × ((taken from link n).rule_id ≡ from.rule_id))
      ⊎ ((n.is_match ≡ true) × ((taken from link n).rule_id ≡ n.rule_id))
taken_cases from link n h = ground arith

pub inherit-Writes :
    (v link : ℕ) (nodes : List AcNode)
    → v < length nodes
    → link ≢ v
    → Writes v
        (taken (node_at nodes link) link (node_at nodes v))
        nodes
        (inherit v (update_at v (with_fail link) nodes))
inherit-Writes v link nodes inside ne =
    let linked = update_at-Writes v (with_fail link) nodes inside in
    let there : (node_at (update_at v (with_fail link) nodes) v).fail_link ≡ link =
      ap (λ n. n.fail_link) linked.written in
    let from : node_at (update_at v (with_fail link) nodes) link ≡ node_at nodes link =
      linked.others link ne in
    simp (there, from) (taking linked (node_at nodes link))
  where
    taking :
        Writes v (with_fail link (node_at nodes v)) nodes (update_at v (with_fail link) nodes)
        → (from : AcNode)
        → Writes v (taken from link (node_at nodes v)) nodes (
            if from.is_match
            then update_at v (mark from.rule_id) (update_at v (with_fail link) nodes)
            else update_at v (with_fail link) nodes)
    taking linked from = elim (Bool-cases from.is_match) [
      | inr f ↦ simp f linked
      | inl t ↦
          let marked =
            update_at-Writes v (mark from.rule_id) (update_at v (with_fail link) nodes)
              (omega (arith, linked.count, inside)) in
          simp t (record {
            written = marked.written ∙ ap (mark from.rule_id) linked.written;
            others = λ x n. marked.others x n ∙ linked.others x n;
            count = marked.count ∙ linked.count;
          })
    ]
