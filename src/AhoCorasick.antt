-- ===== src/AhoCorasick.antt =====
-- dataplane/include/engine/aho_corasick.h and dataplane/src/engine/aho_corasick.cpp: `AhoCorasick`.
-- `nodes_` is a list; `node_at` past its end is a new node, and AhoCorasick/Paths asks of a tree that
-- no transition leads past the end. An `unordered_map` of transitions is an association list, in one
-- of its orders. The two `while` loops take fuel, the number of nodes: `none` says that it ran out.
pub mod Nodes
pub mod Paths
pub mod Grow
pub mod Insert
pub mod Follow
pub mod Build
pub mod Taken
pub mod Child
pub mod Children
pub mod Queue
pub mod Fronts
pub mod Built
pub mod Roots
pub mod Automaton
pub mod Search
pub mod Matches
use dns_security_dataplane.Base.{
  ℕ, zero, suc, ◌+◌, ltb, ◌==◌, if◌then◌else◌, Bool, true, false, not, ◌&&◌, List, [], ◌∷◌, ◌++◌,
  Option, none, some, length, nat_Eq,
}
use dns_security_dataplane.Base.Map.{find, assign}
use dns_security_dataplane.Name.{tolower, is_empty}

pub record AcNode : Type 0 where
  pub transitions : List (ℕ × ℕ)
  pub fail_link : ℕ
  pub is_match : Bool
  pub rule_id : ℕ

pub record AhoCorasick : Type 0 where
  pub nodes : List AcNode
  pub built : Bool

abbrev pub blank_node : AcNode
blank_node = record { transitions = []; fail_link = 0; is_match = false; rule_id = 0 }

-- The constructor: the root alone.
abbrev pub new_automaton : AhoCorasick
new_automaton = record { nodes = blank_node ∷ []; built = false }

-- `nodes_[i]`, read and written.
unfoldable pub node_at : List AcNode → ℕ → AcNode
node_at [] i = blank_node
node_at (n ∷ nodes) zero = n
node_at (n ∷ nodes) (suc i) = node_at nodes i

unfoldable pub update_at : ℕ → (AcNode → AcNode) → List AcNode → List AcNode
update_at i f [] = []
update_at zero f (n ∷ nodes) = f n ∷ nodes
update_at (suc i) f (n ∷ nodes) = n ∷ update_at i f nodes

abbrev pub transition : List AcNode → ℕ → ℕ → Option ℕ
transition nodes i c = find c (node_at nodes i).transitions

abbrev pub add_transition : ℕ → ℕ → AcNode → AcNode
add_transition c target n = record n { transitions = assign c target n.transitions }

-- The new node at the end, and the transition to it.
abbrev pub grow : List AcNode → ℕ → ℕ → List AcNode
grow nodes curr c = update_at curr (add_transition c (length nodes)) (nodes ++ blank_node ∷ [])

-- The loop of `insert`: the nodes afterwards, and `curr`.
unfoldable pub insert_chars : List ℕ → ℕ → List AcNode → List AcNode × ℕ
insert_chars [] curr nodes = (nodes, curr)
insert_chars (c ∷ cs) curr nodes = elim (transition nodes curr (tolower c)) [
  | none ↦ insert_chars cs (length nodes) (grow nodes curr (tolower c))
  | some target ↦ insert_chars cs target nodes
]

abbrev pub mark : ℕ → AcNode → AcNode
mark rule n = record n { is_match = true; rule_id = rule }

unfoldable pub insert : List ℕ → ℕ → AhoCorasick → AhoCorasick
insert pattern rule ac =
    if is_empty pattern
    then ac
    else let (nodes, curr) = insert_chars pattern 0 ac.nodes in
      record { nodes = update_at curr (mark rule) nodes; built = false }

abbrev pub is_none : Option ℕ → Bool
is_none none = true
is_none (some i) = false

-- `while (f > 0 && no transition) f = fail_link`.
unfoldable pub follow : ℕ → List AcNode → ℕ → ℕ → Option ℕ
follow zero nodes f c = none
follow (suc fuel) nodes f c =
    let next = follow fuel nodes (node_at nodes f).fail_link c in
    if ltb 0 f && is_none (transition nodes f c) then next else some f

abbrev pub with_fail : ℕ → AcNode → AcNode
with_fail link n = record n { fail_link = link }

-- `it != end() && it->second != v`.
abbrev pub link_to : ℕ → Option ℕ → ℕ
link_to v none = 0
link_to v (some target) = if target == v then 0 else target

-- What `v` takes over from its failure link.
abbrev pub inherit : ℕ → List AcNode → List AcNode
inherit v nodes =
    let from = node_at nodes (node_at nodes v).fail_link in
    if from.is_match then update_at v (mark from.rule_id) nodes else nodes

-- The body of the inner loop, for one transition of `u`, without the push.
abbrev pub link_from : ℕ → ℕ → List AcNode → Option ℕ → Option (List AcNode)
link_from c v nodes none = none
link_from c v nodes (some f) =
    some (inherit v (update_at v (with_fail (link_to v (transition nodes f c))) nodes))

unfoldable pub link_child : ℕ → ℕ → ℕ → List AcNode → Option (List AcNode)
link_child u c v nodes =
    link_from c v nodes (follow (length nodes) nodes (node_at nodes u).fail_link c)

abbrev pub targets : List (ℕ × ℕ) → List ℕ
targets [] = []
targets ((c, v) ∷ edges) = v ∷ targets edges

unfoldable pub link_children : ℕ → List (ℕ × ℕ) → List AcNode → Option (List AcNode)
link_children u [] nodes = some nodes
link_children u ((c, v) ∷ edges) nodes = elim (link_child u c v nodes) [
  | none ↦ none
  | some nodes' ↦ link_children u edges nodes'
]

-- The loop over the queue.
unfoldable pub link_all : ℕ → List ℕ → List AcNode → Option (List AcNode)
link_all fuel [] nodes = some nodes
link_all zero (u ∷ queue) nodes = none
link_all (suc fuel) (u ∷ queue) nodes = elim (link_children u (node_at nodes u).transitions nodes) [
  | none ↦ none
  | some nodes' ↦ link_all fuel (queue ++ targets (node_at nodes u).transitions) nodes'
]

-- The loop over the root's transitions.
unfoldable pub link_roots : List ℕ → List AcNode → List AcNode
link_roots [] nodes = nodes
link_roots (v ∷ vs) nodes = link_roots vs (update_at v (with_fail 0) nodes)

unfoldable pub build : AhoCorasick → Option AhoCorasick
build ac =
    let roots = targets (node_at ac.nodes 0).transitions in
    elim (link_all (length ac.nodes) roots (link_roots roots ac.nodes)) [
      | none ↦ none
      | some nodes ↦ some (record { nodes = nodes; built = true })
    ]

abbrev pub or_root : Option ℕ → ℕ
or_root none = 0
or_root (some target) = target

-- The loop of `search`; `out` is what `*out_rule_id` holds.
unfoldable pub search_from : List AcNode → ℕ → List ℕ → ℕ → Option (Bool × ℕ)
search_from nodes curr [] out = some (false, out)
search_from nodes curr (c ∷ cs) out = elim (follow (length nodes) nodes curr (tolower c)) [
  | none ↦ none
  | some f ↦
      let next = or_root (transition nodes f (tolower c)) in
      let rest = search_from nodes next cs out in
      if (node_at nodes next).is_match then some (true, (node_at nodes next).rule_id) else rest
]

-- `search`, which tactics name too.
unfoldable pub contains_any : AhoCorasick → List ℕ → ℕ → Option (Bool × ℕ)
contains_any ac text out =
    if not ac.built then some (false, out) else search_from ac.nodes 0 text out
