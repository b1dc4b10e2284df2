-- ===== src/Policy.antt =====
-- dataplane/include/engine/decision.h (`Decision`, `PolicyEngine`) and `PolicySnapshot` of
-- dataplane/include/runtime/atomic_snapshot.h.
pub mod Precedence
pub mod Case
use Prim.Native.String.{String}
use dns_security_dataplane.Base.{
  ℕ, if◌then◌else◌, Bool, true, false, List, [], Option, none, some, bytes_Eq,
}
use dns_security_dataplane.Base.Map.{find, assign}
use dns_security_dataplane.Base.Set.{contains, add}
use dns_security_dataplane.Trie.{Trie, empty_trie, insert, matches}

pub data Action : Type 0 where
  allow block_nxdomain block_refused block_sinkhole : Action

pub record Decision : Type 0 where
  pub action : Action
  pub reason : String
  pub matched_rule_id : ℕ

-- Steps 3 and 4 of both `evaluate` functions.
abbrev pub evaluate_suffix : Trie → List ℕ → Decision
evaluate_suffix trie domain =
    let (found, rule_id) = matches domain 0 trie in
    if found
    then record {
      action = Action.block_nxdomain;
      reason = "SUFFIX_TRIE_BLOCK";
      matched_rule_id = rule_id;
    }
    else record { action = Action.allow; reason = "DEFAULT_ALLOW"; matched_rule_id = 0 }

pub record PolicySnapshot : Type 0 where
  pub generation : ℕ
  pub version_hash : List ℕ
  pub suffix_trie : Trie
  pub exact_blocks : List (List ℕ)
  pub allowlist : List (List ℕ)

-- `PolicySnapshot::evaluate`.
unfoldable pub evaluate : PolicySnapshot → List ℕ → Decision
evaluate s dom =
    if contains dom s.allowlist
    then record { action = Action.allow; reason = "EXPLICIT_ALLOWLIST"; matched_rule_id = 0 }
    else if contains dom s.exact_blocks
    then record { action = Action.block_nxdomain; reason = "EXACT_BLOCK"; matched_rule_id = 0 }
    else evaluate_suffix s.suffix_trie dom

-- `PolicyEngine`, whose exact blocks carry their action.
pub record PolicyEngine : Type 0 where
  pub engine_allowlist : List (List ℕ)
  pub engine_blocks : List (List ℕ × Action)
  pub engine_trie : Trie

abbrev pub new_engine : PolicyEngine
new_engine = record { engine_allowlist = []; engine_blocks = []; engine_trie = empty_trie }

unfoldable pub add_allowlist : List ℕ → PolicyEngine → PolicyEngine
add_allowlist domain e = record e { engine_allowlist = add domain e.engine_allowlist }

unfoldable pub add_exact_block : List ℕ → Action → PolicyEngine → PolicyEngine
add_exact_block domain action e = record e { engine_blocks = assign domain action e.engine_blocks }

unfoldable pub add_suffix_block : List ℕ → ℕ → PolicyEngine → PolicyEngine
add_suffix_block domain rule e = record e { engine_trie = insert domain rule e.engine_trie }

-- `PolicyEngine::evaluate`.
unfoldable pub evaluate_engine : PolicyEngine → List ℕ → Decision
evaluate_engine e dom =
    if contains dom e.engine_allowlist
    then record { action = Action.allow; reason = "EXPLICIT_ALLOWLIST"; matched_rule_id = 0 }
    else elim (find dom e.engine_blocks) [
      | some action ↦ record { action = action; reason = "EXACT_BLOCK"; matched_rule_id = 0 }
      | none ↦ evaluate_suffix e.engine_trie dom
    ]
