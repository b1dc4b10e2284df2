-- ===== src/Snapshot.antt =====
-- dataplane/include/runtime/atomic_snapshot.h and dataplane/src/runtime/atomic_snapshot.cpp:
-- `SnapshotManager`. A shared pointer to an immutable snapshot is the snapshot.
pub mod Rollback
pub mod Race
use Prim.Native.String.{String}
use dns_security_dataplane.Base.{
  ℕ, leb, if◌then◌else◌, Bool, true, false, List, [], ◌∷◌, Option, none, some,
}
use dns_security_dataplane.Name.{is_empty}
use dns_security_dataplane.Text.{codes}
use dns_security_dataplane.Trie.{empty_trie}
use dns_security_dataplane.Policy.{PolicySnapshot}

pub record Manager : Type 0 where
  pub active_snapshot : PolicySnapshot
  pub global_generation : ℕ

abbrev pub bootstrap_snapshot : PolicySnapshot
bootstrap_snapshot = record {
  generation = 1;
  version_hash = codes "bootstrap_v1";
  suffix_trie = empty_trie;
  exact_blocks = [];
  allowlist = [];
}

-- The constructor, and `reset`.
abbrev pub new_manager : Manager
new_manager = record { active_snapshot = bootstrap_snapshot; global_generation = 1 }

abbrev pub reset : Manager → Manager
reset m = record { active_snapshot = bootstrap_snapshot; global_generation = 1 }

-- The checks of `apply_candidate`: the text for `err_out`, or the snapshot to swap in.
pub data Verdict : Type 0 where
  rejected : String → Verdict
  accepted : PolicySnapshot → Verdict

unfoldable pub check_candidate : Option PolicySnapshot → ℕ → Verdict
check_candidate none current_gen = rejected "Null candidate pointer"
check_candidate (some candidate) current_gen =
    if leb candidate.generation current_gen
    then rejected "Candidate generation must be > active generation"
    else if is_empty candidate.version_hash
    then rejected "Candidate missing cryptographic version hash"
    else accepted candidate

-- The two stores.
abbrev pub swap_pointer : PolicySnapshot → Manager → Manager
swap_pointer s m = record m { active_snapshot = s }

abbrev pub store_generation : PolicySnapshot → Manager → Manager
store_generation s m = record m { global_generation = s.generation }

unfoldable pub apply_verdict : Verdict → Manager → Manager × Bool
apply_verdict (rejected text) m = (m, false)
apply_verdict (accepted s) m = (store_generation s (swap_pointer s m), true)

unfoldable pub apply_candidate : Option PolicySnapshot → Manager → Manager × Bool
unfolding check_candidate apply_verdict
apply_candidate candidate m = apply_verdict (check_candidate candidate m.global_generation) m
