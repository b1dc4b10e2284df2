-- ===== src/Examples/Policies.antt =====
-- Rules and snapshots.
use dns_security_dataplane.Base.{
  ◌≡◌, ◌≤◌, ◌↔◌, ◌⊎◌, inl, inr, refl, true, false, some, [], ◌∷◌, arith, bytes_Eq,
}
use dns_security_dataplane.Base.Set.{contains, add}
use dns_security_dataplane.Text.{codes}
use dns_security_dataplane.Trie.{matches, split_labels_reversed, empty_trie}
use dns_security_dataplane.Trie.Matches.{
  insert_all, report, first_rule, find_rule, matches-first_rule,
}
use dns_security_dataplane.Trie.Suffix.{Blocks}
use dns_security_dataplane.Trie.Labels.{
  EndsWithRule, labels_of, segments, non_empty, matches-EndsWithRule,
}
use dns_security_dataplane.Policy.{Action, evaluate}
use dns_security_dataplane.Policy.Precedence.{evaluate_iff}
use dns_security_dataplane.Policy.Case.{HasUpper, upper_entry_ignored}
use dns_security_dataplane.Snapshot.{new_manager, apply_candidate}
use dns_security_dataplane.Snapshot.Rollback.{Applied, apply_candidate-Applied}
use dns_security_dataplane.Snapshot.{accepted, check_candidate, swap_pointer}
use dns_security_dataplane.Snapshot.Race.{
  Step, Reach, System, Inv, started, Reach-Inv, Writer, Reader,
}
use dns_security_dataplane.Dataplane.{boot}
use dns_security_dataplane.Dataplane.Boot.{boot_allows}
use dns_security_dataplane.Packets.{query_bytes, query, rules, blocking}
use dns_security_dataplane.Examples.Parsing.{parse-query}

matches-EndsWithRule_example :
    ((matches (codes "wW..b.") 0 (insert_all rules empty_trie)).0 ≡ true)
    ↔ EndsWithRule rules (codes "wW..b.")
matches-EndsWithRule_example = matches-EndsWithRule rules (codes "wW..b.") 0

two_labels : labels_of (codes "wW..b.") ≡ codes "ww" ∷ codes "b" ∷ []
unfolding segments non_empty
two_labels = refl

matches-first_rule_example :
    matches (codes "ww.b") 0 (insert_all rules empty_trie)
    ≡ report (first_rule (find_rule rules) (split_labels_reversed (codes "ww.b"))) 0
matches-first_rule_example = matches-first_rule rules (codes "ww.b") 0

evaluate_iff_example : ((evaluate blocking (codes "ww.b")).action ≡ Action.block_nxdomain) ↔ (
    (contains (codes "ww.b") blocking.allowlist ≡ false)
    × ((contains (codes "ww.b") blocking.exact_blocks ≡ true)
        ⊎ Blocks rules (split_labels_reversed (codes "ww.b"))))
evaluate_iff_example = evaluate_iff blocking rules (codes "ww.b") refl

upper : HasUpper (codes "wW.b")
upper = inr (inl (omega arith))

upper_entry_ignored_example :
    (evaluate
        (record blocking { exact_blocks = add (codes "wW.b") blocking.exact_blocks })
        query.question.qname
      ≡ evaluate blocking query.question.qname)
    × (evaluate
          (record blocking { allowlist = add (codes "wW.b") blocking.allowlist })
          query.question.qname
        ≡ evaluate blocking query.question.qname)
upper_entry_ignored_example =
    upper_entry_ignored blocking (codes "wW.b") query_bytes upper parse-query

apply_candidate-Applied_example :
    Applied new_manager (some blocking) (apply_candidate (some blocking) new_manager)
apply_candidate-Applied_example = apply_candidate-Applied (some blocking) new_manager

abbrev checked : System
checked = record started { writer = Writer.checked blocking }

abbrev swapped : System
swapped = record {
  manager = swap_pointer blocking new_manager;
  writer = Writer.swapped blocking;
  reader = Reader.outside;
}

check_passes : check_candidate (some blocking) 1 ≡ accepted blocking
unfolding check_candidate
check_passes = refl

to_checked : Reach started checked
to_checked = Reach.next Reach.here (Step.check (some blocking) blocking refl check_passes refl)

to_swapped : Reach checked swapped
to_swapped = Reach.next Reach.here (Step.swap blocking refl refl)

Reach-Inv_example :
    Inv swapped
    × (checked.manager.active_snapshot.generation ≤ swapped.manager.active_snapshot.generation)
    × (checked.manager.global_generation ≤ swapped.manager.global_generation)
Reach-Inv_example = Reach-Inv to_checked to_swapped

boot_allows_example :
    (boot ≡ (new_manager, false))
    × ((evaluate boot.0.active_snapshot (codes "blocked.test")).action ≡ Action.allow)
boot_allows_example = boot_allows (codes "blocked.test")
