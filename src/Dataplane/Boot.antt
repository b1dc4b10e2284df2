-- ===== src/Dataplane/Boot.antt =====
-- The policy that the dataplane begins with.
use dns_security_dataplane.Base.{◌≡◌, refl, ◌⊎◌, inl, inr, true, false, List, ℕ, [], bytes_Eq}
use dns_security_dataplane.Base.Set.{contains}
use dns_security_dataplane.Trie.{split_labels_reversed}
use dns_security_dataplane.Trie.Matches.{insert_all}
use dns_security_dataplane.Trie.Suffix.{Blocks}
use dns_security_dataplane.Policy.{Action, evaluate}
use dns_security_dataplane.Policy.Precedence.{evaluate_two, evaluate_iff}
use dns_security_dataplane.Snapshot.{bootstrap_snapshot, new_manager, apply_candidate}
use dns_security_dataplane.Dataplane.{boot}

bootstrap_allows : (dom : List ℕ) → (evaluate bootstrap_snapshot dom).action ≡ Action.allow
unfolding insert_all
bootstrap_allows dom = go (evaluate_two bootstrap_snapshot dom)
  where
    nothing : (contains dom [] ≡ true) ⊎ Blocks [] (split_labels_reversed dom) → ⊥
    nothing (inl h) = unfold contains in cc
    nothing (inr b) = b

    go :
        ((evaluate bootstrap_snapshot dom).action ≡ Action.allow)
          ⊎ ((evaluate bootstrap_snapshot dom).action ≡ Action.block_nxdomain)
        → (evaluate bootstrap_snapshot dom).action ≡ Action.allow
    go (inl h) = h
    go (inr h) = absurd (nothing (((evaluate_iff bootstrap_snapshot [] dom refl).0 h).1))

refused : boot ≡ (new_manager, false)
unfolding boot apply_candidate
refused = refl

-- The seed policy is refused, since its generation is that of the bootstrap snapshot, so the event
-- loop begins with a policy that allows every name, those of the seed's rules too.
pub boot_allows :
    (dom : List ℕ)
    → (boot ≡ (new_manager, false)) × ((evaluate boot.0.active_snapshot dom).action ≡ Action.allow)
boot_allows dom = (refused, rw refused (bootstrap_allows dom))
