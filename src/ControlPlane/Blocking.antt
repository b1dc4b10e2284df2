-- ===== src/ControlPlane/Blocking.antt =====
-- Which names a posted policy blocks, from the request to the decision on a name.
use dns_security_dataplane.Base.{
  ℕ, ◌+◌, ◌<◌, ◌≤◌, ◌≡◌, refl, ap, ◌∙◌, ◌⊎◌, inl, inr, ◌↔◌, Bool-cases, Bool, true, false, ltb,
  List, [], ◌∷◌, some, length, All, arith, bytes_eq, bytes_eq_iff, bytes_Eq,
}
use dns_security_dataplane.Base.Set.{contains}
use dns_security_dataplane.Trie.{empty_trie, split_labels_reversed}
use dns_security_dataplane.Trie.Suffix.{Blocks}
use dns_security_dataplane.Trie.Labels.{EndsWith, EndsWithRule, Blocks-EndsWithRule}
use dns_security_dataplane.Policy.{Action, evaluate}
use dns_security_dataplane.Policy.Precedence.{evaluate_iff}
use dns_security_dataplane.Snapshot.{Manager}
use dns_security_dataplane.Ipc.{serve}
use dns_security_dataplane.Ipc.Apply.{numbered, insert_suffixes-insert_all, listed}
use dns_security_dataplane.ControlPlane.{PolicyRequest, IpcRequest, post_policy, request_bytes}
use dns_security_dataplane.ControlPlane.Writable.{IsPlain, IsWritable}
use dns_security_dataplane.ControlPlane.Candidates.{snapshot_of}
use dns_security_dataplane.ControlPlane.Posting.{outcome, serve-post_policy}

-- The name is an entry of the list, byte for byte.
abbrev pub Lists : List (List ℕ) → List ℕ → Type 0
Lists [] dom = ⊥
Lists (d ∷ ds) dom = (d ≡ dom) ⊎ Lists ds dom

-- The last labels of the name are those of some entry, which has one at least.
abbrev pub EndsWithEntry : List (List ℕ) → List ℕ → Type 0
EndsWithEntry [] dom = ⊥
EndsWithEntry (suffix ∷ suffixes) dom = EndsWith suffix dom ⊎ EndsWithEntry suffixes dom

-- What a posted policy blocks.
abbrev pub IsBlockedBy : PolicyRequest → List ℕ → Type 0
IsBlockedBy p dom =
    (¬ Lists p.allowlist dom) × (Lists p.exact_blocks dom ⊎ EndsWithEntry p.suffix_blocks dom)

contains-Lists : (ds : List (List ℕ)) (dom : List ℕ) → (contains dom ds ≡ true) ↔ Lists ds dom
unfolding contains
contains-Lists [] dom = (λ h. cc, λ l. absurd l)
contains-Lists (d ∷ ds) dom = elim (Bool-cases (bytes_eq d dom)) [
  | inl same ↦ let e : d ≡ dom = (bytes_eq_iff d dom).0 same in (λ h. inl e, λ l. rw same refl)
  | inr other ↦ (
    λ h. inr ((contains-Lists ds dom).0 (rw other at h)),
    λ l. elim l [
      | inl e ↦ absurd (clash other ((bytes_eq_iff d dom).1 e))
      | inr more ↦ rw other ((contains-Lists ds dom).1 more)
    ],
  )
]
  where
    clash : {b : Bool} → b ≡ false → b ≡ true → ⊥
    clash f t = cc

absent-Lists : (ds : List (List ℕ)) (dom : List ℕ) → (contains dom ds ≡ false) ↔ (¬ Lists ds dom)
absent-Lists ds dom = elim (Bool-cases (contains dom ds)) [
  | inl held ↦ (λ f. cc, λ n. absurd (n ((contains-Lists ds dom).0 held)))
  | inr absent ↦ (λ f l. clash absent ((contains-Lists ds dom).1 l), λ n. absent)
]
  where
    clash : {b : Bool} → b ≡ false → b ≡ true → ⊥
    clash f t = cc

numbered-EndsWithEntry :
    (i : ℕ) (suffixes : List (List ℕ)) (dom : List ℕ)
    → EndsWithRule (numbered i suffixes) dom ≡ EndsWithEntry suffixes dom
numbered-EndsWithEntry i [] dom = refl
numbered-EndsWithEntry i (suffix ∷ suffixes) dom =
    ap (λ more. EndsWith suffix dom ⊎ more) (numbered-EndsWithEntry (i + 1) suffixes dom)

Blocks-EndsWithEntry :
    (suffixes : List (List ℕ)) (dom : List ℕ)
    → Blocks (numbered 0 suffixes) (split_labels_reversed dom) ↔ EndsWithEntry suffixes dom
Blocks-EndsWithEntry suffixes dom =
    rw (numbered-EndsWithEntry 0 suffixes dom) at (Blocks-EndsWithRule (numbered 0 suffixes) dom)

evaluate-IsBlockedBy :
    (p : PolicyRequest) (dom : List ℕ)
    → ((evaluate (snapshot_of p) dom).action ≡ Action.block_nxdomain) ↔ IsBlockedBy p dom
evaluate-IsBlockedBy p dom = (to, from)
  where
    step : ((evaluate (snapshot_of p) dom).action ≡ Action.block_nxdomain) ↔ (
        (contains dom p.allowlist ≡ false)
        × ((contains dom p.exact_blocks ≡ true)
            ⊎ Blocks (numbered 0 p.suffix_blocks) (split_labels_reversed dom)))
    step =
        rw (listed dom p.allowlist, listed dom p.exact_blocks) at
          (evaluate_iff (snapshot_of p) (numbered 0 p.suffix_blocks) dom
            (insert_suffixes-insert_all 0 p.suffix_blocks empty_trie))

    to : (evaluate (snapshot_of p) dom).action ≡ Action.block_nxdomain → IsBlockedBy p dom
    to h = elim (step.0 h).1 [
      | inl exact ↦ (
        (absent-Lists p.allowlist dom).0 (step.0 h).0,
        inl ((contains-Lists p.exact_blocks dom).0 exact),
      )
      | inr suffix ↦ (
        (absent-Lists p.allowlist dom).0 (step.0 h).0,
        inr ((Blocks-EndsWithEntry p.suffix_blocks dom).0 suffix),
      )
    ]

    from : IsBlockedBy p dom → (evaluate (snapshot_of p) dom).action ≡ Action.block_nxdomain
    from (n, inl exact) =
        step.1
          ((absent-Lists p.allowlist dom).1 n, inl ((contains-Lists p.exact_blocks dom).1 exact))
    from (n, inr suffix) = step.1 (
      (absent-Lists p.allowlist dom).1 n,
      inr ((Blocks-EndsWithEntry p.suffix_blocks dom).1 suffix),
    )

-- Behind the dataplane's service of a posted policy with a generation above the current one, a name
-- is blocked exactly if it is not an entry of the policy's allowlist, and is one of its exact blocks
-- or has as its last labels those of a suffix block that has a label. Entries of the first two lists
-- count byte for byte, labels in lower case. The policy is one that the dataplane reads as it was
-- posted, under the same condition on `json.Marshal`, and its request fits into the one read of 8191
-- bytes.
pub serve-IsBlockedBy :
    (escape : List ℕ → List ℕ)
    → ((s : List ℕ) → All IsPlain s → escape s ≡ s)
    → (p : PolicyRequest) (req : IpcRequest) (m : Manager) (dom : List ℕ) → IsWritable p
    → post_policy p ≡ some req
    → length (request_bytes escape req) ≤ 8191
    → m.global_generation < p.generation
    → ((evaluate (serve (request_bytes escape req) m).0.active_snapshot dom).action
        ≡ Action.block_nxdomain)
      ↔ IsBlockedBy p dom
serve-IsBlockedBy escape verbatim p req m dom w f short later =
    let newer : ltb m.global_generation p.generation ≡ true = ground arith in
    let active : (outcome p m).0.active_snapshot ≡ snapshot_of p = rw newer refl in
    let served : (serve (request_bytes escape req) m).0.active_snapshot ≡ snapshot_of p =
      ap (λ r. r.0.active_snapshot) (serve-post_policy escape verbatim p req m w f short)
      ∙ active in
    rw served (evaluate-IsBlockedBy p dom)
