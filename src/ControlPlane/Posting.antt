-- ===== src/ControlPlane/Posting.antt =====
-- A policy that is posted to the control plane, up to the dataplane's reply.
use dns_security_dataplane.Base.{
  ℕ, zero, suc, ◌≤◌, ◌≡◌, ◌≢◌, refl, sym, ap, ◌∙◌, inl, inr, ◌==◌, ==_iff, true, false, not, leb,
  ltb, if◌then◌else◌, List, [], ◌∷◌, ◌++◌, some, length, take, All, All-append, bytes_eq, bytes_Eq,
  arith, Bool-cases,
}
use dns_security_dataplane.Base.Map.{All-retain}
use dns_security_dataplane.Text.{codes, to_string, to_string-All}
use dns_security_dataplane.Name.{is_empty}
use dns_security_dataplane.Snapshot.{Manager, check_candidate, apply_candidate, apply_verdict}
use dns_security_dataplane.Ipc.{
  candidate_of, extract_json_string, until_nul, serve, handle_command, on_command, applied_reply,
  rejected_reply,
}
use dns_security_dataplane.ControlPlane.{
  PolicyRequest, IpcRequest, post_policy, Json, number, text, texts, more_texts_onto, texts_onto,
  value_onto, more_members_onto, quoted_onto, is_omitted, request_bytes,
}
use dns_security_dataplane.ControlPlane.Writable.{IsPlain, IsEntry, IsWritable}
use dns_security_dataplane.ControlPlane.Candidates.{
  snapshot_of, post_policy-request_of, bytes, members, kept, request_bytes-bytes,
  candidate_of-request_bytes,
}

abbrev NoNul : List ℕ → Type 0
NoNul s = All (λ c. c ≢ 0) s

quoted_onto-NoNul : (s rest : List ℕ) → NoNul s → NoNul rest → NoNul (quoted_onto s rest)
quoted_onto-NoNul s rest n m = (omega arith, All-append _ s (b'"' ∷ rest) n (omega arith, m))

more_texts_onto-NoNul :
    (ss : List (List ℕ)) (rest : List ℕ)
    → All NoNul ss
    → NoNul rest
    → NoNul (more_texts_onto ss rest)
unfolding more_texts_onto
more_texts_onto-NoNul [] rest a m = m
more_texts_onto-NoNul (s ∷ ss) rest (n, a) m =
    (omega arith, quoted_onto-NoNul s _ n (more_texts_onto-NoNul ss rest a m))

texts_onto-NoNul :
    (ss : List (List ℕ)) (rest : List ℕ) → All NoNul ss → NoNul rest → NoNul (texts_onto ss rest)
texts_onto-NoNul [] rest a m = m
texts_onto-NoNul (s ∷ ss) rest (n, a) m =
    quoted_onto-NoNul s _ n (more_texts_onto-NoNul ss rest a m)

abbrev Nowhere : Json → Type 0
Nowhere (number n) = Unit
Nowhere (text s) = NoNul s
Nowhere (texts ss) = All NoNul ss

value_onto-NoNul : (v : Json) (rest : List ℕ) → Nowhere v → NoNul rest → NoNul (value_onto v rest)
value_onto-NoNul (number n) rest a m =
    All-append _ (to_string n) rest (to_string-All 0 n (inl (omega arith))) m
value_onto-NoNul (text s) rest a m = quoted_onto-NoNul s rest a m
value_onto-NoNul (texts ss) rest a m = (omega arith, texts_onto-NoNul ss _ a (omega arith, m))

more_members_onto-NoNul :
    (ms : List (List ℕ × Json)) (rest : List ℕ)
    → All (λ m. NoNul m.0 × Nowhere m.1) ms
    → NoNul rest
    → NoNul (more_members_onto ms rest)
unfolding more_members_onto
more_members_onto-NoNul [] rest a m = m
more_members_onto-NoNul ((k, v) ∷ ms) rest ((n, here), a) m = (
  omega arith,
  quoted_onto-NoNul k _ n
      (omega arith, value_onto-NoNul v _ here (more_members_onto-NoNul ms rest a m)),
)

plain-NoNul : (s : List ℕ) → All IsPlain s → NoNul s
plain-NoNul [] a = tt
plain-NoNul (c ∷ s) ((low, _, _, _, _, _, _), a) = (omega (arith, low), plain-NoNul s a)

entries-NoNul : (ss : List (List ℕ)) → All IsEntry ss → All NoNul ss
entries-NoNul [] a = tt
entries-NoNul (s ∷ ss) (((n, _), _), a) = (plain-NoNul s n, entries-NoNul ss a)

bytes-NoNul : (p : PolicyRequest) (w : IsWritable p) → NoNul (bytes p w)
bytes-NoNul p w =
    let all : All (λ m. NoNul m.0 × Nowhere m.1) (members p w) = (
      (ground arith, tt),
      (
        (ground arith, plain-NoNul p.version_hash w.version_hash.0),
        (
          (ground arith, entries-NoNul p.suffix_blocks w.suffix_blocks),
          (
            (ground arith, entries-NoNul p.exact_blocks w.exact_blocks),
            ((ground arith, entries-NoNul p.allowlist w.allowlist), tt),
          ),
        ),
      ),
    ) in
    let behind =
      more_members_onto-NoNul (kept p w) (b'}' ∷ 10 ∷ [])
        (All-retain (λ (m : List ℕ × Json). NoNul m.0 × Nowhere m.1) (λ key v. not (is_omitted v))
          (members p w) all)
        (ground arith) in
    let inside =
      quoted_onto (codes "APPLY_POLICY") (more_members_onto (kept p w) (b'}' ∷ 10 ∷ [])) in
    (
      omega arith,
      quoted_onto-NoNul (codes "command") (b':' ∷ inside) (ground arith)
          (omega arith, quoted_onto-NoNul (codes "APPLY_POLICY") _ (ground arith) behind),
    )

until_nul-same : (s : List ℕ) → NoNul s → until_nul s ≡ s
until_nul-same [] n = refl
until_nul-same (c ∷ s) (here, n) =
    let other : (c == 0) ≡ false = ground (arith, ==_iff c 0) in rw (other, until_nul-same s n) refl

take_all {ℓ} : {A : Type ℓ} (n : ℕ) (s : List A) → length s ≤ n → take n s ≡ s
take_all zero [] h = refl
take_all zero (x ∷ s) h = absurd (omega arith)
take_all (suc n) [] h = refl
take_all (suc n) (x ∷ s) h = ap (λ t. x ∷ t) (take_all n s (omega arith))

-- What becomes of a policy.
abbrev pub activated : PolicyRequest → Manager
activated p = record { active_snapshot = snapshot_of p; global_generation = p.generation }

abbrev pub outcome : PolicyRequest → Manager → Manager × List ℕ
outcome p m =
    if ltb m.global_generation p.generation
    then (
      activated p,
      codes "{\"status\":\"OK\",\"active_generation\":"
          ++ (to_string p.generation
              ++ (codes ",\"version_hash\":\"" ++ (p.version_hash ++ codes "\"}\n"))),
    )
    else (
      m,
      codes
            "{\"status\":\"REJECTED\",\"error\":\"Candidate generation must be > active generation\",\"active_generation\":"
          ++ (to_string m.global_generation ++ codes "}\n"),
    )

outcome_of_candidate :
    (p : PolicyRequest) (m : Manager) (req : List ℕ)
    → is_empty p.version_hash ≡ false
    → extract_json_string req (codes "command") ≡ codes "APPLY_POLICY"
    → candidate_of req ≡ snapshot_of p
    → handle_command req m ≡ outcome p m
unfolding handle_command on_command applied_reply rejected_reply bytes_eq apply_candidate
    check_candidate apply_verdict
outcome_of_candidate p m req hash cmd candidate =
    rw (cmd, candidate)
      (elim (Bool-cases (leb p.generation m.global_generation)) [
        | inl old ↦
            let no : ltb m.global_generation p.generation ≡ false = ground arith in
            rw (old, no) refl
        | inr later ↦
            let yes : ltb m.global_generation p.generation ≡ true = ground arith in
            rw (later, yes, hash) refl
      ])

-- A policy that passes the checks of the control plane becomes the dataplane's active policy, under
-- its own generation, exactly if that is greater than the current one, and the reply is OK with that
-- generation and the version hash; otherwise the dataplane stays as it was and the reply is
-- REJECTED. The policy is one that the dataplane reads as it was posted, under the same condition
-- on `json.Marshal`, and its request fits into the one read of 8191 bytes.
pub serve-post_policy :
    (escape : List ℕ → List ℕ)
    → ((s : List ℕ) → All IsPlain s → escape s ≡ s)
    → (p : PolicyRequest) (req : IpcRequest) (m : Manager) → IsWritable p
    → post_policy p ≡ some req
    → length (request_bytes escape req) ≤ 8191
    → serve (request_bytes escape req) m ≡ outcome p m
unfolding serve
serve-post_policy escape verbatim p req m w f short =
    let (checks, own) = post_policy-request_of p req f in
    let is_bytes : request_bytes escape req ≡ bytes p w =
      ap (request_bytes escape) (sym own) ∙ request_bytes-bytes p w escape verbatim in
    let (cmd, candidate) = candidate_of-request_bytes escape verbatim p req w f in
    let whole : take 8191 (bytes p w) ≡ bytes p w =
      take_all 8191 (bytes p w) (rw is_bytes at short) in
    let text : until_nul (take 8191 (bytes p w)) ≡ bytes p w =
      ap until_nul whole ∙ until_nul-same (bytes p w) (bytes-NoNul p w) in
    let done : handle_command (bytes p w) m ≡ outcome p m =
      outcome_of_candidate p m (bytes p w) checks.1 (rw is_bytes at cmd)
        (rw is_bytes at candidate) in
    rw (is_bytes, text) done
