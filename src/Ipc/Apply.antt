-- ===== src/Ipc/Apply.antt =====
-- What a request does to the policy.
use dns_security_dataplane.Base.{
  ℕ, ◌+◌, ◌%◌, ◌^◌, ◌≡◌, ◌≢◌, ◌≤◌, ◌<◌, refl, sym, ap, ◌∙◌, ◌⊎◌, inl, inr, Bool-cases, Bool, true,
  false, ◌||◌, List, [], ◌∷◌, some, arith, bytes_eq, bytes_eq_iff, bytes_Eq, take,
}
use dns_security_dataplane.Base.Set.{contains, add, contains-add}
use dns_security_dataplane.Text.{codes}
use dns_security_dataplane.Trie.{Trie, insert}
use dns_security_dataplane.Trie.Matches.{insert_all}
use dns_security_dataplane.Snapshot.{Manager, Verdict, check_candidate, apply_candidate}
use dns_security_dataplane.Snapshot.Rollback.{IsConsistent, Applied, apply_candidate-Applied}
use dns_security_dataplane.Ipc.{
  insert_suffixes, insert_names, candidate_of, on_command, handle_command, serve, until_nul,
  extract_json_string, reply_to_apply,
}

-- The rules of the suffixes, with the numbers that they get.
abbrev pub numbered : ℕ → List (List ℕ) → List (List ℕ × ℕ)
numbered i [] = []
numbered i (suffix ∷ suffixes) = (suffix, (i + 1) % 2 ^ 32) ∷ numbered (i + 1) suffixes

pub insert_suffixes-insert_all :
    (i : ℕ) (suffixes : List (List ℕ)) (trie : Trie)
    → insert_suffixes i suffixes trie ≡ insert_all (numbered i suffixes) trie
unfolding insert_suffixes insert_all
insert_suffixes-insert_all i [] trie = refl
insert_suffixes-insert_all i (suffix ∷ suffixes) trie =
    insert_suffixes-insert_all (i + 1) suffixes (insert suffix ((i + 1) % 2 ^ 32) trie)

contains-insert_names :
    (dom : List ℕ) (doms names : List (List ℕ))
    → contains dom (insert_names doms names) ≡ (contains dom doms || contains dom names)
unfolding insert_names contains
contains-insert_names dom [] names = refl
contains-insert_names dom (d ∷ doms) names =
    ground (arith, contains-insert_names dom doms (add d names), contains-add d dom names)

pub listed :
    (dom : List ℕ) (doms : List (List ℕ)) → contains dom (insert_names doms []) ≡ contains dom doms
listed dom doms = contains-insert_names dom doms [] ∙ right_false (contains dom doms)
  where
    right_false : (b : Bool) → (b || contains dom []) ≡ b
    right_false true = refl
    right_false false = unfold contains in refl

-- What a request leaves: the policy as it was, or, for APPLY_POLICY with a greater generation and a
-- version hash, the snapshot that it describes.
abbrev pub Served : List ℕ → Manager → Manager → Type 0
Served req m m' =
    (m' ≡ m)
    ⊎ ((extract_json_string req (codes "command") ≡ codes "APPLY_POLICY")
        × (m.global_generation < (candidate_of req).generation)
        × ((candidate_of req).version_hash ≢ [])
        × (m'.active_snapshot ≡ candidate_of req)
        × (m'.global_generation ≡ (candidate_of req).generation))

reply_to_apply-policy :
    (hash : List ℕ) (v : Verdict) (r : Manager × Bool) → (reply_to_apply hash v r).0 ≡ r.0
reply_to_apply-policy hash v (m, true) = refl
reply_to_apply-policy hash v (m, false) = refl

Applied-Served :
    (req : List ℕ) (m : Manager)
    → extract_json_string req (codes "command") ≡ codes "APPLY_POLICY"
    → Applied m (some (candidate_of req)) (apply_candidate (some (candidate_of req)) m)
    → Served req m (apply_candidate (some (candidate_of req)) m).0
Applied-Served req m e (inl (later, hash, active, gen, _)) = inr (e, later, hash, active, gen)
Applied-Served req m e (inr (_, kept)) = inl (ap (λ r. r.0) kept)

on_command-Served :
    (cmd req : List ℕ) (m : Manager)
    → extract_json_string req (codes "command") ≡ cmd
    → Served req m (on_command cmd req m).0
unfolding on_command
on_command-Served cmd req m e = elim (Bool-cases (bytes_eq cmd (codes "GET_STATUS"))) [
  | inl s ↦ rw s (inl refl)
  | inr n ↦ elim (Bool-cases (bytes_eq cmd (codes "APPLY_POLICY"))) [
    | inl a ↦
        rw
          (
            n,
            a,
            reply_to_apply-policy (candidate_of req).version_hash
                (check_candidate (some (candidate_of req)) m.global_generation)
                (apply_candidate (some (candidate_of req)) m),
          )
          (Applied-Served req m (e ∙ (bytes_eq_iff cmd (codes "APPLY_POLICY")).0 a)
            (apply_candidate-Applied (some (candidate_of req)) m))
    | inr k ↦ rw (n, k) (inl refl)
  ]
]

-- Whatever a request says, it leaves the policy as it was, or it says APPLY_POLICY, with a
-- generation above the current one and a version hash, and the snapshot that it describes is now
-- the active one, under that generation.
pub handle_command-Served : (req : List ℕ) (m : Manager) → Served req m (handle_command req m).0
unfolding handle_command
handle_command-Served req m =
    on_command-Served (extract_json_string req (codes "command")) req m refl

-- Whatever bytes come over the control socket, a counter that equals the generation of the active
-- snapshot stays equal to it, and never goes down.
pub serve-IsConsistent :
    (bytes : List ℕ) (m : Manager)
    → IsConsistent m
    → IsConsistent (serve bytes m).0 × (m.global_generation ≤ (serve bytes m).0.global_generation)
unfolding serve
serve-IsConsistent [] m c = (c, omega arith)
serve-IsConsistent (b ∷ bytes) m c =
    go (handle_command-Served (until_nul (take 8191 (b ∷ bytes))) m)
  where
    after : Manager
    after = (handle_command (until_nul (take 8191 (b ∷ bytes))) m).0

    go :
        Served (until_nul (take 8191 (b ∷ bytes))) m after
        → IsConsistent after × (m.global_generation ≤ after.global_generation)
    go (inl same) = rw same (c, omega arith)
    go (inr (_, later, _, active, gen)) =
        (gen ∙ sym (ap (λ s. s.generation) active), omega (arith, gen, later))
