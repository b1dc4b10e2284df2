-- ===== src/ControlPlane/Candidates.antt =====
-- The policy that the dataplane makes of a request, against the policy that was posted.
use dns_security_dataplane.Base.{
  ℕ, ◌<◌, ◌≡◌, refl, sym, ap, ◌∙◌, ◌==◌, ==_iff, true, false, not, if◌then◌else◌, ◌||◌, List, [],
  ◌∷◌, none, some, All, map, bytes_eq, bytes_Eq, arith,
}
use dns_security_dataplane.Base.Map.{find, retain, find-retain, All-retain, IsMap}
use dns_security_dataplane.Base.Set.{contains}
use dns_security_dataplane.Text.{codes}
use dns_security_dataplane.Name.{is_empty}
use dns_security_dataplane.Trie.{empty_trie}
use dns_security_dataplane.Policy.{PolicySnapshot}
use dns_security_dataplane.Ipc.{
  find_text, candidate_of, insert_suffixes, insert_names, extract_json_string, extract_json_strings,
  extract_json_uint64,
}
use dns_security_dataplane.ControlPlane.{
  PolicyRequest, IpcRequest, post_policy, Json, number, text, texts, is_omitted, request_bytes,
}
use dns_security_dataplane.ControlPlane.Search.{NoQuote}
use dns_security_dataplane.ControlPlane.Fields.{IsClear}
use dns_security_dataplane.ControlPlane.Writable.{
  IsPlain, keys, IsEntry, IsWritable, plain-NoQuote, IsString-IsOther, entries-IsOther,
  entries-IsItem,
}
use dns_security_dataplane.ControlPlane.Requests.{
  printed, printed_text, printed_number, printed_texts,
}

-- The snapshot that the posted policy stands for.
abbrev pub snapshot_of : PolicyRequest → PolicySnapshot
snapshot_of p = record {
  generation = p.generation;
  version_hash = p.version_hash;
  suffix_trie = insert_suffixes 0 p.suffix_blocks empty_trie;
  exact_blocks = insert_names p.exact_blocks [];
  allowlist = insert_names p.allowlist [];
}

abbrev pub request_of : PolicyRequest → IpcRequest
request_of p = record {
  command = codes "APPLY_POLICY";
  generation = p.generation;
  version_hash = p.version_hash;
  suffix_blocks = p.suffix_blocks;
  exact_blocks = p.exact_blocks;
  allowlist = p.allowlist;
}

module _ (p : PolicyRequest) (w : IsWritable p) where
  -- The members of the request, with the strings as they are.
  abbrev pub members : List (List ℕ × Json)
  members =
      (codes "generation", number p.generation)
      ∷ (codes "version_hash", text p.version_hash)
      ∷ (codes "suffix_blocks", texts p.suffix_blocks)
      ∷ (codes "exact_blocks", texts p.exact_blocks)
      ∷ (codes "allowlist", texts p.allowlist)
      ∷ []

  members-IsMap : IsMap members
  unfolding find bytes_eq
  members-IsMap = (refl, (refl, (refl, (refl, (refl, tt)))))

  members-IsClear :
      (key : List ℕ) → contains key keys ≡ true → All (λ m. NoQuote m.0 × IsClear key m.1) members
  members-IsClear key is_one = (
    (ground arith, tt),
    (
      (ground arith, IsString-IsOther key p.version_hash is_one w.version_hash),
      (
        (ground arith, entries-IsOther key p.suffix_blocks is_one w.suffix_blocks),
        (
          (ground arith, entries-IsOther key p.exact_blocks is_one w.exact_blocks),
          ((ground arith, entries-IsOther key p.allowlist is_one w.allowlist), tt),
        ),
      ),
    ),
  )

  abbrev pub kept : List (List ℕ × Json)
  kept = retain (λ key v. not (is_omitted v)) members

  kept-IsClear :
      (key : List ℕ) → contains key keys ≡ true → All (λ m. NoQuote m.0 × IsClear key m.1) kept
  kept-IsClear key is_one =
      All-retain _ (λ key v. not (is_omitted v)) members (members-IsClear key is_one)

  find-kept :
      (key : List ℕ) (v : Json)
      → find key members ≡ some v
      → find key kept ≡ (if not (is_omitted v) then some v else none)
  find-kept key v h =
      find-retain (λ key v. not (is_omitted v)) key members members-IsMap ∙ rw h refl

  abbrev command : List ℕ
  command = codes "command"

  abbrev action : Json
  action = text (codes "APPLY_POLICY")

  abbrev pub bytes : List ℕ
  bytes = printed command action kept

  pub command_read : extract_json_string bytes (codes "command") ≡ codes "APPLY_POLICY"
  unfolding extract_json_string find_text
  command_read = refl

  generation_read : extract_json_uint64 bytes (codes "generation") ≡ p.generation
  unfolding find bytes_eq contains
  generation_read =
      printed_number command action kept (codes "generation") (ground arith) (ground arith, refl)
        (ground arith, refl) (kept-IsClear (codes "generation") refl) p.generation
        (find-kept (codes "generation") (number p.generation) refl) (ground arith) w.generation

  version_hash_read : extract_json_string bytes (codes "version_hash") ≡ p.version_hash
  unfolding find bytes_eq contains
  version_hash_read =
      printed_text command action kept (codes "version_hash") (ground arith) (ground arith, refl)
        (ground arith, refl) (kept-IsClear (codes "version_hash") refl) p.version_hash
        (find-kept (codes "version_hash") (text p.version_hash) refl)
        (plain-NoQuote p.version_hash w.version_hash.0)

  suffix_blocks_read : extract_json_strings bytes (codes "suffix_blocks") ≡ p.suffix_blocks
  unfolding find bytes_eq contains
  suffix_blocks_read =
      printed_texts command action kept (codes "suffix_blocks") (ground arith) (ground arith, refl)
        (ground arith, refl) (kept-IsClear (codes "suffix_blocks") refl) p.suffix_blocks
        (find-kept (codes "suffix_blocks") (texts p.suffix_blocks) refl) (ground arith)
        (entries-IsItem p.suffix_blocks w.suffix_blocks)

  exact_blocks_read : extract_json_strings bytes (codes "exact_blocks") ≡ p.exact_blocks
  unfolding find bytes_eq contains
  exact_blocks_read =
      printed_texts command action kept (codes "exact_blocks") (ground arith) (ground arith, refl)
        (ground arith, refl) (kept-IsClear (codes "exact_blocks") refl) p.exact_blocks
        (find-kept (codes "exact_blocks") (texts p.exact_blocks) refl) (ground arith)
        (entries-IsItem p.exact_blocks w.exact_blocks)

  allowlist_read : extract_json_strings bytes (codes "allowlist") ≡ p.allowlist
  unfolding find bytes_eq contains
  allowlist_read =
      printed_texts command action kept (codes "allowlist") (ground arith) (ground arith, refl)
        (ground arith, refl) (kept-IsClear (codes "allowlist") refl) p.allowlist
        (find-kept (codes "allowlist") (texts p.allowlist) refl) (ground arith)
        (entries-IsItem p.allowlist w.allowlist)

  candidate_of-bytes : candidate_of bytes ≡ snapshot_of p
  unfolding candidate_of
  candidate_of-bytes =
      rw (generation_read, version_hash_read, suffix_blocks_read, exact_blocks_read, allowlist_read)
        refl

  -- `json.Marshal` writes a plain string as it is.
  module _ (escape : List ℕ → List ℕ) (verbatim : (s : List ℕ) → All IsPlain s → escape s ≡ s) where
    map-escape : (ss : List (List ℕ)) → All IsEntry ss → map escape ss ≡ ss
    map-escape [] a = refl
    map-escape (s ∷ ss) (((n, _), _), a) =
        let same = verbatim s n in let others = map-escape ss a in rw (same, others) refl

    pub request_bytes-bytes : request_bytes escape (request_of p) ≡ bytes
    unfolding request_bytes
    request_bytes-bytes =
        rw
          (
            verbatim (codes "APPLY_POLICY") (ground arith),
            verbatim p.version_hash w.version_hash.0,
            map-escape p.suffix_blocks w.suffix_blocks,
            map-escape p.exact_blocks w.exact_blocks,
            map-escape p.allowlist w.allowlist,
          )
          refl

-- A policy that passes the checks has a generation and a hash, and its request is its own.
pub post_policy-request_of :
    (p : PolicyRequest) (req : IpcRequest)
    → post_policy p ≡ some req
    → ((0 < p.generation) × (is_empty p.version_hash ≡ false)) × (request_of p ≡ req)
unfolding post_policy
post_policy-request_of p req f =
    let sent : ((p.generation == 0 || is_empty p.version_hash) ≡ false)
        × (some (request_of p) ≡ some req) =
      ground arith in
    (ground (arith, ==_iff p.generation 0), cc sent.1)

-- The request that the control plane writes for a policy is read by the dataplane as that policy:
-- it says APPLY_POLICY, and its candidate has the generation, the version hash and the rules that
-- were posted. `json.Marshal` writes a string of printable ASCII without quotation marks,
-- backslashes, <, > and & as it is, and the strings of the policy are such strings; none of them is
-- one of the keys, and no entry of a list has a closing bracket; the generation is of 64 bits.
pub candidate_of-request_bytes :
    (escape : List ℕ → List ℕ)
    → ((s : List ℕ) → All IsPlain s → escape s ≡ s)
    → (p : PolicyRequest) (req : IpcRequest) → IsWritable p
    → post_policy p ≡ some req
    → (extract_json_string (request_bytes escape req) (codes "command") ≡ codes "APPLY_POLICY")
      × (candidate_of (request_bytes escape req) ≡ snapshot_of p)
candidate_of-request_bytes escape verbatim p req w f =
    let is_bytes : request_bytes escape req ≡ bytes p w =
      ap (request_bytes escape) (sym (post_policy-request_of p req f).1)
      ∙ request_bytes-bytes p w escape verbatim in
    rw is_bytes (command_read p w, candidate_of-bytes p w)
