-- ===== src/Examples/Posting.antt =====
-- Policies that the control plane sends on.
use dns_security_dataplane.Base.{
  ℕ, ◌≤◌, ◌≡◌, ◌↔◌, inl, inr, refl, ap, ◌==◌, ==_iff, if◌then◌else◌, ◌||◌, List, [], ◌∷◌, some, All,
  arith, length, bytes_Eq, bytes_eq, false,
}
use dns_security_dataplane.Base.Set.{contains}
use dns_security_dataplane.Base.Map.{retain}
use dns_security_dataplane.Text.{codes, to_string, digits_onto}
use dns_security_dataplane.Trie.Labels.{segments, non_empty}
use dns_security_dataplane.Policy.{Action, evaluate}
use dns_security_dataplane.Snapshot.{new_manager}
use dns_security_dataplane.Ipc.{
  candidate_of, extract_json_string, extract_json_strings, serve, find_text, strings_from,
}
use dns_security_dataplane.ControlPlane.{
  PolicyRequest, post_policy, request_bytes, more_members_onto, more_texts_onto,
}
use dns_security_dataplane.ControlPlane.Writable.{IsPlain, IsWritable}
use dns_security_dataplane.ControlPlane.Candidates.{
  snapshot_of, request_of, candidate_of-request_bytes,
}
use dns_security_dataplane.ControlPlane.Blocking.{IsBlockedBy, serve-IsBlockedBy}
use dns_security_dataplane.ControlPlane.Posting.{outcome, serve-post_policy}

-- A backslash before a quotation mark and before a backslash.
abbrev escape : List ℕ → List ℕ
escape [] = []
escape (c ∷ cs) =
    let rest = escape cs in if c == b'"' || c == b'\\' then b'\\' ∷ c ∷ rest else c ∷ rest

verbatim : (s : List ℕ) → All IsPlain s → escape s ≡ s
verbatim [] a = refl
verbatim (c ∷ s) ((_, _, quote, slash, _, _, _), a) =
    let other : (c == b'"' || c == b'\\') ≡ false = ground (arith, ==_iff c b'"', ==_iff c b'\\') in
    rw other (ap (λ cs. c ∷ cs) (verbatim s a))

abbrev posted : PolicyRequest
posted = record {
  generation = 12;
  version_hash = codes "v12";
  suffix_blocks = codes "ads.net" ∷ [];
  exact_blocks = codes "x.com" ∷ codes "y.com" ∷ [];
  allowlist = [];
}

posted-IsWritable : IsWritable posted
unfolding contains bytes_eq
posted-IsWritable = record {
  generation = omega arith;
  version_hash = (ground arith, refl);
  suffix_blocks = (((ground arith, refl), ground arith), tt);
  exact_blocks = (((ground arith, refl), ground arith), (((ground arith, refl), ground arith), tt));
  allowlist = tt;
}

posted-post_policy : post_policy posted ≡ some (request_of posted)
unfolding post_policy
posted-post_policy = refl

posted_bytes :
    request_bytes escape (request_of posted)
    ≡ codes
        "{\"command\":\"APPLY_POLICY\",\"generation\":12,\"version_hash\":\"v12\",\"suffix_blocks\":[\"ads.net\"],\"exact_blocks\":[\"x.com\",\"y.com\"]}\n"
unfolding request_bytes retain more_members_onto more_texts_onto to_string digits_onto
posted_bytes = refl

short : length (request_bytes escape (request_of posted)) ≤ 8191
short = rw posted_bytes (omega arith)

candidate_of-request_bytes_example :
    (extract_json_string (request_bytes escape (request_of posted)) (codes "command")
      ≡ codes "APPLY_POLICY")
    × (candidate_of (request_bytes escape (request_of posted)) ≡ snapshot_of posted)
candidate_of-request_bytes_example =
    candidate_of-request_bytes escape verbatim posted (request_of posted) posted-IsWritable
      posted-post_policy

serve-post_policy_example :
    serve (request_bytes escape (request_of posted)) new_manager ≡ outcome posted new_manager
serve-post_policy_example =
    serve-post_policy escape verbatim posted (request_of posted) new_manager posted-IsWritable
      posted-post_policy short

serve-IsBlockedBy_example :
    ((evaluate
        (serve (request_bytes escape (request_of posted)) new_manager).0.active_snapshot
        (codes "www.ads.net")).action
      ≡ Action.block_nxdomain)
    ↔ IsBlockedBy posted (codes "www.ads.net")
serve-IsBlockedBy_example =
    serve-IsBlockedBy escape verbatim posted (request_of posted) new_manager (codes "www.ads.net")
      posted-IsWritable posted-post_policy short (omega arith)

blocked : IsBlockedBy posted (codes "www.ads.net")
unfolding segments non_empty
blocked = ((λ l. l), inr (inl ((λ e. cc), (codes "www" ∷ [], refl))))

-- An entry with the name of a field: the search for that field finds the entry, and the names to
-- block become the names to allow.
abbrev misread : List ℕ
misread =
    codes
      "{\"command\":\"APPLY_POLICY\",\"generation\":2,\"version_hash\":\"v\",\"suffix_blocks\":[\"allowlist\"],\"exact_blocks\":[\"x.com\"]}\n"

misread_allowlist : extract_json_strings misread (codes "allowlist") ≡ codes "x.com" ∷ []
unfolding extract_json_strings find_text strings_from
misread_allowlist = refl
