-- ===== src/ControlPlane.antt =====
-- controlplane/main.go: the policies that the control plane accepts over HTTP, and the requests that
-- it sends to the dataplane. HTTP, the connection and the counters are not modelled.
-- The texts are bytes. What `json.Marshal` writes for a string between its quotes is the parameter
-- `escape`; a printer takes the text that goes behind what it prints.
pub mod Search
pub mod Fields
pub mod Lists
pub mod Readers
pub mod Requests
pub mod Writable
pub mod Candidates
pub mod Blocking
pub mod Posting
use dns_security_dataplane.Base.{
  ℕ, ◌==◌, if◌then◌else◌, not, Bool, true, false, ◌||◌, List, [], ◌∷◌, ◌++◌, Option, none, some,
  map, bytes_Eq,
}
use dns_security_dataplane.Base.Map.{retain}
use dns_security_dataplane.Text.{codes, to_string}
use dns_security_dataplane.Name.{is_empty}

pub record PolicyRequest : Type 0 where
  pub generation : ℕ
  pub version_hash : List ℕ
  pub suffix_blocks : List (List ℕ)
  pub exact_blocks : List (List ℕ)
  pub allowlist : List (List ℕ)

pub record IpcRequest : Type 0 where
  pub command : List ℕ
  pub generation : ℕ
  pub version_hash : List ℕ
  pub suffix_blocks : List (List ℕ)
  pub exact_blocks : List (List ℕ)
  pub allowlist : List (List ℕ)

-- The checks of POST /api/v1/policies, and the request that is sent if they pass.
unfoldable pub post_policy : PolicyRequest → Option IpcRequest
post_policy policyReq =
    if policyReq.generation == 0 || is_empty policyReq.version_hash
    then none
    else some (record {
      command = codes "APPLY_POLICY";
      generation = policyReq.generation;
      version_hash = policyReq.version_hash;
      suffix_blocks = policyReq.suffix_blocks;
      exact_blocks = policyReq.exact_blocks;
      allowlist = policyReq.allowlist;
    })

-- The values of the fields, their strings escaped.
pub data Json : Type 0 where
  number : ℕ → Json
  text : List ℕ → Json
  texts : List (List ℕ) → Json

-- What the tag `omitempty` leaves out.
abbrev pub is_omitted : Json → Bool
is_omitted (number n) = n == 0
is_omitted (text s) = is_empty s
is_omitted (texts []) = true
is_omitted (texts (s ∷ ss)) = false

module _ (escape : List ℕ → List ℕ) where
  -- The fields of the struct with the keys of their tags; `command` has no `omitempty`.
  abbrev pub optional_members : IpcRequest → List (List ℕ × Json)
  optional_members req =
      (codes "generation", number req.generation)
      ∷ (codes "version_hash", text (escape req.version_hash))
      ∷ (codes "suffix_blocks", texts (map escape req.suffix_blocks))
      ∷ (codes "exact_blocks", texts (map escape req.exact_blocks))
      ∷ (codes "allowlist", texts (map escape req.allowlist))
      ∷ []

  abbrev pub present_members : IpcRequest → List (List ℕ × Json)
  present_members req = retain (λ key v. not (is_omitted v)) (optional_members req)

abbrev pub quoted_onto : List ℕ → List ℕ → List ℕ
quoted_onto s rest = b'"' ∷ (s ++ b'"' ∷ rest)

-- The strings of an array behind its first, and the whole of it.
unfoldable pub more_texts_onto : List (List ℕ) → List ℕ → List ℕ
more_texts_onto [] rest = rest
more_texts_onto (s ∷ ss) rest = b',' ∷ quoted_onto s (more_texts_onto ss rest)

abbrev pub texts_onto : List (List ℕ) → List ℕ → List ℕ
texts_onto [] rest = rest
texts_onto (s ∷ ss) rest = quoted_onto s (more_texts_onto ss rest)

abbrev pub value_onto : Json → List ℕ → List ℕ
value_onto (number n) rest = to_string n ++ rest
value_onto (text s) rest = quoted_onto s rest
value_onto (texts ss) rest = b'[' ∷ texts_onto ss (b']' ∷ rest)

abbrev pub member_onto : List ℕ → Json → List ℕ → List ℕ
member_onto key v rest = quoted_onto key (b':' ∷ value_onto v rest)

unfoldable pub more_members_onto : List (List ℕ × Json) → List ℕ → List ℕ
more_members_onto [] rest = rest
more_members_onto ((key, v) ∷ ms) rest = b',' ∷ member_onto key v (more_members_onto ms rest)

module _ (escape : List ℕ → List ℕ) where
  -- `json.Marshal(req)`, and the line feed that `sendIpcCommand` appends.
  unfoldable pub request_bytes : IpcRequest → List ℕ
  request_bytes req =
      b'{'
      ∷ member_onto (codes "command") (text (escape req.command))
          (more_members_onto (present_members escape req) (b'}' ∷ 10 ∷ []))
