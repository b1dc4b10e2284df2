-- ===== src/Ipc.antt =====
-- dataplane/src/runtime/ipc_server.cpp: the fields of a request, and `IpcServer::handle_command`.
-- A request is a list of bytes. What `accept`, `read` and `write` do is not modelled.
pub mod Apply
pub mod Digits
pub mod Fields
pub mod Find
use Prim.Native.String.{String}
use dns_security_dataplane.Base.{
  ℕ, zero, suc, ◌+◌, ◌-◌, ◌*◌, ◌%◌, ◌^◌, ltb, leb, ◌==◌, if◌then◌else◌, Bool, true, false, ◌&&◌,
  ◌||◌, List, [], ◌∷◌, ◌++◌, Option, none, some, length, take, drop, bytes_eq, bytes_Eq,
}
use dns_security_dataplane.Base.Set.{add}
use dns_security_dataplane.Text.{codes, to_string}
use dns_security_dataplane.Name.{is_empty}
use dns_security_dataplane.Trie.{Trie, empty_trie, insert}
use dns_security_dataplane.Policy.{PolicySnapshot}
use dns_security_dataplane.Snapshot.{
  Manager, Verdict, rejected, accepted, check_candidate, apply_candidate,
}

-- `json.compare(i, pattern.size(), pattern) == 0` for the text from `i` on.
abbrev pub starts_with : List ℕ → List ℕ → Bool
starts_with [] text = true
starts_with (p ∷ ps) [] = false
starts_with (p ∷ ps) (c ∷ cs) = (p == c) && starts_with ps cs

-- `json.find(pattern, pos)`, which is never called with an empty pattern.
unfoldable pub find_text : List ℕ → List ℕ → ℕ → Option ℕ
find_text pattern [] pos = none
find_text pattern (c ∷ cs) pos =
    let later = find_text pattern cs (pos + 1) in
    if starts_with pattern (c ∷ cs) then some pos else later

abbrev pub find_from : List ℕ → ℕ → List ℕ → Option ℕ
find_from pattern pos json = find_text pattern (drop pos json) pos

abbrev pub find_char : ℕ → ℕ → List ℕ → Option ℕ
find_char c pos json = find_from (c ∷ []) pos json

abbrev pub find_key : List ℕ → List ℕ → Option ℕ
find_key json key = find_from (b'"' ∷ (key ++ b'"' ∷ [])) 0 json

abbrev pub substr : List ℕ → ℕ → ℕ → List ℕ
substr json pos count = take count (drop pos json)

-- `find('"', pos)`, if that is before the bracket.
abbrev pub before_bracket : ℕ → Option ℕ → Option ℕ
before_bracket end_bracket none = none
before_bracket end_bracket (some i) = if leb end_bracket i then none else some i

abbrev pub next_quote : List ℕ → ℕ → ℕ → Option ℕ
next_quote json pos end_bracket = before_bracket end_bracket (find_char b'"' pos json)

-- The loop of `extract_json_strings`, on fuel. Each round moves on, so the length is enough.
unfoldable pub strings_from : ℕ → List ℕ → ℕ → ℕ → List (List ℕ)
strings_from zero json curr end_bracket = []
strings_from (suc fuel) json curr end_bracket =
    let rest : ℕ → List (List ℕ) =
      λ close_quote. strings_from fuel json (close_quote + 1) end_bracket in
    if leb end_bracket curr then [] else elim (next_quote json curr end_bracket) [
      | none ↦ []
      | some open_quote ↦ elim (next_quote json (open_quote + 1) end_bracket) [
        | none ↦ []
        | some close_quote ↦
            substr json (open_quote + 1) (close_quote - open_quote - 1) ∷ rest close_quote
      ]
    ]

-- `strings_from` between the brackets behind the key.
unfoldable pub extract_json_strings : List ℕ → List ℕ → List (List ℕ)
extract_json_strings json key = elim (find_key json key) [
  | none ↦ []
  | some key_pos ↦ elim (find_char b'[' key_pos json) [
    | none ↦ []
    | some start_bracket ↦ elim (find_char b']' start_bracket json) [
      | none ↦ []
      | some end_bracket ↦ strings_from (length json) json (start_bracket + 1) end_bracket
    ]
  ]
]

unfoldable pub extract_json_string : List ℕ → List ℕ → List ℕ
extract_json_string json key = elim (find_key json key) [
  | none ↦ []
  | some key_pos ↦ elim (find_char b'"' (key_pos + length key + 2) json) [
    | none ↦ []
    | some open_quote ↦ elim (find_char b'"' (open_quote + 1) json) [
      | none ↦ []
      | some close_quote ↦ substr json (open_quote + 1) (close_quote - open_quote - 1)
    ]
  ]
]

-- `strtoull` in base 10: white space, a sign, digits; too large a number is the largest one.
abbrev pub skip_space : List ℕ → List ℕ
skip_space [] = []
skip_space (c ∷ cs) =
    let rest = skip_space cs in if c == 32 || (leb 9 c && leb c 13) then rest else c ∷ cs

abbrev pub digits_value : ℕ → List ℕ → ℕ
digits_value n [] = n
digits_value n (c ∷ cs) =
    let more = digits_value (n * 10 + (c - 48)) cs in if leb 48 c && leb c 57 then more else n

abbrev pub clamped : ℕ → ℕ
clamped n = if leb (2 ^ 64) n then 2 ^ 64 - 1 else n

abbrev pub negated : ℕ → ℕ
negated n = if leb (2 ^ 64) n then 2 ^ 64 - 1 else (2 ^ 64 - n) % 2 ^ 64

abbrev pub signed_value : List ℕ → ℕ
signed_value [] = 0
signed_value (c ∷ cs) =
    if c == b'-'
    then negated (digits_value 0 cs)
    else if c == b'+'
    then clamped (digits_value 0 cs)
    else clamped (digits_value 0 (c ∷ cs))

unfoldable pub strtoull : List ℕ → ℕ
strtoull text = signed_value (skip_space text)

unfoldable pub extract_json_uint64 : List ℕ → List ℕ → ℕ
extract_json_uint64 json key = elim (find_key json key) [
  | none ↦ 0
  | some key_pos ↦ elim (find_char b':' key_pos json) [
    | none ↦ 0
    | some colon ↦ strtoull (drop (colon + 1) json)
  ]
]

-- The loops of `handle_command`. Rule numbers count from 1, cut to 32 bits.
unfoldable pub insert_suffixes : ℕ → List (List ℕ) → Trie → Trie
insert_suffixes i [] trie = trie
insert_suffixes i (suffix ∷ suffixes) trie =
    insert_suffixes (i + 1) suffixes (insert suffix ((i + 1) % 2 ^ 32) trie)

unfoldable pub insert_names : List (List ℕ) → List (List ℕ) → List (List ℕ)
insert_names [] names = names
insert_names (dom ∷ doms) names = insert_names doms (add dom names)

-- The snapshot that a request describes.
unfoldable pub candidate_of : List ℕ → PolicySnapshot
candidate_of req = record {
  generation = extract_json_uint64 req (codes "generation");
  version_hash = extract_json_string req (codes "version_hash");
  suffix_trie = insert_suffixes 0 (extract_json_strings req (codes "suffix_blocks")) empty_trie;
  exact_blocks = insert_names (extract_json_strings req (codes "exact_blocks")) [];
  allowlist = insert_names (extract_json_strings req (codes "allowlist")) [];
}

-- What `apply_candidate` writes to `*err_out`.
abbrev pub err_text : Verdict → List ℕ
err_text (rejected text) = codes text
err_text (accepted s) = []

unfoldable pub status_reply : Manager → List ℕ
status_reply m =
    codes "{\"status\":\"OK\",\"generation\":"
    ++ (to_string m.global_generation
        ++ (codes ",\"version_hash\":\""
            ++ (m.active_snapshot.version_hash
                ++ (codes "\",\"rule_count\":"
                    ++ (to_string (
                          m.active_snapshot.suffix_trie.size
                          + length m.active_snapshot.exact_blocks)
                        ++ codes "}\n")))))

unfoldable pub applied_reply : Manager → List ℕ → List ℕ
applied_reply m hash =
    codes "{\"status\":\"OK\",\"active_generation\":"
    ++ (to_string m.global_generation ++ (codes ",\"version_hash\":\"" ++ (hash ++ codes "\"}\n")))

unfoldable pub rejected_reply : Manager → List ℕ → List ℕ
rejected_reply m text =
    codes "{\"status\":\"REJECTED\",\"error\":\""
    ++ (text
        ++ (codes "\",\"active_generation\":" ++ (to_string m.global_generation ++ codes "}\n")))

abbrev pub reply_to_apply : List ℕ → Verdict → Manager × Bool → Manager × List ℕ
reply_to_apply hash verdict (m, true) = (m, applied_reply m hash)
reply_to_apply hash verdict (m, false) = (m, rejected_reply m (err_text verdict))

-- Behind the extraction of the command: the policy afterwards, and the reply.
unfoldable pub on_command : List ℕ → List ℕ → Manager → Manager × List ℕ
on_command cmd req m =
    if bytes_eq cmd (codes "GET_STATUS")
    then (m, status_reply m)
    else if bytes_eq cmd (codes "APPLY_POLICY")
    then reply_to_apply (candidate_of req).version_hash
        (check_candidate (some (candidate_of req)) m.global_generation)
        (apply_candidate (some (candidate_of req)) m)
    else (m, codes "{\"status\":\"ERROR\",\"error\":\"Unknown command\"}\n")

unfoldable pub handle_command : List ℕ → Manager → Manager × List ℕ
handle_command req m = on_command (extract_json_string req (codes "command")) req m

-- `std::string(buf)`, which ends at the first zero byte.
abbrev pub until_nul : List ℕ → List ℕ
until_nul [] = []
until_nul (c ∷ cs) = let rest = until_nul cs in if c == 0 then [] else c ∷ rest

-- A connection of `listen_loop`: one `read` into 8191 bytes, and what is written, if anything.
unfoldable pub serve : List ℕ → Manager → Manager × List ℕ
serve bytes m = if is_empty bytes then (m, []) else handle_command (until_nul (take 8191 bytes)) m
