-- ===== src/ControlPlane/Writable.antt =====
-- The policies whose strings the dataplane reads as they were posted.
use dns_security_dataplane.Base.{
  ℕ, ◌^◌, ◌<◌, ◌≤◌, ◌≡◌, ◌≢◌, inl, inr, true, false, List, [], ◌∷◌, All, bytes_eq, bytes_eq_iff,
  bytes_Eq, arith, Bool-cases,
}
use dns_security_dataplane.Base.Set.{contains}
use dns_security_dataplane.Text.{codes}
use dns_security_dataplane.ControlPlane.{PolicyRequest}
use dns_security_dataplane.ControlPlane.Search.{NoQuote}
use dns_security_dataplane.ControlPlane.Fields.{IsOther}
use dns_security_dataplane.ControlPlane.Lists.{IsItem}

-- The characters that `json.Marshal` writes as they are.
abbrev pub IsPlain : ℕ → Type 0
IsPlain c = (32 ≤ c) × (c < 127) × (c ≢ b'"') × (c ≢ b'\\') × (c ≢ b'<') × (c ≢ b'>') × (c ≢ b'&')

abbrev pub keys : List (List ℕ)
keys =
    codes "generation"
    ∷ codes "version_hash"
    ∷ codes "suffix_blocks"
    ∷ codes "exact_blocks"
    ∷ codes "allowlist"
    ∷ []

-- A string that may stand in a request, and one that may stand in a list.
abbrev pub IsString : List ℕ → Type 0
IsString s = All IsPlain s × (contains s keys ≡ false)

abbrev pub IsEntry : List ℕ → Type 0
IsEntry s = IsString s × All (λ c. c ≢ b']') s

pub record IsWritable (p : PolicyRequest) : Type 0 where
  pub generation : p.generation < 2 ^ 64
  pub version_hash : IsString p.version_hash
  pub suffix_blocks : All IsEntry p.suffix_blocks
  pub exact_blocks : All IsEntry p.exact_blocks
  pub allowlist : All IsEntry p.allowlist

pub plain-NoQuote : (s : List ℕ) → All IsPlain s → NoQuote s
plain-NoQuote [] a = tt
plain-NoQuote (c ∷ s) ((_, _, n, _, _, _, _), a) = (n, plain-NoQuote s a)

no_key :
    (key s : List ℕ) → contains key keys ≡ true → contains s keys ≡ false → bytes_eq key s ≡ false
no_key key s is_one n = elim (Bool-cases (bytes_eq key s)) [
  | inr other ↦ other
  | inl same ↦
      let e : key ≡ s = (bytes_eq_iff key s).0 same in
      absurd (let clash : contains s keys ≡ true = rw (← e) is_one in ground (arith, n, clash))
]

pub IsString-IsOther : (key s : List ℕ) → contains key keys ≡ true → IsString s → IsOther key s
IsString-IsOther key s is_one (a, n) = (plain-NoQuote s a, no_key key s is_one n)

pub entries-IsOther :
    (key : List ℕ) (ss : List (List ℕ))
    → contains key keys ≡ true
    → All IsEntry ss
    → All (IsOther key) ss
entries-IsOther key [] is_one a = tt
entries-IsOther key (s ∷ ss) is_one ((h, _), a) =
    (IsString-IsOther key s is_one h, entries-IsOther key ss is_one a)

pub entries-IsItem : (ss : List (List ℕ)) → All IsEntry ss → All IsItem ss
entries-IsItem [] a = tt
entries-IsItem (s ∷ ss) (((p, _), n), a) = ((plain-NoQuote s p, n), entries-IsItem ss a)
