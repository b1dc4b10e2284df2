-- ===== src/ControlPlane/Requests.antt =====
-- A request of the control plane, as the dataplane reads it.
use dns_security_dataplane.Base.{
  ℕ, drop_further, zero, suc, ◌+◌, ◌^◌, ◌<◌, ◌≡◌, ◌≢◌, refl, ◌∙◌, inr, ◌==◌, ==_iff, not,
  if◌then◌else◌, List, [], ◌∷◌, Option, none, some, drop, All, bytes_Eq, arith,
}
use dns_security_dataplane.Base.Map.{find}
use dns_security_dataplane.Name.{is_empty}
use dns_security_dataplane.Ipc.{
  find_text, find_key, extract_json_string, extract_json_strings, extract_json_uint64,
}
use dns_security_dataplane.ControlPlane.{
  Json, number, text, texts, is_omitted, member_onto, more_members_onto,
}
use dns_security_dataplane.ControlPlane.Search.{NoQuote, IsKey, Ends, past_both, past_plain}
use dns_security_dataplane.ControlPlane.Fields.{
  IsOther, IsClear, Searched, past_member, further_on, more_members_onto-Ends,
  more_members_onto-Searched, find_text-member,
}
use dns_security_dataplane.ControlPlane.Readers.{read_text, read_number}
use dns_security_dataplane.ControlPlane.Lists.{IsItem, read_texts}

abbrev tail : List ℕ
tail = b'}' ∷ 10 ∷ []

-- What follows a number ends it.
read_number_end :
    (json key behind : List ℕ) (n i : ℕ)
    → find_key json key ≡ some i
    → drop i json ≡ member_onto key (number n) behind
    → All (λ c. c ≢ b':') key
    → n < 2 ^ 64
    → Ends behind
    → extract_json_uint64 json key ≡ n
read_number_end json key [] n i found here k b e = absurd e
read_number_end json key (c ∷ cs) n i found here k b (e, _) =
    read_number json key cs n c i found here k b e

-- A request with one member that is always there.
module _ (first_key : List ℕ) (first : Json) (ms : List (List ℕ × Json)) where
  abbrev pub printed : List ℕ
  printed = b'{' ∷ member_onto first_key first (more_members_onto ms tail)

  module _ (key : List ℕ) (is_key : IsKey key) (other : IsOther key first_key)
      (clear : IsClear key first) (all_clear : All (λ m. NoQuote m.0 × IsClear key m.1) ms) where
    tail-Ends : Ends tail
    tail-Ends = (inr (omega arith), inr (omega arith))

    printed-Searched : Searched key is_key printed tail (find key ms)
    printed-Searched =
        further_on key is_key tail (find key ms)
          (past_both (past_plain key (b'{' ∷ []) _ (omega arith, tt)) (
            past_member key is_key first_key first (more_members_onto ms tail) other clear
              (more_members_onto-Ends key is_key ms tail tail-Ends)))
          (more_members_onto-Searched key is_key ms tail all_clear tail-Ends)

    -- Where the key is, if it is there.
    abbrev Located : Option Json → Type 0
    Located none = find_key printed key ≡ none
    Located (some v) =
        (i : ℕ) × (behind : List ℕ) × (find_key printed key ≡ some i)
        × (drop i printed ≡ member_onto key v behind)
        × Ends behind

    located : (o : Option Json) → Searched key is_key printed tail o → Located o
    unfolding find_text
    located none s = s.found 0
    located (some v) (behind, e, s) = (
      0 + s.skipped,
      behind,
      s.found 0 ∙ find_text-member key is_key v behind (0 + s.skipped),
      drop_further 0 s.skipped printed refl ∙ s.dropped,
      e,
    )

    printed-Located : Located (find key ms)
    printed-Located = located (find key ms) printed-Searched

    pub printed_text :
        (s : List ℕ)
        → find key ms ≡ (if not (is_empty s) then some (text s) else none)
        → NoQuote s
        → extract_json_string printed key ≡ s
    unfolding extract_json_string
    printed_text [] h n =
        let l : find_key printed key ≡ none = rw h at printed-Located in
        rw (l, extract_json_string) refl
    printed_text (c ∷ s) h n =
        let (i, behind, found, here, _) : Located (some (text (c ∷ s))) = rw h at printed-Located in
        read_text printed key (c ∷ s) behind i found here n

    pub printed_number :
        (n : ℕ)
        → find key ms ≡ (if not (n == 0) then some (number n) else none)
        → All (λ c. c ≢ b':') key
        → n < 2 ^ 64
        → extract_json_uint64 printed key ≡ n
    unfolding extract_json_uint64
    printed_number zero h k b =
        let l : find_key printed key ≡ none = rw h at printed-Located in
        rw (l, extract_json_uint64) refl
    printed_number (suc n) h k b =
        let there : find key ms ≡ some (number (suc n)) = ground (arith, ==_iff (suc n) 0, h) in
        let (i, behind, found, here, e) : Located (some (number (suc n))) =
          rw there at printed-Located in
        read_number_end printed key behind (suc n) i found here k b e

    pub printed_texts :
        (ss : List (List ℕ))
        → find key ms ≡ (if not (is_omitted (texts ss)) then some (texts ss) else none)
        → All (λ c. c ≢ b'[') key
        → All IsItem ss
        → extract_json_strings printed key ≡ ss
    unfolding extract_json_strings
    printed_texts [] h k a =
        let l : find_key printed key ≡ none = rw h at printed-Located in
        rw (l, extract_json_strings) refl
    printed_texts (s ∷ ss) h k a =
        let (i, behind, found, here, _) : Located (some (texts (s ∷ ss))) =
          rw h at printed-Located in
        read_texts printed key behind (s ∷ ss) i found here k a
