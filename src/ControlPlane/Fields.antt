-- ===== src/ControlPlane/Fields.antt =====
-- The dataplane's search for a key of a request: it finds the member, or the end of the request.
use dns_security_dataplane.Base.{
  ℕ, ◌≡◌, refl, ◌∙◌, inl, inr, true, false, List, [], ◌∷◌, ◌++◌, Option, none, some, All, bytes_eq,
  bytes_eq_iff, bytes_Eq, arith, Bool-cases,
}
use dns_security_dataplane.Base.Map.{find}
use dns_security_dataplane.Text.{to_string, to_string-All}
use dns_security_dataplane.Ipc.{starts_with, find_text}
use dns_security_dataplane.ControlPlane.{
  Json, number, text, texts, more_texts_onto, texts_onto, value_onto, member_onto,
  more_members_onto,
}
use dns_security_dataplane.ControlPlane.Search.{
  NoQuote, IsKey, Ends, pattern_of, Skips, past_none, past_both, past_plain, past_quoted,
  starts_with-quoted, key-NoQuote,
}

-- No string of a value is the key.
abbrev pub IsOther : List ℕ → List ℕ → Type 0
IsOther key s = NoQuote s × (bytes_eq key s ≡ false)

abbrev pub IsClear : List ℕ → Json → Type 0
IsClear key (number n) = Unit
IsClear key (text s) = IsOther key s
IsClear key (texts ss) = All (IsOther key) ss

module _ (key : List ℕ) (is_key : IsKey key) where
  more_texts_onto-Ends :
      (ss : List (List ℕ)) (rest : List ℕ) → Ends rest → Ends (more_texts_onto ss rest)
  unfolding more_texts_onto
  more_texts_onto-Ends [] rest e = e
  more_texts_onto-Ends (s ∷ ss) rest e = (inl (omega arith), inl (omega arith))

  comma : (rest : List ℕ) → Skips (pattern_of key) (b',' ∷ rest) rest
  comma rest = past_plain key (b',' ∷ []) rest (ground arith)

  past_more_texts :
      (ss : List (List ℕ)) (rest : List ℕ)
      → All (IsOther key) ss
      → Ends rest
      → Skips (pattern_of key) (more_texts_onto ss rest) rest
  unfolding more_texts_onto
  past_more_texts [] rest a e = past_none rest
  past_more_texts (s ∷ ss) rest ((n, ne), a) e = past_both (comma _) (
      past_both
        (past_quoted key s (more_texts_onto ss rest) is_key n ne (more_texts_onto-Ends ss rest e))
        (past_more_texts ss rest a e))

  past_texts :
      (ss : List (List ℕ)) (rest : List ℕ)
      → All (IsOther key) ss
      → Ends rest
      → Skips (pattern_of key) (texts_onto ss rest) rest
  past_texts [] rest a e = past_none rest
  past_texts (s ∷ ss) rest ((n, ne), a) e =
      past_both
        (past_quoted key s (more_texts_onto ss rest) is_key n ne (more_texts_onto-Ends ss rest e))
        (past_more_texts ss rest a e)

  past_value :
      (v : Json) (rest : List ℕ)
      → IsClear key v
      → Ends rest
      → Skips (pattern_of key) (value_onto v rest) rest
  past_value (number n) rest clear e =
      past_plain key (to_string n) rest (to_string-All b'"' n (inl (omega arith)))
  past_value (text s) rest (n, ne) e = past_quoted key s rest is_key n ne e
  past_value (texts ss) rest clear e = past_both (past_plain key (b'[' ∷ []) _ (ground arith)) (
      past_both (past_texts ss (b']' ∷ rest) clear (inr (omega arith), inl (omega arith)))
        (past_plain key (b']' ∷ []) rest (ground arith)))

  pub past_member :
      (k : List ℕ) (v : Json) (rest : List ℕ)
      → IsOther key k
      → IsClear key v
      → Ends rest
      → Skips (pattern_of key) (member_onto k v rest) rest
  past_member k v rest (n, ne) clear e =
      past_both
        (past_quoted key k (b':' ∷ value_onto v rest) is_key n ne
          (inr (omega arith), inl (omega arith)))
        (past_both (past_plain key (b':' ∷ []) _ (ground arith)) (past_value v rest clear e))

  pub more_members_onto-Ends :
      (ms : List (List ℕ × Json)) (rest : List ℕ) → Ends rest → Ends (more_members_onto ms rest)
  unfolding more_members_onto
  more_members_onto-Ends [] rest e = e
  more_members_onto-Ends ((k, v) ∷ ms) rest e = (inl (omega arith), inl (omega arith))

  -- The search among the members goes as a search for the key among their keys.
  abbrev pub Searched : List ℕ → List ℕ → Option Json → Type 0
  Searched whole rest none = Skips (pattern_of key) whole rest
  Searched whole rest (some v) =
      (behind : List ℕ) × Ends behind × Skips (pattern_of key) whole (member_onto key v behind)

  pub further_on :
      {whole middle : List ℕ} (rest : List ℕ) (o : Option Json)
      → Skips (pattern_of key) whole middle
      → Searched middle rest o
      → Searched whole rest o
  further_on rest none s t = past_both s t
  further_on rest (some v) s (behind, e, t) = (behind, e, past_both s t)

  pub more_members_onto-Searched :
      (ms : List (List ℕ × Json)) (rest : List ℕ)
      → All (λ m. NoQuote m.0 × IsClear key m.1) ms
      → Ends rest
      → Searched (more_members_onto ms rest) rest (find key ms)
  unfolding more_members_onto find
  more_members_onto-Searched [] rest a e = past_none rest
  more_members_onto-Searched ((k, v) ∷ ms) rest ((n, clear), a) e =
      let behind = more_members_onto-Ends ms rest e in
      elim (Bool-cases (bytes_eq k key)) [
        | inl same ↦
            let k_is : k ≡ key = (bytes_eq_iff k key).0 same in
            rw same (
              more_members_onto ms rest,
              behind,
              rw k_is (comma (member_onto key v (more_members_onto ms rest))),
            )
        | inr other ↦
            let ne : bytes_eq key k ≡ false =
              ground (arith, bytes_eq_iff key k, bytes_eq_iff k key) in
            rw other (
              further_on rest (find key ms)
                (past_both (comma (member_onto k v (more_members_onto ms rest)))
                  (past_member k v (more_members_onto ms rest) (n, ne) clear behind))
                (more_members_onto-Searched ms rest a e))
      ]

  pub find_text-member :
      (v : Json) (rest : List ℕ) (pos : ℕ)
      → find_text (pattern_of key) (member_onto key v rest) pos ≡ some pos
  unfolding find_text
  find_text-member v rest pos =
      let n = key-NoQuote key is_key in
      let here : starts_with (key ++ b'"' ∷ []) (key ++ b'"' ∷ b':' ∷ value_onto v rest) ≡ true =
        starts_with-quoted key key (b':' ∷ value_onto v rest) n n
        ∙ ground (arith, bytes_eq_iff key key) in
      rw here refl
