-- ===== src/ControlPlane/Readers.antt =====
-- The dataplane's readers of a field, on a request whose key was found.
use dns_security_dataplane.Base.{
  ℕ, drop_further, ◌+◌, ◌-◌, ◌^◌, ◌<◌, ◌≡◌, ◌≢◌, sym, ap, ◌∙◌, ◌⊎◌, List, [], ◌∷◌, ◌++◌, some,
  length, drop, drop-append, All, All-append, arith,
}
use mathlib.Core.List.{append_assoc}
use dns_security_dataplane.Text.{to_string}
use dns_security_dataplane.Ipc.{
  find_text, find_char, find_key, substr, extract_json_string, extract_json_uint64, strtoull,
}
use dns_security_dataplane.Ipc.Find.{find_text-append, take-append}
use dns_security_dataplane.Ipc.Digits.{strtoull-to_string}
use dns_security_dataplane.ControlPlane.{Json, number, text, value_onto, member_onto}
use dns_security_dataplane.ControlPlane.Search.{NoQuote}

module _ (json : List ℕ) where
  -- The next character of a kind.
  pub find_char-next :
      (b pos : ℕ) (a rest : List ℕ)
      → drop pos json ≡ a ++ b ∷ rest
      → All (λ c. c ≢ b) a
      → (find_char b pos json ≡ some (pos + length a)) × (drop (pos + length a + 1) json ≡ rest)
  find_char-next b pos a rest at_pos n = (
    ap (λ cs. find_text (b ∷ []) cs pos) at_pos ∙ find_text-append b a rest pos n,
    drop_further (pos + length a) 1 json
        (drop_further pos (length a) json at_pos ∙ drop-append a (b ∷ rest)),
  )

  -- The text between two quotation marks.
  pub quoted_substr :
      (pos : ℕ) (s rest : List ℕ)
      → drop (pos + 1) json ≡ s ++ rest
      → substr json (pos + 1) (pos + 1 + length s - pos - 1) ≡ s
  quoted_substr pos s rest at_pos =
      let count : pos + 1 + length s - pos - 1 ≡ length s = omega arith in
      rw (count, at_pos) (take-append s rest)

  -- Behind the key and its quotation marks.
  past_key :
      (key : List ℕ) (v : Json) (rest : List ℕ) (i : ℕ)
      → drop i json ≡ member_onto key v rest
      → drop (i + length key + 2) json ≡ b':' ∷ value_onto v rest
  past_key key v rest i at_key =
      let first = drop_further i 1 json at_key in
      let last = drop_further (i + 1) (length key) json first ∙ drop-append key _ in
      let sum : i + length key + 2 ≡ i + 1 + length key + 1 = omega arith in
      rw sum (drop_further (i + 1 + length key) 1 json last)

  -- From the key on, cut at the colon.
  pub from_key :
      (key : List ℕ) (v : Json) (rest : List ℕ) (i : ℕ)
      → drop i json ≡ member_onto key v rest
      → drop i json ≡ (b'"' ∷ (key ++ b'"' ∷ [])) ++ (b':' ∷ value_onto v rest)
  from_key key v rest i at_key =
      at_key ∙ ap (λ cs. b'"' ∷ cs) (sym (append_assoc key (b'"' ∷ []) (b':' ∷ value_onto v rest)))

  pub read_text :
      (key s rest : List ℕ) (i : ℕ)
      → find_key json key ≡ some i
      → drop i json ≡ member_onto key (text s) rest
      → NoQuote s
      → extract_json_string json key ≡ s
  unfolding extract_json_string
  read_text key s rest i found at_key n =
      let past = past_key key (text s) rest i at_key in
      let (open_is, inside) =
        find_char-next b'"' (i + length key + 2) (b':' ∷ []) (s ++ b'"' ∷ rest) past colon_only in
      let (close_is, _) = find_char-next b'"' (i + length key + 2 + 1 + 1) s rest inside n in
      rw (found, open_is, close_is, extract_json_string)
        (quoted_substr (i + length key + 2 + 1) s (b'"' ∷ rest) inside)
    where
      colon_only : NoQuote (b':' ∷ [])
      colon_only = (omega arith, tt)

  pub read_number :
      (key rest : List ℕ) (n c i : ℕ)
      → find_key json key ≡ some i
      → drop i json ≡ member_onto key (number n) (c ∷ rest)
      → All (λ x. x ≢ b':') key
      → n < 2 ^ 64
      → (c < 48) ⊎ (57 < c)
      → extract_json_uint64 json key ≡ n
  unfolding extract_json_uint64
  read_number key rest n c i found at_key none_in h ends =
      let (colon_is, inside) =
        find_char-next b':' i (b'"' ∷ (key ++ b'"' ∷ [])) (to_string n ++ c ∷ rest)
          (from_key key (number n) (c ∷ rest) i at_key)
          (omega arith, All-append _ key (b'"' ∷ []) none_in (omega arith, tt)) in
      rw (found, colon_is, extract_json_uint64)
        (ap strtoull inside ∙ strtoull-to_string n c rest h ends)
