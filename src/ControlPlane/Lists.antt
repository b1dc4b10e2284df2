-- ===== src/ControlPlane/Lists.antt =====
-- The dataplane's reader of a list, on a request whose key was found.
use dns_security_dataplane.Base.{
  ℕ, drop_further, zero, suc, ◌+◌, ◌<◌, ◌≤◌, ◌≡◌, ◌≢◌, refl, sym, ap, ◌∙◌, true, false, leb, List,
  [], ◌∷◌, ◌++◌, some, length, length-append, drop, drop-append, length_of_drop, All, All-append,
  arith,
}
use mathlib.Core.List.{append_assoc}
use dns_security_dataplane.Ipc.{
  find_key, next_quote, before_bracket, strings_from, extract_json_strings,
}
use dns_security_dataplane.ControlPlane.{
  texts, quoted_onto, more_texts_onto, texts_onto, member_onto,
}
use dns_security_dataplane.ControlPlane.Search.{NoQuote}
use dns_security_dataplane.ControlPlane.Readers.{find_char-next, quoted_substr}

-- A string of a list that the dataplane reads to its end.
abbrev pub IsItem : List ℕ → Type 0
IsItem s = NoQuote s × All (λ c. c ≢ b']') s

more_texts_onto-append :
    (ss : List (List ℕ)) (rest : List ℕ) → more_texts_onto ss rest ≡ more_texts_onto ss [] ++ rest
unfolding more_texts_onto
more_texts_onto-append [] rest = refl
more_texts_onto-append (s ∷ ss) rest =
    ap (λ cs. b',' ∷ b'"' ∷ cs)
      (ap (λ cs. s ++ b'"' ∷ cs) (more_texts_onto-append ss rest)
        ∙ sym (append_assoc s (b'"' ∷ more_texts_onto ss []) rest))

texts_onto-append :
    (ss : List (List ℕ)) (rest : List ℕ) → texts_onto ss rest ≡ texts_onto ss [] ++ rest
texts_onto-append [] rest = refl
texts_onto-append (s ∷ ss) rest =
    ap (λ cs. b'"' ∷ cs)
      (ap (λ cs. s ++ b'"' ∷ cs) (more_texts_onto-append ss rest)
        ∙ sym (append_assoc s (b'"' ∷ more_texts_onto ss []) rest))

no_bracket_more : (ss : List (List ℕ)) → All IsItem ss → All (λ c. c ≢ b']') (more_texts_onto ss [])
unfolding more_texts_onto
no_bracket_more [] a = tt
no_bracket_more (s ∷ ss) ((_, n), a) = (
  omega arith,
  (
    omega arith,
    All-append _ s (b'"' ∷ more_texts_onto ss []) n (omega arith, no_bracket_more ss a),
  ),
)

no_bracket : (ss : List (List ℕ)) → All IsItem ss → All (λ c. c ≢ b']') (texts_onto ss [])
no_bracket [] a = tt
no_bracket (s ∷ ss) ((_, n), a) = (
  omega arith,
  All-append _ s (b'"' ∷ more_texts_onto ss []) n (omega arith, no_bracket_more ss a),
)

module _ (json : List ℕ) (end_bracket : ℕ) where
  next_quote-next :
      (pos : ℕ) (a rest : List ℕ)
      → drop pos json ≡ a ++ b'"' ∷ rest
      → NoQuote a
      → pos + length a < end_bracket
      → (next_quote json pos end_bracket ≡ some (pos + length a))
        × (drop (pos + length a + 1) json ≡ rest)
  next_quote-next pos a rest at_pos n h =
      let (quote_is, inside) = find_char-next json b'"' pos a rest at_pos n in
      let inner : leb end_bracket (pos + length a) ≡ false = ground arith in
      (ap (before_bracket end_bracket) quote_is ∙ rw inner refl, inside)

  -- A round of the loop.
  one_string :
      (fuel curr : ℕ) (a s rest : List ℕ)
      → drop curr json ≡ a ++ quoted_onto s rest
      → NoQuote a
      → NoQuote s
      → curr + length a + length s + 1 < end_bracket
      → (strings_from (suc fuel) json curr end_bracket
          ≡ s ∷ strings_from fuel json (curr + length a + 1 + length s + 1) end_bracket)
        × (drop (curr + length a + 1 + length s + 1) json ≡ rest)
  unfolding strings_from
  one_string fuel curr a s rest at_curr n m h =
      let (open_is, inside) = next_quote-next curr a (s ++ b'"' ∷ rest) at_curr n (omega arith) in
      let (close_is, behind) =
        next_quote-next (curr + length a + 1) s rest inside m (omega arith) in
      let inner : leb end_bracket curr ≡ false = ground arith in
      (
        rw (inner, open_is, close_is)
            (ap (λ t. t ∷ strings_from fuel json (curr + length a + 1 + length s + 1) end_bracket)
              (quoted_substr json (curr + length a) s (b'"' ∷ rest) inside)),
        behind,
      )

  more_strings :
      (fuel curr : ℕ) (ss : List (List ℕ)) (rest : List ℕ)
      → drop curr json ≡ more_texts_onto ss (b']' ∷ rest)
      → All IsItem ss
      → end_bracket ≡ curr + length (more_texts_onto ss [])
      → end_bracket ≤ curr + fuel
      → strings_from fuel json curr end_bracket ≡ ss
  unfolding strings_from more_texts_onto
  more_strings zero curr [] rest at_curr a e h = refl
  more_strings (suc fuel) curr [] rest at_curr a e h =
      let over : leb end_bracket curr ≡ true = ground arith in rw over refl
  more_strings zero curr (s ∷ ss) rest at_curr a e h = absurd (omega arith)
  more_strings (suc fuel) curr (s ∷ ss) rest at_curr ((n, _), a) e h =
      let count = length-append s (b'"' ∷ more_texts_onto ss []) in
      let (first, behind) =
        one_string fuel curr (b',' ∷ []) s (more_texts_onto ss (b']' ∷ rest)) at_curr
          (omega arith, tt) n (omega (arith, count)) in
      first
      ∙ ap (λ others. s ∷ others)
          (more_strings fuel (curr + 1 + 1 + length s + 1) ss rest behind a (omega (arith, count))
            (omega arith))

  strings_from-texts_onto :
      (fuel curr : ℕ) (ss : List (List ℕ)) (rest : List ℕ)
      → drop curr json ≡ texts_onto ss (b']' ∷ rest)
      → All IsItem ss
      → end_bracket ≡ curr + length (texts_onto ss [])
      → end_bracket ≤ curr + fuel
      → strings_from fuel json curr end_bracket ≡ ss
  unfolding strings_from
  strings_from-texts_onto zero curr [] rest at_curr a e h = refl
  strings_from-texts_onto (suc fuel) curr [] rest at_curr a e h =
      let over : leb end_bracket curr ≡ true = ground arith in rw over refl
  strings_from-texts_onto zero curr (s ∷ ss) rest at_curr a e h = absurd (omega arith)
  strings_from-texts_onto (suc fuel) curr (s ∷ ss) rest at_curr ((n, _), a) e h =
      let count = length-append s (b'"' ∷ more_texts_onto ss []) in
      let (first, behind) =
        one_string fuel curr [] s (more_texts_onto ss (b']' ∷ rest)) at_curr tt n
          (omega (arith, count)) in
      first
      ∙ ap (λ others. s ∷ others)
          (more_strings fuel (curr + 0 + 1 + length s + 1) ss rest behind a (omega (arith, count))
            (omega arith))

pub read_texts :
    (json key rest : List ℕ) (ss : List (List ℕ)) (i : ℕ)
    → find_key json key ≡ some i
    → drop i json ≡ member_onto key (texts ss) rest
    → All (λ c. c ≢ b'[') key
    → All IsItem ss
    → extract_json_strings json key ≡ ss
unfolding extract_json_strings
read_texts json key rest ss i found at_key none_in items =
    let before = b'"' ∷ (key ++ b'"' ∷ b':' ∷ []) in
    let behind = texts_onto ss (b']' ∷ rest) in
    let no_open : All (λ (c : ℕ). c ≢ b'[') before =
      (omega arith, All-append _ key (b'"' ∷ b':' ∷ []) none_in (omega arith, (omega arith, tt))) in
    let apart : drop i json ≡ before ++ b'[' ∷ behind =
      at_key ∙ ap (λ cs. b'"' ∷ cs) (sym (append_assoc key (b'"' ∷ b':' ∷ []) (b'[' ∷ behind))) in
    let (open_is, inside) = find_char-next json b'[' i before behind apart no_open in
    let at_open : drop (i + length before) json ≡ b'[' ∷ behind =
      drop_further i (length before) json apart ∙ drop-append before (b'[' ∷ behind) in
    let (close_is, _) =
      find_char-next json b']' (i + length before) (b'[' ∷ texts_onto ss []) rest
        (at_open ∙ ap (λ cs. b'[' ∷ cs) (texts_onto-append ss (b']' ∷ rest)))
        (omega arith, no_bracket ss items) in
    let count = ap length (texts_onto-append ss (b']' ∷ rest)) in
    let sum = length-append (texts_onto ss []) (b']' ∷ rest) in
    let whole = length_of_drop json (i + length before) at_open in
    rw (found, open_is, close_is, extract_json_strings)
      (strings_from-texts_onto json (i + length before + length (b'[' ∷ texts_onto ss []))
        (length json) (i + length before + 1) ss rest inside items (omega arith)
        (omega (arith, count, sum, whole)))
