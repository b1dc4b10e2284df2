-- ===== src/ControlPlane/Search.antt =====
-- The dataplane's search for a quoted key, in what the control plane prints.
use dns_security_dataplane.Base.{
  ℕ, drop_further, ◌+◌, ◌<◌, ◌≤◌, ◌≡◌, ◌≢◌, refl, ap, ◌∙◌, ◌⊎◌, ◌==◌, ==_iff, false, ◌&&◌, List, [],
  ◌∷◌, ◌++◌, drop, All, bytes_eq, bytes_Eq, arith,
}
use dns_security_dataplane.Ipc.{starts_with, find_text}
use dns_security_dataplane.ControlPlane.{quoted_onto}

abbrev pub NoQuote : List ℕ → Type 0
NoQuote s = All (λ c. c ≢ b'"') s

-- A key of a request begins with a small letter.
abbrev pub IsKey : List ℕ → Type 0
IsKey [] = ⊥
IsKey (k ∷ ks) = (97 ≤ k) × (k ≤ 122) × NoQuote (k ∷ ks)

-- What stands behind a string or a value begins with none, and with no digit.
abbrev pub Ends : List ℕ → Type 0
Ends [] = ⊥
Ends (c ∷ cs) = ((c < 48) ⊎ (57 < c)) × ((c < 97) ⊎ (122 < c))

abbrev pub pattern_of : List ℕ → List ℕ
pattern_of key = b'"' ∷ (key ++ b'"' ∷ [])

-- The search goes through to a rest of the text.
pub record Skips (p whole rest : List ℕ) : Type 0 where
  pub skipped : ℕ
  pub found : (pos : ℕ) → find_text p whole pos ≡ find_text p rest (pos + skipped)
  pub dropped : drop skipped whole ≡ rest

module _ {p : List ℕ} where
  pub past_none : (a : List ℕ) → Skips p a a
  past_none a = record {
    skipped = 0;
    found = λ pos. let same : pos + 0 ≡ pos = omega arith in rw same refl;
    dropped = refl;
  }

  pub past_both : {a b c : List ℕ} → Skips p a b → Skips p b c → Skips p a c
  past_both {a} {b} {c} s t = record {
    skipped = s.skipped + t.skipped;
    found = λ pos.
        let sum : pos + s.skipped + t.skipped ≡ pos + (s.skipped + t.skipped) = omega arith in
        s.found pos ∙ (t.found (pos + s.skipped) ∙ ap (find_text p c) sum);
    dropped = drop_further s.skipped t.skipped a s.dropped ∙ t.dropped;
  }

  pub past_one : (c : ℕ) (cs : List ℕ) → starts_with p (c ∷ cs) ≡ false → Skips p (c ∷ cs) cs
  unfolding find_text
  past_one c cs h = record { skipped = 1; found = λ pos. rw h refl; dropped = refl }

-- Without a quotation mark, nothing is found.
pub past_plain : (key a rest : List ℕ) → NoQuote a → Skips (pattern_of key) (a ++ rest) rest
past_plain key [] rest n = past_none rest
past_plain key (c ∷ a) rest (n, ns) =
    let other : (b'"' == c) ≡ false = ground (arith, ==_iff b'"' c) in
    past_both (past_one c (a ++ rest) (rw other refl)) (past_plain key a rest ns)

-- Between quotation marks, only the key itself is.
pub starts_with-quoted :
    (key s rest : List ℕ)
    → NoQuote key
    → NoQuote s
    → starts_with (key ++ b'"' ∷ []) (s ++ b'"' ∷ rest) ≡ bytes_eq key s
unfolding bytes_eq
starts_with-quoted [] [] rest n m = refl
starts_with-quoted [] (c ∷ s) rest n (m, ms) = ground (arith, ==_iff b'"' c)
starts_with-quoted (k ∷ key) [] rest (n, ns) m = ground (arith, ==_iff k b'"')
starts_with-quoted (k ∷ key) (c ∷ s) rest (n, ns) (m, ms) =
    ap (λ b. (k == c) && b) (starts_with-quoted key s rest ns ms)

no_key_starts :
    (key rest : List ℕ) → IsKey key → Ends rest → starts_with (key ++ b'"' ∷ []) rest ≡ false
no_key_starts [] rest k e = absurd k
no_key_starts (k ∷ key) [] h e = absurd e
no_key_starts (k ∷ key) (c ∷ cs) (low, high, _) (_, e) = ground (arith, ==_iff k c)

pub key-NoQuote : (key : List ℕ) → IsKey key → NoQuote key
key-NoQuote [] k = absurd k
key-NoQuote (k ∷ key) (_, _, n) = n

pub past_quoted :
    (key s rest : List ℕ)
    → IsKey key
    → NoQuote s
    → bytes_eq key s ≡ false
    → Ends rest
    → Skips (pattern_of key) (quoted_onto s rest) rest
past_quoted key s rest k n ne e =
    past_both
      (past_one b'"' (s ++ b'"' ∷ rest) (starts_with-quoted key s rest (key-NoQuote key k) n ∙ ne))
      (past_both (past_plain key s (b'"' ∷ rest) n)
        (past_one b'"' rest (no_key_starts key rest k e)))
