-- ===== src/Ipc/Find.antt =====
-- A search for a character, of `std::string::find` as `find_char` has it.
use dns_security_dataplane.Base.{
  ℕ, ◌+◌, ◌≡◌, ◌≢◌, refl, ap, ◌∙◌, ◌==◌, ==_iff, true, false, List, [], ◌∷◌, ◌++◌, some, none,
  length, take, All, arith,
}
use dns_security_dataplane.Ipc.{find_text}

pub find_text-append :
    (b : ℕ) (text rest : List ℕ) (pos : ℕ)
    → All (λ c. c ≢ b) text
    → find_text (b ∷ []) (text ++ b ∷ rest) pos ≡ some (pos + length text)
unfolding find_text
find_text-append b [] rest pos a =
    let here : (b == b) ≡ true = ground (arith, ==_iff b b) in rw here (ap some (omega arith))
find_text-append b (c ∷ text) rest pos (ne, a) =
    let other : (b == c) ≡ false = ground (arith, ==_iff b c) in
    let count : pos + 1 + length text ≡ pos + length (c ∷ text) = omega arith in
    rw other (find_text-append b text rest (pos + 1) a ∙ ap some count)

pub find_text-none :
    (b : ℕ) (text : List ℕ) (pos : ℕ) → All (λ c. c ≢ b) text → find_text (b ∷ []) text pos ≡ none
unfolding find_text
find_text-none b [] pos a = refl
find_text-none b (c ∷ text) pos (ne, a) =
    let other : (b == c) ≡ false = ground (arith, ==_iff b c) in
    rw other (find_text-none b text (pos + 1) a)

pub take-append : (text rest : List ℕ) → take (length text) (text ++ rest) ≡ text
take-append [] rest = refl
take-append (c ∷ text) rest = ap (λ cs. c ∷ cs) (take-append text rest)
