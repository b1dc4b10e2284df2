-- ===== src/Policy/Case.antt =====
-- Names are compared in lower case, and the exact lists are not brought into lower case.
use dns_security_dataplane.Base.{
  ℕ, ◌≡◌, ◌≤◌, ◌⊎◌, inl, inr, false, List, [], ◌∷◌, arith, Bool-cases, bytes_eq, bytes_eq_iff,
  bytes_Eq, All, ok,
}
use dns_security_dataplane.Base.Set.{add, contains-add}
use dns_security_dataplane.Name.Safety.{IsNormal}
use dns_security_dataplane.Parser.{ParsedPacket, parse}
use dns_security_dataplane.Parser.Laws.{parse-IsAccepted}
use dns_security_dataplane.Policy.{PolicySnapshot, evaluate}

-- Some byte of the entry is an upper-case letter.
abbrev pub HasUpper : List ℕ → Type 0
HasUpper [] = ⊥
HasUpper (c ∷ cs) = ((65 ≤ c) × (c ≤ 90)) ⊎ HasUpper cs

not-IsNormal : (entry : List ℕ) → HasUpper entry → ¬ All IsNormal entry
not-IsNormal [] u a = u
not-IsNormal (c ∷ cs) (inl h) a = omega arith
not-IsNormal (c ∷ cs) (inr u) a = not-IsNormal cs u a.1

differs :
    (entry qname : List ℕ) → HasUpper entry → All IsNormal qname → bytes_eq entry qname ≡ false
differs entry qname u a = elim (Bool-cases (bytes_eq entry qname)) [
  | inl same ↦
      let e : entry ≡ qname = (bytes_eq_iff entry qname).0 same in
      absurd (not-IsNormal entry u (rw e a))
  | inr other ↦ other
]

-- An exact block or an allowlist entry that has an upper-case letter decides no query: for every
-- packet that is accepted the decision is the one without the entry.
pub upper_entry_ignored :
    (s : PolicySnapshot) (entry buffer : List ℕ) {query : ParsedPacket}
    → HasUpper entry
    → parse buffer ≡ ok query
    → (evaluate (record s { exact_blocks = add entry s.exact_blocks }) query.question.qname
        ≡ evaluate s query.question.qname)
      × (evaluate (record s { allowlist = add entry s.allowlist }) query.question.qname
          ≡ evaluate s query.question.qname)
unfolding evaluate
upper_entry_ignored s entry buffer {query} u e =
    let n = differs entry query.question.qname u (parse-IsAccepted buffer e).normal in
    (
      rw (contains-add entry query.question.qname s.exact_blocks, n),
      rw (contains-add entry query.question.qname s.allowlist, n),
    )
