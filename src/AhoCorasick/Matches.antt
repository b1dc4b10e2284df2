-- ===== src/AhoCorasick/Matches.antt =====
-- `search` behind `insert` and `build`, against what it is for: does a pattern occur in the text,
-- letters compared without their case?
use mathlib.Core.List.{append_assoc}
use dns_security_dataplane.Base.{
  ℕ, ◌≡◌, ◌≢◌, refl, sym, ap, ◌∙◌, inl, inr, ◌⊎◌, List, [], ◌∷◌, ◌++◌, some, Bool, true, false, map,
}
use dns_security_dataplane.Name.{tolower}
use dns_security_dataplane.AhoCorasick.{
  AhoCorasick, new_automaton, insert, build, search_from, contains_any,
}
use dns_security_dataplane.AhoCorasick.Paths.{best, best_nil, Ends, Ends-self}
use dns_security_dataplane.AhoCorasick.Build.{HasEntry}
use dns_security_dataplane.AhoCorasick.Automaton.{
  IsAutomaton, with_pattern, new_automaton-IsAutomaton, insert-IsAutomaton, build-IsAutomaton,
}
use dns_security_dataplane.AhoCorasick.Search.{Reads, search_from-Reads}

-- `p` stands somewhere in `text`.
abbrev pub Occurs : List ℕ → List ℕ → Type 0
Occurs p text = (a b : List ℕ) × (text ≡ a ++ (p ++ b))

-- What a search is to return: whether one of the patterns occurs, and if so the rule of one that
-- does. `out` is left as it was when none does.
pub record IsAnswer (entries : List (List ℕ × ℕ)) (text : List ℕ) (out : ℕ) (r : Bool × ℕ)
    : Type 0 where
  pub found : r.0 ≡ true → (p : List ℕ) × HasEntry p r.1 entries × Occurs p text
  pub absent :
      r.0 ≡ false
      → (r.1 ≡ out) × ((p : List ℕ) (rule : ℕ) → HasEntry p rule entries → ¬ Occurs p text)

Ends-append_inv : (p w : List ℕ) → Ends p w → (a : List ℕ) × (w ≡ a ++ p)
Ends-append_inv p [] e = ([], sym e)
Ends-append_inv p (c ∷ w) (inl e) = ([], sym e)
Ends-append_inv p (c ∷ w) (inr e) = let (a, h) = Ends-append_inv p w e in (c ∷ a, ap (λ z. c ∷ z) h)

append-Ends : (a p : List ℕ) → Ends p (a ++ p)
append-Ends [] p = Ends-self p
append-Ends (c ∷ a) p = inr (append-Ends a p)

last_letter : (c : ℕ) (w : List ℕ) → (x : List ℕ) × (b : ℕ) × (c ∷ w ≡ x ++ b ∷ [])
last_letter c [] = ([], c, refl)
last_letter c (d ∷ w) = let (x, b, h) = last_letter d w in (c ∷ x, b, ap (λ z. c ∷ z) h)

append-last : (a p : List ℕ) → p ≢ [] → (x : List ℕ) × (b : ℕ) × (a ++ p ≡ x ++ b ∷ [])
append-last a [] n = absurd (n refl)
append-last [] (c ∷ p) n = last_letter c p
append-last (d ∷ a) (c ∷ p) n = last_letter d (a ++ c ∷ p)

built_search :
    (ac : AhoCorasick) (text : List ℕ) (out : ℕ)
    → ac.built ≡ true
    → contains_any ac text out ≡ search_from ac.nodes 0 text out
unfolding contains_any
built_search ac text out b = simp b refl

-- An answer on a built automaton.
pub search-IsAnswer :
    (entries : List (List ℕ × ℕ)) (ac : AhoCorasick) (text : List ℕ) (out : ℕ)
    → IsAutomaton entries ac
    → ac.built ≡ true
    → (r : Bool × ℕ) × (contains_any ac text out ≡ some r)
      × IsAnswer entries (map tolower text) out r
search-IsAnswer entries ac text out ok built = (
  (reads.found, reads.rule),
  built_search ac text out built ∙ reads.returns,
  record {
    found = λ t.
        let (p, i, x, y, h, end) = reads.hit t in
        let (a, e) = Ends-append_inv p x end in
        (p, i, (a, y, h ∙ (ap (λ z. z ++ y) e ∙ append_assoc a p y)));
    absent =
        λ t. ((reads.clean t).0, λ p rule i occurs. none_occurs (reads.clean t).1 p rule i occurs);
  },
)
  where
    at_root : best ok.arrows [] ≡ 0
    at_root = best_nil ok.arrows

    reads :
        Reads ok.arrows entries ok.tree ok.some_node ac.nodes
          (ok.linked built)
          []
          (map tolower text)
          out
          (search_from ac.nodes 0 text out)
    reads = rw (← at_root) (
        search_from-Reads ok.arrows entries ok.tree ok.some_node ac.nodes (ok.linked built) text []
          out)

    none_occurs :
        ((p : List ℕ) (r : ℕ) (x y : List ℕ) (c : ℕ)
          → HasEntry p r entries
          → map tolower text ≡ x ++ c ∷ y
          → ¬ Ends p (x ++ c ∷ []))
        → (p : List ℕ) (rule : ℕ) → HasEntry p rule entries
        → ¬ Occurs p (map tolower text)
    none_occurs clean p rule i (a, b, h) =
        let (x, c, e) = append-last a p (ok.marked.own p rule i).0 in
        clean p rule x b c i
          (h ∙ (sym (append_assoc a p b) ∙ (ap (λ z. z ++ b) e ∙ append_assoc x (c ∷ []) b)))
          (rw (← e) (append-Ends a p))

-- `insert` for each pattern in turn.
unfoldable pub insert_all : List (List ℕ × ℕ) → AhoCorasick → AhoCorasick
insert_all [] ac = ac
insert_all ((pattern, rule) ∷ patterns) ac = insert_all patterns (insert pattern rule ac)

abbrev pub with_patterns : List (List ℕ × ℕ) → List (List ℕ × ℕ) → List (List ℕ × ℕ)
with_patterns [] entries = entries
with_patterns ((pattern, rule) ∷ patterns) entries =
    with_patterns patterns (with_pattern pattern rule entries)

insert_all-IsAutomaton :
    (patterns entries : List (List ℕ × ℕ)) (ac : AhoCorasick)
    → IsAutomaton entries ac
    → IsAutomaton (with_patterns patterns entries) (insert_all patterns ac)
unfolding insert_all
insert_all-IsAutomaton [] entries ac ok = ok
insert_all-IsAutomaton ((pattern, rule) ∷ patterns) entries ac ok =
    insert_all-IsAutomaton patterns (with_pattern pattern rule entries) (insert pattern rule ac)
      (insert-IsAutomaton pattern rule entries ac ok)

-- A search that was given patterns: what it is to return, without regard to how it is done.
pub record IsMatch (patterns : List (List ℕ × ℕ)) (text : List ℕ) (out : ℕ) (r : Bool × ℕ)
    : Type 0 where
  pub found :
      r.0 ≡ true
      → (p : List ℕ) × HasEntry p r.1 patterns
        × (p ≢ [])
        × Occurs (map tolower p) (map tolower text)
  pub absent :
      r.0 ≡ false
      → (r.1 ≡ out)
        × ((p : List ℕ) (rule : ℕ)
            → HasEntry p rule patterns
            → p ≢ []
            → ¬ Occurs (map tolower p) (map tolower text))

entry_of :
    (patterns entries : List (List ℕ × ℕ)) (q : List ℕ) (rule : ℕ)
    → HasEntry q rule (with_patterns patterns entries)
    → HasEntry q rule entries
      ⊎ ((p : List ℕ) × HasEntry p rule patterns × (p ≢ []) × (q ≡ map tolower p))
entry_of [] entries q rule i = inl i
entry_of (([], t) ∷ patterns) entries q rule i = elim (entry_of patterns entries q rule i) [
  | inl j ↦ inl j
  | inr (p, j, ne, e) ↦ inr (p, inr j, ne, e)
]
entry_of ((c ∷ cs, t) ∷ patterns) entries q rule i =
    elim (entry_of patterns ((map tolower (c ∷ cs), t) ∷ entries) q rule i) [
      | inl (inl (e, f)) ↦ inr (c ∷ cs, inl (refl, f), (λ h. cc h), e)
      | inl (inr j) ↦ inl j
      | inr (p, j, ne, e) ↦ inr (p, inr j, ne, e)
    ]

entry_stays :
    (patterns entries : List (List ℕ × ℕ)) (q : List ℕ) (rule : ℕ)
    → HasEntry q rule entries
    → HasEntry q rule (with_patterns patterns entries)
entry_stays [] entries q rule i = i
entry_stays (([], t) ∷ patterns) entries q rule i = entry_stays patterns entries q rule i
entry_stays ((c ∷ cs, t) ∷ patterns) entries q rule i =
    entry_stays patterns ((map tolower (c ∷ cs), t) ∷ entries) q rule (inr i)

of_entry :
    (patterns entries : List (List ℕ × ℕ)) (p : List ℕ) (rule : ℕ)
    → HasEntry p rule patterns
    → p ≢ []
    → HasEntry (map tolower p) rule (with_patterns patterns entries)
of_entry [] entries p rule i ne = absurd i
of_entry (([], t) ∷ patterns) entries p rule (inl (e, f)) ne = absurd (ne e)
of_entry (([], t) ∷ patterns) entries p rule (inr i) ne = of_entry patterns entries p rule i ne
of_entry ((c ∷ cs, t) ∷ patterns) entries p rule (inl (e, f)) ne =
    entry_stays patterns ((map tolower (c ∷ cs), t) ∷ entries) (map tolower p) rule
      (inl (ap (map tolower) e, f))
of_entry ((c ∷ cs, t) ∷ patterns) entries p rule (inr i) ne =
    of_entry patterns ((map tolower (c ∷ cs), t) ∷ entries) p rule i ne

-- Patterns are inserted into a new automaton, which is built: `build` ends, and then `search` ends
-- on every text. It returns true with the rule of a non-empty pattern that occurs in the text, or
-- it returns false, leaves the output as it was, and no non-empty pattern occurs; letters are
-- compared without their case.
pub contains_any-IsMatch :
    (patterns : List (List ℕ × ℕ)) (text : List ℕ) (out : ℕ)
    → (ac : AhoCorasick) × (build (insert_all patterns new_automaton) ≡ some ac)
      × (r : Bool × ℕ) × (contains_any ac text out ≡ some r)
      × IsMatch patterns text out r
contains_any-IsMatch patterns text out =
    let (ac, builds, ok, built) =
      build-IsAutomaton (with_patterns patterns []) (insert_all patterns new_automaton)
        (insert_all-IsAutomaton patterns [] new_automaton new_automaton-IsAutomaton) in
    let (r, returns, answer) = search-IsAnswer (with_patterns patterns []) ac text out ok built in
    (
      ac,
      builds,
      r,
      returns,
      record {
        found = λ t. let (q, i, occurs) = answer.found t in original q r.1 i occurs;
        absent = λ t. (
          (answer.absent t).0,
          λ p rule i ne.
              (answer.absent t).1 (map tolower p) rule (of_entry patterns [] p rule i ne),
        );
      },
    )
  where
    original :
        (q : List ℕ) (rule : ℕ)
        → HasEntry q rule (with_patterns patterns [])
        → Occurs q (map tolower text)
        → (p : List ℕ) × HasEntry p rule patterns
          × (p ≢ [])
          × Occurs (map tolower p) (map tolower text)
    original q rule i occurs = elim (entry_of patterns [] q rule i) [
      | inl none_there ↦ absurd none_there
      | inr (p, j, ne, e) ↦ (p, j, ne, rw e at occurs)
    ]
