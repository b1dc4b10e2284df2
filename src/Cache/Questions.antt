-- ===== src/Cache/Questions.antt =====
-- The specification of Cache/Lru by questions, and by the keys that the cache makes of them.
use dns_security_dataplane.Base.{
  ℕ, suc, ◌≡◌, refl, sym, ap, ◌∙◌, inl, inr, ◌↔◌, ◌==◌, ==_iff, ◌&&◌, Bool, true, leb, List, [],
  ◌∷◌, Eq, length, bytes_Eq, bytes_eq, bytes_eq_iff, arith, Bool-cases, Option-cases,
}
use dns_security_dataplane.Base.Map.{find, erase}
use dns_security_dataplane.Cache.Under.{make_key-key_under}
use dns_security_dataplane.Cache.Keys.{make_key-injective}
use dns_security_dataplane.Cache.History.{Stored, Question, key_of}
use dns_security_dataplane.Cache.Lru.{Held, is_current, look_up, store, drop_last}

-- The same name, type and class.
abbrev pub same_question : Question → Question → Bool
same_question q r = bytes_eq q.qname r.qname && q.qtype == r.qtype && q.qclass == r.qclass

question_of_parts :
    (q r : Question) → q.qname ≡ r.qname → q.qtype ≡ r.qtype → q.qclass ≡ r.qclass → q ≡ r
question_of_parts q r a b c =
    ap (λ n. record { qname = n; qtype = q.qtype; qclass = q.qclass }) a
    ∙ (ap (λ t. record { qname = r.qname; qtype = t; qclass = q.qclass }) b
        ∙ ap (λ k. record { qname = r.qname; qtype = r.qtype; qclass = k }) c)

pub same_question_iff : (q r : Question) → (same_question q r ≡ true) ↔ (q ≡ r)
same_question_iff q r = (
  λ h.
      question_of_parts q r (ground (arith, bytes_eq_iff q.qname r.qname))
        (ground (arith, ==_iff q.qtype r.qtype)) (ground (arith, ==_iff q.qclass r.qclass)),
  λ e. rw (← e) (
      ground
        (arith, bytes_eq_iff q.qname q.qname, ==_iff q.qtype q.qtype, ==_iff q.qclass q.qclass)),
)

instance abbrev pub question_Eq : Eq Question
question_Eq = record { beq = same_question; beq_iff = same_question_iff }

same_key : (q r : Question) → bytes_eq (key_of q) (key_of r) ≡ same_question q r
same_key q r = elim (Bool-cases (same_question q r)) [
  | inl same ↦
      let e : q ≡ r = (same_question_iff q r).0 same in
      (bytes_eq_iff (key_of q) (key_of r)).1 (ap key_of e) ∙ sym same
  | inr other ↦ elim (Bool-cases (bytes_eq (key_of q) (key_of r))) [
    | inr n ↦ n ∙ sym other
    | inl k ↦
        let (a, b, c) = make_key-injective q.qname r.qname q.qtype r.qtype q.qclass r.qclass (
          make_key-key_under q.qname q.qtype q.qclass
          ∙ (bytes_eq_iff (key_of q) (key_of r)).0 k
          ∙ sym (make_key-key_under r.qname r.qtype r.qclass)) in
        let clash : same_question q r ≡ true =
          (same_question_iff q r).1 (question_of_parts q r a b c) in
        absurd (ground (arith, other, clash))
  ]
]

-- A list of questions, under their keys.
unfoldable pub keyed : List (Question × Stored) → Held
keyed [] = []
keyed ((q, s) ∷ known) = (key_of q, s) ∷ keyed known

find-keyed :
    (q : Question) (known : List (Question × Stored)) → find (key_of q) (keyed known) ≡ find q known
unfolding keyed find
find-keyed q [] = refl
find-keyed q ((r, s) ∷ known) = rw (same_key r q, find-keyed q known) refl

erase-keyed :
    (q : Question) (known : List (Question × Stored))
    → erase (key_of q) (keyed known) ≡ keyed (erase q known)
unfolding keyed erase
erase-keyed q [] = refl
erase-keyed q ((r, s) ∷ known) = elim (Bool-cases (same_question r q)) [
  | inl same ↦ let k = same_key r q ∙ same in rw (k, same) (erase-keyed q known)
  | inr other ↦
      let k = same_key r q ∙ other in
      rw (k, other) (ap (λ held. (key_of r, s) ∷ held) (erase-keyed q known))
]

length-keyed : (known : List (Question × Stored)) → length (keyed known) ≡ length known
unfolding keyed
length-keyed [] = refl
length-keyed ((q, s) ∷ known) = ap (λ n. suc n) (length-keyed known)

drop_last-keyed :
    (known : List (Question × Stored)) → drop_last (keyed known) ≡ keyed (drop_last known)
unfolding keyed drop_last
drop_last-keyed [] = refl
drop_last-keyed ((q, s) ∷ []) = refl
drop_last-keyed ((q, s) ∷ (r, t) ∷ known) =
    ap (λ held. (key_of q, s) ∷ held) (drop_last-keyed ((r, t) ∷ known))

pub look_up-keyed :
    (q : Question) (generation now : ℕ) (known : List (Question × Stored))
    → look_up (key_of q) generation now (keyed known)
      ≡ (keyed (look_up q generation now known).0, (look_up q generation now known).1)
unfolding look_up keyed
look_up-keyed q generation now known =
    let key = find-keyed q known in
    let rest = erase-keyed q known in
    elim (Option-cases (find q known)) [
      | inl gone ↦ rw (key, gone, look_up) refl
      | inr (s, there) ↦ elim (Bool-cases (is_current s generation now)) [
        | inl fresh ↦ rw (key, there, look_up) (rw (fresh, rest) refl)
        | inr stale ↦ rw (key, there, look_up) (rw (stale, rest) refl)
      ]
    ]

pub store-keyed :
    (size : ℕ) (q : Question) (s : Stored) (known : List (Question × Stored))
    → store size (key_of q) s (keyed known) ≡ keyed (store size q s known)
unfolding store keyed
store-keyed size q s known =
    let key = find-keyed q known in
    elim (Option-cases (find q known)) [
      | inr (old, there) ↦ rw (key, there, store) (rw (erase-keyed q known) refl)
      | inl gone ↦ elim (Bool-cases (leb size (length known))) [
        | inl full ↦
            rw (key, gone, store) (rw (length-keyed known, full, drop_last-keyed known) refl)
        | inr room ↦ rw (key, gone, store) (rw (length-keyed known, room) refl)
      ]
    ]
