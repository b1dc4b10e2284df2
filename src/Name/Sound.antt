-- ===== src/Name/Sound.antt =====
-- What `decode_name` returns is spelt in the packet.
use dns_security_dataplane.Base.{
  ℕ, suc, ◌+◌, ◌/◌, ◌%◌, ◌≤◌, ◌≡◌, ◌≢◌, refl, sym, ap, ◌∙◌, inl, inr, ltb, leb, ◌==◌, ==_iff, Bool,
  true, false, not, ◌&&◌, if◌then◌else◌, List, [], ◌∷◌, ◌++◌, length, Result, ok, err, fault, ◌>>=◌,
  map, arith, get_elem?, get_elem?_in, some, Bool-cases,
}
use mathlib.Core.List.{append_assoc, append-nil}
use dns_security_dataplane.Base.Loop.{loop_inv, Leaves}
use dns_security_dataplane.Name.{
  tolower, NameState, copy_label, pointer, label, round, start, decode_name, dotted, end_label,
  round_falls,
}
use dns_security_dataplane.Name.Copies.{copy_label-Copies}
use dns_security_dataplane.Name.Encode.{join_onto}
use dns_security_dataplane.Name.Spelling.{Spells, root, then_label, jump, count, target_of}

join_onto-snoc :
    (name : List ℕ) (ls : List (List ℕ)) (l : List ℕ)
    → join_onto name (ls ++ l ∷ []) ≡ dotted (join_onto name ls) ++ map tolower l
unfolding join_onto
join_onto-snoc name [] l = refl
join_onto-snoc name (k ∷ ls) l = join_onto-snoc (dotted name ++ map tolower k) ls l

module _ (buffer : List ℕ) where
  module _ (offset : ℕ) where
    -- The labels so far, and how those ahead make up the whole name.
    record Prefix (s : NameState) : Type 0 where
      labels : List (List ℕ)
      spelt : s.name ≡ join_onto [] labels
      short : length s.name ≤ 253
      whole :
          (ls : List (List ℕ)) (n m : ℕ)
          → Spells buffer s.curr_offset s.jumped s.depth ls n
          → m ≡ s.bytes_consumed + n
          → Spells buffer offset false 0 (labels ++ ls) m

    -- What a result says.
    abbrev Spelt : Result (List ℕ × ℕ) → Type 0
    Spelt (ok (name, n)) =
        (ls : List (List ℕ)) × Spells buffer offset false 0 ls n
        × (name ≡ join_onto [] ls)
        × (length name ≤ 253)
    Spelt (err c) = Unit
    Spelt fault = Unit

    at_root :
        (s : NameState)
        → Prefix s
        → get_elem? buffer s.curr_offset ≡ some 0
        → Spelt (ok (s.name, if s.jumped then s.bytes_consumed else s.bytes_consumed + 1))
    at_root s p h = (
      p.labels ++ [],
      p.whole [] (count s.jumped 1) _ (root s.curr_offset s.jumped s.depth _ h refl)
          (counted s.jumped),
      p.spelt ∙ ap (join_onto []) (sym (append-nil p.labels)),
      p.short,
    )
      where
        counted :
            (jumped : Bool)
            → (if jumped then s.bytes_consumed else s.bytes_consumed + 1)
              ≡ s.bytes_consumed + count jumped 1
        counted true = omega arith
        counted false = refl

    count-if :
        (jumped : Bool) (c k n : ℕ) → (if jumped then c else c + k) + n ≡ c + (count jumped k + n)
    count-if true c k n = omega arith
    count-if false c k n = omega arith

    at_pointer :
        (s : NameState) (hi : ℕ)
        → Prefix s
        → get_elem? buffer s.curr_offset ≡ some hi
        → hi / 64 % 4 ≡ 3
        → Leaves Prefix Spelt (pointer buffer s hi)
    unfolding pointer
    at_pointer s hi p h top = elim (Bool-cases (leb (length buffer) (s.curr_offset + 1))) [
      | inl out ↦ rw out tt
      | inr fits ↦
          let (lo, e) = get_elem?_in buffer (s.curr_offset + 1) (ground arith) in
          rw (fits, e)
            (elim (Bool-cases (ltb 8 (s.depth + 1))) [
              | inl deep ↦ rw deep tt
              | inr shallow ↦
                  rw shallow (elim (Bool-cases (leb (length buffer) (target_of hi lo))) [
                    | inl past ↦ rw past tt
                    | inr inside ↦
                        rw inside
                          (elim (Bool-cases (leb s.curr_offset (target_of hi lo) && not s.jumped)) [
                            | inl forward ↦ rw forward tt
                            | inr back ↦ rw back (record {
                              labels = p.labels;
                              spelt = p.spelt;
                              short = p.short;
                              whole = λ ls n m sp t.
                                  p.whole ls (count s.jumped 2 + n) m
                                    (jump s.curr_offset s.jumped s.depth hi lo ls n
                                      (count s.jumped 2 + n) h top e (ground arith) (ground arith)
                                      (λ direct. ground (arith, direct, back)) sp refl)
                                    (t ∙ count-if s.jumped s.bytes_consumed 2 n);
                            })
                          ])
                  ])
            ])
    ]

    copied_label :
        (s : NameState) (len : ℕ) (name : List ℕ)
        → Prefix s
        → get_elem? buffer s.curr_offset ≡ some len
        → len ≢ 0
        → len ≤ 63
        → s.curr_offset + 1 + len ≤ length buffer
        → copy_label buffer len (s.curr_offset + 1) (dotted s.name) ≡ ok name
        → Leaves Prefix Spelt (end_label s len name)
    unfolding end_label
    copied_label s len name p h positive small inside copy =
        let c = copy_label-Copies buffer len (s.curr_offset + 1) (dotted s.name) name inside copy in
        let one : s.curr_offset + 1 ≡ suc s.curr_offset = omega arith in
        elim (Bool-cases (ltb 253 (length name))) [
          | inl long ↦ rw long tt
          | inr short ↦ rw short (record {
            labels = p.labels ++ c.text ∷ [];
            spelt =
                c.copied
                ∙ ap (λ t. dotted t ++ map tolower c.text) p.spelt
                ∙ sym (join_onto-snoc [] p.labels c.text);
            short = ground arith;
            whole = λ ls n m sp t. rw append_assoc (
                p.whole (c.text ∷ ls) (count s.jumped (1 + len) + n) m
                  (then_label s.curr_offset s.jumped s.depth c.text ls n
                    (count s.jumped (1 + len) + n)
                    (omega (arith, c.long), omega (arith, c.long), c.printable)
                    (h ∙ ap some (sym c.long)) (rw (← one, c.long) c.there) (rw c.long sp)
                    (rw c.long refl))
                  (t ∙ count-if s.jumped s.bytes_consumed (1 + len) n));
          })
        ]

    at_label :
        (s : NameState) (len : ℕ)
        → Prefix s
        → get_elem? buffer s.curr_offset ≡ some len
        → len ≢ 0
        → Leaves Prefix Spelt (label buffer s len)
    unfolding label
    at_label s len p h positive = elim (Bool-cases (not (len / 64 % 4 == 0))) [
      | inl reserved ↦ rw reserved tt
      | inr plain ↦ rw plain (elim (Bool-cases (ltb 63 len)) [
        | inl long ↦ rw long tt
        | inr small ↦ rw small (elim (Bool-cases (ltb (length buffer) (s.curr_offset + 1 + len))) [
          | inl out ↦ rw out tt
          | inr fits ↦ rw fits (
              go (copy_label buffer len (s.curr_offset + 1) (dotted s.name))
                (λ name e. copied_label s len name p h positive (ground arith) (ground arith) e))
        ])
      ])
    ]
      where
        go :
            (r : Result (List ℕ))
            → ((name : List ℕ) → r ≡ ok name → Leaves Prefix Spelt (end_label s len name))
            → Leaves Prefix Spelt (r >>= end_label s len)
        go (ok name) k = k name refl
        go (err c) k = tt
        go fault k = tt

    round-Prefix : (s : NameState) → Prefix s → Leaves Prefix Spelt (round buffer s)
    unfolding round
    round-Prefix s p = elim (Bool-cases (leb (length buffer) s.curr_offset)) [
      | inl out ↦ rw out tt
      | inr inside ↦
          let (len, e) = get_elem?_in buffer s.curr_offset (ground arith) in
          rw (inside, e)
            (elim (Bool-cases (len == 0)) [
              | inl zero_ ↦ rw zero_ (at_root s p (ground (arith, e, ==_iff len 0)))
              | inr more ↦ rw more (elim (Bool-cases (len / 64 % 4 == 3)) [
                | inl top ↦ rw top (at_pointer s len p e (ground (arith, ==_iff (len / 64 % 4) 3)))
                | inr not_top ↦ rw not_top (at_label s len p e (ground (arith, ==_iff len 0)))
              ])
            ])
    ]

-- A decoded name is one that the packet spells from the offset on, in lower case, and takes so many
-- bytes.
pub decode_name-Spells :
    (buffer : List ℕ) (offset : ℕ) {name : List ℕ} {n : ℕ}
    → decode_name buffer offset ≡ ok (name, n)
    → (ls : List (List ℕ)) × Spells buffer offset false 0 ls n
      × (name ≡ join_onto [] ls)
      × (length name ≤ 253)
unfolding decode_name join_onto
decode_name-Spells buffer offset {name} {n} h = elim (Bool-cases (leb (length buffer) offset)) [
  | inl out ↦ absurd (let f = rw out at h in cc f)
  | inr inside ↦
      let first : Prefix buffer offset (start offset) = record {
        labels = [];
        spelt = refl;
        short = omega arith;
        whole = λ ls k m sp t. let e : k ≡ m = omega (arith, t) in rw (← e) sp;
      } in
      let done =
        loop_inv (round buffer) _ (round_falls buffer) (Prefix buffer offset) (Spelt buffer offset)
          (round-Prefix buffer offset) (start offset) first in
      rw (rw inside at h) at done
]
