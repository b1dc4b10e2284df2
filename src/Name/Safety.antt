-- ===== src/Name/Safety.antt =====
-- What `decode_name` promises of its result, whatever the bytes are.
use dns_security_dataplane.Base.{
  ℕ, zero, suc, ◌+◌, ◌/◌, ◌%◌, ◌≤◌, ◌<◌, ◌≡◌, ◌⊎◌, inl, inr, ltb, leb, ◌==◌, true, false, not, ◌||◌,
  List, [], ◌∷◌, ◌++◌, length, Result, ok, err, fault, ◌>>=◌, arith, All, All-append, length-append,
  get_elem?_in, get_elem?, Bool-cases, ◌≢◌, some,
}
use dns_security_dataplane.Base.Loop.{loop_inv, Leaves}
use dns_security_dataplane.Name.{
  tolower, NameState, Round, copy_label, pointer, label, round, start, decode_name, round_falls,
  dotted, end_label,
}

-- A byte of a decoded name: printable, and not an upper-case letter.
abbrev pub IsNormal : ℕ → Type 0
IsNormal c = (32 ≤ c) × (c ≢ 127) × ((c < 65) ⊎ (90 < c))

-- The name so far is normal and short, and the bytes that the question takes lie in the packet.
pub record IsGood (buffer : List ℕ) (offset : ℕ) (s : NameState) : Type 0 where
  pub normal : All IsNormal s.name
  pub short : length s.name ≤ 253
  pub inside : offset + s.bytes_consumed ≤ length buffer
  pub here : s.jumped ≡ false → s.curr_offset ≡ offset + s.bytes_consumed
  pub moved : s.jumped ≡ true → 0 < s.bytes_consumed

abbrev pub IsGoodResult : List ℕ → ℕ → Result (List ℕ × ℕ) → Type 0
IsGoodResult buffer offset (ok (name, n)) =
    All IsNormal name × (length name ≤ 253) × (offset + n ≤ length buffer) × (0 < n)
IsGoodResult buffer offset (err c) = Unit
IsGoodResult buffer offset fault = ⊥

module _ (buffer : List ℕ) where
  abbrev Copied : ℕ → List ℕ → Result (List ℕ) → Type 0
  Copied n name (ok name') = All IsNormal name' × (length name' ≡ length name + n)
  Copied n name (err c) = Unit
  Copied n name fault = ⊥

  tolower-IsNormal : (c : ℕ) → 32 ≤ c → c ≢ 127 → IsNormal (tolower c)
  unfolding tolower
  tolower-IsNormal c h k = ground arith

  Copied-shift :
      (n : ℕ) (name : List ℕ) (c : ℕ) (r : Result (List ℕ))
      → Copied n (name ++ c ∷ []) r
      → Copied (suc n) name r
  Copied-shift n name c (ok name') h = (h.0, omega (arith, h.1, length-append name (c ∷ [])))
  Copied-shift n name c (err e) h = tt
  Copied-shift n name c fault h = h

  pub copy_label-Copied :
      (n pos : ℕ) (name : List ℕ)
      → pos + n ≤ length buffer
      → All IsNormal name
      → Copied n name (copy_label buffer n pos name)
  unfolding copy_label
  copy_label-Copied zero pos name i a = (a, omega arith)
  copy_label-Copied (suc n) pos name i a =
      go (get_elem?_in buffer pos (omega arith))
        (λ name' a'. copy_label-Copied n (pos + 1) name' (omega arith) a')
    where
      go :
          (c : ℕ) × (get_elem? buffer pos ≡ some c)
          → ((name' : List ℕ)
              → All IsNormal name'
              → Copied n name' (copy_label buffer n (pos + 1) name'))
          → Copied (suc n) name (copy_label buffer (suc n) pos name)
      go (c, e) ih = rw e (elim (Bool-cases (ltb c 32 || c == 127)) [
        | inl bad ↦ rw bad tt
        | inr good ↦ rw good (
            Copied-shift n name (tolower c) _ (
              ih (name ++ tolower c ∷ []) (
                All-append IsNormal name (tolower c ∷ []) a
                  (tolower-IsNormal c (ground arith) (ground arith), tt))))
      ])

  module _ (offset : ℕ) where
    abbrev Good : Round → Type 0
    Good = Leaves (IsGood buffer offset) (IsGoodResult buffer offset)

    pointer-Good :
        (s : NameState) (len : ℕ)
        → s.curr_offset < length buffer
        → IsGood buffer offset s
        → Good (pointer buffer s len)
    unfolding pointer
    pointer-Good s len h g = elim (Bool-cases (leb (length buffer) (s.curr_offset + 1))) [
      | inl out ↦ rw out tt
      | inr fits ↦
          let (lo, e) = get_elem?_in buffer (s.curr_offset + 1) (ground arith) in
          rw (fits, e) (ground arith)
    ]

    dotted-IsNormal : (name : List ℕ) → All IsNormal name → All IsNormal (dotted name)
    dotted-IsNormal [] a = tt
    dotted-IsNormal (c ∷ cs) a = All-append IsNormal (c ∷ cs) (b'.' ∷ []) a (omega arith)

    end_label-Good :
        (s : NameState) (len : ℕ) (r : Result (List ℕ))
        → s.curr_offset + 1 + len ≤ length buffer
        → IsGood buffer offset s
        → Copied len (dotted s.name) r
        → Good (r >>= end_label s len)
    unfolding end_label
    end_label-Good s len (ok name) h g c = ground arith
    end_label-Good s len (err e) h g c = tt
    end_label-Good s len fault h g c = c

    label-Good : (s : NameState) (len : ℕ) → IsGood buffer offset s → Good (label buffer s len)
    unfolding label
    label-Good s len g = elim (Bool-cases (not (len / 64 % 4 == 0) || ltb 63 len)) [
      | inl bad ↦ ground arith
      | inr small ↦ elim (Bool-cases (ltb (length buffer) (s.curr_offset + 1 + len))) [
        | inl out ↦ ground arith
        | inr fits ↦
            let inside : s.curr_offset + 1 + len ≤ length buffer = ground arith in
            let done = end_label-Good s len _ inside g (
              copy_label-Copied len (s.curr_offset + 1) (dotted s.name) (omega arith)
                (dotted-IsNormal s.name g.normal)) in
            ground (arith, done)
      ]
    ]

    round-Good_at :
        (s : NameState) (len : ℕ)
        → s.curr_offset < length buffer
        → get_elem? buffer s.curr_offset ≡ some len
        → IsGood buffer offset s
        → Good (round buffer s)
    unfolding round
    round-Good_at s len h e g = ground (arith, e, pointer-Good s len h g, label-Good s len g)

    round-Good : (s : NameState) → IsGood buffer offset s → Good (round buffer s)
    unfolding round
    round-Good s g = elim (Bool-cases (leb (length buffer) s.curr_offset)) [
      | inl out ↦ rw out tt
      | inr fits ↦
          let h : s.curr_offset < length buffer = ground arith in
          let (len, e) = get_elem?_in buffer s.curr_offset h in round-Good_at s len h e g
    ]

  IsGood-start : (offset : ℕ) → offset < length buffer → IsGood buffer offset (start offset)
  IsGood-start offset h = record {
    normal = tt;
    short = omega arith;
    inside = omega arith;
    here = λ _. omega arith;
    moved = λ h. cc;
  }

  -- Whatever the packet holds, no read falls outside it; and a decoded name is printable and lower
  -- case, has at most 253 bytes, and its wire form lies inside the packet.
  pub decode_name-IsGoodResult :
      (offset : ℕ) → IsGoodResult buffer offset (decode_name buffer offset)
  unfolding decode_name
  decode_name-IsGoodResult offset = elim (Bool-cases (leb (length buffer) offset)) [
    | inl out ↦ rw out tt
    | inr fits ↦ rw fits (
        loop_inv _ _ (round_falls buffer) (IsGood buffer offset) (IsGoodResult buffer offset)
          (round-Good offset) (start offset) (IsGood-start offset (ground arith)))
  ]
