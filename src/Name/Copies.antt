-- ===== src/Name/Copies.antt =====
-- The bytes that `decode_name` copies of a label.
use dns_security_dataplane.Base.{
  ℕ, zero, suc, ◌+◌, ◌≤◌, ◌≡◌, refl, sym, ap, ◌∙◌, inl, inr, ltb, ◌==◌, ◌||◌, List, [], ◌∷◌, ◌++◌,
  length, ok, map, arith, All, get_elem?, get_elem?_in, some, drop, Bool-cases,
}
use mathlib.Core.List.{append_assoc, append-nil}
use dns_security_dataplane.Name.{tolower, copy_label}
use dns_security_dataplane.Name.Encode.{IsPrintable}

module _ (buffer : List ℕ) where
  drop-get_elem? :
      (xs : List ℕ) (i : ℕ) {c : ℕ} → get_elem? xs i ≡ some c → drop i xs ≡ c ∷ drop (suc i) xs
  drop-get_elem? [] i h = cc h
  drop-get_elem? (x ∷ xs) zero h = let e : x ≡ _ = cc h in ap (λ y. y ∷ xs) e
  drop-get_elem? (x ∷ xs) (suc i) h = drop-get_elem? xs i h

  -- The bytes of a label that was copied.
  pub record Copies (n pos : ℕ) (name name' : List ℕ) : Type 0 where
    pub text : List ℕ
    pub long : length text ≡ n
    pub printable : All IsPrintable text
    pub there : drop pos buffer ≡ text ++ drop (pos + n) buffer
    pub copied : name' ≡ name ++ map tolower text

  pub copy_label-Copies :
      (n pos : ℕ) (name name' : List ℕ)
      → pos + n ≤ length buffer
      → copy_label buffer n pos name ≡ ok name'
      → Copies n pos name name'
  unfolding copy_label
  copy_label-Copies zero pos name name' i h = record {
    text = [];
    long = refl;
    printable = tt;
    there = let e : pos + zero ≡ pos = omega arith in rw e refl;
    copied = sym (cc h) ∙ sym (append-nil name);
  }
  copy_label-Copies (suc n) pos name name' i h =
      let (c, e) = get_elem?_in buffer pos (omega arith) in
      elim (Bool-cases (ltb c 32 || c == 127)) [
        | inl bad ↦ absurd (let f = rw (e, bad) at h in cc f)
        | inr good ↦
            let f : copy_label buffer n (pos + 1) (name ++ tolower c ∷ []) ≡ ok name' =
              rw (e, good) at h in
            let r = copy_label-Copies n (pos + 1) (name ++ tolower c ∷ []) name' (omega arith) f in
            let one : pos + 1 ≡ suc pos = omega arith in
            let sum : pos + 1 + n ≡ pos + suc n = omega arith in
            let rest : drop (suc pos) buffer ≡ r.text ++ drop (pos + suc n) buffer =
              rw (← one, ← sum) r.there in
            record {
              text = c ∷ r.text;
              long = ap suc r.long;
              printable = ((ground (arith), ground (arith)), r.printable);
              there = drop-get_elem? buffer pos e ∙ ap (λ cs. c ∷ cs) rest;
              copied = r.copied ∙ append_assoc name (tolower c ∷ []) (map tolower r.text);
            }
      ]
