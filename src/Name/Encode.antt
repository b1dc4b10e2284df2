-- ===== src/Name/Encode.antt =====
-- The wire form of a name without compression, and what `decode_name` makes of it.
use dns_security_dataplane.Base.{
  ℕ, suc, ◌+◌, ◌≤◌, ◌<◌, ◌≡◌, refl, ap, inl, ltb, leb, ◌==◌, false, ◌||◌, List, [], ◌∷◌, ◌++◌,
  length, Result, ok, map, arith, All, length-append, get_elem?, ◌≢◌, some, drop, get_elem?_of_drop,
  drop-suc, length_of_drop, drop-append,
}
use mathlib.Core.List.{append_assoc, append-nil}
use dns_security_dataplane.Base.Loop.{loop_inv, Leaves}
use dns_security_dataplane.Name.{
  tolower, NameState, copy_label, label, round, start, decode_name, dotted, end_label, round_falls,
}

unfoldable pub encode_name : List (List ℕ) → List ℕ
encode_name [] = 0 ∷ []
encode_name (l ∷ ls) = length l ∷ (l ++ encode_name ls)

-- The labels in lower case, each but the first after a dot.
unfoldable pub join_onto : List ℕ → List (List ℕ) → List ℕ
join_onto name [] = name
join_onto name (l ∷ ls) = join_onto (dotted name ++ map tolower l) ls

abbrev pub IsPrintable : ℕ → Type 0
IsPrintable c = (32 ≤ c) × (c ≢ 127)

abbrev pub IsLabel : List ℕ → Type 0
IsLabel l = (0 < length l) × (length l ≤ 63) × All IsPrintable l

pub name-le-join : (name : List ℕ) (ls : List (List ℕ)) → length name ≤ length (join_onto name ls)
unfolding join_onto
name-le-join name [] = omega arith
name-le-join name (l ∷ ls) =
    let longer : length name ≤ length (dotted name) = dotted_longer name in
    omega (
      arith,
      name-le-join (dotted name ++ map tolower l) ls,
      length-append (dotted name) (map tolower l),
    )
  where
    dotted_longer : (n : List ℕ) → length n ≤ length (dotted n)
    dotted_longer [] = omega arith
    dotted_longer (c ∷ cs) = omega (arith, length-append cs (b'.' ∷ []))

length-encode_name : (ls : List (List ℕ)) → 0 < length (encode_name ls)
unfolding encode_name
length-encode_name [] = omega arith
length-encode_name (l ∷ ls) = omega arith

module _ (buffer rest : List ℕ) where
  pub copy_label-map :
      (l ys : List ℕ) (pos : ℕ) (name : List ℕ)
      → All IsPrintable l
      → drop pos buffer ≡ l ++ ys
      → copy_label buffer (length l) pos name ≡ ok (name ++ map tolower l)
  unfolding copy_label
  copy_label-map [] ys pos name a h = rw append-nil
  copy_label-map (c ∷ l) ys pos name a h =
      let e : get_elem? buffer pos ≡ some c = get_elem?_of_drop buffer pos h in
      let ih = copy_label-map l ys (suc pos) (name ++ tolower c ∷ []) a.1 (drop-suc buffer pos h) in
      let one : pos + 1 ≡ suc pos = omega arith in
      let passes : (ltb c 32 || c == 127) ≡ false = ground arith in
      rw (e, passes, one, ih, append_assoc)

  pub drop_label :
      (l ys : List ℕ) (pos : ℕ) → drop pos buffer ≡ l ++ ys → drop (pos + length l) buffer ≡ ys
  drop_label [] ys pos h = let e : pos + 0 ≡ pos = omega arith in rw e h
  drop_label (c ∷ l) ys pos h =
      let e : pos + suc (length l) ≡ suc pos + length l = omega arith in
      rw e (drop_label l ys (suc pos) (drop-suc buffer pos h))

  -- What is left to read, and what has been read.
  record Reads (target : List ℕ) (total : ℕ) (s : NameState) : Type 0 where
    labels : List (List ℕ)
    fit : All IsLabel labels
    ahead : drop s.curr_offset buffer ≡ encode_name labels ++ rest
    spelt : join_onto s.name labels ≡ target
    direct : s.jumped ≡ false
    counted : s.bytes_consumed + length (encode_name labels) ≡ total

  module _ (target : List ℕ) (total : ℕ) (short : length target ≤ 253) where
    abbrev Done : Result (List ℕ × ℕ) → Type 0
    Done r = r ≡ ok (target, total)

    round_end :
        (s : NameState)
        → drop s.curr_offset buffer ≡ 0 ∷ rest
        → s.name ≡ target
        → s.jumped ≡ false
        → s.bytes_consumed + 1 ≡ total
        → Leaves (Reads target total) Done (round buffer s)
    unfolding round
    round_end s h n j t =
        ground
          (arith, get_elem?_of_drop buffer s.curr_offset h, length_of_drop buffer s.curr_offset h)

    abbrev next : NameState → List ℕ → NameState
    next s l = record {
      name = dotted s.name ++ map tolower l;
      curr_offset = s.curr_offset + (1 + length l);
      bytes_consumed = s.bytes_consumed + (1 + length l);
      jumped = false;
      depth = s.depth;
    }

    round-next :
        (s : NameState) (l ys : List ℕ)
        → IsLabel l
        → drop s.curr_offset buffer ≡ length l ∷ (l ++ ys)
        → s.curr_offset + 1 + length l < length buffer
        → length (dotted s.name ++ map tolower l) ≤ 253
        → s.jumped ≡ false
        → round buffer s ≡ ok (inl (next s l))
    unfolding round label end_label
    round-next s l ys p h fits m j =
        let one : s.curr_offset + 1 ≡ suc s.curr_offset = omega arith in
        let copied =
          copy_label-map l ys (s.curr_offset + 1) (dotted s.name) p.2
            (rw one (drop-suc buffer s.curr_offset h)) in
        let here = get_elem?_of_drop buffer s.curr_offset h in rw here (ground (arith, copied))

    round_label :
        (s : NameState) (l : List ℕ) (ls : List (List ℕ))
        → IsLabel l
        → All IsLabel ls
        → drop s.curr_offset buffer ≡ length l ∷ (l ++ (encode_name ls ++ rest))
        → join_onto (dotted s.name ++ map tolower l) ls ≡ target
        → s.jumped ≡ false
        → s.bytes_consumed + (1 + length l + length (encode_name ls)) ≡ total
        → Leaves (Reads target total) Done (round buffer s)
    round_label s l ls p ps h n j t =
        let one : s.curr_offset + (1 + length l) ≡ suc s.curr_offset + length l = omega arith in
        let behind : drop (s.curr_offset + (1 + length l)) buffer ≡ encode_name ls ++ rest =
          rw one (
            drop_label l (encode_name ls ++ rest) (suc s.curr_offset)
              (drop-suc buffer s.curr_offset h)) in
        let fits : s.curr_offset + 1 + length l < length buffer = omega (
          arith,
          length_of_drop buffer s.curr_offset h,
          length-append l (encode_name ls ++ rest),
          length-append (encode_name ls) rest,
          length-encode_name ls,
        ) in
        rw
          (round-next s l (encode_name ls ++ rest) p h fits
            (omega (arith, name-le-join (dotted s.name ++ map tolower l) ls, ap length n)) j)
          (record {
            labels = ls;
            fit = ps;
            ahead = behind;
            spelt = n;
            direct = refl;
            counted = omega arith;
          })

    round-Reads :
        (s : NameState) → Reads target total s → Leaves (Reads target total) Done (round buffer s)
    unfolding encode_name join_onto
    round-Reads s r = go r.labels r.fit r.ahead r.spelt r.counted
      where
        go :
            (ls : List (List ℕ))
            → All IsLabel ls
            → drop s.curr_offset buffer ≡ encode_name ls ++ rest
            → join_onto s.name ls ≡ target
            → s.bytes_consumed + length (encode_name ls) ≡ total
            → Leaves (Reads target total) Done (round buffer s)
        go [] f h n t = round_end s h n r.direct t
        go (l ∷ ls) f h n t =
            round_label s l ls f.0 f.1 (rw append_assoc at h) n r.direct
              (omega (arith, length-append l (encode_name ls)))

-- A name written as labels, each of 1 to 63 printable bytes, is read back: the labels in lower case
-- joined by dots, if that makes at most 253 bytes, and the exact count of the bytes taken; whatever
-- stands before and after.
pub decode-encode_name :
    (before rest : List ℕ) (ls : List (List ℕ))
    → All IsLabel ls
    → length (join_onto [] ls) ≤ 253
    → decode_name (before ++ (encode_name ls ++ rest)) (length before)
      ≡ ok (join_onto [] ls, length (encode_name ls))
unfolding decode_name
decode-encode_name before rest ls f m =
    let buffer = before ++ (encode_name ls ++ rest) in
    let inside : leb (length buffer) (length before) ≡ false = ground (
      arith,
      length-append before (encode_name ls ++ rest),
      length-append (encode_name ls) rest,
      length-encode_name ls,
    ) in
    rw inside (
      loop_inv (round buffer) _ (round_falls buffer)
        (Reads buffer rest (join_onto [] ls) (length (encode_name ls)))
        (Done buffer rest (join_onto [] ls) (length (encode_name ls)) m)
        (round-Reads buffer rest (join_onto [] ls) (length (encode_name ls)) m)
        (start (length before))
        (record {
          labels = ls;
          fit = f;
          ahead = drop-append before (encode_name ls ++ rest);
          spelt = refl;
          direct = refl;
          counted = omega arith;
        }))
