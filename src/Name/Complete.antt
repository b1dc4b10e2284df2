-- ===== src/Name/Complete.antt =====
-- What a packet spells is what `decode_name` returns.
use dns_security_dataplane.Base.{
  ℕ, zero, suc, ◌+◌, ◌/◌, ◌%◌, ◌≤◌, ◌<◌, ◌≡◌, refl, sym, ap, ◌↔◌, ltb, leb, ◌==◌, ==_iff, Bool,
  true, false, not, ◌&&◌, if◌then◌else◌, List, [], ◌∷◌, ◌++◌, length, Result, ok, map, arith,
  get_elem?, some, drop,
}
use dns_security_dataplane.Base.Loop.{loop_inv, Leaves}
use dns_security_dataplane.Name.{
  tolower, NameState, copy_label, pointer, label, round, start, decode_name, dotted, end_label,
  round_falls,
}
use dns_security_dataplane.Name.Encode.{join_onto, IsLabel, copy_label-map, name-le-join}
use dns_security_dataplane.Name.Spelling.{Spells, root, then_label, jump, count, target_of}
use dns_security_dataplane.Name.Sound.{decode_name-Spells}

get_elem?_below : (xs : List ℕ) (i : ℕ) {c : ℕ} → get_elem? xs i ≡ some c → i < length xs
get_elem?_below [] i h = cc h
get_elem?_below (x ∷ xs) zero h = omega arith
get_elem?_below (x ∷ xs) (suc i) h = omega (arith, get_elem?_below xs i h)

spelt_below :
    (buffer : List ℕ) {o depth n : ℕ} {jumped : Bool} {ls : List (List ℕ)}
    → Spells buffer o jumped depth ls n
    → o < length buffer
spelt_below buffer (root o _ _ _ h _) = get_elem?_below buffer o h
spelt_below buffer (then_label o _ _ _ _ _ _ _ h _ _ _) = get_elem?_below buffer o h
spelt_below buffer (jump o _ _ _ _ _ _ _ h _ _ _ _ _ _ _) = get_elem?_below buffer o h

module _ (buffer : List ℕ) (target : List ℕ) (total : ℕ) (short : length target ≤ 253) where
  record Ahead (s : NameState) : Type 0 where
    labels : List (List ℕ)
    left : ℕ
    spells : Spells buffer s.curr_offset s.jumped s.depth labels left
    spelt : join_onto s.name labels ≡ target
    counted : s.bytes_consumed + left ≡ total

  abbrev Done : Result (List ℕ × ℕ) → Type 0
  Done r = r ≡ ok (target, total)

  counted-if :
      (jumped : Bool) (c k n m : ℕ)
      → m ≡ count jumped k + n
      → c + m ≡ total
      → (if jumped then c else c + k) + n ≡ total
  counted-if true c k n m e t = omega (arith, e, t)
  counted-if false c k n m e t = omega (arith, e, t)

  -- A state in its parts.
  abbrev at : List ℕ → ℕ → ℕ → Bool → ℕ → NameState
  at name o c jumped depth = record {
    name = name;
    curr_offset = o;
    bytes_consumed = c;
    jumped = jumped;
    depth = depth;
  }

  root_round :
      (name : List ℕ) (o c : ℕ) (jumped : Bool) (depth n : ℕ)
      → get_elem? buffer o ≡ some 0
      → n ≡ count jumped 1
      → name ≡ target
      → c + n ≡ total
      → Leaves Ahead Done (round buffer (at name o c jumped depth))
  unfolding round
  root_round name o c jumped depth n h e t k =
      let inside : leb (length buffer) o ≡ false = ground (arith, get_elem?_below buffer o h) in
      let sum : (if jumped then c else c + 1) ≡ total =
        ground (arith, counted-if jumped c 1 0 n (ground (arith, e)) k) in
      rw (inside, h) (rw (t, sum) refl)

  jump_round :
      (name : List ℕ) (o c : ℕ) (jumped : Bool) (depth hi lo : ℕ) (ls : List (List ℕ)) (n m : ℕ)
      → get_elem? buffer o ≡ some hi
      → hi / 64 % 4 ≡ 3
      → get_elem? buffer (o + 1) ≡ some lo
      → depth < 8
      → target_of hi lo < length buffer
      → (jumped ≡ false → target_of hi lo < o)
      → Spells buffer (target_of hi lo) true (depth + 1) ls n
      → m ≡ count jumped 2 + n
      → join_onto name ls ≡ target
      → c + m ≡ total
      → Leaves Ahead Done (round buffer (at name o c jumped depth))
  unfolding round pointer
  jump_round name o c jumped depth hi lo ls n m h top l d inside back sp e t k =
      let i : leb (length buffer) o ≡ false = ground (arith, get_elem?_below buffer o h) in
      let nz : (hi == 0) ≡ false = ground (arith, ==_iff hi 0) in
      let is_top : (hi / 64 % 4 == 3) ≡ true = ground (arith, ==_iff (hi / 64 % 4) 3) in
      let i' : leb (length buffer) (o + 1) ≡ false =
        ground (arith, get_elem?_below buffer (o + 1) l) in
      let shallow : ltb 8 (depth + 1) ≡ false = ground arith in
      let far : leb (length buffer) (target_of hi lo) ≡ false = ground arith in
      let behind : (leb o (target_of hi lo) && not jumped) ≡ false = backwards jumped back in
      rw (i, h, nz, is_top, i', shallow, l, far, behind)
        (record {
          labels = ls;
          left = n;
          spells = sp;
          spelt = t;
          counted = counted-if jumped c 2 n m e k;
        })
    where
      backwards :
          (j : Bool)
          → (j ≡ false → target_of hi lo < o)
          → (leb o (target_of hi lo) && not j) ≡ false
      backwards true b = ground arith
      backwards false b = let below = b refl in ground (arith, below)

  label_round :
      (name : List ℕ) (o c : ℕ) (jumped : Bool) (depth : ℕ) (l : List ℕ) (ls : List (List ℕ))
      (n m : ℕ)
      → IsLabel l
      → get_elem? buffer o ≡ some (length l)
      → drop (suc o) buffer ≡ l ++ drop (suc o + length l) buffer
      → Spells buffer (o + (1 + length l)) jumped depth ls n
      → m ≡ count jumped (1 + length l) + n
      → join_onto (dotted name ++ map tolower l) ls ≡ target
      → c + m ≡ total
      → Leaves Ahead Done (round buffer (at name o c jumped depth))
  unfolding round label end_label
  label_round name o c jumped depth l ls n m (some_, small, plain) h d sp e t k =
      let one : o + 1 ≡ suc o = omega arith in
      let i : leb (length buffer) o ≡ false = ground (arith, get_elem?_below buffer o h) in
      let nz : (length l == 0) ≡ false = ground (arith, ==_iff (length l) 0) in
      let not_top : (length l / 64 % 4 == 3) ≡ false =
        ground (arith, ==_iff (length l / 64 % 4) 3) in
      let low : (length l / 64 % 4 == 0) ≡ true = ground (arith, ==_iff (length l / 64 % 4) 0) in
      let in_range : ltb 63 (length l) ≡ false = ground arith in
      let fits : ltb (length buffer) (o + 1 + length l) ≡ false =
        (let below = spelt_below buffer sp in ground (arith, below)) in
      let copied : copy_label buffer (length l) (o + 1) (dotted name)
          ≡ ok (dotted name ++ map tolower l) =
        copy_label-map buffer [] l (drop (suc o + length l) buffer) (o + 1) (dotted name) plain
          (rw one d) in
      let in_name : ltb 253 (length (dotted name ++ map tolower l)) ≡ false =
        ground (arith, name-le-join (dotted name ++ map tolower l) ls, ap length t) in
      rw (i, h, nz, not_top, low, in_range, fits, copied, in_name)
        (record {
          labels = ls;
          left = n;
          spells = sp;
          spelt = t;
          counted = counted-if jumped c (1 + length l) n m e k;
        })

  spelt_round :
      (name : List ℕ) (o c : ℕ) (jumped : Bool) (depth : ℕ) (ls : List (List ℕ)) (n : ℕ)
      → Spells buffer o jumped depth ls n
      → join_onto name ls ≡ target
      → c + n ≡ total
      → Leaves Ahead Done (round buffer (at name o c jumped depth))
  unfolding join_onto
  spelt_round name o c jumped depth _ n (root _ _ _ _ h e) t k =
      root_round name o c jumped depth n h e t k
  spelt_round name o c jumped depth _ m (then_label _ _ _ l ls n _ p h d sp e) t k =
      label_round name o c jumped depth l ls n m p h d sp e t k
  spelt_round name o c jumped depth _ m (jump _ _ _ hi lo ls n _ h top l d inside back sp e) t k =
      jump_round name o c jumped depth hi lo ls n m h top l d inside back sp e t k

  round-Ahead : (s : NameState) → Ahead s → Leaves Ahead Done (round buffer s)
  round-Ahead s a =
      spelt_round s.name s.curr_offset s.bytes_consumed s.jumped s.depth a.labels a.left a.spells
        a.spelt a.counted

-- `decode_name` returns a name and a count of bytes exactly if the packet spells, from the offset on,
-- labels that in lower case and joined by dots are that name, of at most 253 bytes, and that take so
-- many bytes. The labels have 1 to 63 printable bytes each; they may go on behind a pointer, at most
-- eight times, of which only the first has to point backwards.
pub decode_name_iff :
    (buffer : List ℕ) (offset : ℕ) (name : List ℕ) (n : ℕ)
    → (decode_name buffer offset ≡ ok (name, n)) ↔ (
        (ls : List (List ℕ)) × Spells buffer offset false 0 ls n
        × (name ≡ join_onto [] ls)
        × (length name ≤ 253))
unfolding decode_name
decode_name_iff buffer offset name n = (
  decode_name-Spells buffer offset,
  λ (ls, sp, t, short).
      let inside : leb (length buffer) offset ≡ false = ground (arith, spelt_below buffer sp) in
      rw inside (
        loop_inv (round buffer) _ (round_falls buffer) (Ahead buffer name n short)
          (Done buffer name n short) (round-Ahead buffer name n short) (start offset)
          (record { labels = ls; left = n; spells = sp; spelt = sym t; counted = omega arith })),
)
