-- ===== src/Name.antt =====
-- `DnsParser::decode_name` of dataplane/src/dns/parser.cpp. The `while (true)` is `loop` of
-- Base/Loop over `round`, one pass of its body. A span is a list of bytes, and a read outside it is
-- `fault`. Offsets stay far below 2 ^ 64.
pub mod Safety
pub mod Spelling
pub mod Copies
pub mod Sound
pub mod Complete
pub mod Plain
pub mod Encode
use dns_security_dataplane.Base.{
  ℕ, zero, suc, ◌+◌, ◌-◌, ◌*◌, ◌/◌, ◌%◌, ◌≤◌, ◌<◌, ◌≡◌, refl, ◌⊎◌, inl, inr, ltb, leb, ◌==◌,
  if◌then◌else◌, Bool, true, false, not, ◌&&◌, ◌||◌, List, [], ◌∷◌, ◌++◌, length, Result, ok, err,
  fault, read, ◌>>=◌, ErrorCode, arith, ◌≢◌,
}
use dns_security_dataplane.Base.Loop.{loop, Falls}
use dns_security_dataplane.Wire.{max_domain_name_length, max_label_length, max_compression_depth}

-- `std::tolower` in the C locale.
unfoldable pub tolower : ℕ → ℕ
tolower c = if leb 65 c && leb c 90 then c + 32 else c

-- `name.empty()`.
abbrev pub is_empty : List ℕ → Bool
is_empty [] = true
is_empty (c ∷ cs) = false

-- The locals of the loop.
pub record NameState : Type 0 where
  pub name : List ℕ
  pub curr_offset : ℕ
  pub bytes_consumed : ℕ
  pub jumped : Bool
  pub depth : ℕ

abbrev pub Round : Type 0
Round = Result (NameState ⊎ (List ℕ × ℕ))

abbrev pub start : ℕ → NameState
start offset = record {
  name = [];
  curr_offset = offset;
  bytes_consumed = 0;
  jumped = false;
  depth = 0;
}

-- After the `for`: the length check, and the step past the label.
unfoldable pub end_label : NameState → ℕ → List ℕ → Round
end_label s len name =
    if ltb max_domain_name_length (length name)
    then err ErrorCode.name_too_long
    else ok (
        inl (record {
          name = name;
          curr_offset = s.curr_offset + (1 + len);
          bytes_consumed = if s.jumped then s.bytes_consumed else s.bytes_consumed + (1 + len);
          jumped = s.jumped;
          depth = s.depth;
        }))

-- The name with the dot before the next label.
abbrev pub dotted : List ℕ → List ℕ
dotted name = if is_empty name then name else name ++ b'.' ∷ []

module _ (buffer : List ℕ) where
  -- The `for` over the bytes of a label: `n` of them are left, the next one at `pos`.
  unfoldable pub copy_label : ℕ → ℕ → List ℕ → Result (List ℕ)
  copy_label zero pos name = ok name
  copy_label (suc n) pos name = do
    c ← read buffer pos
    let rest = copy_label n (pos + 1) (name ++ tolower c ∷ [])
    if ltb c 32 || c == 127 then err ErrorCode.invalid_label_length else rest

  -- The branch of a compression pointer.
  unfoldable pub pointer : NameState → ℕ → Round
  pointer s len =
      if leb (length buffer) (s.curr_offset + 1)
      then err ErrorCode.pointer_out_of_bounds
      else if ltb max_compression_depth (s.depth + 1)
      then err ErrorCode.pointer_loop_detected
      else do
        lo ← read buffer (s.curr_offset + 1)
        let ptr_offset = len % 64 * 256 + lo
        if leb (length buffer) ptr_offset
            then err ErrorCode.pointer_out_of_bounds
            else if leb s.curr_offset ptr_offset && not s.jumped
            then err ErrorCode.pointer_loop_detected
            else ok (
                inl (record {
                  name = s.name;
                  curr_offset = ptr_offset;
                  bytes_consumed = if s.jumped then s.bytes_consumed else s.bytes_consumed + 2;
                  jumped = true;
                  depth = s.depth + 1;
                }))

  -- The branch of a regular label.
  unfoldable pub label : NameState → ℕ → Round
  label s len =
      if not (len / 64 % 4 == 0)
      then err ErrorCode.invalid_label_length
      else if ltb max_label_length len
      then err ErrorCode.invalid_label_length
      else if ltb (length buffer) (s.curr_offset + 1 + len)
      then err ErrorCode.pointer_out_of_bounds
      else do name ← copy_label len (s.curr_offset + 1) (dotted s.name); end_label s len name

  unfoldable pub round : NameState → Round
  round s = if leb (length buffer) s.curr_offset then err ErrorCode.pointer_out_of_bounds else do
    len ← read buffer s.curr_offset
    if len == 0
        then ok (inr (s.name, if s.jumped then s.bytes_consumed else s.bytes_consumed + 1))
        else if len / 64 % 4 == 3
        then pointer s len
        else label s len

  -- A jump uses up one of the eight; between jumps the offset moves towards the end.
  pub rounds_left : NameState → ℕ
  rounds_left s =
      (max_compression_depth - s.depth) * (length buffer + 1) + (length buffer - s.curr_offset)

  pointer_falls :
      (s t : NameState) (len : ℕ)
      → pointer s len ≡ ok (inl t)
      → (s.depth < 8) × (t.depth ≡ s.depth + 1) × (t.curr_offset < length buffer)
  unfolding pointer
  pointer_falls s t len h = ground arith

  label_falls :
      (s t : NameState) (len : ℕ)
      → label s len ≡ ok (inl t)
      → (t.depth ≡ s.depth) × (s.curr_offset < t.curr_offset) × (t.curr_offset ≤ length buffer)
  unfolding label end_label
  label_falls s t len h = ground arith

  -- A round that goes on is a jump or a label.
  pub round_next :
      (s t : NameState)
      → round s ≡ ok (inl t)
      → (len : ℕ) × (s.curr_offset < length buffer)
        × (read buffer s.curr_offset ≡ ok len)
        × (len ≢ 0)
        × ((pointer s len ≡ ok (inl t)) ⊎ (label s len ≡ ok (inl t)))
  unfolding round
  round_next s t h = ground arith

  shrinks : (d m a b : ℕ) → d < 8 → b < m → (8 - (d + 1)) * m + b < (8 - d) * m + a
  shrinks d m a b h k = let e : 8 - d ≡ suc (8 - (d + 1)) = omega arith in rw e (omega arith)

  pub round_falls : (s t : NameState) → round s ≡ ok (inl t) → rounds_left t < rounds_left s
  unfolding rounds_left
  round_falls s t h = let (len, inside, _, _, how) = round_next s t h in go len inside how
    where
      go :
          (len : ℕ)
          → s.curr_offset < length buffer
          → ((pointer s len ≡ ok (inl t)) ⊎ (label s len ≡ ok (inl t)))
          → rounds_left t < rounds_left s
      go len i (inl p) =
          let (below, e, b) = pointer_falls s t len p in
          rw e (
            shrinks s.depth (length buffer + 1) (length buffer - s.curr_offset)
              (length buffer - t.curr_offset) below (omega arith))
      go len i (inr q) = let (e, a, b) = label_falls s t len q in rw e (omega arith)

  unfoldable pub decode_name : ℕ → Result (List ℕ × ℕ)
  unfolding round rounds_left
  decode_name offset =
      if leb (length buffer) offset
      then err ErrorCode.pointer_out_of_bounds
      else loop round rounds_left round_falls (start offset)
