-- ===== src/Name/Spelling.antt =====
-- The wire form of a name, with compression pointers: which labels stand at an offset of a packet.
use dns_security_dataplane.Base.{
  ℕ, suc, ◌+◌, ◌*◌, ◌/◌, ◌%◌, ◌<◌, ◌≡◌, Bool, true, false, List, [], ◌∷◌, ◌++◌, length, some, drop,
  get_elem?,
}
use dns_security_dataplane.Name.Encode.{IsLabel}

-- Bytes count only before the first jump.
abbrev pub count : Bool → ℕ → ℕ
count true n = 0
count false n = n

abbrev pub target_of : ℕ → ℕ → ℕ
target_of hi lo = hi % 64 * 256 + lo

-- From `o` on, after `depth` jumps: the labels up to the root, and the bytes that they take. A jump is
-- one of eight at most; the first of them goes backwards.
pub data Spells (buffer : List ℕ) : ℕ → Bool → ℕ → List (List ℕ) → ℕ → Type 0 where
  root :
      (o : ℕ) (jumped : Bool) (depth n : ℕ)
      → get_elem? buffer o ≡ some 0
      → n ≡ count jumped 1
      → Spells buffer o jumped depth [] n
  then_label :
      (o : ℕ) (jumped : Bool) (depth : ℕ) (l : List ℕ) (ls : List (List ℕ)) (n m : ℕ)
      → IsLabel l
      → get_elem? buffer o ≡ some (length l)
      → drop (suc o) buffer ≡ l ++ drop (suc o + length l) buffer
      → Spells buffer (o + (1 + length l)) jumped depth ls n
      → m ≡ count jumped (1 + length l) + n
      → Spells buffer o jumped depth (l ∷ ls) m
  jump :
      (o : ℕ) (jumped : Bool) (depth hi lo : ℕ) (ls : List (List ℕ)) (n m : ℕ)
      → get_elem? buffer o ≡ some hi
      → hi / 64 % 4 ≡ 3
      → get_elem? buffer (o + 1) ≡ some lo
      → depth < 8
      → target_of hi lo < length buffer
      → (jumped ≡ false → target_of hi lo < o)
      → Spells buffer (target_of hi lo) true (depth + 1) ls n
      → m ≡ count jumped 2 + n
      → Spells buffer o jumped depth ls m
