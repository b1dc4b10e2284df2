-- ===== src/Response/Stamped.antt =====
-- A datagram under another ID.
use dns_security_dataplane.Base.{
  ℕ, ◌/◌, ◌%◌, ◌≤◌, ◌≡◌, refl, true, List, [], ◌∷◌, drop, length, arith,
}
use dns_security_dataplane.Response.{translate_txid}

-- The ID in the first two bytes, the high one first, and the rest as it was.
abbrev pub with_id : ℕ → List ℕ → List ℕ
with_id id bytes = id / 256 % 256 ∷ id % 256 ∷ drop 2 bytes

pub translate_txid-with_id :
    (bytes : List ℕ) (id : ℕ)
    → 2 ≤ length bytes
    → translate_txid bytes id ≡ (true, with_id id bytes)
unfolding translate_txid
translate_txid-with_id [] id h = absurd (omega arith)
translate_txid-with_id (a ∷ []) id h = absurd (omega arith)
translate_txid-with_id (a ∷ b ∷ rest) id h = refl
