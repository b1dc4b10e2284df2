-- ===== src/Snapshot/Rollback.antt =====
-- One policy update at a time: it takes effect as a whole, or not at all.
use dns_security_dataplane.Base.{
  ℕ, ◌≡◌, ◌≢◌, ◌≤◌, ◌<◌, refl, ◌⊎◌, Bool, true, false, List, [], ◌∷◌, Option, none, some, arith,
}
use dns_security_dataplane.Name.{is_empty}
use dns_security_dataplane.Policy.{PolicySnapshot}
use dns_security_dataplane.Snapshot.{Manager, apply_candidate}

-- The generation counter is that of the active snapshot, as every caller of both assumes.
abbrev pub IsConsistent : Manager → Type 0
IsConsistent m = m.global_generation ≡ m.active_snapshot.generation

-- What an update leaves behind: the candidate as the active snapshot under a greater generation, or
-- the manager as it was.
abbrev pub Applied : Manager → Option PolicySnapshot → Manager × Bool → Type 0
Applied m none r = r ≡ (m, false)
Applied m (some c) r =
    ((m.global_generation < c.generation)
      × (c.version_hash ≢ [])
      × (r.0.active_snapshot ≡ c)
      × (r.0.global_generation ≡ c.generation)
      × (r.1 ≡ true))
    ⊎ (((c.generation ≤ m.global_generation) ⊎ (c.version_hash ≡ [])) × (r ≡ (m, false)))

empty_hash : (h : List ℕ) → is_empty h ≡ true → h ≡ []
empty_hash [] e = refl
empty_hash (c ∷ h) e = cc

full_hash : (h : List ℕ) → is_empty h ≡ false → h ≢ []
full_hash [] e = cc
full_hash (c ∷ h) e = λ n. cc

-- An update is applied exactly if there is a candidate, its generation is above the current one and
-- it has a version hash; any other leaves the manager untouched.
pub apply_candidate-Applied :
    (candidate : Option PolicySnapshot) (m : Manager)
    → Applied m candidate (apply_candidate candidate m)
unfolding apply_candidate
apply_candidate-Applied none m = refl
apply_candidate-Applied (some c) m =
    ground (arith, empty_hash c.version_hash, full_hash c.version_hash)

-- If the counter equals the active snapshot's generation, it does so after an update too, and an
-- update never lowers it.
pub apply_candidate-IsConsistent :
    (candidate : Option PolicySnapshot) (m : Manager)
    → IsConsistent m
    → IsConsistent (apply_candidate candidate m).0
      × (m.global_generation ≤ (apply_candidate candidate m).0.global_generation)
unfolding apply_candidate
apply_candidate-IsConsistent none m h = ground arith
apply_candidate-IsConsistent (some c) m h = ground arith
