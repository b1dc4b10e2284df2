-- ===== src/Snapshot/Race.antt =====
-- The packet loop and the control thread, interleaved at each atomic load and store.
use dns_security_dataplane.Base.{ℕ, ◌≡◌, ◌≤◌, ◌<◌, refl, Option, none, some, arith}
use dns_security_dataplane.Policy.{PolicySnapshot}
use dns_security_dataplane.Snapshot.{
  Manager, accepted, check_candidate, swap_pointer, store_generation, new_manager,
}

-- Where the control thread stands in `apply_candidate`, and the packet loop in its two loads.
pub data Writer : Type 0 where
  idle : Writer
  checked : PolicySnapshot → Writer
  swapped : PolicySnapshot → Writer

pub data Reader : Type 0 where
  outside : Reader
  has_snapshot : PolicySnapshot → Reader
  has_both : PolicySnapshot → ℕ → Reader

pub record System : Type 0 where
  pub manager : Manager
  pub writer : Writer
  pub reader : Reader

-- One atomic step of either thread.
pub data Step (s : System) (t : System) : Type 0 where
  check :
      (candidate : Option PolicySnapshot) (c : PolicySnapshot)
      → s.writer ≡ idle
      → check_candidate candidate s.manager.global_generation ≡ accepted c
      → t ≡ record s { writer = checked c }
      → Step s t
  swap :
      (c : PolicySnapshot)
      → s.writer ≡ checked c
      → t ≡ record s { manager = swap_pointer c s.manager; writer = swapped c }
      → Step s t
  publish :
      (c : PolicySnapshot)
      → s.writer ≡ swapped c
      → t ≡ record s { manager = store_generation c s.manager; writer = idle }
      → Step s t
  load_snapshot :
      s.reader ≡ outside
      → t ≡ record s { reader = has_snapshot s.manager.active_snapshot }
      → Step s t
  load_generation :
      (p : PolicySnapshot)
      → s.reader ≡ has_snapshot p
      → t ≡ record s { reader = has_both p s.manager.global_generation }
      → Step s t
  leave :
      (p : PolicySnapshot) (g : ℕ)
      → s.reader ≡ has_both p g
      → t ≡ record s { reader = outside }
      → Step s t

pub data Reach (s : System) : System → Type 0 where
  here : Reach s s
  next : {t u : System} → Reach s t → Step t u → Reach s u

abbrev pub started : System
started = record { manager = new_manager; writer = idle; reader = outside }

abbrev WriterInv : Manager → Writer → Type 0
WriterInv m idle = m.global_generation ≡ m.active_snapshot.generation
WriterInv m (checked c) =
    (m.global_generation ≡ m.active_snapshot.generation) × (m.global_generation < c.generation)
WriterInv m (swapped c) = (m.active_snapshot ≡ c) × (m.global_generation < c.generation)

abbrev ReaderInv : Manager → Reader → Type 0
ReaderInv m outside = Unit
ReaderInv m (has_snapshot p) = p.generation ≤ m.active_snapshot.generation
ReaderInv m (has_both p g) =
    (p.generation ≤ m.active_snapshot.generation) × (g ≤ m.global_generation)

pub record Inv (s : System) : Type 0 where
  pub writing : WriterInv s.manager s.writer
  pub reading : ReaderInv s.manager s.reader

check-lt :
    (candidate : Option PolicySnapshot) (gen : ℕ) (c : PolicySnapshot)
    → check_candidate candidate gen ≡ accepted c
    → gen < c.generation
unfolding check_candidate
check-lt none gen c h = cc
check-lt (some d) gen c h = ground arith

Step-Inv : (s t : System) → Step s t → Inv s → Inv t
Step-Inv s t (check candidate c w a e) i =
    ground (arith, check-lt candidate s.manager.global_generation c)
Step-Inv s t (swap c w e) i = ground arith
Step-Inv s t (publish c w e) i = ground arith
Step-Inv s t (load_snapshot r e) i = ground arith
Step-Inv s t (load_generation p r e) i = ground arith
Step-Inv s t (leave p g r e) i = ground arith

Step-grows :
    (s t : System)
    → Step s t
    → Inv s
    → (s.manager.active_snapshot.generation ≤ t.manager.active_snapshot.generation)
      × (s.manager.global_generation ≤ t.manager.global_generation)
Step-grows s t (check candidate c w a e) i = ground arith
Step-grows s t (swap c w e) i = ground arith
Step-grows s t (publish c w e) i = ground arith
Step-grows s t (load_snapshot r e) i = ground arith
Step-grows s t (load_generation p r e) i = ground arith
Step-grows s t (leave p g r e) i = ground arith

Reach-both :
    {s t : System}
    → Inv s
    → Reach s t
    → Inv t
      × (s.manager.active_snapshot.generation ≤ t.manager.active_snapshot.generation)
      × (s.manager.global_generation ≤ t.manager.global_generation)
Reach-both i here = (i, omega arith, omega arith)
Reach-both {s} i (next {t} {u} r st) =
    let (j, a, b) = Reach-both i r in
    let (c, d) = Step-grows t u st j in (Step-Inv t u st j, omega arith, omega arith)

started-Inv : Inv started
started-Inv = record { writing = refl; reading = tt }

-- In every interleaving of the control thread's update with the packet loop's two loads: the
-- counter is behind the active snapshot only between the two stores; a snapshot in the loop's hands
-- is never of a later generation than the active one; and neither the active generation nor the
-- counter ever goes back.
pub Reach-Inv :
    {s t : System}
    → Reach started s
    → Reach s t
    → Inv t
      × (s.manager.active_snapshot.generation ≤ t.manager.active_snapshot.generation)
      × (s.manager.global_generation ≤ t.manager.global_generation)
Reach-Inv r q = Reach-both (Reach-both started-Inv r).0 q
