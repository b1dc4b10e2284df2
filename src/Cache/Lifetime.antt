-- ===== src/Cache/Lifetime.antt =====
-- The lifetime that an insertion may give: the cache's own clamp against the smaller and the larger
-- of two numbers.
use Prim.Native.Nat.{min, max}
use dns_security_dataplane.Base.{ℕ, ◌≡◌, arith}
use dns_security_dataplane.Cache.{clamp_ttl}

-- In seconds: at least 1 and at most a day.
abbrev pub lifetime : ℕ → ℕ
lifetime ttl_sec = max 1 (min ttl_sec 86400)

pub clamp_ttl-lifetime : (t : ℕ) → clamp_ttl t ≡ lifetime t
unfolding clamp_ttl
clamp_ttl-lifetime t = ground arith
