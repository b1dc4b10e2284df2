-- ===== src/Response/Flags.antt =====
-- The flag words of the synthesized responses.
use dns_security_dataplane.Base.{◌+◌, ◌<◌, ◌≡◌, refl, Bool, true, false, arith}
use dns_security_dataplane.Wire.{Rcode, rcode_value}
use dns_security_dataplane.Response.{error_flags, sinkhole_flags}

pub error_flags_lem :
    (rcode : Rcode) (is_rd : Bool) → error_flags rcode is_rd ≡ 0x8180 + rcode_value rcode
unfolding error_flags
error_flags_lem Rcode.noerror true = refl
error_flags_lem Rcode.noerror false = refl
error_flags_lem rcode true = refl
error_flags_lem rcode false = refl

pub sinkhole_flags_lem : (is_rd : Bool) → sinkhole_flags is_rd ≡ 0x8580
unfolding sinkhole_flags
sinkhole_flags_lem true = refl
sinkhole_flags_lem false = refl

pub rcode-lt : (rcode : Rcode) → rcode_value rcode < 16
rcode-lt Rcode.noerror = omega arith
rcode-lt rcode = omega arith
