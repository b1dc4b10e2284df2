-- ===== src/Base/Results.antt =====
-- `ErrorCode` and `Result` (dataplane/include/common/types.h, result.h). `fault` stands for what
-- C++ leaves undefined: a read outside a span, a dangling iterator, `back()` of an empty list. The
-- code `OK` is the constructor `ok`.
use Prim.Native.String.{String}
use mathlib.Core.Path.{◌≡◌, refl}
use Prim.Native.Nat.{ℕ}
use mathlib.Core.List.{List}
use mathlib.Core.Option.{Option, none, some}
use dns_security_dataplane.Base.Lists.{get_elem?}

pub data ErrorCode : Type 0 where
  packet_too_short packet_too_large invalid_header invalid_qdcount invalid_label_length : ErrorCode
  pointer_loop_detected pointer_out_of_bounds invalid_name_termination name_too_long : ErrorCode
  buffer_overflow unsupported_opcode malformed_question upstream_timeout : ErrorCode
  upstream_error unexpected_response : ErrorCode

unfoldable pub error_string : ErrorCode → String
error_string packet_too_short = "Packet too short (<12 bytes)"
error_string packet_too_large = "Packet exceeds maximum size"
error_string invalid_header = "Invalid DNS header flags"
error_string invalid_qdcount = "Invalid QDCOUNT (must be 1)"
error_string invalid_label_length = "Invalid label length (>63 bytes)"
error_string pointer_loop_detected = "Compression pointer loop cycle detected"
error_string pointer_out_of_bounds = "Compression pointer out of packet bounds"
error_string invalid_name_termination = "Invalid name null termination"
error_string name_too_long = "QNAME exceeds 253 characters"
error_string buffer_overflow = "Output buffer overflow"
error_string unsupported_opcode = "Unsupported DNS Opcode"
error_string malformed_question = "Question section truncated"
error_string upstream_timeout = "Upstream query timed out"
error_string upstream_error = "Upstream returned error"
error_string unexpected_response = "Upstream response does not match pending query"

pub data Result {ℓ} (A : Type ℓ) : Type ℓ where
  ok : A → Result A
  err : ErrorCode → Result A
  fault : Result A

module _ {ℓ κ} {A : Type ℓ} {B : Type κ} where
  infixl 5 ◌>>=◌
  -- Goes on with a value; an error, or undefined behaviour, ends the computation.
  abbrev pub ◌>>=◌ : Result A → (A → Result B) → Result B
  fault >>= next = fault
  err code >>= next = err code
  ok value >>= next = next value

  -- Where a computation of two steps comes out with `b`, the first one came out with a value.
  pub >>=-ok-parts :
      (next : A → Result B) (b : B) (first : Result A)
      → (first >>= next) ≡ ok b
      → (value : A) × (next value ≡ ok b) × (first ≡ ok value)
  >>=-ok-parts next b fault e = cc
  >>=-ok-parts next b (err code) e = cc
  >>=-ok-parts next b (ok value) e = (value, e, refl)

-- `buffer[i]`.
abbrev pub of_option {ℓ} : {A : Type ℓ} → Option A → Result A
of_option none = fault
of_option (some a) = ok a

abbrev pub read {ℓ} : {A : Type ℓ} → List A → ℕ → Result A
read xs i = of_option (get_elem? xs i)
