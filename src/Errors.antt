-- ===== src/Errors.antt =====
-- dataplane/include/common/types.h and result.h as the classes that they are. The other modules have
-- `Result` of Base/Results in their place: the do block for the test `is_err()`, the early return of
-- `error()` and the use of `value()`.
use Prim.Native.String.{String}
use dns_security_dataplane.Base.{
  ℕ, ◌≡◌, refl, Bool, true, false, not, if◌then◌else◌, List, ◌++◌, Option, none, some, Result, ok,
  err, fault, ◌>>=◌, ErrorCode, error_string,
}
use dns_security_dataplane.Text.{codes}

-- A value of the enumeration: `OK`, another of its names, or a number without a name.
pub data Code : Type 0 where
  ok_code : Code
  named : ErrorCode → Code
  unnamed : ℕ → Code

abbrev pub text_of : Code → String
text_of ok_code = "OK"
text_of (named code) = error_string code
text_of (unnamed n) = "Unknown error"

-- `std::variant<T, ErrorCode>`.
pub data Variant {ℓ} (A : Type ℓ) : Type ℓ where
  holds : A → Variant A
  failed : Code → Variant A

-- What an access comes to.
pub data Access {ℓ} (A : Type ℓ) : Type ℓ where
  returned : A → Access A
  thrown : List ℕ → Access A
  bad_variant_access : Access A

module _ {ℓ} {A : Type ℓ} where
  abbrev pub is_ok : Variant A → Bool
  is_ok (holds a) = true
  is_ok (failed code) = false

  abbrev pub is_err : Variant A → Bool
  is_err (holds a) = false
  is_err (failed code) = true

  abbrev get_code : Variant A → Code
  get_code (holds a) = ok_code
  get_code (failed code) = code

  abbrev pub error : Variant A → Code
  error r = if is_ok r then ok_code else get_code r

  -- `std::get<T>`.
  abbrev pub get_value : Variant A → Access A
  get_value (holds a) = returned a
  get_value (failed code) = bad_variant_access

  abbrev pub value : Variant A → Access A
  value r =
      if is_err r
      then thrown (codes "Bad Result access: " ++ codes (text_of (error r)))
      else get_value r

  -- A result of the model as an object of the class, unless its behaviour is undefined.
  abbrev pub as_variant : Result A → Option (Variant A)
  as_variant (ok c) = some (holds c)
  as_variant (err code) = some (failed (named code))
  as_variant fault = none

-- `Result<void>`.
pub record VoidResult : Type 0 where
  pub err_ : Code

abbrev pub succeeded : VoidResult
succeeded = record { err_ = ok_code }

abbrev pub is_ok_code : Code → Bool
is_ok_code ok_code = true
is_ok_code (named code) = false
is_ok_code (unnamed n) = false

abbrev pub void_is_ok : VoidResult → Bool
void_is_ok r = is_ok_code r.err_

abbrev pub void_is_err : VoidResult → Bool
void_is_err r = not (is_ok_code r.err_)

-- The callers' `if (r.is_err()) return r.error();` before they use `r.value()`.
module _ {ℓ κ} {A : Type ℓ} {B : Type κ} where
  abbrev go_on : Access A → (A → Variant B) → Access (Variant B)
  go_on (returned a) next = returned (next a)
  go_on (thrown text) next = thrown text
  go_on bad_variant_access next = bad_variant_access

  abbrev pub early_return : Variant A → (A → Variant B) → Access (Variant B)
  early_return r next = if is_err r then returned (failed (error r)) else go_on (value r) next

  -- Callers that test first never throw, and are the do blocks of the model.
  pub early_return->>= :
      (r : Result A) (v : Variant A) (next : A → Result B) (next' : A → Variant B)
      → as_variant r ≡ some v
      → ((a : A) → as_variant (next a) ≡ some (next' a))
      → (w : Variant B) × (early_return v next' ≡ returned w) × (as_variant (r >>= next) ≡ some w)
  early_return->>= (ok a) v next next' e same =
      let v_is : v ≡ holds a = cc e in (next' a, rw v_is refl, same a)
  early_return->>= (err code) v next next' e same =
      let v_is : v ≡ failed (named code) = cc e in (failed (named code), rw v_is refl, refl)
  early_return->>= fault v next next' e same = cc e
