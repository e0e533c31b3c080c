-- ===== src/Result.antt =====
-- include/astarte_device_sdk/result.h: the error codes, and what a fallible function yields.

use mathlib.Core.Path.{subst}
use astarte_device_sdk_zephy.Prelude.{◌≡◌, refl, Bool, true, false, if◌then◌else◌}

-- `astarte_result_t` without its value for success.
pub data Code : Type 0 where
  bson_deserializer_error bson_deserializer_types_error bson_empty_array_error : Code
  bson_empty_document_error bson_serializer_error client_cert_invalid : Code
  device_caching_outdated_introspection device_not_ready http_request_error : Code
  incomplete_aggregation_object interface_already_present interface_conflicting : Code
  interface_invalid_version interface_not_found internal_error invalid_configuration : Code
  invalid_param json_error key_value_full key_value_incompatible_version : Code
  key_value_recovery_failed mapping_data_incompatible : Code
  mapping_explicit_timestamp_not_supported mapping_explicit_timestamp_required : Code
  mapping_not_in_interface mapping_path_mismatch mapping_unset_not_allowed mbedtls_error : Code
  mismatch mqtt_client_already_connected mqtt_client_already_connecting : Code
  mqtt_client_not_ready mqtt_error mutex_lock_error not_found out_of_memory out_of_space : Code
  socket_error storage_corrupted_error timeout tls_error zms_error : Code

-- `ok a` stands for the success code with the output parameters `a`. The last two are no values of
-- the C program: `fault` is an access outside the memory that the function may touch, `stuck` a
-- loop that used up its fuel.
pub data Outcome {ℓ} (A : Type ℓ) : Type ℓ where
  ok : A → Outcome A
  err : Code → Outcome A
  fault : Outcome A
  stuck : Outcome A

infixl 5 ◌>>=◌
abbrev pub ◌>>=◌ {ℓ κ} : {A : Type ℓ} {B : Type κ} → Outcome A → (A → Outcome B) → Outcome B
ok a >>= f = f a
err c >>= f = err c
fault >>= f = fault
stuck >>= f = stuck

-- The C function returns with success, and its value satisfies `P`.
abbrev pub Returns {ℓ} : {A : Type ℓ} → (A → Type 0) → Outcome A → Type 0
Returns P (ok a) = P a
Returns P (err c) = ⊥
Returns P fault = ⊥
Returns P stuck = ⊥

-- The C function returns: with success and a value that satisfies `P`, or with an error code.
abbrev pub Settles {ℓ} : {A : Type ℓ} → (A → Type 0) → Outcome A → Type 0
Settles P (ok a) = P a
Settles P (err c) = Unit
Settles P fault = ⊥
Settles P stuck = ⊥

module _ {ℓ κ} {A : Type ℓ} {B : Type κ} (P : A → Type 0) (Q : B → Type 0) where
  pub Returns-bind :
      (m : Outcome A) (f : A → Outcome B)
      → Returns P m
      → ((a : A) → P a → Returns Q (f a))
      → Returns Q (m >>= f)
  Returns-bind (ok a) f h k = k a h
  Returns-bind (err c) f h k = h
  Returns-bind fault f h k = h
  Returns-bind stuck f h k = h

  pub Settles-bind :
      (m : Outcome A) (f : A → Outcome B)
      → Settles P m
      → ((a : A) → P a → Settles Q (f a))
      → Settles Q (m >>= f)
  Settles-bind (ok a) f h k = k a h
  Settles-bind (err c) f h k = tt
  Settles-bind fault f h k = absurd h
  Settles-bind stuck f h k = absurd h

  pub Settles-of_Returns :
      (m : Outcome A) (f : A → Outcome B)
      → Returns P m
      → ((a : A) → P a → Settles Q (f a))
      → Settles Q (m >>= f)
  Settles-of_Returns (ok a) f h k = k a h
  Settles-of_Returns (err c) f h k = absurd h
  Settles-of_Returns fault f h k = absurd h
  Settles-of_Returns stuck f h k = absurd h

module _ {ℓ} {A : Type ℓ} (P : A → Type 0) where
  pub Returns-if :
      (b : Bool) (m n : Outcome A)
      → (b ≡ true → Returns P m)
      → (b ≡ false → Returns P n)
      → Returns P (if b then m else n)
  Returns-if true m n km kn = km refl
  Returns-if false m n km kn = kn refl

  pub Settles-if :
      (b : Bool) (m n : Outcome A)
      → (b ≡ true → Settles P m)
      → (b ≡ false → Settles P n)
      → Settles P (if b then m else n)
  Settles-if true m n km kn = km refl
  Settles-if false m n km kn = kn refl

-- A call that settles, with the equation of its value.
pub Settles-eq : {A : Type 0} (m : Outcome A) → Settles (λ a. Unit) m → Settles (λ a. m ≡ ok a) m
Settles-eq (ok a) h = refl
Settles-eq (err c) h = tt
Settles-eq fault h = h
Settles-eq stuck h = h

pub Settles-mono {ℓ} :
    {A : Type ℓ} (P Q : A → Type 0) (m : Outcome A)
    → ((a : A) → P a → Q a)
    → Settles P m
    → Settles Q m
Settles-mono P Q (ok a) k h = k a h
Settles-mono P Q (err c) k h = tt
Settles-mono P Q fault k h = h
Settles-mono P Q stuck k h = h

pub Returns-eq :
    {A : Type 0} (P : A → Type 0) (m : Outcome A) → Returns P m → Returns (λ a. P a × (m ≡ ok a)) m
Returns-eq P (ok a) h = (h, refl)
Returns-eq P (err c) h = h
Returns-eq P fault h = h
Returns-eq P stuck h = h

pub Returns-mono {ℓ} :
    {A : Type ℓ} (P Q : A → Type 0) (m : Outcome A)
    → ((a : A) → P a → Q a)
    → Returns P m
    → Returns Q m
Returns-mono P Q (ok a) k h = k a h
Returns-mono P Q (err c) k h = h
Returns-mono P Q fault k h = h
Returns-mono P Q stuck k h = h

pub Settles_at {ℓ} :
    {A : Type ℓ} (P : A → Type 0) (m : Outcome A) {a : A} → Settles P m → m ≡ ok a → P a
Settles_at P m h e = subst (Settles P) e h

-- A function with no output parameter.
abbrev pub Status : Type 0
Status = Outcome {0} Unit
