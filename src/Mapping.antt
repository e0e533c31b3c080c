-- ===== src/Mapping.antt =====
-- include/astarte_device_sdk/mapping.h and lib/astarte_device_sdk/mapping.c. A C string is the list
-- of its bytes before the terminator; a pointer into a string is the rest of the string from there.
pub mod Path
pub mod Types
mod Tests
use astarte_device_sdk_zephy.Prelude.{
  ℕ, zero, suc, ◌-◌, Bool, true, false, ◌&&◌, ◌||◌, not, Option, none, some, List, [], ◌∷◌, length,
  ltb, leb, ◌==◌, if◌then◌else◌, get_elem?,
}
use astarte_device_sdk_zephy.Result.{
  Outcome, Status, ok, err, stuck, mapping_path_mismatch, mapping_data_incompatible, internal_error,
}
use astarte_device_sdk_zephy.Bson.Types.{
  type_double, type_string, type_array, type_binary, type_boolean, type_datetime, type_int32,
  type_int64,
}
use astarte_device_sdk_zephy.Data.{
  Data, binaryblob, boolean, datetime, double, integer, longinteger, string, binaryblob_array,
  boolean_array, datetime_array, double_array, integer_array, longinteger_array, string_array,
}

-- `astarte_mapping_type_t`
pub data MappingType : Type 0 where
  mapping_binaryblob mapping_boolean mapping_datetime mapping_double mapping_integer
        mapping_longinteger mapping_string :
      MappingType
  mapping_binaryblobarray mapping_booleanarray mapping_datetimearray mapping_doublearray
        mapping_integerarray mapping_longintegerarray mapping_stringarray :
      MappingType

-- The value of the enumerator, by which two types are compared.
unfoldable pub type_code : MappingType → ℕ
type_code mapping_binaryblob = 1
type_code mapping_boolean = 2
type_code mapping_datetime = 3
type_code mapping_double = 4
type_code mapping_integer = 5
type_code mapping_longinteger = 6
type_code mapping_string = 7
type_code mapping_binaryblobarray = 8
type_code mapping_booleanarray = 9
type_code mapping_datetimearray = 10
type_code mapping_doublearray = 11
type_code mapping_integerarray = 12
type_code mapping_longintegerarray = 13
type_code mapping_stringarray = 14

-- `astarte_mapping_t`; reliability and retention are the values of their enumerators.
pub record Mapping : Type 0 where
  pub endpoint : List ℕ
  pub type : MappingType
  pub reliability : ℕ
  pub explicit_timestamp : Bool
  pub required : Bool
  pub retention : ℕ
  pub expiry : ℕ
  pub allow_unset : Bool

-- `data.tag`
unfoldable pub tag : Data → MappingType
tag (binaryblob _) = mapping_binaryblob
tag (boolean _) = mapping_boolean
tag (datetime _) = mapping_datetime
tag (double _) = mapping_double
tag (integer _) = mapping_integer
tag (longinteger _) = mapping_longinteger
tag (string _) = mapping_string
tag (binaryblob_array _) = mapping_binaryblobarray
tag (boolean_array _) = mapping_booleanarray
tag (datetime_array _) = mapping_datetimearray
tag (double_array _) = mapping_doublearray
tag (integer_array _) = mapping_integerarray
tag (longinteger_array _) = mapping_longintegerarray
tag (string_array _) = mapping_stringarray

unfoldable pub array_to_scalar_type : MappingType → Outcome MappingType
array_to_scalar_type mapping_binaryblobarray = ok mapping_binaryblob
array_to_scalar_type mapping_booleanarray = ok mapping_boolean
array_to_scalar_type mapping_datetimearray = ok mapping_datetime
array_to_scalar_type mapping_doublearray = ok mapping_double
array_to_scalar_type mapping_integerarray = ok mapping_integer
array_to_scalar_type mapping_longintegerarray = ok mapping_longinteger
array_to_scalar_type mapping_stringarray = ok mapping_string
array_to_scalar_type _ = err internal_error

-- Up to the next slash, or to the end: `strchr(start, '/')`.
unfoldable pub segment : List ℕ → List ℕ
segment [] = []
segment (c ∷ cs) = if c == b'/' then [] else c ∷ segment cs

-- From the next slash on, which it skips; none of it where there is no slash.
unfoldable pub after_segment : List ℕ → List ℕ
after_segment [] = []
after_segment (c ∷ cs) = if c == b'/' then cs else after_segment cs

unfoldable pub last_is : ℕ → List ℕ → Bool
last_is b [] = false
last_is b (c ∷ []) = c == b
last_is b (c ∷ d ∷ cs) = last_is b (d ∷ cs)

unfoldable pub has_wildcard : List ℕ → Bool
has_wildcard [] = false
has_wildcard (c ∷ cs) = if (c == b'#') || (c == b'+') then true else has_wildcard cs

-- `memcmp` of two segments of one length.
unfoldable pub same_bytes : List ℕ → List ℕ → Bool
same_bytes [] [] = true
same_bytes [] (y ∷ ys) = false
same_bytes (x ∷ xs) [] = false
same_bytes (x ∷ xs) (y ∷ ys) = if x == y then same_bytes xs ys else false

-- `%{` in front and `}` behind.
unfoldable pub is_parameter : List ℕ → Bool
is_parameter (a ∷ b ∷ cs) = (a == b'%') && ((b == b'{') && last_is b'}' (a ∷ b ∷ cs))
is_parameter _ = false

-- `check_path_segment`, on the two segments.
unfoldable pub check_path_segment : List ℕ → List ℕ → Bool
check_path_segment endpoint path =
    if is_parameter endpoint
    then (if length path == 0 then false else not (has_wildcard path))
    else if not (length endpoint == length path) || not (same_bytes endpoint path)
    then false
    else true

-- The `while` loop of `check_path` with the test that follows it.
unfoldable pub check_segments : ℕ → List ℕ → List ℕ → Status
check_segments fuel [] [] = ok tt
check_segments fuel [] (p ∷ path) = err mapping_path_mismatch
check_segments fuel (e ∷ endpoint) [] = err mapping_path_mismatch
check_segments zero (e ∷ endpoint) (p ∷ path) = stuck
check_segments (suc fuel) (e ∷ endpoint) (p ∷ path) =
    let rest = check_segments fuel (after_segment (e ∷ endpoint)) (after_segment (p ∷ path)) in
    if not (check_path_segment (segment (e ∷ endpoint)) (segment (p ∷ path)))
    then err mapping_path_mismatch
    else rest

-- What follows the first character; an endpoint that is empty has none, and comparing its
-- terminator with the first character of the path fails.
unfoldable pub check_first : List ℕ → List ℕ → Status
check_first (e ∷ endpoint) (p ∷ path) =
    if not (e == p) then err mapping_path_mismatch else check_segments (length path) endpoint path
check_first _ _ = err mapping_path_mismatch

-- `astarte_mapping_check_path`. A round takes a byte of the path at least.
unfoldable pub check_path : Mapping → List ℕ → Status
check_path mapping path =
    if ltb (length path) 2
    then err mapping_path_mismatch
    else if last_is b'/' path
    then err mapping_path_mismatch
    else check_first mapping.endpoint path

module _ (isfinite : ℕ → Bool) where
  pub all_finite : List ℕ → Bool
  all_finite [] = true
  all_finite (x ∷ xs) = if isfinite x then all_finite xs else false

  -- The double, or the doubles, that `check_data` looks at.
  pub check_doubles : Data → Status
  check_doubles (double x) = if not (isfinite x) then err mapping_data_incompatible else ok tt
  check_doubles (double_array l) =
      if not (all_finite l) then err mapping_data_incompatible else ok tt
  check_doubles _ = ok tt

  -- `astarte_mapping_check_data`
  pub check_data : Mapping → Data → Status
  check_data mapping d =
      if not (type_code mapping.type == type_code (tag d))
      then err mapping_data_incompatible
      else check_doubles d

unfoldable pub expected_bson_type : MappingType → ℕ
expected_bson_type mapping_binaryblob = type_binary
expected_bson_type mapping_boolean = type_boolean
expected_bson_type mapping_datetime = type_datetime
expected_bson_type mapping_double = type_double
expected_bson_type mapping_integer = type_int32
expected_bson_type mapping_longinteger = type_int64
expected_bson_type mapping_string = type_string
expected_bson_type _ = type_array

-- `astarte_mapping_bson_is_compatible`
unfoldable pub bson_is_compatible : MappingType → ℕ → Bool
bson_is_compatible mapping_type bson_type =
    if (expected_bson_type mapping_type == type_int64) && (bson_type == type_int32)
    then true
    else bson_type == expected_bson_type mapping_type
