-- ===== src/Mapping/Tests.antt =====
-- Paths and values that mappings accept and refuse, and the theorems applied to them.
use astarte_device_sdk_zephy.Prelude.{ℕ, ◌≡◌, ◌⊎◌, refl, true, false, List, [], ◌∷◌, ltb}
use astarte_device_sdk_zephy.Result.{ok, err, mapping_path_mismatch, mapping_data_incompatible}
use astarte_device_sdk_zephy.Bson.Serializer.Format.{All}
use astarte_device_sdk_zephy.Data.{double}
use astarte_device_sdk_zephy.Mapping.{
  Mapping, mapping_double, check_path, check_first, check_segments, check_path_segment, segment,
  after_segment, last_is, is_parameter, has_wildcard, same_bytes, check_data, type_code, tag,
}
use astarte_device_sdk_zephy.Mapping.Path.{IsInstance, check_path_decides}
use astarte_device_sdk_zephy.Mapping.Types.{doubles, check_data_decides}

-- The endpoint `/a/%{x}`.
abbrev reading : Mapping
reading = record {
  endpoint = b'/' ∷ b'a' ∷ b'/' ∷ b'%' ∷ b'{' ∷ b'x' ∷ b'}' ∷ [];
  type = mapping_double;
  reliability = 0;
  explicit_timestamp = false;
  required = false;
  retention = 0;
  expiry = 0;
  allow_unset = false;
}

-- `/a/b`, `/a/+` and `/a/`
abbrev path_b : List ℕ
path_b = b'/' ∷ b'a' ∷ b'/' ∷ b'b' ∷ []

abbrev path_plus : List ℕ
path_plus = b'/' ∷ b'a' ∷ b'/' ∷ b'+' ∷ []

checks_paths :
    (check_path reading path_b ≡ ok tt)
    × (check_path reading path_plus ≡ err mapping_path_mismatch)
    × (check_path reading (b'/' ∷ b'a' ∷ b'/' ∷ []) ≡ err mapping_path_mismatch)
unfolding check_path check_first check_segments check_path_segment segment after_segment last_is
    is_parameter has_wildcard same_bytes
checks_paths = (refl, refl, refl)

check_path_decides_example :
    (check_path reading path_b ≡ ok tt) × IsInstance reading.endpoint path_b
    ⊎ (check_path reading path_b ≡ err mapping_path_mismatch)
      × (IsInstance reading.endpoint path_b → ⊥)
check_path_decides_example = check_path_decides reading path_b

check_data_decides_example :
    (check_data (λ x. ltb x 9) reading (double 5) ≡ ok tt)
      × (type_code reading.type ≡ type_code (tag (double 5)))
      × All (λ x. ltb x 9 ≡ true) (doubles (double 5))
    ⊎ (check_data (λ x. ltb x 9) reading (double 5) ≡ err mapping_data_incompatible)
      × ((type_code reading.type ≡ type_code (tag (double 5)))
            × All (λ x. ltb x 9 ≡ true) (doubles (double 5))
          → ⊥)
check_data_decides_example = check_data_decides (λ x. ltb x 9) reading (double 5)
