-- ===== src/Validation/Tests.antt =====
-- Values and objects on an interface, and the theorems applied to them.
use astarte_device_sdk_zephy.Prelude.{
  ℕ, ◌≡◌, ◌↔◌, refl, Bool, true, false, none, List, [], ◌∷◌, ltb, leb,
}
use astarte_device_sdk_zephy.Result.{ok}
use astarte_device_sdk_zephy.Data.{Data, double}
use astarte_device_sdk_zephy.Mapping.{
  Mapping, mapping_double, check_path, check_first, check_segments, check_path_segment, segment,
  after_segment, last_is, is_parameter, has_wildcard, same_bytes,
}
use astarte_device_sdk_zephy.Interface.{
  Interface, datastream, device_owned, object, get_mapping_from_path, get_mapping_from_paths,
  not_in_interface, find_mapping, choose_mapping,
}
use astarte_device_sdk_zephy.Validation.{
  Search, individual_datastream, aggregated_datastream, unset_property, has_entry, is_mapping,
}
use astarte_device_sdk_zephy.Validation.Accepted.{
  Sendable, EntriesSendable, RequiredPresent, individual_datastream_iff, aggregated_datastream_iff,
  unset_property_iff,
}

-- The endpoints `/o/a` and `/o/b`; the second is required.
abbrev mapping_a : Mapping
mapping_a = record {
  endpoint = b'/' ∷ b'o' ∷ b'/' ∷ b'a' ∷ [];
  type = mapping_double;
  reliability = 0;
  explicit_timestamp = false;
  required = false;
  retention = 0;
  expiry = 0;
  allow_unset = true;
}

abbrev mapping_b : Mapping
mapping_b = record mapping_a { endpoint = b'/' ∷ b'o' ∷ b'/' ∷ b'b' ∷ []; required = true }

abbrev sensor : Interface
sensor = record {
  name = b's' ∷ [];
  major_version = 1;
  minor_version = 0;
  ownership = device_owned;
  type = datastream;
  aggregation = object;
  mappings = mapping_a ∷ mapping_b ∷ [];
}

abbrev finite : ℕ → Bool
finite x = ltb x 9

abbrev grant : Search → ℕ → Bool
grant search n = leb n 100

abbrev entries : List (List ℕ × Data)
entries = (b'a' ∷ [], double 5) ∷ (b'b' ∷ [], double 6) ∷ []

needs_required : has_entry grant sensor (b'/' ∷ b'o' ∷ []) 1 0 ((b'a' ∷ [], double 5) ∷ []) ≡ false
unfolding has_entry is_mapping get_mapping_from_paths not_in_interface get_mapping_from_path
    find_mapping choose_mapping check_path check_first check_segments check_path_segment segment
    after_segment last_is is_parameter has_wildcard same_bytes
needs_required = refl

individual_datastream_iff_example :
    (individual_datastream finite sensor mapping_a.endpoint (double 5) none ≡ ok tt)
    ↔ Sendable finite (get_mapping_from_path sensor mapping_a.endpoint) (double 5) none
individual_datastream_iff_example =
    individual_datastream_iff finite sensor mapping_a.endpoint (double 5) none

aggregated_datastream_iff_example :
    (aggregated_datastream finite grant sensor (b'/' ∷ b'o' ∷ []) entries none ≡ ok tt) ↔ (
      EntriesSendable finite grant sensor (b'/' ∷ b'o' ∷ []) 0 entries none
      × RequiredPresent finite grant sensor (b'/' ∷ b'o' ∷ []) sensor.mappings 0 entries)
aggregated_datastream_iff_example =
    aggregated_datastream_iff finite grant sensor (b'/' ∷ b'o' ∷ []) entries none

unset_property_iff_example : (unset_property sensor mapping_b.endpoint ≡ ok tt) ↔ (
    (m : ℕ × Mapping) × (get_mapping_from_path sensor mapping_b.endpoint ≡ ok m)
    × (m.1.allow_unset ≡ true))
unset_property_iff_example = unset_property_iff sensor mapping_b.endpoint
