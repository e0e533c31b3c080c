-- ===== src/Validation.antt =====
-- lib/astarte_device_sdk/validation.c: what may be sent on an interface. A timestamp that is NULL is
-- none.
pub mod Accepted
mod Tests
use astarte_device_sdk_zephy.Prelude.{
  ℕ, ◌+◌, Bool, true, false, ◌&&◌, ◌||◌, not, Option, none, some, List, [], ◌∷◌, ◌==◌,
  if◌then◌else◌,
}
use astarte_device_sdk_zephy.Result.{
  Outcome, Status, ok, err, fault, stuck, ◌>>=◌, mapping_explicit_timestamp_required,
  mapping_explicit_timestamp_not_supported, incomplete_aggregation_object,
  mapping_unset_not_allowed,
}
use astarte_device_sdk_zephy.Data.{Data}
use astarte_device_sdk_zephy.Mapping.{Mapping, check_data}
use astarte_device_sdk_zephy.Interface.{Interface, get_mapping_from_path, get_mapping_from_paths}

abbrev pub is_given : Option ℕ → Bool
is_given none = false
is_given (some t) = true

-- The two tests on the timestamp.
pub check_timestamp : Mapping → Option ℕ → Status
check_timestamp mapping timestamp =
    if mapping.explicit_timestamp && not (is_given timestamp)
    then err mapping_explicit_timestamp_required
    else if not mapping.explicit_timestamp && is_given timestamp
    then err mapping_explicit_timestamp_not_supported
    else ok tt

-- Whether a search found the mapping at position `i`.
pub is_mapping : ℕ → Outcome (ℕ × Mapping) → Bool
is_mapping i (ok (k, mapping)) = k == i
is_mapping i (err _) = false
is_mapping i fault = false
is_mapping i stuck = false

-- A search for the mapping of an entry: for the entry at a position in the first loop of
-- `aggregated_datastream`, for a mapping and an entry at their positions in the second.
pub data Search : Type 0 where
  in_first_loop : ℕ → Search
  in_second_loop : ℕ → ℕ → Search

-- `grant search n` tells whether that search gets its block of `n` bytes.
module _ (grant : Search → ℕ → Bool) (interface : Interface) (path : List ℕ) where
  -- The inner loop of the second loop of `aggregated_datastream`, from the entry at position `j` on:
  -- an entry is for the mapping at position `i`.
  pub has_entry : ℕ → ℕ → List (List ℕ × Data) → Bool
  has_entry i j [] = false
  has_entry i j ((entry_path, value) ∷ entries) =
      if is_mapping i
        (get_mapping_from_paths (grant (in_second_loop i j)) interface path entry_path)
      then true
      else has_entry i (j + 1) entries

  -- The second loop, over the mappings from position `i` on.
  pub check_required : List Mapping → ℕ → List (List ℕ × Data) → Status
  check_required [] i entries = ok tt
  check_required (m ∷ ms) i entries =
      if m.required && not (has_entry i 0 entries)
      then err incomplete_aggregation_object
      else check_required ms (i + 1) entries

module _ (isfinite : ℕ → Bool) where
  -- The checks on a value whose mapping was found.
  pub check_value : Outcome (ℕ × Mapping) → Data → Option ℕ → Status
  check_value found value timestamp = do
    mapping ← found
    _ ← check_data isfinite (mapping.1) value
    check_timestamp (mapping.1) timestamp

  pub individual_datastream : Interface → List ℕ → Data → Option ℕ → Status
  individual_datastream interface path value timestamp =
      check_value (get_mapping_from_path interface path) value timestamp

  pub set_property : Interface → List ℕ → Data → Status
  set_property interface path value = individual_datastream interface path value none

  module _ (grant : Search → ℕ → Bool) (interface : Interface) (path : List ℕ) where
    -- The first loop of `aggregated_datastream`, over the entries from position `j` on.
    pub check_entries : ℕ → List (List ℕ × Data) → Option ℕ → Status
    check_entries j [] timestamp = ok tt
    check_entries j ((entry_path, value) ∷ entries) timestamp = do
      _ ←
          check_value (get_mapping_from_paths (grant (in_first_loop j)) interface path entry_path)
            value timestamp
      check_entries (j + 1) entries timestamp

    pub aggregated_datastream : List (List ℕ × Data) → Option ℕ → Status
    aggregated_datastream entries timestamp = do
      _ ← check_entries 0 entries timestamp
      check_required grant interface path interface.mappings 0 entries

pub unset_property : Interface → List ℕ → Status
unset_property interface path = do
  mapping ← get_mapping_from_path interface path
  if not mapping.1.allow_unset then err mapping_unset_not_allowed else ok tt
