-- ===== src/Interface.antt =====
-- include/astarte_device_sdk/interface.h and lib/astarte_device_sdk/interface.c.
pub mod Lookup
use astarte_device_sdk_zephy.Prelude.{
  ℕ, Bool, not, length, ◌+◌, ◌&&◌, ◌∷◌, ◌++◌, Option, none, some, List, [], ◌==◌, if◌then◌else◌,
}
use astarte_device_sdk_zephy.Result.{
  Outcome, Status, ok, err, fault, stuck, ◌>>=◌, invalid_param, interface_invalid_version,
  internal_error, out_of_memory, mapping_path_mismatch, mapping_not_in_interface,
}
use astarte_device_sdk_zephy.Mapping.{Mapping, check_path}

pub data Ownership : Type 0 where
  device_owned server_owned : Ownership

pub data InterfaceType : Type 0 where
  datastream properties : InterfaceType

pub data Aggregation : Type 0 where
  individual object : Aggregation

-- The values of the enumerators.
unfoldable pub ownership_code : Ownership → ℕ
ownership_code device_owned = 1
ownership_code server_owned = 2

unfoldable pub interface_type_code : InterfaceType → ℕ
interface_type_code datastream = 1
interface_type_code properties = 2

unfoldable pub aggregation_code : Aggregation → ℕ
aggregation_code individual = 1
aggregation_code object = 2

-- `astarte_interface_t`; the array of mappings is a list of `mappings_length` ones.
pub record Interface : Type 0 where
  pub name : List ℕ
  pub major_version : ℕ
  pub minor_version : ℕ
  pub ownership : Ownership
  pub type : InterfaceType
  pub aggregation : Aggregation
  pub mappings : List Mapping

-- `astarte_interface_validate`; NULL is none.
unfoldable pub validate : Option Interface → Status
validate none = err invalid_param
validate (some i) =
    if (i.major_version == 0) && (i.minor_version == 0)
    then err interface_invalid_version
    else ok tt

-- A pointer to a mapping of the interface is its position, with what it points to.
-- What `get_mapping_from_path` does with the answer of `astarte_mapping_check_path`.
unfoldable pub choose_mapping : Status → ℕ × Mapping → Outcome (ℕ × Mapping) → Outcome (ℕ × Mapping)
choose_mapping (ok _) mapping rest = ok mapping
choose_mapping (err mapping_path_mismatch) mapping rest = rest
choose_mapping (err _) mapping rest = err internal_error
choose_mapping fault mapping rest = fault
choose_mapping stuck mapping rest = stuck

unfoldable pub find_mapping : List Mapping → ℕ → List ℕ → Outcome (ℕ × Mapping)
find_mapping [] i path = err mapping_not_in_interface
find_mapping (m ∷ ms) i path =
    choose_mapping (check_path m path) (i, m) (find_mapping ms (i + 1) path)

-- `astarte_interface_get_mapping_from_path`
unfoldable pub get_mapping_from_path : Interface → List ℕ → Outcome (ℕ × Mapping)
get_mapping_from_path i path = find_mapping i.mappings 0 path

-- Every error of the search becomes MAPPING_NOT_IN_INTERFACE.
unfoldable pub not_in_interface : Outcome (ℕ × Mapping) → Outcome (ℕ × Mapping)
not_in_interface (err _) = err mapping_not_in_interface
not_in_interface r = r

-- The two paths with a slash between them.
abbrev pub joined : List ℕ → List ℕ → List ℕ
joined path1 path2 = path1 ++ (b'/' ∷ path2)

-- `astarte_interface_get_mapping_from_paths`; the path is put together in a block of its own, and
-- `grant n` tells whether there is one of `n` bytes.
unfoldable pub get_mapping_from_paths :
    (ℕ → Bool) → Interface → List ℕ → List ℕ → Outcome (ℕ × Mapping)
get_mapping_from_paths grant i path1 path2 =
    if grant (length path1 + 1 + length path2 + 1)
    then not_in_interface (get_mapping_from_path i (joined path1 path2))
    else err out_of_memory

-- `interface->mappings`, read for its first member.
pub first_mapping : List Mapping → Outcome (ℕ × Mapping)
first_mapping [] = fault
first_mapping (m ∷ ms) = ok (0, m)

pub qos_mapping : Aggregation → Interface → List ℕ → Outcome (ℕ × Mapping)
qos_mapping individual i path = get_mapping_from_path i path
qos_mapping object i path = first_mapping i.mappings

-- `astarte_interface_get_qos`; `given` is false for a NULL `qos`.
pub get_qos : Interface → List ℕ → Bool → Outcome ℕ
get_qos i path given =
    if not given
    then err invalid_param
    else qos_mapping i.aggregation i path >>= λ mapping. ok (mapping.1.reliability)
