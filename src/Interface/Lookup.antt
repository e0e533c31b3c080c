-- ===== src/Interface/Lookup.antt =====
-- Which mapping of an interface a path is for.
use astarte_device_sdk_zephy.Prelude.{ℕ, ◌+◌, ◌≡◌, ◌⊎◌, inl, inr, refl, List, [], ◌∷◌}
use astarte_device_sdk_zephy.Result.{Outcome, ok, err, mapping_not_in_interface}
use astarte_device_sdk_zephy.Mapping.{Mapping}
use astarte_device_sdk_zephy.Mapping.Path.{IsInstance, check_path_decides}
use astarte_device_sdk_zephy.Interface.{
  Interface, choose_mapping, find_mapping, get_mapping_from_path,
}

-- The first mapping for whose endpoint the path is an instance, with its position from `i` on, or
-- the error where there is none.
abbrev pub FirstMatch : List Mapping → ℕ → List ℕ → Outcome (ℕ × Mapping) → Type 0
FirstMatch [] i path r = r ≡ err mapping_not_in_interface
FirstMatch (m ∷ ms) i path r =
    IsInstance m.endpoint path × (r ≡ ok (i, m))
    ⊎ (IsInstance m.endpoint path → ⊥) × FirstMatch ms (i + 1) path r

find_mapping-FirstMatch :
    (ms : List Mapping) (i : ℕ) (path : List ℕ) → FirstMatch ms i path (find_mapping ms i path)
unfolding find_mapping choose_mapping
find_mapping-FirstMatch [] i path = refl
find_mapping-FirstMatch (m ∷ ms) i path = elim (check_path_decides m path) [
  | inl (e, y) ↦ inl (y, rw e refl)
  | inr (e, n) ↦ inr (n, rw e (find_mapping-FirstMatch ms (i + 1) path))
]

-- `astarte_interface_get_mapping_from_path` returns the first mapping of the interface for whose
-- endpoint the path is an instance, and MAPPING_NOT_IN_INTERFACE where there is no such mapping.
pub get_mapping_from_path-FirstMatch :
    (i : Interface) (path : List ℕ) → FirstMatch i.mappings 0 path (get_mapping_from_path i path)
unfolding get_mapping_from_path
get_mapping_from_path-FirstMatch i path = find_mapping-FirstMatch i.mappings 0 path
