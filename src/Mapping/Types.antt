-- ===== src/Mapping/Types.antt =====
-- The types of mappings, of values and of BSON elements agree.
use astarte_device_sdk_zephy.Prelude.{
  ℕ, ◌≡◌, ◌↔◌, ◌⊎◌, inl, refl, Bool, true, not, List, [], ◌∷◌, if◌then◌else◌, arith,
}
use astarte_device_sdk_zephy.Result.{Status, ok, err, mapping_data_incompatible}
use astarte_device_sdk_zephy.Bson.Serializer.Format.{All}
use astarte_device_sdk_zephy.Data.{
  Data, binaryblob, boolean, datetime, double, integer, longinteger, string, binaryblob_array,
  boolean_array, datetime_array, double_array, integer_array, longinteger_array, string_array,
}
use astarte_device_sdk_zephy.Mapping.{
  Mapping, type_code, tag, check_data, check_doubles, all_finite,
}

-- The doubles that a value holds.
unfoldable pub doubles : Data → List ℕ
doubles (double x) = x ∷ []
doubles (double_array l) = l
doubles _ = []

module _ (isfinite : ℕ → Bool) where
  all_finite_iff : (l : List ℕ) → (all_finite isfinite l ≡ true) ↔ All (λ x. isfinite x ≡ true) l
  unfolding all_finite
  all_finite_iff [] = (λ _. tt, λ _. refl)
  all_finite_iff (x ∷ l) = ground (arith, all_finite_iff l)

  all_finite_decides :
      (l : List ℕ)
      → let r : Status =
          if not (all_finite isfinite l) then err mapping_data_incompatible else ok tt in
        (r ≡ ok tt) × All (λ x. isfinite x ≡ true) l
        ⊎ (r ≡ err mapping_data_incompatible) × (All (λ x. isfinite x ≡ true) l → ⊥)
  all_finite_decides l = ground (arith, all_finite_iff l)

  check_doubles_decides :
      (d : Data)
      → (check_doubles isfinite d ≡ ok tt) × All (λ x. isfinite x ≡ true) (doubles d)
        ⊎ (check_doubles isfinite d ≡ err mapping_data_incompatible)
          × (All (λ x. isfinite x ≡ true) (doubles d) → ⊥)
  unfolding check_doubles doubles
  check_doubles_decides (double x) = ground arith
  check_doubles_decides (double_array l) = all_finite_decides l
  check_doubles_decides (binaryblob _) = inl (refl, tt)
  check_doubles_decides (boolean _) = inl (refl, tt)
  check_doubles_decides (datetime _) = inl (refl, tt)
  check_doubles_decides (integer _) = inl (refl, tt)
  check_doubles_decides (longinteger _) = inl (refl, tt)
  check_doubles_decides (string _) = inl (refl, tt)
  check_doubles_decides (binaryblob_array _) = inl (refl, tt)
  check_doubles_decides (boolean_array _) = inl (refl, tt)
  check_doubles_decides (datetime_array _) = inl (refl, tt)
  check_doubles_decides (integer_array _) = inl (refl, tt)
  check_doubles_decides (longinteger_array _) = inl (refl, tt)
  check_doubles_decides (string_array _) = inl (refl, tt)

  -- `astarte_mapping_check_data` accepts exactly the values of the mapping's type all of whose
  -- doubles are finite, and answers MAPPING_DATA_INCOMPATIBLE for all others.
  pub check_data_decides :
      (mapping : Mapping) (d : Data)
      → (check_data isfinite mapping d ≡ ok tt)
          × (type_code mapping.type ≡ type_code (tag d))
          × All (λ x. isfinite x ≡ true) (doubles d)
        ⊎ (check_data isfinite mapping d ≡ err mapping_data_incompatible)
          × ((type_code mapping.type ≡ type_code (tag d)) × All (λ x. isfinite x ≡ true) (doubles d)
              → ⊥)
  unfolding check_data
  check_data_decides mapping d = ground (arith, check_doubles_decides d)
