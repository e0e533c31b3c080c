-- ===== src/Validation/Accepted.antt =====
-- Exactly what the validation accepts.
use astarte_device_sdk_zephy.Prelude.{
  ℕ, ◌+◌, ◌≡◌, ◌⊎◌, inl, inr, ◌↔◌, refl, sym, ap, ◌∙◌, Bool, true, false, ◌&&◌, not, Option, none,
  some, List, [], ◌∷◌, if◌then◌else◌, arith,
}
use mathlib.Core.Path.{subst}
use astarte_device_sdk_zephy.Result.{
  Code, Outcome, Status, ok, err, fault, stuck, ◌>>=◌, mapping_unset_not_allowed,
}
use astarte_device_sdk_zephy.Bson.Serializer.Format.{All}
use astarte_device_sdk_zephy.Data.{Data}
use astarte_device_sdk_zephy.Mapping.{Mapping, check_data, type_code, tag}
use astarte_device_sdk_zephy.Mapping.Types.{doubles, check_data_decides}
use astarte_device_sdk_zephy.Interface.{Interface, get_mapping_from_path, get_mapping_from_paths}
use astarte_device_sdk_zephy.Validation.{
  Search, in_first_loop, in_second_loop, is_given, check_timestamp, is_mapping, check_value,
  individual_datastream, check_entries, has_entry, check_required, aggregated_datastream,
  unset_property,
}

bind_iff : (r s : Status) → ((r >>= λ _. s) ≡ ok tt) ↔ ((r ≡ ok tt) × (s ≡ ok tt))
bind_iff (ok _) s = (λ h. (refl, h), λ h. h.1)
bind_iff (err c) s = (λ h. cc, λ h. cc (h.0))
bind_iff fault s = (λ h. cc, λ h. cc (h.0))
bind_iff stuck s = (λ h. cc, λ h. cc (h.0))

both_iff :
    (r s : Status) (X Y : Type 0)
    → (r ≡ ok tt) ↔ X
    → (s ≡ ok tt) ↔ Y
    → ((r >>= λ _. s) ≡ ok tt) ↔ (X × Y)
both_iff r s X Y f g = (
  λ h. let (a, b) = (bind_iff r s).0 h in (f.0 a, g.0 b),
  λ k. (bind_iff r s).1 (f.1 k.0, g.1 k.1),
)

either_iff :
    (b c : Bool) (X Y : Type 0)
    → (b ≡ true) ↔ X
    → (c ≡ true) ↔ Y
    → ((if b then true else c) ≡ true) ↔ (X ⊎ Y)
either_iff true c X Y f g = (λ _. inl (f.0 refl), λ _. refl)
either_iff false c X Y f g = (
  λ h. inr (g.0 h),
  λ k. elim k [ inl x ↦ (let bad : false ≡ true = f.1 x in cc) | inr y ↦ g.1 y ],
)

required_iff :
    (required found : Bool) (c : Code) (s : Status) (X Y : Type 0)
    → (found ≡ true) ↔ X
    → (s ≡ ok tt) ↔ Y
    → ((if required && not found then err c else s) ≡ ok tt) ↔ (((required ≡ false) ⊎ X) × Y)
required_iff false found c s X Y f g = (λ h. (inl refl, g.0 h), λ k. g.1 k.1)
required_iff true true c s X Y f g = (λ h. (inr (f.0 refl), g.0 h), λ k. g.1 k.1)
required_iff true false c s X Y f g =
    (λ h. cc, λ k. elim (k.0) [ inl e ↦ cc | inr x ↦ (let bad : false ≡ true = f.1 x in cc) ])

check_timestamp_iff :
    (m : Mapping) (t : Option ℕ)
    → (check_timestamp m t ≡ ok tt) ↔ (m.explicit_timestamp ≡ is_given t)
unfolding check_timestamp
check_timestamp_iff m none = ground arith
check_timestamp_iff m (some t) = ground arith

module _ (isfinite : ℕ → Bool) where
  -- The value has the mapping's type and finite doubles, and there is a timestamp exactly where the
  -- mapping wants one.
  abbrev pub Suits : Mapping → Data → Option ℕ → Type 0
  Suits m value timestamp =
      (type_code m.type ≡ type_code (tag value))
      × All (λ x. isfinite x ≡ true) (doubles value)
      × (m.explicit_timestamp ≡ is_given timestamp)

  -- A mapping was found, and the value suits it.
  abbrev pub Sendable : Outcome (ℕ × Mapping) → Data → Option ℕ → Type 0
  Sendable found value timestamp =
      (mapping : ℕ × Mapping) × (found ≡ ok mapping) × Suits (mapping.1) value timestamp

  check_data_iff :
      (m : Mapping) (value : Data)
      → (check_data isfinite m value ≡ ok tt) ↔ (
          (type_code m.type ≡ type_code (tag value)) × All (λ x. isfinite x ≡ true) (doubles value))
  check_data_iff m value = elim (check_data_decides isfinite m value) [
    | inl (e, t, k) ↦ (λ _. (t, k), λ _. e)
    | inr (e, n) ↦ (λ h. absurd (cc (e, h)), λ k. absurd (n k))
  ]

  check_value_iff :
      (found : Outcome (ℕ × Mapping)) (value : Data) (timestamp : Option ℕ)
      → (check_value isfinite found value timestamp ≡ ok tt) ↔ Sendable found value timestamp
  unfolding check_value
  check_value_iff (ok mapping) value timestamp = (
    λ h.
        let (d, t) =
          (bind_iff (check_data isfinite (mapping.1) value)
              (check_timestamp (mapping.1) timestamp)).0
            h in
        let (type, finite) = (check_data_iff (mapping.1) value).0 d in
        (mapping, refl, (type, finite, (check_timestamp_iff (mapping.1) timestamp).0 t)),
    λ (m, e, suits).
        let same : m ≡ mapping = cc e in
        let (type, finite, t) = subst (λ k. Suits (k.1) value timestamp) same suits in
        (bind_iff (check_data isfinite (mapping.1) value) (check_timestamp (mapping.1) timestamp)).1
          (
            (check_data_iff (mapping.1) value).1 (type, finite),
            (check_timestamp_iff (mapping.1) timestamp).1 t,
          ),
  )
  check_value_iff (err c) value timestamp = (λ h. cc, λ h. cc (h.1))
  check_value_iff fault value timestamp = (λ h. cc, λ h. cc (h.1))
  check_value_iff stuck value timestamp = (λ h. cc, λ h. cc (h.1))

  -- `astarte_validation_individual_datastream` accepts exactly the values for whose path the search
  -- finds a mapping, that have the type of that mapping and finite doubles, with a timestamp exactly
  -- where the mapping wants one.
  pub individual_datastream_iff :
      (interface : Interface) (path : List ℕ) (value : Data) (timestamp : Option ℕ)
      → (individual_datastream isfinite interface path value timestamp ≡ ok tt)
        ↔ Sendable (get_mapping_from_path interface path) value timestamp
  unfolding individual_datastream
  individual_datastream_iff interface path value timestamp =
      check_value_iff (get_mapping_from_path interface path) value timestamp

  module _ (grant : Search → ℕ → Bool) (interface : Interface) (path : List ℕ) where
    -- Each entry, from position `j` on, is for a mapping of the interface, and its value suits it;
    -- the search gets the block that it wants.
    abbrev pub EntriesSendable : ℕ → List (List ℕ × Data) → Option ℕ → Type 0
    EntriesSendable j [] timestamp = Unit
    EntriesSendable j ((entry_path, value) ∷ entries) timestamp =
        Sendable (get_mapping_from_paths (grant (in_first_loop j)) interface path entry_path) value
          timestamp
        × EntriesSendable (j + 1) entries timestamp

    -- One of the entries, from position `j` on, is for the mapping at position `i`, and the search
    -- that tells it gets the block that it wants.
    abbrev pub HasEntry : ℕ → ℕ → List (List ℕ × Data) → Type 0
    HasEntry i j [] = ⊥
    HasEntry i j ((entry_path, value) ∷ entries) =
        ((m : Mapping) × (get_mapping_from_paths (grant (in_second_loop i j)) interface path
              entry_path
            ≡ ok (i, m)))
        ⊎ HasEntry i (j + 1) entries

    -- Each mapping that is required has an entry.
    abbrev pub RequiredPresent : List Mapping → ℕ → List (List ℕ × Data) → Type 0
    RequiredPresent [] i entries = Unit
    RequiredPresent (m ∷ ms) i entries =
        ((m.required ≡ false) ⊎ HasEntry i 0 entries) × RequiredPresent ms (i + 1) entries

    is_mapping_iff :
        (i : ℕ) (found : Outcome (ℕ × Mapping))
        → (is_mapping i found ≡ true) ↔ ((m : Mapping) × (found ≡ ok (i, m)))
    unfolding is_mapping
    is_mapping_iff i (ok (k, mapping)) = (
      λ h. let e : k ≡ i = ground (arith, h) in (mapping, ap (λ j. ok (j, mapping)) e),
      λ (m, e). let same : k ≡ i = cc e in ground (arith, same),
    )
    is_mapping_iff i (err c) = (λ h. cc, λ h. cc (h.1))
    is_mapping_iff i fault = (λ h. cc, λ h. cc (h.1))
    is_mapping_iff i stuck = (λ h. cc, λ h. cc (h.1))

    has_entry_iff :
        (i j : ℕ) (entries : List (List ℕ × Data))
        → (has_entry grant interface path i j entries ≡ true) ↔ HasEntry i j entries
    unfolding has_entry
    has_entry_iff i j [] = (λ h. cc, λ h. absurd h)
    has_entry_iff i j ((entry_path, value) ∷ entries) =
        either_iff _ _ _ _
          (is_mapping_iff i
            (get_mapping_from_paths (grant (in_second_loop i j)) interface path entry_path))
          (has_entry_iff i (j + 1) entries)

    check_entries_iff :
        (j : ℕ) (entries : List (List ℕ × Data)) (timestamp : Option ℕ)
        → (check_entries isfinite grant interface path j entries timestamp ≡ ok tt)
          ↔ EntriesSendable j entries timestamp
    unfolding check_entries
    check_entries_iff j [] timestamp = (λ _. tt, λ _. refl)
    check_entries_iff j ((entry_path, value) ∷ entries) timestamp =
        both_iff _ _ _ _
          (check_value_iff
            (get_mapping_from_paths (grant (in_first_loop j)) interface path entry_path) value
            timestamp)
          (check_entries_iff (j + 1) entries timestamp)

    check_required_iff :
        (ms : List Mapping) (i : ℕ) (entries : List (List ℕ × Data))
        → (check_required grant interface path ms i entries ≡ ok tt) ↔ RequiredPresent ms i entries
    unfolding check_required
    check_required_iff [] i entries = (λ _. tt, λ _. refl)
    check_required_iff (m ∷ ms) i entries =
        required_iff m.required (has_entry grant interface path i 0 entries) _ _ _ _
          (has_entry_iff i 0 entries) (check_required_iff ms (i + 1) entries)

    -- Whatever blocks the allocator grants to the searches, which are told apart:
    -- `astarte_validation_aggregated_datastream` accepts exactly the objects for each of whose
    -- entries the search in the first loop gets its block and finds a mapping that the value suits,
    -- and where, for each required mapping of the interface, the search in the second loop gets its
    -- block and finds that mapping for one of the entries.
    pub aggregated_datastream_iff :
        (entries : List (List ℕ × Data)) (timestamp : Option ℕ)
        → (aggregated_datastream isfinite grant interface path entries timestamp ≡ ok tt)
          ↔ (EntriesSendable 0 entries timestamp × RequiredPresent interface.mappings 0 entries)
    unfolding aggregated_datastream
    aggregated_datastream_iff entries timestamp =
        both_iff _ _ _ _ (check_entries_iff 0 entries timestamp)
          (check_required_iff interface.mappings 0 entries)

found_unset_iff :
    (found : Outcome (ℕ × Mapping))
    → let r : Status =
        (found >>= λ m. (if not m.1.allow_unset then err mapping_unset_not_allowed else ok tt)) in
      (r ≡ ok tt) ↔ ((m : ℕ × Mapping) × (found ≡ ok m) × (m.1.allow_unset ≡ true))
found_unset_iff (ok (k, m)) = (
  λ h. ((k, m), refl, ground (arith, h)),
  λ (n, e, u).
      let same : n ≡ (k, m) = cc e in
      let allowed : m.allow_unset ≡ true =
        ap (λ (p : ℕ × Mapping). p.1.allow_unset) (sym same) ∙ u in
      ground (arith, allowed),
)
found_unset_iff (err c) = (λ h. cc, λ h. cc (h.1))
found_unset_iff fault = (λ h. cc, λ h. cc (h.1))
found_unset_iff stuck = (λ h. cc, λ h. cc (h.1))

-- `astarte_validation_unset_property` accepts exactly the paths for which the search finds a mapping
-- that may be unset.
pub unset_property_iff :
    (interface : Interface) (path : List ℕ)
    → (unset_property interface path ≡ ok tt) ↔ (
        (m : ℕ × Mapping) × (get_mapping_from_path interface path ≡ ok m)
        × (m.1.allow_unset ≡ true))
unfolding unset_property
unset_property_iff interface path = found_unset_iff (get_mapping_from_path interface path)
