-- ===== src/Introspection/Updates.antt =====
-- Which new versions of an interface `check_interface_update` lets through.
use astarte_device_sdk_zephy.Prelude.{
  ◌<◌, ◌≡◌, ◌⊎◌, inl, inr, refl, sym, ap, ◌∙◌, Bool, true, false, List, [], ◌∷◌, arith,
}
use astarte_device_sdk_zephy.Result.{Status, ok, err, ◌>>=◌, interface_conflicting}
use astarte_device_sdk_zephy.Bson.Serializer.Format.{All}
use astarte_device_sdk_zephy.Mapping.{Mapping, type_code}
use astarte_device_sdk_zephy.Mapping.Path.{same_bytes_iff}
use astarte_device_sdk_zephy.Interface.{
  Interface, InterfaceType, datastream, properties, ownership_code, interface_type_code,
  aggregation_code,
}
use astarte_device_sdk_zephy.Introspection.{
  same_bool, check_mapping_attributes, check_endpoint, check_endpoints,
  check_interface_mappings_update, check_old,
}

abbrev pub Any : (Mapping → Type 0) → List Mapping → Type 0
Any P [] = ⊥
Any P (m ∷ ms) = P m ⊎ Any P ms

-- The attributes that a mapping must keep: its type, and for a datastream reliability, timestamp,
-- retention and expiry, for properties whether it may be unset.
abbrev pub Agrees : Interface → Mapping → Mapping → Type 0
Agrees interface old new =
    (type_code old.type ≡ type_code new.type)
    × ((interface_type_code interface.type ≡ 1)
          × (old.reliability ≡ new.reliability)
          × (old.explicit_timestamp ≡ new.explicit_timestamp)
          × (old.retention ≡ new.retention)
          × (old.expiry ≡ new.expiry)
        ⊎ (interface_type_code interface.type ≡ 2) × (old.allow_unset ≡ new.allow_unset))

-- The old mapping is among those of the interface, with its endpoint and its attributes.
abbrev pub Kept : Interface → List Mapping → Mapping → Type 0
Kept interface news old = Any (λ new. (old.endpoint ≡ new.endpoint) × Agrees interface old new) news

-- A later version that keeps ownership, type, aggregation and all mappings.
abbrev pub Compatible : Interface → Interface → Type 0
Compatible old new =
    (ownership_code new.ownership ≡ ownership_code old.ownership)
    × (interface_type_code new.type ≡ interface_type_code old.type)
    × (aggregation_code new.aggregation ≡ aggregation_code old.aggregation)
    × ((old.major_version < new.major_version)
        ⊎ (old.major_version ≡ new.major_version) × (old.minor_version < new.minor_version))
    × All (Kept new new.mappings) old.mappings

-- A check that passes only where `X` holds.
abbrev pub Answers : Status → Type 0 → Type 0
Answers r X = (r ≡ ok tt) × X ⊎ (r ≡ err interface_conflicting)

Answers-bind :
    (r : Status) (rest : Status) (X Y : Type 0)
    → Answers r X
    → Answers rest Y
    → Answers (r >>= λ _. rest) (X × Y)
Answers-bind r rest X Y (inl (e, x)) (inl (f, y)) = inl (ap (λ t. t >>= λ _. rest) e ∙ f, (x, y))
Answers-bind r rest X Y (inl (e, x)) (inr f) = inr (ap (λ t. t >>= λ _. rest) e ∙ f)
Answers-bind r rest X Y (inr e) _ = inr (ap (λ t. t >>= λ _. rest) e)

same_bool→≡ : (a b : Bool) → same_bool a b ≡ true → a ≡ b
same_bool→≡ true b h = sym h
same_bool→≡ false true h = cc
same_bool→≡ false false h = refl

type_cases : (t : InterfaceType) → (interface_type_code t ≡ 1) ⊎ (interface_type_code t ≡ 2)
unfolding interface_type_code
type_cases datastream = inl refl
type_cases properties = inr refl

attributes-Agrees :
    (interface : Interface) (old new : Mapping)
    → Answers (check_mapping_attributes interface old new) (Agrees interface old new)
unfolding check_mapping_attributes
attributes-Agrees interface old new = ground (
  arith,
  type_cases interface.type,
  same_bool→≡ old.explicit_timestamp new.explicit_timestamp,
  same_bool→≡ old.allow_unset new.allow_unset,
)

endpoint-Kept :
    (interface : Interface) (old : Mapping) (news : List Mapping)
    → Answers (check_endpoint interface old news) (Kept interface news old)
unfolding check_endpoint
endpoint-Kept interface old [] = inr refl
endpoint-Kept interface old (new ∷ news) = ground (
  arith,
  same_bytes_iff old.endpoint new.endpoint,
  attributes-Agrees interface old new,
  endpoint-Kept interface old news,
)

endpoints-Kept :
    (interface : Interface) (olds : List Mapping)
    → Answers (check_endpoints interface olds) (All (Kept interface interface.mappings) olds)
unfolding check_endpoints
endpoints-Kept interface [] = inl (refl, tt)
endpoints-Kept interface (old ∷ olds) =
    Answers-bind _ _ _ _ (endpoint-Kept interface old interface.mappings)
      (endpoints-Kept interface olds)

pub check_old-Compatible :
    (old interface : Interface) → Answers (check_old old interface) (Compatible old interface)
unfolding check_old check_interface_mappings_update
check_old-Compatible old interface = ground (arith, endpoints-Kept interface old.mappings)
