-- ===== src/Introspection/Tests.antt =====
-- An introspection of two interfaces, and the theorems applied to it.
use astarte_device_sdk_zephy.Prelude.{
  ℕ, ◌≡◌, ◌⊎◌, refl, true, false, none, some, List, [], ◌∷◌, ◌++◌, if◌then◌else◌, arith,
}
use astarte_device_sdk_zephy.Result.{ok, err, interface_not_found}
use astarte_device_sdk_zephy.Bson.Serializer.{decimal}
use astarte_device_sdk_zephy.Mapping.{Mapping, mapping_double}
use astarte_device_sdk_zephy.Interface.{
  Interface, datastream, device_owned, individual, get_mapping_from_path,
}
use astarte_device_sdk_zephy.Interface.Lookup.{FirstMatch, get_mapping_from_path-FirstMatch}
use astarte_device_sdk_zephy.Introspection.Nodes.{Dlist, remove_at, replace_at}
use astarte_device_sdk_zephy.Introspection.{
  same_name, strncmp_same, init, add, update, remove, get, get_string_size, fill_string, size_from,
  get_digit_count, digits_from,
}
use astarte_device_sdk_zephy.Introspection.Find.{IsUnique}
use astarte_device_sdk_zephy.Introspection.Names.{
  Refused, Stored, Admissible, add_lem, update_lem, remove_lem,
}
use astarte_device_sdk_zephy.Introspection.Reachable.{
  add_call, update_call, remove_call, Unique, run, names_stay-Unique,
}
use astarte_device_sdk_zephy.Introspection.Text.{text}
use astarte_device_sdk_zephy.Introspection.Filling.{announced, fill_string_exact}

-- Nodes kept in a list obey the laws.
abbrev pub plain : Dlist (List Interface) Interface
plain = record {
  init = [];
  append = λ l x. l ++ (x ∷ []);
  remove = λ l i. remove_at l i;
  put = λ l i x. replace_at l i x;
  nodes = λ l. l;
  nodes-init = refl;
  nodes-append = λ l x. refl;
  nodes-remove = λ l i. refl;
  nodes-put = λ l i x. refl;
}

abbrev reading : Mapping
reading = record {
  endpoint = b'/' ∷ b'a' ∷ [];
  type = mapping_double;
  reliability = 0;
  explicit_timestamp = false;
  required = false;
  retention = 0;
  expiry = 0;
  allow_unset = false;
}

-- `a`, version 0.1, and its version 0.12
abbrev first : Interface
first = record {
  name = b'a' ∷ [];
  major_version = 0;
  minor_version = 1;
  ownership = device_owned;
  type = datastream;
  aggregation = individual;
  mappings = reading ∷ [];
}

abbrev later : Interface
later = record first { minor_version = 12 }

abbrev other : Interface
other = record first { name = b'b' ∷ []; major_version = 3 }

abbrev two : List Interface
two = first ∷ other ∷ []

two-IsUnique : IsUnique two
unfolding strncmp_same
two-IsUnique = ((refl, tt), (tt, tt))

two-announced :
    announced two ≡ b'a' ∷ b':' ∷ b'0' ∷ b':' ∷ b'1' ∷ b';' ∷ b'b' ∷ b':' ∷ b'3' ∷ b':' ∷ b'1' ∷ []
unfolding text decimal
two-announced = refl

get_mapping_from_path-FirstMatch_example :
    FirstMatch (reading ∷ []) 0 (b'/' ∷ b'a' ∷ []) (get_mapping_from_path first (b'/' ∷ b'a' ∷ []))
get_mapping_from_path-FirstMatch_example = get_mapping_from_path-FirstMatch first (b'/' ∷ b'a' ∷ [])

add_lem_example :
    (get plain (first ∷ []) other.name ≡ none)
      × Stored plain (first ∷ []) other other.name (add plain true other (first ∷ []))
    ⊎ Refused plain (first ∷ []) (add plain true other (first ∷ []))
add_lem_example = add_lem plain true other (first ∷ []) other.name

update_lem_example :
    Admissible plain (get plain two later.name) later
      × Stored plain two later other.name (update plain true later two)
    ⊎ Refused plain two (update plain true later two)
update_lem_example = update_lem plain true later two other.name two-IsUnique

remove_lem_example :
    ((x : Interface) × (get plain two first.name ≡ some x))
      × ((remove plain first.name two).0 ≡ ok tt)
      × (get plain ((remove plain first.name two).1) other.name
          ≡ (if same_name other.name first.name then none else get plain two other.name))
    ⊎ (get plain two first.name ≡ none)
      × ((remove plain first.name two).0 ≡ err interface_not_found)
      × ((remove plain first.name two).1 ≡ two)
remove_lem_example = remove_lem plain first.name two other.name two-IsUnique

names_stay-Unique_example : Unique plain (
    run plain
      (add_call true first
        ∷ add_call true other
        ∷ update_call true later
        ∷ remove_call other.name
        ∷ [])
      [])
unfolding init
names_stay-Unique_example =
    names_stay-Unique plain true
      (add_call true first
        ∷ add_call true other
        ∷ update_call true later
        ∷ remove_call other.name
        ∷ [])
      refl

abbrev blank : List ℕ
blank = 0 ∷ 0 ∷ 0 ∷ 0 ∷ 0 ∷ 0 ∷ 0 ∷ 0 ∷ 0 ∷ 0 ∷ 0 ∷ 0 ∷ []

fill_string_exact_example :
    fill_string plain two blank (get_string_size plain two) ≡ ok (announced two ++ (0 ∷ []))
unfolding text decimal get_string_size size_from get_digit_count digits_from
fill_string_exact_example = fill_string_exact plain two blank (omega arith) (omega arith) refl
