-- ===== src/Introspection.antt =====
-- lib/astarte_device_sdk/introspection.c: the interfaces that a device announces. The pointers to
-- the introspection and to an interface are not NULL here; `validate` refuses a NULL interface.
pub mod Nodes
pub mod Find
pub mod Names
pub mod Reachable
pub mod Updates
pub mod Text
pub mod Filling
pub mod Tests
use Prim.Native.Nat.{max, min}
use astarte_device_sdk_zephy.Prelude.{
  ℕ, zero, suc, ◌+◌, ◌-◌, ◌/◌, Bool, true, false, ◌&&◌, ◌||◌, not, Option, none, some, List, [],
  ◌∷◌, ◌++◌, length, take, drop, ltb, leb, ◌==◌, if◌then◌else◌, add32, sub32,
}
use astarte_device_sdk_zephy.Result.{
  Outcome, Status, ok, err, fault, stuck, ◌>>=◌, out_of_memory, interface_already_present,
  interface_conflicting, interface_not_found,
}
use astarte_device_sdk_zephy.Bson.Serializer.{decimal}
use astarte_device_sdk_zephy.Mapping.{Mapping, type_code, same_bytes}
use astarte_device_sdk_zephy.Interface.{
  Interface, InterfaceType, datastream, properties, ownership_code, interface_type_code,
  aggregation_code, validate,
}
use astarte_device_sdk_zephy.Introspection.Nodes.{Dlist}

-- ASTARTE_INTERFACE_NAME_MAX_SIZE
abbrev pub name_max_size : ℕ
name_max_size = 128

-- `strncmp(a, b, n) == 0` on two C strings.
unfoldable pub strncmp_same : ℕ → List ℕ → List ℕ → Bool
strncmp_same zero a b = true
strncmp_same (suc n) [] [] = true
strncmp_same (suc n) [] (y ∷ ys) = false
strncmp_same (suc n) (x ∷ xs) [] = false
strncmp_same (suc n) (x ∷ xs) (y ∷ ys) = if x == y then strncmp_same n xs ys else false

abbrev pub same_name : List ℕ → List ℕ → Bool
same_name = strncmp_same name_max_size

-- The loop of `find_node_by_name`, from the node at position `i` on.
pub find_from : List Interface → List ℕ → ℕ → Option (ℕ × Interface)
find_from [] name i = none
find_from (x ∷ xs) name i = if same_name name x.name then some (i, x) else find_from xs name (i + 1)

abbrev pub same_bool : Bool → Bool → Bool
same_bool true b = b
same_bool false b = not b

pub check_mapping_attributes : Interface → Mapping → Mapping → Status
check_mapping_attributes interface old new =
    if not (type_code old.type == type_code new.type)
    then err interface_conflicting
    else if interface_type_code interface.type == 1
    then (if not (old.reliability == new.reliability)
          || (not (same_bool old.explicit_timestamp new.explicit_timestamp)
              || (not (old.retention == new.retention) || not (old.expiry == new.expiry)))
        then err interface_conflicting
        else ok tt)
    else (if not (same_bool old.allow_unset new.allow_unset)
        then err interface_conflicting
        else ok tt)

-- The inner loop of `check_interface_mappings_update`: the first mapping with the endpoint of `old`
-- decides.
pub check_endpoint : Interface → Mapping → List Mapping → Status
check_endpoint interface old [] = err interface_conflicting
check_endpoint interface old (new ∷ news) =
    if same_bytes old.endpoint new.endpoint
    then check_mapping_attributes interface old new
    else check_endpoint interface old news

pub check_endpoints : Interface → List Mapping → Status
check_endpoints interface [] = ok tt
check_endpoints interface (old ∷ olds) =
    check_endpoint interface old interface.mappings >>= λ _. check_endpoints interface olds

pub check_interface_mappings_update : Interface → Interface → Status
check_interface_mappings_update old interface = check_endpoints interface old.mappings

-- The checks of `check_interface_update` where the name is known.
pub check_old : Interface → Interface → Status
check_old old interface =
    if not (ownership_code interface.ownership == ownership_code old.ownership)
      || not (interface_type_code interface.type == interface_type_code old.type)
    then err interface_conflicting
    else if not (aggregation_code interface.aggregation == aggregation_code old.aggregation)
    then err interface_conflicting
    else if ltb interface.major_version old.major_version
    then err interface_conflicting
    else if (interface.major_version == old.major_version)
        && leb interface.minor_version old.minor_version
    then err interface_conflicting
    else check_interface_mappings_update old interface

-- What `check_interface_update` does with the node that it found: its error, or the node.
pub check_node : Option (ℕ × Interface) → Interface → Outcome (Option (ℕ × Interface))
check_node none interface = ok none
check_node (some (i, old)) interface = check_old old interface >>= λ _. ok (some (i, old))

-- The list after a call, with what the call returned.
abbrev pub ret {ℓ} : {L : Type ℓ} → Status → L → Status × L
ret r l = (r, l)

pub node_interface : Option (ℕ × Interface) → Option Interface
node_interface none = none
node_interface (some (i, x)) = some x

module _ {L : Type 0} (dl : Dlist L Interface) where
  -- `introspection_init`; `granted` tells whether there is memory for the list.
  pub init : Bool → Outcome L
  init granted = if granted then ok dl.init else err out_of_memory

  pub find_node_by_name : L → List ℕ → Option (ℕ × Interface)
  find_node_by_name l name = find_from (dl.nodes l) name 0

  pub append_introspection_node : Bool → Interface → L → Status × L
  append_introspection_node granted interface l =
      if granted then (ok tt, dl.append l interface) else (err out_of_memory, l)

  -- The rest of `introspection_add`, behind the validation.
  pub add_new : Option (ℕ × Interface) → Bool → Interface → L → Status × L
  add_new (some _) granted interface l = (err interface_already_present, l)
  add_new none granted interface l = append_introspection_node granted interface l

  pub add_valid : Status → Bool → Interface → L → Status × L
  add_valid (ok _) granted interface l =
      add_new (find_node_by_name l interface.name) granted interface l
  add_valid r granted interface l = (r, l)

  pub add : Bool → Interface → L → Status × L
  add granted interface l = add_valid (validate (some interface)) granted interface l

  -- The end of `introspection_update`: the node's interface is replaced, or a node is appended.
  pub update_node : Outcome (Option (ℕ × Interface)) → Bool → Interface → L → Status × L
  update_node (ok (some (i, old))) granted interface l = (ok tt, dl.put l i interface)
  update_node (ok none) granted interface l = append_introspection_node granted interface l
  update_node (err c) granted interface l = (err c, l)
  update_node fault granted interface l = (fault, l)
  update_node stuck granted interface l = (stuck, l)

  pub update_valid : Status → Bool → Interface → L → Status × L
  update_valid (ok _) granted interface l =
      update_node (check_node (find_node_by_name l interface.name) interface) granted interface l
  update_valid r granted interface l = (r, l)

  pub update : Bool → Interface → L → Status × L
  update granted interface l = update_valid (validate (some interface)) granted interface l

  -- `introspection_get`
  pub get : L → List ℕ → Option Interface
  get l name = node_interface (find_node_by_name l name)

  pub remove_node : Option (ℕ × Interface) → L → Status × L
  remove_node none l = (err interface_not_found, l)
  remove_node (some (i, x)) l = (ok tt, dl.remove l i)

  -- `introspection_remove`
  pub remove : List ℕ → L → Status × L
  remove name l = remove_node (find_node_by_name l name) l

  -- The loop of `introspection_free`: each node is unlinked and freed.
  pub free_nodes : List Interface → L → L
  free_nodes [] l = l
  free_nodes (x ∷ xs) l = free_nodes xs (dl.remove l 0)

  -- `introspection_free`; none stands for a list that was never allocated.
  pub free : Option L → Option L
  free none = none
  free (some l) = some (free_nodes (dl.nodes l) l)

-- `get_digit_count`. A number of 32 bits has ten digits at most.
pub digits_from : ℕ → ℕ → ℕ → ℕ
digits_from zero num count = count
digits_from (suc fuel) num count =
    let rest = digits_from fuel (num / 10) (count + 1) in if ltb 9 num then rest else count

pub get_digit_count : ℕ → ℕ
get_digit_count num = digits_from 10 num 1

-- The loop of `introspection_get_string_size`; `strnlen` stops at the bound.
pub size_from : List Interface → ℕ → ℕ
size_from [] len = len
size_from (x ∷ xs) len = size_from xs (
    add32 len (
      min (length x.name) name_max_size
      + get_digit_count x.major_version
      + get_digit_count x.minor_version
      + 3))

-- `"%s:%u:%u;"`
abbrev pub entry_text : Interface → List ℕ
entry_text x =
    x.name
    ++ (b':' ∷ (decimal 10 x.major_version ++ (b':' ∷ (decimal 10 x.minor_version ++ (b';' ∷ [])))))

-- `snprintf(buffer + pos, room, …)` for a text: as much of it as fits, and a terminator.
pub snprintf_at : List ℕ → ℕ → ℕ → List ℕ → Outcome (List ℕ)
snprintf_at buffer pos room text =
    if room == 0
    then ok buffer
    else let written : ℕ = min (length text + 1) room in
      if ltb (length buffer) (pos + written)
      then fault
      else ok (take pos buffer ++ (take (written - 1) text ++ (0 ∷ drop (pos + written) buffer)))

-- The loop of `introspection_fill_string`; `pos` is `result_len`.
pub fill_from : List Interface → List ℕ → ℕ → ℕ → Outcome (List ℕ)
fill_from [] buffer buffer_size pos = ok buffer
fill_from (x ∷ xs) buffer buffer_size pos = do
  buffer' ← snprintf_at buffer pos (sub32 buffer_size pos) (entry_text x)
  fill_from xs buffer' buffer_size (add32 pos (length (entry_text x)))

-- `buffer[buffer_size - 1] = '\0'`
pub terminate : List ℕ → ℕ → Outcome (List ℕ)
terminate buffer buffer_size =
    let at : ℕ = sub32 buffer_size 1 in
    if leb (length buffer) at then fault else ok (take at buffer ++ (0 ∷ drop (at + 1) buffer))

module _ {L : Type 0} (dl : Dlist L Interface) where
  pub get_string_size : L → ℕ
  get_string_size l = max 1 (size_from (dl.nodes l) 0)

  pub fill_string : L → List ℕ → ℕ → Outcome (List ℕ)
  fill_string l buffer buffer_size = do
    filled ← fill_from (dl.nodes l) buffer buffer_size 0
    terminate filled buffer_size
