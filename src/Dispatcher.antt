-- ===== src/Dispatcher.antt =====
-- lib/astarte_device_sdk/device/dispatcher.c: the topics of the data that a device publishes, and the
-- handler that an incoming message goes to. The callbacks of the connection are in Session.
pub mod RoundTrip
mod Tests
use astarte_device_sdk_zephy.Prelude.{
  ℕ, zero, suc, ◌+◌, Bool, true, false, ◌||◌, not, Option, none, some, List, [], ◌∷◌, ◌++◌, length,
  get_elem?, take, drop, ltb, leb, ◌==◌, if◌then◌else◌,
}
use astarte_device_sdk_zephy.Result.{
  Outcome, Status, ok, err, fault, stuck, invalid_param, out_of_memory, internal_error,
}
use astarte_device_sdk_zephy.Mapping.{segment, same_bytes}
use astarte_device_sdk_zephy.Interface.{Interface, InterfaceType, properties, datastream}
use astarte_device_sdk_zephy.Introspection.{name_max_size}
use astarte_device_sdk_zephy.Session.TopicText.{Topics, device_id_len, base_topic_len}

-- `strncmp(a, b, strlen(b)) == 0`: `strstr(a, b) == a` says the same.
unfoldable pub starts_with : List ℕ → List ℕ → Bool
starts_with a [] = true
starts_with [] (y ∷ b) = false
starts_with (x ∷ a) (y ∷ b) = if x == y then starts_with a b else false

-- `strstr(a, b) != NULL`
unfoldable pub contains : List ℕ → List ℕ → Bool
contains [] b = starts_with [] b
contains (x ∷ a) b = let further = contains a b in if starts_with (x ∷ a) b then true else further

-- `strchr(text, c)`: from the first such character on.
unfoldable pub strchr : List ℕ → ℕ → Option (List ℕ)
strchr [] c = none
strchr (x ∷ text) c = let further = strchr text c in if x == c then some (x ∷ text) else further

-- The handlers that an incoming message is passed to, with their arguments.
pub data Incoming : Type 0 where
  dropped : Incoming
  purge_properties : List ℕ → Incoming
  property : Interface → List ℕ → List ℕ → Incoming
  datastream_value : Interface → List ℕ → List ℕ → Incoming

-- `on_control_message`
unfoldable pub on_control_message : Topics → List ℕ → List ℕ → Incoming
on_control_message topics topic payload =
    if same_bytes topic topics.control_consumer_prop_topic
    then purge_properties payload
    else dropped

unfoldable pub by_type : InterfaceType → Interface → List ℕ → List ℕ → Incoming
by_type properties interface path payload = property interface path payload
by_type datastream interface path payload = datastream_value interface path payload

-- What the introspection knows of the interface.
unfoldable pub to_interface : Option Interface → List ℕ → List ℕ → Incoming
to_interface none path payload = dropped
to_interface (some interface) path payload = by_type interface.type interface path payload

module _ (realm : List ℕ) (introspection_get : List ℕ → Option Interface) where
  -- From the name of the interface on; `path` begins at the first slash after it.
  unfoldable pub on_data : List ℕ → Option (List ℕ) → List ℕ → Incoming
  on_data name_start none payload = dropped
  on_data name_start (some path) payload =
      if leb name_max_size (length (segment name_start))
      then dropped
      else to_interface (introspection_get (segment name_start)) path payload

  -- `astarte_device_dispatcher_on_incoming`, for a topic without NUL of `topic_len` bytes.
  unfoldable pub on_incoming : Topics → List ℕ → List ℕ → Incoming
  on_incoming topics topic payload =
      let base = base_topic_len realm in
      if not (starts_with topic topics.base_topic)
      then dropped
      else if contains topic topics.control_topic
      then on_control_message topics topic payload
      else if ltb (length topic) (base + 1) || not (starts_with (drop base topic) (b'/' ∷ []))
      then dropped
      else on_data (drop (base + 1) topic) (strchr (drop (base + 1) topic) b'/') payload

module _ (realm : List ℕ) where
  -- What is handed to `astarte_mqtt_publish`: topic, payload and QoS.
  abbrev pub Publication : Type 0
  Publication = List ℕ × List ℕ × ℕ

  -- `"%s/%s%s"`
  abbrev pub data_topic : List ℕ → List ℕ → List ℕ → List ℕ
  data_topic device_id interface_name path =
      realm ++ (b'/' ∷ (device_id ++ (b'/' ∷ (interface_name ++ path))))

  -- `astarte_device_dispatcher_publish_data`; `qos` is the bit pattern of an `int`, and `grant n`
  -- tells whether there is a block of `n` bytes.
  unfoldable pub publish_data :
      (ℕ → Bool) → List ℕ → List ℕ → List ℕ → List ℕ → ℕ → Outcome Publication
  publish_data grant device_id interface_name path payload qos =
      let topic_len = length realm + 2 + device_id_len + length interface_name + length path in
      let topic = data_topic device_id interface_name path in
      if not (starts_with path (b'/' ∷ []))
      then err invalid_param
      else if ltb 2 qos
      then err invalid_param
      else if not (grant (topic_len + 1))
      then err out_of_memory
      else if not (length topic == topic_len)
      then err internal_error
      else ok (topic, payload, qos)
