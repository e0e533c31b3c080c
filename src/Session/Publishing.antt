-- ===== src/Session/Publishing.antt =====
-- lib/astarte_device_sdk/device/session_manager.c: what the handshake sends to Astarte.
use astarte_device_sdk_zephy.Prelude.{
  ℕ, zero, suc, ◌+◌, Bool, true, false, not, Option, none, some, List, [], ◌∷◌, ◌++◌, length, ◌==◌,
  if◌then◌else◌,
}
use astarte_device_sdk_zephy.Result.{Outcome, Status, ok, err, fault, out_of_memory, internal_error}
use astarte_device_sdk_zephy.Bson.ByteOrder.{ByteOrder}
use astarte_device_sdk_zephy.Bson.Serializer.{
  Written, done, failed, ◌>>=◌, init, append_string, append_end_of_document, get_serialized,
}
use astarte_device_sdk_zephy.Interface.{Interface, Ownership, device_owned, server_owned}
use astarte_device_sdk_zephy.Session.TopicText.{Topics, device_id_len}
use astarte_device_sdk_zephy.Session.Surroundings.{Peers}

-- `astarte_calloc`
unfoldable pub zeros : ℕ → List ℕ
zeros zero = []
zeros (suc n) = 0 ∷ zeros n

-- A C string in a buffer.
unfoldable pub c_string : List ℕ → List ℕ
c_string [] = []
c_string (c ∷ cs) = if c == 0 then [] else c ∷ c_string cs

abbrev pub compression_key : List ℕ
compression_key =
    b'p' ∷ b'u' ∷ b'r' ∷ b'g' ∷ b'e' ∷ b'_' ∷ b'p' ∷ b'r' ∷ b'o' ∷ b'p' ∷ b'e' ∷ b'r' ∷ b't' ∷ b'i'
    ∷ b'e' ∷ b's' ∷ b'_' ∷ b'c' ∷ b'o' ∷ b'm' ∷ b'p' ∷ b'r' ∷ b'e' ∷ b's' ∷ b's' ∷ b'i' ∷ b'o'
    ∷ b'n' ∷ b'_' ∷ b'f' ∷ b'o' ∷ b'r' ∷ b'm' ∷ b'a' ∷ b't' ∷ []

abbrev pub compression_value : List ℕ
compression_value = b'p' ∷ b'l' ∷ b'a' ∷ b'i' ∷ b'n' ∷ b't' ∷ b'e' ∷ b'x' ∷ b't' ∷ []

-- The serialization of the capabilities.
unfoldable pub capabilities : ByteOrder → (ℕ → Bool) → Written
capabilities bo grant = do
  empty ← init grant
  named ← append_string grant bo compression_value compression_key empty
  append_end_of_document grant bo named

unfoldable pub is_server_owned : Ownership → Bool
is_server_owned server_owned = true
is_server_owned device_owned = false

-- `"%s/%s/#"`
abbrev pub interface_topic : List ℕ → List ℕ → List ℕ → List ℕ
interface_topic realm device_id name =
    realm ++ (b'/' ∷ (device_id ++ (b'/' ∷ (name ++ (b'/' ∷ b'#' ∷ [])))))

module _ {P T : Type 0} (bo : ByteOrder) (parts : Peers P T) (realm : List ℕ) where
  -- The loop of `setup_subscriptions`.
  unfoldable pub subscribe_nodes : List ℕ → List Interface → P → Status × P
  subscribe_nodes device_id [] p = (ok tt, p)
  subscribe_nodes device_id (i ∷ is) p =
      let topic_len = length realm + 4 + device_id_len + length i.name in
      let topic = interface_topic realm device_id i.name in
      let subscribed = subscribe_nodes device_id is (parts.mqtt_subscribe topic 2 p) in
      let skipped = subscribe_nodes device_id is p in
      if is_server_owned i.ownership
      then (if not (parts.granted p (topic_len + 1))
          then (err out_of_memory, p)
          else if not (length topic == topic_len)
          then (err internal_error, p)
          else subscribed)
      else skipped

  -- `setup_subscriptions`, on the nodes of the introspection.
  unfoldable pub setup_subscriptions : Topics → List ℕ → List Interface → P → Status × P
  setup_subscriptions topics device_id nodes p =
      subscribe_nodes device_id nodes (parts.mqtt_subscribe topics.control_consumer_prop_topic 2 p)

  -- `send_introspection`, of the string in the buffer.
  unfoldable pub send_introspection : Topics → List ℕ → P → P
  send_introspection topics intr_str p =
      parts.mqtt_publish topics.base_topic (c_string intr_str) 2 p

  -- The document of `send_device_capabilities`; without one nothing is sent.
  unfoldable pub publish_document : Topics → Option (List ℕ × ℕ) → P → P
  publish_document topics none p = p
  publish_document topics (some (document, size)) p =
      parts.mqtt_publish topics.capabilities_topic document 2 p

  unfoldable pub publish_written : Topics → Written → P → Outcome P
  publish_written topics (done s) p = ok (publish_document topics (get_serialized s) p)
  publish_written topics (failed c s) p = ok p
  publish_written topics Written.fault p = fault

  -- `send_device_capabilities`
  unfoldable pub send_device_capabilities : Topics → P → Outcome P
  send_device_capabilities topics p = publish_written topics (capabilities bo (parts.granted p)) p

  -- `send_emptycache`
  unfoldable pub send_emptycache : Topics → P → P
  send_emptycache topics p = parts.mqtt_publish topics.control_empty_cache_topic (b'1' ∷ []) 2 p
