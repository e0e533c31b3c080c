-- ===== src/Session/TopicText.antt =====
-- The MQTT topics of a device: include/device/core.h and `initialize_mqtt_topics` of device/core.c,
-- both of lib/astarte_device_sdk.
use astarte_device_sdk_zephy.Prelude.{ℕ, ◌+◌, List, [], ◌∷◌, ◌++◌, length, ◌==◌, if◌then◌else◌}
use astarte_device_sdk_zephy.Result.{Outcome, ok, err, ◌>>=◌, internal_error}

-- ASTARTE_DEVICE_ID_LEN: UUID_BASE64URL_LEN of Zephyr is 23, the terminator included.
abbrev pub device_id_len : ℕ
device_id_len = 22

abbrev pub capabilities_suffix : List ℕ
capabilities_suffix =
    b'/' ∷ b'c' ∷ b'a' ∷ b'p' ∷ b'a' ∷ b'b' ∷ b'i' ∷ b'l' ∷ b'i' ∷ b't' ∷ b'i' ∷ b'e' ∷ b's' ∷ []

abbrev pub control_suffix : List ℕ
control_suffix = b'/' ∷ b'c' ∷ b'o' ∷ b'n' ∷ b't' ∷ b'r' ∷ b'o' ∷ b'l' ∷ []

abbrev pub empty_cache_suffix : List ℕ
empty_cache_suffix =
    control_suffix
    ++ (b'/' ∷ b'e' ∷ b'm' ∷ b'p' ∷ b't' ∷ b'y' ∷ b'C' ∷ b'a' ∷ b'c' ∷ b'h' ∷ b'e' ∷ [])

abbrev pub consumer_suffix : List ℕ
consumer_suffix =
    control_suffix
    ++ (b'/' ∷ b'c' ∷ b'o' ∷ b'n' ∷ b's' ∷ b'u' ∷ b'm' ∷ b'e' ∷ b'r' ∷ b'/' ∷ b'p' ∷ b'r' ∷ b'o'
        ∷ b'p' ∷ b'e' ∷ b'r' ∷ b't' ∷ b'i' ∷ b'e' ∷ b's' ∷ [])

abbrev pub producer_suffix : List ℕ
producer_suffix =
    control_suffix
    ++ (b'/' ∷ b'p' ∷ b'r' ∷ b'o' ∷ b'd' ∷ b'u' ∷ b'c' ∷ b'e' ∷ b'r' ∷ b'/' ∷ b'p' ∷ b'r' ∷ b'o'
        ∷ b'p' ∷ b'e' ∷ b'r' ∷ b't' ∷ b'i' ∷ b'e' ∷ b's' ∷ [])

-- The topics of `struct astarte_device`.
pub record Topics : Type 0 where
  pub base_topic : List ℕ
  pub capabilities_topic : List ℕ
  pub control_topic : List ℕ
  pub control_empty_cache_topic : List ℕ
  pub control_consumer_prop_topic : List ℕ
  pub control_producer_prop_topic : List ℕ

-- `realm` is CONFIG_ASTARTE_DEVICE_SDK_REALM_NAME.
module _ (realm : List ℕ) where
  -- MQTT_TOPIC_PREFIX
  abbrev pub topic_prefix : List ℕ
  topic_prefix = realm ++ (b'/' ∷ [])

  -- MQTT_BASE_TOPIC_LEN
  abbrev pub base_topic_len : ℕ
  base_topic_len = length topic_prefix + device_id_len

  -- One `snprintf` with the check of its result.
  unfoldable pub topic_of : List ℕ → List ℕ → Outcome (List ℕ)
  topic_of device_id suffix =
      if length (topic_prefix ++ (device_id ++ suffix)) == base_topic_len + length suffix
      then ok (topic_prefix ++ (device_id ++ suffix))
      else err internal_error

  -- `initialize_mqtt_topics`
  unfoldable pub initialize_mqtt_topics : List ℕ → Outcome Topics
  initialize_mqtt_topics device_id = do
    base ← topic_of device_id []
    capabilities ← topic_of device_id capabilities_suffix
    control ← topic_of device_id control_suffix
    empty_cache ← topic_of device_id empty_cache_suffix
    consumer ← topic_of device_id consumer_suffix
    producer ← topic_of device_id producer_suffix
    ok (record {
      base_topic = base;
      capabilities_topic = capabilities;
      control_topic = control;
      control_empty_cache_topic = empty_cache;
      control_consumer_prop_topic = consumer;
      control_producer_prop_topic = producer;
    })
