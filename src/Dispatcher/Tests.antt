-- ===== src/Dispatcher/Tests.antt =====
-- Messages of the dispatcher.
use astarte_device_sdk_zephy.Prelude.{ℕ, ◌≡◌, refl, true, Option, some, List, [], ◌∷◌, arith}
use astarte_device_sdk_zephy.Result.{ok, ◌>>=◌}
use astarte_device_sdk_zephy.Mapping.{same_bytes}
use astarte_device_sdk_zephy.Interface.{Interface, server_owned, datastream, individual}
use astarte_device_sdk_zephy.Session.TopicText.{initialize_mqtt_topics}
use astarte_device_sdk_zephy.Dispatcher.{
  purge_properties, dropped, by_type, on_incoming, data_topic, publish_data, contains, starts_with,
  on_control_message,
}
use astarte_device_sdk_zephy.Dispatcher.RoundTrip.{
  topics_of, publish_data-on_incoming, consumer_topic-on_incoming,
}

abbrev id : List ℕ
id =
    1 ∷ 2 ∷ 3 ∷ 4 ∷ 5 ∷ 6 ∷ 7 ∷ 8 ∷ 9 ∷ 10 ∷ 11 ∷ 12 ∷ 13 ∷ 14 ∷ 15 ∷ 16 ∷ 17 ∷ 18 ∷ 19 ∷ 20 ∷ 21
    ∷ 22 ∷ []

abbrev realm : List ℕ
realm = b't' ∷ []

abbrev named : List ℕ → Interface
named name = record {
  name = name;
  major_version = 0;
  minor_version = 1;
  ownership = server_owned;
  type = datastream;
  aggregation = individual;
  mappings = [];
}

abbrev known : List ℕ → Option Interface
known name = some (named name)

abbrev org : List ℕ
org = b'o' ∷ b'r' ∷ b'g' ∷ []

abbrev path : List ℕ
path = b'/' ∷ b'v' ∷ []

publish_data-on_incoming_example :
    (publish_data realm (λ n. true) id org path (7 ∷ []) 1
      ≡ ok (data_topic realm id org path, 7 ∷ [], 1))
    × ((initialize_mqtt_topics realm id >>= λ topics.
          ok (on_incoming realm known topics (data_topic realm id org path) (7 ∷ [])))
        ≡ ok (by_type datastream (named org) path (7 ∷ [])))
publish_data-on_incoming_example =
    publish_data-on_incoming realm known (λ n. true) id org (b'v' ∷ []) (7 ∷ []) 1 (named org) refl
      (refl, (refl, (refl, tt))) (omega arith) refl (unfold contains in unfold starts_with in refl)
      refl (omega arith)

consumer_topic-on_incoming_example :
    (initialize_mqtt_topics realm id >>= λ topics.
    ok (on_incoming realm known topics topics.control_consumer_prop_topic []))
    ≡ ok (purge_properties [])
consumer_topic-on_incoming_example = consumer_topic-on_incoming realm known id [] refl

-- An interface whose name begins with `control` gets no data.
control_interface_dropped :
    on_incoming realm known
      (topics_of realm id)
      (data_topic realm id (b'c' ∷ b'o' ∷ b'n' ∷ b't' ∷ b'r' ∷ b'o' ∷ b'l' ∷ b's' ∷ []) path)
      []
    ≡ dropped
unfolding on_incoming starts_with contains on_control_message same_bytes
control_interface_dropped = refl
