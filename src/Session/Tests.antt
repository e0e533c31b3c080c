-- ===== src/Session/Tests.antt =====
-- Runs of the session.
use astarte_device_sdk_zephy.Prelude.{
  ℕ, ◌+◌, ◌-◌, ◌≡◌, refl, ◌∙◌, true, false, not, List, [], ◌∷◌, leb, leb→le, le→leb, ◌==◌, arith,
}
use astarte_device_sdk_zephy.Result.{ok, err, device_caching_outdated_introspection}
use astarte_device_sdk_zephy.Bson.Deserializer.Tests.{little_endian}
use astarte_device_sdk_zephy.Bson.Serializer.{int32_max}
use astarte_device_sdk_zephy.Interface.{Interface, server_owned, datastream, individual}
use astarte_device_sdk_zephy.Introspection.Tests.{plain}
use astarte_device_sdk_zephy.Introspection.Text.{text}
use astarte_device_sdk_zephy.Bson.Serializer.{decimal}
use astarte_device_sdk_zephy.Session.{
  Device, ConnectionState, disconnected, end_handshake, with_peers, with_callbacks, handle,
  handle_all,
}
use astarte_device_sdk_zephy.Session.TopicText.{Topics}
use astarte_device_sdk_zephy.Session.Surroundings.{Peers, on_disconnected, on_subscribed}
use astarte_device_sdk_zephy.Session.Publishing.{setup_subscriptions, send_device_capabilities}
use astarte_device_sdk_zephy.Session.Poll.{Setting}
use astarte_device_sdk_zephy.Session.Invariant.{
  Inv, act_connect, act_poll, act_disconnect, act_disconnect_round, Keeps, perform_all,
  perform_all-Keeps,
}
use astarte_device_sdk_zephy.Session.Connected.{MayConnect, internal_poll_connects}
use astarte_device_sdk_zephy.Session.Sent.{
  subscribe_all, server_topics, setup_subscriptions_lem, send_device_capabilities_lem, IsAnnounced,
}
use astarte_device_sdk_zephy.Session.Handshake.{
  IsEnding, end_handshake_run-IsConnected, polled, at_end,
}

-- Parts whose state is the number of packets that wait for their acknowledgement; a poll delivers
-- one of them.
abbrev parts : Peers ℕ ℕ
parts = record {
  mqtt_connect = λ p. (ok tt, p);
  mqtt_disconnect = λ p. (ok tt, 0, on_disconnected ∷ []);
  mqtt_poll = λ p. (ok tt, p - 1, on_subscribed 2 ∷ []);
  mqtt_has_pending_outgoing = λ p. not (p == 0);
  mqtt_subscribe = λ topic qos p. p + 1;
  mqtt_publish = λ topic payload qos p. p + 1;
  introspection_check = λ p text. err device_caching_outdated_introspection;
  introspection_store = λ text p. p;
  synchronization_set = λ b p. p;
  properties_send_purge = λ p. (ok tt, p + 1);
  properties_send_device_owned = λ p. (ok tt, p);
  purge_discard = λ p. p;
  put_event = λ e p. p;
  granted = λ p n. leb n int32_max;
  is_expired = λ p t. true;
  timepoint_calc = λ p n. n;
  random = λ p. 7;
}

abbrev setting : Setting ℕ ℕ (List Interface)
setting = record {
  byte_order = little_endian;
  parts = parts;
  dlist = plain;
  realm = b't' ∷ [];
  mult_coeff_ms = 1000;
  cutoff_coeff_ms = 60000;
}

abbrev of_server : Interface
of_server = record {
  name = b'o' ∷ b'r' ∷ b'g' ∷ [];
  major_version = 0;
  minor_version = 1;
  ownership = server_owned;
  type = datastream;
  aggregation = individual;
  mappings = [];
}

abbrev id : List ℕ
id =
    1 ∷ 2 ∷ 3 ∷ 4 ∷ 5 ∷ 6 ∷ 7 ∷ 8 ∷ 9 ∷ 10 ∷ 11 ∷ 12 ∷ 13 ∷ 14 ∷ 15 ∷ 16 ∷ 17 ∷ 18 ∷ 19 ∷ 20 ∷ 21
    ∷ 22 ∷ []

abbrev some_topics : Topics
some_topics = record {
  base_topic = b'b' ∷ [];
  capabilities_topic = b'c' ∷ [];
  control_topic = b'd' ∷ [];
  control_empty_cache_topic = b'e' ∷ [];
  control_consumer_prop_topic = b'f' ∷ [];
  control_producer_prop_topic = b'g' ∷ [];
}

abbrev device_in : ConnectionState → Device ℕ ℕ (List Interface)
device_in state = record {
  device_id = id;
  topics = some_topics;
  mqtt_session_present_flag = 0;
  introspection = of_server ∷ [];
  connection_state = state;
  synchronization_completed = false;
  subscription_failure = false;
  backoff_ctx = record { mul_coeff = 1000; cutoff_coeff = 60000; prev_delay = 0 };
  reconnection_timepoint = 0;
  connection_event = false;
  peers = 0;
}

disconnected-Inv : Inv (device_in disconnected)
disconnected-Inv = ground arith

perform_all-Keeps_example : Keeps setting (
    perform_all setting
      (act_connect ∷ act_poll ∷ act_disconnect ∷ act_poll ∷ act_disconnect_round false ∷ [])
      (device_in disconnected))
perform_all-Keeps_example =
    perform_all-Keeps setting
      (act_connect ∷ act_poll ∷ act_disconnect ∷ act_poll ∷ act_disconnect_round false ∷ [])
      (device_in disconnected) disconnected-Inv

setup_subscriptions_lem_example :
    setup_subscriptions little_endian parts (b't' ∷ []) some_topics id (of_server ∷ []) 0 ≡ (
      ok tt,
      subscribe_all little_endian parts
          (b't' ∷ [])
          ((b'f' ∷ []) ∷ server_topics (b't' ∷ []) id (of_server ∷ []))
          0,
    )
setup_subscriptions_lem_example =
    setup_subscriptions_lem little_endian parts (b't' ∷ []) some_topics id (of_server ∷ []) 0 refl
      (λ p n some_bytes h. le→leb n int32_max h) (omega arith) (omega arith, tt)

send_device_capabilities_lem_example :
    (q : ℕ) × ((send_device_capabilities little_endian parts (b't' ∷ []) some_topics 0 ≡ ok q)
      × IsAnnounced little_endian parts (b't' ∷ []) some_topics 0 q)
send_device_capabilities_lem_example =
    send_device_capabilities_lem little_endian parts (b't' ∷ []) some_topics 0
      (λ n h. leb→le n int32_max h)

abbrev ending_device : Device ℕ ℕ (List Interface)
ending_device = device_in end_handshake

ending : IsEnding setting ending_device
unfolding text decimal
ending = record {
  at_end = refl;
  not_refused = refl;
  announceable = ground arith;
  short_text = omega arith;
}

internal_poll_connects_example : MayConnect setting ending_device
unfolding with_peers with_callbacks handle_all handle
internal_poll_connects_example =
    let done =
      end_handshake_run-IsConnected setting ending_device (λ p n some_bytes h. le→leb n int32_max h)
        ending refl in
    internal_poll_connects setting ending_device
      (with_callbacks parts (parts.mqtt_poll done.0.peers) done.0)
      (polled setting ending_device done.0 (at_end setting ending_device ending ∙ done.1.0))
      done.1.1.is_connected
