-- ===== src/Session.antt =====
-- lib/astarte_device_sdk/device/session_manager.c, with the callbacks of device/dispatcher.c that
-- change the connection: the state machine that connects a device to Astarte. The device handle is
-- not NULL here; the storage is there (CONFIG_ASTARTE_DEVICE_SDK_PERMANENT_STORAGE).
pub mod TopicText
pub mod Surroundings
pub mod Publishing
pub mod Poll
pub mod Invariant
pub mod Connected
pub mod Sent
pub mod Handshake
mod Tests
use astarte_device_sdk_zephy.Prelude.{
  ℕ, Bool, true, false, ◌&&◌, not, Option, none, some, List, [], ◌∷◌, ltb, if◌then◌else◌,
}
use astarte_device_sdk_zephy.Result.{
  Outcome, Status, ok, err, fault, stuck, ◌>>=◌, out_of_memory, internal_error,
  mqtt_client_already_connecting, mqtt_client_already_connected, device_not_ready, timeout,
  device_caching_outdated_introspection,
}
use astarte_device_sdk_zephy.Backoff.{Backoff}
use astarte_device_sdk_zephy.Interface.{Interface}
use astarte_device_sdk_zephy.Introspection.{get_string_size, fill_string}
use astarte_device_sdk_zephy.Introspection.Nodes.{Dlist}
use astarte_device_sdk_zephy.Session.TopicText.{Topics}
use astarte_device_sdk_zephy.Session.Surroundings.{
  Peers, Callback, on_connected, on_disconnected, on_subscribed, event_connected,
  event_disconnected,
}
use astarte_device_sdk_zephy.Session.Publishing.{
  zeros, setup_subscriptions, send_introspection, send_device_capabilities, send_emptycache,
}

-- `enum connection_states`
pub data ConnectionState : Type 0 where
  disconnected mqtt_connecting start_handshake end_handshake handshake_error connected :
      ConnectionState

-- The fields of `struct astarte_device` that the session uses; `connection_event` is the bit
-- ASTARTE_DEVICE_CONNECTION_EVENT_BIT of `events`, `peers` the other parts.
pub record Device (P T L : Type 0) : Type 0 where
  pub device_id : List ℕ
  pub topics : Topics
  pub mqtt_session_present_flag : ℕ
  pub introspection : L
  pub connection_state : ConnectionState
  pub synchronization_completed : Bool
  pub subscription_failure : Bool
  pub backoff_ctx : Backoff
  pub reconnection_timepoint : T
  pub connection_event : Bool
  pub peers : P

-- What `connect` returns at once.
unfoldable pub refuses_connect : ConnectionState → Option Status
refuses_connect mqtt_connecting = some (err mqtt_client_already_connecting)
refuses_connect start_handshake = some (err mqtt_client_already_connecting)
refuses_connect end_handshake = some (err mqtt_client_already_connecting)
refuses_connect connected = some (err mqtt_client_already_connected)
refuses_connect disconnected = none
refuses_connect handshake_error = none

unfoldable pub is_disconnected : ConnectionState → Bool
is_disconnected disconnected = true
is_disconnected _ = false

module _ {P T L : Type 0} where
  unfoldable pub enter : ConnectionState → Device P T L → Device P T L
  enter state d = record d { connection_state = state }

  unfoldable pub with_peers : Device P T L → P → Device P T L
  with_peers d p = record d { peers = p }

module _ {P T L : Type 0} (parts : Peers P T) where
  -- `astarte_device_dispatcher_on_connected`, `_on_disconnected` and `_on_subscribed`; the return
  -- codes of a SUBACK are 0, 1 and 2 for the granted QoS, all others are failures.
  unfoldable pub handle : Callback → Device P T L → Device P T L
  handle (on_connected flag) d = record d {
    connection_state = start_handshake;
    mqtt_session_present_flag = flag;
  }
  handle on_disconnected d = record d {
    connection_state = disconnected;
    connection_event = false;
    peers = parts.put_event event_disconnected (parts.purge_discard d.peers);
  }
  handle (on_subscribed code) d = if ltb code 3 then d else record d { subscription_failure = true }

  -- The callbacks of one call, in order.
  unfoldable pub handle_all : List Callback → Device P T L → Device P T L
  handle_all [] d = d
  handle_all (c ∷ cs) d = handle_all cs (handle c d)

  unfoldable pub connecting : Status × P → Device P T L → Status × Device P T L
  connecting (ok _, p) d = (ok tt, enter mqtt_connecting (with_peers d p))
  connecting (r, p) d = (r, with_peers d p)

  unfoldable pub connect_if : Option Status → Device P T L → Status × Device P T L
  connect_if (some r) d = (r, d)
  connect_if none d = connecting (parts.mqtt_connect d.peers) d

  -- `astarte_device_connect`
  unfoldable pub connect : Device P T L → Status × Device P T L
  connect d = connect_if (refuses_connect d.connection_state) d

  unfoldable pub with_callbacks : Status × P × List Callback → Device P T L → Status × Device P T L
  with_callbacks (r, p, calls) d = (r, handle_all calls (with_peers d p))

  -- `astarte_device_force_disconnect`
  unfoldable pub force_disconnect : Device P T L → Status × Device P T L
  force_disconnect d =
      if is_disconnected d.connection_state
      then (err device_not_ready, d)
      else with_callbacks (parts.mqtt_disconnect d.peers) d

  -- The loop of `disconnect`: each round sees the device as the worker thread left it during the
  -- wait before, and whether the time is over.
  unfoldable pub wait_outgoing : List (Device P T L × Bool) → Device P T L → Status × Device P T L
  wait_outgoing [] d = (stuck, d)
  wait_outgoing ((seen, expired) ∷ rounds) d =
      let rest = wait_outgoing rounds seen in
      if parts.mqtt_has_pending_outgoing seen.peers
      then (if expired then (err timeout, seen) else rest)
      else with_callbacks (parts.mqtt_disconnect seen.peers) seen

  -- `astarte_device_disconnect`
  unfoldable pub disconnect : List (Device P T L × Bool) → Device P T L → Status × Device P T L
  disconnect rounds d =
      if is_disconnected d.connection_state
      then (err device_not_ready, d)
      else wait_outgoing rounds d
