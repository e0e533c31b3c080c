-- ===== src/Session/Surroundings.antt =====
-- What device/session_manager.c calls in the other parts of the device, as an interface.
use astarte_device_sdk_zephy.Prelude.{ℕ, Bool, List}
use astarte_device_sdk_zephy.Result.{Status}

-- The callbacks of the MQTT client: with the session present flag of a CONNACK, and with the return
-- code of a SUBACK. Incoming messages do not touch the state of the session.
pub data Callback : Type 0 where
  on_connected : ℕ → Callback
  on_disconnected : Callback
  on_subscribed : ℕ → Callback

-- The events of the session that `k_msgq_put` posts to the user.
pub data Event : Type 0 where
  event_connected event_disconnected : Event

-- `P` is the state of these parts, `T` the timepoints of the kernel. A call whose result is only
-- logged yields no result here. `mqtt_poll` and `mqtt_disconnect` tell which callbacks they made.
pub record Peers (P : Type 0) (T : Type 0) : Type 0 where
  -- mqtt/core.c and mqtt/pubsub.c
  pub mqtt_connect : P → Status × P
  pub mqtt_disconnect : P → Status × P × List Callback
  pub mqtt_poll : P → Status × P × List Callback
  pub mqtt_has_pending_outgoing : P → Bool
  pub mqtt_subscribe : List ℕ → ℕ → P → P
  pub mqtt_publish : List ℕ → List ℕ → ℕ → P → P
  -- storage/introsp.c and storage/sync.c
  pub introspection_check : P → List ℕ → Status
  pub introspection_store : List ℕ → P → P
  pub synchronization_set : Bool → P → P
  -- device/properties.c
  pub properties_send_purge : P → Status × P
  pub properties_send_device_owned : P → Status × P
  -- device/transmission_queue.c
  pub purge_discard : P → P
  -- the kernel: whether a block of so many bytes is granted, `sys_timepoint_expired`,
  -- `sys_timepoint_calc` and `sys_rand32_get`
  pub put_event : Event → P → P
  pub granted : P → ℕ → Bool
  pub is_expired : P → T → Bool
  pub timepoint_calc : P → ℕ → T
  pub random : P → ℕ
