-- ===== src/Session/Poll.antt =====
-- lib/astarte_device_sdk/device/session_manager.c: `astarte_device_internal_poll` and the handlers
-- of the states.
use astarte_device_sdk_zephy.Prelude.{
  ℕ, Bool, true, false, ◌&&◌, not, Option, none, some, List, ◌==◌, if◌then◌else◌,
}
use astarte_device_sdk_zephy.Result.{
  Outcome, Status, ok, err, ◌>>=◌, device_caching_outdated_introspection,
}
use astarte_device_sdk_zephy.Backoff.{Backoff, init, get_next_delay}
use astarte_device_sdk_zephy.Bson.ByteOrder.{ByteOrder}
use astarte_device_sdk_zephy.Interface.{Interface}
use astarte_device_sdk_zephy.Introspection.{get_string_size, fill_string}
use astarte_device_sdk_zephy.Introspection.Nodes.{Dlist}
use astarte_device_sdk_zephy.Session.{
  Device, ConnectionState, disconnected, mqtt_connecting, start_handshake, end_handshake,
  handshake_error, connected, enter, with_peers, with_callbacks,
}
use astarte_device_sdk_zephy.Session.Surroundings.{Peers, event_connected}
use astarte_device_sdk_zephy.Session.Publishing.{
  zeros, setup_subscriptions, send_introspection, send_device_capabilities, send_emptycache,
}

-- What the handlers are given: the byte order, the other parts, the list of the introspection, and
-- of the configuration the realm and the coefficients of the backoff.
pub record Setting (P T L : Type 0) : Type 0 where
  pub byte_order : ByteOrder
  pub parts : Peers P T
  pub dlist : Dlist L Interface
  pub realm : List ℕ
  pub mult_coeff_ms : ℕ
  pub cutoff_coeff_ms : ℕ

unfoldable pub is_ok : Status → Bool
is_ok (ok _) = true
is_ok _ = false

unfoldable pub is_outdated : Status → Bool
is_outdated (err device_caching_outdated_introspection) = true
is_outdated _ = false

-- The context that `backoff_init` or `backoff_get_next_delay` leaves.
unfoldable pub context_or : Backoff → Option Backoff → Backoff
context_or old none = old
context_or old (some new) = new

module _ {P T L : Type 0} (env : Setting P T L) where
  -- The introspection string in a block of its own, NULL where no block is granted.
  unfoldable pub introspection_string : Device P T L → Outcome (Option (List ℕ))
  introspection_string d =
      let size = get_string_size env.dlist d.introspection in
      if not (env.parts.granted d.peers size)
      then ok none
      else (fill_string env.dlist d.introspection (zeros size) size >>= λ text. ok (some text))

  unfoldable pub after_device_owned : Status × P → Device P T L → Outcome (Device P T L)
  after_device_owned (r, p) d =
      ok (enter (if is_ok r then end_handshake else handshake_error) (with_peers d p))

  unfoldable pub after_purge : Status × P → Device P T L → Outcome (Device P T L)
  after_purge (r, p) d =
      if is_ok r
      then after_device_owned (env.parts.properties_send_device_owned p) d
      else ok (enter handshake_error (with_peers d p))

  unfoldable pub after_subscriptions : List ℕ → Status × P → Device P T L → Outcome (Device P T L)
  after_subscriptions intr_str (r, p) d =
      if is_ok r
      then (send_device_capabilities env.byte_order env.parts env.realm d.topics
            (send_introspection env.byte_order env.parts env.realm d.topics intr_str p)
          >>= λ q.
              after_purge
                (env.parts.properties_send_purge
                  (send_emptycache env.byte_order env.parts env.realm d.topics q))
                d)
      else ok (enter handshake_error (with_peers d p))

  unfoldable pub synchronize : List ℕ → Device P T L → Outcome (Device P T L)
  synchronize intr_str d =
      after_subscriptions intr_str
        (setup_subscriptions env.byte_order env.parts env.realm d.topics d.device_id
          (env.dlist.nodes d.introspection) d.peers)
        d

  -- Nothing is sent again in a session that goes on with the introspection that it knows.
  unfoldable pub is_synchronized : List ℕ → Device P T L → Bool
  is_synchronized intr_str d =
      (not (d.mqtt_session_present_flag == 0) && d.synchronization_completed)
      && is_ok (env.parts.introspection_check d.peers intr_str)

  unfoldable pub start_with : Option (List ℕ) → Device P T L → Outcome (Device P T L)
  start_with none d = ok (enter handshake_error d)
  start_with (some intr_str) d =
      if is_synchronized intr_str d then ok (enter end_handshake d) else synchronize intr_str d

  -- `state_machine_start_handshake_run`
  unfoldable pub start_handshake_run : Device P T L → Outcome (Device P T L)
  start_handshake_run device =
      let d : Device P T L = record device { subscription_failure = false } in
      if get_string_size env.dlist d.introspection == 0
      then ok (enter handshake_error d)
      else (introspection_string d >>= λ intr_str. start_with intr_str d)

  -- The update of the stored introspection.
  unfoldable pub update_introspection : List ℕ → P → P
  update_introspection intr_str p =
      if is_outdated (env.parts.introspection_check p intr_str)
      then env.parts.introspection_store intr_str p
      else p

  unfoldable pub end_with : Option (List ℕ) → Device P T L → Device P T L
  end_with none d = enter handshake_error d
  end_with (some intr_str) d =
      with_peers d (env.parts.put_event event_connected (update_introspection intr_str d.peers))

  unfoldable pub completed : Device P T L → Device P T L
  completed d = record d {
    synchronization_completed = true;
    connection_state = connected;
    connection_event = true;
    peers = env.parts.synchronization_set true d.peers;
  }

  -- What follows when nothing is pending any more.
  unfoldable pub complete : Device P T L → Outcome (Device P T L)
  complete d =
      introspection_string (completed d) >>= λ intr_str. ok (end_with intr_str (completed d))

  -- `state_machine_end_handshake_run`
  unfoldable pub end_handshake_run : Device P T L → Outcome (Device P T L)
  end_handshake_run d =
      if d.subscription_failure
      then ok (enter handshake_error d)
      else if not (env.parts.mqtt_has_pending_outgoing d.peers)
      then complete d
      else ok d

  unfoldable pub forget_synchronization : Device P T L → Device P T L
  forget_synchronization d =
      if d.synchronization_completed
      then record d {
        synchronization_completed = false;
        peers = env.parts.synchronization_set false d.peers;
      }
      else d

  unfoldable pub retry_handshake : ℕ × Option Backoff → Device P T L → Device P T L
  retry_handshake (delay, context) d = record d {
    connection_state = start_handshake;
    backoff_ctx = context_or d.backoff_ctx context;
    reconnection_timepoint = env.parts.timepoint_calc d.peers delay;
  }

  -- `state_machine_handshake_error_run`
  unfoldable pub handshake_error_run : Device P T L → Outcome (Device P T L)
  handshake_error_run device =
      let d = forget_synchronization device in
      if env.parts.is_expired d.peers d.reconnection_timepoint
      then ok (retry_handshake (get_next_delay (env.parts.random d.peers) (some d.backoff_ctx)) d)
      else ok d

  -- `state_machine_connected_run`
  unfoldable pub connected_run : Device P T L → Outcome (Device P T L)
  connected_run d = ok (record d {
    backoff_ctx =
        context_or d.backoff_ctx
          (init (some d.backoff_ctx) env.mult_coeff_ms env.cutoff_coeff_ms).1;
  })

  unfoldable pub run_state : ConnectionState → Device P T L → Outcome (Device P T L)
  run_state disconnected d = ok d
  run_state mqtt_connecting d = ok d
  run_state start_handshake d = start_handshake_run d
  run_state end_handshake d = end_handshake_run d
  run_state handshake_error d = handshake_error_run d
  run_state connected d = connected_run d

  -- `astarte_device_internal_poll`: the handler of the state, then the MQTT client with its callbacks.
  unfoldable pub internal_poll : Device P T L → Outcome (Status × Device P T L)
  internal_poll device = do
    d ← run_state device.connection_state device
    ok (with_callbacks env.parts (env.parts.mqtt_poll d.peers) d)
