-- ===== src/Session/Invariant.antt =====
-- What holds of the session between two calls.
use astarte_device_sdk_zephy.Prelude.{
  ℕ, ◌≡◌, refl, inl, inr, Bool, true, false, not, Option, none, some, List, [], ◌∷◌, if◌then◌else◌,
  arith, Bool-cases, ◌==◌,
}
use astarte_device_sdk_zephy.Result.{Outcome, Status, ok, err, fault, stuck, ◌>>=◌}
use astarte_device_sdk_zephy.Session.{
  Device, ConnectionState, disconnected, mqtt_connecting, start_handshake, end_handshake,
  handshake_error, connected, enter, with_peers, with_callbacks, handle, handle_all, connect,
  connect_if, connecting, refuses_connect, force_disconnect, is_disconnected, disconnect,
  wait_outgoing,
}
use astarte_device_sdk_zephy.Session.Surroundings.{
  Peers, Callback, on_connected, on_disconnected, on_subscribed,
}
use astarte_device_sdk_zephy.Session.Poll.{
  Setting, internal_poll, run_state, start_handshake_run, start_with, synchronize,
  after_subscriptions, after_purge, after_device_owned, end_handshake_run, completed, complete,
  end_with, handshake_error_run, forget_synchronization, retry_handshake, connected_run,
  introspection_string, is_ok, is_synchronized,
}
use astarte_device_sdk_zephy.Backoff.{Backoff}
use astarte_device_sdk_zephy.Introspection.{get_string_size}

-- A call of the user, or a round of the worker thread; a call of `disconnect` is its first test,
-- and then the rounds of its loop, which tell whether the time is over.
pub data Action : Type 0 where
  act_connect act_disconnect act_force_disconnect act_poll : Action
  act_disconnect_round : Bool → Action

module _ {P T L : Type 0} where
  -- A connected device is synchronized and has posted the connection event, and a disconnected one
  -- has withdrawn it.
  pub record Inv (d : Device P T L) : Type 0 where
    pub connected_synchronized : d.connection_state ≡ connected → d.synchronization_completed ≡ true
    pub connected_event : d.connection_state ≡ connected → d.connection_event ≡ true
    pub disconnected_event : d.connection_state ≡ disconnected → d.connection_event ≡ false

module _ {P T L : Type 0} (parts : Peers P T) where
  with_peers-Inv : (d : Device P T L) (p : P) → Inv d → Inv (with_peers d p)
  unfolding with_peers
  with_peers-Inv d p h = record {
    connected_synchronized = h.connected_synchronized;
    connected_event = h.connected_event;
    disconnected_event = h.disconnected_event;
  }

  handle-Inv : (c : Callback) (d : Device P T L) → Inv d → Inv (handle parts c d)
  unfolding handle
  handle-Inv (on_connected flag) d h = ground arith
  handle-Inv on_disconnected d h = ground arith
  handle-Inv (on_subscribed code) d h = ground arith

  pub handle_all-Inv : (cs : List Callback) (d : Device P T L) → Inv d → Inv (handle_all parts cs d)
  unfolding handle_all
  handle_all-Inv [] d h = h
  handle_all-Inv (c ∷ cs) d h = handle_all-Inv cs (handle parts c d) (handle-Inv c d h)

  pub with_callbacks-Inv :
      (r : Status × P × List Callback) (d : Device P T L) → Inv d → Inv (with_callbacks parts r d).1
  unfolding with_callbacks
  with_callbacks-Inv (r, p, cs) d h = handle_all-Inv cs (with_peers d p) (with_peers-Inv d p h)

  connecting-Inv : (p : Status × P) (d : Device P T L) → Inv d → Inv (connecting parts p d).1
  unfolding connecting enter with_peers
  connecting-Inv (ok _, p) d h = ground arith
  connecting-Inv (err c, p) d h = with_peers-Inv d p h
  connecting-Inv (fault, p) d h = with_peers-Inv d p h
  connecting-Inv (stuck, p) d h = with_peers-Inv d p h

  connect_if-Inv : (o : Option Status) (d : Device P T L) → Inv d → Inv (connect_if parts o d).1
  unfolding connect_if
  connect_if-Inv none d h = connecting-Inv (parts.mqtt_connect d.peers) d h
  connect_if-Inv (some r) d h = h

  pub connect-Inv : (d : Device P T L) → Inv d → Inv (connect parts d).1
  unfolding connect
  connect-Inv d h = connect_if-Inv (refuses_connect d.connection_state) d h

  pub force_disconnect-Inv : (d : Device P T L) → Inv d → Inv (force_disconnect parts d).1
  unfolding force_disconnect
  force_disconnect-Inv d h = elim (Bool-cases (is_disconnected d.connection_state)) [
    | inl y ↦ rw y h
    | inr n ↦ rw n (with_callbacks-Inv (parts.mqtt_disconnect d.peers) d h)
  ]

  -- A round that sees the device `d`.
  pub round-Inv :
      (expired : Bool) (d : Device P T L)
      → Inv d
      → Inv (wait_outgoing parts ((d, expired) ∷ []) d).1
  unfolding wait_outgoing
  round-Inv expired d h = elim (Bool-cases (parts.mqtt_has_pending_outgoing d.peers)) [
    | inl y ↦ rw y (elim (Bool-cases expired) [ inl e ↦ rw e h | inr e ↦ rw e h ])
    | inr n ↦ rw n (with_callbacks-Inv (parts.mqtt_disconnect d.peers) d h)
  ]

  -- The first test of `disconnect` leaves the device.
  pub disconnect-Inv : (d : Device P T L) → Inv d → Inv (disconnect parts [] d).1
  unfolding disconnect wait_outgoing
  disconnect-Inv d h = elim (Bool-cases (is_disconnected d.connection_state)) [
    | inl y ↦ rw y h
    | inr n ↦ rw n h
  ]

-- No handler but the end of the handshake enters the connected state.
module _ {P T L : Type 0} (env : Setting P T L) where
  -- The device that the call leaves, where it leaves one, satisfies `Q`.
  abbrev pub Leaves : (Device P T L → Type 0) → Outcome (Device P T L) → Type 0
  Leaves Q (ok d) = Q d
  Leaves Q (err c) = Unit
  Leaves Q fault = Unit
  Leaves Q stuck = Unit

  abbrev pub Keeps : Outcome (Device P T L) → Type 0
  Keeps = Leaves Inv

  Leaves-bind :
      {A : Type 0} (Q : Device P T L → Type 0) (m : Outcome A) (f : A → Outcome (Device P T L))
      → ((a : A) → Leaves Q (f a))
      → Leaves Q (m >>= f)
  Leaves-bind Q (ok a) f k = k a
  Leaves-bind Q (err c) f k = tt
  Leaves-bind Q fault f k = tt
  Leaves-bind Q stuck f k = tt

  enter_error-Inv : (d : Device P T L) → Inv (enter handshake_error d)
  unfolding enter
  enter_error-Inv d = ground arith

  enter_end-Inv : (d : Device P T L) → Inv (enter end_handshake d)
  unfolding enter
  enter_end-Inv d = ground arith

  -- The start of the handshake leaves its end or an error.
  module _ (Q : Device P T L → Type 0) (error : (d : Device P T L) → Q (enter handshake_error d))
      (ended : (d : Device P T L) → Q (enter end_handshake d)) where
    after_purge-Leaves : (p : Status × P) (d : Device P T L) → Leaves Q (after_purge env p d)
    unfolding after_purge
    after_purge-Leaves (r, p) d = elim (Bool-cases (is_ok r)) [
      | inl y ↦ rw y (owned (env.parts.properties_send_device_owned p))
      | inr n ↦ rw n (error (with_peers d p))
    ]
      where
        owned : (q : Status × P) → Leaves Q (after_device_owned env q d)
        owned (r, q) =
            unfold after_device_owned in
            elim (Bool-cases (is_ok r)) [
              | inl y ↦ rw y (ended (with_peers d q))
              | inr n ↦ rw n (error (with_peers d q))
            ]

    after_subscriptions-Leaves :
        (intr_str : List ℕ) (p : Status × P) (d : Device P T L)
        → Leaves Q (after_subscriptions env intr_str p d)
    unfolding after_subscriptions
    after_subscriptions-Leaves intr_str (r, p) d = elim (Bool-cases (is_ok r)) [
      | inl y ↦ rw y (Leaves-bind Q _ _ (λ q. after_purge-Leaves _ d))
      | inr n ↦ rw n (error (with_peers d p))
    ]

    start_with-Leaves : (o : Option (List ℕ)) (d : Device P T L) → Leaves Q (start_with env o d)
    unfolding start_with synchronize
    start_with-Leaves none d = error d
    start_with-Leaves (some intr_str) d = elim (Bool-cases (is_synchronized env intr_str d)) [
      | inl y ↦ rw y (ended d)
      | inr n ↦ rw n (after_subscriptions-Leaves intr_str _ d)
    ]

    pub start_handshake_run-Leaves : (d : Device P T L) → Leaves Q (start_handshake_run env d)
    unfolding start_handshake_run
    start_handshake_run-Leaves d =
        elim (Bool-cases (get_string_size env.dlist d.introspection == 0)) [
          | inl y ↦ rw y (error _)
          | inr n ↦ rw n (Leaves-bind Q _ _ (λ o. start_with-Leaves o _))
        ]

  end_with-Inv :
      (o : Option (List ℕ)) (d : Device P T L)
      → d.synchronization_completed ≡ true
      → d.connection_event ≡ true
      → d.connection_state ≡ connected
      → Inv (end_with env o d)
  unfolding end_with with_peers
  end_with-Inv none d s e c = enter_error-Inv d
  end_with-Inv (some intr_str) d s e c = ground arith

  complete-Keeps : (d : Device P T L) → Keeps (complete env d)
  unfolding complete
  complete-Keeps d = Leaves-bind Inv (introspection_string env (completed env d)) _ (λ o.
      end_with-Inv o (completed env d) (unfold completed in refl) (unfold completed in refl)
        (unfold completed in refl))

  end_handshake_run-Keeps : (d : Device P T L) → Inv d → Keeps (end_handshake_run env d)
  unfolding end_handshake_run
  end_handshake_run-Keeps d h =
      failing d.subscription_failure (env.parts.mqtt_has_pending_outgoing d.peers)
    where
      failing :
          (f p : Bool)
          → Keeps
              (if f then ok (enter handshake_error d) else if not p then complete env d else ok d)
      failing true p = enter_error-Inv d
      failing false true = h
      failing false false = complete-Keeps d

  forget-Inv :
      (d : Device P T L) → d.connection_state ≡ handshake_error → Inv (forget_synchronization env d)
  unfolding forget_synchronization
  forget-Inv d e = ground arith

  retry-Inv : (r : ℕ × Option Backoff) (d : Device P T L) → Inv (retry_handshake env r d)
  unfolding retry_handshake
  retry-Inv (delay, context) d = ground arith

  handshake_error_run-Keeps :
      (d : Device P T L) → d.connection_state ≡ handshake_error → Keeps (handshake_error_run env d)
  unfolding handshake_error_run
  handshake_error_run-Keeps d e =
      let f = forget_synchronization env d in
      elim (Bool-cases (env.parts.is_expired f.peers f.reconnection_timepoint)) [
        | inl y ↦ rw y (retry-Inv _ f)
        | inr n ↦ rw n (forget-Inv d e)
      ]

  connected_run-Keeps : (d : Device P T L) → Inv d → Keeps (connected_run env d)
  unfolding connected_run
  connected_run-Keeps d h = record {
    connected_synchronized = h.connected_synchronized;
    connected_event = h.connected_event;
    disconnected_event = h.disconnected_event;
  }

  run_state-Keeps :
      (s : ConnectionState) (d : Device P T L)
      → d.connection_state ≡ s
      → Inv d
      → Keeps (run_state env s d)
  unfolding run_state
  run_state-Keeps disconnected d e h = h
  run_state-Keeps mqtt_connecting d e h = h
  run_state-Keeps start_handshake d e h =
      start_handshake_run-Leaves Inv enter_error-Inv enter_end-Inv d
  run_state-Keeps end_handshake d e h = end_handshake_run-Keeps d h
  run_state-Keeps handshake_error d e h = handshake_error_run-Keeps d e
  run_state-Keeps connected d e h = connected_run-Keeps d h

  -- What an action yields.
  unfoldable pub perform : Action → Device P T L → Outcome (Status × Device P T L)
  perform act_connect d = ok (connect env.parts d)
  perform act_disconnect d = ok (disconnect env.parts [] d)
  perform (act_disconnect_round expired) d = ok (wait_outgoing env.parts ((d, expired) ∷ []) d)
  perform act_force_disconnect d = ok (force_disconnect env.parts d)
  perform act_poll d = internal_poll env d

  -- The device after the actions, one after the other.
  unfoldable pub perform_all : List (Action) → Device P T L → Outcome (Device P T L)
  perform_all [] d = ok d
  perform_all (a ∷ rest) d = perform a d >>= λ r. perform_all rest r.1

  polled-Keeps :
      (m : Outcome (Device P T L)) (rest : List (Action))
      → Keeps m
      → ((d : Device P T L) → Inv d → Keeps (perform_all rest d))
      → Keeps (
          (m >>= λ d. ok (with_callbacks env.parts (env.parts.mqtt_poll d.peers) d)) >>= λ r.
          perform_all rest r.1)
  polled-Keeps (ok d) rest h k =
      k (with_callbacks env.parts (env.parts.mqtt_poll d.peers) d).1
        (with_callbacks-Inv env.parts (env.parts.mqtt_poll d.peers) d h)
  polled-Keeps (err c) rest h k = tt
  polled-Keeps fault rest h k = tt
  polled-Keeps stuck rest h k = tt

  -- In every sequence of calls of connect and force_disconnect, of the first test and the rounds of
  -- disconnect, and of polls of the worker thread, where none of these steps begins before the one
  -- before it has returned, and whatever the other parts answer: a device that satisfies the
  -- invariant satisfies it afterwards.
  pub perform_all-Keeps :
      (rest : List (Action)) (d : Device P T L) → Inv d → Keeps (perform_all rest d)
  unfolding perform_all perform internal_poll
  perform_all-Keeps [] d h = h
  perform_all-Keeps (act_connect ∷ rest) d h =
      perform_all-Keeps rest (connect env.parts d).1 (connect-Inv env.parts d h)
  perform_all-Keeps (act_disconnect ∷ rest) d h =
      perform_all-Keeps rest (disconnect env.parts [] d).1 (disconnect-Inv env.parts d h)
  perform_all-Keeps (act_disconnect_round expired ∷ rest) d h =
      perform_all-Keeps rest (wait_outgoing env.parts ((d, expired) ∷ []) d).1
        (round-Inv env.parts expired d h)
  perform_all-Keeps (act_force_disconnect ∷ rest) d h =
      perform_all-Keeps rest (force_disconnect env.parts d).1 (force_disconnect-Inv env.parts d h)
  perform_all-Keeps (act_poll ∷ rest) d h =
      polled-Keeps (run_state env d.connection_state d) rest
        (run_state-Keeps d.connection_state d refl h) (perform_all-Keeps rest)
