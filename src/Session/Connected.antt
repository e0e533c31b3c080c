-- ===== src/Session/Connected.antt =====
-- How a device comes to be connected.
use astarte_device_sdk_zephy.Prelude.{
  ℕ, ◌≡◌, refl, ◌⊎◌, inl, inr, Bool, true, false, not, Option, List, [], ◌∷◌, if◌then◌else◌, arith,
  Bool-cases,
}
use astarte_device_sdk_zephy.Result.{Outcome, Status, ok, err, fault, stuck, ◌>>=◌}
use astarte_device_sdk_zephy.Backoff.{Backoff}
use astarte_device_sdk_zephy.Session.{
  Device, ConnectionState, disconnected, mqtt_connecting, start_handshake, end_handshake,
  handshake_error, connected, enter, with_peers, with_callbacks, handle, handle_all,
}
use astarte_device_sdk_zephy.Session.Surroundings.{
  Peers, Callback, on_connected, on_disconnected, on_subscribed,
}
use astarte_device_sdk_zephy.Session.Poll.{
  Setting, internal_poll, run_state, end_handshake_run, complete, handshake_error_run,
  forget_synchronization, retry_handshake, connected_run,
}
use astarte_device_sdk_zephy.Session.Invariant.{Leaves, start_handshake_run-Leaves}

module _ {P T L : Type 0} (parts : Peers P T) where
  handle_connects :
      (c : Callback) (d : Device P T L)
      → (handle parts c d).connection_state ≡ connected
      → d.connection_state ≡ connected
  unfolding handle
  handle_connects (on_connected flag) d h = absurd (ground (arith, h))
  handle_connects on_disconnected d h = absurd (ground (arith, h))
  handle_connects (on_subscribed code) d h = ground arith

  handle_all_connects :
      (cs : List Callback) (d : Device P T L)
      → (handle_all parts cs d).connection_state ≡ connected
      → d.connection_state ≡ connected
  unfolding handle_all
  handle_all_connects [] d h = h
  handle_all_connects (c ∷ cs) d h =
      handle_connects c d (handle_all_connects cs (handle parts c d) h)

  pub with_callbacks_connects :
      (r : Status × P × List Callback) (d : Device P T L)
      → (with_callbacks parts r d).1.connection_state ≡ connected
      → d.connection_state ≡ connected
  unfolding with_callbacks with_peers
  with_callbacks_connects (r, p, cs) d h = handle_all_connects cs (with_peers d p) h

module _ {P T L : Type 0} (env : Setting P T L) where
  -- The end of the handshake was due: every subscription was granted so far, and nothing is pending.
  pub record IsFinished (d : Device P T L) : Type 0 where
    pub at_end : d.connection_state ≡ end_handshake
    pub granted : d.subscription_failure ≡ false
    pub delivered : env.parts.mqtt_has_pending_outgoing d.peers ≡ false

  abbrev pub MayConnect : Device P T L → Type 0
  MayConnect d = (d.connection_state ≡ connected) ⊎ IsFinished d

  error_not_connected :
      (R : Type 0) (d : Device P T L) → (enter handshake_error d).connection_state ≡ connected → R
  unfolding enter
  error_not_connected R d h = absurd (ground (arith, h))

  ended_not_connected :
      (R : Type 0) (d : Device P T L) → (enter end_handshake d).connection_state ≡ connected → R
  unfolding enter
  ended_not_connected R d h = absurd (ground (arith, h))

  always :
      (Q : Device P T L → Type 0)
      → ((d : Device P T L) → Q d)
      → (m : Outcome (Device P T L)) → Leaves env Q m
  always Q k (ok d) = k d
  always Q k (err c) = tt
  always Q k fault = tt
  always Q k stuck = tt

  end_connects :
      (d : Device P T L)
      → d.connection_state ≡ end_handshake
      → Leaves env (λ e. e.connection_state ≡ connected → MayConnect d) (end_handshake_run env d)
  unfolding end_handshake_run
  end_connects d s =
      finishing d.subscription_failure (env.parts.mqtt_has_pending_outgoing d.peers) refl refl
    where
      finishing :
          (f p : Bool)
          → d.subscription_failure ≡ f
          → env.parts.mqtt_has_pending_outgoing d.peers ≡ p
          → Leaves env
              (λ e. e.connection_state ≡ connected → MayConnect d)
              (if f then ok (enter handshake_error d) else if not p then complete env d else ok d)
      finishing true p ef ep = error_not_connected (MayConnect d) d
      finishing false true ef ep = λ c. inl c
      finishing false false ef ep =
          always _ (λ e _. inr (record { at_end = s; granted = ef; delivered = ep }))
            (complete env d)

  forget_connects :
      (d : Device P T L)
      → (forget_synchronization env d).connection_state ≡ connected
      → d.connection_state ≡ connected
  unfolding forget_synchronization
  forget_connects d h = ground arith

  retry_connects :
      (R : Type 0) (r : ℕ × Option Backoff) (d : Device P T L)
      → (retry_handshake env r d).connection_state ≡ connected
      → R
  unfolding retry_handshake
  retry_connects R (delay, context) d h = absurd (ground (arith, h))

  error_connects :
      (d : Device P T L)
      → Leaves env (λ e. e.connection_state ≡ connected → MayConnect d) (handshake_error_run env d)
  unfolding handshake_error_run
  error_connects d =
      let f = forget_synchronization env d in
      elim (Bool-cases (env.parts.is_expired f.peers f.reconnection_timepoint)) [
        | inl y ↦ rw y (retry_connects (MayConnect d) _ f)
        | inr n ↦ rw n (λ c. inl (forget_connects d c))
      ]

  state_connects :
      (s : ConnectionState) (d : Device P T L)
      → d.connection_state ≡ s
      → Leaves env (λ e. e.connection_state ≡ connected → MayConnect d) (run_state env s d)
  unfolding run_state connected_run
  state_connects disconnected d e = λ c. inl c
  state_connects mqtt_connecting d e = λ c. inl c
  state_connects start_handshake d e =
      start_handshake_run-Leaves env (λ k. k.connection_state ≡ connected → MayConnect d)
        (error_not_connected (MayConnect d)) (ended_not_connected (MayConnect d)) d
  state_connects end_handshake d e = end_connects d e
  state_connects handshake_error d e = error_connects d
  state_connects connected d e = λ c. inl e

  polled :
      (m : Outcome (Device P T L)) (R : Type 0) (r : Status × Device P T L)
      → Leaves env (λ e. e.connection_state ≡ connected → R) m
      → (m >>= λ d. ok (with_callbacks env.parts (env.parts.mqtt_poll d.peers) d)) ≡ ok r
      → r.1.connection_state ≡ connected
      → R
  polled (ok d) R r h e c =
      let same : with_callbacks env.parts (env.parts.mqtt_poll d.peers) d ≡ r = cc (e) in
      h (with_callbacks_connects env.parts (env.parts.mqtt_poll d.peers) d (rw same c))
  polled (err code) R r h e c = absurd (ground (arith, e))
  polled fault R r h e c = absurd (ground (arith, e))
  polled stuck R r h e c = absurd (ground (arith, e))

  -- A poll leaves a device connected only if it was connected before, or if it was at the end of
  -- the handshake with no refused subscription and no message pending; no callback connects it.
  pub internal_poll_connects :
      (d : Device P T L) (r : Status × Device P T L)
      → internal_poll env d ≡ ok r
      → r.1.connection_state ≡ connected
      → MayConnect d
  unfolding internal_poll
  internal_poll_connects d r e c =
      polled (run_state env d.connection_state d) (MayConnect d) r
        (state_connects d.connection_state d refl) e c
