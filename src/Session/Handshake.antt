-- ===== src/Session/Handshake.antt =====
-- The handshake ends with a connected device.
use Prim.Native.Nat.{max}
use astarte_device_sdk_zephy.Prelude.{
  ℕ, zero, suc, ◌≤◌, ◌≡◌, refl, true, false, some, [], ◌∷◌, ◌++◌, length, arith,
}
use astarte_device_sdk_zephy.Result.{ok}
use astarte_device_sdk_zephy.Bson.Serializer.{int32_max}
use astarte_device_sdk_zephy.Bson.Serializer.Format.{All}
use astarte_device_sdk_zephy.Introspection.{get_string_size}
use astarte_device_sdk_zephy.Introspection.Text.{text, Announceable, get_string_size-text}
use astarte_device_sdk_zephy.Introspection.Filling.{announced, fill_string_exact}
use astarte_device_sdk_zephy.Session.{Device, end_handshake, connected, with_peers, with_callbacks}
use astarte_device_sdk_zephy.Session.Publishing.{zeros}
use astarte_device_sdk_zephy.Session.Poll.{
  Setting, internal_poll, run_state, end_handshake_run, complete, completed, end_with,
  introspection_string,
}
use astarte_device_sdk_zephy.Session.Sent.{Grants}

module _ {P T L : Type 0} (env : Setting P T L) where
  -- A device at the end of the handshake, with nothing refused.
  pub record IsEnding (d : Device P T L) : Type 0 where
    pub at_end : d.connection_state ≡ end_handshake
    pub not_refused : d.subscription_failure ≡ false
    pub announceable : All Announceable (env.dlist.nodes d.introspection)
    pub short_text : length (text (env.dlist.nodes d.introspection)) ≤ int32_max

  pub record IsConnected (d : Device P T L) : Type 0 where
    pub is_connected : d.connection_state ≡ connected
    pub is_synchronized : d.synchronization_completed ≡ true
    pub has_event : d.connection_event ≡ true

  length-zeros : (n : ℕ) → length (zeros n) ≡ n
  unfolding zeros
  length-zeros zero = refl
  length-zeros (suc n) = omega (arith, length-zeros n)

  string_given :
      (d : Device P T L)
      → Grants env.byte_order env.parts env.realm
      → All Announceable (env.dlist.nodes d.introspection)
      → length (text (env.dlist.nodes d.introspection)) ≤ int32_max
      → introspection_string env d
        ≡ ok (some (announced (env.dlist.nodes d.introspection) ++ (0 ∷ [])))
  unfolding introspection_string
  string_given d memory a t =
      let size = get_string_size env.dlist d.introspection in
      let e : size ≡ max 1 (length (text (env.dlist.nodes d.introspection))) =
        get_string_size-text env.dlist d.introspection a (omega arith) in
      rw
        (
          memory d.peers size (omega (arith, e)) (omega (arith, e)),
          fill_string_exact env.dlist d.introspection (zeros size) a (omega arith)
              (length-zeros size),
        )
        refl

  pub end_handshake_run-IsConnected :
      (d : Device P T L)
      → Grants env.byte_order env.parts env.realm
      → IsEnding d
      → env.parts.mqtt_has_pending_outgoing d.peers ≡ false
      → (e : Device P T L) × ((end_handshake_run env d ≡ ok e) × IsConnected e)
  unfolding end_handshake_run complete end_with completed with_peers introspection_string
  end_handshake_run-IsConnected d memory h p =
      rw (h.not_refused, p, string_given (completed env d) memory h.announceable h.short_text)
        (_, (refl, record { is_connected = refl; is_synchronized = refl; has_event = refl }))

  -- A poll whose handler leaves `e`.
  pub polled :
      (d e : Device P T L)
      → run_state env d.connection_state d ≡ ok e
      → internal_poll env d ≡ ok (with_callbacks env.parts (env.parts.mqtt_poll e.peers) e)
  unfolding internal_poll
  polled d e h = rw h refl

  pub at_end :
      (d : Device P T L) → IsEnding d → run_state env d.connection_state d ≡ end_handshake_run env d
  unfolding run_state
  at_end d h = rw h.at_end refl
