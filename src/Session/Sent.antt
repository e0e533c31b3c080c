-- ===== src/Session/Sent.antt =====
-- What the handshake sends.
use astarte_device_sdk_zephy.Prelude.{
  ℕ, ◌+◌, ◌≤◌, ◌<◌, ◌≡◌, refl, ◌⊎◌, inl, inr, Bool, true, false, List, [], ◌∷◌, ◌++◌, length,
  length-append, arith, Bool-cases, ==_iff,
}
use astarte_device_sdk_zephy.Result.{ok}
use astarte_device_sdk_zephy.Bson.ByteOrder.{ByteOrder}
use astarte_device_sdk_zephy.Bson.Types.{type_string}
use astarte_device_sdk_zephy.Bson.Serializer.{Written, done, failed, init, append_string, int32_max}
use astarte_device_sdk_zephy.Bson.Serializer.Append.{
  Ends, Ends-bind, Ends-mono, IsModest, largest_block,
}
use astarte_device_sdk_zephy.Bson.Serializer.Format.{All, field, string_payload, framed}
use astarte_device_sdk_zephy.Bson.Serializer.Fields.{string-Adds}
use astarte_device_sdk_zephy.Bson.Serializer.Arrays.{
  Sealed, get_serialized-Sealed, init-Ends, end-Ends, length-framed_body,
}
use astarte_device_sdk_zephy.Interface.{Interface, Ownership, server_owned, device_owned}
use astarte_device_sdk_zephy.Introspection.{name_max_size}
use astarte_device_sdk_zephy.Session.TopicText.{Topics, device_id_len}
use astarte_device_sdk_zephy.Session.Surroundings.{Peers}
use astarte_device_sdk_zephy.Session.Publishing.{
  interface_topic, is_server_owned, subscribe_nodes, setup_subscriptions, compression_key,
  compression_value, capabilities, publish_document, publish_written, send_device_capabilities,
}

-- The document `{"purge_properties_compression_format": "plaintext"}`.
abbrev pub capabilities_document : ByteOrder → List ℕ
capabilities_document bo =
    framed bo (field type_string compression_key (string_payload bo compression_value))

pub capabilities-Ends :
    (bo : ByteOrder) (grant : ℕ → Bool)
    → IsModest grant
    → Ends grant
        (length (capabilities_document bo))
        (Sealed (capabilities_document bo))
        (capabilities bo grant)
unfolding capabilities
capabilities-Ends bo grant modest =
    let whole = length (capabilities_document bo) in
    Ends-bind grant whole _ _ (init grant) _ (init-Ends grant modest whole) λ s h.
      Ends-bind grant whole _ _ (append_string grant bo compression_value compression_key s) _
        (Ends-mono grant _ whole _ (append_string grant bo compression_value compression_key s)
          (omega (
            arith,
            length-framed_body bo
                (field type_string compression_key (string_payload bo compression_value)),
          ))
          (string-Adds grant modest _ compression_key s h (omega arith) bo compression_value
            (omega arith)))
        λ t k. end-Ends grant modest bo _ t k

-- A bound on the length of the name of the realm.
abbrev pub realm_max : ℕ
realm_max = 1000

-- `<realm>/<device id>/<name>/#` for each interface whose owner is the server.
unfoldable pub topic_if : Ownership → List ℕ → List (List ℕ)
topic_if server_owned topic = topic ∷ []
topic_if device_owned topic = []

topic_of_server : (o : Ownership) (t : List ℕ) → is_server_owned o ≡ true → topic_if o t ≡ t ∷ []
unfolding is_server_owned topic_if
topic_of_server server_owned t h = refl
topic_of_server device_owned t h = absurd (ground (arith, h))

topic_of_device : (o : Ownership) (t : List ℕ) → is_server_owned o ≡ false → topic_if o t ≡ []
unfolding is_server_owned topic_if
topic_of_device server_owned t h = absurd (ground (arith, h))
topic_of_device device_owned t h = refl

unfoldable pub server_topics : List ℕ → List ℕ → List Interface → List (List ℕ)
server_topics realm device_id [] = []
server_topics realm device_id (i ∷ is) =
    topic_if i.ownership (realm ++ (b'/' ∷ (device_id ++ (b'/' ∷ (i.name ++ (b'/' ∷ b'#' ∷ []))))))
    ++ server_topics realm device_id is

length-interface_topic :
    (realm device_id name : List ℕ)
    → length device_id ≡ device_id_len
    → length (interface_topic realm device_id name) ≡ length realm + 4 + device_id_len + length name
length-interface_topic realm device_id name h = omega (
  arith,
  length-append realm (b'/' ∷ (device_id ++ (b'/' ∷ (name ++ (b'/' ∷ b'#' ∷ []))))),
  length-append device_id (b'/' ∷ (name ++ (b'/' ∷ b'#' ∷ []))),
  length-append name (b'/' ∷ b'#' ∷ []),
  h,
)

module _ {P T : Type 0} (bo : ByteOrder) (parts : Peers P T) (realm : List ℕ) where
  -- The allocator always has a block of 1 to INT32_MAX bytes.
  abbrev pub Grants : Type 0
  Grants = (p : P) (n : ℕ) → 0 < n → n ≤ int32_max → parts.granted p n ≡ true

  -- One subscription with QoS 2 for each topic.
  unfoldable pub subscribe_all : List (List ℕ) → P → P
  subscribe_all [] p = p
  subscribe_all (t ∷ ts) p = subscribe_all ts (parts.mqtt_subscribe t 2 p)

  subscribe_nodes_lem :
      (device_id : List ℕ) (nodes : List Interface) (p : P)
      → length device_id ≡ device_id_len
      → Grants
      → length realm ≤ realm_max
      → All (λ i. length i.name ≤ name_max_size) nodes
      → subscribe_nodes bo parts realm device_id nodes p
        ≡ (ok tt, subscribe_all (server_topics realm device_id nodes) p)
  unfolding subscribe_nodes subscribe_all server_topics
  subscribe_nodes_lem device_id [] p h g s b = refl
  subscribe_nodes_lem device_id (i ∷ is) p h g s b =
      elim (Bool-cases (is_server_owned i.ownership)) [
        | inl y ↦
            let same =
              ==_iff (length (interface_topic realm device_id i.name))
                (length realm + 4 + device_id_len + length i.name) in
            rw
              (
                topic_of_server i.ownership (interface_topic realm device_id i.name) y,
                y,
                g p (length realm + 4 + device_id_len + length i.name + 1) (omega arith)
                    (omega (arith, b.0, s)),
                same.1 (length-interface_topic realm device_id i.name h),
              )
              (subscribe_nodes_lem device_id is _ h g s b.1)
        | inr n ↦
            rw (topic_of_device i.ownership (interface_topic realm device_id i.name) n, n)
              (subscribe_nodes_lem device_id is p h g s b.1)
      ]

  -- With memory for the topics, a device id of 22 characters, a realm of at most 1000 and names of
  -- at most 128, the subscriptions succeed: the
  -- consumer topic, and one topic for each interface that the server owns, in their order.
  pub setup_subscriptions_lem :
      (topics : Topics) (device_id : List ℕ) (nodes : List Interface) (p : P)
      → length device_id ≡ device_id_len
      → Grants
      → length realm ≤ realm_max
      → All (λ i. length i.name ≤ name_max_size) nodes
      → setup_subscriptions bo parts realm topics device_id nodes p ≡ (
        ok tt,
        subscribe_all (topics.control_consumer_prop_topic ∷ server_topics realm device_id nodes) p,
      )
  unfolding setup_subscriptions subscribe_all
  setup_subscriptions_lem topics device_id nodes p h g s b =
      subscribe_nodes_lem device_id nodes _ h g s b

  -- The document is published, or nothing is and the allocator refused a block that it asks for.
  pub IsAnnounced : Topics → P → P → Type 0
  IsAnnounced topics p q =
      (q ≡ parts.mqtt_publish topics.capabilities_topic (capabilities_document bo) 2 p)
      ⊎ ((q ≡ p)
          × ((n : ℕ) × ((n ≤ largest_block (length (capabilities_document bo)))
                × (parts.granted p n ≡ false))))

  written-IsAnnounced :
      (topics : Topics) (p : P) (w : Written)
      → Ends
          (parts.granted p)
          (length (capabilities_document bo))
          (Sealed (capabilities_document bo))
          w
      → (q : P) × ((publish_written bo parts realm topics w p ≡ ok q) × IsAnnounced topics p q)
  unfolding publish_written publish_document IsAnnounced
  written-IsAnnounced topics p (done s) h =
      rw (get_serialized-Sealed (capabilities_document bo) s h) (_, (refl, inl refl))
  written-IsAnnounced topics p (failed c s) h = (p, (refl, inr (refl, h.1)))
  written-IsAnnounced topics p Written.fault h = absurd h

  -- With an allocator that grants no block above INT32_MAX, sending the capabilities publishes the
  -- BSON document that names the compression format as plaintext, or nothing because the allocator
  -- refused a block of at most twice the bytes of the document and 64 more.
  pub send_device_capabilities_lem :
      (topics : Topics) (p : P)
      → IsModest (parts.granted p)
      → (q : P) × ((send_device_capabilities bo parts realm topics p ≡ ok q)
          × IsAnnounced topics p q)
  unfolding send_device_capabilities
  send_device_capabilities_lem topics p modest =
      written-IsAnnounced topics p (capabilities bo (parts.granted p))
        (capabilities-Ends bo (parts.granted p) modest)
