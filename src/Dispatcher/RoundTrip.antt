-- ===== src/Dispatcher/RoundTrip.antt =====
-- What a device publishes is what the dispatcher of an incoming message reads from the topic.
use mathlib.Core.Path.{subst}
use astarte_device_sdk_zephy.Prelude.{
  ℕ, zero, suc, ◌+◌, ◌≤◌, ◌<◌, ◌≡◌, refl, sym, ap, ◌∙◌, Bool, true, false, Option, some, List, [],
  ◌∷◌, ◌++◌, length, drop, ltb, leb, ◌==◌, ==_refl, ==_iff, length-append, append-nil, append_assoc,
  arith,
}
use astarte_device_sdk_zephy.Result.{ok, ◌>>=◌}
use astarte_device_sdk_zephy.Mapping.{segment, same_bytes}
use astarte_device_sdk_zephy.Interface.{Interface}
use astarte_device_sdk_zephy.Bson.Serializer.Format.{All}
use astarte_device_sdk_zephy.Introspection.{name_max_size}
use astarte_device_sdk_zephy.Session.TopicText.{
  Topics, device_id_len, topic_prefix, base_topic_len, topic_of, initialize_mqtt_topics,
  capabilities_suffix, control_suffix, empty_cache_suffix, consumer_suffix, producer_suffix,
}
use astarte_device_sdk_zephy.Dispatcher.{
  starts_with, contains, strchr, purge_properties, on_control_message, by_type, to_interface,
  on_data, on_incoming, data_topic, publish_data,
}

starts_with-append : (a b : List ℕ) → starts_with (a ++ b) a ≡ true
unfolding starts_with
starts_with-append [] b = refl
starts_with-append (x ∷ a) b = rw (==_refl x) (starts_with-append a b)

drop-append : (a b : List ℕ) → drop (length a) (a ++ b) ≡ b
drop-append [] b = refl
drop-append (x ∷ a) b = drop-append a b

drop-suc : (n : ℕ) (a b : List ℕ) (c : ℕ) → drop n a ≡ c ∷ b → drop (n + 1) a ≡ b
drop-suc zero a b c h = rw h refl
drop-suc (suc n) [] b c h = absurd (ground (arith, h))
drop-suc (suc n) (x ∷ a) b c h =
    let e : suc n + 1 ≡ suc (n + 1) = omega arith in rw e (drop-suc n a b c h)

contains-start : (a b : List ℕ) → starts_with a b ≡ true → contains a b ≡ true
unfolding contains
contains-start [] b h = h
contains-start (x ∷ a) b h = rw h refl

-- A text without slashes.
abbrev pub HasNoSlash : List ℕ → Type 0
HasNoSlash = All (λ c. (c == b'/') ≡ false)

strchr-append :
    (name rest : List ℕ)
    → HasNoSlash name
    → strchr (name ++ (b'/' ∷ rest)) b'/' ≡ some (b'/' ∷ rest)
unfolding strchr
strchr-append [] rest h = refl
strchr-append (c ∷ name) rest h = rw h.0 (strchr-append name rest h.1)

segment-append : (name rest : List ℕ) → HasNoSlash name → segment (name ++ (b'/' ∷ rest)) ≡ name
unfolding segment
segment-append [] rest h = refl
segment-append (c ∷ name) rest h = rw h.0 (ap (λ t. c ∷ t) (segment-append name rest h.1))

same_bytes_refl : (a : List ℕ) → same_bytes a a ≡ true
unfolding same_bytes
same_bytes_refl [] = refl
same_bytes_refl (x ∷ a) = rw (==_refl x) (same_bytes_refl a)

module _ (realm : List ℕ) where
  -- The topic `<realm>/<device id>` with a suffix.
  abbrev pub full_topic : List ℕ → List ℕ → List ℕ
  full_topic device_id suffix = topic_prefix realm ++ (device_id ++ suffix)

  topic_of_lem :
      (device_id suffix : List ℕ)
      → length device_id ≡ device_id_len
      → topic_of realm device_id suffix ≡ ok (full_topic device_id suffix)
  unfolding topic_of
  topic_of_lem device_id suffix h =
      let e : length (full_topic device_id suffix) ≡ base_topic_len realm + length suffix = omega (
        arith,
        h,
        length-append (topic_prefix realm) (device_id ++ suffix),
        length-append device_id suffix,
      ) in
      rw
        ((==_iff (length (full_topic device_id suffix)) (base_topic_len realm + length suffix)).1 e)
        refl

  abbrev pub topics_of : List ℕ → Topics
  topics_of device_id = record {
    base_topic = full_topic device_id [];
    capabilities_topic = full_topic device_id capabilities_suffix;
    control_topic = full_topic device_id control_suffix;
    control_empty_cache_topic = full_topic device_id empty_cache_suffix;
    control_consumer_prop_topic = full_topic device_id consumer_suffix;
    control_producer_prop_topic = full_topic device_id producer_suffix;
  }

  pub initialize_mqtt_topics_lem :
      (device_id : List ℕ)
      → length device_id ≡ device_id_len
      → initialize_mqtt_topics realm device_id ≡ ok (topics_of device_id)
  unfolding initialize_mqtt_topics
  initialize_mqtt_topics_lem device_id h =
      rw
        (
          topic_of_lem device_id [] h,
          topic_of_lem device_id capabilities_suffix h,
          topic_of_lem device_id control_suffix h,
          topic_of_lem device_id empty_cache_suffix h,
          topic_of_lem device_id consumer_suffix h,
          topic_of_lem device_id producer_suffix h,
        )
        refl

  data_topic-base :
      (device_id name path : List ℕ)
      → data_topic realm device_id name path ≡ full_topic device_id [] ++ (b'/' ∷ (name ++ path))
  data_topic-base device_id name path =
      let tail = b'/' ∷ (name ++ path) in
      sym (
        append_assoc (topic_prefix realm) (device_id ++ []) tail
        ∙ append_assoc realm (b'/' ∷ []) ((device_id ++ []) ++ tail)
        ∙ ap (λ x. realm ++ (b'/' ∷ (x ++ tail))) (append-nil device_id))

  length-full_topic :
      (device_id : List ℕ)
      → length device_id ≡ device_id_len
      → length (full_topic device_id []) ≡ base_topic_len realm
  length-full_topic device_id h =
      omega
        (arith, h, length-append (topic_prefix realm) (device_id ++ []), length-append device_id [])

  -- What follows the base topic, cut as the dispatcher cuts it.
  after_base :
      (device_id name rest : List ℕ)
      → length device_id ≡ device_id_len
      → drop (base_topic_len realm) (full_topic device_id [] ++ (b'/' ∷ (name ++ rest)))
        ≡ b'/' ∷ (name ++ rest)
  after_base device_id name rest h =
      subst
        (λ n. drop n (full_topic device_id [] ++ (b'/' ∷ (name ++ rest))) ≡ b'/' ∷ (name ++ rest))
        (length-full_topic device_id h)
        (drop-append (full_topic device_id []) (b'/' ∷ (name ++ rest)))

  module _ (introspection_get : List ℕ → Option Interface) where
    -- A data message goes by the interface that its topic names.
    reads_data :
        (device_id name rest payload : List ℕ)
        → length device_id ≡ device_id_len
        → HasNoSlash name
        → length name < name_max_size
        → contains
            (full_topic device_id [] ++ (b'/' ∷ (name ++ (b'/' ∷ rest))))
            (full_topic device_id control_suffix)
          ≡ false
        → on_incoming realm introspection_get
            (topics_of device_id)
            (full_topic device_id [] ++ (b'/' ∷ (name ++ (b'/' ∷ rest))))
            payload
          ≡ to_interface (introspection_get name) (b'/' ∷ rest) payload
    unfolding on_incoming on_data
    reads_data device_id name rest payload h n m c =
        let topic = full_topic device_id [] ++ (b'/' ∷ (name ++ (b'/' ∷ rest))) in
        let cut = after_base device_id name (b'/' ∷ rest) h in
        let cut1 = drop-suc (base_topic_len realm) topic (name ++ (b'/' ∷ rest)) b'/' cut in
        let long : ltb (length topic) (base_topic_len realm + 1) ≡ false = ground (
          arith,
          length-full_topic device_id h,
          length-append (full_topic device_id []) (b'/' ∷ (name ++ (b'/' ∷ rest))),
        ) in
        let fits : leb name_max_size (length name) ≡ false = ground (arith, m) in
        rw
          (
            starts_with-append (full_topic device_id []) (b'/' ∷ (name ++ (b'/' ∷ rest))),
            c,
            long,
            cut,
            cut1,
            strchr-append name rest n,
            segment-append name rest n,
            fits,
          )
          (unfold starts_with in refl)

    -- With memory for the topic, data of an interface is published with QoS 0, 1 or 2 on a topic that
    -- the dispatcher, on the topics of the same device, reads back as the interface, the path and
    -- the payload: for a device id of 22 characters, a name of less than 128 characters without
    -- slash, a path that begins with a slash, and a topic that does not contain the control topic.
    pub publish_data-on_incoming :
        (grant : ℕ → Bool) (device_id name rest payload : List ℕ) (qos : ℕ) (interface : Interface)
        → length device_id ≡ device_id_len
        → HasNoSlash name
        → length name < name_max_size
        → introspection_get name ≡ some interface
        → contains
            (data_topic realm device_id name (b'/' ∷ rest))
            (full_topic device_id control_suffix)
          ≡ false
        → grant (length realm + 2 + device_id_len + length name + length (b'/' ∷ rest) + 1) ≡ true
        → qos ≤ 2
        → (publish_data realm grant device_id name (b'/' ∷ rest) payload qos
            ≡ ok (data_topic realm device_id name (b'/' ∷ rest), payload, qos))
          × ((initialize_mqtt_topics realm device_id >>= λ topics. ok (
                on_incoming realm introspection_get topics
                  (data_topic realm device_id name (b'/' ∷ rest))
                  payload))
              ≡ ok (by_type interface.type interface (b'/' ∷ rest) payload))
    unfolding publish_data to_interface
    publish_data-on_incoming grant device_id name rest payload qos interface h n m known free g q =
        let topic = data_topic realm device_id name (b'/' ∷ rest) in
        let e : length topic
            ≡ length realm + 2 + device_id_len + length name + length (b'/' ∷ rest) =
          omega (
            arith,
            h,
            length-append realm (b'/' ∷ (device_id ++ (b'/' ∷ (name ++ (b'/' ∷ rest))))),
            length-append device_id (b'/' ∷ (name ++ (b'/' ∷ rest))),
            length-append name (b'/' ∷ rest),
          ) in
        let small : ltb 2 qos ≡ false = ground arith in
        let base = data_topic-base device_id name (b'/' ∷ rest) in
        (
          rw
              (
                small,
                g,
                (==_iff (length topic)
                      (length realm + 2 + device_id_len + length name + length (b'/' ∷ rest))).1
                    e,
              )
              (unfold starts_with in refl),
          rw (initialize_mqtt_topics_lem device_id h, base)
              (ap ok (
                reads_data device_id name rest payload h n m
                  (subst (λ t. contains t (full_topic device_id control_suffix) ≡ false) base free)
                ∙ rw known refl)),
        )

  longer :
      (device_id a b : List ℕ)
      → starts_with (full_topic device_id (a ++ b)) (full_topic device_id a) ≡ true
  longer device_id a b =
      let e : full_topic device_id a ++ b ≡ full_topic device_id (a ++ b) =
        append_assoc (topic_prefix realm) (device_id ++ a) b
        ∙ ap (λ x. topic_prefix realm ++ x) (append_assoc device_id a b) in
      subst (λ x. starts_with x (full_topic device_id a) ≡ true) e
        (starts_with-append (full_topic device_id a) b)

  -- A message on the topic for the properties of the consumer is handled as a purge.
  pub consumer_topic-on_incoming :
      (introspection_get : List ℕ → Option Interface) (device_id payload : List ℕ)
      → length device_id ≡ device_id_len
      → (initialize_mqtt_topics realm device_id >>= λ topics.
          ok
            (on_incoming realm introspection_get topics topics.control_consumer_prop_topic payload))
        ≡ ok (purge_properties payload)
  unfolding on_incoming on_control_message
  consumer_topic-on_incoming introspection_get device_id payload h =
      let consumer = full_topic device_id consumer_suffix in
      let base : starts_with consumer (full_topic device_id []) ≡ true =
        longer device_id [] consumer_suffix in
      let control : contains consumer (full_topic device_id control_suffix) ≡ true =
        contains-start consumer (full_topic device_id control_suffix)
          (longer device_id control_suffix (drop 8 consumer_suffix)) in
      rw (initialize_mqtt_topics_lem device_id h, base, control, same_bytes_refl consumer) refl
