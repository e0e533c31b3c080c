-- ===== src/TransStorage/Truncated.antt =====
-- A stored message whose bytes do not reach as far as its sizes tell.
use astarte_device_sdk_zephy.Prelude.{
  ℕ, ◌+◌, ◌≤◌, ◌<◌, ◌≡◌, refl, ◌⊎◌, inl, inr, Bool, true, false, Option, none, some, List, length,
  take, drop, ltb, leb, le→leb, ◌==◌, add32, arith,
}
use astarte_device_sdk_zephy.Result.{ok, err, internal_error}
use astarte_device_sdk_zephy.Bson.Serializer.{int32_max}
use astarte_device_sdk_zephy.TransStorage.Message.{StoredMsg}
use astarte_device_sdk_zephy.TransStorage.Format.{
  until_nul, field_at, extract_string, extract_payload, parsed,
}

reaches : (n m : ℕ) → (m < n) ⊎ (n ≤ m)
reaches n m = ground arith

-- The size that the three sizes in the buffer make up.
abbrev pub told_size : List ℕ → ℕ
told_size buffer = 32 + field_at buffer 20 4 + field_at buffer 24 4 + field_at buffer 28 4

module _ (grant : ℕ → Bool) (buffer : List ℕ) (offset size : ℕ) where
  extract_string_short :
      offset + size ≤ int32_max
      → length buffer < offset + size
      → extract_string grant buffer offset size ≡ err internal_error
  unfolding extract_string
  extract_string_short small short =
      let sum : add32 offset size ≡ offset + size = omega arith in
      let beyond : ltb (length buffer) (offset + size) ≡ true = ground arith in
      rw (sum, beyond) refl

  extract_payload_short :
      offset + size ≤ int32_max
      → length buffer < offset + size
      → offset ≤ length buffer
      → extract_payload grant buffer offset size ≡ err internal_error
  unfolding extract_payload
  extract_payload_short small short before =
      let positive : leb 2147483648 size ≡ false = ground arith in
      let some_bytes : (size == 0) ≡ false = ground arith in
      let sum : add32 offset size ≡ offset + size = omega arith in
      let beyond : ltb (length buffer) (offset + size) ≡ true = ground arith in
      rw (positive, some_bytes, sum, beyond) refl

  module _ (granted : (n : ℕ) → 0 < n → n ≤ int32_max → grant n ≡ true) where
    extract_string_whole :
        offset + size < int32_max
        → offset + size ≤ length buffer
        → extract_string grant buffer offset size
          ≡ ok (some (until_nul (take size (drop offset buffer))))
    unfolding extract_string
    extract_string_whole small inside =
        let sum : add32 offset size ≡ offset + size = omega arith in
        let next : add32 size 1 ≡ size + 1 = omega arith in
        let fits : ltb (length buffer) (offset + size) ≡ false = ground arith in
        rw
          (
            sum,
            fits,
            next,
            granted (size + 1) (omega arith) (omega arith),
            le→leb (offset + size) (length buffer) inside,
          )
          refl

    extract_payload_whole :
        offset + size ≤ int32_max
        → offset + size ≤ length buffer
        → (p : Option (List ℕ)) × (extract_payload grant buffer offset size ≡ ok p)
    unfolding extract_payload
    extract_payload_whole small inside =
        let positive : leb 2147483648 size ≡ false = ground arith in
        elim (reaches size 0) [
          | inl more ↦
              let some_bytes : (size == 0) ≡ false = ground arith in
              let sum : add32 offset size ≡ offset + size = omega arith in
              let fits : ltb (length buffer) (offset + size) ≡ false = ground arith in
              (
                some (take size (drop offset buffer)),
                rw
                    (
                      positive,
                      some_bytes,
                      sum,
                      fits,
                      granted size more (omega arith),
                      le→leb (offset + size) (length buffer) inside,
                    )
                    refl,
              )
          | inr none_told ↦ let nothing : size ≡ 0 = omega arith in (none, rw nothing refl)
        ]

-- What `parsed` makes of a buffer: it refuses it, or it finds a message in it.
abbrev pub IsRefused : (ℕ → Bool) → List ℕ → Type 0
IsRefused grant buffer =
    (length buffer < told_size buffer) × (parsed grant buffer ≡ err internal_error)

abbrev pub IsRead : (ℕ → Bool) → List ℕ → Type 0
IsRead grant buffer =
    (told_size buffer ≤ length buffer) × ((m : StoredMsg) × (parsed grant buffer ≡ ok m))

module _ (grant : ℕ → Bool) (granted : (n : ℕ) → 0 < n → n ≤ int32_max → grant n ≡ true)
    (buffer : List ℕ) (small : told_size buffer < int32_max) where
  abbrev name_len : ℕ
  name_len = field_at buffer 20 4

  abbrev path_len : ℕ
  path_len = field_at buffer 24 4

  abbrev payload_len : ℕ
  payload_len = field_at buffer 28 4

  path_at : add32 32 name_len ≡ 32 + name_len
  path_at = omega (arith, small)

  payload_at : add32 (32 + name_len) path_len ≡ 32 + name_len + path_len
  payload_at = omega (arith, small)

  no_fields : length buffer < 32 → parsed grant buffer ≡ err internal_error
  unfolding parsed
  no_fields short = let refused : ltb (length buffer) 32 ≡ true = ground arith in rw refused refl

  module _ (fields : 32 ≤ length buffer) where
    enough : ltb (length buffer) 32 ≡ false
    enough = ground arith

    no_name : length buffer < 32 + name_len → parsed grant buffer ≡ err internal_error
    unfolding parsed
    no_name short =
        rw (enough, extract_string_short grant buffer 32 name_len (omega (arith, small)) short) refl

    module _ (name_inside : 32 + name_len ≤ length buffer) where
      no_path : length buffer < 32 + name_len + path_len → parsed grant buffer ≡ err internal_error
      unfolding parsed
      no_path short =
          rw
            (
              enough,
              extract_string_whole grant buffer 32 name_len granted (omega (arith, small))
                  name_inside,
              path_at,
              extract_string_short grant buffer (32 + name_len) path_len (omega (arith, small))
                  short,
            )
            refl

      module _ (path_inside : 32 + name_len + path_len ≤ length buffer) where
        no_payload : length buffer < told_size buffer → parsed grant buffer ≡ err internal_error
        unfolding parsed
        no_payload short =
            rw
              (
                enough,
                extract_string_whole grant buffer 32 name_len granted (omega (arith, small))
                    name_inside,
                path_at,
                extract_string_whole grant buffer (32 + name_len) path_len granted
                    (omega (arith, small)) path_inside,
                payload_at,
                extract_payload_short grant buffer (32 + name_len + path_len) payload_len
                    (omega (arith, small)) short path_inside,
              )
              refl

        all_there :
            told_size buffer ≤ length buffer → (m : StoredMsg) × (parsed grant buffer ≡ ok m)
        unfolding parsed
        all_there whole =
            let payload =
              extract_payload_whole grant buffer (32 + name_len + path_len) payload_len granted
                (omega (arith, small)) whole in
            (
              record {
                interface_name = some (until_nul (take name_len (drop 32 buffer)));
                path = some (until_nul (take path_len (drop (32 + name_len) buffer)));
                payload = payload.0;
                payload_len = payload_len;
                qos = field_at buffer 0 4;
                timestamp = field_at buffer 4 8;
                sequence_number = field_at buffer 12 8;
              },
              rw
                  (
                    enough,
                    extract_string_whole grant buffer 32 name_len granted (omega (arith, small))
                        name_inside,
                    path_at,
                    extract_string_whole grant buffer (32 + name_len) path_len granted
                        (omega (arith, small)) path_inside,
                    payload_at,
                    payload.1,
                  )
                  refl,
            )

  -- With blocks of 1 to INT32_MAX bytes granted, and sizes in the buffer that make up less than
  -- that, `peek` answers ASTARTE_RESULT_INTERNAL_ERROR to a buffer that is shorter than its sizes
  -- tell, and makes a message of any other one.
  pub parsed_decides : IsRefused grant buffer ⊎ IsRead grant buffer
  parsed_decides = elim (reaches 32 (length buffer)) [
    | inl h ↦ inl (omega (arith, h), no_fields h)
    | inr fields ↦ elim (reaches (32 + name_len) (length buffer)) [
      | inl h ↦ inl (omega (arith, h), no_name fields h)
      | inr name_in ↦ elim (reaches (32 + name_len + path_len) (length buffer)) [
        | inl h ↦ inl (omega (arith, h), no_path fields name_in h)
        | inr path_in ↦ elim (reaches (told_size buffer) (length buffer)) [
          | inl h ↦ inl (h, no_payload fields name_in path_in h)
          | inr h ↦ inr (h, all_there fields name_in path_in h)
        ]
      ]
    ]
  ]
