-- ===== src/TransStorage/RoundTrip.antt =====
-- A stored message read back.
use native.Mathlib.Nat.{pow-suc}
use astarte_device_sdk_zephy.Prelude.{
  ℕ, zero, suc, ◌+◌, ◌/◌, ◌^◌, ◌≤◌, ◌<◌, ◌≡◌, refl, sym, ap, ◌∙◌, ◌⊎◌, inl, inr, Bool, true, false,
  Option, none, some, List, [], ◌∷◌, ◌++◌, length, length-append, take, drop, ltb, leb, le→leb,
  ◌==◌, ==_iff, add32, arith, IsU32, IsU64,
}
use astarte_device_sdk_zephy.Result.{Outcome, ok, ◌>>=◌}
use astarte_device_sdk_zephy.Bson.Serializer.{int32_max}
use astarte_device_sdk_zephy.Bson.Serializer.Format.{All}
use astarte_device_sdk_zephy.TransStorage.Message.{StoredMsg}
use astarte_device_sdk_zephy.TransStorage.Format.{
  bytes_of, number_of, until_nul, static_fields, payload_bytes, serialized, field_at,
  extract_string, extract_payload, parsed,
}

pub number_of-bytes_of : (width n : ℕ) → n < 256 ^ width → number_of (bytes_of width n) ≡ n
unfolding number_of bytes_of
number_of-bytes_of zero n h = omega arith
number_of-bytes_of (suc width) n h = omega (
  arith,
  pow-suc 256 width,
  number_of-bytes_of width (n / 256) (omega (arith, pow-suc 256 width)),
)

-- A text without terminator inside.
abbrev pub HasNoNul : List ℕ → Type 0
HasNoNul = All (λ c. (c == 0) ≡ false)

until_nul_lem : (s : List ℕ) → HasNoNul s → until_nul s ≡ s
unfolding until_nul
until_nul_lem [] h = refl
until_nul_lem (c ∷ s) h = rw h.0 (ap (λ t. c ∷ t) (until_nul_lem s h.1))

take-append : (s r : List ℕ) → take (length s) (s ++ r) ≡ s
take-append [] r = refl
take-append (x ∷ s) r = ap (λ t. x ∷ t) (take-append s r)

take-all : (s : List ℕ) → take (length s) s ≡ s
take-all [] = refl
take-all (x ∷ s) = ap (λ t. x ∷ t) (take-all s)

leb_refl : (n : ℕ) → leb n n ≡ true
leb_refl n = ground arith

drop-append : (s r : List ℕ) → drop (length s) (s ++ r) ≡ r
drop-append [] r = refl
drop-append (x ∷ s) r = drop-append s r

length-drop :
    (n : ℕ) (xs : List ℕ) (s : List ℕ) → drop n xs ≡ s → 0 < length s → n + length s ≡ length xs
length-drop zero xs s h p = omega (arith, ap length h)
length-drop (suc n) [] s h p = absurd (omega (arith, ap length h))
length-drop (suc n) (x ∷ xs) s h p = omega (arith, length-drop n xs s h p)

drop-nil : (b : ℕ) → drop {A = ℕ} b [] ≡ []
drop-nil zero = refl
drop-nil (suc b) = refl

drop_more : (a b : ℕ) (xs : List ℕ) → drop (a + b) xs ≡ drop b (drop a xs)
drop_more zero b xs = ap (λ n. drop n xs) (omega arith)
drop_more (suc a) b [] = let e : suc a + b ≡ suc (a + b) = omega arith in rw e (sym (drop-nil b))
drop_more (suc a) b (x ∷ xs) =
    let e : suc a + b ≡ suc (a + b) = omega arith in rw e (drop_more a b xs)

-- The messages that the storage can hold: strings, and a payload of the length that is told, in a
-- message of at most INT32_MAX bytes.
pub record IsStorable (m : StoredMsg) : Type 0 where
  pub name : List ℕ
  pub path : List ℕ
  pub bytes : List ℕ
  pub named : m.interface_name ≡ some name
  pub at_path : m.path ≡ some path
  pub with_payload :
      ((bytes ≡ []) × (m.payload ≡ none)) ⊎ ((0 < length bytes) × (m.payload ≡ some bytes))
  pub whole : m.payload_len ≡ length bytes
  pub name_text : HasNoNul name
  pub path_text : HasNoNul path
  pub small : 32 + length name + length path + length bytes ≤ int32_max
  pub qos_word : IsU32 m.qos
  pub timestamp_word : IsU64 m.timestamp
  pub number_word : IsU64 m.sequence_number

-- The bytes of a message.
abbrev pub image : (m : StoredMsg) → IsStorable m → List ℕ
image m h = static_fields m (length h.name) (length h.path) ++ (h.name ++ (h.path ++ h.bytes))

module _ (m : StoredMsg) (h : IsStorable m) where
  length-image : length (image m h) ≡ 32 + length h.name + length h.path + length h.bytes
  unfolding static_fields bytes_of
  length-image =
      omega (arith, length-append h.name (h.path ++ h.bytes), length-append h.path h.bytes)

  qos_field : field_at (image m h) 0 4 ≡ m.qos
  unfolding field_at static_fields bytes_of
  qos_field = number_of-bytes_of 4 (m.qos) (omega (arith, h.qos_word))

  timestamp_field : field_at (image m h) 4 8 ≡ m.timestamp
  unfolding field_at static_fields bytes_of
  timestamp_field = number_of-bytes_of 8 (m.timestamp) (omega (arith, h.timestamp_word))

  number_field : field_at (image m h) 12 8 ≡ m.sequence_number
  unfolding field_at static_fields bytes_of
  number_field = number_of-bytes_of 8 (m.sequence_number) (omega (arith, h.number_word))

  name_len_field : field_at (image m h) 20 4 ≡ length h.name
  unfolding field_at static_fields bytes_of
  name_len_field = number_of-bytes_of 4 (length h.name) (omega (arith, h.small))

  path_len_field : field_at (image m h) 24 4 ≡ length h.path
  unfolding field_at static_fields bytes_of
  path_len_field = number_of-bytes_of 4 (length h.path) (omega (arith, h.small))

  payload_len_field : field_at (image m h) 28 4 ≡ m.payload_len
  unfolding field_at static_fields bytes_of
  payload_len_field = number_of-bytes_of 4 (m.payload_len) (omega (arith, h.whole, h.small))

  name_from : drop 32 (image m h) ≡ h.name ++ (h.path ++ h.bytes)
  unfolding static_fields bytes_of
  name_from = refl

  path_from : drop (32 + length h.name) (image m h) ≡ h.path ++ h.bytes
  unfolding static_fields bytes_of
  path_from = drop_more 32 (length h.name) (image m h) ∙ drop-append h.name (h.path ++ h.bytes)

  payload_from : drop (32 + length h.name + length h.path) (image m h) ≡ h.bytes
  payload_from =
      drop_more (32 + length h.name) (length h.path) (image m h)
      ∙ ap (drop (length h.path)) path_from
      ∙ drop-append h.path h.bytes

module _ (grant : ℕ → Bool) (granted : (n : ℕ) → 0 < n → n ≤ int32_max → grant n ≡ true) where
  -- A string that stands at the offset.
  extract_string_lem :
      (buffer : List ℕ) (offset : ℕ) (s r : List ℕ)
      → drop offset buffer ≡ s ++ r
      → HasNoNul s
      → offset + length s ≤ length buffer
      → length buffer ≤ int32_max
      → length s < int32_max
      → extract_string grant buffer offset (length s) ≡ ok (some s)
  unfolding extract_string
  extract_string_lem buffer offset s r d n inside small short =
      let sum : add32 offset (length s) ≡ offset + length s = omega arith in
      let next : add32 (length s) 1 ≡ length s + 1 = omega arith in
      let fits : ltb (length buffer) (offset + length s) ≡ false = ground arith in
      let within : leb (offset + length s) (length buffer) ≡ true =
        le→leb (offset + length s) (length buffer) inside in
      rw
        (
          sum,
          next,
          fits,
          granted (length s + 1) (omega arith) (omega arith),
          within,
          d,
          take-append s r,
          until_nul_lem s n,
        )
        refl

  extract_payload_lem :
      (buffer : List ℕ) (offset : ℕ) (s : List ℕ) (p : Option (List ℕ))
      → drop offset buffer ≡ s
      → ((s ≡ []) × (p ≡ none)) ⊎ ((0 < length s) × (p ≡ some s))
      → offset + length s ≤ length buffer
      → length buffer ≤ int32_max
      → extract_payload grant buffer offset (length s) ≡ ok p
  unfolding extract_payload
  extract_payload_lem buffer offset s p d (inl none_there) inside small =
      rw (none_there.0, none_there.1) refl
  extract_payload_lem buffer offset s p d (inr given) inside small =
      let positive : leb 2147483648 (length s) ≡ false = ground arith in
      let some_bytes : (length s == 0) ≡ false = ground (arith, given.0) in
      let sum : add32 offset (length s) ≡ offset + length s = omega arith in
      let fits : ltb (length buffer) (offset + length s) ≡ false = ground arith in
      let within : leb (offset + length s) (length buffer) ≡ true =
        le→leb (offset + length s) (length buffer) inside in
      rw
        (
          positive,
          some_bytes,
          sum,
          fits,
          granted (length s) given.0 (omega arith),
          within,
          d,
          take-all s,
          given.1,
        )
        refl

module _ (m : StoredMsg) (h : IsStorable m) where
  payload_written : payload_bytes m.payload m.payload_len ≡ ok h.bytes
  unfolding payload_bytes
  payload_written = elim h.with_payload [
    | inl none_there ↦ rw (none_there.1, none_there.0) refl
    | inr given ↦ rw (given.1, h.whole, leb_refl (length h.bytes), take-all h.bytes) refl
  ]

  pub serialized-image :
      serialized m h.name h.path (32 + length h.name + length h.path + length h.bytes)
      ≡ ok (image m h)
  unfolding serialized
  serialized-image =
      rw
        (
          payload_written,
          (==_iff (length (image m h)) (32 + length h.name + length h.path + length h.bytes)).1
              (length-image m h),
        )
        refl

  module _ (grant : ℕ → Bool) (granted : (n : ℕ) → 0 < n → n ≤ int32_max → grant n ≡ true) where
    parsed-image : parsed grant (image m h) ≡ ok m
    unfolding parsed
    parsed-image =
        let len = length-image m h in
        let enough : ltb (length (image m h)) 32 ≡ false = ground (arith, len) in
        let sum1 : add32 32 (length h.name) ≡ 32 + length h.name = omega (arith, h.small) in
        let sum2 : add32 (32 + length h.name) (length h.path) ≡ 32 + length h.name + length h.path =
          omega (arith, h.small) in
        rw
          (
            enough,
            name_len_field m h,
            path_len_field m h,
            payload_len_field m h ∙ h.whole,
            qos_field m h,
            timestamp_field m h,
            number_field m h,
            sum1,
            sum2,
            extract_string_lem grant granted (image m h) 32 h.name (h.path ++ h.bytes)
                (name_from m h) h.name_text (omega (arith, len)) (omega (arith, len, h.small))
                (omega (arith, h.small)),
            extract_string_lem grant granted (image m h) (32 + length h.name) h.path h.bytes
                (path_from m h) h.path_text (omega (arith, len)) (omega (arith, len, h.small))
                (omega (arith, h.small)),
            extract_payload_lem grant granted (image m h) (32 + length h.name + length h.path)
                h.bytes m.payload (payload_from m h) h.with_payload (omega (arith, len))
                (omega (arith, len, h.small)),
          )
          (ap (λ a. filled a (some h.path) (length h.bytes)) (sym h.named)
            ∙ ap (λ a. filled m.interface_name a (length h.bytes)) (sym h.at_path)
            ∙ ap (filled m.interface_name m.path) (sym h.whole))
      where
        filled : Option (List ℕ) → Option (List ℕ) → ℕ → Outcome StoredMsg
        filled a b n = ok (record m { interface_name = a; path = b; payload_len = n })

    -- With blocks of 1 to INT32_MAX bytes granted, what `push` writes for a message that the
    -- storage can hold, `peek` makes the message of again: strings without NUL, a payload of the
    -- length that is told, NULL where that is 0, and numbers that fit their fields.
    pub parsed-serialized :
        (serialized m h.name h.path (32 + length h.name + length h.path + length h.bytes)
          >>= parsed grant)
        ≡ ok m
    parsed-serialized = rw serialized-image parsed-image
