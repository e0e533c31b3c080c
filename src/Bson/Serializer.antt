-- ===== src/Bson/Serializer.antt =====
-- lib/astarte_device_sdk/bson/serializer.c. The byte array is the sequence of the bytes written so
-- far; a write past its capacity is a `fault`. `size_t` has 32 bits. `grant n` tells whether the
-- allocator hands out a block of `n` bytes.
pub mod Append
pub mod Format
pub mod Fields
pub mod Arrays
use Prim.Native.Nat.{max}
use astarte_device_sdk_zephy.Prelude.{
  ℕ, zero, suc, ◌+◌, ◌/◌, ◌%◌, Bool, true, false, Option, none, some, List, [], ◌∷◌, ◌++◌, length,
  take, drop, ltb, leb, ◌==◌, if◌then◌else◌, add32, mul32,
}
use astarte_device_sdk_zephy.Result.{
  Code, bson_serializer_error, invalid_param, out_of_memory, internal_error,
}
use astarte_device_sdk_zephy.Bson.Types.{
  type_double, type_string, type_document, type_array, type_binary, type_boolean, type_datetime,
  type_int32, type_int64, subtype_default_binary,
}
use astarte_device_sdk_zephy.Bson.ByteOrder.{ByteOrder}

-- `astarte_bson_serializer_t`; `buf` is none for NULL.
pub record Serializer : Type 0 where
  pub capacity : ℕ
  pub size : ℕ
  pub buf : Option (List ℕ)
  pub terminated : Bool

-- A call that updates the serializer: what was written before an error stays written.
pub data Written : Type 0 where
  done : Serializer → Written
  failed : Code → Serializer → Written
  fault : Written

infixl 5 ◌>>=◌
abbrev pub ◌>>=◌ : Written → (Serializer → Written) → Written
done s >>= f = f s
failed c s >>= f = failed c s
fault >>= f = fault

abbrev pub int32_max : ℕ
int32_max = 2147483647

-- The bytes of a C string with its terminator: `strlen(name) + 1` bytes.
abbrev pub c_string : List ℕ → List ℕ
c_string s = s ++ (0 ∷ [])

pub get_serialized : Serializer → Option (List ℕ × ℕ)
get_serialized s =
    if s.terminated then elim (s.buf) [ none ↦ none | some bytes ↦ some (bytes, s.size) ] else none

-- The decimal digits that `snprintf("%i")` writes for a number below 10 ^ fuel.
unfoldable pub decimal : ℕ → ℕ → List ℕ
decimal zero n = []
decimal (suc fuel) n =
    let front = decimal fuel (n / 10) in
    if ltb n 10 then (n + b'0') ∷ [] else front ++ ((n % 10 + b'0') ∷ [])

-- `MAX(capacity * 2, 64)`, or what is needed if that is more.
pub new_capacity : Serializer → ℕ → ℕ
new_capacity s needed =
    let doubled : ℕ = max (mul32 s.capacity 2) 64 in
    if ltb doubled (add32 s.capacity needed) then add32 s.capacity needed else doubled

-- `memcpy(bson->buf + bson->size, bytes, count)` and the new size.
pub store_at : Option (List ℕ) → List ℕ → Serializer → Written
store_at none bytes s = fault
store_at (some old) bytes s =
    if leb (s.size + length bytes) s.capacity
    then done (record s { buf = some (old ++ bytes); size = add32 s.size (length bytes) })
    else fault

pub store : Serializer → List ℕ → Written
unfolding store_at
store s bytes = store_at s.buf bytes s

module _ (grant : ℕ → Bool) where
  pub byte_array_init : List ℕ → Written
  byte_array_init bytes =
      if grant (length bytes)
      then done (record {
        capacity = length bytes;
        size = length bytes;
        buf = some bytes;
        terminated = false;
      })
      else failed out_of_memory
          (record { capacity = length bytes; size = length bytes; buf = none; terminated = false })

  pub init : Written
  init = byte_array_init (0 ∷ 0 ∷ 0 ∷ 0 ∷ [])

  pub byte_array_grow : Serializer → ℕ → Written
  byte_array_grow s needed =
      if leb (add32 s.size needed) s.capacity
      then done s
      else if grant (new_capacity s needed)
      then done (record s { capacity = new_capacity s needed })
      else failed out_of_memory s

  pub byte_array_append_byte : ℕ → Serializer → Written
  byte_array_append_byte byte s = do s' ← byte_array_grow s 1; store s' (byte ∷ [])

  pub byte_array_append : List ℕ → Serializer → Written
  byte_array_append bytes s = do
    s' ← byte_array_grow s (length bytes)
    if ltb 0 (length bytes) then store s' bytes else done s'

  -- The type byte and the name in front of a value.
  pub append_header : ℕ → List ℕ → Serializer → Written
  append_header type name s = do
    s₁ ← byte_array_append_byte type s
    byte_array_append (c_string name) s₁

  pub append_fixed : ℕ → List ℕ → List ℕ → Serializer → Written
  append_fixed type bytes name s =
      if s.terminated
      then failed bson_serializer_error s
      else append_header type name s >>= byte_array_append bytes

  pub append_boolean : Bool → List ℕ → Serializer → Written
  append_boolean value name s =
      if s.terminated
      then failed bson_serializer_error s
      else append_header type_boolean name s >>= byte_array_append_byte (if value then 1 else 0)

  module _ (bo : ByteOrder) where
    -- The first four bytes are replaced by the size.
    pub replace_size : Option (List ℕ) → Serializer → Written
    replace_size none s = fault
    replace_size (some bytes) s =
        if leb 4 s.capacity
        then done (record s { buf = some (bo.put_le32 s.size ++ drop 4 bytes); terminated = true })
        else fault

    pub append_end_of_document : Serializer → Written
    append_end_of_document s =
        if s.terminated
        then failed bson_serializer_error s
        else byte_array_append_byte 0 s >>= λ s'. replace_size s'.buf s'

    -- Numbers are given by their bit patterns.
    pub append_double : ℕ → List ℕ → Serializer → Written
    append_double bits = append_fixed type_double (bo.put_le64 bits)

    pub append_int32 : ℕ → List ℕ → Serializer → Written
    append_int32 bits = append_fixed type_int32 (bo.put_le32 bits)

    pub append_int64 : ℕ → List ℕ → Serializer → Written
    append_int64 bits = append_fixed type_int64 (bo.put_le64 bits)

    pub append_datetime : ℕ → List ℕ → Serializer → Written
    append_datetime bits = append_fixed type_datetime (bo.put_le64 bits)

    pub append_binary : List ℕ → List ℕ → Serializer → Written
    append_binary value name s =
        if s.terminated
        then failed bson_serializer_error s
        else if ltb int32_max (length value)
        then failed invalid_param s
        else do
          s₁ ← append_header type_binary name s
          s₂ ← byte_array_append (bo.put_le32 (length value)) s₁
          s₃ ← byte_array_append_byte subtype_default_binary s₂
          byte_array_append value s₃

    pub append_string : List ℕ → List ℕ → Serializer → Written
    append_string string name s =
        if s.terminated
        then failed bson_serializer_error s
        else if ltb int32_max (length string)
        then failed invalid_param s
        else do
          s₁ ← append_header type_string name s
          s₂ ← byte_array_append (bo.put_le32 (add32 (length string) 1)) s₁
          byte_array_append (c_string string) s₂

    -- As many bytes of `document` as its first four say.
    pub append_document : List ℕ → List ℕ → Serializer → Written
    append_document document name s =
        if s.terminated
        then failed bson_serializer_error s
        else if ltb (length document) 4
        then fault
        else append_header type_document name s >>= λ s₁.
            let size : ℕ = bo.get_le32 (take 4 document) in
            if ltb (length document) size then fault else byte_array_append (take size document) s₁

    -- The elements of an array, with the index for a name; `i` is the loop's counter.
    pub append_items {ℓ} :
        {A : Type ℓ} → (A → List ℕ → Serializer → Written) → List A → ℕ → Serializer → Written
    append_items append [] i s = done s
    append_items append (x ∷ xs) i s = do
      s' ← append x (decimal 10 i) s
      append_items append xs (i + 1) s'

    -- The array as a value of the outer document, from what `get_serialized` returned.
    pub append_serialized : Option (List ℕ × ℕ) → List ℕ → Serializer → Written
    append_serialized none name s = failed internal_error s
    append_serialized (some (document, size)) name s =
        append_header type_array name s >>= byte_array_append document

    -- What `append_<type>_array` does with the inner serializer, which is destroyed on every way
    -- out, so that only its error is passed on.
    pub append_inner : Written → List ℕ → Serializer → Written
    append_inner fault name s = fault
    append_inner (failed c inner) name s = failed c s
    append_inner (done inner) name s = append_serialized (get_serialized inner) name s

    -- `append_<type>_array` and `append_binary_array`: the array is a document of its own.
    pub append_array {ℓ} :
        {A : Type ℓ} → (A → List ℕ → Serializer → Written) → List A → List ℕ → Serializer → Written
    append_array append items name s =
        if s.terminated
        then failed bson_serializer_error s
        else append_inner
            (do empty ← init; full ← append_items append items 0 empty; append_end_of_document full)
            name s

pub destroy : Serializer → Serializer
destroy s = record { capacity = 0; size = 0; buf = none; terminated = false }
