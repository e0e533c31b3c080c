-- ===== src/Data/Encoding.antt =====
-- The BSON bytes of a value, described without the serializer, and that the serializer writes them.
use astarte_device_sdk_zephy.Prelude.{
  arith, ℕ, ◌≤◌, sym, Bool, List, [], ◌∷◌, ◌++◌, length, append-nil,
}
use mathlib.Core.Path.{subst}
use astarte_device_sdk_zephy.Bson.Types.{
  type_double, type_string, type_array, type_binary, type_boolean, type_datetime, type_int32,
  type_int64,
}
use astarte_device_sdk_zephy.Bson.ByteOrder.{ByteOrder}
use astarte_device_sdk_zephy.Bson.Serializer.{
  Serializer, int32_max, ◌>>=◌, init, append_end_of_document,
}
use astarte_device_sdk_zephy.Bson.Serializer.Append.{Holds, IsModest, Ends, Ends-bind, Ends-mono}
use astarte_device_sdk_zephy.Bson.Serializer.Format.{
  All, field, string_payload, binary_payload, boolean_payload, framed, items,
}
use astarte_device_sdk_zephy.Bson.Serializer.Fields.{
  Adds, Adds-bind, boolean-Adds, double-Adds, int32-Adds, int64-Adds, datetime-Adds, string-Adds,
  binary-Adds,
}
use astarte_device_sdk_zephy.Bson.Serializer.Arrays.{
  Sealed, init-Ends, end-Ends, array-Adds, length-framed_body,
}
use astarte_device_sdk_zephy.Data.{
  Data, binaryblob, boolean, datetime, double, integer, longinteger, string, binaryblob_array,
  boolean_array, datetime_array, double_array, integer_array, longinteger_array, string_array,
  serialize, entries_serialize,
}

-- The type byte of a value.
unfoldable pub type_of : Data → ℕ
type_of (binaryblob b) = type_binary
type_of (boolean b) = type_boolean
type_of (datetime n) = type_datetime
type_of (double n) = type_double
type_of (integer n) = type_int32
type_of (longinteger n) = type_int64
type_of (string t) = type_string
type_of _ = type_array

module _ (bo : ByteOrder) where
  -- The bytes behind its name.
  unfoldable pub payload_of : Data → List ℕ
  payload_of (binaryblob b) = binary_payload bo b
  payload_of (boolean b) = boolean_payload b
  payload_of (datetime n) = bo.put_le64 n
  payload_of (double n) = bo.put_le64 n
  payload_of (integer n) = bo.put_le32 n
  payload_of (longinteger n) = bo.put_le64 n
  payload_of (string t) = string_payload bo t
  payload_of (binaryblob_array l) = framed bo (items type_binary (binary_payload bo) l 0)
  payload_of (boolean_array l) = framed bo (items type_boolean boolean_payload l 0)
  payload_of (datetime_array l) = framed bo (items type_datetime bo.put_le64 l 0)
  payload_of (double_array l) = framed bo (items type_double bo.put_le64 l 0)
  payload_of (integer_array l) = framed bo (items type_int32 bo.put_le32 l 0)
  payload_of (longinteger_array l) = framed bo (items type_int64 bo.put_le64 l 0)
  payload_of (string_array l) = framed bo (items type_string (string_payload bo) l 0)

  -- The fields of an object's entries.
  unfoldable pub body : List (List ℕ × Data) → List ℕ
  body [] = []
  body ((path, d) ∷ entries) = field (type_of d) path (payload_of d) ++ body entries

-- The lengths that the BSON format can express.
abbrev pub Fits : Data → Type 0
Fits (string t) = length t ≤ int32_max
Fits (binaryblob b) = length b ≤ int32_max
Fits (string_array l) = All (λ t. length t ≤ int32_max) l
Fits (binaryblob_array l) = All (λ b. length b ≤ int32_max) l
Fits _ = Unit

abbrev pub EntryFits : List ℕ × Data → Type 0
EntryFits (path, d) = (length path ≤ int32_max) × Fits d

All-true : {A : Type 0} (xs : List A) → All (λ x. Unit) xs
All-true [] = tt
All-true (x ∷ xs) = (tt, All-true xs)

module _ (grant : ℕ → Bool) (modest : IsModest grant) (bo : ByteOrder) where
  -- `astarte_data_serialize` on every kind of value: it adds exactly the named value in the BSON
  -- format, or ends out of memory because the allocator refused a block, of at most twice the bytes that
  -- the buffer would then hold and 64 more; no write leaves the buffer.
  pub serialize_writes_format :
      (d : Data) (old key : List ℕ) (s : Serializer)
      → Fits d
      → length key ≤ int32_max
      → Holds old s
      → Adds grant old (field (type_of d) key (payload_of bo d)) (serialize grant bo d key s)
  unfolding serialize type_of payload_of
  serialize_writes_format (binaryblob b) old key s f short h =
      binary-Adds grant modest old key s h short bo b f
  serialize_writes_format (boolean b) old key s f short h =
      boolean-Adds grant modest old key s h short b
  serialize_writes_format (datetime n) old key s f short h =
      datetime-Adds grant modest old key s h short bo n
  serialize_writes_format (double n) old key s f short h =
      double-Adds grant modest old key s h short bo n
  serialize_writes_format (integer n) old key s f short h =
      int32-Adds grant modest old key s h short bo n
  serialize_writes_format (longinteger n) old key s f short h =
      int64-Adds grant modest old key s h short bo n
  serialize_writes_format (string t) old key s f short h =
      string-Adds grant modest old key s h short bo t f
  serialize_writes_format (binaryblob_array l) old key s f short h =
      array-Adds grant modest bo (λ b. length b ≤ int32_max) _ _ _
        (λ b o n t p q g. binary-Adds grant modest o n t g q bo b p) l old key s f short h
  serialize_writes_format (boolean_array l) old key s f short h =
      array-Adds grant modest bo (λ b. Unit) _ _ _
        (λ b o n t p q g. boolean-Adds grant modest o n t g q b) l old key s (All-true l) short h
  serialize_writes_format (datetime_array l) old key s f short h =
      array-Adds grant modest bo (λ b. Unit) _ _ _
        (λ b o n t p q g. datetime-Adds grant modest o n t g q bo b) l old key s (All-true l) short
        h
  serialize_writes_format (double_array l) old key s f short h =
      array-Adds grant modest bo (λ b. Unit) _ _ _
        (λ b o n t p q g. double-Adds grant modest o n t g q bo b) l old key s (All-true l) short h
  serialize_writes_format (integer_array l) old key s f short h =
      array-Adds grant modest bo (λ b. Unit) _ _ _
        (λ b o n t p q g. int32-Adds grant modest o n t g q bo b) l old key s (All-true l) short h
  serialize_writes_format (longinteger_array l) old key s f short h =
      array-Adds grant modest bo (λ b. Unit) _ _ _
        (λ b o n t p q g. int64-Adds grant modest o n t g q bo b) l old key s (All-true l) short h
  serialize_writes_format (string_array l) old key s f short h =
      array-Adds grant modest bo (λ b. length b ≤ int32_max) _ _ _
        (λ b o n t p q g. string-Adds grant modest o n t g q bo b p) l old key s f short h

  entries-Adds :
      (entries : List (List ℕ × Data)) (old : List ℕ) (s : Serializer)
      → All EntryFits entries
      → Holds old s
      → Adds grant old (body bo entries) (entries_serialize grant bo entries s)
  unfolding entries_serialize body
  entries-Adds [] old s f h = subst (λ o. Holds o s) (sym (append-nil old)) h
  entries-Adds ((path, d) ∷ entries) old s (p, f) h =
      Adds-bind grant old (field (type_of d) path (payload_of bo d)) (body bo entries)
        (serialize grant bo d path s) _ (serialize_writes_format d old path s p.1 p.0 h)
        λ s' h'. entries-Adds entries _ s' f h'

  -- Building a document: a new serializer, the entries of an object, the end. It leaves exactly the
  -- document of those entries in the BSON format, or ends out of memory because the allocator
  -- refused a block, of at most twice the bytes of the document and 64 more; no write leaves the
  -- buffer.
  pub document_written :
      (entries : List (List ℕ × Data))
      → All EntryFits entries
      → Ends grant (length (framed bo (body bo entries))) (Sealed (framed bo (body bo entries))) (
          init grant >>= λ s.
          entries_serialize grant bo entries s >>= append_end_of_document grant bo)
  document_written entries f =
      let whole = length (framed bo (body bo entries)) in
      Ends-bind grant whole _ _ (init grant) _ (init-Ends grant modest whole) λ s h.
        Ends-bind grant whole _ _ (entries_serialize grant bo entries s) _
          (Ends-mono grant _ whole _ (entries_serialize grant bo entries s)
            (omega (arith, length-framed_body bo (body bo entries)))
            (entries-Adds entries (0 ∷ 0 ∷ 0 ∷ 0 ∷ []) s f h))
          λ full g. end-Ends grant modest bo (body bo entries) full g
