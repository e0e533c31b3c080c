-- ===== src/Data/Tests.antt =====
-- A document that is serialized, and the theorems applied to it.
use astarte_device_sdk_zephy.Prelude.{
  length, ℕ, refl, Bool, true, false, some, List, [], ◌∷◌, leb, arith,
}
use astarte_device_sdk_zephy.Bson.Deserializer.Tests.{little_endian}
use astarte_device_sdk_zephy.Bson.Serializer.{Serializer, init, ◌>>=◌, append_end_of_document}
use astarte_device_sdk_zephy.Bson.Serializer.Append.{Holds, IsModest, Ends}
use astarte_device_sdk_zephy.Bson.Serializer.Format.{field, framed}
use astarte_device_sdk_zephy.Bson.Serializer.Fields.{Adds}
use astarte_device_sdk_zephy.Bson.Serializer.Arrays.{Sealed}
use astarte_device_sdk_zephy.Data.{
  Data, boolean, integer, integer_array, serialize, entries_serialize,
}
use astarte_device_sdk_zephy.Data.Encoding.{
  type_of, payload_of, body, serialize_writes_format, document_written,
}

-- An allocator that has blocks of up to 1000 bytes.
abbrev grant : ℕ → Bool
grant n = leb n 1000

grant-IsModest : IsModest grant
grant-IsModest n e = ground arith

abbrev entries : List (List ℕ × Data)
entries = (97 ∷ [], integer 7) ∷ (98 ∷ [], boolean true) ∷ []

document_written_example :
    Ends grant
      (length (framed little_endian (body little_endian entries)))
      (Sealed (framed little_endian (body little_endian entries)))
      (init grant >>= λ s.
        entries_serialize grant little_endian entries s
        >>= append_end_of_document grant little_endian)
document_written_example = document_written grant grant-IsModest little_endian entries (omega arith)

abbrev started : Serializer
started = record { capacity = 4; size = 4; buf = some (0 ∷ 0 ∷ 0 ∷ 0 ∷ []); terminated = false }

started-Holds : Holds (0 ∷ 0 ∷ 0 ∷ 0 ∷ []) started
started-Holds = record {
  stored = refl;
  sized = refl;
  fits = omega arith;
  small = omega arith;
  is_open = refl;
}

serialize_writes_format_example :
    Adds grant
      (0 ∷ 0 ∷ 0 ∷ 0 ∷ [])
      (field
        (type_of (integer_array (7 ∷ 8 ∷ [])))
        (97 ∷ [])
        (payload_of little_endian (integer_array (7 ∷ 8 ∷ []))))
      (serialize grant little_endian (integer_array (7 ∷ 8 ∷ [])) (97 ∷ []) started)
serialize_writes_format_example =
    serialize_writes_format grant grant-IsModest little_endian (integer_array (7 ∷ 8 ∷ []))
      (0 ∷ 0 ∷ 0 ∷ 0 ∷ []) (97 ∷ []) started tt (omega arith) started-Holds
