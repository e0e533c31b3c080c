-- ===== src/Data/ReadTests.antt =====
-- A document that is written and read back, and the theorem applied to it.
use astarte_device_sdk_zephy.Prelude.{ℕ, refl, true, some, List, [], ◌∷◌, ◌++◌, arith}
use astarte_device_sdk_zephy.Result.{◌>>=◌}
use astarte_device_sdk_zephy.Bson.Deserializer.{init_doc, element_lookup}
use astarte_device_sdk_zephy.Bson.Deserializer.Tests.{little_endian}
use astarte_device_sdk_zephy.Bson.Serializer.Format.{framed}
use astarte_device_sdk_zephy.Data.{Data, boolean, integer}
use astarte_device_sdk_zephy.Data.Encoding.{payload_of, body}
use astarte_device_sdk_zephy.Data.RoundTrip.{Holding, value_of, lookup_finds}

abbrev entries : List (List ℕ × Data)
entries = (97 ∷ [], integer 7) ∷ (98 ∷ [], boolean true) ∷ []

abbrev written : List ℕ
written = framed little_endian (body little_endian entries) ++ []

lookup_finds_example :
    Holding little_endian written
      (init_doc little_endian written (some 0) >>= λ doc.
        element_lookup little_endian written doc (98 ∷ []))
      (value_of entries (98 ∷ []))
unfolding body payload_of
lookup_finds_example =
    lookup_finds little_endian written [] entries (98 ∷ []) refl (omega arith) (omega arith)
      (omega arith)
