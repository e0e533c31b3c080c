-- ===== src/Data.antt =====
-- The values that a device sends: include/astarte_device_sdk/data.h, with
-- lib/astarte_device_sdk/data/serialize.c, and the entries of lib/astarte_device_sdk/object.c.
pub mod Encoding
pub mod Elements
pub mod RoundTrip
mod Tests
mod ReadTests
use astarte_device_sdk_zephy.Prelude.{ℕ, Bool, List, [], ◌∷◌}
use astarte_device_sdk_zephy.Bson.ByteOrder.{ByteOrder}
use astarte_device_sdk_zephy.Bson.Serializer.{
  Serializer, Written, done, ◌>>=◌, append_boolean, append_double, append_int32, append_int64,
  append_datetime, append_binary, append_string, append_array,
}

-- `astarte_data_t`: the tag is the constructor. Numbers are bit patterns, strings and blobs are the
-- bytes that they point to; lengths are those that an `int` holds. A tag that is no enumerator,
-- which `serialize` refuses, and the flag `is_owned` are left out.
pub data Data : Type 0 where
  binaryblob : List ℕ → Data
  boolean : Bool → Data
  datetime : ℕ → Data
  double : ℕ → Data
  integer : ℕ → Data
  longinteger : ℕ → Data
  string : List ℕ → Data
  binaryblob_array : List (List ℕ) → Data
  boolean_array : List Bool → Data
  datetime_array : List ℕ → Data
  double_array : List ℕ → Data
  integer_array : List ℕ → Data
  longinteger_array : List ℕ → Data
  string_array : List (List ℕ) → Data

module _ (grant : ℕ → Bool) (bo : ByteOrder) where
  -- `astarte_data_serialize`; `key` is the name.
  pub serialize : Data → List ℕ → Serializer → Written
  serialize (integer n) key = append_int32 grant bo n key
  serialize (longinteger n) key = append_int64 grant bo n key
  serialize (double n) key = append_double grant bo n key
  serialize (string t) key = append_string grant bo t key
  serialize (binaryblob b) key = append_binary grant bo b key
  serialize (boolean b) key = append_boolean grant b key
  serialize (datetime n) key = append_datetime grant bo n key
  serialize (integer_array l) key = append_array grant bo (append_int32 grant bo) l key
  serialize (longinteger_array l) key = append_array grant bo (append_int64 grant bo) l key
  serialize (double_array l) key = append_array grant bo (append_double grant bo) l key
  serialize (string_array l) key = append_array grant bo (append_string grant bo) l key
  serialize (binaryblob_array l) key = append_array grant bo (append_binary grant bo) l key
  serialize (boolean_array l) key = append_array grant bo (append_boolean grant) l key
  serialize (datetime_array l) key = append_array grant bo (append_datetime grant bo) l key

  -- `astarte_object_entries_serialize`: an entry is a path and its data.
  pub entries_serialize : List (List ℕ × Data) → Serializer → Written
  entries_serialize [] s = done s
  entries_serialize ((path, d) ∷ entries) s = do
    s' ← serialize d path s
    entries_serialize entries s'
