-- ===== src/Bson/Types.antt =====
-- lib/astarte_device_sdk/include/bson/types.h: the type bytes of BSON elements.
use astarte_device_sdk_zephy.Prelude.{ℕ}

abbrev pub type_double : ℕ
type_double = 0x01

abbrev pub type_string : ℕ
type_string = 0x02

abbrev pub type_document : ℕ
type_document = 0x03

abbrev pub type_array : ℕ
type_array = 0x04

abbrev pub type_binary : ℕ
type_binary = 0x05

abbrev pub type_boolean : ℕ
type_boolean = 0x08

abbrev pub type_datetime : ℕ
type_datetime = 0x09

abbrev pub type_int32 : ℕ
type_int32 = 0x10

abbrev pub type_int64 : ℕ
type_int64 = 0x12

abbrev pub subtype_default_binary : ℕ
subtype_default_binary = 0x00
