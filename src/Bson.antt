-- ===== src/Bson.antt =====
-- lib/astarte_device_sdk/bson: the BSON reader and writer, over byte sequences.
pub mod Types
pub mod ByteOrder
pub mod Memory
pub mod Deserializer
pub mod Serializer
