-- ===== src/TransStorage/Message.antt =====
-- lib/astarte_device_sdk/include/storage/trans.h: a message of the stored retention.
use astarte_device_sdk_zephy.Prelude.{ℕ, Option, List}

-- `struct astarte_storage_transmission_msg`. A pointer that may be NULL is an option: a string is
-- its bytes before the terminator, a payload the bytes of its block. `int` fields are bit patterns.
pub record StoredMsg : Type 0 where
  pub interface_name : Option (List ℕ)
  pub path : Option (List ℕ)
  pub payload : Option (List ℕ)
  pub payload_len : ℕ
  pub qos : ℕ
  pub timestamp : ℕ
  pub sequence_number : ℕ
