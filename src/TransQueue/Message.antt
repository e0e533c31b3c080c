-- ===== src/TransQueue/Message.antt =====
-- include/device/transmission_queue.h and device/transmission_queue_msg.c of
-- lib/astarte_device_sdk: the messages of the transmission queue and their copies.
use astarte_device_sdk_zephy.Prelude.{
  ℕ, Bool, true, false, ◌&&◌, Option, none, some, List, length, take, ltb, leb, if◌then◌else◌,
}
use astarte_device_sdk_zephy.Result.{Outcome, ok, err, fault, ◌>>=◌, out_of_memory}
use astarte_device_sdk_zephy.Interface.{Interface}

-- `astarte_transmission_operation_t`
pub data Operation : Type 0 where
  op_data op_add_interface op_remove_interface : Operation

-- `struct astarte_device_transmission_queue_msg`. A pointer that may be NULL is an option: a string
-- is its bytes before the terminator, a payload the bytes of its block. `int` fields are bit
-- patterns.
pub record QueueMsg : Type 0 where
  pub operation : Operation
  pub interface : Option Interface
  pub interface_name : Option (List ℕ)
  pub path : Option (List ℕ)
  pub payload : Option (List ℕ)
  pub payload_len : ℕ
  pub qos : ℕ
  pub retention : ℕ

-- `struct astarte_device_transmission_queue_interface_msg`
pub record InterfaceMsg : Type 0 where
  pub operation : Operation
  pub interface : Option Interface
  pub timestamp : ℕ
  pub sequence_number : ℕ

-- `struct astarte_device_transmission_queue_volatile_msg`
pub record VolatileMsg : Type 0 where
  pub interface_name : Option (List ℕ)
  pub path : Option (List ℕ)
  pub payload : Option (List ℕ)
  pub payload_len : ℕ
  pub qos : ℕ
  pub timestamp : ℕ
  pub sequence_number : ℕ

-- The retention policies of include/astarte_device_sdk/mapping.h.
abbrev pub retention_discard : ℕ
retention_discard = 0

abbrev pub retention_volatile : ℕ
retention_volatile = 1

abbrev pub retention_stored : ℕ
retention_stored = 2

-- The signs of an `int`.
abbrev pub is_negative : ℕ → Bool
is_negative n = leb 2147483648 n

abbrev pub is_positive : ℕ → Bool
is_positive n = ltb 0 n && ltb n 2147483648

abbrev pub is_null {ℓ} : {A : Type ℓ} → Option A → Bool
is_null none = true
is_null (some a) = false

-- Which of the blocks that a call asks for, counted from 0, the allocator grants.
abbrev pub Grants : Type 0
Grants = ℕ → Bool

-- `strlen`, `astarte_calloc` and `memcpy`; `strlen` reads through the pointer.
unfoldable pub copy_string : Bool → Option (List ℕ) → Outcome (Option (List ℕ))
copy_string granted none = fault
copy_string granted (some text) = if granted then ok (some text) else err out_of_memory

-- `astarte_malloc` and `memcpy` of the payload; without one the field stays NULL.
unfoldable pub copy_payload : Bool → ℕ → Option (List ℕ) → Outcome (Option (List ℕ))
copy_payload granted payload_len none = ok none
copy_payload granted payload_len (some payload) =
    if is_positive payload_len
    then (if granted
        then (if leb payload_len (length payload)
            then ok (some (take payload_len payload))
            else fault)
        else err out_of_memory)
    else ok none

-- `astarte_transmission_queue_volatile_msg_init`
unfoldable pub volatile_msg_init : Grants → QueueMsg → ℕ → ℕ → Outcome VolatileMsg
volatile_msg_init grant queue_msg timestamp sequence_number = do
  name ← copy_string (grant 0) queue_msg.interface_name
  path ← copy_string (grant 1) queue_msg.path
  payload ← copy_payload (grant 2) queue_msg.payload_len queue_msg.payload
  ok (record {
    interface_name = name;
    path = path;
    payload = payload;
    payload_len = queue_msg.payload_len;
    qos = queue_msg.qos;
    timestamp = timestamp;
    sequence_number = sequence_number;
  })

-- `astarte_transmission_queue_msg_from_volatile_msg_deep_cpy`
unfoldable pub msg_from_volatile_msg_deep_cpy : Grants → VolatileMsg → Outcome QueueMsg
msg_from_volatile_msg_deep_cpy grant volatile_msg = do
  name ← copy_string (grant 0) volatile_msg.interface_name
  path ← copy_string (grant 1) volatile_msg.path
  payload ← copy_payload (grant 2) volatile_msg.payload_len volatile_msg.payload
  ok (record {
    operation = op_data;
    interface = none;
    interface_name = name;
    path = path;
    payload = payload;
    payload_len = volatile_msg.payload_len;
    qos = volatile_msg.qos;
    retention = retention_volatile;
  })
