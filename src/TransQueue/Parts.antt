-- ===== src/TransQueue/Parts.antt =====
-- lib/astarte_device_sdk/device/transmission_queue.c: what its operations are put together from,
-- the time stamps, the checks of a message, the eviction and the choice of the oldest message.
use astarte_device_sdk_zephy.Prelude.{
  ℕ, zero, suc, ◌*◌, ◌/◌, ◌%◌, Bool, true, false, ◌&&◌, ◌||◌, Option, none, some, ltb, ◌==◌,
  if◌then◌else◌, add64, uint64_max,
}
use astarte_device_sdk_zephy.Result.{
  Outcome, Status, ok, err, fault, stuck, ◌>>=◌, not_found, mqtt_error,
}
use astarte_device_sdk_zephy.TransStorage.{Indexes}
use astarte_device_sdk_zephy.TransStorage.Message.{StoredMsg}
use astarte_device_sdk_zephy.TransQueue.Kernel.{KernelQueue}
use astarte_device_sdk_zephy.TransQueue.Message.{
  Operation, op_data, op_add_interface, op_remove_interface, QueueMsg, InterfaceMsg, VolatileMsg,
  retention_discard, retention_stored, is_negative, is_positive, is_null, Grants,
  msg_from_volatile_msg_deep_cpy,
}

-- The functions of storage/trans.c that the queue calls, on the handle of the storage and the
-- indexes.
pub record StorageCalls (S : Type 0) : Type 0 where
  pub get_indexes : S → Outcome Indexes
  pub get_last_sequence_number : S → Indexes → Outcome ℕ
  pub push : S → Indexes → StoredMsg → Status × S × Indexes
  pub peek : S → Indexes → Outcome StoredMsg
  pub discard : S → Indexes → Status × S × Indexes

-- MIN_VALID_TIME_SEC
abbrev pub min_valid_time_sec : ℕ
min_valid_time_sec = 1767225600

-- What `sys_clock_gettime` yields: seconds and nanoseconds, as 64-bit and 32-bit patterns.
abbrev pub Clock : Type 0
Clock = Option (ℕ × ℕ)

unfoldable pub is_system_time_valid : Clock → Bool
is_system_time_valid none = false
is_system_time_valid (some (sec, nsec)) = ltb min_valid_time_sec sec && ltb sec 9223372036854775808

unfoldable pub get_system_timestamp : Bool → Clock → ℕ
get_system_timestamp false clock = 0
get_system_timestamp true none = 0
get_system_timestamp true (some (sec, nsec)) =
    add64 (sec * 1000 % 18446744073709551616) (nsec / 1000000)

unfoldable pub is_interface_operation : Operation → Bool
is_interface_operation op_data = false
is_interface_operation op_add_interface = true
is_interface_operation op_remove_interface = true

-- The checks at the beginning of `insert`.
unfoldable pub invalid_message : QueueMsg → Bool
invalid_message msg =
    if is_interface_operation msg.operation
    then is_null msg.interface
    else if is_null msg.interface_name || is_null msg.path
    then true
    else is_negative msg.payload_len || (is_positive msg.payload_len && is_null msg.payload)

unfoldable pub put_status : {Q : Type 0} → Bool × Q → Status × Q
put_status (true, q) = (ok tt, q)
put_status (false, q) = (err mqtt_error, q)

-- Every error of the last attempt is reported as MQTT_ERROR.
unfoldable pub push_status : {S : Type 0} → Status × S × Indexes → Status × S × Indexes
push_status (err c, s, indexes) = (err mqtt_error, s, indexes)
push_status (r, s, indexes) = (r, s, indexes)

unfoldable pub stored_msg_of : QueueMsg → ℕ → ℕ → StoredMsg
stored_msg_of msg timestamp_ms sequence_number = record {
  interface_name = msg.interface_name;
  path = msg.path;
  payload = msg.payload;
  payload_len = msg.payload_len;
  qos = msg.qos;
  timestamp = timestamp_ms;
  sequence_number = sequence_number;
}

module _ {Q A : Type 0} (kq : KernelQueue Q A) where
  -- After the oldest item was taken to make place.
  unfoldable pub retry_put : Option A × Q → A → Bool × Q
  retry_put (none, q) a = (false, q)
  retry_put (some oldest, q) a = kq.put q a

  unfoldable pub evict_if_full : Bool × Q → A → Bool × Q
  evict_if_full (true, q) a = (true, q)
  evict_if_full (false, q) a = retry_put (kq.get q) a

  -- `k_msgq_put`, and again after `k_msgq_get` where the queue is full.
  unfoldable pub put_evicting : Q → A → Bool × Q
  put_evicting q a = evict_if_full (kq.put q a) a

  -- `while (k_msgq_get(..) == 0)`, with fuel for the number of items.
  unfoldable pub get_all : ℕ → Option A × Q → Outcome Q
  get_all fuel (none, q) = ok q
  get_all zero (some a, q) = stuck
  get_all (suc fuel) (some a, q) = get_all fuel (kq.get q)

module _ {S : Type 0} (st : StorageCalls S) where
  unfoldable pub retry_push : Status × S × Indexes → StoredMsg → Status × S × Indexes
  retry_push (ok _, s, indexes) msg = push_status (st.push s indexes msg)
  retry_push (err c, s, indexes) msg = (err mqtt_error, s, indexes)
  retry_push (r, s, indexes) msg = (r, s, indexes)

  unfoldable pub evict_if_refused : Status × S × Indexes → StoredMsg → Status × S × Indexes
  evict_if_refused (err c, s, indexes) msg = retry_push (st.discard s indexes) msg
  evict_if_refused (r, s, indexes) msg = (r, s, indexes)

  unfoldable pub insert_stored_msg : S → Indexes → QueueMsg → ℕ → ℕ → Status × S × Indexes
  insert_stored_msg s indexes msg timestamp_ms sequence_number =
      let stored = stored_msg_of msg timestamp_ms sequence_number in
      evict_if_refused (st.push s indexes stored) stored

  -- The `do` loop of `clear`, with fuel for the number of messages.
  unfoldable pub discard_all : ℕ → Status × S × Indexes → Outcome (S × Indexes)
  discard_all fuel (err c, s, indexes) = ok (s, indexes)
  discard_all fuel (fault, s, indexes) = fault
  discard_all fuel (stuck, s, indexes) = stuck
  discard_all zero (ok _, s, indexes) = stuck
  discard_all (suc fuel) (ok _, s, indexes) = discard_all fuel (st.discard s indexes)

-- What the queue calls: the two kinds of kernel queue and the storage.
pub record Calls (V I S : Type 0) : Type 0 where
  pub volatile_calls : KernelQueue V VolatileMsg
  pub interface_calls : KernelQueue I InterfaceMsg
  pub storage_calls : StorageCalls S

unfoldable pub interface_msg_of : QueueMsg → ℕ → ℕ → InterfaceMsg
interface_msg_of msg timestamp_ms sequence_number = record {
  operation = msg.operation;
  interface = msg.interface;
  timestamp = timestamp_ms;
  sequence_number = sequence_number;
}

-- The sequence number of a message that was found, UINT64_MAX where there is none.
unfoldable pub volatile_seq : Option VolatileMsg → ℕ
volatile_seq none = uint64_max
volatile_seq (some m) = m.sequence_number

unfoldable pub interface_seq : Option InterfaceMsg → ℕ
interface_seq none = uint64_max
interface_seq (some m) = m.sequence_number

unfoldable pub storage_seq : Option StoredMsg → ℕ
storage_seq none = uint64_max
storage_seq (some m) = m.sequence_number

abbrev pub lesser : ℕ → ℕ → ℕ
lesser a b = if ltb a b then a else b

-- `storage_ares`: NOT_FOUND is no error here.
unfoldable pub stored_found : Outcome StoredMsg → Outcome (Option StoredMsg)
stored_found (ok m) = ok (some m)
stored_found (err not_found) = ok none
stored_found (err c) = err c
stored_found fault = fault
stored_found stuck = stuck

unfoldable pub from_interface : Option InterfaceMsg → Outcome QueueMsg
from_interface none = fault
from_interface (some m) = ok (record {
  operation = m.operation;
  interface = m.interface;
  interface_name = none;
  path = none;
  payload = none;
  payload_len = 0;
  qos = 0;
  retention = retention_discard;
})

unfoldable pub from_volatile : Grants → Option VolatileMsg → Outcome QueueMsg
from_volatile grant none = fault
from_volatile grant (some m) = msg_from_volatile_msg_deep_cpy grant m

unfoldable pub from_discard : Grants → Option VolatileMsg → Outcome QueueMsg
from_discard grant m =
    from_volatile grant m >>= λ msg. ok (record msg { retention = retention_discard })

-- The fields that are assigned; `operation` and `interface` stay what they are in `msg`.
unfoldable pub from_storage : QueueMsg → Option StoredMsg → Outcome QueueMsg
from_storage msg none = fault
from_storage msg (some m) = ok (record {
  operation = msg.operation;
  interface = msg.interface;
  interface_name = m.interface_name;
  path = m.path;
  payload = m.payload;
  payload_len = m.payload_len;
  qos = m.qos;
  retention = retention_stored;
})

-- The second half of `peek`, on what was found in the four places.
unfoldable pub choose_oldest :
    Grants
    → QueueMsg
    → Option InterfaceMsg
    → Option VolatileMsg
    → Option VolatileMsg
    → Option StoredMsg
    → Outcome QueueMsg
choose_oldest grant msg interface_msg volatile_msg discard_msg storage_msg =
    let min_seq : ℕ = lesser (storage_seq storage_msg) (
      lesser (volatile_seq discard_msg)
        (lesser (volatile_seq volatile_msg) (interface_seq interface_msg))) in
    if min_seq == uint64_max
    then err not_found
    else if min_seq == interface_seq interface_msg
    then from_interface interface_msg
    else if min_seq == volatile_seq volatile_msg
    then from_volatile grant volatile_msg
    else if min_seq == volatile_seq discard_msg
    then from_discard grant discard_msg
    else from_storage msg storage_msg
