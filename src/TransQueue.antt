-- ===== src/TransQueue.antt =====
-- lib/astarte_device_sdk/device/transmission_queue.c: the queue of outgoing messages, which is three
-- queues of the kernel and the stored messages of storage/trans.c. The pointers `handle` and `msg`
-- are not NULL here; the storage is there (CONFIG_ASTARTE_DEVICE_SDK_PERMANENT_STORAGE).
pub mod Kernel
pub mod Message
pub mod Parts
pub mod Backlog
pub mod Places
pub mod Abstraction
pub mod Eviction
pub mod Insertion
pub mod Refinement
pub mod Clearing
pub mod Examples
pub mod Tests
pub mod Oldest
pub mod Removal
use astarte_device_sdk_zephy.Prelude.{
  ℕ, Bool, true, false, ◌||◌, Option, none, some, ◌==◌, if◌then◌else◌, add64,
}
use astarte_device_sdk_zephy.Result.{
  Outcome, Status, ok, err, fault, stuck, ◌>>=◌, invalid_param, internal_error, not_found,
}
use astarte_device_sdk_zephy.TransStorage.{Indexes}
use astarte_device_sdk_zephy.TransStorage.Message.{StoredMsg}
use astarte_device_sdk_zephy.TransQueue.Message.{
  QueueMsg, InterfaceMsg, VolatileMsg, retention_discard, retention_volatile, retention_stored,
  Grants, volatile_msg_init,
}
use astarte_device_sdk_zephy.TransQueue.Parts.{
  StorageCalls, Clock, Calls, is_system_time_valid, get_system_timestamp, is_interface_operation,
  invalid_message, put_evicting, put_status, get_all, insert_stored_msg, discard_all,
  interface_msg_of, stored_found, choose_oldest,
}

-- `struct astarte_device_transmission_queue`
pub record Queue (V I S : Type 0) : Type 0 where
  pub discard_msgq : V
  pub interface_msgq : I
  pub volatile_msgq : V
  pub system_time_valid : Bool
  pub storage : S
  pub storage_indexes : Indexes
  pub next_sequence_number : ℕ

-- The number that `init` starts from, by what the storage answers.
unfoldable pub resumed : Outcome ℕ → Outcome ℕ
resumed (ok last_seq) = ok (add64 last_seq 1)
resumed (err c) = ok 0
resumed fault = fault
resumed stuck = stuck

-- Every error becomes INTERNAL_ERROR.
unfoldable pub or_internal_error : Outcome Indexes → Outcome Indexes
or_internal_error (err c) = err internal_error
or_internal_error r = r

unfoldable pub got : {A Q : Type 0} → Option A × Q → Status × Q
got (none, q) = (err not_found, q)
got (some a, q) = (ok tt, q)

unfoldable pub with_interface : {V I S : Type 0} → Queue V I S → Status × I → Status × Queue V I S
with_interface q (r, i) = (r, record q { interface_msgq = i })

unfoldable pub with_discard : {V I S : Type 0} → Queue V I S → Status × V → Status × Queue V I S
with_discard q (r, v) = (r, record q { discard_msgq = v })

unfoldable pub with_volatile : {V I S : Type 0} → Queue V I S → Status × V → Status × Queue V I S
with_volatile q (r, v) = (r, record q { volatile_msgq = v })

unfoldable pub with_storage :
    {V I S : Type 0} → Queue V I S → Status × S × Indexes → Status × Queue V I S
with_storage q (r, s, indexes) = (r, record q { storage = s; storage_indexes = indexes })

module _ {V I S : Type 0} (calls : Calls V I S) where
  -- `astarte_transmission_queue_init`
  pub init : Clock → S → Outcome (Queue V I S)
  init clock storage = do
    indexes ← or_internal_error (calls.storage_calls.get_indexes storage)
    next ← resumed (calls.storage_calls.get_last_sequence_number storage indexes)
    ok (record {
      discard_msgq = calls.volatile_calls.init;
      interface_msgq = calls.interface_calls.init;
      volatile_msgq = calls.volatile_calls.init;
      system_time_valid = is_system_time_valid clock;
      storage = storage;
      storage_indexes = indexes;
      next_sequence_number = next;
    })

  -- `insert_volatile_msg` on the queue for volatile or for discard messages.
  unfoldable pub insert_volatile_msg : V → Outcome VolatileMsg → Status × V
  insert_volatile_msg q (ok m) = put_status (put_evicting calls.volatile_calls q m)
  insert_volatile_msg q (err c) = (err c, q)
  insert_volatile_msg q fault = (fault, q)
  insert_volatile_msg q stuck = (stuck, q)

  -- Which queue the message goes to.
  unfoldable pub insert_by_kind : Grants → Queue V I S → QueueMsg → ℕ → ℕ → Status × Queue V I S
  insert_by_kind grant q msg timestamp_ms seq_num =
      if is_interface_operation msg.operation
      then with_interface q (
          put_status (
            put_evicting calls.interface_calls q.interface_msgq
              (interface_msg_of msg timestamp_ms seq_num)))
      else if msg.retention == retention_discard
      then with_discard q
          (insert_volatile_msg q.discard_msgq (volatile_msg_init grant msg timestamp_ms seq_num))
      else if msg.retention == retention_volatile
      then with_volatile q
          (insert_volatile_msg q.volatile_msgq (volatile_msg_init grant msg timestamp_ms seq_num))
      else if msg.retention == retention_stored
      then with_storage q (
          insert_stored_msg calls.storage_calls q.storage q.storage_indexes msg timestamp_ms
            seq_num)
      else (err invalid_param, q)

  -- `astarte_transmission_queue_insert`; a sequence number is spent on every message that passes
  -- the checks.
  unfoldable pub insert : Grants → Clock → Queue V I S → QueueMsg → Status × Queue V I S
  insert grant clock q msg =
      if invalid_message msg
      then (err invalid_param, q)
      else insert_by_kind grant (record q { next_sequence_number = add64 q.next_sequence_number 1 })
          msg (get_system_timestamp q.system_time_valid clock) q.next_sequence_number

  -- `astarte_transmission_queue_peek`
  unfoldable pub peek : Grants → Queue V I S → QueueMsg → Outcome QueueMsg
  peek grant q msg = do
    storage_msg ← stored_found (calls.storage_calls.peek q.storage q.storage_indexes)
    choose_oldest grant msg (calls.interface_calls.peek q.interface_msgq)
        (calls.volatile_calls.peek q.volatile_msgq) (calls.volatile_calls.peek q.discard_msgq)
        storage_msg

  -- `astarte_transmission_queue_discard_by_retention`
  unfoldable pub discard_by_retention : Queue V I S → ℕ → Status × Queue V I S
  discard_by_retention q retention =
      if retention == retention_volatile
      then with_volatile q (got (calls.volatile_calls.get q.volatile_msgq))
      else if retention == retention_discard
      then with_discard q (got (calls.volatile_calls.get q.discard_msgq))
      else if retention == retention_stored
      then with_storage q (calls.storage_calls.discard q.storage q.storage_indexes)
      else (err invalid_param, q)

  -- `astarte_transmission_queue_discard_interface`
  unfoldable pub discard_interface : Queue V I S → Status × Queue V I S
  discard_interface q = with_interface q (got (calls.interface_calls.get q.interface_msgq))

  -- `astarte_transmission_queue_purge_discard`
  unfoldable pub purge_discard : ℕ → Queue V I S → Outcome (Queue V I S)
  purge_discard fuel q = do
    discard ← get_all calls.volatile_calls fuel (calls.volatile_calls.get q.discard_msgq)
    ok (record q { discard_msgq = discard })

  -- `astarte_transmission_queue_clear`; the fuel bounds the messages of one place.
  unfoldable pub clear : ℕ → Queue V I S → Outcome (Queue V I S)
  clear fuel q = do
    discard ← get_all calls.volatile_calls fuel (calls.volatile_calls.get q.discard_msgq)
    volatile ← get_all calls.volatile_calls fuel (calls.volatile_calls.get q.volatile_msgq)
    (storage, indexes) ←
        discard_all calls.storage_calls fuel
          (calls.storage_calls.discard q.storage q.storage_indexes)
    ok (record q {
      discard_msgq = discard;
      volatile_msgq = volatile;
      interface_msgq = calls.interface_calls.purge q.interface_msgq;
      storage = storage;
      storage_indexes = indexes;
    })
