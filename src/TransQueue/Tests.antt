-- ===== src/TransQueue/Tests.antt =====
-- Runs of the transmission queue.
use astarte_device_sdk_zephy.Prelude.{
  ℕ, refl, inl, inr, ◌++◌, true, false, Option, none, some, List, [], ◌∷◌, arith,
}
use astarte_device_sdk_zephy.Result.{Returns}
use astarte_device_sdk_zephy.Mapping.{same_bytes}
use astarte_device_sdk_zephy.TransStorage.{key_of, padded}
use astarte_device_sdk_zephy.TransStorage.Message.{StoredMsg}
use astarte_device_sdk_zephy.TransStorage.Format.{
  bytes_of, number_of, until_nul, static_fields, field_at, extract_string, extract_payload, parsed,
}
use astarte_device_sdk_zephy.TransStorage.Access.{find_value, deleted}
use astarte_device_sdk_zephy.TransStorage.Access
use astarte_device_sdk_zephy.TransQueue.{Queue, peek, insert, clear}
use astarte_device_sdk_zephy.TransQueue.Message.{
  QueueMsg, InterfaceMsg, VolatileMsg, op_data, op_add_interface, Grants,
}
use astarte_device_sdk_zephy.TransQueue.Parts.{
  is_interface_operation, get_system_timestamp, invalid_message,
}
use astarte_device_sdk_zephy.TransQueue.Backlog.{
  Entry, in_interface, in_volatile, in_storage, entries_at, same_place, place_of, seq_of, IsAbove,
  IsBelow, IsAscending,
}
use astarte_device_sdk_zephy.TransQueue.Abstraction.{Reads, Represents}
use astarte_device_sdk_zephy.TransQueue.Oldest.{peek_first_delivered, IsPeeked}
use astarte_device_sdk_zephy.TransQueue.Clearing.{clear_total, IsCleared}
use astarte_device_sdk_zephy.TransQueue.Removal.{remove, remove_first, IsRemoved}
use astarte_device_sdk_zephy.TransQueue.Insertion.{entry_of}
use astarte_device_sdk_zephy.TransQueue.Refinement.{IsInserted, HasRoom, insert-IsInserted}
use astarte_device_sdk_zephy.TransQueue.Examples.{
  Slots, Shelf, calls, on_shelf, value_at, without_key, size_of,
}

abbrev pub sensor : Option (List ℕ)
sensor = some (b'o' ∷ b'r' ∷ b'g' ∷ [])

abbrev pub value_path : Option (List ℕ)
value_path = some (b'/' ∷ b'v' ∷ [])

abbrev pub volatile_at : ℕ → VolatileMsg
volatile_at n = record {
  interface_name = sensor;
  path = value_path;
  payload = some (1 ∷ 2 ∷ []);
  payload_len = 2;
  qos = 1;
  timestamp = 0;
  sequence_number = n;
}

abbrev pub stored_at : ℕ → StoredMsg
stored_at n = record {
  interface_name = sensor;
  path = value_path;
  payload = none;
  payload_len = 0;
  qos = 2;
  timestamp = 0;
  sequence_number = n;
}

abbrev pub interface_at : ℕ → InterfaceMsg
interface_at n = record {
  operation = op_add_interface;
  interface = none;
  timestamp = 0;
  sequence_number = n;
}

-- The stored message as storage/trans.c writes it.
abbrev stored_bytes : List ℕ
stored_bytes = static_fields (stored_at 5) 3 2 ++ (b'o' ∷ b'r' ∷ b'g' ∷ b'/' ∷ b'v' ∷ [])

storage-Reads :
    Reads ⊥ on_shelf
      ((key_of 1, stored_bytes) ∷ [])
      (record { head = 1; tail = 1 })
      (stored_at 5 ∷ [])
unfolding Reads value_at without_key size_of same_bytes padded Access.peek Access.discard deleted
    find_value parsed extract_string extract_payload until_nul field_at number_of static_fields
    bytes_of
storage-Reads = (inl refl, inl (refl, (inl refl, refl)))

-- Two volatile messages fill their queue, a stored one and an operation stand between them.
abbrev pub busy : Queue (Slots VolatileMsg 2) (Slots InterfaceMsg 2) Shelf
busy = record {
  discard_msgq = ([], omega arith);
  interface_msgq = (interface_at 7 ∷ [], omega arith);
  volatile_msgq = (volatile_at 3 ∷ volatile_at 8 ∷ [], omega arith);
  system_time_valid = false;
  storage = (key_of 1, stored_bytes) ∷ [];
  storage_indexes = record { head = 1; tail = 1 };
  next_sequence_number = 9;
}

abbrev pub backlog : List Entry
backlog =
    in_volatile (volatile_at 3)
    ∷ in_storage (stored_at 5)
    ∷ in_interface (interface_at 7)
    ∷ in_volatile (volatile_at 8)
    ∷ []

pub busy-backlog : Represents calls ⊥ busy backlog
unfolding entries_at same_place place_of IsAscending IsAbove IsBelow seq_of
busy-backlog = record {
  interface_held = refl;
  volatile_held = refl;
  discard_held = refl;
  stored = stored_at 5 ∷ [];
  storage_holds = storage-Reads;
  storage_held = refl;
  ascending = ground arith;
  below = ground arith;
  no_wrap = omega arith;
}

abbrev pub reading : ℕ → QueueMsg
reading retention = record {
  operation = op_data;
  interface = none;
  interface_name = sensor;
  path = value_path;
  payload = some (9 ∷ []);
  payload_len = 1;
  qos = 0;
  retention = retention;
}

abbrev pub granted : Grants
granted n = true

peek_first_delivered_example :
    IsPeeked calls ⊥ granted (reading 0) busy backlog (peek calls granted busy (reading 0))
peek_first_delivered_example =
    peek_first_delivered calls ⊥ granted busy (reading 0) backlog busy-backlog

remove_first_example :
    IsRemoved calls ⊥ busy
      (remove calls busy (in_volatile (volatile_at 3)))
      (in_storage (stored_at 5) ∷ in_interface (interface_at 7) ∷ in_volatile (volatile_at 8) ∷ [])
remove_first_example =
    remove_first calls ⊥ busy (in_volatile (volatile_at 3))
      (in_storage (stored_at 5) ∷ in_interface (interface_at 7) ∷ in_volatile (volatile_at 8) ∷ [])
      busy-backlog

room : HasRoom calls ⊥
room = record { interface_room = omega arith; volatile_room = omega arith }

-- The queue for volatile messages is full, so that its oldest goes.
insert-IsInserted_example :
    IsInserted calls ⊥ backlog
      (entry_of granted (reading 1) 0 9)
      (insert calls granted none busy (reading 1))
unfolding get_system_timestamp
insert-IsInserted_example =
    insert-IsInserted calls ⊥ room busy backlog busy-backlog (omega arith) granted none (reading 1)
      (unfold invalid_message in unfold is_interface_operation in refl) (inr refl)

clear_total_example : Returns (IsCleared calls ⊥) (clear calls 2 busy)
clear_total_example =
    clear_total calls ⊥ 2 busy backlog busy-backlog (omega arith) (omega arith)
      (unfold busy-backlog in omega arith)
