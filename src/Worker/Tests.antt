-- ===== src/Worker/Tests.antt =====
-- Runs of the worker.
use astarte_device_sdk_zephy.Prelude.{ℕ, ◌+◌, refl, inl, some, none, List, [], ◌∷◌, arith}
use astarte_device_sdk_zephy.Result.{Returns, ok}
use astarte_device_sdk_zephy.TransQueue.Message.{
  QueueMsg, InterfaceMsg, VolatileMsg, op_add_interface, copy_string, copy_payload,
  msg_from_volatile_msg_deep_cpy,
}
use astarte_device_sdk_zephy.TransQueue.Parts.{
  from_volatile, from_storage, from_interface, is_interface_operation,
}
use astarte_device_sdk_zephy.TransQueue.Backlog.{in_volatile, in_storage, in_interface, delivered}
use astarte_device_sdk_zephy.TransQueue.Examples.{Slots, Shelf, calls}
use astarte_device_sdk_zephy.TransQueue.Tests.{
  volatile_at, stored_at, interface_at, busy, busy-backlog, backlog, reading, granted,
}
use astarte_device_sdk_zephy.Worker.{
  WorkerCalls, Worker, process_transmission_queue, refill_transmission_tokens,
}
use astarte_device_sdk_zephy.Worker.Discards.{IsProper}
use astarte_device_sdk_zephy.Worker.Order.{IsPassed, process_in_order}
use astarte_device_sdk_zephy.Worker.Drained.{Delivers, IsDrained, passes, passes_drain}
use astarte_device_sdk_zephy.Worker.Pacing.{IsPaced, refill_transmission_tokens-IsPaced}

-- The parts count what is published.
abbrev parts : WorkerCalls ℕ
parts = record {
  introspection_update = λ msg p. p;
  introspection_remove = λ msg p. p;
  publish_data = λ msg p. (ok tt, p + 1);
  uptime = λ p. 1000;
  msleep = λ ms p. p;
  put_error = λ code p. p;
}

abbrev at_work : Worker (Slots VolatileMsg 2) (Slots InterfaceMsg 2) Shelf ℕ
at_work = record { transmission_queue = busy; tokens = 3; peers = 0 }

process_in_order_example :
    Returns
      (IsPassed calls ⊥ parts
        (in_storage (stored_at 5)
          ∷ in_interface (interface_at 7)
          ∷ in_volatile (volatile_at 8)
          ∷ [])
        (record (reading 1) { payload = some (1 ∷ 2 ∷ []); payload_len = 2; qos = 1 })
        at_work)
      (process_transmission_queue calls parts granted 990 at_work)
unfolding IsProper delivered from_volatile msg_from_volatile_msg_deep_cpy copy_string copy_payload
process_in_order_example =
    process_in_order calls ⊥ parts (λ m p. inl refl) granted 990 at_work
      (in_volatile (volatile_at 3))
      (in_storage (stored_at 5) ∷ in_interface (interface_at 7) ∷ in_volatile (volatile_at 8) ∷ [])
      (record (reading 1) { payload = some (1 ∷ 2 ∷ []); payload_len = 2; qos = 1 }) busy-backlog tt
      refl

refill_transmission_tokens-IsPaced_example :
    IsPaced 1000 (9, 941) (refill_transmission_tokens 1000 (9, 941))
refill_transmission_tokens-IsPaced_example =
    refill_transmission_tokens-IsPaced 1000 9 941 (omega arith) (omega arith)

abbrev rested : Worker (Slots VolatileMsg 2) (Slots InterfaceMsg 2) Shelf ℕ
rested = record { transmission_queue = busy; tokens = 10; peers = 0 }

abbrev volatile_msg : QueueMsg
volatile_msg = record (reading 1) { payload = some (1 ∷ 2 ∷ []); payload_len = 2; qos = 1 }

abbrev stored_msg : QueueMsg
stored_msg = record (reading 2) { payload = none; payload_len = 0; qos = 2 }

abbrev interface_msg : QueueMsg
interface_msg = record {
  operation = op_add_interface;
  interface = none;
  interface_name = none;
  path = none;
  payload = none;
  payload_len = 0;
  qos = 0;
  retention = 0;
}

abbrev messages : List QueueMsg
messages = volatile_msg ∷ stored_msg ∷ interface_msg ∷ volatile_msg ∷ []

passes_drain_example :
    Returns (IsDrained calls parts messages 0) (passes calls parts granted 990 4 rested)
unfolding Delivers IsProper is_interface_operation delivered from_volatile from_storage
    from_interface msg_from_volatile_msg_deep_cpy copy_string copy_payload
passes_drain_example =
    passes_drain calls parts (λ m p. refl) granted 990 rested backlog messages busy-backlog
      (tt, (refl, (tt, (refl, (refl, (refl, (tt, (refl, tt)))))))) (omega arith)
