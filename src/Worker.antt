-- ===== src/Worker.antt =====
-- lib/astarte_device_sdk/device/core.c: what the worker thread does for the transmission while the
-- device is connected. Both times come from `k_uptime_get`, which does not run backwards.
pub mod Discards
pub mod Order
pub mod Pacing
pub mod Drained
mod Tests
use astarte_device_sdk_zephy.Prelude.{
  ℕ, ◌+◌, ◌-◌, ◌*◌, ◌/◌, Bool, none, leb, ltb, ◌==◌, if◌then◌else◌,
}
use astarte_device_sdk_zephy.Result.{Outcome, Status, Code, ok, err, fault, stuck, ◌>>=◌}
use astarte_device_sdk_zephy.TransQueue.{Queue, peek, discard_interface, discard_by_retention}
use astarte_device_sdk_zephy.TransQueue.Message.{
  QueueMsg, Operation, op_data, op_add_interface, op_remove_interface, Grants,
}
use astarte_device_sdk_zephy.TransQueue.Parts.{Calls}

abbrev pub max_tokens : ℕ
max_tokens = 10

abbrev pub token_value_ms : ℕ
token_value_ms = 20

abbrev pub empty_queue_waiting_ms : ℕ
empty_queue_waiting_ms = 100

abbrev pub error_retry_delay_ms : ℕ
error_retry_delay_ms = 50

-- The tokens, and the time up to which they were generated.
unfoldable pub refill_transmission_tokens : ℕ → ℕ × ℕ → ℕ × ℕ
refill_transmission_tokens now (tokens, last_refill) =
    let elapsed : ℕ = now - last_refill in
    let generated : ℕ = elapsed / token_value_ms in
    if leb token_value_ms elapsed
    then (
      if ltb max_tokens (tokens + generated) then max_tokens else tokens + generated,
      last_refill + generated * token_value_ms,
    )
    else (tokens, last_refill)

-- What the worker calls, on the state `P` of the parts: the functions of introspection.c, whose
-- results are only logged, the dispatcher, the clock, `k_msleep`, and the queue of events.
pub record WorkerCalls (P : Type 0) : Type 0 where
  pub introspection_update : QueueMsg → P → P
  pub introspection_remove : QueueMsg → P → P
  pub publish_data : QueueMsg → P → Status × P
  pub uptime : P → ℕ
  pub msleep : ℕ → P → P
  pub put_error : Code → P → P

pub record Worker (V I S P : Type 0) : Type 0 where
  pub transmission_queue : Queue V I S
  pub tokens : ℕ
  pub peers : P

-- `msg` before the peek.
abbrev pub no_msg : QueueMsg
no_msg = record {
  operation = op_data;
  interface = none;
  interface_name = none;
  path = none;
  payload = none;
  payload_len = 0;
  qos = 0;
  retention = 0;
}

-- The status of the discard is only logged.
unfoldable pub kept : {Q : Type 0} → Status × Q → Outcome Q
kept (ok _, q) = ok q
kept (err c, q) = ok q
kept (fault, q) = fault
kept (stuck, q) = stuck

module _ {V I S P : Type 0} (calls : Calls V I S) (parts : WorkerCalls P) where
  unfoldable pub interface_updated : QueueMsg → Operation → P → P
  interface_updated msg op_data p = p
  interface_updated msg op_add_interface p = parts.introspection_update msg p
  interface_updated msg op_remove_interface p = parts.introspection_remove msg p

  unfoldable pub process_interface : Worker V I S P → QueueMsg → Outcome (Worker V I S P)
  process_interface w msg = do
    q ← kept (discard_interface calls w.transmission_queue)
    ok (record w { transmission_queue = q; peers = interface_updated msg msg.operation w.peers })

  -- Without a token: wait for the next one.
  unfoldable pub wait_for_token : ℕ → P → P
  wait_for_token last_refill p =
      let wait_ms : ℕ = token_value_ms - (parts.uptime p - last_refill) in
      if ltb 0 wait_ms then parts.msleep wait_ms p else p

  unfoldable pub published : Status × P → Worker V I S P → QueueMsg → Outcome (Worker V I S P)
  published (ok _, p) w msg = do
    q ← kept (discard_by_retention calls w.transmission_queue msg.retention)
    ok (record { transmission_queue = q; tokens = w.tokens - 1; peers = p })
  published (err c, p) w msg =
      ok (record w { peers = parts.msleep error_retry_delay_ms (parts.put_error c p) })
  published (fault, p) w msg = fault
  published (stuck, p) w msg = stuck

  unfoldable pub process_data : ℕ → Worker V I S P → QueueMsg → Outcome (Worker V I S P)
  process_data last_refill w msg =
      if w.tokens == 0
      then ok (record w { peers = wait_for_token last_refill w.peers })
      else published (parts.publish_data msg w.peers) w msg

  unfoldable pub process_msg : ℕ → Worker V I S P → Operation → QueueMsg → Outcome (Worker V I S P)
  process_msg last_refill w op_data msg = process_data last_refill w msg
  process_msg last_refill w op_add_interface msg = process_interface w msg
  process_msg last_refill w op_remove_interface msg = process_interface w msg

  unfoldable pub process_peeked : ℕ → Worker V I S P → Outcome QueueMsg → Outcome (Worker V I S P)
  process_peeked last_refill w (ok msg) = process_msg last_refill w msg.operation msg
  process_peeked last_refill w (err c) =
      ok (record w { peers = parts.msleep empty_queue_waiting_ms w.peers })
  process_peeked last_refill w fault = fault
  process_peeked last_refill w stuck = stuck

  -- `process_transmission_queue`
  unfoldable pub process_transmission_queue : Grants → ℕ → Worker V I S P → Outcome (Worker V I S P)
  process_transmission_queue grant last_refill w =
      process_peeked last_refill w (peek calls grant w.transmission_queue no_msg)
