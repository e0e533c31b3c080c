-- ===== src/TransQueue/Insertion.antt =====
-- `astarte_transmission_queue_insert` adds a message to the backlog.
use astarte_device_sdk_zephy.Prelude.{
  ℕ, ◌+◌, ◌<◌, ◌≡◌, refl, sym, ap, ◌∙◌, Bool, true, false, List, map, arith, ◌==◌, if◌then◌else◌,
  add64, uint64_max,
}
use astarte_device_sdk_zephy.Result.{Outcome, ok, err, ◌>>=◌, invalid_param}
use astarte_device_sdk_zephy.TransQueue.Kernel.{KernelQueue}
use astarte_device_sdk_zephy.TransQueue.{Queue}
use astarte_device_sdk_zephy.TransQueue.Message.{
  QueueMsg, InterfaceMsg, VolatileMsg, Grants, volatile_msg_init, retention_discard,
  retention_volatile, retention_stored,
}
use astarte_device_sdk_zephy.TransQueue.Parts.{
  Calls, is_interface_operation, interface_msg_of, stored_msg_of, put_evicting, put_status,
}
use astarte_device_sdk_zephy.TransQueue.Backlog.{
  Entry, in_interface, in_volatile, in_discard, in_storage, at_interface, at_volatile, at_discard,
  at_storage, seq_of, entries_at, place_of, same_place, enqueue,
}
use astarte_device_sdk_zephy.TransQueue.Abstraction.{Represents}
use astarte_device_sdk_zephy.TransQueue.Eviction.{
  kept, put_evicting-kept, map-kept, enqueue_same, enqueue_other, enqueue-IsAscending,
  enqueue-IsBelow,
}

-- The entry that a message becomes: a copy of it for the volatile and discard retentions.
unfoldable pub entry_of : Grants → QueueMsg → ℕ → ℕ → Outcome Entry
entry_of grant msg timestamp seq =
    if is_interface_operation msg.operation
    then ok (in_interface (interface_msg_of msg timestamp seq))
    else if msg.retention == retention_discard
    then (volatile_msg_init grant msg timestamp seq >>= λ m. ok (in_discard m))
    else if msg.retention == retention_volatile
    then (volatile_msg_init grant msg timestamp seq >>= λ m. ok (in_volatile m))
    else if msg.retention == retention_stored
    then ok (in_storage (stored_msg_of msg timestamp seq))
    else err invalid_param

pub put_status_ok : {Q : Type 0} (p : Bool × Q) → p.0 ≡ true → put_status p ≡ (ok tt, p.1)
unfolding put_status
put_status_ok (true, q) h = refl
put_status_ok (false, q) h = absurd (ground (arith, h))

-- A queue of the kernel that holds a place holds it after the addition.
pub held_put :
    {Q A : Type 0} (kq : KernelQueue Q A) (mark : A → Entry) (q : Q) (a : A) (l : List Entry)
    → 0 < kq.capacity
    → map mark (kq.contents q) ≡ entries_at (place_of (mark a)) l
    → map mark (kq.contents (put_evicting kq q a).1)
      ≡ entries_at (place_of (mark a)) (enqueue kq.capacity l (mark a))
held_put kq mark q a l h e =
    ap (map mark) (put_evicting-kept kq q a h).1
    ∙ map-kept mark kq.capacity (kq.contents q) a
    ∙ ap (λ xs. kept kq.capacity xs (mark a)) e
    ∙ sym (enqueue_same kq.capacity l (mark a))

-- The queue once the sequence number is spent.
abbrev pub numbered : {V I S : Type 0} → Queue V I S → Queue V I S
numbered q = record q { next_sequence_number = add64 q.next_sequence_number 1 }

module _ {V I S : Type 0} (calls : Calls V I S) (fails : Type 0) where
  pub add_interface :
      (q : Queue V I S) (l : List Entry) (m : InterfaceMsg)
      → Represents calls fails q l
      → m.sequence_number ≡ q.next_sequence_number
      → q.next_sequence_number < uint64_max
      → 0 < calls.interface_calls.capacity
      → Represents calls fails
          (record (numbered q) {
            interface_msgq = (put_evicting calls.interface_calls q.interface_msgq m).1;
          })
          (enqueue calls.interface_calls.capacity l (in_interface m))
  unfolding place_of same_place seq_of
  add_interface q l m r s n c =
      let e = in_interface m in
      let k = calls.interface_calls.capacity in
      let next : add64 q.next_sequence_number 1 ≡ q.next_sequence_number + 1 = omega (arith, n) in
      record {
        interface_held =
            held_put calls.interface_calls in_interface q.interface_msgq m l c r.interface_held;
        volatile_held = r.volatile_held ∙ sym (enqueue_other k at_volatile l e refl);
        discard_held = r.discard_held ∙ sym (enqueue_other k at_discard l e refl);
        stored = r.stored;
        storage_holds = r.storage_holds;
        storage_held = r.storage_held ∙ sym (enqueue_other k at_storage l e refl);
        ascending = enqueue-IsAscending k l e r.ascending (rw s r.below);
        below = rw next (enqueue-IsBelow k q.next_sequence_number l e r.below s);
        no_wrap = omega (arith, next, n);
      }

  pub add_volatile :
      (q : Queue V I S) (l : List Entry) (m : VolatileMsg)
      → Represents calls fails q l
      → m.sequence_number ≡ q.next_sequence_number
      → q.next_sequence_number < uint64_max
      → 0 < calls.volatile_calls.capacity
      → Represents calls fails
          (record (numbered q) {
            volatile_msgq = (put_evicting calls.volatile_calls q.volatile_msgq m).1;
          })
          (enqueue calls.volatile_calls.capacity l (in_volatile m))
  unfolding place_of same_place seq_of
  add_volatile q l m r s n c =
      let e = in_volatile m in
      let k = calls.volatile_calls.capacity in
      let next : add64 q.next_sequence_number 1 ≡ q.next_sequence_number + 1 = omega (arith, n) in
      record {
        interface_held = r.interface_held ∙ sym (enqueue_other k at_interface l e refl);
        volatile_held =
            held_put calls.volatile_calls in_volatile q.volatile_msgq m l c r.volatile_held;
        discard_held = r.discard_held ∙ sym (enqueue_other k at_discard l e refl);
        stored = r.stored;
        storage_holds = r.storage_holds;
        storage_held = r.storage_held ∙ sym (enqueue_other k at_storage l e refl);
        ascending = enqueue-IsAscending k l e r.ascending (rw s r.below);
        below = rw next (enqueue-IsBelow k q.next_sequence_number l e r.below s);
        no_wrap = omega (arith, next, n);
      }

  pub add_discard :
      (q : Queue V I S) (l : List Entry) (m : VolatileMsg)
      → Represents calls fails q l
      → m.sequence_number ≡ q.next_sequence_number
      → q.next_sequence_number < uint64_max
      → 0 < calls.volatile_calls.capacity
      → Represents calls fails
          (record (numbered q) {
            discard_msgq = (put_evicting calls.volatile_calls q.discard_msgq m).1;
          })
          (enqueue calls.volatile_calls.capacity l (in_discard m))
  unfolding place_of same_place seq_of
  add_discard q l m r s n c =
      let e = in_discard m in
      let k = calls.volatile_calls.capacity in
      let next : add64 q.next_sequence_number 1 ≡ q.next_sequence_number + 1 = omega (arith, n) in
      record {
        interface_held = r.interface_held ∙ sym (enqueue_other k at_interface l e refl);
        volatile_held = r.volatile_held ∙ sym (enqueue_other k at_volatile l e refl);
        discard_held = held_put calls.volatile_calls in_discard q.discard_msgq m l c r.discard_held;
        stored = r.stored;
        storage_holds = r.storage_holds;
        storage_held = r.storage_held ∙ sym (enqueue_other k at_storage l e refl);
        ascending = enqueue-IsAscending k l e r.ascending (rw s r.below);
        below = rw next (enqueue-IsBelow k q.next_sequence_number l e r.below s);
        no_wrap = omega (arith, next, n);
      }
