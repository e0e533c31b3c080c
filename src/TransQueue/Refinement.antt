-- ===== src/TransQueue/Refinement.antt =====
-- `astarte_transmission_queue_insert` against the backlog.
use astarte_device_sdk_zephy.Prelude.{
  ℕ, ◌<◌, ◌≡◌, ◌⊎◌, true, refl, inl, inr, false, List, ◌==◌, uint64_max, add64, arith, Bool-cases,
}
use astarte_device_sdk_zephy.Result.{Outcome, Status, ok, err, fault, stuck, ◌>>=◌}
use astarte_device_sdk_zephy.TransQueue.{
  Queue, insert_volatile_msg, with_interface, with_volatile, with_discard, insert_by_kind, insert,
}
use astarte_device_sdk_zephy.TransQueue.Message.{
  QueueMsg, VolatileMsg, Grants, volatile_msg_init, copy_string, copy_payload, retention_discard,
  retention_volatile, retention_stored,
}
use astarte_device_sdk_zephy.TransQueue.Parts.{
  Calls, Clock, is_interface_operation, interface_msg_of, invalid_message, get_system_timestamp,
  put_evicting, insert_stored_msg,
}
use astarte_device_sdk_zephy.TransQueue.Backlog.{
  Entry, in_interface, in_volatile, in_discard, in_storage, enqueue,
}
use astarte_device_sdk_zephy.TransQueue.Places.{IsBelow-mono}
use astarte_device_sdk_zephy.TransQueue.Abstraction.{Represents}
use astarte_device_sdk_zephy.TransQueue.Eviction.{put_evicting-kept}
use astarte_device_sdk_zephy.TransQueue.Insertion.{
  entry_of, put_status_ok, numbered, add_interface, add_volatile, add_discard,
}

bound :
    {A B : Type 0} (o : Outcome A) (f : A → Outcome B) (b : B)
    → (o >>= f) ≡ ok b
    → (a : A) × (f a ≡ ok b)
bound (ok a) f b h = (a, h)
bound (err c) f b h = absurd (ground (arith, h))
bound fault f b h = absurd (ground (arith, h))
bound stuck f b h = absurd (ground (arith, h))

copied_number :
    (grant : Grants) (msg : QueueMsg) (timestamp seq : ℕ) (m : VolatileMsg)
    → volatile_msg_init grant msg timestamp seq ≡ ok m
    → m.sequence_number ≡ seq
unfolding volatile_msg_init
copied_number grant msg timestamp seq m h =
    let name = bound (copy_string (grant 0) msg.interface_name) _ m h in
    let path = bound (copy_string (grant 1) msg.path) _ m name.1 in
    let payload = bound (copy_payload (grant 2) msg.payload_len msg.payload) _ m path.1 in
    cc (payload.1)

module _ {V I S : Type 0} (calls : Calls V I S) (fails : Type 0) where
  -- What an insertion does to the backlog `l`, by the entry that the message becomes: the new entry
  -- is the newest; a full queue of the kernel loses its oldest entry.
  unfoldable pub IsInserted : List Entry → Outcome Entry → Status × Queue V I S → Type 0
  IsInserted l (ok (in_interface m)) (r, q) =
      (r ≡ ok tt)
      × Represents calls fails q (enqueue calls.interface_calls.capacity l (in_interface m))
  IsInserted l (ok (in_volatile m)) (r, q) =
      (r ≡ ok tt)
      × Represents calls fails q (enqueue calls.volatile_calls.capacity l (in_volatile m))
  IsInserted l (ok (in_discard m)) (r, q) =
      (r ≡ ok tt)
      × Represents calls fails q (enqueue calls.volatile_calls.capacity l (in_discard m))
  IsInserted l (ok (in_storage m)) (r, q) = ⊥
  IsInserted l (err c) (r, q) = (r ≡ err c) × Represents calls fails q l
  IsInserted l fault (r, q) = r ≡ fault
  IsInserted l stuck (r, q) = r ≡ stuck

  -- An operation on an interface, or data whose retention is not stored.
  abbrev pub IsForKernel : QueueMsg → Type 0
  IsForKernel msg =
      (is_interface_operation msg.operation ≡ true) ⊎ ((msg.retention == retention_stored) ≡ false)

  -- The queues of the kernel have place for a message at least.
  pub record HasRoom : Type 0 where
    pub interface_room : 0 < calls.interface_calls.capacity
    pub volatile_room : 0 < calls.volatile_calls.capacity

  module _ (room : HasRoom) (q : Queue V I S) (l : List Entry) (r : Represents calls fails q l)
      (n : q.next_sequence_number < uint64_max) where
    same_backlog : Represents calls fails (numbered q) l
    same_backlog = record {
      interface_held = r.interface_held;
      volatile_held = r.volatile_held;
      discard_held = r.discard_held;
      stored = r.stored;
      storage_holds = r.storage_holds;
      storage_held = r.storage_held;
      ascending = r.ascending;
      below =
          IsBelow-mono q.next_sequence_number (add64 q.next_sequence_number 1) l (omega (arith, n))
            r.below;
      no_wrap = omega (arith, n);
    }

    insert_discard :
        (o : Outcome VolatileMsg)
        → ((m : VolatileMsg) → o ≡ ok m → m.sequence_number ≡ q.next_sequence_number)
        → IsInserted l
            (o >>= λ m. ok (in_discard m))
            (with_discard (numbered q) (insert_volatile_msg calls q.discard_msgq o))
    unfolding IsInserted with_discard insert_volatile_msg
    insert_discard (ok m) h =
        rw
          (put_status_ok (put_evicting calls.volatile_calls q.discard_msgq m)
            (put_evicting-kept calls.volatile_calls q.discard_msgq m room.volatile_room).0)
          (refl, add_discard calls fails q l m r (h m refl) n room.volatile_room)
    insert_discard (err c) h = (refl, same_backlog)
    insert_discard fault h = refl
    insert_discard stuck h = refl

    insert_volatile :
        (o : Outcome VolatileMsg)
        → ((m : VolatileMsg) → o ≡ ok m → m.sequence_number ≡ q.next_sequence_number)
        → IsInserted l
            (o >>= λ m. ok (in_volatile m))
            (with_volatile (numbered q) (insert_volatile_msg calls q.volatile_msgq o))
    unfolding IsInserted with_volatile insert_volatile_msg
    insert_volatile (ok m) h =
        rw
          (put_status_ok (put_evicting calls.volatile_calls q.volatile_msgq m)
            (put_evicting-kept calls.volatile_calls q.volatile_msgq m room.volatile_room).0)
          (refl, add_volatile calls fails q l m r (h m refl) n room.volatile_room)
    insert_volatile (err c) h = (refl, same_backlog)
    insert_volatile fault h = refl
    insert_volatile stuck h = refl

    -- `timestamp` is what the clock gives.
    insert_by_kind-IsInserted :
        (grant : Grants) (msg : QueueMsg) (timestamp : ℕ)
        → IsForKernel msg
        → IsInserted l
            (entry_of grant msg timestamp q.next_sequence_number)
            (insert_by_kind calls grant (numbered q) msg timestamp q.next_sequence_number)
    unfolding insert_by_kind entry_of IsInserted with_interface insert_stored_msg
    insert_by_kind-IsInserted grant msg timestamp able =
        let seq = q.next_sequence_number in
        let m = interface_msg_of msg timestamp seq in
        let copy = volatile_msg_init grant msg timestamp seq in
        elim (Bool-cases (is_interface_operation msg.operation)) [
          | inl y ↦
              rw
                (
                  y,
                  put_status_ok (put_evicting calls.interface_calls q.interface_msgq m)
                      (put_evicting-kept calls.interface_calls q.interface_msgq m
                        room.interface_room).0,
                )
                (
                  refl,
                  add_interface calls fails q l m r (unfold interface_msg_of in refl) n
                      room.interface_room,
                )
          | inr y0 ↦ rw y0 (elim (Bool-cases (msg.retention == retention_discard)) [
            | inl y ↦ rw y (insert_discard copy (copied_number grant msg timestamp seq))
            | inr y1 ↦ rw y1 (elim (Bool-cases (msg.retention == retention_volatile)) [
              | inl y ↦ rw y (insert_volatile copy (copied_number grant msg timestamp seq))
              | inr y2 ↦
                  let y3 : (msg.retention == retention_stored) ≡ false = ground (arith, y0, able) in
                  rw (y2, y3) (refl, same_backlog)
            ])
          ])
        ]

    -- While the queues of the kernel have room for a message and sequence numbers last, an insertion
    -- of a message that passes the checks, and that is not for the storage, keeps the queue an image
    -- of one backlog: the entry of the message becomes the newest, at the cost of the oldest one of
    -- its place where that is full, or the backlog stays and the error of the copy or of the
    -- retention is returned.
    pub insert-IsInserted :
        (grant : Grants) (clock : Clock) (msg : QueueMsg)
        → invalid_message msg ≡ false
        → IsForKernel msg
        → IsInserted l
            (entry_of grant msg
              (get_system_timestamp q.system_time_valid clock)
              q.next_sequence_number)
            (insert calls grant clock q msg)
    unfolding insert
    insert-IsInserted grant clock msg valid able =
        rw valid (
          insert_by_kind-IsInserted grant msg (get_system_timestamp q.system_time_valid clock) able)
