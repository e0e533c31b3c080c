-- ===== src/TransQueue/Oldest.antt =====
-- `astarte_transmission_queue_peek` finds the oldest message, and the discard functions remove it.
use astarte_device_sdk_zephy.Prelude.{
  ◌⊎◌, inl, inr, ◌<◌, ◌≡◌, refl, ap, ◌∙◌, Option, some, none, List, [], ◌∷◌, get_elem?, arith,
  uint64_max,
}
use astarte_device_sdk_zephy.Result.{Code, Outcome, ok, err, not_found}
use astarte_device_sdk_zephy.TransStorage.Message.{StoredMsg}
use astarte_device_sdk_zephy.TransQueue.{Queue, peek}
use astarte_device_sdk_zephy.TransQueue.Message.{QueueMsg, InterfaceMsg, VolatileMsg, Grants}
use astarte_device_sdk_zephy.TransQueue.Parts.{
  Calls, interface_seq, volatile_seq, storage_seq, stored_found, from_interface, from_volatile,
  from_discard, from_storage, choose_oldest,
}
use astarte_device_sdk_zephy.TransQueue.Backlog.{
  Entry, in_interface, in_volatile, in_discard, in_storage, seq_of, delivered, IsBelow, IsAscending,
  entries_at, place_of, same_place,
}
use astarte_device_sdk_zephy.TransQueue.Abstraction.{
  PeekFails, Reads, Represents, interface_seq_above, volatile_seq_above, discard_seq_above,
  storage_seq_above, map-first, map-none, in_interface_injective, in_volatile_injective,
  in_discard_injective, in_storage_injective,
}

-- The choice, by where the least number is.
module _ (grant : Grants) (msg : QueueMsg) (i : Option InterfaceMsg) (v d : Option VolatileMsg)
    (s : Option StoredMsg) where
  chooses_interface :
      interface_seq i < uint64_max
      → interface_seq i < volatile_seq v
      → interface_seq i < volatile_seq d
      → interface_seq i < storage_seq s
      → choose_oldest grant msg i v d s ≡ from_interface i
  unfolding choose_oldest
  chooses_interface h hv hd hs = ground arith

  chooses_volatile :
      volatile_seq v < uint64_max
      → volatile_seq v < interface_seq i
      → volatile_seq v < volatile_seq d
      → volatile_seq v < storage_seq s
      → choose_oldest grant msg i v d s ≡ from_volatile grant v
  unfolding choose_oldest
  chooses_volatile h hi hd hs = ground arith

  chooses_discard :
      volatile_seq d < uint64_max
      → volatile_seq d < interface_seq i
      → volatile_seq d < volatile_seq v
      → volatile_seq d < storage_seq s
      → choose_oldest grant msg i v d s ≡ from_discard grant d
  unfolding choose_oldest
  chooses_discard h hi hv hs = ground arith

  chooses_storage :
      storage_seq s < uint64_max
      → storage_seq s < interface_seq i
      → storage_seq s < volatile_seq v
      → storage_seq s < volatile_seq d
      → choose_oldest grant msg i v d s ≡ from_storage msg s
  unfolding choose_oldest
  chooses_storage h hi hv hd = ground arith

chooses_none :
    (grant : Grants) (msg : QueueMsg) → choose_oldest grant msg none none none none ≡ err not_found
unfolding choose_oldest interface_seq volatile_seq storage_seq
chooses_none grant msg = refl

-- What `peek` is expected to yield.
unfoldable pub first_delivered : Grants → QueueMsg → List Entry → Outcome QueueMsg
first_delivered grant msg [] = err not_found
first_delivered grant msg (e ∷ l) = delivered grant msg e

module _ {V I S : Type 0} (calls : Calls V I S) (fails : Type 0) where
  -- What `peek` sees, from the contents.
  seen :
      (grant : Grants) (q : Queue V I S) (msg : QueueMsg) (l : List Entry)
      (r : Represents calls fails q l)
      → stored_found (calls.storage_calls.peek q.storage q.storage_indexes)
        ≡ ok (get_elem? r.stored 0)
      → peek calls grant q msg
        ≡ choose_oldest grant msg
            (get_elem? (calls.interface_calls.contents q.interface_msgq) 0)
            (get_elem? (calls.volatile_calls.contents q.volatile_msgq) 0)
            (get_elem? (calls.volatile_calls.contents q.discard_msgq) 0)
            (get_elem? r.stored 0)
  unfolding peek
  seen grant q msg l r answer =
      rw
        (
          calls.interface_calls.peek_oldest q.interface_msgq,
          calls.volatile_calls.peek_oldest q.volatile_msgq,
          calls.volatile_calls.peek_oldest q.discard_msgq,
          answer,
        )
        refl

  -- The first entry, where the storage can be read.
  read_first :
      (grant : Grants) (q : Queue V I S) (msg : QueueMsg) (l : List Entry)
      (r : Represents calls fails q l)
      → stored_found (calls.storage_calls.peek q.storage q.storage_indexes)
        ≡ ok (get_elem? r.stored 0)
      → peek calls grant q msg ≡ first_delivered grant msg l
  unfolding first_delivered delivered entries_at place_of same_place seq_of IsAscending IsBelow
      interface_seq volatile_seq storage_seq
  read_first grant q msg [] r answer =
      seen grant q msg [] r answer
      ∙ rw
          (
            map-none in_interface in_interface_injective
                (calls.interface_calls.contents q.interface_msgq) r.interface_held,
            map-none in_volatile in_volatile_injective
                (calls.volatile_calls.contents q.volatile_msgq) r.volatile_held,
            map-none in_discard in_discard_injective (calls.volatile_calls.contents q.discard_msgq)
                r.discard_held,
            map-none in_storage in_storage_injective r.stored r.storage_held,
          )
          (chooses_none grant msg)
  read_first grant q msg (in_interface m ∷ l) r answer =
      let first =
        (map-first in_interface in_interface_injective
          (calls.interface_calls.contents q.interface_msgq) m _ r.interface_held).0 in
      let h : m.sequence_number < uint64_max = omega (arith, r.below.0, r.no_wrap) in
      seen grant q msg (in_interface m ∷ l) r answer
      ∙ rw first (
          chooses_interface grant msg (some m)
            (get_elem? (calls.volatile_calls.contents q.volatile_msgq) 0)
            (get_elem? (calls.volatile_calls.contents q.discard_msgq) 0) (get_elem? r.stored 0) h
            (volatile_seq_above m.sequence_number l h r.ascending.0
              (calls.volatile_calls.contents q.volatile_msgq) r.volatile_held)
            (discard_seq_above m.sequence_number l h r.ascending.0
              (calls.volatile_calls.contents q.discard_msgq) r.discard_held)
            (storage_seq_above m.sequence_number l h r.ascending.0 r.stored r.storage_held))
  read_first grant q msg (in_volatile m ∷ l) r answer =
      let first =
        (map-first in_volatile in_volatile_injective (calls.volatile_calls.contents q.volatile_msgq)
          m _ r.volatile_held).0 in
      let h : m.sequence_number < uint64_max = omega (arith, r.below.0, r.no_wrap) in
      seen grant q msg (in_volatile m ∷ l) r answer
      ∙ rw first (
          chooses_volatile grant msg (get_elem? (calls.interface_calls.contents q.interface_msgq) 0)
            (some m) (get_elem? (calls.volatile_calls.contents q.discard_msgq) 0)
            (get_elem? r.stored 0) h
            (interface_seq_above m.sequence_number l h r.ascending.0
              (calls.interface_calls.contents q.interface_msgq) r.interface_held)
            (discard_seq_above m.sequence_number l h r.ascending.0
              (calls.volatile_calls.contents q.discard_msgq) r.discard_held)
            (storage_seq_above m.sequence_number l h r.ascending.0 r.stored r.storage_held))
  read_first grant q msg (in_discard m ∷ l) r answer =
      let first =
        (map-first in_discard in_discard_injective (calls.volatile_calls.contents q.discard_msgq) m
          _ r.discard_held).0 in
      let h : m.sequence_number < uint64_max = omega (arith, r.below.0, r.no_wrap) in
      seen grant q msg (in_discard m ∷ l) r answer
      ∙ rw first (
          chooses_discard grant msg (get_elem? (calls.interface_calls.contents q.interface_msgq) 0)
            (get_elem? (calls.volatile_calls.contents q.volatile_msgq) 0) (some m)
            (get_elem? r.stored 0) h
            (interface_seq_above m.sequence_number l h r.ascending.0
              (calls.interface_calls.contents q.interface_msgq) r.interface_held)
            (volatile_seq_above m.sequence_number l h r.ascending.0
              (calls.volatile_calls.contents q.volatile_msgq) r.volatile_held)
            (storage_seq_above m.sequence_number l h r.ascending.0 r.stored r.storage_held))
  read_first grant q msg (in_storage m ∷ l) r answer =
      let first = (map-first in_storage in_storage_injective r.stored m _ r.storage_held).0 in
      let h : m.sequence_number < uint64_max = omega (arith, r.below.0, r.no_wrap) in
      seen grant q msg (in_storage m ∷ l) r answer
      ∙ rw first (
          chooses_storage grant msg (get_elem? (calls.interface_calls.contents q.interface_msgq) 0)
            (get_elem? (calls.volatile_calls.contents q.volatile_msgq) 0)
            (get_elem? (calls.volatile_calls.contents q.discard_msgq) 0) (some m) h
            (interface_seq_above m.sequence_number l h r.ascending.0
              (calls.interface_calls.contents q.interface_msgq) r.interface_held)
            (volatile_seq_above m.sequence_number l h r.ascending.0
              (calls.volatile_calls.contents q.volatile_msgq) r.volatile_held)
            (discard_seq_above m.sequence_number l h r.ascending.0
              (calls.volatile_calls.contents q.discard_msgq) r.discard_held))

  -- What `peek` yields: the first entry of the backlog, or the error of the storage.
  abbrev pub IsPeeked : Grants → QueueMsg → Queue V I S → List Entry → Outcome QueueMsg → Type 0
  IsPeeked grant msg q l o =
      (o ≡ first_delivered grant msg l)
      ⊎ (fails
          × ((c : Code) × ((calls.storage_calls.peek q.storage q.storage_indexes ≡ err c)
                × (o ≡ err c))))

  -- While the queue holds a backlog, where peek and discard of the storage, in the state it is
  -- in, yield the stored messages of the backlog one after the other or fail, peek yields the
  -- first entry of the backlog as the transmission is told of it, an error of the copy included,
  -- and NOT_FOUND where the backlog is empty; or the storage fails, and peek yields its error.
  pub peek_first_delivered :
      (grant : Grants) (q : Queue V I S) (msg : QueueMsg) (l : List Entry)
      → Represents calls fails q l
      → IsPeeked grant msg q l (peek calls grant q msg)
  unfolding peek
  peek_first_delivered grant q msg l r = elim (answered r.stored r.storage_holds) [
    | inl a ↦ inl (read_first grant q msg l r a)
    | inr (f, (c, e)) ↦ inr (f, (c, (e.0, rw (e.0, e.1) refl)))
  ]
    where
      answered :
          (ms : List StoredMsg)
          → Reads fails calls.storage_calls q.storage q.storage_indexes ms
          → (stored_found (calls.storage_calls.peek q.storage q.storage_indexes)
              ≡ ok (get_elem? ms 0))
            ⊎ (fails × ((c : Code) × PeekFails calls.storage_calls q.storage q.storage_indexes c))
      answered [] h =
          unfold Reads in
          elim h.0 [
            | inl e ↦ inl (ap stored_found e ∙ (unfold stored_found in refl))
            | inr f ↦ inr f
          ]
      answered (m ∷ ms) h =
          unfold Reads in
          elim h.0 [
            | inl e ↦ inl (ap stored_found e ∙ (unfold stored_found in refl))
            | inr f ↦ inr f
          ]
