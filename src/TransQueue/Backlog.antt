-- ===== src/TransQueue/Backlog.antt =====
-- The specification of the transmission queue: one list of the messages that wait, in the order of
-- their sequence numbers.
use astarte_device_sdk_zephy.Prelude.{
  ℕ, ◌<◌, List, [], ◌∷◌, ◌++◌, length, ltb, if◌then◌else◌, Bool, true, false, some,
}
use astarte_device_sdk_zephy.Result.{Outcome}
use astarte_device_sdk_zephy.TransStorage.Message.{StoredMsg}
use astarte_device_sdk_zephy.TransQueue.Message.{QueueMsg, InterfaceMsg, VolatileMsg, Grants}
use astarte_device_sdk_zephy.TransQueue.Parts.{
  from_interface, from_volatile, from_discard, from_storage,
}

-- A message that waits, with the place that it waits in.
pub data Entry : Type 0 where
  in_interface : InterfaceMsg → Entry
  in_volatile : VolatileMsg → Entry
  in_discard : VolatileMsg → Entry
  in_storage : StoredMsg → Entry

pub data Place : Type 0 where
  at_interface at_volatile at_discard at_storage : Place

unfoldable pub place_of : Entry → Place
place_of (in_interface m) = at_interface
place_of (in_volatile m) = at_volatile
place_of (in_discard m) = at_discard
place_of (in_storage m) = at_storage

unfoldable pub seq_of : Entry → ℕ
seq_of (in_interface m) = m.sequence_number
seq_of (in_volatile m) = m.sequence_number
seq_of (in_discard m) = m.sequence_number
seq_of (in_storage m) = m.sequence_number

-- What the transmission is told of an entry.
unfoldable pub delivered : Grants → QueueMsg → Entry → Outcome QueueMsg
delivered grant msg (in_interface m) = from_interface (some m)
delivered grant msg (in_volatile m) = from_volatile grant (some m)
delivered grant msg (in_discard m) = from_discard grant (some m)
delivered grant msg (in_storage m) = from_storage msg (some m)

unfoldable pub IsAbove : ℕ → List Entry → Type 0
IsAbove n [] = Unit
IsAbove n (e ∷ l) = (n < seq_of e) × IsAbove n l

unfoldable pub IsBelow : ℕ → List Entry → Type 0
IsBelow n [] = Unit
IsBelow n (e ∷ l) = (seq_of e < n) × IsBelow n l

unfoldable pub IsAscending : List Entry → Type 0
IsAscending [] = Unit
IsAscending (e ∷ l) = IsAbove (seq_of e) l × IsAscending l

unfoldable pub same_place : Place → Place → Bool
same_place at_interface at_interface = true
same_place at_volatile at_volatile = true
same_place at_discard at_discard = true
same_place at_storage at_storage = true
same_place _ _ = false

-- The entries of one place.
unfoldable pub entries_at : Place → List Entry → List Entry
entries_at p [] = []
entries_at p (e ∷ l) = if same_place p (place_of e) then e ∷ entries_at p l else entries_at p l

-- Without the oldest entry of a place.
unfoldable pub without_oldest : Place → List Entry → List Entry
without_oldest p [] = []
without_oldest p (e ∷ l) = if same_place p (place_of e) then l else e ∷ without_oldest p l

-- A place for at most `capacity` entries takes one more at the cost of its oldest.
unfoldable pub enqueue : ℕ → List Entry → Entry → List Entry
enqueue capacity l e =
    (if ltb (length (entries_at (place_of e) l)) capacity then l else without_oldest (place_of e) l)
    ++ (e ∷ [])
