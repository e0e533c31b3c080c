-- ===== src/Worker/Discards.antt =====
-- The discard that follows a message removes its entry.
use astarte_device_sdk_zephy.Prelude.{ℕ, ◌≡◌, refl, ap, ◌∙◌, true, some, arith}
use astarte_device_sdk_zephy.Result.{Outcome, Status, ok, err, fault, stuck, ◌>>=◌}
use astarte_device_sdk_zephy.TransQueue.{Queue, discard_interface, discard_by_retention}
use astarte_device_sdk_zephy.TransQueue.Message.{
  QueueMsg, Operation, op_data, op_add_interface, op_remove_interface, Grants, copy_string,
  copy_payload, msg_from_volatile_msg_deep_cpy, VolatileMsg, retention_volatile, retention_discard,
  retention_stored,
}
use astarte_device_sdk_zephy.TransQueue.Parts.{
  Calls, is_interface_operation, from_interface, from_volatile, from_discard, from_storage,
}
use astarte_device_sdk_zephy.TransQueue.Backlog.{
  Entry, in_interface, in_volatile, in_discard, in_storage, delivered,
}
use astarte_device_sdk_zephy.TransQueue.Removal.{remove}
use astarte_device_sdk_zephy.Worker.{no_msg}

-- The queue for interfaces holds operations on interfaces.
unfoldable pub IsProper : Entry → Type 0
IsProper (in_interface m) = is_interface_operation m.operation ≡ true
IsProper _ = Unit

-- A chain that succeeds has steps that succeed.
bind_inv :
    {A B : Type 0} (r : Outcome A) (f : A → Outcome B) (b : B)
    → (r >>= f) ≡ ok b
    → (a : A) × ((r ≡ ok a) × (f a ≡ ok b))
bind_inv (ok a) f b h = (a, (refl, h))
bind_inv (err c) f b h = absurd (ground (arith, h))
bind_inv fault f b h = absurd (ground (arith, h))
bind_inv stuck f b h = absurd (ground (arith, h))

abbrev IsData : QueueMsg → ℕ → Type 0
IsData m retention = (m.operation ≡ op_data) × (m.retention ≡ retention)

from_volatile-IsData :
    (grant : Grants) (v : VolatileMsg) (m : QueueMsg)
    → from_volatile grant (some v) ≡ ok m
    → IsData m retention_volatile
unfolding from_volatile msg_from_volatile_msg_deep_cpy
from_volatile-IsData grant v m h =
    let named = bind_inv (copy_string (grant 0) v.interface_name) _ m h in
    let placed = bind_inv (copy_string (grant 1) v.path) _ m named.1.1 in
    let filled = bind_inv (copy_payload (grant 2) v.payload_len v.payload) _ m placed.1.1 in
    (cc (filled.1.1), cc (filled.1.1))

from_discard-IsData :
    (grant : Grants) (v : VolatileMsg) (m : QueueMsg)
    → from_discard grant (some v) ≡ ok m
    → IsData m retention_discard
unfolding from_discard
from_discard-IsData grant v m h =
    let read = bind_inv (from_volatile grant (some v)) _ m h in
    let of_data = from_volatile-IsData grant v read.0 read.1.0 in
    (cc (read.1.1, of_data.0), cc (read.1.1))

from_storage-IsData :
    (s : _) (m : QueueMsg) → from_storage no_msg (some s) ≡ ok m → IsData m retention_stored
unfolding from_storage
from_storage-IsData s m h = (cc (h), cc (h))

module _ {V I S : Type 0} (calls : Calls V I S) where
  -- The discard that follows a message of its kind.
  unfoldable pub discard_of : Queue V I S → QueueMsg → Operation → Status × Queue V I S
  discard_of q m op_data = discard_by_retention calls q m.retention
  discard_of q m op_add_interface = discard_interface calls q
  discard_of q m op_remove_interface = discard_interface calls q

  discard_of-IsData :
      (q : Queue V I S) (m : QueueMsg) (retention : ℕ)
      → IsData m retention
      → discard_of q m m.operation ≡ discard_by_retention calls q retention
  unfolding discard_of
  discard_of-IsData q m retention d = rw (d.0, d.1) refl

  discard_of-operation :
      (q : Queue V I S) (m : QueueMsg) (o : Operation)
      → is_interface_operation o ≡ true
      → discard_of q m o ≡ discard_interface calls q
  unfolding discard_of is_interface_operation
  discard_of-operation q m op_data h = absurd (ground (arith, h))
  discard_of-operation q m op_add_interface h = refl
  discard_of-operation q m op_remove_interface h = refl

  pub discard_of-remove :
      (grant : Grants) (q : Queue V I S) (e : Entry) (m : QueueMsg)
      → IsProper e
      → delivered grant no_msg e ≡ ok m
      → discard_of q m m.operation ≡ remove calls q e
  unfolding IsProper delivered remove from_interface discard_of
  discard_of-remove grant q (in_interface i) m p h =
      let same : m.operation ≡ i.operation = cc (h) in
      ap (discard_of q m) same ∙ discard_of-operation q m i.operation p
  discard_of-remove grant q (in_volatile v) m p h =
      discard_of-IsData q m retention_volatile (from_volatile-IsData grant v m h)
  discard_of-remove grant q (in_discard v) m p h =
      discard_of-IsData q m retention_discard (from_discard-IsData grant v m h)
  discard_of-remove grant q (in_storage s) m p h =
      discard_of-IsData q m retention_stored (from_storage-IsData s m h)
