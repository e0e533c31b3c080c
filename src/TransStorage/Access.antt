-- ===== src/TransStorage/Access.antt =====
-- lib/astarte_device_sdk/storage/trans.c: push, peek, get and discard, over an interface for the
-- key-value store. The pointers `handle`, `indexes` and `msg` are not NULL here, and the storage is
-- initialized.
use astarte_device_sdk_zephy.Prelude.{
  ℕ, Bool, true, false, ◌&&◌, ◌||◌, not, Option, none, some, List, length, ltb, leb, ◌==◌,
  if◌then◌else◌, add32,
}
use astarte_device_sdk_zephy.Result.{
  Outcome, Status, ok, err, fault, stuck, ◌>>=◌, invalid_param, out_of_memory, internal_error,
  not_found,
}
use astarte_device_sdk_zephy.TransStorage.{Indexes, key_of}
use astarte_device_sdk_zephy.TransStorage.Message.{StoredMsg}
use astarte_device_sdk_zephy.TransStorage.Format.{serialized, field_at, parsed}

-- `astarte_key_value_find` without a buffer, and with one of so many bytes; `_insert`, `_delete`.
pub record KeyValue (S : Type 0) : Type 0 where
  pub find_size : S → List ℕ → Outcome ℕ
  pub find : S → List ℕ → ℕ → Outcome (List ℕ)
  pub insert : S → List ℕ → List ℕ → Status × S
  pub delete : S → List ℕ → Status × S

module _ {S : Type 0} (kv : KeyValue S) (grant : ℕ → Bool) where
  -- The value of a key, in a block of its own.
  unfoldable pub find_value : S → List ℕ → Outcome (List ℕ)
  find_value s key = do
    size ← kv.find_size s key
    if not (grant size) then err out_of_memory else kv.find s key size

  -- `astarte_storage_transmission_get_last_sequence_number`
  unfoldable pub get_last_sequence_number : S → Indexes → Outcome ℕ
  get_last_sequence_number s indexes =
      if indexes.head == add32 indexes.tail 1
      then err not_found
      else (find_value s (key_of indexes.tail) >>= λ buffer.
          if leb 20 (length buffer) then ok (field_at buffer 12 8) else err internal_error)

  unfoldable pub inserted : Status × S → Indexes → Status × S × Indexes
  inserted (ok _, s) indexes = (ok tt, s, record indexes { tail = add32 indexes.tail 1 })
  inserted (r, s) indexes = (r, s, indexes)

  unfoldable pub push_bytes : Outcome (List ℕ) → S → Indexes → Status × S × Indexes
  push_bytes (ok bytes) s indexes =
      inserted (kv.insert s (key_of (add32 indexes.tail 1)) bytes) indexes
  push_bytes (err c) s indexes = (err c, s, indexes)
  push_bytes fault s indexes = (fault, s, indexes)
  push_bytes stuck s indexes = (stuck, s, indexes)

  unfoldable pub push_named :
      Option (List ℕ) → Option (List ℕ) → S → Indexes → StoredMsg → Status × S × Indexes
  push_named (some name) (some path) s indexes msg =
      let size = add32 (add32 (add32 32 (length name)) (length path)) msg.payload_len in
      if leb 2147483648 msg.payload_len || (ltb 0 msg.payload_len && is_none msg.payload)
      then (err invalid_param, s, indexes)
      else if not (grant size)
      then (err out_of_memory, s, indexes)
      else push_bytes (serialized msg name path size) s indexes
    where
      is_none : Option (List ℕ) → Bool
      is_none none = true
      is_none (some _) = false
  push_named _ _ s indexes msg = (err invalid_param, s, indexes)

  -- `astarte_storage_transmission_push`
  unfoldable pub push : S → Indexes → StoredMsg → Status × S × Indexes
  push s indexes msg = push_named msg.interface_name msg.path s indexes msg

  -- `astarte_storage_transmission_peek`
  unfoldable pub peek : S → Indexes → Outcome StoredMsg
  peek s indexes = find_value s (key_of indexes.head) >>= parsed grant

  unfoldable pub deleted : Status × S → Indexes → Status × S × Indexes
  deleted (ok _, s) indexes = (ok tt, s, record indexes { head = add32 indexes.head 1 })
  deleted (r, s) indexes = (r, s, indexes)

  -- `astarte_storage_transmission_discard`
  unfoldable pub discard : S → Indexes → Status × S × Indexes
  discard s indexes = deleted (kv.delete s (key_of indexes.head)) indexes

  unfoldable pub get_peeked : Outcome StoredMsg → S → Indexes → Outcome StoredMsg × S × Indexes
  get_peeked (ok msg) s indexes = removed (discard s indexes)
    where
      removed : Status × S × Indexes → Outcome StoredMsg × S × Indexes
      removed (ok _, t, x) = (ok msg, t, x)
      removed (err c, t, x) = (err c, t, x)
      removed (fault, t, x) = (fault, t, x)
      removed (stuck, t, x) = (stuck, t, x)
  get_peeked r s indexes = (r, s, indexes)

  -- `astarte_storage_transmission_get`
  unfoldable pub get : S → Indexes → Outcome StoredMsg × S × Indexes
  get s indexes = get_peeked (peek s indexes) s indexes
