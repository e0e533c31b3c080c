-- ===== src/TransQueue/Abstraction.antt =====
-- When the transmission queue holds a backlog.
use astarte_device_sdk_zephy.Prelude.{
  ℕ, ◌≤◌, ◌<◌, ◌≡◌, ◌⊎◌, refl, sym, ap, some, none, List, [], ◌∷◌, map, get_elem?, drop, arith,
  uint64_max,
}
use mathlib.Core.Path.{subst}
use astarte_device_sdk_zephy.Result.{Code, ok, err, not_found}
use astarte_device_sdk_zephy.TransStorage.{Indexes}
use astarte_device_sdk_zephy.TransStorage.Message.{StoredMsg}
use astarte_device_sdk_zephy.TransQueue.{Queue}
use astarte_device_sdk_zephy.TransQueue.Message.{InterfaceMsg, VolatileMsg}
use astarte_device_sdk_zephy.TransQueue.Parts.{
  stored_found, StorageCalls, Calls, interface_seq, volatile_seq, storage_seq,
}
use astarte_device_sdk_zephy.TransQueue.Backlog.{
  Entry, in_interface, in_volatile, in_discard, in_storage, at_interface, at_volatile, at_discard,
  at_storage, Place, entries_at, IsAbove, IsBelow, IsAscending, seq_of,
}
use astarte_device_sdk_zephy.TransQueue.Places.{IsAbove-entries_at}

-- An error of the storage other than that it has no message.
abbrev pub PeekFails : {S : Type 0} → StorageCalls S → S → Indexes → Code → Type 0
PeekFails st s indexes c = (st.peek s indexes ≡ err c) × (stored_found (err c) ≡ err c)

-- What the storage yields, in this state, to whoever peeks at its oldest message and then discards
-- it, until it has none. Where `fails` is inhabited, each call may fail instead, and nothing is said
-- of what follows a discard that fails.
unfoldable pub Reads :
    {S : Type 0} → Type 0 → StorageCalls S → S → Indexes → List StoredMsg → Type 0
Reads fails st s indexes [] =
    ((st.peek s indexes ≡ err not_found) ⊎ (fails × ((c : Code) × PeekFails st s indexes c)))
    × (st.discard s indexes ≡ (err not_found, s, indexes))
Reads fails st s indexes (m ∷ ms) =
    ((st.peek s indexes ≡ ok m) ⊎ (fails × ((c : Code) × PeekFails st s indexes c)))
    × ((((st.discard s indexes).0 ≡ ok tt)
          × Reads fails st (st.discard s indexes).1 (st.discard s indexes).2 ms)
        ⊎ (fails × ((c : Code) × ((st.discard s indexes).0 ≡ err c))))

-- The four places hold the entries of the backlog, which has fresh numbers in ascending order.
pub record Represents {V I S : Type 0} (calls : Calls V I S) (fails : Type 0) (q : Queue V I S)
    (l : List Entry) : Type 0 where
  pub interface_held :
      map in_interface (calls.interface_calls.contents q.interface_msgq) ≡ entries_at at_interface l
  pub volatile_held :
      map in_volatile (calls.volatile_calls.contents q.volatile_msgq) ≡ entries_at at_volatile l
  pub discard_held :
      map in_discard (calls.volatile_calls.contents q.discard_msgq) ≡ entries_at at_discard l
  pub stored : List StoredMsg
  pub storage_holds : Reads fails calls.storage_calls q.storage q.storage_indexes stored
  pub storage_held : map in_storage stored ≡ entries_at at_storage l
  pub ascending : IsAscending l
  pub below : IsBelow q.next_sequence_number l
  pub no_wrap : q.next_sequence_number ≤ uint64_max

-- The oldest message of a place comes after the numbers that are below the whole backlog.
module _ (n : ℕ) (l : List Entry) (h : n < uint64_max) (a : IsAbove n l) where
  after : (p : Place) (r : List Entry) → r ≡ entries_at p l → IsAbove n r
  after p r e = subst (IsAbove n) (sym e) (IsAbove-entries_at n p l a)

  pub interface_seq_above :
      (xs : List InterfaceMsg)
      → map in_interface xs ≡ entries_at at_interface l
      → n < interface_seq (get_elem? xs 0)
  unfolding interface_seq IsAbove seq_of
  interface_seq_above [] e = h
  interface_seq_above (x ∷ xs) e = (after at_interface (map in_interface (x ∷ xs)) e).0

  pub volatile_seq_above :
      (xs : List VolatileMsg)
      → map in_volatile xs ≡ entries_at at_volatile l
      → n < volatile_seq (get_elem? xs 0)
  unfolding volatile_seq IsAbove seq_of
  volatile_seq_above [] e = h
  volatile_seq_above (x ∷ xs) e = (after at_volatile (map in_volatile (x ∷ xs)) e).0

  pub discard_seq_above :
      (xs : List VolatileMsg)
      → map in_discard xs ≡ entries_at at_discard l
      → n < volatile_seq (get_elem? xs 0)
  unfolding volatile_seq IsAbove seq_of
  discard_seq_above [] e = h
  discard_seq_above (x ∷ xs) e = (after at_discard (map in_discard (x ∷ xs)) e).0

  pub storage_seq_above :
      (xs : List StoredMsg)
      → map in_storage xs ≡ entries_at at_storage l
      → n < storage_seq (get_elem? xs 0)
  unfolding storage_seq IsAbove seq_of
  storage_seq_above [] e = h
  storage_seq_above (x ∷ xs) e = (after at_storage (map in_storage (x ∷ xs)) e).0

-- A list of marked messages, from what it looks like.
module _ {A : Type 0} (mark : A → Entry) (is_mark : (a b : A) → mark a ≡ mark b → a ≡ b) where
  pub map-first :
      (xs : List A) (a : A) (r : List Entry)
      → map mark xs ≡ mark a ∷ r
      → (get_elem? xs 0 ≡ some a) × (map mark (drop 1 xs) ≡ r)
  map-first [] a r e = absurd (ground (arith, e))
  map-first (x ∷ xs) a r e = let h : mark x ≡ mark a = cc (e) in (ap some (is_mark x a h), cc (e))

  pub map-none : (xs : List A) → map mark xs ≡ [] → get_elem? xs 0 ≡ none
  map-none [] e = refl
  map-none (x ∷ xs) e = absurd (ground (arith, e))

pub in_interface_injective : (a b : InterfaceMsg) → in_interface a ≡ in_interface b → a ≡ b
in_interface_injective a b h = cc (h)

pub in_volatile_injective : (a b : VolatileMsg) → in_volatile a ≡ in_volatile b → a ≡ b
in_volatile_injective a b h = cc (h)

pub in_discard_injective : (a b : VolatileMsg) → in_discard a ≡ in_discard b → a ≡ b
in_discard_injective a b h = cc (h)

pub in_storage_injective : (a b : StoredMsg) → in_storage a ≡ in_storage b → a ≡ b
in_storage_injective a b h = cc (h)
