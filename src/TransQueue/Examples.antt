-- ===== src/TransQueue/Examples.antt =====
-- A queue of the kernel and a storage to run the transmission queue on.
use astarte_device_sdk_zephy.Prelude.{
  ℕ, ◌≤◌, ◌<◌, ◌≡◌, refl, inl, inr, Bool, true, false, Option, some, List, [], ◌∷◌, ◌++◌, ◌⊎◌,
  length, get_elem?, drop, ltb, ltb→lt, if◌then◌else◌, arith, length-append, Bool-cases,
}
use astarte_device_sdk_zephy.Result.{
  Outcome, Status, ok, err, fault, ◌>>=◌, not_found, key_value_full,
}
use astarte_device_sdk_zephy.Mapping.{same_bytes}
use astarte_device_sdk_zephy.TransStorage.{KeyIterator, get_indexes}
use astarte_device_sdk_zephy.TransStorage.Access.{
  KeyValue, get_last_sequence_number, push, peek, discard,
}
use astarte_device_sdk_zephy.TransQueue.Kernel.{KernelQueue}
use astarte_device_sdk_zephy.TransQueue.Message.{InterfaceMsg, VolatileMsg}
use astarte_device_sdk_zephy.TransQueue.Parts.{StorageCalls, Calls}

-- At most `n` items in a list.
abbrev pub Slots : Type 0 → ℕ → Type 0
Slots A n = (xs : List A) × (length xs ≤ n)

pub shorter : {A : Type 0} (xs : List A) (n : ℕ) → length xs ≤ n → length (drop 1 xs) ≤ n
shorter [] n h = h
shorter (x ∷ xs) n h = omega arith

module _ {A : Type 0} (n : ℕ) where
  unfoldable pub put_slot :
      (q : Slots A n) (a : A)
      → (ltb (length q.0) n ≡ true) ⊎ (ltb (length q.0) n ≡ false)
      → Bool × Slots A n
  put_slot q a (inl y) =
      (true, (q.0 ++ (a ∷ []), omega (arith, length-append q.0 (a ∷ []), ltb→lt (length q.0) n y)))
  put_slot q a (inr y) = (false, q)

  pub put_slot_room :
      (q : Slots A n) (a : A) (d : (ltb (length q.0) n ≡ true) ⊎ (ltb (length q.0) n ≡ false))
      → length q.0 < n
      → ((put_slot q a d).0 ≡ true) × ((put_slot q a d).1.0 ≡ q.0 ++ (a ∷ []))
  unfolding put_slot
  put_slot_room q a (inl y) h = (refl, refl)
  put_slot_room q a (inr y) h = absurd (ground arith)

  pub put_slot_full :
      (q : Slots A n) (a : A) (d : (ltb (length q.0) n ≡ true) ⊎ (ltb (length q.0) n ≡ false))
      → n ≤ length q.0
      → ((put_slot q a d).0 ≡ false) × ((put_slot q a d).1.0 ≡ q.0)
  unfolding put_slot
  put_slot_full q a (inl y) h = absurd (ground arith)
  put_slot_full q a (inr y) h = (refl, refl)

  unfoldable pub get_slot : Slots A n → Option A × Slots A n
  get_slot q = (get_elem? q.0 0, (drop 1 q.0, shorter q.0 n q.1))

  pub get_slot_oldest : (q : Slots A n) → (get_slot q).0 ≡ get_elem? q.0 0
  unfolding get_slot
  get_slot_oldest q = refl

  pub get_slot_rest : (q : Slots A n) → (get_slot q).1.0 ≡ drop 1 q.0
  unfolding get_slot
  get_slot_rest q = refl

  abbrev pub slots : KernelQueue (Slots A n) A
  slots = record {
    init = ([], omega arith);
    put = λ q a. put_slot q a (Bool-cases (ltb (length q.0) n));
    get = get_slot;
    peek = λ q. get_elem? q.0 0;
    purge = λ q. ([], omega arith);
    capacity = n;
    contents = λ q. q.0;
    contents-init = refl;
    contents-purge = λ q. refl;
    put_room = λ q a h. (put_slot_room q a (Bool-cases (ltb (length q.0) n)) h).0;
    put_full = λ q a h. (put_slot_full q a (Bool-cases (ltb (length q.0) n)) h).0;
    contents-put_room = λ q a h. (put_slot_room q a (Bool-cases (ltb (length q.0) n)) h).1;
    contents-put_full = λ q a h. (put_slot_full q a (Bool-cases (ltb (length q.0) n)) h).1;
    get_oldest = get_slot_oldest;
    contents-get = get_slot_rest;
    peek_oldest = λ q. refl;
    length_bounded = λ q. q.1;
  }

-- Keys with their values.
abbrev pub Shelf : Type 0
Shelf = List (List ℕ × List ℕ)

unfoldable pub value_at : Shelf → List ℕ → Outcome (List ℕ)
value_at [] key = err not_found
value_at ((k, v) ∷ s) key = let rest = value_at s key in if same_bytes k key then ok v else rest

unfoldable pub without_key : Shelf → List ℕ → Status × Shelf
without_key [] key = (err not_found, [])
without_key ((k, v) ∷ s) key =
    let rest = without_key s key in
    if same_bytes k key then (ok tt, s) else (rest.0, (k, v) ∷ rest.1)

unfoldable pub size_of : Outcome (List ℕ) → Outcome ℕ
size_of r = r >>= λ v. ok (length v)

-- The entries of key_value/ as a list, with room for two.
abbrev pub shelf : KeyValue Shelf
shelf = record {
  find_size = λ s key. size_of (value_at s key);
  find = λ s key size. value_at s key;
  insert = λ s key v.
      if ltb (length s) 2 then (ok tt, s ++ ((key, v) ∷ [])) else (err key_value_full, s);
  delete = without_key;
}

unfoldable pub iterate : Shelf → Outcome Shelf
iterate [] = err not_found
iterate (e ∷ s) = ok (e ∷ s)

unfoldable pub key_there : Shelf → Outcome (List ℕ)
key_there [] = fault
key_there ((k, v) ∷ s) = ok k

abbrev pub shelf_keys : KeyIterator Shelf Shelf
shelf_keys = record {
  iterator_init = iterate;
  iterator_get = key_there;
  iterator_next = λ s. iterate (drop 1 s);
}

-- The functions of storage/trans.c on it.
abbrev pub on_shelf : StorageCalls Shelf
on_shelf = record {
  get_indexes = λ s. get_indexes shelf_keys 2 (some s) true;
  get_last_sequence_number = get_last_sequence_number shelf (λ n. true);
  push = push shelf (λ n. true);
  peek = peek shelf (λ n. true);
  discard = discard shelf (λ n. true);
}

abbrev pub calls : Calls (Slots VolatileMsg 2) (Slots InterfaceMsg 2) Shelf
calls = record { volatile_calls = slots 2; interface_calls = slots 2; storage_calls = on_shelf }
