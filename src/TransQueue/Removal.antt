-- ===== src/TransQueue/Removal.antt =====
-- The discard functions of the transmission queue remove the oldest message of the backlog.
use mathlib.Core.Path.{subst}
use astarte_device_sdk_zephy.Prelude.{
  ◌⊎◌, inl, inr, ◌≡◌, refl, ap, ◌∙◌, Option, some, none, List, [], ◌∷◌, map, get_elem?, drop, arith,
}
use astarte_device_sdk_zephy.Result.{Status, Code, ok, err}
use astarte_device_sdk_zephy.TransQueue.{
  Queue, got, with_interface, with_volatile, with_discard, with_storage, discard_interface,
  discard_by_retention,
}
use astarte_device_sdk_zephy.TransQueue.Message.{
  retention_discard, retention_volatile, retention_stored,
}
use astarte_device_sdk_zephy.TransQueue.Parts.{Calls, StorageCalls}
use astarte_device_sdk_zephy.TransQueue.Backlog.{
  Entry, in_interface, in_volatile, in_discard, in_storage, IsBelow, IsAscending, entries_at,
  place_of, same_place,
}
use astarte_device_sdk_zephy.TransQueue.Abstraction.{
  Reads, Represents, map-first, in_interface_injective, in_volatile_injective, in_discard_injective,
  in_storage_injective,
}

got-some : {A Q : Type 0} (p : Option A × Q) (a : A) → p.0 ≡ some a → got p ≡ (ok tt, p.1)
unfolding got
got-some (none, q) a h = absurd (ground (arith, h))
got-some (some b, q) a h = refl

with_storage_lem :
    {V I S : Type 0} (q : Queue V I S) (p : Status × S × _)
    → with_storage q p ≡ (p.0, record q { storage = p.1; storage_indexes = p.2 })
unfolding with_storage
with_storage_lem q (r, s, x) = refl

first_rest : {A : Type 0} (xs : List A) (a : A) → get_elem? xs 0 ≡ some a → xs ≡ a ∷ drop 1 xs
first_rest [] a h = absurd (ground (arith, h))
first_rest (x ∷ xs) a h = let e : x ≡ a = cc (h) in ap (λ t. t ∷ xs) e

first_discarded :
    {S : Type 0} (fails : Type 0) (st : StorageCalls S) (s : S) (x : _) (m : _) (ms : _)
    → Reads fails st s x (m ∷ ms)
    → (((st.discard s x).0 ≡ ok tt) × Reads fails st (st.discard s x).1 (st.discard s x).2 ms)
      ⊎ (fails × ((c : Code) × ((st.discard s x).0 ≡ err c)))
unfolding Reads
first_discarded fails st s x m ms h = h.1

module _ {V I S : Type 0} (calls : Calls V I S) where
  -- The call that removes an entry: what the transmission makes after it sent a message.
  unfoldable pub remove : Queue V I S → Entry → Status × Queue V I S
  remove q (in_interface m) = discard_interface calls q
  remove q (in_volatile m) = discard_by_retention calls q retention_volatile
  remove q (in_discard m) = discard_by_retention calls q retention_discard
  remove q (in_storage m) = discard_by_retention calls q retention_stored

module _ {V I S : Type 0} (calls : Calls V I S) (fails : Type 0) where
  -- The queue, but for what a discard that fails left of the storage.
  abbrev pub IsUndiscarded : Queue V I S → Queue V I S → Type 0
  IsUndiscarded q k =
      let p = calls.storage_calls.discard q.storage q.storage_indexes in
      fails
      × ((c : Code) × ((p.0 ≡ err c) × (k ≡ record q { storage = p.1; storage_indexes = p.2 })))

  -- The first message of a backlog is removed, or the storage fails to discard it.
  abbrev pub IsRemoved : Queue V I S → Status × Queue V I S → List Entry → Type 0
  IsRemoved q p l =
      ((p.0 ≡ ok tt) × Represents calls fails p.1 l)
      ⊎ (((c : Code) × (p.0 ≡ err c)) × IsUndiscarded q p.1)

  -- While the queue holds a backlog that is not empty, where peek and discard of the storage, in
  -- the state it is in, yield the stored messages of the backlog one after the other or fail,
  -- the discard function for the place of its first entry succeeds, and the queue holds the rest
  -- of the backlog; or it yields an error, and nothing of the queue changes but what the failed
  -- discard made of the storage.
  pub remove_first :
      (q : Queue V I S) (e : Entry) (l : List Entry)
      → Represents calls fails q (e ∷ l)
      → IsRemoved q (remove calls q e) l
  unfolding remove entries_at place_of same_place IsBelow IsAscending discard_interface
      with_interface with_volatile with_discard discard_by_retention
  remove_first q (in_interface m) l r =
      let held = calls.interface_calls.contents q.interface_msgq in
      let f = map-first in_interface in_interface_injective held m _ r.interface_held in
      rw
        (got-some (calls.interface_calls.get q.interface_msgq) m
          (calls.interface_calls.get_oldest q.interface_msgq ∙ f.0))
        (inl (
          refl,
          record {
            interface_held =
                ap (map in_interface) (calls.interface_calls.contents-get q.interface_msgq) ∙ f.1;
            volatile_held = r.volatile_held;
            discard_held = r.discard_held;
            stored = r.stored;
            storage_holds = r.storage_holds;
            storage_held = r.storage_held;
            ascending = r.ascending.1;
            below = r.below.1;
            no_wrap = r.no_wrap;
          },
        ))
  remove_first q (in_volatile m) l r =
      let held = calls.volatile_calls.contents q.volatile_msgq in
      let f = map-first in_volatile in_volatile_injective held m _ r.volatile_held in
      rw
        (got-some (calls.volatile_calls.get q.volatile_msgq) m
          (calls.volatile_calls.get_oldest q.volatile_msgq ∙ f.0))
        (inl (
          refl,
          record {
            interface_held = r.interface_held;
            volatile_held =
                ap (map in_volatile) (calls.volatile_calls.contents-get q.volatile_msgq) ∙ f.1;
            discard_held = r.discard_held;
            stored = r.stored;
            storage_holds = r.storage_holds;
            storage_held = r.storage_held;
            ascending = r.ascending.1;
            below = r.below.1;
            no_wrap = r.no_wrap;
          },
        ))
  remove_first q (in_discard m) l r =
      let held = calls.volatile_calls.contents q.discard_msgq in
      let f = map-first in_discard in_discard_injective held m _ r.discard_held in
      rw
        (got-some (calls.volatile_calls.get q.discard_msgq) m
          (calls.volatile_calls.get_oldest q.discard_msgq ∙ f.0))
        (inl (
          refl,
          record {
            interface_held = r.interface_held;
            volatile_held = r.volatile_held;
            discard_held =
                ap (map in_discard) (calls.volatile_calls.contents-get q.discard_msgq) ∙ f.1;
            stored = r.stored;
            storage_holds = r.storage_holds;
            storage_held = r.storage_held;
            ascending = r.ascending.1;
            below = r.below.1;
            no_wrap = r.no_wrap;
          },
        ))
  remove_first q (in_storage m) l r =
      let f = map-first in_storage in_storage_injective r.stored m _ r.storage_held in
      let p = calls.storage_calls.discard q.storage q.storage_indexes in
      rw (with_storage_lem q p)
        (elim (first_discarded fails calls.storage_calls q.storage q.storage_indexes m
          (drop 1 r.stored)
          (subst (Reads fails calls.storage_calls q.storage q.storage_indexes)
            (first_rest r.stored m f.0) r.storage_holds)) [
              | inl d ↦ inl (
                d.0,
                record {
                  interface_held = r.interface_held;
                  volatile_held = r.volatile_held;
                  discard_held = r.discard_held;
                  stored = drop 1 r.stored;
                  storage_holds = d.1;
                  storage_held = f.1;
                  ascending = r.ascending.1;
                  below = r.below.1;
                  no_wrap = r.no_wrap;
                },
              )
              | inr (x, (c, e)) ↦ inr ((c, e), (x, (c, (e, refl))))
            ])
