-- ===== src/TransQueue/Clearing.antt =====
-- `astarte_transmission_queue_clear` ends, and leaves no message.
use mathlib.Core.Path.{subst}
use astarte_device_sdk_zephy.Prelude.{
  ◌⊎◌, inl, inr, ℕ, zero, suc, ◌≤◌, ◌≡◌, sym, refl, ap, ◌∙◌, Option, some, none, List, [], ◌∷◌, map,
  length, get_elem?, drop, arith, uint64_max,
}
use astarte_device_sdk_zephy.Result.{Status, ok, err, Code, Returns, Returns-bind, not_found}
use astarte_device_sdk_zephy.TransStorage.{Indexes}
use astarte_device_sdk_zephy.TransStorage.Message.{StoredMsg}
use astarte_device_sdk_zephy.TransQueue.Kernel.{KernelQueue}
use astarte_device_sdk_zephy.TransQueue.{Queue, clear}
use astarte_device_sdk_zephy.TransQueue.Parts.{Calls, StorageCalls, get_all, discard_all}
use astarte_device_sdk_zephy.TransQueue.Backlog.{
  Entry, in_interface, in_volatile, in_discard, entries_at, IsAscending, IsBelow,
}
use astarte_device_sdk_zephy.TransQueue.Abstraction.{Reads, Represents}

module _ {Q A : Type 0} (kq : KernelQueue Q A) where
  get_all_empty :
      (fuel : ℕ) (xs : List A) (g : Option A × Q)
      → g.0 ≡ get_elem? xs 0
      → kq.contents g.1 ≡ drop 1 xs
      → length xs ≤ fuel
      → Returns (λ q. kq.contents q ≡ []) (get_all kq fuel g)
  unfolding get_all
  get_all_empty fuel [] (none, q) h k n = k
  get_all_empty zero [] (some a, q) h k n = absurd (ground (arith, h))
  get_all_empty (suc fuel) [] (some a, q) h k n = absurd (ground (arith, h))
  get_all_empty fuel (x ∷ xs) (none, q) h k n = absurd (ground (arith, h))
  get_all_empty zero (x ∷ xs) (some a, q) h k n = absurd (omega arith)
  get_all_empty (suc fuel) (x ∷ xs) (some a, q) h k n =
      get_all_empty fuel xs (kq.get q) (kq.get_oldest q ∙ ap (λ ys. get_elem? ys 0) k)
        (kq.contents-get q ∙ ap (drop 1) k) (omega arith)

  pub get_all-contents :
      (fuel : ℕ) (q : Q)
      → length (kq.contents q) ≤ fuel
      → Returns (λ r. kq.contents r ≡ []) (get_all kq fuel (kq.get q))
  get_all-contents fuel q h =
      get_all_empty fuel (kq.contents q) (kq.get q) (kq.get_oldest q) (kq.contents-get q) h

module _ {S : Type 0} (fails : Type 0) (st : StorageCalls S) where
  -- The storage is empty, or failed.
  abbrev IsErased : S × Indexes → Type 0
  IsErased r = Reads fails st r.0 r.1 [] ⊎ fails

  ends :
      (fuel : ℕ) (p : Status × S × Indexes) (c : Code)
      → p.0 ≡ err c
      → IsErased (p.1, p.2)
      → Returns IsErased (discard_all st fuel p)
  unfolding discard_all
  ends fuel (r, t, x) c e k = rw e k

  goes :
      (fuel : ℕ) (p : Status × S × Indexes)
      → p.0 ≡ ok tt
      → Returns IsErased (discard_all st fuel (st.discard p.1 p.2))
      → Returns IsErased (discard_all st (suc fuel) p)
  unfolding discard_all
  goes fuel (r, t, x) e k = rw e k

  pub discard_all-Reads :
      (fuel : ℕ) (s : S) (indexes : Indexes) (ms : List StoredMsg)
      → Reads fails st s indexes ms
      → length ms ≤ fuel
      → Returns IsErased (discard_all st fuel (st.discard s indexes))
  unfolding Reads
  discard_all-Reads fuel s indexes [] h n =
      ends fuel (st.discard s indexes) not_found (ap (λ p. p.0) h.1)
        (inl (subst (λ p. Reads fails st p.1 p.2 []) (sym h.1) h))
  discard_all-Reads zero s indexes (m ∷ ms) h n = absurd (omega arith)
  discard_all-Reads (suc fuel) s indexes (m ∷ ms) h n = elim h.1 [
    | inl d ↦ goes fuel (st.discard s indexes) d.0 (
        discard_all-Reads fuel (st.discard s indexes).1 (st.discard s indexes).2 ms d.1
          (omega arith))
    | inr (f, (c, e)) ↦ ends (suc fuel) (st.discard s indexes) c e (inr f)
  ]

module _ {V I S : Type 0} (calls : Calls V I S) (fails : Type 0) where
  emptied : (q : Queue V I S) → V → V → S × Indexes → Queue V I S
  emptied q d v (s, indexes) = record q {
    discard_msgq = d;
    volatile_msgq = v;
    interface_msgq = calls.interface_calls.purge q.interface_msgq;
    storage = s;
    storage_indexes = indexes;
  }

  emptied-Represents :
      (q : Queue V I S) (d v : V) (s : S × Indexes)
      → q.next_sequence_number ≤ uint64_max
      → calls.volatile_calls.contents d ≡ []
      → calls.volatile_calls.contents v ≡ []
      → Reads fails calls.storage_calls s.0 s.1 []
      → Represents calls fails (emptied q d v s) []
  unfolding emptied entries_at IsAscending IsBelow
  emptied-Represents q d v (s, indexes) n hd hv hs = record {
    interface_held = ap (map in_interface) (calls.interface_calls.contents-purge q.interface_msgq);
    volatile_held = ap (map in_volatile) hv;
    discard_held = ap (map in_discard) hd;
    stored = [];
    storage_holds = hs;
    storage_held = refl;
    ascending = tt;
    below = tt;
    no_wrap = n;
  }

  -- The queue holds the empty backlog; or the storage failed, and the queues of the kernel are empty.
  abbrev pub IsCleared : Queue V I S → Type 0
  IsCleared k =
      Represents calls fails k []
      ⊎ (fails
          × ((calls.interface_calls.contents k.interface_msgq ≡ [])
              × ((calls.volatile_calls.contents k.volatile_msgq ≡ [])
                  × (calls.volatile_calls.contents k.discard_msgq ≡ []))))

  emptied-IsCleared :
      (q : Queue V I S) (d v : V) (s : S × Indexes)
      → q.next_sequence_number ≤ uint64_max
      → calls.volatile_calls.contents d ≡ []
      → calls.volatile_calls.contents v ≡ []
      → IsErased fails calls.storage_calls s
      → IsCleared (emptied q d v s)
  unfolding emptied
  emptied-IsCleared q d v s n hd hv (inl e) = inl (emptied-Represents q d v s n hd hv e)
  emptied-IsCleared q d v (s, x) n hd hv (inr f) =
      inr (f, (calls.interface_calls.contents-purge q.interface_msgq, (hv, hd)))

  -- While the queue holds a backlog of at most as many messages in each place as the loops have
  -- rounds, where peek and discard of the storage, in the state it is in, yield the stored
  -- messages of the backlog one after the other or fail, clear returns, and the queue holds the
  -- empty backlog; or the storage failed, and the three queues of the kernel are empty.
  pub clear_total :
      (fuel : ℕ) (q : Queue V I S) (l : List Entry) (r : Represents calls fails q l)
      → length (calls.volatile_calls.contents q.discard_msgq) ≤ fuel
      → length (calls.volatile_calls.contents q.volatile_msgq) ≤ fuel
      → length r.stored ≤ fuel
      → Returns IsCleared (clear calls fuel q)
  unfolding clear emptied
  clear_total fuel q l r nd nv ns =
      let P = IsCleared in
      let E = λ (v : V). calls.volatile_calls.contents v ≡ [] in
      let st = calls.storage_calls in
      Returns-bind E P _ _ (get_all-contents calls.volatile_calls fuel q.discard_msgq nd) (λ d hd.
        Returns-bind E P _ _ (get_all-contents calls.volatile_calls fuel q.volatile_msgq nv)
          (λ v hv.
            Returns-bind (IsErased fails st) P
              (discard_all st fuel (st.discard q.storage q.storage_indexes)) _
              (discard_all-Reads fails st fuel q.storage q.storage_indexes r.stored r.storage_holds
                ns)
              (λ s hs. emptied-IsCleared q d v s r.no_wrap hd hv hs)))
