-- ===== src/Worker/Order.antt =====
-- The worker handles the messages of the backlog in their order.
use astarte_device_sdk_zephy.Prelude.{
  ℕ, suc, ◌≡◌, refl, sym, ap, ◌⊎◌, inl, inr, ◌==◌, true, Bool-cases, List, ◌∷◌, arith,
}
use mathlib.Core.Path.{subst}
use astarte_device_sdk_zephy.Result.{Status, Code, ok, err, Returns}
use astarte_device_sdk_zephy.TransQueue.{Queue, discard_interface, discard_by_retention}
use astarte_device_sdk_zephy.TransQueue.Message.{
  QueueMsg, Operation, op_data, op_add_interface, op_remove_interface, Grants,
}
use astarte_device_sdk_zephy.TransQueue.Parts.{Calls, is_interface_operation}
use astarte_device_sdk_zephy.TransQueue.Backlog.{Entry, delivered}
use astarte_device_sdk_zephy.TransQueue.Abstraction.{Represents}
use astarte_device_sdk_zephy.TransQueue.Oldest.{peek_first_delivered, first_delivered}
use astarte_device_sdk_zephy.TransQueue.Removal.{IsRemoved, IsUndiscarded, remove_first}
use astarte_device_sdk_zephy.Worker.{
  empty_queue_waiting_ms, WorkerCalls, Worker, no_msg, kept, interface_updated, process_interface,
  published, process_data, process_msg, process_peeked, process_transmission_queue,
}
use astarte_device_sdk_zephy.Worker.Discards.{IsProper, discard_of, discard_of-remove}

kept_lem : {Q : Type 0} (p : Status × Q) → p.0 ≡ ok tt → kept p ≡ ok p.1
unfolding kept
kept_lem (r, q) h = rw h refl

kept_failed : {Q : Type 0} (p : Status × Q) (c : Code) → p.0 ≡ err c → kept p ≡ ok p.1
unfolding kept
kept_failed (r, q) c h = rw h refl

answered : {P : Type 0} {r : Status} (p : Status × P) → p.0 ≡ r → p ≡ (r, p.1)
answered (r, p) h = ap (λ t. (t, p)) h

module _ {V I S P : Type 0} (calls : Calls V I S) (fails : Type 0) (parts : WorkerCalls P) where
  -- The rest of the backlog stays, or the storage fails to discard the message.
  abbrev pub IsLeft : List Entry → Queue V I S → Queue V I S → Type 0
  IsLeft l q k = Represents calls fails k l ⊎ IsUndiscarded calls fails q k

  -- The message is handled: the operation on the interface is done, or the data is published for a
  -- token.
  pub record IsHandled (l : List Entry) (m : QueueMsg) (w x : Worker V I S P) : Type 0 where
    pub rest_waits : IsLeft l w.transmission_queue x.transmission_queue
    pub effect :
        ((is_interface_operation m.operation ≡ true)
          × ((x.tokens ≡ w.tokens)
              × (x.peers ≡ interface_updated calls parts m m.operation w.peers)))
        ⊎ ((m.operation ≡ op_data)
            × ((suc x.tokens ≡ w.tokens) × (parts.publish_data m w.peers ≡ (ok tt, x.peers))))

  -- The message stays: there is no token, or the dispatcher refused it.
  pub record IsHeld (m : QueueMsg) (w x : Worker V I S P) : Type 0 where
    pub same_queue : x.transmission_queue ≡ w.transmission_queue
    pub same_tokens : x.tokens ≡ w.tokens
    pub data_held : m.operation ≡ op_data
    pub cause :
        (w.tokens ≡ 0) ⊎ ((c : Code) × ((p : P) × (parts.publish_data m w.peers ≡ (err c, p))))

  -- The storage fails to tell its oldest message: the worker waits.
  abbrev pub IsUnread : Worker V I S P → Worker V I S P → Type 0
  IsUnread w x =
      fails
      × (((c : Code) × (calls.storage_calls.peek w.transmission_queue.storage
                w.transmission_queue.storage_indexes
              ≡ err c))
          × (x ≡ record w { peers = parts.msleep empty_queue_waiting_ms w.peers }))

  abbrev pub IsPassed : List Entry → QueueMsg → Worker V I S P → Worker V I S P → Type 0
  IsPassed l m w x = IsHandled l m w x ⊎ (IsHeld m w x ⊎ IsUnread w x)

  kept_removed :
      (q : Queue V I S) (p : Status × Queue V I S) (l : List Entry)
      → IsRemoved calls fails q p l
      → (kept p ≡ ok p.1) × IsLeft l q p.1
  kept_removed q p l (inl (done, r)) = (kept_lem p done, inl r)
  kept_removed q p l (inr ((c, e), u)) = (kept_failed p c e, inr u)

  -- The dispatcher answers with success or with an error.
  abbrev pub Answers : Type 0
  Answers =
      (m : QueueMsg) (p : P)
      → ((parts.publish_data m p).0 ≡ ok tt) ⊎ ((c : Code) × ((parts.publish_data m p).0 ≡ err c))

  module _ (answers : Answers) (last_refill : ℕ) (w : Worker V I S P) (l : List Entry)
      (m : QueueMsg) where
    interface_done :
        is_interface_operation m.operation ≡ true
        → IsRemoved calls fails w.transmission_queue
            (discard_interface calls w.transmission_queue)
            l
        → Returns (IsPassed l m w) (process_interface calls parts w m)
    unfolding process_interface
    interface_done o d =
        let k =
          kept_removed w.transmission_queue (discard_interface calls w.transmission_queue) l d in
        rw k.0 (inl (record { rest_waits = k.1; effect = inl (o, (refl, refl)) }))

    data_done :
        m.operation ≡ op_data
        → IsRemoved calls fails w.transmission_queue
            (discard_by_retention calls w.transmission_queue m.retention)
            l
        → Returns (IsPassed l m w) (process_data calls parts last_refill w m)
    unfolding process_data published
    data_done o d = elim (Bool-cases (w.tokens == 0)) [
      | inl y ↦ rw y (
          inr (
            inl (record {
              same_queue = refl;
              same_tokens = refl;
              data_held = o;
              cause = inl (ground (arith, y));
            })))
      | inr n ↦
          let sent = parts.publish_data m w.peers in
          elim (answers m w.peers) [
            | inl a ↦
                let k =
                  kept_removed w.transmission_queue
                    (discard_by_retention calls w.transmission_queue m.retention) l d in
                rw (n, a, k.0)
                  (inl (record {
                    rest_waits = k.1;
                    effect = inr (o, (ground (arith, n), answered sent a));
                  }))
            | inr a ↦
                rw (n, a.1)
                  (inr (
                    inl (record {
                      same_queue = refl;
                      same_tokens = refl;
                      data_held = o;
                      cause = inr (a.0, (sent.1, answered sent a.1));
                    })))
          ]
    ]

    process_msg_lem :
        (o : Operation)
        → m.operation ≡ o
        → IsRemoved calls fails w.transmission_queue (discard_of calls w.transmission_queue m o) l
        → Returns (IsPassed l m w) (process_msg calls parts last_refill w o m)
    unfolding process_msg discard_of is_interface_operation
    process_msg_lem op_data e d = data_done e d
    process_msg_lem op_add_interface e d = interface_done (ap is_interface_operation e) d
    process_msg_lem op_remove_interface e d = interface_done (ap is_interface_operation e) d

  module _ (answers : Answers) where
    -- While the queue holds a backlog whose first entry is proper, where peek and discard of the
    -- storage, in the state it is in, yield the stored messages of the backlog one after the
    -- other or fail, that entry can be delivered as a message, and the dispatcher answers with
    -- success or an error, a pass of the worker returns. It handles this message: an operation
    -- on an interface is done and spends no token, data is published and spends one; the rest of
    -- the backlog is left, or the storage fails to discard the message. Or it keeps the queue
    -- and the tokens as they are, because the message is data and there is no token or the
    -- dispatcher answers with an error. Or it waits, because the storage fails to tell its
    -- oldest message.
    pub process_in_order :
        (grant : Grants) (last_refill : ℕ) (w : Worker V I S P) (e : Entry) (l : List Entry)
        (m : QueueMsg)
        → Represents calls fails w.transmission_queue (e ∷ l)
        → IsProper e
        → delivered grant no_msg e ≡ ok m
        → Returns (IsPassed l m w) (process_transmission_queue calls parts grant last_refill w)
    unfolding process_transmission_queue process_peeked first_delivered
    process_in_order grant last_refill w e l m r p d =
        let removed = remove_first calls fails w.transmission_queue e l r in
        let by = discard_of-remove calls grant w.transmission_queue e m p d in
        elim (peek_first_delivered calls fails grant w.transmission_queue no_msg (e ∷ l) r) [
          | inl seen ↦
              rw (seen, d)
                (process_msg_lem answers last_refill w l m m.operation refl
                  (subst (λ t. IsRemoved calls fails w.transmission_queue t l) (sym by) removed))
          | inr (f, (c, (unread, failed))) ↦ rw failed (inr (inr (f, ((c, unread), refl))))
        ]
