-- ===== src/Worker/Drained.antt =====
-- A run of the worker sends the whole backlog.
use mathlib.Core.Path.{subst}
use astarte_device_sdk_zephy.Prelude.{
  ℕ, zero, suc, ◌≤◌, ◌≡◌, refl, sym, ap, ◌∙◌, inl, inr, false, List, [], ◌∷◌, length, if◌then◌else◌,
  arith,
}
use astarte_device_sdk_zephy.Result.{Outcome, ok, err, ◌>>=◌, Returns, Returns-bind}
use astarte_device_sdk_zephy.TransQueue.{Queue}
use astarte_device_sdk_zephy.TransQueue.Message.{QueueMsg, Grants}
use astarte_device_sdk_zephy.TransQueue.Parts.{Calls, is_interface_operation}
use astarte_device_sdk_zephy.TransQueue.Backlog.{Entry, delivered}
use astarte_device_sdk_zephy.TransQueue.Abstraction.{Represents}
use astarte_device_sdk_zephy.Worker.{
  WorkerCalls, Worker, no_msg, interface_updated, process_transmission_queue,
}
use astarte_device_sdk_zephy.Worker.Discards.{IsProper}
use astarte_device_sdk_zephy.Worker.Order.{IsLeft, IsPassed, process_in_order}

-- What peek yields for the entries.
unfoldable pub Delivers : Grants → List Entry → List QueueMsg → Type 0
Delivers grant [] [] = Unit
Delivers grant (e ∷ l) (m ∷ ms) =
    IsProper e × ((delivered grant no_msg e ≡ ok m) × Delivers grant l ms)
Delivers grant _ _ = ⊥

module _ {V I S P : Type 0} (calls : Calls V I S) (parts : WorkerCalls P) where
  -- Passes without a refill between them.
  unfoldable pub passes : Grants → ℕ → ℕ → Worker V I S P → Outcome (Worker V I S P)
  passes grant last_refill zero w = ok w
  passes grant last_refill (suc n) w =
      process_transmission_queue calls parts grant last_refill w >>= passes grant last_refill n

  -- What a message does to the other parts.
  unfoldable pub sent : QueueMsg → P → P
  sent m p =
      if is_interface_operation m.operation
      then interface_updated calls parts m m.operation p
      else (parts.publish_data m p).1

  unfoldable pub sent_all : List QueueMsg → P → P
  sent_all [] p = p
  sent_all (m ∷ ms) p = sent_all ms (sent m p)

  abbrev pub IsDrained : List QueueMsg → P → Worker V I S P → Type 0
  IsDrained ms p x = Represents calls ⊥ x.transmission_queue [] × (x.peers ≡ sent_all ms p)

  module _ (succeeds : (m : QueueMsg) (p : P) → (parts.publish_data m p).0 ≡ ok tt) where
    Follows : List Entry → ℕ → QueueMsg → P → Worker V I S P → Type 0
    Follows l n m p x =
        Represents calls ⊥ x.transmission_queue l × ((n ≤ x.tokens) × (x.peers ≡ sent m p))

    -- The storage does not fail.
    rest :
        (l : List Entry) (q k : Queue V I S) → IsLeft calls ⊥ parts l q k → Represents calls ⊥ k l
    rest l q k (inl r) = r
    rest l q k (inr (f, u)) = absurd f

    next :
        (l : List Entry) (m : QueueMsg) (n : ℕ) (w x : Worker V I S P)
        → suc n ≤ w.tokens
        → IsPassed calls ⊥ parts l m w x
        → Follows l n m w.peers x
    unfolding Follows sent is_interface_operation
    next l m n w x t (inl h) =
        let left = rest l w.transmission_queue x.transmission_queue h.rest_waits in
        elim h.effect [
          | inl o ↦ (left, (omega (arith, o.1.0, t), rw o.0 o.1.1))
          | inr o ↦
              let is_data : is_interface_operation m.operation ≡ false =
                ap is_interface_operation o.0 in
              (left, (omega (arith, o.1.0, t), rw is_data (sym (ap (λ a. a.1) o.1.1))))
        ]
    next l m n w x t (inr (inl h)) = elim h.cause [
      | inl none_left ↦ absurd (omega (arith, none_left, t))
      | inr c ↦
          let e : err c.0 ≡ ok tt = sym (ap (λ a. a.0) c.1.1) ∙ succeeds m w.peers in
          absurd (ground (arith, e))
    ]
    next l m n w x t (inr (inr (f, u))) = absurd f

    -- While the queue holds a backlog, where peek and discard of the storage, in the state it is
    -- in, yield the stored messages of the backlog one after the other and do not fail, the
    -- entries, all proper, can be delivered as the messages, the dispatcher always succeeds and
    -- there are as many tokens as messages: as many passes of the worker return, leave the empty
    -- backlog, and have done what the messages ask, each once, in the order of the backlog.
    pub passes_drain :
        (grant : Grants) (last_refill : ℕ) (w : Worker V I S P) (l : List Entry)
        (ms : List QueueMsg)
        → Represents calls ⊥ w.transmission_queue l
        → Delivers grant l ms
        → length ms ≤ w.tokens
        → Returns (IsDrained ms w.peers) (passes grant last_refill (length ms) w)
    unfolding Delivers passes sent_all Follows
    passes_drain grant last_refill w [] [] r d t = (r, refl)
    passes_drain grant last_refill w [] (m ∷ ms) r d t = absurd d
    passes_drain grant last_refill w (e ∷ l) [] r d t = absurd d
    passes_drain grant last_refill w (e ∷ l) (m ∷ ms) r d t =
        Returns-bind (IsPassed calls ⊥ parts l m w) (IsDrained (m ∷ ms) w.peers)
          (process_transmission_queue calls parts grant last_refill w)
          (passes grant last_refill (length ms))
          (process_in_order calls ⊥ parts (λ a p. inl (succeeds a p)) grant last_refill w e l m r
            d.0 d.1.0)
          (λ x h.
            let f = next l m (length ms) w x t h in
            subst (λ p. Returns (IsDrained ms p) (passes grant last_refill (length ms) x)) f.1.1
              (passes_drain grant last_refill x l ms f.0 d.1.1 f.1.0))
