-- ===== src/TransQueue/Kernel.antt =====
-- What device/transmission_queue.c takes from the kernel of Zephyr, `k_msgq`, as an interface: a
-- queue of at most `capacity` items. A call with K_NO_WAIT answers at once.
use astarte_device_sdk_zephy.Prelude.{
  ℕ, zero, suc, ◌≤◌, ◌<◌, ◌≡◌, Bool, true, false, Option, List, [], ◌∷◌, ◌++◌, length, get_elem?,
  drop,
}

-- `put` yields whether the call returned 0; `contents` is the items, the oldest first.
pub record KernelQueue (Q : Type 0) (A : Type 0) : Type 0 where
  pub init : Q
  pub put : Q → A → Bool × Q
  pub get : Q → Option A × Q
  pub peek : Q → Option A
  pub purge : Q → Q
  pub capacity : ℕ
  pub contents : Q → List A
  pub contents-init : contents init ≡ []
  pub contents-purge : (q : Q) → contents (purge q) ≡ []
  pub put_room : (q : Q) (a : A) → length (contents q) < capacity → (put q a).0 ≡ true
  pub put_full : (q : Q) (a : A) → capacity ≤ length (contents q) → (put q a).0 ≡ false
  pub contents-put_room :
      (q : Q) (a : A)
      → length (contents q) < capacity
      → contents (put q a).1 ≡ contents q ++ (a ∷ [])
  pub contents-put_full :
      (q : Q) (a : A) → capacity ≤ length (contents q) → contents (put q a).1 ≡ contents q
  pub get_oldest : (q : Q) → (get q).0 ≡ get_elem? (contents q) 0
  pub contents-get : (q : Q) → contents (get q).1 ≡ drop 1 (contents q)
  pub peek_oldest : (q : Q) → peek q ≡ get_elem? (contents q) 0
  pub length_bounded : (q : Q) → length (contents q) ≤ capacity

-- The oldest item makes place where the queue is full.
unfoldable pub evicted : {A : Type 0} → ℕ → List A → List A
evicted zero xs = drop 1 xs
evicted (suc room) xs = xs
