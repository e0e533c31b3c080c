-- ===== src/Introspection/Nodes.antt =====
-- What introspection.c takes from Zephyr's `sys/dlist.h`, as an interface: a doubly linked list of
-- nodes that each hold a value. `nodes` is what SYS_DLIST_FOR_EACH_CONTAINER visits, in order.
use astarte_device_sdk_zephy.Prelude.{ℕ, zero, suc, ◌≡◌, List, [], ◌∷◌, ◌++◌}

module _ {A : Type 0} where
  unfoldable pub remove_at : List A → ℕ → List A
  remove_at [] i = []
  remove_at (x ∷ xs) zero = xs
  remove_at (x ∷ xs) (suc i) = x ∷ remove_at xs i

  unfoldable pub replace_at : List A → ℕ → A → List A
  replace_at [] i y = []
  replace_at (x ∷ xs) zero y = y ∷ xs
  replace_at (x ∷ xs) (suc i) y = x ∷ replace_at xs i y

-- `sys_dlist_init`, `sys_dlist_append`, `sys_dlist_remove` of the node at a position, and a write to
-- the value of the node at a position, which the list does not see.
pub record Dlist (L : Type 0) (A : Type 0) : Type 0 where
  pub init : L
  pub append : L → A → L
  pub remove : L → ℕ → L
  pub put : L → ℕ → A → L
  pub nodes : L → List A
  pub nodes-init : nodes init ≡ []
  pub nodes-append : (l : L) (x : A) → nodes (append l x) ≡ nodes l ++ (x ∷ [])
  pub nodes-remove : (l : L) (i : ℕ) → nodes (remove l i) ≡ remove_at (nodes l) i
  pub nodes-put : (l : L) (i : ℕ) (x : A) → nodes (put l i x) ≡ replace_at (nodes l) i x
