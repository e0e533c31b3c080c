-- ===== src/Bson/Memory.antt =====
-- Reads through C pointers: memory is one sequence of bytes, a pointer is an index into it, and a
-- read outside it is a `fault`. With the string functions of the C library that walk memory.
pub mod At
use astarte_device_sdk_zephy.Prelude.{
  ℕ, zero, suc, ◌+◌, ◌≤◌, ◌<◌, ◌≡◌, refl, Bool, true, false, none, some, List, [], ◌∷◌, length,
  get_elem?, take, drop, leb, ◌==◌, if◌then◌else◌, arith, ap, ◌∙◌,
}
use astarte_device_sdk_zephy.Result.{Outcome, ok, fault, ◌>>=◌, Returns, Returns-bind, Returns-if}

unfoldable pub load : List ℕ → ℕ → Outcome ℕ
load mem p = elim (get_elem? mem p) [ none ↦ fault | some b ↦ ok b ]

unfoldable pub load_bytes : List ℕ → ℕ → ℕ → Outcome (List ℕ)
load_bytes mem p n = if leb (p + n) (length mem) then ok (take n (drop p mem)) else fault

-- `strnlen(p, max)`
unfoldable pub strnlen : List ℕ → ℕ → ℕ → Outcome ℕ
strnlen mem p zero = ok 0
strnlen mem p (suc max) = do
  b ← load mem p
  if b == 0 then ok 0 else strnlen mem (p + 1) max >>= λ n. ok (suc n)

-- `strncmp(key, p, n) == 0`; the list holds the bytes of `key` before its terminator.
unfoldable pub strncmp_eq : List ℕ → List ℕ → ℕ → ℕ → Outcome Bool
strncmp_eq mem key p zero = ok true
strncmp_eq mem [] p (suc n) = do b ← load mem p; ok (b == 0)
strncmp_eq mem (k ∷ ks) p (suc n) = do
  b ← load mem p
  if b == k then strncmp_eq mem ks (p + 1) n else ok false

pub load-Returns :
    (mem : List ℕ) (p : ℕ) → p < length mem → Returns (λ b. load mem p ≡ ok b) (load mem p)
unfolding load
load-Returns [] p h = absurd (omega arith)
load-Returns (x ∷ xs) zero h = refl
load-Returns (x ∷ xs) (suc p) h = load-Returns xs p (omega arith)

-- The length stays below the bound, and the terminator was seen unless it reaches the bound.
pub strnlen-Returns :
    (mem : List ℕ) (p max : ℕ)
    → p + max ≤ length mem
    → Returns (λ n. (n ≤ max) × ((n < max) → load mem (p + n) ≡ ok 0)) (strnlen mem p max)
unfolding strnlen
strnlen-Returns mem p zero h = (omega arith, λ k. absurd (omega arith))
strnlen-Returns mem p (suc max) h =
    Returns-bind (λ b. load mem p ≡ ok b) _ (load mem p) _ (load-Returns mem p (omega arith))
      λ b e.
        Returns-if _ (b == 0) _ _
          (λ z. (omega arith, λ k. ap (load mem) (omega arith) ∙ e ∙ ap ok (ground arith)))
          (λ nz.
            Returns-bind _ _ (strnlen mem (p + 1) max) _
              (strnlen-Returns mem (p + 1) max (omega arith))
              λ n h. (omega arith, λ k. ap (load mem) (omega arith) ∙ h.1 (omega arith)))

pub strncmp_eq-Returns :
    (mem key : List ℕ) (p n : ℕ) → p + n ≤ length mem → Returns (λ b. Unit) (strncmp_eq mem key p n)
unfolding strncmp_eq
strncmp_eq-Returns mem key p zero h = tt
strncmp_eq-Returns mem [] p (suc n) h =
    Returns-bind _ _ (load mem p) _ (load-Returns mem p (omega arith)) λ b e. tt
strncmp_eq-Returns mem (k ∷ ks) p (suc n) h =
    Returns-bind _ _ (load mem p) _ (load-Returns mem p (omega arith)) λ b e.
      Returns-if _ (b == k) _ _ (λ z. strncmp_eq-Returns mem ks (p + 1) n (omega arith)) (λ nz. tt)

pub load_bytes-Returns :
    (mem : List ℕ) (p n : ℕ)
    → p + n ≤ length mem
    → Returns (λ b. b ≡ take n (drop p mem)) (load_bytes mem p n)
unfolding load_bytes
load_bytes-Returns mem p n h =
    Returns-if _ (leb (p + n) (length mem)) _ _ (λ t. refl) (λ f. absurd (ground arith))
