-- ===== src/Bson/Memory/At.antt =====
-- What the reads return where the bytes at a pointer are known: `drop p mem` is what follows `p`.
use astarte_device_sdk_zephy.Prelude.{
  ℕ, zero, suc, ◌+◌, ◌-◌, ◌≤◌, ◌<◌, ◌≡◌, refl, sym, ap, ◌∙◌, Bool, true, false, List, [], ◌∷◌, ◌++◌,
  length, length-append, take, drop, ◌==◌, if◌then◌else◌, arith,
}
use astarte_device_sdk_zephy.Result.{ok}
use astarte_device_sdk_zephy.Bson.Memory.{load, load_bytes, strnlen, strncmp_eq}
use astarte_device_sdk_zephy.Bson.Serializer.Format.{All}

-- Two names, byte by byte.
unfoldable pub name_eq : List ℕ → List ℕ → Bool
name_eq [] [] = true
name_eq [] (y ∷ ys) = false
name_eq (x ∷ xs) [] = false
name_eq (x ∷ xs) (y ∷ ys) = if y == x then name_eq xs ys else false

module _ {ℓ} {A : Type ℓ} where
  pub length-drop : (n : ℕ) (xs : List A) → length (drop n xs) ≡ length xs - n
  length-drop zero xs = omega arith
  length-drop (suc n) [] = omega arith
  length-drop (suc n) (x ∷ xs) = omega (arith, length-drop n xs)

  drop-nil : (k : ℕ) → drop {A = A} k [] ≡ []
  drop-nil zero = refl
  drop-nil (suc k) = refl

  pub drop-add : (n m : ℕ) (xs : List A) → drop (n + m) xs ≡ drop m (drop n xs)
  drop-add zero m xs = let e : 0 + m ≡ m = omega arith in rw e refl
  drop-add (suc n) m [] = drop-nil (suc n + m) ∙ sym (drop-nil m)
  drop-add (suc n) m (x ∷ xs) =
      let e : suc n + m ≡ suc (n + m) = omega arith in rw e (drop-add n m xs)

  pub drop-append : (a r : List A) → drop (length a) (a ++ r) ≡ r
  drop-append [] r = refl
  drop-append (x ∷ a) r = drop-append a r

  pub take-append : (a r : List A) → take (length a) (a ++ r) ≡ a
  take-append [] r = refl
  take-append (x ∷ a) r = ap (λ t. x ∷ t) (take-append a r)

  -- The bytes behind the ones that are known.
  pub drop_past :
      (mem : List A) (p : ℕ) (a r : List A) → drop p mem ≡ a ++ r → drop (p + length a) mem ≡ r
  drop_past mem p a r e = drop-add p (length a) mem ∙ ap (drop (length a)) e ∙ drop-append a r

pub load_at : (mem : List ℕ) (p x : ℕ) (r : List ℕ) → drop p mem ≡ x ∷ r → load mem p ≡ ok x
unfolding load
load_at [] zero x r e = cc
load_at [] (suc p) x r e = cc
load_at (y ∷ ys) zero x r e = cc
load_at (y ∷ ys) (suc p) x r e = load_at ys p x r e

pub load_bytes_at :
    (mem : List ℕ) (p : ℕ) (a r : List ℕ)
    → 1 ≤ length a
    → drop p mem ≡ a ++ r
    → load_bytes mem p (length a) ≡ ok a
unfolding load_bytes
load_bytes_at mem p a r some e = ground (
  arith,
  ap length e,
  length-drop p mem,
  length-append a r,
  ap (take (length a)) e ∙ take-append a r,
)

pub strnlen_at :
    (mem : List ℕ) (p max : ℕ) (name r : List ℕ)
    → drop p mem ≡ name ++ (0 ∷ r)
    → All (λ b. 1 ≤ b) name
    → length name < max
    → strnlen mem p max ≡ ok (length name)
unfolding strnlen
strnlen_at mem p zero name r e z h = absurd (omega arith)
strnlen_at mem p (suc max) [] r e z h = rw (load_at mem p 0 r e) refl
strnlen_at mem p (suc max) (x ∷ name) r e (z, zs) h = ground (
  arith,
  load_at mem p x (name ++ (0 ∷ r)) e,
  strnlen_at mem (p + 1) max name r (drop_past mem p (x ∷ []) (name ++ (0 ∷ r)) e) zs (omega arith),
)

pub strncmp_eq_at :
    (mem key : List ℕ) (p : ℕ) (name r : List ℕ)
    → drop p mem ≡ name ++ (0 ∷ r)
    → All (λ b. 1 ≤ b) name
    → All (λ b. 1 ≤ b) key
    → strncmp_eq mem key p (suc (length name)) ≡ ok (name_eq key name)
unfolding strncmp_eq name_eq
strncmp_eq_at mem [] p [] r e z k = rw (load_at mem p 0 r e) refl
strncmp_eq_at mem [] p (x ∷ name) r e z k = ground (arith, load_at mem p x (name ++ (0 ∷ r)) e)
strncmp_eq_at mem (c ∷ cs) p [] r e z k = ground (arith, load_at mem p 0 r e)
strncmp_eq_at mem (c ∷ cs) p (x ∷ name) r e (z, zs) (k, ks) = ground (
  arith,
  load_at mem p x (name ++ (0 ∷ r)) e,
  strncmp_eq_at mem cs (p + 1) name r (drop_past mem p (x ∷ []) (name ++ (0 ∷ r)) e) zs ks,
)
