-- ===== src/Bson/Serializer/Append.antt =====
-- The growing byte array: what an append stores, on every answer of the allocator.
use astarte_device_sdk_zephy.Prelude.{
  ℕ, ◌+◌, ◌*◌, ◌≤◌, ◌≡◌, refl, sym, Bool, true, false, none, some, List, [], ◌∷◌, ◌++◌, length,
  length-append, ltb, leb, if◌then◌else◌, add32, arith, inr, append-nil,
}
use mathlib.Core.Logic.{◌⊎◌}
use mathlib.Core.Path.{subst}
use astarte_device_sdk_zephy.Result.{out_of_memory}
use astarte_device_sdk_zephy.Bson.Serializer.{
  Serializer, Written, done, failed, fault, ◌>>=◌, int32_max, new_capacity, byte_array_grow,
  store_at, store, byte_array_append_byte, byte_array_append,
}

-- An open serializer that holds these bytes.
pub record Holds (bytes : List ℕ) (s : Serializer) : Type 0 where
  pub stored : s.buf ≡ some bytes
  pub sized : s.size ≡ length bytes
  pub fits : s.size ≤ s.capacity
  pub small : s.capacity ≤ int32_max
  pub is_open : s.terminated ≡ false

-- An assumption on the allocator: a block has at most INT32_MAX bytes (PTRDIFF_MAX on the 32-bit
-- targets, which no object exceeds).
abbrev pub IsModest : (ℕ → Bool) → Type 0
IsModest grant = (n : ℕ) → grant n ≡ true → n ≤ int32_max

-- The largest block that is asked for to write so many bytes.
abbrev pub largest_block : ℕ → ℕ
largest_block bytes = 64 + 2 * bytes

-- The call, which writes a serializer of at most so many bytes, ends with success and `P` of the
-- serializer; or out of memory, because the allocator refused a block that is no larger than those
-- bytes ask for, and then the serializer still holds some bytes, or none at all where it was to be
-- created.
abbrev pub Ends : (ℕ → Bool) → ℕ → (Serializer → Type 0) → Written → Type 0
Ends grant bytes P (done s) = P s
Ends grant bytes P (failed c s) =
    (c ≡ out_of_memory)
    × ((n : ℕ) × ((n ≤ largest_block bytes) × (grant n ≡ false)))
    × ((s.buf ≡ none) ⊎ ((part : List ℕ) × Holds part s))
Ends grant bytes P fault = ⊥

pub Ends-mono :
    (grant : ℕ → Bool) (fewer bytes : ℕ) (P : Serializer → Type 0) (m : Written)
    → fewer ≤ bytes
    → Ends grant fewer P m
    → Ends grant bytes P m
Ends-mono grant fewer bytes P (done s) f h = h
Ends-mono grant fewer bytes P (failed c s) f h =
    (h.0, (h.1.0, (omega (arith, f, h.1.1.0), h.1.1.1)), h.2)
Ends-mono grant fewer bytes P fault f h = absurd h

pub Ends-bind :
    (grant : ℕ → Bool) (bytes : ℕ) (P Q : Serializer → Type 0) (m : Written)
    (f : Serializer → Written)
    → Ends grant bytes P m
    → ((s : Serializer) → P s → Ends grant bytes Q (f s))
    → Ends grant bytes Q (m >>= f)
Ends-bind grant bytes P Q (done s) f h k = k s h
Ends-bind grant bytes P Q (failed c s) f h k = h
Ends-bind grant bytes P Q fault f h k = absurd h

pub Ends-if :
    (grant : ℕ → Bool) (bytes : ℕ) (P : Serializer → Type 0) (b : Bool) (m n : Written)
    → (b ≡ true → Ends grant bytes P m)
    → (b ≡ false → Ends grant bytes P n)
    → Ends grant bytes P (if b then m else n)
Ends-if grant bytes P true m n km kn = km refl
Ends-if grant bytes P false m n km kn = kn refl

new_capacity_lem :
    (s : Serializer) (needed : ℕ)
    → s.size ≤ s.capacity
    → s.capacity ≤ int32_max
    → needed ≤ int32_max + 1
    → s.size + needed ≤ new_capacity s needed
unfolding new_capacity
new_capacity_lem s needed h k m = ground arith

-- A serializer without room asks for no more than it needs.
new_capacity_small :
    (s : Serializer) (needed : ℕ)
    → s.size ≤ s.capacity
    → s.capacity ≤ int32_max
    → needed ≤ int32_max + 1
    → leb (add32 s.size needed) s.capacity ≡ false
    → new_capacity s needed ≤ largest_block (s.size + needed)
unfolding new_capacity
new_capacity_small s needed h k m f = ground arith

-- `store` writes in bounds where there is room.
store_lem :
    (grant : ℕ → Bool) (bytes : ℕ) (old new : List ℕ) (s : Serializer)
    → Holds old s
    → s.size + length new ≤ s.capacity
    → Ends grant bytes (Holds (old ++ new)) (store s new)
unfolding store
store_lem grant bytes old new s h room =
    subst (λ o. Ends grant bytes (Holds (old ++ new)) (store_at o new s)) (sym h.stored)
      (Ends-if grant bytes _ (leb (s.size + length new) s.capacity) _ _
        (λ _. record {
          stored = refl;
          sized = omega (arith, length-append old new, h.sized, h.small);
          fits = omega (arith, h.small);
          small = h.small;
          is_open = h.is_open;
        })
        (λ f. absurd (ground arith)))

module _ (grant : ℕ → Bool) (modest : IsModest grant) where
  -- Room for what is needed, the bytes kept.
  grow-Ends :
      (bytes : List ℕ) (needed total : ℕ) (s : Serializer)
      → Holds bytes s
      → needed ≤ int32_max + 1
      → length bytes + needed ≤ total
      → Ends grant total
          (λ s'. Holds bytes s' × (s'.size + needed ≤ s'.capacity))
          (byte_array_grow grant s needed)
  unfolding byte_array_grow
  grow-Ends bytes needed total s h small within =
      Ends-if grant total _ (leb (add32 s.size needed) s.capacity) _ _
        (λ t. (h, ground (arith, h.fits, h.small)))
        λ f.
          Ends-if grant total _ (grant (new_capacity s needed)) _ _
            (λ t. (
              record {
                stored = h.stored;
                sized = h.sized;
                fits = omega (arith, new_capacity_lem s needed h.fits h.small small);
                small = modest (new_capacity s needed) t;
                is_open = h.is_open;
              },
              new_capacity_lem s needed h.fits h.small small,
            ))
            (λ r. (
              refl,
              (
                new_capacity s needed,
                (
                  omega
                      (arith, new_capacity_small s needed h.fits h.small small f, h.sized, within),
                  r,
                ),
              ),
              inr (bytes, h),
            ))

  -- `byte_array_append` adds exactly the bytes that it is given.
  pub append-Ends :
      (old new : List ℕ) (s : Serializer)
      → Holds old s
      → length new ≤ int32_max + 1
      → Ends grant (length (old ++ new)) (Holds (old ++ new)) (byte_array_append grant new s)
  unfolding byte_array_append
  append-Ends old [] s h small =
      Ends-bind grant (length (old ++ [])) _ _ (byte_array_grow grant s 0) _
        (grow-Ends old 0 (length (old ++ [])) s h (omega arith)
          (omega (arith, length-append old [])))
        λ s' g. subst (λ o. Holds o s') (sym (append-nil old)) g.0
  append-Ends old (x ∷ xs) s h small =
      Ends-bind grant (length (old ++ x ∷ xs)) _ _ (byte_array_grow grant s (length (x ∷ xs))) _
        (grow-Ends old (length (x ∷ xs)) (length (old ++ x ∷ xs)) s h small
          (omega (arith, length-append old (x ∷ xs))))
        λ s' g.
          Ends-if grant (length (old ++ x ∷ xs)) _ (ltb 0 (length (x ∷ xs))) _ _
            (λ _. store_lem grant _ old (x ∷ xs) s' g.0 g.1) (λ f. absurd (ground arith))

  pub append_byte-Ends :
      (old : List ℕ) (byte : ℕ) (s : Serializer)
      → Holds old s
      → Ends grant
          (length (old ++ byte ∷ []))
          (Holds (old ++ byte ∷ []))
          (byte_array_append_byte grant byte s)
  unfolding byte_array_append_byte
  append_byte-Ends old byte s h =
      Ends-bind grant (length (old ++ byte ∷ [])) _ _ (byte_array_grow grant s 1) _
        (grow-Ends old 1 (length (old ++ byte ∷ [])) s h (omega arith)
          (omega (arith, length-append old (byte ∷ []))))
        λ s' g. store_lem grant _ old (byte ∷ []) s' g.0 g.1
