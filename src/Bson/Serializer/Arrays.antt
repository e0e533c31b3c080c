-- ===== src/Bson/Serializer/Arrays.antt =====
-- The end of a document, and the arrays, which are documents inside a document.
use mathlib.Core.Path.{subst}
use astarte_device_sdk_zephy.Prelude.{
  ℕ, zero, suc, ◌+◌, ◌/◌, ◌%◌, ◌≤◌, ◌≡◌, refl, sym, Bool, true, some, List, [], ◌∷◌, ◌++◌, length,
  length-append, inl, inr, leb, if◌then◌else◌, arith, append-nil,
}
use astarte_device_sdk_zephy.Bson.Types.{type_array}
use astarte_device_sdk_zephy.Bson.ByteOrder.{ByteOrder, length-put_le32}
use astarte_device_sdk_zephy.Bson.Serializer.{
  Serializer, Written, done, failed, fault, int32_max, c_string, decimal, init, byte_array_init,
  append_header, byte_array_append_byte, append_end_of_document, replace_size, append_items,
  append_inner, append_serialized, append_array, get_serialized,
}
use astarte_device_sdk_zephy.Bson.Serializer.Append.{
  Holds, IsModest, Ends, Ends-bind, Ends-if, Ends-mono, append-Ends, append_byte-Ends,
}
use astarte_device_sdk_zephy.Bson.Serializer.Format.{All, field, framed, items}
use astarte_device_sdk_zephy.Bson.Serializer.Fields.{Adds, Adds-bind, open_if, header-Adds}

-- A terminated serializer that holds these bytes.
pub record Sealed (bytes : List ℕ) (s : Serializer) : Type 0 where
  pub stored : s.buf ≡ some bytes
  pub sized : s.size ≡ length bytes
  pub small : s.size ≤ int32_max
  pub closed : s.terminated ≡ true

pub get_serialized-Sealed :
    (bytes : List ℕ) (s : Serializer)
    → Sealed bytes s
    → get_serialized s ≡ some (bytes, length bytes)
unfolding get_serialized
get_serialized-Sealed bytes s h = ground arith

pub length-framed_body :
    (bo : ByteOrder) (body : List ℕ) → length (framed bo body) ≡ length body + 5
length-framed_body bo body = omega (
  arith,
  length-append (bo.put_le32 (length body + 5)) (body ++ (0 ∷ [])),
  length-append body (0 ∷ []),
  length-put_le32 bo (length body + 5),
)

length-decimal : (fuel n : ℕ) → length (decimal fuel n) ≤ fuel
unfolding decimal
length-decimal zero n = omega arith
length-decimal (suc fuel) n = ground (
  arith,
  length-append (decimal fuel (n / 10)) ((n % 10 + b'0') ∷ []),
  length-decimal fuel (n / 10),
)

module _ (grant : ℕ → Bool) (modest : IsModest grant) where
  -- A new serializer holds four zeros, for the size.
  pub init-Ends : (bytes : ℕ) → Ends grant bytes (Holds (0 ∷ 0 ∷ 0 ∷ 0 ∷ [])) (init grant)
  unfolding init byte_array_init
  init-Ends bytes =
      Ends-if grant bytes _ (grant 4) _ _
        (λ t. record {
          stored = refl;
          sized = omega arith;
          fits = omega arith;
          small = omega arith;
          is_open = refl;
        })
        (λ r. (refl, (4, (omega arith, r)), inl refl))

  module _ (bo : ByteOrder) where
    -- The end of the document leaves a document in the BSON format.
    pub end-Ends :
        (body : List ℕ) (s : Serializer)
        → Holds (0 ∷ 0 ∷ 0 ∷ 0 ∷ body) s
        → Ends grant
            (length (framed bo body))
            (Sealed (framed bo body))
            (append_end_of_document grant bo s)
    unfolding append_end_of_document replace_size
    end-Ends body s h = open_if grant _ _ _ s _ _ h (
        Ends-bind grant (length (framed bo body)) _ _ (byte_array_append_byte grant 0 s) _
          (Ends-mono grant _ (length (framed bo body)) _ (byte_array_append_byte grant 0 s)
            (omega (arith, length-append body (0 ∷ []), size_of_framed))
            (append_byte-Ends grant modest (0 ∷ 0 ∷ 0 ∷ 0 ∷ body) 0 s h))
          λ s' g.
            subst
              (λ o.
                Ends grant (length (framed bo body)) (Sealed (framed bo body))
                  (replace_size grant bo o s'))
              (sym g.stored)
              (subst
                (λ n. Ends grant (length (framed bo body)) (Sealed (framed bo body)) (
                  if leb 4 s'.capacity
                  then done (record s' {
                    buf = some (bo.put_le32 n ++ (body ++ (0 ∷ [])));
                    terminated = true;
                  })
                  else fault))
                (length-framed body s' g)
                (Ends-if grant _ _ (leb 4 s'.capacity) _ _
                  (λ _. record {
                    stored = refl;
                    sized = omega (
                      arith,
                      g.sized,
                      length-append body (0 ∷ []),
                      length-append (bo.put_le32 (length body + 5)) (body ++ (0 ∷ [])),
                      length-put_le32 bo (length body + 5),
                    );
                    small = omega (arith, g.fits, g.small);
                    closed = refl;
                  })
                  (λ f. absurd (ground (arith, g.fits, g.sized))))))
      where
        size_of_framed : length (framed bo body) ≡ length body + 5
        size_of_framed = length-framed_body bo body

        length-framed :
            (body : List ℕ) (s' : Serializer)
            → Holds (0 ∷ 0 ∷ 0 ∷ 0 ∷ body ++ (0 ∷ [])) s'
            → length body + 5 ≡ s'.size
        length-framed body s' g = omega (arith, g.sized, length-append body (0 ∷ []))

    -- The elements of an array, each by its own append.
    items-Adds {ℓ} :
        {A : Type ℓ} (P : A → Type 0) (type : ℕ) (payload : A → List ℕ)
        (append : A → List ℕ → Serializer → Written)
        → ((x : A) (old name : List ℕ) (s : Serializer)
            → P x
            → length name ≤ int32_max
            → Holds old s
            → Adds grant old (field type name (payload x)) (append x name s))
        → (xs : List A) (i : ℕ) (old : List ℕ) (s : Serializer) → All P xs
        → Holds old s
        → Adds grant old (items type payload xs i) (append_items grant bo append xs i s)
    unfolding append_items items
    items-Adds P type payload append one [] i old s ps h =
        subst (λ o. Holds o s) (sym (append-nil old)) h
    items-Adds P type payload append one (x ∷ xs) i old s ps h =
        Adds-bind grant old (field type (decimal 10 i) (payload x)) (items type payload xs (i + 1))
          (append x (decimal 10 i) s) _
          (one x old (decimal 10 i) s ps.0 (omega (arith, length-decimal 10 i)) h)
          λ s' h'. items-Adds P type payload append one xs (i + 1) _ s' ps.1 h'

    inner-Adds :
        (document old name : List ℕ) (s : Serializer) (m : Written)
        → length name ≤ int32_max
        → Holds old s
        → Ends grant (length document) (Sealed document) m
        → Adds grant old (field type_array name document) (append_inner grant bo m name s)
    unfolding append_inner append_serialized
    inner-Adds document old name s (done inner) short h k =
        subst
          (λ o.
            Adds grant old (field type_array name document) (append_serialized grant bo o name s))
          (sym (get_serialized-Sealed document inner k))
          (Adds-bind grant old (type_array ∷ c_string name) document
            (append_header grant type_array name s) _
            (header-Adds grant modest old name s h short type_array)
            λ s' h'. append-Ends grant modest _ document s' h' (omega (arith, k.sized, k.small)))
    inner-Adds document old name s (failed c inner) short h k =
        let shorter : length document ≤ length (old ++ field type_array name document) = omega (
          arith,
          length-append old (field type_array name document),
          length-append (c_string name) document,
        ) in
        (k.0, (k.1.0, (omega (arith, k.1.1.0, shorter), k.1.1.1)), inr (old, h))
    inner-Adds document old name s fault short h k = absurd k

    pub array-Adds {ℓ} :
        {A : Type ℓ} (P : A → Type 0) (type : ℕ) (payload : A → List ℕ)
        (append : A → List ℕ → Serializer → Written)
        → ((x : A) (old name : List ℕ) (s : Serializer)
            → P x
            → length name ≤ int32_max
            → Holds old s
            → Adds grant old (field type name (payload x)) (append x name s))
        → (xs : List A) (old name : List ℕ) (s : Serializer) → All P xs
        → length name ≤ int32_max
        → Holds old s
        → Adds grant old
            (field type_array name (framed bo (items type payload xs 0)))
            (append_array grant bo append xs name s)
    unfolding append_array
    array-Adds P type payload append one xs old name s ps short h = open_if grant _ _ old s _ _ h (
        inner-Adds (framed bo (items type payload xs 0)) old name s _ short h (
          let whole = length (framed bo (items type payload xs 0)) in
          Ends-bind grant whole _ _ (init grant) _ (init-Ends whole) λ empty h₀.
            Ends-bind grant whole _ _ (append_items grant bo append xs 0 empty) _
              (Ends-mono grant _ whole _ (append_items grant bo append xs 0 empty)
                (omega (arith, length-framed_body bo (items type payload xs 0)))
                (items-Adds P type payload append one xs 0 (0 ∷ 0 ∷ 0 ∷ 0 ∷ []) empty ps h₀))
              λ full h₁. end-Ends (items type payload xs 0) full h₁))
