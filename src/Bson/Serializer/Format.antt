-- ===== src/Bson/Serializer/Format.antt =====
-- The BSON format, described without the serializer.
use astarte_device_sdk_zephy.Prelude.{ℕ, ◌+◌, Bool, List, [], ◌∷◌, ◌++◌, length, if◌then◌else◌}
use astarte_device_sdk_zephy.Bson.ByteOrder.{ByteOrder}
use astarte_device_sdk_zephy.Bson.Serializer.{c_string, decimal}

-- A named value: its type, its name with the terminator, its payload.
abbrev pub field : ℕ → List ℕ → List ℕ → List ℕ
field type name payload = (type ∷ c_string name) ++ payload

abbrev pub boolean_payload : Bool → List ℕ
boolean_payload b = (if b then 1 else 0) ∷ []

module _ (bo : ByteOrder) where
  abbrev pub string_payload : List ℕ → List ℕ
  string_payload t = bo.put_le32 (length t + 1) ++ c_string t

  abbrev pub binary_payload : List ℕ → List ℕ
  binary_payload b = bo.put_le32 (length b) ++ (0 ∷ b)

  -- A document: its size, its fields, a zero.
  abbrev pub framed : List ℕ → List ℕ
  framed body = bo.put_le32 (length body + 5) ++ (body ++ (0 ∷ []))

-- The fields of an array, named by their indices from `i` on.
unfoldable pub items {ℓ} : {A : Type ℓ} → ℕ → (A → List ℕ) → List A → ℕ → List ℕ
items type payload [] i = []
items type payload (x ∷ xs) i =
    field type (decimal 10 i) (payload x) ++ items type payload xs (i + 1)

-- Every member of the list satisfies `P`.
abbrev pub All {ℓ} : {A : Type ℓ} → (A → Type 0) → List A → Type 0
All P [] = Unit
All P (x ∷ xs) = P x × All P xs
