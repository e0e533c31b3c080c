-- ===== src/Data/Elements.antt =====
-- The deserializer on one field that the serializer wrote.
use astarte_device_sdk_zephy.Prelude.{
  ℕ, ◌+◌, ◌≤◌, ◌≡◌, refl, sym, ap, ◌∙◌, true, some, List, [], ◌∷◌, ◌++◌, length, length-append,
  drop, arith, IsU32, append_assoc,
}
use astarte_device_sdk_zephy.Result.{ok}
use astarte_device_sdk_zephy.Bson.Types.{type_array}
use astarte_device_sdk_zephy.Bson.ByteOrder.{
  ByteOrder, get-put_le32, length-put_le32, length-put_le64,
}
use astarte_device_sdk_zephy.Bson.Memory.{load_bytes}
use astarte_device_sdk_zephy.Bson.Memory.At.{drop_past, load_at, load_bytes_at, strnlen_at}
use astarte_device_sdk_zephy.Bson.Deserializer.{
  Document, Element, is_within_bounds, parsed_len, get_element_value_size, read_element,
}
use astarte_device_sdk_zephy.Bson.Serializer.{int32_max, c_string}
use astarte_device_sdk_zephy.Bson.Serializer.Format.{All, field, framed}
use astarte_device_sdk_zephy.Data.{
  Data, binaryblob, boolean, datetime, double, integer, longinteger, string, binaryblob_array,
  boolean_array, datetime_array, double_array, integer_array, longinteger_array, string_array,
}
use astarte_device_sdk_zephy.Data.Encoding.{type_of, payload_of}

-- The document whose list of `n` bytes starts at 4, behind the size.
abbrev pub document_of : ℕ → Document
document_of n = record { size = n + 5; list = some 4; list_size = n }

pub type_of_pos : (d : Data) → 1 ≤ type_of d
unfolding type_of
type_of_pos (binaryblob _) = omega arith
type_of_pos (boolean _) = omega arith
type_of_pos (datetime _) = omega arith
type_of_pos (double _) = omega arith
type_of_pos (integer _) = omega arith
type_of_pos (longinteger _) = omega arith
type_of_pos (string _) = omega arith
type_of_pos (binaryblob_array _) = omega arith
type_of_pos (boolean_array _) = omega arith
type_of_pos (datetime_array _) = omega arith
type_of_pos (double_array _) = omega arith
type_of_pos (integer_array _) = omega arith
type_of_pos (longinteger_array _) = omega arith
type_of_pos (string_array _) = omega arith

module _ (bo : ByteOrder) (mem : List ℕ) (n : ℕ) (small : n + 5 ≤ int32_max) where
  pub within : (p k : ℕ) → 4 ≤ p → p + k ≤ 4 + n → is_within_bounds (document_of n) p k ≡ ok true
  unfolding is_within_bounds
  within p k lo hi = ground arith

  -- The length field in front of a value.
  parsed_len_at :
      (p len : ℕ) (more : List ℕ)
      → 4 ≤ p
      → p + 4 ≤ 4 + n
      → IsU32 len
      → drop p mem ≡ bo.put_le32 len ++ more
      → parsed_len bo mem (document_of n) p ≡ ok len
  unfolding parsed_len
  parsed_len_at p len more lo hi w e = rw (within p 4 lo hi, read) (ap ok (get-put_le32 bo len w))
    where
      four : length (bo.put_le32 len) ≡ 4
      four = length-put_le32 bo len

      read : load_bytes mem p 4 ≡ ok (bo.put_le32 len)
      read =
          ap (load_bytes mem p) (sym four)
          ∙ load_bytes_at mem p (bo.put_le32 len) more (omega (arith, four)) e

  -- The bytes of a value follow, inside the list.
  abbrev pub Placed : ℕ → List ℕ → Type 0
  Placed p payload =
      (4 ≤ p) × (p + length payload ≤ 4 + n) × ((more : List ℕ) × (drop p mem ≡ payload ++ more))

  -- The length of a payload that starts with its length field.
  prefixed :
      (p len : ℕ) (rest : List ℕ)
      → Placed p (bo.put_le32 len ++ rest)
      → len ≤ length rest + 4
      → parsed_len bo mem (document_of n) p ≡ ok len
  prefixed p len rest (lo, hi, (more, e)) h =
      parsed_len_at p len (rest ++ more) lo (omega (arith, size)) (omega (arith, size))
        (e ∙ append_assoc (bo.put_le32 len) rest more)
    where
      size : length (bo.put_le32 len ++ rest) ≡ 4 + length rest
      size = omega (arith, length-append (bo.put_le32 len) rest, length-put_le32 bo len)

  array_size :
      (p : ℕ) (content : List ℕ)
      → Placed p (framed bo content)
      → get_element_value_size bo mem (document_of n) type_array p ≡ ok (length (framed bo content))
  unfolding get_element_value_size
  array_size p content at =
      prefixed p (length content + 5) (content ++ (0 ∷ [])) at (omega (arith, body_length))
      ∙ ap ok (
          omega (
            arith,
            body_length,
            length-append (bo.put_le32 (length content + 5)) (content ++ (0 ∷ [])),
            length-put_le32 bo (length content + 5),
          ))
    where
      body_length : length (content ++ (0 ∷ [])) ≡ length content + 1
      body_length = length-append content (0 ∷ [])

  pub value_size :
      (d : Data) (p : ℕ)
      → Placed p (payload_of bo d)
      → get_element_value_size bo mem (document_of n) (type_of d) p ≡ ok (length (payload_of bo d))
  unfolding get_element_value_size type_of payload_of
  value_size (binaryblob b) p at = rw (prefixed p (length b) (0 ∷ b) at (omega arith)) (
      ground (
        arith,
        at.0,
        at.1,
        length-append (bo.put_le32 (length b)) (0 ∷ b),
        length-put_le32 bo (length b),
      ))
  value_size (boolean b) p at = refl
  value_size (datetime k) p at = ap ok (sym (length-put_le64 bo k))
  value_size (double k) p at = ap ok (sym (length-put_le64 bo k))
  value_size (integer k) p at = ap ok (sym (length-put_le32 bo k))
  value_size (longinteger k) p at = ap ok (sym (length-put_le64 bo k))
  value_size (string t) p at =
      rw (prefixed p (length t + 1) (c_string t) at (omega (arith, length-append t (0 ∷ [])))) (
        ground (
          arith,
          at.0,
          at.1,
          length-append t (0 ∷ []),
          length-append (bo.put_le32 (length t + 1)) (c_string t),
          length-put_le32 bo (length t + 1),
        ))
  value_size (binaryblob_array l) p at = array_size p _ at
  value_size (boolean_array l) p at = array_size p _ at
  value_size (datetime_array l) p at = array_size p _ at
  value_size (double_array l) p at = array_size p _ at
  value_size (integer_array l) p at = array_size p _ at
  value_size (longinteger_array l) p at = array_size p _ at
  value_size (string_array l) p at = array_size p _ at

  -- The element of a value that starts at `p`.
  abbrev pub element_at : ℕ → List ℕ → Data → Element
  element_at p name d = record {
    type = type_of d;
    name = p + 1;
    name_len = length name;
    value = p + 1 + length name + 1;
  }

  -- The field of a named value follows, inside the list.
  abbrev pub FieldAt : ℕ → List ℕ → Data → Type 0
  FieldAt p name d = Placed p (field (type_of d) name (payload_of bo d))

  pub length-field :
      (name : List ℕ) (d : Data)
      → length (field (type_of d) name (payload_of bo d))
        ≡ length name + 2 + length (payload_of bo d)
  length-field name d = omega (
    arith,
    length-append (type_of d ∷ c_string name) (payload_of bo d),
    length-append name (0 ∷ []),
  )

  pub name_placed :
      (p : ℕ) (name more : List ℕ) (d : Data)
      → drop p mem ≡ field (type_of d) name (payload_of bo d) ++ more
      → drop (p + 1) mem ≡ name ++ (0 ∷ (payload_of bo d ++ more))
  name_placed p name more d e =
      drop_past mem p (type_of d ∷ []) (name ++ (0 ∷ (payload_of bo d ++ more))) (
        e
        ∙ ap (λ t. type_of d ∷ t)
            (append_assoc (c_string name) (payload_of bo d) more
              ∙ append_assoc name (0 ∷ []) (payload_of bo d ++ more)))

  pub value-Placed :
      (p : ℕ) (name : List ℕ) (d : Data)
      → FieldAt p name d
      → Placed (p + 1 + length name + 1) (payload_of bo d)
  value-Placed p name d (lo, hi, (more, e)) = (
    omega (arith, lo),
    omega (arith, hi, length-field name d),
    (
      more,
      drop_past mem (p + 1 + length name) (0 ∷ []) (payload_of bo d ++ more) (
          drop_past mem (p + 1) name (0 ∷ (payload_of bo d ++ more)) (name_placed p name more d e)),
    ),
  )

  pub read_element_at :
      (p max : ℕ) (name : List ℕ) (d : Data)
      → FieldAt p name d
      → All (λ b. 1 ≤ b) name
      → p + 1 + max ≡ 4 + n
      → read_element bo mem (document_of n) p max ≡ ok (element_at p name d)
  unfolding read_element
  read_element_at p max name d (lo, hi, (more, e)) z m =
      rw
        (
          load_at mem p (type_of d) ((c_string name ++ payload_of bo d) ++ more) e,
          strnlen_at mem (p + 1) max name (payload_of bo d ++ more) (name_placed p name more d e) z
              (omega (arith, hi, length-field name d)),
          value_size d (p + 1 + length name + 1) (value-Placed p name d (lo, hi, (more, e))),
          within (p + 1 + length name + 1) (length (payload_of bo d)) (omega (arith, lo))
              (omega (arith, hi, length-field name d)),
        )
        (ground (arith, hi, length-field name d))
