-- ===== src/Bson/Deserializer/Tests.antt =====
-- Runs of the deserializer on a fixed document, and the theorems applied to it.
use astarte_device_sdk_zephy.Prelude.{
  ℕ, ◌+◌, ◌*◌, ◌/◌, ◌%◌, ◌<◌, ◌≤◌, ◌≡◌, ◌⊎◌, inl, inr, refl, true, false, some, List, [], ◌∷◌,
  arith, IsByte,
}
use astarte_device_sdk_zephy.Result.{ok, Returns, Settles}
use astarte_device_sdk_zephy.Bson.ByteOrder.{ByteOrder}
use astarte_device_sdk_zephy.Bson.Memory.{load, load_bytes, strnlen, strncmp_eq}
use astarte_device_sdk_zephy.Bson.Serializer.Format.{All}
use astarte_device_sdk_zephy.Bson.Deserializer.{
  Document, Element, is_within_bounds, parsed_len, get_element_value_size, read_element,
  first_element, next_element, count_next, count_from, doc_count_elements, lookup_from,
  element_lookup, init_doc, check_list, check_doc, check_validity, element_to_document,
}
use astarte_device_sdk_zephy.Bson.Deserializer.Bounds.{IsListed, IsSound, IsElement}
use astarte_device_sdk_zephy.Bson.Deserializer.Walk.{
  first_element_in_bounds, next_element_in_bounds, doc_count_elements_total, element_lookup_total,
}
use astarte_device_sdk_zephy.Bson.Deserializer.Validity.{
  check_validity_sound, element_to_document-IsSound,
}

abbrev le32 : List ℕ → ℕ
le32 (a ∷ b ∷ c ∷ d ∷ _) = a + 256 * b + 65536 * c + 16777216 * d
le32 _ = 0

abbrev le64 : List ℕ → ℕ
le64 (a ∷ b ∷ c ∷ d ∷ high) = a + 256 * b + 65536 * c + 16777216 * d + 4294967296 * le32 high
le64 _ = 0

-- A byte order that obeys the laws.
abbrev pub little_endian : ByteOrder
little_endian = record {
  get_le32 = le32;
  get_le64 = le64;
  put_le32 = λ x. (x % 256) ∷ (x / 256 % 256) ∷ (x / 65536 % 256) ∷ (x / 16777216 % 256) ∷ [];
  put_le64 = λ x.
      (x % 256)
      ∷ (x / 256 % 256)
      ∷ (x / 65536 % 256)
      ∷ (x / 16777216 % 256)
      ∷ (x / 4294967296 % 256)
      ∷ (x / 1099511627776 % 256)
      ∷ (x / 281474976710656 % 256)
      ∷ (x / 72057594037927936 % 256)
      ∷ [];
  get_le32_lem = λ a b c d. refl;
  get_le64_lem = λ a b c d e f g h. refl;
  put_le32_lem = λ x. refl;
  put_le64_lem = λ x. refl;
}

-- { "a": 7, "d": {} }
abbrev memory : List ℕ
memory = 20 ∷ 0 ∷ 0 ∷ 0 ∷ 16 ∷ 97 ∷ 0 ∷ 7 ∷ 0 ∷ 0 ∷ 0 ∷ 3 ∷ 100 ∷ 0 ∷ 5 ∷ 0 ∷ 0 ∷ 0 ∷ 0 ∷ 0 ∷ []

abbrev doc : Document
doc = record { size = 20; list = some 4; list_size = 15 }

abbrev element_a : Element
element_a = record { type = 16; name = 5; name_len = 1; value = 7 }

abbrev element_d : Element
element_d = record { type = 3; name = 12; name_len = 1; value = 14 }

reads_document :
    (check_validity little_endian memory (some 0) 20 ≡ ok true)
    × (check_validity little_endian memory (some 0) 19 ≡ ok false)
    × (init_doc little_endian memory (some 0) ≡ ok doc)
    × (first_element little_endian memory doc ≡ ok element_a)
    × (next_element little_endian memory doc element_a ≡ ok element_d)
    × (doc_count_elements little_endian memory doc ≡ ok 2)
    × (element_lookup little_endian memory doc (100 ∷ []) ≡ ok element_d)
unfolding check_validity check_doc check_list init_doc load load_bytes strnlen strncmp_eq
    is_within_bounds parsed_len get_element_value_size read_element first_element next_element
    count_next count_from doc_count_elements lookup_from element_lookup
reads_document = (refl, refl, refl, refl, refl, refl, refl)

doc-IsListed : IsListed memory doc
doc-IsListed = record {
  start = 4;
  listed = refl;
  room = omega arith;
  sized = refl;
  word = omega arith;
}

a-IsElement : IsElement little_endian memory doc element_a
unfolding get_element_value_size load
a-IsElement = record {
  start = 4;
  size = 4;
  listed = refl;
  sized = refl;
  after = omega arith;
  value_at = refl;
  terminated = refl;
  fits = omega arith;
}

d-IsElement : IsElement little_endian memory doc element_d
unfolding get_element_value_size parsed_len is_within_bounds load_bytes load
d-IsElement = record {
  start = 4;
  size = 5;
  listed = refl;
  sized = refl;
  after = omega arith;
  value_at = refl;
  terminated = refl;
  fits = omega arith;
}

memory-IsByte : All IsByte memory
memory-IsByte = omega arith

check_validity_sound_example :
    Returns
      (λ b.
        (b ≡ false)
        ⊎ ((doc : Document) × (init_doc little_endian memory (some 0) ≡ ok doc)
            × IsListed memory doc))
      (check_validity little_endian memory (some 0) 20)
check_validity_sound_example =
    check_validity_sound little_endian memory memory-IsByte 0 20 (omega arith)

next_element_in_bounds_example :
    Settles
      (λ e'. IsElement little_endian memory doc e' × (7 < e'.value))
      (next_element little_endian memory doc element_a)
next_element_in_bounds_example =
    next_element_in_bounds little_endian memory element_a doc-IsListed a-IsElement

first_element_in_bounds_example :
    Settles (IsElement little_endian memory doc) (first_element little_endian memory doc)
first_element_in_bounds_example = first_element_in_bounds little_endian memory (inr doc-IsListed)

doc_count_elements_total_example :
    Settles (λ n. n ≤ 15) (doc_count_elements little_endian memory doc)
doc_count_elements_total_example =
    doc_count_elements_total little_endian memory {doc = doc} (inr doc-IsListed)

element_lookup_total_example :
    Settles
      (IsElement little_endian memory doc)
      (element_lookup little_endian memory doc (100 ∷ []))
element_lookup_total_example =
    element_lookup_total little_endian memory (100 ∷ []) (inr doc-IsListed)

element_to_document-IsSound_example :
    Returns (λ inner. IsSound memory inner) (element_to_document little_endian memory element_d)
element_to_document-IsSound_example =
    element_to_document-IsSound little_endian memory memory-IsByte doc element_d doc-IsListed
      d-IsElement (inl refl)
