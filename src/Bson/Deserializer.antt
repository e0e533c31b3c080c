-- ===== src/Bson/Deserializer.antt =====
-- lib/astarte_device_sdk/bson/deserializer.c. `mem` is the memory that holds the buffer; sizes are
-- those of a 32-bit target, so `size_t` sums wrap at 2^32.
pub mod Bounds
pub mod Walk
pub mod Validity
pub mod Tests
use astarte_device_sdk_zephy.Prelude.{
  ℕ, zero, suc, ◌+◌, ◌-◌, Bool, true, false, ◌&&◌, ◌||◌, not, Option, none, some, List, ltb, leb,
  ◌==◌, if◌then◌else◌, uint32_max, add32, sub32,
}
use astarte_device_sdk_zephy.Result.{
  Outcome, ok, err, fault, stuck, ◌>>=◌, not_found, internal_error,
}
use astarte_device_sdk_zephy.Bson.Types.{
  type_double, type_string, type_document, type_array, type_binary, type_boolean, type_datetime,
  type_int32, type_int64,
}
use astarte_device_sdk_zephy.Bson.ByteOrder.{ByteOrder}
use astarte_device_sdk_zephy.Bson.Memory.{load, load_bytes, strnlen, strncmp_eq}

-- `astarte_bson_document_t`; `list` is none for NULL.
pub record Document : Type 0 where
  pub size : ℕ
  pub list : Option ℕ
  pub list_size : ℕ

-- `astarte_bson_element_t`
pub record Element : Type 0 where
  pub type : ℕ
  pub name : ℕ
  pub name_len : ℕ
  pub value : ℕ

-- `document.list` where it is dereferenced or moved.
abbrev pub list_ptr : Document → Outcome ℕ
list_ptr doc = elim (doc.list) [ none ↦ fault | some l ↦ ok l ]

abbrev pub is_supported : ℕ → Bool
is_supported t =
    t == type_double
    || (t == type_string
        || (t == type_document
            || (t == type_array
                || (t == type_binary
                    || (t == type_boolean
                        || (t == type_datetime || (t == type_int32 || t == type_int64)))))))

unfoldable pub is_within_bounds : Document → ℕ → ℕ → Outcome Bool
is_within_bounds doc ptr size = do
  list ← list_ptr doc
  if ltb ptr list || ltb (list + doc.list_size) ptr
      then ok false
      else ok (leb size (list + doc.list_size - ptr))

-- Goes on with the element that was read, or ends with `total` where there is none left.
pub count_next : (Element → Outcome ℕ) → ℕ → Outcome Element → Outcome ℕ
count_next next total (ok element) = next element
count_next next total (err not_found) = ok total
count_next next total (err c) = err c
count_next next total fault = fault
count_next next total stuck = stuck

module _ (bo : ByteOrder) (mem : List ℕ) where
  unfoldable pub init_doc : Option ℕ → Outcome Document
  init_doc none = ok (record { size = 0; list = none; list_size = 0 })
  init_doc (some buffer) = do
    bytes ← load_bytes mem buffer 4
    let size = bo.get_le32 bytes
    if leb 5 size
        then ok
            (record { size = size; list = some (buffer + 4); list_size = sub32 (sub32 size 4) 1 })
        else ok (record { size = size; list = none; list_size = 0 })

  -- The checks that follow `init_doc` in `check_validity`; the first argument is `document.list`.
  pub check_list : Option ℕ → ℕ → Outcome Bool
  check_list none size = ok false
  check_list (some list) size = do
    last ← load mem (list + sub32 (sub32 size 4) 1)
    if not (last == 0)
        then ok false
        else if size == 5
        then ok true
        else if ltb size 8
        then ok false
        else load mem list >>= λ first. ok (is_supported first)

  pub check_doc : Document → ℕ → Outcome Bool
  check_doc doc buffer_size =
      if ltb buffer_size doc.size then ok false else check_list doc.list doc.size

  pub check_validity : Option ℕ → ℕ → Outcome Bool
  check_validity none buffer_size = ok false
  check_validity (some buffer) buffer_size =
      if ltb buffer_size 5
      then ok false
      else init_doc (some buffer) >>= λ doc. check_doc doc buffer_size

  -- The 32-bit length in front of a value, if it lies in the document.
  unfoldable pub parsed_len : Document → ℕ → Outcome ℕ
  parsed_len doc value = do
    inside ← is_within_bounds doc value 4
    if not inside
        then err internal_error
        else load_bytes mem value 4 >>= λ bytes. ok (bo.get_le32 bytes)

  unfoldable pub get_element_value_size : Document → ℕ → ℕ → Outcome ℕ
  get_element_value_size doc type value =
      if type == type_double || (type == type_datetime || type == type_int64)
      then ok 8
      else if type == type_int32
      then ok 4
      else if type == type_boolean
      then ok 1
      else if type == type_string
      then (do
        len ← parsed_len doc value
        if ltb (sub32 uint32_max 4) len then err internal_error else ok (add32 4 len))
      else if type == type_array || type == type_document
      then parsed_len doc value
      else if type == type_binary
      then (do
        len ← parsed_len doc value
        if ltb (sub32 uint32_max (add32 4 1)) len
            then err internal_error
            else ok (add32 (add32 4 1) len))
      else err internal_error

  -- An element that starts at `start`, with at most `max_name_str_len` bytes left for its name: the
  -- second half of `first_element` and of `next_element`.
  unfoldable pub read_element : Document → ℕ → ℕ → Outcome Element
  read_element doc start max_name_str_len = do
    type ← load mem start
    name_len ← strnlen mem (start + 1) max_name_str_len
    if ltb max_name_str_len (add32 name_len 1) then err internal_error else do
      let value = start + 1 + name_len + 1
      val_size ← get_element_value_size doc type value
      inside ← is_within_bounds doc value val_size
      if not inside
          then err internal_error
          else ok (record { type = type; name = start + 1; name_len = name_len; value = value })

  unfoldable pub first_element : Document → Outcome Element
  first_element doc =
      if leb doc.size 5
      then err not_found
      else if ltb doc.list_size 1
      then err internal_error
      else list_ptr doc >>= λ list. read_element doc list (sub32 doc.list_size 1)

  unfoldable pub next_element : Document → Element → Outcome Element
  next_element doc curr = do
    value_size ← get_element_value_size doc curr.type curr.value
    inside ← is_within_bounds doc curr.value value_size
    if not inside then err internal_error else do
      list ← list_ptr doc
      let start = curr.value + value_size
      if leb (list + doc.list_size) start
          then err not_found
          else load mem start >>= λ type.
              if type == 0
              then err not_found
              else if ltb doc.list_size (add32 (start - list) 1)
              then err internal_error
              else read_element doc start (sub32 (sub32 doc.list_size (start - list)) 1)

  -- The `do … while` loop of `doc_count_elements`; `count` is `document_length`.
  pub count_from : ℕ → Document → Element → ℕ → Outcome ℕ
  count_from zero doc element count = stuck
  count_from (suc fuel) doc element count =
      count_next (λ next. count_from fuel doc next (add32 count 1)) (add32 count 1)
        (next_element doc element)

  -- An element takes two bytes at least, so `list_size` rounds are enough.
  pub doc_count_elements : Document → Outcome ℕ
  doc_count_elements doc =
      count_next (λ element. count_from doc.list_size doc element 0) 0 (first_element doc)

  -- The search loop of `element_lookup`.
  unfoldable pub lookup_from : ℕ → Document → List ℕ → Element → Outcome Element
  lookup_from zero doc key candidate = stuck
  lookup_from (suc fuel) doc key candidate = do
    same ← strncmp_eq mem key candidate.name (add32 candidate.name_len 1)
    if same
        then ok candidate
        else next_element doc candidate >>= λ next. lookup_from fuel doc key next

  unfoldable pub element_lookup : Document → List ℕ → Outcome Element
  element_lookup doc key = do
    candidate ← first_element doc
    lookup_from doc.list_size doc key candidate

  pub element_to_document : Element → Outcome Document
  element_to_document element = init_doc (some element.value)

  pub element_to_array : Element → Outcome Document
  element_to_array element = init_doc (some element.value)

  -- The length that `element_to_string` stores, and the pointer that it returns.
  pub element_to_string : Element → Outcome (ℕ × ℕ)
  element_to_string element = do
    bytes ← load_bytes mem element.value 4
    let len = bo.get_le32 bytes
    ok (if leb 1 len then sub32 len 1 else 0, element.value + 4)

  pub element_to_binary : Element → Outcome (ℕ × ℕ)
  element_to_binary element = do
    bytes ← load_bytes mem element.value 4
    ok (bo.get_le32 bytes, element.value + 4 + 1)

  pub element_to_bool : Element → Outcome Bool
  element_to_bool element = do b ← load mem element.value; ok (not (b == 0))

  -- The four-byte and eight-byte numbers, as bit patterns: `element_to_int32`, and
  -- `element_to_int64`, `element_to_datetime` and `element_to_double`.
  pub element_to_int32 : Element → Outcome ℕ
  element_to_int32 element = do bytes ← load_bytes mem element.value 4; ok (bo.get_le32 bytes)

  pub element_to_int64 : Element → Outcome ℕ
  element_to_int64 element = do bytes ← load_bytes mem element.value 8; ok (bo.get_le64 bytes)
