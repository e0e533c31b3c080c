-- ===== src/Bson/Deserializer/Bounds.antt =====
-- No function of the deserializer reads outside its document, on any bytes.
use astarte_device_sdk_zephy.Prelude.{
  ℕ, ◌+◌, ◌-◌, ◌≤◌, ◌<◌, ◌≡◌, refl, ap, ◌⊎◌, inl, inr, ◌||◌, Bool, true, false, some, List, length,
  take, drop, ltb, leb, not, arith, IsU32, Bool-cases, ◌==◌, add32, if◌then◌else◌,
}
use astarte_device_sdk_zephy.Result.{
  ok, err, ◌>>=◌, internal_error, Returns, Settles, Settles-bind, Settles-of_Returns, Settles-if,
  Returns-if, Settles-eq, Settles-mono,
}
use astarte_device_sdk_zephy.Bson.ByteOrder.{ByteOrder}
use astarte_device_sdk_zephy.Bson.Types.{
  type_double, type_string, type_document, type_array, type_binary, type_boolean, type_datetime,
  type_int32, type_int64,
}
use astarte_device_sdk_zephy.Bson.Memory.{
  load, load_bytes, strnlen, load-Returns, load_bytes-Returns, strnlen-Returns,
}
use astarte_device_sdk_zephy.Bson.Deserializer.{
  Document, Element, list_ptr, is_within_bounds, parsed_len, get_element_value_size, read_element,
}

-- A document whose list lies in memory, as `init_doc` builds it in a large enough buffer.
pub record IsListed (mem : List ℕ) (doc : Document) : Type 0 where
  pub start : ℕ
  pub listed : doc.list ≡ some start
  pub room : start + doc.list_size ≤ length mem
  pub sized : doc.size ≡ doc.list_size + 5
  pub word : IsU32 doc.size

-- A document that may be walked: it has no element, or its list lies in memory.
abbrev pub IsSound : List ℕ → Document → Type 0
IsSound mem doc = (doc.size ≤ 5) ⊎ IsListed mem doc

-- An element of the document: its name ends in a NUL and its value lies inside the list.
pub record IsElement (bo : ByteOrder) (mem : List ℕ) (doc : Document) (e : Element) : Type 0 where
  pub start : ℕ
  pub size : ℕ
  pub listed : doc.list ≡ some start
  pub sized : get_element_value_size bo mem doc e.type e.value ≡ ok size
  pub after : start < e.name
  pub value_at : e.value ≡ e.name + e.name_len + 1
  pub terminated : load mem (e.name + e.name_len) ≡ ok 0
  pub fits : e.value + size ≤ start + doc.list_size

pub decided : {X : Type 0} (b : Bool) → not b ≡ false → (b ≡ false) ⊎ X → X
decided true f (inl e) = cc
decided true f (inr h) = h
decided false f h = cc

module _ (bo : ByteOrder) (mem : List ℕ) {doc : Document} (l : IsListed mem doc) where
  pub list_ptr-Returns : Returns (λ list. list ≡ l.start) (list_ptr doc)
  list_ptr-Returns = rw l.listed refl

  -- The test succeeds only for a slice inside the list.
  pub is_within_bounds-Returns :
      (p n : ℕ)
      → Returns
          (λ b. (b ≡ false) ⊎ (l.start ≤ p) × (p + n ≤ l.start + doc.list_size))
          (is_within_bounds doc p n)
  unfolding is_within_bounds
  is_within_bounds-Returns p n = rw l.listed (
      Returns-if _ (ltb p l.start || ltb (l.start + doc.list_size) p) _ _ (λ t. inl refl)
        (λ f. elim (Bool-cases (leb n (l.start + doc.list_size - p))) [
          | inl t ↦ inr (ground arith)
          | inr t ↦ inl t
        ]))

  -- The field lies in the list, and its value is what the four bytes hold.
  pub parsed_len-Settles :
      (p : ℕ)
      → Settles
          (λ n. (p + 4 ≤ l.start + doc.list_size) × (n ≡ bo.get_le32 (take 4 (drop p mem))))
          (parsed_len bo mem doc p)
  unfolding parsed_len
  parsed_len-Settles p =
      Settles-of_Returns _ _ (is_within_bounds doc p 4) _ (is_within_bounds-Returns p 4) λ b h.
        Settles-if _ (not b) _ _ (λ t. tt)
          (λ f.
            Settles-of_Returns _ _ (load_bytes mem p 4) _
              (load_bytes-Returns mem p 4 (omega (arith, decided b f h, l.room)))
              (λ bytes e. ((decided b f h).1, ap bo.get_le32 e)))

  pub get_element_value_size-Settles :
      (type p : ℕ) → Settles (λ n. Unit) (get_element_value_size bo mem doc type p)
  unfolding get_element_value_size
  get_element_value_size-Settles type p =
      Settles-if U (type == type_double || (type == type_datetime || type == type_int64)) _ _
        (λ _. tt)
        λ _.
          Settles-if U (type == type_int32) _ _ (λ _. tt)
            λ _.
              Settles-if U (type == type_boolean) _ _ (λ _. tt)
                λ _.
                  Settles-if U (type == type_string) _ _ (λ _. sized uint32_max4 (add32 4))
                    λ _.
                      Settles-if U (type == type_array || type == type_document) _ _
                        (λ _.
                          Settles-mono _ _ (parsed_len bo mem doc p) (λ _ _. tt)
                            (parsed_len-Settles p))
                        λ _.
                          Settles-if U (type == type_binary) _ _ (λ _. sized uint32_max5 (add32 5))
                            (λ _. tt)
    where
      U : ℕ → Type 0
      U n = Unit

      uint32_max4 : ℕ
      uint32_max4 = 4294967291

      uint32_max5 : ℕ
      uint32_max5 = 4294967290

      sized :
          (limit : ℕ) (total : ℕ → ℕ)
          → Settles U (
              parsed_len bo mem doc p >>= λ len.
              if ltb limit len then err internal_error else ok (total len))
      sized limit total =
          Settles-bind _ U (parsed_len bo mem doc p) _ (parsed_len-Settles p)
            λ len _. Settles-if U (ltb limit len) _ _ (λ _. tt) (λ _. tt)

  -- An element read anywhere in the list is one of the document, if it is read at all.
  pub read_element-Settles :
      (start max : ℕ)
      → l.start ≤ start
      → start + 1 + max ≤ l.start + doc.list_size
      → Settles
          (λ e. IsElement bo mem doc e × (start < e.value))
          (read_element bo mem doc start max)
  unfolding read_element
  read_element-Settles start max hs hm =
      Settles-of_Returns _ _ (load mem start) _ (load-Returns mem start (omega (arith, l.room)))
        λ type _.
          Settles-of_Returns _ _ (strnlen mem (start + 1) max) _
            (strnlen-Returns mem (start + 1) max (omega (arith, l.room)))
            λ n hn.
              Settles-if _ (ltb max (add32 n 1)) _ _ (λ _. tt)
                λ short.
                  Settles-bind _ _ (get_element_value_size bo mem doc type (start + 1 + n + 1)) _
                    (Settles-eq _ (get_element_value_size-Settles type (start + 1 + n + 1)))
                    λ size sized.
                      Settles-of_Returns _ _ (is_within_bounds doc (start + 1 + n + 1) size) _
                        (is_within_bounds-Returns (start + 1 + n + 1) size)
                        λ b hb.
                          Settles-if _ (not b) _ _ (λ _. tt)
                            λ f. (
                              record {
                                start = l.start;
                                size = size;
                                listed = l.listed;
                                sized = sized;
                                after = omega arith;
                                value_at = omega arith;
                                terminated = hn.1 (ground (arith, l.word, l.sized, l.room));
                                fits = omega (arith, decided b f hb);
                              },
                              omega arith,
                            )

-- The size of a document or array value is its length field.
pub get_element_value_size-document :
    (bo : ByteOrder) (mem : List ℕ) (doc : Document) (type p : ℕ)
    → (type ≡ type_document) ⊎ (type ≡ type_array)
    → get_element_value_size bo mem doc type p ≡ parsed_len bo mem doc p
unfolding get_element_value_size
get_element_value_size-document bo mem doc type p (inl e) = rw e refl
get_element_value_size-document bo mem doc type p (inr e) = rw e refl
