-- ===== src/Bson/Deserializer/Validity.antt =====
-- What `check_validity` and the nested-document accessors promise of the documents they let through.
use astarte_device_sdk_zephy.Prelude.{
  ℕ, zero, suc, ◌+◌, ◌≤◌, ◌≡◌, refl, sym, ◌∙◌, ap, ◌⊎◌, inl, inr, false, none, some, List, ◌∷◌,
  length, take, drop, ltb, leb, not, arith, IsU32, IsByte, ◌==◌, sub32,
}
use mathlib.Core.Path.{subst}
use astarte_device_sdk_zephy.Result.{
  ok, Returns, Returns-bind, Returns-if, Returns-eq, Returns-mono, Settles_at,
}
use astarte_device_sdk_zephy.Bson.Types.{type_document, type_array}
use astarte_device_sdk_zephy.Bson.ByteOrder.{ByteOrder}
use astarte_device_sdk_zephy.Bson.Serializer.Format.{All}
use astarte_device_sdk_zephy.Bson.Memory.{load, load_bytes, load-Returns, load_bytes-Returns}
use astarte_device_sdk_zephy.Bson.Deserializer.{
  Document, Element, init_doc, check_list, check_doc, parsed_len, check_validity,
  element_to_document,
}
use astarte_device_sdk_zephy.Bson.Deserializer.Walk.{same_start}
use astarte_device_sdk_zephy.Bson.Deserializer.Bounds.{
  IsListed, IsSound, IsElement, parsed_len-Settles, get_element_value_size-document,
}

module _ (bo : ByteOrder) where
  get_le32-IsU32 :
      (mem : List ℕ) (p : ℕ)
      → All IsByte mem
      → p + 4 ≤ length mem
      → IsU32 (bo.get_le32 (take 4 (drop p mem)))
  get_le32-IsU32 (a ∷ b ∷ c ∷ d ∷ r) zero h k = omega (arith, bo.get_le32_lem a b c d)
  get_le32-IsU32 (a ∷ r) (suc p) h k = get_le32-IsU32 r p h.1 (omega arith)
  get_le32-IsU32 _ _ h k = absurd (omega arith)

  module _ (mem : List ℕ) (bytes : All IsByte mem) where
    -- The size field is read, and a list that starts behind it is as long as the field says.
    init_doc-Returns :
        (p : ℕ)
        → p + 4 ≤ length mem
        → Returns
            (λ doc.
              IsU32 doc.size
              × (doc.size ≡ bo.get_le32 (take 4 (drop p mem)))
              × ((doc.list ≡ none) × (doc.size ≤ 4)
                  ⊎ (doc.list ≡ some (p + 4)) × (doc.size ≡ doc.list_size + 5)))
            (init_doc bo mem (some p))
    unfolding init_doc
    init_doc-Returns p room =
        Returns-bind _ _ (load_bytes mem p 4) _ (load_bytes-Returns mem p 4 room) λ b e.
          let word : IsU32 (bo.get_le32 b) = rw e (get_le32-IsU32 mem p bytes room) in
          Returns-if _ (leb 5 (bo.get_le32 b)) _ _
            (λ t. (word, ap bo.get_le32 e, inr (refl, ground arith)))
            (λ f. (word, ap bo.get_le32 e, inl (refl, ground arith)))

    check_list-Returns :
        (list size : ℕ)
        → 5 ≤ size
        → IsU32 size
        → list + size ≤ length mem + 4
        → Returns (λ b. Unit) (check_list bo mem (some list) size)
    unfolding check_list
    check_list-Returns list size low word room =
        Returns-bind _ _ (load mem (list + sub32 (sub32 size 4) 1)) _
          (load-Returns mem (list + sub32 (sub32 size 4) 1) (omega arith))
          λ last _.
            Returns-if _ (not (last == 0)) _ _ (λ _. tt)
              λ _.
                Returns-if _ (size == 5) _ _ (λ _. tt)
                  λ _.
                    Returns-if _ (ltb size 8) _ _ (λ _. tt)
                      λ big.
                        Returns-bind _ _ (load mem list) _ (load-Returns mem list (ground arith))
                          λ _ _. tt

    check_doc-Returns :
        (doc : Document) (p n : ℕ)
        → p + n ≤ length mem
        → IsU32 doc.size
        → (doc.list ≡ none) × (doc.size ≤ 4)
          ⊎ (doc.list ≡ some (p + 4)) × (doc.size ≡ doc.list_size + 5)
        → Returns (λ b. (b ≡ false) ⊎ IsListed mem doc) (check_doc bo mem doc n)
    unfolding check_doc check_list
    check_doc-Returns doc p n room word (inl (null, small)) =
        Returns-if _ (ltb n doc.size) _ _ (λ _. inl refl)
          (λ _.
            subst
              (λ o. Returns (λ b. (b ≡ false) ⊎ IsListed mem doc) (check_list bo mem o doc.size))
              (sym null) (inl refl))
    check_doc-Returns doc p n room word (inr (at, sized)) =
        Returns-if _ (ltb n doc.size) _ _ (λ _. inl refl)
          (λ fits.
            subst
              (λ o. Returns (λ b. (b ≡ false) ⊎ IsListed mem doc) (check_list bo mem o doc.size))
              (sym at)
              (Returns-mono _ _ (check_list bo mem (some (p + 4)) doc.size)
                (λ b _. inr (record {
                  start = p + 4;
                  listed = at;
                  room = ground arith;
                  sized = sized;
                  word = word;
                }))
                (check_list-Returns (p + 4) doc.size (omega arith) word (ground arith))))

    -- On any bytes, `check_validity` reads only inside the buffer that it is given; if it answers
    -- true, `init_doc` yields a document whose list lies inside the buffer.
    pub check_validity_sound :
        (p n : ℕ)
        → p + n ≤ length mem
        → Returns
            (λ b.
              (b ≡ false)
              ⊎ ((doc : Document) × (init_doc bo mem (some p) ≡ ok doc) × IsListed mem doc))
            (check_validity bo mem (some p) n)
    unfolding check_validity
    check_validity_sound p n room =
        Returns-if _ (ltb n 5) _ _ (λ _. inl refl)
          λ big.
            Returns-bind _ _ (init_doc bo mem (some p)) _
              (Returns-eq _ _ (init_doc-Returns p (ground arith)))
              λ doc h.
                Returns-mono _ _ (check_doc bo mem doc n)
                  (λ b r. elim r [ inl f ↦ inl f | inr l ↦ inr (doc, h.1, l) ])
                  (check_doc-Returns doc p n room h.0.0 h.0.2)

    -- A document or array element of a walked document: `init_doc` on its value reads inside the
    -- outer list and yields a document that may be walked in turn.
    pub element_to_document-IsSound :
        (doc : Document) (e : Element)
        → IsListed mem doc
        → IsElement bo mem doc e
        → (e.type ≡ type_document) ⊎ (e.type ≡ type_array)
        → Returns (λ inner. IsSound mem inner) (element_to_document bo mem e)
    unfolding element_to_document
    element_to_document-IsSound doc e l h t =
        let (inside, len) =
          Settles_at _ (parsed_len bo mem doc e.value) (parsed_len-Settles bo mem l e.value)
            (sym (get_element_value_size-document bo mem doc e.type e.value t) ∙ h.sized) in
        Returns-mono _ _ (init_doc bo mem (some e.value))
          (λ inner d. elim (d.2) [
            | inl small ↦ inl (omega (arith, small.1))
            | inr (at, sized) ↦ inr (record {
              start = e.value + 4;
              listed = at;
              room = omega (arith, d.1, len, l.room, same_start bo mem l e h);
              sized = sized;
              word = d.0;
            })
          ])
          (init_doc-Returns e.value (omega (arith, inside, l.room)))
