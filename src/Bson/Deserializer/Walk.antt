-- ===== src/Bson/Deserializer/Walk.antt =====
-- Walking a document: every step reads inside it, every loop ends.
use astarte_device_sdk_zephy.Prelude.{
  ℕ, zero, suc, ◌+◌, ◌-◌, ◌≤◌, ◌<◌, ◌≡◌, sym, ◌∙◌, inl, inr, List, ltb, leb, not, arith, ◌==◌,
  add32, sub32,
}
use mathlib.Core.Path.{subst}
use astarte_device_sdk_zephy.Result.{
  Outcome, ok, err, fault, stuck, not_found, Settles, Settles-bind, Settles-of_Returns, Settles-if,
  Settles-eq, Settles-mono,
}
use astarte_device_sdk_zephy.Bson.ByteOrder.{ByteOrder}
use astarte_device_sdk_zephy.Bson.Memory.{load, strncmp_eq, load-Returns, strncmp_eq-Returns}
use astarte_device_sdk_zephy.Bson.Deserializer.{
  Document, Element, list_ptr, is_within_bounds, get_element_value_size, read_element,
  first_element, next_element, count_next, count_from, doc_count_elements, lookup_from,
  element_lookup,
}
use astarte_device_sdk_zephy.Bson.Deserializer.Bounds.{
  IsListed, IsSound, IsElement, decided, list_ptr-Returns, is_within_bounds-Returns,
  get_element_value_size-Settles, read_element-Settles,
}

first_element-small :
    (bo : ByteOrder) (mem : List ℕ) (doc : Document)
    → doc.size ≤ 5
    → first_element bo mem doc ≡ err not_found
unfolding first_element
first_element-small bo mem doc small = ground arith

count_next-Settles :
    (P : Element → Type 0) (Q : ℕ → Type 0) (next : Element → Outcome ℕ) (total : ℕ)
    (r : Outcome Element)
    → Settles P r
    → ((e : Element) → P e → Settles Q (next e))
    → Q total
    → Settles Q (count_next next total r)
unfolding count_next
count_next-Settles P Q next total (ok e) h k t = k e h
count_next-Settles P Q next total (err not_found) h k t = t
count_next-Settles P Q next total (err c) h k t = tt
count_next-Settles P Q next total fault h k t = h
count_next-Settles P Q next total stuck h k t = h

module _ (bo : ByteOrder) (mem : List ℕ) {doc : Document} where
  first_element-listed :
      (l : IsListed mem doc)
      → Settles (λ e. IsElement bo mem doc e × (l.start < e.value)) (first_element bo mem doc)
  unfolding first_element
  first_element-listed l =
      Settles-if _ (leb doc.size 5) _ _ (λ _. tt)
        λ _.
          Settles-if _ (ltb doc.list_size 1) _ _ (λ _. tt)
            λ h. Settles-of_Returns _ _ (list_ptr doc) _ (list_ptr-Returns bo mem l) λ list at.
              subst
                (λ (p : ℕ).
                  Settles (λ e. IsElement bo mem doc e × (l.start < e.value))
                    (read_element bo mem doc p (sub32 doc.list_size 1)))
                (sym at)
                (read_element-Settles bo mem l l.start (sub32 doc.list_size 1) (omega arith)
                  (ground (arith, l.word, l.sized)))

  -- The first element of a document that may be walked: the read stays inside the document, and
  -- what it yields is an element of the document.
  pub first_element_in_bounds :
      IsSound mem doc → Settles (IsElement bo mem doc) (first_element bo mem doc)
  unfolding first_element
  first_element_in_bounds (inl small) =
      Settles-if _ (leb doc.size 5) _ _ (λ _. tt) (λ f. absurd (ground arith))
  first_element_in_bounds (inr l) =
      Settles-mono _ _ (first_element bo mem doc) (λ e h. h.0) (first_element-listed l)

  -- The element after an element of the document: it is an element of the document further on.
  pub next_element_in_bounds :
      (e : Element)
      → IsListed mem doc
      → IsElement bo mem doc e
      → Settles (λ e'. IsElement bo mem doc e' × (e.value < e'.value)) (next_element bo mem doc e)
  unfolding next_element
  next_element_in_bounds e l h =
      Settles-bind _ _ (get_element_value_size bo mem doc e.type e.value) _
        (Settles-eq _ (get_element_value_size-Settles bo mem l e.type e.value))
        λ size sized.
          Settles-of_Returns _ _ (is_within_bounds doc e.value size) _
            (is_within_bounds-Returns bo mem l e.value size)
            λ b hb.
              Settles-if _ (not b) _ _ (λ _. tt)
                λ f. Settles-of_Returns _ _ (list_ptr doc) _ (list_ptr-Returns bo mem l) λ list at.
                  Settles-if _ (leb (list + doc.list_size) (e.value + size)) _ _ (λ _. tt)
                    λ before.
                      Settles-of_Returns _ _ (load mem (e.value + size)) _
                        (load-Returns mem (e.value + size) (ground (arith, l.room)))
                        λ type _.
                          Settles-if _ (type == 0) _ _ (λ _. tt)
                            λ _.
                              Settles-if _ (ltb doc.list_size (add32 (e.value + size - list) 1)) _ _
                                (λ _. tt)
                                λ room.
                                  Settles-mono _ _ (read_element bo mem doc (e.value + size) _)
                                    (λ e' g. (g.0, omega (arith, g.1)))
                                    (read_element-Settles bo mem l (e.value + size) _
                                      (omega (arith, decided b f hb))
                                      (ground (arith, l.word, l.sized, decided b f hb)))

  pub same_start :
      (l : IsListed mem doc) (e : Element) (h : IsElement bo mem doc e) → h.start ≡ l.start
  same_start l e h = ground (arith, sym h.listed ∙ l.listed)

  -- Each element ends at least one byte after the one before, so the rounds suffice.
  count_from-Settles :
      (l : IsListed mem doc) (fuel : ℕ) (e : Element) (count : ℕ)
      → IsElement bo mem doc e
      → l.start + doc.list_size < fuel + e.value
      → count + l.start < e.value
      → Settles (λ n. n ≤ doc.list_size) (count_from bo mem fuel doc e count)
  unfolding count_from
  count_from-Settles l zero e count h hf hc = absurd (omega (arith, same_start l e h))
  count_from-Settles l (suc fuel) e count h hf hc =
      count_next-Settles _ _ _ _ (next_element bo mem doc e) (next_element_in_bounds e l h)
        (λ e' g.
          count_from-Settles l fuel e' (add32 count 1) g.0 (omega (arith, g.1))
            (omega (arith, g.1, l.word, l.sized, same_start l e h)))
        (omega (arith, same_start l e h, l.word, l.sized))

  -- Counting the elements of a document that may be walked ends, with a count that is at most the
  -- size of the list or with an error code; no read leaves the document.
  pub doc_count_elements_total :
      IsSound mem doc → Settles (λ n. n ≤ doc.list_size) (doc_count_elements bo mem doc)
  unfolding doc_count_elements
  doc_count_elements_total (inl small) =
      rw (first_element-small bo mem doc small) (unfold count_next in omega arith)
  doc_count_elements_total (inr l) =
      count_next-Settles _ _ _ _ (first_element bo mem doc) (first_element-listed l)
        (λ e g.
          count_from-Settles l doc.list_size e 0 g.0 (omega (arith, g.1)) (omega (arith, g.1)))
        (omega arith)

  -- Each candidate ends at least one byte after the one before, so the rounds suffice.
  lookup_from-Settles :
      (key : List ℕ) (l : IsListed mem doc) (fuel : ℕ) (e : Element)
      → IsElement bo mem doc e
      → l.start + doc.list_size < fuel + e.value
      → Settles (IsElement bo mem doc) (lookup_from bo mem fuel doc key e)
  unfolding lookup_from
  lookup_from-Settles key l zero e h hf = absurd (omega (arith, same_start l e h))
  lookup_from-Settles key l (suc fuel) e h hf =
      Settles-of_Returns _ _ (strncmp_eq mem key e.name (add32 e.name_len 1)) _
        (strncmp_eq-Returns mem key e.name (add32 e.name_len 1)
          (omega (arith, same_start l e h, l.word, l.sized, l.room)))
        λ same _.
          Settles-if _ same _ _ (λ _. h)
            λ _.
              Settles-bind _ _ (next_element bo mem doc e) _ (next_element_in_bounds e l h)
                λ e' g. lookup_from-Settles key l fuel e' g.0 (omega (arith, g.1))

  -- Looking a key up in a document that may be walked ends, with an element of the document or with
  -- an error code; no read leaves the document, the comparisons of names included.
  pub element_lookup_total :
      (key : List ℕ)
      → IsSound mem doc
      → Settles (IsElement bo mem doc) (element_lookup bo mem doc key)
  unfolding element_lookup
  element_lookup_total key (inl small) = rw (first_element-small bo mem doc small) tt
  element_lookup_total key (inr l) =
      Settles-bind _ _ (first_element bo mem doc) _ (first_element-listed l)
        λ e g. lookup_from-Settles key l doc.list_size e g.0 (omega (arith, g.1))
