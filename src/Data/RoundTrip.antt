-- ===== src/Data/RoundTrip.antt =====
-- Reading back what was written: the deserializer finds the fields of a serialized object.
use mathlib.Core.Path.{subst}
use astarte_device_sdk_zephy.Prelude.{
  ℕ, zero, suc, ◌+◌, ◌-◌, ◌≤◌, ◌<◌, ◌≡◌, refl, sym, ap, ◌∙◌, Bool, true, false, Option, none, some,
  List, [], ◌∷◌, ◌++◌, length, length-append, drop, if◌then◌else◌, arith, add32, sub32,
  append_assoc,
}
use astarte_device_sdk_zephy.Result.{Outcome, ok, err, not_found, ◌>>=◌}
use astarte_device_sdk_zephy.Bson.ByteOrder.{ByteOrder, get-put_le32, length-put_le32}
use astarte_device_sdk_zephy.Bson.Memory.{load_bytes, strncmp_eq}
use astarte_device_sdk_zephy.Bson.Memory.At.{
  name_eq, drop_past, load_at, load_bytes_at, strncmp_eq_at,
}
use astarte_device_sdk_zephy.Bson.Deserializer.{
  Element, first_element, next_element, lookup_from, element_lookup, init_doc,
}
use astarte_device_sdk_zephy.Bson.Serializer.{int32_max, c_string}
use astarte_device_sdk_zephy.Bson.Serializer.Format.{All, field, framed}
use astarte_device_sdk_zephy.Data.{Data}
use astarte_device_sdk_zephy.Data.Encoding.{type_of, payload_of, body}
use astarte_device_sdk_zephy.Data.Elements.{
  document_of, type_of_pos, within, element_at, FieldAt, length-field, name_placed, value-Placed,
  value_size, read_element_at,
}

-- The value that the entries hold under a key: the first of that name.
unfoldable pub value_of : List (List ℕ × Data) → List ℕ → Option Data
value_of [] key = none
value_of ((name, d) ∷ entries) key = if name_eq key name then some d else value_of entries key

-- Names without a NUL.
abbrev pub IsName : List ℕ → Type 0
IsName name = All (λ b. 1 ≤ b) name

module _ (bo : ByteOrder) (mem : List ℕ) where
  -- What a search returns for the value that is held: an element of its type, whose value is its
  -- bytes in the BSON format.
  abbrev pub Holding : Outcome Element → Option Data → Type 0
  Holding r none = r ≡ err not_found
  Holding r (some d) =
      (e : Element) × (r ≡ ok e)
      × (e.type ≡ type_of d)
      × ((more : List ℕ) × (drop e.value mem ≡ payload_of bo d ++ more))

  Holding-if :
      (b : Bool) (r s : Outcome Element) (x y : Option Data)
      → Holding r x
      → Holding s y
      → Holding (if b then r else s) (if b then x else y)
  Holding-if true r s x y h k = h
  Holding-if false r s x y h k = k

module _ (bo : ByteOrder) (mem : List ℕ) (n : ℕ) (small : n + 5 ≤ int32_max) where
  -- The remaining entries follow and fill the list.
  abbrev RestAt : ℕ → List (List ℕ × Data) → Type 0
  RestAt p entries =
      (4 ≤ p)
      × (p + length (body bo entries) ≡ 4 + n)
      × ((more : List ℕ) × (drop p mem ≡ body bo entries ++ more))

  -- Where the entry behind this one starts.
  abbrev behind : ℕ → List ℕ → Data → ℕ
  behind p name d = p + 1 + length name + 1 + length (payload_of bo d)

  length-body :
      (name : List ℕ) (d : Data) (entries : List (List ℕ × Data))
      → length (body bo ((name, d) ∷ entries))
        ≡ length name + 2 + length (payload_of bo d) + length (body bo entries)
  unfolding body
  length-body name d entries = omega (
    arith,
    length-append (field (type_of d) name (payload_of bo d)) (body bo entries),
    length-field bo mem n small name d,
  )

  rest_split :
      (p : ℕ) (name : List ℕ) (d : Data) (entries : List (List ℕ × Data))
      → RestAt p ((name, d) ∷ entries)
      → FieldAt bo mem n small p name d × RestAt (behind p name d) entries
  unfolding body
  rest_split p name d entries (lo, hi, (more, e)) = (
    (
      lo,
      omega (arith, hi, length-body name d entries, length-field bo mem n small name d),
      (body bo entries ++ more, whole),
    ),
    (
      omega (arith, lo),
      omega (arith, hi, length-body name d entries),
      (
        more,
        ap (λ k. drop k mem) (omega (arith, length-field bo mem n small name d))
            ∙ drop_past mem p (field (type_of d) name (payload_of bo d)) (body bo entries ++ more)
                whole,
      ),
    ),
  )
    where
      whole : drop p mem ≡ field (type_of d) name (payload_of bo d) ++ (body bo entries ++ more)
      whole = e ∙ append_assoc (field (type_of d) name (payload_of bo d)) (body bo entries) more

  next_none :
      (p : ℕ) (name : List ℕ) (d : Data)
      → FieldAt bo mem n small p name d
      → RestAt (behind p name d) []
      → next_element bo mem (document_of n) (element_at bo mem n small p name d) ≡ err not_found
  unfolding next_element body
  next_none p name d at (lo, hi, _) =
      let (vlo, vhi, _) = value-Placed bo mem n small p name d at in
      rw
        (
          value_size bo mem n small d (p + 1 + length name + 1)
              (value-Placed bo mem n small p name d at),
          within bo mem n small (p + 1 + length name + 1) (length (payload_of bo d)) vlo vhi,
        )
        (ground (arith, hi))

  next_some :
      (p : ℕ) (name other : List ℕ) (d d' : Data) (entries : List (List ℕ × Data))
      → FieldAt bo mem n small p name d
      → RestAt (behind p name d) ((other, d') ∷ entries)
      → All (λ b. 1 ≤ b) other
      → next_element bo mem (document_of n) (element_at bo mem n small p name d)
        ≡ ok (element_at bo mem n small (behind p name d) other d')
  unfolding next_element
  next_some p name other d d' entries at rest z =
      let (vlo, vhi, _) = value-Placed bo mem n small p name d at in
      let ((lo, hi, (more, e)), _) = rest_split (behind p name d) other d' entries rest in
      rw
        (
          value_size bo mem n small d (p + 1 + length name + 1)
              (value-Placed bo mem n small p name d at),
          within bo mem n small (p + 1 + length name + 1) (length (payload_of bo d)) vlo vhi,
          load_at mem (behind p name d) (type_of d') ((c_string other ++ payload_of bo d') ++ more)
              e,
          room (behind p name d) lo (omega (arith, hi, length-field bo mem n small other d')),
          read_element_at bo mem n small (behind p name d) (4 + n - behind p name d - 1) other d'
              (lo, hi, (more, e)) z (omega (arith, hi, length-field bo mem n small other d')),
        )
        (ground (arith, type_of_pos d', hi, lo, length-field bo mem n small other d'))
    where
      room : (q : ℕ) → 4 ≤ q → q < 4 + n → sub32 (sub32 n (q - 4)) 1 ≡ 4 + n - q - 1
      room q lo hi = omega arith

  compared :
      (p : ℕ) (key name : List ℕ) (d : Data)
      → FieldAt bo mem n small p name d
      → IsName name
      → IsName key
      → strncmp_eq mem key (p + 1) (add32 (length name) 1) ≡ ok (name_eq key name)
  compared p key name d (lo, hi, (more, e)) z k =
      ap (strncmp_eq mem key (p + 1)) (omega (arith, hi, length-field bo mem n small name d))
      ∙ strncmp_eq_at mem key (p + 1) name (payload_of bo d ++ more)
          (name_placed bo mem n small p name more d e) z k

  -- A candidate: it is the element that is looked for, or the search goes on.
  lookup_round :
      (entries : List (List ℕ × Data)) (fuel p : ℕ) (key name : List ℕ) (d : Data)
      → FieldAt bo mem n small p name d
      → IsName name
      → IsName key
      → Holding bo mem
          (next_element bo mem (document_of n) (element_at bo mem n small p name d) >>= λ next.
            lookup_from bo mem fuel (document_of n) key next)
          (value_of entries key)
      → Holding bo mem
          (lookup_from bo mem (suc fuel) (document_of n) key (element_at bo mem n small p name d))
          (value_of ((name, d) ∷ entries) key)
  unfolding lookup_from value_of
  lookup_round entries fuel p key name d at z k onward = rw (compared p key name d at z k) (
      Holding-if bo mem (name_eq key name) _ _ (some d) (value_of entries key)
        (
          element_at bo mem n small p name d,
          refl,
          refl,
          (value-Placed bo mem n small p name d at).2,
        )
        onward)

  lookup_walk :
      (entries : List (List ℕ × Data)) (fuel p : ℕ) (key name : List ℕ) (d : Data)
      → FieldAt bo mem n small p name d
      → RestAt (behind p name d) entries
      → IsName name
      → All (λ e. IsName e.0) entries
      → IsName key
      → length entries < fuel
      → Holding bo mem
          (lookup_from bo mem fuel (document_of n) key (element_at bo mem n small p name d))
          (value_of ((name, d) ∷ entries) key)
  lookup_walk entries zero p key name d at rest z zs k f = absurd (omega arith)
  lookup_walk [] (suc fuel) p key name d at rest z zs k f =
      lookup_round [] fuel p key name d at z k
        (rw (next_none p name d at rest) (unfold value_of in refl))
  lookup_walk ((other, d') ∷ entries) (suc fuel) p key name d at rest z zs k f =
      lookup_round ((other, d') ∷ entries) fuel p key name d at z k (
        let (here, more) = rest_split (behind p name d) other d' entries rest in
        rw (next_some p name other d d' entries at rest zs.0) (
          lookup_walk entries fuel (behind p name d) key other d' here more zs.0 zs.1 k
            (omega arith)))

  length-entries : (entries : List (List ℕ × Data)) → length entries ≤ length (body bo entries)
  length-entries [] = omega arith
  length-entries ((name, d) ∷ entries) =
      omega (arith, length-body name d entries, length-entries entries)

  first_none : n ≡ 0 → first_element bo mem (document_of n) ≡ err not_found
  unfolding first_element
  first_none e = ground (arith, e)

  first_some :
      (name : List ℕ) (d : Data)
      → FieldAt bo mem n small 4 name d
      → IsName name
      → first_element bo mem (document_of n) ≡ ok (element_at bo mem n small 4 name d)
  unfolding first_element
  first_some name d (lo, hi, placed) z =
      rw
        (
          room (omega (arith, hi, length-field bo mem n small name d)),
          read_element_at bo mem n small 4 (n - 1) name d (lo, hi, placed) z
              (omega (arith, hi, length-field bo mem n small name d)),
        )
        (ground (arith, hi, length-field bo mem n small name d))
    where
      room : 1 ≤ n → sub32 n 1 ≡ n - 1
      room h = omega arith

  pub lookup-Holding :
      (entries : List (List ℕ × Data)) (key : List ℕ)
      → RestAt 4 entries
      → All (λ e. IsName e.0) entries
      → IsName key
      → Holding bo mem (element_lookup bo mem (document_of n) key) (value_of entries key)
  unfolding element_lookup body value_of
  lookup-Holding [] key (lo, hi, _) zs k =
      subst
        (λ c.
          Holding bo mem (c >>= λ candidate. lookup_from bo mem n (document_of n) key candidate)
            none)
        (sym (first_none (omega (arith, hi)))) refl
  lookup-Holding ((name, d) ∷ entries) key rest zs k =
      let (at, more) = rest_split 4 name d entries rest in
      subst
        (λ c.
          Holding bo mem (c >>= λ candidate. lookup_from bo mem n (document_of n) key candidate)
            (value_of ((name, d) ∷ entries) key))
        (sym (first_some name d at zs.0))
        (lookup_walk entries n 4 key name d at more zs.0 zs.1 k
          (omega (arith, rest.1, length-body name d entries, length-entries entries)))

module _ (bo : ByteOrder) (mem more content : List ℕ) (e : mem ≡ framed bo content ++ more)
    (small : length content + 5 ≤ int32_max) where
  framed_split : mem ≡ bo.put_le32 (length content + 5) ++ (content ++ (0 ∷ more))
  framed_split =
      e
      ∙ append_assoc (bo.put_le32 (length content + 5)) (content ++ (0 ∷ [])) more
      ∙ ap (λ t. bo.put_le32 (length content + 5) ++ t) (append_assoc content (0 ∷ []) more)

  content_placed : drop 4 mem ≡ content ++ (0 ∷ more)
  content_placed =
      ap (λ k. drop k mem) {x = 4} (omega (arith, length-put_le32 bo (length content + 5)))
      ∙ drop_past mem 0 (bo.put_le32 (length content + 5)) (content ++ (0 ∷ more)) framed_split

  init_framed : init_doc bo mem (some 0) ≡ ok (document_of (length content))
  unfolding init_doc
  init_framed =
      rw
        (
          ap (load_bytes mem 0) (sym (length-put_le32 bo (length content + 5)))
              ∙ load_bytes_at mem 0 (bo.put_le32 (length content + 5)) (content ++ (0 ∷ more))
                  (omega (arith, length-put_le32 bo (length content + 5))) framed_split,
          get-put_le32 bo (length content + 5) (omega arith),
          shorter,
        )
        (ground arith)
    where
      shorter : sub32 (sub32 (length content + 5) 4) 1 ≡ length content
      shorter = omega arith

-- Writing and reading back, for a document of less than 2^31 bytes at the start of memory, entries
-- whose names have no NUL, and a key that has none: `init_doc` and `element_lookup` find under the
-- key the first value of that name, as an element of its type whose value is its bytes in the BSON
-- format, and answer NOT_FOUND where the entries have no such name.
pub lookup_finds :
    (bo : ByteOrder) (mem more : List ℕ) (entries : List (List ℕ × Data)) (key : List ℕ)
    → mem ≡ framed bo (body bo entries) ++ more
    → length (body bo entries) + 5 ≤ int32_max
    → All (λ e. IsName e.0) entries
    → IsName key
    → Holding bo mem
        (init_doc bo mem (some 0) >>= λ doc. element_lookup bo mem doc key)
        (value_of entries key)
lookup_finds bo mem more entries key e small zs k =
    rw (init_framed bo mem more (body bo entries) e small) (
      lookup-Holding bo mem (length (body bo entries)) small entries key
        (omega arith, refl, (0 ∷ more, content_placed bo mem more (body bo entries) e small)) zs k)
