-- ===== src/Bson/Serializer/Fields.antt =====
-- Each `append_<type>` writes the named value in the BSON format, whatever the allocator answers.
use mathlib.Core.Path.{subst}
use astarte_device_sdk_zephy.Prelude.{
  ℕ, ◌+◌, ◌≤◌, sym, Bool, List, [], ◌∷◌, ◌++◌, length, length-append, if◌then◌else◌, ltb, arith,
  append_assoc,
}
use astarte_device_sdk_zephy.Bson.Types.{
  type_double, type_string, type_binary, type_boolean, type_datetime, type_int32, type_int64,
}
use astarte_device_sdk_zephy.Bson.ByteOrder.{ByteOrder, length-put_le32, length-put_le64}
use astarte_device_sdk_zephy.Bson.Serializer.{
  Serializer, Written, ◌>>=◌, int32_max, c_string, append_header, append_fixed, append_boolean,
  append_double, append_int32, append_int64, append_datetime, append_binary, append_string,
  byte_array_append, byte_array_append_byte,
}
use astarte_device_sdk_zephy.Bson.Serializer.Append.{
  Holds, IsModest, Ends, Ends-bind, Ends-if, Ends-mono, append-Ends, append_byte-Ends,
}
use astarte_device_sdk_zephy.Bson.Serializer.Format.{
  field, string_payload, binary_payload, boolean_payload,
}

module _ (grant : ℕ → Bool) where
  -- The call adds the bytes `new` to `old`.
  abbrev pub Adds : List ℕ → List ℕ → Written → Type 0
  Adds old new m = Ends grant (length (old ++ new)) (Holds (old ++ new)) m

  pub Adds-bind :
      (old a b : List ℕ) (m : Written) (f : Serializer → Written)
      → Adds old a m
      → ((s : Serializer) → Holds (old ++ a) s → Adds (old ++ a) b (f s))
      → Adds old (a ++ b) (m >>= f)
  Adds-bind old a b m f h k =
      Ends-bind grant (length (old ++ (a ++ b))) _ _ m f
        (Ends-mono grant (length (old ++ a)) (length (old ++ (a ++ b))) _ m
          (omega (arith, length-append old a, length-append old (a ++ b), length-append a b)) h)
        λ s g. subst (λ o. Ends grant (length o) (Holds o) (f s)) (append_assoc old a b) (k s g)

  -- The test for a terminated serializer, passed by an open one.
  pub open_if :
      (bytes : ℕ) (P : Serializer → Type 0) (old : List ℕ) (s : Serializer) (e m : Written)
      → Holds old s
      → Ends grant bytes P m
      → Ends grant bytes P (if s.terminated then e else m)
  open_if bytes P old s e m h k =
      subst (λ b. Ends grant bytes P (if b then e else m)) (sym h.is_open) k

  module _ (modest : IsModest grant) (old name : List ℕ) (s : Serializer) (h : Holds old s)
      (short : length name ≤ int32_max) where
    pub header-Adds : (type : ℕ) → Adds old (type ∷ c_string name) (append_header grant type name s)
    unfolding append_header
    header-Adds type =
        Adds-bind old (type ∷ []) (c_string name) (byte_array_append_byte grant type s) _
          (append_byte-Ends grant modest old type s h)
          λ s' h'.
            append-Ends grant modest (old ++ type ∷ []) (c_string name) s' h'
              (omega (arith, length-append name (0 ∷ [])))

    fixed-Adds :
        (type : ℕ) (bytes : List ℕ)
        → length bytes ≤ 8
        → Adds old (field type name bytes) (append_fixed grant type bytes name s)
    unfolding append_fixed
    fixed-Adds type bytes few = open_if _ _ old s _ _ h (
        Adds-bind old (type ∷ c_string name) bytes (append_header grant type name s) _
          (header-Adds type)
          λ s' h'.
            append-Ends grant modest (old ++ (type ∷ c_string name)) bytes s' h' (omega arith))

    pub boolean-Adds :
        (b : Bool)
        → Adds old (field type_boolean name (boolean_payload b)) (append_boolean grant b name s)
    unfolding append_boolean
    boolean-Adds b = open_if _ _ old s _ _ h (
        Adds-bind old (type_boolean ∷ c_string name) (boolean_payload b)
          (append_header grant type_boolean name s) _ (header-Adds type_boolean)
          λ s' h'. append_byte-Ends grant modest (old ++ (type_boolean ∷ c_string name)) _ s' h')

    module _ (bo : ByteOrder) where
      pub double-Adds :
          (n : ℕ)
          → Adds old (field type_double name (bo.put_le64 n)) (append_double grant bo n name s)
      unfolding append_double
      double-Adds n = fixed-Adds type_double (bo.put_le64 n) (omega (arith, length-put_le64 bo n))

      pub int32-Adds :
          (n : ℕ)
          → Adds old (field type_int32 name (bo.put_le32 n)) (append_int32 grant bo n name s)
      unfolding append_int32
      int32-Adds n = fixed-Adds type_int32 (bo.put_le32 n) (omega (arith, length-put_le32 bo n))

      pub int64-Adds :
          (n : ℕ)
          → Adds old (field type_int64 name (bo.put_le64 n)) (append_int64 grant bo n name s)
      unfolding append_int64
      int64-Adds n = fixed-Adds type_int64 (bo.put_le64 n) (omega (arith, length-put_le64 bo n))

      pub datetime-Adds :
          (n : ℕ)
          → Adds old (field type_datetime name (bo.put_le64 n)) (append_datetime grant bo n name s)
      unfolding append_datetime
      datetime-Adds n =
          fixed-Adds type_datetime (bo.put_le64 n) (omega (arith, length-put_le64 bo n))

      pub string-Adds :
          (t : List ℕ)
          → length t ≤ int32_max
          → Adds old
              (field type_string name (string_payload bo t))
              (append_string grant bo t name s)
      unfolding append_string
      string-Adds t fits = open_if _ _ old s _ _ h (
          Ends-if grant _ _ (ltb int32_max (length t)) _ _ (λ long. absurd (ground arith))
            λ _.
              Adds-bind old (type_string ∷ c_string name) (string_payload bo t)
                (append_header grant type_string name s) _ (header-Adds type_string)
                λ s₁ h₁.
                  subst
                    (λ n. Adds (old ++ (type_string ∷ c_string name)) (string_payload bo t) (
                      byte_array_append grant (bo.put_le32 n) s₁
                      >>= byte_array_append grant (c_string t)))
                    (omega arith)
                    (Adds-bind (old ++ (type_string ∷ c_string name)) (bo.put_le32 (length t + 1))
                      (c_string t) (byte_array_append grant (bo.put_le32 (length t + 1)) s₁) _
                      (append-Ends grant modest _ _ s₁ h₁
                        (omega (arith, length-put_le32 bo (length t + 1))))
                      λ s₂ h₂.
                        append-Ends grant modest _ (c_string t) s₂ h₂
                          (omega (arith, length-append t (0 ∷ [])))))

      pub binary-Adds :
          (b : List ℕ)
          → length b ≤ int32_max
          → Adds old
              (field type_binary name (binary_payload bo b))
              (append_binary grant bo b name s)
      unfolding append_binary
      binary-Adds b fits = open_if _ _ old s _ _ h (
          Ends-if grant _ _ (ltb int32_max (length b)) _ _ (λ long. absurd (ground arith))
            λ _.
              Adds-bind old (type_binary ∷ c_string name) (binary_payload bo b)
                (append_header grant type_binary name s) _ (header-Adds type_binary)
                λ s₁ h₁.
                  Adds-bind _ (bo.put_le32 (length b)) (0 ∷ b)
                    (byte_array_append grant (bo.put_le32 (length b)) s₁) _
                    (append-Ends grant modest _ _ s₁ h₁
                      (omega (arith, length-put_le32 bo (length b))))
                    λ s₂ h₂.
                      Adds-bind _ (0 ∷ []) b (byte_array_append_byte grant 0 s₂) _
                        (append_byte-Ends grant modest _ 0 s₂ h₂)
                        λ s₃ h₃. append-Ends grant modest _ b s₃ h₃ (omega arith))
