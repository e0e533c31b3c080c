-- ===== src/Introspection/Filling.antt =====
-- The introspection string fits its buffer exactly.
use Prim.Native.Nat.{min, max}
use mathlib.Core.Path.{subst}
use astarte_device_sdk_zephy.Prelude.{
  ℕ, zero, suc, ◌+◌, ◌-◌, ◌≤◌, ◌<◌, ◌≡◌, refl, sym, ap, ◌∙◌, List, [], ◌∷◌, ◌++◌, length,
  length-append, append_assoc, append-nil, take, drop, arith, uint32_max, add32, sub32,
}
use astarte_device_sdk_zephy.Result.{Outcome, ok, err, fault, stuck, ◌>>=◌, Returns}
use astarte_device_sdk_zephy.Bson.Serializer.{decimal}
use astarte_device_sdk_zephy.Bson.Serializer.Format.{All}
use astarte_device_sdk_zephy.Bson.Memory.At.{drop-add, drop-append, take-append, length-drop}
use astarte_device_sdk_zephy.Interface.{Interface}
use astarte_device_sdk_zephy.Introspection.Nodes.{Dlist}
use astarte_device_sdk_zephy.Introspection.{
  snprintf_at, fill_from, terminate, entry_text, get_string_size, fill_string,
}
use astarte_device_sdk_zephy.Introspection.Text.{text, Announceable, get_string_size-text}

module _ {A : Type 0} where
  take_all : (n : ℕ) (xs : List A) → length xs ≤ n → take n xs ≡ xs
  take_all zero [] h = refl
  take_all zero (x ∷ xs) h = absurd (omega arith)
  take_all (suc n) [] h = refl
  take_all (suc n) (x ∷ xs) h = ap (λ t. x ∷ t) (take_all n xs (omega arith))

  drop_all : (n : ℕ) (xs : List A) → length xs ≤ n → drop n xs ≡ []
  drop_all zero [] h = refl
  drop_all zero (x ∷ xs) h = absurd (omega arith)
  drop_all (suc n) [] h = refl
  drop_all (suc n) (x ∷ xs) h = drop_all n xs (omega arith)

  take_past : (p r : List A) (n : ℕ) → take (length p + n) (p ++ r) ≡ p ++ take n r
  take_past [] r n = let e : 0 + n ≡ n = omega arith in rw e refl
  take_past (x ∷ p) r n =
      let e : suc (length p) + n ≡ suc (length p + n) = omega arith in
      rw e (ap (λ t. x ∷ t) (take_past p r n))

  take_within : (n : ℕ) (xs r : List A) → n ≤ length xs → take n (xs ++ r) ≡ take n xs
  take_within zero xs r h = refl
  take_within (suc n) [] r h = absurd (omega arith)
  take_within (suc n) (x ∷ xs) r h = ap (λ t. x ∷ t) (take_within n xs r (omega arith))

  length-take : (n : ℕ) (xs : List A) → length (take n xs) ≡ min n (length xs)
  length-take zero xs = omega arith
  length-take (suc n) [] = omega arith
  length-take (suc n) (x ∷ xs) = omega (arith, length-take n xs)

-- What is written where there is room for `w` bytes, the terminator included.
snprintf_room :
    (p tail t : List ℕ) (w : ℕ)
    → min (length t + 1) (length tail) ≡ w
    → 1 ≤ w
    → snprintf_at (p ++ tail) (length p) (length tail) t
      ≡ ok (p ++ (take (w - 1) t ++ (0 ∷ drop w tail)))
unfolding snprintf_at
snprintf_room p tail t w e some =
    rw (e, take-append p tail, drop-add (length p) w (p ++ tail), drop-append p tail)
      (ground (arith, length-append p tail))

-- A text that fits is written with its terminator.
snprintf_fits :
    (p tail t : List ℕ)
    → length t < length tail
    → snprintf_at (p ++ tail) (length p) (length tail) t
      ≡ ok ((p ++ t) ++ (0 ∷ drop (length t + 1) tail))
snprintf_fits p tail t h =
    snprintf_room p tail t (length t + 1) (omega arith) (omega arith)
    ∙ ap ok (
        ap (λ u. p ++ (u ++ (0 ∷ drop (length t + 1) tail)))
          (take_all (length t + 1 - 1) t (omega arith))
        ∙ sym (append_assoc p t (0 ∷ drop (length t + 1) tail)))

-- A text as long as the room loses its last character to the terminator.
snprintf_cuts :
    (p tail t : List ℕ)
    → length t ≡ length tail
    → 1 ≤ length t
    → snprintf_at (p ++ tail) (length p) (length tail) t
      ≡ ok (p ++ (take (length t - 1) t ++ (0 ∷ [])))
snprintf_cuts p tail t h some =
    snprintf_room p tail t (length t) (omega arith) some
    ∙ ap (λ u. ok (p ++ (take (length t - 1) t ++ (0 ∷ u))))
        (drop_all (length t) tail (omega arith))

-- The filled buffer: as long as before, with the text but for its last character.
abbrev Filled : List ℕ → ℕ → List ℕ → Type 0
Filled full n b = (length b ≡ n) × (take (n - 1) b ≡ take (n - 1) full)

last-Filled :
    (p t : List ℕ)
    → 1 ≤ length t
    → Filled (p ++ (t ++ [])) (length p + length t) (p ++ (take (length t - 1) t ++ (0 ∷ [])))
last-Filled p t some = (
  omega (
    arith,
    length-append p (take k t ++ (0 ∷ [])),
    length-append (take k t) (0 ∷ []),
    length-take k t,
  ),
  rw at (
      take_past p (take k t ++ (0 ∷ [])) k ∙ ap (λ u. p ++ u) same ∙ sym (take_past p (t ++ []) k)),
)
  where
    k : ℕ
    k = length t - 1

    at : length p + length t - 1 ≡ length p + k
    at = omega arith

    kept : take k (take k t ++ (0 ∷ [])) ≡ take k t
    kept =
        take_within k (take k t) (0 ∷ []) (omega (arith, length-take k t))
        ∙ take_all k (take k t) (omega (arith, length-take k t))

    same : take k (take k t ++ (0 ∷ [])) ≡ take k (t ++ [])
    same = kept ∙ sym (take_within k t [] (omega arith))

length-entry_text_pos : (x : Interface) → 1 ≤ length (entry_text x)
length-entry_text_pos x = omega (
  arith,
  length-append x.name
      (b':' ∷ (decimal 10 x.major_version ++ (b':' ∷ (decimal 10 x.minor_version ++ (b';' ∷ []))))),
)

fill_from-Filled :
    (xs : List Interface) (p tail : List ℕ) (n : ℕ)
    → length tail ≡ length (text xs)
    → length p + length tail ≡ n
    → n ≤ uint32_max
    → Returns (Filled (p ++ text xs) n) (fill_from xs (p ++ tail) n (length p))
unfolding fill_from text
fill_from-Filled [] p [] n t e h = (omega (arith, length-append p [], e), refl)
fill_from-Filled [] p (c ∷ tail) n t e h = absurd (omega (arith, t))
fill_from-Filled (x ∷ []) p tail n t e h =
    let ends : length tail ≡ length (entry_text x) = t ∙ ap length (append-nil (entry_text x)) in
    let room : sub32 n (length p) ≡ length tail = omega (arith, e) in
    let size : n ≡ length p + length (entry_text x) = omega (arith, e, ends) in
    rw (room, snprintf_cuts p tail (entry_text x) (sym ends) (length-entry_text_pos x), size)
      (last-Filled p (entry_text x) (length-entry_text_pos x))
fill_from-Filled (x ∷ y ∷ ys) p tail n t e h =
    subst
      (λ r.
        Returns (Filled full n)
          (r >>= λ b. fill_from (y ∷ ys) b n (add32 (length p) (length here))))
      (sym
        (ap (λ r. snprintf_at (p ++ tail) (length p) r here) room ∙ snprintf_fits p tail here fits))
      (subst (λ q. Returns (Filled full n) (fill_from (y ∷ ys) ((p ++ here) ++ rest) n q)) (sym pos)
        (subst
          (λ f.
            Returns (Filled f n) (fill_from (y ∷ ys) ((p ++ here) ++ rest) n (length (p ++ here))))
          (append_assoc p here (text (y ∷ ys)))
          (fill_from-Filled (y ∷ ys) (p ++ here) rest n
            (omega (arith, t, lengths, fits, length-drop (length here + 1) tail))
            (omega (arith, length-append p here, e, fits, length-drop (length here + 1) tail)) h)))
  where
    here : List ℕ
    here = entry_text x

    rest : List ℕ
    rest = 0 ∷ drop (length here + 1) tail

    full : List ℕ
    full = p ++ (here ++ text (y ∷ ys))

    lengths : length (text (x ∷ y ∷ ys)) ≡ length here + length (text (y ∷ ys))
    lengths = length-append here (text (y ∷ ys))

    more : length (text (y ∷ ys)) ≡ length (entry_text y) + length (text ys)
    more = length-append (entry_text y) (text ys)

    fits : length here < length tail
    fits = omega (arith, t, lengths, more, length-entry_text_pos y)

    room : sub32 n (length p) ≡ length tail
    room = omega (arith, e)

    pos : add32 (length p) (length here) ≡ length (p ++ here)
    pos = omega (arith, e, fits, length-append p here)

terminate_lem :
    (full b : List ℕ) (n : ℕ)
    → 1 ≤ n
    → n ≤ uint32_max
    → Filled full n b
    → terminate b n ≡ ok (take (n - 1) full ++ (0 ∷ []))
unfolding terminate
terminate_lem full b n some h (len, same) =
    let at : sub32 n 1 ≡ n - 1 = omega arith in
    rw (at, ← same) (ground (arith, len, drop_all (n - 1 + 1) b (omega (arith, len))))

-- The announced text: `name:major:minor;` for each interface, with the last `;` left out.
abbrev pub announced : List Interface → List ℕ
announced xs = take (length (text xs) - 1) (text xs)

Returns-then :
    {A B : Type 0} (P : A → Type 0) (m : Outcome A) (f : A → Outcome B) (r : Outcome B)
    → Returns P m
    → ((a : A) → P a → f a ≡ r)
    → (m >>= f) ≡ r
Returns-then P (ok a) f r h k = k a h
Returns-then P (err c) f r h k = absurd h
Returns-then P fault f r h k = absurd h
Returns-then P stuck f r h k = absurd h

fill_list :
    (xs : List Interface) (buffer : List ℕ) (n : ℕ)
    → n ≡ max 1 (length (text xs))
    → n ≤ uint32_max
    → length buffer ≡ n
    → (fill_from xs buffer n 0 >>= λ b. terminate b n) ≡ ok (announced xs ++ (0 ∷ []))
unfolding fill_from text
fill_list [] buffer n e h len =
    let one : n ≡ 1 = omega (arith, e) in
    rw one (terminate_lem [] buffer 1 (omega arith) (omega arith) (len ∙ one, refl))
fill_list (x ∷ xs) buffer n e h len =
    let long : length (text (x ∷ xs)) ≡ n =
      omega (arith, e, length-append (entry_text x) (text xs), length-entry_text_pos x) in
    Returns-then (Filled (text (x ∷ xs)) n) (fill_from (x ∷ xs) buffer n 0) _ _
      (fill_from-Filled (x ∷ xs) [] buffer n (omega (arith, len, long)) (omega (arith, len)) h)
      λ b f.
        terminate_lem (text (x ∷ xs)) b n (omega (arith, e)) h f
        ∙ ap (λ k. ok (take (k - 1) (text (x ∷ xs)) ++ (0 ∷ []))) (sym long)

module _ {L : Type 0} (dl : Dlist L Interface) where
  -- For interfaces whose names have at most 128 characters, whose versions have 32 bits and whose
  -- text fits a `size_t`: `introspection_fill_string`, on any buffer of the size that
  -- `introspection_get_string_size` computes, writes inside it and leaves in it the announced text
  -- and its terminator, to the last byte.
  pub fill_string_exact :
      (l : L) (buffer : List ℕ)
      → All Announceable (dl.nodes l)
      → length (text (dl.nodes l)) ≤ uint32_max
      → length buffer ≡ get_string_size dl l
      → fill_string dl l buffer (get_string_size dl l) ≡ ok (announced (dl.nodes l) ++ (0 ∷ []))
  unfolding fill_string
  fill_string_exact l buffer a fits len =
      let size : get_string_size dl l ≡ max 1 (length (text (dl.nodes l))) =
        get_string_size-text dl l a fits in
      fill_list (dl.nodes l) buffer (get_string_size dl l) size (omega (arith, size, fits)) len
