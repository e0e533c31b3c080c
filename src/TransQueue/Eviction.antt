-- ===== src/TransQueue/Eviction.antt =====
-- What the eviction does to a queue of the kernel, and to a place of the backlog.
use mathlib.Core.Path.{subst}
use mathlib.Core.List.{map-append}
use astarte_device_sdk_zephy.Prelude.{
  ℕ, ◌+◌, ◌≤◌, ◌<◌, ◌≡◌, refl, sym, ap, ◌∙◌, Bool, true, false, inl, inr, Option, some, none, List,
  [], ◌∷◌, ◌++◌, map, length, drop, get_elem?, ltb, if◌then◌else◌, append-nil, arith, Bool-cases,
}
use astarte_device_sdk_zephy.TransQueue.Kernel.{KernelQueue}
use astarte_device_sdk_zephy.TransQueue.Parts.{put_evicting, evict_if_full, retry_put}
use astarte_device_sdk_zephy.TransQueue.Backlog.{
  Entry, Place, place_of, seq_of, same_place, entries_at, without_oldest, enqueue, IsBelow,
  IsAscending,
}
use astarte_device_sdk_zephy.TransQueue.Places.{
  entries_at-append, entries_at-without_oldest, entries_at-without_other, IsBelow-append,
  IsBelow-mono, IsBelow-without_oldest, IsAscending-append, IsAscending-without_oldest,
}

length-map : {A B : Type 0} (f : A → B) (xs : List A) → length (map f xs) ≡ length xs
length-map f [] = refl
length-map f (x ∷ xs) = omega (arith, length-map f xs)

-- At most `capacity` items, with a new one.
abbrev pub kept : {A : Type 0} → ℕ → List A → A → List A
kept capacity xs a = (if ltb (length xs) capacity then xs else drop 1 xs) ++ (a ∷ [])

length-drop_one :
    {A : Type 0} (xs : List A) (n : ℕ) → 0 < n → length xs ≤ n → length (drop 1 xs) < n
length-drop_one [] n p h = omega arith
length-drop_one (x ∷ xs) n p h = omega arith

module _ {Q A : Type 0} (kq : KernelQueue Q A) where
  not_full : (p : Bool × Q) (a : A) → p.0 ≡ true → evict_if_full kq p a ≡ (true, p.1)
  unfolding evict_if_full
  not_full (true, q) a h = refl
  not_full (false, q) a h = absurd (ground (arith, h))

  full : (p : Bool × Q) (a : A) → p.0 ≡ false → evict_if_full kq p a ≡ retry_put kq (kq.get p.1) a
  unfolding evict_if_full
  full (true, q) a h = absurd (ground (arith, h))
  full (false, q) a h = refl

  retried : (g : Option A × Q) (a b : A) → g.0 ≡ some b → retry_put kq g a ≡ kq.put g.1 a
  unfolding retry_put
  retried (none, q) a b h = absurd (ground (arith, h))
  retried (some x, q) a b h = refl

  -- A full queue holds an oldest item.
  oldest : (xs : List A) (n : ℕ) → 0 < n → n ≤ length xs → (b : A) × (get_elem? xs 0 ≡ some b)
  oldest [] n p h = absurd (omega arith)
  oldest (x ∷ xs) n p h = (x, refl)

  put_full_kept :
      (q : Q) (a : A)
      → 0 < kq.capacity
      → kq.capacity ≤ length (kq.contents q)
      → ((put_evicting kq q a).0 ≡ true)
        × (kq.contents (put_evicting kq q a).1 ≡ drop 1 (kq.contents q) ++ (a ∷ []))
  unfolding put_evicting
  put_full_kept q a h f =
      let q1 = (kq.put q a).1 in
      let same = kq.contents-put_full q a f in
      let rest : kq.contents (kq.get q1).1 ≡ drop 1 (kq.contents q) =
        kq.contents-get q1 ∙ ap (drop 1) same in
      let room : length (kq.contents (kq.get q1).1) < kq.capacity =
        subst (λ xs. length xs < kq.capacity) (sym rest)
          (length-drop_one (kq.contents q) kq.capacity h (kq.length_bounded q)) in
      let o = oldest (kq.contents q) kq.capacity h f in
      let got : (kq.get q1).0 ≡ some o.0 =
        kq.get_oldest q1 ∙ ap (λ xs. get_elem? xs 0) same ∙ o.1 in
      let e : put_evicting kq q a ≡ kq.put (kq.get q1).1 a =
        full (kq.put q a) a (kq.put_full q a f) ∙ retried (kq.get q1) a o.0 got in
      (
        ap (λ p. p.0) e ∙ kq.put_room (kq.get q1).1 a room,
        ap (λ p. kq.contents p.1) e
            ∙ kq.contents-put_room (kq.get q1).1 a room
            ∙ ap (λ xs. xs ++ (a ∷ [])) rest,
      )

  pub put_evicting-kept :
      (q : Q) (a : A)
      → 0 < kq.capacity
      → ((put_evicting kq q a).0 ≡ true)
        × (kq.contents (put_evicting kq q a).1 ≡ kept kq.capacity (kq.contents q) a)
  unfolding put_evicting
  put_evicting-kept q a h = elim (Bool-cases (ltb (length (kq.contents q)) kq.capacity)) [
    | inl y ↦
        let room : length (kq.contents q) < kq.capacity = ground arith in
        let e = not_full (kq.put q a) a (kq.put_room q a room) in
        (ap (λ p. p.0) e, rw y (ap (λ p. kq.contents p.1) e ∙ kq.contents-put_room q a room))
    | inr n ↦
        let f : kq.capacity ≤ length (kq.contents q) = ground arith in rw n (put_full_kept q a h f)
  ]

pub map-drop :
    {A : Type 0} (mark : A → Entry) (xs : List A) → map mark (drop 1 xs) ≡ drop 1 (map mark xs)
map-drop mark [] = refl
map-drop mark (x ∷ xs) = refl

pub map-kept :
    {A : Type 0} (mark : A → Entry) (capacity : ℕ) (xs : List A) (a : A)
    → map mark (kept capacity xs a) ≡ kept capacity (map mark xs) (mark a)
map-kept mark capacity xs a = elim (Bool-cases (ltb (length xs) capacity)) [
  | inl y ↦ rw (length-map mark xs, y) (map-append mark xs (a ∷ []))
  | inr n ↦
      rw (length-map mark xs, n)
        (map-append mark (drop 1 xs) (a ∷ []) ∙ ap (λ t. t ++ (mark a ∷ [])) (map-drop mark xs))
]

-- The place of an addition, and the other places.
pub enqueue_same :
    (capacity : ℕ) (l : List Entry) (e : Entry)
    → entries_at (place_of e) (enqueue capacity l e) ≡ kept capacity (entries_at (place_of e) l) e
unfolding enqueue
enqueue_same capacity l e = elim (Bool-cases (ltb (length (entries_at (place_of e) l)) capacity)) [
  | inl y ↦ rw y (entries_at-append (place_of e) l (e ∷ []) ∙ rw (alone e) refl)
  | inr n ↦ rw n (
      entries_at-append (place_of e) (without_oldest (place_of e) l) (e ∷ [])
      ∙ rw (alone e, entries_at-without_oldest (place_of e) l) refl)
]
  where
    alone : (e : Entry) → entries_at (place_of e) (e ∷ []) ≡ e ∷ []
    alone e = unfold entries_at in unfold same_place in unfold place_of in ground arith

pub enqueue_other :
    (capacity : ℕ) (p : Place) (l : List Entry) (e : Entry)
    → same_place p (place_of e) ≡ false
    → entries_at p (enqueue capacity l e) ≡ entries_at p l
unfolding enqueue
enqueue_other capacity p l e h =
    elim (Bool-cases (ltb (length (entries_at (place_of e) l)) capacity)) [
      | inl y ↦ rw y (entries_at-append p l (e ∷ []) ∙ rw none_here (append-nil (entries_at p l)))
      | inr n ↦ rw n (
          entries_at-append p (without_oldest (place_of e) l) (e ∷ [])
          ∙ rw (none_here, entries_at-without_other p (place_of e) l h)
              (append-nil (entries_at p l)))
    ]
  where
    none_here : entries_at p (e ∷ []) ≡ []
    none_here = unfold entries_at in rw h refl

pub enqueue-IsAscending :
    (capacity : ℕ) (l : List Entry) (e : Entry)
    → IsAscending l
    → IsBelow (seq_of e) l
    → IsAscending (enqueue capacity l e)
unfolding enqueue
enqueue-IsAscending capacity l e h b =
    elim (Bool-cases (ltb (length (entries_at (place_of e) l)) capacity)) [
      | inl y ↦ rw y (IsAscending-append l e h b)
      | inr n ↦ rw n (
          IsAscending-append (without_oldest (place_of e) l) e
            (IsAscending-without_oldest (place_of e) l h)
            (IsBelow-without_oldest (seq_of e) (place_of e) l b))
    ]

pub enqueue-IsBelow :
    (capacity n : ℕ) (l : List Entry) (e : Entry)
    → IsBelow n l
    → seq_of e ≡ n
    → IsBelow (n + 1) (enqueue capacity l e)
unfolding enqueue
enqueue-IsBelow capacity n l e b s =
    let up = IsBelow-mono n (n + 1) l (omega arith) b in
    let lt : seq_of e < n + 1 = omega (arith, s) in
    elim (Bool-cases (ltb (length (entries_at (place_of e) l)) capacity)) [
      | inl y ↦ rw y (IsBelow-append (n + 1) l e up lt)
      | inr m ↦ rw m (
          IsBelow-append (n + 1) (without_oldest (place_of e) l) e
            (IsBelow-without_oldest (n + 1) (place_of e) l up) lt)
    ]
