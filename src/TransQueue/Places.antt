-- ===== src/TransQueue/Places.antt =====
-- The places of the backlog: the entries of each under an addition and a removal, and the order of
-- their sequence numbers.
use astarte_device_sdk_zephy.Prelude.{
  ℕ, ◌≤◌, ◌<◌, ◌≡◌, refl, ap, true, false, inl, inr, List, [], ◌∷◌, ◌++◌, drop, Bool-cases, arith,
}
use astarte_device_sdk_zephy.TransQueue.Backlog.{
  Entry, Place, place_of, seq_of, same_place, entries_at, without_oldest, IsAbove, IsBelow,
  IsAscending,
}

pub entries_at-append :
    (p : Place) (l r : List Entry) → entries_at p (l ++ r) ≡ entries_at p l ++ entries_at p r
unfolding entries_at
entries_at-append p [] r = refl
entries_at-append p (e ∷ l) r = elim (Bool-cases (same_place p (place_of e))) [
  | inl y ↦ rw y (ap (λ t. e ∷ t) (entries_at-append p l r))
  | inr n ↦ rw n (entries_at-append p l r)
]

pub entries_at-without_oldest :
    (p : Place) (l : List Entry) → entries_at p (without_oldest p l) ≡ drop 1 (entries_at p l)
unfolding entries_at without_oldest
entries_at-without_oldest p [] = refl
entries_at-without_oldest p (e ∷ l) = elim (Bool-cases (same_place p (place_of e))) [
  | inl y ↦ rw y refl
  | inr n ↦ rw n (rw n (entries_at-without_oldest p l))
]

other : (p o k : Place) → same_place p o ≡ false → same_place o k ≡ true → same_place p k ≡ false
unfolding same_place
other p o k h y = ground arith

pub entries_at-without_other :
    (p o : Place) (l : List Entry)
    → same_place p o ≡ false
    → entries_at p (without_oldest o l) ≡ entries_at p l
unfolding entries_at without_oldest
entries_at-without_other p o [] h = refl
entries_at-without_other p o (e ∷ l) h = elim (Bool-cases (same_place o (place_of e))) [
  | inl y ↦ rw (y, other p o (place_of e) h y) refl
  | inr n ↦ rw n (elim (Bool-cases (same_place p (place_of e))) [
    | inl y ↦ rw y (ap (λ t. e ∷ t) (entries_at-without_other p o l h))
    | inr m ↦ rw m (entries_at-without_other p o l h)
  ])
]

pub IsAbove-entries_at :
    (n : ℕ) (p : Place) (l : List Entry) → IsAbove n l → IsAbove n (entries_at p l)
unfolding IsAbove entries_at
IsAbove-entries_at n p [] h = tt
IsAbove-entries_at n p (e ∷ l) h = elim (Bool-cases (same_place p (place_of e))) [
  | inl y ↦ rw y (h.0, IsAbove-entries_at n p l h.1)
  | inr m ↦ rw m (IsAbove-entries_at n p l h.1)
]

pub IsAbove-append :
    (n : ℕ) (l : List Entry) (e : Entry) → IsAbove n l → n < seq_of e → IsAbove n (l ++ (e ∷ []))
unfolding IsAbove
IsAbove-append n [] e h k = (k, tt)
IsAbove-append n (x ∷ l) e h k = (h.0, IsAbove-append n l e h.1 k)

pub IsBelow-append :
    (n : ℕ) (l : List Entry) (e : Entry) → IsBelow n l → seq_of e < n → IsBelow n (l ++ (e ∷ []))
unfolding IsBelow
IsBelow-append n [] e h k = (k, tt)
IsBelow-append n (x ∷ l) e h k = (h.0, IsBelow-append n l e h.1 k)

pub IsBelow-mono : (n m : ℕ) (l : List Entry) → n ≤ m → IsBelow n l → IsBelow m l
unfolding IsBelow
IsBelow-mono n m [] h k = tt
IsBelow-mono n m (x ∷ l) h k = (omega (arith, k.0), IsBelow-mono n m l h k.1)

pub IsAscending-append :
    (l : List Entry) (e : Entry)
    → IsAscending l
    → IsBelow (seq_of e) l
    → IsAscending (l ++ (e ∷ []))
unfolding IsAscending IsBelow IsAbove
IsAscending-append [] e h k = (tt, tt)
IsAscending-append (x ∷ l) e h k =
    (IsAbove-append (seq_of x) l e h.0 k.0, IsAscending-append l e h.1 k.1)

IsAbove-without_oldest :
    (n : ℕ) (p : Place) (l : List Entry) → IsAbove n l → IsAbove n (without_oldest p l)
unfolding IsAbove without_oldest
IsAbove-without_oldest n p [] h = tt
IsAbove-without_oldest n p (e ∷ l) h = elim (Bool-cases (same_place p (place_of e))) [
  | inl y ↦ rw y h.1
  | inr m ↦ rw m (h.0, IsAbove-without_oldest n p l h.1)
]

pub IsBelow-without_oldest :
    (n : ℕ) (p : Place) (l : List Entry) → IsBelow n l → IsBelow n (without_oldest p l)
unfolding IsBelow without_oldest
IsBelow-without_oldest n p [] h = tt
IsBelow-without_oldest n p (e ∷ l) h = elim (Bool-cases (same_place p (place_of e))) [
  | inl y ↦ rw y h.1
  | inr m ↦ rw m (h.0, IsBelow-without_oldest n p l h.1)
]

pub IsAscending-without_oldest :
    (p : Place) (l : List Entry) → IsAscending l → IsAscending (without_oldest p l)
unfolding IsAscending without_oldest
IsAscending-without_oldest p [] h = tt
IsAscending-without_oldest p (e ∷ l) h = elim (Bool-cases (same_place p (place_of e))) [
  | inl y ↦ rw y h.1
  | inr m ↦ rw m (IsAbove-without_oldest (seq_of e) p l h.0, IsAscending-without_oldest p l h.1)
]
