-- ===== src/TransStorage/Recovery.antt =====
-- The ends of the queue are found again after a restart, also where the identifiers wrapped.
use mathlib.Core.List.{Permᴰ}
use native.Mathlib.Nat.{mul-div_cancel_left, mul-add}
use astarte_device_sdk_zephy.Prelude.{
  ℕ, some, zero, suc, ◌+◌, ◌-◌, ◌*◌, ◌/◌, ◌%◌, ◌≤◌, ◌<◌, ◌≡◌, refl, sym, ap, ◌∙◌, inl, inr, true,
  Bool-cases, List, [], ◌∷◌, ◌++◌, length, length-append, ltb, leb, if◌then◌else◌, arith, IsU32,
  add64, sub64, mul64, uint32_max,
}
use astarte_device_sdk_zephy.Result.{Outcome, ok, err, not_found}
use astarte_device_sdk_zephy.Bson.Serializer.Format.{All}
use astarte_device_sdk_zephy.TransStorage.{
  KeyIterator, Indexes, Scan, scan, scan_start, scan_from, wrapped, indexes_of, get_indexes, key_of,
  strtoul,
}
use astarte_device_sdk_zephy.TransStorage.Windows.{
  strtoul-key_of, range, total, total-append, range-append, total-range, scan_all, scan_all-append,
  scan_all-sum, scan_all-count, scan_all-found, min_found, max_stays, max_found, length-range,
}

-- The order of the keys does not matter.
scan_comm : (s : Scan) (x y : ℕ) → scan (scan s x) y ≡ scan (scan s y) x
unfolding scan
scan_comm s x y = cc (least, greatest, sum)
  where
    least :
        (if ltb y (if ltb x s.min_id then x else s.min_id)
          then y
          else (if ltb x s.min_id then x else s.min_id))
        ≡ (if ltb x (if ltb y s.min_id then y else s.min_id)
            then x
            else (if ltb y s.min_id then y else s.min_id))
    least = ground arith

    greatest :
        (if ltb (if ltb s.max_id x then x else s.max_id) y
          then y
          else (if ltb s.max_id x then x else s.max_id))
        ≡ (if ltb (if ltb s.max_id y then y else s.max_id) x
            then x
            else (if ltb s.max_id y then y else s.max_id))
    greatest = ground arith

    sum : add64 (add64 s.sum_id x) y ≡ add64 (add64 s.sum_id y) x
    sum = omega arith

scan_all_perm : {xs ys : List ℕ} (s : Scan) → Permᴰ xs ys → scan_all s xs ≡ scan_all s ys
unfolding scan_all
scan_all_perm s Permᴰ.nil = refl
scan_all_perm s (Permᴰ.cons {b = b} {l₁ = l₁} e d) =
    ap (λ x. scan_all (scan s x) l₁) e ∙ scan_all_perm (scan s b) d
scan_all_perm s (Permᴰ.swap {a = a} {b = b} {a' = a'} {l = l} e f) =
    ap (λ t. scan_all t l) (scan_comm s a b)
    ∙ ap (λ x. scan_all (scan (scan s x) a) l) f
    ∙ ap (λ x. scan_all (scan (scan s a') x) l) e
scan_all_perm s (Permᴰ.trans d e) = scan_all_perm s d ∙ scan_all_perm s e

-- The identifiers of a queue of `n` messages whose oldest is `h`; after UINT32_MAX comes 0.
unfoldable pub queue_ids : ℕ → ℕ → List ℕ
queue_ids h n =
    if leb (h + n) 4294967296
    then range h n
    else range h (4294967296 - h) ++ range 0 (h + n - 4294967296)

-- The ends of that queue.
abbrev pub ends : ℕ → ℕ → Indexes
ends h n = record { head = h; tail = (h + n - 1) % 4294967296 }

found_range : (p k : ℕ) (s : Scan) → (scan_all s (range p (suc k))).found_any ≡ true
unfolding scan_all range scan
found_range p k s = scan_all-found (range (suc p) k) (scan s p) refl

total-range_split :
    (p a b q : ℕ) → p + a ≡ q → total (range p (a + b)) ≡ total (range p a) + total (range q b)
total-range_split p a b q e =
    ap total (range-append p a b)
    ∙ total-append (range p a) (range (p + a) b)
    ∙ ap (λ k. total (range p a) + total (range k b)) e

straight :
    (h n : ℕ)
    → 1 ≤ n
    → n ≤ uint32_max
    → h + n ≤ 4294967296
    → indexes_of (scan_all scan_start (range h n)) ≡ ends h n
unfolding indexes_of
straight h zero nonempty short fits = absurd (omega arith)
straight h (suc k) nonempty short fits = ground (
  arith,
  found,
  min_found h k scan_start (omega arith),
  max_found h k scan_start (omega arith),
  scan_all-count (range h (suc k)) scan_start (omega (arith, length-range h (suc k))),
  length-range h (suc k),
)
  where
    found : (scan_all scan_start (range h (suc k))).found_any ≡ true
    found = found_range h k scan_start

suc_pred : (k : ℕ) → 1 ≤ k → k ≡ k - 1 + 1
suc_pred k h = omega arith

wrapped_lem :
    (b m : ℕ) (s : Scan)
    → 1 ≤ b
    → 1 ≤ m
    → b + m ≤ uint32_max
    → s.element_count ≡ 4294967296 - m
    → s.sum_id + total (range b m) ≡ 9223372034707292160
    → wrapped s ≡ record { head = b + m; tail = b - 1 }
unfolding wrapped
wrapped_lem b m s hb hm fits count sum =
    rw (doubled, missing, mul-div_cancel_left (2 * b + m - 1) {n = m} (omega arith))
      (cc (head, tail))
  where
    gap : 2 * total (range b m) ≡ m * (2 * b + m - 1)
    gap = omega (
      arith,
      total-range b m,
      ap (λ k. m * k) (suc_pred (2 * b + m) (omega arith)) ∙ mul-add m (2 * b + m - 1) 1,
    )

    missing : sub64 (add64 uint32_max 1) s.element_count ≡ m
    missing = omega (arith, count)

    doubled :
        mul64 2 (sub64 (mul64 uint32_max (add64 uint32_max 1) / 2) s.sum_id) ≡ m * (2 * b + m - 1)
    doubled = omega (arith, sum, gap)

    head : (add64 (2 * b + m - 1) (add64 m 1) / 2) % 4294967296 ≡ b + m
    head = omega arith

    tail : (sub64 (2 * b + m - 1) (add64 m 1) / 2) % 4294967296 ≡ b - 1
    tail = omega arith

circled :
    (h a b m : ℕ)
    → h ≡ suc b + m
    → h + suc a ≡ 4294967296
    → 1 ≤ m
    → indexes_of (scan_all scan_start (range h (suc a) ++ range 0 (suc b)))
      ≡ record { head = suc b + m; tail = b }
unfolding indexes_of
circled h a b m split end hm = ground (
  arith,
  found,
  least,
  greatest,
  count,
  wrapped_lem (suc b) m s (omega arith) hm (omega arith) counted sum,
)
  where
    ids : List ℕ
    ids = range h (suc a) ++ range 0 (suc b)

    first : Scan
    first = scan_all scan_start (range h (suc a))

    s : Scan
    s = scan_all scan_start ids

    parts : s ≡ scan_all first (range 0 (suc b))
    parts = scan_all-append (range h (suc a)) (range 0 (suc b)) scan_start

    found : s.found_any ≡ true
    found = ap (λ (t : Scan). t.found_any) parts ∙ found_range 0 b first

    least : s.min_id ≡ 0
    least = ap (λ (t : Scan). t.min_id) parts ∙ min_found 0 b first (omega arith)

    top : first.max_id ≡ uint32_max
    top = max_found h a scan_start (omega arith) ∙ omega arith

    greatest : s.max_id ≡ uint32_max
    greatest =
        ap (λ (t : Scan). t.max_id) parts ∙ max_stays 0 (suc b) first (omega (arith, top)) ∙ top

    many : length ids ≡ suc a + suc b
    many = omega (
      arith,
      length-append (range h (suc a)) (range 0 (suc b)),
      length-range h (suc a),
      length-range 0 (suc b),
    )

    count : s.element_count ≡ suc a + suc b
    count = omega (arith, scan_all-count ids scan_start (omega (arith, many)), many)

    counted : s.element_count ≡ 4294967296 - m
    counted = omega (arith, count)

    round :
        total (range 0 (suc b + m + suc a))
        ≡ total (range 0 (suc b)) + total (range (suc b) m) + total (range h (suc a))
    round = omega (
      arith,
      total-range_split 0 (suc b + m) (suc a) h (omega arith),
      total-range_split 0 (suc b) m (suc b) (omega arith),
    )

    whole : suc b + m + suc a ≡ 4294967296
    whole = omega arith

    all : total (range 0 (suc b + m + suc a)) ≡ 9223372034707292160
    all = omega (arith, total-range 0 (suc b + m + suc a), ap (λ k. k * (2 * 0 + k)) whole)

    sum : s.sum_id + total (range (suc b) m) ≡ 9223372034707292160
    sum = omega (
      arith,
      round,
      all,
      total-append (range h (suc a)) (range 0 (suc b)),
      scan_all-sum ids scan_start
          (omega (arith, round, all, total-append (range h (suc a)) (range 0 (suc b)))),
    )

queue_recovered :
    (h n : ℕ)
    → 1 ≤ n
    → n ≤ uint32_max
    → IsU32 h
    → indexes_of (scan_all scan_start (queue_ids h n)) ≡ ends h n
unfolding queue_ids
queue_recovered h n nonempty short word = elim (Bool-cases (leb (h + n) 4294967296)) [
  | inl t ↦ rw t (straight h n nonempty short (ground arith))
  | inr f ↦ rw f (around (ground arith))
]
  where
    around :
        4294967296 < h + n
        → indexes_of
            (scan_all scan_start (range h (4294967296 - h) ++ range 0 (h + n - 4294967296)))
          ≡ ends h n
    around over =
        let a : ℕ = 4294967296 - h - 1 in
        let b : ℕ = h + n - 4294967296 - 1 in
        let m : ℕ = 4294967296 - n in
        let before : 4294967296 - h ≡ suc a = omega arith in
        let behind : h + n - 4294967296 ≡ suc b = omega arith in
        let head : suc b + m ≡ h = omega arith in
        let tail : b ≡ (h + n - 1) % 4294967296 = omega arith in
        ap (λ k. indexes_of (scan_all scan_start (range h k ++ range 0 (h + n - 4294967296))))
          before
        ∙ ap (λ k. indexes_of (scan_all scan_start (range h (suc a) ++ range 0 k))) behind
        ∙ circled h a b m (sym head) (omega arith) (omega arith)
        ∙ cc (head, tail)

module _ {S I : Type 0} (it : KeyIterator S I) where
  -- The iterator visits exactly the keys of these identifiers, in this order.
  abbrev pub Visits : Outcome I → List ℕ → Type 0
  Visits r [] = r ≡ err not_found
  Visits r (id ∷ ids) =
      (iter : I) × (r ≡ ok iter)
      × (it.iterator_get iter ≡ ok (key_of id))
      × Visits (it.iterator_next iter) ids

  scan_from-Visits :
      (ids : List ℕ) (fuel : ℕ) (r : Outcome I) (s : Scan)
      → All IsU32 ids
      → Visits r ids
      → length ids ≤ fuel
      → scan_from it fuel r s ≡ ok (scan_all s ids)
  unfolding scan_from scan_all
  scan_from-Visits [] fuel r s w v h = rw v refl
  scan_from-Visits (id ∷ ids) zero r s w v h = absurd (omega arith)
  scan_from-Visits (id ∷ ids) (suc fuel) r s w (iter, e, g, v) h =
      rw (e, g)
        (ap (λ k. scan_from it fuel (it.iterator_next iter) (scan s k)) (same id w.0)
          ∙ scan_from-Visits ids fuel (it.iterator_next iter) (scan s id) w.1 v (omega arith))
    where
      same : (id : ℕ) → IsU32 id → strtoul (key_of id) % 4294967296 ≡ id
      same id k = omega (arith, strtoul-key_of id k)

  -- Recovery after a restart, of a storage that is initialized: where the iterator visits, in any
  -- order, the keys of a queue of `n` messages from identifier `h` on, with 1 ≤ n < 2^32 and
  -- identifiers that continue with 0 after UINT32_MAX, `astarte_storage_transmission_get_indexes`
  -- ends and returns that head and the identifier of the newest message as tail; the fuel is at
  -- least the number of keys.
  pub get_indexes_recovers :
      (storage : S) (h n fuel : ℕ) (ids : List ℕ)
      → 1 ≤ n
      → n ≤ uint32_max
      → IsU32 h
      → Permᴰ ids (queue_ids h n)
      → All IsU32 ids
      → Visits (it.iterator_init storage) ids
      → length ids ≤ fuel
      → get_indexes it fuel (some storage) true
        ≡ ok (record { head = h; tail = (h + n - 1) % 4294967296 })
  unfolding get_indexes
  get_indexes_recovers storage h n fuel ids nonempty short word perm words v enough =
      rw (scan_from-Visits ids fuel (it.iterator_init storage) scan_start words v enough) (
        ap (λ s. ok (indexes_of s)) (scan_all_perm scan_start perm)
        ∙ ap ok (queue_recovered h n nonempty short word))
