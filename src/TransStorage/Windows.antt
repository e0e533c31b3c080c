-- ===== src/TransStorage/Windows.antt =====
-- Runs of identifiers: their least and greatest member and their sum.
use native.Mathlib.Nat.{pow-suc}
use astarte_device_sdk_zephy.Prelude.{
  ℕ, zero, suc, ◌+◌, ◌-◌, ◌*◌, ◌/◌, ◌%◌, ◌^◌, ◌≤◌, ◌<◌, ◌≡◌, refl, sym, ap, ◌∙◌, true, List, [],
  ◌∷◌, ◌++◌, length, append-nil, append_assoc, arith, IsU32, uint32_max, uint64_max,
}
use astarte_device_sdk_zephy.TransStorage.{padded, key_of, strtoul_from, strtoul, Scan, scan}

-- The digits of a key read back.
strtoul_from-padded :
    (width n : ℕ) (r : List ℕ)
    → n < 10 ^ width
    → strtoul_from 0 (padded width n ++ r) ≡ strtoul_from n r
unfolding padded
strtoul_from-padded zero n r h = ap (λ k. strtoul_from k r) (omega arith)
strtoul_from-padded (suc width) n r h =
    ap (strtoul_from 0) (append_assoc (padded width (n / 10)) ((n % 10 + b'0') ∷ []) r)
    ∙ strtoul_from-padded width (n / 10) ((n % 10 + b'0') ∷ r) (omega (arith, pow-suc 10 width))
    ∙ (unfold strtoul_from in ground (arith, ap (λ k. strtoul_from k r) (digit n)))
  where
    digit : (n : ℕ) → 10 * (n / 10) + (n % 10 + b'0' - b'0') ≡ n
    digit n = omega arith

pub strtoul-key_of : (id : ℕ) → IsU32 id → strtoul (key_of id) ≡ id
unfolding strtoul strtoul_from
strtoul-key_of id h = omega (
  arith,
  ap (strtoul_from 0) (sym (append-nil (padded 10 id)))
      ∙ strtoul_from-padded 10 id [] (omega arith),
)

-- `k` identifiers from `p` on.
unfoldable pub range : ℕ → ℕ → List ℕ
range p zero = []
range p (suc k) = p ∷ range (suc p) k

unfoldable pub total : List ℕ → ℕ
total [] = 0
total (x ∷ xs) = x + total xs

pub total-append : (xs ys : List ℕ) → total (xs ++ ys) ≡ total xs + total ys
unfolding total
total-append [] ys = omega arith
total-append (x ∷ xs) ys = omega (arith, total-append xs ys)

pub range-append : (p a b : ℕ) → range p (a + b) ≡ range p a ++ range (p + a) b
unfolding range
range-append p zero b =
    let e : 0 + b ≡ b = omega arith in let f : p + 0 ≡ p = omega arith in rw (e, f) refl
range-append p (suc a) b =
    let e : suc a + b ≡ suc (a + b) = omega arith in
    let f : p + suc a ≡ suc p + a = omega arith in
    rw (e, f) (ap (λ t. p ∷ t) (range-append (suc p) a b))

-- The sum of a run, doubled.
pub total-range : (p k : ℕ) → 2 * total (range p k) + k ≡ k * (2 * p + k)
unfolding total range
total-range p zero = omega arith
total-range p (suc k) = omega (arith, total-range (suc p) k)

unfoldable pub scan_all : Scan → List ℕ → Scan
scan_all s [] = s
scan_all s (x ∷ xs) = scan_all (scan s x) xs

pub scan_all-append :
    (xs ys : List ℕ) (s : Scan) → scan_all s (xs ++ ys) ≡ scan_all (scan_all s xs) ys
unfolding scan_all
scan_all-append [] ys s = refl
scan_all-append (x ∷ xs) ys s = scan_all-append xs ys (scan s x)

pub scan_all-sum :
    (xs : List ℕ) (s : Scan)
    → s.sum_id + total xs ≤ uint64_max
    → (scan_all s xs).sum_id ≡ s.sum_id + total xs
unfolding scan_all total scan
scan_all-sum [] s h = omega arith
scan_all-sum (x ∷ xs) s h = omega (arith, scan_all-sum xs (scan s x) (omega arith))

pub scan_all-count :
    (xs : List ℕ) (s : Scan)
    → s.element_count + length xs ≤ uint32_max
    → (scan_all s xs).element_count ≡ s.element_count + length xs
unfolding scan_all scan
scan_all-count [] s h = omega arith
scan_all-count (x ∷ xs) s h = omega (arith, scan_all-count xs (scan s x) (omega arith))

pub scan_all-found :
    (xs : List ℕ) (s : Scan) → s.found_any ≡ true → (scan_all s xs).found_any ≡ true
unfolding scan_all scan
scan_all-found [] s h = h
scan_all-found (x ∷ xs) s h = scan_all-found xs (scan s x) refl

pub min_stays : (p k : ℕ) (s : Scan) → s.min_id ≤ p → (scan_all s (range p k)).min_id ≡ s.min_id
unfolding scan_all range scan
min_stays p zero s h = refl
min_stays p (suc k) s h =
    let same : (scan s p).min_id ≡ s.min_id = ground arith in
    min_stays (suc p) k (scan s p) (omega (arith, same)) ∙ same

pub min_found : (p k : ℕ) (s : Scan) → p ≤ s.min_id → (scan_all s (range p (suc k))).min_id ≡ p
unfolding scan_all range scan
min_found p k s h =
    let here : (scan s p).min_id ≡ p = ground arith in
    min_stays (suc p) k (scan s p) (omega (arith, here)) ∙ here

pub max_stays :
    (p k : ℕ) (s : Scan) → p + k ≤ s.max_id + 1 → (scan_all s (range p k)).max_id ≡ s.max_id
unfolding scan_all range scan
max_stays p zero s h = refl
max_stays p (suc k) s h =
    let same : (scan s p).max_id ≡ s.max_id = ground arith in
    max_stays (suc p) k (scan s p) (omega (arith, same)) ∙ same

pub max_found : (p k : ℕ) (s : Scan) → s.max_id ≤ p → (scan_all s (range p (suc k))).max_id ≡ p + k
unfolding scan_all range scan
max_found p zero s h = ground arith
max_found p (suc k) s h =
    let here : (scan s p).max_id ≡ p = ground arith in
    max_found (suc p) k (scan s p) (omega (arith, here)) ∙ omega arith

pub length-range : (p k : ℕ) → length (range p k) ≡ k
unfolding range
length-range p zero = refl
length-range p (suc k) = omega (arith, length-range (suc p) k)
