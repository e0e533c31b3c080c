-- ===== src/Backoff/Growth.antt =====
-- The stored delay grows as `min(mul_coeff * 2 ^ calls, cutoff_coeff)`.
use Prim.Native.Nat.{min}
use native.Mathlib.Nat.{pow-suc}
use astarte_device_sdk_zephy.Prelude.{
  ℕ, suc, ◌+◌, ◌*◌, zero, ap, ◌∙◌, IsU32, ◌^◌, ◌≤◌, ◌≡◌, some, List, [], ◌∷◌, length, arith,
  uint32_max,
}
use astarte_device_sdk_zephy.Backoff.{Backoff, success, init, bounded_delay, get_next_delay, run}
use astarte_device_sdk_zephy.Backoff.Bounds.{IsValid}

-- The coefficients leave room for the jitter.
abbrev pub HasRoom : Backoff → Type 0
HasRoom b = b.cutoff_coeff + b.mul_coeff ≤ uint32_max

first_delay : (b : Backoff) → IsValid b → b.prev_delay ≡ 0 → bounded_delay b ≡ b.mul_coeff
unfolding bounded_delay
first_delay b v z = ground arith

next_delay :
    (b : Backoff)
    → IsValid b
    → HasRoom b
    → 1 ≤ b.prev_delay
    → bounded_delay b ≡ min (2 * b.prev_delay) b.cutoff_coeff
unfolding bounded_delay
next_delay b v room h = ground arith

-- `min(mul_coeff * 2 ^ calls, cutoff_coeff)`, the documented curve.
abbrev pub curve : Backoff → ℕ → ℕ
curve b calls = min (b.mul_coeff * 2 ^ calls) b.cutoff_coeff

curve-suc : (b : Backoff) (k : ℕ) → min (2 * curve b k) b.cutoff_coeff ≡ curve b (suc k)
curve-suc b k = omega (arith, ap (λ (t : ℕ). b.mul_coeff * t) (pow-suc 2 k))

curve_pos : (b : Backoff) (k : ℕ) → IsValid b → 1 ≤ curve b k
curve_pos b zero v = omega arith
curve_pos b (suc k) v = rw (← curve-suc b k) (omega (arith, curve_pos b k v))

run_from :
    (rs : List ℕ) (k j : ℕ) (b : Backoff)
    → IsValid b
    → HasRoom b
    → b.prev_delay ≡ curve b k
    → length rs + k ≡ j
    → run rs (some b) ≡ some (record b { prev_delay = curve b j })
unfolding run get_next_delay
run_from [] k j b v room e l = ground (arith, ap (curve b) l)
run_from (r ∷ rs) k j b v room e l =
    let grown : bounded_delay b ≡ curve b (suc k) =
      next_delay b v room (rw e (curve_pos b k v)) ∙ rw e (curve-suc b k) in
    run_from rs (suc k) j (record b { prev_delay = bounded_delay b })
      (record {
        positive = v.positive;
        ordered = v.ordered;
        word = v.word;
        below_cutoff = omega (arith, grown);
      })
      room grown (omega arith)

init_accepts :
    (old : Backoff) (mul cutoff : ℕ) {b : Backoff}
    → init (some old) mul cutoff ≡ (success, some b)
    → (b.mul_coeff ≡ mul)
      × (b.cutoff_coeff ≡ cutoff)
      × (b.prev_delay ≡ 0)
      × (1 ≤ mul)
      × (mul ≤ cutoff)
unfolding init
init_accepts old mul cutoff e = ground arith

-- After an accepted `backoff_init` whose coefficients leave room for the jitter, the n-th call
-- stores min(mul * 2 ^ (n - 1), cutoff), whatever the draws are.
pub run_closed_form :
    (old : Backoff) (mul cutoff r : ℕ) (rs : List ℕ) {b : Backoff}
    → init (some old) mul cutoff ≡ (success, some b)
    → IsU32 cutoff
    → cutoff + mul ≤ uint32_max
    → run (r ∷ rs) (some b)
      ≡ some (record {
        mul_coeff = mul;
        cutoff_coeff = cutoff;
        prev_delay = min (mul * 2 ^ length rs) cutoff;
      })
unfolding run get_next_delay
run_closed_form old mul cutoff r rs {b} e w room =
    let (m, c, z, lo, hi) = init_accepts old mul cutoff e in
    let v : IsValid b = omega (arith, m, c, z, lo, hi, w) in
    let first : bounded_delay b ≡ b.mul_coeff = first_delay b v z in
    run_from rs 0 (length rs) (record b { prev_delay = bounded_delay b })
      (omega (arith, m, c, z, lo, hi, w, first)) (omega (arith, m, c, room))
      (omega (arith, m, c, first, lo, hi)) (omega arith)
    ∙ cc (m, c)
