-- ===== src/Backoff/Bounds.antt =====
-- The delays that `backoff_get_next_delay` computes: their range, and their closed form.
use astarte_device_sdk_zephy.Prelude.{ℕ, ◌+◌, ◌-◌, ◌≤◌, ◌≡◌, some, arith, IsU32, sub32, refl}
use native.Mathlib.Nat.{mod-lt}
use astarte_device_sdk_zephy.Backoff.{
  Backoff, bounded_delay, lower_bound, upper_bound, jittered, get_next_delay,
}

-- What `backoff_init` establishes and every later call keeps.
pub record IsValid (b : Backoff) : Type 0 where
  pub positive : 1 ≤ b.mul_coeff
  pub ordered : b.mul_coeff ≤ b.cutoff_coeff
  pub word : IsU32 b.cutoff_coeff
  pub below_cutoff : b.prev_delay ≤ b.cutoff_coeff

jittered_window :
    (lower upper p r : ℕ)
    → lower ≤ p
    → p ≤ upper
    → IsU32 upper
    → IsU32 r
    → (lower ≤ jittered lower upper p r) × (jittered lower upper p r ≤ upper)
unfolding jittered
jittered_window lower upper p r hl hu hw hr =
    ground (arith, mod-lt r {m = upper - lower + 1} (omega arith), small)
  where
    small : sub32 upper lower ≡ upper - lower
    small = omega arith

lower_window : (mul p : ℕ) → IsU32 p → (lower_bound mul p ≤ p) × (p ≤ lower_bound mul p + mul)
unfolding lower_bound
lower_window mul p h = ground arith

upper_window :
    (mul p : ℕ)
    → IsU32 mul
    → IsU32 p
    → (p ≤ upper_bound mul p) × (upper_bound mul p ≤ p + mul) × IsU32 (upper_bound mul p)
unfolding upper_bound
upper_window mul p hm hp = ground arith

bounded-le_cutoff : (b : Backoff) → bounded_delay b ≤ b.cutoff_coeff
unfolding bounded_delay
bounded-le_cutoff b = ground arith

-- The delay of a call that finds a valid context: it stays within `mul_coeff` of the stored delay, it
-- is a 32-bit number, and the stored delay keeps the context valid.
pub get_next_delay_window :
    (b : Backoff) (random : ℕ)
    → IsValid b
    → IsU32 random
    → let (delay, after) = get_next_delay random (some b) in
      (b' : Backoff) × (after ≡ some b')
      × IsValid b'
      × (b'.prev_delay ≤ delay + b.mul_coeff)
      × (delay ≤ b'.prev_delay + b.mul_coeff)
      × IsU32 delay
unfolding get_next_delay
get_next_delay_window b random v hr = (
  record b { prev_delay = p },
  refl,
  ground (arith, below),
  ground (arith, low, window),
  ground (arith, high, window),
  ground (arith, high, window),
)
  where
    p : ℕ
    p = bounded_delay b

    below : p ≤ b.cutoff_coeff
    below = bounded-le_cutoff b

    low : (lower_bound b.mul_coeff p ≤ p) × (p ≤ lower_bound b.mul_coeff p + b.mul_coeff)
    low = lower_window b.mul_coeff p (omega (arith, below))

    high :
        (p ≤ upper_bound b.mul_coeff p)
        × (upper_bound b.mul_coeff p ≤ p + b.mul_coeff)
        × IsU32 (upper_bound b.mul_coeff p)
    high = upper_window b.mul_coeff p (omega arith) (omega (arith, below))

    window :
        (lower_bound b.mul_coeff p
          ≤ jittered (lower_bound b.mul_coeff p) (upper_bound b.mul_coeff p) p random)
        × (jittered (lower_bound b.mul_coeff p) (upper_bound b.mul_coeff p) p random
            ≤ upper_bound b.mul_coeff p)
    window = jittered_window _ _ p random (low.0) (high.0) (high.2) hr
