-- ===== src/Backoff.antt =====
-- lib/astarte_device_sdk/backoff.c: the exponential backoff with jitter.
-- `sys_rand32_get` is Zephyr's: its result is an argument, and a call uses one draw at most.
pub mod Bounds
pub mod Growth
mod Tests
use astarte_device_sdk_zephy.Prelude.{
  ℕ, ◌+◌, ◌/◌, ◌%◌, Bool, ◌||◌, Option, none, some, List, [], ◌∷◌, ltb, leb, ◌==◌, if◌then◌else◌,
  uint32_max, add32, sub32, mul32,
}

-- `struct backoff_context`
pub record Backoff : Type 0 where
  pub mul_coeff : ℕ
  pub cutoff_coeff : ℕ
  pub prev_delay : ℕ

pub data InitResult : Type 0 where
  success einval : InitResult

-- A NULL context is `none`.
pub init : Option Backoff → ℕ → ℕ → InitResult × Option Backoff
init none mul cutoff = (einval, none)
init (some b) mul cutoff =
    if (mul == 0) || ((cutoff == 0) || ltb cutoff mul)
    then (einval, some b)
    else (success, some (record { mul_coeff = mul; cutoff_coeff = cutoff; prev_delay = 0 }))

-- `max_milliseconds - mul_coeff`
abbrev pub max_allowed : ℕ → ℕ
max_allowed mul = sub32 uint32_max mul

-- The delay before the cutoff.
pub raw_delay : Backoff → ℕ
raw_delay b =
    if b.prev_delay == 0
    then b.mul_coeff
    else if leb b.prev_delay (max_allowed b.mul_coeff / 2)
    then mul32 2 b.prev_delay
    else max_allowed b.mul_coeff

-- `MIN(delay, backoff->cutoff_coeff)`
pub bounded_delay : Backoff → ℕ
unfolding raw_delay
bounded_delay b = if ltb (raw_delay b) b.cutoff_coeff then raw_delay b else b.cutoff_coeff

pub lower_bound : ℕ → ℕ → ℕ
lower_bound mul bounded = if ltb mul bounded then sub32 bounded mul else 0

pub upper_bound : ℕ → ℕ → ℕ
upper_bound mul bounded = if ltb bounded (max_allowed mul) then add32 bounded mul else uint32_max

-- A draw confined to the range from `lower` to `upper`.
pub jittered : ℕ → ℕ → ℕ → ℕ → ℕ
jittered lower upper bounded random =
    let range : ℕ = sub32 upper lower in
    if range == uint32_max
    then random
    else if ltb 0 range
    then add32 lower (random % add32 range 1)
    else bounded

pub get_next_delay : ℕ → Option Backoff → ℕ × Option Backoff
get_next_delay random none = (0, none)
get_next_delay random (some b) =
    let bounded = bounded_delay b in
    (
      jittered (lower_bound b.mul_coeff bounded) (upper_bound b.mul_coeff bounded) bounded random,
      some (record b { prev_delay = bounded }),
    )

pub reset : Option Backoff → Option Backoff
reset none = none
reset (some b) = some (record b { prev_delay = 0 })

-- The context after one call of `get_next_delay` for each draw of the list.
pub run : List ℕ → Option Backoff → Option Backoff
run [] b = b
run (r ∷ rs) b = run rs (get_next_delay r b).1
