-- ===== src/Introspection/Text.antt =====
-- The size that the introspection string is given.
use Prim.Native.Nat.{min, max}
use native.Mathlib.Nat.{pow-suc}
use astarte_device_sdk_zephy.Prelude.{
  ℕ, zero, suc, ◌+◌, ◌/◌, ◌^◌, ◌≤◌, ◌<◌, ◌≡◌, List, [], ◌∷◌, ◌++◌, length, length-append, ◌%◌,
  Bool-cases, inl, inr, ltb, arith, IsU32, uint32_max, add32,
}
use astarte_device_sdk_zephy.Bson.Serializer.{decimal}
use astarte_device_sdk_zephy.Bson.Serializer.Format.{All}
use astarte_device_sdk_zephy.Interface.{Interface}
use astarte_device_sdk_zephy.Introspection.Nodes.{Dlist}
use astarte_device_sdk_zephy.Introspection.{
  name_max_size, digits_from, get_digit_count, size_from, entry_text, get_string_size,
}

-- The interfaces as `name:major:minor;` one after the other.
unfoldable pub text : List Interface → List ℕ
text [] = []
text (x ∷ xs) = entry_text x ++ text xs

-- A name of at most 128 characters, and versions of 32 bits.
abbrev pub Announceable : Interface → Type 0
Announceable x = (length x.name ≤ name_max_size) × IsU32 x.major_version × IsU32 x.minor_version

decimal_small : (fuel n : ℕ) → n < 10 → length (decimal (suc fuel) n) ≡ 1
unfolding decimal
decimal_small fuel n h = ground arith

decimal_large :
    (fuel n : ℕ) → 10 ≤ n → length (decimal (suc fuel) n) ≡ length (decimal fuel (n / 10)) + 1
unfolding decimal
decimal_large fuel n h =
    ground (arith, length-append (decimal fuel (n / 10)) ((n % 10 + b'0') ∷ []))

digits_small : (fuel n count : ℕ) → n < 10 → digits_from (suc fuel) n count ≡ count
unfolding digits_from
digits_small fuel n count h = ground arith

digits_large :
    (fuel n count : ℕ)
    → 10 ≤ n
    → digits_from (suc fuel) n count ≡ digits_from fuel (n / 10) (count + 1)
unfolding digits_from
digits_large fuel n count h = ground arith

digits_from_lem :
    (fuel num count : ℕ)
    → num < 10 ^ suc fuel
    → digits_from (suc fuel) num count + 1 ≡ count + length (decimal (suc fuel) num)
digits_from_lem zero num count h = omega (arith, decimal_small 0 num h, digits_small 0 num count h)
digits_from_lem (suc fuel) num count h = elim (Bool-cases (ltb num 10)) [
  | inl t ↦
      let small : num < 10 = ground arith in
      omega (arith, decimal_small (suc fuel) num small, digits_small (suc fuel) num count small)
  | inr f ↦
      let large : 10 ≤ num = ground arith in
      omega (
        arith,
        decimal_large (suc fuel) num large,
        digits_large (suc fuel) num count large,
        digits_from_lem fuel (num / 10) (count + 1) (omega (arith, pow-suc 10 (suc fuel))),
      )
]

-- `get_digit_count` counts the digits that `%u` prints.
pub get_digit_count-decimal : (num : ℕ) → IsU32 num → get_digit_count num ≡ length (decimal 10 num)
unfolding get_digit_count
get_digit_count-decimal num h = omega (arith, digits_from_lem 9 num 1 (omega arith))

pub length-entry_text :
    (x : Interface)
    → Announceable x
    → length (entry_text x)
      ≡ min (length x.name) name_max_size
        + get_digit_count x.major_version
        + get_digit_count x.minor_version
        + 3
length-entry_text x a = omega (
  arith,
  length-append x.name
      (b':' ∷ (decimal 10 x.major_version ++ (b':' ∷ (decimal 10 x.minor_version ++ (b';' ∷ []))))),
  length-append (decimal 10 x.major_version) (b':' ∷ (decimal 10 x.minor_version ++ (b';' ∷ []))),
  length-append (decimal 10 x.minor_version) (b';' ∷ []),
  get_digit_count-decimal x.major_version a.1,
  get_digit_count-decimal x.minor_version a.2,
)

size_from-text :
    (xs : List Interface) (len : ℕ)
    → All Announceable xs
    → len + length (text xs) ≤ uint32_max
    → size_from xs len ≡ len + length (text xs)
unfolding size_from text
size_from-text [] len a h = omega arith
size_from-text (x ∷ xs) len a h =
    let joined : length (entry_text x ++ text xs) ≡ length (entry_text x) + length (text xs) =
      length-append (entry_text x) (text xs) in
    let here : add32 len (
          min (length x.name) name_max_size
          + get_digit_count x.major_version
          + get_digit_count x.minor_version
          + 3)
        ≡ len + length (entry_text x) =
      omega (arith, length-entry_text x a.0, joined) in
    rw here (
      omega (
        arith,
        size_from-text xs (len + length (entry_text x)) a.1 (omega (arith, joined)),
        joined,
      ))

-- The size is that of the text, or 1 where there is no interface.
pub get_string_size-text :
    {L : Type 0} (dl : Dlist L Interface) (l : L)
    → All Announceable (dl.nodes l)
    → length (text (dl.nodes l)) ≤ uint32_max
    → get_string_size dl l ≡ max 1 (length (text (dl.nodes l)))
unfolding get_string_size
get_string_size-text dl l a h = omega (arith, size_from-text (dl.nodes l) 0 a (omega arith))
