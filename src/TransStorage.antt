-- ===== src/TransStorage.antt =====
-- lib/astarte_device_sdk/storage/trans.c: where the queue of stored messages begins and ends. The
-- iterator of key_value/ is an interface here.
pub mod Message
pub mod Format
pub mod RoundTrip
pub mod Truncated
pub mod Access
pub mod Windows
pub mod Recovery
mod Tests
mod AccessTests
use Prim.Native.Nat.{min}
use astarte_device_sdk_zephy.Prelude.{
  ℕ, zero, suc, ◌+◌, ◌-◌, ◌*◌, ◌/◌, ◌%◌, Bool, true, false, ◌&&◌, not, Option, none, some, List, [],
  ◌∷◌, ◌++◌, ltb, leb, ◌==◌, if◌then◌else◌, uint32_max, add32, add64, sub64, mul64,
}
use astarte_device_sdk_zephy.Result.{
  Outcome, ok, err, fault, stuck, ◌>>=◌, not_found, invalid_param,
}

-- `astarte_key_value_iterator_init`, `_get` and `_next` on the namespace of the transmission.
pub record KeyIterator (S : Type 0) (I : Type 0) : Type 0 where
  pub iterator_init : S → Outcome I
  pub iterator_get : I → Outcome (List ℕ)
  pub iterator_next : I → Outcome I

-- `astarte_storage_transmission_indexes_t`
pub record Indexes : Type 0 where
  pub head : ℕ
  pub tail : ℕ

-- The local variables of `get_indexes`.
pub record Scan : Type 0 where
  pub min_id : ℕ
  pub max_id : ℕ
  pub sum_id : ℕ
  pub element_count : ℕ
  pub found_any : Bool

abbrev pub scan_start : Scan
scan_start = record {
  min_id = uint32_max;
  max_id = 0;
  sum_id = 0;
  element_count = 0;
  found_any = false;
}

-- `snprintf("%010u")`
unfoldable pub padded : ℕ → ℕ → List ℕ
padded zero n = []
padded (suc width) n = padded width (n / 10) ++ ((n % 10 + b'0') ∷ [])

abbrev pub key_of : ℕ → List ℕ
key_of id = padded 10 id

-- The digits that `strtoul` reads, and what it makes of them: ULONG_MAX where they exceed it.
pub strtoul_from : ℕ → List ℕ → ℕ
strtoul_from value [] = value
strtoul_from value (c ∷ cs) =
    let rest = strtoul_from (10 * value + (c - b'0')) cs in
    if leb b'0' c && leb c b'9' then rest else value

pub strtoul : List ℕ → ℕ
strtoul text = min (strtoul_from 0 text) uint32_max

-- One round of the loop.
pub scan : Scan → ℕ → Scan
scan s id = record {
  min_id = if ltb id s.min_id then id else s.min_id;
  max_id = if ltb s.max_id id then id else s.max_id;
  sum_id = add64 s.sum_id id;
  element_count = add32 s.element_count 1;
  found_any = true;
}

-- The sum of all identifiers less those present, divided by the number of those missing.
pub wrapped : Scan → Indexes
wrapped s =
    let sum_total : ℕ = mul64 uint32_max (add64 uint32_max 1) / 2 in
    let sum_missing : ℕ = sub64 sum_total s.sum_id in
    let missing : ℕ = sub64 (add64 uint32_max 1) s.element_count in
    let sum_ht : ℕ = mul64 2 sum_missing / missing in
    let diff_ht : ℕ = add64 missing 1 in
    record {
      head = (add64 sum_ht diff_ht / 2) % 4294967296;
      tail = (sub64 sum_ht diff_ht / 2) % 4294967296;
    }

-- What follows the loop.
pub indexes_of : Scan → Indexes
indexes_of s =
    if s.found_any
    then (if add64 (sub64 s.max_id s.min_id) 1 == s.element_count
        then record { head = s.min_id; tail = s.max_id }
        else wrapped s)
    else record { head = 1; tail = 0 }

module _ {S I : Type 0} (it : KeyIterator S I) where
  -- The `while` loop, from what the last call of the iterator returned; each round takes a key.
  pub scan_from : ℕ → Outcome I → Scan → Outcome Scan
  scan_from fuel (err not_found) s = ok s
  scan_from fuel (err c) s = err c
  scan_from fuel fault s = fault
  scan_from fuel stuck s = stuck
  scan_from zero (ok iter) s = stuck
  scan_from (suc fuel) (ok iter) s = do
    key ← it.iterator_get iter
    scan_from fuel (it.iterator_next iter) (scan s (strtoul key % 4294967296))

  -- `astarte_storage_transmission_get_indexes`; a storage that is NULL or not initialized is none,
  -- `given` is false for a NULL `indexes`, and `keys` bounds the number of keys in the namespace.
  pub get_indexes : ℕ → Option S → Bool → Outcome Indexes
  get_indexes keys none given = err invalid_param
  get_indexes keys (some storage) given =
      if not given
      then err invalid_param
      else scan_from keys (it.iterator_init storage) scan_start >>= λ s. ok (indexes_of s)
