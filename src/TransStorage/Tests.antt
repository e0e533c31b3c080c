-- ===== src/TransStorage/Tests.antt =====
-- A queue that wrapped, recovered from its keys, and the theorem applied to it.
use mathlib.Core.List.{Permᴰ}
use astarte_device_sdk_zephy.Prelude.{ℕ, some, true, ◌≡◌, refl, List, [], ◌∷◌, arith}
use astarte_device_sdk_zephy.Result.{Outcome, ok, err, fault, not_found}
use astarte_device_sdk_zephy.TransStorage.{
  KeyIterator, scan, scan_from, wrapped, indexes_of, get_indexes, key_of, padded, strtoul,
  strtoul_from,
}
use astarte_device_sdk_zephy.TransStorage.Windows.{range}
use astarte_device_sdk_zephy.TransStorage.Recovery.{queue_ids, get_indexes_recovers}

-- An iterator is the list of the keys that are left.
abbrev start : List (List ℕ) → Outcome (List (List ℕ))
start [] = err not_found
start (k ∷ ks) = ok (k ∷ ks)

abbrev current : List (List ℕ) → Outcome (List ℕ)
current [] = fault
current (k ∷ ks) = ok k

abbrev advance : List (List ℕ) → Outcome (List (List ℕ))
advance [] = fault
advance (k ∷ ks) = start ks

abbrev key_list : KeyIterator (List (List ℕ)) (List (List ℕ))
key_list = record { iterator_init = start; iterator_get = current; iterator_next = advance }

abbrev ids : List ℕ
ids = 4294967295 ∷ 4294967294 ∷ 0 ∷ 1 ∷ []

abbrev keys : List (List ℕ)
keys = key_of 4294967295 ∷ key_of 4294967294 ∷ key_of 0 ∷ key_of 1 ∷ []

recovers_wrapped :
    get_indexes key_list 4 (some keys) true ≡ ok (record { head = 4294967294; tail = 1 })
unfolding get_indexes scan_from scan padded strtoul strtoul_from indexes_of wrapped
recovers_wrapped = refl

ids_perm : Permᴰ ids (queue_ids 4294967294 4)
unfolding queue_ids range
ids_perm = Permᴰ.swap refl refl

get_indexes_recovers_example :
    get_indexes key_list 4 (some keys) true ≡ ok (record { head = 4294967294; tail = 1 })
get_indexes_recovers_example =
    get_indexes_recovers key_list keys 4294967294 4 4 ids (omega arith) (omega arith) (omega arith)
      ids_perm (omega arith)
      (
        keys,
        refl,
        refl,
        (
          key_of 4294967294 ∷ key_of 0 ∷ key_of 1 ∷ [],
          refl,
          refl,
          (key_of 0 ∷ key_of 1 ∷ [], refl, refl, (key_of 1 ∷ [], refl, refl, refl)),
        ),
      )
      (omega arith)
