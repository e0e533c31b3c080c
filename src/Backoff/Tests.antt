-- ===== src/Backoff/Tests.antt =====
-- Runs of the backoff on fixed inputs, and the theorems applied to them.
use astarte_device_sdk_zephy.Prelude.{◌+◌, ◌≤◌, ◌≡◌, refl, some, [], ◌∷◌, arith, IsU32}
use astarte_device_sdk_zephy.Backoff.{
  Backoff, init, get_next_delay, bounded_delay, raw_delay, lower_bound, upper_bound, jittered, run,
}
use astarte_device_sdk_zephy.Backoff.Bounds.{IsValid, get_next_delay_window}
use astarte_device_sdk_zephy.Backoff.Growth.{run_closed_form}

abbrev fresh : Backoff
fresh = record { mul_coeff = 60000; cutoff_coeff = 1080000; prev_delay = 0 }

abbrev second : Backoff
second = record { mul_coeff = 60000; cutoff_coeff = 1080000; prev_delay = 60000 }

second_delay :
    get_next_delay 5 (some second) ≡ (60005, some (record second { prev_delay = 120000 }))
unfolding get_next_delay bounded_delay raw_delay lower_bound upper_bound jittered
second_delay = refl

run_closed_form_example :
    run (1 ∷ 2 ∷ 3 ∷ []) (some fresh)
    ≡ some (record { mul_coeff = 60000; cutoff_coeff = 1080000; prev_delay = 240000 })
unfolding init
run_closed_form_example =
    run_closed_form fresh 60000 1080000 1 (2 ∷ 3 ∷ []) refl (omega arith) (omega arith)

get_next_delay_window_example :
    (b' : Backoff) × ((get_next_delay 5 (some second)).1 ≡ some b')
    × IsValid b'
    × (b'.prev_delay ≤ (get_next_delay 5 (some second)).0 + 60000)
    × ((get_next_delay 5 (some second)).0 ≤ b'.prev_delay + 60000)
    × IsU32 ((get_next_delay 5 (some second)).0)
get_next_delay_window_example = get_next_delay_window second 5 (omega arith) (omega arith)
