-- ===== src/Worker/Pacing.antt =====
-- The tokens that pace the transmission.
use astarte_device_sdk_zephy.Prelude.{ℕ, ◌+◌, ◌*◌, ◌≤◌, ◌<◌, ◌≡◌, ◌⊎◌, arith}
use astarte_device_sdk_zephy.Worker.{max_tokens, token_value_ms, refill_transmission_tokens}

-- From (tokens, last_refill) to the refilled ones.
abbrev pub IsPaced : ℕ → ℕ × ℕ → ℕ × ℕ → Type 0
IsPaced now (tokens, last_refill) (new_tokens, new_refill) =
    ((tokens ≤ new_tokens) × (new_tokens ≤ max_tokens))
    × (((last_refill ≤ new_refill) × ((new_refill ≤ now) × (now < new_refill + token_value_ms)))
        × ((new_tokens * token_value_ms + last_refill ≡ tokens * token_value_ms + new_refill)
            ⊎ ((new_tokens ≡ max_tokens)
                × (max_tokens * token_value_ms + last_refill
                    < tokens * token_value_ms + new_refill))))

-- From at most 10 tokens and a time of the last refill that has passed, a refill leaves at least
-- the tokens there were and at most 10, and a time of the last refill that has passed by less than
-- 20 ms; the new tokens are one for each 20 ms between the two times, or there are 10 and the time
-- was enough for more.
pub refill_transmission_tokens-IsPaced :
    (now tokens last_refill : ℕ)
    → tokens ≤ max_tokens
    → last_refill ≤ now
    → IsPaced now (tokens, last_refill) (refill_transmission_tokens now (tokens, last_refill))
unfolding refill_transmission_tokens
refill_transmission_tokens-IsPaced now tokens last_refill h p = ground arith
