-- ===== src/Mapping/Path.antt =====
-- Which paths are accepted for an endpoint, described on the segments of both.
use astarte_device_sdk_zephy.Prelude.{
  ℕ, zero, suc, ◌≤◌, ◌≡◌, ◌≢◌, ◌↔◌, ◌⊎◌, inl, inr, refl, ap, Bool, true, false, not, List, [], ◌∷◌,
  length, ltb, ◌==◌, if◌then◌else◌, arith,
}
use astarte_device_sdk_zephy.Result.{Status, ok, err, mapping_path_mismatch}
use astarte_device_sdk_zephy.Bson.Serializer.Format.{All}
use astarte_device_sdk_zephy.Mapping.{
  Mapping, segment, after_segment, last_is, has_wildcard, same_bytes, is_parameter,
  check_path_segment, check_segments, check_first, check_path,
}

abbrev prepend : ℕ → List (List ℕ) → List (List ℕ)
prepend c [] = (c ∷ []) ∷ []
prepend c (s ∷ ss) = (c ∷ s) ∷ ss

-- The segments of a text, each up to a slash or the end.
unfoldable pub pieces : List ℕ → List (List ℕ)
pieces [] = []
pieces (c ∷ cs) = if c == b'/' then [] ∷ pieces cs else prepend c (pieces cs)

-- A segment of a path for a segment of an endpoint: the same, or for a parameter any text that is
-- not empty and has no MQTT wildcard.
abbrev pub Fits : List ℕ → List ℕ → Type 0
Fits e p =
    (is_parameter e ≡ false) × (e ≡ p)
    ⊎ (is_parameter e ≡ true) × (1 ≤ length p) × All (λ c. (c ≢ b'#') × (c ≢ b'+')) p

abbrev pub AllFit : List (List ℕ) → List (List ℕ) → Type 0
AllFit [] [] = Unit
AllFit [] (p ∷ ps) = ⊥
AllFit (e ∷ es) [] = ⊥
AllFit (e ∷ es) (p ∷ ps) = Fits e p × AllFit es ps

pieces-segment :
    (c : ℕ) (cs : List ℕ) → pieces (c ∷ cs) ≡ segment (c ∷ cs) ∷ pieces (after_segment (c ∷ cs))
unfolding pieces segment after_segment
pieces-segment c [] = ground arith
pieces-segment c (d ∷ cs) = ground (arith, pieces-segment d cs)

pub same_bytes_iff : (xs ys : List ℕ) → (same_bytes xs ys ≡ true) ↔ (xs ≡ ys)
unfolding same_bytes
same_bytes_iff [] [] = (λ _. refl, λ _. refl)
same_bytes_iff [] (y ∷ ys) = (λ h. cc, λ h. cc)
same_bytes_iff (x ∷ xs) [] = (λ h. cc, λ h. cc)
same_bytes_iff (x ∷ xs) (y ∷ ys) = ground (arith, same_bytes_iff xs ys)

has_wildcard_iff : (p : List ℕ) → (has_wildcard p ≡ false) ↔ All (λ c. (c ≢ b'#') × (c ≢ b'+')) p
unfolding has_wildcard
has_wildcard_iff [] = (λ _. tt, λ _. refl)
has_wildcard_iff (c ∷ p) = ground (arith, has_wildcard_iff p)

check_path_segment_iff : (e p : List ℕ) → (check_path_segment e p ≡ true) ↔ Fits e p
unfolding check_path_segment
check_path_segment_iff e p = ground (arith, same_bytes_iff e p, has_wildcard_iff p, eq)
  where
    eq : e ≡ p → length e ≡ length p
    eq h = ap length h

length-after_segment : (c : ℕ) (cs : List ℕ) → length (after_segment (c ∷ cs)) ≤ length cs
unfolding after_segment
length-after_segment c [] = ground arith
length-after_segment c (d ∷ cs) = ground (arith, length-after_segment d cs)

-- What a test of the path answers, against the description of the accepted ones.
abbrev Decides : Status → Type 0 → Type 0
Decides r X = (r ≡ ok tt) × X ⊎ (r ≡ err mapping_path_mismatch) × (X → ⊥)

round :
    (b : Bool) (rest : Status) (X Y : Type 0)
    → (b ≡ true) ↔ X
    → Decides rest Y
    → Decides (if not b then err mapping_path_mismatch else rest) (X × Y)
round true rest X Y h (inl (e, y)) = inl (e, (h.0 refl, y))
round true rest X Y h (inr (e, n)) = inr (e, λ k. n k.1)
round false rest X Y h d = inr (refl, λ k. let bad : false ≡ true = h.1 k.0 in cc)

-- The loop accepts exactly the texts whose segments fit, and ends.
check_segments-Decides :
    (fuel : ℕ) (e p : List ℕ)
    → length p ≤ fuel
    → Decides (check_segments fuel e p) (AllFit (pieces e) (pieces p))
unfolding check_segments
check_segments-Decides fuel [] [] h = inl (refl, unfold pieces in tt)
check_segments-Decides fuel [] (p ∷ ps) h =
    inr (refl, rw (pieces-segment p ps) (unfold pieces in λ k. k))
check_segments-Decides fuel (e ∷ es) [] h =
    inr (refl, rw (pieces-segment e es) (unfold pieces in λ k. k))
check_segments-Decides zero (e ∷ es) (p ∷ ps) h = absurd (omega arith)
check_segments-Decides (suc fuel) (e ∷ es) (p ∷ ps) h =
    rw (pieces-segment e es, pieces-segment p ps)
      (round (check_path_segment (segment (e ∷ es)) (segment (p ∷ ps))) _ _ _
        (check_path_segment_iff _ _)
        (check_segments-Decides fuel (after_segment (e ∷ es)) (after_segment (p ∷ ps))
          (omega (arith, length-after_segment p ps))))

-- A path for an endpoint: two characters at least, no slash at the end, the first character of the
-- endpoint, and then segments that fit those of the endpoint.
abbrev pub IsInstance : List ℕ → List ℕ → Type 0
IsInstance [] path = ⊥
IsInstance (e ∷ endpoint) [] = ⊥
IsInstance (e ∷ endpoint) (p ∷ path) =
    (1 ≤ length path)
    × (last_is b'/' (p ∷ path) ≡ false)
    × (e ≡ p)
    × AllFit (pieces endpoint) (pieces path)

-- `astarte_mapping_check_path` ends for every endpoint and path: it accepts exactly the paths of
-- two characters at least that do not end in a slash, start like the endpoint, and fit it segment
-- by segment, and answers MAPPING_PATH_MISMATCH for all others.
pub check_path_decides :
    (mapping : Mapping) (path : List ℕ)
    → (check_path mapping path ≡ ok tt) × IsInstance mapping.endpoint path
      ⊎ (check_path mapping path ≡ err mapping_path_mismatch)
        × (IsInstance mapping.endpoint path → ⊥)
unfolding check_path check_first
check_path_decides mapping path = decide mapping.endpoint path
  where
    decide :
        (endpoint path : List ℕ)
        → Decides
            (if ltb (length path) 2
              then err mapping_path_mismatch
              else if last_is b'/' path
              then err mapping_path_mismatch
              else check_first endpoint path)
            (IsInstance endpoint path)
    decide [] [] = inr (refl, λ k. k)
    decide [] (p ∷ path) = ground arith
    decide (e ∷ endpoint) [] = inr (refl, λ k. k)
    decide (e ∷ endpoint) (p ∷ path) =
        ground (arith, check_segments-Decides (length path) endpoint path (omega arith))
