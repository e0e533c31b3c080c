-- ===== src/TransStorage/AccessTests.antt =====
-- A stored message.
use astarte_device_sdk_zephy.Prelude.{
  ℕ, ◌+◌, ◌≡◌, refl, ◌⊎◌, inr, true, some, List, [], ◌∷◌, length, arith,
}
use astarte_device_sdk_zephy.Result.{ok, ◌>>=◌}
use astarte_device_sdk_zephy.TransStorage.Message.{StoredMsg}
use astarte_device_sdk_zephy.TransStorage.Format.{serialized, parsed, number_of, field_at}
use astarte_device_sdk_zephy.TransStorage.RoundTrip.{IsStorable, parsed-serialized}
use astarte_device_sdk_zephy.TransStorage.Truncated.{told_size, IsRefused, IsRead, parsed_decides}

abbrev org : List ℕ
org = b'o' ∷ b'r' ∷ b'g' ∷ []

abbrev path : List ℕ
path = b'/' ∷ b'v' ∷ []

abbrev message : StoredMsg
message = record {
  interface_name = some org;
  path = some path;
  payload = some (0 ∷ 7 ∷ []);
  payload_len = 2;
  qos = 2;
  timestamp = 1767225601000;
  sequence_number = 9;
}

message-IsStorable : IsStorable message
message-IsStorable = record {
  name = org;
  path = path;
  bytes = 0 ∷ 7 ∷ [];
  named = refl;
  at_path = refl;
  with_payload = inr (omega arith, refl);
  whole = refl;
  name_text = (refl, (refl, (refl, tt)));
  path_text = (refl, (refl, tt));
  small = omega arith;
  qos_word = omega arith;
  timestamp_word = omega arith;
  number_word = omega arith;
}

parsed-serialized_example :
    (serialized message org path (32 + length org + length path + 2) >>= parsed (λ n. true))
    ≡ ok message
unfolding message-IsStorable
parsed-serialized_example = parsed-serialized message message-IsStorable (λ n. true) (λ n p h. refl)

-- A message with a name of 3 bytes, a path of 2 and a payload of 2 whose last byte is missing.
abbrev cut : List ℕ
cut =
    2 ∷ 0 ∷ 0 ∷ 0 ∷ 0 ∷ 0 ∷ 0 ∷ 0 ∷ 0 ∷ 0 ∷ 0 ∷ 0 ∷ 9 ∷ 0 ∷ 0 ∷ 0 ∷ 0 ∷ 0 ∷ 0 ∷ 0 ∷ 3 ∷ 0 ∷ 0 ∷ 0
    ∷ 2 ∷ 0 ∷ 0 ∷ 0 ∷ 2 ∷ 0 ∷ 0 ∷ 0 ∷ b'o' ∷ b'r' ∷ b'g' ∷ b'/' ∷ b'v' ∷ 7 ∷ []

cut_size : told_size cut ≡ 39
unfolding field_at number_of
cut_size = refl

parsed_decides_example : IsRefused (λ n. true) cut ⊎ IsRead (λ n. true) cut
parsed_decides_example = parsed_decides (λ n. true) (λ n p h. refl) cut (omega (arith, cut_size))
