-- ===== src/TransStorage/Format.antt =====
-- lib/astarte_device_sdk/storage/trans.c: the bytes of a stored message. `memcpy` of a number copies
-- its bytes in memory, the least significant first; `int` and `size_t` have 32 bits.
use astarte_device_sdk_zephy.Prelude.{
  ℕ, zero, suc, ◌+◌, ◌*◌, ◌/◌, ◌%◌, Bool, not, Option, none, some, List, [], ◌∷◌, ◌++◌, length,
  take, drop, ltb, leb, ◌==◌, if◌then◌else◌, add32,
}
use astarte_device_sdk_zephy.Result.{Outcome, ok, err, fault, ◌>>=◌, internal_error, out_of_memory}
use astarte_device_sdk_zephy.TransStorage.Message.{StoredMsg}

-- A number of so many bytes.
unfoldable pub bytes_of : ℕ → ℕ → List ℕ
bytes_of zero n = []
bytes_of (suc width) n = (n % 256) ∷ bytes_of width (n / 256)

unfoldable pub number_of : List ℕ → ℕ
number_of [] = 0
number_of (b ∷ bs) = b + 256 * number_of bs

-- The text of a string whose block holds these bytes and a terminator.
unfoldable pub until_nul : List ℕ → List ℕ
until_nul [] = []
until_nul (c ∷ cs) = if c == 0 then [] else c ∷ until_nul cs

-- The bytes before the strings.
abbrev pub static_fields_size : ℕ
static_fields_size = 32

unfoldable pub static_fields : StoredMsg → ℕ → ℕ → List ℕ
static_fields msg interface_name_len path_len =
    bytes_of 4 msg.qos
    ++ (bytes_of 8 msg.timestamp
        ++ (bytes_of 8 msg.sequence_number
            ++ (bytes_of 4 interface_name_len
                ++ (bytes_of 4 path_len ++ bytes_of 4 msg.payload_len))))

-- `payload_len` bytes of the payload; reading more than its block has is a fault.
unfoldable pub payload_bytes : Option (List ℕ) → ℕ → Outcome (List ℕ)
payload_bytes none payload_len = ok []
payload_bytes (some payload) payload_len =
    if leb payload_len (length payload) then ok (take payload_len payload) else fault

-- What `push` writes into a buffer of `buffer_size` bytes; a write past its end is a fault.
unfoldable pub serialized : StoredMsg → List ℕ → List ℕ → ℕ → Outcome (List ℕ)
serialized msg interface_name path buffer_size = do
  payload ← payload_bytes msg.payload msg.payload_len
  let bytes =
        static_fields msg (length interface_name) (length path)
        ++ (interface_name ++ (path ++ payload)) in
      if length bytes == buffer_size then ok bytes else fault

-- `memcpy` of a field out of the buffer.
unfoldable pub field_at : List ℕ → ℕ → ℕ → ℕ
field_at buffer offset width = number_of (take width (drop offset buffer))

-- `extract_string`; `grant n` tells whether there is a block of `n` bytes.
unfoldable pub extract_string : (ℕ → Bool) → List ℕ → ℕ → ℕ → Outcome (Option (List ℕ))
extract_string grant buffer offset str_len =
    if ltb (length buffer) (add32 offset str_len)
    then err internal_error
    else if not (grant (add32 str_len 1))
    then err out_of_memory
    else if leb (offset + str_len) (length buffer)
    then ok (some (until_nul (take str_len (drop offset buffer))))
    else fault

-- `extract_payload`
unfoldable pub extract_payload : (ℕ → Bool) → List ℕ → ℕ → ℕ → Outcome (Option (List ℕ))
extract_payload grant buffer offset payload_len =
    if leb 2147483648 payload_len
    then err internal_error
    else if payload_len == 0
    then ok none
    else if ltb (length buffer) (add32 offset payload_len)
    then err internal_error
    else if not (grant payload_len)
    then err out_of_memory
    else if leb (offset + payload_len) (length buffer)
    then ok (some (take payload_len (drop offset buffer)))
    else fault

-- The second half of `peek`, on the buffer that was read.
unfoldable pub parsed : (ℕ → Bool) → List ℕ → Outcome StoredMsg
parsed grant buffer =
    let interface_name_len = field_at buffer 20 4 in
    let path_len = field_at buffer 24 4 in
    let payload_len = field_at buffer 28 4 in
    if ltb (length buffer) static_fields_size
    then err internal_error
    else (extract_string grant buffer 32 interface_name_len >>= λ interface_name.
        extract_string grant buffer (add32 32 interface_name_len) path_len >>= λ path.
        extract_payload grant buffer (add32 (add32 32 interface_name_len) path_len) payload_len
        >>= λ payload. ok (record {
          interface_name = interface_name;
          path = path;
          payload = payload;
          payload_len = payload_len;
          qos = field_at buffer 0 4;
          timestamp = field_at buffer 4 8;
          sequence_number = field_at buffer 12 8;
        }))
