-- ===== src/Bson/ByteOrder.antt =====
-- What the BSON sources take from Zephyr's `sys/byteorder.h`, as an interface: little-endian reads
-- (`sys_get_le32`, `sys_get_le64`), and the bytes in memory of `sys_cpu_to_le32`, `sys_cpu_to_le64`.
use astarte_device_sdk_zephy.Prelude.{
  ℕ, ◌+◌, ◌*◌, ◌/◌, ◌%◌, ◌≡◌, List, [], ◌∷◌, length, arith, IsU32, ap, ◌∙◌,
}

pub record ByteOrder : Type 0 where
  pub get_le32 : List ℕ → ℕ
  pub get_le64 : List ℕ → ℕ
  pub put_le32 : ℕ → List ℕ
  pub put_le64 : ℕ → List ℕ
  pub get_le32_lem :
      (a b c d : ℕ) → get_le32 (a ∷ b ∷ c ∷ d ∷ []) ≡ a + 256 * b + 65536 * c + 16777216 * d
  pub get_le64_lem :
      (a b c d e f g h : ℕ)
      → get_le64 (a ∷ b ∷ c ∷ d ∷ e ∷ f ∷ g ∷ h ∷ [])
        ≡ a
          + 256 * b
          + 65536 * c
          + 16777216 * d
          + 4294967296 * (e + 256 * f + 65536 * g + 16777216 * h)
  pub put_le32_lem :
      (x : ℕ)
      → put_le32 x ≡ (x % 256) ∷ (x / 256 % 256) ∷ (x / 65536 % 256) ∷ (x / 16777216 % 256) ∷ []
  pub put_le64_lem :
      (x : ℕ)
      → put_le64 x
        ≡ (x % 256)
          ∷ (x / 256 % 256)
          ∷ (x / 65536 % 256)
          ∷ (x / 16777216 % 256)
          ∷ (x / 4294967296 % 256)
          ∷ (x / 1099511627776 % 256)
          ∷ (x / 281474976710656 % 256)
          ∷ (x / 72057594037927936 % 256)
          ∷ []

module _ (bo : ByteOrder) where
  pub get-put_le32 : (x : ℕ) → IsU32 x → bo.get_le32 (bo.put_le32 x) ≡ x
  get-put_le32 x h =
      ap bo.get_le32 (bo.put_le32_lem x)
      ∙ bo.get_le32_lem (x % 256) (x / 256 % 256) (x / 65536 % 256) (x / 16777216 % 256)
      ∙ omega arith

  pub length-put_le32 : (x : ℕ) → length (bo.put_le32 x) ≡ 4
  length-put_le32 x = ap length (bo.put_le32_lem x)

  pub length-put_le64 : (x : ℕ) → length (bo.put_le64 x) ≡ 8
  length-put_le64 x = ap length (bo.put_le64_lem x)
