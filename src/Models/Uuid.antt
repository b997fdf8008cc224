-- ===== src/Models/Uuid.antt =====
-- The values of uuid.UUID that shared/models.py uses: a UUID is its 128-bit integer, and `str` of it
-- is the text with which packets and their signed bytes name it.
use mesh_settle.Prelude.{ℕ, zero, suc, ◌/◌, ◌%◌, ◌^◌, [], ◌∷◌, ◌++◌, Text}
use mesh_settle.Crypto.Json.{hex_char}

-- `"%0{k}x" % n`, the last `k` hexadecimal digits.
unfoldable pub hex_fixed : ℕ → ℕ → Text
unfolding hex_char
hex_fixed zero n = []
hex_fixed (suc k) n = hex_fixed k (n / 16) ++ hex_char (n % 16) ∷ []

-- `str(uuid)`: groups of 8, 4, 4, 4 and 12 digits.
unfoldable pub uuid_text : ℕ → Text
unfolding hex_fixed
uuid_text n =
    hex_fixed 8 (n / 16 ^ 24)
    ++ b'-'
      ∷ (hex_fixed 4 (n / 16 ^ 20)
          ++ b'-'
            ∷ (hex_fixed 4 (n / 16 ^ 16)
                ++ b'-' ∷ (hex_fixed 4 (n / 16 ^ 12) ++ b'-' ∷ hex_fixed 12 n)))
