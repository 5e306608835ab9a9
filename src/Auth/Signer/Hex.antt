-- ===== src/Auth/Signer/Hex.antt =====
-- The hexadecimal text gives the bytes of the digest back.
use bintrade.Prelude.{
  ℕ, ◌+◌, ◌-◌, ◌*◌, ◌/◌, ◌%◌, ◌<◌, ◌≡◌, refl, ltb, List, [], ◌∷◌, Text, if◌then◌else◌, arith, All,
}
use bintrade.Auth.Signer.{hex_digit, hex_text}

digit_value : ℕ → ℕ
digit_value c = if ltb c 58 then c - b'0' else c - 87

-- How a reader takes two hexadecimal digits for a byte.
pub read_hex : Text → List ℕ
read_hex [] = []
read_hex (c ∷ []) = []
read_hex (c ∷ (d ∷ t)) = (digit_value c * 16 + digit_value d) ∷ read_hex t

digit_value-hex_digit : (n : ℕ) → n < 16 → digit_value (hex_digit n) ≡ n
unfolding digit_value hex_digit
digit_value-hex_digit n h = ground arith

-- A reader of hexadecimal digits gets the bytes of a digest back from its text, whatever their
-- number; every byte is below 256.
pub read_hex-hex_text : (xs : List ℕ) → All (λ x. x < 256) xs → read_hex (hex_text xs) ≡ xs
unfolding read_hex hex_text
read_hex-hex_text [] h = refl
read_hex-hex_text (x ∷ xs) (b, h) =
    grind (
      arith,
      read_hex-hex_text xs h,
      digit_value-hex_digit (x / 16),
      digit_value-hex_digit (x % 16),
    )
