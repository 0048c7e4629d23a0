-- ===== src/Bytes/Hex.antt =====
-- Hex text and its bytes.
use stamppad.Prelude.{ℕ, ◌*◌, ◌/◌, ◌%◌, ◌<◌, ◌≡◌, refl, ap, some, [], ◌∷◌, length, arith}
use stamppad.Bytes.{Bytes, IsBytes, hex_char, hex_value, to_hex, from_hex}

hex_value-hex_char : (d : ℕ) → d < 16 → hex_value (hex_char d) ≡ some d
hex_value-hex_char d h = ground arith

-- Every byte array is read back from its hex text.
pub from_hex-to_hex : (bs : Bytes) → IsBytes bs → from_hex (to_hex bs) ≡ some bs
unfolding from_hex to_hex
from_hex-to_hex [] h = refl
from_hex-to_hex (b ∷ bs) (hb, h) =
    rw
      (
        hex_value-hex_char (b / 16) (omega arith),
        hex_value-hex_char (b % 16) (omega arith),
        from_hex-to_hex bs h,
      )
      (ap (λ x. some (x ∷ bs)) (omega arith))

pub length-to_hex : (bs : Bytes) → length (to_hex bs) ≡ 2 * length bs
unfolding to_hex
length-to_hex [] = refl
length-to_hex (b ∷ bs) = omega (arith, length-to_hex bs)

pub to_hex-injective : (a b : Bytes) → IsBytes a → IsBytes b → to_hex a ≡ to_hex b → a ≡ b
to_hex-injective a b ha hb e = cc (from_hex-to_hex a ha, from_hex-to_hex b hb, ap from_hex e)
