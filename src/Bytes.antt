-- ===== src/Bytes.antt =====
-- Byte arrays: slices, little-endian words (protocol/encoding.ts, zcash/transaction.ts) and hex.
pub mod Words
pub mod Hex
pub mod Slices
use stamppad.Prelude.{
  ℕ, zero, suc, ◌+◌, ◌-◌, ◌*◌, ◌/◌, ◌%◌, ◌≤◌, ◌<◌, Bool, ◌&&◌, Option, none, some, List, [], ◌∷◌,
  ◌++◌, map, take, drop, length, All, leb, if◌then◌else◌, ◌==◌,
}
use stamppad.Text.{Text}

abbrev pub Bytes : Type 0
Bytes = List ℕ

abbrev pub IsBytes : Bytes → Type 0
IsBytes = All (λ b. b < 256)

-- data.subarray(from, to), which stops at the end of the data
abbrev pub subarray : ℕ → ℕ → Bytes → Bytes
subarray from to xs = take (to - from) (drop from xs)

-- data[i] where the caller has checked that i is in range
abbrev pub byte_at : Bytes → ℕ → ℕ
byte_at [] i = 0
byte_at (x ∷ xs) zero = x
byte_at (x ∷ xs) (suc i) = byte_at xs i

-- The low `w` bytes of `n`, least significant first.
unfoldable pub le_bytes : ℕ → ℕ → Bytes
le_bytes zero n = []
le_bytes (suc w) n = n % 256 ∷ le_bytes w (n / 256)

unfoldable pub le_value : Bytes → ℕ
le_value [] = 0
le_value (b ∷ bs) = b + 256 * le_value bs

-- A lower-case hex digit, and the value of a digit of either case.
abbrev pub hex_char : ℕ → ℕ
hex_char d = if leb d 9 then d + b'0' else d + 87

abbrev pub hex_value : ℕ → Option ℕ
hex_value c =
    if leb b'0' c && leb c b'9'
    then some (c - b'0')
    else if leb b'a' c && leb c b'f'
    then some (c - 87)
    else if leb b'A' c && leb c b'F'
    then some (c - 55)
    else none

unfoldable pub to_hex : Bytes → Text
to_hex [] = []
to_hex (b ∷ bs) = hex_char (b / 16) ∷ hex_char (b % 16) ∷ to_hex bs

abbrev pub hex_byte : Option ℕ → Option ℕ → Option Bytes → Option Bytes
hex_byte (some h) (some l) (some bs) = some ((h * 16 + l) ∷ bs)
hex_byte (some h) (some l) none = none
hex_byte (some h) none r = none
hex_byte none l r = none

-- `fromHex`: throws on a character that is no digit and on an odd length
unfoldable pub from_hex : Text → Option Bytes
from_hex [] = some []
from_hex (c ∷ []) = none
from_hex (c ∷ d ∷ t) = hex_byte (hex_value c) (hex_value d) (from_hex t)
