-- ===== src/Protocol/Base58.antt =====
-- `encodeBase58` and `decodeBase58` of src/lib/protocol/encoding.ts. Both loops multiply a number,
-- held as digits with the least significant one first, by the old base and add a digit of it.
pub mod Digits
pub mod RoundTrip
use mathlib.Core.List.{reverse}
use stamppad.Prelude.{
  ℕ, zero, suc, ◌+◌, ◌*◌, ◌/◌, ◌%◌, Option, none, some, List, [], ◌∷◌, ◌++◌, map, foldl, ◌==◌,
  length, if◌then◌else◌, replicate, Bool, true, false, ◌≡◌, refl,
}
use stamppad.Text.{Text, codes}
use stamppad.Bytes.{Bytes, byte_at}

-- `while (carry > 0)`; fuel `carry` is enough, since each round divides it.
unfoldable pub push_carry : ℕ → ℕ → ℕ → List ℕ
push_carry base zero carry = []
push_carry base (suc f) carry =
    let more = carry % base ∷ push_carry base f (carry / base) in if carry == 0 then [] else more

-- The body of the outer loop: the digits in `base`, times `mul`, plus `carry`.
unfoldable pub add_digit : ℕ → ℕ → List ℕ → ℕ → List ℕ
unfolding push_carry
add_digit mul base [] carry = push_carry base carry carry
add_digit mul base (d ∷ ds) carry =
    (d * mul + carry) % base ∷ add_digit mul base ds ((d * mul + carry) / base)

-- How many elements equal to `c` the list begins with.
unfoldable pub leading : ℕ → List ℕ → ℕ
leading c [] = 0
leading c (x ∷ xs) = if x == c then suc (leading c xs) else 0

abbrev pub base58_alphabet : Text
base58_alphabet = codes "123456789ABCDEFGHJKLMNPQRSTUVWXYZabcdefghijkmnopqrstuvwxyz"

abbrev pub base58_char : ℕ → ℕ
base58_char d = byte_at base58_alphabet d

-- BASE58_ALPHABET.indexOf(ch), where `none` is -1
abbrev pub index_from : ℕ → ℕ → Text → Option ℕ
index_from i c [] = none
index_from i c (x ∷ xs) = if x == c then some i else index_from (suc i) c xs

unfoldable pub base58_value : ℕ → Option ℕ
base58_value c = index_from 0 c base58_alphabet

unfoldable pub encode_base58 : Bytes → Text
unfolding add_digit leading
encode_base58 [] = []
encode_base58 (b ∷ bs) =
    replicate (leading 0 (b ∷ bs)) b'1'
    ++ map base58_char (reverse (foldl (add_digit 256 58) (0 ∷ []) (b ∷ bs)))

abbrev pub cons_value : Option ℕ → Option (List ℕ) → Option (List ℕ)
cons_value (some d) (some ds) = some (d ∷ ds)
cons_value (some d) none = none
cons_value none r = none

-- The values of the characters; `none`: "invalid base58"
unfoldable pub base58_values : Text → Option (List ℕ)
unfolding base58_value
base58_values [] = some []
base58_values (c ∷ t) = cons_value (base58_value c) (base58_values t)

abbrev pub decoded : ℕ → Option (List ℕ) → Option Bytes
decoded count none = none
decoded count (some ds) = some (replicate count 0 ++ reverse (foldl (add_digit 58 256) (0 ∷ []) ds))

unfoldable pub decode_base58 : Text → Option Bytes
unfolding add_digit leading base58_values
decode_base58 [] = some []
decode_base58 (c ∷ t) = decoded (leading b'1' (c ∷ t)) (base58_values (c ∷ t))

abbrev pub exactly_32 : Option Bytes → Option Bytes
exactly_32 none = none
exactly_32 (some raw) = if length raw == 32 then some raw else none

-- `none`: no base58 text, or not 32 bytes
unfoldable pub decode_base58_pubkey : Text → Option Bytes
decode_base58_pubkey t = exactly_32 (decode_base58 t)

abbrev pub is_some : Option Bytes → Bool
is_some none = false
is_some (some b) = true

unfoldable pub is_base58_pubkey : Text → Bool
is_base58_pubkey t = is_some (decode_base58_pubkey t)

hello : encode_base58 (codes "Hello World!") ≡ codes "2NEpo7TZRRrLZSi2U"
unfolding encode_base58
hello = refl

ones : encode_base58 (0 ∷ []) ≡ codes "11"
unfolding encode_base58
ones = refl

back : decode_base58 (codes "2NEpo7TZRRrLZSi2U") ≡ some (codes "Hello World!")
unfolding decode_base58
back = refl
