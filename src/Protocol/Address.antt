-- ===== src/Protocol/Address.antt =====
-- src/lib/protocol/taddr.ts (validation and bech32m) and `validateDestination` of address.ts.
-- A check that fails is `none`; its message is left out. `toLowerCase` is written out for ASCII and
-- for the Kelvin sign, the one other code unit that it takes into ASCII.
use Prim.Native.Nat.{bit_xor}
use mathlib.Core.List.{reverse}
use stamppad.Prelude.{
  ℕ, ◌+◌, ◌-◌, ◌*◌, ◌/◌, ◌%◌, ◌^◌, Bool, true, false, not, ◌&&◌, ◌||◌, Option, none, some, List, [],
  ◌∷◌, ◌++◌, map, foldl, ltb, leb, ◌==◌, if◌then◌else◌, length, take, drop, all,
}
use stamppad.Text.{Text, codes, text_eq}
use stamppad.Bytes.{Bytes, subarray}
use stamppad.Protocol.Base58.{index_from}
use stamppad.Protocol.Crypto.{Crypto}
use stamppad.Protocol.Types.{DestNetwork, zcash_demo, zcash_test, zcash_main, dest_network_eq}

pub data TransparentKind : Type 0 where
  p2pkh p2sh tex : TransparentKind

-- The check's `network` is `zcash_main` or `zcash_test`.
pub record TransparentAddress : Type 0 where
  pub network : DestNetwork
  pub kind : TransparentKind

unfoldable pub is_space : ℕ → Bool
is_space c =
    (leb 9 c && leb c 13)
    || (c == 32)
    || (c == 0xa0)
    || (c == 0x1680)
    || (leb 0x2000 c && leb c 0x200a)
    || (c == 0x2028)
    || (c == 0x2029)
    || (c == 0x202f)
    || (c == 0x205f)
    || (c == 0x3000)
    || (c == 0xfeff)

begins_with_space : Text → Bool
begins_with_space [] = false
begins_with_space (c ∷ t) = is_space c

-- address !== address.trim()
has_outer_space : Text → Bool
has_outer_space t = begins_with_space t || begins_with_space (reverse t)

unfoldable pub to_lower_unit : ℕ → ℕ
to_lower_unit c = if leb b'A' c && leb c b'Z' then c + 32 else if c == 0x212a then b'k' else c

to_upper_unit : ℕ → ℕ
to_upper_unit c = if leb b'a' c && leb c b'z' then c - 32 else c

starts_with : Text → Text → Bool
starts_with t prefix = text_eq (take (length prefix) t) prefix

abbrev bech32_charset : Text
bech32_charset = codes "qpzry9x8gf2tvdw0s3jn54khce6mua7l"

abbrev bech32m_const : ℕ
bech32m_const = 0x2bc830a3

-- `if ((b >> i) & 1) chk ^= GEN[i]`
abbrev xor_if : ℕ → ℕ → ℕ → ℕ
xor_if bit gen chk = if bit == 1 then bit_xor chk gen else chk

-- One round of `polymod`; `chk` stays below 2^30, so the signed 32-bit operators do not wrap.
polymod_step : ℕ → ℕ → ℕ
polymod_step chk v =
    let b = chk / 2 ^ 25 in
    xor_if (b / 16 % 2) 0x2a1462b3 (
      xor_if (b / 8 % 2) 0x3d4233dd (
        xor_if (b / 4 % 2) 0x1ea119fa (
          xor_if (b / 2 % 2) 0x26508e6d
            (xor_if (b % 2) 0x3b6a57b2 (bit_xor (chk % 2 ^ 25 * 32) v)))))

polymod : List ℕ → ℕ
unfolding polymod_step
polymod values = foldl polymod_step 1 values

hrp_expand : Text → List ℕ
hrp_expand hrp = map (λ c. c / 32) hrp ++ (0 ∷ map (λ c. c % 32) hrp)

-- The text up to the last "1", that is not included, and the text after it.
split_last_one : Text → Option (Text × Text)
split_last_one [] = none
split_last_one (c ∷ t) = elim (split_last_one t) [
  | some (hrp, tail) ↦ some (c ∷ hrp, tail)
  | none ↦ if c == b'1' then some ([], t) else none
]

charset_values : Text → Option (List ℕ)
charset_values [] = some []
charset_values (c ∷ t) = elim (index_from 0 c bech32_charset) [
  | none ↦ none
  | some v ↦ elim (charset_values t) [ none ↦ none | some vs ↦ some (v ∷ vs) ]
]

abbrev checksum_ok : Text → Option (List ℕ) → Bool
checksum_ok hrp none = false
checksum_ok hrp (some values) =
    if ltb (length values) 6 then false else polymod (hrp_expand hrp ++ values) == bech32m_const

abbrev split_ok : Text → Option (Text × Text) → Bool
split_ok expected none = false
split_ok expected (some (hrp, tail)) =
    if ltb (length hrp) 1
    then false
    else if not (text_eq hrp expected)
    then false
    else checksum_ok expected (charset_values tail)

unfoldable pub verify_bech32m : Text → Text → Bool
unfolding polymod hrp_expand split_last_one charset_values
verify_bech32m address expected_hrp = split_ok expected_hrp (split_last_one address)

abbrev tex_network : Bool → DestNetwork
tex_network true = zcash_main
tex_network false = zcash_test

abbrev tex_hrp : Bool → Text
tex_hrp true = codes "tex"
tex_hrp false = codes "textest"

-- `main` says that the prefix is "tex1".
check_tex : Text → Bool → Option TransparentAddress
check_tex address main =
    if not (text_eq (map to_lower_unit address) address)
      && not (text_eq (map to_upper_unit address) address)
    then none
    else if not (verify_bech32m (map to_lower_unit address) (tex_hrp main))
    then none
    else some (record { network = tex_network main; kind = tex })

-- VERSIONS
abbrev version_meta : Bytes → Option TransparentAddress
version_meta v =
    if text_eq v (0x1c ∷ 0xb8 ∷ [])
    then some (record { network = zcash_main; kind = p2pkh })
    else if text_eq v (0x1c ∷ 0xbd ∷ [])
    then some (record { network = zcash_main; kind = p2sh })
    else if text_eq v (0x1d ∷ 0x25 ∷ [])
    then some (record { network = zcash_test; kind = p2pkh })
    else if text_eq v (0x1c ∷ 0xba ∷ [])
    then some (record { network = zcash_test; kind = p2sh })
    else none

module _ (crypto : Crypto) where
  open crypto use {sha256, bs58_decode}

  check_raw : Option Bytes → Option TransparentAddress
  check_raw none = none
  check_raw (some raw) =
      if not (length raw == 26)
      then none
      else if not (text_eq (drop 22 raw) (subarray 0 4 (sha256 (sha256 (subarray 0 22 raw)))))
      then none
      else version_meta (subarray 0 2 (subarray 0 22 raw))

  unfoldable pub validate_transparent_address : Text → Option TransparentAddress
  unfolding is_space begins_with_space has_outer_space to_lower_unit to_upper_unit starts_with
      check_tex check_raw verify_bech32m
  validate_transparent_address address =
      let lower = map to_lower_unit address in
      if text_eq address []
      then none
      else if has_outer_space address
      then none
      else if starts_with lower (codes "u1") || starts_with lower (codes "utest1")
      then none
      else if starts_with lower (codes "zs")
          || starts_with lower (codes "zc")
          || starts_with lower (codes "ztest")
      then none
      else if starts_with lower (codes "tex1") || starts_with lower (codes "textest1")
      then check_tex address (starts_with lower (codes "tex1"))
      else check_raw (bs58_decode address)

  -- /^zdemo1[0-9a-z]{20,80}$/
  unfoldable pub is_demo_destination : Text → Bool
  is_demo_destination a =
      text_eq (take 6 a) (codes "zdemo1")
      && leb 26 (length a)
      && leb (length a) 86
      && all (λ c. (leb b'0' c && leb c b'9') || (leb b'a' c && leb c b'z')) (drop 6 a)

  abbrev on_network : DestNetwork → Option TransparentAddress → Bool
  on_network n none = false
  on_network n (some a) = dest_network_eq a.network n

  -- The field `ok` of the answer.
  unfoldable pub validate_destination : DestNetwork → Text → Bool
  validate_destination zcash_demo address =
      if is_demo_destination address
      then true
      else on_network zcash_main (validate_transparent_address address)
  validate_destination zcash_test address =
      on_network zcash_test (validate_transparent_address address)
  validate_destination zcash_main address =
      on_network zcash_main (validate_transparent_address address)
