-- ===== src/Protocol/Tsig.antt =====
-- src/lib/protocol/tsig.ts: signatures of the holder of a transparent address. Messages to the user
-- are left out. An outer `none` is an exception of `modInv` (Protocol.Secp256k1), which is caught
-- nowhere.
pub mod Agreement
mod Tests
use mathlib.Core.List.{reverse}
use stamppad.Prelude.{
  ℕ, ◌+◌, ◌-◌, ◌*◌, ◌/◌, ◌%◌, Bool, true, false, not, ◌&&◌, ◌||◌, Option, none, some, List, [], ◌∷◌,
  ◌++◌, ltb, leb, ◌==◌, if◌then◌else◌, length, drop,
}
use stamppad.Text.{Text, codes, text_eq, join}
use stamppad.Bytes.{Bytes, subarray, byte_at, le_bytes, to_hex, from_hex}
use stamppad.Protocol.Types.{DestNetwork, zcash_demo, zcash_test, zcash_main}
use stamppad.Protocol.Base58.{encode_base58}
use stamppad.Protocol.Crypto.{Crypto, utf8}
use stamppad.Protocol.Hash160.{hash160}
use stamppad.Protocol.Secp256k1.{Affine, Point, bytes_to_big_int, encode_point, recover_public_key}
use stamppad.Protocol.Address.{
  TransparentAddress, TransparentKind, p2pkh, p2sh, tex, is_space, validate_transparent_address,
}

abbrev pub message_magic : Text
message_magic = codes "Zcash Signed Message:" ++ 10 ∷ []

-- Of the three networks only the two real ones have addresses.
abbrev pub p2pkh_version : DestNetwork → Bytes
p2pkh_version zcash_test = 0x1d ∷ 0x25 ∷ []
p2pkh_version zcash_main = 0x1c ∷ 0xb8 ∷ []
p2pkh_version zcash_demo = 0x1c ∷ 0xb8 ∷ []

abbrev pub compact_size : ℕ → Bytes
compact_size value =
    if ltb value 0xfd
    then value ∷ []
    else if leb value 0xffff
    then 0xfd ∷ value % 256 ∷ value / 256 ∷ []
    else 0xfe ∷ le_bytes 4 value

-- A key that is recovered, encoded.
pub record Recovered : Type 0 where
  pub public_key : Bytes
  pub compressed : Bool

abbrev pub encoded_key : Bool → Option Point → Option (Option Recovered)
encoded_key compressed none = none
encoded_key compressed (some none) = some none
encoded_key compressed (some (some a)) =
    some (some (record { public_key = encode_point a compressed; compressed = compressed }))

unfoldable pub recover_from_compact : Bytes → Bytes → Option (Option Recovered)
recover_from_compact digest signature =
    let header = byte_at signature 0 in
    let found = encoded_key (leb 31 header) (
      recover_public_key digest (bytes_to_big_int (subarray 1 33 signature))
        (bytes_to_big_int (subarray 33 65 signature)) ((header - 27) % 4)) in
    if not (length signature == 65)
    then some none
    else if ltb header 27 || ltb 34 header
    then some none
    else found

drop_spaces : Text → Text
drop_spaces [] = []
drop_spaces (c ∷ t) = let rest = drop_spaces t in if is_space c then rest else c ∷ t

-- input.trim()
unfoldable pub trim : Text → Text
unfolding drop_spaces
trim t = reverse (drop_spaces (reverse (drop_spaces t)))

abbrev pub base64_value : ℕ → Option ℕ
base64_value c =
    if leb b'A' c && leb c b'Z'
    then some (c - b'A')
    else if leb b'a' c && leb c b'z'
    then some (c - 71)
    else if leb b'0' c && leb c b'9'
    then some (c + 4)
    else if c == b'+'
    then some 62
    else if c == b'/'
    then some 63
    else none

-- The values of the characters up to the padding, and how many "=" follow; `none` where the regular
-- expression fails.
unfoldable pub base64_values : Text → Option (List ℕ × ℕ)
base64_values [] = some ([], 0)
base64_values (c ∷ t) = elim (base64_value c) [
  | some v ↦ elim (base64_values t) [ some (vs, padding) ↦ some (v ∷ vs, padding) | none ↦ none ]
  | none ↦
      if text_eq (c ∷ t) (codes "=")
      then some ([], 1)
      else if text_eq (c ∷ t) (codes "==")
      then some ([], 2)
      else none
]

-- What `atob` makes of the values: three bytes of each four, and what is left of fewer.
unfoldable pub sextets : List ℕ → Option Bytes
sextets [] = some []
sextets (a ∷ []) = none
sextets (a ∷ b ∷ []) = some ((a * 4 + b / 16) ∷ [])
sextets (a ∷ b ∷ c ∷ []) = some ((a * 4 + b / 16) ∷ (b % 16 * 16 + c / 4) ∷ [])
sextets (a ∷ b ∷ c ∷ d ∷ vs) = elim (sextets vs) [
  | none ↦ none
  | some bs ↦ some ((a * 4 + b / 16) ∷ (b % 16 * 16 + c / 4) ∷ (c % 4 * 64 + d) ∷ bs)
]

-- `atob` takes padding only where it fills up the last four characters.
abbrev pub base64_bytes : Option (List ℕ × ℕ) → Option Bytes
base64_bytes none = none
base64_bytes (some (vs, padding)) =
    if length vs == 0
    then none
    else if not (padding == 0) && not ((length vs + padding) % 4 == 0)
    then none
    else sextets vs

unfoldable pub decode_base64 : Text → Option Bytes
decode_base64 input = base64_bytes (base64_values (trim input))

pub record TransparentProofResult : Type 0 where
  pub ok : Bool
  pub public_key_hex : Option Text
  pub derived_address : Option Text

abbrev pub failed : TransparentProofResult
failed = record { ok = false; public_key_hex = none; derived_address = none }

abbrev pub proof_network : DestNetwork → DestNetwork
proof_network zcash_test = zcash_test
proof_network zcash_main = zcash_main
proof_network zcash_demo = zcash_main

module _ (crypto : Crypto) where
  open crypto use {sha256, bs58_decode}

  unfoldable pub signed_message_digest : Text → Text → Bytes
  signed_message_digest magic_string message =
      let magic = utf8 magic_string in
      let body = utf8 message in
      sha256
        (sha256 (compact_size (length magic) ++ (magic ++ (compact_size (length body) ++ body))))

  abbrev pub transparent_message_digest : Text → Bytes
  transparent_message_digest message = signed_message_digest message_magic message

  unfoldable pub transparent_address_for_key : Bytes → DestNetwork → Text
  transparent_address_for_key public_key network =
      let payload = p2pkh_version network ++ hash160 crypto public_key in
      encode_base58 (payload ++ subarray 0 4 (sha256 (sha256 payload)))

  abbrev pub key_hash_of : Text → Option TransparentAddress → Option Bytes
  key_hash_of address none = none
  key_hash_of address (some check) = elim check.kind [
    | p2pkh ↦ elim (bs58_decode address) [ none ↦ none | some raw ↦ some (subarray 2 22 raw) ]
    | p2sh ↦ none
    | tex ↦ none
  ]

  -- The 20-byte key hash of an address.
  unfoldable pub key_hash_from_address : Text → Option Bytes
  key_hash_from_address address = key_hash_of address (validate_transparent_address crypto address)

  -- Whether the key that a signature recovers to has this hash.
  abbrev pub key_matches : Bytes → Option (Option Recovered) → Option Bool
  key_matches expected none = none
  key_matches expected (some none) = some false
  key_matches expected (some (some r)) =
      some (text_eq (to_hex (hash160 crypto r.public_key)) (to_hex expected))

  abbrev pub recovered_key : Text → Bytes → Option (Option Recovered)
  recovered_key message signature =
      recover_from_compact (transparent_message_digest message) signature

  abbrev pub authorized_by : Text → Option Bytes → Option Bytes → Option Bool
  authorized_by preimage none signature = some false
  authorized_by preimage (some expected) none = some false
  authorized_by preimage (some expected) (some signature) =
      let found = key_matches expected (recovered_key preimage signature) in
      if not (length signature == 65) then some false else found

  -- The field `ok` of the answer.
  unfoldable pub verify_transparent_authorization :
      (address preimage signature_hex : Text) → Option Bool
  verify_transparent_authorization address preimage signature_hex =
      authorized_by preimage (key_hash_from_address address) (from_hex signature_hex)

  abbrev pub proof_of :
      DestNetwork → Bytes → Option (Option Recovered) → Option TransparentProofResult
  proof_of network expected none = none
  proof_of network expected (some none) = some failed
  proof_of network expected (some (some r)) = some (record {
    ok = text_eq (to_hex (hash160 crypto r.public_key)) (to_hex expected);
    public_key_hex = some (to_hex r.public_key);
    derived_address = some (transparent_address_for_key r.public_key (proof_network network));
  })

  abbrev pub proved_by :
      Text → DestNetwork → Option Bytes → Option Bytes → Option TransparentProofResult
  proved_by message network none signature = some failed
  proved_by message network (some expected) none = some failed
  proved_by message network (some expected) (some signature) =
      let header = byte_at signature 0 in
      let proof = proof_of network expected (recovered_key message signature) in
      if not (length signature == 65)
      then some failed
      else if ltb header 27 || ltb 34 header
      then some failed
      else proof

  abbrev pub proof_at :
      (address message signature_base64 : Text)
      → Option TransparentAddress
      → Option TransparentProofResult
  proof_at address message signature_base64 none = some failed
  proof_at address message signature_base64 (some check) = elim check.kind [
    | p2sh ↦ some failed
    | tex ↦ some failed
    | p2pkh ↦
        proved_by message check.network (key_hash_from_address address)
          (decode_base64 signature_base64)
  ]

  unfoldable pub verify_transparent_message :
      (address message signature_base64 : Text) → Option TransparentProofResult
  verify_transparent_message address message signature_base64 =
      proof_at address message signature_base64 (validate_transparent_address crypto address)

-- The lines of the statement that a holder signs.
unfoldable pub ownership_statement : (stamp_commitment_hex address nonce : Text) → Text
unfolding join
ownership_statement stamp_commitment_hex address nonce = join 10 (
    codes "StampPad ownership proof"
    ∷ (codes "stamp: " ++ stamp_commitment_hex)
    ∷ (codes "address: " ++ address)
    ∷ (codes "nonce: " ++ nonce)
    ∷ [])
