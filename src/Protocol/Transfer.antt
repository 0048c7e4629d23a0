-- ===== src/Protocol/Transfer.antt =====
-- src/lib/protocol/transfer.ts: on-chain ownership records, artifact hashes, signatures and hash locks.
pub mod Records
use stamppad.Prelude.{
  ℕ, ◌+◌, ◌≡◌, Bool, true, false, not, ◌&&◌, ◌||◌, Option, none, some, List, [], ◌∷◌, ◌++◌, leb,
  ltb, ◌==◌, if◌then◌else◌, length, take, drop, all,
}
use stamppad.Text.{Text, codes, text_eq}
use stamppad.Bytes.{Bytes, subarray, byte_at, le_bytes, le_value, to_hex, from_hex}
use stamppad.Protocol.Types.{transfer_magic, offer_magic, record_payload_len, op_return_data_limit}
use stamppad.Protocol.Preimage.{
  TransferAuthorization, SettlementOffer, line_feed, ownership_version, transfer_preimage,
  offer_preimage,
}
use stamppad.Protocol.Address.{TransparentAddress, p2pkh, validate_transparent_address}
use stamppad.Protocol.Crypto.{Crypto, utf8}
use stamppad.Protocol.Tsig.{verify_transparent_authorization}

pub data RecordKind : Type 0 where
  transfer offer : RecordKind

pub record OnChainRecord : Type 0 where
  pub kind : RecordKind
  pub stamp_commitment_hex : Text
  pub sequence : ℕ
  pub artifact_hash_hex : Text

abbrev pub kind_magic : RecordKind → Bytes
kind_magic transfer = transfer_magic
kind_magic offer = offer_magic

-- The buffer, once the two hashes are decoded: the writes cover it from offset 0 to 74, in order.
abbrev encode_parts : OnChainRecord → Option Bytes → Option Bytes → Option Bytes
encode_parts r none a = none
encode_parts r (some c) none = none
encode_parts r (some c) (some a) =
    if not (length c == 32) || not (length a == 32)
    then none
    else if ltb 0xffff_ffff r.sequence
    then none
    else if ltb op_return_data_limit record_payload_len
    then none
    else some
        (kind_magic r.kind ++ (le_bytes 2 ownership_version ++ (c ++ (le_bytes 4 r.sequence ++ a))))

-- `none` is one of the exceptions of `encodeRecord`.
unfoldable pub encode_record : OnChainRecord → Option Bytes
encode_record r = encode_parts r (from_hex r.stamp_commitment_hex) (from_hex r.artifact_hash_hex)

-- bufferEq
unfoldable pub buffer_eq : Bytes → Bytes → Bool
buffer_eq = text_eq

abbrev pub record_kind : Bytes → Option RecordKind
record_kind magic =
    if buffer_eq magic transfer_magic
    then some transfer
    else if buffer_eq magic offer_magic
    then some offer
    else none

abbrev decode_rest : Bytes → Option RecordKind → Option OnChainRecord
decode_rest b none = none
decode_rest b (some kind) =
    if not (le_value (subarray 4 6 b) == ownership_version)
    then none
    else some (record {
      kind = kind;
      stamp_commitment_hex = to_hex (subarray 6 38 b);
      sequence = le_value (subarray 38 42 b);
      artifact_hash_hex = to_hex (subarray 42 74 b);
    })

unfoldable pub decode_record : Bytes → Option OnChainRecord
decode_record b =
    if not (length b == record_payload_len)
    then none
    else decode_rest b (record_kind (subarray 0 4 b))

-- /^zdemo1[0-9a-f]{40}$/
unfoldable pub is_demo_managed_address : Text → Bool
is_demo_managed_address a =
    text_eq (take 6 a) (codes "zdemo1")
    && (length a == 46)
    && all (λ c. (leb b'0' c && leb c b'9') || (leb b'a' c && leb c b'f')) (drop 6 a)

-- An exception of `modInv`, for which there would have to be a point of order two on the curve, is
-- `false` here too.
abbrev is_authorized : Option Bool → Bool
is_authorized none = false
is_authorized (some ok) = ok

module _ (crypto : Crypto) where
  open crypto use {sha256, ed25519_verify}

  unfoldable pub artifact_hash : Text → Text → Bytes
  artifact_hash preimage signature_hex = sha256 (utf8 (preimage ++ (line_feed ∷ signature_hex)))

  unfoldable pub transfer_artifact_hash : TransferAuthorization → Bytes
  transfer_artifact_hash a = artifact_hash (transfer_preimage a) a.signature_hex

  unfoldable pub offer_artifact_hash : SettlementOffer → Bytes
  offer_artifact_hash o = artifact_hash (offer_preimage o) o.signature_hex

  abbrev demo_address : Bytes → Text
  demo_address key = codes "zdemo1" ++ to_hex (subarray 0 20 (sha256 key))

  -- `none`: the key is no hex text
  unfoldable pub demo_address_for_key : Text → Option Text
  demo_address_for_key key = elim (from_hex key) [ none ↦ none | some b ↦ some (demo_address b) ]

  unfoldable pub demo_address_matches_key : Text → Text → Bool
  demo_address_matches_key address key = elim (demo_address_for_key key) [
    | none ↦ false
    | some a ↦ text_eq address a
  ]

  -- The exceptions inside the `try` block are the answer `false`.
  abbrev ed25519_check : Bytes → Option Bytes → Option Bytes → Bool
  ed25519_check message none key = false
  ed25519_check message (some s) none = false
  ed25519_check message (some s) (some k) = elim (ed25519_verify message s k) [
    | none ↦ false
    | some b ↦ b
  ]

  abbrev pub is_p2pkh : Option TransparentAddress → Bool
  is_p2pkh none = false
  is_p2pkh (some a) = elim a.kind [ p2pkh ↦ true | _ ↦ false ]

  unfoldable pub verify_owner_signature :
      (address public_key_hex preimage signature_hex : Text) → Bool
  verify_owner_signature address public_key_hex preimage signature_hex =
      if not (is_demo_managed_address address)
      then is_p2pkh (validate_transparent_address crypto address)
        && is_authorized (verify_transparent_authorization crypto address preimage signature_hex)
      else if not (demo_address_matches_key address public_key_hex)
      then false
      else ed25519_check (utf8 preimage) (from_hex signature_hex) (from_hex public_key_hex)

  -- `none`: the preimage is no hex text
  unfoldable pub hash_lock_for : Text → Option Text
  hash_lock_for preimage_hex = elim (from_hex preimage_hex) [
    | none ↦ none
    | some b ↦ some (to_hex (sha256 b))
  ]

  unfoldable pub verify_hash_lock : Text → Text → Bool
  verify_hash_lock hash_lock_hex preimage_hex =
      if text_eq preimage_hex (codes "none")
      then false
      else elim (hash_lock_for preimage_hex) [ none ↦ false | some h ↦ text_eq h hash_lock_hex ]
