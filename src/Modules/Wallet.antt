-- ===== src/Modules/Wallet.antt =====
-- src/lib/modules/wallet.ts: what an address can prove, and which key stands behind it. The reasons
-- that are shown to the user are left out.
use stamppad.Prelude.{
  ◌≡◌, refl, Bool, true, false, ◌&&◌, ◌||◌, not, Option, none, some, ◌==◌, length, take, arith,
  if◌then◌else◌,
}
use stamppad.Text.{Text, codes, text_eq}
use stamppad.Bytes.{from_hex}
use stamppad.Protocol.Types.{zcash_main}
use stamppad.Protocol.Crypto.{Crypto}
use stamppad.Protocol.Address.{
  TransparentAddress, TransparentKind, p2pkh, p2sh, tex, validate_transparent_address,
}
use stamppad.Protocol.Tsig.{transparent_address_for_key}
use stamppad.Protocol.Transfer.{
  demo_address_for_key, is_demo_managed_address, is_p2pkh, verify_owner_signature,
}

pub data OwnerScheme : Type 0 where
  ed25519 zcash_signmessage no_scheme : OwnerScheme

pub record OwnerCapability : Type 0 where
  pub can_authorize : Bool
  pub scheme : OwnerScheme

-- /^0[23]/, with the length
abbrev pub looks_secp256k1 : Text → Bool
looks_secp256k1 key =
    (length key == 66) && (text_eq (take 2 key) (codes "02") || text_eq (take 2 key) (codes "03"))

abbrev pub capability_of_kind : TransparentKind → OwnerCapability
capability_of_kind p2pkh = record { can_authorize = true; scheme = zcash_signmessage }
capability_of_kind p2sh = record { can_authorize = false; scheme = no_scheme }
capability_of_kind tex = record { can_authorize = false; scheme = no_scheme }

abbrev pub capability_of : Option TransparentAddress → OwnerCapability
capability_of none = record { can_authorize = false; scheme = no_scheme }
capability_of (some check) = capability_of_kind check.kind

module _ (crypto : Crypto) where
  -- `none`: the key is no hex text
  unfoldable pub address_for_key : Text → Option Text
  address_for_key public_key_hex =
      if looks_secp256k1 public_key_hex
      then elim (from_hex public_key_hex) [
        | none ↦ none
        | some key ↦ some (transparent_address_for_key crypto key zcash_main)
      ]
      else demo_address_for_key crypto public_key_hex

  unfoldable pub capability : Text → OwnerCapability
  capability address =
      if is_demo_managed_address address
      then record { can_authorize = true; scheme = ed25519 }
      else capability_of (validate_transparent_address crypto address)

  -- The field `ok` of the answer.
  unfoldable pub verify : (address public_key_hex preimage signature_hex : Text) → Bool
  verify address public_key_hex preimage signature_hex =
      if not (capability address).can_authorize
      then false
      else verify_owner_signature crypto address public_key_hex preimage signature_hex

  can_authorize-kind :
      (c : TransparentAddress) (k : TransparentKind)
      → c.kind ≡ k
      → (capability_of_kind k).can_authorize ≡ is_p2pkh crypto (some c)
  can_authorize-kind c p2pkh e = rw e refl
  can_authorize-kind c p2sh e = rw e refl
  can_authorize-kind c tex e = rw e refl

  can_authorize-is_p2pkh :
      (c : Option TransparentAddress) → (capability_of c).can_authorize ≡ is_p2pkh crypto c
  can_authorize-is_p2pkh none = refl
  can_authorize-is_p2pkh (some c) = can_authorize-kind c c.kind refl

  -- The wallet adapter accepts exactly the signatures that the replay of the records accepts.
  pub verify-verify_owner_signature :
      (address public_key_hex preimage signature_hex : Text)
      → verify address public_key_hex preimage signature_hex
        ≡ verify_owner_signature crypto address public_key_hex preimage signature_hex
  unfolding verify capability verify_owner_signature
  verify-verify_owner_signature a k p s =
      ground (arith, can_authorize-is_p2pkh (validate_transparent_address crypto a))
