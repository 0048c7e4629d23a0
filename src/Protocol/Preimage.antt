-- ===== src/Protocol/Preimage.antt =====
-- The texts that are hashed and signed: decimal numbers, and fields joined by line feeds
-- (`canonicalPreimage` of encoding.ts, `transferPreimage` and `offerPreimage` of transfer.ts).
pub mod Injective
use stamppad.Prelude.{ℕ, zero, suc, ◌+◌, ◌/◌, ◌%◌, Bool, List, [], ◌∷◌, ◌++◌, ltb, if◌then◌else◌}
use stamppad.Text.{Text, codes, join}
use stamppad.Protocol.Types.{
  DestNetwork, source_network_text, dest_network_text, authority_role_text, IssuanceFields,
  protocol_id,
}

-- The digits of `n` before `rest`; fuel `suc n` is enough.
unfoldable pub digits_before : ℕ → ℕ → Text → Text
digits_before zero n rest = rest
digits_before (suc f) n rest =
    let more = digits_before f (n / 10) ((b'0' + n % 10) ∷ rest) in
    if ltb n 10 then (b'0' + n) ∷ rest else more

-- String(n), n.toString(10)
unfoldable pub decimal : ℕ → Text
unfolding digits_before
decimal n = digits_before (suc n) n []

abbrev pub line_feed : ℕ
line_feed = 10

-- The version is PROTOCOL_VERSION, 0.
unfoldable pub canonical_preimage : IssuanceFields → Text
unfolding join
canonical_preimage f = join line_feed (
    protocol_id
    ∷ decimal 0
    ∷ source_network_text f.source_network
    ∷ dest_network_text f.destination_network
    ∷ f.mint
    ∷ f.token_program
    ∷ f.source_tx
    ∷ f.burn_locator
    ∷ f.amount_base
    ∷ decimal f.decimals
    ∷ f.destination
    ∷ f.burn_authority
    ∷ authority_role_text f.authority_role
    ∷ f.intent_locator
    ∷ f.nonce
    ∷ [])

pub record TransferAuthorization : Type 0 where
  pub stamp_commitment_hex : Text
  pub sequence : ℕ
  pub from_address : Text
  pub to_address : Text
  pub offer_hash_hex : Text
  pub preimage_hex : Text
  pub owner_public_key_hex : Text
  pub signature_hex : Text

pub record SettlementOffer : Type 0 where
  pub stamp_commitment_hex : Text
  pub sequence : ℕ
  pub seller_address : Text
  pub buyer_address : Text
  pub price_zat : Text
  pub hash_lock_hex : Text
  pub expiry_height : ℕ
  pub owner_public_key_hex : Text
  pub signature_hex : Text

-- OWNERSHIP_VERSION
abbrev pub ownership_version : ℕ
ownership_version = 1

unfoldable pub transfer_preimage : TransferAuthorization → Text
unfolding join
transfer_preimage a = join line_feed (
    protocol_id
    ∷ decimal ownership_version
    ∷ codes "transfer"
    ∷ a.stamp_commitment_hex
    ∷ decimal a.sequence
    ∷ a.from_address
    ∷ a.to_address
    ∷ a.offer_hash_hex
    ∷ a.preimage_hex
    ∷ [])

unfoldable pub offer_preimage : SettlementOffer → Text
unfolding join
offer_preimage o = join line_feed (
    protocol_id
    ∷ decimal ownership_version
    ∷ codes "offer"
    ∷ o.stamp_commitment_hex
    ∷ decimal o.sequence
    ∷ o.seller_address
    ∷ o.buyer_address
    ∷ o.price_zat
    ∷ o.hash_lock_hex
    ∷ decimal o.expiry_height
    ∷ [])
