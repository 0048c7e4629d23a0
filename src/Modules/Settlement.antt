-- ===== src/Modules/Settlement.antt =====
-- src/lib/modules/settlement.ts: the settlement of a sale in demo mode, with the publisher of demo
-- mode (publisher.ts). `Date.now`, random bytes and ids are arguments. `none` is a SettlementError or
-- another exception.
pub mod Stages
pub mod Keeps
pub mod Sales
pub mod Claims
use stamppad.Prelude.{
  ℕ, ◌+◌, Bool, true, false, not, ◌&&◌, ◌||◌, Option, none, some, List, [], ◌∷◌, ◌++◌, any, ◌==◌,
  if◌then◌else◌,
}
use stamppad.Prelude.Dict.{get, put}
use stamppad.Text.{Text, codes, text_eq, text_key}
use stamppad.Bytes.{Bytes, to_hex}
use stamppad.Action.{Action, pure, throw, or_throw, gets, modify, throw_if, ◌>>=◌, ◌>>◌}
use stamppad.Mode.{Flags, stamp_sale, live_money_movement_blocked}
use stamppad.Store.{
  StampRow, ListingState, listed, reserved, offer_published, authorized, payment_locked,
  transfer_published, settled, cancelled, expired, failed, ListingRow, TransferRow, MemoryShape,
}
use stamppad.Protocol.Types.{ZcashPublication}
use stamppad.Protocol.Crypto.{Crypto}
use stamppad.Protocol.Encoding.{read_number}
use stamppad.Protocol.Preimage.{
  TransferAuthorization, SettlementOffer, decimal, transfer_preimage, offer_preimage,
}
use stamppad.Protocol.Transfer.{
  RecordKind, transfer, offer, OnChainRecord, encode_record, transfer_artifact_hash,
  offer_artifact_hash, hash_lock_for,
}
use stamppad.Modules.Listing.{
  htlc_timeout_blocks, ℤ, not_positive, integer_text, big_int, Ownership, ListInput, Step, promised,
  upsert_listing, upsert_transfer, with_zcash, on_chain, is_live_state, is_live, same_state,
  expect_state, is_text, note_or_empty, live_listing_of, new_listing, locked_outcome, transfer_row,
  unsigned_offer, sign_offer, sign_transfer, reserved_row, offered_row, authorized_row, locked_row,
  transferred_row, offer_record, transfer_record,
}
use stamppad.Modules.Wallet.{address_for_key, capability, verify}
use stamppad.Zcash.Demo.{
  DemoHtlc, DemoZcashChain, Outcome, publish_demo_record, lock_demo_htlc, claim_demo_htlc,
}

module _ (crypto : Crypto) (f : Flags) where
  unfoldable pub unsigned_transfer : ListingRow → Step TransferAuthorization
  unsigned_transfer listing = do
    buyer ← promised listing.buyer_address
    o ← promised listing.offer_artifact
    preimage ← promised listing.preimage_hex
    pure (record {
      stamp_commitment_hex = listing.stamp_commitment_hex;
      sequence = listing.sequence;
      from_address = listing.seller_address;
      to_address = buyer;
      offer_hash_hex = to_hex (offer_artifact_hash crypto o);
      preimage_hex = preimage;
      owner_public_key_hex = [];
      signature_hex = [];
    })

  -- `publishRecord` of the demo publisher.
  unfoldable pub publish_record : OnChainRecord → Option Text → Step ZcashPublication
  publish_record r notice_address = do
    payload ← or_throw (encode_record r)
    on_chain (λ chain. publish_demo_record crypto chain f.dest_network payload notice_address)

  unfoldable pub list_stamp : Ownership → ListInput → (id now : Text) → Step ListingRow
  list_stamp ownership input id now = do
    throw_if (live_money_movement_blocked f stamp_sale)
    throw_if (not (capability crypto input.seller_address).can_authorize)
    throw_if (not (text_eq input.seller_address ownership.current_owner))
    throw_if
        (not (is_text (address_for_key crypto input.seller_public_key_hex) input.seller_address))
    throw_if (not_positive input.price_zat)
    active ← gets (λ s. any (live_listing_of input.stamp.id) s.listings)
    throw_if active
    upsert_listing (new_listing ownership input id now)

  -- `secret` is the 32 random bytes.
  unfoldable pub reserve :
      ListingRow
      → (buyer_address buyer_public_key_hex : Text) (secret : Bytes) (now : Text) → Step ListingRow
  reserve listing buyer_address buyer_public_key_hex secret now = do
    expect_state listing (listed ∷ [])
    throw_if (not (is_text (address_for_key crypto buyer_public_key_hex) buyer_address))
    throw_if (text_eq buyer_address listing.seller_address)
    hash_lock ← or_throw (hash_lock_for crypto (to_hex secret))
    height ← gets (λ s. s.zcash.height)
    upsert_listing
        (reserved_row listing buyer_address buyer_public_key_hex secret hash_lock height now)

  -- The preimage that the seller signs.
  unfoldable pub offer_to_sign : ListingRow → Step Text
  offer_to_sign listing = do
    expect_state listing (reserved ∷ [])
    unsigned ← unsigned_offer listing
    pure (offer_preimage unsigned)

  unfoldable pub publish_offer :
      ListingRow → (signature_hex public_key_hex now : Text) → Step ListingRow
  publish_offer listing signature_hex public_key_hex now = do
    expect_state listing (reserved ∷ [])
    unsigned ← unsigned_offer listing
    throw_if (
        not (
          verify crypto listing.seller_address public_key_hex (offer_preimage unsigned)
            signature_hex))
    publication ←
        publish_record
          (offer_record listing (
            to_hex (offer_artifact_hash crypto (sign_offer unsigned signature_hex public_key_hex))))
          none
    upsert_listing (
        offered_row listing (sign_offer unsigned signature_hex public_key_hex) publication.txid now)

  unfoldable pub authorization_to_sign : ListingRow → Step Text
  authorization_to_sign listing = do
    expect_state listing (offer_published ∷ [])
    unsigned ← unsigned_transfer listing
    pure (transfer_preimage unsigned)

  unfoldable pub authorize :
      ListingRow → (signature_hex public_key_hex now : Text) → Step ListingRow
  authorize listing signature_hex public_key_hex now = do
    expect_state listing (offer_published ∷ [])
    unsigned ← unsigned_transfer listing
    throw_if (
        not (
          verify crypto listing.seller_address public_key_hex (transfer_preimage unsigned)
            signature_hex))
    upsert_listing
        (authorized_row listing (sign_transfer unsigned signature_hex public_key_hex) now)

  -- The end of `lockPayment`.
  abbrev pub lock_with : ListingRow → (now hash_lock buyer : Text) → Step ListingRow
  lock_with listing now hash_lock buyer = do
    htlc ← on_chain (λ chain. locked_outcome (
        lock_demo_htlc crypto chain (big_int listing.price_zat) hash_lock buyer
          listing.seller_address htlc_timeout_blocks))
    upsert_listing (locked_row listing htlc now)

  unfoldable pub lock_payment : ListingRow → (now : Text) → Step ListingRow
  lock_payment listing now = do
    expect_state listing (authorized ∷ [])
    auth ← or_throw listing.transfer_artifact
    hash_lock ← promised listing.hash_lock_hex
    buyer ← promised listing.buyer_address
    lock_with listing now hash_lock buyer

  unfoldable pub publish_transfer : ListingRow → (now : Text) → Step ListingRow
  publish_transfer listing now = do
    expect_state listing (payment_locked ∷ [])
    auth ← promised listing.transfer_artifact
    publication ←
        publish_record (transfer_record listing (to_hex (transfer_artifact_hash crypto auth)))
          (some auth.to_address)
    upsert_transfer (transfer_row listing auth publication now)
    upsert_listing (transferred_row listing publication.txid now)

  unfoldable pub claim_payment : ListingRow → (now : Text) → Step ListingRow
  claim_payment listing now = do
    expect_state listing (payment_locked ∷ transfer_published ∷ [])
    escrow ← promised listing.escrow_id
    preimage ← promised listing.preimage_hex
    htlc ← on_chain (λ chain. claim_demo_htlc crypto chain escrow preimage)
    upsert_listing (record listing { updated_at = now })

unfoldable pub cancel : ListingRow → (now : Text) → Step ListingRow
cancel listing now = do
  throw_if (any (same_state listing.state) (payment_locked ∷ transfer_published ∷ []))
  upsert_listing (record listing { state = cancelled; updated_at = now })
