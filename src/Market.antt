-- ===== src/Market.antt =====
-- src/lib/market.ts in demo mode: the requests of the market on the store. The chain of the store is
-- a copy until `saveDemo`: what a request that throws did to it is lost, while the rows it wrote
-- stay. Requests run one after the other. The rows for display are left out, and so are the answers.
pub mod Requests
pub mod Steps
pub mod Listings
mod Tests
use stamppad.Prelude.{
  ℕ, ◌+◌, Bool, true, false, not, ◌&&◌, ◌||◌, Option, none, some, List, [], ◌∷◌, ◌++◌, any, ltb,
  ◌==◌, if◌then◌else◌,
}
use stamppad.Prelude.Dict.{get, put}
use stamppad.Text.{Text, codes, text_eq, text_key}
use stamppad.Bytes.{Bytes, to_hex}
use stamppad.Action.{pure, throw, or_throw, gets, modify, throw_if, then_run, ◌>>=◌, ◌>>◌}
use stamppad.Mode.{Flags}
use stamppad.Store.{
  ListingState, listed, reserved, offer_published, authorized, payment_locked, transfer_published,
  settled, cancelled, expired, failed, ListingRow, MemoryShape, StampRow, TransferRow,
}
use stamppad.Protocol.Types.{ZcashPublication}
use stamppad.Protocol.Crypto.{Crypto}
use stamppad.Protocol.Preimage.{TransferAuthorization, decimal, transfer_preimage}
use stamppad.Protocol.Transfer.{OnChainRecord, transfer, transfer_artifact_hash}
use stamppad.Protocol.Ownership.State.{OwnershipEvent, StampOwnership}
use stamppad.Modules.Wallet.{OwnerScheme, ed25519, zcash_signmessage, no_scheme, capability, verify}
use stamppad.Modules.Settlement
use stamppad.Modules.Listing.{
  ListInput, Ownership, Step, ℤ, is_live, is_text, live_listing_of, sign_transfer, upsert_listing,
  upsert_transfer,
}
use stamppad.Modules.Settlement.{list_stamp, publish_record, reserve}
use stamppad.Indexer.{IndexedState, demo_min_confirms, index_from_store, owner_of}
use stamppad.Zcash.Demo.{DemoZcashChain, tick_confirmations}

-- Whether the history of a stamp has the listing's sale.
abbrev pub sold_in : ListingRow → List OwnershipEvent → Bool
sold_in listing history =
    any (λ h. (h.sequence == listing.sequence) && is_text listing.buyer_address h.to_address)
      history

abbrev pub applied : ListingRow → Option StampOwnership → Bool
applied listing none = false
applied listing (some owned) = sold_in listing owned.history

abbrev pub before_payment : ListingState → Bool
before_payment listed = true
before_payment reserved = true
before_payment offer_published = true
before_payment authorized = true
before_payment payment_locked = false
before_payment transfer_published = false
before_payment settled = false
before_payment cancelled = false
before_payment expired = false
before_payment failed = false

abbrev pub is_past : Option ℕ → ℕ → Bool
is_past none height = false
is_past (some expiry) height = ltb expiry height

-- What the loop of `reconcileListings` writes for a listing.
unfoldable pub reconciled :
    IndexedState → (height : ℕ) → ListingRow → (now : Text) → Option ListingRow
reconciled state height listing now =
    if not (is_live listing)
    then none
    else if applied listing (get state.ownership.stamps listing.stamp_commitment_hex)
    then some (record listing { state = settled; updated_at = now })
    else if before_payment listing.state && is_past listing.expiry_height height
    then some (record listing { state = expired; updated_at = now })
    else none

abbrev pub write_listing : Option ListingRow → MemoryShape → MemoryShape
write_listing none s = s
write_listing (some row) s = record s { listings = put s.listings row.id row }

-- The loop, over the listings as they were when it began.
unfoldable pub reconcile_rows :
    IndexedState
    → (height : ℕ) → (now : Text) → List (Text × ListingRow)
    → MemoryShape
    → MemoryShape
reconcile_rows state height now [] s = s
reconcile_rows state height now ((k, l) ∷ ls) s =
    reconcile_rows state height now ls (write_listing (reconciled state height l now) s)

-- The demo chain goes back to what the store has when a request throws.
abbrev pub restored :
    {A : Type 0} → DemoZcashChain → Option A × MemoryShape → Option A × MemoryShape
restored chain (none, s) = (none, record s { zcash = chain })
restored chain (some a, s) = (some a, s)

abbrev pub on_saved_chain : {A : Type 0} → Step A → Step A
on_saved_chain m s = restored s.zcash (m s)

abbrev pub tick : Step Unit
tick = modify (λ s. record s { zcash = tick_confirmations s.zcash demo_min_confirms })

-- The id, random bytes, clock and proof of control that a request finds.
pub record Fresh : Type 0 where
  pub id : Text
  pub secret : Bytes
  pub now : Text

pub data ListingAction : Type 0 where
  publish_offer authorize lock_payment publish_transfer claim_payment cancel : ListingAction

-- `if (!text) throw`: a text that is there and not empty
abbrev pub given : Option Text → Option Text
given none = none
given (some []) = none
given (some (c ∷ t)) = some (c ∷ t)

abbrev pub is_signmessage : OwnerScheme → Bool
is_signmessage zcash_signmessage = true
is_signmessage ed25519 = false
is_signmessage no_scheme = false

module _ (crypto : Crypto) (f : Flags) where
  unfoldable pub reconcile_listings : Text → Step IndexedState
  reconcile_listings now = do
    state ← (λ s. (index_from_store crypto f s, s))
    modify (λ s. reconcile_rows state s.zcash.height now s.listings s)
    pure state

  -- `withMarket`; the ownership is resolved before the request runs.
  unfoldable pub with_market : StampRow → Text → (Ownership → Step ListingRow) → Step ListingRow
  with_market stamp now request = do
    state ← reconcile_listings now
    on_saved_chain
        (do row ← request (owner_of state stamp.commitment_hex stamp.destination); tick; pure row)

  abbrev pub require_stamp : Text → Step StampRow
  require_stamp id s = (get s.stamps id, s)

  abbrev pub require_listing : Text → Step ListingRow
  require_listing id s = (get s.listings id, s)

  -- `proof` is the key that the session has proved for a transparent seller, if any.
  abbrev pub seller_key_for : (seller_address : Text) → (key proof : Option Text) → Option Text
  seller_key_for seller_address key proof =
      if not (is_signmessage (capability crypto seller_address).scheme) then given key else proof

  abbrev pub signer_key : ListingRow → Option Text → Option Text
  signer_key listing claimed = elim (given claimed) [
    | some key ↦ some key
    | none ↦
        if is_signmessage (capability crypto listing.seller_address).scheme
        then some listing.seller_public_key_hex
        else none
  ]

  -- The price is given as `BigInt` reads it.
  unfoldable pub create_listing :
      (stamp_id seller_address : Text) (key proof : Option Text) (price_zat : ℤ)
      (note : Option Text)
      → Fresh
      → Step ListingRow
  create_listing stamp_id seller_address key proof price_zat note fresh = do
    stamp ← require_stamp stamp_id
    seller_key ← or_throw (seller_key_for seller_address key proof)
    with_market stamp fresh.now (λ ownership.
        list_stamp crypto f ownership
          (record {
            stamp = stamp;
            seller_address = seller_address;
            seller_public_key_hex = seller_key;
            price_zat = price_zat;
            note = note;
          })
          fresh.id fresh.now)

  unfoldable pub reserve_listing :
      (listing_id buyer_address buyer_public_key_hex : Text) → Fresh → Step ListingRow
  reserve_listing listing_id buyer_address buyer_public_key_hex fresh = do
    first ← require_listing listing_id
    stamp ← require_stamp first.stamp_id
    with_market stamp fresh.now (λ ownership. do
      listing ← require_listing listing_id
      reserve crypto f listing buyer_address buyer_public_key_hex fresh.secret fresh.now)

  -- The `switch` of `advanceListing`.
  abbrev pub take_action :
      ListingAction
      → ListingRow
      → (signature_hex public_key_hex : Option Text) → Text
      → Step ListingRow
  take_action publish_offer listing signature_hex public_key_hex now = do
    signature ← or_throw (given signature_hex)
    key ← or_throw (signer_key listing public_key_hex)
    Settlement.publish_offer crypto f listing signature key now
  take_action authorize listing signature_hex public_key_hex now = do
    signature ← or_throw (given signature_hex)
    key ← or_throw (signer_key listing public_key_hex)
    Settlement.authorize crypto f listing signature key now
  take_action lock_payment listing signature_hex public_key_hex now =
      Settlement.lock_payment crypto f listing now
  take_action publish_transfer listing signature_hex public_key_hex now =
      Settlement.publish_transfer crypto f listing now
  take_action claim_payment listing signature_hex public_key_hex now =
      Settlement.claim_payment crypto f listing now
  take_action cancel listing signature_hex public_key_hex now = Settlement.cancel listing now

  unfoldable pub advance_listing :
      (listing_id : Text)
      → ListingAction
      → (signature_hex public_key_hex : Option Text) → Fresh
      → Step ListingRow
  advance_listing listing_id action signature_hex public_key_hex fresh = do
    first ← require_listing listing_id
    stamp ← require_stamp first.stamp_id
    with_market stamp fresh.now (λ ownership. do
      listing ← require_listing listing_id
      take_action action listing signature_hex public_key_hex fresh.now)

  abbrev pub gift : StampRow → Ownership → (to_address : Text) → TransferAuthorization
  gift stamp ownership to_address = record {
    stamp_commitment_hex = stamp.commitment_hex;
    sequence = ownership.sequence + 1;
    from_address = ownership.current_owner;
    to_address = to_address;
    offer_hash_hex = codes "none";
    preimage_hex = codes "none";
    owner_public_key_hex = [];
    signature_hex = [];
  }

  -- The row has the id `${commitment}:${sequence}`.
  abbrev pub gift_row : StampRow → TransferAuthorization → ZcashPublication → Text → TransferRow
  gift_row stamp auth publication now = record {
    id = auth.stamp_commitment_hex ++ (b':' ∷ decimal auth.sequence);
    stamp_id = stamp.id;
    stamp_commitment_hex = auth.stamp_commitment_hex;
    sequence = auth.sequence;
    listing_id = none;
    txid = publication.txid;
    artifact = auth;
    created_at = now;
  }

  -- The end of `submitTransfer`.
  abbrev pub publish_gift : StampRow → TransferAuthorization → Text → Step Unit
  publish_gift stamp auth now = do
    publication ←
        publish_record crypto f
          (record {
            kind = transfer;
            stamp_commitment_hex = auth.stamp_commitment_hex;
            sequence = auth.sequence;
            artifact_hash_hex = to_hex (transfer_artifact_hash crypto auth);
          })
          (some auth.to_address)
    upsert_transfer (gift_row stamp auth publication now)
    tick

  unfoldable pub submit_transfer :
      (stamp_id to_address signature_hex public_key_hex : Text) → Fresh → Step Unit
  submit_transfer stamp_id to_address signature_hex public_key_hex fresh = do
    stamp ← require_stamp stamp_id
    state ← (λ s. (index_from_store crypto f s, s))
    ownership ← pure (owner_of state stamp.commitment_hex stamp.destination)
    throw_if (not (capability crypto ownership.current_owner).can_authorize)
    throw_if (
        not (
          verify crypto ownership.current_owner public_key_hex
            (transfer_preimage (gift stamp ownership to_address)) signature_hex))
    live ← gets (λ s. any (live_listing_of stamp.id) s.listings)
    throw_if live
    on_saved_chain (
        publish_gift stamp
          (sign_transfer (gift stamp ownership to_address) signature_hex public_key_hex) fresh.now)

-- `tickDemoChain`
unfoldable pub tick_demo_chain : MemoryShape → MemoryShape
tick_demo_chain s =
    let chain = tick_confirmations s.zcash demo_min_confirms in
    record s { zcash = record chain { height = chain.height + 1 } }
