-- ===== src/Market/Tests.antt =====
-- A sale from its listing to the claim of the payment.
use stamppad.Prelude.{ℕ, ◌≡◌, refl, true, none, some, [], ◌∷◌, ◌++◌, replicate, arith}
use stamppad.Prelude.Dict.{get, put}
use stamppad.Text.{Text, codes, text_eq, text_key}
use stamppad.Bytes.{to_hex, from_hex}
use stamppad.Store.{ListingRow, MemoryShape, StampRow, authorized}
use stamppad.Protocol.Types.{zcash_demo}
use stamppad.Protocol.Preimage.{decimal, TransferAuthorization, SettlementOffer, offer_preimage}
use stamppad.Protocol.Transfer.{
  artifact_hash, demo_address_for_key, demo_address_matches_key, hash_lock_for,
  is_demo_managed_address, offer_artifact_hash, transfer_artifact_hash, transfer,
  verify_owner_signature,
}
use stamppad.Protocol.Validate.Tests.{seven_hash}
use stamppad.Protocol.Ownership.State.{
  CanonicalRecord, OwnershipInput, OwnershipOutput, StampOwnership,
}
use stamppad.Protocol.Ownership.Replay.{
  known_offers, known_transfers, replay, offers_by_hash, transfers_by_hash,
}
use stamppad.Protocol.Ownership.Steps.{IsConfirmed}
use stamppad.Modules.Wallet.{verify, verify-verify_owner_signature}
use stamppad.Modules.Listing.{pos}
use stamppad.Modules.Settlement.{lock_payment, claim_payment}
use stamppad.Modules.Settlement.Stages.{Authorized, HasListings, Offered, Reserved}
use stamppad.Modules.Settlement.Sales.{IsSettledBy, offer_found, transfer_found, replay-IsSettledBy}
use stamppad.Modules.Settlement.Claims.{IsClaimed, lock_payment-claim_payment}
use stamppad.Indexer.Tests.{demo_flags}
use stamppad.Market.{Fresh, ListingAction}
use stamppad.Market.Requests.{create, advance, reconcile, run_requests}
use stamppad.Market.Listings.{run_requests-HasListings}
use stamppad.Zcash.Demo.{empty_zcash}

abbrev seller : Text
seller = codes "zdemo1" ++ to_hex (replicate 20 7)

abbrev buyer : Text
buyer = codes "t1buyer"

verify-verify_owner_signature_example :
    verify seven_hash seller (codes "aa") (codes "m") (codes "bb")
    ≡ verify_owner_signature seven_hash seller (codes "aa") (codes "m") (codes "bb")
verify-verify_owner_signature_example =
    verify-verify_owner_signature seven_hash seller (codes "aa") (codes "m") (codes "bb")

abbrev lock : Text
lock = to_hex (replicate 32 7)

abbrev offered : SettlementOffer
offered = record {
  stamp_commitment_hex = codes "c";
  sequence = 1;
  seller_address = seller;
  buyer_address = buyer;
  price_zat = codes "900";
  hash_lock_hex = lock;
  expiry_height = 148;
  owner_public_key_hex = codes "aa";
  signature_hex = codes "bb";
}

abbrev granted : TransferAuthorization
granted = record {
  stamp_commitment_hex = codes "c";
  sequence = 1;
  from_address = seller;
  to_address = buyer;
  offer_hash_hex = to_hex (offer_artifact_hash seven_hash offered);
  preimage_hex = codes "ff";
  owner_public_key_hex = codes "aa";
  signature_hex = codes "bb";
}

abbrev ready : ListingRow
ready = record {
  id = codes "l";
  stamp_id = codes "s";
  stamp_commitment_hex = codes "c";
  sequence = 1;
  state = authorized;
  seller_address = seller;
  seller_public_key_hex = codes "aa";
  buyer_address = some buyer;
  buyer_public_key_hex = some (codes "dd");
  price_zat = codes "900";
  hash_lock_hex = some lock;
  preimage_hex = some (codes "ff");
  offer_artifact = some offered;
  offer_txid = some (codes "t");
  transfer_artifact = some granted;
  transfer_txid = none;
  escrow_id = none;
  expiry_height = some 148;
  note = [];
  created_at = codes "0";
  updated_at = codes "0";
}

ready-Reserved : Reserved seven_hash ready
unfolding hash_lock_for from_hex to_hex
ready-Reserved = record {
  buyer_address = buyer;
  secret = codes "ff";
  lock = lock;
  height = 148;
  named = refl;
  kept = refl;
  locked = refl;
  dated = refl;
  opens = refl;
  other = λ e. ground arith;
}

ready-Offered : Offered seven_hash ready
unfolding verify_owner_signature demo_address_matches_key demo_address_for_key
    is_demo_managed_address text_eq from_hex to_hex
ready-Offered = record {
  offer = offered;
  kept = refl;
  same_stamp = refl;
  same_sequence = refl;
  from_seller = refl;
  to_buyer = refl;
  at_price = refl;
  locked = refl;
  signed = refl;
}

ready-Authorized : Authorized seven_hash ready
unfolding verify_owner_signature demo_address_matches_key demo_address_for_key
    is_demo_managed_address text_eq from_hex to_hex offer_artifact_hash offer_preimage decimal
    artifact_hash
ready-Authorized = record {
  auth = granted;
  kept = refl;
  same_stamp = refl;
  same_sequence = refl;
  from_seller = refl;
  to_buyer = refl;
  revealed = refl;
  names = λ o e. refl;
  signed = refl;
}

abbrev issued : StampRow
issued = record {
  id = codes "s";
  job_id = [];
  source_network = codes "solana:demo";
  destination_network = codes "zcash:demo";
  mint = [];
  token_program = [];
  source_tx = [];
  burn_locator = [];
  amount_base = codes "250";
  decimals = 6;
  destination = seller;
  burn_authority = [];
  authority_role = codes "owner";
  intent_locator = [];
  nonce = [];
  commitment_hex = codes "c";
  zcash_tx = [];
  zcash_output_index = 0;
  zcash_null_data_index = 1;
  zcash_height = 100;
  confirmations = 3;
  created_at = codes "0";
}

abbrev market : MemoryShape
market = record {
  stamps = (codes "s", issued) ∷ [];
  listings = (codes "l", ready) ∷ [];
  transfers = [];
  solana_txs = [];
  zcash = empty_zcash;
}

lock_payment-claim_payment_example :
    (row : ListingRow) × (s₁ : MemoryShape) × (done : ListingRow) × (s₂ : MemoryShape)
    × (lock_payment seven_hash demo_flags ready (codes "1") market ≡ (some row, s₁))
    × (claim_payment seven_hash demo_flags row (codes "2") s₁ ≡ (some done, s₂))
    × IsClaimed seven_hash demo_flags done s₂
lock_payment-claim_payment_example =
    lock_payment-claim_payment seven_hash demo_flags ready market (codes "1") (codes "2") refl
      ready-Reserved ready-Authorized

abbrev owned : StampOwnership
owned = record {
  stamp_commitment_hex = codes "c";
  original_recipient = seller;
  current_owner = seller;
  sequence = 0;
  history = [];
  bound_offers = [];
  transferable = true;
}

abbrev before : OwnershipOutput
before = record { stamps = (codes "c", owned) ∷ []; pending = []; rejected = []; sales = [] }

abbrev published : OwnershipInput
published = record {
  destination_network = zcash_demo;
  min_confirmations = 2;
  stamps = [];
  records = [];
  transfer_artifacts = granted ∷ [];
  offer_artifacts = offered ∷ [];
}

abbrev mined : ℕ → CanonicalRecord
mined height = record {
  txid = codes "t";
  height = height;
  output_index = 0;
  confirmations = 3;
  in_best_chain = true;
  network = zcash_demo;
  on_chain = record {
    kind = transfer;
    stamp_commitment_hex = [];
    sequence = 0;
    artifact_hash_hex = [];
  };
}

mined-IsConfirmed : (height : ℕ) → IsConfirmed seven_hash published (mined height)
mined-IsConfirmed height = record { network = refl; best_chain = refl; deep = omega arith }

offer_known :
    get (known_offers seven_hash published) (to_hex (offer_artifact_hash seven_hash offered))
    ≡ some offered
unfolding get put text_eq offers_by_hash offer_artifact_hash artifact_hash to_hex
offer_known = refl

transfer_known :
    get (known_transfers seven_hash published) (to_hex (transfer_artifact_hash seven_hash granted))
    ≡ some granted
unfolding get put text_eq transfers_by_hash transfer_artifact_hash artifact_hash to_hex
transfer_known = refl

stamp_known : get before.stamps (codes "c") ≡ some owned
unfolding get text_eq
stamp_known = refl

replay-IsSettledBy_example :
    IsSettledBy seven_hash ready ready-Reserved ready-Offered ready-Authorized before (
      replay seven_hash published before (
        offer_found seven_hash ready ready-Reserved ready-Offered ready-Authorized published
          (mined 9)
          (mined-IsConfirmed 9)
        ∷ transfer_found seven_hash ready ready-Reserved ready-Offered ready-Authorized published
            (mined 10)
            (mined-IsConfirmed 10)
        ∷ []))
unfolding get ready-Offered ready-Authorized
replay-IsSettledBy_example =
    replay-IsSettledBy seven_hash ready ready-Reserved ready-Offered ready-Authorized published
      (mined 9) (mined 10) (mined-IsConfirmed 9) (mined-IsConfirmed 10) before owned stamp_known
      refl refl refl offer_known transfer_known

abbrev fresh : Fresh
fresh = record { id = codes "m"; secret = replicate 32 9; now = codes "3" }

run_requests-HasListings_example : HasListings seven_hash (
    run_requests seven_hash demo_flags market (
      create (codes "s") seller (some (codes "aa")) none (pos 900) none fresh
      ∷ advance (codes "l") ListingAction.lock_payment none none fresh
      ∷ advance (codes "l") ListingAction.publish_transfer none none fresh
      ∷ reconcile (codes "4")
      ∷ []))
run_requests-HasListings_example =
    run_requests-HasListings seven_hash demo_flags market
      (create (codes "s") seller (some (codes "aa")) none (pos 900) none fresh
        ∷ advance (codes "l") ListingAction.lock_payment none none fresh
        ∷ advance (codes "l") ListingAction.publish_transfer none none fresh
        ∷ reconcile (codes "4")
        ∷ [])
      ((refl, (ready-Reserved, ready-Offered, ready-Authorized)), tt)
