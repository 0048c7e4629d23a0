-- ===== src/Store.antt =====
-- src/lib/store/types.ts: the rows of the store, and memory.ts: the maps that hold them.
use stamppad.Prelude.{ℕ, Option, List}
use stamppad.Text.{Text}
use stamppad.Protocol.Types.{CanonicalSolanaTx}
use stamppad.Zcash.Demo.{DemoZcashChain}
use stamppad.Protocol.Preimage.{TransferAuthorization, SettlementOffer}

-- The fields `protocol` and `version` are constants.
pub record StampRow : Type 0 where
  pub id : Text
  pub job_id : Text
  pub source_network : Text
  pub destination_network : Text
  pub mint : Text
  pub token_program : Text
  pub source_tx : Text
  pub burn_locator : Text
  pub amount_base : Text
  pub decimals : ℕ
  pub destination : Text
  pub burn_authority : Text
  pub authority_role : Text
  pub intent_locator : Text
  pub nonce : Text
  pub commitment_hex : Text
  pub zcash_tx : Text
  pub zcash_output_index : ℕ
  pub zcash_null_data_index : ℕ
  pub zcash_height : ℕ
  pub confirmations : ℕ
  pub created_at : Text

pub data ListingState : Type 0 where
  listed reserved offer_published authorized : ListingState
  payment_locked transfer_published settled cancelled expired failed : ListingState

pub record ListingRow : Type 0 where
  pub id : Text
  pub stamp_id : Text
  pub stamp_commitment_hex : Text
  pub sequence : ℕ
  pub state : ListingState
  pub seller_address : Text
  pub seller_public_key_hex : Text
  pub buyer_address : Option Text
  pub buyer_public_key_hex : Option Text
  pub price_zat : Text
  pub hash_lock_hex : Option Text
  pub preimage_hex : Option Text
  pub offer_artifact : Option SettlementOffer
  pub offer_txid : Option Text
  pub transfer_artifact : Option TransferAuthorization
  pub transfer_txid : Option Text
  pub escrow_id : Option Text
  pub expiry_height : Option ℕ
  pub note : Text
  pub created_at : Text
  pub updated_at : Text

pub record TransferRow : Type 0 where
  pub id : Text
  pub stamp_id : Text
  pub stamp_commitment_hex : Text
  pub sequence : ℕ
  pub listing_id : Option Text
  pub txid : Text
  pub artifact : TransferAuthorization
  pub created_at : Text

-- The demo chains are stored in the field `demo`; of the Solana chain only the transactions are read
-- here.
pub record MemoryShape : Type 0 where
  pub stamps : List (Text × StampRow)
  pub listings : List (Text × ListingRow)
  pub transfers : List (Text × TransferRow)
  pub solana_txs : List CanonicalSolanaTx
  pub zcash : DemoZcashChain
