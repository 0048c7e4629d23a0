-- ===== src/Protocol/Types.antt =====
-- src/lib/protocol/types.ts and constants.ts. A network is an enumeration with its name in the
-- source; amounts (`bigint`), heights and indices are natural numbers; an error is its reason, and
-- the English message beside it is left out.
use stamppad.Prelude.{ℕ, Bool, true, false, Option, none, some, List, [], ◌∷◌, ◌==◌, if◌then◌else◌}
use stamppad.Text.{Text, codes}
use stamppad.Bytes.{Bytes}

pub data SourceNetwork : Type 0 where
  solana_demo solana_devnet solana_mainnet_beta : SourceNetwork

pub data DestNetwork : Type 0 where
  zcash_demo zcash_test zcash_main : DestNetwork

abbrev pub source_network_text : SourceNetwork → Text
source_network_text solana_demo = codes "solana:demo"
source_network_text solana_devnet = codes "solana:devnet"
source_network_text solana_mainnet_beta = codes "solana:mainnet-beta"

abbrev pub dest_network_text : DestNetwork → Text
dest_network_text zcash_demo = codes "zcash:demo"
dest_network_text zcash_test = codes "zcash:test"
dest_network_text zcash_main = codes "zcash:main"

abbrev pub source_network_eq : SourceNetwork → SourceNetwork → Bool
source_network_eq solana_demo solana_demo = true
source_network_eq solana_devnet solana_devnet = true
source_network_eq solana_mainnet_beta solana_mainnet_beta = true
source_network_eq _ _ = false

abbrev pub dest_network_eq : DestNetwork → DestNetwork → Bool
dest_network_eq zcash_demo zcash_demo = true
dest_network_eq zcash_test zcash_test = true
dest_network_eq zcash_main zcash_main = true
dest_network_eq _ _ = false

-- DEST_NETWORK_CODE
abbrev pub dest_network_code : DestNetwork → ℕ
dest_network_code zcash_demo = 0
dest_network_code zcash_test = 1
dest_network_code zcash_main = 2

-- DEST_NETWORK_FROM_CODE
abbrev pub dest_network_from_code : ℕ → Option DestNetwork
dest_network_from_code c =
    if c == 0
    then some zcash_demo
    else if c == 1
    then some zcash_test
    else if c == 2
    then some zcash_main
    else none

pub data AuthorityRole : Type 0 where
  owner delegate : AuthorityRole

abbrev pub authority_role_text : AuthorityRole → Text
authority_role_text owner = codes "owner"
authority_role_text delegate = codes "delegate"

pub data RejectReason : Type 0 where
  tx_failed not_finalized wrong_network wrong_program wrong_mint : RejectReason
  wrong_amount wrong_decimals native_mint unsupported_extension frozen_account : RejectReason
  unauthorized_destination missing_intent intent_mismatch authority_not_signer : RejectReason
  unsupported_authority duplicate_claim duplicate_publication invalid_destination : RejectReason
  zcash_payload_invalid zcash_destination_missing solana_reorg : RejectReason
  insufficient_publication_funds unknown_extension : RejectReason

pub record InstructionRef : Type 0 where
  pub program_id : Text
  pub accounts : List Text
  pub payload : Bytes

pub record CanonicalInstruction : Type 0 where
  pub locator : Text
  pub instruction : InstructionRef

pub record TokenAccountView : Type 0 where
  pub address : Text
  pub mint : Text
  pub owner : Text
  pub amount : ℕ
  pub delegate : Option Text
  pub delegated_amount : ℕ
  pub frozen : Bool

pub record MintView : Type 0 where
  pub address : Text
  pub program_id : Text
  pub supply : ℕ
  pub decimals : ℕ
  pub initialized : Bool
  pub extensions : List Text

pub data TxCommitment : Type 0 where
  processed confirmed finalized : TxCommitment

-- `failed` is `err` read as a condition: any error is truthy.
pub record CanonicalSolanaTx : Type 0 where
  pub signature : Text
  pub slot : ℕ
  pub network : SourceNetwork
  pub commitment : TxCommitment
  pub failed : Bool
  pub signers : List Text
  pub instructions : List CanonicalInstruction
  pub token_accounts : List (Text × TokenAccountView)
  pub mint : MintView

-- The field `version` is always 0.
pub record IntentV0 : Type 0 where
  pub destination_network : DestNetwork
  pub destination : Text
  pub amount_base : ℕ
  pub mint : Text
  pub nonce : Text
  pub locator : Text

pub record BurnDecode : Type 0 where
  pub locator : Text
  pub program_id : Text
  pub token_account : Text
  pub mint : Text
  pub authority : Text
  pub amount_base : ℕ
  pub decimals : Option ℕ
  pub checked : Bool

-- The fields `protocol` and `version` are always PROTOCOL_ID and 0.
pub record IssuanceFields : Type 0 where
  pub source_network : SourceNetwork
  pub destination_network : DestNetwork
  pub mint : Text
  pub token_program : Text
  pub source_tx : Text
  pub burn_locator : Text
  pub amount_base : Text
  pub decimals : ℕ
  pub destination : Text
  pub burn_authority : Text
  pub authority_role : AuthorityRole
  pub intent_locator : Text
  pub nonce : Text

pub record AcceptedIssuance : Type 0 where
  pub issuance : IssuanceFields
  pub open issuance use *
  pub commitment_hex : Text
  pub zcash_tx : Text
  pub zcash_output_index : ℕ
  pub zcash_null_data_index : ℕ
  pub zcash_height : ℕ
  pub confirmations : ℕ

pub record ZcashOutput : Type 0 where
  pub index : ℕ
  pub value_zat : ℕ
  pub address : Option Text
  pub null_data : Option Bytes

pub record ZcashPublication : Type 0 where
  pub txid : Text
  pub network : DestNetwork
  pub height : Option ℕ
  pub confirmations : ℕ
  pub in_best_chain : Bool
  pub outputs : List ZcashOutput

-- constants.ts
abbrev pub protocol_id : Text
protocol_id = codes "stamp-exp"

abbrev pub token_program_id : Text
token_program_id = codes "TokenkegQfeZyiNwAJbNbGKPFXCWuBvf9Ss623VQ5DA"

abbrev pub token_2022_program_id : Text
token_2022_program_id = codes "TokenzQdBNbLqP5VEhdkAS6EPFLC1PHnBqCXEpPxuEb"

abbrev pub memo_program_id : Text
memo_program_id = codes "MemoSq4gqABAXKb96QnHj5ZbxdnGBnVWJChLWKFgS4"

abbrev pub native_mint_id : Text
native_mint_id = codes "So11111111111111111111111111111111111111112"

abbrev pub stmp_magic : Bytes
stmp_magic = codes "STMP"

abbrev pub transfer_magic : Bytes
transfer_magic = codes "STMX"

abbrev pub offer_magic : Bytes
offer_magic = codes "STMO"

abbrev pub op_return_payload_len : ℕ
op_return_payload_len = 38

abbrev pub record_payload_len : ℕ
record_payload_len = 74

abbrev pub op_return_data_limit : ℕ
op_return_data_limit = 80

abbrev pub destination_notice_zatoshis : ℕ
destination_notice_zatoshis = 10_000

abbrev pub allowed_token_2022_extensions : List Text
allowed_token_2022_extensions =
    codes "metadataPointer" ∷ codes "tokenMetadata" ∷ codes "mintCloseAuthority" ∷ []

abbrev pub rejected_token_2022_extensions : List Text
rejected_token_2022_extensions =
    codes "transferFeeConfig"
    ∷ codes "transferHook"
    ∷ codes "confidentialTransferMint"
    ∷ codes "pausable"
    ∷ codes "permissionedBurn"
    ∷ codes "permanentDelegate"
    ∷ codes "nonTransferable"
    ∷ codes "interestBearingConfig"
    ∷ codes "scaledUiAmount"
    ∷ codes "defaultAccountState"
    ∷ []
