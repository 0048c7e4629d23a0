-- ===== src/Protocol/Validate/Tests.antt =====
-- A burn that is accepted.
use stamppad.Prelude.{◌≡◌, refl, true, false, none, some, [], ◌∷◌, ◌++◌, replicate}
use stamppad.Prelude.Dict.{get}
use stamppad.Text.{Text, codes, text_eq, text_key}
use stamppad.Bytes.{Bytes, to_hex, le_bytes, le_value}
use stamppad.Protocol.Types.{
  zcash_demo, solana_demo, token_program_id, memo_program_id, AuthorityRole, CanonicalSolanaTx,
  TxCommitment, BurnDecode, IntentV0, stmp_magic, ZcashPublication, AcceptedIssuance,
  IssuanceFields, TokenAccountView,
}
use stamppad.Protocol.Base58.{encode_base58}
use stamppad.Protocol.Crypto.{Crypto}
use stamppad.Protocol.Address.{validate_destination, is_demo_destination}
use stamppad.Protocol.Encoding.{
  decode_intent, commitment_of, encode_op_return_payload, decode_op_return_payload,
}
use stamppad.Protocol.Transfer.{buffer_eq}
use stamppad.Protocol.Validate.{
  Expected, valid, validate_burn, check_burn, check_account, check_intents, reject_extensions,
  decode_burn, first_burn, burn_of, published, validate_publication, accept_issuance, find_output,
  decode_intents, all_intents, issuance_of,
}
use stamppad.Protocol.Validate.Publications.{IsPublished, validate_publication-IsPublished}
use stamppad.Protocol.Validate.Burns.{IsAccepted, validate_burn-IsBurned}

abbrev pub seven_hash : Crypto
seven_hash = record {
  sha256 = λ b. replicate 32 7;
  ed25519_verify = λ m s k. some true;
  bs58_decode = λ t. none;
}

abbrev burned_mint : Text
burned_mint = encode_base58 (replicate 32 5)

abbrev pub recipient : Text
recipient = codes "zdemo1" ++ replicate 20 b'a'

abbrev memo : Bytes
memo =
    stmp_magic
    ++ (0 ∷ 0 ∷ 0 ∷ 26 ∷ recipient)
    ++ (le_bytes 8 250 ++ (replicate 32 5 ++ replicate 16 9))

abbrev account_of_holder : TokenAccountView
account_of_holder = record {
  address = codes "a";
  mint = burned_mint;
  owner = codes "h";
  amount = 0;
  delegate = none;
  delegated_amount = 0;
  frozen = false;
}

abbrev pub burn_tx : CanonicalSolanaTx
burn_tx = record {
  signature = codes "s";
  slot = 4;
  network = solana_demo;
  commitment = TxCommitment.finalized;
  failed = false;
  signers = codes "h" ∷ [];
  instructions =
      record {
        locator = codes "outer:0";
        instruction = record {
          program_id = token_program_id;
          accounts = codes "a" ∷ burned_mint ∷ codes "h" ∷ [];
          payload = 8 ∷ le_bytes 8 250;
        };
      }
      ∷ record {
        locator = codes "outer:1";
        instruction = record { program_id = memo_program_id; accounts = []; payload = memo };
      }
      ∷ [];
  token_accounts = (codes "a", account_of_holder) ∷ [];
  mint = record {
    address = burned_mint;
    program_id = token_program_id;
    supply = 900;
    decimals = 6;
    initialized = true;
    extensions = codes "tokenMetadata" ∷ [];
  };
}

abbrev pub claimed : Expected
claimed = record {
  source_network = solana_demo;
  destination_network = zcash_demo;
  mint = burned_mint;
  amount_base = 250;
  decimals = 6;
  destination = recipient;
}

abbrev pub burned : BurnDecode
burned = record {
  locator = codes "outer:0";
  program_id = token_program_id;
  token_account = codes "a";
  mint = burned_mint;
  authority = codes "h";
  amount_base = 250;
  decimals = none;
  checked = false;
}

abbrev pub intended : IntentV0
intended = record {
  destination_network = zcash_demo;
  destination = recipient;
  amount_base = 250;
  mint = burned_mint;
  nonce = to_hex (replicate 16 9);
  locator = codes "outer:1";
}

abbrev pub burned_issuance : IssuanceFields
burned_issuance = issuance_of seven_hash burn_tx claimed burned AuthorityRole.owner intended

validate-burn_tx :
    validate_burn seven_hash burn_tx claimed
    ≡ valid burned_issuance (commitment_of seven_hash burned_issuance) burned intended
unfolding validate_burn check_burn check_account check_intents reject_extensions decode_burn
    first_burn burn_of decode_intents all_intents decode_intent validate_destination
    is_demo_destination le_bytes le_value text_eq get to_hex encode_base58
validate-burn_tx = refl

validate_burn-IsBurned_example :
    IsAccepted seven_hash burn_tx claimed burned_issuance
      (commitment_of seven_hash burned_issuance)
      intended
      burned
validate_burn-IsBurned_example =
    validate_burn-IsBurned seven_hash burn_tx claimed burned_issuance
      (commitment_of seven_hash burned_issuance) burned intended validate-burn_tx

abbrev pub stamp_publication : ZcashPublication
stamp_publication = record {
  txid = codes "z";
  network = zcash_demo;
  height = some 12;
  confirmations = 10;
  in_best_chain = true;
  outputs =
      record { index = 0; value_zat = 10_000; address = some recipient; null_data = none }
      ∷ record {
        index = 1;
        value_zat = 0;
        address = none;
        null_data = some (stmp_magic ++ (0 ∷ 0 ∷ replicate 32 7));
      }
      ∷ [];
}

validate-stamp_publication :
    validate_publication seven_hash burned_issuance stamp_publication 3 ≡ published
unfolding validate_publication find_output decode_op_return_payload encode_op_return_payload
    commitment_of buffer_eq text_eq le_value le_bytes
validate-stamp_publication = refl

validate_publication-IsPublished_example :
    (row : AcceptedIssuance) × (accept_issuance seven_hash burned_issuance stamp_publication
      ≡ some row)
    × IsPublished seven_hash burned_issuance stamp_publication 3 row
validate_publication-IsPublished_example =
    validate_publication-IsPublished seven_hash burned_issuance stamp_publication 3
      validate-stamp_publication
