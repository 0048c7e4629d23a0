-- ===== src/Protocol/Validate.antt =====
-- src/lib/protocol/validate.ts: burns and publications against the claim. Messages are left out, and
-- so is the claim package, which is a copy of its arguments for display.

pub mod Burns
pub mod Publications
pub mod Tests
use stamppad.Prelude.{
  ℕ, ◌≡◌, Bool, true, false, not, ◌&&◌, ◌||◌, Option, none, some, List, [], ◌∷◌, ltb, leb, ◌==◌,
  if◌then◌else◌, length, any,
}
use stamppad.Prelude.Dict.{get}
use stamppad.Text.{Text, text_eq, text_key}
use stamppad.Bytes.{Bytes, subarray, byte_at, le_value, to_hex}
use stamppad.Protocol.Types.{
  SourceNetwork, DestNetwork, source_network_eq, dest_network_eq, AuthorityRole, owner, delegate,
  RejectReason, InstructionRef, CanonicalInstruction, TokenAccountView, MintView, TxCommitment,
  CanonicalSolanaTx, IntentV0, BurnDecode, IssuanceFields, AcceptedIssuance, ZcashOutput,
  ZcashPublication, token_program_id, token_2022_program_id, memo_program_id, native_mint_id,
  allowed_token_2022_extensions, rejected_token_2022_extensions, tx_failed, not_finalized,
  wrong_network, wrong_program, wrong_mint, wrong_amount, wrong_decimals, native_mint,
  unsupported_extension, unknown_extension, frozen_account, unauthorized_destination,
  missing_intent, intent_mismatch, authority_not_signer, unsupported_authority, invalid_destination,
  zcash_payload_invalid, zcash_destination_missing,
}
use stamppad.Protocol.Crypto.{Crypto}
use stamppad.Protocol.Preimage.{decimal}
use stamppad.Protocol.Address.{validate_destination}
use stamppad.Protocol.Encoding.{
  decode_intent, decode_op_return_payload, encode_op_return_payload, commitment_of,
}
use stamppad.Protocol.Transfer.{buffer_eq}

abbrev pub includes : List Text → Text → Bool
includes l t = any (λ x. text_eq x t) l

abbrev pub is_token_program : Text → Bool
is_token_program p = text_eq p token_program_id || text_eq p token_2022_program_id

-- BURN_IX and BURN_CHECKED_IX
abbrev pub burn_ix : ℕ
burn_ix = 8

abbrev pub burn_checked_ix : ℕ
burn_checked_ix = 15

abbrev pub burn_decimals : Bytes → Option ℕ
burn_decimals b =
    if byte_at b 0 == burn_checked_ix && leb 10 (length b) then some (byte_at b 9) else none

-- One turn of the loop of `decodeBurn`: `none` is `continue`.
abbrev pub burn_with_accounts : Text → InstructionRef → List Text → Option BurnDecode
burn_with_accounts locator i (account ∷ mint ∷ authority ∷ _) =
    if ltb (length i.payload) 9
    then none
    else if not (byte_at i.payload 0 == burn_ix) && not (byte_at i.payload 0 == burn_checked_ix)
    then none
    else some (record {
      locator = locator;
      program_id = i.program_id;
      token_account = account;
      mint = mint;
      authority = authority;
      amount_base = le_value (subarray 1 9 i.payload);
      decimals = burn_decimals i.payload;
      checked = byte_at i.payload 0 == burn_checked_ix;
    })
burn_with_accounts locator i _ = none

unfoldable pub burn_of : CanonicalInstruction → Option BurnDecode
burn_of item =
    if not (is_token_program item.instruction.program_id)
    then none
    else burn_with_accounts item.locator item.instruction item.instruction.accounts

unfoldable pub first_burn : List CanonicalInstruction → Option BurnDecode
first_burn [] = none
first_burn (item ∷ items) =
    let rest = first_burn items in elim (burn_of item) [ none ↦ rest | some b ↦ some b ]

unfoldable pub decode_burn : CanonicalSolanaTx → Option BurnDecode
decode_burn tx = first_burn tx.instructions

abbrev pub intent_of : CanonicalInstruction → Option IntentV0
intent_of item =
    if not (text_eq item.instruction.program_id memo_program_id)
    then none
    else decode_intent item.instruction.payload item.locator

unfoldable pub all_intents : List CanonicalInstruction → List IntentV0
all_intents [] = []
all_intents (item ∷ items) =
    let rest = all_intents items in elim (intent_of item) [ none ↦ rest | some i ↦ i ∷ rest ]

unfoldable pub decode_intents : CanonicalSolanaTx → List IntentV0
decode_intents tx = all_intents tx.instructions

unfoldable pub reject_extensions : List Text → Option RejectReason
reject_extensions [] = none
reject_extensions (ext ∷ exts) =
    let rest = reject_extensions exts in
    if includes rejected_token_2022_extensions ext
    then some unsupported_extension
    else if not (includes allowed_token_2022_extensions ext)
    then some unknown_extension
    else rest

pub record Expected : Type 0 where
  pub source_network : SourceNetwork
  pub destination_network : DestNetwork
  pub mint : Text
  pub amount_base : ℕ
  pub decimals : ℕ
  pub destination : Text

pub data ValidationResult : Type 0 where
  valid : IssuanceFields → Bytes → BurnDecode → IntentV0 → ValidationResult
  fail : RejectReason → ValidationResult

abbrev pub is_finalized : TxCommitment → Bool
is_finalized c = elim c [ TxCommitment.finalized ↦ true | _ ↦ false ]

abbrev pub is_some_text : Option Text → Text → Bool
is_some_text none t = false
is_some_text (some s) t = text_eq s t

abbrev pub same_decimals : Option ℕ → ℕ → Bool
same_decimals none n = false
same_decimals (some d) n = d == n

module _ (crypto : Crypto) (tx : CanonicalSolanaTx) (expected : Expected) where
  abbrev pub issuance_of : BurnDecode → AuthorityRole → IntentV0 → IssuanceFields
  issuance_of burn role intent = record {
    source_network = expected.source_network;
    destination_network = expected.destination_network;
    mint = burn.mint;
    token_program = burn.program_id;
    source_tx = tx.signature;
    burn_locator = burn.locator;
    amount_base = decimal burn.amount_base;
    decimals = tx.mint.decimals;
    destination = intent.destination;
    burn_authority = burn.authority;
    authority_role = role;
    intent_locator = intent.locator;
    nonce = intent.nonce;
  }

  -- From the intents on.
  unfoldable pub check_intents : BurnDecode → AuthorityRole → List IntentV0 → ValidationResult
  check_intents burn role [] = fail missing_intent
  check_intents burn role (intent ∷ _ ∷ _) = fail intent_mismatch
  check_intents burn role (intent ∷ []) =
      if not (text_eq intent.mint burn.mint) || not (intent.amount_base == burn.amount_base)
      then fail intent_mismatch
      else if not (dest_network_eq intent.destination_network expected.destination_network)
      then fail wrong_network
      else if not (text_eq intent.destination expected.destination)
      then fail unauthorized_destination
      else if not (validate_destination crypto expected.destination_network intent.destination)
      then fail invalid_destination
      else valid (issuance_of burn role intent)
          (commitment_of crypto (issuance_of burn role intent)) burn intent

  abbrev pub check_signer : BurnDecode → AuthorityRole → ValidationResult
  check_signer burn role =
      if not (includes tx.signers burn.authority)
      then fail authority_not_signer
      else check_intents burn role (decode_intents tx)

  -- From the token account on.
  unfoldable pub check_account : BurnDecode → Option TokenAccountView → ValidationResult
  check_account burn none = fail wrong_mint
  check_account burn (some account) =
      if not (text_eq account.mint burn.mint)
      then fail wrong_mint
      else if account.frozen
      then fail frozen_account
      else if text_eq account.owner burn.authority
      then check_signer burn owner
      else if is_some_text account.delegate burn.authority
          && leb burn.amount_base account.delegated_amount
      then check_signer burn delegate
      else fail unsupported_authority

  abbrev pub check_extensions : BurnDecode → Option RejectReason → ValidationResult
  check_extensions burn (some why) = fail why
  check_extensions burn none = check_account burn (get tx.token_accounts burn.token_account)

  -- From the burn on.
  unfoldable pub check_burn : Option BurnDecode → ValidationResult
  check_burn none = fail tx_failed
  check_burn (some burn) =
      if not (is_token_program burn.program_id)
      then fail wrong_program
      else if not (text_eq burn.mint expected.mint) || not (text_eq burn.mint tx.mint.address)
      then fail wrong_mint
      else if text_eq tx.mint.address native_mint_id || text_eq burn.mint native_mint_id
      then fail native_mint
      else if not (text_eq tx.mint.program_id burn.program_id)
      then fail wrong_program
      else if not tx.mint.initialized
      then fail wrong_mint
      else if not (burn.amount_base == expected.amount_base) || leb burn.amount_base 0
      then fail wrong_amount
      else if not (tx.mint.decimals == expected.decimals)
      then fail wrong_decimals
      else if burn.checked && not (same_decimals burn.decimals tx.mint.decimals)
      then fail wrong_decimals
      else check_extensions burn (reject_extensions tx.mint.extensions)

  unfoldable pub validate_burn : ValidationResult
  validate_burn =
      if not (source_network_eq tx.network expected.source_network)
      then fail wrong_network
      else if tx.failed
      then fail tx_failed
      else if not (is_finalized tx.commitment)
      then fail not_finalized
      else check_burn (decode_burn tx)

-- `outputs.find((o) => o.nullData && decodeOpReturnPayload(o.nullData))`
abbrev pub is_payload : Option Bytes → Bool
is_payload none = false
is_payload (some b) = elim (decode_op_return_payload b) [ none ↦ false | some c ↦ true ]

unfoldable pub find_output : (ZcashOutput → Bool) → List ZcashOutput → Option ZcashOutput
find_output test [] = none
find_output test (o ∷ os) = let rest = find_output test os in if test o then some o else rest

abbrev pub find_data : List ZcashOutput → Option ZcashOutput
find_data os = find_output (λ o. is_payload o.null_data) os

abbrev pub holds : Option Bytes → Option Bytes → Bool
holds none expected = false
holds (some b) none = false
holds (some b) (some expected) = buffer_eq b expected

abbrev pub output_holds : Option ZcashOutput → Option Bytes → Bool
output_holds none expected = false
output_holds (some o) expected = holds o.null_data expected

pub data PublicationResult : Type 0 where
  published : PublicationResult
  unpublished : RejectReason → PublicationResult

abbrev pub is_published : PublicationResult → Bool
is_published published = true
is_published (unpublished why) = false

module _ (crypto : Crypto) where
  -- The commitment is a SHA-256, so the payload is encoded without an exception.
  unfoldable pub validate_publication : IssuanceFields → ZcashPublication → ℕ → PublicationResult
  validate_publication issuance publication min =
      if not (dest_network_eq publication.network issuance.destination_network)
      then unpublished wrong_network
      else if not (
          output_holds (find_data publication.outputs)
            (encode_op_return_payload (commitment_of crypto issuance)))
      then unpublished zcash_payload_invalid
      else elim (find_output
          (λ o. is_some_text o.address issuance.destination && leb 10_000 o.value_zat)
          publication.outputs) [
            | none ↦ unpublished zcash_destination_missing
            | some o ↦
                if not publication.in_best_chain || ltb publication.confirmations min
                then unpublished zcash_payload_invalid
                else published
          ]

  abbrev index_or_zero : Option ZcashOutput → ℕ
  index_or_zero none = 0
  index_or_zero (some o) = o.index

  abbrev height_or_zero : Option ℕ → ℕ
  height_or_zero none = 0
  height_or_zero (some h) = h

  abbrev pub accepted_at : IssuanceFields → ZcashPublication → ℕ → ℕ → AcceptedIssuance
  accepted_at issuance publication output null_data = record {
    issuance = issuance;
    commitment_hex = to_hex (commitment_of crypto issuance);
    zcash_tx = publication.txid;
    zcash_output_index = output;
    zcash_null_data_index = null_data;
    zcash_height = height_or_zero publication.height;
    confirmations = publication.confirmations;
  }

  -- `none` is the exception on an output that is not there.
  abbrev accept_at :
      IssuanceFields
      → ZcashPublication
      → Option ZcashOutput
      → Option ZcashOutput
      → Option AcceptedIssuance
  accept_at issuance publication none o = none
  accept_at issuance publication (some d) none = none
  accept_at issuance publication (some d) (some o) =
      some (accepted_at issuance publication o.index d.index)

  unfoldable pub accept_issuance : IssuanceFields → ZcashPublication → Option AcceptedIssuance
  accept_issuance issuance publication =
      accept_at issuance publication (find_data publication.outputs)
        (find_output (λ o. is_some_text o.address issuance.destination) publication.outputs)

  abbrev first_output : List ZcashOutput → Option ZcashOutput
  first_output [] = none
  first_output (o ∷ os) = some o

  abbrev or_first : Option ZcashOutput → List ZcashOutput → Option ZcashOutput
  or_first none os = first_output os
  or_first (some o) os = some o

  unfoldable pub accept_published_stamp : IssuanceFields → ZcashPublication → AcceptedIssuance
  accept_published_stamp issuance publication =
      let o = index_or_zero (
        or_first
          (find_output (λ o. is_some_text o.address issuance.destination) publication.outputs)
          publication.outputs) in
      accepted_at issuance publication o o
