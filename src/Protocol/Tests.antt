-- ===== src/Protocol/Tests.antt =====
-- The protocol at concrete inputs: a stamp that is offered and then sold.
use mathlib.Core.List.{Memᴰ, Permᴰ}
use stamppad.Prelude.{
  ℕ, ◌≡◌, ◌≢◌, refl, sym, ◌∙◌, ap, true, none, some, [], ◌∷◌, ◌++◌, List, arith, length, replicate,
  All,
}
use stamppad.Prelude.Dict.{get, put}
use stamppad.Text.{Text, codes, text_eq, text_lt, text_key, join}
use stamppad.Sort.{insert, sort}
use stamppad.Sort.Sorted.{IsSorted}
use stamppad.Bytes.{Bytes, IsBytes, to_hex, from_hex, le_bytes, le_value}
use stamppad.Protocol.Types.{
  zcash_demo, IssuanceFields, solana_demo, token_program_id, AuthorityRole,
}
use stamppad.Protocol.Crypto.{Crypto, utf8}
use stamppad.Protocol.Address.{validate_transparent_address, verify_bech32m}
use stamppad.Protocol.Base58.{encode_base58, decode_base58}
use stamppad.Protocol.Base58.RoundTrip.{decode_base58-encode_base58, decode_base58-replicate}
use stamppad.Protocol.Preimage.{
  TransferAuthorization, SettlementOffer, transfer_preimage, offer_preimage, decimal, digits_before,
}
use stamppad.Protocol.Preimage.Injective.{
  HasLines, canonical_preimage-injective, transfer_preimage-ne-offer_preimage,
}
use stamppad.Protocol.Encoding.{encode_op_return_payload, decode_op_return_payload}
use stamppad.Protocol.Encoding.{encode_intent, decode_intent}
use stamppad.Protocol.Base58.{decode_base58_pubkey}
use stamppad.Protocol.Encoding.Intents.{
  intent_from, decode_intent-encode_intent, decode_op_return_payload-encode,
}
use stamppad.Protocol.Transfer.{
  RecordKind, encode_record, decode_record, offer_artifact_hash, transfer_artifact_hash,
  artifact_hash, verify_owner_signature, is_demo_managed_address, demo_address_matches_key,
  demo_address_for_key, buffer_eq, hash_lock_for, verify_hash_lock,
}
use stamppad.Protocol.Transfer.Records.{
  record_of, decode_record-encode_record, encode_record-decode_record,
}
use stamppad.Protocol.Ownership.State.{
  AcceptedStamp, CanonicalRecord, OwnershipInput, StampOwnership, compare_records,
}
use stamppad.Protocol.Ownership.Replay.{
  replay, resolve_ownership, fresh_stamp, start, initial_stamps, record_step, stamp_step,
  offer_step, transfer_step, offers_by_hash, transfers_by_hash, check_offer, check_transfer,
  check_bound, bind_offer, move_stamp, new_sales,
}
use stamppad.Protocol.Ownership.Custody.{IsKept, resolve_ownership-IsKept}
use stamppad.Protocol.Ownership.Terms.{IsSold, resolve_ownership-IsSold}
use stamppad.Protocol.Ownership.Sales.{IsTold, resolve_ownership-IsTold}
use stamppad.Protocol.Ownership.Order.{HasPositions, Precedes, resolve_ownership-perm}
use stamppad.Protocol.Ownership.Progress.{
  Extends, replay-Extends, counted, resolve_ownership-counted,
}

-- A hash that answers the same 32 bytes for all, and keys that sign everything.
abbrev pub one_hash : Crypto
one_hash = record {
  sha256 = λ b. replicate 32 7;
  ed25519_verify = λ m s k. some true;
  bs58_decode = λ t. none;
}

abbrev hash_text : Text
hash_text = to_hex (replicate 32 7)

abbrev seller : Text
seller = codes "zdemo1" ++ to_hex (replicate 20 7)

abbrev buyer : Text
buyer = codes "zdemo1" ++ to_hex (replicate 20 8)

abbrev one_offer : SettlementOffer
one_offer = record {
  stamp_commitment_hex = codes "aa";
  sequence = 1;
  seller_address = seller;
  buyer_address = buyer;
  price_zat = codes "5000";
  hash_lock_hex = hash_text;
  expiry_height = 900;
  owner_public_key_hex = codes "01";
  signature_hex = codes "02";
}

abbrev one_transfer : TransferAuthorization
one_transfer = record {
  stamp_commitment_hex = codes "aa";
  sequence = 1;
  from_address = seller;
  to_address = buyer;
  offer_hash_hex = hash_text;
  preimage_hex = codes "03";
  owner_public_key_hex = codes "01";
  signature_hex = codes "04";
}

abbrev record_at : ℕ → RecordKind → CanonicalRecord
record_at h kind = record {
  txid = codes "t";
  height = h;
  output_index = 1;
  confirmations = 10;
  in_best_chain = true;
  network = zcash_demo;
  on_chain = record {
    kind = kind;
    stamp_commitment_hex = codes "aa";
    sequence = 1;
    artifact_hash_hex = hash_text;
  };
}

abbrev offered : CanonicalRecord
offered = record_at 7 RecordKind.offer

abbrev paid : CanonicalRecord
paid = record_at 8 RecordKind.transfer

abbrev stamp_aa : AcceptedStamp
stamp_aa = record { commitment_hex = codes "aa"; original_recipient = seller }

abbrev one_sale : OwnershipInput
one_sale = record {
  destination_network = zcash_demo;
  min_confirmations = 3;
  stamps = stamp_aa ∷ [];
  records = paid ∷ offered ∷ [];
  transfer_artifacts = one_transfer ∷ [];
  offer_artifacts = one_offer ∷ [];
}

-- The stamp is sold once.
one_sale_sales : length (resolve_ownership one_hash one_sale).sales ≡ 1
unfolding resolve_ownership sort insert compare_records get put text_eq text_lt join to_hex from_hex
    utf8 initial_stamps replay record_step stamp_step offer_step transfer_step offers_by_hash
    transfers_by_hash check_offer check_transfer check_bound bind_offer move_stamp new_sales
    offer_artifact_hash transfer_artifact_hash artifact_hash verify_owner_signature
    is_demo_managed_address demo_address_matches_key demo_address_for_key hash_lock_for
    verify_hash_lock validate_transparent_address verify_bech32m decimal digits_before
    offer_preimage transfer_preimage
one_sale_sales = refl

resolve_ownership-IsKept_example :
    All (IsKept one_hash one_sale) (resolve_ownership one_hash one_sale).stamps
resolve_ownership-IsKept_example = resolve_ownership-IsKept one_hash one_sale

resolve_ownership-IsSold_example :
    All (IsSold one_hash one_sale) (resolve_ownership one_hash one_sale).stamps
resolve_ownership-IsSold_example = resolve_ownership-IsSold one_hash one_sale

resolve_ownership-IsTold_example : IsTold (resolve_ownership one_hash one_sale)
resolve_ownership-IsTold_example = resolve_ownership-IsTold one_hash one_sale

resolve_ownership-counted_example : counted (resolve_ownership one_hash one_sale) ≡ 2
resolve_ownership-counted_example = resolve_ownership-counted one_hash one_sale

records-HasPositions : HasPositions (paid ∷ offered ∷ [])
records-HasPositions a b (Memᴰ.head p) (Memᴰ.tail (Memᴰ.tail h)) e f g = elim h [ ]
records-HasPositions a b (Memᴰ.tail (Memᴰ.head p)) (Memᴰ.tail (Memᴰ.tail h)) e f g = elim h [ ]
records-HasPositions a b (Memᴰ.tail (Memᴰ.tail h)) mb e f g = elim h [ ]
records-HasPositions a b (Memᴰ.head p) (Memᴰ.head q) e f g = p ∙ sym q
records-HasPositions a b (Memᴰ.tail (Memᴰ.head p)) (Memᴰ.tail (Memᴰ.head q)) e f g = p ∙ sym q
records-HasPositions a b (Memᴰ.head p) (Memᴰ.tail (Memᴰ.head q)) e f g =
    absurd (omega (arith, e, ap (λ r. r.height) p, ap (λ r. r.height) q))
records-HasPositions a b (Memᴰ.tail (Memᴰ.head p)) (Memᴰ.head q) e f g =
    absurd (omega (arith, e, ap (λ r. r.height) p, ap (λ r. r.height) q))

resolve_ownership-perm_example :
    (ordered : List CanonicalRecord) × Permᴰ (paid ∷ offered ∷ []) ordered
    × IsSorted Precedes ordered
    × (resolve_ownership one_hash one_sale
        ≡ replay one_hash one_sale (start one_hash one_sale) ordered)
    × (resolve_ownership one_hash (record one_sale { records = offered ∷ paid ∷ [] })
        ≡ replay one_hash one_sale (start one_hash one_sale) ordered)
resolve_ownership-perm_example =
    resolve_ownership-perm one_hash one_sale (offered ∷ paid ∷ []) (Permᴰ.swap refl refl)
      records-HasPositions

known_aa : get (start one_hash one_sale).stamps (codes "aa") ≡ some (fresh_stamp stamp_aa)
unfolding get initial_stamps put text_eq
known_aa = refl

replay-Extends_example :
    (s : StampOwnership) × (get
        (replay one_hash one_sale (start one_hash one_sale) (offered ∷ paid ∷ [])).stamps
        (codes "aa")
      ≡ some s)
    × Extends (fresh_stamp stamp_aa) s
replay-Extends_example =
    replay-Extends one_hash one_sale (start one_hash one_sale) (offered ∷ paid ∷ []) (codes "aa")
      (fresh_stamp stamp_aa) known_aa

abbrev issued : IssuanceFields
issued = record {
  source_network = solana_demo;
  destination_network = zcash_demo;
  mint = codes "m";
  token_program = token_program_id;
  source_tx = codes "s";
  burn_locator = codes "outer:0";
  amount_base = codes "250";
  decimals = 6;
  destination = seller;
  burn_authority = codes "b";
  authority_role = AuthorityRole.owner;
  intent_locator = codes "outer:1";
  nonce = codes "n";
}

issued-HasLines : HasLines issued
unfolding to_hex
issued-HasLines = record {
  mint = omega arith;
  token_program = omega arith;
  source_tx = omega arith;
  burn_locator = omega arith;
  amount_base = omega arith;
  destination = omega arith;
  burn_authority = omega arith;
  intent_locator = omega arith;
  nonce = omega arith;
}

canonical_preimage-injective_example : issued ≡ issued
canonical_preimage-injective_example =
    canonical_preimage-injective issued issued issued-HasLines issued-HasLines refl

transfer_preimage-ne-offer_preimage_example :
    transfer_preimage one_transfer ≢ offer_preimage one_offer
transfer_preimage-ne-offer_preimage_example =
    transfer_preimage-ne-offer_preimage one_transfer one_offer

decode_base58-encode_base58_example :
    decode_base58 (encode_base58 (0 ∷ 0 ∷ 255 ∷ 7 ∷ [])) ≡ some (0 ∷ 0 ∷ 255 ∷ 7 ∷ [])
decode_base58-encode_base58_example =
    decode_base58-encode_base58 2 255 (7 ∷ []) (omega arith) (omega arith, (omega arith, tt))

decode_base58-replicate_example :
    (encode_base58 (replicate 32 0) ≡ replicate 33 b'1')
    × (decode_base58 (replicate 32 b'1') ≡ some (replicate 33 0))
decode_base58-replicate_example = decode_base58-replicate 31

decode_op_return_payload-encode_example :
    (b : Bytes) × (encode_op_return_payload (replicate 32 9) ≡ some b)
    × (length b ≡ 38)
    × (decode_op_return_payload b ≡ some (replicate 32 9))
decode_op_return_payload-encode_example = decode_op_return_payload-encode (replicate 32 9) refl

sevens-IsBytes : IsBytes (replicate 32 7)
sevens-IsBytes = omega arith

decode_record-encode_record_example :
    (b : Bytes) × (encode_record (record_of RecordKind.offer (replicate 32 7) 3 (replicate 32 7))
      ≡ some b)
    × (length b ≡ 74)
    × (decode_record b ≡ some (record_of RecordKind.offer (replicate 32 7) 3 (replicate 32 7)))
decode_record-encode_record_example =
    decode_record-encode_record RecordKind.offer (replicate 32 7) 3 (replicate 32 7) sevens-IsBytes
      sevens-IsBytes refl refl (omega arith)

abbrev record_bytes : Bytes
record_bytes =
    codes "STMO" ++ (le_bytes 2 1 ++ (replicate 32 7 ++ (le_bytes 4 3 ++ replicate 32 7)))

record_bytes-IsBytes : IsBytes record_bytes
unfolding le_bytes
record_bytes-IsBytes = omega arith

decode-record_bytes :
    decode_record record_bytes
    ≡ some (record_of RecordKind.offer (replicate 32 7) 3 (replicate 32 7))
unfolding decode_record le_bytes le_value buffer_eq text_eq to_hex
decode-record_bytes = refl

encode_record-decode_record_example :
    encode_record (record_of RecordKind.offer (replicate 32 7) 3 (replicate 32 7))
    ≡ some record_bytes
encode_record-decode_record_example =
    encode_record-decode_record record_bytes
      (record_of RecordKind.offer (replicate 32 7) 3 (replicate 32 7)) record_bytes-IsBytes
      decode-record_bytes

fives-key : decode_base58_pubkey (encode_base58 (replicate 32 5)) ≡ some (replicate 32 5)
unfolding encode_base58 decode_base58 decode_base58_pubkey
fives-key = refl

nines-IsBytes : IsBytes (replicate 16 9)
nines-IsBytes = omega arith

decode_intent-encode_intent_example :
    (b : Bytes) × (encode_intent (
        intent_from zcash_demo
          (codes "zdemo1aaaaaaaaaaaaaaaaaaaa")
          250
          (replicate 32 5)
          (replicate 16 9)
          (codes "outer:1"))
      ≡ some b)
    × (decode_intent b (codes "outer:1")
        ≡ some (
            intent_from zcash_demo
              (codes "zdemo1aaaaaaaaaaaaaaaaaaaa")
              250
              (replicate 32 5)
              (replicate 16 9)
              (codes "outer:1")))
decode_intent-encode_intent_example =
    decode_intent-encode_intent zcash_demo (codes "zdemo1aaaaaaaaaaaaaaaaaaaa") 250 (replicate 32 5)
      (replicate 16 9) (codes "outer:1") (omega arith) (omega arith) (omega arith) (omega arith)
      fives-key refl nines-IsBytes refl
