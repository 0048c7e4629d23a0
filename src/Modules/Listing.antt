-- ===== src/Modules/Listing.antt =====
-- The rows and artifacts of src/lib/modules/settlement.ts, with the tests on a listing's state. A
-- field that the state of a listing promises (`!`) is read by `promised`: where it is null the model
-- throws.
use stamppad.Prelude.{
  ℕ, ◌+◌, Bool, true, false, not, ◌&&◌, Option, none, some, List, [], ◌∷◌, ◌++◌, any, ◌==◌,
}
use stamppad.Prelude.Dict.{put}
use stamppad.Text.{Text, text_eq, text_key}
use stamppad.Bytes.{Bytes, to_hex}
use stamppad.Action.{Action, pure, or_throw, modify, throw_if, ◌>>=◌}
use stamppad.Store.{
  StampRow, ListingState, listed, reserved, offer_published, authorized, payment_locked,
  transfer_published, settled, cancelled, expired, failed, ListingRow, TransferRow, MemoryShape,
}
use stamppad.Protocol.Types.{ZcashPublication}
use stamppad.Protocol.Encoding.{read_number}
use stamppad.Protocol.Preimage.{TransferAuthorization, SettlementOffer, decimal}
use stamppad.Protocol.Transfer.{transfer, offer, OnChainRecord}
use stamppad.Zcash.Demo.{DemoHtlc, DemoZcashChain, Outcome}

abbrev pub htlc_timeout_blocks : ℕ
htlc_timeout_blocks = 48

-- A bigint
pub data ℤ : Type 0 where
  pos negsuc : ℕ → ℤ

abbrev pub not_positive : ℤ → Bool
not_positive (pos n) = n == 0
not_positive (negsuc n) = true

-- n.toString(10)
abbrev pub integer_text : ℤ → Text
integer_text (pos n) = decimal n
integer_text (negsuc n) = b'-' ∷ decimal (n + 1)

-- BigInt(text), of the texts of positive numbers, which are all that is stored.
abbrev pub big_int : Text → ℕ
big_int t = (read_number 0 0 t).0

pub record Ownership : Type 0 where
  pub current_owner : Text
  pub sequence : ℕ

pub record ListInput : Type 0 where
  pub stamp : StampRow
  pub seller_address : Text
  pub seller_public_key_hex : Text
  pub price_zat : ℤ
  pub note : Option Text

abbrev pub Step : Type 0 → Type 0
Step = Action MemoryShape

-- A field that is not null.
abbrev pub promised : {A : Type 0} → Option A → Step A
promised = or_throw

abbrev pub upsert_listing : ListingRow → Step ListingRow
upsert_listing row s = (some row, record s { listings = put s.listings row.id row })

abbrev pub upsert_transfer : TransferRow → Step Unit
upsert_transfer row = modify (λ s. record s { transfers = put s.transfers row.id row })

-- A function of the demo chain, on the chain of the store.
abbrev pub with_zcash : {A : Type 0} → MemoryShape → Outcome A → Option A × MemoryShape
with_zcash s (r, chain) = (r, record s { zcash = chain })

abbrev pub on_chain : {A : Type 0} → (DemoZcashChain → Outcome A) → Step A
on_chain f s = with_zcash s (f s.zcash)

abbrev pub is_live_state : ListingState → Bool
is_live_state settled = false
is_live_state cancelled = false
is_live_state expired = false
is_live_state failed = false
is_live_state listed = true
is_live_state reserved = true
is_live_state offer_published = true
is_live_state authorized = true
is_live_state payment_locked = true
is_live_state transfer_published = true

abbrev pub is_live : ListingRow → Bool
is_live listing = is_live_state listing.state

abbrev pub same_state : ListingState → ListingState → Bool
same_state listed b = elim b [ listed ↦ true | _ ↦ false ]
same_state reserved b = elim b [ reserved ↦ true | _ ↦ false ]
same_state offer_published b = elim b [ offer_published ↦ true | _ ↦ false ]
same_state authorized b = elim b [ authorized ↦ true | _ ↦ false ]
same_state payment_locked b = elim b [ payment_locked ↦ true | _ ↦ false ]
same_state transfer_published b = elim b [ transfer_published ↦ true | _ ↦ false ]
same_state settled b = elim b [ settled ↦ true | _ ↦ false ]
same_state cancelled b = elim b [ cancelled ↦ true | _ ↦ false ]
same_state expired b = elim b [ expired ↦ true | _ ↦ false ]
same_state failed b = elim b [ failed ↦ true | _ ↦ false ]

abbrev pub expect_state : ListingRow → List ListingState → Step Unit
expect_state listing allowed = throw_if (not (any (same_state listing.state) allowed))

abbrev pub is_text : Option Text → Text → Bool
is_text none t = false
is_text (some a) t = text_eq a t

abbrev pub note_or_empty : Option Text → Text
note_or_empty none = []
note_or_empty (some t) = t

abbrev pub live_listing_of : Text → Text × ListingRow → Bool
live_listing_of stamp_id (k, l) = text_eq l.stamp_id stamp_id && is_live l

abbrev pub new_listing : Ownership → ListInput → (id now : Text) → ListingRow
new_listing ownership input id now = record {
  id = id;
  stamp_id = input.stamp.id;
  stamp_commitment_hex = input.stamp.commitment_hex;
  sequence = ownership.sequence + 1;
  state = listed;
  seller_address = input.seller_address;
  seller_public_key_hex = input.seller_public_key_hex;
  buyer_address = none;
  buyer_public_key_hex = none;
  price_zat = integer_text input.price_zat;
  hash_lock_hex = none;
  preimage_hex = none;
  offer_artifact = none;
  offer_txid = none;
  transfer_artifact = none;
  transfer_txid = none;
  escrow_id = none;
  expiry_height = none;
  note = note_or_empty input.note;
  created_at = now;
  updated_at = now;
}

-- `lockDemoHtlc` throws nothing.
abbrev pub locked_outcome : DemoHtlc × DemoZcashChain → Outcome DemoHtlc
locked_outcome (htlc, chain) = (some htlc, chain)

-- The row has the id `${commitment}:${sequence}`.
abbrev pub transfer_row :
    ListingRow → TransferAuthorization → ZcashPublication → (now : Text) → TransferRow
transfer_row listing auth publication now = record {
  id = listing.stamp_commitment_hex ++ (b':' ∷ decimal listing.sequence);
  stamp_id = listing.stamp_id;
  stamp_commitment_hex = listing.stamp_commitment_hex;
  sequence = listing.sequence;
  listing_id = some listing.id;
  txid = publication.txid;
  artifact = auth;
  created_at = now;
}

-- The unsigned offer and transfer, with empty texts where the signature will be.
unfoldable pub unsigned_offer : ListingRow → Step SettlementOffer
unsigned_offer listing = do
  buyer ← promised listing.buyer_address
  hash_lock ← promised listing.hash_lock_hex
  expiry ← promised listing.expiry_height
  pure (record {
    stamp_commitment_hex = listing.stamp_commitment_hex;
    sequence = listing.sequence;
    seller_address = listing.seller_address;
    buyer_address = buyer;
    price_zat = listing.price_zat;
    hash_lock_hex = hash_lock;
    expiry_height = expiry;
    owner_public_key_hex = [];
    signature_hex = [];
  })

abbrev pub sign_offer : SettlementOffer → (signature_hex public_key_hex : Text) → SettlementOffer
sign_offer unsigned signature_hex public_key_hex = record unsigned {
  owner_public_key_hex = public_key_hex;
  signature_hex = signature_hex;
}

abbrev pub sign_transfer :
    TransferAuthorization → (signature_hex public_key_hex : Text) → TransferAuthorization
sign_transfer unsigned signature_hex public_key_hex = record unsigned {
  owner_public_key_hex = public_key_hex;
  signature_hex = signature_hex;
}

-- The rows that the steps write.
abbrev pub reserved_row :
    ListingRow
    → (buyer_address buyer_public_key_hex : Text) (secret : Bytes) (hash_lock : Text) (height : ℕ)
      (now : Text)
    → ListingRow
reserved_row listing buyer_address buyer_public_key_hex secret hash_lock height now =
    record listing {
      state = reserved;
      buyer_address = some buyer_address;
      buyer_public_key_hex = some buyer_public_key_hex;
      preimage_hex = some (to_hex secret);
      hash_lock_hex = some hash_lock;
      expiry_height = some (height + htlc_timeout_blocks);
      updated_at = now;
    }

abbrev pub offered_row : ListingRow → SettlementOffer → (txid now : Text) → ListingRow
offered_row listing o txid now = record listing {
  state = offer_published;
  offer_artifact = some o;
  offer_txid = some txid;
  updated_at = now;
}

abbrev pub authorized_row : ListingRow → TransferAuthorization → (now : Text) → ListingRow
authorized_row listing auth now = record listing {
  state = authorized;
  transfer_artifact = some auth;
  updated_at = now;
}

abbrev pub locked_row : ListingRow → DemoHtlc → (now : Text) → ListingRow
locked_row listing htlc now = record listing {
  state = payment_locked;
  escrow_id = some htlc.id;
  expiry_height = some htlc.expiry_height;
  updated_at = now;
}

abbrev pub transferred_row : ListingRow → (txid now : Text) → ListingRow
transferred_row listing txid now = record listing {
  state = transfer_published;
  transfer_txid = some txid;
  updated_at = now;
}

abbrev pub offer_record : ListingRow → (artifact_hash_hex : Text) → OnChainRecord
offer_record listing artifact_hash_hex = record {
  kind = offer;
  stamp_commitment_hex = listing.stamp_commitment_hex;
  sequence = listing.sequence;
  artifact_hash_hex = artifact_hash_hex;
}

abbrev pub transfer_record : ListingRow → (artifact_hash_hex : Text) → OnChainRecord
transfer_record listing artifact_hash_hex = record {
  kind = transfer;
  stamp_commitment_hex = listing.stamp_commitment_hex;
  sequence = listing.sequence;
  artifact_hash_hex = artifact_hash_hex;
}
