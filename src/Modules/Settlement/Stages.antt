-- ===== src/Modules/Settlement/Stages.antt =====
-- What holds of a listing in each state, and that every step keeps it of all listings.
use stamppad.Prelude.{ℕ, ◌≡◌, ◌≢◌, refl, sym, ap, ◌∙◌, true, Option, none, some, All}
use stamppad.Prelude.Dict.{put-All}
use stamppad.Text.{Text, text_key}
use stamppad.Bytes.{to_hex}
use stamppad.Action.{Ends, Ends-or_throw}
use stamppad.Mode.{Flags}
use stamppad.Store.{
  ListingState, listed, reserved, offer_published, authorized, payment_locked, transfer_published,
  settled, cancelled, expired, failed, ListingRow, MemoryShape,
}
use stamppad.Protocol.Crypto.{Crypto}
use stamppad.Protocol.Preimage.{
  TransferAuthorization, SettlementOffer, transfer_preimage, offer_preimage,
}
use stamppad.Protocol.Transfer.{
  OnChainRecord, encode_record, hash_lock_for, offer_artifact_hash, verify_owner_signature,
}
use stamppad.Modules.Listing.{unsigned_offer, upsert_listing, with_zcash}
use stamppad.Modules.Settlement.{unsigned_transfer, publish_record}
use stamppad.Zcash.Demo.{Outcome, publish_demo_record}

-- A buyer is named who is not the seller, and a secret is kept whose hash is the lock.
pub record IsReserved (crypto : Crypto) (seller : Text) (buyer preimage hash_lock : Option Text)
    (expiry : Option ℕ) : Type 0 where
  pub buyer_address : Text
  pub secret : Text
  pub lock : Text
  pub height : ℕ
  pub named : buyer ≡ some buyer_address
  pub kept : preimage ≡ some secret
  pub locked : hash_lock ≡ some lock
  pub dated : expiry ≡ some height
  pub opens : hash_lock_for crypto secret ≡ some lock
  pub other : buyer_address ≢ seller

-- The offer of the listing, signed by the seller.
pub record IsOffered (crypto : Crypto) (stamp : Text) (sequence : ℕ) (seller price : Text)
    (buyer hash_lock : Option Text) (artifact : Option SettlementOffer) : Type 0 where
  pub offer : SettlementOffer
  pub kept : artifact ≡ some offer
  pub same_stamp : offer.stamp_commitment_hex ≡ stamp
  pub same_sequence : offer.sequence ≡ sequence
  pub from_seller : offer.seller_address ≡ seller
  pub to_buyer : buyer ≡ some offer.buyer_address
  pub at_price : offer.price_zat ≡ price
  pub locked : hash_lock ≡ some offer.hash_lock_hex
  pub signed :
      verify_owner_signature crypto offer.seller_address offer.owner_public_key_hex
        (offer_preimage offer)
        offer.signature_hex
      ≡ true

-- The authorization of the transfer, signed by the seller: it reveals the secret and names the offer.
pub record IsAuthorized (crypto : Crypto) (stamp : Text) (sequence : ℕ) (seller : Text)
    (buyer preimage : Option Text) (artifact : Option SettlementOffer)
    (transfer : Option TransferAuthorization) : Type 0 where
  pub auth : TransferAuthorization
  pub kept : transfer ≡ some auth
  pub same_stamp : auth.stamp_commitment_hex ≡ stamp
  pub same_sequence : auth.sequence ≡ sequence
  pub from_seller : auth.from_address ≡ seller
  pub to_buyer : buyer ≡ some auth.to_address
  pub revealed : preimage ≡ some auth.preimage_hex
  pub names :
      (o : SettlementOffer)
      → artifact ≡ some o
      → auth.offer_hash_hex ≡ to_hex (offer_artifact_hash crypto o)
  pub signed :
      verify_owner_signature crypto auth.from_address auth.owner_public_key_hex
        (transfer_preimage auth)
        auth.signature_hex
      ≡ true

module _ (crypto : Crypto) where
  abbrev pub Reserved : ListingRow → Type 0
  Reserved l =
      IsReserved crypto l.seller_address l.buyer_address l.preimage_hex l.hash_lock_hex
        l.expiry_height

  abbrev pub Offered : ListingRow → Type 0
  Offered l =
      IsOffered crypto l.stamp_commitment_hex l.sequence l.seller_address l.price_zat
        l.buyer_address l.hash_lock_hex l.offer_artifact

  abbrev pub Authorized : ListingRow → Type 0
  Authorized l =
      IsAuthorized crypto l.stamp_commitment_hex l.sequence l.seller_address l.buyer_address
        l.preimage_hex l.offer_artifact l.transfer_artifact

  -- A listing that is over, or not yet reserved, promises nothing.
  abbrev pub Stage : ListingState → ListingRow → Type 0
  Stage reserved l = Reserved l
  Stage offer_published l = Reserved l × Offered l
  Stage authorized l = Reserved l × Offered l × Authorized l
  Stage payment_locked l = Reserved l × Offered l × Authorized l
  Stage transfer_published l = Reserved l × Offered l × Authorized l
  Stage listed l = Unit
  Stage settled l = Unit
  Stage cancelled l = Unit
  Stage expired l = Unit
  Stage failed l = Unit

  -- A listing that is filed under its id and keeps what its state promises.
  abbrev pub IsListing : Text × ListingRow → Type 0
  IsListing entry = (entry.1.id ≡ entry.0) × Stage entry.1.state entry.1

  abbrev pub HasListings : MemoryShape → Type 0
  HasListings s = All IsListing s.listings

  -- The answer of a step, of which only the store matters.
  abbrev pub Fine : {A : Type 0} → Option A × MemoryShape → Type 0
  Fine = Ends HasListings (λ a s. Unit)

  pub upsert_listing-Fine :
      (row : ListingRow) (s : MemoryShape)
      → HasListings s
      → Stage row.state row
      → Fine (upsert_listing row s)
  upsert_listing-Fine row s h t = (put-All IsListing s.listings row.id row h (refl, t), tt)

  pub with_zcash-Fine :
      {A : Type 0} (s : MemoryShape) (r : Outcome A) → HasListings s → Fine (with_zcash s r)
  with_zcash-Fine s (none, c) h = h
  with_zcash-Fine s (some a, c) h = (h, tt)

  pub publish_record-Fine :
      (f : Flags) (r : OnChainRecord) (a : Option Text) (s : MemoryShape)
      → HasListings s
      → Fine (publish_record crypto f r a s)
  unfolding publish_record
  publish_record-Fine f r a s h = Ends-or_throw HasListings _ (encode_record r) _ s h (λ payload e.
      with_zcash-Fine s (publish_demo_record crypto s.zcash f.dest_network payload a) h)

  -- The unsigned artifacts hold what the listing says.
  pub record IsDraft (l : ListingRow) (o : SettlementOffer) : Type 0 where
    pub same_stamp : o.stamp_commitment_hex ≡ l.stamp_commitment_hex
    pub same_sequence : o.sequence ≡ l.sequence
    pub from_seller : o.seller_address ≡ l.seller_address
    pub to_buyer : l.buyer_address ≡ some o.buyer_address
    pub at_price : o.price_zat ≡ l.price_zat
    pub locked : l.hash_lock_hex ≡ some o.hash_lock_hex

  pub unsigned_offer-IsDraft :
      (l : ListingRow) (s : MemoryShape)
      → HasListings s
      → Ends HasListings (λ o t. IsDraft l o) (unsigned_offer l s)
  unfolding unsigned_offer
  unsigned_offer-IsDraft l s h = Ends-or_throw HasListings _ l.buyer_address _ s h (λ b eb.
      Ends-or_throw HasListings _ l.hash_lock_hex _ s h (λ k ek.
        Ends-or_throw HasListings _ l.expiry_height _ s h (λ n en. (
          h,
          record {
            same_stamp = refl;
            same_sequence = refl;
            from_seller = refl;
            to_buyer = eb;
            at_price = refl;
            locked = ek;
          },
        ))))

  pub record IsGrant (l : ListingRow) (a : TransferAuthorization) : Type 0 where
    pub same_stamp : a.stamp_commitment_hex ≡ l.stamp_commitment_hex
    pub same_sequence : a.sequence ≡ l.sequence
    pub from_seller : a.from_address ≡ l.seller_address
    pub to_buyer : l.buyer_address ≡ some a.to_address
    pub revealed : l.preimage_hex ≡ some a.preimage_hex
    pub names :
        (o : SettlementOffer)
        → l.offer_artifact ≡ some o
        → a.offer_hash_hex ≡ to_hex (offer_artifact_hash crypto o)

  pub unsigned_transfer-IsGrant :
      (f : Flags) (l : ListingRow) (s : MemoryShape)
      → HasListings s
      → Ends HasListings (λ a t. IsGrant l a) (unsigned_transfer crypto f l s)
  unfolding unsigned_transfer
  unsigned_transfer-IsGrant f l s h = Ends-or_throw HasListings _ l.buyer_address _ s h (λ b eb.
      Ends-or_throw HasListings _ l.offer_artifact _ s h (λ o eo.
        Ends-or_throw HasListings _ l.preimage_hex _ s h (λ p ep. (
          h,
          record {
            same_stamp = refl;
            same_sequence = refl;
            from_seller = refl;
            to_buyer = eb;
            revealed = ep;
            names = λ x ex. same_offer o x (sym eo ∙ ex);
          },
        ))))
    where
      same_offer :
          (o x : SettlementOffer)
          → some o ≡ some x
          → to_hex (offer_artifact_hash crypto o) ≡ to_hex (offer_artifact_hash crypto x)
      same_offer o x e =
          ap
            (λ (t : Option SettlementOffer). elim t [
              | none ↦ to_hex (offer_artifact_hash crypto o)
              | some y ↦ to_hex (offer_artifact_hash crypto y)
            ])
            e
