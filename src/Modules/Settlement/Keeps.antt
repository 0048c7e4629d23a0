-- ===== src/Modules/Settlement/Keeps.antt =====
-- Every step of a settlement keeps the listings.
use stamppad.Prelude.{
  ℕ, ◌+◌, ◌≡◌, refl, sym, ◌∙◌, subst, true, false, not, Option, none, some, [], ◌∷◌, any, arith,
}
use stamppad.Text.{Text, text_eq, text_key, text_eq_iff}
use stamppad.Bytes.{Bytes, to_hex}
use stamppad.Action.{Ends-then_run, Ends-throw_if, Ends-or_throw}
use stamppad.Mode.{Flags, stamp_sale, live_money_movement_blocked}
use stamppad.Store.{
  ListingState, listed, reserved, offer_published, authorized, payment_locked, transfer_published,
  settled, cancelled, expired, failed, ListingRow, MemoryShape,
}
use stamppad.Protocol.Crypto.{Crypto}
use stamppad.Protocol.Preimage.{
  TransferAuthorization, SettlementOffer, transfer_preimage, offer_preimage,
}
use stamppad.Protocol.Transfer.{hash_lock_for, verify_owner_signature}
use stamppad.Modules.Wallet.{address_for_key, capability, verify, verify-verify_owner_signature}
use stamppad.Modules.Listing.{
  ListInput, Ownership, is_text, live_listing_of, new_listing, offered_row, authorized_row,
  locked_row, transferred_row, not_positive, same_state, sign_offer, sign_transfer, transfer_row,
  unsigned_offer, upsert_transfer, with_zcash, big_int,
}
use stamppad.Modules.Settlement.{
  authorize, cancel, claim_payment, list_stamp, lock_payment, publish_offer, publish_record,
  publish_transfer, reserve, unsigned_transfer,
}
use stamppad.Modules.Settlement.Stages.{
  Fine, HasListings, IsDraft, IsGrant, IsReserved, Reserved, Stage, publish_record-Fine,
  unsigned_offer-IsDraft, unsigned_transfer-IsGrant, upsert_listing-Fine, with_zcash-Fine,
}
use stamppad.Zcash.Demo.{claim_demo_htlc, lock_demo_htlc}

same_state-eq : (a b : ListingState) → same_state a b ≡ true → a ≡ b
same_state-eq listed b e = ground arith
same_state-eq reserved b e = ground arith
same_state-eq offer_published b e = ground arith
same_state-eq authorized b e = ground arith
same_state-eq payment_locked b e = ground arith
same_state-eq transfer_published b e = ground arith
same_state-eq settled b e = ground arith
same_state-eq cancelled b e = ground arith
same_state-eq expired b e = ground arith
same_state-eq failed b e = ground arith

expected :
    (l : ListingRow) (x : ListingState)
    → not (any (same_state l.state) (x ∷ [])) ≡ false
    → l.state ≡ x
expected l x e = same_state-eq l.state x (ground arith)

Stage-updated :
    (crypto : Crypto) (l : ListingRow) (now : Text) (x : ListingState)
    → Stage crypto x l
    → Stage crypto x (record l { updated_at = now })
Stage-updated crypto l now listed t = t
Stage-updated crypto l now reserved t = t
Stage-updated crypto l now offer_published t = t
Stage-updated crypto l now authorized t = t
Stage-updated crypto l now payment_locked t = t
Stage-updated crypto l now transfer_published t = t
Stage-updated crypto l now settled t = t
Stage-updated crypto l now cancelled t = t
Stage-updated crypto l now expired t = t
Stage-updated crypto l now failed t = t

module _ (crypto : Crypto) (f : Flags) where
  abbrev Kept : MemoryShape → (MemoryShape → Option ListingRow × MemoryShape) → Type 0
  Kept s op = HasListings crypto s → Fine crypto (op s)

  held_at :
      (l : ListingRow) (x : ListingState) → l.state ≡ x → Stage crypto l.state l → Stage crypto x l
  held_at l x e t = subst (λ y. Stage crypto y l) e t

  pub list_stamp-Fine :
      (o : Ownership) (input : ListInput) (id now : Text) (s : MemoryShape)
      → Kept s (list_stamp crypto f o input id now)
  unfolding list_stamp
  list_stamp-Fine o input id now s h =
      Ends-throw_if (HasListings crypto) _ (live_money_movement_blocked f stamp_sale) _ s h (λ e₁.
        Ends-throw_if (HasListings crypto) _
          (not (capability crypto input.seller_address).can_authorize) _ s h
          (λ e₂.
            Ends-throw_if (HasListings crypto) _
              (not (text_eq input.seller_address o.current_owner)) _ s h
              (λ e₃.
                Ends-throw_if (HasListings crypto) _
                  (not (
                    is_text (address_for_key crypto input.seller_public_key_hex)
                      input.seller_address))
                  _ s h
                  (λ e₄.
                    Ends-throw_if (HasListings crypto) _ (not_positive input.price_zat) _ s h (λ e₅.
                      Ends-throw_if (HasListings crypto) _
                        (any (live_listing_of input.stamp.id) s.listings) _ s h
                        (λ e₆. upsert_listing-Fine crypto (new_listing o input id now) s h tt))))))

  pub reserve-Fine :
      (l : ListingRow) (buyer key : Text) (secret : Bytes) (now : Text) (s : MemoryShape)
      → Kept s (reserve crypto f l buyer key secret now)
  unfolding reserve
  reserve-Fine l buyer key secret now s h =
      Ends-throw_if (HasListings crypto) _ (not (any (same_state l.state) (listed ∷ []))) _ s h
        (λ e₁.
          Ends-throw_if (HasListings crypto) _ (not (is_text (address_for_key crypto key) buyer)) _
            s h
            (λ e₂.
              Ends-throw_if (HasListings crypto) _ (text_eq buyer l.seller_address) _ s h (λ e₃.
                Ends-or_throw (HasListings crypto) _ (hash_lock_for crypto (to_hex secret)) _ s h
                  (λ lock e₄. upsert_listing-Fine crypto _ s h (record {
                    buyer_address = buyer;
                    secret = to_hex secret;
                    lock = lock;
                    height = s.zcash.height + 48;
                    named = refl;
                    kept = refl;
                    locked = refl;
                    dated = refl;
                    opens = e₄;
                    other = λ q. absurd (ground (arith, e₃, text_eq_iff buyer l.seller_address));
                  })))))

  signed_by :
      (a k p s : Text)
      → not (verify crypto a k p s) ≡ false
      → verify_owner_signature crypto a k p s ≡ true
  signed_by a k p s e = sym (verify-verify_owner_signature crypto a k p s) ∙ ground (arith, e)

  offer_signed :
      (o : SettlementOffer) (seller signature key : Text)
      → o.seller_address ≡ seller
      → not (verify crypto seller key (offer_preimage o) signature) ≡ false
      → verify_owner_signature crypto o.seller_address key
          (offer_preimage (sign_offer o signature key))
          signature
        ≡ true
  unfolding offer_preimage
  offer_signed o seller signature key e v =
      signed_by o.seller_address key (offer_preimage o) signature (rw (← e) at v)

  transfer_signed :
      (a : TransferAuthorization) (seller signature key : Text)
      → a.from_address ≡ seller
      → not (verify crypto seller key (transfer_preimage a) signature) ≡ false
      → verify_owner_signature crypto a.from_address key
          (transfer_preimage (sign_transfer a signature key))
          signature
        ≡ true
  unfolding transfer_preimage
  transfer_signed a seller signature key e v =
      signed_by a.from_address key (transfer_preimage a) signature (rw (← e) at v)

  pub publish_offer-Fine :
      (l : ListingRow) (signature key now : Text) (s : MemoryShape)
      → Stage crypto l.state l
      → Kept s (publish_offer crypto f l signature key now)
  unfolding publish_offer
  publish_offer-Fine l signature key now s t h =
      Ends-throw_if (HasListings crypto) _ (not (any (same_state l.state) (reserved ∷ []))) _ s h
        (λ e₁.
          Ends-then_run (HasListings crypto) (λ o t. IsDraft crypto l o) _ _ (unsigned_offer l s)
            (unsigned_offer-IsDraft crypto l s h)
            (λ o s₁ h₁ d.
              Ends-throw_if (HasListings crypto) _
                (not (verify crypto l.seller_address key (offer_preimage o) signature)) _ s₁ h₁
                (λ e₂.
                  Ends-then_run (HasListings crypto) (λ p t. Unit) _ _
                    (publish_record crypto f _ none s₁) (publish_record-Fine crypto f _ none s₁ h₁)
                    (λ p s₂ h₂ u.
                      upsert_listing-Fine crypto
                        (offered_row l (sign_offer o signature key) p.txid now) s₂ h₂
                        (
                          held_at l reserved (expected l reserved e₁) t,
                          record {
                            offer = sign_offer o signature key;
                            kept = refl;
                            same_stamp = d.same_stamp;
                            same_sequence = d.same_sequence;
                            from_seller = d.from_seller;
                            to_buyer = d.to_buyer;
                            at_price = d.at_price;
                            locked = d.locked;
                            signed = offer_signed o l.seller_address signature key d.from_seller e₂;
                          },
                        )))))

  pub authorize-Fine :
      (l : ListingRow) (signature key now : Text) (s : MemoryShape)
      → Stage crypto l.state l
      → Kept s (authorize crypto f l signature key now)
  unfolding authorize
  authorize-Fine l signature key now s t h =
      Ends-throw_if (HasListings crypto) _ (not (any (same_state l.state) (offer_published ∷ []))) _
        s h
        (λ e₁.
          Ends-then_run (HasListings crypto) (λ a t. IsGrant crypto l a) _ _
            (unsigned_transfer crypto f l s) (unsigned_transfer-IsGrant crypto f l s h)
            (λ a s₁ h₁ d.
              Ends-throw_if (HasListings crypto) _
                (not (verify crypto l.seller_address key (transfer_preimage a) signature)) _ s₁ h₁
                (λ e₂.
                  let (r, o) = held_at l offer_published (expected l offer_published e₁) t in
                  upsert_listing-Fine crypto (authorized_row l (sign_transfer a signature key) now)
                    s₁ h₁
                    (
                      r,
                      o,
                      record {
                        auth = sign_transfer a signature key;
                        kept = refl;
                        same_stamp = d.same_stamp;
                        same_sequence = d.same_sequence;
                        from_seller = d.from_seller;
                        to_buyer = d.to_buyer;
                        revealed = d.revealed;
                        names = d.names;
                        signed = transfer_signed a l.seller_address signature key d.from_seller e₂;
                      },
                    ))))

  -- Only the expiry height of what is promised changes.
  relocked :
      (l : ListingRow) (n : ℕ)
      → Reserved crypto l
      → IsReserved crypto l.seller_address l.buyer_address l.preimage_hex l.hash_lock_hex (some n)
  relocked l n r = record {
    buyer_address = r.buyer_address;
    secret = r.secret;
    lock = r.lock;
    height = n;
    named = r.named;
    kept = r.kept;
    locked = r.locked;
    dated = refl;
    opens = r.opens;
    other = r.other;
  }

  pub lock_payment-Fine :
      (l : ListingRow) (now : Text) (s : MemoryShape)
      → Stage crypto l.state l
      → Kept s (lock_payment crypto f l now)
  unfolding lock_payment
  lock_payment-Fine l now s t h =
      Ends-throw_if (HasListings crypto) _ (not (any (same_state l.state) (authorized ∷ []))) _ s h
        (λ e₁. Ends-or_throw (HasListings crypto) _ l.transfer_artifact _ s h (λ a e₂.
          Ends-or_throw (HasListings crypto) _ l.hash_lock_hex _ s h (λ k e₃.
            Ends-or_throw (HasListings crypto) _ l.buyer_address _ s h (λ b e₄.
              let (r, o, g) = held_at l authorized (expected l authorized e₁) t in
              let c = lock_demo_htlc crypto s.zcash (big_int l.price_zat) k b l.seller_address 48 in
              upsert_listing-Fine crypto (locked_row l c.0 now) (record s { zcash = c.1 }) h
                (relocked l c.0.expiry_height r, o, g)))))

  pub publish_transfer-Fine :
      (l : ListingRow) (now : Text) (s : MemoryShape)
      → Stage crypto l.state l
      → Kept s (publish_transfer crypto f l now)
  unfolding publish_transfer
  publish_transfer-Fine l now s t h =
      Ends-throw_if (HasListings crypto) _ (not (any (same_state l.state) (payment_locked ∷ []))) _
        s h
        (λ e₁. Ends-or_throw (HasListings crypto) _ l.transfer_artifact _ s h (λ a e₂.
          Ends-then_run (HasListings crypto) (λ p t. Unit) _ _
            (publish_record crypto f _ (some a.to_address) s)
            (publish_record-Fine crypto f _ (some a.to_address) s h)
            (λ p s₁ h₁ u.
              upsert_listing-Fine crypto (transferred_row l p.txid now)
                (upsert_transfer (transfer_row l a p now) s₁).1 h₁
                (held_at l payment_locked (expected l payment_locked e₁) t))))

  pub claim_payment-Fine :
      (l : ListingRow) (now : Text) (s : MemoryShape)
      → Stage crypto l.state l
      → Kept s (claim_payment crypto f l now)
  unfolding claim_payment
  claim_payment-Fine l now s t h =
      Ends-throw_if (HasListings crypto) _
        (not (any (same_state l.state) (payment_locked ∷ transfer_published ∷ []))) _ s h
        (λ e₁. Ends-or_throw (HasListings crypto) _ l.escrow_id _ s h (λ id e₂.
          Ends-or_throw (HasListings crypto) _ l.preimage_hex _ s h (λ p e₃.
            Ends-then_run (HasListings crypto) (λ p t. Unit) _ _
              (with_zcash s (claim_demo_htlc crypto s.zcash id p))
              (with_zcash-Fine crypto s (claim_demo_htlc crypto s.zcash id p) h)
              (λ c s₁ h₁ u.
                upsert_listing-Fine crypto (record l { updated_at = now }) s₁ h₁
                  (Stage-updated crypto l now l.state t)))))

  pub cancel-Fine : (l : ListingRow) (now : Text) (s : MemoryShape) → Kept s (cancel l now)
  unfolding cancel
  cancel-Fine l now s h =
      Ends-throw_if (HasListings crypto) _
        (any (same_state l.state) (payment_locked ∷ transfer_published ∷ [])) _ s h
        (λ e₁. upsert_listing-Fine crypto (record l { state = cancelled; updated_at = now }) s h tt)
