-- ===== src/Modules/Settlement/Sales.antt =====
-- The two records that a listing publishes, in the replay of ownership.
use stamppad.Prelude.{
  ◌+◌, ◌≡◌, ◌≢◌, refl, sym, ap, ◌∙◌, subst, inl, inr, Bool-cases, true, false, Option, none, some,
  [], ◌∷◌, ◌++◌, arith, ltb, ◌==◌,
}
use stamppad.Prelude.Dict.{get, put, get-put_self}
use stamppad.Text.{Text, codes, text_eq, text_key, nat_key, text_eq_iff, text_eq_refl}
use stamppad.Bytes.{to_hex, from_hex}
use stamppad.Store.{ListingRow}
use stamppad.Protocol.Crypto.{Crypto}
use stamppad.Protocol.Transfer.{
  hash_lock_for, offer_artifact_hash, transfer_artifact_hash, verify_hash_lock,
}
use stamppad.Protocol.Ownership.State.{
  BoundOffer, CanonicalRecord, OwnershipInput, OwnershipOutput, Sale, StampOwnership,
}
use stamppad.Protocol.Ownership.Replay.{
  bind_offer, check_bound, check_offer, check_transfer, known_offers, known_transfers, move_stamp,
  new_sales, sale_of, offer_step, pass, record_step, replay, stamp_step, transfer_step,
}
use stamppad.Protocol.Ownership.Steps.{IsConfirmed}
use stamppad.Modules.Listing.{offer_record, transfer_record}
use stamppad.Modules.Settlement.Stages.{Authorized, Offered, Reserved}

pub same_text : (a b : Text) → some a ≡ some b → a ≡ b
same_text a b e = ap (λ (o : Option Text). elim o [ none ↦ a | some c ↦ c ]) e

module _ (crypto : Crypto) where
  no_lock_of_none : (lock : Text) → hash_lock_for crypto (codes "none") ≢ some lock
  unfolding hash_lock_for from_hex
  no_lock_of_none lock e = ground arith

  verify_hash_lock-opens :
      (secret lock : Text)
      → hash_lock_for crypto secret ≡ some lock
      → verify_hash_lock crypto lock secret ≡ true
  unfolding verify_hash_lock
  verify_hash_lock-opens secret lock e = elim (Bool-cases (text_eq secret (codes "none"))) [
    | inl t ↦ absurd (
        no_lock_of_none lock (
          subst (λ p. hash_lock_for crypto p ≡ some lock) ((text_eq_iff secret (codes "none")).0 t)
            e))
    | inr f ↦ rw (f, e) (text_eq_refl lock)
  ]

  module _ (l : ListingRow) (r : Reserved crypto l) (o : Offered crypto l)
      (g : Authorized crypto l) where
    abbrev offer_hash : Text
    offer_hash = to_hex (offer_artifact_hash crypto o.offer)

    abbrev auth_hash : Text
    auth_hash = to_hex (transfer_artifact_hash crypto g.auth)

    abbrev bound : BoundOffer
    bound = record { offer_hash_hex = offer_hash; offer = o.offer }

    check_offer-pass :
        (stamp : StampOwnership)
        → stamp.current_owner ≡ l.seller_address
        → stamp.sequence + 1 ≡ l.sequence
        → check_offer crypto stamp o.offer (offer_record l offer_hash) ≡ pass
    unfolding check_offer
    check_offer-pass stamp owner next =
        let same =
          (text_eq_iff o.offer.stamp_commitment_hex l.stamp_commitment_hex).1 o.same_stamp in
        let seller =
          (text_eq_iff o.offer.seller_address stamp.current_owner).1 (o.from_seller ∙ sym owner) in
        let step : (o.offer.sequence == l.sequence) ≡ true = ground (arith, o.same_sequence) in
        let turn : (l.sequence == stamp.sequence + 1) ≡ true = ground (arith, next) in
        rw (same, step, turn, seller, o.signed) refl

    check_bound-pass : check_bound crypto g.auth (some bound) ≡ pass
    unfolding check_bound
    check_bound-pass =
        let named = (text_eq_iff g.auth.offer_hash_hex offer_hash).1 (g.names o.offer o.kept) in
        let buyer =
          (text_eq_iff g.auth.to_address o.offer.buyer_address).1
            (same_text g.auth.to_address o.offer.buyer_address (sym g.to_buyer ∙ o.to_buyer)) in
        let secret = same_text r.secret g.auth.preimage_hex (sym r.kept ∙ g.revealed) in
        let lock = same_text r.lock o.offer.hash_lock_hex (sym r.locked ∙ o.locked) in
        let open_lock : verify_hash_lock crypto o.offer.hash_lock_hex g.auth.preimage_hex ≡ true =
          rw (← secret, ← lock) (verify_hash_lock-opens r.secret r.lock r.opens) in
        rw (named, buyer, open_lock) refl

    check_transfer-pass :
        (stamp : StampOwnership)
        → stamp.current_owner ≡ l.seller_address
        → stamp.sequence + 1 ≡ l.sequence
        → get stamp.bound_offers l.sequence ≡ some bound
        → check_transfer crypto stamp g.auth (transfer_record l auth_hash) ≡ pass
    unfolding check_transfer
    check_transfer-pass stamp owner next b =
        let same =
          (text_eq_iff g.auth.stamp_commitment_hex l.stamp_commitment_hex).1 g.same_stamp in
        let seller =
          (text_eq_iff g.auth.from_address stamp.current_owner).1 (g.from_seller ∙ sym owner) in
        let step : (g.auth.sequence == l.sequence) ≡ true = ground (arith, g.same_sequence) in
        let turn : (l.sequence == stamp.sequence + 1) ≡ true = ground (arith, next) in
        rw (same, step, turn, seller, g.signed, b) check_bound-pass

    module _ (input : OwnershipInput) (e : CanonicalRecord)
        (sure : IsConfirmed crypto input e) where
      -- The records as they are found on the chain.
      abbrev pub offer_found : CanonicalRecord
      offer_found = record e { on_chain = offer_record l offer_hash }

      abbrev pub transfer_found : CanonicalRecord
      transfer_found = record e { on_chain = transfer_record l auth_hash }

      stamp_step-offer :
          (out : OwnershipOutput) (stamp : StampOwnership)
          → get (known_offers crypto input) offer_hash ≡ some o.offer
          → stamp_step crypto input out offer_found stamp
            ≡ offer_step offer_found out crypto stamp (some o.offer)
      unfolding stamp_step
      stamp_step-offer out stamp known =
          let deep : ltb e.confirmations input.min_confirmations ≡ false =
            ground (arith, sure.deep) in
          rw (sure.network, sure.best_chain, deep, known) refl

      stamp_step-transfer :
          (out : OwnershipOutput) (stamp : StampOwnership)
          → get (known_transfers crypto input) auth_hash ≡ some g.auth
          → stamp_step crypto input out transfer_found stamp
            ≡ transfer_step transfer_found out crypto stamp (some g.auth)
      unfolding stamp_step
      stamp_step-transfer out stamp known =
          let deep : ltb e.confirmations input.min_confirmations ≡ false =
            ground (arith, sure.deep) in
          rw (sure.network, sure.best_chain, deep, known) refl

      record_step-offer :
          (out : OwnershipOutput) (stamp : StampOwnership)
          → get out.stamps l.stamp_commitment_hex ≡ some stamp
          → stamp.current_owner ≡ l.seller_address
          → stamp.sequence + 1 ≡ l.sequence
          → get stamp.bound_offers l.sequence ≡ none
          → get (known_offers crypto input) offer_hash ≡ some o.offer
          → record_step crypto input out offer_found ≡ record out {
            stamps = put out.stamps l.stamp_commitment_hex (bind_offer offer_found stamp o.offer);
          }
      unfolding record_step offer_step
      record_step-offer out stamp at owner next free known =
          rw (at, stamp_step-offer out stamp known, check_offer-pass stamp owner next, free) refl

      record_step-transfer :
          (out : OwnershipOutput) (stamp : StampOwnership)
          → get out.stamps l.stamp_commitment_hex ≡ some stamp
          → stamp.current_owner ≡ l.seller_address
          → stamp.sequence + 1 ≡ l.sequence
          → get stamp.bound_offers l.sequence ≡ some bound
          → get (known_transfers crypto input) auth_hash ≡ some g.auth
          → record_step crypto input out transfer_found ≡ record out {
            stamps =
                put out.stamps l.stamp_commitment_hex
                  (move_stamp transfer_found stamp g.auth (some bound));
            sales = out.sales ++ new_sales transfer_found g.auth (some bound);
          }
      unfolding record_step transfer_step
      record_step-transfer out stamp at owner next b known =
          rw (at, stamp_step-transfer out stamp known, b, check_transfer-pass stamp owner next b)
            refl

    -- What the two records make of the stamp.
    pub record IsSettledBy (out end : OwnershipOutput) : Type 0 where
      pub stamp : StampOwnership
      pub sale : Sale
      pub found : get end.stamps l.stamp_commitment_hex ≡ some stamp
      pub owned : l.buyer_address ≡ some stamp.current_owner
      pub reached : stamp.sequence ≡ l.sequence
      pub told : end.sales ≡ out.sales ++ sale ∷ []
      pub at_price : sale.price_zat ≡ l.price_zat
      pub from_seller : sale.seller ≡ l.seller_address

    -- Where the seller owns the stamp, the listing is for its next step and no offer is bound there,
    -- the offer record and then the transfer record of an authorized listing, both confirmed and with
    -- the artifacts that their hashes name, make the buyer the owner and report the sale at the price.
    pub replay-IsSettledBy :
        (input : OwnershipInput) (e₁ e₂ : CanonicalRecord) (s₁ : IsConfirmed crypto input e₁)
        (s₂ : IsConfirmed crypto input e₂) (out : OwnershipOutput) (stamp : StampOwnership)
        → get out.stamps l.stamp_commitment_hex ≡ some stamp
        → stamp.current_owner ≡ l.seller_address
        → stamp.sequence + 1 ≡ l.sequence
        → get stamp.bound_offers l.sequence ≡ none
        → get (known_offers crypto input) offer_hash ≡ some o.offer
        → get (known_transfers crypto input) auth_hash ≡ some g.auth
        → IsSettledBy out
            (replay crypto input out (offer_found input e₁ s₁ ∷ transfer_found input e₂ s₂ ∷ []))
    unfolding replay bind_offer move_stamp new_sales
    replay-IsSettledBy input e₁ e₂ s₁ s₂ out stamp at owner next free known_o known_t =
        let k = l.stamp_commitment_hex in
        let mid = bind_offer (offer_found input e₁ s₁) stamp o.offer in
        let out₁ : OwnershipOutput = record out { stamps = put out.stamps k mid } in
        let step₁ = record_step-offer input e₁ s₁ out stamp at owner next free known_o in
        let step₂ =
          record_step-transfer input e₂ s₂ out₁ mid (get-put_self out.stamps k mid) owner next
            (get-put_self stamp.bound_offers l.sequence bound) known_t in
        rw (step₁, step₂)
          (record {
            stamp = move_stamp (transfer_found input e₂ s₂) mid g.auth (some bound);
            sale = sale_of (transfer_found input e₂ s₂) g.auth bound;
            found = get-put_self out₁.stamps k _;
            owned = g.to_buyer;
            reached = refl;
            told = refl;
            at_price = o.at_price;
            from_seller = g.from_seller;
          })
