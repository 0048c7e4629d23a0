-- ===== src/Market/Steps.antt =====
-- Every request keeps the listings of the store.
use stamppad.Prelude.{
  ℕ, refl, inl, inr, Bool-cases, not, ◌&&◌, Option, none, some, List, [], ◌∷◌, any,
}
use stamppad.Prelude.Dict.{get, get-All, put-All}
use stamppad.Text.{Text, text_key}
use stamppad.Action.{
  pure, or_throw, then_run, ◌>>=◌, ◌>>◌, Ends-then_run, Ends-throw_if, Ends-or_throw,
}
use stamppad.Mode.{Flags}
use stamppad.Store.{ListingRow, MemoryShape, StampRow, settled, expired}
use stamppad.Protocol.Crypto.{Crypto}
use stamppad.Protocol.Preimage.{TransferAuthorization, transfer_preimage}
use stamppad.Modules.Wallet.{capability, verify}
use stamppad.Modules.Settlement
use stamppad.Modules.Listing.{Ownership, Step, ℤ, is_live, live_listing_of, sign_transfer}
use stamppad.Modules.Settlement.{publish_record}
use stamppad.Modules.Settlement.Stages.{Fine, HasListings, IsListing, Stage, publish_record-Fine}
use stamppad.Modules.Settlement.Keeps.{
  authorize-Fine, cancel-Fine, claim_payment-Fine, list_stamp-Fine, lock_payment-Fine,
  publish_offer-Fine, publish_transfer-Fine, reserve-Fine,
}
use stamppad.Indexer.{IndexedState, index_from_store, owner_of}
use stamppad.Zcash.Demo.{DemoZcashChain}
use stamppad.Market.{
  Fresh, ListingAction, advance_listing, applied, authorize, before_payment, cancel, claim_payment,
  create_listing, gift, given, is_past, lock_payment, publish_gift, publish_offer, publish_transfer,
  reconcile_listings, reconcile_rows, reconciled, reserve_listing, restored, seller_key_for,
  signer_key, submit_transfer, take_action, tick, with_market, write_listing,
}

module _ (crypto : Crypto) (f : Flags) where
  write_listing-reconciled :
      (state : IndexedState) (height : ℕ) (l : ListingRow) (now : Text) (s : MemoryShape)
      → HasListings crypto s
      → HasListings crypto (write_listing (reconciled state height l now) s)
  unfolding reconciled
  write_listing-reconciled state height l now s h = elim (Bool-cases (not (is_live l))) [
    | inl t ↦ rw t h
    | inr u ↦ elim (Bool-cases (applied l (get state.ownership.stamps l.stamp_commitment_hex))) [
      | inl t ↦
          rw (u, t)
            (put-All (IsListing crypto) s.listings l.id
              (record l { state = settled; updated_at = now }) h (refl, tt))
      | inr v ↦ elim (Bool-cases (before_payment l.state && is_past l.expiry_height height)) [
        | inl t ↦
            rw (u, v, t)
              (put-All (IsListing crypto) s.listings l.id
                (record l { state = expired; updated_at = now }) h (refl, tt))
        | inr t ↦ rw (u, v, t) h
      ]
    ]
  ]

  reconcile_rows-HasListings :
      (state : IndexedState) (height : ℕ) (now : Text) (ls : List (Text × ListingRow))
      (s : MemoryShape)
      → HasListings crypto s
      → HasListings crypto (reconcile_rows state height now ls s)
  unfolding reconcile_rows
  reconcile_rows-HasListings state height now [] s h = h
  reconcile_rows-HasListings state height now ((k, l) ∷ ls) s h =
      reconcile_rows-HasListings state height now ls
        (write_listing (reconciled state height l now) s)
        (write_listing-reconciled state height l now s h)

  pub reconcile_listings-Fine :
      (now : Text) (s : MemoryShape)
      → HasListings crypto s
      → Fine crypto (reconcile_listings crypto f now s)
  unfolding reconcile_listings
  reconcile_listings-Fine now s h =
      Ends-or_throw (HasListings crypto) _ (index_from_store crypto f s) _ s h
        (λ state e. (reconcile_rows-HasListings state s.zcash.height now s.listings s h, tt))

  restored-Fine :
      {A : Type 0} (chain : DemoZcashChain) (r : Option A × MemoryShape)
      → Fine crypto r
      → Fine crypto (restored chain r)
  restored-Fine chain (none, s) h = h
  restored-Fine chain (some a, s) h = h

  tick_after :
      (r : Option ListingRow × MemoryShape)
      → Fine crypto r
      → Fine crypto (then_run (λ row. tick >> pure row) r)
  tick_after (none, s) h = h
  tick_after (some row, s) h = h

  with_market-Fine :
      (stamp : StampRow) (now : Text) (m : Ownership → Step ListingRow) (s : MemoryShape)
      → ((o : Ownership) (t : MemoryShape) → HasListings crypto t → Fine crypto (m o t))
      → HasListings crypto s
      → Fine crypto (with_market crypto f stamp now m s)
  unfolding with_market
  with_market-Fine stamp now m s k h =
      Ends-then_run (HasListings crypto) (λ a t. Unit) _ _ (reconcile_listings crypto f now s)
        (reconcile_listings-Fine now s h)
        (λ state t i u.
          let o = owner_of state stamp.commitment_hex stamp.destination in
          restored-Fine {A = ListingRow} t.zcash (then_run (λ row. tick >> pure row) (m o t))
            (tick_after (m o t) (k o t i)))

  -- A listing that is found in the store, with what its state promises.
  found-Fine :
      (id : Text) (m : ListingRow → Step ListingRow) (s : MemoryShape)
      → HasListings crypto s
      → ((l : ListingRow) → Stage crypto l.state l → Fine crypto (m l s))
      → Fine crypto ((or_throw (get s.listings id) >>= m) s)
  found-Fine id m s h k =
      Ends-or_throw (HasListings crypto) _ (get s.listings id) _ s h
        (λ l e. k l (get-All (IsListing crypto) s.listings id l h e).1)

  take_action-Fine :
      (a : ListingAction) (l : ListingRow) (g k : Option Text) (now : Text) (s : MemoryShape)
      → Stage crypto l.state l
      → HasListings crypto s
      → Fine crypto (take_action crypto f a l g k now s)
  take_action-Fine publish_offer l g k now s t h =
      Ends-or_throw (HasListings crypto) _ (given g) _ s h (λ x e.
        Ends-or_throw (HasListings crypto) _ (signer_key crypto f l k) _ s h
          (λ y e'. publish_offer-Fine crypto f l x y now s t h))
  take_action-Fine authorize l g k now s t h =
      Ends-or_throw (HasListings crypto) _ (given g) _ s h (λ x e.
        Ends-or_throw (HasListings crypto) _ (signer_key crypto f l k) _ s h
          (λ y e'. authorize-Fine crypto f l x y now s t h))
  take_action-Fine lock_payment l g k now s t h = lock_payment-Fine crypto f l now s t h
  take_action-Fine publish_transfer l g k now s t h = publish_transfer-Fine crypto f l now s t h
  take_action-Fine claim_payment l g k now s t h = claim_payment-Fine crypto f l now s t h
  take_action-Fine cancel l g k now s t h = cancel-Fine crypto f l now s h

  pub advance_listing-Fine :
      (id : Text) (a : ListingAction) (g k : Option Text) (fresh : Fresh) (s : MemoryShape)
      → HasListings crypto s
      → Fine crypto (advance_listing crypto f id a g k fresh s)
  unfolding advance_listing
  advance_listing-Fine id a g k fresh s h =
      Ends-or_throw (HasListings crypto) _ (get s.listings id) _ s h (λ l e.
        Ends-or_throw (HasListings crypto) _ (get s.stamps l.stamp_id) _ s h (λ stamp e'.
          with_market-Fine stamp fresh.now _ s
            (λ o t i.
              found-Fine id (λ x. take_action crypto f a x g k fresh.now) t i
                (λ x st. take_action-Fine a x g k fresh.now t st i))
            h))

  pub reserve_listing-Fine :
      (id buyer key : Text) (fresh : Fresh) (s : MemoryShape)
      → HasListings crypto s
      → Fine crypto (reserve_listing crypto f id buyer key fresh s)
  unfolding reserve_listing
  reserve_listing-Fine id buyer key fresh s h =
      Ends-or_throw (HasListings crypto) _ (get s.listings id) _ s h (λ l e.
        Ends-or_throw (HasListings crypto) _ (get s.stamps l.stamp_id) _ s h (λ stamp e'.
          with_market-Fine stamp fresh.now _ s
            (λ o t i.
              found-Fine id (λ x. Settlement.reserve crypto f x buyer key fresh.secret fresh.now) t
                i (λ x st. reserve-Fine crypto f x buyer key fresh.secret fresh.now t i))
            h))

  pub create_listing-Fine :
      (i a : Text) (k p : Option Text) (z : ℤ) (n : Option Text) (fresh : Fresh) (s : MemoryShape)
      → HasListings crypto s
      → Fine crypto (create_listing crypto f i a k p z n fresh s)
  unfolding create_listing
  create_listing-Fine i a k p z n fresh s h =
      Ends-or_throw (HasListings crypto) _ (get s.stamps i) _ s h (λ stamp e.
        Ends-or_throw (HasListings crypto) _ (seller_key_for crypto f a k p) _ s h (λ key e'.
          with_market-Fine stamp fresh.now _ s
            (λ o t j. list_stamp-Fine crypto f o _ fresh.id fresh.now t j) h))

  publish_gift-Fine :
      (stamp : StampRow) (auth : TransferAuthorization) (now : Text) (s : MemoryShape)
      → HasListings crypto s
      → Fine crypto (publish_gift crypto f stamp auth now s)
  publish_gift-Fine stamp auth now s h =
      Ends-then_run (HasListings crypto) (λ a t. Unit) _ _
        (publish_record crypto f _ (some auth.to_address) s)
        (publish_record-Fine crypto f _ (some auth.to_address) s h) (λ p t i u. (i, tt))

  pub submit_transfer-Fine :
      (i a g k : Text) (fresh : Fresh) (s : MemoryShape)
      → HasListings crypto s
      → Fine crypto (submit_transfer crypto f i a g k fresh s)
  unfolding submit_transfer
  submit_transfer-Fine i a g k fresh s h =
      Ends-or_throw (HasListings crypto) _ (get s.stamps i) _ s h (λ stamp e.
        Ends-or_throw (HasListings crypto) _ (index_from_store crypto f s) _ s h (λ state e'.
          let o = owner_of state stamp.commitment_hex stamp.destination in
          Ends-throw_if (HasListings crypto) _
            (not (capability crypto o.current_owner).can_authorize) _ s h
            (λ e₁.
              Ends-throw_if (HasListings crypto) _
                (not
                  (verify crypto o.current_owner k (transfer_preimage (gift crypto f stamp o a)) g))
                _ s h
                (λ e₂.
                  Ends-throw_if (HasListings crypto) _ (any (live_listing_of stamp.id) s.listings) _
                    s h
                    (λ e₃.
                      restored-Fine {A = Unit} s.zcash
                        (publish_gift crypto f stamp (sign_transfer (gift crypto f stamp o a) g k)
                          fresh.now s)
                        (publish_gift-Fine stamp (sign_transfer (gift crypto f stamp o a) g k)
                          fresh.now s h))))))
