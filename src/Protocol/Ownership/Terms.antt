-- ===== src/Protocol/Ownership/Terms.antt =====
-- Offers that are bound to a step, and what a transfer at such a step must be.
use mathlib.Core.List.{Memᴰ}
use stamppad.Prelude.{
  ℕ, suc, ◌≤◌, ◌≡◌, refl, sym, ap, ◌∙◌, true, Option, none, some, List, [], ◌∷◌, arith, All,
  All-append,
}
use stamppad.Prelude.Dict.{get, put, get-put, get-All, put-All}
use stamppad.Text.{Text, codes, text_key, nat_key, text_eq_iff}
use stamppad.Sort.{sort}
use stamppad.Bytes.{to_hex}
use stamppad.Protocol.Preimage.{TransferAuthorization, SettlementOffer, offer_preimage}
use stamppad.Protocol.Crypto.{Crypto}
use stamppad.Protocol.Transfer.{verify_owner_signature, verify_hash_lock, offer_artifact_hash}
use stamppad.Protocol.Ownership.State.{
  CanonicalRecord, OwnershipEvent, BoundOffer, StampOwnership, AcceptedStamp, OwnershipInput,
  OwnershipOutput, compare_records,
}
use stamppad.Protocol.Ownership.Replay.{
  fresh_stamp, initial_stamps, bind_offer, move_stamp, event_of, start, resolve_ownership,
  check_bound, pass,
}
use stamppad.Protocol.Ownership.Steps.{
  IsAuthorized, IsOffered, Step, noted, bound, moved, replay_induction, check_bound-some,
}
use stamppad.Protocol.Ownership.Artifacts.{transfers_by_hash-mem, offers_by_hash-mem}

module _ (crypto : Crypto) (input : OwnershipInput) where
  -- The event against the offer that is bound at its sequence. With no offer it is a gift; with one
  -- it goes from the offer's seller to its buyer at its price, and a published authorization reveals
  -- a preimage of its hash lock.
  abbrev pub Terms : OwnershipEvent → Option BoundOffer → Type 0
  Terms h none = (h.offer_hash_hex ≡ codes "none") × (h.price_zat ≡ none)
  Terms h (some b) =
      (h.from_address ≡ b.offer.seller_address)
      × (h.to_address ≡ b.offer.buyer_address)
      × (h.offer_hash_hex ≡ b.offer_hash_hex)
      × (h.price_zat ≡ some b.offer.price_zat)
      × ((auth : TransferAuthorization) × Memᴰ auth input.transfer_artifacts
          × (verify_hash_lock crypto b.offer.hash_lock_hex auth.preimage_hex ≡ true))

  -- An offer that is bound at `n`: it is published, is for this stamp and step, has the hash that
  -- the chain names, and carries its seller's signature.
  pub record IsBound (k : Text) (reached : ℕ) (entry : ℕ × BoundOffer) : Type 0 where
    pub published : Memᴰ entry.1.offer input.offer_artifacts
    pub same_stamp : entry.1.offer.stamp_commitment_hex ≡ k
    pub same_sequence : entry.1.offer.sequence ≡ entry.0
    pub hash : entry.1.offer_hash_hex ≡ to_hex (offer_artifact_hash crypto entry.1.offer)
    pub signed :
        verify_owner_signature crypto entry.1.offer.seller_address
          entry.1.offer.owner_public_key_hex
          (offer_preimage entry.1.offer)
          entry.1.offer.signature_hex
        ≡ true
    pub in_reach : entry.0 ≤ suc reached

  abbrev pub IsSettled : StampOwnership → OwnershipEvent → Type 0
  IsSettled s h = (h.sequence ≤ s.sequence) × Terms h (get s.bound_offers h.sequence)

  pub record IsSold (entry : Text × StampOwnership) : Type 0 where
    pub offers : All (IsBound entry.0 entry.1.sequence) entry.1.bound_offers
    pub settled : All (IsSettled entry.1) entry.1.history
    -- an offer for the next step is the current owner's
    pub open_offer :
        (b : BoundOffer)
        → get entry.1.bound_offers (suc entry.1.sequence) ≡ some b
        → b.offer.seller_address ≡ entry.1.current_owner

  widen-IsBound :
      (k : Text) (m n : ℕ) (bs : List (ℕ × BoundOffer))
      → m ≤ n
      → All (IsBound k m) bs
      → All (IsBound k n) bs
  widen-IsBound k m n [] le h = tt
  widen-IsBound k m n (b ∷ bs) le (h, hs) = (
    record {
      published = h.published;
      same_stamp = h.same_stamp;
      same_sequence = h.same_sequence;
      hash = h.hash;
      signed = h.signed;
      in_reach = omega (arith, h.in_reach);
    },
    widen-IsBound k m n bs le hs,
  )

  -- A write at a later step changes no past event's terms.
  keep-IsSettled :
      (s t : StampOwnership) (hs : List OwnershipEvent)
      → s.sequence ≤ t.sequence
      → ((n : ℕ) → n ≤ s.sequence → get t.bound_offers n ≡ get s.bound_offers n)
      → All (IsSettled s) hs
      → All (IsSettled t) hs
  keep-IsSettled s t [] le same h = tt
  keep-IsSettled s t (x ∷ hs) le same ((r, terms), h) =
      ((omega arith, rw (same x.sequence r) terms), keep-IsSettled s t hs le same h)

  bind_offer-IsSold :
      (e : CanonicalRecord) (s : StampOwnership) (o : SettlementOffer)
      → Memᴰ o input.offer_artifacts
      → e.on_chain.artifact_hash_hex ≡ to_hex (offer_artifact_hash crypto o)
      → IsOffered crypto s o e.on_chain
      → IsSold (e.on_chain.stamp_commitment_hex, s)
      → IsSold (e.on_chain.stamp_commitment_hex, bind_offer e s o)
  unfolding bind_offer
  bind_offer-IsSold e s o m hash f h = record {
    offers = put-All _ s.bound_offers e.on_chain.sequence _ h.offers (record {
      published = m;
      same_stamp = f.same_stamp;
      same_sequence = f.same_sequence;
      hash = hash;
      signed = f.signed;
      in_reach = omega (arith, f.next);
    });
    settled =
        keep-IsSettled s (bind_offer e s o) s.history (omega arith)
          (λ n le. ground (arith, f.next, get-put s.bound_offers e.on_chain.sequence n (offered)))
          h.settled;
    open_offer = λ b g. ground (
      arith,
      f.next,
      f.from_owner,
      g,
      get-put s.bound_offers e.on_chain.sequence (suc s.sequence) (offered),
    );
  }
    where
      offered : BoundOffer
      offered = record { offer_hash_hex = e.on_chain.artifact_hash_hex; offer = o }

  event-Terms :
      (e : CanonicalRecord) (s : StampOwnership) (auth : TransferAuthorization)
      (b : Option BoundOffer)
      → Memᴰ auth input.transfer_artifacts
      → auth.from_address ≡ s.current_owner
      → ((x : BoundOffer) → b ≡ some x → x.offer.seller_address ≡ s.current_owner)
      → check_bound crypto auth b ≡ pass
      → Terms (event_of e auth b) b
  unfolding check_bound
  event-Terms e s auth none m from mine p =
      (ground (arith, text_eq_iff auth.offer_hash_hex (codes "none")), refl)
  event-Terms e s auth (some b) m from mine p =
      let (hash, buyer, lock) = check_bound-some crypto auth b p in
      (from ∙ sym (mine b refl), buyer, hash, refl, (auth, m, lock))

  move_stamp-IsSold :
      (e : CanonicalRecord) (s : StampOwnership) (auth : TransferAuthorization)
      → Memᴰ auth input.transfer_artifacts
      → IsAuthorized crypto s auth e.on_chain
      → IsSold (e.on_chain.stamp_commitment_hex, s)
      → IsSold (
        e.on_chain.stamp_commitment_hex,
        move_stamp e s auth (get s.bound_offers e.on_chain.sequence),
      )
  unfolding move_stamp
  move_stamp-IsSold e s auth m a h = record {
    offers =
        widen-IsBound _ s.sequence e.on_chain.sequence s.bound_offers (omega (arith, a.next))
          h.offers;
    settled =
        All-append _ s.history _
          (keep-IsSettled s (move_stamp e s auth found) s.history (omega (arith, a.next))
            (λ n le. refl) h.settled)
          ((omega arith, event-Terms e s auth found m a.from_owner mine a.settled), tt);
    open_offer =
        λ b g. absurd (omega (arith, a.next, (get-All _ s.bound_offers _ b h.offers g).in_reach));
  }
    where
      found : Option BoundOffer
      found = get s.bound_offers e.on_chain.sequence

      mine : (x : BoundOffer) → found ≡ some x → x.offer.seller_address ≡ s.current_owner
      mine x p = h.open_offer x (ap (get s.bound_offers) (sym a.next) ∙ p)

  Step-IsSold :
      (out : OwnershipOutput) (e : CanonicalRecord) (out' : OwnershipOutput)
      → All IsSold out.stamps
      → Step crypto input out e out'
      → All IsSold out'.stamps
  Step-IsSold out e out' h (noted p q n) = rw p h
  Step-IsSold out e out' h (bound s o here at ok f free p) =
      let (m, hash) = offers_by_hash-mem crypto input.offer_artifacts _ o at in
      rw p (
        put-All IsSold out.stamps _ _ h
          (bind_offer-IsSold e s o m hash f (get-All IsSold out.stamps _ s h here)))
  Step-IsSold out e out' h (moved s auth here at ok a p) = rw p (
      put-All IsSold out.stamps _ _ h (
        move_stamp-IsSold e s auth
          (transfers_by_hash-mem crypto input.transfer_artifacts _ auth at).0 a
          (get-All IsSold out.stamps _ s h here)))

  initial_stamps-IsSold :
      (m : List (Text × StampOwnership)) (ss : List AcceptedStamp)
      → All IsSold m
      → All IsSold (initial_stamps m ss)
  unfolding initial_stamps get
  initial_stamps-IsSold m [] h = h
  initial_stamps-IsSold m (s ∷ ss) h =
      initial_stamps-IsSold (put m s.commitment_hex (fresh_stamp s)) ss (
        put-All IsSold m s.commitment_hex (fresh_stamp s) h
          (record { offers = tt; settled = tt; open_offer = λ b g. absurd (cc) }))

  -- In the result every bound offer is a published one for its stamp and step, with the hash that
  -- the chain names and its seller's verified signature, and an offer for the next step is the
  -- current owner's. Every event whose sequence has a bound offer goes from that offer's seller to
  -- its buyer at its price and offer hash, and a published authorization reveals a preimage of its
  -- hash lock; every other event is a gift, with no offer hash and no price.
  pub resolve_ownership-IsSold : All IsSold (resolve_ownership crypto input).stamps
  unfolding resolve_ownership
  resolve_ownership-IsSold =
      replay_induction crypto input (λ out. All IsSold out.stamps) Step-IsSold (start crypto input)
        (sort compare_records input.records) (initial_stamps-IsSold [] input.stamps tt)
