-- ===== src/Protocol/Ownership/Steps.antt =====
-- What one record of the replay can do, as a relation between the results before and after it, and
-- what a check that passes has established.
use stamppad.Prelude.{
  suc, ◌+◌, ◌≤◌, ◌≡◌, refl, inl, inr, true, not, ◌||◌, Option, none, some, List, [], ◌∷◌, ◌++◌,
  arith, ltb, length, length-append, Bool-cases,
}
use stamppad.Prelude.Dict.{get}
use stamppad.Text.{text_eq_iff, text_key, nat_key}
use stamppad.Protocol.Types.{dest_network_eq}
use stamppad.Protocol.Preimage.{
  TransferAuthorization, SettlementOffer, transfer_preimage, offer_preimage,
}
use stamppad.Protocol.Crypto.{Crypto}
use stamppad.Protocol.Transfer.{
  RecordKind, transfer, offer, OnChainRecord, verify_owner_signature, verify_hash_lock,
}
use stamppad.Protocol.Ownership.State.{
  CanonicalRecord, BoundOffer, StampOwnership, OwnershipInput, OwnershipOutput,
  OwnershipRejectReason,
}
use stamppad.Protocol.Ownership.Replay.{
  Check, pass, refuse, check_bound, check_transfer, check_offer, add_pending, add_rejected,
  set_stamp, bind_offer, move_stamp, new_sales, offer_step, transfer_step, stamp_step, record_step,
  replay, apply_bind, apply_offer, apply_transfer, artifact_step, known_step, known_offers,
  known_transfers,
}

module _ (crypto : Crypto) where
  -- The facts behind a transfer that is accepted.
  pub record IsAuthorized (stamp : StampOwnership) (auth : TransferAuthorization)
      (r : OnChainRecord) : Type 0 where
    pub same_stamp : auth.stamp_commitment_hex ≡ r.stamp_commitment_hex
    pub same_sequence : auth.sequence ≡ r.sequence
    pub next : r.sequence ≡ suc stamp.sequence
    pub from_owner : auth.from_address ≡ stamp.current_owner
    pub signed :
        verify_owner_signature crypto auth.from_address auth.owner_public_key_hex
          (transfer_preimage auth)
          auth.signature_hex
        ≡ true
    pub settled : check_bound crypto auth (get stamp.bound_offers r.sequence) ≡ pass

  pub check_transfer-IsAuthorized :
      (stamp : StampOwnership) (auth : TransferAuthorization) (r : OnChainRecord)
      → check_transfer crypto stamp auth r ≡ pass
      → IsAuthorized stamp auth r
  unfolding check_transfer
  check_transfer-IsAuthorized stamp auth r h = ground (
    arith,
    text_eq_iff auth.stamp_commitment_hex r.stamp_commitment_hex,
    text_eq_iff auth.from_address stamp.current_owner,
  )

  -- The facts behind an offer that is accepted.
  pub record IsOffered (stamp : StampOwnership) (o : SettlementOffer) (r : OnChainRecord)
      : Type 0 where
    pub same_stamp : o.stamp_commitment_hex ≡ r.stamp_commitment_hex
    pub same_sequence : o.sequence ≡ r.sequence
    pub next : r.sequence ≡ suc stamp.sequence
    pub from_owner : o.seller_address ≡ stamp.current_owner
    pub signed :
        verify_owner_signature crypto o.seller_address o.owner_public_key_hex
          (offer_preimage o)
          o.signature_hex
        ≡ true

  pub check_offer-IsOffered :
      (stamp : StampOwnership) (o : SettlementOffer) (r : OnChainRecord)
      → check_offer crypto stamp o r ≡ pass
      → IsOffered stamp o r
  unfolding check_offer
  check_offer-IsOffered stamp o r h = ground (
    arith,
    text_eq_iff o.stamp_commitment_hex r.stamp_commitment_hex,
    text_eq_iff o.seller_address stamp.current_owner,
  )

  -- A sale at a bound offer goes to the named buyer and reveals the preimage of the hash lock.
  pub check_bound-some :
      (auth : TransferAuthorization) (b : BoundOffer)
      → check_bound crypto auth (some b) ≡ pass
      → (auth.offer_hash_hex ≡ b.offer_hash_hex)
        × (auth.to_address ≡ b.offer.buyer_address)
        × (verify_hash_lock crypto b.offer.hash_lock_hex auth.preimage_hex ≡ true)
  unfolding check_bound
  check_bound-some auth b h = ground (
    arith,
    text_eq_iff auth.offer_hash_hex b.offer_hash_hex,
    text_eq_iff auth.to_address b.offer.buyer_address,
  )

  module _ (input : OwnershipInput) where
    -- A record counts once it is on the input's network, in the best chain and deep enough.
    pub record IsConfirmed (e : CanonicalRecord) : Type 0 where
      pub network : dest_network_eq e.network input.destination_network ≡ true
      pub best_chain : e.in_best_chain ≡ true
      pub deep : input.min_confirmations ≤ e.confirmations

    pub data Step (out : OwnershipOutput) (e : CanonicalRecord) (out' : OwnershipOutput)
        : Type 0 where
      -- pending or rejected
      noted :
          out'.stamps ≡ out.stamps
          → out'.sales ≡ out.sales
          → length out'.pending + length out'.rejected
            ≡ suc (length out.pending + length out.rejected)
          → Step out e out'
      bound :
          (stamp : StampOwnership) (o : SettlementOffer)
          → get out.stamps e.on_chain.stamp_commitment_hex ≡ some stamp
          → get (known_offers crypto input) e.on_chain.artifact_hash_hex ≡ some o
          → IsConfirmed e
          → IsOffered stamp o e.on_chain
          → get stamp.bound_offers e.on_chain.sequence ≡ none
          → out' ≡ set_stamp e out (bind_offer e stamp o)
          → Step out e out'
      moved :
          (stamp : StampOwnership) (auth : TransferAuthorization)
          → get out.stamps e.on_chain.stamp_commitment_hex ≡ some stamp
          → get (known_transfers crypto input) e.on_chain.artifact_hash_hex ≡ some auth
          → IsConfirmed e
          → IsAuthorized stamp auth e.on_chain
          → out'
            ≡ record (set_stamp e out
                (move_stamp e stamp auth (get stamp.bound_offers e.on_chain.sequence))) {
                  sales =
                      out.sales ++ new_sales e auth (get stamp.bound_offers e.on_chain.sequence);
                }
          → Step out e out'

    module _ (out : OwnershipOutput) (e : CanonicalRecord) where
      pending-Step : (why : _) → Step out e (add_pending e out why)
      pending-Step why = noted refl refl (omega (arith, length-append {0} out.pending))

      rejected-Step : (why : OwnershipRejectReason) → Step out e (add_rejected e out why)
      rejected-Step why = noted refl refl (omega (arith, length-append {0} out.rejected))

      offer_step-Step :
          (stamp : StampOwnership) (found : Option SettlementOffer)
          → get out.stamps e.on_chain.stamp_commitment_hex ≡ some stamp
          → get (known_offers crypto input) e.on_chain.artifact_hash_hex ≡ found
          → IsConfirmed e
          → Step out e (offer_step e out crypto stamp found)
      unfolding offer_step
      offer_step-Step stamp none here at ok = pending-Step _
      offer_step-Step stamp (some o) here at ok =
          checked (check_offer crypto stamp o e.on_chain) refl
        where
          free :
              (b : Option BoundOffer)
              → check_offer crypto stamp o e.on_chain ≡ pass
              → get stamp.bound_offers e.on_chain.sequence ≡ b
              → Step out e (apply_bind e out stamp o b)
          free none p q =
              bound stamp o here at ok (check_offer-IsOffered stamp o e.on_chain p) q refl
          free (some b) p q = rejected-Step _

          checked :
              (c : Check)
              → check_offer crypto stamp o e.on_chain ≡ c
              → Step out e (apply_offer e out stamp o c)
          checked (refuse why) p = rejected-Step why
          checked pass p = free (get stamp.bound_offers e.on_chain.sequence) p refl

      transfer_step-Step :
          (stamp : StampOwnership) (found : Option TransferAuthorization)
          → get out.stamps e.on_chain.stamp_commitment_hex ≡ some stamp
          → get (known_transfers crypto input) e.on_chain.artifact_hash_hex ≡ found
          → IsConfirmed e
          → Step out e (transfer_step e out crypto stamp found)
      unfolding transfer_step
      transfer_step-Step stamp none here at ok = pending-Step _
      transfer_step-Step stamp (some auth) here at ok =
          checked (check_transfer crypto stamp auth e.on_chain) refl
        where
          checked :
              (c : Check)
              → check_transfer crypto stamp auth e.on_chain ≡ c
              → Step out e
                  (apply_transfer e out stamp auth (get stamp.bound_offers e.on_chain.sequence) c)
          checked (refuse why) p = rejected-Step why
          checked pass p =
              moved stamp auth here at ok (check_transfer-IsAuthorized stamp auth e.on_chain p) refl

      artifact_step-Step :
          (kind : RecordKind) (stamp : StampOwnership)
          → get out.stamps e.on_chain.stamp_commitment_hex ≡ some stamp
          → IsConfirmed e
          → Step out e (
              artifact_step e out crypto kind stamp
                (get (known_offers crypto input) e.on_chain.artifact_hash_hex)
                (get (known_transfers crypto input) e.on_chain.artifact_hash_hex))
      artifact_step-Step offer stamp here ok = offer_step-Step stamp _ here refl ok
      artifact_step-Step transfer stamp here ok = transfer_step-Step stamp _ here refl ok

      stamp_step-Step :
          (stamp : StampOwnership)
          → get out.stamps e.on_chain.stamp_commitment_hex ≡ some stamp
          → Step out e (stamp_step crypto input out e stamp)
      unfolding stamp_step
      stamp_step-Step stamp here =
          elim (Bool-cases (dest_network_eq e.network input.destination_network)) [
            | inr other ↦ rw other (rejected-Step _)
            | inl same ↦
                elim (Bool-cases
                  (not e.in_best_chain || ltb e.confirmations input.min_confirmations)) [
                    | inl early ↦ rw (same, early) (pending-Step _)
                    | inr late ↦
                        rw (same, late)
                          (artifact_step-Step e.on_chain.kind stamp here (record {
                            network = same;
                            best_chain = ground arith;
                            deep = ground arith;
                          }))
                  ]
          ]

      pub record_step-Step : Step out e (record_step crypto input out e)
      unfolding record_step
      record_step-Step = known (get out.stamps e.on_chain.stamp_commitment_hex) refl
        where
          known :
              (found : Option StampOwnership)
              → get out.stamps e.on_chain.stamp_commitment_hex ≡ found
              → Step out e (known_step crypto input out e found)
          known none here = rejected-Step _
          known (some stamp) here = stamp_step-Step stamp here

    -- What every step keeps holds of the whole replay.
    pub replay_induction :
        (P : OwnershipOutput → Type 0)
        → ((out : OwnershipOutput) (e : CanonicalRecord) (out' : OwnershipOutput)
            → P out
            → Step out e out'
            → P out')
        → (out : OwnershipOutput) (es : List CanonicalRecord) → P out
        → P (replay crypto input out es)
    unfolding replay
    replay_induction P keep out [] h = h
    replay_induction P keep out (e ∷ es) h =
        replay_induction P keep (record_step crypto input out e) es
          (keep out e (record_step crypto input out e) h (record_step-Step out e))
