-- ===== src/Protocol/Ownership/Replay.antt =====
-- src/lib/protocol/ownership.ts: the checks and the replay. The objects of `stamps` are values: an
-- assignment to `stamp` is a write of the new value to the map. Messages are left out.
use stamppad.Prelude.{
  ◌+◌, Bool, true, false, not, ◌||◌, Option, none, some, List, [], ◌∷◌, ◌++◌, ltb, ◌==◌,
  if◌then◌else◌,
}
use stamppad.Prelude.Dict.{get, put}
use stamppad.Text.{Text, codes, text_eq, text_key, nat_key}
use stamppad.Sort.{sort}
use stamppad.Bytes.{to_hex}
use stamppad.Protocol.Types.{dest_network_eq}
use stamppad.Protocol.Preimage.{
  TransferAuthorization, SettlementOffer, transfer_preimage, offer_preimage,
}
use stamppad.Protocol.Crypto.{Crypto}
use stamppad.Protocol.Transfer.{
  RecordKind, transfer, offer, OnChainRecord, transfer_artifact_hash, offer_artifact_hash,
  verify_owner_signature, verify_hash_lock,
}
use stamppad.Protocol.Ownership.State.{
  AcceptedStamp, BoundOffer, CanonicalRecord, OwnershipEvent, OwnershipInput, OwnershipOutput,
  OwnershipRejectReason, PendingReason, Sale, StampOwnership, awaiting_confirmations,
  compare_records, conflicting_offer, hash_lock_unsatisfied, not_in_best_chain,
  offer_artifact_unavailable, offer_mismatch, unauthorized_transfer, unknown_stamp, wrong_network,
  wrong_sequence,
}

pub data Check : Type 0 where
  pass : Check
  refuse : OwnershipRejectReason → Check

abbrev pub fresh_stamp : AcceptedStamp → StampOwnership
fresh_stamp s = record {
  stamp_commitment_hex = s.commitment_hex;
  original_recipient = s.original_recipient;
  current_owner = s.original_recipient;
  sequence = 0;
  history = [];
  bound_offers = [];
  transferable = true;
}

unfoldable pub initial_stamps :
    List (Text × StampOwnership) → List AcceptedStamp → List (Text × StampOwnership)
initial_stamps m [] = m
initial_stamps m (s ∷ ss) = initial_stamps (put m s.commitment_hex (fresh_stamp s)) ss

abbrev pub price_of : Option BoundOffer → Option Text
price_of none = none
price_of (some b) = some b.offer.price_zat

module _ (crypto : Crypto) where
  -- The last part of `checkTransfer`: the offer bound at this sequence, if any.
  unfoldable pub check_bound : TransferAuthorization → Option BoundOffer → Check
  check_bound auth none =
      if not (text_eq auth.offer_hash_hex (codes "none")) then refuse offer_mismatch else pass
  check_bound auth (some b) =
      if not (text_eq auth.offer_hash_hex b.offer_hash_hex)
      then refuse offer_mismatch
      else if not (text_eq auth.to_address b.offer.buyer_address)
      then refuse offer_mismatch
      else if not (verify_hash_lock crypto b.offer.hash_lock_hex auth.preimage_hex)
      then refuse hash_lock_unsatisfied
      else pass

  unfoldable pub check_transfer : StampOwnership → TransferAuthorization → OnChainRecord → Check
  check_transfer stamp auth r =
      if not (text_eq auth.stamp_commitment_hex r.stamp_commitment_hex)
        || not (auth.sequence == r.sequence)
      then refuse unauthorized_transfer
      else if not (r.sequence == stamp.sequence + 1)
      then refuse wrong_sequence
      else if not (text_eq auth.from_address stamp.current_owner)
      then refuse unauthorized_transfer
      else if not (
          verify_owner_signature crypto auth.from_address auth.owner_public_key_hex
            (transfer_preimage auth) auth.signature_hex)
      then refuse unauthorized_transfer
      else check_bound auth (get stamp.bound_offers r.sequence)

  unfoldable pub check_offer : StampOwnership → SettlementOffer → OnChainRecord → Check
  check_offer stamp o r =
      if not (text_eq o.stamp_commitment_hex r.stamp_commitment_hex)
        || not (o.sequence == r.sequence)
      then refuse offer_mismatch
      else if not (r.sequence == stamp.sequence + 1)
      then refuse wrong_sequence
      else if not (text_eq o.seller_address stamp.current_owner)
      then refuse unauthorized_transfer
      else if not (
          verify_owner_signature crypto o.seller_address o.owner_public_key_hex (offer_preimage o)
            o.signature_hex)
      then refuse unauthorized_transfer
      else pass

  unfoldable pub transfers_by_hash :
      List (Text × TransferAuthorization)
      → List TransferAuthorization
      → List (Text × TransferAuthorization)
  transfers_by_hash m [] = m
  transfers_by_hash m (a ∷ as_) =
      transfers_by_hash (put m (to_hex (transfer_artifact_hash crypto a)) a) as_

  unfoldable pub offers_by_hash :
      List (Text × SettlementOffer) → List SettlementOffer → List (Text × SettlementOffer)
  offers_by_hash m [] = m
  offers_by_hash m (o ∷ os) = offers_by_hash (put m (to_hex (offer_artifact_hash crypto o)) o) os

-- What an accepted record makes of its stamp, and the sale that it adds.
module _ (e : CanonicalRecord) where
  -- stamp.boundOffers[record.sequence] = { offerHashHex, offer }
  unfoldable pub bind_offer : StampOwnership → SettlementOffer → StampOwnership
  bind_offer stamp o = record stamp {
    bound_offers =
        put stamp.bound_offers e.on_chain.sequence
          (record { offer_hash_hex = e.on_chain.artifact_hash_hex; offer = o });
  }

  abbrev pub event_of : TransferAuthorization → Option BoundOffer → OwnershipEvent
  event_of auth bound = record {
    sequence = e.on_chain.sequence;
    from_address = auth.from_address;
    to_address = auth.to_address;
    txid = e.txid;
    height = e.height;
    offer_hash_hex = auth.offer_hash_hex;
    price_zat = price_of bound;
  }

  unfoldable pub move_stamp :
      StampOwnership → TransferAuthorization → Option BoundOffer → StampOwnership
  move_stamp stamp auth bound = record stamp {
    history = stamp.history ++ event_of auth bound ∷ [];
    current_owner = auth.to_address;
    sequence = e.on_chain.sequence;
  }

  abbrev pub sale_of : TransferAuthorization → BoundOffer → Sale
  sale_of auth b = record {
    stamp_commitment_hex = e.on_chain.stamp_commitment_hex;
    sequence = e.on_chain.sequence;
    seller = auth.from_address;
    buyer = auth.to_address;
    price_zat = b.offer.price_zat;
    txid = e.txid;
    height = e.height;
  }

  unfoldable pub new_sales : TransferAuthorization → Option BoundOffer → List Sale
  new_sales auth none = []
  new_sales auth (some b) = sale_of auth b ∷ []

-- The branches of the loop: what a record does to the four results.
module _ (e : CanonicalRecord) (out : OwnershipOutput) where
  abbrev pub add_pending : PendingReason → OwnershipOutput
  add_pending why = record out {
    pending =
        out.pending
        ++ record {
          txid = e.txid;
          stamp_commitment_hex = e.on_chain.stamp_commitment_hex;
          reason = why;
        }
          ∷ [];
  }

  abbrev pub add_rejected : OwnershipRejectReason → OwnershipOutput
  add_rejected why = record out {
    rejected =
        out.rejected
        ++ record {
          txid = e.txid;
          stamp_commitment_hex = e.on_chain.stamp_commitment_hex;
          reason = why;
        }
          ∷ [];
  }

  abbrev pub set_stamp : StampOwnership → OwnershipOutput
  set_stamp s = record out { stamps = put out.stamps e.on_chain.stamp_commitment_hex s }

  abbrev pub apply_bind : StampOwnership → SettlementOffer → Option BoundOffer → OwnershipOutput
  apply_bind stamp o none = set_stamp (bind_offer e stamp o)
  apply_bind stamp o (some b) = add_rejected conflicting_offer

  abbrev pub apply_offer : StampOwnership → SettlementOffer → Check → OwnershipOutput
  apply_offer stamp o (refuse why) = add_rejected why
  apply_offer stamp o pass = apply_bind stamp o (get stamp.bound_offers e.on_chain.sequence)

  abbrev pub apply_transfer :
      StampOwnership → TransferAuthorization → Option BoundOffer → Check → OwnershipOutput
  apply_transfer stamp auth bound (refuse why) = add_rejected why
  apply_transfer stamp auth bound pass = record (set_stamp (move_stamp e stamp auth bound)) {
    sales = out.sales ++ new_sales e auth bound;
  }

  module _ (crypto : Crypto) where
    unfoldable pub offer_step : StampOwnership → Option SettlementOffer → OwnershipOutput
    offer_step stamp none = add_pending offer_artifact_unavailable
    offer_step stamp (some o) = apply_offer stamp o (check_offer crypto stamp o e.on_chain)

    unfoldable pub transfer_step : StampOwnership → Option TransferAuthorization → OwnershipOutput
    transfer_step stamp none = add_pending PendingReason.authorization_unavailable
    transfer_step stamp (some auth) =
        apply_transfer stamp auth (get stamp.bound_offers e.on_chain.sequence)
          (check_transfer crypto stamp auth e.on_chain)

    -- The two kinds of record, with the artifact that the hash names.
    abbrev pub artifact_step :
        RecordKind
        → StampOwnership
        → Option SettlementOffer
        → Option TransferAuthorization
        → OwnershipOutput
    artifact_step offer stamp o a = offer_step stamp o
    artifact_step transfer stamp o a = transfer_step stamp a

abbrev confirmed_reason : Bool → PendingReason
confirmed_reason true = awaiting_confirmations
confirmed_reason false = not_in_best_chain

module _ (crypto : Crypto) (input : OwnershipInput) where
  abbrev pub known_transfers : List (Text × TransferAuthorization)
  known_transfers = transfers_by_hash crypto [] input.transfer_artifacts

  abbrev pub known_offers : List (Text × SettlementOffer)
  known_offers = offers_by_hash crypto [] input.offer_artifacts

  unfoldable pub stamp_step : OwnershipOutput → CanonicalRecord → StampOwnership → OwnershipOutput
  stamp_step out e stamp =
      if not (dest_network_eq e.network input.destination_network)
      then add_rejected e out wrong_network
      else if not e.in_best_chain || ltb e.confirmations input.min_confirmations
      then add_pending e out (confirmed_reason e.in_best_chain)
      else artifact_step e out crypto e.on_chain.kind stamp
          (get known_offers e.on_chain.artifact_hash_hex)
          (get known_transfers e.on_chain.artifact_hash_hex)

  abbrev pub known_step :
      OwnershipOutput → CanonicalRecord → Option StampOwnership → OwnershipOutput
  known_step out e none = add_rejected e out unknown_stamp
  known_step out e (some stamp) = stamp_step out e stamp

  -- The body of the loop.
  unfoldable pub record_step : OwnershipOutput → CanonicalRecord → OwnershipOutput
  record_step out e = known_step out e (get out.stamps e.on_chain.stamp_commitment_hex)

  abbrev pub start : OwnershipOutput
  start = record {
    stamps = initial_stamps [] input.stamps;
    pending = [];
    rejected = [];
    sales = [];
  }

  -- The loop, over records that are already in order.
  unfoldable pub replay : OwnershipOutput → List CanonicalRecord → OwnershipOutput
  unfolding record_step
  replay out [] = out
  replay out (e ∷ es) = replay (record_step out e) es

  unfoldable pub resolve_ownership : OwnershipOutput
  unfolding replay
  resolve_ownership = replay start (sort compare_records input.records)
