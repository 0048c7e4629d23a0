-- ===== src/Protocol/Ownership/State.antt =====
-- src/lib/protocol/ownership.ts: the types, the canonical order, and the records of publications. Messages are left out.
use stamppad.Prelude.{
  ℕ, Bool, not, Option, none, some, List, [], ◌∷◌, ◌++◌, ◌==◌, if◌then◌else◌, Ordering,
}
use Prim.Native.Nat.{compare}
use stamppad.Text.{Text, text_eq, text_lt, text_key, nat_key}
use stamppad.Sort.{sort}
use stamppad.Bytes.{Bytes}
use stamppad.Protocol.Types.{DestNetwork, ZcashOutput, ZcashPublication}
use stamppad.Protocol.Preimage.{TransferAuthorization, SettlementOffer}
use stamppad.Protocol.Transfer.{OnChainRecord, decode_record}

pub data OwnershipRejectReason : Type 0 where
  unauthorized_transfer wrong_sequence conflicting_transfer conflicting_offer :
      OwnershipRejectReason
  offer_mismatch hash_lock_unsatisfied unknown_stamp authorization_unavailable :
      OwnershipRejectReason
  wrong_network : OwnershipRejectReason

-- The `reason` texts of pending records.
pub data PendingReason : Type 0 where
  awaiting_confirmations not_in_best_chain : PendingReason
  offer_artifact_unavailable authorization_unavailable : PendingReason

pub record CanonicalRecord : Type 0 where
  pub txid : Text
  pub height : ℕ
  pub output_index : ℕ
  pub confirmations : ℕ
  pub in_best_chain : Bool
  pub network : DestNetwork
  pub on_chain : OnChainRecord

pub record OwnershipEvent : Type 0 where
  pub sequence : ℕ
  pub from_address : Text
  pub to_address : Text
  pub txid : Text
  pub height : ℕ
  pub offer_hash_hex : Text
  pub price_zat : Option Text

pub record BoundOffer : Type 0 where
  pub offer_hash_hex : Text
  pub offer : SettlementOffer

pub record StampOwnership : Type 0 where
  pub stamp_commitment_hex : Text
  pub original_recipient : Text
  pub current_owner : Text
  pub sequence : ℕ
  pub history : List OwnershipEvent
  pub bound_offers : List (ℕ × BoundOffer)
  pub transferable : Bool

pub record AcceptedStamp : Type 0 where
  pub commitment_hex : Text
  pub original_recipient : Text

pub record OwnershipInput : Type 0 where
  pub destination_network : DestNetwork
  pub min_confirmations : ℕ
  pub stamps : List AcceptedStamp
  pub records : List CanonicalRecord
  pub transfer_artifacts : List TransferAuthorization
  pub offer_artifacts : List SettlementOffer

pub record PendingRecord : Type 0 where
  pub txid : Text
  pub stamp_commitment_hex : Text
  pub reason : PendingReason

pub record RejectedRecord : Type 0 where
  pub txid : Text
  pub stamp_commitment_hex : Text
  pub reason : OwnershipRejectReason

pub record Sale : Type 0 where
  pub stamp_commitment_hex : Text
  pub sequence : ℕ
  pub seller : Text
  pub buyer : Text
  pub price_zat : Text
  pub txid : Text
  pub height : ℕ

pub record OwnershipOutput : Type 0 where
  pub stamps : List (Text × StampOwnership)
  pub pending : List PendingRecord
  pub rejected : List RejectedRecord
  pub sales : List Sale

-- The sign of `compareRecords`.
unfoldable pub compare_records : CanonicalRecord → CanonicalRecord → Ordering
compare_records a b =
    if not (a.height == b.height)
    then compare a.height b.height
    else if not (text_eq a.txid b.txid)
    then (if text_lt a.txid b.txid then Ordering.lt else Ordering.gt)
    else compare a.output_index b.output_index

abbrev pub height_or_zero : Option ℕ → ℕ
height_or_zero none = 0
height_or_zero (some h) = h

-- The record of one output: none without data, or with data that is no record.
output_records : ZcashPublication → ZcashOutput → Option Bytes → List CanonicalRecord
output_records p o none = []
output_records p o (some b) = elim (decode_record b) [
  | none ↦ []
  | some r ↦
      record {
        txid = p.txid;
        height = height_or_zero p.height;
        output_index = o.index;
        confirmations = p.confirmations;
        in_best_chain = p.in_best_chain;
        network = p.network;
        on_chain = r;
      }
      ∷ []
]

publication_records : ZcashPublication → List ZcashOutput → List CanonicalRecord
publication_records p [] = []
publication_records p (o ∷ os) = output_records p o o.null_data ++ publication_records p os

all_records : List ZcashPublication → List CanonicalRecord
all_records [] = []
all_records (p ∷ ps) = publication_records p p.outputs ++ all_records ps

unfoldable pub records_from_publications : List ZcashPublication → List CanonicalRecord
unfolding output_records publication_records all_records
records_from_publications ps = sort compare_records (all_records ps)
