-- ===== src/Indexer.antt =====
-- src/lib/indexer/index.ts: issuance and ownership, derived from the chains. `none` is an exception
-- of `rebuildLedger`.
pub mod Backed
pub mod Tests
use Prim.Native.Nat.{compare}
use stamppad.Prelude.{
  ℕ, ◌+◌, Bool, true, false, not, ◌&&◌, ◌||◌, Option, none, some, List, [], ◌∷◌, map, Ordering,
  length, all, ◌==◌, if◌then◌else◌,
}
use stamppad.Prelude.Dict.{get, put}
use stamppad.Text.{Text, text_eq, text_lt, text_key}
use stamppad.Sort.{sort}
use stamppad.Mode.{Flags, StampMode, demo, testnet, mainnet}
use stamppad.Store.{ListingRow, TransferRow, MemoryShape}
use stamppad.Protocol.Types.{CanonicalSolanaTx, ZcashPublication, AcceptedIssuance}
use stamppad.Protocol.Crypto.{Crypto}
use stamppad.Protocol.Preimage.{TransferAuthorization, SettlementOffer}
use stamppad.Protocol.Ledger.{RebuildInput, RebuildOutput, rebuild_ledger}
use stamppad.Protocol.Ownership.State.{
  AcceptedStamp, OwnershipEvent, OwnershipInput, OwnershipOutput, OwnershipRejectReason,
  RejectedRecord, StampOwnership, conflicting_offer, conflicting_transfer,
  records_from_publications,
}
use stamppad.Protocol.Ownership.Replay.{resolve_ownership}
use stamppad.Modules.Listing.{Ownership}

abbrev pub demo_min_confirms : ℕ
demo_min_confirms = 2

pub record IndexInput : Type 0 where
  pub solana : List CanonicalSolanaTx
  pub zcash : List ZcashPublication
  pub transfer_artifacts : List TransferAuthorization
  pub offer_artifacts : List SettlementOffer
  pub min_zcash_confirmations : Option ℕ

pub record IndexedState : Type 0 where
  pub issuance : RebuildOutput
  pub ownership : OwnershipOutput
  pub accepted_stamp_units : List (Text × Text)
  pub ownership_chains_contiguous : Bool
  pub conflicting_sales : ℕ
  pub unresolved_records : ℕ

abbrev pub confirmations_of_mode : StampMode → ℕ → ℕ
confirmations_of_mode demo n = demo_min_confirms
confirmations_of_mode testnet n = n
confirmations_of_mode mainnet n = n

abbrev pub min_confirmations : Flags → Option ℕ → ℕ
min_confirmations f none = confirmations_of_mode f.mode f.zcash_min_confirmations
min_confirmations f (some n) = n

-- The sign of the comparators.
abbrev pub by_commitment : Text → Text → ℕ → ℕ → Ordering
by_commitment a b m n =
    if not (text_eq a b) then (if text_lt a b then Ordering.lt else Ordering.gt) else compare m n

abbrev pub by_transfer : TransferAuthorization → TransferAuthorization → Ordering
by_transfer a b = by_commitment a.stamp_commitment_hex b.stamp_commitment_hex a.sequence b.sequence

abbrev pub by_offer : SettlementOffer → SettlementOffer → Ordering
by_offer a b = by_commitment a.stamp_commitment_hex b.stamp_commitment_hex a.sequence b.sequence

-- history.every((event, i) => event.sequence === i + 1), from the position `i` on
unfoldable pub contiguous : ℕ → List OwnershipEvent → Bool
contiguous i [] = true
contiguous i (h ∷ hs) = (h.sequence == i + 1) && contiguous (i + 1) hs

unfoldable pub chains_contiguous : List (Text × StampOwnership) → Bool
chains_contiguous [] = true
chains_contiguous ((k, s) ∷ stamps) = contiguous 0 s.history && chains_contiguous stamps

abbrev pub is_conflict : OwnershipRejectReason → Bool
is_conflict conflicting_offer = true
is_conflict conflicting_transfer = true
is_conflict _ = false

unfoldable pub count_conflicts : List RejectedRecord → ℕ
count_conflicts [] = 0
count_conflicts (r ∷ rs) = (if is_conflict r.reason then 1 else 0) + count_conflicts rs

abbrev pub stamp_of_row : AcceptedIssuance → AcceptedStamp
stamp_of_row row = record {
  commitment_hex = row.commitment_hex;
  original_recipient = row.issuance.destination;
}

abbrev pub rebuild_input : Flags → IndexInput → RebuildInput
rebuild_input f input = record {
  source_network = f.source_network;
  destination_network = f.dest_network;
  min_zcash_confirmations = min_confirmations f input.min_zcash_confirmations;
  solana = input.solana;
  zcash = input.zcash;
}

abbrev pub ownership_input : Flags → IndexInput → RebuildOutput → OwnershipInput
ownership_input f input issuance = record {
  destination_network = f.dest_network;
  min_confirmations = min_confirmations f input.min_zcash_confirmations;
  stamps = map stamp_of_row issuance.accepted;
  records = records_from_publications input.zcash;
  transfer_artifacts = sort by_transfer input.transfer_artifacts;
  offer_artifacts = sort by_offer input.offer_artifacts;
}

abbrev pub offer_of : ListingRow → List SettlementOffer → List SettlementOffer
offer_of l rest = elim l.offer_artifact [ none ↦ rest | some o ↦ o ∷ rest ]

-- The values of a map, as artifacts.
unfoldable pub offers_from : List (Text × ListingRow) → List SettlementOffer
offers_from [] = []
offers_from ((k, l) ∷ ls) = offer_of l (offers_from ls)

unfoldable pub transfer_artifacts_of : List (Text × TransferRow) → List TransferAuthorization
transfer_artifacts_of [] = []
transfer_artifacts_of ((k, t) ∷ ts) = t.artifact ∷ transfer_artifacts_of ts

unfoldable pub publications_of : List (Text × ZcashPublication) → List ZcashPublication
publications_of [] = []
publications_of ((k, p) ∷ ps) = p ∷ publications_of ps

module _ (crypto : Crypto) (f : Flags) where
  abbrev pub indexed : IndexInput → RebuildOutput → IndexedState
  indexed input issuance =
      let ownership = resolve_ownership crypto (ownership_input f input issuance) in
      record {
        issuance = issuance;
        ownership = ownership;
        accepted_stamp_units = issuance.accepted_stamp_units;
        ownership_chains_contiguous = chains_contiguous ownership.stamps;
        conflicting_sales = count_conflicts ownership.rejected;
        unresolved_records = length ownership.pending;
      }

  abbrev pub index_rebuilt : IndexInput → Option RebuildOutput → Option IndexedState
  index_rebuilt input none = none
  index_rebuilt input (some issuance) = some (indexed input issuance)

  unfoldable pub index_chains : IndexInput → Option IndexedState
  index_chains input = index_rebuilt input (rebuild_ledger crypto (rebuild_input f input))

  -- `indexFromStore`. The artifacts are taken in the order of the maps, which sorting them by their
  -- creation time does not show: `indexChains` sorts them again.
  unfoldable pub index_from_store : MemoryShape → Option IndexedState
  index_from_store s = index_chains (record {
    solana = s.solana_txs;
    zcash = publications_of s.zcash.txs;
    transfer_artifacts = transfer_artifacts_of s.transfers;
    offer_artifacts = offers_from s.listings;
    min_zcash_confirmations = none;
  })

abbrev pub owner_found : Text → Option StampOwnership → Ownership
owner_found fallback none = record { current_owner = fallback; sequence = 0 }
owner_found fallback (some row) = record {
  current_owner = row.current_owner;
  sequence = row.sequence;
}

unfoldable pub owner_of : IndexedState → (commitment_hex fallback_recipient : Text) → Ownership
owner_of state commitment_hex fallback_recipient =
    owner_found fallback_recipient (get state.ownership.stamps commitment_hex)
