-- ===== src/Protocol/Ledger.antt =====
-- src/lib/protocol/ledger.ts: which burns of a set of Solana transactions are issued by which Zcash
-- publications. Messages are left out, and so is a map of the loop that nothing reads.
pub mod Claims
pub mod Sorting
pub mod Units
mod Tests
use stamppad.Prelude.{
  ℕ, ◌+◌, Bool, true, false, not, ◌&&◌, ◌||◌, Option, none, some, List, [], ◌∷◌, ◌++◌, map, ltb,
  ◌==◌, if◌then◌else◌, any, Ordering, take, length,
}
use stamppad.Prelude.Dict.{get, put}
use Prim.Native.Nat.{compare}
use stamppad.Text.{Text, codes, text_eq, text_lt, text_key}
use stamppad.Sort.{sort}
use stamppad.Bytes.{Bytes, to_hex}
use stamppad.Protocol.Types.{
  SourceNetwork, DestNetwork, dest_network_eq, source_network_text, RejectReason, CanonicalSolanaTx,
  IntentV0, BurnDecode, IssuanceFields, AcceptedIssuance, ZcashOutput, ZcashPublication,
  missing_intent, duplicate_claim, duplicate_publication,
}
use stamppad.Protocol.Crypto.{Crypto}
use stamppad.Protocol.Preimage.{decimal}
use stamppad.Protocol.Encoding.{read_number, compare_locators}
use stamppad.Protocol.Validate.{
  Expected, ValidationResult, valid, fail, includes, decode_burn, decode_intents, validate_burn,
  is_published, validate_publication, accept_issuance,
}

pub record RebuildInput : Type 0 where
  pub source_network : SourceNetwork
  pub destination_network : DestNetwork
  pub min_zcash_confirmations : ℕ
  pub solana : List CanonicalSolanaTx
  pub zcash : List ZcashPublication

pub data PendingCause : Type 0 where
  zcash_confirmation_pending publication_pending : PendingCause

pub record RebuildOutput : Type 0 where
  pub accepted : List AcceptedIssuance
  pub pending : List (Text × PendingCause)
  pub rejected : List (Text × RejectReason)
  pub accepted_stamp_units : List (Text × Text)

-- The variables of the loop.
pub record Rebuild : Type 0 where
  pub accepted : List AcceptedIssuance
  pub pending : List (Text × PendingCause)
  pub rejected : List (Text × RejectReason)
  pub seen : List Text

abbrev pub compare_texts : Text → Text → Ordering
compare_texts a b =
    if text_eq a b then Ordering.eq else if text_lt a b then Ordering.lt else Ordering.gt

-- The sign of `compareBurnEvents`.
unfoldable pub compare_burn_events : CanonicalSolanaTx → CanonicalSolanaTx → Ordering
compare_burn_events a b =
    if not (a.slot == b.slot) then compare a.slot b.slot else compare_texts a.signature b.signature

unfoldable pub find_intent : DestNetwork → List IntentV0 → Option Text
find_intent network [] = none
find_intent network (i ∷ is) =
    let rest = find_intent network is in
    if dest_network_eq i.destination_network network then some i.destination else rest

abbrev pub guess_destination : CanonicalSolanaTx → DestNetwork → Option Text
guess_destination tx network = find_intent network (decode_intents tx)

abbrev pub amount_of : Option BurnDecode → Option ℕ
amount_of none = none
amount_of (some b) = some b.amount_base

abbrev pub guess_amount : CanonicalSolanaTx → Option ℕ
guess_amount tx = amount_of (decode_burn tx)

unfoldable pub event_id : IssuanceFields → Text
event_id i =
    source_network_text i.source_network ++ (b':' ∷ (i.source_tx ++ (b':' ∷ i.burn_locator)))

-- text.includes(part)
unfoldable pub contains : Text → Text → Bool
contains [] part = text_eq part []
contains (c ∷ t) part = text_eq (take (length part) (c ∷ t)) part || contains t part

abbrev pub holds_text : Text → Option Bytes → Bool
holds_text part none = false
holds_text part (some b) = contains (to_hex b) part

unfoldable pub find_publication :
    (ZcashPublication → Bool) → List ZcashPublication → Option ZcashPublication
find_publication test [] = none
find_publication test (z ∷ zs) =
    let rest = find_publication test zs in if test z then some z else rest

unfoldable pub filter : (ZcashPublication → Bool) → List ZcashPublication → List ZcashPublication
filter test [] = []
filter test (z ∷ zs) = let rest = filter test zs in if test z then z ∷ rest else rest

abbrev pub compare_txids : ZcashPublication → ZcashPublication → Ordering
compare_txids a b = compare_texts a.txid b.txid

abbrev pub reject : CanonicalSolanaTx → RejectReason → Rebuild → Rebuild
reject tx why st = record st { rejected = st.rejected ++ (tx.signature, why) ∷ [] }

module _ (crypto : Crypto) (input : RebuildInput) where
  abbrev pub expected_of : CanonicalSolanaTx → Text → ℕ → Expected
  expected_of tx destination amount = record {
    source_network = input.source_network;
    destination_network = input.destination_network;
    mint = tx.mint.address;
    amount_base = amount;
    decimals = tx.mint.decimals;
    destination = destination;
  }

  abbrev pub publication_matches : IssuanceFields → ZcashPublication → Bool
  publication_matches issuance z =
      is_published (validate_publication crypto issuance z input.min_zcash_confirmations)

  abbrev pub matches : IssuanceFields → List ZcashPublication
  matches issuance = sort compare_txids (filter (publication_matches issuance) input.zcash)

  abbrev pub pending_cause : Option ZcashPublication → PendingCause
  pending_cause none = publication_pending
  pending_cause (some z) =
      if not z.in_best_chain || ltb z.confirmations input.min_zcash_confirmations
      then zcash_confirmation_pending
      else publication_pending

  abbrev pub mentions : Bytes → ZcashPublication → Bool
  mentions commitment z = any (λ o. holds_text (to_hex commitment) o.null_data) z.outputs

  abbrev pub add_row :
      CanonicalSolanaTx
      → Rebuild
      → IssuanceFields
      → List ZcashPublication
      → Option AcceptedIssuance
      → Option Rebuild
  add_row tx st issuance extras none = none
  add_row tx st issuance extras (some row) = some (record {
    accepted = st.accepted ++ row ∷ [];
    pending = st.pending;
    rejected =
        st.rejected ++ map (λ (z : ZcashPublication). (tx.signature, duplicate_publication)) extras;
    seen = event_id issuance ∷ st.seen;
  })

  -- The publications that match, the first of which wins.
  unfoldable pub settle :
      CanonicalSolanaTx → Rebuild → IssuanceFields → Bytes → List ZcashPublication → Option Rebuild
  settle tx st issuance commitment [] = some (record st {
    pending =
        st.pending
        ++ (tx.signature, pending_cause (find_publication (mentions commitment) input.zcash)) ∷ [];
    seen = event_id issuance ∷ st.seen;
  })
  settle tx st issuance commitment (winner ∷ extras) =
      add_row tx st issuance extras (accept_issuance crypto issuance winner)

  unfoldable pub claim : CanonicalSolanaTx → Rebuild → ValidationResult → Option Rebuild
  claim tx st (fail why) = some (reject tx why st)
  claim tx st (valid issuance commitment burn intent) =
      if includes st.seen (event_id issuance)
      then some (reject tx duplicate_claim st)
      else settle tx st issuance commitment (matches issuance)

  -- An empty destination is falsy, as a missing one is.
  unfoldable pub guessed : CanonicalSolanaTx → Rebuild → Option Text → Option ℕ → Option Rebuild
  guessed tx st (some (c ∷ t)) (some amount) =
      claim tx st (validate_burn crypto tx (expected_of tx (c ∷ t) amount))
  guessed tx st _ _ = some (reject tx missing_intent st)

  -- The body of the loop; `none` is an exception.
  unfoldable pub event_step : Rebuild → CanonicalSolanaTx → Option Rebuild
  event_step st tx =
      guessed tx st (guess_destination tx input.destination_network) (guess_amount tx)

  unfoldable pub events : Option Rebuild → List CanonicalSolanaTx → Option Rebuild
  events none txs = none
  events (some st) [] = some st
  events (some st) (tx ∷ txs) = events (event_step st tx) txs

  abbrev pub empty_rebuild : Rebuild
  empty_rebuild = record { accepted = []; pending = []; rejected = []; seen = [] }

  unfoldable pub rebuild_events : Option Rebuild
  rebuild_events = events (some empty_rebuild) (sort compare_burn_events input.solana)

-- The last sort; `none` is an exception of `compareLocators`, which throws when it is given two rows
-- of one transaction of which a locator is malformed. The pairs compared are an insertion sort's.
unfoldable pub compare_rows : AcceptedIssuance → AcceptedIssuance → Option Ordering
compare_rows a b =
    if not (text_eq a.source_tx b.source_tx)
    then some (if text_lt a.source_tx b.source_tx then Ordering.lt else Ordering.gt)
    else compare_locators a.burn_locator b.burn_locator

abbrev pub insert_before :
    AcceptedIssuance
    → AcceptedIssuance
    → List AcceptedIssuance
    → Option (List AcceptedIssuance)
    → Option Ordering
    → Option (List AcceptedIssuance)
insert_before a b bs rest none = none
insert_before a b bs none (some Ordering.gt) = none
insert_before a b bs (some rest) (some Ordering.gt) = some (b ∷ rest)
insert_before a b bs rest (some _) = some (a ∷ b ∷ bs)

unfoldable pub insert_row :
    AcceptedIssuance → List AcceptedIssuance → Option (List AcceptedIssuance)
insert_row a [] = some (a ∷ [])
insert_row a (b ∷ bs) = insert_before a b bs (insert_row a bs) (compare_rows a b)

abbrev pub insert_sorted :
    AcceptedIssuance → Option (List AcceptedIssuance) → Option (List AcceptedIssuance)
insert_sorted a none = none
insert_sorted a (some sorted) = insert_row a sorted

unfoldable pub sort_rows : List AcceptedIssuance → Option (List AcceptedIssuance)
sort_rows [] = some []
sort_rows (a ∷ as_) = insert_sorted a (sort_rows as_)

-- BigInt(text), for the decimal texts that occur
abbrev pub number_of : Text → ℕ
number_of t = (read_number 0 0 t).0

abbrev pub text_or_zero : Option Text → Text
text_or_zero none = codes "0"
text_or_zero (some t) = t

unfoldable pub stamp_units : List (Text × Text) → List AcceptedIssuance → List (Text × Text)
stamp_units m [] = m
stamp_units m (row ∷ rows) =
    stamp_units
      (put m row.mint
        (decimal (number_of (text_or_zero (get m row.mint)) + number_of row.amount_base)))
      rows

abbrev pub output_of : Rebuild → Option (List AcceptedIssuance) → Option RebuildOutput
output_of st none = none
output_of st (some rows) = some (record {
  accepted = rows;
  pending = st.pending;
  rejected = st.rejected;
  accepted_stamp_units = stamp_units [] rows;
})

abbrev pub finish : Option Rebuild → Option RebuildOutput
finish none = none
finish (some st) = output_of st (sort_rows st.accepted)

-- `none` is an exception.
unfoldable pub rebuild_ledger : Crypto → RebuildInput → Option RebuildOutput
rebuild_ledger crypto input = finish (rebuild_events crypto input)
