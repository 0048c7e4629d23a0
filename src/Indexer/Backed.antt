-- ===== src/Indexer/Backed.antt =====
-- Every stamp that the indexer shows was burned for, and its chain of custody has no gap.
use stamppad.Prelude.{
  ℕ, suc, ◌+◌, ◌≡◌, refl, ap, subst, true, ◌==◌, some, List, [], ◌∷◌, map, All, arith,
}
use stamppad.Prelude.Dict.{put, get-All, put-All}
use stamppad.Text.{Text, text_key}
use stamppad.Sort.{sort}
use stamppad.Mode.{Flags}
use stamppad.Protocol.Types.{AcceptedIssuance}
use stamppad.Protocol.Crypto.{Crypto}
use stamppad.Protocol.Ledger.Claims.{IsClaimed}
use stamppad.Protocol.Ledger.Sorting.{HasLocators, rebuild_ledger-IsLedger}
use stamppad.Protocol.Ownership.State.{
  AcceptedStamp, CanonicalRecord, OwnershipEvent, OwnershipInput, OwnershipOutput, StampOwnership,
  compare_records,
}
use stamppad.Protocol.Ownership.Replay.{
  bind_offer, fresh_stamp, initial_stamps, move_stamp, resolve_ownership, start,
}
use stamppad.Protocol.Ownership.Steps.{Step, bound, moved, noted, replay_induction}
use stamppad.Protocol.Ownership.Custody.{IsKept, Numbered, resolve_ownership-IsKept}
use stamppad.Indexer.{
  IndexInput, IndexedState, chains_contiguous, contiguous, index_chains, index_rebuilt, indexed,
  ownership_input, rebuild_input, stamp_of_row,
}

-- A property of who was first given a stamp, by its key.
module _ (Q : Text → Text → Type 0) where
  abbrev Given : Text × StampOwnership → Type 0
  Given entry = Q entry.0 entry.1.original_recipient

  initial_stamps-Given :
      (m : List (Text × StampOwnership)) (ss : List AcceptedStamp)
      → All Given m
      → All (λ s. Q s.commitment_hex s.original_recipient) ss
      → All Given (initial_stamps m ss)
  unfolding initial_stamps
  initial_stamps-Given m [] h q = h
  initial_stamps-Given m (s ∷ ss) h (q, qs) =
      initial_stamps-Given (put m s.commitment_hex (fresh_stamp s)) ss
        (put-All Given m s.commitment_hex (fresh_stamp s) h q) qs

  module _ (crypto : Crypto) (input : OwnershipInput) where
    Step-Given :
        (out : OwnershipOutput) (e : CanonicalRecord) (end : OwnershipOutput)
        → All Given out.stamps
        → Step crypto input out e end
        → All Given end.stamps
    unfolding bind_offer move_stamp
    Step-Given out e end h (noted p q n) = rw p h
    Step-Given out e end h (bound s o here at ok f free p) =
        rw p (put-All Given out.stamps _ _ h (get-All Given out.stamps _ s h here))
    Step-Given out e end h (moved s auth here at ok a p) =
        rw p (put-All Given out.stamps _ _ h (get-All Given out.stamps _ s h here))

    resolve_ownership-Given :
        All (λ s. Q s.commitment_hex s.original_recipient) input.stamps
        → All Given (resolve_ownership crypto input).stamps
    unfolding resolve_ownership
    resolve_ownership-Given q =
        replay_induction crypto input (λ out. All Given out.stamps) Step-Given (start crypto input)
          (sort compare_records input.records) (initial_stamps-Given [] input.stamps tt q)

contiguous-Numbered :
    (i : ℕ) (hs : List OwnershipEvent) → Numbered (suc i) hs → contiguous i hs ≡ true
unfolding contiguous
contiguous-Numbered i [] n = refl
contiguous-Numbered i (h ∷ hs) (e, n) =
    let next : suc (suc i) ≡ suc (i + 1) = omega arith in
    let rest = contiguous-Numbered (i + 1) hs (subst (λ k. Numbered k hs) next n) in
    let this : (h.sequence == i + 1) ≡ true = ground (arith, e) in rw (this, rest) refl

chains_contiguous-IsKept :
    (crypto : Crypto) (input : OwnershipInput) (stamps : List (Text × StampOwnership))
    → All (IsKept crypto input) stamps
    → chains_contiguous stamps ≡ true
unfolding chains_contiguous
chains_contiguous-IsKept crypto input [] h = refl
chains_contiguous-IsKept crypto input ((k, s) ∷ stamps) (h, hs) =
    rw (contiguous-Numbered 0 s.history h.numbered, chains_contiguous-IsKept crypto input stamps hs)
      refl

module _ (crypto : Crypto) (f : Flags) (input : IndexInput) where
  -- A stamp that was issued: its burn is in the input and validates, and so does its publication.
  abbrev pub IsIssued : Text → Text → Type 0
  IsIssued commitment recipient =
      (row : AcceptedIssuance) × IsClaimed crypto (rebuild_input f input) row
      × (row.commitment_hex ≡ commitment)
      × (row.issuance.destination ≡ recipient)

  abbrev pub IsBacked : IndexedState → Type 0
  IsBacked state =
      (state.ownership_chains_contiguous ≡ true)
      × All (λ entry. IsIssued entry.0 entry.1.original_recipient) state.ownership.stamps

  rows-IsIssued :
      (rows : List AcceptedIssuance)
      → All (IsClaimed crypto (rebuild_input f input)) rows
      → All (λ s. IsIssued s.commitment_hex s.original_recipient) (map stamp_of_row rows)
  rows-IsIssued [] h = tt
  rows-IsIssued (row ∷ rows) (h, hs) = ((row, h, refl, refl), rows-IsIssued rows hs)

  -- When the locators of all instructions are well formed, the indexer answers, reports every chain of
  -- custody as contiguous, and each stamp that it shows is filed under the commitment, and was first
  -- given to the destination, of an accepted row whose burn and publication are in the input.
  pub index_chains-IsBacked :
      HasLocators crypto (rebuild_input f input)
      → (state : IndexedState) × (index_chains crypto f input ≡ some state) × IsBacked state
  unfolding index_chains
  index_chains-IsBacked h =
      let (out, e, l) = rebuild_ledger-IsLedger crypto (rebuild_input f input) h in
      let own = ownership_input f input out in
      (
        indexed crypto f input out,
        ap (index_rebuilt crypto f input) e,
        (
          chains_contiguous-IsKept crypto own _ (resolve_ownership-IsKept crypto own),
          resolve_ownership-Given IsIssued crypto own (rows-IsIssued out.accepted l.claimed),
        ),
      )
