-- ===== src/Protocol/Ownership/Custody.antt =====
-- The chain of custody of every stamp.
use mathlib.Core.List.{Memᴰ}
use stamppad.Prelude.{
  ℕ, suc, ◌+◌, ◌≡◌, refl, sym, ◌∙◌, true, List, [], ◌∷◌, ◌++◌, arith, length, length-append, All,
  All-append,
}
use stamppad.Prelude.Dict.{put, get-All, put-All}
use stamppad.Text.{Text, text_key, nat_key}
use stamppad.Sort.{sort}
use stamppad.Protocol.Preimage.{TransferAuthorization, transfer_preimage}
use stamppad.Protocol.Crypto.{Crypto}
use stamppad.Protocol.Transfer.{verify_owner_signature}
use stamppad.Protocol.Ownership.State.{
  CanonicalRecord, OwnershipEvent, StampOwnership, AcceptedStamp, OwnershipInput, OwnershipOutput,
  compare_records,
}
use stamppad.Protocol.Ownership.Replay.{
  fresh_stamp, initial_stamps, bind_offer, move_stamp, event_of, start, resolve_ownership,
}
use stamppad.Protocol.Ownership.Steps.{IsAuthorized, Step, noted, bound, moved, replay_induction}
use stamppad.Protocol.Ownership.Artifacts.{transfers_by_hash-mem}

-- The events are numbered from `n` on without a gap.
abbrev pub Numbered : ℕ → List OwnershipEvent → Type 0
Numbered n [] = Unit
Numbered n (h ∷ hs) = (h.sequence ≡ n) × Numbered (suc n) hs

-- Each event passes the stamp on from the holder before it; `b` holds it in the end.
abbrev pub Custody : Text → List OwnershipEvent → Text → Type 0
Custody a [] b = a ≡ b
Custody a (h ∷ hs) b = (h.from_address ≡ a) × Custody h.to_address hs b

Numbered-append :
    (n : ℕ) (hs : List OwnershipEvent) (h : OwnershipEvent)
    → Numbered n hs
    → h.sequence ≡ n + length hs
    → Numbered n (hs ++ h ∷ [])
Numbered-append n [] h k e = (omega arith, tt)
Numbered-append n (x ∷ hs) h (k, ks) e = (k, Numbered-append (suc n) hs h ks (omega arith))

Custody-append :
    (a b : Text) (hs : List OwnershipEvent) (h : OwnershipEvent)
    → Custody a hs b
    → h.from_address ≡ b
    → Custody a (hs ++ h ∷ []) h.to_address
Custody-append a b [] h k e = (e ∙ sym k, refl)
Custody-append a b (x ∷ hs) h (k, ks) e = (k, Custody-append x.to_address b hs h ks e)

module _ (crypto : Crypto) (input : OwnershipInput) where
  -- A published authorization for this step of this stamp carries its holder's signature.
  abbrev pub IsSignedEvent : Text → OwnershipEvent → Type 0
  IsSignedEvent k h =
      (auth : TransferAuthorization) × Memᴰ auth input.transfer_artifacts
      × (auth.stamp_commitment_hex ≡ k)
      × (auth.sequence ≡ h.sequence)
      × (auth.from_address ≡ h.from_address)
      × (auth.to_address ≡ h.to_address)
      × (verify_owner_signature crypto auth.from_address auth.owner_public_key_hex
            (transfer_preimage auth) auth.signature_hex
          ≡ true)

  pub record IsKept (entry : Text × StampOwnership) : Type 0 where
    pub key : entry.1.stamp_commitment_hex ≡ entry.0
    pub count : entry.1.sequence ≡ length entry.1.history
    pub numbered : Numbered 1 entry.1.history
    pub custody : Custody entry.1.original_recipient entry.1.history entry.1.current_owner
    pub signed : All (IsSignedEvent entry.0) entry.1.history

  bind_offer-IsKept :
      (e : CanonicalRecord) (s : StampOwnership) (o : _) (k : Text)
      → IsKept (k, s)
      → IsKept (k, bind_offer e s o)
  unfolding bind_offer
  bind_offer-IsKept e s o k h = record {
    key = h.key;
    count = h.count;
    numbered = h.numbered;
    custody = h.custody;
    signed = h.signed;
  }

  move_stamp-IsKept :
      (e : CanonicalRecord) (s : StampOwnership) (auth : TransferAuthorization) (b : _)
      → Memᴰ auth input.transfer_artifacts
      → IsAuthorized crypto s auth e.on_chain
      → IsKept (e.on_chain.stamp_commitment_hex, s)
      → IsKept (e.on_chain.stamp_commitment_hex, move_stamp e s auth b)
  unfolding move_stamp
  move_stamp-IsKept e s auth b m a h = record {
    key = h.key;
    count = omega (arith, a.next, h.count, length-append {0} s.history);
    numbered =
        Numbered-append 1 s.history (event_of e auth b) h.numbered (omega (arith, a.next, h.count));
    custody =
        Custody-append s.original_recipient s.current_owner s.history (event_of e auth b) h.custody
          a.from_owner;
    signed =
        All-append _ s.history _ h.signed
          ((auth, m, a.same_stamp, a.same_sequence, refl, refl, a.signed), tt);
  }

  Step-IsKept :
      (out : OwnershipOutput) (e : CanonicalRecord) (out' : OwnershipOutput)
      → All IsKept out.stamps
      → Step crypto input out e out'
      → All IsKept out'.stamps
  Step-IsKept out e out' h (noted p q n) = rw p h
  Step-IsKept out e out' h (bound s o here at ok f free p) = rw p (
      put-All IsKept out.stamps _ _ h
        (bind_offer-IsKept e s o _ (get-All IsKept out.stamps _ s h here)))
  Step-IsKept out e out' h (moved s auth here at ok a p) = rw p (
      put-All IsKept out.stamps _ _ h (
        move_stamp-IsKept e s auth _
          (transfers_by_hash-mem crypto input.transfer_artifacts _ auth at).0 a
          (get-All IsKept out.stamps _ s h here)))

  initial_stamps-IsKept :
      (m : List (Text × StampOwnership)) (ss : List AcceptedStamp)
      → All IsKept m
      → All IsKept (initial_stamps m ss)
  unfolding initial_stamps
  initial_stamps-IsKept m [] h = h
  initial_stamps-IsKept m (s ∷ ss) h =
      initial_stamps-IsKept (put m s.commitment_hex (fresh_stamp s)) ss (
        put-All IsKept m s.commitment_hex (fresh_stamp s) h
          (record { key = refl; count = refl; numbered = tt; custody = refl; signed = tt }))

  -- Every stamp of the result is filed under its commitment; its history is numbered 1, 2, … without
  -- a gap up to its sequence; the custody goes from the original recipient through the events, each
  -- from the holder before it, to the current owner; and each event has a published authorization
  -- for this stamp, sequence, sender and recipient whose owner signature verifies.
  pub resolve_ownership-IsKept : All IsKept (resolve_ownership crypto input).stamps
  unfolding resolve_ownership
  resolve_ownership-IsKept =
      replay_induction crypto input (λ out. All IsKept out.stamps) Step-IsKept (start crypto input)
        (sort compare_records input.records) (initial_stamps-IsKept [] input.stamps tt)
