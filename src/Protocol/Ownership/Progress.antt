-- ===== src/Protocol/Ownership/Progress.antt =====
-- The replay only adds: histories grow at their end and a bound offer stays; every record is counted.
use stamppad.Prelude.{
  ℕ, suc, ◌+◌, ◌≡◌, refl, sym, ap, ◌∙◌, inl, inr, none, some, List, [], ◌∷◌, ◌++◌, append-nil,
  append_assoc, arith, length, length-append, Bool-cases,
}
use stamppad.Prelude.Dict.{get, put, get-put}
use stamppad.Text.{Text, text_eq, text_eq_iff, text_key, nat_key}
use stamppad.Sort.{sort, length-sort}
use stamppad.Protocol.Crypto.{Crypto}
use stamppad.Protocol.Ownership.State.{
  CanonicalRecord, OwnershipEvent, BoundOffer, StampOwnership, AcceptedStamp, OwnershipInput,
  OwnershipOutput, compare_records,
}
use stamppad.Protocol.Ownership.Replay.{
  fresh_stamp, initial_stamps, bind_offer, move_stamp, event_of, start, replay, record_step,
  resolve_ownership,
}
use stamppad.Protocol.Ownership.Steps.{Step, noted, bound, moved, record_step-Step}

-- `t` continues `s`: nothing of its past is changed.
pub record Extends (s t : StampOwnership) : Type 0 where
  pub recipient : t.original_recipient ≡ s.original_recipient
  pub added : List OwnershipEvent
  pub history : t.history ≡ s.history ++ added
  pub offers :
      (n : ℕ) (b : BoundOffer) → get s.bound_offers n ≡ some b → get t.bound_offers n ≡ some b

Extends-refl : (s : StampOwnership) → Extends s s
Extends-refl s = record {
  recipient = refl;
  added = [];
  history = sym (append-nil s.history);
  offers = λ n b h. h;
}

Extends-trans : {s t u : StampOwnership} → Extends s t → Extends t u → Extends s u
Extends-trans {s} {t} {u} x y = record {
  recipient = y.recipient ∙ x.recipient;
  added = x.added ++ y.added;
  history = y.history ∙ ap (λ h. h ++ y.added) x.history ∙ append_assoc s.history x.added y.added;
  offers = λ n b h. y.offers n b (x.offers n b h);
}

bind_offer-Extends :
    (e : CanonicalRecord) (s : StampOwnership) (o : _)
    → get s.bound_offers e.on_chain.sequence ≡ none
    → Extends s (bind_offer e s o)
unfolding bind_offer
bind_offer-Extends e s o free = record {
  recipient = refl;
  added = [];
  history = sym (append-nil s.history);
  offers = λ n b h. ground (
    arith,
    free,
    h,
    get-put s.bound_offers e.on_chain.sequence n
        (record { offer_hash_hex = e.on_chain.artifact_hash_hex; offer = o }),
  );
}

move_stamp-Extends :
    (e : CanonicalRecord) (s : StampOwnership) (auth : _) (b : _)
    → Extends s (move_stamp e s auth b)
unfolding move_stamp
move_stamp-Extends e s auth b = record {
  recipient = refl;
  added = event_of e auth b ∷ [];
  history = refl;
  offers = λ n b h. h;
}

-- The stamp at `k` in a map where `j` was written.
put-Extends :
    (m : List (Text × StampOwnership)) (j k : Text) (s s' t : StampOwnership)
    → get m j ≡ some s
    → Extends s s'
    → get m k ≡ some t
    → (t' : StampOwnership) × (get (put m j s') k ≡ some t') × Extends t t'
put-Extends m j k s s' t here x there = elim (Bool-cases (text_eq j k)) [
  | inl same ↦
      let e : j ≡ k = (text_eq_iff j k).0 same in
      let q : s ≡ t = ground arith in (s', get-put m j k s' ∙ rw same, rw (← q) x)
  | inr other ↦ (t, get-put m j k s' ∙ rw other there, Extends-refl t)
]

module _ (crypto : Crypto) (input : OwnershipInput) where
  Step-Extends :
      (out : OwnershipOutput) (e : CanonicalRecord) (out' : OwnershipOutput) (k : Text)
      (s : StampOwnership)
      → Step crypto input out e out'
      → get out.stamps k ≡ some s
      → (s' : StampOwnership) × (get out'.stamps k ≡ some s') × Extends s s'
  Step-Extends out e out' k s (noted p q n) h = (s, rw p h, Extends-refl s)
  Step-Extends out e out' k s (bound t o here at ok f free p) h =
      rw p
        (put-Extends out.stamps _ k t (bind_offer e t o) s here (bind_offer-Extends e t o free) h)
  Step-Extends out e out' k s (moved t auth here at ok a p) h = rw p (
      put-Extends out.stamps _ k t (move_stamp e t auth _) s here (move_stamp-Extends e t auth _) h)

  -- A stamp that the replay knows keeps its recipient, its whole history as a prefix and every bound
  -- offer, whatever records follow.
  pub replay-Extends :
      (out : OwnershipOutput) (es : List CanonicalRecord) (k : Text) (s : StampOwnership)
      → get out.stamps k ≡ some s
      → (s' : StampOwnership) × (get (replay crypto input out es).stamps k ≡ some s') × Extends s s'
  unfolding replay
  replay-Extends out [] k s h = (s, h, Extends-refl s)
  replay-Extends out (e ∷ es) k s h =
      let (t, ht, x) = Step-Extends out e _ k s (record_step-Step crypto input out e) h in
      let (u, hu, y) = replay-Extends (record_step crypto input out e) es k t ht in
      (u, hu, Extends-trans x y)

-- The events and bound offers of all stamps.
unfoldable pub applied : List (Text × StampOwnership) → ℕ
applied [] = 0
applied ((k, s) ∷ m) = length s.history + length s.bound_offers + applied m

applied-put :
    (m : List (Text × StampOwnership)) (k : Text) (s s' : StampOwnership)
    → get m k ≡ some s
    → length s'.history + length s'.bound_offers ≡ suc (length s.history + length s.bound_offers)
    → applied (put m k s') ≡ suc (applied m)
unfolding applied get put
applied-put [] k s s' h e = absurd (cc)
applied-put ((j, t) ∷ m) k s s' h e = elim (Bool-cases (text_eq j k)) [
  | inl same ↦
      let q : t ≡ s = ground arith in
      rw same
        (omega (arith, ap (λ (x : StampOwnership). length x.history + length x.bound_offers) q))
  | inr other ↦ rw other (omega (arith, applied-put m k s s' (ground arith) e))
]

applied-put_fresh :
    (m : List (Text × StampOwnership)) (k : Text) (s : StampOwnership)
    → applied m ≡ 0
    → length s.history + length s.bound_offers ≡ 0
    → applied (put m k s) ≡ 0
unfolding applied put
applied-put_fresh [] k s h e = omega arith
applied-put_fresh ((j, t) ∷ m) k s h e = elim (Bool-cases (text_eq j k)) [
  | inl same ↦ rw same (omega arith)
  | inr other ↦ rw other (omega (arith, applied-put_fresh m k s (omega arith) e))
]

length-put_new :
    (bs : List (ℕ × BoundOffer)) (n : ℕ) (b : BoundOffer)
    → get bs n ≡ none
    → length (put bs n b) ≡ suc (length bs)
unfolding get put
length-put_new [] n b h = refl
length-put_new ((j, c) ∷ bs) n b h = ground (arith, length-put_new bs n b)

-- All that the results hold.
unfoldable pub counted : OwnershipOutput → ℕ
counted out = length out.pending + length out.rejected + applied out.stamps

module _ (crypto : Crypto) (input : OwnershipInput) where
  Step-counted :
      (out : OwnershipOutput) (e : CanonicalRecord) (out' : OwnershipOutput)
      → Step crypto input out e out'
      → counted out' ≡ suc (counted out)
  unfolding counted
  Step-counted out e out' (noted p q n) = omega (arith, n, ap applied p)
  Step-counted out e out' (bound s o here at ok f free p) = rw p (
      unfold bind_offer in
      omega (
        arith,
        applied-put out.stamps _ s (bind_offer e s o) here (
            omega (
              arith,
              length-put_new s.bound_offers e.on_chain.sequence
                  (record { offer_hash_hex = e.on_chain.artifact_hash_hex; offer = o }) free,
            )),
      ))
  Step-counted out e out' (moved s auth here at ok a p) = rw p (
      unfold move_stamp in
      omega (
        arith,
        applied-put out.stamps _ s (move_stamp e s auth (get s.bound_offers e.on_chain.sequence))
            here (omega (arith, length-append {0} s.history)),
      ))

  replay-counted :
      (out : OwnershipOutput) (es : List CanonicalRecord)
      → counted (replay crypto input out es) ≡ counted out + length es
  unfolding replay
  replay-counted out [] = omega arith
  replay-counted out (e ∷ es) = omega (
    arith,
    replay-counted (record_step crypto input out e) es,
    Step-counted out e _ (record_step-Step crypto input out e),
  )

  applied-initial_stamps :
      (m : List (Text × StampOwnership)) (ss : List AcceptedStamp)
      → applied m ≡ 0
      → applied (initial_stamps m ss) ≡ 0
  unfolding initial_stamps applied
  applied-initial_stamps m [] h = h
  applied-initial_stamps m (s ∷ ss) h =
      applied-initial_stamps (put m s.commitment_hex (fresh_stamp s)) ss
        (applied-put_fresh m s.commitment_hex (fresh_stamp s) h refl)

  counted-start : counted (start crypto input) ≡ 0
  unfolding counted applied
  counted-start = omega (arith, applied-initial_stamps [] input.stamps refl)

  -- Each record of the input ends in exactly one place: the pending list, the rejected list, a
  -- stamp's history or a stamp's bound offers. Their lengths add up to the number of records.
  pub resolve_ownership-counted : counted (resolve_ownership crypto input) ≡ length input.records
  unfolding resolve_ownership
  resolve_ownership-counted = omega (
    arith,
    replay-counted (start crypto input) (sort compare_records input.records),
    counted-start,
    length-sort compare_records input.records,
  )
