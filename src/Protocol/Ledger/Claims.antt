-- ===== src/Protocol/Ledger/Claims.antt =====
-- What the loop of `rebuildLedger` accepts.
use mathlib.Core.List.{Memᴰ}
use stamppad.Prelude.{
  ℕ, ◌≡◌, ◌≢◌, refl, sym, subst, ap, inl, inr, Bool, true, false, Option, none, some, List, [], ◌∷◌,
  ◌++◌, arith, Bool-cases, All, All-append,
}
use stamppad.Text.{Text, text_eq_refl}
use stamppad.Sort.{sort, sort-All}
use stamppad.Bytes.{Bytes}
use stamppad.Protocol.Types.{
  CanonicalSolanaTx, RejectReason, IntentV0, BurnDecode, IssuanceFields, AcceptedIssuance,
  ZcashPublication,
}
use stamppad.Protocol.Crypto.{Crypto}
use stamppad.Protocol.Validate.{
  ValidationResult, valid, fail, includes, validate_burn, is_published, published, unpublished,
  PublicationResult, validate_publication, accept_issuance,
}
use stamppad.Protocol.Validate.Publications.{validate_publication-IsPublished}
use stamppad.Protocol.Ledger.{
  RebuildInput, Rebuild, expected_of, event_id, publication_matches, matches, filter, compare_txids,
  compare_burn_events, guess_destination, guess_amount, reject, add_row, settle, claim, guessed,
  event_step, events, empty_rebuild, rebuild_events,
}

-- Rows of different burn events.
abbrev pub IsOtherRow : AcceptedIssuance → AcceptedIssuance → Type 0
IsOtherRow a b = event_id a.issuance ≢ event_id b.issuance

abbrev pub NoneTwice : List AcceptedIssuance → Type 0
NoneTwice [] = Unit
NoneTwice (a ∷ as_) = All (IsOtherRow a) as_ × NoneTwice as_

NoneTwice-last :
    (as_ : List AcceptedIssuance) (b : AcceptedIssuance)
    → NoneTwice as_
    → All (λ a. IsOtherRow a b) as_
    → NoneTwice (as_ ++ b ∷ [])
NoneTwice-last [] b h k = (tt, tt)
NoneTwice-last (a ∷ as_) b (h, hs) (k, ks) =
    (All-append (IsOtherRow a) as_ (b ∷ []) h (k, tt), NoneTwice-last as_ b hs ks)

module _ {A : Type 0} where
  pub All-map_each : (P Q : A → Type 0) (l : List A) → ((a : A) → P a → Q a) → All P l → All Q l
  All-map_each P Q [] f h = tt
  All-map_each P Q (a ∷ l) f h = (f a h.0, All-map_each P Q l f h.1)

  All-members : (l : List A) → All (λ a. Memᴰ a l) l
  All-members [] = tt
  All-members (a ∷ l) = (
    Memᴰ.head refl,
    All-map_each (λ b. Memᴰ b l) (λ b. Memᴰ b (a ∷ l)) l (λ b m. Memᴰ.tail m) (All-members l),
  )

filter-All :
    (test : ZcashPublication → Bool) (P : ZcashPublication → Type 0) (zs : List ZcashPublication)
    → All P zs
    → All (λ z. P z × (test z ≡ true)) (filter test zs)
unfolding filter
filter-All test P [] h = tt
filter-All test P (z ∷ zs) h = elim (Bool-cases (test z)) [
  | inl t ↦ rw t ((h.0, t), filter-All test P zs h.1)
  | inr f ↦ rw f (filter-All test P zs h.1)
]

is_published-lem : (r : PublicationResult) → is_published r ≡ true → r ≡ published
is_published-lem published h = refl
is_published-lem (unpublished why) h = absurd (ground arith)

module _ (crypto : Crypto) (input : RebuildInput) where
  -- A burn of the input that validates, with a publication of the input that publishes it.
  pub record IsClaimed (row : AcceptedIssuance) : Type 0 where
    pub tx : CanonicalSolanaTx
    pub tx_there : Memᴰ tx input.solana
    pub destination : Text
    pub amount : ℕ
    pub issuance : IssuanceFields
    pub commitment : Bytes
    pub burn : BurnDecode
    pub intent : IntentV0
    pub is_valid :
        validate_burn crypto tx (expected_of crypto input tx destination amount)
        ≡ valid issuance commitment burn intent
    pub publication : ZcashPublication
    pub publication_there : Memᴰ publication input.zcash
    pub is_accepted :
        validate_publication crypto issuance publication input.min_zcash_confirmations ≡ published
    pub row_made : accept_issuance crypto issuance publication ≡ some row
    pub row_issuance : row.issuance ≡ issuance

  pub record IsSound (st : Rebuild) : Type 0 where
    pub claimed : All IsClaimed st.accepted
    pub covered : All (λ row. includes st.seen (event_id row.issuance) ≡ true) st.accepted
    pub none_twice : NoneTwice st.accepted

  -- A step that does not throw and keeps the result sound.
  abbrev pub Succeeds : Option Rebuild → Type 0
  Succeeds o = (st : Rebuild) × (o ≡ some st) × IsSound st

  matches-All :
      (issuance : IssuanceFields)
      → All
          (λ z. Memᴰ z input.zcash × (publication_matches crypto input issuance z ≡ true))
          (matches crypto input issuance)
  matches-All issuance =
      sort-All compare_txids _ (filter (publication_matches crypto input issuance) input.zcash) (
        filter-All (publication_matches crypto input issuance) (λ z. Memᴰ z input.zcash) input.zcash
          (All-members input.zcash))

  covered_more :
      (seen : List Text) (id : Text) (rows : List AcceptedIssuance)
      → All (λ row. includes seen (event_id row.issuance) ≡ true) rows
      → All (λ row. includes (id ∷ seen) (event_id row.issuance) ≡ true) rows
  covered_more seen id rows h = All-map_each _ _ rows (λ row p. ground arith) h

  unseen-IsOther :
      (seen : List Text) (new : AcceptedIssuance) (rows : List AcceptedIssuance)
      → includes seen (event_id new.issuance) ≡ false
      → All (λ row. includes seen (event_id row.issuance) ≡ true) rows
      → All (λ row. IsOtherRow row new) rows
  unseen-IsOther seen new rows f h =
      All-map_each _ _ rows (λ row p e. absurd (ground (arith, ap (includes seen) e))) h

  module _ (tx : CanonicalSolanaTx) (there : Memᴰ tx input.solana) where
    reject-Succeeds :
        (why : RejectReason) (st : Rebuild) → IsSound st → Succeeds (some (reject tx why st))
    reject-Succeeds why st h = (
      reject tx why st,
      refl,
      record { claimed = h.claimed; covered = h.covered; none_twice = h.none_twice },
    )

    module _ (st : Rebuild) (h : IsSound st) (issuance : IssuanceFields) (commitment : Bytes)
        (burn : BurnDecode) (intent : IntentV0) (destination : Text) (amount : ℕ)
        (is_valid : validate_burn crypto tx (expected_of crypto input tx destination amount)
          ≡ valid issuance commitment burn intent)
        (unseen : includes st.seen (event_id issuance) ≡ false) where
      accepted-IsSound :
          (row : AcceptedIssuance)
          → IsClaimed row
          → row.issuance ≡ issuance
          → (rejected : List (Text × RejectReason))
          → IsSound (record st {
            accepted = st.accepted ++ row ∷ [];
            rejected = rejected;
            seen = event_id issuance ∷ st.seen;
          })
      accepted-IsSound row c e rejected = record {
        claimed = All-append IsClaimed st.accepted (row ∷ []) h.claimed (c, tt);
        covered =
            All-append _ st.accepted (row ∷ [])
              (covered_more st.seen (event_id issuance) st.accepted h.covered)
              (ground (arith, e, text_eq_refl (event_id issuance)), tt);
        none_twice =
            NoneTwice-last st.accepted row h.none_twice
              (unseen-IsOther st.seen row st.accepted (rw e unseen) h.covered);
      }

      settle-Succeeds :
          (zs : List ZcashPublication)
          → All (λ z. Memᴰ z input.zcash × (publication_matches crypto input issuance z ≡ true)) zs
          → Succeeds (settle crypto input tx st issuance commitment zs)
      unfolding settle
      settle-Succeeds [] m = (
        _,
        refl,
        record {
          claimed = h.claimed;
          covered = covered_more st.seen (event_id issuance) st.accepted h.covered;
          none_twice = h.none_twice;
        },
      )
      settle-Succeeds (z ∷ zs) ((here, ok), _) =
          let p =
            is_published-lem (validate_publication crypto issuance z input.min_zcash_confirmations)
              ok in
          let (row, e, facts) =
            validate_publication-IsPublished crypto issuance z input.min_zcash_confirmations p in
          (
            _,
            ap (add_row crypto input tx st issuance zs) e,
            accepted-IsSound row
                (record {
                  tx = tx;
                  tx_there = there;
                  destination = destination;
                  amount = amount;
                  issuance = issuance;
                  commitment = commitment;
                  burn = burn;
                  intent = intent;
                  is_valid = is_valid;
                  publication = z;
                  publication_there = here;
                  is_accepted = p;
                  row_made = e;
                  row_issuance = facts.row_issuance;
                })
                facts.row_issuance _,
          )

    claim-Succeeds :
        (st : Rebuild) (destination : Text) (amount : ℕ)
        → IsSound st
        → (r : ValidationResult)
        → validate_burn crypto tx (expected_of crypto input tx destination amount) ≡ r
        → Succeeds (claim crypto input tx st r)
    unfolding claim
    claim-Succeeds st destination amount h (fail why) e = reject-Succeeds why st h
    claim-Succeeds st destination amount h (valid f c burn intent) e =
        elim (Bool-cases (includes st.seen (event_id f))) [
          | inl t ↦ rw t (reject-Succeeds _ st h)
          | inr u ↦ rw u (
              settle-Succeeds st h f c burn intent destination amount e u (matches crypto input f)
                (matches-All f))
        ]

    guessed-Succeeds :
        (st : Rebuild) (d : Option Text) (a : Option ℕ)
        → IsSound st
        → Succeeds (guessed crypto input tx st d a)
    unfolding guessed
    guessed-Succeeds st none a h = reject-Succeeds _ st h
    guessed-Succeeds st (some []) a h = reject-Succeeds _ st h
    guessed-Succeeds st (some (c ∷ t)) none h = reject-Succeeds _ st h
    guessed-Succeeds st (some (c ∷ t)) (some a) h =
        claim-Succeeds st (c ∷ t) a h
          (validate_burn crypto tx (expected_of crypto input tx (c ∷ t) a)) refl

  events-Succeeds :
      (st : Rebuild) (txs : List CanonicalSolanaTx)
      → IsSound st
      → All (λ tx. Memᴰ tx input.solana) txs
      → Succeeds (events crypto input (some st) txs)
  unfolding events event_step
  events-Succeeds st [] h m = (st, refl, h)
  events-Succeeds st (tx ∷ txs) h (here, m) =
      let (next, e, sound) =
        guessed-Succeeds tx here st (guess_destination tx input.destination_network)
          (guess_amount tx) h in
      subst (λ o. Succeeds (events crypto input o txs)) (sym e) (events-Succeeds next txs sound m)

  -- The loop never throws. Each accepted row is made of a burn of the input that validates and of a
  -- publication of the input that publishes its issuance, and no two rows are of the same burn event.
  pub rebuild_events-IsSound : (st : Rebuild) × (rebuild_events crypto input ≡ some st) × IsSound st
  unfolding rebuild_events
  rebuild_events-IsSound =
      events-Succeeds (empty_rebuild crypto input) (sort compare_burn_events input.solana)
        (record { claimed = tt; covered = tt; none_twice = tt })
        (sort-All compare_burn_events _ input.solana (All-members input.solana))
