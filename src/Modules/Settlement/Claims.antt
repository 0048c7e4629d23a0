-- ===== src/Modules/Settlement/Claims.antt =====
-- The payment of a listing: whoever reads the listing's secret can claim what the buyer locked.
use stamppad.Prelude.{
  ℕ, ◌+◌, ◌*◌, ◌≡◌, refl, sym, ap, ◌∙◌, inl, inr, not, Option, Option-cases, none, some, [], ◌∷◌,
  arith, any,
}
use stamppad.Prelude.Dict.{get, put, get-put_self}
use stamppad.Text.{Text, text_key, text_eq_iff}
use stamppad.Bytes.{Bytes, to_hex, from_hex, hex_value, hex_byte}
use stamppad.Action.{throw_if-false, or_throw-some, then_run, or_throw, ◌>>=◌}
use stamppad.Mode.{Flags}
use stamppad.Store.{ListingRow, MemoryShape, authorized}
use stamppad.Protocol.Crypto.{Crypto}
use stamppad.Protocol.Preimage.{TransferAuthorization}
use stamppad.Protocol.Transfer.{hash_lock_for}
use stamppad.Modules.Listing.{big_int, locked_row, same_state, upsert_listing, with_zcash, promised}
use stamppad.Modules.Settlement.{claim_payment, lock_payment, lock_with}
use stamppad.Modules.Settlement.Stages.{Authorized, Reserved}
use stamppad.Modules.Settlement.Sales.{same_text}
use stamppad.Zcash.Demo.{
  DemoHtlc, DemoZcashChain, locked, claimed, buffer_from_hex, claim_demo_htlc, claimed_htlc,
  hex_prefix, lock_demo_htlc,
}

-- Text that `fromHex` takes is read the same way by `Buffer.from`.
buffer_from_hex-byte :
    (h k : Option ℕ) (o : Option Bytes) (rest b : Bytes)
    → ((c : Bytes) → o ≡ some c → rest ≡ c)
    → hex_byte h k o ≡ some b
    → hex_prefix h k rest ≡ b
buffer_from_hex-byte (some h) (some k) (some c) rest b r e =
    ap (λ (t : Bytes). (h * 16 + k) ∷ t) (r c refl)
    ∙ ap (λ (t : Option Bytes). elim t [ none ↦ b | some d ↦ d ]) e
buffer_from_hex-byte (some h) (some k) none rest b r e = absurd (ground arith)
buffer_from_hex-byte (some h) none o rest b r e = absurd (ground arith)
buffer_from_hex-byte none k o rest b r e = absurd (ground arith)

buffer_from_hex-from_hex : (t : Text) (b : Bytes) → from_hex t ≡ some b → buffer_from_hex t ≡ b
unfolding buffer_from_hex from_hex
buffer_from_hex-from_hex [] b e = ap (λ (t : Option Bytes). elim t [ none ↦ b | some d ↦ d ]) e
buffer_from_hex-from_hex (c ∷ []) b e = absurd (ground arith)
buffer_from_hex-from_hex (c ∷ d ∷ t) b e =
    buffer_from_hex-byte (hex_value c) (hex_value d) (from_hex t) (buffer_from_hex t) b
      (buffer_from_hex-from_hex t) e

module _ (crypto : Crypto) where
  hash_lock_for-buffer :
      (secret lock : Text)
      → hash_lock_for crypto secret ≡ some lock
      → to_hex (crypto.sha256 (buffer_from_hex secret)) ≡ lock
  unfolding hash_lock_for
  hash_lock_for-buffer secret lock e = elim (Option-cases (from_hex secret)) [
    | inl q ↦ absurd (ground (arith, (rw (hash_lock_for, q) at e)))
    | inr (b, q) ↦
        rw (buffer_from_hex-from_hex secret b q) (same_text _ lock (rw (hash_lock_for, q) at e))
  ]

  claim_demo_htlc-opens :
      (c : DemoZcashChain) (id secret : Text) (h : DemoHtlc)
      → get c.escrows id ≡ some h
      → h.state ≡ locked
      → hash_lock_for crypto secret ≡ some h.hash_lock_hex
      → claim_demo_htlc crypto c id secret ≡ (
        some (claimed_htlc crypto (c.height + 1) h secret),
        record c {
          height = c.height + 1;
          escrows = put c.escrows id (claimed_htlc crypto (c.height + 1) h secret);
        },
      )
  unfolding claim_demo_htlc
  claim_demo_htlc-opens c id secret h at open_ lock =
      let hash =
        (text_eq_iff _ h.hash_lock_hex).1 (hash_lock_for-buffer secret h.hash_lock_hex lock) in
      rw (at, open_, hash) refl

  module _ (f : Flags) where
    lock_payment-lock_with :
        (l : ListingRow) (s : MemoryShape) (now : Text) (a : TransferAuthorization)
        (lock buyer : Text)
        → l.state ≡ authorized
        → l.transfer_artifact ≡ some a
        → l.hash_lock_hex ≡ some lock
        → l.buyer_address ≡ some buyer
        → lock_payment crypto f l now s ≡ lock_with crypto f l now lock buyer s
    unfolding lock_payment
    lock_payment-lock_with l s now a lock buyer at ea ek eb =
        throw_if-false (not (any (same_state l.state) (authorized ∷ [])))
          (or_throw l.transfer_artifact >>= λ a. promised l.hash_lock_hex >>= λ k.
            promised l.buyer_address >>= lock_with crypto f l now k)
          s (rw at refl)
        ∙ or_throw-some l.transfer_artifact a
            (λ a. promised l.hash_lock_hex >>= λ k.
              promised l.buyer_address >>= lock_with crypto f l now k)
            s ea
        ∙ or_throw-some l.hash_lock_hex lock
            (λ k. promised l.buyer_address >>= lock_with crypto f l now k) s ek
        ∙ or_throw-some l.buyer_address buyer (lock_with crypto f l now lock) s eb

    -- The payment as the seller finds it.
    pub record IsClaimed (l : ListingRow) (s : MemoryShape) : Type 0 where
      pub id : Text
      pub htlc : DemoHtlc
      pub escrow : l.escrow_id ≡ some id
      pub found : get s.zcash.escrows id ≡ some htlc
      pub state : htlc.state ≡ claimed
      pub amount : htlc.amount_zat ≡ big_int l.price_zat
      pub seller : htlc.seller_address ≡ l.seller_address
      pub revealed : htlc.preimage_hex ≡ l.preimage_hex

    -- Locking the payment of an authorized listing succeeds, and the seller's claim right after it
    -- succeeds too: the escrow is then claimed at the listing's price for the seller, and shows the
    -- listing's secret.
    pub lock_payment-claim_payment :
        (l : ListingRow) (s : MemoryShape) (now later : Text)
        → l.state ≡ authorized
        → Reserved crypto l
        → Authorized crypto l
        → (row : ListingRow) × (s₁ : MemoryShape) × (done : ListingRow) × (s₂ : MemoryShape)
          × (lock_payment crypto f l now s ≡ (some row, s₁))
          × (claim_payment crypto f row later s₁ ≡ (some done, s₂))
          × IsClaimed done s₂
    unfolding lock_payment claim_payment lock_demo_htlc
    lock_payment-claim_payment l s now later at r g =
        let pair =
          lock_demo_htlc crypto s.zcash (big_int l.price_zat) r.lock r.buyer_address
            l.seller_address 48 in
        let row = locked_row l pair.0 now in
        let s₁ : MemoryShape = record s { zcash = pair.1; listings = put s.listings row.id row } in
        let done : ListingRow = record row { updated_at = later } in
        let h = claimed_htlc crypto (pair.1.height + 1) pair.0 r.secret in
        let chain : DemoZcashChain = record (pair.1) {
          height = pair.1.height + 1;
          escrows = put pair.1.escrows pair.0.id h;
        } in
        let s₂ : MemoryShape = record s₁ {
          zcash = chain;
          listings = put s₁.listings done.id done;
        } in
        let opened =
          claim_demo_htlc-opens pair.1 pair.0.id r.secret pair.0
            (get-put_self s.zcash.escrows pair.0.id pair.0) refl r.opens in
        (
          row,
          s₁,
          done,
          s₂,
          lock_payment-lock_with l s now g.auth r.lock r.buyer_address at g.kept r.locked r.named,
          or_throw-some l.preimage_hex r.secret _ s₁ r.kept
              ∙ ap
                  (λ (o : Option DemoHtlc × DemoZcashChain).
                    then_run (λ x. upsert_listing done) (with_zcash s₁ o))
                  opened,
          record {
            id = pair.0.id;
            htlc = h;
            escrow = refl;
            found = get-put_self pair.1.escrows pair.0.id h;
            state = refl;
            amount = refl;
            seller = refl;
            revealed = sym r.kept;
          },
        )
