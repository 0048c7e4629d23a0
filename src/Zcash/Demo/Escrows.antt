-- ===== src/Zcash/Demo/Escrows.antt =====
-- The escrows of the demo chain over any sequence of its operations.
use stamppad.Prelude.{
  ℕ, ◌+◌, ◌≤◌, ◌≡◌, ◌≢◌, refl, inl, inr, Bool, ◌||◌, Option, none, some, List, [], ◌∷◌, arith, All,
  Bool-cases, ltb,
}
use stamppad.Prelude.Dict.{get, get-All, put-All}
use stamppad.Text.{Text, text_eq, text_key, text_eq_iff}
use stamppad.Bytes.{Bytes, to_hex}
use stamppad.Protocol.Types.{DestNetwork, ZcashPublication}
use stamppad.Protocol.Crypto.{Crypto}
use stamppad.Protocol.Encoding.{encode_op_return_payload}
use stamppad.Zcash.Demo.Runs.{
  ChainOp, publish_stamp, publish_record, lock, claim, refund, tick, orphan, run_op, run_ops,
}
use stamppad.Zcash.Demo.{
  claimed, refunded, DemoHtlc, DemoZcashChain, buffer_from_hex, publish_demo_stamp,
  publish_demo_record, lock_demo_htlc, claim_demo_htlc, refund_demo_htlc, tick_confirmations,
  orphan_tx, is_locked, spend, publish_payload, claim_found, refund_found, orphan_found,
  estimate_publication_fee_zat, notice_zat,
}

module _ (crypto : Crypto) where
  abbrev pub Opens : Text → Text → Type 0
  Opens preimage_hex hash_lock = to_hex (crypto.sha256 (buffer_from_hex preimage_hex)) ≡ hash_lock

  -- An entry of the escrows at a height of the chain.
  pub record IsEscrow (height : ℕ) (entry : Text × DemoHtlc) : Type 0 where
    pub filed : entry.1.id ≡ entry.0
    pub unopened : entry.1.state ≢ claimed → entry.1.preimage_hex ≡ none
    pub opened :
        entry.1.state ≡ claimed
        → (p : Text) × (entry.1.preimage_hex ≡ some p) × Opens p entry.1.hash_lock_hex
    pub expired : entry.1.state ≡ refunded → entry.1.expiry_height ≤ height

  abbrev pub HasEscrows : DemoZcashChain → Type 0
  HasEscrows c = All (IsEscrow c.height) c.escrows

  IsEscrow-later :
      (m n : ℕ) (es : List (Text × DemoHtlc)) → m ≤ n → All (IsEscrow m) es → All (IsEscrow n) es
  IsEscrow-later m n [] h a = tt
  IsEscrow-later m n (e ∷ es) h (a, b) = (
    record {
      filed = a.filed;
      unopened = a.unopened;
      opened = a.opened;
      expired = λ r. omega (arith, a.expired r);
    },
    IsEscrow-later m n es h b,
  )

  claim_found-HasEscrows :
      (c : DemoZcashChain) (id p : Text) (h : Option DemoHtlc)
      → get c.escrows id ≡ h
      → HasEscrows c
      → HasEscrows (claim_found crypto c id p h).1
  claim_found-HasEscrows c id p none e h = h
  claim_found-HasEscrows c id p (some t) e h =
      let at = get-All (IsEscrow c.height) c.escrows id t h e in
      elim (Bool-cases (is_locked t.state)) [
        | inr f ↦ rw f h
        | inl l ↦
            elim (Bool-cases
              (text_eq (to_hex (crypto.sha256 (buffer_from_hex p))) t.hash_lock_hex)) [
                | inr f ↦ rw (l, f) h
                | inl o ↦
                    rw (l, o)
                      (put-All (IsEscrow (c.height + 1)) c.escrows id _
                        (IsEscrow-later c.height (c.height + 1) c.escrows (omega arith) h)
                        (record {
                          filed = at.filed;
                          unopened = λ n. absurd (n refl);
                          opened = λ r. (p, refl, (text_eq_iff _ _).0 o);
                          expired = λ r. absurd (ground arith);
                        }))
              ]
      ]

  refund_found-HasEscrows :
      (c : DemoZcashChain) (id : Text) (h : Option DemoHtlc)
      → get c.escrows id ≡ h
      → HasEscrows c
      → HasEscrows (refund_found c id h).1
  refund_found-HasEscrows c id none e h = h
  refund_found-HasEscrows c id (some t) e h =
      let at = get-All (IsEscrow c.height) c.escrows id t h e in
      elim (Bool-cases (is_locked t.state)) [
        | inr f ↦ rw f h
        | inl l ↦ elim (Bool-cases (ltb c.height t.expiry_height)) [
          | inl o ↦ rw (l, o) h
          | inr o ↦
              rw (l, o)
                (put-All (IsEscrow c.height) c.escrows id _ h (record {
                  filed = at.filed;
                  unopened = λ n. at.unopened (ground arith);
                  opened = λ r. absurd (ground arith);
                  expired = λ r. ground arith;
                }))
        ]
      ]

  publish_payload-HasEscrows :
      (c : DemoZcashChain) (n : DestNetwork) (d : Text) (p : Option Bytes)
      → HasEscrows c
      → HasEscrows (publish_payload crypto c n d p).1
  publish_payload-HasEscrows c n d none h = h
  publish_payload-HasEscrows c n d (some b) h = h

  orphan_found-HasEscrows :
      (c : DemoZcashChain) (txid : Text) (p : Option ZcashPublication)
      → HasEscrows c
      → HasEscrows (orphan_found c txid p)
  orphan_found-HasEscrows c txid none h = h
  orphan_found-HasEscrows c txid (some p) h = h

  publish_demo_stamp-HasEscrows :
      (c : DemoZcashChain) (n : DestNetwork) (d : Text) (p : Bytes) (b : Bool)
      → HasEscrows c
      → HasEscrows (publish_demo_stamp crypto c n d p b).1
  unfolding publish_demo_stamp
  publish_demo_stamp-HasEscrows c n d p b h = elim (Bool-cases (b || ltb c.funded_zat 35_000)) [
    | inl t ↦ rw t h
    | inr f ↦ rw f (
        publish_payload-HasEscrows (spend c 35_000) n d (encode_op_return_payload p)
          (IsEscrow-later c.height (c.height + 1) c.escrows (omega arith) h))
  ]

  publish_demo_record-HasEscrows :
      (c : DemoZcashChain) (n : DestNetwork) (p : Bytes) (a : Option Text)
      → HasEscrows c
      → HasEscrows (publish_demo_record crypto c n p a).1
  unfolding publish_demo_record
  publish_demo_record-HasEscrows c n p a h =
      elim (Bool-cases (ltb c.funded_zat (estimate_publication_fee_zat + notice_zat a))) [
        | inl t ↦ rw t h
        | inr f ↦ rw f (IsEscrow-later c.height (c.height + 1) c.escrows (omega arith) h)
      ]

  run_op-HasEscrows :
      (c : DemoZcashChain) (op : ChainOp) → HasEscrows c → HasEscrows (run_op crypto c op)
  unfolding run_op lock_demo_htlc claim_demo_htlc refund_demo_htlc tick_confirmations orphan_tx
  run_op-HasEscrows c (publish_stamp n d p b) h = publish_demo_stamp-HasEscrows c n d p b h
  run_op-HasEscrows c (publish_record n p a) h = publish_demo_record-HasEscrows c n p a h
  run_op-HasEscrows c (lock a l b s t) h =
      put-All (IsEscrow (c.height + 1)) c.escrows _ _
        (IsEscrow-later c.height (c.height + 1) c.escrows (omega arith) h)
        (record {
          filed = refl;
          unopened = λ n. refl;
          opened = λ r. absurd (ground arith);
          expired = λ r. absurd (ground arith);
        })
  run_op-HasEscrows c (claim id p) h = claim_found-HasEscrows c id p (get c.escrows id) refl h
  run_op-HasEscrows c (refund id) h = refund_found-HasEscrows c id (get c.escrows id) refl h
  run_op-HasEscrows c (tick min) h = h
  run_op-HasEscrows c (orphan txid) h = orphan_found-HasEscrows c txid (get c.txs txid) h

  -- However the chain is used, from any chain whose escrows are well kept, they stay so: each is filed
  -- under its id; one that is claimed shows a preimage whose hash is its lock, and no other shows one;
  -- one that is refunded has reached its expiry height.
  pub run_ops-HasEscrows :
      (c : DemoZcashChain) (ops : List ChainOp) → HasEscrows c → HasEscrows (run_ops crypto c ops)
  unfolding run_ops
  run_ops-HasEscrows c [] h = h
  run_ops-HasEscrows c (op ∷ ops) h =
      run_ops-HasEscrows (run_op crypto c op) ops (run_op-HasEscrows c op h)
