-- ===== src/Zcash/Demo/Closed.antt =====
-- Escrows that are closed, over any sequence of operations.
use stamppad.Prelude.{
  ◌+◌, ◌≡◌, ◌≢◌, refl, Bool, Option, none, some, List, [], ◌∷◌, arith, take, ap, ◌∙◌,
}
use stamppad.Prelude.Dict.{get, get-put}
use stamppad.Text.{Text, text_key, text_eq_iff}
use stamppad.Bytes.{Bytes}
use stamppad.Protocol.Types.{DestNetwork, ZcashPublication}
use stamppad.Protocol.Crypto.{Crypto}
use stamppad.Zcash.Demo.Runs.{
  ChainOp, publish_stamp, publish_record, lock, claim, refund, tick, orphan, run_op, run_ops,
}
use stamppad.Zcash.Demo.{
  locked, refunded, claimed_htlc, DemoHtlc, DemoZcashChain, publish_demo_stamp, publish_demo_record,
  lock_demo_htlc, claim_demo_htlc, refund_demo_htlc, tick_confirmations, orphan_tx, claim_found,
  refund_found, lock_txid_at, htlc_at, orphan_found,
}

module _ (crypto : Crypto) where
  -- A later lock does not take the id again.
  abbrev pub Fresh : Text → DemoZcashChain → ChainOp → Type 0
  Fresh id c (lock a l b s t) = take 32 (lock_txid_at crypto (c.height + 1) l b) ≢ id
  Fresh id c _ = Unit

  abbrev pub AllFresh : Text → DemoZcashChain → List ChainOp → Type 0
  AllFresh id c [] = Unit
  AllFresh id c (op ∷ ops) = Fresh id c op × AllFresh id (run_op crypto c op) ops

  claim_found-keeps :
      (c : DemoZcashChain) (id : Text) (h : DemoHtlc) (j p : Text) (found : Option DemoHtlc)
      → get c.escrows j ≡ found
      → get c.escrows id ≡ some h
      → h.state ≢ locked
      → get (claim_found crypto c j p found).1.escrows id ≡ some h
  claim_found-keeps c id h j p none q e n = e
  claim_found-keeps c id h j p (some t) q e n =
      ground
        (arith, get-put c.escrows j id (claimed_htlc crypto (c.height + 1) t p), text_eq_iff j id)

  refund_found-keeps :
      (c : DemoZcashChain) (id : Text) (h : DemoHtlc) (j : Text) (found : Option DemoHtlc)
      → get c.escrows j ≡ found
      → get c.escrows id ≡ some h
      → h.state ≢ locked
      → get (refund_found c j found).1.escrows id ≡ some h
  refund_found-keeps c id h j none q e n = e
  refund_found-keeps c id h j (some t) q e n =
      ground (arith, get-put c.escrows j id (record t { state = refunded }), text_eq_iff j id)

  publish_demo_stamp-escrows :
      (c : DemoZcashChain) (n : DestNetwork) (d : Text) (p : Bytes) (b : Bool)
      → (publish_demo_stamp crypto c n d p b).1.escrows ≡ c.escrows
  unfolding publish_demo_stamp
  publish_demo_stamp-escrows c n d p b = ground arith

  publish_demo_record-escrows :
      (c : DemoZcashChain) (n : DestNetwork) (p : Bytes) (a : Option Text)
      → (publish_demo_record crypto c n p a).1.escrows ≡ c.escrows
  unfolding publish_demo_record
  publish_demo_record-escrows c n p a = ground arith

  orphan_found-escrows :
      (c : DemoZcashChain) (txid : Text) (p : Option ZcashPublication)
      → (orphan_found c txid p).escrows ≡ c.escrows
  orphan_found-escrows c txid none = refl
  orphan_found-escrows c txid (some p) = refl

  run_op-keeps :
      (id : Text) (h : DemoHtlc) (c : DemoZcashChain) (op : ChainOp)
      → h.state ≢ locked
      → Fresh id c op
      → get c.escrows id ≡ some h
      → get (run_op crypto c op).escrows id ≡ some h
  unfolding run_op lock_demo_htlc claim_demo_htlc refund_demo_htlc tick_confirmations orphan_tx
  run_op-keeps id h c (publish_stamp n d p b) s f e =
      ap (λ m. get m id) (publish_demo_stamp-escrows c n d p b) ∙ e
  run_op-keeps id h c (publish_record n p a) s f e =
      ap (λ m. get m id) (publish_demo_record-escrows c n p a) ∙ e
  run_op-keeps id h c (lock a l b t n) s f e = ground (
    arith,
    get-put c.escrows (take 32 (lock_txid_at crypto (c.height + 1) l b)) id
        (htlc_at (c.height + 1) a l b t n (lock_txid_at crypto (c.height + 1) l b)),
    text_eq_iff (take 32 (lock_txid_at crypto (c.height + 1) l b)) id,
  )
  run_op-keeps id h c (claim j p) s f e = claim_found-keeps c id h j p (get c.escrows j) refl e s
  run_op-keeps id h c (refund j) s f e = refund_found-keeps c id h j (get c.escrows j) refl e s
  run_op-keeps id h c (tick min) s f e = e
  run_op-keeps id h c (orphan txid) s f e =
      ap (λ m. get m id) (orphan_found-escrows c txid (get c.txs txid)) ∙ e

  -- An escrow that is claimed or refunded stays exactly as it is, however the chain is used, as long
  -- as no later lock takes its id: a payment is never both claimed and refunded.
  pub run_ops-keeps :
      (id : Text) (h : DemoHtlc) (c : DemoZcashChain) (ops : List ChainOp)
      → h.state ≢ locked
      → AllFresh id c ops
      → get c.escrows id ≡ some h
      → get (run_ops crypto c ops).escrows id ≡ some h
  unfolding run_ops
  run_ops-keeps id h c [] s f e = e
  run_ops-keeps id h c (op ∷ ops) s (f, fs) e =
      run_ops-keeps id h (run_op crypto c op) ops s fs (run_op-keeps id h c op s f e)
