-- ===== src/Zcash/Demo/Runs.antt =====
-- Sequences of operations of the demo chain.
use stamppad.Prelude.{ℕ, Bool, Option, List, [], ◌∷◌}
use stamppad.Text.{Text, text_key}
use stamppad.Bytes.{Bytes}
use stamppad.Protocol.Types.{DestNetwork}
use stamppad.Protocol.Crypto.{Crypto}
use stamppad.Zcash.Demo.{
  DemoZcashChain, publish_demo_stamp, publish_demo_record, lock_demo_htlc, claim_demo_htlc,
  refund_demo_htlc, tick_confirmations, orphan_tx,
}

-- A call of one of the operations that change the chain.
pub data ChainOp : Type 0 where
  publish_stamp : DestNetwork → Text → Bytes → Bool → ChainOp
  publish_record : DestNetwork → Bytes → Option Text → ChainOp
  lock : (amount : ℕ) (hash_lock buyer seller : Text) (timeout : ℕ) → ChainOp
  claim : (id preimage_hex : Text) → ChainOp
  refund : (id : Text) → ChainOp
  tick : ℕ → ChainOp
  orphan : Text → ChainOp

module _ (crypto : Crypto) where
  unfoldable pub run_op : DemoZcashChain → ChainOp → DemoZcashChain
  run_op c (publish_stamp n d p b) = (publish_demo_stamp crypto c n d p b).1
  run_op c (publish_record n p a) = (publish_demo_record crypto c n p a).1
  run_op c (lock a l b s t) = (lock_demo_htlc crypto c a l b s t).1
  run_op c (claim id p) = (claim_demo_htlc crypto c id p).1
  run_op c (refund id) = (refund_demo_htlc c id).1
  run_op c (tick min) = tick_confirmations c min
  run_op c (orphan txid) = orphan_tx c txid

  unfoldable pub run_ops : DemoZcashChain → List ChainOp → DemoZcashChain
  run_ops c [] = c
  run_ops c (op ∷ ops) = run_ops (run_op c op) ops
