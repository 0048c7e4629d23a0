-- ===== src/Zcash/Demo/Tests.antt =====
-- A payment that is locked, claimed and refused a refund, and a stamp that is published.
use stamppad.Prelude.{◌+◌, ◌≡◌, refl, ◌⊎◌, none, some, [], ◌∷◌, replicate, arith, take, false}
use stamppad.Prelude.Dict.{get, put}
use stamppad.Text.{Text, codes, text_eq, text_key}
use stamppad.Bytes.{to_hex}
use stamppad.Protocol.Types.{zcash_demo, ZcashPublication}
use stamppad.Protocol.Crypto.{IsHash}
use stamppad.Protocol.Encoding.{commitment_of}
use stamppad.Protocol.Validate.{validate_publication, published}
use stamppad.Protocol.Validate.Tests.{seven_hash, burned_issuance}
use stamppad.Zcash.Demo.{
  DemoHtlc, DemoZcashChain, empty_zcash, claimed, buffer_from_hex, publish_demo_record,
  publish_demo_stamp, lock_demo_htlc, claim_demo_htlc,
}
use stamppad.Zcash.Demo.Runs.{lock, claim, refund, tick, publish_record, run_op, run_ops}
use stamppad.Zcash.Demo.Escrows.{HasEscrows, run_ops-HasEscrows}
use stamppad.Zcash.Demo.Closed.{run_ops-keeps}
use stamppad.Zcash.Demo.Spending.{publish_demo_record-funded_zat, total_zat}
use stamppad.Zcash.Demo.Published.{publish_demo_stamp-published, tick_times}

abbrev seven_lock : Text
seven_lock = to_hex (replicate 32 7)

abbrev seven_id : Text
seven_id = take 32 seven_lock

abbrev paid : DemoZcashChain
paid =
    run_ops seven_hash empty_zcash
      (lock 900 seven_lock (codes "b") (codes "s") 48 ∷ claim seven_id (codes "ff") ∷ [])

run_ops-HasEscrows_example : HasEscrows seven_hash paid
run_ops-HasEscrows_example =
    run_ops-HasEscrows seven_hash empty_zcash
      (lock 900 seven_lock (codes "b") (codes "s") 48 ∷ claim seven_id (codes "ff") ∷ []) tt

abbrev paid_htlc : DemoHtlc
paid_htlc = record {
  id = seven_id;
  amount_zat = 900;
  hash_lock_hex = seven_lock;
  expiry_height = 149;
  buyer_address = codes "b";
  seller_address = codes "s";
  state = claimed;
  lock_txid = seven_lock;
  claim_txid = some seven_lock;
  preimage_hex = some (codes "ff");
}

paid-found : get paid.escrows seven_id ≡ some paid_htlc
unfolding run_ops run_op lock_demo_htlc claim_demo_htlc get put text_eq to_hex buffer_from_hex
paid-found = refl

run_ops-keeps_example :
    get
      (run_ops seven_hash paid
        (tick 3 ∷ publish_record zcash_demo (replicate 74 0) none ∷ refund seven_id ∷ [])).escrows
      seven_id
    ≡ some paid_htlc
run_ops-keeps_example =
    run_ops-keeps seven_hash seven_id paid_htlc paid
      (tick 3 ∷ publish_record zcash_demo (replicate 74 0) none ∷ refund seven_id ∷ [])
      (ground arith) (tt, (tt, (tt, tt))) paid-found

seven-IsHash : IsHash seven_hash.sha256
seven-IsHash = record { hash_length = λ b. refl; hash_bytes = λ b. ground arith }

publish_demo_record-funded_zat_example :
    (publish_demo_record seven_hash empty_zcash zcash_demo (replicate 74 0) (some (codes "b"))
      ≡ (none, empty_zcash))
    ⊎ ((p : ZcashPublication) × ((publish_demo_record seven_hash empty_zcash zcash_demo
            (replicate 74 0)
            (some (codes "b"))).0
          ≡ some p)
        × ((publish_demo_record seven_hash empty_zcash zcash_demo
                (replicate 74 0)
                (some (codes "b"))).1.funded_zat
              + 25_000
              + total_zat p.outputs
            ≡ 1_000_000_000)
        × (get
              (publish_demo_record seven_hash empty_zcash zcash_demo
                (replicate 74 0)
                (some (codes "b"))).1.txs
              p.txid
            ≡ some p))
publish_demo_record-funded_zat_example =
    publish_demo_record-funded_zat seven_hash empty_zcash zcash_demo (replicate 74 0)
      (some (codes "b"))

publish_demo_stamp-published_example :
    (p : ZcashPublication) × (q : ZcashPublication) × ((publish_demo_stamp seven_hash empty_zcash
        burned_issuance.destination_network burned_issuance.destination
        (commitment_of seven_hash burned_issuance)
        false).0
      ≡ some p)
    × (get
          (tick_times 3 3
            (publish_demo_stamp seven_hash empty_zcash burned_issuance.destination_network
              burned_issuance.destination
              (commitment_of seven_hash burned_issuance)
              false).1).txs
          p.txid
        ≡ some q)
    × (validate_publication seven_hash burned_issuance q 3 ≡ published)
publish_demo_stamp-published_example =
    publish_demo_stamp-published seven_hash seven-IsHash burned_issuance empty_zcash 3 (omega arith)
