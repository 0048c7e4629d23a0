-- ===== src/Zcash/Demo.antt =====
-- src/lib/zcash/demo.ts: the in-process Zcash chain with its hash-locked escrows. The chain object
-- that an operation mutates is its argument and the second part of its answer, also where it throws:
-- what was written stays written. The first part is `none` for an exception.
pub mod Runs
pub mod Escrows
pub mod Closed
pub mod Spending
pub mod Published
mod Tests
use stamppad.Prelude.{
  ℕ, zero, suc, ◌+◌, ◌-◌, ◌*◌, Bool, true, false, not, ◌||◌, Option, none, some, List, [], ◌∷◌,
  ◌++◌, ltb, if◌then◌else◌, length, take,
}
use stamppad.Prelude.Dict.{get, put}
use stamppad.Text.{Text, codes, text_eq, text_key}
use stamppad.Bytes.{Bytes, hex_value, to_hex}
use stamppad.Protocol.Types.{
  DestNetwork, ZcashOutput, ZcashPublication, destination_notice_zatoshis,
}
use stamppad.Protocol.Crypto.{Crypto, utf8}
use stamppad.Protocol.Preimage.{decimal}
use stamppad.Protocol.Encoding.{encode_op_return_payload}

pub data EscrowState : Type 0 where
  locked claimed refunded : EscrowState

-- The field `scriptKind` is always the same text.
pub record DemoHtlc : Type 0 where
  pub id : Text
  pub amount_zat : ℕ
  pub hash_lock_hex : Text
  pub expiry_height : ℕ
  pub buyer_address : Text
  pub seller_address : Text
  pub state : EscrowState
  pub lock_txid : Text
  pub claim_txid : Option Text
  pub preimage_hex : Option Text

pub record DemoZcashChain : Type 0 where
  pub height : ℕ
  pub funded_zat : ℕ
  pub txs : List (Text × ZcashPublication)
  pub escrows : List (Text × DemoHtlc)

abbrev pub empty_zcash : DemoZcashChain
empty_zcash = record { height = 100; funded_zat = 1_000_000_000; txs = []; escrows = [] }

-- ZIP317_MARGINAL_FEE and ZIP317_GRACE_ACTIONS
abbrev pub zip317_marginal_fee : ℕ
zip317_marginal_fee = 5_000

abbrev pub zip317_grace_actions : ℕ
zip317_grace_actions = 2

abbrev pub estimate_publication_fee_zat : ℕ
estimate_publication_fee_zat =
    zip317_marginal_fee * (if ltb zip317_grace_actions 5 then 5 else zip317_grace_actions)

-- Buffer.from(text, "hex") stops at the first pair that is no byte, and drops an odd last digit.
abbrev pub hex_prefix : Option ℕ → Option ℕ → Bytes → Bytes
hex_prefix (some h) (some l) rest = (h * 16 + l) ∷ rest
hex_prefix (some h) none rest = []
hex_prefix none l rest = []

unfoldable pub buffer_from_hex : Text → Bytes
buffer_from_hex [] = []
buffer_from_hex (c ∷ []) = []
buffer_from_hex (c ∷ d ∷ t) = hex_prefix (hex_value c) (hex_value d) (buffer_from_hex t)

abbrev pub notice_output : Text → ZcashOutput
notice_output address = record {
  index = 0;
  value_zat = destination_notice_zatoshis;
  address = some address;
  null_data = none;
}

abbrev pub data_output : ℕ → Bytes → ZcashOutput
data_output index payload = record {
  index = index;
  value_zat = 0;
  address = none;
  null_data = some payload;
}

-- A `null` or empty notice address is falsy: no notice output, and no notice to pay.
abbrev pub notice_outputs : Option Text → List ZcashOutput
notice_outputs none = []
notice_outputs (some []) = []
notice_outputs (some (c ∷ t)) = notice_output (c ∷ t) ∷ []

abbrev pub notice_zat : Option Text → ℕ
notice_zat none = 0
notice_zat (some []) = 0
notice_zat (some (c ∷ t)) = destination_notice_zatoshis

abbrev pub spend : DemoZcashChain → ℕ → DemoZcashChain
spend chain zat = record chain { funded_zat = chain.funded_zat - zat; height = chain.height + 1 }

abbrev pub add_tx : DemoZcashChain → ZcashPublication → DemoZcashChain
add_tx chain p = record chain { txs = put chain.txs p.txid p }

abbrev pub publication_at :
    DemoZcashChain → DestNetwork → Text → List ZcashOutput → ZcashPublication
publication_at chain network txid outputs = record {
  txid = txid;
  network = network;
  height = some chain.height;
  confirmations = 0;
  in_best_chain = true;
  outputs = outputs;
}

abbrev pub Outcome : Type 0 → Type 0
Outcome A = Option A × DemoZcashChain

abbrev pub publish : DemoZcashChain → ZcashPublication → Outcome ZcashPublication
publish chain p = (some p, add_tx chain p)

abbrev pub htlc_at :
    ℕ → (amount : ℕ) (hash_lock buyer seller : Text) (timeout : ℕ) (lock_txid : Text) → DemoHtlc
htlc_at height amount hash_lock buyer seller timeout lock_txid = record {
  id = take 32 lock_txid;
  amount_zat = amount;
  hash_lock_hex = hash_lock;
  expiry_height = height + timeout;
  buyer_address = buyer;
  seller_address = seller;
  state = locked;
  lock_txid = lock_txid;
  claim_txid = none;
  preimage_hex = none;
}

abbrev pub set_escrow : DemoZcashChain → DemoHtlc → DemoZcashChain
set_escrow chain h = record chain { escrows = put chain.escrows h.id h }

abbrev pub is_locked : EscrowState → Bool
is_locked locked = true
is_locked claimed = false
is_locked refunded = false

abbrev pub refund_found : DemoZcashChain → Text → Option DemoHtlc → Outcome DemoHtlc
refund_found chain id none = (none, chain)
refund_found chain id (some h) =
    if not (is_locked h.state)
    then (none, chain)
    else if ltb chain.height h.expiry_height
    then (none, chain)
    else (
      some (record h { state = refunded }),
      record chain { escrows = put chain.escrows id (record h { state = refunded }) },
    )

unfoldable pub refund_demo_htlc : DemoZcashChain → Text → Outcome DemoHtlc
refund_demo_htlc chain id = refund_found chain id (get chain.escrows id)

module _ (crypto : Crypto) where
  open crypto use {sha256}

  abbrev pub stamp_txid : DemoZcashChain → Text → Bytes → Text
  stamp_txid chain destination payload =
      to_hex (sha256 (utf8 destination ++ (payload ++ utf8 (decimal chain.height))))

  -- The rest of `publishDemoStamp`, on the chain that is already charged.
  abbrev pub publish_payload :
      DemoZcashChain → DestNetwork → Text → Option Bytes → Outcome ZcashPublication
  publish_payload chain network destination none = (none, chain)
  publish_payload chain network destination (some payload) = publish chain (
      publication_at chain network
        (to_hex (sha256 (utf8 destination ++ (payload ++ utf8 (decimal chain.height)))))
        (notice_output destination ∷ data_output 1 payload ∷ []))

  unfoldable pub publish_demo_stamp :
      DemoZcashChain → DestNetwork → Text → Bytes → Bool → Outcome ZcashPublication
  publish_demo_stamp chain network destination commitment insufficient_funds =
      let needed = estimate_publication_fee_zat + destination_notice_zatoshis in
      if insufficient_funds || ltb chain.funded_zat needed
      then (none, chain)
      else publish_payload (spend chain needed) network destination
          (encode_op_return_payload commitment)

  abbrev pub publish_record_on :
      DemoZcashChain → DestNetwork → Bytes → Option Text → Outcome ZcashPublication
  publish_record_on chain network payload notice_address = publish chain (
      publication_at chain network (to_hex (sha256 (payload ++ utf8 (decimal chain.height)))) (
        notice_outputs notice_address
        ++ data_output (length (notice_outputs notice_address)) payload ∷ []))

  unfoldable pub publish_demo_record :
      DemoZcashChain → DestNetwork → Bytes → Option Text → Outcome ZcashPublication
  publish_demo_record chain network payload notice_address =
      let needed = estimate_publication_fee_zat + notice_zat notice_address in
      if ltb chain.funded_zat needed
      then (none, chain)
      else publish_record_on (spend chain needed) network payload notice_address

  -- `${hashLockHex}:${buyerAddress}:${height}`, hashed
  abbrev pub lock_txid_at : ℕ → Text → Text → Text
  lock_txid_at height hash_lock buyer =
      to_hex (sha256 (utf8 (hash_lock ++ (b':' ∷ (buyer ++ (b':' ∷ decimal height))))))

  unfoldable pub lock_demo_htlc :
      DemoZcashChain
      → (amount : ℕ) (hash_lock buyer seller : Text) (timeout : ℕ) → DemoHtlc × DemoZcashChain
  lock_demo_htlc chain amount hash_lock buyer seller timeout =
      let height = chain.height + 1 in
      let h =
        htlc_at height amount hash_lock buyer seller timeout
          (lock_txid_at height hash_lock buyer) in
      (h, set_escrow (record chain { height = height }) h)

  -- `${id}:claim:${height}`, hashed
  abbrev pub claim_txid_at : ℕ → Text → Text
  claim_txid_at height id = to_hex (sha256 (utf8 (id ++ (codes ":claim:" ++ decimal height))))

  abbrev pub claimed_htlc : ℕ → DemoHtlc → Text → DemoHtlc
  claimed_htlc height h preimage_hex = record h {
    state = claimed;
    preimage_hex = some preimage_hex;
    claim_txid = some (claim_txid_at height h.id);
  }

  -- `htlc` is the object in the map, so what is written to it is written at `id`.
  abbrev pub claim_found : DemoZcashChain → Text → Text → Option DemoHtlc → Outcome DemoHtlc
  claim_found chain id preimage_hex none = (none, chain)
  claim_found chain id preimage_hex (some h) =
      if not (is_locked h.state)
      then (none, chain)
      else if not (text_eq (to_hex (sha256 (buffer_from_hex preimage_hex))) h.hash_lock_hex)
      then (none, chain)
      else (
        some (claimed_htlc (chain.height + 1) h preimage_hex),
        record chain {
          height = chain.height + 1;
          escrows = put chain.escrows id (claimed_htlc (chain.height + 1) h preimage_hex);
        },
      )

  unfoldable pub claim_demo_htlc : DemoZcashChain → (id preimage_hex : Text) → Outcome DemoHtlc
  claim_demo_htlc chain id preimage_hex = claim_found chain id preimage_hex (get chain.escrows id)

abbrev pub confirm : Bool → ℕ → ℕ
confirm true n = n + 1
confirm false n = n

abbrev pub tick_publication : ℕ → ZcashPublication → ZcashPublication
tick_publication min p =
    let n = confirm p.in_best_chain p.confirmations in
    record p { confirmations = if ltb (min + 5) n then min + 5 else n }

unfoldable pub tick_txs : ℕ → List (Text × ZcashPublication) → List (Text × ZcashPublication)
tick_txs min [] = []
tick_txs min ((k, p) ∷ txs) = (k, tick_publication min p) ∷ tick_txs min txs

unfoldable pub tick_confirmations : DemoZcashChain → ℕ → DemoZcashChain
tick_confirmations chain min = record chain { txs = tick_txs min chain.txs }

abbrev pub orphan_found : DemoZcashChain → Text → Option ZcashPublication → DemoZcashChain
orphan_found chain txid none = chain
orphan_found chain txid (some p) = record chain {
  txs = put chain.txs txid (record p { in_best_chain = false; confirmations = 0 });
}

unfoldable pub orphan_tx : DemoZcashChain → Text → DemoZcashChain
orphan_tx chain txid = orphan_found chain txid (get chain.txs txid)
