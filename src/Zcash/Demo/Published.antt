-- ===== src/Zcash/Demo/Published.antt =====
-- That a published stamp is accepted once it has enough confirmations.
use stamppad.Prelude.{
  ℕ, zero, suc, ◌+◌, ◌≤◌, ◌≡◌, refl, ap, ◌∙◌, inl, inr, Bool, true, false, Option, none, some, List,
  [], ◌∷◌, ◌&&◌, leb, arith, length, Bool-cases,
}
use stamppad.Prelude.Dict.{get, get-put_self}
use stamppad.Text.{Text, text_eq, text_key, text_eq_refl}
use stamppad.Bytes.{Bytes}
use stamppad.Protocol.Types.{
  DestNetwork, ZcashOutput, ZcashPublication, IssuanceFields, zcash_demo, zcash_test, zcash_main,
  dest_network_eq,
}
use stamppad.Protocol.Crypto.{Crypto, IsHash}
use stamppad.Protocol.Encoding.{encode_op_return_payload, decode_op_return_payload, commitment_of}
use stamppad.Protocol.Encoding.Intents.{decode_op_return_payload-encode}
use stamppad.Protocol.Transfer.{buffer_eq}
use stamppad.Protocol.Validate.{
  validate_publication, published, find_output, find_data, is_some_text,
}
use stamppad.Zcash.Demo.{
  stamp_txid, add_tx, DemoZcashChain, publish_demo_stamp, publish_payload, spend,
  tick_confirmations, tick_txs, tick_publication, notice_output, data_output, publication_at,
}

-- The chain after so many blocks.
unfoldable pub tick_times : ℕ → ℕ → DemoZcashChain → DemoZcashChain
tick_times zero min c = c
tick_times (suc n) min c = tick_times n min (tick_confirmations c min)

abbrev pub map_found : Option ZcashPublication → ℕ → Option ZcashPublication
map_found none min = none
map_found (some p) min = some (tick_publication min p)

get-tick_txs :
    (min : ℕ) (txs : List (Text × ZcashPublication)) (k : Text)
    → get (tick_txs min txs) k ≡ map_found (get txs k) min
unfolding get tick_txs
get-tick_txs min [] k = refl
get-tick_txs min ((j, p) ∷ txs) k = elim (Bool-cases (text_eq j k)) [
  | inl t ↦ rw t refl
  | inr f ↦ rw f (get-tick_txs min txs k)
]

-- A publication in the best chain, with its confirmations.
record IsMined (p q : ZcashPublication) (confirmations : ℕ) : Type 0 where
  network : q.network ≡ p.network
  outputs : q.outputs ≡ p.outputs
  best : q.in_best_chain ≡ true
  deep : confirmations ≤ q.confirmations

tick_times-IsMined :
    (n m min : ℕ) (c : DemoZcashChain) (k : Text) (p q : ZcashPublication)
    → get c.txs k ≡ some q
    → IsMined p q m
    → n + m ≤ min
    → (r : ZcashPublication) × (get (tick_times n min c).txs k ≡ some r) × IsMined p r (n + m)
unfolding tick_times tick_confirmations
tick_times-IsMined zero m min c k p q e h b = (
  q,
  e,
  record { network = h.network; outputs = h.outputs; best = h.best; deep = omega (arith, h.deep) },
)
tick_times-IsMined (suc n) m min c k p q e h b =
    let (r, f, g) =
      tick_times-IsMined n (suc m) min (tick_confirmations c min) k p (tick_publication min q)
        (get-tick_txs min c.txs k ∙ ap (λ o. map_found o min) e)
        (record {
          network = h.network;
          outputs = h.outputs;
          best = h.best;
          deep = ground (arith, h.deep, h.best);
        })
        (omega arith) in
    (
      r,
      f,
      record {
        network = g.network;
        outputs = g.outputs;
        best = g.best;
        deep = omega (arith, g.deep);
      },
    )

module _ (crypto : Crypto) (hash : IsHash crypto.sha256) (issuance : IssuanceFields) where
  dest_network_eq_refl : (n : DestNetwork) → dest_network_eq n n ≡ true
  dest_network_eq_refl zcash_demo = refl
  dest_network_eq_refl zcash_test = refl
  dest_network_eq_refl zcash_main = refl

  commitment_length : length (commitment_of crypto issuance) ≡ 32
  unfolding commitment_of
  commitment_length = hash.hash_length _

  abbrev stamp_outputs : Bytes → List ZcashOutput
  stamp_outputs payload = notice_output issuance.destination ∷ data_output 1 payload ∷ []

  find_data-stamp_outputs :
      (payload c : Bytes)
      → decode_op_return_payload payload ≡ some c
      → find_data (stamp_outputs payload) ≡ some (data_output 1 payload)
  unfolding find_output
  find_data-stamp_outputs payload c f = ground (arith, f)

  abbrev pays : ZcashOutput → Bool
  pays o = is_some_text o.address issuance.destination && leb 10_000 o.value_zat

  find_output-stamp_outputs :
      (payload : Bytes)
      → find_output pays (stamp_outputs payload) ≡ some (notice_output issuance.destination)
  unfolding find_output
  find_output-stamp_outputs payload = ground (arith, text_eq_refl issuance.destination)

  accepted :
      (q : ZcashPublication) (min : ℕ) (payload : Bytes)
      → q.network ≡ issuance.destination_network
      → q.outputs ≡ stamp_outputs payload
      → q.in_best_chain ≡ true
      → min ≤ q.confirmations
      → encode_op_return_payload (commitment_of crypto issuance) ≡ some payload
      → decode_op_return_payload payload ≡ some (commitment_of crypto issuance)
      → validate_publication crypto issuance q min ≡ published
  unfolding validate_publication buffer_eq
  accepted q min payload n o b d e f =
      rw
        (
          o,
          find_data-stamp_outputs payload (commitment_of crypto issuance) f,
          find_output-stamp_outputs payload,
          e,
          n,
        )
        (ground (arith, dest_network_eq_refl issuance.destination_network, text_eq_refl payload))

  spend-published :
      (c : DemoZcashChain) (payload : Bytes)
      → 35_000 ≤ c.funded_zat
      → encode_op_return_payload (commitment_of crypto issuance) ≡ some payload
      → publish_demo_stamp crypto c issuance.destination_network issuance.destination
          (commitment_of crypto issuance)
          false
        ≡ publish_payload crypto
            (spend c 35_000)
            issuance.destination_network
            issuance.destination
            (some payload)
  unfolding publish_demo_stamp
  spend-published c payload funds e = ground (arith, e)

  -- A chain with funds of 35,000 zatoshis publishes the commitment of an issuance on its network, and
  -- after as many blocks as confirmations are asked for the publication is in the chain and accepted.
  pub publish_demo_stamp-published :
      (c : DemoZcashChain) (min : ℕ)
      → 35_000 ≤ c.funded_zat
      → (p : ZcashPublication) × (q : ZcashPublication) × ((publish_demo_stamp crypto c
            issuance.destination_network issuance.destination
            (commitment_of crypto issuance)
            false).0
          ≡ some p)
        × (get
              (tick_times min min
                (publish_demo_stamp crypto c issuance.destination_network issuance.destination
                  (commitment_of crypto issuance)
                  false).1).txs
              p.txid
            ≡ some q)
        × (validate_publication crypto issuance q min ≡ published)
  publish_demo_stamp-published c min funds =
      let (payload, e, _, f) =
        decode_op_return_payload-encode (commitment_of crypto issuance) (commitment_length) in
      let chain = spend c 35_000 in
      let p =
        publication_at chain issuance.destination_network
          (stamp_txid crypto chain issuance.destination payload)
          (notice_output issuance.destination ∷ data_output 1 payload ∷ []) in
      let done = spend-published c payload funds e in
      let (q, g, m) =
        tick_times-IsMined min 0 min (add_tx chain p) p.txid p p (get-put_self c.txs p.txid p)
          (record { network = refl; outputs = refl; best = refl; deep = omega arith })
          (omega arith) in
      (
        p,
        q,
        ap (λ o. o.0) done,
        ap (λ o. get (tick_times min min o.1).txs p.txid) done ∙ g,
        accepted q min payload m.network m.outputs m.best (omega (arith, m.deep)) e f,
      )
