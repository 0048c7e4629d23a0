-- ===== src/Zcash/Demo/Spending.antt =====
-- What publishing costs.
use stamppad.Prelude.{
  ℕ, ◌+◌, ◌≡◌, refl, inl, inr, Option, none, some, List, [], ◌∷◌, ◌++◌, ◌⊎◌, arith, length, ltb,
  Bool-cases,
}
use stamppad.Prelude.Dict.{get, get-put_self}
use stamppad.Text.{Text, text_key}
use stamppad.Bytes.{Bytes}
use stamppad.Protocol.Types.{DestNetwork, ZcashOutput, ZcashPublication}
use stamppad.Protocol.Crypto.{Crypto}
use stamppad.Zcash.Demo.{
  DemoZcashChain, publish_demo_record, data_output, notice_zat, notice_outputs,
}

-- The zatoshis of a list of outputs.
abbrev pub total_zat : List ZcashOutput → ℕ
total_zat [] = 0
total_zat (o ∷ os) = o.value_zat + total_zat os

abbrev pub total_of : Option ZcashPublication → ℕ
total_of none = 0
total_of (some p) = total_zat p.outputs

total_zat-notice_outputs :
    (a : Option Text) (n : ℕ) (b : Bytes)
    → total_zat (notice_outputs a ++ data_output n b ∷ []) ≡ notice_zat a
total_zat-notice_outputs none n b = refl
total_zat-notice_outputs (some []) n b = refl
total_zat-notice_outputs (some (c ∷ t)) n b = refl

module _ (crypto : Crypto) where
  -- Publishing a record either throws and changes nothing, or takes the fee of 25,000 zatoshis and
  -- the value of the outputs from the funds, for a publication that is then in the chain.
  pub publish_demo_record-funded_zat :
      (c : DemoZcashChain) (n : DestNetwork) (payload : Bytes) (a : Option Text)
      → (publish_demo_record crypto c n payload a ≡ (none, c))
        ⊎ ((p : ZcashPublication) × ((publish_demo_record crypto c n payload a).0 ≡ some p)
            × ((publish_demo_record crypto c n payload a).1.funded_zat
                  + 25_000
                  + total_zat p.outputs
                ≡ c.funded_zat)
            × (get (publish_demo_record crypto c n payload a).1.txs p.txid ≡ some p))
  unfolding publish_demo_record
  publish_demo_record-funded_zat c n payload a =
      elim (Bool-cases (ltb c.funded_zat (25_000 + notice_zat a))) [
        | inl t ↦ inl (rw t refl)
        | inr f ↦ inr (
            rw f (
              _,
              refl,
              ground (arith, total_zat-notice_outputs a (length (notice_outputs a)) payload),
              get-put_self c.txs _ _,
            ))
      ]
