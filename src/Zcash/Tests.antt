-- ===== src/Zcash/Tests.antt =====
-- Scripts and fees at concrete inputs: the shapes of the reference stamp, whose reveal paid 20,000.
use stamppad.Prelude.{ℕ, ◌*◌, ◌≤◌, ◌≡◌, refl, some, [], ◌∷◌, ◌++◌, replicate, arith}
use stamppad.Bytes.{Bytes, le_bytes}
use stamppad.Zcash.Fees.{
  FeeShape, Fits, conventional_fee, logical_actions, total_input, total_output, input_size,
  output_size, compact_size, conventional_fee-Fits,
}
use stamppad.Zcash.Script.Forms.{form_of_script-p2pkh_script}
use stamppad.Zcash.Script.{
  p2pkh_script, p2sh_script, form_of_script, pays_key_hash, pays_script_hash, push, push_data,
  parse_script, inscription_redeem_script, decode_redeem_script,
}
use stamppad.Zcash.Script.Parsing.{parse_script-push_data, decode_redeem_script-inscription}

abbrev reveal_shape : FeeShape
reveal_shape = record { input_script_sig_sizes = 429 ∷ []; output_script_pub_key_sizes = 25 ∷ [] }

reveal_fee : conventional_fee reveal_shape ≡ 20_000
unfolding conventional_fee logical_actions total_input total_output input_size output_size
    compact_size le_bytes
reveal_fee = refl

conventional_fee-Fits_example :
    (n : ℕ) × (conventional_fee reveal_shape ≡ 5_000 * n)
    × Fits reveal_shape n
    × ((k : ℕ) → Fits reveal_shape k → n ≤ k)
conventional_fee-Fits_example = conventional_fee-Fits reveal_shape

push-eighty : push_data (replicate 80 3) ≡ some (0x4c ∷ 80 ∷ replicate 80 3)
unfolding push_data
push-eighty = refl

parse_script-push_data_example :
    parse_script ((0x4c ∷ 80 ∷ replicate 80 3) ++ (0x51 ∷ []))
    ≡ push (replicate 80 3) ∷ parse_script (0x51 ∷ [])
parse_script-push_data_example =
    parse_script-push_data (replicate 80 3) (0x4c ∷ 80 ∷ replicate 80 3) (0x51 ∷ []) (omega arith)
      push-eighty

decode_redeem_script-inscription_example :
    (s : Bytes) × (inscription_redeem_script (replicate 33 2) (replicate 32 7) ≡ some s)
    × (decode_redeem_script s
        ≡ some (record { public_key = replicate 33 2; commitment = replicate 32 7; drops = 8 }))
decode_redeem_script-inscription_example =
    decode_redeem_script-inscription (replicate 33 2) (replicate 32 7) refl refl

form_of_script-p2pkh_script_example :
    ((s : Bytes) × (p2pkh_script (replicate 20 9) ≡ some s)
      × (form_of_script s ≡ some (pays_key_hash (replicate 20 9))))
    × ((s : Bytes) × (p2sh_script (replicate 20 9) ≡ some s)
        × (form_of_script s ≡ some (pays_script_hash (replicate 20 9))))
form_of_script-p2pkh_script_example = form_of_script-p2pkh_script (replicate 20 9) refl
