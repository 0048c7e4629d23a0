-- ===== src/Zcash/Fees.antt =====
-- src/lib/zcash/fees.ts: ZIP-317 fees, with `compactSize` of src/lib/zcash/transaction.ts.
use stamppad.Prelude.{
  ℕ, ◌+◌, ◌*◌, ◌/◌, ◌≤◌, ◌≡◌, refl, List, [], ◌∷◌, ltb, leb, if◌then◌else◌, length, arith,
}
use stamppad.Bytes.{Bytes, le_bytes}

-- For the lengths that occur, below 2 ^ 53.
unfoldable pub compact_size : ℕ → Bytes
compact_size n =
    if ltb n 0xfd
    then n ∷ []
    else if leb n 0xffff
    then 0xfd ∷ le_bytes 2 n
    else if leb n 0xffff_ffff
    then 0xfe ∷ le_bytes 4 n
    else 0xff ∷ le_bytes 8 n

abbrev pub marginal_fee : ℕ
marginal_fee = 5_000

abbrev pub grace_actions : ℕ
grace_actions = 2

abbrev pub p2pkh_standard_input_size : ℕ
p2pkh_standard_input_size = 150

abbrev pub p2pkh_standard_output_size : ℕ
p2pkh_standard_output_size = 34

abbrev pub dust_threshold_zat : ℕ
dust_threshold_zat = 546

-- Math.ceil(a / 150) and Math.ceil(a / 34): the quotients of the sizes that occur are exact enough.
abbrev pub input_actions : ℕ → ℕ
input_actions a = (a + 149) / 150

abbrev pub output_actions : ℕ → ℕ
output_actions a = (a + 33) / 34

unfoldable pub input_size : ℕ → ℕ
input_size script_sig = 32 + 4 + length (compact_size script_sig) + script_sig + 4

unfoldable pub output_size : ℕ → ℕ
output_size script_pub_key = 8 + length (compact_size script_pub_key) + script_pub_key

pub record FeeShape : Type 0 where
  pub input_script_sig_sizes : List ℕ
  pub output_script_pub_key_sizes : List ℕ

unfoldable pub total_input : List ℕ → ℕ
total_input [] = 0
total_input (s ∷ ss) = input_size s + total_input ss

unfoldable pub total_output : List ℕ → ℕ
total_output [] = 0
total_output (s ∷ ss) = output_size s + total_output ss

unfoldable pub logical_actions : FeeShape → ℕ
logical_actions shape =
    let i = input_actions (total_input shape.input_script_sig_sizes) in
    let o = output_actions (total_output shape.output_script_pub_key_sizes) in
    if ltb i o then o else i

unfoldable pub conventional_fee : FeeShape → ℕ
conventional_fee shape =
    let actions = logical_actions shape in
    marginal_fee * (if ltb grace_actions actions then actions else grace_actions)

-- Both totals fit in that many actions.
abbrev pub Fits : FeeShape → ℕ → Type 0
Fits shape actions =
    (2 ≤ actions)
    × (total_input shape.input_script_sig_sizes ≤ 150 * actions)
    × (total_output shape.output_script_pub_key_sizes ≤ 34 * actions)

-- The fee is 5,000 zatoshis for each of the fewest actions, and at least two, whose 150 bytes cover
-- the inputs and whose 34 bytes cover the outputs.
pub conventional_fee-Fits :
    (shape : FeeShape)
    → (n : ℕ) × (conventional_fee shape ≡ 5_000 * n)
      × Fits shape n
      × ((k : ℕ) → Fits shape k → n ≤ k)
unfolding conventional_fee logical_actions
conventional_fee-Fits shape =
    let i = total_input shape.input_script_sig_sizes in
    let o = total_output shape.output_script_pub_key_sizes in
    (
      if ltb 2 (logical_actions shape) then logical_actions shape else 2,
      refl,
      ground arith,
      λ k (a, b, c). ground arith,
    )
