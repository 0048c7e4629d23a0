-- ===== src/Protocol/Secp256k1/Tests.antt =====
-- The arithmetic of the curve on small numbers and on its generator.
use stamppad.Prelude.{ℕ, ◌*◌, ◌%◌, ◌^◌, ◌≡◌, refl, some, true, false, arith}
use stamppad.Protocol.Secp256k1.{
  Affine, affine_on_curve, bytes_to_big_int, decode_point, encode_point, mod_inv, mod_pow,
  mod_pow_loop, lift_x, big_int_bytes,
}
use stamppad.Protocol.Secp256k1.Powers.{mod_pow-pow}
use stamppad.Protocol.Secp256k1.Inverses.{LoopEnds, mod_inv-inverse}
use stamppad.Protocol.Secp256k1.Points.{decode_point-on_curve, decode_point-encode_point}

mod_pow-pow_example : mod_pow 3 20 1000 ≡ 3 ^ 20 % 1000
mod_pow-pow_example = mod_pow-pow 3 20 1000 (omega arith)

mod_inv-inverse_example :
    (v : ℕ) × (mod_inv 3 7 ≡ some v) × LoopEnds 7 (3 % 7) 7 1 0 1 v × (v * 3 % 7 ≡ 1)
mod_inv-inverse_example = mod_inv-inverse 3 7 5 (omega arith) refl

abbrev g : Affine
g = record {
  x = 0x79be667ef9dcbbac55a06295ce870b07029bfcdb2dce28d959f2815b16f81798;
  y = 0x483ada7726a3c4655da4fbfc0e1108a8fd17b448a68554199c47d08ffb10d4b8;
}

generator_decoded : decode_point (encode_point g true) ≡ some g
unfolding decode_point encode_point lift_x mod_pow mod_pow_loop bytes_to_big_int big_int_bytes
generator_decoded = refl

decode_point-on_curve_example : affine_on_curve g ≡ true
decode_point-on_curve_example = decode_point-on_curve (encode_point g true) g generator_decoded

decode_point-encode_point_example : decode_point (encode_point g false) ≡ some g
decode_point-encode_point_example = decode_point-encode_point g (omega arith) (omega arith) refl
