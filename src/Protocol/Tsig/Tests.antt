-- ===== src/Protocol/Tsig/Tests.antt =====
-- A signature of a header byte and sixty-four ones, in base64 and in hex.
use stamppad.Prelude.{◌≡◌, refl, some, none, [], ◌∷◌, ◌++◌, replicate, zero, suc, ℕ}
use stamppad.Text.{Text, codes, text_eq}
use stamppad.Bytes.{to_hex, from_hex}
use stamppad.Protocol.Address.{is_space}
use stamppad.Protocol.Crypto.{Crypto}
use stamppad.Protocol.Tsig.{
  base64_values, decode_base64, sextets, trim, verify_transparent_authorization,
  verify_transparent_message,
}
use stamppad.Protocol.Tsig.Agreement.{ok_of, verify_transparent_message-authorization}

abbrev some_crypto : Crypto
some_crypto = record {
  sha256 = λ b. replicate 32 7;
  ed25519_verify = λ m s k. none;
  bs58_decode = λ t. some (0x1c ∷ 0xb8 ∷ (replicate 20 7 ++ replicate 4 7));
}

abbrev repeated : ℕ → Text
repeated zero = []
repeated (suc n) = codes "AQEB" ++ repeated n

abbrev in_base64 : Text
in_base64 = codes "HwEB" ++ (repeated 20 ++ codes "AQE=")

verify_transparent_message-authorization_example :
    ok_of (verify_transparent_message some_crypto (codes "t1a") (codes "hello") in_base64)
    ≡ verify_transparent_authorization some_crypto
        (codes "t1a")
        (codes "hello")
        (to_hex (0x1f ∷ replicate 64 1))
unfolding decode_base64 base64_values trim sextets is_space text_eq to_hex from_hex
verify_transparent_message-authorization_example =
    verify_transparent_message-authorization some_crypto (codes "t1a") (codes "hello") in_base64
      (to_hex (0x1f ∷ replicate 64 1)) (0x1f ∷ replicate 64 1) refl refl
