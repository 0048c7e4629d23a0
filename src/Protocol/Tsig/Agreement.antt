-- ===== src/Protocol/Tsig/Agreement.antt =====
-- The proof of control and the authorization of a transfer take the same signatures.
use stamppad.Prelude.{
  ◌≡◌, refl, inl, inr, some, none, ◌||◌, Bool, Bool-cases, Option, ◌==◌, ltb, length,
}
use stamppad.Text.{Text}
use stamppad.Bytes.{Bytes, byte_at, from_hex}
use stamppad.Protocol.Types.{DestNetwork}
use stamppad.Protocol.Crypto.{Crypto}
use stamppad.Protocol.Address.{
  TransparentAddress, TransparentKind, p2pkh, p2sh, tex, validate_transparent_address,
}
use stamppad.Protocol.Tsig.{
  Recovered, TransparentProofResult, authorized_by, decode_base64, key_hash_from_address,
  key_matches, proof_at, proof_of, proved_by, recover_from_compact,
  verify_transparent_authorization, verify_transparent_message,
}

abbrev pub ok_of : Option TransparentProofResult → Option Bool
ok_of none = none
ok_of (some r) = some r.ok

module _ (crypto : Crypto) where
  ok_of-proof_of :
      (network : DestNetwork) (expected : Bytes) (r : Option (Option Recovered))
      → ok_of (proof_of crypto network expected r) ≡ key_matches crypto expected r
  ok_of-proof_of network expected none = refl
  ok_of-proof_of network expected (some none) = refl
  ok_of-proof_of network expected (some (some r)) = refl

  -- A header out of range recovers to no key.
  ok_of-proved_by :
      (message : Text) (network : DestNetwork) (expected : Option Bytes) (signature : Bytes)
      → ok_of (proved_by crypto message network expected (some signature))
        ≡ authorized_by crypto message expected (some signature)
  unfolding recover_from_compact
  ok_of-proved_by message network none signature = refl
  ok_of-proved_by message network (some expected) signature =
      elim (Bool-cases (length signature == 65)) [
        | inr f ↦ rw f refl
        | inl t ↦ elim (Bool-cases (ltb (byte_at signature 0) 27 || ltb 34 (byte_at signature 0))) [
          | inl o ↦ rw (t, o) refl
          | inr o ↦ rw (t, o) (ok_of-proof_of network expected _)
        ]
      ]

  ok_of-proof_at_kind :
      (address message b : Text) (signature : Bytes) (c : TransparentAddress) (k : TransparentKind)
      → c.kind ≡ k
      → decode_base64 b ≡ some signature
      → validate_transparent_address crypto address ≡ some c
      → ok_of (proof_at crypto address message b (some c))
        ≡ authorized_by crypto message (key_hash_from_address crypto address) (some signature)
  unfolding key_hash_from_address
  ok_of-proof_at_kind address message b signature c p2pkh k e v =
      rw (k, e) (ok_of-proved_by message c.network _ signature)
  ok_of-proof_at_kind address message b signature c p2sh k e v = rw (k, v, k) refl
  ok_of-proof_at_kind address message b signature c tex k e v = rw (k, v, k) refl

  ok_of-proof_at :
      (address message b : Text) (signature : Bytes) (check : Option TransparentAddress)
      → decode_base64 b ≡ some signature
      → validate_transparent_address crypto address ≡ check
      → ok_of (proof_at crypto address message b check)
        ≡ authorized_by crypto message (key_hash_from_address crypto address) (some signature)
  unfolding key_hash_from_address
  ok_of-proof_at address message b signature none e v = rw v refl
  ok_of-proof_at address message b signature (some c) e v =
      ok_of-proof_at_kind address message b signature c c.kind refl e v

  -- A signature that is given in base64 proves control of an address exactly when the same bytes,
  -- given in hex, authorize a transfer from it with the message as its preimage.
  pub verify_transparent_message-authorization :
      (address message signature_base64 signature_hex : Text) (signature : Bytes)
      → decode_base64 signature_base64 ≡ some signature
      → from_hex signature_hex ≡ some signature
      → ok_of (verify_transparent_message crypto address message signature_base64)
        ≡ verify_transparent_authorization crypto address message signature_hex
  unfolding verify_transparent_message verify_transparent_authorization
  verify_transparent_message-authorization address message b h signature e f =
      rw f (ok_of-proof_at address message b signature _ e refl)
