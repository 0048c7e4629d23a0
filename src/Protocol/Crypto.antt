-- ===== src/Protocol/Crypto.antt =====
-- The third-party functions that the protocol calls, and the encodings of the standard library.
-- `sha256` is node:crypto's and also stands for the SHA-256 of taddr.ts; `ed25519_verify` is
-- tweetnacl's and `bs58_decode` is bs58's, where `none` is an exception.
use stamppad.Prelude.{
  ℕ, ◌+◌, ◌-◌, ◌*◌, ◌/◌, ◌%◌, Bool, ◌&&◌, Option, [], ◌∷◌, ◌++◌, ltb, leb, ◌≡◌, if◌then◌else◌,
  length,
}
use stamppad.Text.{Text}
use stamppad.Bytes.{Bytes, IsBytes}

pub record Crypto : Type 0 where
  pub sha256 : Bytes → Bytes
  pub ed25519_verify : (message signature public_key : Bytes) → Option Bool
  pub bs58_decode : Text → Option Bytes

-- SHA-256 answers 32 bytes.
pub record IsHash (sha256 : Bytes → Bytes) : Type 0 where
  pub hash_length : (b : Bytes) → length (sha256 b) ≡ 32
  pub hash_bytes : (b : Bytes) → IsBytes (sha256 b)

abbrev high_surrogate : ℕ → Bool
high_surrogate c = leb 0xd800 c && ltb c 0xdc00

abbrev low_surrogate : ℕ → Bool
low_surrogate c = leb 0xdc00 c && ltb c 0xe000

-- One code unit that is no half of a pair; a lone surrogate becomes U+FFFD.
utf8_unit : ℕ → Bytes
utf8_unit c =
    if ltb c 0x80
    then c ∷ []
    else if ltb c 0x800
    then (0xc0 + c / 64) ∷ (0x80 + c % 64) ∷ []
    else if high_surrogate c
    then 0xef ∷ 0xbf ∷ 0xbd ∷ []
    else if low_surrogate c
    then 0xef ∷ 0xbf ∷ 0xbd ∷ []
    else (0xe0 + c / 4096) ∷ (0x80 + c / 64 % 64) ∷ (0x80 + c % 64) ∷ []

utf8_point : ℕ → Bytes
utf8_point p =
    (0xf0 + p / 262144) ∷ (0x80 + p / 4096 % 64) ∷ (0x80 + p / 64 % 64) ∷ (0x80 + p % 64) ∷ []

-- The UTF-8 bytes of a string, as `Buffer.from(s, "utf8")`, `TextEncoder` and `createHash` use.
unfoldable pub utf8 : Text → Bytes
unfolding utf8_unit utf8_point
utf8 [] = []
utf8 (c ∷ []) = utf8_unit c
utf8 (c ∷ d ∷ t) =
    let pair = utf8_point (0x10000 + (c - 0xd800) * 1024 + (d - 0xdc00)) ++ utf8 t in
    let single = utf8_unit c ++ utf8 (d ∷ t) in
    if high_surrogate c && low_surrogate d then pair else single
