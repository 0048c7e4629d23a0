-- ===== src/Protocol/Encoding/Intents.antt =====
-- Intents and OP_RETURN payloads, encoded and decoded.
use stamppad.Prelude.{
  All, ◌≤◌, ◌^◌, ◌%◌, ℕ, ◌+◌, ◌<◌, ◌≡◌, refl, ap, ap₂, ◌∙◌, some, [], ◌∷◌, ◌++◌, arith, length,
  take, drop, length-append, take-append, drop-append, length-map,
}
use stamppad.Text.{Text, text_eq}
use stamppad.Bytes.Hex.{from_hex-to_hex}
use stamppad.Bytes.Words.{length-le_bytes, le_value-le_bytes}
use stamppad.Bytes.{IsBytes, to_hex, subarray, Bytes, le_bytes, le_value}
use stamppad.Bytes.Slices.{drop-append_more, take-all}
use stamppad.Protocol.Types.{stmp_magic}
use stamppad.Protocol.Types.{
  DestNetwork, IntentV0, dest_network_code, dest_network_from_code, zcash_demo, zcash_test,
  zcash_main,
}
use stamppad.Protocol.Base58.{encode_base58, decode_base58_pubkey}
use stamppad.Protocol.Encoding.{
  write_u64_le, intent_bytes, encode_intent, decode_intent, intent_fields, ascii_bytes, ascii_text,
  encode_op_return_payload, decode_op_return_payload,
}

-- A 32-byte commitment is read back from its 38-byte payload.
pub decode_op_return_payload-encode :
    (c : Bytes)
    → length c ≡ 32
    → (b : Bytes) × (encode_op_return_payload c ≡ some b)
      × (length b ≡ 38)
      × (decode_op_return_payload b ≡ some c)
unfolding encode_op_return_payload decode_op_return_payload le_bytes le_value text_eq
decode_op_return_payload-encode c h =
    (stmp_magic ++ (0 ∷ 0 ∷ c), rw h refl, omega (arith, h), rw h (ap some (take-all 32 c h)))

ascii_text-ascii_bytes : (t : Text) → All (λ c. c < 128) t → ascii_text (ascii_bytes t) ≡ t
ascii_text-ascii_bytes [] h = refl
ascii_text-ascii_bytes (c ∷ t) (hc, h) =
    ap₂ (λ x y. x ∷ y) (omega arith) (ascii_text-ascii_bytes t h)

-- The parts of an intent, each where the decoder looks for it.
module _ (dest amount mint nonce : Bytes) (n : ℕ) (hd : length dest ≡ n) (ha : length amount ≡ 8)
    (hm : length mint ≡ 32) (hn : length nonce ≡ 16) where
  abbrev tail_parts : Bytes
  tail_parts = dest ++ (amount ++ (mint ++ nonce))

  length-tail_parts : length tail_parts ≡ n + 56
  length-tail_parts = omega (
    arith,
    length-append dest (amount ++ (mint ++ nonce)),
    length-append amount (mint ++ nonce),
    length-append mint nonce,
  )

  dest-tail_parts : take n tail_parts ≡ dest
  dest-tail_parts = take-append n dest (amount ++ (mint ++ nonce)) hd

  amount-tail_parts : take 8 (drop n tail_parts) ≡ amount
  amount-tail_parts =
      ap (take 8) (drop-append n dest (amount ++ (mint ++ nonce)) hd)
      ∙ take-append 8 amount (mint ++ nonce) ha

  mint-tail_parts : take 32 (drop (n + 8) tail_parts) ≡ mint
  mint-tail_parts =
      ap (take 32) (
        drop-append_more n 8 dest (amount ++ (mint ++ nonce)) hd
        ∙ drop-append 8 amount (mint ++ nonce) ha)
      ∙ take-append 32 mint nonce hm

  nonce-tail_parts : take 16 (drop (n + 40) tail_parts) ≡ nonce
  nonce-tail_parts =
      ap (take 16) (
        drop-append_more n 40 dest (amount ++ (mint ++ nonce)) hd
        ∙ drop-append_more 8 32 amount (mint ++ nonce) ha
        ∙ drop-append 32 mint nonce hm)
      ∙ take-all 16 nonce hn

network_code :
    (network : DestNetwork) → dest_network_from_code (dest_network_code network) ≡ some network
network_code zcash_demo = refl
network_code zcash_test = refl
network_code zcash_main = refl

-- A slice behind the eight bytes of the header.
slice-header :
    (header tail : Bytes) (from to start width : ℕ)
    → length header ≡ 8
    → from ≡ 8 + start
    → to ≡ from + width
    → subarray from to (header ++ tail) ≡ take width (drop start tail)
slice-header header tail from to start width h f t =
    ap₂ take (omega arith)
      (ap (λ k. drop k (header ++ tail)) f ∙ drop-append_more 8 start header tail h)

abbrev parts : DestNetwork → ℕ → Bytes → Text → IntentV0
parts network n tail locator = record {
  destination_network = network;
  destination = ascii_text (take n tail);
  amount_base = le_value (take 8 (drop n tail));
  mint = encode_base58 (take 32 (drop (n + 8) tail));
  nonce = to_hex (take 16 (drop (n + 40) tail));
  locator = locator;
}

intent_fields-parts :
    (header tail : Bytes) (network : DestNetwork) (n : ℕ) (locator : Text)
    → length header ≡ 8
    → 1 ≤ n
    → n ≤ 90
    → length tail ≡ n + 56
    → intent_fields (header ++ tail) locator network n ≡ some (parts network n tail locator)
intent_fields-parts header tail network n locator h a b e =
    let size = length-append header tail in
    rw
      (
        slice-header header tail 8 (8 + n) 0 n h refl refl,
        slice-header header tail (8 + n) (16 + n) n 8 h refl (omega arith),
        slice-header header tail (16 + n) (48 + n) (n + 8) 32 h (omega arith) (omega arith),
        slice-header header tail (48 + n) (64 + n) (n + 40) 16 h (omega arith) (omega arith),
      )
      (ground arith)

decode_intent-parts :
    (network : DestNetwork) (n : ℕ) (tail : Bytes) (locator : Text)
    → 1 ≤ n
    → n ≤ 90
    → length tail ≡ n + 56
    → decode_intent (stmp_magic ++ (0 ∷ 0 ∷ dest_network_code network ∷ n ∷ tail)) locator
      ≡ some (parts network n tail locator)
unfolding decode_intent le_value text_eq
decode_intent-parts network n tail locator a b h =
    let header = stmp_magic ++ (0 ∷ 0 ∷ dest_network_code network ∷ n ∷ []) in
    rw (network_code network)
      (ground (arith, intent_fields-parts header tail network n locator refl a b h))

-- An intent as its parts: `mb` and `nb` are the bytes of its mint and of its nonce.
abbrev pub intent_from : DestNetwork → Text → ℕ → Bytes → Bytes → Text → IntentV0
intent_from network dest amount mb nb locator = record {
  destination_network = network;
  destination = dest;
  amount_base = amount;
  mint = encode_base58 mb;
  nonce = to_hex nb;
  locator = locator;
}

module _ (network : DestNetwork) (dest : Text) (amount : ℕ) (mb nb : Bytes) (locator : Text)
    (short : 1 ≤ length dest) (long : length dest ≤ 90) (ascii : All (λ c. c < 128) dest)
    (fits : amount < 256 ^ 8) (key : decode_base58_pubkey (encode_base58 mb) ≡ some mb)
    (hm : length mb ≡ 32) (nonce : IsBytes nb) (hn : length nb ≡ 16) where
  abbrev whole : Bytes
  whole = intent_bytes (intent_from network dest amount mb nb locator) (le_bytes 8 amount) mb nb

  encode_intent-whole : encode_intent (intent_from network dest amount mb nb locator) ≡ some whole
  unfolding encode_intent write_u64_le
  encode_intent-whole = rw (from_hex-to_hex nb nonce, key) (ground (arith, hn))

  decode_intent-whole :
      decode_intent whole locator ≡ some (intent_from network dest amount mb nb locator)
  unfolding le_bytes
  decode_intent-whole =
      let p = ascii_bytes dest in
      let q = le_bytes 8 amount in
      let l = length-map (λ c. c % 256) dest in
      let m = length-le_bytes 8 amount in
      decode_intent-parts network (length dest) (tail_parts p q mb nb (length dest) l m hm hn)
        locator short long (length-tail_parts p q mb nb (length dest) l m hm hn)
      ∙ ap some (λ i. record {
        destination_network = network;
        destination =
            (ap ascii_text (dest-tail_parts p q mb nb (length dest) l m hm hn)
                ∙ ascii_text-ascii_bytes dest ascii)
              i;
        amount_base =
            (ap le_value (amount-tail_parts p q mb nb (length dest) l m hm hn)
                ∙ le_value-le_bytes 8 amount fits)
              i;
        mint = encode_base58 (mint-tail_parts p q mb nb (length dest) l m hm hn i);
        nonce = to_hex (nonce-tail_parts p q mb nb (length dest) l m hm hn i);
        locator = locator;
      })

  -- An intent with an ASCII destination of 1 to 90 characters, an amount of 64 bits, a 16-byte nonce
  -- and a mint whose base58 text decodes to its 32 bytes is encoded, and decoding the bytes gives the
  -- intent back.
  pub decode_intent-encode_intent :
      (b : Bytes) × (encode_intent (intent_from network dest amount mb nb locator) ≡ some b)
      × (decode_intent b locator ≡ some (intent_from network dest amount mb nb locator))
  decode_intent-encode_intent = (whole, encode_intent-whole, decode_intent-whole)
