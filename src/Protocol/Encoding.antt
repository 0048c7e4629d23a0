-- ===== src/Protocol/Encoding.antt =====
-- src/lib/protocol/encoding.ts: intents, OP_RETURN payloads and instruction locators. An encoder's
-- `none` is an exception, a decoder's is `null`.
pub mod Intents
use stamppad.Prelude.{
  ℕ, zero, suc, ◌+◌, ◌-◌, ◌*◌, ◌%◌, Bool, true, false, not, ◌&&◌, ◌||◌, Option, none, some, List,
  [], ◌∷◌, ◌++◌, map, ltb, leb, ◌==◌, if◌then◌else◌, length, take, drop, Ordering, ◌≡◌, refl,
}
use Prim.Native.Nat.{compare}
use stamppad.Text.{Text, codes, text_eq}
use stamppad.Bytes.{Bytes, subarray, byte_at, le_bytes, le_value, to_hex, from_hex}
use stamppad.Protocol.Types.{
  DestNetwork, dest_network_code, dest_network_from_code, IntentV0, IssuanceFields, stmp_magic,
  op_return_payload_len,
}
use stamppad.Protocol.Base58.{encode_base58, decode_base58_pubkey}
use stamppad.Protocol.Crypto.{Crypto, utf8}
use stamppad.Protocol.Preimage.{canonical_preimage}

-- writeU64LE: `none` is "u64 out of range"
unfoldable pub write_u64_le : ℕ → Option Bytes
write_u64_le v = if ltb 0xffff_ffff_ffff_ffff v then none else some (le_bytes 8 v)

-- Buffer.from(text, "ascii") and toString("ascii")
abbrev pub ascii_bytes : Text → Bytes
ascii_bytes t = map (λ c. c % 256) t

abbrev pub ascii_text : Bytes → Text
ascii_text b = map (λ c. c % 128) b

-- The buffer: its writes cover it from offset 0 to its end, in this order.
abbrev pub intent_bytes : IntentV0 → Bytes → Bytes → Bytes → Bytes
intent_bytes i amount mint nonce =
    stmp_magic
    ++ (le_bytes 2 0
        ++ (dest_network_code i.destination_network
            ∷ length i.destination
            ∷ (ascii_bytes i.destination ++ (amount ++ (mint ++ nonce)))))

abbrev pub intent_amount : IntentV0 → Bytes → Bytes → Option Bytes → Option Bytes
intent_amount i mint nonce none = none
intent_amount i mint nonce (some amount) = some (intent_bytes i amount mint nonce)

abbrev pub intent_mint : IntentV0 → Bytes → Option Bytes → Option Bytes
intent_mint i nonce none = none
intent_mint i nonce (some mint) = intent_amount i mint nonce (write_u64_le i.amount_base)

abbrev pub intent_nonce : IntentV0 → Option Bytes → Option Bytes
intent_nonce i none = none
intent_nonce i (some nonce) =
    if not (length nonce == 16) then none else intent_mint i nonce (decode_base58_pubkey i.mint)

unfoldable pub encode_intent : IntentV0 → Option Bytes
unfolding write_u64_le
encode_intent i =
    if ltb (length i.destination) 1 || ltb 90 (length i.destination)
    then none
    else intent_nonce i (from_hex i.nonce)

abbrev pub intent_fields : Bytes → Text → DestNetwork → ℕ → Option IntentV0
intent_fields b locator network n =
    if ltb n 1 || ltb 90 n
    then none
    else if not (length b == 8 + n + 8 + 32 + 16)
    then none
    else some (record {
      destination_network = network;
      destination = ascii_text (subarray 8 (8 + n) b);
      amount_base = le_value (subarray (8 + n) (16 + n) b);
      mint = encode_base58 (subarray (16 + n) (48 + n) b);
      nonce = to_hex (subarray (48 + n) (64 + n) b);
      locator = locator;
    })

abbrev pub intent_network : Bytes → Text → Option DestNetwork → Option IntentV0
intent_network b locator none = none
intent_network b locator (some network) = intent_fields b locator network (byte_at b 7)

unfoldable pub decode_intent : Bytes → Text → Option IntentV0
decode_intent b locator =
    if ltb (length b) 56
    then none
    else if not (text_eq (subarray 0 4 b) stmp_magic)
    then none
    else if not (le_value (subarray 4 6 b) == 0)
    then none
    else intent_network b locator (dest_network_from_code (byte_at b 6))

unfoldable pub encode_op_return_payload : Bytes → Option Bytes
encode_op_return_payload commitment =
    if not (length commitment == 32)
    then none
    else some (stmp_magic ++ (le_bytes 2 0 ++ commitment))

unfoldable pub decode_op_return_payload : Bytes → Option Bytes
decode_op_return_payload b =
    if not (length b == op_return_payload_len)
    then none
    else if not (text_eq (subarray 0 4 b) stmp_magic)
    then none
    else if not (le_value (subarray 4 6 b) == 0)
    then none
    else some (subarray 6 38 b)

unfoldable pub commitment_of : Crypto → IssuanceFields → Bytes
commitment_of crypto f = crypto.sha256 (utf8 (canonical_preimage f))

-- `\d+` at the start of a text: the number, how many digits, and what follows.
abbrev pub is_digit : ℕ → Bool
is_digit c = leb b'0' c && leb c b'9'

unfoldable pub read_number : ℕ → ℕ → Text → ℕ × ℕ × Text
read_number n count [] = (n, count, [])
read_number n count (c ∷ t) =
    let more = read_number (n * 10 + (c - b'0')) (count + 1) t in
    if is_digit c then more else (n, count, c ∷ t)

abbrev pub outer_prefix : Text
outer_prefix = codes "outer:"

abbrev pub inner_prefix : Text
inner_prefix = codes "/inner:"

abbrev pub locator_inner : ℕ → Text → Option (ℕ × Option ℕ)
locator_inner outer [] = some (outer, none)
locator_inner outer (c ∷ t) =
    let (inner, count, rest) = read_number 0 0 (drop 7 (c ∷ t)) in
    if text_eq (take 7 (c ∷ t)) inner_prefix && leb 1 count && text_eq rest []
    then some (outer, some inner)
    else none

-- `none`: "invalid locator". `Number` is exact for the indices that occur.
unfoldable pub parse_locator : Text → Option (ℕ × Option ℕ)
parse_locator t =
    let (outer, count, rest) = read_number 0 0 (drop 6 t) in
    let found = locator_inner outer rest in
    if text_eq (take 6 t) outer_prefix && leb 1 count then found else none

abbrev pub compare_inner : Option ℕ → Option ℕ → Ordering
compare_inner none none = Ordering.eq
compare_inner none (some b) = Ordering.lt
compare_inner (some a) none = Ordering.gt
compare_inner (some a) (some b) = compare a b

abbrev pub compare_parsed : Option (ℕ × Option ℕ) → Option (ℕ × Option ℕ) → Option Ordering
compare_parsed none b = none
compare_parsed (some a) none = none
compare_parsed (some (oa, ia)) (some (ob, ib)) =
    some (if not (oa == ob) then compare oa ob else compare_inner ia ib)

-- The sign of `compareLocators`; `none` is an exception.
unfoldable pub compare_locators : Text → Text → Option Ordering
compare_locators a b = compare_parsed (parse_locator a) (parse_locator b)

locators_in_order : compare_locators (codes "outer:2/inner:0") (codes "outer:10") ≡ some Ordering.lt
unfolding compare_locators parse_locator read_number text_eq
locators_in_order = refl
