-- ===== src/Protocol/Transfer/Records.antt =====
-- Ownership records and their 74 bytes: each is read back from the other.
use stamppad.Prelude.{
  ℕ, ◌^◌, ◌<◌, ◌≡◌, refl, sym, ap, ◌∙◌, subst, inl, inr, false, Option, none, some, [], ◌∷◌, ◌++◌,
  arith, length, take, drop, take-append, drop-append, length-append, length-drop, ◌==◌, ==_iff,
  ltb, Bool-cases,
}
use stamppad.Text.{text_eq, text_eq_iff}
use stamppad.Bytes.{Bytes, IsBytes, subarray, le_bytes, le_value, to_hex}
use stamppad.Bytes.Words.{le_value-le_bytes, le_bytes-le_value_at, le_value-lt, length-le_bytes}
use stamppad.Bytes.Hex.{from_hex-to_hex}
use stamppad.Bytes.Slices.{
  drop-append_more, take-all, length-subarray, subarray-IsBytes, subarray-drop,
}
use stamppad.Protocol.Transfer.{
  RecordKind, transfer, offer, OnChainRecord, kind_magic, record_kind, decode_rest, encode_record,
  decode_record, buffer_eq,
}

-- The record of two hashes.
abbrev pub record_of : RecordKind → Bytes → ℕ → Bytes → OnChainRecord
record_of kind c n a = record {
  kind = kind;
  stamp_commitment_hex = to_hex c;
  sequence = n;
  artifact_hash_hex = to_hex a;
}

abbrev payload : RecordKind → Bytes → ℕ → Bytes → Bytes
payload kind c n a = kind_magic kind ++ (1 ∷ 0 ∷ (c ++ (le_bytes 4 n ++ a)))

record_kind-magic : (kind : RecordKind) → record_kind (kind_magic kind) ≡ some kind
unfolding buffer_eq text_eq
record_kind-magic transfer = refl
record_kind-magic offer = refl

module _ (kind : RecordKind) (c : Bytes) (n : ℕ) (a : Bytes) (hc : length c ≡ 32)
    (ha : length a ≡ 32) where
  abbrev body : Bytes
  body = c ++ (le_bytes 4 n ++ a)

  length-body : length body ≡ 68
  length-body = omega (
    arith,
    length-append c (le_bytes 4 n ++ a),
    length-append (le_bytes 4 n) a,
    length-le_bytes 4 n,
  )

  length-payload : (k : RecordKind) → length (payload k c n a) ≡ 74
  length-payload transfer = omega (arith, length-body)
  length-payload offer = omega (arith, length-body)

  commitment-body : take 32 body ≡ c
  commitment-body = take-append 32 c (le_bytes 4 n ++ a) hc

  sequence-body : take 4 (drop 32 body) ≡ le_bytes 4 n
  sequence-body =
      ap (take 4) (drop-append 32 c (le_bytes 4 n ++ a) hc)
      ∙ take-append 4 (le_bytes 4 n) a (length-le_bytes 4 n)

  artifact-body : take 32 (drop 36 body) ≡ a
  artifact-body =
      ap (take 32) (
        drop-append_more 32 4 c (le_bytes 4 n ++ a) hc
        ∙ drop-append 4 (le_bytes 4 n) a (length-le_bytes 4 n))
      ∙ take-all 32 a ha

  fields-body :
      n < 2 ^ 32
      → record_of kind (take 32 body) (le_value (take 4 (drop 32 body))) (take 32 (drop 36 body))
        ≡ record_of kind c n a
  fields-body h = rw (commitment-body, sequence-body, artifact-body, le_value-le_bytes 4 n h)

decode_record-payload :
    (kind : RecordKind) (c : Bytes) (n : ℕ) (a : Bytes)
    → length c ≡ 32
    → length a ≡ 32
    → n < 2 ^ 32
    → decode_record (payload kind c n a) ≡ some (record_of kind c n a)
unfolding decode_record le_value
decode_record-payload transfer c n a hc ha h =
    rw (length-payload transfer c n a hc ha transfer, record_kind-magic transfer)
      (ap some (fields-body transfer c n a hc ha h))
decode_record-payload offer c n a hc ha h =
    rw (length-payload offer c n a hc ha offer, record_kind-magic offer)
      (ap some (fields-body offer c n a hc ha h))

fits : (n : ℕ) → n < 2 ^ 32 → ltb 0xffff_ffff n ≡ false
fits n h = ground arith

encode_record-record_of :
    (kind : RecordKind) (c : Bytes) (n : ℕ) (a : Bytes)
    → IsBytes c
    → IsBytes a
    → length c ≡ 32
    → length a ≡ 32
    → n < 2 ^ 32
    → encode_record (record_of kind c n a) ≡ some (payload kind c n a)
unfolding encode_record le_bytes
encode_record-record_of kind c n a bc ba hc ha h =
    rw (from_hex-to_hex c bc, from_hex-to_hex a ba, hc, ha) (rw (fits n h) refl)

-- A record of two 32-byte hashes and a 32-bit sequence is encoded in 74 bytes, within the 80 that an
-- OP_RETURN output may carry, and decoding them gives the record back.
pub decode_record-encode_record :
    (kind : RecordKind) (c : Bytes) (n : ℕ) (a : Bytes)
    → IsBytes c
    → IsBytes a
    → length c ≡ 32
    → length a ≡ 32
    → n < 2 ^ 32
    → (b : Bytes) × (encode_record (record_of kind c n a) ≡ some b)
      × (length b ≡ 74)
      × (decode_record b ≡ some (record_of kind c n a))
decode_record-encode_record kind c n a bc ba hc ha h = (
  payload kind c n a,
  encode_record-record_of kind c n a bc ba hc ha h,
  length-payload kind c n a hc ha kind,
  decode_record-payload kind c n a hc ha h,
)

-- The other way: what `decode_record` has tested.
record_kind-eq-some : (m : Bytes) (k : RecordKind) → record_kind m ≡ some k → m ≡ kind_magic k
unfolding buffer_eq
record_kind-eq-some m transfer h =
    ground (arith, text_eq_iff m (kind_magic transfer), text_eq_iff m (kind_magic offer))
record_kind-eq-some m offer h =
    ground (arith, text_eq_iff m (kind_magic transfer), text_eq_iff m (kind_magic offer))

module _ (b : Bytes) (r : OnChainRecord) where
  abbrev Parts : Type 0
  Parts =
      (subarray 0 4 b ≡ kind_magic r.kind)
      × (le_value (subarray 4 6 b) ≡ 1)
      × (r ≡ record_of r.kind (subarray 6 38 b) (le_value (subarray 38 42 b)) (subarray 42 74 b))

  decode_rest-parts :
      (found : Option RecordKind)
      → record_kind (subarray 0 4 b) ≡ found
      → decode_rest b found ≡ some r
      → Parts
  decode_rest-parts none e h = absurd (cc)
  decode_rest-parts (some k) e h = elim (Bool-cases (le_value (subarray 4 6 b) == 1)) [
    | inr other ↦ absurd (cc (rw other at h))
    | inl same ↦
        let p : record_of k (subarray 6 38 b) (le_value (subarray 38 42 b)) (subarray 42 74 b) ≡ r =
          cc (rw same at h) in
        let q : k ≡ r.kind = ap (λ (x : OnChainRecord). x.kind) p in
        (
          record_kind-eq-some (subarray 0 4 b) r.kind (e ∙ ap some q),
          (==_iff _ 1).0 same,
          sym p
              ∙ ap
                  (λ j.
                    record_of j (subarray 6 38 b) (le_value (subarray 38 42 b)) (subarray 42 74 b))
                  q,
        )
  ]

  decode_record-parts : decode_record b ≡ some r → (length b ≡ 74) × Parts
  unfolding decode_record
  decode_record-parts h = elim (Bool-cases (length b == 74)) [
    | inl same ↦
        ((==_iff _ 74).0 same, decode_rest-parts (record_kind (subarray 0 4 b)) refl (rw same at h))
    | inr other ↦ absurd (cc (rw other at h))
  ]

  version-slice :
      IsBytes b → length b ≡ 74 → le_value (subarray 4 6 b) ≡ 1 → 1 ∷ 0 ∷ [] ≡ subarray 4 6 b
  unfolding le_bytes
  version-slice hb n v =
      ap (le_bytes 2) (sym v)
      ∙ le_bytes-le_value_at 2 (subarray 4 6 b) (subarray-IsBytes 4 6 b hb)
          (length-subarray 4 6 b (omega arith))

  sequence-slice :
      IsBytes b → length b ≡ 74 → le_bytes 4 (le_value (subarray 38 42 b)) ≡ subarray 38 42 b
  sequence-slice hb n =
      le_bytes-le_value_at 4 (subarray 38 42 b) (subarray-IsBytes 38 42 b hb)
        (length-subarray 38 42 b (omega arith))

  slices-from : length b ≡ 74 → subarray 6 38 b ++ (subarray 38 42 b ++ subarray 42 74 b) ≡ drop 6 b
  slices-from n =
      ap (λ t. subarray 6 38 b ++ (subarray 38 42 b ++ t))
        (take-all 32 (drop 42 b) (omega (arith, length-drop {0} 42 b)))
      ∙ ap (λ t. subarray 6 38 b ++ t) (subarray-drop 38 42 b (omega arith))
      ∙ subarray-drop 6 38 b (omega arith)

  reassembled :
      IsBytes b
      → length b ≡ 74
      → Parts
      → payload r.kind (subarray 6 38 b) (le_value (subarray 38 42 b)) (subarray 42 74 b) ≡ b
  reassembled hb n (m, v, p) =
      rw (← m, sequence-slice hb n, slices-from n)
        (ap (λ t. subarray 0 4 b ++ (t ++ drop 6 b)) (version-slice hb n v)
          ∙ ap (λ t. subarray 0 4 b ++ t) (subarray-drop 4 6 b (omega arith))
          ∙ subarray-drop 0 4 b (omega arith))

slice_fits : (b : Bytes) → IsBytes b → length b ≡ 74 → le_value (subarray 38 42 b) < 2 ^ 32
slice_fits b hb n =
    subst (λ w. le_value (subarray 38 42 b) < 256 ^ w) (length-subarray 38 42 b (omega arith))
      (le_value-lt (subarray 38 42 b) (subarray-IsBytes 38 42 b hb))

-- Whatever 74 bytes are decoded as a record, encoding that record gives the same bytes: no two
-- payloads are one record.
pub encode_record-decode_record :
    (b : Bytes) (r : OnChainRecord)
    → IsBytes b
    → decode_record b ≡ some r
    → encode_record r ≡ some b
encode_record-decode_record b r hb h =
    let (n, parts) = decode_record-parts b r h in
    let (m, v, p) = parts in
    ap encode_record p
    ∙ encode_record-record_of r.kind (subarray 6 38 b) (le_value (subarray 38 42 b))
        (subarray 42 74 b) (subarray-IsBytes 6 38 b hb) (subarray-IsBytes 42 74 b hb)
        (length-subarray 6 38 b (omega arith)) (length-subarray 42 74 b (omega arith))
        (slice_fits b hb n)
    ∙ ap some (reassembled b r hb n parts)
