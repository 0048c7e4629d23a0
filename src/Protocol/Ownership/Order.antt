-- ===== src/Protocol/Ownership/Order.antt =====
-- compareRecords of src/lib/protocol/ownership.ts, and the replay of its order.
use mathlib.Core.List.{Memᴰ, Permᴰ}
use stamppad.Prelude.{
  ◌≡◌, ◌<◌, ◌≤◌, ◌⊎◌, ◌==◌, inl, inr, refl, sym, ap, ◌∙◌, true, false, List, [], ◌∷◌, arith,
  Ordering, Bool-cases,
}
use stamppad.Text.{Text, text_eq, text_eq_iff, text_lt, text_lt_flip, text_lt_trans}
use stamppad.Sort.{IsOrder, sort, is_gt}
use stamppad.Sort.Perm.{IsKeyed, sort-perm}
use stamppad.Sort.Sorted.{IsSorted, IsSorted-weaken, NotAfter, sort_perm, sort-IsSorted}
use stamppad.Protocol.Crypto.{Crypto}
use stamppad.Protocol.Ownership.State.{
  CanonicalRecord, OwnershipInput, compare_records, OwnershipOutput,
}
use stamppad.Protocol.Ownership.Replay.{resolve_ownership, replay, start, stamp_step, record_step}

text_eq_symm : (a b : Text) → text_eq a b ≡ text_eq b a
text_eq_symm a b = ground (arith, text_eq_iff a b, text_eq_iff b a)

compare_records-flip :
    (a b : CanonicalRecord) → compare_records a b ≡ Ordering.lt → compare_records b a ≡ Ordering.gt
unfolding compare_records
compare_records-flip a b h = ground (arith, text_eq_symm a.txid b.txid, text_lt_flip a.txid b.txid)

compare_records-flip_gt :
    (a b : CanonicalRecord) → compare_records a b ≡ Ordering.gt → compare_records b a ≡ Ordering.lt
unfolding compare_records
compare_records-flip_gt a b h =
    ground (arith, text_eq_symm a.txid b.txid, text_lt_flip a.txid b.txid)

compare_records_trans :
    (a b c : CanonicalRecord)
    → is_gt (compare_records a b) ≡ false
    → is_gt (compare_records b c) ≡ false
    → is_gt (compare_records a c) ≡ false
unfolding compare_records
compare_records_trans a b c h k = ground (
  arith,
  text_eq_iff a.txid b.txid,
  text_eq_iff b.txid c.txid,
  text_eq_iff a.txid c.txid,
  text_lt_flip a.txid b.txid,
  text_lt_flip b.txid c.txid,
  text_lt_flip a.txid c.txid,
  text_lt_trans a.txid b.txid c.txid,
)

pub compare_records-IsOrder : IsOrder compare_records
compare_records-IsOrder = record {
  flip = compare_records-flip;
  flip_gt = compare_records-flip_gt;
  trans = compare_records_trans;
}

-- The steps read no `records` of the input.
replay-records :
    (crypto : Crypto) (input : OwnershipInput) (records : List CanonicalRecord)
    (out : OwnershipOutput) (es : List CanonicalRecord)
    → replay crypto (record input { records = records }) out es ≡ replay crypto input out es
unfolding replay stamp_step
replay-records crypto input records out [] = refl
replay-records crypto input records out (e ∷ es) =
    replay-records crypto input records (record_step crypto input out e) es

-- The canonical order: by height, then by transaction id, then by output index. Records at the same
-- position stand either way.
abbrev pub Precedes : CanonicalRecord → CanonicalRecord → Type 0
Precedes a b =
    (a.height < b.height)
    ⊎ ((a.height ≡ b.height)
        × ((text_lt a.txid b.txid ≡ true)
            ⊎ ((a.txid ≡ b.txid) × (a.output_index ≤ b.output_index))))

-- Records at the same position are the same record.
abbrev pub HasPositions : List CanonicalRecord → Type 0
HasPositions l =
    (a b : CanonicalRecord)
    → Memᴰ a l
    → Memᴰ b l
    → a.height ≡ b.height
    → a.txid ≡ b.txid
    → a.output_index ≡ b.output_index
    → a ≡ b

compare_records-Precedes : (a b : CanonicalRecord) → NotAfter compare_records a b → Precedes a b
unfolding compare_records
compare_records-Precedes a b h = elim (Bool-cases (a.height == b.height)) [
  | inl e ↦ elim (Bool-cases (text_eq a.txid b.txid)) [
    | inl t ↦ inr (ground arith, inr ((text_eq_iff a.txid b.txid).0 t, ground arith))
    | inr t ↦ inr (ground arith, inl (ground arith))
  ]
  | inr e ↦ inl (ground arith)
]

compare_records-height :
    (a b : CanonicalRecord) → compare_records a b ≡ Ordering.eq → a.height ≡ b.height
unfolding compare_records
compare_records-height a b e = ground arith

compare_records-txid : (a b : CanonicalRecord) → compare_records a b ≡ Ordering.eq → a.txid ≡ b.txid
unfolding compare_records
compare_records-txid a b e = ground (arith, text_eq_iff a.txid b.txid)

compare_records-output_index :
    (a b : CanonicalRecord) → compare_records a b ≡ Ordering.eq → a.output_index ≡ b.output_index
unfolding compare_records
compare_records-output_index a b e = ground arith

-- Where records at the same height, transaction id and output index are equal, the records of an
-- input, in whatever order they come, have an arrangement by height, then transaction id, then
-- output index, and resolving them in any order is replaying that arrangement one by one.
pub resolve_ownership-perm :
    (crypto : Crypto) (input : OwnershipInput) (records : List CanonicalRecord)
    → Permᴰ input.records records
    → HasPositions input.records
    → (ordered : List CanonicalRecord) × Permᴰ input.records ordered
      × IsSorted Precedes ordered
      × (resolve_ownership crypto input ≡ replay crypto input (start crypto input) ordered)
      × (resolve_ownership crypto (record input { records = records })
          ≡ replay crypto input (start crypto input) ordered)
unfolding resolve_ownership
resolve_ownership-perm crypto input records p k =
    let keyed : IsKeyed compare_records input.records = λ a b ha hb e.
      k a b ha hb (compare_records-height a b e) (compare_records-txid a b e)
        (compare_records-output_index a b e) in
    (
      sort compare_records input.records,
      sort_perm compare_records input.records,
      IsSorted-weaken (NotAfter compare_records) Precedes (sort compare_records input.records)
          compare_records-Precedes
          (sort-IsSorted compare_records compare_records-IsOrder input.records),
      refl,
      replay-records crypto input records (start crypto input) (sort compare_records records)
          ∙ ap (replay crypto input (start crypto input)) (
              sym
                (sort-perm compare_records compare_records-IsOrder input.records records p keyed)),
    )
