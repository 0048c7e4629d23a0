-- ===== src/Protocol/Validate/Publications.antt =====
-- What a publication that `validatePublication` accepts carries, and the row made of it.
use mathlib.Core.List.{Memᴰ}
use stamppad.Prelude.{
  ℕ, ◌≡◌, ◌≤◌, refl, sym, subst, ap, ◌≢◌, inl, inr, Bool, true, false, ◌&&◌, Option, none, some,
  List, [], ◌∷◌, ◌++◌, All, leb, arith, Bool-cases, Option-cases,
}
use stamppad.Text.{Text, text_eq_iff, text_eq_refl}
use stamppad.Sort.Sorted.{All-weaken}
use stamppad.Bytes.{Bytes, to_hex}
use stamppad.Protocol.Types.{
  IssuanceFields, AcceptedIssuance, ZcashOutput, ZcashPublication, dest_network_eq,
}
use stamppad.Protocol.Crypto.{Crypto}
use stamppad.Protocol.Encoding.{encode_op_return_payload, commitment_of}
use stamppad.Protocol.Transfer.{buffer_eq}
use stamppad.Protocol.Validate.{
  find_output, find_data, is_payload, is_some_text, holds, published, validate_publication,
  accept_issuance, accepted_at,
}

-- The list is some elements that pass over, then this one, then the others.
abbrev pub IsFirst : (ZcashOutput → Type 0) → List ZcashOutput → ZcashOutput → Type 0
IsFirst PassedOver os o =
    (before : List ZcashOutput) × (after : List ZcashOutput) × (os ≡ before ++ o ∷ after)
    × All PassedOver before

IsFirst-weaken :
    (P Q : ZcashOutput → Type 0) (os : List ZcashOutput) (o : ZcashOutput)
    → ((q : ZcashOutput) → P q → Q q)
    → IsFirst P os o
    → IsFirst Q os o
IsFirst-weaken P Q os o w (before, after, e, h) = (before, after, e, All-weaken P Q before w h)

append-Mem : (before after : List ZcashOutput) (o : ZcashOutput) → Memᴰ o (before ++ o ∷ after)
append-Mem [] after o = Memᴰ.head refl
append-Mem (q ∷ before) after o = Memᴰ.tail (append-Mem before after o)

IsFirst-Mem :
    (P : ZcashOutput → Type 0) (os : List ZcashOutput) (o : ZcashOutput)
    → IsFirst P os o
    → Memᴰ o os
IsFirst-Mem P os o (before, after, e, h) =
    subst (λ qs. Memᴰ o qs) (sym e) (append-Mem before after o)

pub find_output-IsFirst :
    (test : ZcashOutput → Bool) (os : List ZcashOutput) (o : ZcashOutput)
    → find_output test os ≡ some o
    → IsFirst (λ q. test q ≡ false) os o × (test o ≡ true)
unfolding find_output
find_output-IsFirst test [] o h = absurd (ground arith)
find_output-IsFirst test (p ∷ os) o h = elim (Bool-cases (test p)) [
  | inl t ↦
      let e : p ≡ o = ground arith in
      (([], os, ap (λ q. q ∷ os) e, tt), subst (λ x. test x ≡ true) e t)
  | inr f ↦
      let ((before, after, e, all), t) = find_output-IsFirst test os o (ground arith) in
      ((p ∷ before, after, ap (λ qs. p ∷ qs) e, (f, all)), t)
]

find_output-weaker :
    (strong weak : ZcashOutput → Bool) (os : List ZcashOutput) (o : ZcashOutput)
    → ((p : ZcashOutput) → strong p ≡ true → weak p ≡ true)
    → find_output strong os ≡ some o
    → (p : ZcashOutput) × (find_output weak os ≡ some p)
unfolding find_output
find_output-weaker strong weak [] o w h = absurd (ground arith)
find_output-weaker strong weak (p ∷ os) o w h = elim (Bool-cases (weak p)) [
  | inl t ↦ (p, ground arith)
  | inr f ↦
      let (q, e) = find_output-weaker strong weak os o w (ground (arith, w p)) in (q, ground arith)
]

is_some_text-lem : (o : Option Text) (t : Text) → is_some_text o t ≡ true → o ≡ some t
is_some_text-lem none t h = absurd (ground arith)
is_some_text-lem (some s) t h = ap some ((text_eq_iff s t).0 h)

module _ (crypto : Crypto) (issuance : IssuanceFields) (p : ZcashPublication) (min : ℕ) where
  -- An accepted publication, and the row that is kept of it.
  pub record IsPublished (row : AcceptedIssuance) : Type 0 where
    pub network : dest_network_eq p.network issuance.destination_network ≡ true
    pub in_best_chain : p.in_best_chain ≡ true
    pub deep : min ≤ p.confirmations
    pub paid : ZcashOutput
    pub paid_there : Memᴰ paid p.outputs
    pub paid_to : paid.address ≡ some issuance.destination
    pub paid_value : 10_000 ≤ paid.value_zat
    pub carrier : ZcashOutput
    pub data_first : IsFirst (λ q. is_payload q.null_data ≡ false) p.outputs carrier
    pub payload : carrier.null_data ≡ encode_op_return_payload (commitment_of crypto issuance)
    pub row_issuance : row.issuance ≡ issuance
    pub row_commitment : row.commitment_hex ≡ to_hex (commitment_of crypto issuance)
    pub row_tx : row.zcash_tx ≡ p.txid
    pub row_data : row.zcash_null_data_index ≡ carrier.index
    pub named : ZcashOutput
    pub named_first : IsFirst (λ q. q.address ≢ some issuance.destination) p.outputs named
    pub named_to : named.address ≡ some issuance.destination
    pub row_output : row.zcash_output_index ≡ named.index

  holds-lem : (a b : Option Bytes) → holds a b ≡ true → a ≡ b
  unfolding buffer_eq
  holds-lem none b h = absurd (ground arith)
  holds-lem (some a) none h = absurd (ground arith)
  holds-lem (some a) (some b) h = ap some ((text_eq_iff a b).0 h)

  abbrev pays : ZcashOutput → Bool
  pays o = is_some_text o.address issuance.destination && leb 10_000 o.value_zat

  abbrev is_named : ZcashOutput → Bool
  is_named o = is_some_text o.address issuance.destination

  is_named-lem : (q : ZcashOutput) → is_named q ≡ false → q.address ≢ some issuance.destination
  is_named-lem q h e = absurd (ground (arith, e, text_eq_refl issuance.destination))

  published-data :
      validate_publication crypto issuance p min ≡ published
      → (o : ZcashOutput) × (find_data p.outputs ≡ some o)
        × (holds o.null_data (encode_op_return_payload (commitment_of crypto issuance)) ≡ true)
  unfolding validate_publication
  published-data h = elim (Option-cases (find_data p.outputs)) [
    | inl n ↦ absurd (ground arith)
    | inr (o, e) ↦ (o, e, ground arith)
  ]

  published-paid :
      validate_publication crypto issuance p min ≡ published
      → (o : ZcashOutput) × (find_output pays p.outputs ≡ some o)
        × (p.in_best_chain ≡ true)
        × (min ≤ p.confirmations)
        × (dest_network_eq p.network issuance.destination_network ≡ true)
  unfolding validate_publication
  published-paid h = elim (Option-cases (find_output pays p.outputs)) [
    | inl n ↦ absurd (ground arith)
    | inr (o, e) ↦ (o, e, ground arith, ground arith, ground arith)
  ]

  -- A publication that is accepted is on the issuance's network, in the best chain and deep enough;
  -- it pays the destination at least 10,000 zatoshis, and the first of its outputs whose null data
  -- reads as a payload carries the commitment. A row is then kept of it without an exception, with
  -- the issuance, its commitment and the transaction id: its data output is that one, and its
  -- destination output is the first output to the destination.
  pub validate_publication-IsPublished :
      validate_publication crypto issuance p min ≡ published
      → (row : AcceptedIssuance) × (accept_issuance crypto issuance p ≡ some row) × IsPublished row
  unfolding accept_issuance
  validate_publication-IsPublished h =
      let (d, fd, hd) = published-data h in
      let (o, fo, best, deep, net) = published-paid h in
      let (n, fn) = find_output-weaker pays is_named p.outputs o (λ q t. ground arith) fo in
      let (md, _) = find_output-IsFirst (λ x. is_payload x.null_data) p.outputs d fd in
      let (mo, to) = find_output-IsFirst pays p.outputs o fo in
      let (mn, tn) = find_output-IsFirst is_named p.outputs n fn in
      (
        accepted_at crypto issuance p n.index d.index,
        rw (fd, fn) refl,
        record {
          network = net;
          in_best_chain = best;
          deep = deep;
          paid = o;
          paid_there = IsFirst-Mem (λ q. pays q ≡ false) p.outputs o mo;
          paid_to = is_some_text-lem o.address issuance.destination (ground arith);
          paid_value = ground arith;
          carrier = d;
          data_first = md;
          payload = holds-lem d.null_data _ hd;
          row_issuance = refl;
          row_commitment = refl;
          row_tx = refl;
          row_data = refl;
          named = n;
          named_first =
              IsFirst-weaken (λ q. is_named q ≡ false) (λ q. q.address ≢ some issuance.destination)
                p.outputs n is_named-lem mn;
          named_to = is_some_text-lem n.address issuance.destination tn;
          row_output = refl;
        },
      )
