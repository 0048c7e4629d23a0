-- ===== src/Protocol/Ownership/Sales.antt =====
-- The list of sales: none twice, and each an event of its stamp.
use mathlib.Core.List.{Memᴰ}
use stamppad.Prelude.{
  suc, ◌≤◌, ◌≡◌, refl, ap, ◌∙◌, inl, inr, Option, none, some, List, [], ◌∷◌, ◌++◌, append-nil,
  arith, subst, All, All-append, Bool-cases,
}
use stamppad.Prelude.Dict.{get, put, get-put, get-put_self}
use stamppad.Text.{Text, text_eq, text_eq_iff, text_key, nat_key}
use stamppad.Sort.{sort}
use stamppad.Protocol.Preimage.{TransferAuthorization}
use stamppad.Protocol.Crypto.{Crypto}
use stamppad.Protocol.Ownership.State.{
  CanonicalRecord, OwnershipEvent, BoundOffer, StampOwnership, OwnershipInput, OwnershipOutput,
  Sale, compare_records,
}
use stamppad.Protocol.Ownership.Replay.{
  bind_offer, move_stamp, event_of, new_sales, sale_of, start, resolve_ownership,
}
use stamppad.Protocol.Ownership.Steps.{Step, noted, bound, moved, IsAuthorized, replay_induction}

-- `h` is the event that the sale reports.
pub record Reports (sale : Sale) (h : OwnershipEvent) : Type 0 where
  pub sequence : h.sequence ≡ sale.sequence
  pub price : h.price_zat ≡ some sale.price_zat
  pub seller : h.from_address ≡ sale.seller
  pub buyer : h.to_address ≡ sale.buyer
  pub txid : h.txid ≡ sale.txid

-- The sale is an event in the history of a known stamp, which has reached its sequence.
pub record IsRecorded (m : List (Text × StampOwnership)) (sale : Sale) : Type 0 where
  pub stamp : StampOwnership
  pub known : get m sale.stamp_commitment_hex ≡ some stamp
  pub reached : sale.sequence ≤ stamp.sequence
  pub event : OwnershipEvent
  pub listed : Memᴰ event stamp.history
  pub reports : Reports sale event

abbrev pub IsOther : Sale → Sale → Type 0
IsOther s t = s.stamp_commitment_hex ≡ t.stamp_commitment_hex → s.sequence ≡ t.sequence → ⊥

-- No two sales of the list are of the same step of the same stamp.
abbrev pub NoneTwice : List Sale → Type 0
NoneTwice [] = Unit
NoneTwice (s ∷ ss) = All (IsOther s) ss × NoneTwice ss

NoneTwice-append :
    (ss : List Sale) (t : Sale)
    → NoneTwice ss
    → All (λ s. IsOther s t) ss
    → NoneTwice (ss ++ t ∷ [])
NoneTwice-append [] t h k = (tt, tt)
NoneTwice-append (s ∷ ss) t (h, hs) (k, ks) =
    (All-append (IsOther s) ss (t ∷ []) h (k, tt), NoneTwice-append ss t hs ks)

mem-append_left : (h : OwnershipEvent) (xs ys : List OwnershipEvent) → Memᴰ h xs → Memᴰ h (xs ++ ys)
mem-append_left h [] ys m = elim m [ ]
mem-append_left h (x ∷ xs) ys (Memᴰ.head e) = Memᴰ.head e
mem-append_left h (x ∷ xs) ys (Memᴰ.tail m) = Memᴰ.tail (mem-append_left h xs ys m)

mem-append_last : (h : OwnershipEvent) (xs : List OwnershipEvent) → Memᴰ h (xs ++ h ∷ [])
mem-append_last h [] = Memᴰ.head refl
mem-append_last h (x ∷ xs) = Memᴰ.tail (mem-append_last h xs)

-- What a step may do to a stamp that has sales: it keeps the events and does not go back.
pub record Grows (s t : StampOwnership) : Type 0 where
  pub le : s.sequence ≤ t.sequence
  pub keeps : (h : OwnershipEvent) → Memᴰ h s.history → Memᴰ h t.history

put-IsRecorded :
    (m : List (Text × StampOwnership)) (k : Text) (s t : StampOwnership) (x : Sale)
    → get m k ≡ some s
    → Grows s t
    → IsRecorded m x
    → IsRecorded (put m k t) x
put-IsRecorded m k s t x here g h = elim (Bool-cases (text_eq k x.stamp_commitment_hex)) [
  | inl same ↦
      let e : k ≡ x.stamp_commitment_hex = (text_eq_iff _ _).0 same in
      let q : h.stamp ≡ s = cc (here, h.known, ap (get m) e) in
      record {
        stamp = t;
        known = get-put m k x.stamp_commitment_hex t ∙ rw same;
        reached = omega (arith, g.le, h.reached, ap (λ (u : StampOwnership). u.sequence) q);
        event = h.event;
        listed = g.keeps h.event (subst (λ u. Memᴰ h.event u.history) q h.listed);
        reports = h.reports;
      }
  | inr other ↦ record {
    stamp = h.stamp;
    known = get-put m k x.stamp_commitment_hex t ∙ rw other h.known;
    reached = h.reached;
    event = h.event;
    listed = h.listed;
    reports = h.reports;
  }
]

put-All-IsRecorded :
    (m : List (Text × StampOwnership)) (k : Text) (s t : StampOwnership) (xs : List Sale)
    → get m k ≡ some s
    → Grows s t
    → All (IsRecorded m) xs
    → All (IsRecorded (put m k t)) xs
put-All-IsRecorded m k s t [] here g h = tt
put-All-IsRecorded m k s t (x ∷ xs) here g (h, hs) =
    (put-IsRecorded m k s t x here g h, put-All-IsRecorded m k s t xs here g hs)

-- A recorded sale of the stamp at `k` is of a step that this stamp has reached.
recorded-IsOther :
    (m : List (Text × StampOwnership)) (s : StampOwnership) (t : Sale) (xs : List Sale)
    → get m t.stamp_commitment_hex ≡ some s
    → suc s.sequence ≤ t.sequence
    → All (IsRecorded m) xs
    → All (λ x. IsOther x t) xs
recorded-IsOther m s t [] here le h = tt
recorded-IsOther m s t (x ∷ xs) here le (h, hs) = (
  λ p n.
      let q : h.stamp ≡ s = cc (here, h.known, ap (get m) p) in
      omega (arith, h.reached, ap (λ (u : StampOwnership). u.sequence) q),
  recorded-IsOther m s t xs here le hs,
)

bind_offer-Grows : (e : CanonicalRecord) (s : StampOwnership) (o : _) → Grows s (bind_offer e s o)
unfolding bind_offer
bind_offer-Grows e s o = record { le = omega arith; keeps = λ h m. m }

move_stamp-Grows :
    (crypto : Crypto) (e : CanonicalRecord) (s : StampOwnership) (auth : TransferAuthorization)
    (b : Option BoundOffer)
    → IsAuthorized crypto s auth e.on_chain
    → Grows s (move_stamp e s auth b)
unfolding move_stamp
move_stamp-Grows crypto e s auth b a = record {
  le = omega (arith, a.next);
  keeps = λ h m. mem-append_left h s.history (event_of e auth b ∷ []) m;
}

move_stamp-listed :
    (e : CanonicalRecord) (s : StampOwnership) (auth : TransferAuthorization)
    (b : Option BoundOffer)
    → Memᴰ (event_of e auth b) (move_stamp e s auth b).history
unfolding move_stamp
move_stamp-listed e s auth b = mem-append_last (event_of e auth b) s.history

move_stamp-reached :
    (e : CanonicalRecord) (s : StampOwnership) (auth : TransferAuthorization)
    (b : Option BoundOffer)
    → e.on_chain.sequence ≤ (move_stamp e s auth b).sequence
unfolding move_stamp
move_stamp-reached e s auth b = omega arith

-- The sales of a result: none twice, and each recorded.
pub record IsTold (out : OwnershipOutput) : Type 0 where
  pub none_twice : NoneTwice out.sales
  pub recorded : All (IsRecorded out.stamps) out.sales

moved-IsTold :
    (crypto : Crypto) (e : CanonicalRecord) (out : OwnershipOutput) (s : StampOwnership)
    (auth : TransferAuthorization) (b : Option BoundOffer)
    → get out.stamps e.on_chain.stamp_commitment_hex ≡ some s
    → IsAuthorized crypto s auth e.on_chain
    → IsTold out
    → IsTold (record out {
      stamps = put out.stamps e.on_chain.stamp_commitment_hex (move_stamp e s auth b);
      sales = out.sales ++ new_sales e auth b;
    })
unfolding new_sales
moved-IsTold crypto e out s auth none here a h = rw append-nil (record {
  none_twice = h.none_twice;
  recorded =
      put-All-IsRecorded out.stamps _ s _ out.sales here (move_stamp-Grows crypto e s auth none a)
        h.recorded;
})
moved-IsTold crypto e out s auth (some b) here a h = record {
  none_twice = NoneTwice-append out.sales (sale_of e auth b) h.none_twice (
      recorded-IsOther out.stamps s (sale_of e auth b) out.sales here (omega (arith, a.next))
        h.recorded);
  recorded =
      All-append _ out.sales _
        (put-All-IsRecorded out.stamps _ s _ out.sales here
          (move_stamp-Grows crypto e s auth (some b) a) h.recorded)
        (
          record {
            stamp = move_stamp e s auth (some b);
            known = get-put_self out.stamps _ _;
            reached = move_stamp-reached e s auth (some b);
            event = event_of e auth (some b);
            listed = move_stamp-listed e s auth (some b);
            reports = record {
              sequence = refl;
              price = refl;
              seller = refl;
              buyer = refl;
              txid = refl;
            };
          },
          tt,
        );
}

module _ (crypto : Crypto) (input : OwnershipInput) where
  Step-IsTold :
      (out : OwnershipOutput) (e : CanonicalRecord) (out' : OwnershipOutput)
      → IsTold out
      → Step crypto input out e out'
      → IsTold out'
  Step-IsTold out e out' h (noted p q n) = record {
    none_twice = rw q h.none_twice;
    recorded = rw (p, q) h.recorded;
  }
  Step-IsTold out e out' h (bound s o here at ok f free p) = rw p (record {
    none_twice = h.none_twice;
    recorded =
        put-All-IsRecorded out.stamps _ s _ out.sales here (bind_offer-Grows e s o) h.recorded;
  })
  Step-IsTold out e out' h (moved s auth here at ok a p) =
      rw p (moved-IsTold crypto e out s auth (get s.bound_offers e.on_chain.sequence) here a h)

  -- No two reported sales are of the same stamp and sequence, and every reported sale is an event in
  -- the history of a stamp of the result, with its sequence, price, seller, buyer and transaction.
  pub resolve_ownership-IsTold : IsTold (resolve_ownership crypto input)
  unfolding resolve_ownership
  resolve_ownership-IsTold =
      replay_induction crypto input IsTold Step-IsTold (start crypto input)
        (sort compare_records input.records) (record { none_twice = tt; recorded = tt })
