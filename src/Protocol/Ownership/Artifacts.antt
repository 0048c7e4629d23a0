-- ===== src/Protocol/Ownership/Artifacts.antt =====
-- The maps of published artifacts: a hash leads to a published artifact that has this hash.
use mathlib.Core.List.{Memᴰ}
use stamppad.Prelude.{◌≡◌, refl, some, List, [], ◌∷◌, All}
use stamppad.Prelude.Dict.{get, put, get-All, put-All}
use stamppad.Text.{Text, text_key}
use stamppad.Bytes.{to_hex}
use stamppad.Protocol.Preimage.{TransferAuthorization, SettlementOffer}
use stamppad.Protocol.Crypto.{Crypto}
use stamppad.Protocol.Transfer.{transfer_artifact_hash, offer_artifact_hash}
use stamppad.Protocol.Ownership.Replay.{transfers_by_hash, offers_by_hash}

module _ (crypto : Crypto) where
  module _ (xs : List TransferAuthorization) where
    abbrev IsTransferEntry : Text × TransferAuthorization → Type 0
    IsTransferEntry b = Memᴰ b.1 xs × (b.0 ≡ to_hex (transfer_artifact_hash crypto b.1))

    transfers_by_hash-All :
        (m : List (Text × TransferAuthorization)) (ys : List TransferAuthorization)
        → All IsTransferEntry m
        → ((a : TransferAuthorization) → Memᴰ a ys → Memᴰ a xs)
        → All IsTransferEntry (transfers_by_hash crypto m ys)
    unfolding transfers_by_hash
    transfers_by_hash-All m [] h inc = h
    transfers_by_hash-All m (a ∷ ys) h inc =
        transfers_by_hash-All (put m (to_hex (transfer_artifact_hash crypto a)) a) ys
          (put-All IsTransferEntry m _ a h (inc a (Memᴰ.head refl), refl))
          (λ b hb. inc b (Memᴰ.tail hb))

    pub transfers_by_hash-mem :
        (k : Text) (a : TransferAuthorization)
        → get (transfers_by_hash crypto [] xs) k ≡ some a
        → Memᴰ a xs × (k ≡ to_hex (transfer_artifact_hash crypto a))
    transfers_by_hash-mem k a h =
        get-All IsTransferEntry _ k a (transfers_by_hash-All [] xs tt (λ b hb. hb)) h

  module _ (xs : List SettlementOffer) where
    abbrev IsOfferEntry : Text × SettlementOffer → Type 0
    IsOfferEntry b = Memᴰ b.1 xs × (b.0 ≡ to_hex (offer_artifact_hash crypto b.1))

    offers_by_hash-All :
        (m : List (Text × SettlementOffer)) (ys : List SettlementOffer)
        → All IsOfferEntry m
        → ((a : SettlementOffer) → Memᴰ a ys → Memᴰ a xs)
        → All IsOfferEntry (offers_by_hash crypto m ys)
    unfolding offers_by_hash
    offers_by_hash-All m [] h inc = h
    offers_by_hash-All m (a ∷ ys) h inc =
        offers_by_hash-All (put m (to_hex (offer_artifact_hash crypto a)) a) ys
          (put-All IsOfferEntry m _ a h (inc a (Memᴰ.head refl), refl))
          (λ b hb. inc b (Memᴰ.tail hb))

    pub offers_by_hash-mem :
        (k : Text) (o : SettlementOffer)
        → get (offers_by_hash crypto [] xs) k ≡ some o
        → Memᴰ o xs × (k ≡ to_hex (offer_artifact_hash crypto o))
    offers_by_hash-mem k o h =
        get-All IsOfferEntry _ k o (offers_by_hash-All [] xs tt (λ b hb. hb)) h
