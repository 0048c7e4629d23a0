-- ===== src/Protocol/Preimage/Injective.antt =====
-- A preimage determines its fields, as long as no field holds a line feed.
use stamppad.Prelude.{
  ℕ, zero, suc, ◌+◌, ◌*◌, ◌/◌, ◌%◌, ◌<◌, ◌≡◌, ◌≢◌, refl, sym, ap, ◌∙◌, List, [], ◌∷◌, ◌++◌, arith,
  length, All, ltb, ◌-◌, Bool-cases, inl, inr,
}
use stamppad.Text.{Text, join}
use stamppad.Bytes.{byte_at}
use stamppad.Protocol.Types.{
  SourceNetwork, solana_demo, DestNetwork, zcash_demo, AuthorityRole, owner, delegate,
  source_network_text, dest_network_text, authority_role_text, IssuanceFields, protocol_id,
}
use stamppad.Protocol.Preimage.{
  digits_before, decimal, line_feed, canonical_preimage, TransferAuthorization, SettlementOffer,
  transfer_preimage, offer_preimage,
}

abbrev pub IsLine : Text → Type 0
IsLine = All (λ c. c ≢ line_feed)

-- Two lines that are followed by a line feed are cut at the same place.
cut-injective :
    (p q r t : Text)
    → IsLine p
    → IsLine q
    → p ++ (line_feed ∷ r) ≡ q ++ (line_feed ∷ t)
    → (p ≡ q) × (r ≡ t)
cut-injective [] [] r t hp hq e = (refl, cc)
cut-injective [] (y ∷ q) r t hp (hy, hq) e = absurd (hy (cc))
cut-injective (x ∷ p) [] r t (hx, hp) hq e = absurd (hx (cc))
cut-injective (x ∷ p) (y ∷ q) r t (hx, hp) (hy, hq) e =
    let (a, b) = cut-injective p q r t hp hq (cc) in (cc, b)

-- Joined lines determine the lines, if it is known how many there are.
pub join-injective :
    (ps qs : List Text)
    → All IsLine ps
    → All IsLine qs
    → length ps ≡ length qs
    → join line_feed ps ≡ join line_feed qs
    → ps ≡ qs
unfolding join
join-injective [] [] hp hq n e = refl
join-injective [] (q ∷ qs) hp hq n e = absurd (omega arith)
join-injective (p ∷ ps) [] hp hq n e = absurd (omega arith)
join-injective (p ∷ []) (q ∷ []) hp hq n e = ap (λ t. t ∷ []) e
join-injective (p ∷ []) (q ∷ q' ∷ qs) hp hq n e = absurd (omega arith)
join-injective (p ∷ p' ∷ ps) (q ∷ []) hp hq n e = absurd (omega arith)
join-injective (p ∷ p' ∷ ps) (q ∷ q' ∷ qs) (hp, hps) (hq, hqs) n e =
    let (a, b) = cut-injective p q _ _ hp hq e in
    let c = join-injective (p' ∷ ps) (q' ∷ qs) hps hqs (omega arith) b in cc

-- The number that a text of digits stands for, after the digits that make `n`.
read_from : ℕ → Text → ℕ
read_from n [] = n
read_from n (c ∷ t) = read_from (n * 10 + (c - b'0')) t

read_from-digits_before :
    (f n : ℕ) (rest : Text) → n < f → read_from 0 (digits_before f n rest) ≡ read_from n rest
unfolding digits_before read_from
read_from-digits_before zero n rest h = absurd (omega arith)
read_from-digits_before (suc f) n rest h = elim (Bool-cases (ltb n 10)) [
  | inl small ↦ rw small (ap (λ (k : ℕ). read_from k rest) (omega arith))
  | inr big ↦ rw big (
      read_from-digits_before f (n / 10) ((b'0' + n % 10) ∷ rest) (ground arith)
      ∙ ap (λ (k : ℕ). read_from k rest) (omega arith))
]

pub decimal-injective : (m n : ℕ) → decimal m ≡ decimal n → m ≡ n
unfolding decimal read_from
decimal-injective m n e =
    sym (read_from-digits_before (suc m) m [] (omega arith))
    ∙ ap (read_from 0) e
    ∙ read_from-digits_before (suc n) n [] (omega arith)

digits_before-IsLine : (f n : ℕ) (rest : Text) → IsLine rest → IsLine (digits_before f n rest)
unfolding digits_before
digits_before-IsLine zero n rest h = h
digits_before-IsLine (suc f) n rest h = elim (Bool-cases (ltb n 10)) [
  | inl small ↦ rw small (omega arith, h)
  | inr big ↦ rw big (digits_before-IsLine f (n / 10) ((b'0' + n % 10) ∷ rest) (omega arith, h))
]

pub decimal-IsLine : (n : ℕ) → IsLine (decimal n)
unfolding decimal
decimal-IsLine n = digits_before-IsLine (suc n) n [] tt

source_network_text-injective :
    (a b : SourceNetwork) → source_network_text a ≡ source_network_text b → a ≡ b
source_network_text-injective a b e = ground arith

dest_network_text-injective :
    (a b : DestNetwork) → dest_network_text a ≡ dest_network_text b → a ≡ b
dest_network_text-injective a b e = ground arith

authority_role_text-injective :
    (a b : AuthorityRole) → authority_role_text a ≡ authority_role_text b → a ≡ b
authority_role_text-injective a b e = ground arith

source_network_text-IsLine : (a : SourceNetwork) → IsLine (source_network_text a)
source_network_text-IsLine solana_demo = omega arith
source_network_text-IsLine _ = omega arith

dest_network_text-IsLine : (a : DestNetwork) → IsLine (dest_network_text a)
dest_network_text-IsLine zcash_demo = omega arith
dest_network_text-IsLine _ = omega arith

authority_role_text-IsLine : (a : AuthorityRole) → IsLine (authority_role_text a)
authority_role_text-IsLine owner = omega arith
authority_role_text-IsLine delegate = omega arith

-- The texts of an issuance hold no line feed.
pub record HasLines (f : IssuanceFields) : Type 0 where
  pub mint : IsLine f.mint
  pub token_program : IsLine f.token_program
  pub source_tx : IsLine f.source_tx
  pub burn_locator : IsLine f.burn_locator
  pub amount_base : IsLine f.amount_base
  pub destination : IsLine f.destination
  pub burn_authority : IsLine f.burn_authority
  pub intent_locator : IsLine f.intent_locator
  pub nonce : IsLine f.nonce

protocol_id-IsLine : IsLine protocol_id
protocol_id-IsLine = omega arith

abbrev nth : List Text → ℕ → Text
nth [] n = []
nth (x ∷ xs) zero = x
nth (x ∷ xs) (suc n) = nth xs n

abbrev issuance_lines : IssuanceFields → List Text
issuance_lines f =
    protocol_id
    ∷ decimal 0
    ∷ source_network_text f.source_network
    ∷ dest_network_text f.destination_network
    ∷ f.mint
    ∷ f.token_program
    ∷ f.source_tx
    ∷ f.burn_locator
    ∷ f.amount_base
    ∷ decimal f.decimals
    ∷ f.destination
    ∷ f.burn_authority
    ∷ authority_role_text f.authority_role
    ∷ f.intent_locator
    ∷ f.nonce
    ∷ []

issuance_lines-All : (f : IssuanceFields) → HasLines f → All IsLine (issuance_lines f)
issuance_lines-All f h = (
  protocol_id-IsLine,
  (
    decimal-IsLine 0,
    (
      source_network_text-IsLine f.source_network,
      (
        dest_network_text-IsLine f.destination_network,
        (
          h.mint,
          (
            h.token_program,
            (
              h.source_tx,
              (
                h.burn_locator,
                (
                  h.amount_base,
                  (
                    decimal-IsLine f.decimals,
                    (
                      h.destination,
                      (
                        h.burn_authority,
                        (
                          authority_role_text-IsLine f.authority_role,
                          (h.intent_locator, (h.nonce, tt)),
                        ),
                      ),
                    ),
                  ),
                ),
              ),
            ),
          ),
        ),
      ),
    ),
  ),
)

-- Issuances whose texts hold no line feed have the same canonical preimage only if they are equal
-- in every field.
pub canonical_preimage-injective :
    (f g : IssuanceFields)
    → HasLines f
    → HasLines g
    → canonical_preimage f ≡ canonical_preimage g
    → f ≡ g
unfolding canonical_preimage
canonical_preimage-injective f g hf hg e =
    let p =
      join-injective (issuance_lines f) (issuance_lines g) (issuance_lines-All f hf)
        (issuance_lines-All g hg) refl e in
    λ i. record {
      source_network =
          source_network_text-injective f.source_network g.source_network (ap (λ l. nth l 2) p) i;
      destination_network =
          dest_network_text-injective f.destination_network g.destination_network
            (ap (λ l. nth l 3) p) i;
      mint = (ap (λ l. nth l 4) p) i;
      token_program = (ap (λ l. nth l 5) p) i;
      source_tx = (ap (λ l. nth l 6) p) i;
      burn_locator = (ap (λ l. nth l 7) p) i;
      amount_base = (ap (λ l. nth l 8) p) i;
      decimals = decimal-injective f.decimals g.decimals (ap (λ l. nth l 9) p) i;
      destination = (ap (λ l. nth l 10) p) i;
      burn_authority = (ap (λ l. nth l 11) p) i;
      authority_role =
          authority_role_text-injective f.authority_role g.authority_role (ap (λ l. nth l 12) p) i;
      intent_locator = (ap (λ l. nth l 13) p) i;
      nonce = (ap (λ l. nth l 14) p) i;
    }

-- A signed transfer authorization is no signed offer: their preimages differ.
pub transfer_preimage-ne-offer_preimage :
    (a : TransferAuthorization) (o : SettlementOffer) → transfer_preimage a ≢ offer_preimage o
unfolding transfer_preimage offer_preimage decimal
transfer_preimage-ne-offer_preimage a o e = omega (arith, ap (λ (t : Text). byte_at t 12) e)
