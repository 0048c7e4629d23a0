-- ===== src/Protocol/Validate/Burns.antt =====
-- What a burn that `validateBurn` accepts has established.
use stamppad.Prelude.{
  ℕ, ◌≡◌, ◌≢◌, ◌<◌, ◌≤◌, refl, sym, ◌∙◌, subst, ap, inl, inr, true, false, Option, none, some, List,
  [], ◌∷◌, arith, All, Bool-cases, Option-cases,
}
use stamppad.Prelude.Dict.{get}
use stamppad.Text.{Text, text_eq, text_key, text_eq_iff}
use stamppad.Bytes.{Bytes}
use stamppad.Protocol.Types.{
  AuthorityRole, owner, delegate, TokenAccountView, CanonicalSolanaTx, IntentV0, BurnDecode,
  IssuanceFields, source_network_eq, dest_network_eq, native_mint_id, allowed_token_2022_extensions,
  rejected_token_2022_extensions,
}
use stamppad.Protocol.Crypto.{Crypto}
use stamppad.Protocol.Address.{validate_destination}
use stamppad.Protocol.Encoding.{commitment_of}
use stamppad.Protocol.Validate.{
  Expected, valid, includes, is_token_program, is_finalized, same_decimals, is_some_text,
  decode_burn, decode_intents, reject_extensions, issuance_of, check_intents, check_signer,
  check_account, check_extensions, check_burn, validate_burn,
}

-- The authority owns the token account, or is its delegate for at least the amount.
pub data IsAuthority (account : TokenAccountView) (burn : BurnDecode) : AuthorityRole → Type 0 where
  by_owner : account.owner ≡ burn.authority → IsAuthority account burn owner
  by_delegate :
      account.owner ≢ burn.authority
      → account.delegate ≡ some burn.authority
      → burn.amount_base ≤ account.delegated_amount
      → IsAuthority account burn delegate

abbrev pub IsKnownExtension : Text → Type 0
IsKnownExtension t =
    (includes rejected_token_2022_extensions t ≡ false)
    × (includes allowed_token_2022_extensions t ≡ true)

is_some_text-lem : (o : Option Text) (t : Text) → is_some_text o t ≡ true → o ≡ some t
is_some_text-lem none t h = absurd (ground arith)
is_some_text-lem (some s) t h = ap some ((text_eq_iff s t).0 h)

module _ (crypto : Crypto) (tx : CanonicalSolanaTx) (expected : Expected) where
  -- The facts behind an accepted burn.
  pub record IsBurned (burn : BurnDecode) (intent : IntentV0) (account : TokenAccountView)
      (role : AuthorityRole) : Type 0 where
    pub on_network : source_network_eq tx.network expected.source_network ≡ true
    pub succeeded : tx.failed ≡ false
    pub final : is_finalized tx.commitment ≡ true
    pub first_burn : decode_burn tx ≡ some burn
    pub program : is_token_program burn.program_id ≡ true
    pub claimed_mint : burn.mint ≡ expected.mint
    pub mint_view : burn.mint ≡ tx.mint.address
    pub not_native : burn.mint ≢ native_mint_id
    pub mint_program : tx.mint.program_id ≡ burn.program_id
    pub initialized : tx.mint.initialized ≡ true
    pub claimed_amount : burn.amount_base ≡ expected.amount_base
    pub positive : 0 < burn.amount_base
    pub claimed_decimals : tx.mint.decimals ≡ expected.decimals
    pub checked_decimals : burn.checked ≡ true → burn.decimals ≡ some tx.mint.decimals
    pub extensions : All IsKnownExtension tx.mint.extensions
    pub account_found : get tx.token_accounts burn.token_account ≡ some account
    pub account_mint : account.mint ≡ burn.mint
    pub thawed : account.frozen ≡ false
    pub authority : IsAuthority account burn role
    pub signed : includes tx.signers burn.authority ≡ true
    pub only_intent : decode_intents tx ≡ intent ∷ []
    pub intent_mint : intent.mint ≡ burn.mint
    pub intent_amount : intent.amount_base ≡ burn.amount_base
    pub intent_network :
        dest_network_eq intent.destination_network expected.destination_network ≡ true
    pub intent_destination : intent.destination ≡ expected.destination
    pub destination :
        validate_destination crypto expected.destination_network intent.destination ≡ true

  abbrev IsValid : IssuanceFields → Bytes → BurnDecode → IntentV0 → AuthorityRole → Type 0
  IsValid f c burn intent role =
      (f ≡ issuance_of crypto tx expected burn role intent) × (c ≡ commitment_of crypto f)

  reject_extensions-IsKnown : (l : List Text) → reject_extensions l ≡ none → All IsKnownExtension l
  unfolding reject_extensions
  reject_extensions-IsKnown [] h = tt
  reject_extensions-IsKnown (x ∷ l) h = (ground arith, reject_extensions-IsKnown l (ground arith))

  -- What the intents of an accepted burn `b` add, for the result with `burn` and `intent`.
  record HasIntent (b : BurnDecode) (role : AuthorityRole) (intents : List IntentV0)
      (f : IssuanceFields) (c : Bytes) (burn : BurnDecode) (intent : IntentV0) : Type 0 where
    same : burn ≡ b
    only : intents ≡ intent ∷ []
    mint : intent.mint ≡ b.mint
    amount : intent.amount_base ≡ b.amount_base
    network : dest_network_eq intent.destination_network expected.destination_network ≡ true
    claimed : intent.destination ≡ expected.destination
    destination : validate_destination crypto expected.destination_network intent.destination ≡ true
    issued : f ≡ issuance_of crypto tx expected b role intent
    commitment : c ≡ commitment_of crypto (issuance_of crypto tx expected b role intent)

  check_intents-lem :
      (b : BurnDecode) (role : AuthorityRole) (intents : List IntentV0) (f : IssuanceFields)
      (c : Bytes) (burn : BurnDecode) (intent : IntentV0)
      → check_intents crypto tx expected b role intents ≡ valid f c burn intent
      → HasIntent b role intents f c burn intent
  unfolding check_intents
  check_intents-lem b role [] f c burn intent h = absurd (ground arith)
  check_intents-lem b role (i ∷ j ∷ l) f c burn intent h = absurd (ground arith)
  check_intents-lem b role (i ∷ []) f c burn intent h =
      ground (arith, text_eq_iff i.mint b.mint, text_eq_iff i.destination expected.destination)

  -- What the account adds.
  record HasAccount (b : BurnDecode) (found : Option TokenAccountView) (f : IssuanceFields)
      (c : Bytes) (burn : BurnDecode) (intent : IntentV0) : Type 0 where
    account : TokenAccountView
    role : AuthorityRole
    is_found : found ≡ some account
    mint : account.mint ≡ b.mint
    thawed : account.frozen ≡ false
    authority : IsAuthority account b role
    signed : includes tx.signers b.authority ≡ true
    intents : HasIntent b role (decode_intents tx) f c burn intent

  check_signer-lem :
      (b : BurnDecode) (role : AuthorityRole) (f : IssuanceFields) (c : Bytes) (burn : BurnDecode)
      (intent : IntentV0)
      → check_signer crypto tx expected b role ≡ valid f c burn intent
      → (includes tx.signers b.authority ≡ true)
        × HasIntent b role (decode_intents tx) f c burn intent
  check_signer-lem b role f c burn intent h = elim (Bool-cases (includes tx.signers b.authority)) [
    | inl p ↦ (p, check_intents-lem b role (decode_intents tx) f c burn intent (ground arith))
    | inr p ↦ absurd (ground arith)
  ]

  check_account-lem :
      (b : BurnDecode) (found : Option TokenAccountView) (f : IssuanceFields) (c : Bytes)
      (burn : BurnDecode) (intent : IntentV0)
      → check_account crypto tx expected b found ≡ valid f c burn intent
      → HasAccount b found f c burn intent
  unfolding check_account
  check_account-lem b none f c burn intent h = absurd (ground arith)
  check_account-lem b (some a) f c burn intent h = elim (Bool-cases (text_eq a.owner b.authority)) [
    | inl own ↦
        let (signed, intents) = check_signer-lem b owner f c burn intent (ground arith) in
        record {
          account = a;
          role = owner;
          is_found = refl;
          mint = ground (arith, text_eq_iff a.mint b.mint);
          thawed = ground arith;
          authority = by_owner ((text_eq_iff a.owner b.authority).0 own);
          signed = signed;
          intents = intents;
        }
    | inr other ↦
        let (signed, intents) = check_signer-lem b delegate f c burn intent (ground arith) in
        record {
          account = a;
          role = delegate;
          is_found = refl;
          mint = ground (arith, text_eq_iff a.mint b.mint);
          thawed = ground arith;
          authority =
              by_delegate (ground (arith, text_eq_iff a.owner b.authority))
                (is_some_text-lem a.delegate b.authority (ground arith)) (ground arith);
          signed = signed;
          intents = intents;
        }
  ]

  check_extensions-lem :
      (b : BurnDecode) (f : IssuanceFields) (c : Bytes) (burn : BurnDecode) (intent : IntentV0)
      → check_extensions crypto tx expected b (reject_extensions tx.mint.extensions)
        ≡ valid f c burn intent
      → All IsKnownExtension tx.mint.extensions
        × HasAccount b (get tx.token_accounts b.token_account) f c burn intent
  check_extensions-lem b f c burn intent h =
      elim (Option-cases (reject_extensions tx.mint.extensions)) [
        | inl p ↦ (
          reject_extensions-IsKnown tx.mint.extensions p,
          check_account-lem b (get tx.token_accounts b.token_account) f c burn intent
              (ground arith),
        )
        | inr (why, p) ↦ absurd (ground arith)
      ]

  same_decimals-lem : (o : Option ℕ) (n : ℕ) → same_decimals o n ≡ true → o ≡ some n
  same_decimals-lem none n h = absurd (ground arith)
  same_decimals-lem (some d) n h = ground arith

  abbrev pub IsAccepted : IssuanceFields → Bytes → IntentV0 → BurnDecode → Type 0
  IsAccepted f c intent burn =
      (account : TokenAccountView) × (role : AuthorityRole) × IsBurned burn intent account role
      × (f ≡ issuance_of crypto tx expected burn role intent)
      × (c ≡ commitment_of crypto f)

  abbrev Accepting : BurnDecode → IssuanceFields → Bytes → BurnDecode → IntentV0 → Type 0
  Accepting b f c burn intent =
      (decode_burn tx ≡ some b) × (validate_burn crypto tx expected ≡ valid f c burn intent)

  extensions-Accepting :
      (b : BurnDecode) (f : IssuanceFields) (c : Bytes) (burn : BurnDecode) (intent : IntentV0)
      → Accepting b f c burn intent
      → All IsKnownExtension tx.mint.extensions
        × HasAccount b (get tx.token_accounts b.token_account) f c burn intent
  unfolding validate_burn check_burn
  extensions-Accepting b f c burn intent (p, h) =
      check_extensions-lem b f c burn intent (ground arith)

  Accepting-IsBurned :
      (b : BurnDecode) (f : IssuanceFields) (c : Bytes) (burn : BurnDecode) (intent : IntentV0)
      → Accepting b f c burn intent
      → All IsKnownExtension tx.mint.extensions
      → (a : HasAccount b (get tx.token_accounts b.token_account) f c burn intent)
      → IsBurned b intent a.account a.role
  unfolding validate_burn check_burn
  Accepting-IsBurned b f c burn intent (p, h) known a =
      let m = a.intents in
      record {
        on_network = ground arith;
        succeeded = ground arith;
        final = ground arith;
        first_burn = p;
        program = ground arith;
        claimed_mint = ground (arith, text_eq_iff b.mint expected.mint);
        mint_view = ground (arith, text_eq_iff b.mint tx.mint.address);
        not_native = ground (arith, text_eq_iff b.mint native_mint_id);
        mint_program = ground (arith, text_eq_iff tx.mint.program_id b.program_id);
        initialized = ground arith;
        claimed_amount = ground arith;
        positive = ground arith;
        claimed_decimals = ground arith;
        checked_decimals = λ k. same_decimals-lem b.decimals tx.mint.decimals (ground arith);
        extensions = known;
        account_found = a.is_found;
        account_mint = a.mint;
        thawed = a.thawed;
        authority = a.authority;
        signed = a.signed;
        only_intent = m.only;
        intent_mint = m.mint;
        intent_amount = m.amount;
        intent_network = m.network;
        intent_destination = m.claimed;
        destination = m.destination;
      }

  HasIntent-IsAccepted :
      (b : BurnDecode) (account : TokenAccountView) (role : AuthorityRole) (f : IssuanceFields)
      (c : Bytes) (burn : BurnDecode) (intent : IntentV0)
      → IsBurned b intent account role
      → HasIntent b role (decode_intents tx) f c burn intent
      → IsAccepted f c intent burn
  HasIntent-IsAccepted b account role f c burn intent facts m =
      subst (IsAccepted f c intent) (sym m.same)
        (account, role, facts, m.issued, m.commitment ∙ ap (commitment_of crypto) (sym m.issued))

  -- A burn and an intent for which the answer is "ok" are these facts of the transaction and of the
  -- claim, with the account and the role of the authority; the issuance is made of them, and the
  -- commitment is the issuance's.
  pub validate_burn-IsBurned :
      (f : IssuanceFields) (c : Bytes) (burn : BurnDecode) (intent : IntentV0)
      → validate_burn crypto tx expected ≡ valid f c burn intent
      → IsAccepted f c intent burn
  unfolding validate_burn check_burn
  validate_burn-IsBurned f c burn intent h = elim (Option-cases (decode_burn tx)) [
    | inl p ↦ absurd (ground arith)
    | inr (b, p) ↦
        let (known, a) = extensions-Accepting b f c burn intent (p, h) in
        HasIntent-IsAccepted b a.account a.role f c burn intent
          (Accepting-IsBurned b f c burn intent (p, h) known a) a.intents
  ]
