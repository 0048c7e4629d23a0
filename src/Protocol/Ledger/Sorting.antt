-- ===== src/Protocol/Ledger/Sorting.antt =====
-- The last sort of `rebuildLedger`, and its whole answer.
use mathlib.Core.List.{Memᴰ}
use stamppad.Prelude.{
  ℕ, ◌≡◌, refl, sym, ◌∙◌, subst, ap, ap₂, length, suc, inl, inr, Option, some, List, [], ◌∷◌, arith,
  Bool-cases, Option-cases, All, Ordering,
}
use stamppad.Text.{Text, text_eq}
use stamppad.Protocol.Types.{AcceptedIssuance, InstructionRef, CanonicalInstruction, BurnDecode}
use stamppad.Protocol.Crypto.{Crypto}
use stamppad.Protocol.Encoding.{parse_locator, compare_locators}
use stamppad.Protocol.Validate.{burn_of, burn_with_accounts, first_burn, decode_burn}
use stamppad.Protocol.Validate.Burns.{validate_burn-IsBurned}
use stamppad.Protocol.Ledger.{
  RebuildInput, RebuildOutput, compare_rows, insert_before, insert_row, insert_sorted, sort_rows,
  rebuild_ledger, output_of, finish,
}
use stamppad.Protocol.Ledger.Units.{reported, units_of, reported-stamp_units_all}
use stamppad.Protocol.Ledger.Claims.{
  All-map_each, IsOtherRow, NoneTwice, IsClaimed, rebuild_events-IsSound,
}

abbrev pub Parses : Text → Type 0
Parses t = (l : ℕ × Option ℕ) × (parse_locator t ≡ some l)

compare_rows-Parses :
    (a b : AcceptedIssuance)
    → Parses a.burn_locator
    → Parses b.burn_locator
    → (o : Ordering) × (compare_rows a b ≡ some o)
unfolding compare_rows compare_locators
compare_rows-Parses a b ((oa, ia), p) ((ob, ib), q) =
    elim (Bool-cases (text_eq a.source_tx b.source_tx)) [
      | inl t ↦ rw (t, p, q) (_, refl)
      | inr f ↦ rw f (_, refl)
    ]

-- A list with one more row, somewhere in it.
data Placed (a : AcceptedIssuance) : List AcceptedIssuance → List AcceptedIssuance → Type 0 where
  here : (bs : List AcceptedIssuance) → Placed a bs (a ∷ bs)
  later :
      (b : AcceptedIssuance) (bs l : List AcceptedIssuance)
      → Placed a bs l
      → Placed a (b ∷ bs) (b ∷ l)

Placed-All :
    (Q : AcceptedIssuance → Type 0) (a : AcceptedIssuance) (bs l : List AcceptedIssuance)
    → Placed a bs l
    → Q a
    → All Q bs
    → All Q l
Placed-All Q a _ _ (here bs) q h = (q, h)
Placed-All Q a _ _ (later b bs l p) q (k, h) = (k, Placed-All Q a bs l p q h)

Placed-NoneTwice :
    (a : AcceptedIssuance) (bs l : List AcceptedIssuance)
    → Placed a bs l
    → All (IsOtherRow a) bs
    → NoneTwice bs
    → NoneTwice l
Placed-NoneTwice a _ _ (here bs) h n = (h, n)
Placed-NoneTwice a _ _ (later b bs l p) (k, h) (m, n) =
    (Placed-All (IsOtherRow b) a bs l p (λ e. k (sym e)) m, Placed-NoneTwice a bs l p h n)

insert_before-Placed :
    (a b : AcceptedIssuance) (bs l : List AcceptedIssuance) (o : Ordering)
    → Placed a bs l
    → (r : List AcceptedIssuance) × (insert_before a b bs (some l) (some o) ≡ some r)
      × Placed a (b ∷ bs) r
insert_before-Placed a b bs l Ordering.lt p = (a ∷ b ∷ bs, refl, here (b ∷ bs))
insert_before-Placed a b bs l Ordering.eq p = (a ∷ b ∷ bs, refl, here (b ∷ bs))
insert_before-Placed a b bs l Ordering.gt p = (b ∷ l, refl, later b bs l p)

abbrev RowParses : AcceptedIssuance → Type 0
RowParses a = Parses a.burn_locator

insert_row-Placed :
    (a : AcceptedIssuance) (bs : List AcceptedIssuance)
    → RowParses a
    → All RowParses bs
    → (r : List AcceptedIssuance) × (insert_row a bs ≡ some r) × Placed a bs r
unfolding insert_row
insert_row-Placed a [] pa h = (a ∷ [], refl, here [])
insert_row-Placed a (b ∷ bs) pa (pb, ps) =
    let (l, e, p) = insert_row-Placed a bs pa ps in
    let (o, c) = compare_rows-Parses a b pa pb in
    let (r, q, k) = insert_before-Placed a b bs l o p in (r, ap₂ (insert_before a b bs) e c ∙ q, k)

-- What sorting keeps.
record Sorted (rows sorted : List AcceptedIssuance) : Type 1 where
  same_length : length sorted ≡ length rows
  all : (Q : AcceptedIssuance → Type 0) → All Q rows → All Q sorted
  none_twice : NoneTwice rows → NoneTwice sorted

Placed-length :
    (a : AcceptedIssuance) (bs l : List AcceptedIssuance)
    → Placed a bs l
    → length l ≡ suc (length bs)
Placed-length a _ _ (here bs) = refl
Placed-length a _ _ (later b bs l p) = ap suc (Placed-length a bs l p)

sort_rows-Sorted :
    (rows : List AcceptedIssuance)
    → All RowParses rows
    → (sorted : List AcceptedIssuance) × (sort_rows rows ≡ some sorted) × Sorted rows sorted
unfolding sort_rows
sort_rows-Sorted [] h =
    ([], refl, record { same_length = refl; all = λ Q h. h; none_twice = λ h. h })
sort_rows-Sorted (a ∷ rows) (pa, h) =
    let (l, e, k) = sort_rows-Sorted rows h in
    let (r, q, p) = insert_row-Placed a l pa (k.all RowParses h) in
    (
      r,
      ap (insert_sorted a) e ∙ q,
      record {
        same_length = Placed-length a l r p ∙ ap suc k.same_length;
        all = λ Q (qa, hq). Placed-All Q a l r p qa (k.all Q hq);
        none_twice = λ (m, n). Placed-NoneTwice a l r p (k.all (IsOtherRow a) m) (k.none_twice n);
      },
    )

burn_with_accounts-locator :
    (locator : Text) (i : InstructionRef) (accounts : List Text) (b : BurnDecode)
    → burn_with_accounts locator i accounts ≡ some b
    → b.locator ≡ locator
burn_with_accounts-locator locator i [] b h = absurd (ground arith)
burn_with_accounts-locator locator i (a ∷ []) b h = absurd (ground arith)
burn_with_accounts-locator locator i (a ∷ m ∷ []) b h = absurd (ground arith)
burn_with_accounts-locator locator i (a ∷ m ∷ o ∷ rest) b h = ground arith

burn_of-locator :
    (item : CanonicalInstruction) (b : BurnDecode)
    → burn_of item ≡ some b
    → b.locator ≡ item.locator
unfolding burn_of
burn_of-locator item b h =
    burn_with_accounts-locator item.locator item.instruction item.instruction.accounts b
      (ground arith)

first_burn-Parses :
    (items : List CanonicalInstruction) (b : BurnDecode)
    → All (λ item. Parses item.locator) items
    → first_burn items ≡ some b
    → Parses b.locator
unfolding first_burn
first_burn-Parses [] b h e = absurd (ground arith)
first_burn-Parses (item ∷ items) b (p, h) e = elim (Option-cases (burn_of item)) [
  | inl n ↦ first_burn-Parses items b h (ground arith)
  | inr (c, q) ↦
      let same : c ≡ b = ground arith in
      subst Parses (sym (burn_of-locator item c q) ∙ ap (λ x. x.locator) same) p
]

all_at : {A : Type 0} (P : A → Type 0) (l : List A) (a : A) → All P l → Memᴰ a l → P a
all_at P [] a h m = elim m [ ]
all_at P (x ∷ l) a (p, h) (Memᴰ.head e) = subst P (sym e) p
all_at P (x ∷ l) a (p, h) (Memᴰ.tail m) = all_at P l a h m

module _ (crypto : Crypto) (input : RebuildInput) where
  abbrev pub HasLocators : Type 0
  HasLocators = All (λ tx. All (λ item. Parses item.locator) tx.instructions) input.solana

  IsClaimed-RowParses :
      HasLocators → (row : AcceptedIssuance) → IsClaimed crypto input row → RowParses row
  unfolding decode_burn
  IsClaimed-RowParses h row c =
      let (account, role, facts, f, _) =
        validate_burn-IsBurned crypto c.tx _ c.issuance c.commitment c.burn c.intent c.is_valid in
      let p =
        first_burn-Parses c.tx.instructions c.burn (all_at _ input.solana c.tx h c.tx_there)
          facts.first_burn in
      subst Parses (sym (ap (λ x. x.burn_locator) c.row_issuance ∙ ap (λ x. x.burn_locator) f)) p

  -- What holds of the whole answer.
  pub record IsLedger (out : RebuildOutput) : Type 0 where
    pub claimed : All (IsClaimed crypto input) out.accepted
    pub none_twice : NoneTwice out.accepted
    pub units : (k : Text) → reported out.accepted_stamp_units k ≡ units_of k out.accepted

  -- When the locators of all instructions are well formed, the ledger is rebuilt without an
  -- exception; each accepted row is made of a burn of the input that validates and of a publication
  -- of the input that publishes its issuance, no two rows are of the same burn event, and the units
  -- reported for a mint are the sum of the base units of its rows.
  pub rebuild_ledger-IsLedger :
      HasLocators → (out : RebuildOutput) × (rebuild_ledger crypto input ≡ some out) × IsLedger out
  unfolding rebuild_ledger
  rebuild_ledger-IsLedger h =
      let (st, e, s) = rebuild_events-IsSound crypto input in
      let (rows, q, k) = sort_rows-Sorted st.accepted (
        All-map_each (IsClaimed crypto input) RowParses st.accepted (IsClaimed-RowParses h)
          s.claimed) in
      (
        _,
        ap finish e ∙ ap (output_of st) q,
        record {
          claimed = k.all (IsClaimed crypto input) s.claimed;
          none_twice = k.none_twice s.none_twice;
          units = reported-stamp_units_all rows;
        },
      )
