-- ===== src/Protocol/Ledger/Units.antt =====
-- The units per mint that `rebuildLedger` reports.
use stamppad.Prelude.{
  ℕ, zero, suc, ◌+◌, ◌*◌, ◌/◌, ◌%◌, ◌<◌, ◌≡◌, refl, ap, ◌∙◌, inl, inr, List, [], ◌∷◌, arith,
  Bool-cases, ltb, if◌then◌else◌,
}
use stamppad.Prelude.Dict.{get, put, get-put}
use stamppad.Text.{Text, text_eq, text_eq_iff, text_key}
use stamppad.Protocol.Types.{AcceptedIssuance}
use stamppad.Protocol.Preimage.{digits_before, decimal}
use stamppad.Protocol.Encoding.{read_number}
use stamppad.Protocol.Ledger.{number_of, text_or_zero, stamp_units}

read_number-digit :
    (k c d : ℕ) (rest : Text)
    → d < 10
    → read_number k c ((b'0' + d) ∷ rest) ≡ read_number (k * 10 + d) (c + 1) rest
unfolding read_number
read_number-digit k c d rest h = ground arith

read_number-digits_before :
    (f n : ℕ) (rest : Text)
    → n < f
    → (c : ℕ) × (read_number 0 0 (digits_before f n rest) ≡ read_number n c rest)
unfolding digits_before
read_number-digits_before zero n rest h = absurd (omega arith)
read_number-digits_before (suc f) n rest h = elim (Bool-cases (ltb n 10)) [
  | inl t ↦ (
    1,
    rw t (
        read_number-digit 0 0 n rest (ground arith) ∙ ap (λ k. read_number k 1 rest) (omega arith)),
  )
  | inr g ↦
      let (c, e) = read_number-digits_before f (n / 10) ((b'0' + n % 10) ∷ rest) (ground arith) in
      (
        c + 1,
        rw g (
            e
            ∙ read_number-digit (n / 10) c (n % 10) rest (omega arith)
            ∙ ap (λ k. read_number k (c + 1) rest) (omega arith)),
      )
]

number_of-decimal : (n : ℕ) → number_of (decimal n) ≡ n
unfolding decimal read_number
number_of-decimal n =
    let (c, e) = read_number-digits_before (suc n) n [] (omega arith) in ap (λ r. r.0) e

-- The base units of the rows of one mint.
abbrev pub units_of : Text → List AcceptedIssuance → ℕ
units_of k [] = 0
units_of k (row ∷ rows) =
    (if text_eq row.mint k then number_of row.amount_base else 0) + units_of k rows

abbrev pub reported : List (Text × Text) → Text → ℕ
reported m k = number_of (text_or_zero (get m k))

reported-put :
    (m : List (Text × Text)) (j k : Text) (n : ℕ)
    → reported (put m j (decimal n)) k ≡ (if text_eq j k then n else reported m k)
reported-put m j k n =
    ap (λ o. number_of (text_or_zero o)) (get-put m j k (decimal n))
    ∙ elim (Bool-cases (text_eq j k)) [ inl t ↦ rw t (number_of-decimal n) | inr f ↦ rw f refl ]

reported-stamp_units :
    (m : List (Text × Text)) (rows : List AcceptedIssuance) (k : Text)
    → reported (stamp_units m rows) k ≡ reported m k + units_of k rows
unfolding stamp_units
reported-stamp_units m [] k = omega arith
reported-stamp_units m (row ∷ rows) k =
    let more = number_of (text_or_zero (get m row.mint)) + number_of row.amount_base in
    reported-stamp_units (put m row.mint (decimal more)) rows k
    ∙ ap (λ n. n + units_of k rows) (reported-put m row.mint k more)
    ∙ elim (Bool-cases (text_eq row.mint k)) [
      | inl t ↦
          let same = (text_eq_iff row.mint k).0 t in rw t (omega (arith, ap (reported m) same))
      | inr f ↦ rw f (omega arith)
    ]

pub reported-stamp_units_all :
    (rows : List AcceptedIssuance) (k : Text) → reported (stamp_units [] rows) k ≡ units_of k rows
unfolding read_number get
reported-stamp_units_all rows k = reported-stamp_units [] rows k ∙ omega arith
