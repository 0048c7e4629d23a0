-- ===== src/Protocol/Base58/Digits.antt =====
-- Digit lists: the number that they stand for, and what the loops do to it.
use mathlib.Core.List.{reverse, reverse-cons, foldl-append}
use stamppad.Prelude.{
  ℕ, zero, suc, ◌+◌, ◌*◌, ◌/◌, ◌%◌, ◌≤◌, ◌<◌, ◌≡◌, refl, sym, ap, ap₂, ◌∙◌, inl, inr, List, [], ◌∷◌,
  foldl, arith, false, ◌==◌, ==_iff, Bool-cases, All,
}
use native.Mathlib.Nat.{div-add-mod, mod-lt}
use stamppad.Protocol.Base58.{push_carry, add_digit}

-- Least significant digit first.
unfoldable pub digit_value : ℕ → List ℕ → ℕ
digit_value base [] = 0
digit_value base (d ∷ ds) = d + base * digit_value base ds

-- Most significant digit first, after digits that make `n`.
unfoldable pub number_of : ℕ → ℕ → List ℕ → ℕ
number_of base n ds = foldl (λ v d. v * base + d) n ds

-- The last digit, the most significant one, is not zero.
abbrev pub Top : List ℕ → Type 0
Top [] = ⊥
Top (d ∷ []) = 0 < d
Top (d ∷ e ∷ ds) = Top (e ∷ ds)

Top-cons : (d : ℕ) (ds : List ℕ) → Top ds → Top (d ∷ ds)
Top-cons d [] h = absurd h
Top-cons d (e ∷ ds) h = h

push_carry-zero : (base f : ℕ) → push_carry base f 0 ≡ []
unfolding push_carry
push_carry-zero base zero = refl
push_carry-zero base (suc f) = refl

module _ (base : ℕ) (two : 2 ≤ base) where
  divides : (n : ℕ) → n % base + base * (n / base) ≡ n
  divides n = omega (arith, div-add-mod n base)

  smaller : (n f : ℕ) → 0 < n → n ≤ suc f → n / base ≤ f
  smaller n f p h = grind (arith, divides n)

  pub push_carry-value : (f c : ℕ) → c ≤ f → digit_value base (push_carry base f c) ≡ c
  unfolding push_carry digit_value
  push_carry-value zero c h = omega arith
  push_carry-value (suc f) c h = elim (Bool-cases (c == 0)) [
    | inl none_left ↦ rw none_left (sym ((==_iff c 0).0 none_left))
    | inr some_left ↦
        rw (some_left, push_carry-value f (c / base) (smaller c f (ground arith) h)) (divides c)
  ]

  pub add_digit-value :
      (mul : ℕ) (ds : List ℕ) (c : ℕ)
      → digit_value base (add_digit mul base ds c) ≡ digit_value base ds * mul + c
  unfolding add_digit digit_value
  add_digit-value mul [] c = push_carry-value c c (omega arith) ∙ omega arith
  add_digit-value mul (d ∷ ds) c = omega (
    arith,
    ap (λ (x : ℕ). base * x) (add_digit-value mul ds ((d * mul + c) / base)),
    divides (d * mul + c),
  )

  -- A positive number's last digit and the pushed rest end in a digit that is not zero.
  rest-Top :
      (f n : ℕ)
      → 0 < n
      → (0 < n / base → Top (push_carry base f (n / base)))
      → Top (n % base ∷ push_carry base f (n / base))
  rest-Top f n p k = elim (Bool-cases (n / base == 0)) [
    | inl last ↦
        let e : n / base ≡ 0 = (==_iff _ 0).0 last in
        rw (e, push_carry-zero base f) (omega (arith, divides n, ap (λ (x : ℕ). base * x) e))
    | inr more ↦ Top-cons (n % base) (push_carry base f (n / base)) (k (ground arith))
  ]

  not_zero : (n : ℕ) → 0 < n → (n == 0) ≡ false
  not_zero n q = ground arith

  push_carry-Top : (f c : ℕ) → 0 < c → c ≤ f → Top (push_carry base f c)
  unfolding push_carry
  push_carry-Top zero c p h = omega arith
  push_carry-Top (suc f) c p h =
      rw (not_zero c p) (rest-Top f c p (λ q. push_carry-Top f (c / base) q (smaller c f p h)))

  full-Top : (n : ℕ) → 0 < n → Top (n % base ∷ push_carry base (n / base) (n / base))
  full-Top n p = rest-Top (n / base) n p (λ q. push_carry-Top (n / base) (n / base) q (omega arith))

  -- A number with a nonzero top digit keeps one.
  pub add_digit-Top :
      (mul : ℕ) (ds : List ℕ) (c : ℕ) → 0 < mul → Top ds → Top (add_digit mul base ds c)
  unfolding add_digit
  add_digit-Top mul [] c m h = absurd h
  add_digit-Top mul (d ∷ []) c m h = full-Top (d * mul + c) (grind arith)
  add_digit-Top mul (d ∷ e ∷ ds) c m h =
      Top-cons ((d * mul + c) % base) (add_digit mul base (e ∷ ds) ((d * mul + c) / base))
        (add_digit-Top mul (e ∷ ds) ((d * mul + c) / base) m h)

  -- From the initial digits, a nonzero digit makes one, and zero changes nothing.
  pub add_digit-Top_first : (mul c : ℕ) → 0 < c → Top (add_digit mul base (0 ∷ []) c)
  unfolding add_digit
  add_digit-Top_first mul c p = full-Top (0 * mul + c) (omega arith)

  zero_div : 0 / base ≡ 0
  zero_div = grind arith

  pub add_digit-zero : (mul : ℕ) → add_digit mul base (0 ∷ []) 0 ≡ 0 ∷ []
  unfolding add_digit
  add_digit-zero mul =
      let e : 0 * mul + 0 ≡ 0 = omega arith in
      rw (e, zero_div) (ap₂ (λ x y. x ∷ y) (grind arith) (push_carry-zero base 0))

  -- Adding the digits `ds`, most significant first, in base `mul`.
  pub foldl-value :
      (mul : ℕ) (acc ds : List ℕ)
      → digit_value base (foldl (add_digit mul base) acc ds)
        ≡ number_of mul (digit_value base acc) ds
  unfolding number_of
  foldl-value mul acc [] = refl
  foldl-value mul acc (d ∷ ds) =
      foldl-value mul (add_digit mul base acc d) ds
      ∙ ap (λ (n : ℕ). foldl (λ v d. v * mul + d) n ds) (add_digit-value mul acc d)

  pub foldl-Top :
      (mul : ℕ) (acc ds : List ℕ) → 0 < mul → Top acc → Top (foldl (add_digit mul base) acc ds)
  foldl-Top mul acc [] m h = h
  foldl-Top mul acc (d ∷ ds) m h =
      foldl-Top mul (add_digit mul base acc d) ds m (add_digit-Top mul acc d m h)

  push_carry-lt : (f c : ℕ) → All (λ d. d < base) (push_carry base f c)
  unfolding push_carry
  push_carry-lt zero c = tt
  push_carry-lt (suc f) c = elim (Bool-cases (c == 0)) [
    | inl e ↦ rw e tt
    | inr e ↦ rw e (mod-lt c (omega arith), push_carry-lt f (c / base))
  ]

  -- Every digit is below the base.
  pub add_digit-lt : (mul : ℕ) (ds : List ℕ) (c : ℕ) → All (λ d. d < base) (add_digit mul base ds c)
  unfolding add_digit
  add_digit-lt mul [] c = push_carry-lt c c
  add_digit-lt mul (d ∷ ds) c =
      (mod-lt (d * mul + c) (omega arith), add_digit-lt mul ds ((d * mul + c) / base))

-- The value of the digits, read from the most significant one.
pub number_of-reverse :
    (base : ℕ) (ds : List ℕ) → number_of base 0 (reverse ds) ≡ digit_value base ds
unfolding number_of digit_value
number_of-reverse base [] = refl
number_of-reverse base (d ∷ ds) =
    ap (number_of base 0) (reverse-cons d ds)
    ∙ foldl-append (λ v e. v * base + e) 0 (reverse ds) (d ∷ [])
    ∙ omega (arith, ap (λ (v : ℕ). v * base) (number_of-reverse base ds))

pub Top-positive : (ds : List ℕ) → Top ds → 0 < digit_value 256 ds
unfolding digit_value
Top-positive [] h = absurd h
Top-positive (d ∷ []) h = omega arith
Top-positive (d ∷ e ∷ ds) h = omega (arith, Top-positive (e ∷ ds) h)

-- Bytes with a nonzero top byte are determined by their number.
pub digit_value-injective :
    (xs ys : List ℕ)
    → All (λ d. d < 256) xs
    → All (λ d. d < 256) ys
    → Top xs
    → Top ys
    → digit_value 256 xs ≡ digit_value 256 ys
    → xs ≡ ys
unfolding digit_value
digit_value-injective [] ys hx hy tx ty e = absurd tx
digit_value-injective (x ∷ xs) [] hx hy tx ty e = absurd ty
digit_value-injective (x ∷ []) (y ∷ []) hx hy tx ty e = ap (λ d. d ∷ []) (omega arith)
digit_value-injective (x ∷ []) (y ∷ y' ∷ ys) hx hy tx ty e =
    absurd (omega (arith, Top-positive (y' ∷ ys) ty, hx.0))
digit_value-injective (x ∷ x' ∷ xs) (y ∷ []) hx hy tx ty e =
    absurd (omega (arith, Top-positive (x' ∷ xs) tx, hy.0))
digit_value-injective (x ∷ x' ∷ xs) (y ∷ y' ∷ ys) (hx, hxs) (hy, hys) tx ty e =
    ap₂ (λ d ds. d ∷ ds) (omega arith)
      (digit_value-injective (x' ∷ xs) (y' ∷ ys) hxs hys tx ty (omega arith))
