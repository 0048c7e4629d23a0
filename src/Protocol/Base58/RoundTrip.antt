-- ===== src/Protocol/Base58/RoundTrip.antt =====
-- Decoding after encoding.
use mathlib.Core.List.{reverse, reverse-cons, reverse-reverse}
use stamppad.Prelude.{
  ℕ, zero, suc, ◌≤◌, ◌<◌, ◌≡◌, refl, sym, ap, ap₂, ◌∙◌, subst, Bool, true, false, Option, none,
  some, List, [], ◌∷◌, ◌++◌, map, foldl, arith, ◌==◌, ==_iff, replicate, below_all, below_all-true,
  if◌then◌else◌, All, append-nil, All-append,
}
use stamppad.Bytes.{Bytes, IsBytes}
use stamppad.Protocol.Base58.{
  add_digit, leading, base58_char, base58_value, base58_values, decoded, encode_base58,
  decode_base58,
}
use stamppad.Protocol.Base58.Digits.{
  digit_value, number_of, Top, add_digit-Top_first, add_digit-zero, add_digit-lt, foldl-value,
  foldl-Top, number_of-reverse, digit_value-injective,
}

-- The alphabet, letter by letter: `d` has a letter, which has the value `d`, and only 0 has a `1`.
has_value : Option ℕ → ℕ → Bool
has_value none d = false
has_value (some e) d = e == d

letter_ok : ℕ → Bool
letter_ok d = has_value (base58_value (base58_char d)) d

no_one : ℕ → Bool
no_one d = if base58_char (suc d) == b'1' then false else true

has_value-eq : (o : Option ℕ) (d : ℕ) → has_value o d ≡ true → o ≡ some d
unfolding has_value
has_value-eq none d h = cc
has_value-eq (some e) d h = ap some ((==_iff e d).0 h)

letter_table : below_all letter_ok 58 ≡ true
unfolding below_all letter_ok has_value base58_value
letter_table = refl

base58_value-base58_char : (d : ℕ) → d < 58 → base58_value (base58_char d) ≡ some d
base58_value-base58_char d h =
    has_value-eq _ d (unfold letter_ok in below_all-true letter_ok 58 d letter_table h)

one_table : below_all no_one 57 ≡ true
unfolding below_all no_one
one_table = refl

if-false : (b : Bool) → (if b then false else true) ≡ true → b ≡ false
if-false true h = cc
if-false false h = refl

base58_char-ne : (d : ℕ) → 0 < d → d < 58 → (base58_char d == b'1') ≡ false
base58_char-ne zero p h = absurd (omega arith)
base58_char-ne (suc d) p h =
    if-false _ (unfold no_one in below_all-true no_one 57 d one_table (omega arith))

leading-replicate :
    (c : ℕ) (z y : ℕ) (ys : List ℕ) → (y == c) ≡ false → leading c (replicate z c ++ (y ∷ ys)) ≡ z
unfolding leading
leading-replicate c zero y ys h = rw h
leading-replicate c (suc z) y ys h = rw ((==_iff c c).1 refl, leading-replicate c z y ys h)

base58_values-map :
    (z : ℕ) (ds : List ℕ)
    → All (λ d. d < 58) ds
    → base58_values (replicate z b'1' ++ map base58_char ds) ≡ some (replicate z 0 ++ ds)
unfolding base58_values
base58_values-map (suc z) ds h = rw (base58_values-map z ds h) (unfold base58_value in refl)
base58_values-map zero [] h = refl
base58_values-map zero (d ∷ ds) (hd, h) =
    rw (base58_value-base58_char d hd, base58_values-map zero ds h)

-- Leading zeros leave the initial digits.
foldl-replicate :
    (mul base : ℕ) (z : ℕ) (ys : List ℕ)
    → 2 ≤ base
    → foldl (add_digit mul base) (0 ∷ []) (replicate z 0 ++ ys)
      ≡ foldl (add_digit mul base) (0 ∷ []) ys
foldl-replicate mul base zero ys two = refl
foldl-replicate mul base (suc z) ys two =
    ap (λ acc. foldl (add_digit mul base) acc (replicate z 0 ++ ys)) (add_digit-zero base two mul)
    ∙ foldl-replicate mul base z ys two

foldl-lt :
    (mul base : ℕ) (acc ys : List ℕ)
    → 2 ≤ base
    → All (λ d. d < base) acc
    → All (λ d. d < base) (foldl (add_digit mul base) acc ys)
foldl-lt mul base acc [] two h = h
foldl-lt mul base acc (y ∷ ys) two h =
    foldl-lt mul base (add_digit mul base acc y) ys two (add_digit-lt base two mul acc y)

reverse-All : (P : ℕ → Type 0) (xs : List ℕ) → All P xs → All P (reverse xs)
reverse-All P [] h = tt
reverse-All P (x ∷ xs) (p, h) =
    rw reverse-cons (All-append P (reverse xs) (x ∷ []) (reverse-All P xs h) (p, tt))

Top-append : (xs : List ℕ) (x : ℕ) → 0 < x → Top (xs ++ x ∷ [])
Top-append [] x h = h
Top-append (y ∷ []) x h = h
Top-append (y ∷ z ∷ xs) x h = Top-append (z ∷ xs) x h

-- A list with a nonzero last element, from its end.
reverse-Top : (xs : List ℕ) → Top xs → (y : ℕ) × (ys : List ℕ) × (reverse xs ≡ y ∷ ys) × (0 < y)
reverse-Top [] h = absurd h
reverse-Top (x ∷ []) h = (x, [], refl, h)
reverse-Top (x ∷ x' ∷ xs) h =
    let (y, ys, e, p) = reverse-Top (x' ∷ xs) h in
    (y, ys ++ x ∷ [], rw (reverse-cons x (x' ∷ xs), e) refl, p)

-- The digits of a number whose first digit is not zero, in another base.
module _ (mul base x : ℕ) (xs : List ℕ) (m : 0 < mul) (two : 2 ≤ base) (p : 0 < x) where
  abbrev converted : List ℕ
  converted = foldl (add_digit mul base) (0 ∷ []) (x ∷ xs)

  converted-Top : Top converted
  converted-Top =
      foldl-Top base two mul (add_digit mul base (0 ∷ []) x) xs m
        (add_digit-Top_first base two mul x p)

  converted-lt : All (λ d. d < base) converted
  converted-lt =
      foldl-lt mul base (add_digit mul base (0 ∷ []) x) xs two
        (add_digit-lt base two mul (0 ∷ []) x)

  converted-value : digit_value base converted ≡ number_of mul 0 (x ∷ xs)
  converted-value =
      foldl-value base two mul (0 ∷ []) (x ∷ xs)
      ∙ ap (λ (v : ℕ). number_of mul v (x ∷ xs)) (unfold digit_value in omega arith)

-- There and back, below the leading zeros.
module _ (x : ℕ) (xs : List ℕ) (p : 0 < x) (h : All (λ d. d < 256) (x ∷ xs)) where
  abbrev base58_digits : List ℕ
  base58_digits = converted 256 58 x xs (omega arith) (omega arith) p

  converted_back :
      (y : ℕ) (ys : List ℕ)
      → 0 < y
      → reverse base58_digits ≡ y ∷ ys
      → reverse (foldl (add_digit 58 256) (0 ∷ []) (y ∷ ys)) ≡ x ∷ xs
  converted_back y ys q e =
      ap reverse (
        digit_value-injective _ (reverse (x ∷ xs))
          (converted-lt 58 256 y ys (omega arith) (omega arith) q) (reverse-All _ (x ∷ xs) h)
          (converted-Top 58 256 y ys (omega arith) (omega arith) q)
          (rw reverse-cons (Top-append (reverse xs) x p))
          (converted-value 58 256 y ys (omega arith) (omega arith) q
            ∙ ap (number_of 58 0) (sym e)
            ∙ number_of-reverse 58 base58_digits
            ∙ converted-value 256 58 x xs (omega arith) (omega arith) p
            ∙ ap (number_of 256 0) (sym (reverse-reverse (x ∷ xs)))
            ∙ number_of-reverse 256 (reverse (x ∷ xs))))
      ∙ reverse-reverse (x ∷ xs)

encode_base58-unfold :
    (z x : ℕ) (xs : List ℕ)
    → encode_base58 (replicate z 0 ++ (x ∷ xs))
      ≡ replicate (leading 0 (replicate z 0 ++ (x ∷ xs))) b'1'
        ++ map base58_char (reverse (foldl (add_digit 256 58) (0 ∷ []) (replicate z 0 ++ (x ∷ xs))))
unfolding encode_base58
encode_base58-unfold zero x xs = refl
encode_base58-unfold (suc z) x xs = refl

decode_base58-unfold :
    (z y : ℕ) (ys : List ℕ)
    → decode_base58 (replicate z b'1' ++ map base58_char (y ∷ ys))
      ≡ decoded
          (leading b'1' (replicate z b'1' ++ map base58_char (y ∷ ys)))
          (base58_values (replicate z b'1' ++ map base58_char (y ∷ ys)))
unfolding decode_base58
decode_base58-unfold zero y ys = refl
decode_base58-unfold (suc z) y ys = refl

decode_base58-letters :
    (z y : ℕ) (ys : List ℕ)
    → 0 < y
    → All (λ d. d < 58) (y ∷ ys)
    → decode_base58 (replicate z b'1' ++ map base58_char (y ∷ ys))
      ≡ some (replicate z 0 ++ reverse (foldl (add_digit 58 256) (0 ∷ []) (y ∷ ys)))
decode_base58-letters z y ys p h =
    decode_base58-unfold z y ys
    ∙ rw
        (
          leading-replicate b'1' z (base58_char y) (map base58_char ys) (base58_char-ne y p h.0),
          base58_values-map z (y ∷ ys) h,
        )
        (ap (λ ds. some (replicate z 0 ++ reverse ds))
          (foldl-replicate 58 256 z (y ∷ ys) (omega arith)))

-- Every byte array with a byte that is not zero, `z` zeros before the first such byte `x`, is what
-- decoding its base58 text gives.
pub decode_base58-encode_base58 :
    (z x : ℕ) (xs : Bytes)
    → 0 < x
    → IsBytes (x ∷ xs)
    → decode_base58 (encode_base58 (replicate z 0 ++ (x ∷ xs))) ≡ some (replicate z 0 ++ (x ∷ xs))
decode_base58-encode_base58 z x xs p h =
    let (y, ys, e, q) =
      reverse-Top (base58_digits x xs p h)
        (converted-Top 256 58 x xs (omega arith) (omega arith) p) in
    let lt = subst (All (λ d. d < 58)) e (
      reverse-All _ (base58_digits x xs p h)
        (converted-lt 256 58 x xs (omega arith) (omega arith) p)) in
    ap decode_base58 (
      encode_base58-unfold z x xs
      ∙ rw (leading-replicate 0 z x xs (ground arith)) (
          ap (λ ds. replicate z b'1' ++ map base58_char (reverse ds))
            (foldl-replicate 256 58 z (x ∷ xs) (omega arith))
          ∙ ap (λ ds. replicate z b'1' ++ map base58_char ds) e))
    ∙ decode_base58-letters z y ys q lt
    ∙ ap (λ ds. some (replicate z 0 ++ ds)) (converted_back x xs p h y ys q e)

leading-all : (c n : ℕ) → leading c (replicate n c) ≡ n
unfolding leading
leading-all c zero = refl
leading-all c (suc n) = rw ((==_iff c c).1 refl, leading-all c n)

replicate-last : (c n : ℕ) → replicate n c ++ c ∷ [] ≡ replicate (suc n) c
replicate-last c zero = refl
replicate-last c (suc n) = ap (λ t. c ∷ t) (replicate-last c n)

foldl-zeros :
    (mul base n : ℕ) → 2 ≤ base → foldl (add_digit mul base) (0 ∷ []) (replicate n 0) ≡ 0 ∷ []
foldl-zeros mul base n two =
    ap (foldl (add_digit mul base) (0 ∷ [])) (sym (append-nil (replicate n 0)))
    ∙ foldl-replicate mul base n [] two

base58_values-ones : (n : ℕ) → base58_values (replicate n b'1') ≡ some (replicate n 0)
base58_values-ones n =
    ap base58_values (sym (append-nil (replicate n b'1')))
    ∙ base58_values-map n [] tt
    ∙ ap some (append-nil (replicate n 0))

encode_base58-zeros :
    (n : ℕ)
    → encode_base58 (replicate (suc n) 0)
      ≡ replicate (leading 0 (replicate (suc n) 0)) b'1'
        ++ map base58_char (reverse (foldl (add_digit 256 58) (0 ∷ []) (replicate (suc n) 0)))
unfolding encode_base58
encode_base58-zeros n = refl

decode_base58-ones :
    (n : ℕ)
    → decode_base58 (replicate (suc n) b'1')
      ≡ decoded (leading b'1' (replicate (suc n) b'1')) (base58_values (replicate (suc n) b'1'))
unfolding decode_base58
decode_base58-ones n = refl

-- The text of `n + 1` zero bytes is `n + 2` ones, and the bytes of `n + 1` ones are `n + 2` zeros:
-- an array that holds only zeros gains one each way, so it is not read back.
pub decode_base58-replicate :
    (n : ℕ)
    → (encode_base58 (replicate (suc n) 0) ≡ replicate (suc (suc n)) b'1')
      × (decode_base58 (replicate (suc n) b'1') ≡ some (replicate (suc (suc n)) 0))
decode_base58-replicate n = (
  encode_base58-zeros n
      ∙ ap₂ (λ k ds. replicate k b'1' ++ map base58_char (reverse ds)) (leading-all 0 (suc n))
          (foldl-zeros 256 58 (suc n) (omega arith))
      ∙ replicate-last b'1' (suc n),
  decode_base58-ones n
      ∙ ap₂ decoded (leading-all b'1' (suc n)) (base58_values-ones (suc n))
      ∙ ap (λ ds. some (replicate (suc n) 0 ++ reverse ds))
          (foldl-zeros 58 256 (suc n) (omega arith))
      ∙ ap some (replicate-last 0 (suc n)),
)
