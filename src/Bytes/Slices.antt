-- ===== src/Bytes/Slices.antt =====
-- Cutting byte arrays apart and putting them together.
use stamppad.Prelude.{
  ℕ, zero, suc, ◌+◌, ◌-◌, ◌≤◌, ◌≡◌, refl, sym, ap, ◌∙◌, List, [], ◌∷◌, ◌++◌, arith, length, take,
  drop, All, length-take, length-drop, take-append-drop,
}
use native.Mathlib.Nat.{zero-add}
use Prim.Native.Nat.add
use stamppad.Bytes.{Bytes, IsBytes, subarray}

module _ {ℓ} {A : Type ℓ} where
  drop-nil : (k : ℕ) → drop {A = A} k [] ≡ []
  drop-nil zero = refl
  drop-nil (suc k) = refl

  pub drop-drop : (m n : ℕ) (xs : List A) → drop m (drop n xs) ≡ drop (n + m) xs
  drop-drop m zero xs = rw zero-add
  drop-drop m (suc n) [] = drop-nil m ∙ sym (drop-nil (suc n + m))
  drop-drop m (suc n) (x ∷ xs) = drop-drop m n xs ∙ rw add.suc

  pub drop-append_more :
      (n k : ℕ) (xs ys : List A) → length xs ≡ n → drop (n + k) (xs ++ ys) ≡ drop k ys
  drop-append_more zero k [] ys h = rw zero-add
  drop-append_more zero k (x ∷ xs) ys h = absurd (omega arith)
  drop-append_more (suc n) k [] ys h = absurd (omega arith)
  drop-append_more (suc n) k (x ∷ xs) ys h = rw add.suc (drop-append_more n k xs ys (omega arith))

  pub take-all : (n : ℕ) (xs : List A) → length xs ≡ n → take n xs ≡ xs
  take-all zero [] h = refl
  take-all zero (x ∷ xs) h = absurd (omega arith)
  take-all (suc n) [] h = refl
  take-all (suc n) (x ∷ xs) h = ap (λ t. x ∷ t) (take-all n xs (omega arith))

  pub take-All {κ} : (P : A → Type κ) (n : ℕ) (xs : List A) → All P xs → All P (take n xs)
  take-All P zero xs h = tt
  take-All P (suc n) [] h = tt
  take-All P (suc n) (x ∷ xs) (p, h) = (p, take-All P n xs h)

  pub drop-All {κ} : (P : A → Type κ) (n : ℕ) (xs : List A) → All P xs → All P (drop n xs)
  drop-All P zero xs h = h
  drop-All P (suc n) [] h = tt
  drop-All P (suc n) (x ∷ xs) (p, h) = drop-All P n xs h

pub length-subarray : (i j : ℕ) (b : Bytes) → j ≤ length b → length (subarray i j b) ≡ j - i
length-subarray i j b h = omega (arith, length-take {0} (j - i) (drop i b), length-drop {0} i b)

pub subarray-IsBytes : (i j : ℕ) (b : Bytes) → IsBytes b → IsBytes (subarray i j b)
subarray-IsBytes i j b h = take-All _ (j - i) (drop i b) (drop-All _ i b h)

-- A slice and what follows it.
pub subarray-drop : (i j : ℕ) (b : Bytes) → i ≤ j → subarray i j b ++ drop j b ≡ drop i b
subarray-drop i j b h =
    ap (λ t. subarray i j b ++ t)
      (ap (λ (n : ℕ). drop n b) (omega arith) ∙ sym (drop-drop (j - i) i b))
    ∙ take-append-drop (j - i) (drop i b)
