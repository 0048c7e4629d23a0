-- ===== src/Sort/Sorted.antt =====
-- Sorted lists, and the sort as a permutation.
use mathlib.Core.List.{Permᴰ}
use mathlib.Core.List.Permᴰ
use stamppad.Prelude.{
  ◌≡◌, refl, inl, inr, true, false, List, [], ◌∷◌, arith, Bool-cases, Ordering, All,
}
use stamppad.Sort.{IsOrder, insert, insert-All, is_gt, sort}

-- Every element is related to all that come after it.
abbrev pub IsSorted {ℓ} : {A : Type ℓ} → (A → A → Type 0) → List A → Type 0
IsSorted R [] = Unit
IsSorted R (x ∷ xs) = All (R x) xs × IsSorted R xs

pub All-weaken {ℓ} :
    {A : Type ℓ} (P Q : A → Type 0) (xs : List A) → ((a : A) → P a → Q a) → All P xs → All Q xs
All-weaken P Q [] w h = tt
All-weaken P Q (x ∷ xs) w h = (w x h.0, All-weaken P Q xs w h.1)

pub IsSorted-weaken {ℓ} :
    {A : Type ℓ} (R S : A → A → Type 0) (xs : List A)
    → ((a b : A) → R a b → S a b)
    → IsSorted R xs
    → IsSorted S xs
IsSorted-weaken R S [] w h = tt
IsSorted-weaken R S (x ∷ xs) w h =
    (All-weaken (R x) (S x) xs (w x) h.0, IsSorted-weaken R S xs w h.1)

module _ {ℓ} {A : Type ℓ} (cmp : A → A → Ordering) where
  insert-perm : (x : A) (xs : List A) → Permᴰ (x ∷ xs) (insert cmp x xs)
  unfolding insert
  insert-perm x [] = Permᴰ.refl (x ∷ [])
  insert-perm x (y ∷ ys) = elim (Bool-cases (is_gt (cmp x y))) [
    | inl g ↦ rw g (Permᴰ.trans (Permᴰ.swap refl refl) (Permᴰ.cons refl (insert-perm x ys)))
    | inr g ↦ rw g (Permᴰ.refl (x ∷ y ∷ ys))
  ]

  pub sort_perm : (xs : List A) → Permᴰ xs (sort cmp xs)
  unfolding sort
  sort_perm [] = Permᴰ.nil
  sort_perm (x ∷ xs) = Permᴰ.trans (Permᴰ.cons refl (sort_perm xs)) (insert-perm x (sort cmp xs))

  -- The first may stand before the second.
  abbrev pub NotAfter : A → A → Type 0
  NotAfter a b = is_gt (cmp a b) ≡ false

  module _ (o : IsOrder cmp) where
    NotAfter-flip : (a b : A) → is_gt (cmp a b) ≡ true → NotAfter b a
    NotAfter-flip a b h = ground (arith, o.flip_gt a b)

    insert-IsSorted :
        (x : A) (xs : List A) → IsSorted NotAfter xs → IsSorted NotAfter (insert cmp x xs)
    unfolding insert
    insert-IsSorted x [] h = (tt, tt)
    insert-IsSorted x (y ∷ ys) h = elim (Bool-cases (is_gt (cmp x y))) [
      | inl g ↦
          rw g
            (insert-All cmp (NotAfter y) x ys (NotAfter-flip x y g) h.0, insert-IsSorted x ys h.1)
      | inr g ↦ rw g ((g, All-weaken (NotAfter y) (NotAfter x) ys (λ z. o.trans x y z g) h.0), h)
    ]

    pub sort-IsSorted : (xs : List A) → IsSorted NotAfter (sort cmp xs)
    unfolding sort
    sort-IsSorted [] = tt
    sort-IsSorted (x ∷ xs) = insert-IsSorted x (sort cmp xs) (sort-IsSorted xs)
