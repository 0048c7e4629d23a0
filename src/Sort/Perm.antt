-- ===== src/Sort/Perm.antt =====
-- The sort and permutations of its input, where elements that compare equal are equal.
use mathlib.Core.List.{Memᴰ, Permᴰ}
use stamppad.Prelude.{◌≡◌, refl, sym, ◌∙◌, List, [], ◌∷◌, arith, Ordering}
use stamppad.Sort.{IsOrder, insert, sort}

module _ {ℓ} {A : Type ℓ} (cmp : A → A → Ordering) where
  -- Within the list, the comparator answers 0 only for equal elements.
  abbrev pub IsKeyed : List A → Type ℓ
  IsKeyed l = (a b : A) → Memᴰ a l → Memᴰ b l → cmp a b ≡ Ordering.eq → a ≡ b

  perm-mem : {l m : List A} {a : A} → Permᴰ l m → Memᴰ a m → Memᴰ a l
  perm-mem Permᴰ.nil h = h
  perm-mem (Permᴰ.cons e p) (Memᴰ.head q) = Memᴰ.head (q ∙ sym e)
  perm-mem (Permᴰ.cons e p) (Memᴰ.tail h) = Memᴰ.tail (perm-mem p h)
  perm-mem (Permᴰ.swap e f) (Memᴰ.head q) = Memᴰ.tail (Memᴰ.head (q ∙ sym f))
  perm-mem (Permᴰ.swap e f) (Memᴰ.tail (Memᴰ.head q)) = Memᴰ.head (q ∙ sym e)
  perm-mem (Permᴰ.swap e f) (Memᴰ.tail (Memᴰ.tail h)) = Memᴰ.tail (Memᴰ.tail h)
  perm-mem (Permᴰ.trans p q) h = perm-mem p (perm-mem q h)

  module _ (o : IsOrder cmp) where
    insert_comm :
        (x y : A) (l : List A)
        → (cmp x y ≡ Ordering.eq → x ≡ y)
        → insert cmp x (insert cmp y l) ≡ insert cmp y (insert cmp x l)
    unfolding insert
    insert_comm x y [] e = ground (arith, o.flip x y, o.flip_gt x y)
    insert_comm x y (z ∷ zs) e =
        ground
          (arith, insert_comm x y zs e, o.flip x y, o.flip_gt x y, o.trans x y z, o.trans y x z)

    pub sort-perm : (l m : List A) → Permᴰ l m → IsKeyed l → sort cmp l ≡ sort cmp m
    unfolding sort
    sort-perm [] [] Permᴰ.nil k = refl
    sort-perm (a ∷ l) (b ∷ m) (Permᴰ.cons e p) k =
        rw (e, sort-perm l m p (λ x y hx hy. k x y (Memᴰ.tail hx) (Memᴰ.tail hy)))
    sort-perm (a ∷ b ∷ l) (b' ∷ a' ∷ m) (Permᴰ.swap e f) k =
        rw (← e, ← f)
          (insert_comm a b (sort cmp l) (k a b (Memᴰ.head refl) (Memᴰ.tail (Memᴰ.head refl))))
    sort-perm l m (Permᴰ.trans p q) k =
        sort-perm l _ p k ∙ sort-perm _ m q (λ x y hx hy. k x y (perm-mem p hx) (perm-mem p hy))
