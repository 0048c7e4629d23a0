-- ===== src/Prelude/Dict.antt =====
-- JavaScript's `Map`, and objects used as maps: an association list in the order of insertion.
-- Writing to a key that is there replaces its value in place.
use mathlib.Core.Path.{◌≡◌, refl, sym, subst, subst₂}
use mathlib.Core.Logic.{◌↔◌, inl, inr}
use mathlib.Core.Bool.{Bool, true}
use mathlib.Core.List.{List, [], ◌∷◌}
use mathlib.Core.Option.{Option, none, some}
use native.Mathlib.Omega.{arith}
use stamppad.Prelude.Tests.{if◌then◌else◌, Bool-cases}
use stamppad.Prelude.Lists.{All}

pub record Eq {ℓ} (A : Type ℓ) : Type ℓ where
  pub beq : A → A → Bool
  pub beq_iff : (a b : A) → (beq a b ≡ true) ↔ (a ≡ b)

module _ {ℓ κ} {K : Type ℓ} {V : Type κ} ⦃e : Eq K⦄ where
  -- m.get(k), o[k]
  unfoldable pub get : List (K × V) → K → Option V
  get [] k = none
  get ((j, v) ∷ m) k = if e.beq j k then some v else get m k

  -- m.set(k, v), o[k] = v
  unfoldable pub put : List (K × V) → K → V → List (K × V)
  put [] k v = (k, v) ∷ []
  put ((j, w) ∷ m) k v = if e.beq j k then (j, v) ∷ m else (j, w) ∷ put m k v

  pub get-put :
      (m : List (K × V)) (k j : K) (v : V)
      → get (put m k v) j ≡ (if e.beq k j then some v else get m j)
  unfolding get put
  get-put [] k j v = refl
  get-put ((i, w) ∷ m) k j v =
      ground (arith, get-put m k j v, e.beq_iff i k, e.beq_iff i j, e.beq_iff k j)

  pub get-put_self : (m : List (K × V)) (k : K) (v : V) → get (put m k v) k ≡ some v
  get-put_self m k v = ground (arith, get-put m k k v, e.beq_iff k k)

  -- What holds of every entry of a map holds of one that is read, and survives a good write.
  pub get-All :
      (P : K × V → Type 0) (m : List (K × V)) (k : K) (v : V)
      → All P m
      → get m k ≡ some v
      → P (k, v)
  unfolding get
  get-All P [] k v h g = absurd (ground arith)
  get-All P ((j, w) ∷ m) k v h g = elim (Bool-cases (e.beq j k)) [
    | inl same ↦
        let p : j ≡ k = (e.beq_iff j k).0 same in
        let q : w ≡ v = ground arith in subst₂ (λ a b. P (a, b)) p q h.0
    | inr other ↦ get-All P m k v h.1 (ground arith)
  ]

  pub put-All :
      (P : K × V → Type 0) (m : List (K × V)) (k : K) (v : V)
      → All P m
      → P (k, v)
      → All P (put m k v)
  unfolding put
  put-All P [] k v h p = (p, tt)
  put-All P ((j, w) ∷ m) k v h p = elim (Bool-cases (e.beq j k)) [
    | inl same ↦ rw same (subst (λ a. P (a, v)) (sym ((e.beq_iff j k).0 same)) p, h.1)
    | inr other ↦ rw other (h.0, put-All P m k v h.1 p)
  ]
