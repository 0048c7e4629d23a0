-- ===== src/Prelude/Congruence.antt =====
-- Congruence modulo m, as a relation that needs no negative numbers.
use Prim.Native.Nat.{ℕ, zero, suc, ◌+◌, ◌*◌, ◌/◌, ◌%◌, ◌^◌, ◌<◌}
use native.Mathlib.Nat.{
  add-mul-mod_self_right, mod-add-div', mod-eq_of_lt, pow-suc, pow-zero, mul-mod_right,
}
use mathlib.Core.Path.{◌≡◌, refl, sym, ap, ap₂, ◌∙◌}
use native.Mathlib.Omega.{arith}

abbrev pub Congruent : ℕ → ℕ → ℕ → Type 0
Congruent m a b = (i : ℕ) × (j : ℕ) × (a + i * m ≡ b + j * m)

module _ (m : ℕ) where
  pub Congruent-refl : (a : ℕ) → Congruent m a a
  Congruent-refl a = (0, 0, refl)

  pub Congruent-sym : (a b : ℕ) → Congruent m a b → Congruent m b a
  Congruent-sym a b (i, j, e) = (j, i, sym e)

  pub Congruent-trans : (a b c : ℕ) → Congruent m a b → Congruent m b c → Congruent m a c
  Congruent-trans a b c (i, j, e) (k, l, f) = (i + k, l + j, omega (arith, e, f))

  pub add-Congruent :
      (a b c d : ℕ) → Congruent m a b → Congruent m c d → Congruent m (a + c) (b + d)
  add-Congruent a b c d (i, j, e) (k, l, f) = (i + k, j + l, omega (arith, e, f))

  pub mul-Congruent :
      (a b c d : ℕ) → Congruent m a b → Congruent m c d → Congruent m (a * c) (b * d)
  mul-Congruent a b c d (i, j, e) (k, l, f) = (
    a * k + i * c + i * k * m,
    b * l + j * d + j * l * m,
    omega (arith, ap₂ (λ (s t : ℕ). s * t) e f),
  )

  pub mod-Congruent : (a : ℕ) → Congruent m (a % m) a
  mod-Congruent a = (a / m, 0, omega (arith, mod-add-div' a m))

  pub pow-Congruent : (a b n : ℕ) → Congruent m a b → Congruent m (a ^ n) (b ^ n)
  pow-Congruent a b zero h = rw (pow-zero a, pow-zero b) (Congruent-refl 1)
  pow-Congruent a b (suc n) h =
      rw (pow-suc a n, pow-suc b n) (mul-Congruent (a ^ n) (b ^ n) a b (pow-Congruent a b n h) h)

  pub Congruent-mod : (a b : ℕ) → Congruent m a b → a % m ≡ b % m
  Congruent-mod a b (i, j, e) =
      sym (add-mul-mod_self_right a i m) ∙ ap (λ (t : ℕ). t % m) e ∙ add-mul-mod_self_right b j m

-- (b * b) ^ q is the even power.
pub pow-double : (b q : ℕ) → (b * b) ^ q ≡ b ^ (2 * q)
pow-double b zero = pow-zero (b * b) ∙ sym (pow-zero b)
pow-double b (suc q) =
    let twice : 2 * suc q ≡ suc (suc (2 * q)) = omega arith in
    rw (pow-suc (b * b) q, pow-double b q, twice, pow-suc b (suc (2 * q)), pow-suc b (2 * q))
      (omega arith)

-- k * g ≡ n
abbrev pub Divides : ℕ → ℕ → Type 0
Divides g n = (k : ℕ) × (n ≡ k * g)

pub Divides-one : (g x y : ℕ) → g * x ≡ 1 + g * y → g ≡ 1
Divides-one zero x y e = absurd (omega (arith, e))
Divides-one (suc zero) x y e = refl
Divides-one (suc (suc k)) x y e =
    let g = suc (suc k) in
    let swap : 1 + g * y ≡ 1 + y * g = omega arith in
    let small : 1 < g = omega arith in
    absurd (
      omega (
        arith,
        sym (mul-mod_right g x)
            ∙ ap (λ (t : ℕ). t % g) e
            ∙ ap (λ (t : ℕ). t % g) swap
            ∙ add-mul-mod_self_right 1 y g,
        mod-eq_of_lt small,
      ))
