-- ===== src/Protocol/Secp256k1/Inverses.antt =====
-- The loop of `modInv`: its end and the coefficient there.
use native.Mathlib.Nat.{mod-eq_of_lt, mod-lt, mod-add-div'}
use stamppad.Prelude.{
  ℕ, zero, suc, ◌+◌, ◌-◌, ◌*◌, ◌/◌, ◌%◌, ◌≤◌, ◌<◌, ◌≡◌, refl, ap, ◌∙◌, subst, arith, inl, inr, some,
  false, Bool-cases, ◌==◌,
}
use stamppad.Prelude.Congruence.{
  Congruent, Congruent-trans, Congruent-sym, Congruent-refl, mul-Congruent, mod-Congruent,
  Congruent-mod, Divides, Divides-one,
}
use stamppad.Protocol.Secp256k1.{minus, mod_inv, mod_inv_loop}

minus-Congruent : (m a b : ℕ) → 1 ≤ m → Congruent m (minus m a b + b) a
minus-Congruent m a b pos =
    let lt : b % m < m = mod-lt b (omega arith) in
    (
      (a + (m - b % m)) / m,
      b / m + 1,
      omega (arith, lt, mod-add-div' b m, mod-add-div' (a + (m - b % m)) m),
    )

-- A turn keeps the coefficient of the remainder.
turn-Congruent :
    (m a q x y s t : ℕ)
    → 1 ≤ m
    → q * y ≤ x
    → Congruent m (s * a) x
    → Congruent m (t * a) y
    → Congruent m (minus m s (q * t) * a) (x - q * y)
turn-Congruent m a q x y s t pos le h (k, l, g) =
    let c = minus m s (q * t) in
    let (i, j, e) =
      mul-Congruent m (c + q * t) s a a (minus-Congruent m s (q * t) pos) (Congruent-refl m a) in
    let (u, v, f) = h in
    (i + u + q * l, j + v + q * k, omega (arith, e, f, ap (λ (z : ℕ). q * z) g))

-- The runs of the loop that come to their end, from `old_r`, `r`, `old_s` and `s` to the `old_r` and
-- the `old_s` where `r` is 0. It has no fuel.
pub data LoopEnds (m : ℕ) : (old_r r old_s s last coefficient : ℕ) → Type 0 where
  stop : {x s t : ℕ} → LoopEnds m x 0 s t x s
  again :
      {x y s t g v : ℕ}
      → 1 ≤ y
      → LoopEnds m y (x - x / y * y) t (minus m s (x / y * t)) g v
      → LoopEnds m x y s t g v

-- With fuel above `r` the loop answers the coefficient of its end; the last remainder divides both
-- numbers, and the coefficient is its.
mod_inv_loop-LoopEnds :
    (f m a x y s t : ℕ)
    → 1 ≤ m
    → y < f
    → Congruent m (s * a) x
    → Congruent m (t * a) y
    → (g : ℕ) × LoopEnds m x y s t g (mod_inv_loop f m x y s t)
      × Divides g x
      × Divides g y
      × Congruent m (mod_inv_loop f m x y s t * a) g
unfolding mod_inv_loop
mod_inv_loop-LoopEnds zero m a x y s t pos lt h k = absurd (omega arith)
mod_inv_loop-LoopEnds (suc f) m a x zero s t pos lt h k =
    (x, LoopEnds.stop, (1, omega arith), (0, omega arith), h)
mod_inv_loop-LoopEnds (suc f) m a x (suc z) s t pos lt h k =
    let y = suc z in
    let q = x / y in
    let more : (y == 0) ≡ false = ground arith in
    let split : x % y + q * y ≡ x = mod-add-div' x y in
    let (g, ends, (d1, e1), (d2, e2), c) =
      mod_inv_loop-LoopEnds f m a y (x - q * y) t (minus m s (q * t)) pos
        (omega (arith, split, mod-lt x {m = y} (omega arith))) k
        (turn-Congruent m a q x y s t pos (omega (arith, split)) h k) in
    rw more (
      g,
      LoopEnds.again (omega arith) ends,
      (q * d1 + d2, omega (arith, e2, split, ap (λ (w : ℕ). q * w) e1)),
      (d1, e1),
      c,
    )

-- For m above 1 and a value that has an inverse modulo m, the loop of `modInv` comes to its end, its
-- last remainder is 1, and the coefficient there, which is returned, is an inverse.
pub mod_inv-inverse :
    (value m u : ℕ)
    → 2 ≤ m
    → u * value % m ≡ 1
    → (v : ℕ) × (mod_inv value m ≡ some v) × LoopEnds m (value % m) m 1 0 1 v × (v * value % m ≡ 1)
unfolding mod_inv
mod_inv-inverse value m u le e =
    let a = value % m in
    let unit : Congruent m (u * a) (u * value) =
      mul-Congruent m u u a value (Congruent-refl m u) (mod-Congruent m value) in
    let one : u * a % m ≡ 1 = Congruent-mod m (u * a) (u * value) unit ∙ e in
    let split : u * a % m + u * a / m * m ≡ u * a = mod-add-div' (u * a) m in
    let (g, ends, (d1, e1), (d2, e2), c) =
      mod_inv_loop-LoopEnds (suc m) m a a m 1 0 (omega arith) (omega arith) (0, 0, omega arith)
        (1, 0, omega arith) in
    let unit_divisor : g ≡ 1 =
      Divides-one g (u * d1) (u * a / m * d2)
        (omega (arith, one, split, ap (λ (t : ℕ). u * t) e1, ap (λ (t : ℕ). u * a / m * t) e2)) in
    let v = mod_inv_loop (suc m) m a m 1 0 in
    let back : Congruent m (v * value) (v * a) =
      mul-Congruent m v v value a (Congruent-refl m v)
        (Congruent-sym m a value (mod-Congruent m value)) in
    let lt : 1 < m = omega arith in
    elim (Bool-cases (a == 0)) [
      | inl z ↦
          let none_left : a ≡ 0 = ground (arith, z) in
          absurd (omega (arith, one, split, ap (λ (t : ℕ). u * t) none_left))
      | inr nz ↦ rw nz (
        v,
        refl,
        subst (λ k. LoopEnds m a m 1 0 k v) unit_divisor ends,
        Congruent-mod m (v * value) g (Congruent-trans m (v * value) (v * a) g back c)
            ∙ ap (λ (t : ℕ). t % m) unit_divisor
            ∙ mod-eq_of_lt lt,
      )
    ]
