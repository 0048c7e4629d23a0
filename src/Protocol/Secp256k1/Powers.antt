-- ===== src/Protocol/Secp256k1/Powers.antt =====
-- `modPow` answers the power.
use native.Mathlib.Nat.{mod-eq_of_lt, mod-lt, pow-suc, pow-zero}
use stamppad.Prelude.{
  ℕ, zero, suc, ◌*◌, ◌/◌, ◌%◌, ◌^◌, ◌≤◌, ◌<◌, ◌≡◌, sym, ap, ◌∙◌, arith, inl, inr, Bool-cases, ◌==◌,
  false,
}
use stamppad.Prelude.Congruence.{
  Congruent, Congruent-trans, Congruent-refl, mul-Congruent, mod-Congruent, pow-Congruent,
  Congruent-mod, pow-double,
}
use stamppad.Protocol.Secp256k1.{mod_pow, mod_pow_loop}

-- One turn of the loop, whose bit is 1 or 0.
turn-Congruent :
    (m r b e : ℕ) → Congruent m (r * b % m * (b * b % m) ^ (e / 2)) (r * b * (b * b) ^ (e / 2))
turn-Congruent m r b e =
    mul-Congruent m (r * b % m) (r * b) ((b * b % m) ^ (e / 2)) ((b * b) ^ (e / 2))
      (mod-Congruent m (r * b))
      (pow-Congruent m (b * b % m) (b * b) (e / 2) (mod-Congruent m (b * b)))

odd_power : (r b e : ℕ) → e % 2 ≡ 1 → r * b * (b * b) ^ (e / 2) ≡ r * b ^ e
odd_power r b e o =
    let s : e ≡ suc (2 * (e / 2)) = omega arith in
    sym (
      ap (λ (t : ℕ). r * b ^ t) s
      ∙ ap (λ (t : ℕ). r * t) (pow-suc b (2 * (e / 2)))
      ∙ ap (λ (t : ℕ). r * (t * b)) (sym (pow-double b (e / 2)))
      ∙ omega arith)

even_power : (r b e : ℕ) → e % 2 ≡ 0 → r * (b * b) ^ (e / 2) ≡ r * b ^ e
even_power r b e o =
    ap (λ (t : ℕ). r * t) (pow-double b (e / 2)) ∙ ap (λ (t : ℕ). r * b ^ t) (omega arith)

mod_pow_loop-Congruent : (f r b e m : ℕ) → e < f → Congruent m (mod_pow_loop f r b e m) (r * b ^ e)
unfolding mod_pow_loop
mod_pow_loop-Congruent zero r b e m lt = absurd (omega arith)
mod_pow_loop-Congruent (suc f) r b zero m lt = rw (pow-zero b) (0, 0, omega arith)
mod_pow_loop-Congruent (suc f) r b (suc d) m lt =
    let e = suc d in
    let more : (e == 0) ≡ false = ground arith in
    elim (Bool-cases (e % 2 == 1)) [
      | inl odd ↦
          rw (more, odd)
            (Congruent-trans m _ _ (r * b ^ e)
              (mod_pow_loop-Congruent f (r * b % m) (b * b % m) (e / 2) m (omega arith))
              (rw (← odd_power r b e (ground arith)) (turn-Congruent m r b e)))
      | inr even ↦
          rw (more, even)
            (Congruent-trans m _ _ (r * b ^ e)
              (mod_pow_loop-Congruent f r (b * b % m) (e / 2) m (omega arith))
              (rw (← even_power r b e (ground arith)) (
                mul-Congruent m r r _ _ (Congruent-refl m r)
                  (pow-Congruent m (b * b % m) (b * b) (e / 2) (mod-Congruent m (b * b))))))
    ]

pub mod_pow_loop-lt : (f r b e m : ℕ) → r < m → mod_pow_loop f r b e m < m
unfolding mod_pow_loop
mod_pow_loop-lt zero r b e m lt = lt
mod_pow_loop-lt (suc f) r b e m lt =
    let pos : 0 < m = omega arith in
    ground (
      arith,
      mod_pow_loop-lt f (r * b % m) (b * b % m) (e / 2) m (mod-lt (r * b) pos),
      mod_pow_loop-lt f r (b * b % m) (e / 2) m lt,
    )

-- For a modulus above 1, `modPow` answers the remainder of the power.
pub mod_pow-pow : (b e m : ℕ) → 2 ≤ m → mod_pow b e m ≡ b ^ e % m
unfolding mod_pow
mod_pow-pow b e m le =
    let loop = mod_pow_loop (suc e) 1 (b % m) e m in
    let once : 1 * (b % m) ^ e ≡ (b % m) ^ e = omega arith in
    sym (mod-eq_of_lt (mod_pow_loop-lt (suc e) 1 (b % m) e m (omega arith)))
    ∙ Congruent-mod m loop (b ^ e) (
        Congruent-trans m loop (1 * (b % m) ^ e) (b ^ e)
          (mod_pow_loop-Congruent (suc e) 1 (b % m) e m (omega arith))
          (rw once (pow-Congruent m (b % m) b e (mod-Congruent m b))))
