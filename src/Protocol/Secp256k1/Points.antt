-- ===== src/Protocol/Secp256k1/Points.antt =====
-- Points that are decoded lie on the curve, and uncompressed points are read back.
use native.Mathlib.Nat.{mod-lt, mod-add-div', mul-mod_right, pow-suc}
use stamppad.Prelude.{
  ℕ, zero, suc, ◌+◌, ◌-◌, ◌*◌, ◌/◌, ◌%◌, ◌^◌, ◌≤◌, ◌<◌, ◌≡◌, refl, ap, ◌∙◌, arith, inl, inr, some,
  false, true, Bool-cases, ◌==◌, [], ◌∷◌, ◌++◌, foldl, length, Option, none, leb, if◌then◌else◌,
  drop, ◌&&◌, ◌||◌, take-append, drop-append, length-append,
}
use stamppad.Prelude.Congruence.{Congruent, Congruent-refl, Congruent-mod}
use stamppad.Bytes.{Bytes, byte_at}
use stamppad.Protocol.Secp256k1.Powers.{mod_pow_loop-lt}
use stamppad.Protocol.Secp256k1.{
  Affine, affine_on_curve, big_int_bytes, big_int_to_32_bytes, bytes_to_big_int, checked_point,
  decode_point, encode_point, lift_x, minus, mod_pow, p,
}

minus_self : (m a b : ℕ) → 1 ≤ m → a % m ≡ b % m → minus m a b ≡ 0
minus_self m a b pos e =
    let split = mod-add-div' a m in
    let lt = mod-lt b {m = m} (omega arith) in
    let whole : a + (m - b % m) ≡ m * (a / m + 1) = omega (arith, split, lt, e) in
    ap (λ (t : ℕ). t % m) whole ∙ mul-mod_right m (a / m + 1)

-- The square of the other root.
other_root : (m b c : ℕ) → c + b ≡ m → Congruent m (c * c) (b * b)
other_root m b c e = (b, c, omega (arith, ap (λ (t : ℕ). b * t) e, ap (λ (t : ℕ). c * t) e))

root-on_curve :
    (x y beta : ℕ)
    → Congruent p (y * y) (beta * beta)
    → beta * beta % p ≡ (x * x * x + 7) % p
    → affine_on_curve (record { x = x; y = y }) ≡ true
root-on_curve x y beta c e =
    let zero_left : minus p (y * y) (x * x * x + 7) ≡ 0 =
      minus_self p (y * y) (x * x * x + 7) (omega arith)
        (Congruent-mod p (y * y) (beta * beta) c ∙ e) in
    rw zero_left refl

injective_some : (a b : Affine) → some a ≡ some b → a ≡ b
injective_some a b e = ap (λ (o : Option Affine). elim o [ none ↦ a | some c ↦ c ]) e

beta_lt : (alpha : ℕ) → mod_pow alpha ((p + 1) / 4) p < p
unfolding mod_pow
beta_lt alpha = mod_pow_loop-lt (suc ((p + 1) / 4)) 1 (alpha % p) ((p + 1) / 4) p (omega arith)

lift_x-on_curve : (x parity : ℕ) (a : Affine) → lift_x x parity ≡ some a → affine_on_curve a ≡ true
unfolding lift_x
lift_x-on_curve x parity a e =
    let alpha = (x * x * x + 7) % p in
    let beta = mod_pow alpha ((p + 1) / 4) p in
    elim (Bool-cases (beta * beta % p == alpha)) [
      | inr f ↦ absurd (ground (arith, (rw f at e)))
      | inl t ↦ elim (Bool-cases (beta % 2 == parity)) [
        | inl q ↦
            let same = injective_some _ a (rw (t, q) at e) in
            rw (← same)
              (root-on_curve x beta beta (Congruent-refl p (beta * beta)) (ground (arith, t)))
        | inr q ↦
            let same = injective_some _ a (rw (t, q) at e) in
            rw (← same) (
              root-on_curve x (p - beta) beta
                (other_root p beta (p - beta) (omega (arith, beta_lt alpha))) (ground (arith, t)))
      ]
    ]

checked_point-on_curve : (b a : Affine) → checked_point b ≡ some a → affine_on_curve a ≡ true
checked_point-on_curve b a e = elim (Bool-cases (affine_on_curve b)) [
  | inl t ↦ let same = injective_some b a (rw t at e) in rw (← same) t
  | inr f ↦ absurd (ground (arith, (rw f at e)))
]

-- The compressed form: its sign byte and the 32 bytes of x.
abbrev pub decode_compressed : Bytes → Option Affine
decode_compressed bytes =
    if leb p (bytes_to_big_int (drop 1 bytes))
    then none
    else lift_x (bytes_to_big_int (drop 1 bytes)) (if byte_at bytes 0 == 0x03 then 1 else 0)

decode_compressed-on_curve :
    (bytes : Bytes) (a : Affine) → decode_compressed bytes ≡ some a → affine_on_curve a ≡ true
decode_compressed-on_curve bytes a e = elim (Bool-cases (leb p (bytes_to_big_int (drop 1 bytes)))) [
  | inl t ↦ absurd (ground (arith, (rw t at e)))
  | inr f ↦ lift_x-on_curve _ _ a (rw f at e)
]

-- Whatever bytes are decoded as a point, compressed or not, the point is on the curve.
pub decode_point-on_curve :
    (bytes : Bytes) (a : Affine) → decode_point bytes ≡ some a → affine_on_curve a ≡ true
unfolding decode_point
decode_point-on_curve bytes a e =
    elim (Bool-cases (length bytes == 65 && byte_at bytes 0 == 0x04)) [
      | inl t ↦ checked_point-on_curve _ a (rw t at e)
      | inr f ↦
          elim (Bool-cases
            (length bytes == 33 && (byte_at bytes 0 == 0x02 || byte_at bytes 0 == 0x03))) [
              | inl t ↦ decode_compressed-on_curve bytes a (rw (f, t) at e)
              | inr g ↦ absurd (ground (arith, (rw (f, g) at e)))
            ]
    ]

abbrev step : ℕ → ℕ → ℕ
step value byte = value * 256 + byte

foldl-big_int_bytes :
    (w v acc : ℕ) (out : Bytes)
    → v < 256 ^ w
    → foldl step acc (big_int_bytes w v out) ≡ foldl step (acc * 256 ^ w + v) out
unfolding big_int_bytes
foldl-big_int_bytes zero v acc out lt = ap (λ (t : ℕ). foldl step t out) (omega arith)
foldl-big_int_bytes (suc w) v acc out lt =
    let split = mod-add-div' v 256 in
    let power = pow-suc 256 w in
    foldl-big_int_bytes w (v / 256) acc (v % 256 ∷ out) (omega (arith, power))
    ∙ ap (λ (t : ℕ). foldl step t out) (omega (arith, split, ap (λ (t : ℕ). acc * t) power))

length-big_int_bytes : (w v : ℕ) (out : Bytes) → length (big_int_bytes w v out) ≡ w + length out
unfolding big_int_bytes
length-big_int_bytes zero v out = omega arith
length-big_int_bytes (suc w) v out = length-big_int_bytes w (v / 256) (v % 256 ∷ out) ∙ omega arith

-- Thirty-two bytes are read back as the number that they were made of.
bytes_to_big_int-big_int_to_32_bytes :
    (v : ℕ) → v < 256 ^ 32 → bytes_to_big_int (big_int_to_32_bytes v) ≡ v
unfolding bytes_to_big_int
bytes_to_big_int-big_int_to_32_bytes v lt = foldl-big_int_bytes 32 v 0 [] lt ∙ omega arith

length-big_int_to_32_bytes : (v : ℕ) → length (big_int_to_32_bytes v) ≡ 32
length-big_int_to_32_bytes v = length-big_int_bytes 32 v []

-- A point of the curve whose coordinates fit in 32 bytes is read back from its uncompressed form.
pub decode_point-encode_point :
    (a : Affine)
    → a.x < 256 ^ 32
    → a.y < 256 ^ 32
    → affine_on_curve a ≡ true
    → decode_point (encode_point a false) ≡ some a
unfolding decode_point encode_point
decode_point-encode_point a fit_x fit_y on =
    let xs = big_int_to_32_bytes a.x in
    let ys = big_int_to_32_bytes a.y in
    let lx = length-big_int_to_32_bytes a.x in
    let size : length (0x04 ∷ (xs ++ ys)) ≡ 65 =
      omega (arith, length-append xs ys, lx, length-big_int_to_32_bytes a.y) in
    rw
      (
        size,
        take-append 32 xs ys lx,
        drop-append 32 xs ys lx,
        bytes_to_big_int-big_int_to_32_bytes a.x fit_x,
        bytes_to_big_int-big_int_to_32_bytes a.y fit_y,
        on,
      )
      refl
