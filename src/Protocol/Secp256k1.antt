-- ===== src/Protocol/Secp256k1.antt =====
-- src/lib/protocol/secp256k1.ts: the curve arithmetic that recovers a public key from a signature.
-- A bigint is its value: every number here is reduced by `mod`, or is positive, and a difference is
-- taken modulo the prime (`minus`). The loops recurse on fuel: the bits of an exponent or a scalar,
-- the smaller number of a division.
pub mod Powers
pub mod Inverses
pub mod Points
mod Tests
use stamppad.Prelude.{
  ℕ, zero, suc, ◌+◌, ◌-◌, ◌*◌, ◌/◌, ◌%◌, Bool, true, false, not, ◌&&◌, ◌||◌, Option, none, some,
  List, [], ◌∷◌, ◌++◌, ltb, leb, ◌==◌, if◌then◌else◌, length, foldl, drop,
}
use stamppad.Bytes.{Bytes, subarray, byte_at}

abbrev pub p : ℕ
p = 0xfffffffffffffffffffffffffffffffffffffffffffffffffffffffefffffc2f

abbrev pub n : ℕ
n = 0xfffffffffffffffffffffffffffffffebaaedce6af48a03bbfd25e8cd0364141

-- A point that is not at infinity.
pub record Affine : Type 0 where
  pub x : ℕ
  pub y : ℕ

-- `null` is the point at infinity.
abbrev pub Point : Type 0
Point = Option Affine

abbrev pub generator : Point
generator = some (record {
  x = 0x79be667ef9dcbbac55a06295ce870b07029bfcdb2dce28d959f2815b16f81798;
  y = 0x483ada7726a3c4655da4fbfc0e1108a8fd17b448a68554199c47d08ffb10d4b8;
})

-- mod(a - b, m)
abbrev pub minus : ℕ → ℕ → ℕ → ℕ
minus m a b = (a + (m - b % m)) % m

-- The loop of `modPow`; fuel `suc e` is enough.
unfoldable pub mod_pow_loop : (fuel result b e m : ℕ) → ℕ
mod_pow_loop zero result b e m = result
mod_pow_loop (suc f) result b e m =
    let next =
      mod_pow_loop f (if e % 2 == 1 then (result * b) % m else result) ((b * b) % m) (e / 2) m in
    if e == 0 then result else next

unfoldable pub mod_pow : ℕ → ℕ → ℕ → ℕ
mod_pow base exponent m = mod_pow_loop (suc exponent) 1 (base % m) exponent m

-- The loop of `modInv`, with the coefficients `s` modulo m, as the last line takes them; fuel above
-- `r` is enough.
unfoldable pub mod_inv_loop : (fuel m old_r r old_s s : ℕ) → ℕ
mod_inv_loop zero m old_r r old_s s = old_s
mod_inv_loop (suc f) m old_r r old_s s =
    let q = if r == 0 then 0 else old_r / r in
    let next = mod_inv_loop f m r (old_r - q * r) s (minus m old_s (q * s)) in
    if r == 0 then old_s else next

-- `none`: "no inverse for zero"
unfoldable pub mod_inv : ℕ → ℕ → Option ℕ
mod_inv value m = if value % m == 0 then none else some (mod_inv_loop (suc m) m (value % m) m 1 0)

abbrev pub affine_on_curve : Affine → Bool
affine_on_curve a = minus p (a.y * a.y) (a.x * a.x * a.x + 7) == 0

unfoldable pub is_on_curve : Point → Bool
is_on_curve none = true
is_on_curve (some a) = affine_on_curve a

-- The third point of the line through `a` and a point with the x-coordinate `bx`.
abbrev pub third : Affine → ℕ → ℕ → Affine
third a bx slope =
    let x = minus p (minus p (slope * slope) a.x) bx in
    record { x = x; y = minus p (slope * minus p a.x x) a.y }

abbrev pub with_slope : Affine → ℕ → ℕ → Option ℕ → Option Point
with_slope a bx numerator none = none
with_slope a bx numerator (some inverse) = some (some (third a bx (numerator * inverse % p)))

-- From here on the outer `none` is an exception of `modInv`.
unfoldable pub point_double : Point → Option Point
point_double none = some none
point_double (some a) =
    if a.y == 0 then some none else with_slope a a.x (3 * a.x * a.x) (mod_inv (2 * a.y) p)

unfoldable pub point_add : Point → Point → Option Point
point_add none b = some b
point_add (some a) none = some (some a)
point_add (some a) (some b) =
    if a.x == b.x
    then (if (a.y + b.y) % p == 0 then some none else point_double (some a))
    else with_slope a b.x (minus p b.y a.y) (mod_inv (minus p b.x a.x) p)

-- The loop of `pointMul`; fuel `suc k` is enough.
unfoldable pub point_mul_loop : (fuel k : ℕ) → Option Point → Option Point → Option Point
point_mul_loop zero k result addend = result
point_mul_loop (suc f) k none addend = none
point_mul_loop (suc f) k (some result) none = none
point_mul_loop (suc f) k (some result) (some addend) =
    let next =
      point_mul_loop f (k / 2) (if k % 2 == 1 then point_add result addend else some result)
        (point_double addend) in
    if k == 0 then some result else next

abbrev pub is_infinite : Point → Bool
is_infinite none = true
is_infinite (some a) = false

unfoldable pub point_mul : ℕ → Point → Option Point
point_mul scalar point =
    let k = scalar % n in
    if k == 0 || is_infinite point
    then some none
    else point_mul_loop (suc k) k (some none) (some point)

unfoldable pub bytes_to_big_int : Bytes → ℕ
bytes_to_big_int bytes = foldl (λ value byte. value * 256 + byte) 0 bytes

-- The low `w` bytes, the most significant first.
unfoldable pub big_int_bytes : ℕ → ℕ → Bytes → Bytes
big_int_bytes zero v out = out
big_int_bytes (suc w) v out = big_int_bytes w (v / 256) (v % 256 ∷ out)

abbrev pub big_int_to_32_bytes : ℕ → Bytes
big_int_to_32_bytes v = big_int_bytes 32 v []

-- `encodePoint` of a point that is not at infinity, which throws.
unfoldable pub encode_point : Affine → Bool → Bytes
encode_point a false = 0x04 ∷ (big_int_to_32_bytes a.x ++ big_int_to_32_bytes a.y)
encode_point a true = (if a.y % 2 == 1 then 0x03 else 0x02) ∷ big_int_to_32_bytes a.x

abbrev pub checked_point : Affine → Point
checked_point a = if affine_on_curve a then some a else none

-- The point with this x-coordinate and parity of y, if there is one.
unfoldable pub lift_x : ℕ → ℕ → Point
lift_x x parity =
    let alpha = (x * x * x + 7) % p in
    let beta = mod_pow alpha ((p + 1) / 4) p in
    if not (beta * beta % p == alpha)
    then none
    else some (record { x = x; y = if beta % 2 == parity then beta else p - beta })

unfoldable pub decode_point : Bytes → Point
decode_point bytes =
    if length bytes == 65 && byte_at bytes 0 == 0x04
    then checked_point (record {
      x = bytes_to_big_int (subarray 1 33 bytes);
      y = bytes_to_big_int (drop 33 bytes);
    })
    else if length bytes == 33 && (byte_at bytes 0 == 0x02 || byte_at bytes 0 == 0x03)
    then (if leb p (bytes_to_big_int (drop 1 bytes))
        then none
        else lift_x (bytes_to_big_int (drop 1 bytes)) (if byte_at bytes 0 == 0x03 then 1 else 0))
    else none

abbrev pub add_points : Option Point → Option Point → Option Point
add_points none b = none
add_points (some a) none = none
add_points (some a) (some b) = point_add a b

abbrev pub on_curve_point : Option Point → Option Point
on_curve_point none = none
on_curve_point (some none) = some none
on_curve_point (some (some a)) = some (checked_point a)

-- The end of `recoverPublicKey`: the sum of the two products.
abbrev pub recover_from : Bytes → (s : ℕ) → Affine → Option ℕ → Option Point
recover_from digest s point none = none
recover_from digest s point (some r_inv) =
    let e = bytes_to_big_int digest % n in
    on_curve_point (
      add_points (point_mul (s * r_inv % n) (some point))
        (point_mul ((n - e) * r_inv % n) generator))

abbrev pub recover_at : Bytes → (r s : ℕ) → Point → Option Point
recover_at digest r s none = some none
recover_at digest r s (some point) =
    if affine_on_curve point then recover_from digest s point (mod_inv r n) else some none

-- `some none` is the answer `null`.
unfoldable pub recover_public_key : Bytes → (r s recovery_id : ℕ) → Option Point
recover_public_key digest r s recovery_id =
    let x = r + (if recovery_id / 2 == 0 then 0 else n) in
    if r == 0 || leb n r || s == 0 || leb n s
    then some none
    else if ltb 3 recovery_id
    then some none
    else if leb p x
    then some none
    else recover_at digest r s (lift_x x (recovery_id % 2))

abbrev pub x_is : ℕ → Option Point → Option Bool
x_is r none = none
x_is r (some none) = some false
x_is r (some (some a)) = some (a.x % n == r)

abbrev pub verify_from : Bytes → (r : ℕ) → Point → Option ℕ → Option Bool
verify_from digest r key none = none
verify_from digest r key (some s_inv) =
    let e = bytes_to_big_int digest % n in
    x_is r (add_points (point_mul (e * s_inv % n) generator) (point_mul (r * s_inv % n) key))

unfoldable pub verify_signature : Bytes → (r s : ℕ) → Point → Option Bool
verify_signature digest r s key =
    if is_infinite key || r == 0 || leb n r || s == 0 || leb n s
    then some false
    else verify_from digest r key (mod_inv s n)
