-- ===== src/Zcash/Script/Forms.antt =====
-- The output scripts and the form they are recognised as.
use stamppad.Prelude.{
  ℕ, zero, suc, ◌+◌, ◌≡◌, ap, some, [], ◌∷◌, ◌++◌, arith, length, take-append, length-append,
}
use Prim.Native.Nat.add
use stamppad.Bytes.{Bytes, byte_at}
use stamppad.Zcash.Script.{
  p2pkh_script, p2sh_script, push_data, form_of_script, pays_key_hash, pays_script_hash,
}

byte_at-append : (n i : ℕ) (a b : Bytes) → length a ≡ n → byte_at (a ++ b) (n + i) ≡ byte_at b i
byte_at-append zero i [] b h = ap (byte_at b) (omega arith)
byte_at-append zero i (x ∷ a) b h = absurd (omega arith)
byte_at-append (suc n) i [] b h = absurd (omega arith)
byte_at-append (suc n) i (x ∷ a) b h = rw add.suc (byte_at-append n i a b (omega arith))

-- The script that pays a 20-byte key hash is recognised as paying that key hash, and the one that
-- pays a 20-byte script hash as paying that script hash.
pub form_of_script-p2pkh_script :
    (hash : Bytes)
    → length hash ≡ 20
    → ((s : Bytes) × (p2pkh_script hash ≡ some s) × (form_of_script s ≡ some (pays_key_hash hash)))
      × ((s : Bytes) × (p2sh_script hash ≡ some s)
          × (form_of_script s ≡ some (pays_script_hash hash)))
unfolding p2pkh_script p2sh_script push_data form_of_script
form_of_script-p2pkh_script hash h =
    let k = 0x88 ∷ 0xac ∷ [] in
    let j = 0x87 ∷ [] in
    (
      (
        0x76 ∷ 0xa9 ∷ 20 ∷ (hash ++ k),
        ground (arith, h),
        ground (
          arith,
          h,
          length-append hash k,
          byte_at-append 20 0 hash k h,
          byte_at-append 20 1 hash k h,
          take-append 20 hash k h,
        ),
      ),
      (
        0xa9 ∷ 20 ∷ (hash ++ j),
        ground (arith, h),
        ground
            (arith, h, length-append hash j, byte_at-append 20 0 hash j h, take-append 20 hash j h),
      ),
    )
