-- ===== src/Zcash/Script.antt =====
-- src/lib/zcash/script.ts and the scripts of src/lib/zcash/inscription.ts: the script forms of a
-- stamp, the envelope, and their parser. `none` is an exception or `null`.
pub mod Parsing
pub mod Forms
use stamppad.Prelude.{
  ℕ, zero, suc, ◌+◌, ◌-◌, ◌*◌, ◌/◌, ◌%◌, Bool, true, false, not, ◌&&◌, ◌||◌, Option, none, some,
  List, [], ◌∷◌, ◌++◌, ltb, leb, ◌==◌, if◌then◌else◌, length, take, drop, replicate,
}
use stamppad.Text.{Text, codes, text_eq}
use stamppad.Bytes.{Bytes, subarray, byte_at}
use stamppad.Protocol.Crypto.{utf8}

abbrev pub op_1 : ℕ
op_1 = 0x51

abbrev pub op_drop : ℕ
op_drop = 0x75

abbrev pub op_dup : ℕ
op_dup = 0x76

abbrev pub op_equal : ℕ
op_equal = 0x87

abbrev pub op_equalverify : ℕ
op_equalverify = 0x88

abbrev pub op_hash160 : ℕ
op_hash160 = 0xa9

abbrev pub op_checksig : ℕ
op_checksig = 0xac

abbrev pub op_checksigverify : ℕ
op_checksigverify = 0xad

-- pushData of both files
unfoldable pub push_data : Bytes → Option Bytes
push_data bytes =
    if ltb (length bytes) 0x4c
    then some (length bytes ∷ bytes)
    else if leb (length bytes) 0xff
    then some (0x4c ∷ length bytes ∷ bytes)
    else if leb (length bytes) 0xffff
    then some (0x4d ∷ length bytes % 256 ∷ length bytes / 256 ∷ bytes)
    else none

-- Parts of a script, an exception in any of which is one of the whole.
abbrev pub join_parts : Option Bytes → Option Bytes → Option Bytes
join_parts none b = none
join_parts (some a) none = none
join_parts (some a) (some b) = some (a ++ b)

unfoldable pub p2pkh_script : Bytes → Option Bytes
p2pkh_script key_hash =
    if not (length key_hash == 20)
    then none
    else join_parts (some (op_dup ∷ op_hash160 ∷ []))
        (join_parts (push_data key_hash) (some (op_equalverify ∷ op_checksig ∷ [])))

unfoldable pub p2sh_script : Bytes → Option Bytes
p2sh_script script_hash =
    if not (length script_hash == 20)
    then none
    else join_parts (some (op_hash160 ∷ []))
        (join_parts (push_data script_hash) (some (op_equal ∷ [])))

-- The hash that `addressForScript` makes an address of; `none` is an unknown form.
pub data ScriptForm : Type 0 where
  pays_key_hash pays_script_hash : Bytes → ScriptForm

unfoldable pub form_of_script : Bytes → Option ScriptForm
form_of_script script =
    if length script == 25
      && byte_at script 0 == op_dup
      && byte_at script 1 == op_hash160
      && byte_at script 2 == 0x14
      && byte_at script 23 == op_equalverify
      && byte_at script 24 == op_checksig
    then some (pays_key_hash (subarray 3 23 script))
    else if length script == 23
        && byte_at script 0 == op_hash160
        && byte_at script 1 == 0x14
        && byte_at script 22 == op_equal
    then some (pays_script_hash (subarray 2 22 script))
    else none

abbrev pub inscription_drops : ℕ
inscription_drops = 8

unfoldable pub inscription_redeem_script : (public_key commitment : Bytes) → Option Bytes
inscription_redeem_script public_key commitment =
    if not (length public_key == 33)
    then none
    else if not (length commitment == 32)
    then none
    else join_parts (push_data public_key) (
        join_parts (some (op_checksigverify ∷ [])) (
          join_parts (push_data commitment)
            (some (replicate inscription_drops op_drop ++ (op_1 ∷ [])))))

abbrev pub max_script_element_size : ℕ
max_script_element_size = 520

unfoldable pub inscription_script_sig : (envelope signature redeem_script : Bytes) → Option Bytes
inscription_script_sig envelope signature redeem_script =
    if ltb max_script_element_size (length redeem_script)
    then none
    else join_parts (some envelope) (join_parts (push_data signature) (push_data redeem_script))

pub data ScriptItem : Type 0 where
  opcode : ℕ → ScriptItem
  push : Bytes → ScriptItem

-- What stands at an offset: a bare opcode, a push of so many of the bytes that follow its header,
-- a header cut off after 0x4c (its length is `undefined`: an empty push, and the loop ends), or one
-- cut off after 0x4d (the loop breaks).
pub data ItemHead : Type 0 where
  bare : ItemHead
  pushes : ℕ → Bytes → ItemHead
  empty_last : ItemHead
  broken : ItemHead

abbrev pub one_byte_head : Bytes → ItemHead
one_byte_head [] = empty_last
one_byte_head (n ∷ rest) = pushes n rest

abbrev pub two_byte_head : Bytes → ItemHead
two_byte_head (a ∷ b ∷ rest) = pushes (a + b * 256) rest
two_byte_head _ = broken

unfoldable pub item_head : ℕ → Bytes → ItemHead
item_head code rest =
    if leb 0x01 code && leb code 0x4b
    then pushes code rest
    else if code == 0x4c
    then one_byte_head rest
    else if code == 0x4d
    then two_byte_head rest
    else bare

-- One turn of the loop, with the items that the rest of the script gives.
abbrev pub item_at : ℕ → (Bytes → List ScriptItem) → Bytes → ItemHead → List ScriptItem
item_at code more rest bare = opcode code ∷ more rest
item_at code more rest (pushes n after) =
    let items = more (drop n after) in
    if ltb (length after) n then [] else push (take n after) ∷ items
item_at code more rest empty_last = push [] ∷ []
item_at code more rest broken = []

-- The loop on fuel: each turn reads a byte, so the length of the script is enough.
unfoldable pub parse_items : ℕ → Bytes → List ScriptItem
parse_items zero script = []
parse_items (suc fuel) [] = []
parse_items (suc fuel) (code ∷ rest) = item_at code (parse_items fuel) rest (item_head code rest)

unfoldable pub parse_script : Bytes → List ScriptItem
parse_script script = parse_items (length script) script

unfoldable pub first_push : ℕ → List ScriptItem → Option Bytes
first_push n [] = none
first_push n (opcode c ∷ items) = first_push n items
first_push n (push b ∷ items) =
    let rest = first_push n items in if length b == n then some b else rest

unfoldable pub count_drops : List ScriptItem → ℕ
count_drops [] = 0
count_drops (push b ∷ items) = count_drops items
count_drops (opcode c ∷ items) = if c == 0x75 then suc (count_drops items) else count_drops items

pub record RevealScript : Type 0 where
  pub public_key : Bytes
  pub commitment : Bytes
  pub drops : ℕ

abbrev pub reveal_of : Option Bytes → Option Bytes → ℕ → Option RevealScript
reveal_of none c n = none
reveal_of (some k) none n = none
reveal_of (some k) (some c) n = some (record { public_key = k; commitment = c; drops = n })

unfoldable pub decode_redeem_script : Bytes → Option RevealScript
decode_redeem_script script =
    let items = parse_script script in
    reveal_of (first_push 33 items) (first_push 32 items) (count_drops items)
