-- ===== src/Zcash/Script/Parsing.antt =====
-- The parser reads back what the script forms write.
use stamppad.Prelude.{
  ℕ, zero, suc, ◌/◌, ◌%◌, ◌≤◌, ◌<◌, ◌≡◌, refl, ap, ◌∙◌, inl, inr, some, List, [], ◌∷◌, ◌++◌, arith,
  length, take, drop, replicate, length-append, length-drop, take-append, drop-append, append_assoc,
  ltb, leb, if◌then◌else◌, Bool-cases,
}
use stamppad.Bytes.{Bytes}
use stamppad.Zcash.Script.{
  ItemHead, bare, pushes, empty_last, broken, item_head, item_at, ScriptItem, opcode, push,
  parse_items, parse_script, push_data, inscription_redeem_script, decode_redeem_script, first_push,
  count_drops, op_checksigverify, op_drop, op_1,
}

-- A header leaves no more bytes than there were.
item_head-shorter :
    (code : ℕ) (rest : Bytes) (n : ℕ) (after : Bytes)
    → item_head code rest ≡ pushes n after
    → length after ≤ length rest
unfolding item_head
item_head-shorter code [] n after h = ground arith
item_head-shorter code (a ∷ []) n after h = ground arith
item_head-shorter code (a ∷ b ∷ rest) n after h = ground arith

item_at_ext :
    (code : ℕ) (more others : Bytes → List ScriptItem) (rest : Bytes) (head : ItemHead)
    → item_head code rest ≡ head
    → ((s : Bytes) → length s ≤ length rest → more s ≡ others s)
    → item_at code more rest head ≡ item_at code others rest head
item_at_ext code more others rest bare e k = ap (λ l. opcode code ∷ l) (k rest (omega arith))
item_at_ext code more others rest (pushes n after) e k =
    ap (λ l. if ltb (length after) n then [] else push (take n after) ∷ l)
      (k (drop n after) (omega (arith, item_head-shorter code rest n after e, length-drop n after)))
item_at_ext code more others rest empty_last e k = refl
item_at_ext code more others rest broken e k = refl

-- More fuel than the length of the script changes nothing.
parse_items-fuel :
    (f g : ℕ) (s : Bytes) → length s ≤ f → length s ≤ g → parse_items f s ≡ parse_items g s
unfolding parse_items
parse_items-fuel zero zero s hf hg = refl
parse_items-fuel zero (suc g) [] hf hg = refl
parse_items-fuel zero (suc g) (c ∷ s) hf hg = absurd (omega arith)
parse_items-fuel (suc f) zero [] hf hg = refl
parse_items-fuel (suc f) zero (c ∷ s) hf hg = absurd (omega arith)
parse_items-fuel (suc f) (suc g) [] hf hg = refl
parse_items-fuel (suc f) (suc g) (c ∷ s) hf hg =
    item_at_ext c (parse_items f) (parse_items g) s (item_head c s) refl
      (λ t ht. parse_items-fuel f g t (omega arith) (omega arith))

-- What is left after a push of `b` is parsed alone.
pushed :
    (b rest : Bytes) (code : ℕ) (header : Bytes) (f : ℕ)
    → item_head code (header ++ (b ++ rest)) ≡ pushes (length b) (b ++ rest)
    → length rest ≤ f
    → parse_items (suc f) (code ∷ (header ++ (b ++ rest))) ≡ push b ∷ parse_script rest
unfolding parse_items parse_script
pushed b rest code header f e h =
    ap (item_at code (parse_items f) (header ++ (b ++ rest))) e
    ∙ ground (
      arith,
      length-append b rest,
      take-append (length b) b rest refl,
      drop-append (length b) b rest refl,
      parse_items-fuel f (length rest) rest h (omega arith),
    )

-- The three headers.
data Header (b : Bytes) : Bytes → Type 0 where
  one : length b < 0x4c → Header b (length b ∷ [])
  two : length b < 256 → Header b (0x4c ∷ length b ∷ [])
  three : length b < 65536 → Header b (0x4d ∷ length b % 256 ∷ length b / 256 ∷ [])

push_data-Header :
    (b p : Bytes) → push_data b ≡ some p → (header : Bytes) × Header b header × (p ≡ header ++ b)
unfolding push_data
push_data-Header b p e = elim (Bool-cases (ltb (length b) 0x4c)) [
  | inl t ↦ (length b ∷ [], one (ground arith), ground arith)
  | inr f ↦ elim (Bool-cases (leb (length b) 0xff)) [
    | inl t ↦ (0x4c ∷ length b ∷ [], two (ground arith), ground arith)
    | inr g ↦ (0x4d ∷ length b % 256 ∷ length b / 256 ∷ [], three (ground arith), ground arith)
  ]
]

Header-pushed :
    (b rest header : Bytes)
    → 1 ≤ length b
    → Header b header
    → parse_script (header ++ (b ++ rest)) ≡ push b ∷ parse_script rest
unfolding parse_script item_head
Header-pushed b rest _ h (one k) =
    pushed b rest (length b) [] (length (b ++ rest)) (ground arith)
      (omega (arith, length-append b rest))
Header-pushed b rest _ h (two k) =
    pushed b rest 0x4c (length b ∷ []) (suc (length (b ++ rest))) refl
      (omega (arith, length-append b rest))
Header-pushed b rest _ h (three k) =
    pushed b rest 0x4d (length b % 256 ∷ length b / 256 ∷ []) (suc (suc (length (b ++ rest))))
      (ap (λ n. pushes n (b ++ rest)) (omega arith)) (omega (arith, length-append b rest))

-- A push of at least one byte is parsed as that push, and what follows it is parsed as it is alone.
pub parse_script-push_data :
    (b p rest : Bytes)
    → 1 ≤ length b
    → push_data b ≡ some p
    → parse_script (p ++ rest) ≡ push b ∷ parse_script rest
parse_script-push_data b p rest h e =
    let (header, k, q) = push_data-Header b p e in
    ap (λ s. parse_script (s ++ rest)) q
    ∙ ap parse_script (append_assoc header b rest)
    ∙ Header-pushed b rest header h k

abbrev drops : Bytes
drops = replicate 8 op_drop ++ (op_1 ∷ [])

abbrev redeem : Bytes → Bytes → Bytes
redeem k c = (33 ∷ k) ++ (op_checksigverify ∷ ((32 ∷ c) ++ drops))

abbrev redeem_items : Bytes → Bytes → List ScriptItem
redeem_items k c =
    push k ∷ opcode op_checksigverify ∷ push c ∷ (replicate 8 (opcode op_drop) ++ opcode op_1 ∷ [])

parse_script-checksigverify :
    (s : Bytes) → parse_script (op_checksigverify ∷ s) ≡ opcode op_checksigverify ∷ parse_script s
unfolding parse_script parse_items item_head
parse_script-checksigverify s = refl

parse_script-drops : parse_script drops ≡ replicate 8 (opcode op_drop) ++ opcode op_1 ∷ []
unfolding parse_script parse_items item_head
parse_script-drops = refl

push_data-short : (b : Bytes) → length b < 0x4c → push_data b ≡ some (length b ∷ b)
unfolding push_data
push_data-short b h = ground arith

parse_script-redeem :
    (k c : Bytes) → length k ≡ 33 → length c ≡ 32 → parse_script (redeem k c) ≡ redeem_items k c
parse_script-redeem k c hk hc =
    parse_script-push_data k (33 ∷ k) (op_checksigverify ∷ ((32 ∷ c) ++ drops)) (omega arith)
      (push_data-short k (omega arith) ∙ ap (λ n. some (n ∷ k)) hk)
    ∙ ap (λ l. push k ∷ l) (parse_script-checksigverify ((32 ∷ c) ++ drops))
    ∙ ap (λ l. push k ∷ opcode op_checksigverify ∷ l)
        (parse_script-push_data c (32 ∷ c) drops (omega arith)
            (push_data-short c (omega arith) ∙ ap (λ n. some (n ∷ c)) hc)
          ∙ ap (λ l. push c ∷ l) parse_script-drops)

-- A redeem script of a 33-byte key and a 32-byte commitment is decoded to these and its eight drops.
pub decode_redeem_script-inscription :
    (public_key commitment : Bytes)
    → length public_key ≡ 33
    → length commitment ≡ 32
    → (s : Bytes) × (inscription_redeem_script public_key commitment ≡ some s)
      × (decode_redeem_script s
          ≡ some (record { public_key = public_key; commitment = commitment; drops = 8 }))
unfolding inscription_redeem_script decode_redeem_script push_data first_push count_drops
decode_redeem_script-inscription k c hk hc = (
  redeem k c,
  ground (arith, hk, hc),
  rw (parse_script-redeem k c hk hc) (ground (arith, hk, hc)),
)
