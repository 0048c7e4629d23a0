-- ===== src/Protocol/Hash160.antt =====
-- src/lib/protocol/hash160.ts: RIPEMD-160 over 32-bit words, and the hash of a public key. A word is
-- its value below 2 ^ 32; `| 0` and `>>> 0` are the remainder.
use Prim.Native.Nat.{bit_and, bit_or, bit_xor}
use stamppad.Prelude.{
  ℕ, zero, suc, ◌+◌, ◌-◌, ◌*◌, ◌/◌, ◌%◌, ◌^◌, ◌≡◌, refl, List, [], ◌∷◌, ◌++◌, ltb, if◌then◌else◌,
  length, take, drop, replicate, arith,
}
use stamppad.Text.{codes}
use stamppad.Bytes.{Bytes, IsBytes, le_bytes, le_value, to_hex}
use stamppad.Protocol.Crypto.{Crypto}

abbrev order_left : List ℕ
order_left =
    0 ∷ 1 ∷ 2 ∷ 3 ∷ 4 ∷ 5 ∷ 6 ∷ 7 ∷ 8 ∷ 9 ∷ 10 ∷ 11 ∷ 12 ∷ 13 ∷ 14 ∷ 15 ∷ 7 ∷ 4 ∷ 13 ∷ 1 ∷ 10 ∷ 6
    ∷ 15 ∷ 3 ∷ 12 ∷ 0 ∷ 9 ∷ 5 ∷ 2 ∷ 14 ∷ 11 ∷ 8 ∷ 3 ∷ 10 ∷ 14 ∷ 4 ∷ 9 ∷ 15 ∷ 8 ∷ 1 ∷ 2 ∷ 7 ∷ 0 ∷ 6
    ∷ 13 ∷ 11 ∷ 5 ∷ 12 ∷ 1 ∷ 9 ∷ 11 ∷ 10 ∷ 0 ∷ 8 ∷ 12 ∷ 4 ∷ 13 ∷ 3 ∷ 7 ∷ 15 ∷ 14 ∷ 5 ∷ 6 ∷ 2 ∷ 4 ∷ 0
    ∷ 5 ∷ 9 ∷ 7 ∷ 12 ∷ 2 ∷ 10 ∷ 14 ∷ 1 ∷ 3 ∷ 8 ∷ 11 ∷ 6 ∷ 15 ∷ 13 ∷ []

abbrev order_right : List ℕ
order_right =
    5 ∷ 14 ∷ 7 ∷ 0 ∷ 9 ∷ 2 ∷ 11 ∷ 4 ∷ 13 ∷ 6 ∷ 15 ∷ 8 ∷ 1 ∷ 10 ∷ 3 ∷ 12 ∷ 6 ∷ 11 ∷ 3 ∷ 7 ∷ 0 ∷ 13
    ∷ 5 ∷ 10 ∷ 14 ∷ 15 ∷ 8 ∷ 12 ∷ 4 ∷ 9 ∷ 1 ∷ 2 ∷ 15 ∷ 5 ∷ 1 ∷ 3 ∷ 7 ∷ 14 ∷ 6 ∷ 9 ∷ 11 ∷ 8 ∷ 12 ∷ 2
    ∷ 10 ∷ 0 ∷ 4 ∷ 13 ∷ 8 ∷ 6 ∷ 4 ∷ 1 ∷ 3 ∷ 11 ∷ 15 ∷ 0 ∷ 5 ∷ 12 ∷ 2 ∷ 13 ∷ 9 ∷ 7 ∷ 10 ∷ 14 ∷ 12
    ∷ 15 ∷ 10 ∷ 4 ∷ 1 ∷ 5 ∷ 8 ∷ 7 ∷ 6 ∷ 2 ∷ 13 ∷ 14 ∷ 0 ∷ 3 ∷ 9 ∷ 11 ∷ []

abbrev rotate_left : List ℕ
rotate_left =
    11 ∷ 14 ∷ 15 ∷ 12 ∷ 5 ∷ 8 ∷ 7 ∷ 9 ∷ 11 ∷ 13 ∷ 14 ∷ 15 ∷ 6 ∷ 7 ∷ 9 ∷ 8 ∷ 7 ∷ 6 ∷ 8 ∷ 13 ∷ 11 ∷ 9
    ∷ 7 ∷ 15 ∷ 7 ∷ 12 ∷ 15 ∷ 9 ∷ 11 ∷ 7 ∷ 13 ∷ 12 ∷ 11 ∷ 13 ∷ 6 ∷ 7 ∷ 14 ∷ 9 ∷ 13 ∷ 15 ∷ 14 ∷ 8 ∷ 13
    ∷ 6 ∷ 5 ∷ 12 ∷ 7 ∷ 5 ∷ 11 ∷ 12 ∷ 14 ∷ 15 ∷ 14 ∷ 15 ∷ 9 ∷ 8 ∷ 9 ∷ 14 ∷ 5 ∷ 6 ∷ 8 ∷ 6 ∷ 5 ∷ 12 ∷ 9
    ∷ 15 ∷ 5 ∷ 11 ∷ 6 ∷ 8 ∷ 13 ∷ 12 ∷ 5 ∷ 12 ∷ 13 ∷ 14 ∷ 11 ∷ 8 ∷ 5 ∷ 6 ∷ []

abbrev rotate_right : List ℕ
rotate_right =
    8 ∷ 9 ∷ 9 ∷ 11 ∷ 13 ∷ 15 ∷ 15 ∷ 5 ∷ 7 ∷ 7 ∷ 8 ∷ 11 ∷ 14 ∷ 14 ∷ 12 ∷ 6 ∷ 9 ∷ 13 ∷ 15 ∷ 7 ∷ 12 ∷ 8
    ∷ 9 ∷ 11 ∷ 7 ∷ 7 ∷ 12 ∷ 7 ∷ 6 ∷ 15 ∷ 13 ∷ 11 ∷ 9 ∷ 7 ∷ 15 ∷ 11 ∷ 8 ∷ 6 ∷ 6 ∷ 14 ∷ 12 ∷ 13 ∷ 5
    ∷ 14 ∷ 13 ∷ 13 ∷ 7 ∷ 5 ∷ 15 ∷ 5 ∷ 8 ∷ 11 ∷ 14 ∷ 14 ∷ 6 ∷ 14 ∷ 6 ∷ 9 ∷ 12 ∷ 9 ∷ 12 ∷ 5 ∷ 15 ∷ 8
    ∷ 8 ∷ 5 ∷ 12 ∷ 9 ∷ 12 ∷ 5 ∷ 14 ∷ 6 ∷ 8 ∷ 13 ∷ 6 ∷ 5 ∷ 15 ∷ 13 ∷ 11 ∷ 11 ∷ []

abbrev k_left : List ℕ
k_left = 0x00000000 ∷ 0x5a827999 ∷ 0x6ed9eba1 ∷ 0x8f1bbcdc ∷ 0xa953fd4e ∷ []

abbrev k_right : List ℕ
k_right = 0x50a28be6 ∷ 0x5c4dd124 ∷ 0x6d703ef3 ∷ 0x7a6d76e9 ∷ 0x00000000 ∷ []

abbrev word : ℕ
word = 4294967296

abbrev at : List ℕ → ℕ → ℕ
at [] i = 0
at (x ∷ xs) zero = x
at (x ∷ xs) (suc i) = at xs i

abbrev rotl : ℕ → ℕ → ℕ
rotl value bits = (value * 2 ^ bits + value / 2 ^ (32 - bits)) % word

abbrev complement : ℕ → ℕ
complement x = word - 1 - x

-- The five nonlinear functions, selected by round.
abbrev nonlinear : ℕ → ℕ → ℕ → ℕ → ℕ
nonlinear round x y z =
    if ltb round 16
    then bit_xor (bit_xor x y) z
    else if ltb round 32
    then bit_or (bit_and x y) (bit_and (complement x) z)
    else if ltb round 48
    then bit_xor (bit_or x (complement y)) z
    else if ltb round 64
    then bit_or (bit_and x z) (bit_and y (complement z))
    else bit_xor x (bit_or y (complement z))

-- The five words of a line, and of the state.
record Words : Type 0 where
  a : ℕ
  b : ℕ
  c : ℕ
  d : ℕ
  e : ℕ

abbrev turn : Words → (round word_value constant amount : ℕ) → Words
turn w round value constant amount = record {
  a = w.e;
  b = (rotl ((w.a + nonlinear round w.b w.c w.d + value + constant) % word) amount + w.e) % word;
  c = w.b;
  d = rotl w.c 10;
  e = w.d;
}

-- The eighty rounds of both lines: `left` counts the rounds that are left.
rounds : (left j : ℕ) → List ℕ → Words → Words → Words × Words
rounds zero j x l r = (l, r)
rounds (suc left) j x l r =
    rounds left (j + 1) x
      (turn l j (at x (at order_left j)) (at k_left (j / 16)) (at rotate_left j))
      (turn r (79 - j) (at x (at order_right j)) (at k_right (j / 16)) (at rotate_right j))

-- The two lines cross over when they are folded back into the state.
abbrev fold_lines : Words → Words → Words → Words
fold_lines h l r = record {
  a = (h.b + l.c + r.d) % word;
  b = (h.c + l.d + r.e) % word;
  c = (h.d + l.e + r.a) % word;
  d = (h.e + l.a + r.b) % word;
  e = (h.a + l.b + r.c) % word;
}

block_words : (left : ℕ) → Bytes → List ℕ
block_words zero block = []
block_words (suc left) block = le_value (take 4 block) ∷ block_words left (drop 4 block)

compress : Words → Bytes → Words
unfolding rounds block_words
compress h block = let (l, r) = rounds 80 0 (block_words 16 block) h h in fold_lines h l r

blocks : (left : ℕ) → Words → Bytes → Words
blocks zero h padded = h
blocks (suc left) h padded = blocks left (compress h (take 64 padded)) (drop 64 padded)

abbrev initial_words : Words
initial_words = record {
  a = 0x67452301;
  b = 0xefcdab89;
  c = 0x98badcfe;
  d = 0x10325476;
  e = 0xc3d2e1f0;
}

-- The number of blocks, Math.ceil((length + 9) / 64)
abbrev block_count : ℕ → ℕ
block_count n = (n + 9 + 63) / 64

-- A 0x80 byte, zeros, then the bit length in 64 bits.
abbrev padding : Bytes → Bytes
padding input =
    input
    ++ (0x80
        ∷ (replicate (block_count (length input) * 64 - length input - 9) 0
            ++ le_bytes 8 (length input * 8)))

abbrev words_bytes : Words → Bytes
words_bytes h =
    le_bytes 4 h.a ++ (le_bytes 4 h.b ++ (le_bytes 4 h.c ++ (le_bytes 4 h.d ++ le_bytes 4 h.e)))

unfoldable pub ripemd160 : Bytes → Bytes
unfolding blocks compress
ripemd160 input = words_bytes (blocks (block_count (length input)) initial_words (padding input))

unfoldable pub hash160 : Crypto → Bytes → Bytes
hash160 crypto input = ripemd160 (crypto.sha256 input)

abc : to_hex (ripemd160 (codes "abc")) ≡ codes "8eb208f7e05d987a9b044a8e98c6b087f15a0bfc"
unfolding ripemd160 le_bytes le_value to_hex
abc = refl

length-words_bytes : (h : Words) → length (words_bytes h) ≡ 20
unfolding le_bytes
length-words_bytes h = refl

-- Four bytes, each below 256, for each of five words.
words_bytes-IsBytes : (h : Words) → IsBytes (words_bytes h)
unfolding le_bytes
words_bytes-IsBytes h = omega arith

pub length-hash160 : (crypto : Crypto) (input : Bytes) → length (hash160 crypto input) ≡ 20
unfolding hash160 ripemd160
length-hash160 crypto input = length-words_bytes _

pub hash160-IsBytes : (crypto : Crypto) (input : Bytes) → IsBytes (hash160 crypto input)
unfolding hash160 ripemd160
hash160-IsBytes crypto input = words_bytes-IsBytes _
