-- ===== src/Audit/Sha1.antt =====
-- auditEngine.ts: `rotateLeft` and `sha1Hex`. A 32-bit word is a number below 2 ^ 32; the signed
-- intermediate values of JavaScript's bit operators are congruent to it, and `>>> 0` takes them back.
pub mod Padding
use Prim.Native.Nat.{bit_and, bit_or, bit_xor}
use Prim.Native.String
use Prim.Native.Char.{Char}
use ses.Base.{
  ℕ, zero, suc, ◌+◌, ◌-◌, ◌*◌, ◌/◌, ◌%◌, ◌^◌, String, Option, none, some, List, [], ◌∷◌, ◌++◌,
  get_or, get_elem?, length, ltb, if◌then◌else◌,
}

abbrev pub word_size : ℕ
word_size = 4294967296

unfoldable pub rotate_left : ℕ → ℕ → ℕ
rotate_left value bits = bit_or (value * 2 ^ bits % word_size) (value / 2 ^ (32 - bits))

abbrev pub zeros : ℕ → List ℕ
zeros zero = []
zeros (suc n) = 0 ∷ zeros n

-- `view.setUint32`: four bytes, the highest first.
abbrev pub set_uint32 : ℕ → List ℕ
set_uint32 n = n / 16777216 % 256 ∷ n / 65536 % 256 ∷ n / 256 % 256 ∷ n % 256 ∷ []

-- `Math.ceil((n + 9) / 64) * 64`.
abbrev pub padded_length : ℕ → ℕ
padded_length n = (n + 72) / 64 * 64

-- The bytes, 0x80, zeros, and the length in bits as two words.
unfoldable pub pad : List ℕ → List ℕ
pad bytes =
    let n = length bytes in
    let bit_length = n * 8 in
    bytes
    ++ 0x80
      ∷ (zeros (padded_length n - n - 9)
          ++ (set_uint32 (bit_length / word_size) ++ set_uint32 (bit_length % word_size)))

-- `view.getUint32` at every fourth byte.
unfoldable pub get_words : List ℕ → List ℕ
get_words (a ∷ b ∷ c ∷ d ∷ bytes) = (a * 16777216 + b * 65536 + c * 256 + d) ∷ get_words bytes
get_words _ = []

abbrev at : List ℕ → ℕ → ℕ
at ws i = get_or (get_elem? ws i) 0

-- The words 16 to 79 of the schedule; the list holds the words in reverse, the last one first.
unfoldable pub extend : ℕ → List ℕ → List ℕ
unfolding rotate_left
extend zero ws = ws
extend (suc rounds) ws =
    extend rounds
      (rotate_left (bit_xor (bit_xor (bit_xor (at ws 2) (at ws 7)) (at ws 13)) (at ws 15)) 1 ∷ ws)

pub record State : Type 0 where
  pub a : ℕ
  pub b : ℕ
  pub c : ℕ
  pub d : ℕ
  pub e : ℕ

abbrev complement : ℕ → ℕ
complement n = bit_xor n 0xffffffff

-- `f` and `k` of round `i`.
unfoldable pub round_f : ℕ → State → ℕ
round_f i s =
    if ltb i 20
    then bit_or (bit_and s.b s.c) (bit_and (complement s.b) s.d)
    else if ltb i 40
    then bit_xor (bit_xor s.b s.c) s.d
    else if ltb i 60
    then bit_or (bit_or (bit_and s.b s.c) (bit_and s.b s.d)) (bit_and s.c s.d)
    else bit_xor (bit_xor s.b s.c) s.d

unfoldable pub round_k : ℕ → ℕ
round_k i =
    if ltb i 20
    then 0x5a827999
    else if ltb i 40
    then 0x6ed9eba1
    else if ltb i 60
    then 0x8f1bbcdc
    else 0xca62c1d6

-- The inner loop over the 80 words.
unfoldable pub rounds : ℕ → List ℕ → State → State
unfolding rotate_left round_f round_k
rounds i [] s = s
rounds i (w ∷ ws) s = rounds (suc i) ws (record {
  a = (rotate_left s.a 5 + round_f i s + s.e + round_k i + w) % word_size;
  b = s.a;
  c = rotate_left s.b 30;
  d = s.c;
  e = s.d;
})

abbrev reverse_onto : List ℕ → List ℕ → List ℕ
reverse_onto [] ys = ys
reverse_onto (x ∷ xs) ys = reverse_onto xs (x ∷ ys)

abbrev add_state : State → State → State
add_state h s = record {
  a = (h.a + s.a) % word_size;
  b = (h.b + s.b) % word_size;
  c = (h.c + s.c) % word_size;
  d = (h.d + s.d) % word_size;
  e = (h.e + s.e) % word_size;
}

-- One round of the outer loop, for the sixteen words of a block in reverse.
unfoldable pub compress : List ℕ → State → State
unfolding extend rounds
compress block h = add_state h (rounds 0 (reverse_onto (extend 64 block) []) h)

-- The outer loop: `block` gathers the words of a block in reverse, `left` counts those still to come.
unfoldable pub blocks : List ℕ → ℕ → List ℕ → State → State
unfolding compress
blocks [] left block h = h
blocks (w ∷ ws) zero block h = h
blocks (w ∷ ws) (suc zero) block h = blocks ws 16 [] (compress (w ∷ block) h)
blocks (w ∷ ws) (suc (suc left)) block h = blocks ws (suc left) (w ∷ block) h

abbrev start : State
start = record { a = 0x67452301; b = 0xefcdab89; c = 0x98badcfe; d = 0x10325476; e = 0xc3d2e1f0 }

unfoldable pub hex_digit : ℕ → String
hex_digit n = get_or (get_elem? digits n) ""
  where
    digits : List String
    digits =
        "0" ∷ "1" ∷ "2" ∷ "3" ∷ "4" ∷ "5" ∷ "6" ∷ "7" ∷ "8" ∷ "9" ∷ "a" ∷ "b" ∷ "c" ∷ "d" ∷ "e"
        ∷ "f" ∷ []

-- The last `count` digits of a number, `part.toString(16).padStart(8, '0')` at count 8 and a word.
unfoldable pub hex : ℕ → ℕ → String
unfolding hex_digit
hex zero n = ""
hex (suc count) n = String.◌++◌ (hex count (n / 16)) (hex_digit (n % 16))

unfoldable pub sha1_hex : List ℕ → String
unfolding blocks get_words pad hex
sha1_hex bytes =
    let h = blocks (get_words (pad bytes)) 16 [] start in
    String.◌++◌ (hex 8 h.a)
      (String.◌++◌ (hex 8 h.b) (String.◌++◌ (hex 8 h.c) (String.◌++◌ (hex 8 h.d) (hex 8 h.e))))
