-- ===== src/Text/Percent/Bytes.antt =====
-- What `decodeURIComponent` reads of the escaped bytes of one character.
use connect_web.Prelude.{
  ℕ, suc, ◌+◌, ◌-◌, ◌*◌, ◌/◌, ◌%◌, ◌≤◌, ◌<◌, true, false, List, [], ◌∷◌, ◌++◌, ◌≡◌, refl, ◌∙◌, inl,
  inr, Option, none, some, arith, ltb, Bool-cases, ltb→lt,
}
use connect_web.Text.{Text}
use connect_web.Text.Decimal.{is_digit}
use connect_web.Text.Percent.{
  is_high, is_low, utf8, hex_digit, percent, hex_value, hex_byte, utf16, is_shortest, Sequence,
  between, within, begun, read_byte, in_front, decode_from,
}

hex_value-hex_digit : (n : ℕ) → n < 16 → hex_value (hex_digit n) ≡ some n
unfolding hex_value hex_digit is_digit
hex_value-hex_digit n h = ground arith

hex_byte-back : (b : ℕ) → b < 256 → hex_byte (hex_digit (b / 16)) (hex_digit (b % 16)) ≡ some b
unfolding hex_byte
hex_byte-back b h = ground (arith, hex_value-hex_digit (b / 16), hex_value-hex_digit (b % 16))

-- one escaped byte
decode-byte :
    (s later : Sequence) (b : ℕ) (units rest : Text)
    → b < 256
    → read_byte s b ≡ some (units, later)
    → decode_from s (b'%' ∷ hex_digit (b / 16) ∷ hex_digit (b % 16) ∷ rest)
      ≡ in_front units (decode_from later rest)
unfolding decode_from
decode-byte between later b units rest h e = ground (arith, hex_byte-back b h, e)
decode-byte (within n m c) later b units rest h e = ground (arith, hex_byte-back b h, e)

in_front_nil : (o : Option Text) → in_front [] o ≡ o
unfolding in_front
in_front_nil none = refl
in_front_nil (some t) = refl

bits_joined : (bits b c : ℕ) → bits * 64 + b ≡ c → bits * 64 + (128 + b - 0x80) ≡ c
bits_joined bits b c e = omega (arith, e)

-- the last byte of a character, and one before it
read_last :
    (n bits b c : ℕ)
    → b < 64
    → bits * 64 + b ≡ c
    → is_shortest n c ≡ true
    → read_byte (within n 1 bits) (128 + b) ≡ some (utf16 c, between)
unfolding read_byte
read_last n bits b c h e s = rw (bits_joined bits b c e, s) (ground arith)

read_more :
    (n missing bits b c : ℕ)
    → b < 64
    → bits * 64 + b ≡ c
    → read_byte (within n (suc (suc missing)) bits) (128 + b) ≡ some ([], within n (suc missing) c)
unfolding read_byte
read_more n missing bits b c h e = rw (bits_joined bits b c e) (ground arith)

read_ascii : (c : ℕ) → c < 128 → read_byte between c ≡ some (utf16 c, between)
unfolding read_byte utf16
read_ascii c h = ground arith

first_of_two : (a : ℕ) → a < 32 → read_byte between (192 + a) ≡ some ([], within 2 1 a)
unfolding read_byte begun
first_of_two a h = ground arith

first_of_three : (a : ℕ) → a < 16 → read_byte between (224 + a) ≡ some ([], within 3 2 a)
unfolding read_byte begun
first_of_three a h = ground arith

first_of_four : (a : ℕ) → a < 8 → read_byte between (240 + a) ≡ some ([], within 4 3 a)
unfolding read_byte begun
first_of_four a h = ground arith

shortest_two : (c : ℕ) → 128 ≤ c → is_shortest 2 c ≡ true
unfolding is_shortest
shortest_two c h = ground arith

shortest_three : (c : ℕ) → 2048 ≤ c → is_high c ≡ false → is_low c ≡ false → is_shortest 3 c ≡ true
unfolding is_shortest is_high is_low
shortest_three c h hi lo = ground arith

shortest_four : (c : ℕ) → 0x10000 ≤ c → c < 0x110000 → is_shortest 4 c ≡ true
unfolding is_shortest
shortest_four c h l = ground arith

-- one more byte of the escaped bytes of a character
then_byte :
    (s later : Sequence) (b : ℕ) (bs : List ℕ) (rest : Text)
    → b < 256
    → read_byte s b ≡ some ([], later)
    → decode_from s (percent (b ∷ bs) ++ rest) ≡ decode_from later (percent bs ++ rest)
unfolding percent
then_byte s later b bs rest h e =
    decode-byte s later b [] (percent bs ++ rest) h e
    ∙ in_front_nil (decode_from later (percent bs ++ rest))

end_byte :
    (s : Sequence) (b c : ℕ) (rest : Text)
    → b < 256
    → read_byte s b ≡ some (utf16 c, between)
    → decode_from s (percent (b ∷ []) ++ rest) ≡ in_front (utf16 c) (decode_from between rest)
unfolding percent
end_byte s b c rest h e = decode-byte s between b (utf16 c) rest h e

abbrev pub Decodes : ℕ → Text → List ℕ → Type 0
Decodes c rest bytes =
    decode_from between (percent bytes ++ rest) ≡ in_front (utf16 c) (decode_from between rest)

two_bytes :
    (c : ℕ) (rest : Text)
    → 128 ≤ c
    → c < 2048
    → Decodes c rest ((192 + c / 64) ∷ (128 + c % 64) ∷ [])
two_bytes c rest l h =
    then_byte between (within 2 1 (c / 64)) (192 + c / 64) ((128 + c % 64) ∷ []) rest (omega arith)
      (first_of_two (c / 64) (omega arith))
    ∙ end_byte (within 2 1 (c / 64)) (128 + c % 64) c rest (omega arith)
        (read_last 2 (c / 64) (c % 64) c (omega arith) (omega arith) (shortest_two c l))

three_bytes :
    (c : ℕ) (rest : Text)
    → 2048 ≤ c
    → c < 0x10000
    → is_high c ≡ false
    → is_low c ≡ false
    → Decodes c rest ((224 + c / 4096) ∷ (128 + c / 64 % 64) ∷ (128 + c % 64) ∷ [])
three_bytes c rest l h hi lo =
    then_byte between (within 3 2 (c / 4096)) (224 + c / 4096)
      ((128 + c / 64 % 64) ∷ (128 + c % 64) ∷ []) rest (omega arith)
      (first_of_three (c / 4096) (omega arith))
    ∙ then_byte (within 3 2 (c / 4096)) (within 3 1 (c / 64)) (128 + c / 64 % 64)
        ((128 + c % 64) ∷ []) rest (omega arith)
        (read_more 3 0 (c / 4096) (c / 64 % 64) (c / 64) (omega arith) (omega arith))
    ∙ end_byte (within 3 1 (c / 64)) (128 + c % 64) c rest (omega arith)
        (read_last 3 (c / 64) (c % 64) c (omega arith) (omega arith) (shortest_three c l hi lo))

four_bytes :
    (c : ℕ) (rest : Text)
    → 0x10000 ≤ c
    → c < 0x110000
    → Decodes c rest
        ((240 + c / 262144) ∷ (128 + c / 4096 % 64) ∷ (128 + c / 64 % 64) ∷ (128 + c % 64) ∷ [])
four_bytes c rest l h =
    then_byte between (within 4 3 (c / 262144)) (240 + c / 262144)
      ((128 + c / 4096 % 64) ∷ (128 + c / 64 % 64) ∷ (128 + c % 64) ∷ []) rest (omega arith)
      (first_of_four (c / 262144) (omega arith))
    ∙ then_byte (within 4 3 (c / 262144)) (within 4 2 (c / 4096)) (128 + c / 4096 % 64)
        ((128 + c / 64 % 64) ∷ (128 + c % 64) ∷ []) rest (omega arith)
        (read_more 4 1 (c / 262144) (c / 4096 % 64) (c / 4096) (omega arith) (omega arith))
    ∙ then_byte (within 4 2 (c / 4096)) (within 4 1 (c / 64)) (128 + c / 64 % 64)
        ((128 + c % 64) ∷ []) rest (omega arith)
        (read_more 4 0 (c / 4096) (c / 64 % 64) (c / 64) (omega arith) (omega arith))
    ∙ end_byte (within 4 1 (c / 64)) (128 + c % 64) c rest (omega arith)
        (read_last 4 (c / 64) (c % 64) c (omega arith) (omega arith) (shortest_four c l h))

-- the escaped bytes of a character, in front of others
pub decode-utf8 :
    (c : ℕ) (rest : Text)
    → c < 0x110000
    → is_high c ≡ false
    → is_low c ≡ false
    → Decodes c rest (utf8 c)
unfolding utf8
decode-utf8 c rest h hi lo = elim (Bool-cases (ltb c 0x80)) [
  | inl a ↦
      rw a (
        end_byte between c c rest (omega (arith, ltb→lt c 0x80 a)) (read_ascii c (ltb→lt c 0x80 a)))
  | inr a ↦ elim (Bool-cases (ltb c 0x800)) [
    | inl b ↦ rw (a, b) (two_bytes c rest (ground (arith, a)) (ltb→lt c 0x800 b))
    | inr b ↦ elim (Bool-cases (ltb c 0x10000)) [
      | inl d ↦ rw (a, b, d) (three_bytes c rest (ground (arith, b)) (ltb→lt c 0x10000 d) hi lo)
      | inr d ↦ rw (a, b, d) (four_bytes c rest (ground (arith, d)) h)
    ]
  ]
]
