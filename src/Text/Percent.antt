-- ===== src/Text/Percent.antt =====
-- `encodeURIComponent` and `decodeURIComponent` of JavaScript, on code units of UTF-16; `none` stands
-- for the URIError that they throw.
pub mod Bytes
pub mod RoundTrip
pub mod Visible
use connect_web.Prelude.{
  ℕ, ◌+◌, ◌-◌, ◌*◌, ◌/◌, ◌%◌, Bool, false, not, ◌&&◌, ◌||◌, List, [], ◌∷◌, ◌++◌, Option, none, some,
  leb, ltb, ◌==◌, if◌then◌else◌,
}
use connect_web.Text.{Text, codes}
use connect_web.Text.Decimal.{is_digit}

contains : Text → ℕ → Bool
contains [] c = false
contains (x ∷ xs) c = x == c || contains xs c

-- letters, digits and "-_.!~*'()" stand for themselves
unfoldable pub is_unescaped : ℕ → Bool
unfolding is_digit contains
is_unescaped c =
    is_digit c
    || (leb b'a' c && leb c b'z')
    || (leb b'A' c && leb c b'Z')
    || contains (codes "-_.!~*'()") c

unfoldable pub is_high : ℕ → Bool
is_high c = leb 0xd800 c && ltb c 0xdc00

unfoldable pub is_low : ℕ → Bool
is_low c = leb 0xdc00 c && ltb c 0xe000

-- the bytes of a code point
unfoldable pub utf8 : ℕ → List ℕ
utf8 c =
    if ltb c 0x80
    then c ∷ []
    else if ltb c 0x800
    then (192 + c / 64) ∷ (128 + c % 64) ∷ []
    else if ltb c 0x10000
    then (224 + c / 4096) ∷ (128 + c / 64 % 64) ∷ (128 + c % 64) ∷ []
    else (240 + c / 262144) ∷ (128 + c / 4096 % 64) ∷ (128 + c / 64 % 64) ∷ (128 + c % 64) ∷ []

hex_digit : ℕ → ℕ
hex_digit n = if ltb n 10 then b'0' + n else b'A' + (n - 10)

unfoldable pub percent : List ℕ → Text
unfolding hex_digit
percent [] = []
percent (b ∷ bs) = b'%' ∷ hex_digit (b / 16) ∷ hex_digit (b % 16) ∷ percent bs

unfoldable pub escaped : ℕ → Option Text → Option Text
unfolding utf8 percent
escaped c none = none
escaped c (some rest) = some (percent (utf8 c) ++ rest)

unfoldable pub kept : ℕ → Option Text → Option Text
kept c none = none
kept c (some rest) = some (c ∷ rest)

-- with the first half of a pair that is waiting for its second
unfoldable pub encode_from : Option ℕ → Text → Option Text
unfolding is_unescaped is_high is_low escaped kept
encode_from none [] = some []
encode_from (some high) [] = none
encode_from none (c ∷ cs) =
    let rest = encode_from none cs in
    let paired = encode_from (some c) cs in
    if is_unescaped c
    then kept c rest
    else if is_low c
    then none
    else if is_high c
    then paired
    else escaped c rest
encode_from (some high) (c ∷ cs) =
    let rest = encode_from none cs in
    if is_low c then escaped (0x10000 + (high - 0xd800) * 1024 + (c - 0xdc00)) rest else none

unfoldable pub encode_uri_component : Text → Option Text
unfolding encode_from
encode_uri_component = encode_from none

hex_value : ℕ → Option ℕ
unfolding is_digit
hex_value c =
    if is_digit c
    then some (c - b'0')
    else if leb b'A' c && leb c b'F'
    then some (c - b'A' + 10)
    else if leb b'a' c && leb c b'f'
    then some (c - b'a' + 10)
    else none

hex_byte : ℕ → ℕ → Option ℕ
unfolding hex_value
hex_byte h l = elim (hex_value h) [
  | none ↦ none
  | some a ↦ elim (hex_value l) [ none ↦ none | some b ↦ some (a * 16 + b) ]
]

-- the code units of a code point that a sequence of bytes may encode
unfoldable pub utf16 : ℕ → Text
utf16 c =
    if ltb c 0x10000
    then c ∷ []
    else (0xd800 + (c - 0x10000) / 1024) ∷ (0xdc00 + (c - 0x10000) % 1024) ∷ []

-- a code point that needs this many bytes
is_shortest : ℕ → ℕ → Bool
is_shortest bytes c =
    if bytes == 2
    then leb 0x80 c
    else if bytes == 3
    then leb 0x800 c && not (leb 0xd800 c && ltb c 0xe000)
    else leb 0x10000 c && ltb c 0x110000

-- What the loop has read of a sequence: its number of bytes, how many are missing, and the bits.
pub data Sequence : Type 0 where
  between : Sequence
  within : ℕ → ℕ → ℕ → Sequence

begun : ℕ → Option Sequence
begun b =
    if ltb b 0xc0
    then none
    else if ltb b 0xe0
    then some (within 2 1 (b - 0xc0))
    else if ltb b 0xf0
    then some (within 3 2 (b - 0xe0))
    else if ltb b 0xf8
    then some (within 4 3 (b - 0xf0))
    else none

-- one byte: the code units that it completes, and the state behind it
read_byte : Sequence → ℕ → Option (Text × Sequence)
unfolding begun utf16 is_shortest
read_byte between b =
    if ltb b 0x80
    then some (b ∷ [], between)
    else elim (begun b) [ none ↦ none | some s ↦ some ([], s) ]
read_byte (within bytes missing bits) b =
    let c = bits * 64 + (b - 0x80) in
    if not (leb 0x80 b && ltb b 0xc0)
    then none
    else if leb 2 missing
    then some ([], within bytes (missing - 1) c)
    else if is_shortest bytes c
    then some (utf16 c, between)
    else none

unfoldable pub in_front : Text → Option Text → Option Text
in_front units none = none
in_front units (some rest) = some (units ++ rest)

-- a character that is not escaped, which cannot stand within a sequence
plain : Sequence → ℕ → Option Text → Option Text
unfolding kept
plain between c rest = kept c rest
plain (within bytes missing bits) c rest = none

unfoldable pub decode_from : Sequence → Text → Option Text
unfolding read_byte in_front hex_byte plain
decode_from between [] = some []
decode_from (within bytes missing bits) [] = none
decode_from s (c ∷ h ∷ l ∷ cs) =
    let rest = decode_from between (h ∷ l ∷ cs) in
    let decoded : Option Text = elim (hex_byte h l) [
      | none ↦ none
      | some b ↦ elim (read_byte s b) [
        | none ↦ none
        | some (units, later) ↦ in_front units (decode_from later cs)
      ]
    ] in
    if c == b'%' then decoded else plain s c rest
decode_from s (c ∷ cs) =
    let rest = decode_from between cs in if c == b'%' then none else plain s c rest

unfoldable pub decode_uri_component : Text → Option Text
unfolding decode_from
decode_uri_component = decode_from between
