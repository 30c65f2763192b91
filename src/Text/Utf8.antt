-- ===== src/Text/Utf8.antt =====
-- `TextEncoder` and `TextDecoder` of JavaScript, between code units of UTF-16 and bytes of UTF-8.
use connect_web.Prelude.{
  ℕ, ◌+◌, ◌-◌, ◌*◌, ◌/◌, ◌%◌, ◌<◌, ◌&&◌, List, [], ◌∷◌, ◌++◌, ◌≡◌, refl, ap, ◌∙◌, Option, none,
  some, arith, leb, ltb, ◌==◌, if◌then◌else◌,
}
use connect_web.Text.{Text}
use connect_web.Text.Percent.{utf8, is_high, is_low}

abbrev replacement : ℕ
replacement = 0xfffd

-- with the first half of a pair that is waiting for its second; a lone half is replaced
unfoldable pub encode_from : Option ℕ → Text → List ℕ
unfolding utf8 is_high is_low
encode_from none [] = []
encode_from (some high) [] = utf8 replacement
encode_from none (c ∷ cs) =
    let rest = encode_from none cs in
    let paired = encode_from (some c) cs in
    if is_high c then paired else if is_low c then utf8 replacement ++ rest else utf8 c ++ rest
encode_from (some high) (c ∷ cs) =
    let rest = encode_from none cs in
    let paired = encode_from (some c) cs in
    if is_low c
    then utf8 (0x10000 + (high - 0xd800) * 0x400 + (c - 0xdc00)) ++ rest
    else if is_high c
    then utf8 replacement ++ paired
    else utf8 replacement ++ (utf8 c ++ rest)

-- `new TextEncoder().encode(s)`
unfoldable pub encode_utf8 : Text → List ℕ
unfolding encode_from
encode_utf8 = encode_from none

-- the decoder: between characters, or with bytes still needed, the bits read, and the bounds of the
-- next byte
pub data Pending : Type 0 where
  idle : Pending
  partial : ℕ → ℕ → ℕ → ℕ → Pending

units : ℕ → Text
units c =
    if ltb c 0x10000
    then c ∷ []
    else (0xd800 + (c - 0x10000) / 0x400) ∷ (0xdc00 + (c - 0x10000) % 0x400) ∷ []

first_byte : ℕ → Text × Pending
first_byte b =
    if ltb b 0x80
    then (b ∷ [], idle)
    else if leb 0xc2 b && leb b 0xdf
    then ([], partial 1 (b - 0xc0) 0x80 0xbf)
    else if leb 0xe0 b && leb b 0xef
    then (
      [],
      partial 2 (b - 0xe0) (if b == 0xe0 then 0xa0 else 0x80) (if b == 0xed then 0x9f else 0xbf),
    )
    else if leb 0xf0 b && leb b 0xf4
    then (
      [],
      partial 3 (b - 0xf0) (if b == 0xf0 then 0x90 else 0x80) (if b == 0xf4 then 0x8f else 0xbf),
    )
    else (replacement ∷ [], idle)

more_byte : ℕ → ℕ → ℕ → Text × Pending
unfolding units
more_byte needed bits b =
    let read = bits * 64 + (b - 0x80) in
    if needed == 1 then (units read, idle) else ([], partial (needed - 1) read 0x80 0xbf)

-- a byte that does not continue a character starts another
next_byte : Pending → ℕ → Text × Pending
unfolding first_byte more_byte
next_byte idle b = first_byte b
next_byte (partial needed bits low high) b =
    if leb low b && leb b high
    then more_byte needed bits b
    else let (t, p) = first_byte b in (replacement ∷ t, p)

decode_from : Pending → List ℕ → Text
unfolding next_byte
decode_from idle [] = []
decode_from (partial needed bits low high) [] = replacement ∷ []
decode_from p (b ∷ bs) = let (t, q) = next_byte p b in t ++ decode_from q bs

-- a byte order mark in front is not part of the text
strip_mark : Text → Text
strip_mark [] = []
strip_mark (c ∷ cs) = if c == 0xfeff then cs else c ∷ cs

-- `new TextDecoder().decode(bytes)`
unfoldable pub decode_utf8 : List ℕ → Text
unfolding decode_from strip_mark
decode_utf8 bytes = strip_mark (decode_from idle bytes)

-- the code units of a byte string
abbrev pub AllBytes : Text → Type 0
AllBytes [] = Unit {0}
AllBytes (c ∷ cs) = (c < 256) × AllBytes cs

encode_byte :
    (c : ℕ) (cs : Text) → c < 256 → encode_from none (c ∷ cs) ≡ utf8 c ++ encode_from none cs
unfolding encode_from is_high is_low
encode_byte c cs h = ground arith

decode_byte :
    (c : ℕ) (bs : List ℕ) → c < 256 → decode_from idle (utf8 c ++ bs) ≡ c ∷ decode_from idle bs
unfolding utf8 decode_from next_byte first_byte more_byte units
decode_byte c bs h = ground arith

decode-encode_from : (s : Text) → AllBytes s → decode_from idle (encode_from none s) ≡ s
unfolding encode_from decode_from
decode-encode_from [] h = refl
decode-encode_from (c ∷ cs) (h, hs) =
    rw (encode_byte c cs h, decode_byte c (encode_from none cs) h)
      (ap (◌∷◌ c) (decode-encode_from cs hs))

byte_string-strip_mark : (s : Text) → AllBytes s → strip_mark s ≡ s
unfolding strip_mark
byte_string-strip_mark [] h = refl
byte_string-strip_mark (c ∷ cs) h = ground arith

-- A byte string is decoded from its encoding.
pub decode_utf8-encode_utf8 : (s : Text) → AllBytes s → decode_utf8 (encode_utf8 s) ≡ s
unfolding decode_utf8 encode_utf8
decode_utf8-encode_utf8 s h = ap strip_mark (decode-encode_from s h) ∙ byte_string-strip_mark s h

-- `Buffer.from(bytes).toString("utf8")`, which keeps a byte order mark
unfoldable pub buffer_to_string : List ℕ → Text
unfolding decode_from
buffer_to_string = decode_from idle
