-- ===== src/Text/Percent/Visible.antt =====
-- The characters that `encodeURIComponent` writes.
use connect_web.Prelude.{
  ℕ, ◌+◌, ◌-◌, ◌*◌, ◌/◌, ◌%◌, ◌<◌, true, List, [], ◌∷◌, ◌≡◌, sym, inl, inr, Option, none, some,
  arith, Bool-cases,
}
use connect_web.Text.{Text}
use connect_web.Text.Decimal.{is_digit}
use connect_web.Text.Percent.{
  is_unescaped, is_high, is_low, utf8, hex_digit, percent, escaped, kept, encode_from,
  encode_uri_component,
}
use connect_web.Text.Percent.RoundTrip.{
  AllUnits, encode-kept, encode-low, encode-high, encode-escaped, encode-pair, encode-lone,
  pair_fits,
}
use mathlib.Core.Path.{subst}
use connect_web.Headers.Values.{AllVisible, AllVisible-append, IsVisible}

abbrev WhenSome : Option Text → Type 0
WhenSome none = Unit {0}
WhenSome (some t) = AllVisible t

unescaped-IsVisible : (c : ℕ) → is_unescaped c ≡ true → IsVisible c
unfolding is_unescaped is_digit
unescaped-IsVisible c h = ground arith

hex-IsVisible : (n : ℕ) → n < 16 → IsVisible (hex_digit n)
unfolding hex_digit
hex-IsVisible n h = ground arith

abbrev AllBytes : List ℕ → Type 0
AllBytes [] = Unit {0}
AllBytes (b ∷ bs) = (b < 256) × AllBytes bs

percent-AllVisible : (bs : List ℕ) → AllBytes bs → AllVisible (percent bs)
unfolding percent
percent-AllVisible [] h = tt
percent-AllVisible (b ∷ bs) (h, hs) = (
  (omega arith, omega arith),
  (
    hex-IsVisible (b / 16) (omega arith),
    (hex-IsVisible (b % 16) (omega arith), percent-AllVisible bs hs),
  ),
)

utf8-AllBytes : (c : ℕ) → c < 0x110000 → AllBytes (utf8 c)
unfolding utf8
utf8-AllBytes c h = ground arith

kept-WhenSome : (c : ℕ) (o : Option Text) → is_unescaped c ≡ true → WhenSome o → WhenSome (kept c o)
unfolding kept
kept-WhenSome c none u v = tt
kept-WhenSome c (some t) u v = (unescaped-IsVisible c u, v)

escaped-WhenSome : (c : ℕ) (o : Option Text) → c < 0x110000 → WhenSome o → WhenSome (escaped c o)
unfolding escaped
escaped-WhenSome c none h v = tt
escaped-WhenSome c (some t) h v =
    AllVisible-append (percent (utf8 c)) t (percent-AllVisible (utf8 c) (utf8-AllBytes c h)) v

abbrev IsWaiting : Option ℕ → Type 0
IsWaiting none = Unit {0}
IsWaiting (some high) = is_high high ≡ true

moved : {o p : Option Text} → o ≡ p → WhenSome p → WhenSome o
moved e v = subst WhenSome (sym e) v

unit-WhenSome :
    (c : ℕ) (cs : Text)
    → c < 0x10000
    → WhenSome (encode_from none cs)
    → (is_high c ≡ true → WhenSome (encode_from (some c) cs))
    → WhenSome (encode_from none (c ∷ cs))
unit-WhenSome c cs l v w = elim (Bool-cases (is_unescaped c)) [
  | inl u ↦ moved (encode-kept c cs u) (kept-WhenSome c (encode_from none cs) u v)
  | inr u ↦ elim (Bool-cases (is_low c)) [
    | inl k ↦ moved (encode-low c cs u k) tt
    | inr k ↦ elim (Bool-cases (is_high c)) [
      | inl h ↦ moved (encode-high c cs u k h) (w h)
      | inr h ↦
          moved (encode-escaped c cs u k h)
            (escaped-WhenSome c (encode_from none cs) (omega arith) v)
    ]
  ]
]

pair-WhenSome :
    (high c : ℕ) (cs : Text)
    → is_high high ≡ true
    → WhenSome (encode_from none cs)
    → WhenSome (encode_from (some high) (c ∷ cs))
pair-WhenSome high c cs h v = elim (Bool-cases (is_low c)) [
  | inl l ↦
      let point = 0x10000 + (high - 0xd800) * 1024 + (c - 0xdc00) in
      moved (encode-pair high c cs l)
        (escaped-WhenSome point (encode_from none cs) (pair_fits high c h l).1 v)
  | inr l ↦ moved (encode-lone high c cs l) tt
]

encode_from-WhenSome :
    (waiting : Option ℕ) (s : Text)
    → AllUnits s
    → IsWaiting waiting
    → WhenSome (encode_from waiting s)
unfolding encode_from
encode_from-WhenSome none [] u w = tt
encode_from-WhenSome (some high) [] u w = tt
encode_from-WhenSome none (c ∷ cs) (u, us) w =
    unit-WhenSome c cs u (encode_from-WhenSome none cs us tt)
      (λ h. encode_from-WhenSome (some c) cs us h)
encode_from-WhenSome (some high) (c ∷ cs) (u, us) w =
    pair-WhenSome high c cs w (encode_from-WhenSome none cs us tt)

pub encode_uri_component-AllVisible :
    (s t : Text) → AllUnits s → encode_uri_component s ≡ some t → AllVisible t
unfolding encode_uri_component
encode_uri_component-AllVisible s t u e = subst WhenSome e (encode_from-WhenSome none s u tt)
