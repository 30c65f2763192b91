-- ===== src/Text/Percent/RoundTrip.antt =====
-- `decodeURIComponent` against `encodeURIComponent`.
use connect_web.Text.Percent.Bytes.{decode-utf8}
use connect_web.Prelude.{
  ℕ, ◌+◌, ◌-◌, ◌*◌, ◌≤◌, ◌<◌, true, false, [], ◌∷◌, ◌++◌, ◌≡◌, refl, sym, ap, ◌∙◌, ◌≢◌, inl, inr,
  Option, none, some, arith, ◌==◌, Bool-cases,
}
use mathlib.Core.Option.{some-injective}
use connect_web.Text.{Text}
use connect_web.Text.Decimal.{is_digit}
use connect_web.Text.Percent.{
  is_unescaped, is_high, is_low, escaped, kept, encode_from, encode_uri_component, utf16, between,
  in_front, plain, decode_from, decode_uri_component,
}

-- code units of UTF-16
abbrev pub AllUnits : Text → Type 0
AllUnits [] = Unit {0}
AllUnits (c ∷ cs) = (c < 0x10000) × AllUnits cs

decode-plain :
    (c : ℕ) (r : Text)
    → (c == b'%') ≡ false
    → decode_from between (c ∷ r) ≡ kept c (decode_from between r)
unfolding decode_from plain
decode-plain c [] h = rw h refl
decode-plain c (x ∷ []) h = rw h refl
decode-plain c (x ∷ y ∷ r) h = rw h refl

unescaped-percent : (c : ℕ) → is_unescaped c ≡ true → (c == b'%') ≡ false
unfolding is_unescaped is_digit
unescaped-percent c h = ground arith

-- what `kept` and `escaped` make of a text that is decoded again
kept-back :
    (c : ℕ) (cs t : Text) (o : Option Text)
    → is_unescaped c ≡ true
    → kept c o ≡ some t
    → ((r : Text) → o ≡ some r → decode_from between r ≡ some cs)
    → decode_from between t ≡ some (c ∷ cs)
unfolding kept
kept-back c cs t none u e back = ground (arith, e)
kept-back c cs t (some r) u e back =
    ap (decode_from between) (sym (some-injective _ _ e))
    ∙ decode-plain c r (unescaped-percent c u)
    ∙ ap (kept c) (back r refl)

escaped-back :
    (c : ℕ) (cs t : Text) (o : Option Text)
    → c < 0x110000
    → is_high c ≡ false
    → is_low c ≡ false
    → escaped c o ≡ some t
    → ((r : Text) → o ≡ some r → decode_from between r ≡ some cs)
    → decode_from between t ≡ some (utf16 c ++ cs)
unfolding escaped in_front
escaped-back c cs t none l hi lo e back = ground (arith, e)
escaped-back c cs t (some r) l hi lo e back =
    ap (decode_from between) (sym (some-injective _ _ e))
    ∙ decode-utf8 c r l hi lo
    ∙ ap (in_front (utf16 c)) (back r refl)

pub encode-kept :
    (c : ℕ) (cs : Text)
    → is_unescaped c ≡ true
    → encode_from none (c ∷ cs) ≡ kept c (encode_from none cs)
unfolding encode_from
encode-kept c cs u = rw u refl

pub encode-low :
    (c : ℕ) (cs : Text)
    → is_unescaped c ≡ false
    → is_low c ≡ true
    → encode_from none (c ∷ cs) ≡ none
unfolding encode_from
encode-low c cs u l = rw (u, l) refl

pub encode-high :
    (c : ℕ) (cs : Text)
    → is_unescaped c ≡ false
    → is_low c ≡ false
    → is_high c ≡ true
    → encode_from none (c ∷ cs) ≡ encode_from (some c) cs
unfolding encode_from
encode-high c cs u l h = rw (u, l, h) refl

pub encode-escaped :
    (c : ℕ) (cs : Text)
    → is_unescaped c ≡ false
    → is_low c ≡ false
    → is_high c ≡ false
    → encode_from none (c ∷ cs) ≡ escaped c (encode_from none cs)
unfolding encode_from
encode-escaped c cs u l h = rw (u, l, h) refl

pub encode-pair :
    (high c : ℕ) (cs : Text)
    → is_low c ≡ true
    → encode_from (some high) (c ∷ cs)
      ≡ escaped (0x10000 + (high - 0xd800) * 1024 + (c - 0xdc00)) (encode_from none cs)
unfolding encode_from
encode-pair high c cs l = rw l refl

pub encode-lone :
    (high c : ℕ) (cs : Text) → is_low c ≡ false → encode_from (some high) (c ∷ cs) ≡ none
unfolding encode_from
encode-lone high c cs l = rw l refl

none-some : (t : Text) → none ≢ some t
none-some t e = ground (arith, e)

-- the code point of a pair, and its code units
pub pair_fits :
    (high low : ℕ)
    → is_high high ≡ true
    → is_low low ≡ true
    → let c = 0x10000 + (high - 0xd800) * 1024 + (low - 0xdc00) in (0x10000 ≤ c) × (c < 0x110000)
unfolding is_high is_low
pair_fits high low h l = (omega arith, ground arith)

pair-utf16 :
    (high low : ℕ)
    → is_high high ≡ true
    → is_low low ≡ true
    → utf16 (0x10000 + (high - 0xd800) * 1024 + (low - 0xdc00)) ≡ high ∷ low ∷ []
unfolding utf16 is_high is_low
pair-utf16 high low h l = ground arith

unit-utf16 : (c : ℕ) → c < 0x10000 → utf16 c ≡ c ∷ []
unfolding utf16
unit-utf16 c h = ground arith

large-plain : (c : ℕ) → 0x10000 ≤ c → (is_high c ≡ false) × (is_low c ≡ false)
unfolding is_high is_low
large-plain c h = ground arith

-- by the half of a pair that is waiting
abbrev Back : Option ℕ → Text → Text → Type 0
Back none s t = encode_from none s ≡ some t → decode_from between t ≡ some s
Back (some high) s t =
    is_high high ≡ true
    → encode_from (some high) s ≡ some t
    → decode_from between t ≡ some (high ∷ s)

Back-unit :
    (c : ℕ) (cs t : Text)
    → c < 0x10000
    → ((r : Text) → Back none cs r)
    → ((r : Text) → Back (some c) cs r)
    → Back none (c ∷ cs) t
Back-unit c cs t l plain_back pair_back e = elim (Bool-cases (is_unescaped c)) [
  | inl u ↦ kept-back c cs t (encode_from none cs) u (sym (encode-kept c cs u) ∙ e) plain_back
  | inr u ↦ elim (Bool-cases (is_low c)) [
    | inl w ↦ absurd (none-some t (sym (encode-low c cs u w) ∙ e))
    | inr w ↦ elim (Bool-cases (is_high c)) [
      | inl h ↦ pair_back t h (sym (encode-high c cs u w h) ∙ e)
      | inr h ↦
          escaped-back c cs t (encode_from none cs) (omega arith) h w
            (sym (encode-escaped c cs u w h) ∙ e) plain_back
          ∙ ap (λ x. some (x ++ cs)) (unit-utf16 c l)
    ]
  ]
]

Back-pair : (high c : ℕ) (cs t : Text) → ((r : Text) → Back none cs r) → Back (some high) (c ∷ cs) t
Back-pair high c cs t plain_back h e = elim (Bool-cases (is_low c)) [
  | inl w ↦
      let point = 0x10000 + (high - 0xd800) * 1024 + (c - 0xdc00) in
      let fits = pair_fits high c h w in
      let whole = large-plain point fits.0 in
      escaped-back point cs t (encode_from none cs) fits.1 whole.0 whole.1
        (sym (encode-pair high c cs w) ∙ e) plain_back
      ∙ ap (λ x. some (x ++ cs)) (pair-utf16 high c h w)
  | inr w ↦ absurd (none-some t (sym (encode-lone high c cs w) ∙ e))
]

back : (waiting : Option ℕ) (s t : Text) → AllUnits s → Back waiting s t
unfolding encode_from decode_from
back none [] t u = λ e. ap (decode_from between) (sym (some-injective _ _ e))
back (some high) [] t u = λ h e. absurd (none-some t e)
back none (c ∷ cs) t (u, us) =
    Back-unit c cs t u (λ r. back none cs r us) (λ r. back (some c) cs r us)
back (some high) (c ∷ cs) t (u, us) = Back-pair high c cs t (λ r. back none cs r us)

-- `decodeURIComponent` restores whatever `encodeURIComponent` accepts.
pub decode-encode_uri_component :
    (s t : Text) → AllUnits s → encode_uri_component s ≡ some t → decode_uri_component t ≡ some s
unfolding encode_uri_component decode_uri_component
decode-encode_uri_component s t u e = back none s t u e
