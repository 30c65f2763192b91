-- ===== src/Headers/Values.antt =====
-- Header values that need no normalization, and numbers among them.
use connect_web.ConnectError.{checked}
use connect_web.Prelude.{
  ℕ, ◌<◌, Bool, true, false, ◌&&◌, [], ◌∷◌, ◌++◌, ◌≡◌, refl, ap, ◌∙◌, some, arith, ltb,
}
use connect_web.ConnectError.{ok}
use mathlib.Core.List.{reverse, reverse-reverse, reverse-cons}
use connect_web.Text.{Text, to_lower_case}
use connect_web.Headers.Laws.{set-valid}
use connect_web.Text.Trim.{drop_while, strip}
use connect_web.Text.Decimal.{is_digit, AllDigits, print, print-AllDigits}
use connect_web.Headers.{Headers, set, insert, is_name, is_http_space, normalize, is_value}

abbrev pub NoneOf : (ℕ → Bool) → Text → Type 0
NoneOf p [] = Unit {0}
NoneOf p (c ∷ cs) = (p c ≡ false) × NoneOf p cs

NoneOf-append : (p : ℕ → Bool) (s t : Text) → NoneOf p s → NoneOf p t → NoneOf p (s ++ t)
NoneOf-append p [] t hs ht = ht
NoneOf-append p (c ∷ s) t (h, hs) ht = (h, NoneOf-append p s t hs ht)

NoneOf-reverse : (p : ℕ → Bool) (s : Text) → NoneOf p s → NoneOf p (reverse s)
NoneOf-reverse p [] h = tt
NoneOf-reverse p (c ∷ s) (h, hs) =
    rw reverse-cons (NoneOf-append p (reverse s) (c ∷ []) (NoneOf-reverse p s hs) (h, tt))

drop_while-NoneOf : (p : ℕ → Bool) (s : Text) → NoneOf p s → drop_while p s ≡ s
unfolding drop_while
drop_while-NoneOf p [] h = refl
drop_while-NoneOf p (c ∷ s) (h, hs) = rw h

pub strip-NoneOf : (p : ℕ → Bool) (s : Text) → NoneOf p s → strip p s ≡ s
unfolding strip
strip-NoneOf p s h =
    rw (drop_while-NoneOf p s h)
      (rw (drop_while-NoneOf p (reverse s) (NoneOf-reverse p s h)) (reverse-reverse s))

-- a character that is a digit, a letter or another visible one
abbrev pub IsVisible : ℕ → Type 0
IsVisible c = (32 < c) × (c < 127)

abbrev pub AllVisible : Text → Type 0
AllVisible [] = Unit {0}
AllVisible (c ∷ cs) = IsVisible c × AllVisible cs

AllVisible-NoneOf : (s : Text) → AllVisible s → NoneOf is_http_space s
unfolding is_http_space
AllVisible-NoneOf [] h = tt
AllVisible-NoneOf (c ∷ s) (h, hs) = (ground arith, AllVisible-NoneOf s hs)

-- A visible text is a valid value and stays as it is.
pub normalize-visible : (s : Text) → AllVisible s → normalize s ≡ s
unfolding normalize
normalize-visible s h = strip-NoneOf is_http_space s (AllVisible-NoneOf s h)

pub is_value-visible : (s : Text) → AllVisible s → is_value s ≡ true
unfolding is_value
is_value-visible [] h = refl
is_value-visible (c ∷ s) (h, hs) = ground (arith, is_value-visible s hs)

pub AllVisible-append : (s t : Text) → AllVisible s → AllVisible t → AllVisible (s ++ t)
AllVisible-append [] t hs ht = ht
AllVisible-append (c ∷ s) t (h, hs) ht = (h, AllVisible-append s t hs ht)

digits-visible : (s : Text) → AllDigits s → AllVisible s
unfolding is_digit
digits-visible [] h = tt
digits-visible (c ∷ s) (h, hs) = (ground arith, digits-visible s hs)

pub print-visible : (n : ℕ) → AllVisible (print n)
print-visible n = digits-visible (print n) (print-AllDigits n)

-- `set` with a valid name and a visible value always succeeds.
pub set-visible :
    (h : Headers) (name value : Text)
    → is_name name ≡ true
    → AllVisible value
    → set h name value ≡ some (insert (to_lower_case name) value h)
set-visible h name value n v =
    set-valid h name value n (rw (normalize-visible value v) (is_value-visible value v))
    ∙ ap (λ t. some (insert (to_lower_case name) t h)) (normalize-visible value v)

unfoldable pub all_visible : Text → Bool
all_visible [] = true
all_visible (c ∷ cs) = ltb 32 c && ltb c 127 && all_visible cs

pub all_visible-AllVisible : (s : Text) → all_visible s ≡ true → AllVisible s
unfolding all_visible
all_visible-AllVisible [] e = tt
all_visible-AllVisible (c ∷ s) e = ground (arith, all_visible-AllVisible s)

-- a field that the source sets under a constant name
pub checked-set :
    (h : Headers) (name value : Text)
    → is_name name ≡ true
    → AllVisible value
    → checked (set h name value) ≡ ok (insert (to_lower_case name) value h)
checked-set h name value n v = ap checked (set-visible h name value n v)

-- a field whose name and value are constants
pub checked-set_constant :
    (h : Headers) (name value : Text)
    → is_name name ≡ true
    → all_visible value ≡ true
    → checked (set h name value) ≡ ok (insert (to_lower_case name) value h)
checked-set_constant h name value n v = checked-set h name value n (all_visible-AllVisible value v)
