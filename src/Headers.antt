-- ===== src/Headers.antt =====
-- The `Headers` class of the fetch standard, as the sources use it: a map from lower-case names to
-- values, iterated in the order of the names, with repeated values joined by ", ". The separate
-- entries that an iteration gives for "set-cookie" are not told apart.
pub mod Order
pub mod Laws
pub mod Values
use connect_web.Prelude.{
  ℕ, zero, suc, ◌+◌, ◌-◌, ◌*◌, ◌/◌, ◌%◌, ◌^◌, ◌≤◌, ◌<◌, Bool, true, false, not, ◌&&◌, ◌||◌, List,
  [], ◌∷◌, ◌++◌, map, ℤ, pos, negsuc, ◌≡◌, refl, sym, ap, ap₂, ◌∙◌, ◌≢◌, ◌↔◌, ◌⊎◌, inl, inr, Option,
  none, some, String, arith, leb, ltb, ◌==◌, if◌then◌else◌, Bool-cases, Option-cases, ==_iff,
  leb→le, ltb→lt, lt→ltb, tests, length, length-append, take, drop, take-append-drop, length-take,
  length-drop, length-map, fun_ext, replicate, length-replicate, append-nil, append_assoc,
}
use connect_web.Text.{Text, codes, lower, to_lower_case, ◌===◌}
use connect_web.Text.Trim.{strip}
use connect_web.Text.Decimal.{is_digit}

-- `a < b` on strings
unfoldable pub text_lt : Text → Text → Bool
text_lt [] [] = false
text_lt [] (b ∷ t) = true
text_lt (a ∷ s) [] = false
text_lt (a ∷ s) (b ∷ t) = ltb a b || (a == b && text_lt s t)

abbrev pub Headers : Type 0
Headers = List (Text × Text)

abbrev pub empty : Headers
empty = []

-- tab, newline, return, space: stripped from both ends of a value
unfoldable pub is_http_space : ℕ → Bool
is_http_space c = c == 9 || c == 10 || c == 13 || c == 32

unfoldable pub normalize : Text → Text
normalize = strip is_http_space

contains : Text → ℕ → Bool
contains [] c = false
contains (x ∷ xs) c = x == c || contains xs c

-- tchar of RFC 9110
unfoldable pub is_token : ℕ → Bool
unfolding is_digit contains
is_token c =
    is_digit c
    || (leb b'a' c && leb c b'z')
    || (leb b'A' c && leb c b'Z')
    || contains (codes "!#$%&'*+-.^_`|~") c

all : (ℕ → Bool) → Text → Bool
all p [] = true
all p (c ∷ cs) = p c && all p cs

unfoldable pub is_name : Text → Bool
unfolding all is_token
is_name [] = false
is_name (c ∷ cs) = all is_token (c ∷ cs)

-- a code unit of a value: one byte, and no NUL, newline or return
unfoldable pub is_value_unit : ℕ → Bool
is_value_unit c = ltb c 256 && not (c == 0 || c == 10 || c == 13)

unfoldable pub is_value : Text → Bool
unfolding all is_value_unit
is_value = all is_value_unit

unfoldable pub lookup : Text → Headers → Option Text
lookup k [] = none
lookup k ((j, v) ∷ h) = if j === k then some v else lookup k h

-- `headers.get(name)`, with `none` for null
unfoldable pub get : Headers → Text → Option Text
unfolding lookup
get h name = lookup (to_lower_case name) h

unfoldable pub has : Headers → Text → Bool
has h name = elim (get h name) [ none ↦ false | some v ↦ true ]

unfoldable pub insert : Text → Text → Headers → Headers
insert k v [] = (k, v) ∷ []
insert k v ((j, w) ∷ h) =
    if j === k
    then (k, v) ∷ h
    else if text_lt k j
    then (k, v) ∷ (j, w) ∷ h
    else (j, w) ∷ insert k v h

-- the value that an append leaves behind an old one
unfoldable pub joined : Option Text → Text → Text
joined none v = v
joined (some w) v = w ++ (codes ", " ++ v)

-- a valid header field; `none` stands for the TypeError of an invalid one
field : Text → Text → Option (Text × Text)
field name value =
    if is_name name && is_value (normalize value)
    then some (to_lower_case name, normalize value)
    else none

-- `headers.set(name, value)`
unfoldable pub set : Headers → Text → Text → Option Headers
unfolding field
set h name value = elim (field name value) [ none ↦ none | some (k, v) ↦ some (insert k v h) ]

unfoldable pub put_field : Text → Text → Headers → Headers
unfolding joined lookup
put_field k v h = insert k (joined (lookup k h) v) h

-- `headers.append(name, value)`
unfoldable pub append : Headers → Text → Text → Option Headers
unfolding field put_field
append h name value = elim (field name value) [ none ↦ none | some (k, v) ↦ some (put_field k v h) ]

unfoldable pub remove : Headers → Text → Headers
remove [] name = []
remove ((j, w) ∷ h) name =
    let rest = remove h name in if j === to_lower_case name then rest else (j, w) ∷ rest

-- `e.forEach((value, key) => h.append(key, value))`: the fields of a `Headers` are valid, and a
-- joined value is normalized again
unfoldable pub append_all : Headers → Headers → Headers
unfolding put_field normalize
append_all h [] = h
append_all h ((k, v) ∷ e) = append_all (put_field k (normalize v) h) e

-- `new Headers(init)` for another `Headers`
unfoldable pub copy : Headers → Headers
copy = append_all []
