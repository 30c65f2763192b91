-- ===== src/Node/NodeHeader.antt =====
-- private/node-universal-header.ts of packages/connect-node/src: headers of Node, for those that are given
-- as a `Headers` object.
use connect_web.Prelude.{
  ℕ, Bool, true, false, List, [], ◌∷◌, ◌++◌, ◌≡◌, refl, sym, ap, ◌∙◌, ◌≢◌, inl, inr, Option, none,
  some, arith, ◌==◌, if◌then◌else◌, Bool-cases, append-nil, append_assoc,
}
use connect_web.Headers.{text_lt, is_name, is_value, is_token}
use connect_web.Headers.Order.{Above, IsSorted, text_lt_irrefl}
use connect_web.Headers.Laws.{append-valid, copy_self, IsClean}
use connect_web.Text.Equality.{===_iff}
use connect_web.Connect.TrailerMux.Muxed.{AllStored}
use connect_web.Text.{Text, ◌===◌, to_lower_case}
use connect_web.Text.Decimal.{print}
use connect_web.Headers.{Headers, append, append_all, copy, normalize, put_field}
use connect_web.ConnectError.{Result, ok, checked, ◌>>=◌, ok_then}

-- a value of a header of Node
pub data NodeValue : Type 0 where
  undefined_value : NodeValue
  text_value : Text → NodeValue
  number_value : ℕ → NodeValue
  list_value : List Text → NodeValue

-- the properties of an object, in the order in which they were created
abbrev pub NodeHeaders : Type 0
NodeHeaders = List (Text × NodeValue)

unfoldable pub append_values : Headers → Text → List Text → Result Headers
unfolding append
append_values header k [] = ok header
append_values header k (v ∷ vs) = checked (append header k v) >>= (λ h. append_values h k vs)

unfoldable pub append_value : Headers → Text → NodeValue → Result Headers
unfolding append append_values print
append_value header k undefined_value = ok header
append_value header k (text_value v) = checked (append header k v)
append_value header k (number_value n) = checked (append header k (print n))
append_value header k (list_value vs) = append_values header k vs

-- `k.startsWith(":")`
is_pseudo : Text → Bool
is_pseudo [] = false
is_pseudo (c ∷ cs) = c == b':'

unfoldable pub append_entries : Headers → NodeHeaders → Result Headers
unfolding append_value is_pseudo
append_entries header [] = ok header
append_entries header ((k, v) ∷ rest) =
    (if is_pseudo k then ok header else append_value header k v) >>= (λ h. append_entries h rest)

unfoldable pub node_header_to_web_header : NodeHeaders → Result Headers
unfolding append_entries
node_header_to_web_header = append_entries []

-- `o[k] = value`
put_property : Text → NodeValue → NodeHeaders → NodeHeaders
put_property k v [] = (k, v) ∷ []
put_property k v ((j, w) ∷ o) =
    let rest = put_property k v o in if j === k then (j, v) ∷ o else (j, w) ∷ rest

put_each : NodeHeaders → Headers → NodeHeaders
unfolding put_property
put_each o [] = o
put_each o ((k, v) ∷ h) = put_each (put_property (to_lower_case k) (text_value v) o) h

unfoldable pub web_header_to_node_headers : Option Headers → Option NodeHeaders
unfolding put_each
web_header_to_node_headers none = none
web_header_to_node_headers (some h) = some (put_each [] h)

texts : Headers → NodeHeaders
texts [] = []
texts ((k, v) ∷ h) = (k, text_value v) ∷ texts h

-- every key is in front of a name
Below : Text → NodeHeaders → Type 0
Below k [] = Unit {0}
Below k ((j, w) ∷ o) = (text_lt j k ≡ true) × Below k o

BelowAll : NodeHeaders → Headers → Type 0
unfolding Below
BelowAll o [] = Unit {0}
BelowAll o ((k, v) ∷ h) = Below k o × BelowAll o h

put_property-Below :
    (k : Text) (v : NodeValue) (o : NodeHeaders)
    → Below k o
    → put_property k v o ≡ o ++ ((k, v) ∷ [])
unfolding put_property Below
put_property-Below k v [] b = refl
put_property-Below k v ((j, w) ∷ o) (lt, b) =
    ground (arith, ===_iff j k, text_lt_irrefl k, put_property-Below k v o b)

Below-append :
    (k j : Text) (v : NodeValue) (o : NodeHeaders)
    → text_lt k j ≡ true
    → Below j o
    → Below j (o ++ ((k, v) ∷ []))
unfolding Below
Below-append k j v [] lt b = (lt, tt)
Below-append k j v ((i, w) ∷ o) lt (c, b) = (c, Below-append k j v o lt b)

BelowAll-append :
    (k : Text) (v : NodeValue) (o : NodeHeaders) (h : Headers)
    → Above k h
    → BelowAll o h
    → BelowAll (o ++ ((k, v) ∷ [])) h
unfolding BelowAll
BelowAll-append k v o [] a b = tt
BelowAll-append k v o ((j, w) ∷ h) (lt, a) (c, b) =
    (Below-append k j v o lt c, BelowAll-append k v o h a b)

put_each-texts :
    (o : NodeHeaders) (h : Headers)
    → AllStored h
    → IsSorted h
    → BelowAll o h
    → put_each o h ≡ o ++ texts h
unfolding put_each texts BelowAll
put_each-texts o [] s p b = sym (append-nil o)
put_each-texts o ((k, v) ∷ h) ((n, (l, (w, c))), ss) (a, p) (below, b) =
    ap (λ j. put_each (put_property j (text_value v) o) h) l
    ∙ ap (λ o. put_each o h) (put_property-Below k (text_value v) o below)
    ∙ put_each-texts (o ++ ((k, text_value v) ∷ [])) h ss p
        (BelowAll-append k (text_value v) o h a b)
    ∙ append_assoc o ((k, text_value v) ∷ []) (texts h)

BelowAll-none : (h : Headers) → BelowAll [] h
unfolding BelowAll Below
BelowAll-none [] = tt
BelowAll-none ((k, v) ∷ h) = (tt, BelowAll-none h)

no_colon : (c : ℕ) (cs : Text) → c ≡ 58 → is_name (c ∷ cs) ≢ true
unfolding is_name is_token
no_colon c cs e h = cc (sym (ap (λ c. is_name (c ∷ cs)) e) ∙ h)

name-plain : (k : Text) → is_name k ≡ true → is_pseudo k ≡ false
unfolding is_name is_pseudo
name-plain [] h = refl
name-plain (c ∷ cs) h = elim (Bool-cases (c == 58)) [
  | inl y ↦ let colon : c ≡ 58 = ground arith in absurd (no_colon c cs colon h)
  | inr n ↦ n
]

append_entries-texts :
    (g h : Headers) → AllStored h → append_entries g (texts h) ≡ ok (append_all g h)
unfolding append_entries append_value texts append_all
append_entries-texts g [] s = refl
append_entries-texts g ((k, v) ∷ h) ((n, (l, (w, c))), ss) =
    ap (λ b. (if b then ok g else checked (append g k v)) >>= (λ g. append_entries g (texts h)))
      (name-plain k n)
    ∙ ok_then (λ g. append_entries g (texts h))
        (ap checked (append-valid g k v n (ap is_value c ∙ w))
          ∙ ap (λ j. ok (put_field j (normalize v) g)) l)
        (append_entries-texts (put_field k (normalize v) g) h ss)

AllStored-IsClean : (h : Headers) → AllStored h → IsClean h
AllStored-IsClean [] s = tt
AllStored-IsClean ((k, v) ∷ h) ((n, (l, (w, c))), ss) = (c, AllStored-IsClean h ss)

-- Headers that were converted to those of Node, and back, are the same, if their fields are in order and
-- valid.
pub node_header_to_web_header-web_header_to_node_headers :
    (h : Headers)
    → IsSorted h
    → AllStored h
    → (o : NodeHeaders) × (web_header_to_node_headers (some h) ≡ some o)
      × (node_header_to_web_header o ≡ ok h)
unfolding web_header_to_node_headers node_header_to_web_header copy
node_header_to_web_header-web_header_to_node_headers h p s = (
  texts h,
  ap some (put_each-texts [] h s p (BelowAll-none h)),
  append_entries-texts [] h s ∙ ap ok (copy_self h p (AllStored-IsClean h s)),
)
