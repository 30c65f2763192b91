-- ===== src/Node/ConnectHandler/ErrorHeader.antt =====
-- The header of a response with an error: connect-handler.ts of packages/connect-node/src.
use connect_web.Prelude.{
  false, [], ◌∷◌, ◌++◌, ◌≡◌, refl, sym, ap, ◌∙◌, ◌≢◌, inl, inr, Option, none, some, arith,
}
use connect_web.Text.{Text, codes, ◌===◌, to_lower_case, lower}
use connect_web.Headers.{Headers, get, set, insert, normalize, is_name, is_http_space, copy, lookup}
use connect_web.Headers.Order.{IsSorted}
use connect_web.Headers.Laws.{get-set, set-IsSorted, lookup-append_all, merged, lookup-insert}
use connect_web.Headers.Values.{checked-set_constant, all_visible}
use connect_web.ConnectError.{ConnectError, Reason, Result, ok, err, checked, Result-cases, ◌>>=◌}
use connect_web.Connect.ContentType.{content_type_unary_json}
use connect_web.Connect.RequestHeader.{header_content_type}
use connect_web.Connect.TrailerMux.{trailer_mux, mux_from, trailer_prefix}
use mathlib.Core.Path.{subst}
use connect_web.Headers.{joined}
use connect_web.Text.Trim.{strip, drop_while}
use connect_web.Node.ConnectHandler.Unary.{set_each, error_header}

-- fields that leave the content type alone
abbrev pub AllOther : Headers → Type 0
AllOther [] = Unit {0}
AllOther ((key, value) ∷ h) = ((to_lower_case key === codes "content-type") ≡ false) × AllOther h

checked-some : (o : Option Headers) (g : Headers) → checked o ≡ ok g → o ≡ some g
checked-some none g e = ground (arith, e)
checked-some (some h) g e = ground (arith, e)

from_ok : Headers → Result Headers → Headers
from_ok d (ok h) = h
from_ok d (err e) = d

ok-injective : {h g : Headers} → ok h ≡ ok g → h ≡ g
unfolding from_ok
ok-injective {h} e = ap (from_ok h) e

err-ok : {e : Reason} {g : Headers} → err e ≢ ok g
err-ok h = ground (arith, h)

-- an operation that sets one other field
set-other :
    (h g : Headers) (key value : Text)
    → (to_lower_case key === codes "content-type") ≡ false
    → checked (set h key value) ≡ ok g
    → get g header_content_type ≡ get h header_content_type
unfolding ◌===◌ get lower normalize
set-other h g key value o e =
    get-set h key value (checked-some (set h key value) g e) header_content_type ∙ rw o refl

set_each-other :
    (h metadata g : Headers)
    → AllOther metadata
    → set_each h metadata ≡ ok g
    → get g header_content_type ≡ get h header_content_type
unfolding set_each
set_each-other h [] g o e = ap (λ x. get x header_content_type) (sym (ok-injective e))
set_each-other h ((key, value) ∷ metadata) g (o, os) e =
    elim (Result-cases (checked (set h key value))) [
      | inl (j, s) ↦
          set_each-other j metadata g os (sym (ap (λ r. r >>= λ x. set_each x metadata) s) ∙ e)
          ∙ set-other h j key value o s
      | inr (x, s) ↦ absurd (err-ok (sym (ap (λ r. r >>= λ x. set_each x metadata) s) ∙ e))
    ]

mux_from-other :
    (h trailer g : Headers)
    → mux_from h trailer ≡ ok g
    → get g header_content_type ≡ get h header_content_type
unfolding mux_from lower ◌===◌
mux_from-other h [] g e = ap (λ x. get x header_content_type) (sym (ok-injective e))
mux_from-other h ((key, value) ∷ trailer) g e =
    elim (Result-cases (checked (set h (trailer_prefix ++ key) value))) [
      | inl (j, s) ↦
          mux_from-other j trailer g (sym (ap (λ r. r >>= λ x. mux_from x trailer) s) ∙ e)
          ∙ set-other h j (trailer_prefix ++ key) value refl s
      | inr (x, s) ↦ absurd (err-ok (sym (ap (λ r. r >>= λ x. mux_from x trailer) s) ∙ e))
    ]

set_each-IsSorted : (h metadata g : Headers) → set_each h metadata ≡ ok g → IsSorted h → IsSorted g
unfolding set_each
set_each-IsSorted h [] g e o = subst IsSorted (ok-injective e) o
set_each-IsSorted h ((key, value) ∷ metadata) g e o =
    elim (Result-cases (checked (set h key value))) [
      | inl (j, s) ↦
          set_each-IsSorted j metadata g (sym (ap (λ r. r >>= λ x. set_each x metadata) s) ∙ e)
            (set-IsSorted h key value (checked-some (set h key value) j s) o)
      | inr (x, s) ↦ absurd (err-ok (sym (ap (λ r. r >>= λ x. set_each x metadata) s) ∙ e))
    ]

abbrev typed : Headers → Headers
typed h = insert (codes "content-type") content_type_unary_json h

typed-checked :
    (h : Headers) → checked (set h header_content_type content_type_unary_json) ≡ ok (typed h)
unfolding is_name all_visible lower
typed-checked h = checked-set_constant h header_content_type content_type_unary_json refl refl

lookup_typed : (h : Headers) → get (typed h) header_content_type ≡ some content_type_unary_json
unfolding get lower ◌===◌
lookup_typed h =
    lookup-insert (codes "content-type") (codes "content-type") content_type_unary_json h

copied :
    (g : Headers)
    → IsSorted g
    → get g header_content_type ≡ some content_type_unary_json
    → get (copy g) header_content_type ≡ some content_type_unary_json
unfolding copy get merged normalize is_http_space lower lookup joined strip drop_while
copied g o e = lookup-append_all g [] (codes "content-type") o ∙ ap (merged none) e

-- the content type of a response with an error, also with the trailers in it
pub error_type :
    (h g trailer muxed : Headers) (e : ConnectError)
    → IsSorted h
    → AllOther e.metadata
    → error_header h e ≡ ok g
    → trailer_mux g trailer ≡ ok muxed
    → get muxed header_content_type ≡ some content_type_unary_json
unfolding error_header trailer_mux
error_type h g trailer muxed e o other made muxes =
    let each = sym (ap (λ r. r >>= λ x. set_each x e.metadata) (typed-checked h)) ∙ made in
    let sorted = set_each-IsSorted (typed h) e.metadata g each (
      set-IsSorted h header_content_type content_type_unary_json
        (checked-some (set h header_content_type content_type_unary_json) (typed h)
          (typed-checked h))
        o) in
    let kept = set_each-other (typed h) e.metadata g other each ∙ lookup_typed h in
    mux_from-other (copy g) trailer muxed muxes ∙ copied g sorted kept
