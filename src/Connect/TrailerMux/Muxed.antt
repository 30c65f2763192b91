-- ===== src/Connect/TrailerMux/Muxed.antt =====
-- The headers that `trailerMux` makes: what they hold under every name, and that they can be demuxed.
use connect_web.Headers.Laws.{set-valid, lookup-insert}
use connect_web.Text.Equality.{===_iff}
use connect_web.Headers.Order.{insert-IsSorted, lookup-Above, IsSorted}
use connect_web.ConnectError.{ok_then, checked, ok}
use connect_web.Headers.{text_lt, normalize, set, is_value, insert, is_name, Headers, lookup}
use connect_web.Connect.TrailerMux.{trailer_prefix, mux_from}
use connect_web.Prelude.{
  true, false, [], ◌∷◌, ◌++◌, ◌≡◌, refl, sym, ap, ap₂, ◌∙◌, inl, inr, Option, none, some, arith,
  if◌then◌else◌, Bool-cases, drop,
}
use connect_web.Text.{◌===◌, lower, to_lower_case, starts_with, Text}

-- a field as a `Headers` holds it
abbrev pub IsStored : Text → Text → Type 0
IsStored k v =
    (is_name k ≡ true) × ((to_lower_case k ≡ k) × ((is_value v ≡ true) × (normalize v ≡ v)))

abbrev pub AllStored : Headers → Type 0
AllStored [] = Unit {0}
AllStored ((k, v) ∷ h) = IsStored k v × AllStored h

-- no name of the header looks like one of a trailer
abbrev pub AllPlain : Headers → Type 0
AllPlain [] = Unit {0}
AllPlain ((k, v) ∷ h) = (starts_with trailer_prefix k ≡ false) × AllPlain h

pub set-IsStored :
    (h : Headers) (k v : Text) → IsStored k v → checked (set h k v) ≡ ok (insert k v h)
set-IsStored h k v (n, (l, (w, s))) =
    ap checked (set-valid h k v n (ap is_value s ∙ w) ∙ ap₂ (λ a b. some (insert a b h)) l s)

prefixed-IsStored : (k v : Text) → IsStored k v → IsStored (trailer_prefix ++ k) v
unfolding is_name lower
prefixed-IsStored [] v (n, rest) = cc n
prefixed-IsStored (c ∷ k) v (n, (l, (w, s))) = (n, (ap (λ t. trailer_prefix ++ t) l, (w, s)))

pub muxed : Headers → Headers → Headers
muxed h [] = h
muxed h ((k, v) ∷ t) = muxed (insert (trailer_prefix ++ k) v h) t

pub mux_from-muxed : (h t : Headers) → AllStored t → mux_from h t ≡ ok (muxed h t)
unfolding mux_from muxed
mux_from-muxed h [] s = refl
mux_from-muxed h ((k, v) ∷ t) (s, ss) =
    ok_then (λ g. mux_from g t) (set-IsStored h (trailer_prefix ++ k) v (prefixed-IsStored k v s))
      (mux_from-muxed (insert (trailer_prefix ++ k) v h) t ss)

-- a name that is set, in front of one that was there
unfoldable pub first_of : Option Text → Option Text → Option Text
first_of none other = other
first_of (some v) other = some v

insert_prefixed :
    (k i v : Text) (h : Headers)
    → lookup (trailer_prefix ++ i) (insert (trailer_prefix ++ k) v h)
      ≡ (if k === i then some v else lookup (trailer_prefix ++ i) h)
unfolding ◌===◌
insert_prefixed k i v h = lookup-insert (trailer_prefix ++ k) (trailer_prefix ++ i) v h

pub lookup-muxed_trailer :
    (h t : Headers) (i : Text)
    → IsSorted t
    → lookup (trailer_prefix ++ i) (muxed h t)
      ≡ first_of (lookup i t) (lookup (trailer_prefix ++ i) h)
unfolding muxed first_of lookup
lookup-muxed_trailer h [] i s = refl
lookup-muxed_trailer h ((k, v) ∷ t) i (a, s) = ground (
  arith,
  ===_iff k i,
  lookup-Above k t a,
  lookup-muxed_trailer (insert (trailer_prefix ++ k) v h) t i s,
  insert_prefixed k i v h,
)

prefix_differs :
    (k j : Text) → starts_with trailer_prefix j ≡ false → ((trailer_prefix ++ k) === j) ≡ false
unfolding starts_with
prefix_differs k j p = elim (Bool-cases ((trailer_prefix ++ k) === j)) [
  | inr e ↦ e
  | inl e ↦
      let same = (===_iff (trailer_prefix ++ k) j).0 e in
      let starts : starts_with trailer_prefix j ≡ true =
        ap (starts_with trailer_prefix) (sym same) in
      cc (starts, p)
]

pub lookup-muxed_plain :
    (h t : Headers) (j : Text)
    → starts_with trailer_prefix j ≡ false
    → lookup j (muxed h t) ≡ lookup j h
unfolding muxed
lookup-muxed_plain h [] j p = refl
lookup-muxed_plain h ((k, v) ∷ t) j p =
    lookup-muxed_plain (insert (trailer_prefix ++ k) v h) t j p
    ∙ lookup-insert (trailer_prefix ++ k) j v h
    ∙ rw (prefix_differs k j p) refl

-- what the loop of `trailerDemux` accepts
abbrev pub IsDemuxable : Text → Text → Type 0
IsDemuxable k v = IsStored k v × (starts_with trailer_prefix k ≡ true → is_name (drop 8 k) ≡ true)

abbrev pub AllDemuxable : Headers → Type 0
AllDemuxable [] = Unit {0}
AllDemuxable ((k, v) ∷ h) = IsDemuxable k v × AllDemuxable h

insert-AllDemuxable :
    (k v : Text) (h : Headers) → IsDemuxable k v → AllDemuxable h → AllDemuxable (insert k v h)
unfolding insert
insert-AllDemuxable k v [] d a = (d, tt)
insert-AllDemuxable k v ((j, w) ∷ h) d (e, a) = elim (Bool-cases (j === k)) [
  | inl same ↦ rw same (d, a)
  | inr other ↦ rw other (elim (Bool-cases (text_lt k j)) [
    | inl before ↦ rw before (d, (e, a))
    | inr behind ↦ rw behind (e, insert-AllDemuxable k v h d a)
  ])
]

prefixed-IsDemuxable : (k v : Text) → IsStored k v → IsDemuxable (trailer_prefix ++ k) v
prefixed-IsDemuxable k v s = (prefixed-IsStored k v s, λ p. s.0)

pub muxed-AllDemuxable : (h t : Headers) → AllDemuxable h → AllStored t → AllDemuxable (muxed h t)
unfolding muxed
muxed-AllDemuxable h [] d s = d
muxed-AllDemuxable h ((k, v) ∷ t) d (s, ss) =
    muxed-AllDemuxable (insert (trailer_prefix ++ k) v h) t
      (insert-AllDemuxable (trailer_prefix ++ k) v h (prefixed-IsDemuxable k v s) d) ss

pub plain-AllDemuxable : (h : Headers) → AllPlain h → AllStored h → AllDemuxable h
plain-AllDemuxable [] p s = tt
plain-AllDemuxable ((k, v) ∷ h) (p, ps) (s, ss) = ((s, λ q. cc (p, q)), plain-AllDemuxable h ps ss)

pub muxed-IsSorted : (h t : Headers) → IsSorted h → IsSorted (muxed h t)
unfolding muxed
muxed-IsSorted h [] s = s
muxed-IsSorted h ((k, v) ∷ t) s =
    muxed-IsSorted (insert (trailer_prefix ++ k) v h) t
      (insert-IsSorted (trailer_prefix ++ k) v h s)
