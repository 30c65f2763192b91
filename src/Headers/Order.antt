-- ===== src/Headers/Order.antt =====
-- The order of the fields: it is total, every operation keeps the fields sorted, and sorted headers
-- with the same values are equal.
use connect_web.Prelude.{
  true, false, [], ◌∷◌, ◌≡◌, refl, sym, ap₂, ◌∙◌, ◌≢◌, inl, inr, none, some, arith, Bool-cases,
}
use connect_web.Text.{Text, ◌===◌}
use connect_web.Text.Equality.{===_iff, ===_refl}
use connect_web.Headers.{Headers, text_lt, lookup, insert}

pub text_lt_irrefl : (s : Text) → text_lt s s ≡ false
unfolding text_lt
text_lt_irrefl [] = refl
text_lt_irrefl (a ∷ s) = ground (arith, text_lt_irrefl s)

pub text_lt_trans : (s t u : Text) → text_lt s t ≡ true → text_lt t u ≡ true → text_lt s u ≡ true
unfolding text_lt
text_lt_trans [] [] u h k = cc
text_lt_trans [] (b ∷ t) [] h k = cc
text_lt_trans [] (b ∷ t) (c ∷ u) h k = refl
text_lt_trans (a ∷ s) [] u h k = cc
text_lt_trans (a ∷ s) (b ∷ t) [] h k = cc
text_lt_trans (a ∷ s) (b ∷ t) (c ∷ u) h k = ground (arith, text_lt_trans s t u)

pub text_lt_total : (s t : Text) → s ≢ t → text_lt s t ≡ false → text_lt t s ≡ true
unfolding text_lt
text_lt_total [] [] n h = absurd (n refl)
text_lt_total [] (b ∷ t) n h = cc
text_lt_total (a ∷ s) [] n h = refl
text_lt_total (a ∷ s) (b ∷ t) n h = ground (arith, text_lt_total s t)

-- every name of the headers comes behind `k`
abbrev pub Above : Text → Headers → Type 0
Above k [] = Unit {0}
Above k ((j, v) ∷ h) = (text_lt k j ≡ true) × Above k h

abbrev pub IsSorted : Headers → Type 0
IsSorted [] = Unit {0}
IsSorted ((j, v) ∷ h) = Above j h × IsSorted h

Above-trans : (k j : Text) (h : Headers) → text_lt k j ≡ true → Above j h → Above k h
Above-trans k j [] lt a = tt
Above-trans k j ((i, v) ∷ h) lt (a, rest) = (text_lt_trans k j i lt a, Above-trans k j h lt rest)

insert-Above :
    (j k v : Text) (h : Headers) → text_lt j k ≡ true → Above j h → Above j (insert k v h)
unfolding insert
insert-Above j k v [] lt a = (lt, tt)
insert-Above j k v ((i, w) ∷ h) lt (a, rest) = ground (arith, insert-Above j k v h lt rest)

pub insert-IsSorted : (k v : Text) (h : Headers) → IsSorted h → IsSorted (insert k v h)
unfolding insert
insert-IsSorted k v [] s = (tt, tt)
insert-IsSorted k v ((j, w) ∷ h) (a, s) = elim (Bool-cases (j === k)) [
  | inl same ↦ rw same (rw (← (===_iff j k).0 same) a, s)
  | inr other ↦ rw other (elim (Bool-cases (text_lt k j)) [
    | inl before ↦ rw before ((before, Above-trans k j h before a), (a, s))
    | inr behind ↦ rw behind (
      insert-Above j k v h (text_lt_total k j (λ e. cc (other, (===_iff j k).1 (sym e))) behind) a,
      insert-IsSorted k v h s,
    )
  ])
]

pub lookup-Above : (k : Text) (h : Headers) → Above k h → lookup k h ≡ none
unfolding lookup
lookup-Above k [] a = refl
lookup-Above k ((j, v) ∷ h) (a, rest) =
    ground (arith, ===_iff j k, text_lt_irrefl k, lookup-Above k h rest)

pub lookup_nil : (k : Text) → lookup k [] ≡ none
unfolding lookup
lookup_nil k = refl

module _ (j v : Text) (h : Headers) where
  lookup_here : lookup j ((j, v) ∷ h) ≡ some v
  unfolding lookup
  lookup_here = rw (===_refl j)

  lookup_there : (k : Text) → j ≢ k → lookup k ((j, v) ∷ h) ≡ lookup k h
  unfolding lookup
  lookup_there k n = ground (arith, ===_iff j k)

-- no field in front of the first one of the other side
lookup_before :
    (j v i w : Text) (a b : Headers)
    → Above i b
    → j ≢ i
    → text_lt j i ≡ true
    → lookup j ((j, v) ∷ a) ≡ lookup j ((i, w) ∷ b)
    → ⊥
lookup_before j v i w a b above n lt e = cc (
  lookup_here j v a,
  lookup_there i w b j (λ p. n (sym p)),
  lookup-Above j b (Above-trans j i b lt above),
  e,
)

tail_lookup :
    (j v : Text) (a b : Headers)
    → Above j a
    → Above j b
    → ((k : Text) → lookup k ((j, v) ∷ a) ≡ lookup k ((j, v) ∷ b))
    → (k : Text) → lookup k a ≡ lookup k b
tail_lookup j v a b aa ab e k = elim (Bool-cases (j === k)) [
  | inl same ↦
      let p : j ≡ k = (===_iff j k).0 same in
      rw (← p) (lookup-Above j a aa ∙ sym (lookup-Above j b ab))
  | inr other ↦
      let n : j ≢ k = λ p. cc (other, (===_iff j k).1 p) in
      sym (lookup_there j v a k n) ∙ e k ∙ lookup_there j v b k n
]

-- Sorted headers are equal if every name has the same value in both.
pub headers_ext :
    (a b : Headers) → IsSorted a → IsSorted b → ((k : Text) → lookup k a ≡ lookup k b) → a ≡ b
headers_ext [] [] sa sb e = refl
headers_ext [] ((i, w) ∷ b) sa sb e = cc (e i, lookup_here i w b, lookup_nil i)
headers_ext ((j, v) ∷ a) [] sa sb e = cc (e j, lookup_here j v a, lookup_nil j)
headers_ext ((j, v) ∷ a) ((i, w) ∷ b) (aa, sa) (ab, sb) e = elim (Bool-cases (j === i)) [
  | inl same ↦
      let p : j ≡ i = (===_iff j i).0 same in
      let q : v ≡ w = cc (e j, lookup_here j v a, p, lookup_here i w b) in
      let e' : (k : Text) → lookup k ((j, v) ∷ a) ≡ lookup k ((j, v) ∷ b) =
        λ k. rw (p, q) (rw (p, q) at (e k)) in
      ap₂ (λ x t. x ∷ t) (ap₂ (λ x y. (x, y)) p q)
        (headers_ext a b sa sb (tail_lookup j v a b aa (rw p ab) e'))
  | inr other ↦
      let n : j ≢ i = λ p. cc (other, (===_iff j i).1 p) in
      elim (Bool-cases (text_lt j i)) [
        | inl before ↦ absurd (lookup_before j v i w a b ab n before (e j))
        | inr behind ↦
            absurd (
              lookup_before i w j v b a aa (λ p. n (sym p)) (text_lt_total j i n behind)
                (sym (e i)))
      ]
]
