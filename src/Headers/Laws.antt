-- ===== src/Headers/Laws.antt =====
-- What `get` returns after each operation, and when a copy is the same as its original.
use connect_web.Prelude.{true, [], ◌∷◌, ◌≡◌, refl, ◌∙◌, Option, none, some, arith, if◌then◌else◌}
use connect_web.Text.{Text, to_lower_case, ◌===◌}
use connect_web.Text.Equality.{===_iff}
use connect_web.Headers.{
  Headers, lookup, insert, put_field, joined, normalize, get, set, append, append_all, copy, field,
  is_name, is_value,
}
use connect_web.Headers.Order.{IsSorted, insert-IsSorted, headers_ext, lookup-Above, lookup_nil}

pub lookup-insert :
    (k j v : Text) (h : Headers)
    → lookup j (insert k v h) ≡ (if k === j then some v else lookup j h)
unfolding lookup insert
lookup-insert k j v [] = refl
lookup-insert k j v ((i, w) ∷ h) =
    ground (arith, ===_iff k j, ===_iff i k, ===_iff i j, lookup-insert k j v h)

pub lookup-put_field :
    (k j v : Text) (h : Headers)
    → lookup j (put_field k v h) ≡ (if k === j then some (joined (lookup k h) v) else lookup j h)
unfolding put_field
lookup-put_field k j v h = lookup-insert k j (joined (lookup k h) v) h

pub put_field-IsSorted : (k v : Text) (h : Headers) → IsSorted h → IsSorted (put_field k v h)
unfolding put_field
put_field-IsSorted k v h s = insert-IsSorted k (joined (lookup k h) v) h s

pub append_all-IsSorted : (h e : Headers) → IsSorted h → IsSorted (append_all h e)
unfolding append_all
append_all-IsSorted h [] s = s
append_all-IsSorted h ((k, v) ∷ e) s =
    append_all-IsSorted (put_field k (normalize v) h) e (put_field-IsSorted k (normalize v) h s)

module _ (h : Headers) {h' : Headers} (name value : Text) where
  pub set-IsSorted : set h name value ≡ some h' → IsSorted h → IsSorted h'
  unfolding set field
  set-IsSorted e s = ground (arith, insert-IsSorted (to_lower_case name) (normalize value) h s)

  pub append-IsSorted : append h name value ≡ some h' → IsSorted h → IsSorted h'
  unfolding append field
  append-IsSorted e s =
      ground (arith, put_field-IsSorted (to_lower_case name) (normalize value) h s)

  -- `get` after `set`: the new value under its name in any case, and every other name as before
  pub get-set :
      set h name value ≡ some h'
      → (other : Text)
      → get h' other ≡ (
          if to_lower_case name === to_lower_case other
          then some (normalize value)
          else get h other)
  unfolding set field get
  get-set e other =
      ground (arith, lookup-insert (to_lower_case name) (to_lower_case other) (normalize value) h)

  pub get-append :
      append h name value ≡ some h'
      → (other : Text)
      → get h' other ≡ (
          if to_lower_case name === to_lower_case other
          then some (joined (get h name) (normalize value))
          else get h other)
  unfolding append field get
  get-append e other =
      ground
        (arith, lookup-put_field (to_lower_case name) (to_lower_case other) (normalize value) h)

-- `set` succeeds for a valid name and a valid value.
pub set-valid :
    (h : Headers) (name value : Text)
    → is_name name ≡ true
    → is_value (normalize value) ≡ true
    → set h name value ≡ some (insert (to_lower_case name) (normalize value) h)
unfolding set field
set-valid h name value n v = ground arith

pub append-valid :
    (h : Headers) (name value : Text)
    → is_name name ≡ true
    → is_value (normalize value) ≡ true
    → append h name value ≡ some (put_field (to_lower_case name) (normalize value) h)
unfolding append field
append-valid h name value n v = ground arith

-- `e` holds each name once; the copy of a value is normalized
unfoldable pub merged : Option Text → Option Text → Option Text
merged old none = old
merged old (some v) = some (joined old (normalize v))

pub lookup-append_all :
    (e h : Headers) (j : Text)
    → IsSorted e
    → lookup j (append_all h e) ≡ merged (lookup j h) (lookup j e)
unfolding append_all merged lookup
lookup-append_all [] h j s = refl
lookup-append_all ((k, v) ∷ e) h j (a, s) = ground (
  arith,
  ===_iff k j,
  lookup-append_all e (put_field k (normalize v) h) j s,
  lookup-put_field k j (normalize v) h,
  lookup-Above k e a,
)

-- every value is one that `append` would not change
abbrev pub IsClean : Headers → Type 0
IsClean [] = Unit {0}
IsClean ((k, v) ∷ h) = (normalize v ≡ v) × IsClean h

lookup-clean : (h : Headers) (j : Text) → IsClean h → merged none (lookup j h) ≡ lookup j h
unfolding merged lookup joined
lookup-clean [] j c = refl
lookup-clean ((k, v) ∷ h) j (c, rest) = ground (arith, lookup-clean h j rest)

-- A copy of sorted headers with clean values is the same headers.
pub copy_self : (h : Headers) → IsSorted h → IsClean h → copy h ≡ h
unfolding copy
copy_self h s c =
    headers_ext (append_all [] h) h (append_all-IsSorted [] h tt) s
      (λ k. lookup-append_all h [] k s ∙ rw lookup_nil (lookup-clean h k c))

-- two fields set after each other
pub lookup-insert_two :
    (a b x y k : Text) (h : Headers) (rest : Option Text)
    → lookup k h ≡ rest
    → lookup k (insert a x (insert b y h))
      ≡ (if a === k then some x else if b === k then some y else rest)
lookup-insert_two a b x y k h rest e =
    rw (lookup-insert a k x (insert b y h)) (rw (lookup-insert b k y h) (rw e refl))
