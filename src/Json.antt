-- ===== src/Json.antt =====
-- JSON values, as `JSON.parse` returns them and `JSON.stringify` takes them: the keys of an object
-- in order, each once. A number is not read by the modelled code, and kept as an integer.
use connect_web.Prelude.{Bool, List, [], ◌∷◌, ℤ, ◌≡◌, refl, ap, Option, none, some, if◌then◌else◌}
use connect_web.Text.{Text, ◌===◌}

mutual
  pub data Json : Type 0 where
    null : Json
    bool : Bool → Json
    num : ℤ → Json
    str : Text → Json
    arr : Items → Json
    obj : Fields → Json

  pub data Items : Type 0 where
    nil : Items
    item : Json → Items → Items

  pub data Fields : Type 0 where
    end : Fields
    entry : Text → Json → Fields → Fields

-- `o.key`, with `none` for undefined
unfoldable pub get_field : Text → Fields → Option Json
get_field k end = none
get_field k (entry j v fs) = if j === k then some v else get_field k fs

unfoldable pub to_items : List Json → Items
to_items [] = nil
to_items (x ∷ xs) = item x (to_items xs)

unfoldable pub from_items : Items → List Json
from_items nil = []
from_items (item x xs) = x ∷ from_items xs

-- `Object.entries(o)`
unfoldable pub entries : Fields → List (Text × Json)
entries end = []
entries (entry k v fs) = (k, v) ∷ entries fs

unfoldable pub from_entries : List (Text × Json) → Fields
from_entries [] = end
from_entries ((k, v) ∷ es) = entry k v (from_entries es)

pub from_items-to_items : (xs : List Json) → from_items (to_items xs) ≡ xs
unfolding from_items to_items
from_items-to_items [] = refl
from_items-to_items (x ∷ xs) = ap (◌∷◌ x) (from_items-to_items xs)

pub entries-from_entries : (es : List (Text × Json)) → entries (from_entries es) ≡ es
unfolding entries from_entries
entries-from_entries [] = refl
entries-from_entries ((k, v) ∷ es) = ap (◌∷◌ (k, v)) (entries-from_entries es)
