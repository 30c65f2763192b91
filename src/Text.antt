-- ===== src/Text.antt =====
-- JavaScript strings as lists of UTF-16 code units, and what the sources use of them: `===`,
-- `toLowerCase` on byte strings, `trim`, `split(",")`, `join`, `startsWith`, `indexOf`.
pub mod Equality
pub mod Decimal
pub mod Trim
pub mod Split
pub mod Percent
pub mod Utf8
use Prim.Native.Char.{code}
use connect_web.Prelude.{
  ℕ, zero, suc, ◌+◌, ◌-◌, ◌*◌, ◌/◌, ◌%◌, ◌^◌, ◌≤◌, ◌<◌, Bool, true, false, not, ◌&&◌, ◌||◌, List,
  [], ◌∷◌, ◌++◌, map, ℤ, pos, negsuc, ◌≡◌, refl, sym, ap, ap₂, ◌∙◌, ◌≢◌, ◌↔◌, ◌⊎◌, inl, inr, Option,
  none, some, String, arith, leb, ltb, ◌==◌, if◌then◌else◌, Bool-cases, Option-cases, ==_iff,
  leb→le, ltb→lt, lt→ltb, tests, length, length-append, take, drop, take-append-drop, length-take,
  length-drop, length-map, fun_ext, replicate, length-replicate, append-nil, append_assoc,
}

abbrev pub Text : Type 0
Text = List ℕ

-- The code units of a literal of the sources; all of them are ASCII.
abbrev pub codes : String → Text
codes String.[] = []
codes (String.◌∷◌ c s) = code c ∷ codes s

infix 50 ◌===◌
-- `a === b` on strings
unfoldable pub ◌===◌ : Text → Text → Bool
◌===◌ [] [] = true
◌===◌ (a ∷ s) (b ∷ t) = a == b && s === t
◌===◌ _ _ = false

-- `toLowerCase()` of one code unit below 256: A to Z, and the Latin-1 capitals.
unfoldable pub lower : ℕ → ℕ
lower c =
    if leb b'A' c && leb c b'Z'
    then c + 32
    else if leb 192 c && leb c 222 && not (c == 215)
    then c + 32
    else c

abbrev pub to_lower_case : Text → Text
to_lower_case = map lower

unfoldable pub starts_with : Text → Text → Bool
starts_with [] s = true
starts_with (p ∷ ps) [] = false
starts_with (p ∷ ps) (c ∷ s) = p == c && starts_with ps s

-- `s.indexOf(c)` for one code unit, with `none` for -1
unfoldable pub index_of : ℕ → Text → Option ℕ
index_of c [] = none
index_of c (x ∷ xs) =
    if x == c then some 0 else elim (index_of c xs) [ none ↦ none | some i ↦ some (i + 1) ]

-- `parts.join(sep)`
unfoldable pub join : Text → List Text → Text
join sep [] = []
join sep (s ∷ []) = s
join sep (s ∷ t ∷ rest) = s ++ (sep ++ join sep (t ∷ rest))
