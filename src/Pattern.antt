-- ===== src/Pattern.antt =====
-- Regular expressions of JavaScript without repetition, as the sources use them: literals, sequences,
-- choices, optional parts and capturing groups, between `^` and `$`. A match is the first in the order
-- of a backtracking matcher, with the numbers of the groups that took part.
pub mod Words
use connect_web.Prelude.{
  ℕ, zero, suc, ◌+◌, ◌-◌, ◌*◌, ◌/◌, ◌%◌, ◌^◌, ◌≤◌, ◌<◌, Bool, true, false, not, ◌&&◌, ◌||◌, List,
  [], ◌∷◌, ◌++◌, map, ℤ, pos, negsuc, ◌≡◌, refl, sym, ap, ap₂, ◌∙◌, ◌≢◌, ◌↔◌, ◌⊎◌, inl, inr, Option,
  none, some, String, arith, leb, ltb, ◌==◌, if◌then◌else◌, Bool-cases, Option-cases, ==_iff,
  leb→le, ltb→lt, lt→ltb, tests, length, length-append, take, drop, take-append-drop, length-take,
  length-drop, length-map, fun_ext, replicate, length-replicate, append-nil, append_assoc,
}
use connect_web.Text.{Text, codes}

pub data Pattern : Type 0 where
  lit : Text → Pattern
  seq : Pattern → Pattern → Pattern
  choice : Pattern → Pattern → Pattern
  optional : Pattern → Pattern
  group : ℕ → Pattern → Pattern

-- one way to match a beginning of the text: the groups, and what follows
abbrev pub Success : Type 0
Success = List ℕ × Text

-- `Canonicalize` of ECMA-262 under the flag `i`, on the characters that can equal an ASCII one
unfoldable pub canonical : Bool → ℕ → ℕ
canonical ignore_case c = if ignore_case && (leb b'a' c && leb c b'z') then c - 32 else c

unfoldable pub same_unit : Bool → ℕ → ℕ → Bool
unfolding canonical
same_unit ic a b = canonical ic a == canonical ic b

-- what follows the literal in the text, if it begins with it
unfoldable pub strip_literal : Bool → Text → Text → Option Text
unfolding same_unit
strip_literal ic [] s = some s
strip_literal ic (w ∷ ws) [] = none
strip_literal ic (w ∷ ws) (c ∷ s) = if same_unit ic w c then strip_literal ic ws s else none

unfoldable pub tag : List ℕ → List Success → List Success
tag g [] = []
tag g ((h, rest) ∷ xs) = (g ++ h, rest) ∷ tag g xs

-- continue after each success, in order
unfoldable pub chain : (Text → List Success) → List Success → List Success
chain f [] = []
chain f ((g, rest) ∷ xs) = tag g (f rest) ++ chain f xs

literal_success : Option Text → List Success
literal_success none = []
literal_success (some rest) = ([], rest) ∷ []

unfoldable pub run : Bool → Pattern → Text → List Success
unfolding literal_success
run ic (lit w) s = literal_success (strip_literal ic w s)
run ic (seq p q) s = chain (run ic q) (run ic p s)
run ic (choice p q) s = run ic p s ++ run ic q s
run ic (optional p) s = run ic p s ++ ([], s) ∷ []
run ic (group n p) s = tag (n ∷ []) (run ic p s)

-- the first success that leaves nothing, for the `$`
unfoldable pub first_whole : List Success → Option (List ℕ)
first_whole [] = none
first_whole ((g, []) ∷ xs) = some g
first_whole ((g, c ∷ rest) ∷ xs) = first_whole xs

-- `text.match(/^p$/)`, with the flag `i` or without: the groups of the match
unfoldable pub match_whole : Bool → Pattern → Text → Option (List ℕ)
unfolding run first_whole
match_whole ic p s = first_whole (run ic p s)

-- `!!match[n]`
unfoldable pub captured : ℕ → List ℕ → Bool
captured n [] = false
captured n (m ∷ ms) = m == n || captured n ms
