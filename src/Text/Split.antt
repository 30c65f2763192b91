-- ===== src/Text/Split.antt =====
-- `s.split(",")`, and what joins its parts again.
use connect_web.Prelude.{
  ℕ, true, false, List, [], ◌∷◌, ◌++◌, ◌≡◌, refl, ap, ◌∙◌, arith, ◌==◌, if◌then◌else◌,
}
use connect_web.Text.{Text, join}

-- the text up to the first separator, and the parts behind it
split_parts : ℕ → Text → Text × List Text
split_parts sep [] = ([], [])
split_parts sep (c ∷ cs) =
    let (part, parts) = split_parts sep cs in
    if c == sep then ([], part ∷ parts) else (c ∷ part, parts)

-- `s.split(c)` for one code unit
unfoldable pub split_on : ℕ → Text → List Text
unfolding split_parts
split_on sep s = let (part, parts) = split_parts sep s in part ∷ parts

unfoldable pub split_comma : Text → List Text
split_comma = split_on b','

abbrev pub NotIn : ℕ → Text → Type 0
NotIn sep [] = Unit {0}
NotIn sep (c ∷ cs) = ((c == sep) ≡ false) × NotIn sep cs

abbrev pub AllNotIn : ℕ → List Text → Type 0
AllNotIn sep [] = Unit {0}
AllNotIn sep (s ∷ ss) = NotIn sep s × AllNotIn sep ss

split_parts_last : (sep : ℕ) (s : Text) → NotIn sep s → split_parts sep s ≡ (s, [])
unfolding split_parts
split_parts_last sep [] n = refl
split_parts_last sep (c ∷ cs) (n, rest) = rw (split_parts_last sep cs rest, n)

split_parts_first :
    (sep : ℕ) (s t : Text) → NotIn sep s → split_parts sep (s ++ (sep ∷ t)) ≡ (s, split_on sep t)
unfolding split_parts split_on
split_parts_first sep [] t n = rw (let e : (sep == sep) ≡ true = ground arith in e)
split_parts_first sep (c ∷ cs) t (n, rest) = rw (split_parts_first sep cs t rest, n)

split_on_last : (sep : ℕ) (s : Text) → NotIn sep s → split_on sep s ≡ s ∷ []
unfolding split_on
split_on_last sep s n = rw (split_parts_last sep s n)

split_on_first :
    (sep : ℕ) (s t : Text) → NotIn sep s → split_on sep (s ++ (sep ∷ t)) ≡ s ∷ split_on sep t
split_on_first sep s t n = unfold split_on in rw (split_parts_first sep s t n)

-- Parts without the separator are found again, in order.
pub split_on-join :
    (sep : ℕ) (s : Text) (ss : List Text)
    → AllNotIn sep (s ∷ ss)
    → split_on sep (join (sep ∷ []) (s ∷ ss)) ≡ s ∷ ss
unfolding join
split_on-join sep s [] (n, rest) = split_on_last sep s n
split_on-join sep s (t ∷ ts) (n, rest) =
    split_on_first sep s (join (sep ∷ []) (t ∷ ts)) n ∙ ap (◌∷◌ s) (split_on-join sep t ts rest)
