-- ===== src/Pattern/Words.antt =====
-- A pattern without repetition matches finitely many words, and the backtracking matcher finds the
-- first of them that the text equals.
use connect_web.Prelude.{
  ℕ, ◌<◌, Bool, true, false, ◌&&◌, List, [], ◌∷◌, ◌++◌, ◌≡◌, refl, sym, ap, ap₂, ◌∙◌, ◌⊎◌, inl, inr,
  Option, none, some, arith, ◌==◌, if◌then◌else◌, Bool-cases, fun_ext,
}
use mathlib.Core.Option
use mathlib.Core.Path.{subst}
use connect_web.Text.Equality.{===_iff}
use connect_web.Text.{Text, lower, to_lower_case, ◌===◌}
use connect_web.Pattern.{
  Pattern, lit, seq, choice, optional, group, Success, same_unit, strip_literal, tag, chain, run,
  first_whole, match_whole,
}

-- a word, with the groups that it goes through
abbrev pub Word : Type 0
Word = List ℕ × Text

tag_words : List ℕ → Text → List Word → List Word
tag_words g w [] = []
tag_words g w ((h, v) ∷ vs) = (g ++ h, w ++ v) ∷ tag_words g w vs

cross : List Word → List Word → List Word
cross [] vs = []
cross ((g, w) ∷ ws) vs = tag_words g w vs ++ cross ws vs

-- the words of a pattern, in the order in which they are tried
unfoldable pub words : Pattern → List Word
unfolding tag_words cross
words (lit w) = ([], w) ∷ []
words (seq p q) = cross (words p) (words q)
words (choice p q) = words p ++ words q
words (optional p) = words p ++ ([], []) ∷ []
words (group n p) = tag_words (n ∷ []) [] (words p)

-- the successes of a list of words
select : Bool → List Word → Text → List Success
select ic [] s = []
select ic ((g, w) ∷ ws) s = elim (strip_literal ic w s) [
  | none ↦ select ic ws s
  | some rest ↦ (g, rest) ∷ select ic ws s
]

module _ (ic : Bool) where
  select-append :
      (ws vs : List Word) (s : Text) → select ic (ws ++ vs) s ≡ select ic ws s ++ select ic vs s
  unfolding select
  select-append [] vs s = refl
  select-append ((g, w) ∷ ws) vs s = ground (arith, select-append ws vs s)

  tag-append : (g : List ℕ) (xs ys : List Success) → tag g (xs ++ ys) ≡ tag g xs ++ tag g ys
  unfolding tag
  tag-append g [] ys = refl
  tag-append g ((h, r) ∷ xs) ys = ap (◌∷◌ (g ++ h, r)) (tag-append g xs ys)

  after : Option Text → List ℕ → List Word → List Success
  after none g vs = []
  after (some rest) g vs = tag g (select ic vs rest)

  strip-append :
      (w v s : Text)
      → strip_literal ic (w ++ v) s
        ≡ elim (strip_literal ic w s) [ none ↦ none | some r ↦ strip_literal ic v r ]
  unfolding strip_literal
  strip-append [] v s = refl
  strip-append (c ∷ w) v [] = refl
  strip-append (c ∷ w) v (d ∷ s) = ground (arith, strip-append w v s)

  select-tag_words :
      (g : List ℕ) (w : Text) (vs : List Word) (s : Text)
      → select ic (tag_words g w vs) s ≡ after (strip_literal ic w s) g vs
  unfolding select tag_words after tag
  select-tag_words g w [] s = ground arith
  select-tag_words g w ((h, v) ∷ vs) s =
      ground (arith, select-tag_words g w vs s, strip-append w v s)

  chain-select :
      (ws vs : List Word) (s : Text)
      → chain (select ic vs) (select ic ws s) ≡ select ic (cross ws vs) s
  unfolding select cross chain after
  chain-select [] vs s = refl
  chain-select ((g, w) ∷ ws) vs s = ground (
    arith,
    chain-select ws vs s,
    select-append (tag_words g w vs) (cross ws vs) s,
    select-tag_words g w vs s,
  )

  select-empty : (s : Text) → select ic (([], []) ∷ []) s ≡ ([], s) ∷ []
  unfolding select strip_literal
  select-empty s = refl

  select-group :
      (n : ℕ) (ws : List Word) (s : Text)
      → select ic (tag_words (n ∷ []) [] ws) s ≡ tag (n ∷ []) (select ic ws s)
  unfolding after strip_literal
  select-group n ws s = select-tag_words (n ∷ []) [] ws s

  run-select : (p : Pattern) (s : Text) → run ic p s ≡ select ic (words p) s
  unfolding run words
  run-select (lit w) s = unfold select in ground arith
  run-select (seq p q) s =
      ap₂ chain (fun_ext (run-select q)) (run-select p s) ∙ chain-select (words p) (words q) s
  run-select (choice p q) s =
      ap₂ ◌++◌ (run-select p s) (run-select q s) ∙ sym (select-append (words p) (words q) s)
  run-select (optional p) s =
      ap₂ ◌++◌ (run-select p s) (sym (select-empty s))
      ∙ sym (select-append (words p) (([], []) ∷ []) s)
  run-select (group n p) s = ap (tag (n ∷ [])) (run-select p s) ∙ sym (select-group n (words p) s)

-- two texts are the same, up to the case of ASCII letters under the flag `i`
same_text : Bool → Text → Text → Bool
same_text ic [] [] = true
same_text ic (w ∷ ws) (c ∷ s) = same_unit ic w c && same_text ic ws s
same_text ic _ _ = false

is_whole : Option Text → Bool
is_whole (some []) = true
is_whole _ = false

strip-same_text : (ic : Bool) (w s : Text) → is_whole (strip_literal ic w s) ≡ same_text ic w s
unfolding is_whole strip_literal same_text
strip-same_text ic [] [] = refl
strip-same_text ic [] (c ∷ s) = refl
strip-same_text ic (w ∷ ws) [] = refl
strip-same_text ic (w ∷ ws) (c ∷ s) = ground (arith, strip-same_text ic ws s)

-- the groups of the first word that the text equals
find_same : Bool → List Word → Text → Option (List ℕ)
find_same ic [] s = none
find_same ic ((g, w) ∷ ws) s = if same_text ic w s then some g else find_same ic ws s

first_whole-select :
    (ic : Bool) (ws : List Word) (s : Text) → first_whole (select ic ws s) ≡ find_same ic ws s
unfolding first_whole select find_same is_whole
first_whole-select ic [] s = refl
first_whole-select ic ((g, w) ∷ ws) s =
    ground (arith, first_whole-select ic ws s, strip-same_text ic w s)

match_whole-find_same :
    (ic : Bool) (p : Pattern) (s : Text) → match_whole ic p s ≡ find_same ic (words p) s
unfolding match_whole
match_whole-find_same ic p s =
    ap first_whole (run-select ic p s) ∙ first_whole-select ic (words p) s

-- An ASCII character that is no capital equals what its lower case is.
abbrev IsLower : ℕ → Type 0
IsLower c = (c < 128) × ((c < b'A') ⊎ (b'Z' < c))

abbrev AllLower : Text → Type 0
AllLower [] = Unit {0}
AllLower (c ∷ cs) = IsLower c × AllLower cs

same_unit-lower : (w c : ℕ) → IsLower w → same_unit true w c ≡ (w == lower c)
unfolding same_unit lower
same_unit-lower w c h = ground arith

same_text-lower : (w s : Text) → AllLower w → same_text true w s ≡ (w === to_lower_case s)
unfolding same_text ◌===◌
same_text-lower [] [] h = refl
same_text-lower [] (c ∷ s) h = refl
same_text-lower (w ∷ ws) [] h = refl
same_text-lower (w ∷ ws) (c ∷ s) (h, hs) =
    ground (arith, same_unit-lower w c h, same_text-lower ws s hs)

same_text-exact : (w s : Text) → same_text false w s ≡ (w === s)
unfolding same_text same_unit ◌===◌
same_text-exact [] [] = refl
same_text-exact [] (c ∷ s) = refl
same_text-exact (w ∷ ws) [] = refl
same_text-exact (w ∷ ws) (c ∷ s) = ground (arith, same_text-exact ws s)

-- the value of the first entry under this key
unfoldable pub find {ℓ} : {V : Type ℓ} → Text → List (Text × V) → Option V
find k [] = none
find k ((w, v) ∷ ws) = if w === k then some v else find k ws

-- the words of a pattern with what is read from their groups
unfoldable pub table {ℓ} : {V : Type ℓ} → (List ℕ → V) → List Word → List (Text × V)
table f [] = []
table f ((g, w) ∷ ws) = (w, f g) ∷ table f ws

abbrev pub WordsLower : List Word → Type 0
WordsLower [] = Unit {0}
WordsLower ((g, w) ∷ ws) = AllLower w × WordsLower ws

module _ {ℓ} {V : Type ℓ} (f : List ℕ → V) where
  find-lower :
      (ws : List Word) (s : Text)
      → WordsLower ws
      → Option.map f (find_same true ws s) ≡ find (to_lower_case s) (table f ws)
  unfolding find_same find table
  find-lower [] s h = refl
  find-lower ((g, w) ∷ ws) s (h, hs) = ground (arith, same_text-lower w s h, find-lower ws s hs)

  find-exact :
      (ws : List Word) (s : Text) → Option.map f (find_same false ws s) ≡ find s (table f ws)
  unfolding find_same find table
  find-exact [] s = refl
  find-exact ((g, w) ∷ ws) s = ground (arith, same_text-exact w s, find-exact ws s)

  -- Under the flag `i` the matcher looks the lower-case text up among the words of the pattern.
  pub match_whole-ignore_case :
      (p : Pattern) (s : Text)
      → WordsLower (words p)
      → Option.map f (match_whole true p s) ≡ find (to_lower_case s) (table f (words p))
  match_whole-ignore_case p s h =
      ap (Option.map f) (match_whole-find_same true p s) ∙ find-lower (words p) s h

  pub match_whole-exact :
      (p : Pattern) (s : Text) → Option.map f (match_whole false p s) ≡ find s (table f (words p))
  match_whole-exact p s =
      ap (Option.map f) (match_whole-find_same false p s) ∙ find-exact (words p) s

-- A claim about every key of a table, and about the keys that are not found, holds for every key.
abbrev pub AllKeys {ℓ} : {V : Type ℓ} → (Text → Type 0) → List (Text × V) → Type 0
AllKeys P [] = Unit {0}
AllKeys P ((w, v) ∷ ws) = P w × AllKeys P ws

pub by_keys {ℓ} :
    {V : Type ℓ} (P : Text → Type 0) (ws : List (Text × V)) (k : Text)
    → AllKeys P ws
    → (find k ws ≡ none → P k)
    → P k
unfolding find
by_keys P [] k all other = other refl
by_keys P ((w, v) ∷ ws) k (here, all) other = elim (Bool-cases (w === k)) [
  | inl same ↦ subst P ((===_iff w k).0 same) here
  | inr differs ↦ by_keys P ws k all (λ e. other (rw differs e))
]
