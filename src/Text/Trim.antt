-- ===== src/Text/Trim.antt =====
-- `String.prototype.trim`: white space and line terminators at both ends.
use connect_web.Prelude.{ℕ, Bool, ◌&&◌, ◌||◌, [], ◌∷◌, leb, ◌==◌, if◌then◌else◌}
use mathlib.Core.List.{reverse}
use connect_web.Text.{Text}

-- WhiteSpace and LineTerminator of ECMA-262
unfoldable pub is_space : ℕ → Bool
is_space c =
    (leb 9 c && leb c 13)
    || c == 32
    || c == 160
    || c == 0x1680
    || (leb 0x2000 c && leb c 0x200a)
    || c == 0x2028
    || c == 0x2029
    || c == 0x202f
    || c == 0x205f
    || c == 0x3000
    || c == 0xfeff

unfoldable pub drop_while : (ℕ → Bool) → Text → Text
drop_while p [] = []
drop_while p (c ∷ cs) = if p c then drop_while p cs else c ∷ cs

-- the text without the characters of a class at its start and at its end
unfoldable pub strip : (ℕ → Bool) → Text → Text
strip p s = reverse (drop_while p (reverse (drop_while p s)))

unfoldable pub trim_start : Text → Text
trim_start = drop_while is_space

unfoldable pub trim : Text → Text
trim = strip is_space
