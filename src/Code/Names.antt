-- ===== src/Code/Names.antt =====
-- Round trips between the codes and their names, in packages/connect-core/src/code.ts.
use connect_web.Code.{
  canceled, unknown, invalid_argument, deadline_exceeded, not_found, already_exists,
  permission_denied, resource_exhausted, failed_precondition, aborted, out_of_range, unimplemented,
  internal, unavailable, data_loss, unauthenticated, find_own, find_inherited, is_capital,
  lower_capital, snake, snake_case, enum_name, snake_case, snake, inherited, find_inherited, number,
  find_own, code_to_string, code_from_string, Code,
}
use connect_web.Prelude.{◌≡◌, refl, some}
use connect_web.Text.{◌===◌}

-- one of the sixteen codes of the enum
abbrev pub IsListed : Code → Type 0
IsListed (number z) = ⊥
IsListed (inherited p) = ⊥
IsListed _ = Unit {0}

-- Each of the sixteen codes is found again by the text that `codeToString` gives for it.
pub code_from_string-code_to_string :
    (c : Code) → IsListed c → code_from_string (code_to_string c) ≡ some c
unfolding code_from_string code_to_string find_own find_inherited ◌===◌ snake snake_case enum_name
    is_capital lower_capital
code_from_string-code_to_string canceled h = refl
code_from_string-code_to_string unknown h = refl
code_from_string-code_to_string invalid_argument h = refl
code_from_string-code_to_string deadline_exceeded h = refl
code_from_string-code_to_string not_found h = refl
code_from_string-code_to_string already_exists h = refl
code_from_string-code_to_string permission_denied h = refl
code_from_string-code_to_string resource_exhausted h = refl
code_from_string-code_to_string failed_precondition h = refl
code_from_string-code_to_string aborted h = refl
code_from_string-code_to_string out_of_range h = refl
code_from_string-code_to_string unimplemented h = refl
code_from_string-code_to_string internal h = refl
code_from_string-code_to_string unavailable h = refl
code_from_string-code_to_string data_loss h = refl
code_from_string-code_to_string unauthenticated h = refl
code_from_string-code_to_string (number z) h = elim h [ ]
code_from_string-code_to_string (inherited p) h = elim h [ ]
