-- ===== src/Connect/Timeout.antt =====
-- parse-timeout.ts of packages/connect-core/src/protocol-connect, and what both protocols return for a
-- timeout header. Times are in nanoseconds, so that the fractions of a millisecond of the gRPC units
-- are whole numbers.
use connect_web.Prelude.{
  ℕ, ◌*◌, ◌^◌, ◌<◌, Bool, true, ◌&&◌, [], ◌∷◌, ◌++◌, ◌≡◌, refl, Option, none, some, arith, leb,
  if◌then◌else◌, length,
}
use connect_web.Text.{Text, codes}
use connect_web.Text.Decimal.{
  is_digit, value, print, value-print, AllDigits, print-AllDigits, length-print-le,
  length-print-pos,
}
use connect_web.Code.{invalid_argument}
use connect_web.ConnectError.{ConnectError, simple_error}

-- `number | undefined | ConnectError`
pub data Timeout : Type 0 where
  absent : Timeout
  nanoseconds : ℕ → Timeout
  invalid : ConnectError → Timeout

abbrev pub millisecond : ℕ
millisecond = 1_000_000

unfoldable pub all_digits : Text → Bool
all_digits [] = true
all_digits (c ∷ cs) = is_digit c && all_digits cs

invalid_timeout : Text → Timeout
invalid_timeout s =
    invalid
      (simple_error (codes "protocol error: invalid connect timeout value: " ++ s) invalid_argument)

-- `/^\d{1,10}$/` and `parseInt`
unfoldable pub parse_timeout : Option Text → Timeout
unfolding invalid_timeout
parse_timeout none = absent
parse_timeout (some s) =
    if leb 1 (length s) && leb (length s) 10 && all_digits s
    then nanoseconds (value s * millisecond)
    else invalid_timeout s

pub all_digits-AllDigits : (s : Text) → AllDigits s → all_digits s ≡ true
unfolding all_digits
all_digits-AllDigits [] h = refl
all_digits-AllDigits (c ∷ cs) (h, hs) = ground (arith, all_digits-AllDigits cs hs)

-- Up to ten digits, a number of milliseconds that is printed is read as that time.
pub parse_timeout-print :
    (t : ℕ) → t < 10 ^ 10 → parse_timeout (some (print t)) ≡ nanoseconds (t * millisecond)
unfolding parse_timeout
parse_timeout-print t h =
    let digits = all_digits-AllDigits (print t) (print-AllDigits t) in
    let some_digit = length-print-pos t in
    let few = length-print-le 9 t h in ground (arith, value-print t)
