-- ===== src/Grpc/Timeout.antt =====
-- parse-timeout.ts of packages/connect-core/src/protocol-grpc.
use connect_web.Code.{invalid_argument}
use connect_web.ConnectError.{simple_error}
use connect_web.Text.Decimal.{
  length-print-gt, value-print, length-print-le, length-print-pos, print-AllDigits, value, print,
}
use connect_web.Connect.Timeout.{
  all_digits-AllDigits, invalid, nanoseconds, absent, all_digits, millisecond, Timeout,
}
use connect_web.Prelude.{
  ℕ, ◌*◌, ◌^◌, ◌≤◌, ◌<◌, ◌&&◌, [], ◌∷◌, ◌++◌, ◌≡◌, refl, Option, none, some, arith, leb, ◌==◌,
  if◌then◌else◌, length,
}
use connect_web.Text.{Text, codes}

-- `unitToMultiplicand`, for the units of `[HMSmun]`, in nanoseconds
unfoldable pub unit_to_multiplicand : ℕ → Option ℕ
unit_to_multiplicand c =
    if c == b'H'
    then some (60 * 60 * 1000 * millisecond)
    else if c == b'M'
    then some (60 * 1000 * millisecond)
    else if c == b'S'
    then some (1000 * millisecond)
    else if c == b'm'
    then some millisecond
    else if c == b'u'
    then some 1_000
    else if c == b'n'
    then some 1
    else none

-- a text without its last character, and that character
unfoldable pub split_last : Text → Option (Text × ℕ)
split_last [] = none
split_last (c ∷ cs) = elim (split_last cs) [ none ↦ some ([], c) | some (s, d) ↦ some (c ∷ s, d) ]

unfoldable pub in_unit : Text → Text → ℕ → Option ℕ → Timeout
unfolding all_digits value
in_unit s number unit none =
    invalid
      (simple_error (codes "protocol error: invalid grpc timeout value: " ++ s) invalid_argument)
in_unit s number unit (some multiplicand) =
    if leb 1 (length number) && leb (length number) 8 && all_digits number
    then nanoseconds (multiplicand * value number)
    else invalid
        (simple_error (codes "protocol error: invalid grpc timeout value: " ++ s) invalid_argument)

-- `/^(\d{1,8})([HMSmun])$/`
unfoldable pub parse_timeout : Option Text → Timeout
unfolding in_unit unit_to_multiplicand split_last
parse_timeout none = absent
parse_timeout (some s) = elim (split_last s) [
  | none ↦ in_unit s [] 0 none
  | some (number, unit) ↦ in_unit s number unit (unit_to_multiplicand unit)
]

split_last-append : (s : Text) (c : ℕ) → split_last (s ++ (c ∷ [])) ≡ some (s, c)
unfolding split_last
split_last-append [] c = refl
split_last-append (d ∷ s) c = rw (split_last-append s c) refl

-- Up to eight digits, a number that is printed with a unit is read as that many of the unit.
pub parse_timeout-unit :
    (t unit multiplicand : ℕ)
    → t < 10 ^ 8
    → unit_to_multiplicand unit ≡ some multiplicand
    → parse_timeout (some (print t ++ (unit ∷ []))) ≡ nanoseconds (multiplicand * t)
unfolding parse_timeout in_unit
parse_timeout-unit t unit multiplicand h u =
    let digits = all_digits-AllDigits (print t) (print-AllDigits t) in
    let some_digit = length-print-pos t in
    let few = length-print-le 7 t h in
    ground (arith, value-print t, split_last-append (print t) unit)

in_unit_too_long :
    (s number : Text) (unit : ℕ) (multiplicand : Option ℕ)
    → 8 < length number
    → in_unit s number unit multiplicand
      ≡ invalid (
          simple_error (codes "protocol error: invalid grpc timeout value: " ++ s) invalid_argument)
unfolding in_unit
in_unit_too_long s number unit none h = refl
in_unit_too_long s number unit (some m) h = ground arith

-- A number of more than eight digits that is printed with any unit is not read as a timeout.
pub parse_timeout_too_long :
    (t unit : ℕ)
    → 10 ^ 8 ≤ t
    → parse_timeout (some (print t ++ (unit ∷ [])))
      ≡ invalid (
          simple_error
            (codes "protocol error: invalid grpc timeout value: " ++ (print t ++ (unit ∷ [])))
            invalid_argument)
unfolding parse_timeout
parse_timeout_too_long t unit h = ground (
  arith,
  split_last-append (print t) unit,
  in_unit_too_long (print t ++ (unit ∷ [])) (print t) unit (unit_to_multiplicand unit)
      (length-print-gt 8 t h),
)
