-- ===== src/Code.antt =====
-- packages/connect-core/src/code.ts: the error codes, their numbers and their names.
-- A numeric enum of TypeScript is a number at run time: a number that is not listed is `number`,
-- and what a lookup in a plain object inherits from `Object.prototype` is `inherited`.
pub mod Names
use connect_web.Prelude.{
  ℕ, zero, suc, ◌+◌, ◌-◌, ◌*◌, ◌/◌, ◌%◌, ◌^◌, ◌≤◌, ◌<◌, Bool, true, false, not, ◌&&◌, ◌||◌, List,
  [], ◌∷◌, ◌++◌, map, ℤ, pos, negsuc, ◌≡◌, refl, sym, ap, ap₂, ◌∙◌, ◌≢◌, ◌↔◌, ◌⊎◌, inl, inr, Option,
  none, some, String, arith, leb, ltb, ◌==◌, if◌then◌else◌, Bool-cases, Option-cases, ==_iff,
  leb→le, ltb→lt, lt→ltb, tests, length, length-append, take, drop, take-append-drop, length-take,
  length-drop, length-map, fun_ext, replicate, length-replicate, append-nil, append_assoc,
}
use connect_web.Text.{Text, codes, ◌===◌}
use connect_web.Text.Decimal.{print}

pub data Code : Type 0 where
  canceled unknown invalid_argument deadline_exceeded not_found already_exists : Code
  permission_denied resource_exhausted failed_precondition aborted out_of_range : Code
  unimplemented internal unavailable data_loss unauthenticated : Code
  number : ℤ → Code
  inherited : Text → Code

-- `Object.values(Code)` without the strings, in the order of the numbers 1 to 16
abbrev pub listed : List Code
listed =
    canceled ∷ unknown ∷ invalid_argument ∷ deadline_exceeded ∷ not_found ∷ already_exists
    ∷ permission_denied ∷ resource_exhausted ∷ failed_precondition ∷ aborted ∷ out_of_range
    ∷ unimplemented ∷ internal ∷ unavailable ∷ data_loss ∷ unauthenticated ∷ []

-- A number as a code; the key `n in Code` is there exactly for the listed ones.
unfoldable pub of_number : ℤ → Code
of_number (pos n) =
    if n == 1
    then canceled
    else if n == 2
    then unknown
    else if n == 3
    then invalid_argument
    else if n == 4
    then deadline_exceeded
    else if n == 5
    then not_found
    else if n == 6
    then already_exists
    else if n == 7
    then permission_denied
    else if n == 8
    then resource_exhausted
    else if n == 9
    then failed_precondition
    else if n == 10
    then aborted
    else if n == 11
    then out_of_range
    else if n == 12
    then unimplemented
    else if n == 13
    then internal
    else if n == 14
    then unavailable
    else if n == 15
    then data_loss
    else if n == 16
    then unauthenticated
    else number (pos n)
of_number (negsuc n) = number (negsuc n)

-- what `toString(10)` prints of a function or object that `Object.prototype` holds
unfoldable pub inherited_text : Text → Text
inherited_text p =
    if p === codes "__proto__"
    then codes "[object Object]"
    else if p === codes "constructor"
    then codes "function Object() { [native code] }"
    else codes "function " ++ (p ++ codes "() { [native code] }")

unfoldable pub print_ℤ : ℤ → Text
print_ℤ (pos n) = print n
print_ℤ (negsuc n) = b'-' ∷ print (suc n)

-- `code.toString(10)`
unfoldable pub print_number : Code → Text
unfolding print_ℤ inherited_text
print_number canceled = print 1
print_number unknown = print 2
print_number invalid_argument = print 3
print_number deadline_exceeded = print 4
print_number not_found = print 5
print_number already_exists = print 6
print_number permission_denied = print 7
print_number resource_exhausted = print 8
print_number failed_precondition = print 9
print_number aborted = print 10
print_number out_of_range = print 11
print_number unimplemented = print 12
print_number internal = print 13
print_number unavailable = print 14
print_number data_loss = print 15
print_number unauthenticated = print 16
print_number (number z) = print_ℤ z
print_number (inherited p) = inherited_text p

-- `Code[value]`, the reverse mapping of the enum
unfoldable pub enum_name : Code → Option Text
enum_name canceled = some (codes "Canceled")
enum_name unknown = some (codes "Unknown")
enum_name invalid_argument = some (codes "InvalidArgument")
enum_name deadline_exceeded = some (codes "DeadlineExceeded")
enum_name not_found = some (codes "NotFound")
enum_name already_exists = some (codes "AlreadyExists")
enum_name permission_denied = some (codes "PermissionDenied")
enum_name resource_exhausted = some (codes "ResourceExhausted")
enum_name failed_precondition = some (codes "FailedPrecondition")
enum_name aborted = some (codes "Aborted")
enum_name out_of_range = some (codes "OutOfRange")
enum_name unimplemented = some (codes "Unimplemented")
enum_name internal = some (codes "Internal")
enum_name unavailable = some (codes "Unavailable")
enum_name data_loss = some (codes "DataLoss")
enum_name unauthenticated = some (codes "Unauthenticated")
enum_name (number z) = none
enum_name (inherited p) = none

is_capital : ℕ → Bool
is_capital c = leb b'A' c && leb c b'Z'

lower_capital : ℕ → ℕ
unfolding is_capital
lower_capital c = if is_capital c then c + 32 else c

-- `.replace(/[A-Z]/g, (c) => "_" + c.toLowerCase())`
snake : Text → Text
unfolding is_capital
snake [] = []
snake (c ∷ cs) = if is_capital c then b'_' ∷ (c + 32) ∷ snake cs else c ∷ snake cs

snake_case : Text → Text
unfolding lower_capital snake
snake_case [] = []
snake_case (c ∷ cs) = lower_capital c ∷ snake cs

unfoldable pub code_to_string : Code → Text
unfolding enum_name snake_case print_number
code_to_string c = elim (enum_name c) [ none ↦ print_number c | some name ↦ snake_case name ]

-- the names that every plain object inherits
abbrev pub prototype_names : List Text
prototype_names =
    codes "constructor"
    ∷ codes "__defineGetter__"
    ∷ codes "__defineSetter__"
    ∷ codes "hasOwnProperty"
    ∷ codes "__lookupGetter__"
    ∷ codes "__lookupSetter__"
    ∷ codes "isPrototypeOf"
    ∷ codes "propertyIsEnumerable"
    ∷ codes "toString"
    ∷ codes "valueOf"
    ∷ codes "__proto__"
    ∷ codes "toLocaleString"
    ∷ []

-- the property of the object behind `stringToCode`, own or inherited
find_own : Text → List Code → Option Code
unfolding code_to_string
find_own s [] = none
find_own s (c ∷ cs) = if code_to_string c === s then some c else find_own s cs

find_inherited : Text → List Text → Option Code
find_inherited s [] = none
find_inherited s (p ∷ ps) = if p === s then some (inherited p) else find_inherited s ps

unfoldable pub code_from_string : Text → Option Code
unfolding find_own find_inherited
code_from_string s = elim (find_own s listed) [
  | some c ↦ some c
  | none ↦ find_inherited s prototype_names
]
