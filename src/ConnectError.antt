-- ===== src/ConnectError.antt =====
-- packages/connect-core/src/connect-error.ts: the error type, values that are thrown, and results.
use connect_web.Prelude.{
  ℕ, List, [], ◌∷◌, ◌++◌, map, ◌≡◌, refl, ap, ◌∙◌, ◌⊎◌, inl, inr, Option, none, some, if◌then◌else◌,
}
use connect_web.Text.{Text, codes, ◌===◌}
use connect_web.Headers.{Headers, copy}
use connect_web.Json.{Json}
use connect_web.Code.{Code, canceled, code_to_string}

abbrev pub Bytes : Type 0
Bytes = List ℕ

-- What the code asks of a protobuf message: its type name, `toBinary()`, and `toJson()` with the
-- configured options, `none` if that throws.
pub record Message : Type 0 where
  pub type_name : Text
  pub binary : Bytes
  pub json : Option Json

-- `(Message | IncomingDetail)`
pub data Detail : Type 0 where
  message : Message → Detail
  incoming : Text → Bytes → Option Json → Detail

-- `cause` holds the text of the underlying reason; nothing in the library reads it.
pub record ConnectError : Type 0 where
  pub text : Text
  pub raw_message : Text
  pub code : Code
  pub metadata : Headers
  pub details : List Detail
  pub cause : Option Text

create_message : Text → Code → Text
create_message [] code = b'[' ∷ (code_to_string code ++ codes "]")
create_message (c ∷ cs) code = b'[' ∷ (code_to_string code ++ (codes "] " ++ (c ∷ cs)))

-- `new ConnectError(message, code, metadata, outgoingDetails, cause)`
unfoldable pub new_error : Text → Code → Headers → List Message → Option Text → ConnectError
unfolding create_message
new_error msg code metadata details cause = record {
  text = create_message msg code;
  raw_message = msg;
  code = code;
  metadata = copy metadata;
  details = map message details;
  cause = cause;
}

-- the constructor with a message and a code only
abbrev pub simple_error : Text → Code → ConnectError
simple_error msg code = new_error msg code [] [] none

-- A value that is thrown: a ConnectError, another Error with its name and message, or any other
-- value, by the text that `String(reason)` gives.
pub data Reason : Type 0 where
  connect_error : ConnectError → Reason
  error_object : Text → Text → Reason
  other_value : Text → Reason

pub data Result {ℓ} (A : Type ℓ) : Type ℓ where
  ok : A → Result A
  err : Reason → Result A

infixl 5 ◌>>=◌ ◌>>◌
-- statements one behind another: what is thrown leaves out the rest
abbrev pub ◌>>=◌ {ℓ κ} : {A : Type ℓ} {B : Type κ} → Result A → (A → Result B) → Result B
err reason >>= rest = err reason
ok value >>= rest = rest value

-- `throw new ConnectError(message, code)`
abbrev pub throw_error {ℓ} : {A : Type ℓ} → Text → Code → Result A
throw_error msg code = err (connect_error (simple_error msg code))

-- a check in front of other statements
abbrev pub ◌>>◌ {ℓ} : {B : Type ℓ} → Result (Unit {0}) → Result B → Result B
check >> rest = check >>= λ _. rest

-- what an invalid header name or value throws
abbrev pub type_error : Reason
type_error = error_object (codes "TypeError") (codes "Invalid header")

-- an operation of `Headers` that may throw
abbrev pub checked : Option Headers → Result Headers
checked none = err type_error
checked (some h) = ok h

unfoldable pub connect_error_from_reason : Reason → Code → ConnectError
connect_error_from_reason (connect_error e) code = e
connect_error_from_reason (error_object name msg) code =
    if name === codes "AbortError" then simple_error msg canceled else simple_error msg code
connect_error_from_reason (other_value text) code = simple_error text code

-- `e instanceof Error ? e.message : String(e)`
unfoldable pub reason_text : Reason → Text
reason_text (connect_error e) = e.text
reason_text (error_object name msg) = msg
reason_text (other_value text) = text

-- a type registry: `findMessage(typeName)` and the `fromBinary` of the type found, which may throw
abbrev pub Registry : Type 0
Registry = Text → Option (Bytes → Option Message)

unfoldable pub decode_details : Registry → List Detail → List Message
decode_details find [] = []
decode_details find (message m ∷ ds) =
    let rest = decode_details find ds in elim (find m.type_name) [ none ↦ rest | some _ ↦ m ∷ rest ]
decode_details find (incoming type value debug ∷ ds) =
    let rest = decode_details find ds in
    elim (find type) [
      | none ↦ rest
      | some from_binary ↦ elim (from_binary value) [ none ↦ rest | some m ↦ m ∷ rest ]
    ]

unfoldable pub connect_error_details : ConnectError → Registry → List Message
unfolding decode_details
connect_error_details e find = decode_details find e.details

-- To split on a computed result and keep the equation.
pub Result-cases {ℓ} :
    {A : Type ℓ} (r : Result A) → ((a : A) × (r ≡ ok a)) ⊎ ((e : Reason) × (r ≡ err e))
Result-cases (ok a) = inl (a, refl)
Result-cases (err e) = inr (e, refl)

-- a first step that returns
pub ok_then {ℓ κ} :
    {A : Type ℓ} {B : Type κ} {m : Result A} {a : A} {r : Result B} (f : A → Result B)
    → m ≡ ok a
    → f a ≡ r
    → (m >>= f) ≡ r
ok_then f e g = ap (λ n. n >>= f) e ∙ g
