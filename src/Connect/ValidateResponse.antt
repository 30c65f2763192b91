-- ===== src/Connect/ValidateResponse.antt =====
-- validate-response.ts of packages/connect-core/src/protocol-connect.
use connect_web.Code.{internal}
use connect_web.Text.Decimal.{print}
use connect_web.ConnectError.{◌>>=◌, ok, throw_error, Result}
use connect_web.Compression.{accepted_compression}
use connect_web.Connect.RequestHeader.{encoding_name, unary, is_unary_kind, MethodKind}
use connect_web.Headers.{Headers, get}
use connect_web.Envelope.{Compression}
use connect_web.Prelude.{
  ℕ, Bool, true, false, not, ◌&&◌, ◌||◌, List, ◌++◌, ◌≡◌, ap, ap₂, ◌↔◌, Option, none, some, arith,
  ◌==◌, if◌then◌else◌,
}
use connect_web.Text.{Text, codes}
use connect_web.Connect.ContentType.{ParsedType, parse_content_type}
use connect_web.Connect.HttpStatus.{code_from_http_status}

-- `${mimeType ?? "?"}`
or_question : Option Text → Text
or_question none = codes "?"
or_question (some s) = s

same : Bool → Bool → Bool
same true b = b
same false b = not b

-- the last check: the format and the kind of the method
unfoldable pub expected_type : MethodKind → Bool → Option Text → Option ParsedType → Result Bool
unfolding or_question same
expected_type kind binary mime_type none =
    throw_error
      (codes "unexpected response content type \"" ++ (or_question mime_type ++ codes "\""))
      internal
expected_type kind binary mime_type (some p) =
    if same p.binary binary && same p.stream (not (is_unary_kind kind))
    then ok false
    else throw_error
        (codes "unexpected response content type \"" ++ (or_question mime_type ++ codes "\""))
        internal

-- with a status that is not 200
not_ok : MethodKind → Bool → ℕ → Option Text → Option ParsedType → Result Bool
unfolding expected_type code_from_http_status
not_ok kind binary status mime_type none =
    throw_error (codes "HTTP " ++ print status) (code_from_http_status status)
not_ok kind binary status mime_type (some p) =
    if is_unary_kind kind && not p.stream && not p.binary
    then ok true
    else expected_type kind binary mime_type (some p)

judge : MethodKind → Bool → ℕ → Option Text → Option ParsedType → Result Bool
unfolding not_ok expected_type
judge kind binary status mime_type parsed =
    if status == 200
    then expected_type kind binary mime_type parsed
    else not_ok kind binary status mime_type parsed

-- The result is `isConnectUnaryError`.
unfoldable pub validate_response : MethodKind → Bool → ℕ → Headers → Result Bool
unfolding get parse_content_type judge
validate_response kind binary status headers =
    let mime_type = get headers (codes "Content-Type") in
    judge kind binary status mime_type (parse_content_type mime_type)

pub record ValidResponse : Type 0 where
  pub compression : Option Compression
  pub is_connect_unary_error : Bool

unfoldable pub validate_response_with_compression :
    MethodKind → Bool → List Compression → ℕ → Headers → Result ValidResponse
unfolding validate_response accepted_compression get
validate_response_with_compression kind binary accept status headers = do
  compression ← accepted_compression accept (get headers (encoding_name kind))
  unary_error ← validate_response kind binary status headers
  ok (record { compression = compression; is_connect_unary_error = unary_error })

abbrev pub parsed : MethodKind → Bool → ParsedType
parsed kind binary = record { stream = not (is_unary_kind kind); binary = binary }

type_ext : {p q : ParsedType} → p.stream ≡ q.stream → p.binary ≡ q.binary → some p ≡ some q
type_ext s b = ap₂ (λ x y. some (record { stream = x; binary = y })) s b

or_absent : ParsedType → Option ParsedType → ParsedType
or_absent d none = d
or_absent d (some p) = p

type_eq : {p q : ParsedType} → some p ≡ some q → (p.stream ≡ q.stream) × (p.binary ≡ q.binary)
unfolding or_absent
type_eq {p} {q} e =
    (ap (λ o. let r = or_absent p o in r.stream) e, ap (λ o. let r = or_absent p o in r.binary) e)

judge-ok :
    (kind : MethodKind) (binary : Bool) (status : ℕ) (mime_type : Option Text)
    (p : Option ParsedType)
    → (judge kind binary status mime_type p ≡ ok false) ↔ (
        (p ≡ some (parsed kind binary))
        × ((status == 200 || not (is_unary_kind kind) || binary) ≡ true))
unfolding judge not_ok expected_type same
judge-ok kind binary status mime_type none = ((λ e. ground arith), λ (e, f). ground arith)
judge-ok kind binary status mime_type (some p) = (
  (λ e. (type_ext (ground arith) (ground arith), ground arith)),
  λ (e, f). let (s, b) = type_eq e in ground arith,
)

judge-unary_error :
    (kind : MethodKind) (binary : Bool) (status : ℕ) (mime_type : Option Text)
    (p : Option ParsedType)
    → (judge kind binary status mime_type p ≡ ok true)
      ↔ ((p ≡ some (parsed unary false)) × ((not (status == 200) && is_unary_kind kind) ≡ true))
unfolding judge not_ok expected_type same
judge-unary_error kind binary status mime_type none = ((λ e. ground arith), λ (e, f). ground arith)
judge-unary_error kind binary status mime_type (some p) = (
  (λ e. (type_ext (ground arith) (ground arith), ground arith)),
  λ (e, f). let (s, b) = type_eq e in ground arith,
)

-- A response is taken for a successful one exactly if it has the content type of the method's kind
-- and format, and is not a unary JSON response with a status other than 200.
pub validate_response_iff-ok :
    (kind : MethodKind) (binary : Bool) (status : ℕ) (headers : Headers)
    → (validate_response kind binary status headers ≡ ok false) ↔ (
        (parse_content_type (get headers (codes "Content-Type")) ≡ some (parsed kind binary))
        × ((status == 200 || not (is_unary_kind kind) || binary) ≡ true))
unfolding validate_response
validate_response_iff-ok kind binary status headers =
    let mime_type = get headers (codes "Content-Type") in
    judge-ok kind binary status mime_type (parse_content_type mime_type)

-- A response is taken for a unary error exactly if the method is unary, the status is not 200 and
-- the content type is that of a unary JSON response, in whatever format the request was.
pub validate_response_iff-unary_error :
    (kind : MethodKind) (binary : Bool) (status : ℕ) (headers : Headers)
    → (validate_response kind binary status headers ≡ ok true) ↔ (
        (parse_content_type (get headers (codes "Content-Type")) ≡ some (parsed unary false))
        × ((not (status == 200) && is_unary_kind kind) ≡ true))
unfolding validate_response
validate_response_iff-unary_error kind binary status headers =
    let mime_type = get headers (codes "Content-Type") in
    judge-unary_error kind binary status mime_type (parse_content_type mime_type)
