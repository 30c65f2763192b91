-- ===== src/Grpc/ValidateResponse.antt =====
-- validate-response.ts of packages/connect-core/src/protocol-grpc.
use connect_web.Code.{Code, internal}
use connect_web.Text.Percent.{decode_uri_component}
use connect_web.Headers.{Headers, has, get}
use connect_web.Text.Decimal.{print}
use connect_web.Compression.{accepted_compression}
use connect_web.ConnectError.{Result-cases, ◌>>◌, ◌>>=◌, ok, throw_error, Result}
use connect_web.Envelope.{Compression}
use connect_web.Grpc.TrailerStatus.{find_trailer_error, StatusLibrary, throw_found, uri}
use connect_web.Prelude.{
  ℕ, Bool, true, false, List, ◌++◌, ◌≡◌, ap, ◌≢◌, ◌↔◌, inl, inr, Option, none, some, arith,
  if◌then◌else◌, Option-cases,
}
use connect_web.Text.{Text, codes}
use connect_web.Grpc.ContentType.{ParsedType, parse_content_type}
use connect_web.Grpc.HttpStatus.{code_from_http_status}
use connect_web.Grpc.RequestHeader.{
  header_content_type, header_encoding, header_grpc_message, header_grpc_status,
}

-- `headers.get(headerGrpcMessage) ?? `HTTP ${status}``
message_or_status : Option Text → ℕ → Text
message_or_status none status = codes "HTTP " ++ print status
message_or_status (some s) status = s

-- the error for a status
unfoldable pub throw_status : Headers → ℕ → Code → Result Bool
unfolding message_or_status uri decode_uri_component get
throw_status headers status code =
    uri (decode_uri_component (message_or_status (get headers header_grpc_message) status))
    >>= λ text. throw_error text code

or_question : Option Text → Text
or_question none = codes "?"
or_question (some s) = s

unfoldable pub throw_type : Option Text → Result Bool
unfolding or_question
throw_type mime_type =
    throw_error (codes "unexpected response content type " ++ or_question mime_type) internal

-- The result is `foundStatus`.
unfoldable pub found_status : StatusLibrary → Headers → Result Bool
unfolding find_trailer_error throw_found has
found_status lib headers = find_trailer_error lib headers >>= λ found.
    throw_found found >> ok (has headers header_grpc_status)

-- behind the check of the status
checked_type : StatusLibrary → Bool → Headers → Option Text → Option ParsedType → Result Bool
unfolding throw_type found_status
checked_type lib binary headers mime_type none = throw_type mime_type
checked_type lib true headers mime_type (some p) =
    if p.binary then found_status lib headers else throw_type mime_type
checked_type lib false headers mime_type (some p) =
    if p.binary then throw_type mime_type else found_status lib headers

by_status : StatusLibrary → Bool → ℕ → Headers → Option Code → Result Bool
unfolding throw_status checked_type parse_content_type get
by_status lib binary status headers (some code) = throw_status headers status code
by_status lib binary status headers none =
    checked_type lib binary headers (get headers header_content_type)
      (parse_content_type (get headers header_content_type))

unfoldable pub validate_response : StatusLibrary → Bool → ℕ → Headers → Result Bool
unfolding code_from_http_status by_status
validate_response lib binary status headers =
    by_status lib binary status headers (code_from_http_status status)

pub record ValidResponse : Type 0 where
  pub found_status : Bool
  pub compression : Option Compression

unfoldable pub validate_response_with_compression :
    StatusLibrary → Bool → List Compression → ℕ → Headers → Result ValidResponse
unfolding validate_response accepted_compression get
validate_response_with_compression lib binary accept status headers = do
  found ← validate_response lib binary status headers
  compression ← accepted_compression accept (get headers header_encoding)
  ok (record { found_status = found; compression = compression })

abbrev pub parsed : Bool → ParsedType
parsed binary = record { binary = binary }

pub found_status-ok :
    (lib : StatusLibrary) (headers : Headers) (found : Bool)
    → (found_status lib headers ≡ ok found)
      ↔ ((find_trailer_error lib headers ≡ ok none) × (found ≡ has headers header_grpc_status))
unfolding found_status throw_found
found_status-ok lib headers found = elim (Result-cases (find_trailer_error lib headers)) [
  | inl (none, e) ↦ ((λ h. (e, ground arith)), λ (h, k). ground arith)
  | inl (some x, e) ↦ ((λ h. absurd (ground arith)), λ (h, k). absurd (ground arith))
  | inr (x, e) ↦ ((λ h. absurd (ground arith)), λ (h, k). absurd (ground arith))
]

pub throw_status_never :
    (headers : Headers) (status : ℕ) (code : Code) (found : Bool)
    → throw_status headers status code ≢ ok found
unfolding throw_status uri
throw_status_never headers status code found h =
    elim (Option-cases
      (decode_uri_component (message_or_status (get headers header_grpc_message) status))) [
        | inl e ↦ absurd (ground arith)
        | inr (s, e) ↦ absurd (ground arith)
      ]

pub null_status : (status : ℕ) → (code_from_http_status status ≡ none) ↔ (status ≡ 200)
unfolding code_from_http_status
null_status status = ((λ h. ground arith), λ h. ground arith)

type_ext : {p q : ParsedType} → p.binary ≡ q.binary → some p ≡ some q
type_ext b = ap (λ x. some (record { binary = x })) b

or_else : ParsedType → Option ParsedType → ParsedType
or_else d none = d
or_else d (some p) = p

type_eq : {p q : ParsedType} → some p ≡ some q → p.binary ≡ q.binary
unfolding or_else
type_eq {p} {q} e = ap (λ o. let r = or_else p o in r.binary) e

checked_type-ok :
    (lib : StatusLibrary) (binary : Bool) (headers : Headers) (mime_type : Option Text)
    (p : Option ParsedType) (found : Bool)
    → (checked_type lib binary headers mime_type p ≡ ok found)
      ↔ ((p ≡ some (parsed binary)) × (found_status lib headers ≡ ok found))
unfolding checked_type throw_type
checked_type-ok lib binary headers mime_type none found =
    ((λ h. absurd (ground arith)), λ (h, k). absurd (ground arith))
checked_type-ok lib true headers mime_type (some p) found =
    ((λ h. (type_ext (ground arith), ground arith)), λ (e, h). let b = type_eq e in ground arith)
checked_type-ok lib false headers mime_type (some p) found =
    ((λ h. (type_ext (ground arith), ground arith)), λ (e, h). let b = type_eq e in ground arith)

-- A gRPC response is accepted exactly if the status is 200, the content type is that of the format,
-- and the headers hold no error; the result says whether they hold a status.
pub grpc_validate_response_iff :
    (lib : StatusLibrary) (binary : Bool) (status : ℕ) (headers : Headers) (found : Bool)
    → (validate_response lib binary status headers ≡ ok found) ↔ (
        (status ≡ 200)
        × ((parse_content_type (get headers header_content_type) ≡ some (parsed binary))
            × ((find_trailer_error lib headers ≡ ok none)
                × (found ≡ has headers header_grpc_status))))
unfolding validate_response by_status
grpc_validate_response_iff lib binary status headers found =
    let mime_type = get headers header_content_type in
    let type = checked_type-ok lib binary headers mime_type (parse_content_type mime_type) found in
    let stat = found_status-ok lib headers found in
    let null = null_status status in
    elim (Option-cases (code_from_http_status status)) [
      | inl e ↦ (
        (λ h. let (p, q) = type.0 (rw e at h) in let (r, s) = stat.0 q in (null.0 e, (p, (r, s)))),
        λ (h, (p, (r, s))). rw e (type.1 (p, stat.1 (r, s))),
      )
      | inr (c, e) ↦ (
        (λ h. absurd (throw_status_never headers status c found (rw e at h))),
        λ (h, (p, (r, s))). absurd (let n = null.1 h in ground arith),
      )
    ]
