-- ===== src/GrpcWeb/ValidateResponse.antt =====
-- validate-response.ts of packages/connect-core/src/protocol-grpc-web. What it shares with gRPC word
-- for word is taken from there.
use connect_web.Code.{invalid_argument, Code}
use connect_web.ConnectError.{◌>>=◌, throw_error, Result, ok}
use connect_web.Envelope.{Compression}
use connect_web.Headers.{has, Headers, get}
use connect_web.Compression.{accepted_compression}
use connect_web.Prelude.{
  ℕ, Bool, true, false, List, ◌≡◌, ap, ap₂, ◌↔◌, inl, inr, Option, none, some, arith, if◌then◌else◌,
  Option-cases,
}
use connect_web.Text.{Text, codes}
use connect_web.GrpcWeb.ContentType.{ParsedType, parse_content_type}
use connect_web.Grpc.HttpStatus.{code_from_http_status}
use connect_web.Grpc.TrailerStatus.{StatusLibrary, find_trailer_error}
use connect_web.Grpc.RequestHeader.{header_content_type, header_encoding, header_grpc_status}
use connect_web.Grpc.ValidateResponse.{
  throw_status, throw_type, found_status, ValidResponse, throw_status_never, null_status,
  found_status-ok,
}

-- behind the check of the format
not_text : StatusLibrary → Headers → Bool → Result Bool
unfolding found_status
not_text lib headers true = throw_error (codes "grpc-web-text is not supported") invalid_argument
not_text lib headers false = found_status lib headers

-- behind the check of the status
checked_type : StatusLibrary → Bool → Headers → Option Text → Option ParsedType → Result Bool
unfolding throw_type not_text
checked_type lib binary headers mime_type none = throw_type mime_type
checked_type lib true headers mime_type (some p) =
    if p.binary then not_text lib headers p.text else throw_type mime_type
checked_type lib false headers mime_type (some p) =
    if p.binary then throw_type mime_type else not_text lib headers p.text

by_status : StatusLibrary → Bool → ℕ → Headers → Option Code → Result Bool
unfolding throw_status checked_type parse_content_type get
by_status lib binary status headers (some code) = throw_status headers status code
by_status lib binary status headers none =
    checked_type lib binary headers (get headers header_content_type)
      (parse_content_type (get headers header_content_type))

-- The result is `foundStatus`.
unfoldable pub validate_response : StatusLibrary → Bool → ℕ → Headers → Result Bool
unfolding code_from_http_status by_status
validate_response lib binary status headers =
    by_status lib binary status headers (code_from_http_status status)

unfoldable pub validate_response_with_compression :
    StatusLibrary → Bool → List Compression → ℕ → Headers → Result ValidResponse
unfolding validate_response accepted_compression get
validate_response_with_compression lib binary accept status headers = do
  found ← validate_response lib binary status headers
  compression ← accepted_compression accept (get headers header_encoding)
  ok (record { found_status = found; compression = compression })

abbrev pub parsed : Bool → ParsedType
parsed binary = record { text = false; binary = binary }

type_ext : {p q : ParsedType} → p.text ≡ q.text → p.binary ≡ q.binary → some p ≡ some q
type_ext t b = ap₂ (λ x y. some (record { text = x; binary = y })) t b

or_else : ParsedType → Option ParsedType → ParsedType
or_else d none = d
or_else d (some p) = p

type_eq : {p q : ParsedType} → some p ≡ some q → (p.text ≡ q.text) × (p.binary ≡ q.binary)
unfolding or_else
type_eq {p} {q} e =
    (ap (λ o. let r = or_else p o in r.text) e, ap (λ o. let r = or_else p o in r.binary) e)

checked_type-ok :
    (lib : StatusLibrary) (binary : Bool) (headers : Headers) (mime_type : Option Text)
    (p : Option ParsedType) (found : Bool)
    → (checked_type lib binary headers mime_type p ≡ ok found)
      ↔ ((p ≡ some (parsed binary)) × (found_status lib headers ≡ ok found))
unfolding checked_type throw_type not_text
checked_type-ok lib binary headers mime_type none found =
    ((λ h. absurd (ground arith)), λ (h, k). absurd (ground arith))
checked_type-ok lib true headers mime_type (some p) found = (
  (λ h. (type_ext (ground arith) (ground arith), ground arith)),
  λ (e, h). let (t, b) = type_eq e in ground arith,
)
checked_type-ok lib false headers mime_type (some p) found = (
  (λ h. (type_ext (ground arith) (ground arith), ground arith)),
  λ (e, h). let (t, b) = type_eq e in ground arith,
)

-- A gRPC-web response is accepted exactly if the status is 200, the content type is that of the
-- format and not a text format, and the headers hold no error; the result says whether they hold a
-- status.
pub grpc_web_validate_response_iff :
    (lib : StatusLibrary) (binary : Bool) (status : ℕ) (headers : Headers) (found : Bool)
    → (validate_response lib binary status headers ≡ ok found) ↔ (
        (status ≡ 200)
        × ((parse_content_type (get headers header_content_type) ≡ some (parsed binary))
            × ((find_trailer_error lib headers ≡ ok none)
                × (found ≡ has headers header_grpc_status))))
unfolding validate_response by_status
grpc_web_validate_response_iff lib binary status headers found =
    let mime_type = get headers header_content_type in
    let type = checked_type-ok lib binary headers mime_type (parse_content_type mime_type) found in
    let stat = found_status-ok lib headers found in
    let null = null_status status in
    elim (Option-cases (code_from_http_status status)) [
      | inl e ↦ (
        (λ h. let (p, q) = type.0 (rw e at h) in let (r, s) = stat.0 q in (null.0 e, (p, (r, s)))),
        λ (h, (p, (r, s))). rw e (type.1 (p, stat.1 (r, s))),
      )
      | inr (c, e) ↦ (
        (λ h. absurd (throw_status_never headers status c found (rw e at h))),
        λ (h, (p, (r, s))). absurd (let n = null.1 h in ground arith),
      )
    ]
